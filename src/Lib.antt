-- ===== src/Lib.antt =====
-- A distributed platform game: nodes meet in a lobby, one of them hosts the simulation, the others
-- predict it and correct themselves by its snapshots, and elect a new host when it crashes.
--
-- Parts, and where they are modelled (paths under src/distributed_smb):
-- Shared: the roster of participants (shared/roster.py), player ids (shared/config.py) and the
--   lobby's messages with the checks of their constructors (shared/messages/session.py, common.py).
-- Lobby: `LobbyManager` of network/lobby/service.py as functions on the dictionary of sessions,
--   and, in Lobby.Endpoint, `lobby_endpoint`: the handler of one WebSocket, with its replies,
--   broadcasts and error paths, in a monad of a state and a result.
-- Election: application/election/{coordinator,timeout_watcher,env_state_buffer}.py, the state
--   machine of one node; a run is a sequence of clock readings and claims in any order.
-- Failover: a node's election and promotion (application/election/mixin.py, with the parts of
--   application/gameplay/{client,events}.py that it calls). What a node sends or starts is a list of
--   actions in its state. It uses Election, Shared.Roster, the game engine and the checks of Wire's
--   messages: the election's tick raises what a constructor raises. Handlers that answer a message
--   (`on_election_ack`, `on_new_host_claim_from`) are those of a node with an address and a session.
-- Hosting: the drain of the players' input packets and the input map of a tick
--   (application/gameplay/host.py), on the node's state of Failover.
--   Hosting.Rejoin readmits the players that come back through the lobby; Hosting.Events evicts
--   silent players and applies the messages of the relay (application/gameplay/events.py).
-- Wire: network/serializer.py with the schemas (shared/messages/schemas.py), the message tags
--   (shared/enums.py) and the checks of every message's constructor (shared/messages). Wire.Encode
--   builds the dictionaries, Wire.Decode reads them; a datagram is the text of one. Wire.World is the
--   world state in a message: its dictionary and its rebuilding (domain/world.py, entity.py), whose
--   fields are values of JSON as Python's constructors take them.
-- Agents: agents/{models,controller}.py and application/agent_integration.py: what an enemy sees,
--   the bounded queues between the agents and the game, and the tick with the agents' commands. It
--   uses the game engine.
-- Recovery: shared/session_metadata.py and application/recovery: what a node writes down and how it
--   finds its session again. It uses Wire and the node of Failover.
-- Handshake: application/lobby/coordinator.py: the phases in which a node enters a game, as runs over
--   the turns of its WebSocket. It uses Wire, Recovery and the game engine.
-- Following: the client's part of application/gameplay/client.py: predicted ticks, the prediction
--   lead, the snapshots that arrive and the gliding display. It uses Failover and Prediction.
-- Shadows: domain/shadow_copy.py and `_update_shadow_copies` of the client: the smoothed display of
--   remote players, by dead reckoning.
-- Relay: network/game_events/server.py: the sockets over which the host's events go out, and the
--   queue of the players that left, as steps in any order; Hosting.Events polls such a queue.
-- Prediction: application/reconciliation/prediction_engine.py over an interface `Simulation`;
--   Prediction.Engine fills the interface with the game engine.
-- Domain: the world (domain/entity.py, world.py, events.py), collisions.py, physics.py and the
--   game engine (domain/game_engine.py) with the whole of its `tick` and `reset_for_new_run`.
-- Tests: runs on small inputs, and the theorems applied to them.
--
-- Conventions. A method that changes an object returns the changed value; a name of the source is
-- kept, and a loop's body is a function of its own. A dictionary is a list of pairs in insertion
-- order, a set a list without repetitions. Times are whole milliseconds. Numbers of positions and
-- speeds are floats in the source: their type, operations and order are the parameter `Scalar`, of
-- which only the order's totality and transitivity are assumed. Python's integers that stand for
-- ports, indices and sequence numbers are natural numbers. A deadline of 0.0 is `none`.
--
-- Libraries. pydantic is the parameter `FieldTypes`: what a field of a declared type reads, with the
-- law that it takes a value of its type as it is. The recovery prober that the election falls back
-- to is an argument there; Recovery models it. The text of JSON is the parameter `Encoding`, with
-- the law that what was written is read back. Division and the length of a vector are
-- `Geometry`, and an argument in Shadows.
--
-- Bounds and fuel. The loops over lists are structural recursions. Fuel stands in two places: the
-- printing of decimal numbers has one unit for each digit, and reading the digits back shows that it
-- is enough; the loop that puts an item into a bounded queue has one unit more than the queue has
-- items, and the lemmas of Agents.Queue show that it is enough. `max_players` is 4 as in
-- shared/config.py.
--
-- Not modelled. Sockets, containers, threads and the text of files; the presentation; the agent
-- platform behind the bridge's queues; and the level file's parser. The engine reads the clock at each
-- use: here one reading serves a whole tick. Handlers of different WebSockets are not interleaved within one message.
pub mod Prelude
pub mod Shared
pub mod Lobby
pub mod Election
pub mod Prediction
pub mod Domain
pub mod Failover
pub mod Hosting
pub mod Wire
pub mod Agents
pub mod Recovery
pub mod Handshake
pub mod Following
pub mod Shadows
pub mod Relay
pub mod Tests
