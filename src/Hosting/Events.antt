-- ===== src/Hosting/Events.antt =====
-- What reaches a node beside its frames: src/distributed_smb/application/gameplay/events.py, with the
-- lookups of domain/world.py. The relay that tells of lost connections and delivers the messages is
-- an argument: the lists of what it holds. Times are whole milliseconds. A gate's state is sent as
-- one of the two texts of its type. Log output is left out.
use mas_dsmb.Prelude.{
  ◌>>=◌, ◌-◌, ◌&&◌, ◌∷◌, ◌==◌, if◌then◌else◌, ℕ, String, Bool, true, false, Option, none, some,
  List, [], map, ltb, Dict, lookup, Result, ok, nat_Eq, text_Eq,
}
use mas_dsmb.Shared.Roster.{RosterValidationError, GlobalRoster}
use mas_dsmb.Domain.Scalar.{Scalar}
use mas_dsmb.Domain.World.{
  DestructibleBlock, ExclusivePowerUp, CooperativeGate, GateState, remove_player,
}
use mas_dsmb.Domain.Engine.{reset_for_new_run}
use mas_dsmb.Failover.Node.{Node, perform, relayed, player_left, evict_player, with_world}
use mas_dsmb.Failover.Claims.{on_new_host_claim_from, on_election_ack}
use mas_dsmb.Failover.Watch.{on_reconnection_ack}
use mas_dsmb.Hosting.Rejoin.{merge_roster}

-- `UDP_INPUT_TIMEOUT`
abbrev pub udp_input_timeout : ℕ
udp_input_timeout = 10000

module _ (scalar : Scalar) where
  open scalar use {Number, le}

  -- A message of the relay that `_drain_game_events` acts upon, or another one.
  pub data GameMessage : Type 0 where
    block_destroyed : Number → Number → GameMessage
    power_up_collected : String → String → GameMessage
    gate_state_changed : String → GateState → GameMessage
    left : String → GameMessage
    died : String → GameMessage
    level_reset : GameMessage
    claimed : String → ℕ → GameMessage
    acknowledged : String → GameMessage
    reconnect : String → ℕ → ℕ → GameMessage
    roster_update : GlobalRoster → GameMessage
    other_message : GameMessage

  unfoldable pub evict_and_tell : String → Node scalar → Node scalar
  evict_and_tell player_id n =
      perform scalar (relayed (player_left player_id)) (evict_player scalar player_id n)

  unfoldable pub evict_each : List String → Node scalar → Node scalar
  unfolding evict_and_tell
  evict_each [] n = n
  evict_each (player_id ∷ rest) n = evict_each rest (evict_and_tell player_id n)

  unfoldable pub is_silent : ℕ → Option ℕ → Bool
  is_silent now none = false
  is_silent now (some last) = ltb udp_input_timeout (now - last)

  -- The loop over a copy of the keys: each is looked up as the dictionary then is.
  unfoldable pub evict_silent : ℕ → List String → Node scalar → Node scalar
  unfolding is_silent evict_and_tell
  evict_silent now [] n = n
  evict_silent now (player_id ∷ rest) n =
      evict_silent now rest (
        if is_silent now (lookup player_id n.last_input_time)
        then evict_and_tell player_id n
        else n)

  unfoldable pub check_player_disconnections : ℕ → List String → Node scalar → Node scalar
  unfolding evict_each evict_silent
  check_player_disconnections now disconnected n =
      let told = evict_each disconnected n in
      evict_silent now (map (λ (entry : String × ℕ). entry.0) told.last_input_time) told

  abbrev same_number : Number → Number → Bool
  same_number a b = le a b && le b a

  -- `get_block`, and the change of what it returns: the first block at the position.
  unfoldable pub destroy_at :
      Number → Number → List (DestructibleBlock scalar) → List (DestructibleBlock scalar)
  destroy_at x y [] = []
  destroy_at x y (b ∷ rest) =
      let later = destroy_at x y rest in
      if same_number b.box.x x && same_number b.box.y y
      then record b { destroyed = true } ∷ rest
      else b ∷ later

  -- `get_power_up` and `get_gate`: an object of the dictionary is changed in place.
  unfoldable pub change : {A : Type 0} → (A → A) → String → Dict String A → Dict String A
  change f key [] = []
  change f key ((k, v) ∷ d) =
      let later = change f key d in if k == key then (k, f v) ∷ d else (k, v) ∷ later

  unfoldable pub collect_by : String → ExclusivePowerUp scalar → ExclusivePowerUp scalar
  collect_by player_id p = record p { collected = true; owner = some player_id }

  unfoldable pub set_state : GateState → CooperativeGate scalar → CooperativeGate scalar
  set_state new_state g = record g { state = new_state }

  -- One turn of `_drain_game_events`.
  unfoldable pub apply_message :
      ℕ → GameMessage → Node scalar → Result RosterValidationError (Node scalar)
  unfolding destroy_at change collect_by set_state
  apply_message now (block_destroyed x y) n = ok (
      with_world scalar
        (λ w. record w {
          environment = record (w.environment) {
            destructible_blocks = destroy_at x y w.environment.destructible_blocks;
          };
        })
        n)
  apply_message now (power_up_collected powerup_id player_id) n = ok (
      with_world scalar
        (λ w. record w {
          environment = record (w.environment) {
            power_ups = change (collect_by player_id) powerup_id w.environment.power_ups;
          };
        })
        n)
  apply_message now (gate_state_changed gate_id new_state) n = ok (
      with_world scalar
        (λ w. record w {
          environment = record (w.environment) {
            cooperative_gates =
                change (set_state new_state) gate_id w.environment.cooperative_gates;
          };
        })
        n)
  apply_message now (left player_id) n =
      ok (if player_id == n.local_player_id then n else evict_player scalar player_id n)
  apply_message now (died player_id) n = ok (with_world scalar (remove_player scalar player_id) n)
  apply_message now level_reset n = ok (record n { engine = reset_for_new_run scalar n.engine })
  apply_message now (claimed claimer_ip claimer_join_index) n =
      ok (on_new_host_claim_from scalar now claimer_ip claimer_join_index n)
  apply_message now (acknowledged from_ip) n = ok (on_election_ack scalar now from_ip n)
  apply_message now (reconnect new_host_ip udp_port game_events_port) n =
      ok (on_reconnection_ack scalar new_host_ip udp_port game_events_port n)
  apply_message now (roster_update roster) n = merge_roster scalar roster n
  apply_message now other_message n = ok n

  unfoldable pub drain_game_events :
      ℕ → List GameMessage → Node scalar → Result RosterValidationError (Node scalar)
  unfolding apply_message
  drain_game_events now [] n = ok n
  drain_game_events now (message ∷ rest) n =
      apply_message now message n >>= (λ after. drain_game_events now rest after)
