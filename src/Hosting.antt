-- ===== src/Hosting.antt =====
-- The host's side of a frame: the packets that it drains, each with the address that it comes from,
-- and the inputs of the tick (src/distributed_smb/application/gameplay/host.py). Counters for the
-- log are left out.
pub mod Inputs
pub mod Rejoin
pub mod Seating
pub mod Rejoined
pub mod Events
use mas_dsmb.Prelude.{
  ◌∷◌, ◌==◌, if◌then◌else◌, ℕ, String, Bool, false, Option, none, some, List, [], leb, Dict, lookup,
  insert, nat_Eq, text_Eq,
}
use mas_dsmb.Shared.Roster.{RosterEntry}
use mas_dsmb.Domain.Scalar.{Scalar}
use mas_dsmb.Domain.World.{InputState}
use mas_dsmb.Failover.Node.{Node, others, perform, datagram, host_identity_response}

-- What a datagram decodes to.
pub data Packet : Type 0 where
  probe : String → String → ℕ → Packet
  player_input : String → ℕ → InputState → Packet
  other_packet : Packet

-- `decoded.sequence_number <= last_sequence`, where no number is -1.
unfoldable pub is_late : Option ℕ → ℕ → Bool
is_late none number = false
is_late (some last) number = leb number last

-- `InputState()`
abbrev pub idle_input : InputState
idle_input = record { left = false; right = false; jump = false; down = false }

unfoldable pub input_or_idle : Option InputState → InputState
input_or_idle none = idle_input
input_or_idle (some input) = input

module _ (scalar : Scalar) where
  unfoldable pub accept_input : ℕ → String → ℕ → InputState → Node scalar → Node scalar
  accept_input now player_id number input n = record n {
    last_remote_input_sequence = insert player_id number n.last_remote_input_sequence;
    cached_remote_inputs = insert player_id input n.cached_remote_inputs;
    last_input_time = insert player_id now n.last_input_time;
  }

  unfoldable pub receive_packet : ℕ → Packet → Node scalar → Node scalar
  receive_packet now (probe session_id address port) n =
      if session_id == n.session_id
      then perform scalar (datagram (host_identity_response n.session_id n.local_ip) address port) n
      else n
  receive_packet now (player_input player_id number input) n =
      if is_late (lookup player_id n.last_remote_input_sequence) number
      then n
      else accept_input now player_id number input n
  receive_packet now other_packet n = n

  unfoldable pub drain_remote_input_packets : ℕ → List Packet → Node scalar → Node scalar
  drain_remote_input_packets now [] n = n
  drain_remote_input_packets now (packet ∷ rest) n =
      drain_remote_input_packets now rest (receive_packet now packet n)

  unfoldable pub remote_inputs :
      List RosterEntry → Dict String InputState → Dict String InputState → Dict String InputState
  remote_inputs [] cached inputs = inputs
  remote_inputs (e ∷ rest) cached inputs =
      remote_inputs rest cached
        (insert e.player_id (input_or_idle (lookup e.player_id cached)) inputs)

  unfoldable pub build_host_inputs : InputState → Node scalar → Dict String InputState
  build_host_inputs local_input n =
      remote_inputs (others scalar n) n.cached_remote_inputs ((n.local_player_id, local_input) ∷ [])
