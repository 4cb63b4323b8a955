-- ===== src/Tests/Hosting.antt =====
-- Tests of the host's inputs (src/distributed_smb/application/gameplay/host.py).
use mas_dsmb.Prelude.{◌≡◌, ◌∷◌, refl, false, none, some, List, []}
use mas_dsmb.Tests.Integers.{integers}
use mas_dsmb.Tests.Failover.{claimant}
use mas_dsmb.Hosting.{Packet, player_input, other_packet, drain_remote_input_packets, idle_input}
use mas_dsmb.Shared.Roster.{RosterEntry, connected}
use mas_dsmb.Hosting.Rejoin.{check_for_rejoining_players}
use mas_dsmb.Hosting.Rejoined.{ReturnsNode, check_for_rejoining_players-Stays}
use mas_dsmb.Hosting.Inputs.{sequence_of, greatest_of, drain_remote_input_packets-greatest}

-- The middle packet arrives last.
abbrev packets : List Packet
packets =
    player_input "player2" 4 idle_input
    ∷ player_input "player2" 6 idle_input
    ∷ other_packet
    ∷ player_input "player2" 5 idle_input
    ∷ []

greatest : greatest_of "player2" none packets ≡ some 6
greatest = refl

drain_remote_input_packets-greatest_example :
    sequence_of integers "player2" (drain_remote_input_packets integers 1000 packets claimant)
    ≡ greatest_of "player2" none packets
drain_remote_input_packets-greatest_example =
    drain_remote_input_packets-greatest integers "player2" 1000 packets claimant

-- The second player comes back from another address.
abbrev moved : RosterEntry
moved = record {
  player_id = "player2";
  host = "e";
  udp_port = 50020;
  join_index = 1;
  status = connected;
  is_host = false;
}

check_for_rejoining_players-Stays_example :
    ReturnsNode integers claimant
      (check_for_rejoining_players integers 1000 (some (moved ∷ [])) claimant)
check_for_rejoining_players-Stays_example =
    check_for_rejoining_players-Stays integers 1000 (some (moved ∷ [])) claimant refl
