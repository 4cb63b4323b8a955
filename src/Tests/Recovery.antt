-- ===== src/Tests/Recovery.antt =====
-- A node that writes itself down and reads it back.
use mas_dsmb.Prelude.{◌≡◌, refl, some, arith, ok}
use mas_dsmb.Shared.PlayerId.{player_id_for, decimal}
use mas_dsmb.Recovery.{read_session_metadata, write_session_metadata}
use mas_dsmb.Recovery.Probe.{metadata_of}
use mas_dsmb.Recovery.RoundTrip.{read-write_session_metadata}
use mas_dsmb.Tests.Integers.{integers}
use mas_dsmb.Tests.Failover.{claimant}

named : claimant.local_player_id ≡ player_id_for claimant.join_index
unfolding player_id_for decimal
named = refl

read-write_session_metadata_example :
    read_session_metadata (write_session_metadata (metadata_of integers claimant))
    ≡ ok (some (metadata_of integers claimant))
read-write_session_metadata_example =
    read-write_session_metadata integers claimant named (omega arith)
