-- ===== src/Shared/Roster.antt =====
-- src/distributed_smb/shared/roster.py: the session's participants, in the order in which this node
-- learned of them. Python's integers are natural numbers here: every schema refuses negative ones.
pub mod Host
pub mod Membership
pub mod Order
use mas_dsmb.Prelude.{
  ◌≡◌, ◌&&◌, ◌∷◌, ◌++◌, ◌==◌, if◌then◌else◌, ℕ, String, Bool, true, not, Option, List, [], map, ltb,
  leb, any, find?, filter, distinct, Result, ok, err, nat_Eq, text_Eq,
}

-- src/distributed_smb/shared/enums.py
pub data ConnectionStatus : Type 0 where
  connected disconnected : ConnectionStatus

pub data RosterValidationError : Type 0 where
  invalid_player_id invalid_host port_out_of_range negative_join_index duplicate_join_index :
      RosterValidationError

pub record RosterEntry : Type 0 where
  pub player_id : String
  pub host : String
  pub udp_port : ℕ
  pub join_index : ℕ
  pub status : ConnectionStatus
  pub is_host : Bool

abbrev pub GlobalRoster : Type 0
GlobalRoster = List RosterEntry

-- `__post_init__`: what the constructor of an entry raises, or the entry.
unfoldable pub validate : RosterEntry → Result RosterValidationError RosterEntry
validate entry =
    if entry.player_id == ""
    then err invalid_player_id
    else if entry.host == ""
    then err invalid_host
    else if not (leb 1024 entry.udp_port && leb entry.udp_port 65535)
    then err port_out_of_range
    else if ltb entry.join_index 0
    then err negative_join_index
    else ok entry

abbrev pub has_index : ℕ → RosterEntry → Bool
has_index index entry = entry.join_index == index

abbrev pub has_id : String → RosterEntry → Bool
has_id player_id entry = entry.player_id == player_id

unfoldable pub add_player : RosterEntry → GlobalRoster → Result RosterValidationError GlobalRoster
add_player entry players =
    if any (has_index entry.join_index) players
    then err duplicate_join_index
    else ok (players ++ entry ∷ [])

unfoldable pub get_player : String → GlobalRoster → Option RosterEntry
get_player player_id players = find? (has_id player_id) players

unfoldable pub get_host : GlobalRoster → Option RosterEntry
get_host players = find? (λ p. p.is_host) players

unfoldable pub remove_player : String → GlobalRoster → GlobalRoster
remove_player player_id players = filter (λ p. not (has_id player_id p)) players

unfoldable pub promote_host : String → GlobalRoster → GlobalRoster
promote_host player_id players = map flag players
  where
    flag : RosterEntry → RosterEntry
    flag p = record p { is_host = has_id player_id p }

-- An entry goes in front of the first one whose join index is not smaller: the sort is stable.
unfoldable pub place : RosterEntry → GlobalRoster → GlobalRoster
place entry [] = entry ∷ []
place entry (p ∷ rest) =
    let later = place entry rest in
    if leb entry.join_index p.join_index then entry ∷ p ∷ rest else p ∷ later

-- `sorted(self.players, key=lambda p: p.join_index)`
unfoldable pub get_all_players : GlobalRoster → GlobalRoster
unfolding place
get_all_players [] = []
get_all_players (p ∷ rest) = place p (get_all_players rest)

-- No two participants share a join index.
abbrev pub HasDistinctIndices : GlobalRoster → Type 0
HasDistinctIndices players = distinct (map (λ p. p.join_index) players) ≡ true
