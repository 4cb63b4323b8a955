-- ===== src/Wire/MessageType.antt =====
-- The tags of messages: `MessageType` of src/distributed_smb/shared/enums.py. Its members are texts.
use mas_dsmb.Prelude.{◌≡◌, ◌∷◌, ◌==◌, String, refl, Option, some, List, [], find?, nat_Eq, text_Eq}

pub data MessageType : Type 0 where
  player_input world_state host_discovery_probe host_identity_response : MessageType
  session_create session_join session_recreate session_leave game_start : MessageType
  initial_state_sync session_created session_joined roster_update session_closed : MessageType
  session_join_rejected new_host_claim election_ack reconnection_ack : MessageType
  block_destroyed_message powerup_collected_message gate_state_changed_message : MessageType
  player_left player_disconnected player_death_message level_reset_message : MessageType

unfoldable pub tag : MessageType → String
tag player_input = "player_input"
tag world_state = "world_state"
tag host_discovery_probe = "host_discovery_probe"
tag host_identity_response = "host_identity_response"
tag session_create = "session_create"
tag session_join = "session_join"
tag session_recreate = "session_recreate"
tag session_leave = "session_leave"
tag game_start = "game_start"
tag initial_state_sync = "initial_state_sync"
tag session_created = "session_created"
tag session_joined = "session_joined"
tag roster_update = "roster_update"
tag session_closed = "session_closed"
tag session_join_rejected = "session_join_rejected"
tag new_host_claim = "new_host_claim"
tag election_ack = "election_ack"
tag reconnection_ack = "reconnection_ack"
tag block_destroyed_message = "block_destroyed_message"
tag powerup_collected_message = "powerup_collected_message"
tag gate_state_changed_message = "gate_state_changed_message"
tag player_left = "player_left"
tag player_disconnected = "player_disconnected"
tag player_death_message = "player_death_message"
tag level_reset_message = "level_reset_message"

abbrev all_types : List MessageType
all_types =
    player_input ∷ world_state ∷ host_discovery_probe ∷ host_identity_response ∷ session_create
    ∷ session_join ∷ session_recreate ∷ session_leave ∷ game_start ∷ initial_state_sync
    ∷ session_created ∷ session_joined ∷ roster_update ∷ session_closed ∷ session_join_rejected
    ∷ new_host_claim ∷ election_ack ∷ reconnection_ack ∷ block_destroyed_message
    ∷ powerup_collected_message ∷ gate_state_changed_message ∷ player_left ∷ player_disconnected
    ∷ player_death_message ∷ level_reset_message ∷ []

-- The member that a text is equal to, if any: the comparisons `message_type == MessageType.X`.
unfoldable pub type_of : String → Option MessageType
unfolding tag
type_of s = find? (λ t. tag t == s) all_types

pub type_of-tag : (t : MessageType) → type_of (tag t) ≡ some t
unfolding type_of tag
type_of-tag player_input = refl
type_of-tag world_state = refl
type_of-tag host_discovery_probe = refl
type_of-tag host_identity_response = refl
type_of-tag session_create = refl
type_of-tag session_join = refl
type_of-tag session_recreate = refl
type_of-tag session_leave = refl
type_of-tag game_start = refl
type_of-tag initial_state_sync = refl
type_of-tag session_created = refl
type_of-tag session_joined = refl
type_of-tag roster_update = refl
type_of-tag session_closed = refl
type_of-tag session_join_rejected = refl
type_of-tag new_host_claim = refl
type_of-tag election_ack = refl
type_of-tag reconnection_ack = refl
type_of-tag block_destroyed_message = refl
type_of-tag powerup_collected_message = refl
type_of-tag gate_state_changed_message = refl
type_of-tag player_left = refl
type_of-tag player_disconnected = refl
type_of-tag player_death_message = refl
type_of-tag level_reset_message = refl
