-- ===== src/Stage/Room.antt =====
-- crates/proscenium-types/src/stage.rs and src-tauri/src/stage/state.rs: the messages of a live
-- room, the events for the frontend and the state of a session. Handles of running tasks are
-- Booleans that say whether the task is there; what a handler starts, stops or sends is an effect.
pub mod Handler
pub mod Moderation
pub mod Lifecycle
pub mod Actor
mod Tests
use proscenium.Common.{ℕ, Bool, true, false, Option, none, some, List, [], ◌∷◌, ◌==◌, ◌||◌, lookup}
use proscenium.Stage.Topology.{TopologyManager}

pub data StageRole : Type 0 where
  host co_host speaker listener : StageRole

-- The room id comes first, then the fields in the source's order. Texts are lists of characters.
pub data StageControl : Type 0 where
  announce : ℕ → List ℕ → ℕ → ℕ → StageControl
  end_room : ℕ → StageControl
  presence : ℕ → ℕ → StageRole → ℕ → Option ℕ → StageControl
  relay_volunteer : ℕ → ℕ → ℕ → ℕ → StageControl
  relay_assignment : ℕ → ℕ → ℕ → List ℕ → StageControl
  raise_hand lower_hand promote_speaker demote_speaker mute_speaker : ℕ → ℕ → StageControl
  self_mute_toggle : ℕ → ℕ → Bool → StageControl
  kick ban : ℕ → ℕ → StageControl
  reaction chat : ℕ → ℕ → List ℕ → StageControl

pub record SignedStageControl : Type 0 where
  pub sender_pubkey : ℕ
  pub control : StageControl
  pub timestamp : ℕ
  pub signature : List ℕ

pub record StageTicket : Type 0 where
  pub stage_id : ℕ
  pub host_pubkey : ℕ
  pub host_node_id : ℕ
  pub title : List ℕ

pub record StageParticipant : Type 0 where
  pub pubkey : ℕ
  pub role : StageRole
  pub display_name : Option (List ℕ)
  pub avatar_hash : Option (List ℕ)
  pub hand_raised : Bool
  pub self_muted : Bool
  pub host_muted : Bool

pub record StageState : Type 0 where
  pub stage_id : ℕ
  pub title : List ℕ
  pub host_pubkey : ℕ
  pub my_pubkey : ℕ
  pub my_role : StageRole
  pub participants : List StageParticipant
  pub started_at : ℕ
  pub ticket : Option (List ℕ)

pub data StageEvent : Type 0 where
  state_snapshot : StageState → StageEvent
  participant_joined : ℕ → StageRole → StageEvent
  participant_left : ℕ → StageEvent
  role_changed : ℕ → StageRole → StageEvent
  mute_changed : ℕ → Bool → Bool → StageEvent
  hand_raised_event hand_lowered_event : ℕ → StageEvent
  reaction_event chat_event : ℕ → List ℕ → StageEvent
  ended : ℕ → StageEvent
  kicked : StageEvent
  auth_failed : ℕ → List ℕ → StageEvent

pub record Participant : Type 0 where
  pub pubkey : ℕ
  pub role : StageRole
  pub hand_raised : Bool
  pub self_muted : Bool
  pub host_muted : Bool
  pub last_seen_ms : ℕ
  pub node_id : Option ℕ

pub record ActiveStage : Type 0 where
  pub stage_id : ℕ
  pub title : List ℕ
  pub host_pubkey : ℕ
  pub my_pubkey : ℕ
  pub my_role : StageRole
  pub self_muted : Bool
  pub started_at : ℕ
  pub participants : List (ℕ × Participant)
  pub topology : Option TopologyManager
  pub is_relay : Bool
  pub ticket : Option StageTicket
  pub listener_upstream_id : Option ℕ
  pub has_listener_pipeline : Bool
  pub has_speaker_mixer : Bool
  pub host_node_id : ℕ
  pub banned_node_ids : List ℕ

-- What a handler does besides changing the session.
pub data Effect : Type 0 where
  emit : StageEvent → Effect
  broadcast : SignedStageControl → Effect
  start_speaker_pipeline : ℕ → Effect
  start_listener_pipeline : ℕ → ℕ → Effect
  start_relay_pipeline : ℕ → Effect
  stop_listener_pipeline : Effect
  start_presence_sweep : Effect
  -- On the user's own feed: the repeated announcement of the room, and its end.
  start_announcements : StageTicket → Effect
  announce_ended : ℕ → Effect
  -- The remote node, with the role and the banned nodes that its handler gets.
  serve_connection : ℕ → StageRole → List ℕ → Effect
  close_connection : ℕ → Effect
  -- The cancellation of the session's tasks and of its control plane.
  shut_down : Effect

-- The session behind a handler, if it goes on, and the effects in order.
abbrev pub Outcome : Type 0
Outcome = Option ActiveStage × List Effect

-- The canonical JSON of a message, Ed25519, and the text of a ticket.
pub record Platform : Type 0 where
  pub signing_bytes : ℕ → StageControl → ℕ → List ℕ
  pub public_of : ℕ → ℕ
  pub sign : ℕ → List ℕ → List ℕ
  pub verify : ℕ → List ℕ → List ℕ → Bool
  pub ticket_text : StageTicket → List ℕ

pub record Identity : Type 0 where
  pub master_pubkey : ℕ
  pub signing_key : ℕ
  pub transport_node_id : ℕ

abbrev pub is_host_role : StageRole → Bool
is_host_role host = true
is_host_role _ = false

abbrev pub is_co_host_role : StageRole → Bool
is_co_host_role co_host = true
is_co_host_role _ = false

abbrev pub is_listener_role : StageRole → Bool
is_listener_role listener = true
is_listener_role _ = false

abbrev is_co_host : Option Participant → Bool
is_co_host none = false
is_co_host (some p) = is_co_host_role p.role

unfoldable pub is_moderator : ActiveStage → ℕ → Bool
is_moderator s sender_pubkey =
    (sender_pubkey == s.host_pubkey) || is_co_host (lookup sender_pubkey s.participants)

-- Whether a message belongs to this room.
unfoldable pub stage_id_matches : StageControl → ℕ → Bool
stage_id_matches (announce id _ _ _) stage_id = id == stage_id
stage_id_matches (end_room id) stage_id = id == stage_id
stage_id_matches (presence id _ _ _ _) stage_id = id == stage_id
stage_id_matches (relay_volunteer id _ _ _) stage_id = id == stage_id
stage_id_matches (relay_assignment id _ _ _) stage_id = id == stage_id
stage_id_matches (raise_hand id _) stage_id = id == stage_id
stage_id_matches (lower_hand id _) stage_id = id == stage_id
stage_id_matches (promote_speaker id _) stage_id = id == stage_id
stage_id_matches (demote_speaker id _) stage_id = id == stage_id
stage_id_matches (mute_speaker id _) stage_id = id == stage_id
stage_id_matches (self_mute_toggle id _ _) stage_id = id == stage_id
stage_id_matches (kick id _) stage_id = id == stage_id
stage_id_matches (ban id _) stage_id = id == stage_id
stage_id_matches (reaction id _ _) stage_id = id == stage_id
stage_id_matches (chat id _ _) stage_id = id == stage_id

module _ (c : Platform) where
  open c use {signing_bytes, public_of, sign, verify}

  -- Control message, sender, signing key and time.
  pub sign_stage_control : StageControl → ℕ → ℕ → ℕ → SignedStageControl
  sign_stage_control control sender_pubkey signing_key timestamp = record {
    sender_pubkey = sender_pubkey;
    control = control;
    timestamp = timestamp;
    signature = sign signing_key (signing_bytes sender_pubkey control timestamp);
  }

  pub verify_stage_control : SignedStageControl → ℕ → Bool
  verify_stage_control signed signer_pubkey =
      verify signer_pubkey (signing_bytes signed.sender_pubkey signed.control signed.timestamp)
        signed.signature

  -- Own messages go out under the signing key's public key.
  unfoldable pub own_message : Identity → ℕ → StageControl → SignedStageControl
  unfolding sign_stage_control
  own_message identity now control =
      sign_stage_control control (public_of identity.signing_key) identity.signing_key now
