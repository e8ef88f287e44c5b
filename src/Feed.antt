-- ===== src/Feed.antt =====
-- The feed: crates/proscenium-types/src/validation.rs, src-tauri/src/ingest.rs,
-- gossip/handlers.rs and sync/processing.rs, with the statements of storage that they use. What
-- arrives from a peer is validated, verified and stored.
pub mod Mentions
pub mod Storage
pub mod Ingest
pub mod Gossip
pub mod Quiet
pub mod Authentic
pub mod Progress
mod Tests
use proscenium.Common.{ℕ, Bool, Option, List}
use proscenium.Identity.{
  Post, Interaction, Profile, SigningKeyDelegation, SigningKeyRotation, LinkedDevicesAnnouncement,
}

pub data NotificationKind : Type 0 where
  mention reply quote like : NotificationKind

pub record Notification : Type 0 where
  pub kind : NotificationKind
  pub actor : ℕ
  pub target_post_id : Option ℕ
  pub post_id : Option ℕ
  pub timestamp : ℕ

-- A row of peer_delegations.
pub record PeerRow : Type 0 where
  pub delegation : SigningKeyDelegation
  pub transport_node_ids : List ℕ

-- What goes to the frontend.
pub data Event : Type 0 where
  mentioned_in_post : Post → Event
  notification_received feed_updated : Event
  profile_updated : ℕ → Event
  interaction_received : Interaction → Event
  interaction_deleted : ℕ → ℕ → Event
  stage_announced : ℕ → List ℕ → ℕ → ℕ → ℕ → Event
  stage_ended_remote : ℕ → Event

pub record Store : Type 0 where
  pub posts : List Post
  pub interactions : List Interaction
  pub profiles : List (ℕ × Profile)
  pub notifications : List (ℕ × Notification)
  pub peer_delegations : List (ℕ × PeerRow)
  pub peer_device_announcements : List (ℕ × LinkedDevicesAnnouncement)
  pub hidden : List ℕ
  pub events : List Event

-- The statements on the database, each of which can fail.
pub data Query : Type 0 where
  get_peer_signing_pubkey get_peer_delegation get_peer_transport_node_ids is_hidden : Query
  get_post_by_id get_peer_announcement_version insert_post insert_notification : Query
  save_interaction save_profile delete_post delete_post_notifications delete_interaction : Query
  cache_announcement update_transport_node_ids cache_peer_identity : Query

-- The clock, the statements that fail while one message is handled, and which row a query gives
-- that several rows match and that asks for no order.
pub record Env : Type 0 where
  pub now : ℕ
  pub fails : Query → Bool
  pub row : ℕ

-- `PublicKey::from_str` on the text of a mention, the text of an id, and the hash that names a
-- notification.
pub record Crates : Type 0 where
  pub is_public_key : List ℕ → Bool
  pub text_of : ℕ → List ℕ
  pub notification_id : NotificationKind → ℕ → Option ℕ → Option ℕ → ℕ

pub data GossipMessage : Type 0 where
  new_post : Post → GossipMessage
  delete_post_message : ℕ → ℕ → List ℕ → GossipMessage
  profile_update : Profile → GossipMessage
  new_interaction : Interaction → GossipMessage
  delete_interaction_message : ℕ → ℕ → List ℕ → GossipMessage
  linked_devices : LinkedDevicesAnnouncement → GossipMessage
  signing_key_rotation : SigningKeyRotation → GossipMessage
  heartbeat : GossipMessage
  stage_announcement : ℕ → List ℕ → ℕ → ℕ → ℕ → GossipMessage
  stage_ended : ℕ → GossipMessage
