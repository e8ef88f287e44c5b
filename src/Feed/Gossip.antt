-- ===== src/Feed/Gossip.antt =====
-- gossip/handlers.rs: what a follower does with a message on a peer's topic. `pk` is the peer's
-- master key.
pub mod Soundness
pub mod Confined
use proscenium.Common.{
  ℕ, Bool, true, false, not, ◌&&◌, Option, none, some, List, [], ◌∷◌, leb, ◌==◌, if◌then◌else◌,
}
use proscenium.Identity.{
  Keys, Post, Interaction, Profile, SigningKeyRotation, LinkedDevicesAnnouncement,
  verify_delete_post_signature, verify_delete_interaction_signature, verify_profile_signature,
  verify_linked_devices_announcement, verify_rotation,
}
use proscenium.Feed.{
  Store, Env, Crates, GossipMessage, PeerRow, new_post, delete_post_message, profile_update,
  new_interaction, delete_interaction_message, linked_devices, signing_key_rotation, heartbeat,
  stage_announcement, stage_ended, feed_updated, profile_updated, interaction_received,
  interaction_deleted, stage_announced, stage_ended_remote,
}
use proscenium.Feed.Storage.{
  is_hidden, get_post_by_id, delete_post, save_profile, delete_interaction,
  get_peer_announcement_version, cache_peer_device_announcement, get_peer_delegation,
  get_peer_transport_node_ids, cache_peer_identity,
}
use proscenium.Feed.Ingest.{
  resolve_signer, process_incoming_post, process_incoming_interaction, process_sync_result,
  validate_profile, passes, emit,
}

-- A signer that cannot be resolved skips the verification.
abbrev pub is_forged : Option ℕ → (ℕ → Bool) → Bool
is_forged none verified = false
is_forged (some signer) verified = not (verified signer)

module _ (keys : Keys) (c : Crates) (w : Env) where
  unfoldable pub handle_new_post : ℕ → ℕ → Post → Store → Store
  handle_new_post pk my_id post s =
      if not (post.author == pk)
      then s
      else if is_hidden w pk s
      then s
      else let (stored, s') = process_incoming_post keys c w my_id post s in
        if stored then emit feed_updated s' else s'

  unfoldable pub delete_own_post : ℕ → ℕ → Store → Store
  delete_own_post pk id s = elim (get_post_by_id w id s) [
    | none ↦ s
    | some post ↦ if post.author == pk then emit feed_updated (delete_post w id s) else s
  ]

  unfoldable pub handle_delete_post : ℕ → ℕ → ℕ → List ℕ → Store → Store
  handle_delete_post pk id author signature s =
      if not (author == pk)
      then s
      else if is_forged (resolve_signer keys w pk s)
          (λ signer. passes (verify_delete_post_signature keys id author signature signer))
      then s
      else delete_own_post pk id s

  unfoldable pub handle_profile_update : ℕ → Profile → Store → Store
  handle_profile_update pk profile s =
      if not (validate_profile profile)
      then s
      else if is_forged (resolve_signer keys w pk s)
          (λ signer. passes (verify_profile_signature keys profile signer))
      then s
      else emit (profile_updated pk) (save_profile w pk profile s)

  unfoldable pub handle_new_interaction : ℕ → ℕ → Interaction → Store → Store
  handle_new_interaction pk my_id i s =
      if not (i.author == pk)
      then s
      else if is_hidden w pk s
      then s
      else emit (interaction_received i) (process_incoming_interaction keys c w my_id pk i s)

  unfoldable pub handle_delete_interaction : ℕ → ℕ → ℕ → List ℕ → Store → Store
  handle_delete_interaction pk id author signature s =
      if not (author == pk)
      then s
      else if is_forged (resolve_signer keys w pk s)
          (λ signer. passes (verify_delete_interaction_signature keys id author signature signer))
      then s
      else emit (interaction_deleted id author) (delete_interaction w id author s)

  unfoldable pub handle_linked_devices : ℕ → LinkedDevicesAnnouncement → Store → Store
  handle_linked_devices pk a s =
      if not (a.master_pubkey == pk)
      then s
      else if not (passes (verify_linked_devices_announcement keys a))
      then s
      else if leb a.version (get_peer_announcement_version w pk s)
      then s
      else cache_peer_device_announcement w pk a s

  -- The index of the cached delegation is tested if there is one.
  abbrev pub is_stale : ℕ → SigningKeyRotation → Store → Bool
  is_stale pk r s = elim (get_peer_delegation w pk s) [
    | none ↦ false
    | some cached ↦ leb r.new_key_index cached.key_index
  ]

  unfoldable pub handle_signing_key_rotation : ℕ → SigningKeyRotation → Store → Store
  handle_signing_key_rotation pk r s =
      if not (r.master_pubkey == pk)
      then s
      else if not (passes (verify_rotation keys r))
      then s
      else if is_stale pk r s
      then s
      else let row : PeerRow = record {
        delegation = r.new_delegation;
        transport_node_ids = get_peer_transport_node_ids w pk s;
      } in
        cache_peer_identity w r.master_pubkey row s

  -- `none` is a message that does not parse.
  unfoldable pub handle_follow_message : ℕ → ℕ → Option GossipMessage → Store → Store
  handle_follow_message pk my_id none s = s
  handle_follow_message pk my_id (some (new_post post)) s = handle_new_post pk my_id post s
  handle_follow_message pk my_id (some (delete_post_message id author signature)) s =
      handle_delete_post pk id author signature s
  handle_follow_message pk my_id (some (profile_update profile)) s =
      handle_profile_update pk profile s
  handle_follow_message pk my_id (some (new_interaction i)) s = handle_new_interaction pk my_id i s
  handle_follow_message pk my_id (some (delete_interaction_message id author signature)) s =
      handle_delete_interaction pk id author signature s
  handle_follow_message pk my_id (some (linked_devices a)) s = handle_linked_devices pk a s
  handle_follow_message pk my_id (some (signing_key_rotation r)) s =
      handle_signing_key_rotation pk r s
  handle_follow_message pk my_id (some heartbeat) s = s
  handle_follow_message pk my_id (some (stage_announcement id title ticket host started)) s =
      emit (stage_announced id title ticket host started) s
  handle_follow_message pk my_id (some (stage_ended id)) s = emit (stage_ended_remote id) s

module _ (keys : Keys) (w : Env) where
  -- The device announcements among the frames that sync/client.rs reads. Their versions are not
  -- compared with the cached one.
  unfoldable pub cache_announcements : ℕ → List LinkedDevicesAnnouncement → Store → Store
  cache_announcements author [] s = s
  cache_announcements author (a ∷ rest) s = cache_announcements author rest (
      if not (a.master_pubkey == author)
      then s
      else if not (passes (verify_linked_devices_announcement keys a))
      then s
      else cache_peer_device_announcement w author a s)

-- Something that arrives: a message on the topic of a peer, or what a sync with one brings: device
-- announcements, which are cached while the frames are read, and then posts, a profile and
-- interactions.
pub data Arrival : Type 0 where
  gossip : ℕ → Option GossipMessage → Arrival
  synced :
      ℕ → List LinkedDevicesAnnouncement → List Post → Option Profile → List Interaction → Arrival

module _ (keys : Keys) where
  unfoldable pub receive : Crates → ℕ → Env × Arrival → Store → Store
  receive c my_id (w, gossip pk m) s = handle_follow_message keys c w pk my_id m s
  receive c my_id (w, synced pk devices posts profile is) s =
      (process_sync_result keys c w my_id pk posts profile is
        (cache_announcements keys w pk devices s)).1

  unfoldable pub receive_all : Crates → ℕ → List (Env × Arrival) → Store → Store
  receive_all c my_id [] s = s
  receive_all c my_id (x ∷ xs) s = receive_all c my_id xs (receive c my_id x s)
