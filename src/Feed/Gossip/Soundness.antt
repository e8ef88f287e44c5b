-- ===== src/Feed/Gossip/Soundness.antt =====
-- gossip/handlers.rs and sync/processing.rs over a run: no message makes the feed hold what its
-- author did not sign.
use proscenium.Common.{
  All, ℕ, ◌≡◌, refl, inl, inr, not, ◌&&◌, Option, none, some, List, [], ◌∷◌, arith, ◌==◌, leb,
  if_keeps, Bool-cases, Option-cases, insert-Entries, update-Entries,
}
use proscenium.Identity.{
  Keys, Post, Interaction, SigningKeyRotation, LinkedDevicesAnnouncement, ok, verify_delegation,
  verify_rotation, verify_delete_post_signature, verify_delete_interaction_signature,
  verify_profile_signature, verify_linked_devices_announcement, hex_to_signature,
}
use proscenium.Feed.{
  Event, stage_announced, stage_ended_remote, Store, Env, Crates, PeerRow, GossipMessage, new_post,
  delete_post_message, profile_update, new_interaction, delete_interaction_message, linked_devices,
  signing_key_rotation, heartbeat, stage_announcement, stage_ended, feed_updated, profile_updated,
  interaction_received, interaction_deleted, delete_post as q_delete_post,
  delete_post_notifications as q_unnotify, delete_interaction as q_delete_interaction,
  cache_announcement as q_announcement, update_transport_node_ids as q_update_ids,
  cache_peer_identity as q_identity,
}
use proscenium.Feed.Storage.{
  is_hidden, get_post_by_id, delete_post, delete_interaction, forget_interaction, without_id,
  node_ids, get_peer_announcement_version, cache_peer_device_announcement, cache_peer_identity,
}
use proscenium.Feed.Ingest.{resolve_signer, process_incoming_post, validate_profile, passes, emit}
use proscenium.Feed.Authentic.{
  IsSound, IsAuthentic, IsOwn, IsBound, Quiet-IsSound, passes-ok, process_incoming_post-IsSound,
  process_incoming_interaction-IsSound, process_sync_result-IsSound, save_profile-Quiet,
}
use proscenium.Feed.Quiet.{emit-Quiet, stay}
use proscenium.Feed.Gossip.{
  handle_new_post, delete_own_post, handle_delete_post, handle_profile_update,
  handle_new_interaction, handle_delete_interaction, handle_linked_devices,
  handle_signing_key_rotation, handle_follow_message, Arrival, gossip, synced, receive, receive_all,
  cache_announcements, is_forged, is_stale,
}

module _ (keys : Keys) where
  -- A rotation that verifies carries a verified delegation of its own master key.
  pub verify_rotation-ok :
      (r : SigningKeyRotation)
      → verify_rotation keys r ≡ ok tt
      → (verify_delegation keys r.new_delegation ≡ ok tt)
        × (r.new_delegation.master_pubkey ≡ r.master_pubkey)
        × (r.new_delegation.key_index ≡ r.new_key_index)
  unfolding verify_rotation hex_to_signature
  verify_rotation-ok r e = ground arith

  module _ (c : Crates) (w : Env) where
    without_id-All :
        (P : Post → Type 0) (id : ℕ) (ps : List Post) → All P ps → All P (without_id id ps)
    without_id-All P id [] h = tt
    without_id-All P id (p ∷ ps) h = elim (Bool-cases (p.id == id)) [
      | inl hit ↦ rw hit (without_id-All P id ps h.1)
      | inr miss ↦ rw miss (h.0, without_id-All P id ps h.1)
    ]

    delete_post-IsSound : (id : ℕ) (s : Store) → IsSound keys s → IsSound keys (delete_post w id s)
    unfolding delete_post
    delete_post-IsSound id s h = elim (Bool-cases (w.fails q_unnotify)) [
      | inl fails ↦ rw fails h
      | inr works ↦ elim (Bool-cases (w.fails q_delete_post)) [
        | inl stops ↦
            simp (works, stops, delete_post)
              (record {
                posts = h.posts;
                interactions = h.interactions;
                delegations = h.delegations;
              })
        | inr goes ↦
            simp (works, goes, delete_post)
              (record {
                posts = without_id-All (IsAuthentic keys) id s.posts h.posts;
                interactions = h.interactions;
                delegations = h.delegations;
              })
      ]
    ]

    forget-All :
        (id author : ℕ) (is : List Interaction)
        → All (IsOwn keys) is
        → All (IsOwn keys) (forget_interaction id author is)
    forget-All id author [] h = tt
    forget-All id author (i ∷ is) h = elim (Bool-cases ((i.id == id) && (i.author == author))) [
      | inl hit ↦ rw hit (forget-All id author is h.1)
      | inr miss ↦ rw miss (h.0, forget-All id author is h.1)
    ]

    delete_interaction-IsSound :
        (id author : ℕ) (s : Store)
        → IsSound keys s
        → IsSound keys (delete_interaction w id author s)
    unfolding delete_interaction
    delete_interaction-IsSound id author s h = elim (Bool-cases (w.fails q_delete_interaction)) [
      | inl fails ↦ rw fails h
      | inr works ↦ rw works (record {
        posts = h.posts;
        interactions = forget-All id author s.interactions h.interactions;
        delegations = h.delegations;
      })
    ]

    cache_announcement-IsSound :
        (m : ℕ) (a : LinkedDevicesAnnouncement) (s : Store)
        → IsSound keys s
        → IsSound keys (cache_peer_device_announcement w m a s)
    unfolding cache_peer_device_announcement
    cache_announcement-IsSound m a s h = elim (Bool-cases (w.fails q_announcement)) [
      | inl fails ↦ rw fails h
      | inr works ↦ elim (Bool-cases (w.fails q_update_ids)) [
        | inl stops ↦
            simp (works, stops, cache_peer_device_announcement)
              (record {
                posts = h.posts;
                interactions = h.interactions;
                delegations = h.delegations;
              })
        | inr goes ↦
            simp (works, goes, cache_peer_device_announcement)
              (record {
                posts = h.posts;
                interactions = h.interactions;
                delegations =
                    update-Entries (IsBound keys) m
                      (λ row. record row { transport_node_ids = node_ids a.devices })
                      s.peer_delegations (λ j row b. b) h.delegations;
              })
      ]
    ]

    cache_identity-IsSound :
        (m : ℕ) (row : PeerRow) (s : Store)
        → IsBound keys m row
        → IsSound keys s
        → IsSound keys (cache_peer_identity w m row s)
    unfolding cache_peer_identity
    cache_identity-IsSound m row s b h = elim (Bool-cases (w.fails q_identity)) [
      | inl fails ↦ rw fails h
      | inr works ↦ rw works (record {
        posts = h.posts;
        interactions = h.interactions;
        delegations = insert-Entries (IsBound keys) m row s.peer_delegations b h.delegations;
      })
    ]

    cache_announcements-IsSound :
        (author : ℕ) (rest : List LinkedDevicesAnnouncement) (s : Store)
        → IsSound keys s
        → IsSound keys (cache_announcements keys w author rest s)
    unfolding cache_announcements
    cache_announcements-IsSound author [] s h = h
    cache_announcements-IsSound author (a ∷ rest) s h = cache_announcements-IsSound author rest _ (
        if_keeps (IsSound keys) (not (a.master_pubkey == author)) h (
          if_keeps (IsSound keys) (not (passes (verify_linked_devices_announcement keys a))) h
            (cache_announcement-IsSound author a s h)))

    emitted : (e : Event) {s : Store} → IsSound keys s → IsSound keys (emit e s)
    emitted e {s} h = Quiet-IsSound keys (emit-Quiet e (stay s s refl refl refl refl)) h

    handle_new_post-IsSound :
        (pk my_id : ℕ) (p : Post) (s : Store)
        → IsSound keys s
        → IsSound keys (handle_new_post keys c w pk my_id p s)
    unfolding handle_new_post
    handle_new_post-IsSound pk my_id p s h =
        let kept = process_incoming_post-IsSound keys c w my_id p s h in
        let out = process_incoming_post keys c w my_id p s in
        if_keeps (IsSound keys) (not (p.author == pk)) h (
          if_keeps (IsSound keys) (is_hidden w pk s) h
            (if_keeps (IsSound keys) out.0 (emitted feed_updated kept) kept))

    delete_own_post-IsSound :
        (pk id : ℕ) (s : Store) → IsSound keys s → IsSound keys (delete_own_post keys c w pk id s)
    unfolding delete_own_post
    delete_own_post-IsSound pk id s h = elim (Option-cases (get_post_by_id w id s)) [
      | inl missing ↦ simp (missing, delete_own_post) h
      | inr (p, found) ↦
          simp (found, delete_own_post)
            (if_keeps (IsSound keys) (p.author == pk)
              (emitted feed_updated (delete_post-IsSound id s h)) h)
    ]

    rotation-IsSound :
        (pk : ℕ) (r : SigningKeyRotation) (s : Store)
        → IsSound keys s
        → IsSound keys (handle_signing_key_rotation keys c w pk r s)
    unfolding handle_signing_key_rotation
    rotation-IsSound pk r s h = elim (Bool-cases (passes (verify_rotation keys r))) [
      | inr forged ↦
          simp (forged, handle_signing_key_rotation)
            (if_keeps (IsSound keys) (not (r.master_pubkey == pk)) h h)
      | inl verified ↦
          let (d, m, _) = verify_rotation-ok r (passes-ok keys _ verified) in
          simp (verified, handle_signing_key_rotation)
            (if_keeps (IsSound keys) (not (r.master_pubkey == pk)) h (
              if_keeps (IsSound keys) (is_stale keys c w pk r s) h
                (cache_identity-IsSound r.master_pubkey _ s (d, m) h)))
    ]

    pub handle_follow_message-IsSound :
        (pk my_id : ℕ) (m : Option GossipMessage) (s : Store)
        → IsSound keys s
        → IsSound keys (handle_follow_message keys c w pk my_id m s)
    unfolding handle_follow_message handle_delete_post handle_profile_update handle_new_interaction
        handle_delete_interaction handle_linked_devices
    handle_follow_message-IsSound pk my_id none s h = h
    handle_follow_message-IsSound pk my_id (some (new_post p)) s h =
        handle_new_post-IsSound pk my_id p s h
    handle_follow_message-IsSound pk my_id (some (delete_post_message id author signature)) s h =
        if_keeps (IsSound keys) (not (author == pk)) h (
          if_keeps (IsSound keys)
            (is_forged (resolve_signer keys w pk s)
              (λ k. passes (verify_delete_post_signature keys id author signature k)))
            h (delete_own_post-IsSound pk id s h))
    handle_follow_message-IsSound pk my_id (some (profile_update p)) s h =
        if_keeps (IsSound keys) (not (validate_profile p)) h (
          if_keeps (IsSound keys)
            (is_forged (resolve_signer keys w pk s)
              (λ k. passes (verify_profile_signature keys p k)))
            h
            (emitted (profile_updated pk)
              (Quiet-IsSound keys (save_profile-Quiet keys c w pk p s) h)))
    handle_follow_message-IsSound pk my_id (some (new_interaction i)) s h =
        if_keeps (IsSound keys) (not (i.author == pk)) h (
          if_keeps (IsSound keys) (is_hidden w pk s) h (
            emitted (interaction_received i)
              (process_incoming_interaction-IsSound keys c w my_id pk i s h)))
    handle_follow_message-IsSound pk my_id (some (delete_interaction_message id author signature)) s
          h =
        if_keeps (IsSound keys) (not (author == pk)) h (
          if_keeps (IsSound keys)
            (is_forged (resolve_signer keys w pk s)
              (λ k. passes (verify_delete_interaction_signature keys id author signature k)))
            h (emitted (interaction_deleted id author) (delete_interaction-IsSound id author s h)))
    handle_follow_message-IsSound pk my_id (some (linked_devices a)) s h =
        if_keeps (IsSound keys) (not (a.master_pubkey == pk)) h (
          if_keeps (IsSound keys) (not (passes (verify_linked_devices_announcement keys a))) h (
            if_keeps (IsSound keys) (leb a.version (get_peer_announcement_version w pk s)) h
              (cache_announcement-IsSound pk a s h)))
    handle_follow_message-IsSound pk my_id (some (signing_key_rotation r)) s h =
        rotation-IsSound pk r s h
    handle_follow_message-IsSound pk my_id (some heartbeat) s h = h
    handle_follow_message-IsSound pk my_id (some (stage_announcement id title ticket host started))
          s h =
        emitted (stage_announced id title ticket host started) h
    handle_follow_message-IsSound pk my_id (some (stage_ended id)) s h =
        emitted (stage_ended_remote id) h

  receive-IsSound :
      (c : Crates) (my_id : ℕ) (x : Env × Arrival) (s : Store)
      → IsSound keys s
      → IsSound keys (receive keys c my_id x s)
  unfolding receive
  receive-IsSound c my_id (w, gossip pk m) s h = handle_follow_message-IsSound c w pk my_id m s h
  receive-IsSound c my_id (w, synced pk devices posts profile is) s h =
      process_sync_result-IsSound keys c w my_id pk posts profile is
        (cache_announcements keys w pk devices s) (cache_announcements-IsSound c w pk devices s h)

  -- Suppose every post and interaction in the store was signed for its author, by the author's
  -- own key or one that a delegation verified by it names, every post is within the limits, and
  -- every cached delegation is verified and stands under its master key. Then this is still so
  -- after any messages of any peers and whatever syncs bring, whichever statements on the
  -- database fail.
  pub receive_all-IsSound :
      (c : Crates) (my_id : ℕ) (xs : List (Env × Arrival)) (s : Store)
      → IsSound keys s
      → IsSound keys (receive_all keys c my_id xs s)
  unfolding receive_all
  receive_all-IsSound c my_id [] s h = h
  receive_all-IsSound c my_id (x ∷ xs) s h =
      receive_all-IsSound c my_id xs (receive keys c my_id x s) (receive-IsSound c my_id x s h)
