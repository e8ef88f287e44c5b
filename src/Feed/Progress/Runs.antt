-- ===== src/Feed/Progress/Runs.antt =====
-- gossip/handlers.rs and sync/client.rs: what a run does to key indices and versions.
use proscenium.Common.{
  Bool, true, ◌||◌, ◌⊎◌, ◌∙◌, ℕ, ◌≤◌, ◌≡◌, refl, sym, subst, inl, inr, false, not, Option, none,
  some, List, [], ◌∷◌, arith, ◌==◌, leb, lookup, Bool-cases, Option-cases, ==→eq, if_keeps, All,
  lookup-insert, lookup-update,
}
use proscenium.Identity.{
  Keys, Post, Interaction, Profile, SigningKeyRotation, LinkedDevicesAnnouncement, verify_rotation,
  verify_linked_devices_announcement, verify_delete_post_signature,
  verify_delete_interaction_signature, verify_profile_signature,
}
use proscenium.Feed.{
  feed_updated, profile_updated, interaction_received, interaction_deleted, stage_announced,
  stage_ended_remote, Store, Env, Crates, PeerRow, GossipMessage, new_post, delete_post_message,
  profile_update, new_interaction, delete_interaction_message, linked_devices, signing_key_rotation,
  heartbeat, stage_announcement, stage_ended, delete_interaction as q_delete_interaction,
  get_peer_delegation as q_delegation, get_peer_announcement_version as q_version,
}
use proscenium.Feed.Storage.{
  is_hidden, delete_interaction, get_peer_announcement_version, cache_peer_device_announcement,
  get_peer_delegation, cache_peer_identity, save_profile, node_ids,
}
use proscenium.Feed.Ingest.{
  resolve_signer, process_incoming_post, process_incoming_interaction, process_posts,
  process_interactions, process_sync_result, validate_profile, passes,
}
use proscenium.Feed.Authentic.{passes-ok, save_profile-Quiet}
use proscenium.Feed.Gossip.{
  handle_new_post, handle_delete_post, handle_profile_update, handle_new_interaction,
  handle_delete_interaction, handle_linked_devices, handle_signing_key_rotation,
  handle_follow_message, is_forged, is_stale, Arrival, gossip, synced, receive, receive_all,
  cache_announcements,
}
use proscenium.Feed.Gossip.Soundness.{verify_rotation-ok}
use proscenium.Feed.Progress.{
  index_of, version_of, NeverBack, Same, alike, same, Same-NeverBack, Same-trans, Quiet-Same,
  process_incoming_post-Same, process_incoming_interaction-Same, emit-Same, delete_own_post-Same,
}

module _ (keys : Keys) (c : Crates) (w : Env) where
  cache_announcement-NeverBack :
      (pk : ℕ) (a : LinkedDevicesAnnouncement) (s : Store)
      → leb a.version (version_of pk s) ≡ false
      → NeverBack s (cache_peer_device_announcement w pk a s)
  unfolding cache_peer_device_announcement
  cache_announcement-NeverBack pk a s newer m = ground (
    arith,
    lookup-insert pk m a s.peer_device_announcements,
    lookup-update pk m (λ row. record row { transport_node_ids = node_ids a.devices })
        s.peer_delegations,
  )

  cache_identity-NeverBack :
      (pk : ℕ) (row : PeerRow) (s : Store)
      → index_of pk s ≤ row.delegation.key_index
      → NeverBack s (cache_peer_identity w pk row s)
  unfolding cache_peer_identity
  cache_identity-NeverBack pk row s newer m =
      ground (arith, lookup-insert pk m row s.peer_delegations)

  -- The two reads on which the tests for staleness rest.
  pub record Reads : Type 0 where
    pub delegation : w.fails q_delegation ≡ false
    pub version : w.fails q_version ≡ false

  still : (s : Store) → NeverBack s s
  still s = Same-NeverBack s s (same s)

  linked_devices-NeverBack :
      (pk : ℕ) (a : LinkedDevicesAnnouncement) (s : Store)
      → Reads
      → NeverBack s (handle_linked_devices keys c w pk a s)
  unfolding handle_linked_devices get_peer_announcement_version
  linked_devices-NeverBack pk a s r =
      if_keeps (NeverBack s) (not (a.master_pubkey == pk)) (still s) (
        if_keeps (NeverBack s) (not (passes (verify_linked_devices_announcement keys a))) (still s)
          (elim (Bool-cases (leb a.version (version_of pk s))) [
            | inl old ↦ simp (r.version, old) (still s)
            | inr new ↦ simp (r.version, new) (cache_announcement-NeverBack pk a s new)
          ]))

  fresh_index :
      (pk : ℕ) (r : SigningKeyRotation) (s : Store)
      → Reads
      → is_stale keys c w pk r s ≡ false
      → index_of pk s ≤ r.new_key_index
  unfolding get_peer_delegation
  fresh_index pk r s reads e = elim (Option-cases (lookup pk s.peer_delegations)) [
    | inl none_yet ↦ ground (arith, none_yet)
    | inr (row, cached) ↦ ground (arith, reads.delegation, cached, e)
  ]

  rotation-NeverBack :
      (pk : ℕ) (r : SigningKeyRotation) (s : Store)
      → Reads
      → NeverBack s (handle_signing_key_rotation keys c w pk r s)
  unfolding handle_signing_key_rotation
  rotation-NeverBack pk r s reads = elim (Bool-cases (r.master_pubkey == pk)) [
    | inr other ↦ simp (other, handle_signing_key_rotation) (still s)
    | inl own ↦ elim (Bool-cases (passes (verify_rotation keys r))) [
      | inr forged ↦ simp (own, forged, handle_signing_key_rotation) (still s)
      | inl verified ↦ elim (Bool-cases (is_stale keys c w pk r s)) [
        | inl stale ↦ simp (own, verified, stale, handle_signing_key_rotation) (still s)
        | inr fresh ↦
            let (_, _, index) = verify_rotation-ok keys r (passes-ok keys _ verified) in
            simp (own, verified, fresh, handle_signing_key_rotation)
              (cache_identity-NeverBack r.master_pubkey _ s (
                subst (λ i. index_of r.master_pubkey s ≤ i) (sym index)
                  (subst (λ k. index_of k s ≤ r.new_key_index) (sym (==→eq r.master_pubkey pk own))
                    (fresh_index pk r s reads fresh))))
      ]
    ]
  ]

  handle_follow_message-NeverBack :
      (pk my_id : ℕ) (m : Option GossipMessage) (s : Store)
      → Reads
      → NeverBack s (handle_follow_message keys c w pk my_id m s)
  unfolding handle_follow_message handle_new_post handle_delete_post handle_profile_update
      handle_new_interaction handle_delete_interaction delete_interaction
  handle_follow_message-NeverBack pk my_id none s r = still s
  handle_follow_message-NeverBack pk my_id (some (new_post p)) s r =
      let out = process_incoming_post keys c w my_id p s in
      let kept = process_incoming_post-Same keys c w my_id p s in
      Same-NeverBack s _ (
        if_keeps (Same s) (not (p.author == pk)) (same s) (
          if_keeps (Same s) (is_hidden w pk s) (same s)
            (if_keeps (Same s) out.0 (emit-Same keys c w feed_updated kept) kept)))
  handle_follow_message-NeverBack pk my_id (some (delete_post_message id author signature)) s r =
      Same-NeverBack s _ (
        if_keeps (Same s) (not (author == pk)) (same s) (
          if_keeps (Same s)
            (is_forged (resolve_signer keys w pk s)
              (λ k. passes (verify_delete_post_signature keys id author signature k)))
            (same s) (delete_own_post-Same keys c w pk id s)))
  handle_follow_message-NeverBack pk my_id (some (profile_update p)) s r = Same-NeverBack s _ (
      if_keeps (Same s) (not (validate_profile p)) (same s) (
        if_keeps (Same s)
          (is_forged (resolve_signer keys w pk s) (λ k. passes (verify_profile_signature keys p k)))
          (same s)
          (emit-Same keys c w (profile_updated pk)
            (Quiet-Same (save_profile-Quiet keys c w pk p s) (same s)))))
  handle_follow_message-NeverBack pk my_id (some (new_interaction i)) s r = Same-NeverBack s _ (
      if_keeps (Same s) (not (i.author == pk)) (same s) (
        if_keeps (Same s) (is_hidden w pk s) (same s) (
          emit-Same keys c w (interaction_received i)
            (process_incoming_interaction-Same keys c w my_id pk i s))))
  handle_follow_message-NeverBack pk my_id (some (delete_interaction_message id author signature)) s
        r =
      Same-NeverBack s _ (
        if_keeps (Same s) (not (author == pk)) (same s) (
          if_keeps (Same s)
            (is_forged (resolve_signer keys w pk s)
              (λ k. passes (verify_delete_interaction_signature keys id author signature k)))
            (same s)
            (emit-Same keys c w (interaction_deleted id author)
              (if_keeps (Same s) (w.fails q_delete_interaction) (same s) (alike s _ refl refl)))))
  handle_follow_message-NeverBack pk my_id (some (linked_devices a)) s r =
      linked_devices-NeverBack pk a s r
  handle_follow_message-NeverBack pk my_id (some (signing_key_rotation x)) s r =
      rotation-NeverBack pk x s r
  handle_follow_message-NeverBack pk my_id (some heartbeat) s r = still s
  handle_follow_message-NeverBack pk my_id (some (stage_announcement id title ticket host started))
        s r =
      Same-NeverBack s _
        (emit-Same keys c w (stage_announced id title ticket host started) (same s))
  handle_follow_message-NeverBack pk my_id (some (stage_ended id)) s r =
      Same-NeverBack s _ (emit-Same keys c w (stage_ended_remote id) (same s))

  process_posts-Same :
      (my_id : ℕ) (ps : List Post) (s : Store) → Same s (process_posts keys c w my_id ps s).1
  unfolding process_posts
  process_posts-Same my_id [] s = same s
  process_posts-Same my_id (p ∷ ps) s =
      Same-trans (process_incoming_post-Same keys c w my_id p s)
        (process_posts-Same my_id ps (process_incoming_post keys c w my_id p s).1)

  process_interactions-Same :
      (my_id pubkey : ℕ) (is : List Interaction) (s : Store)
      → Same s (process_interactions keys c w my_id pubkey is s)
  unfolding process_interactions
  process_interactions-Same my_id pubkey [] s = same s
  process_interactions-Same my_id pubkey (i ∷ is) s =
      Same-trans (process_incoming_interaction-Same keys c w my_id pubkey i s) (
        process_interactions-Same my_id pubkey is
          (process_incoming_interaction keys c w my_id pubkey i s))

  process_sync_result-Same :
      (my_id pubkey : ℕ) (ps : List Post) (profile : Option Profile) (is : List Interaction)
      (s : Store)
      → Same s (process_sync_result keys c w my_id pubkey ps profile is s).1
  unfolding process_sync_result
  process_sync_result-Same my_id pubkey ps none is s =
      Same-trans (process_posts-Same my_id ps s)
        (process_interactions-Same my_id pubkey is (process_posts keys c w my_id ps s).1)
  process_sync_result-Same my_id pubkey ps (some p) is s =
      let s₁ = (process_posts keys c w my_id ps s).1 in
      Same-trans (process_posts-Same my_id ps s) (
        Same-trans (Quiet-Same (save_profile-Quiet keys c w pubkey p s₁) (same s₁))
          (process_interactions-Same my_id pubkey is (save_profile w pubkey p s₁)))

  -- An announcement changes no key index, and the version of its own author alone.
  cache_announcement-index :
      (pk : ℕ) (a : LinkedDevicesAnnouncement) (s : Store) (m : ℕ)
      → index_of m (cache_peer_device_announcement w pk a s) ≡ index_of m s
  unfolding cache_peer_device_announcement
  cache_announcement-index pk a s m = ground (
    arith,
    lookup-update pk m (λ row. record row { transport_node_ids = node_ids a.devices })
        s.peer_delegations,
  )

  cache_announcement-version :
      (pk : ℕ) (a : LinkedDevicesAnnouncement) (s : Store) (m : ℕ)
      → (pk == m) ≡ false
      → version_of m (cache_peer_device_announcement w pk a s) ≡ version_of m s
  unfolding cache_peer_device_announcement
  cache_announcement-version pk a s m other =
      ground (arith, other, lookup-insert pk m a s.peer_device_announcements)

  cache_announcements-index :
      (pk : ℕ) (devices : List LinkedDevicesAnnouncement) (s : Store) (m : ℕ)
      → index_of m (cache_announcements keys w pk devices s) ≡ index_of m s
  unfolding cache_announcements
  cache_announcements-index pk [] s m = refl
  cache_announcements-index pk (a ∷ devices) s m =
      cache_announcements-index pk devices _ m
      ∙ if_keeps (λ t. index_of m t ≡ index_of m s) (not (a.master_pubkey == pk)) {x = s} refl
          (if_keeps (λ t. index_of m t ≡ index_of m s)
            (not (passes (verify_linked_devices_announcement keys a))) {x = s} refl
            (cache_announcement-index pk a s m))

  cache_announcements-version :
      (pk : ℕ) (devices : List LinkedDevicesAnnouncement) (s : Store) (m : ℕ)
      → (pk == m) ≡ false
      → version_of m (cache_announcements keys w pk devices s) ≡ version_of m s
  unfolding cache_announcements
  cache_announcements-version pk [] s m other = refl
  cache_announcements-version pk (a ∷ devices) s m other =
      cache_announcements-version pk devices _ m other
      ∙ if_keeps (λ t. version_of m t ≡ version_of m s) (not (a.master_pubkey == pk)) {x = s} refl
          (if_keeps (λ t. version_of m t ≡ version_of m s)
            (not (passes (verify_linked_devices_announcement keys a))) {x = s} refl
            (cache_announcement-version pk a s m other))

-- A sync with the peer `m` brings a device announcement.
abbrev brings : ℕ → Arrival → Bool
brings m (gossip pk message) = false
brings m (synced pk [] posts profile is) = false
brings m (synced pk (a ∷ devices) posts profile is) = pk == m

abbrev pub announced : ℕ → List (Env × Arrival) → Bool
announced m [] = false
announced m ((w, x) ∷ xs) = brings m x || announced m xs

-- No peer's key index is lower than before, and no peer's announcement version, unless a sync with
-- this peer brought an announcement.
abbrev pub Advances : List (Env × Arrival) → Store → Store → Type 0
Advances xs s t =
    (m : ℕ)
    → (index_of m s ≤ index_of m t) × ((version_of m s ≤ version_of m t) ⊎ (announced m xs ≡ true))

module _ (keys : Keys) (c : Crates) where
  receive-Advances :
      (my_id : ℕ) (w : Env) (x : Arrival) (s : Store) (m : ℕ)
      → Reads keys c w
      → (index_of m s ≤ index_of m (receive keys c my_id (w, x) s))
        × ((version_of m s ≤ version_of m (receive keys c my_id (w, x) s)) ⊎ (brings m x ≡ true))
  unfolding receive cache_announcements
  receive-Advances my_id w (gossip pk message) s m r =
      let (i, v) = handle_follow_message-NeverBack keys c w pk my_id message s r m in (i, inl v)
  receive-Advances my_id w (synced pk [] posts profile is) s m r =
      let (i, v) =
        Same-NeverBack s _ (process_sync_result-Same keys c w my_id pk posts profile is s) m in
      (i, inl v)
  receive-Advances my_id w (synced pk (a ∷ devices) posts profile is) s m r =
      let s' = cache_announcements keys w pk (a ∷ devices) s in
      let (i, v) =
        Same-NeverBack s' _ (process_sync_result-Same keys c w my_id pk posts profile is s') m in
      (
        omega (arith, i, cache_announcements-index keys c w pk (a ∷ devices) s m),
        elim (Bool-cases (pk == m)) [
          | inl own ↦ inr own
          | inr other ↦
              inl
                (omega (arith, v, cache_announcements-version keys c w pk (a ∷ devices) s m other))
        ],
      )

  -- While the cached delegations and announcement versions can be read, the index of a peer's
  -- cached signing key is never lower after any messages of any peers and whatever syncs bring
  -- than it was before, and neither is the version of a peer's device announcement, unless a sync
  -- with this very peer brought an announcement.
  pub receive_all-Advances :
      (my_id : ℕ) (xs : List (Env × Arrival)) (s : Store)
      → All (λ x. Reads keys c x.0) xs
      → Advances xs s (receive_all keys c my_id xs s)
  unfolding receive_all
  receive_all-Advances my_id [] s r m = (omega arith, inl (omega arith))
  receive_all-Advances my_id ((w, x) ∷ xs) s r m =
      let (i, v) = receive-Advances my_id w x s m r.0 in
      let (j, u) = receive_all-Advances my_id xs (receive keys c my_id (w, x) s) r.1 m in
      (
        omega (arith, i, j),
        elim v [
          | inr now ↦ inr (rw now refl)
          | inl kept ↦ elim u [
            | inr later ↦ inr (ground (arith, later))
            | inl kept_on ↦ inl (omega (arith, kept, kept_on))
          ]
        ],
      )
