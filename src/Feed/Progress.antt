-- ===== src/Feed/Progress.antt =====
-- gossip/handlers.rs: what leaves the cached key indices and announcement versions alone.
pub mod Runs
use proscenium.Common.{
  ℕ, ◌≤◌, ◌<◌, ◌≡◌, refl, sym, ap, subst, ◌∙◌, inl, inr, Bool, true, false, not, Option, none, some,
  List, [], ◌∷◌, arith, ◌==◌, leb, if◌then◌else◌, lookup, update, insert, Bool-cases, Option-cases,
  ==→eq, if_keeps, All, lookup-insert, lookup-update,
}
use proscenium.Identity.{
  Keys, Post, Interaction, Profile, SigningKeyRotation, LinkedDevicesAnnouncement, Result, ok,
  verify_rotation, verify_linked_devices_announcement, verify_post_signature,
  verify_interaction_signature, verify_delete_post_signature, verify_delete_interaction_signature,
  verify_profile_signature,
}
use proscenium.Feed.{
  Event, feed_updated, profile_updated, interaction_received, interaction_deleted, stage_announced,
  stage_ended_remote, Store, Env, Crates, PeerRow, GossipMessage, new_post, delete_post_message,
  profile_update, new_interaction, delete_interaction_message, linked_devices, signing_key_rotation,
  heartbeat, stage_announcement, stage_ended, insert_post as q_insert_post,
  save_interaction as q_interaction, delete_post as q_delete_post,
  delete_post_notifications as q_unnotify, delete_interaction as q_delete_interaction,
  cache_announcement as q_announcement, update_transport_node_ids as q_update_ids,
  cache_peer_identity as q_identity, get_peer_delegation as q_delegation,
  get_peer_announcement_version as q_version,
}
use proscenium.Feed.Storage.{
  is_hidden, get_post_by_id, delete_post, delete_interaction, insert_post, save_interaction,
  get_peer_announcement_version, cache_peer_device_announcement, get_peer_delegation,
  get_peer_transport_node_ids, cache_peer_identity, save_profile,
}
use proscenium.Feed.Ingest.{
  resolve_signer, validate_post, validate_interaction, store_post, store_interaction,
  process_incoming_post, process_incoming_interaction, process_posts, process_interactions,
  process_sync_result, validate_profile, passes, emit,
}
use proscenium.Feed.Authentic.{passes-ok, save_profile-Quiet}
use proscenium.Feed.Quiet.{Quiet, stay, notify-Quiet, notify_post-Quiet}
use proscenium.Feed.Gossip.{
  handle_new_post, delete_own_post, handle_delete_post, handle_profile_update,
  handle_new_interaction, handle_delete_interaction, handle_linked_devices,
  handle_signing_key_rotation, handle_follow_message, is_forged, is_stale, Arrival, gossip, synced,
  receive, receive_all,
}
use proscenium.Feed.Gossip.Soundness.{verify_rotation-ok}

abbrev pub index_of : ℕ → Store → ℕ
index_of m s = elim (lookup m s.peer_delegations) [ none ↦ 0 | some row ↦ row.delegation.key_index ]

abbrev pub version_of : ℕ → Store → ℕ
version_of m s = elim (lookup m s.peer_device_announcements) [ none ↦ 0 | some a ↦ a.version ]

-- No peer's key index or announcement version is lower than before.
abbrev pub NeverBack : Store → Store → Type 0
NeverBack s t = (m : ℕ) → (index_of m s ≤ index_of m t) × (version_of m s ≤ version_of m t)

-- The two tables are as they were.
pub record Same (s t : Store) : Type 0 where
  pub delegations : t.peer_delegations ≡ s.peer_delegations
  pub announcements : t.peer_device_announcements ≡ s.peer_device_announcements

pub alike :
    (s t : Store)
    → t.peer_delegations ≡ s.peer_delegations
    → t.peer_device_announcements ≡ s.peer_device_announcements
    → Same s t
alike s t d a = record { delegations = d; announcements = a }

pub same : (s : Store) → Same s s
same s = alike s s refl refl

pub Same-NeverBack : (s t : Store) → Same s t → NeverBack s t
Same-NeverBack s t q m = ground (arith, q.delegations, q.announcements)

pub Same-trans : {s t u : Store} → Same s t → Same t u → Same s u
Same-trans {s} {t} {u} p q =
    alike s u (q.delegations ∙ p.delegations) (q.announcements ∙ p.announcements)

pub Quiet-Same : {s t u : Store} → Quiet t u → Same s t → Same s u
Quiet-Same {s} {t} {u} q r =
    alike s u (q.delegations ∙ r.delegations) (q.announcements ∙ r.announcements)

module _ (keys : Keys) (c : Crates) (w : Env) where
  store_post-Same : (my_id : ℕ) (p : Post) (s : Store) → Same s (store_post c w my_id p s).1
  unfolding store_post insert_post
  store_post-Same my_id p s = elim (Bool-cases (w.fails q_insert_post)) [
    | inl fails ↦ rw fails (same s)
    | inr works ↦
        simp (works, store_post, insert_post)
          (if_keeps (Same s) (not (p.author == my_id))
            (Quiet-Same (notify_post-Quiet c w my_id p _) (alike s _ refl refl))
            (alike s _ refl refl))
  ]

  pub process_incoming_post-Same :
      (my_id : ℕ) (p : Post) (s : Store) → Same s (process_incoming_post keys c w my_id p s).1
  unfolding process_incoming_post
  process_incoming_post-Same my_id p s = elim (Option-cases (resolve_signer keys w p.author s)) [
    | inl unknown ↦
        simp (unknown, process_incoming_post)
          (if_keeps (λ (out : Bool × Store). Same s out.1) (validate_post w.now p) {x = (false, s)}
            {y = (false, s)} (same s) (same s))
    | inr (k, known) ↦
        simp (known, process_incoming_post)
          (if_keeps (λ (out : Bool × Store). Same s out.1) (validate_post w.now p) {y = (false, s)}
            (if_keeps (λ (out : Bool × Store). Same s out.1)
              (passes (verify_post_signature keys p k)) {y = (false, s)} (store_post-Same my_id p s)
              (same s))
            (same s))
  ]

  store_interaction-Same :
      (my_id : ℕ) (i : Interaction) (s : Store) → Same s (store_interaction c w my_id i s)
  unfolding store_interaction save_interaction
  store_interaction-Same my_id i s =
      Quiet-Same (notify-Quiet c w _ _ (save_interaction w i s))
        (if_keeps (Same s) (w.fails q_interaction) (same s) (alike s _ refl refl))

  pub process_incoming_interaction-Same :
      (my_id expected : ℕ) (i : Interaction) (s : Store)
      → Same s (process_incoming_interaction keys c w my_id expected i s)
  unfolding process_incoming_interaction
  process_incoming_interaction-Same my_id expected i s =
      elim (Option-cases (resolve_signer keys w i.author s)) [
        | inl unknown ↦
            simp (unknown, process_incoming_interaction)
              (if_keeps (Same s) (i.author == expected)
                (if_keeps (Same s) (validate_interaction w.now i) (same s) (same s)) (same s))
        | inr (k, known) ↦
            simp (known, process_incoming_interaction)
              (if_keeps (Same s) (i.author == expected)
                (if_keeps (Same s) (validate_interaction w.now i)
                  (if_keeps (Same s) (passes (verify_interaction_signature keys i k))
                    (store_interaction-Same my_id i s) (same s))
                  (same s))
                (same s))
      ]

  delete_post-Same : (id : ℕ) (s : Store) → Same s (delete_post w id s)
  unfolding delete_post
  delete_post-Same id s =
      if_keeps (Same s) (w.fails q_unnotify) (same s)
        (if_keeps (Same s) (w.fails q_delete_post) (alike s _ refl refl) (alike s _ refl refl))

  pub emit-Same : (e : Event) {s t : Store} → Same s t → Same s (emit e t)
  emit-Same e {s} {t} q = alike s (emit e t) q.delegations q.announcements

  pub delete_own_post-Same : (pk id : ℕ) (s : Store) → Same s (delete_own_post keys c w pk id s)
  unfolding delete_own_post
  delete_own_post-Same pk id s = elim (Option-cases (get_post_by_id w id s)) [
    | inl missing ↦ simp (missing, delete_own_post) (same s)
    | inr (p, found) ↦
        simp (found, delete_own_post)
          (if_keeps (Same s) (p.author == pk) (emit-Same feed_updated (delete_post-Same id s))
            (same s))
  ]
