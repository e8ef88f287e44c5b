-- ===== src/Feed/Gossip/Confined.antt =====
-- gossip/handlers.rs: which posts a peer's messages touch.
use proscenium.Common.{
  List, [], ◌∷◌, zero, suc, ◌&&◌, All, true, ℕ, ◌≡◌, refl, sym, ap, subst, ◌∙◌, ◌≢◌, ◌⊎◌, inl, inr,
  Bool, false, not, Option, none, some, arith, ◌==◌, leb, if◌then◌else◌, Bool-cases, Option-cases,
  ==→eq, if_keeps, some_inj,
}
use proscenium.Identity.{
  Keys, Post, Interaction, verify_rotation, verify_linked_devices_announcement,
  verify_post_signature, verify_delete_post_signature, verify_delete_interaction_signature,
  verify_profile_signature, verify_interaction_signature,
}
use proscenium.Feed.{
  Store, Env, Crates, GossipMessage, new_post, delete_post_message, profile_update, new_interaction,
  delete_interaction_message, linked_devices, signing_key_rotation, heartbeat, stage_announcement,
  stage_ended, get_post_by_id as q_post, delete_post as q_delete_post,
  delete_post_notifications as q_unnotify, insert_post as q_insert_post,
  save_interaction as q_interaction, delete_interaction as q_delete_interaction,
  cache_announcement as q_announcement, update_transport_node_ids as q_update_ids,
  cache_peer_identity as q_identity,
}
use proscenium.Feed.Storage.{
  is_hidden, get_post_by_id, delete_post, delete_interaction, insert_post, save_interaction, row_of,
  put_post, with_id, without_id, fetch, get_peer_announcement_version,
  cache_peer_device_announcement, cache_peer_identity,
}
use proscenium.Feed.Ingest.{
  resolve_signer, validate_post, validate_interaction, store_post, store_interaction,
  process_incoming_post, process_incoming_interaction, validate_profile, passes,
}
use proscenium.Feed.Authentic.{save_profile-Quiet}
use proscenium.Feed.Quiet.{notify-Quiet, notify_post-Quiet}
use proscenium.Feed.Gossip.{
  handle_new_post, delete_own_post, handle_delete_post, handle_profile_update,
  handle_new_interaction, handle_delete_interaction, handle_linked_devices,
  handle_signing_key_rotation, handle_follow_message, is_forged, is_stale,
}

-- A post of another author is as it was, unless its id was asked for and the peer has a stored post
-- with that id, and whatever is new is the peer's.
pub record OnlyBy (asked : ℕ → Type 0) (pk : ℕ) (s t : Store) : Type 0 where
  pub kept :
      (author id : ℕ) (p : Post)
      → row_of author id s.posts ≡ some p
      → author ≢ pk
      → (row_of author id t.posts ≡ some p)
        ⊎ (asked id × ((q : Post) × (row_of pk id s.posts ≡ some q)))
  pub added :
      (author id : ℕ) (p : Post)
      → row_of author id t.posts ≡ some p
      → (row_of author id s.posts ≡ some p) ⊎ (author ≡ pk)

same_posts : {asked : ℕ → Type 0} → (pk : ℕ) (s t : Store) → t.posts ≡ s.posts → OnlyBy asked pk s t
same_posts pk s t e = record {
  kept = λ a id p h ne. inl (ap (row_of a id) e ∙ h);
  added = λ a id p h. inl (ap (row_of a id) (sym e) ∙ h);
}

same : {asked : ℕ → Type 0} → (pk : ℕ) (s : Store) → OnlyBy asked pk s s
same pk s = same_posts pk s s refl

-- Only the tables of posts count.
shift :
    {asked : ℕ → Type 0}
    → {pk : ℕ} {s t u : Store} → u.posts ≡ t.posts
    → OnlyBy asked pk s t
    → OnlyBy asked pk s u
shift e h = record {
  kept = λ a id p r ne. elim (h.kept a id p r ne) [
    | inl there ↦ inl (ap (row_of a id) e ∙ there)
    | inr own ↦ inr own
  ];
  added = λ a id p r. h.added a id p (ap (row_of a id) (sym e) ∙ r);
}

-- Only the row under the new post's own key can be new.
row_of-put_post :
    (p : Post) (a id : ℕ) (ps : List Post)
    → a ≢ p.author
    → row_of a id (put_post p ps) ≡ row_of a id ps
row_of-put_post p a id [] ne = ground arith
row_of-put_post p a id (q ∷ ps) ne = elim (Bool-cases ((q.author == p.author) && (q.id == p.id))) [
  | inl there ↦ rw there refl
  | inr other ↦ rw (other, row_of-put_post p a id ps ne) refl
]

row_of-without_id :
    (n a id : ℕ) (ps : List Post)
    → row_of a id (without_id n ps) ≡ (if n == id then none else row_of a id ps)
row_of-without_id n a id [] = ground arith
row_of-without_id n a id (p ∷ ps) = ground (arith, row_of-without_id n a id ps)

fetch-All :
    (P : Post → Type 0) (n : ℕ) (ps : List Post) (p : Post) → All P ps → fetch n ps ≡ some p → P p
fetch-All P n [] p h e = ground arith
fetch-All P n (q ∷ []) p h e = subst P (some_inj q p e) h.0
fetch-All P zero (q ∷ r ∷ ps) p h e = subst P (some_inj q p e) h.0
fetch-All P (suc n) (q ∷ r ∷ ps) p h e = fetch-All P n (r ∷ ps) p h.1 e

with_id-others :
    (a id : ℕ) (ps : List Post)
    → row_of a id ps ≡ none
    → All (λ p. (p.author == a) ≡ false) (with_id id ps)
with_id-others a id [] e = tt
with_id-others a id (p ∷ ps) e = elim (Bool-cases (p.id == id)) [
  | inl hit ↦ elim (Bool-cases (p.author == a)) [
    | inl own ↦ absurd (ground (arith, simp (hit, own, row_of) at e))
    | inr other ↦ rw hit (other, with_id-others a id ps (simp (other, row_of) at e))
  ]
  | inr miss ↦ rw miss (with_id-others a id ps (ground (arith, e, miss)))
]

-- If a query by the id gives a post of an author, this author has a row with the id.
fetch-row_of :
    (n a id : ℕ) (ps : List Post) (p : Post)
    → fetch n (with_id id ps) ≡ some p
    → (p.author == a) ≡ true
    → (q : Post) × (row_of a id ps ≡ some q)
fetch-row_of n a id ps p e own = elim (Option-cases (row_of a id ps)) [
  | inr there ↦ there
  | inl missing ↦
      let other =
        fetch-All (λ q. (q.author == a) ≡ false) n (with_id id ps) p
          (with_id-others a id ps missing) e in
      absurd (ground (arith, own, other))
]

put-OnlyBy :
    {asked : ℕ → Type 0}
    → (p : Post) (s t : Store) → t.posts ≡ put_post p s.posts
    → OnlyBy asked p.author s t
put-OnlyBy p s t e = record {
  kept = λ a id q h ne. inl (ap (row_of a id) e ∙ row_of-put_post p a id s.posts ne ∙ h);
  added = λ a id q h. elim (Bool-cases (a == p.author)) [
    | inl own ↦ inr (==→eq a p.author own)
    | inr other ↦ inl (
        sym (row_of-put_post p a id s.posts (ground (arith, other))) ∙ ap (row_of a id) (sym e) ∙ h)
  ];
}

drop-OnlyBy :
    {asked : ℕ → Type 0} (pk id : ℕ) (s t : Store)
    → asked id
    → ((q : Post) × (row_of pk id s.posts ≡ some q))
    → t.posts ≡ without_id id s.posts
    → OnlyBy asked pk s t
drop-OnlyBy {asked} pk id s t ask found e = record {
  kept = λ a j p h ne. elim (Bool-cases (id == j)) [
    | inl hit ↦ inr (
        subst (λ i. asked i × ((q : Post) × (row_of pk i s.posts ≡ some q))) (==→eq id j hit)
          (ask, found))
    | inr miss ↦ inl (
        ap (row_of a j) e
        ∙ row_of-without_id id a j s.posts
        ∙ ap (λ b. if b then none else row_of a j s.posts) miss
        ∙ h)
  ];
  added = λ a j p h.
      let h' = sym (row_of-without_id id a j s.posts) ∙ ap (row_of a j) (sym e) ∙ h in
      elim (Bool-cases (id == j)) [
        | inl hit ↦ ground (arith, hit, h')
        | inr miss ↦ inl (ap (λ b. if b then none else row_of a j s.posts) (sym miss) ∙ h')
      ];
}

-- The message asks to delete the id.
abbrev pub AskedFor : Option GossipMessage → ℕ → Type 0
AskedFor m id =
    (author : ℕ) × (signature : List ℕ) × (m ≡ some (delete_post_message id author signature))

module _ (keys : Keys) (c : Crates) (w : Env) where
  store_post-OnlyBy :
      {asked : ℕ → Type 0} (my_id : ℕ) (p : Post) (s : Store)
      → OnlyBy asked p.author s (store_post c w my_id p s).1
  unfolding store_post insert_post
  store_post-OnlyBy {asked} my_id p s = elim (Bool-cases (w.fails q_insert_post)) [
    | inl fails ↦ rw fails (same p.author s)
    | inr works ↦
        let s' : Store = record s { posts = put_post p s.posts } in
        let put = put-OnlyBy p s s' refl in
        simp (works, store_post, insert_post)
          (if_keeps (OnlyBy asked p.author s) (not (p.author == my_id))
            (shift (notify_post-Quiet c w my_id p s').posts put) put)
  ]

  process_incoming_post-OnlyBy :
      {asked : ℕ → Type 0} (my_id : ℕ) (p : Post) (s : Store)
      → OnlyBy asked p.author s (process_incoming_post keys c w my_id p s).1
  unfolding process_incoming_post
  process_incoming_post-OnlyBy {asked} my_id p s =
      let P : Bool × Store → Type 0 = λ out. OnlyBy asked p.author s out.1 in
      elim (Option-cases (resolve_signer keys w p.author s)) [
        | inl unknown ↦
            simp (unknown, process_incoming_post)
              (if_keeps P (validate_post w.now p) {x = (false, s)} {y = (false, s)}
                (same p.author s) (same p.author s))
        | inr (k, known) ↦
            simp (known, process_incoming_post)
              (if_keeps P (validate_post w.now p) {y = (false, s)}
                (if_keeps P (passes (verify_post_signature keys p k)) {y = (false, s)}
                  (store_post-OnlyBy my_id p s) (same p.author s))
                (same p.author s))
      ]

  process_incoming_interaction-posts :
      (my_id expected : ℕ) (i : Interaction) (s : Store)
      → (process_incoming_interaction keys c w my_id expected i s).posts ≡ s.posts
  unfolding process_incoming_interaction store_interaction save_interaction
  process_incoming_interaction-posts my_id expected i s =
      let P : Store → Type 0 = λ t. t.posts ≡ s.posts in
      elim (Option-cases (resolve_signer keys w i.author s)) [
        | inl unknown ↦
            simp (unknown, process_incoming_interaction)
              (if_keeps P (i.author == expected)
                (if_keeps P (validate_interaction w.now i) {x = s} {y = s} refl refl) refl)
        | inr (k, known) ↦
            simp (known, process_incoming_interaction)
              (if_keeps P (i.author == expected)
                (if_keeps P (validate_interaction w.now i)
                  (if_keeps P (passes (verify_interaction_signature keys i k)) {y = s}
                    ((notify-Quiet c w _ _ (save_interaction w i s)).posts
                      ∙ if_keeps P (w.fails q_interaction) {x = s} refl refl)
                    refl)
                  refl)
                refl)
      ]

  delete_own_post-OnlyBy :
      {asked : ℕ → Type 0} (pk id : ℕ) (s : Store)
      → asked id
      → OnlyBy asked pk s (delete_own_post keys c w pk id s)
  unfolding delete_own_post get_post_by_id delete_post
  delete_own_post-OnlyBy {asked} pk id s ask = elim (Bool-cases (w.fails q_post)) [
    | inl fails ↦ simp (fails, delete_own_post, get_post_by_id) (same pk s)
    | inr works ↦ elim (Option-cases (fetch w.row (with_id id s.posts))) [
      | inl missing ↦ simp (works, missing, delete_own_post, get_post_by_id) (same pk s)
      | inr (p, found) ↦ elim (Bool-cases (p.author == pk)) [
        | inr other ↦ simp (works, found, other, delete_own_post, get_post_by_id) (same pk s)
        | inl own ↦
            simp (works, found, own, delete_own_post, get_post_by_id)
              (shift refl (
                if_keeps (OnlyBy asked pk s) (w.fails q_unnotify) (same pk s) (
                  if_keeps (OnlyBy asked pk s) (w.fails q_delete_post) (same_posts pk s _ refl) (
                    drop-OnlyBy pk id s _ ask (fetch-row_of w.row pk id s.posts p found own)
                      refl))))
      ]
    ]
  ]

  handle_new_post-OnlyBy :
      {asked : ℕ → Type 0} (pk my_id : ℕ) (p : Post) (s : Store)
      → OnlyBy asked pk s (handle_new_post keys c w pk my_id p s)
  unfolding handle_new_post
  handle_new_post-OnlyBy {asked} pk my_id p s = elim (Bool-cases (p.author == pk)) [
    | inr other ↦ simp (other, handle_new_post) (same pk s)
    | inl own ↦
        let out = process_incoming_post keys c w my_id p s in
        let kept : OnlyBy asked pk s out.1 =
          subst (λ a. OnlyBy asked a s out.1) (==→eq p.author pk own)
            (process_incoming_post-OnlyBy my_id p s) in
        simp (own, handle_new_post)
          (if_keeps (OnlyBy asked pk s) (is_hidden w pk s) (same pk s)
            (if_keeps (OnlyBy asked pk s) out.0 (shift refl kept) kept))
  ]

  -- Whatever message arrives on a peer's topic, and whichever statements on the database fail:
  -- every stored post of another author is still there as it was, unless the message asks to
  -- delete its id and the peer has a stored post with that id, and every post that is stored
  -- afterwards was there before or is the peer's own.
  pub handle_follow_message-OnlyBy :
      (pk my_id : ℕ) (m : Option GossipMessage) (s : Store)
      → OnlyBy (AskedFor m) pk s (handle_follow_message keys c w pk my_id m s)
  unfolding handle_follow_message handle_delete_post handle_profile_update handle_new_interaction
      handle_delete_interaction handle_linked_devices handle_signing_key_rotation delete_interaction
      cache_peer_device_announcement cache_peer_identity
  handle_follow_message-OnlyBy pk my_id none s = same pk s
  handle_follow_message-OnlyBy pk my_id (some (new_post p)) s = handle_new_post-OnlyBy pk my_id p s
  handle_follow_message-OnlyBy pk my_id (some (delete_post_message id author signature)) s =
      if_keeps (OnlyBy (AskedFor (some (delete_post_message id author signature))) pk s)
        (not (author == pk)) (same pk s)
        (if_keeps (OnlyBy (AskedFor (some (delete_post_message id author signature))) pk s)
          (is_forged (resolve_signer keys w pk s)
            (λ k. passes (verify_delete_post_signature keys id author signature k)))
          (same pk s) (delete_own_post-OnlyBy pk id s (author, signature, refl)))
  handle_follow_message-OnlyBy pk my_id (some (profile_update p)) s =
      if_keeps (OnlyBy (AskedFor (some (profile_update p))) pk s) (not (validate_profile p))
        (same pk s)
        (if_keeps (OnlyBy (AskedFor (some (profile_update p))) pk s)
          (is_forged (resolve_signer keys w pk s) (λ k. passes (verify_profile_signature keys p k)))
          (same pk s) (same_posts pk s _ (save_profile-Quiet keys c w pk p s).posts))
  handle_follow_message-OnlyBy pk my_id (some (new_interaction i)) s =
      if_keeps (OnlyBy (AskedFor (some (new_interaction i))) pk s) (not (i.author == pk))
        (same pk s)
        (if_keeps (OnlyBy (AskedFor (some (new_interaction i))) pk s) (is_hidden w pk s) (same pk s)
          (same_posts pk s _ (process_incoming_interaction-posts my_id pk i s)))
  handle_follow_message-OnlyBy pk my_id (some (delete_interaction_message id author signature)) s =
      if_keeps (OnlyBy (AskedFor (some (delete_interaction_message id author signature))) pk s)
        (not (author == pk)) (same pk s)
        (if_keeps (OnlyBy (AskedFor (some (delete_interaction_message id author signature))) pk s)
          (is_forged (resolve_signer keys w pk s)
            (λ k. passes (verify_delete_interaction_signature keys id author signature k)))
          (same pk s)
          (shift refl (
            if_keeps
              (OnlyBy (AskedFor (some (delete_interaction_message id author signature))) pk s)
              (w.fails q_delete_interaction) (same pk s) (same_posts pk s _ refl))))
  handle_follow_message-OnlyBy pk my_id (some (linked_devices a)) s =
      if_keeps (OnlyBy (AskedFor (some (linked_devices a))) pk s) (not (a.master_pubkey == pk))
        (same pk s)
        (if_keeps (OnlyBy (AskedFor (some (linked_devices a))) pk s)
          (not (passes (verify_linked_devices_announcement keys a))) (same pk s)
          (if_keeps (OnlyBy (AskedFor (some (linked_devices a))) pk s)
            (leb a.version (get_peer_announcement_version w pk s)) (same pk s)
            (if_keeps (OnlyBy (AskedFor (some (linked_devices a))) pk s) (w.fails q_announcement)
              (same pk s)
              (if_keeps (OnlyBy (AskedFor (some (linked_devices a))) pk s) (w.fails q_update_ids)
                (same_posts pk s _ refl) (same_posts pk s _ refl)))))
  handle_follow_message-OnlyBy pk my_id (some (signing_key_rotation r)) s =
      if_keeps (OnlyBy (AskedFor (some (signing_key_rotation r))) pk s)
        (not (r.master_pubkey == pk)) (same pk s)
        (if_keeps (OnlyBy (AskedFor (some (signing_key_rotation r))) pk s)
          (not (passes (verify_rotation keys r))) (same pk s)
          (if_keeps (OnlyBy (AskedFor (some (signing_key_rotation r))) pk s)
            (is_stale keys c w pk r s) (same pk s)
            (if_keeps (OnlyBy (AskedFor (some (signing_key_rotation r))) pk s) (w.fails q_identity)
              (same pk s) (same_posts pk s _ refl))))
  handle_follow_message-OnlyBy pk my_id (some heartbeat) s = same pk s
  handle_follow_message-OnlyBy pk my_id (some (stage_announcement id title ticket host started)) s =
      same_posts pk s _ refl
  handle_follow_message-OnlyBy pk my_id (some (stage_ended id)) s = same_posts pk s _ refl
