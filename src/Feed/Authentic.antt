-- ===== src/Feed/Authentic.antt =====
-- Nothing is stored that its author did not sign.
use proscenium.Common.{
  ℕ, ◌≤◌, ◌≡◌, refl, sym, ap, subst, ◌∙◌, ◌⊎◌, inl, inr, true, Option, none, some, List, [], ◌∷◌,
  arith, ◌==◌, length, lookup, Bool-cases, Option-cases, Entries, Entries-lookup, some_inj, All,
  ◌&&◌, ◌||◌,
}
use proscenium.Identity.{
  Keys, Post, Interaction, Profile, SigningKeyDelegation, Result, ok, err, verify_post_signature,
  verify_interaction_signature, verify_delegation,
}
use proscenium.Feed.{Store, Env, Crates, PeerRow}
use proscenium.Feed.Storage.{
  get_peer_signing_pubkey, insert_post, save_interaction, save_profile, put_post, put_interaction,
}
use proscenium.Feed.{
  get_peer_signing_pubkey as q_signing, insert_post as q_insert_post,
  save_interaction as q_interaction, save_profile as q_profile,
}
use proscenium.Feed.Ingest.{
  max_post_content_len, max_media_count, validate_post, passes, resolve_signer, store_post,
  process_incoming_post, store_interaction, process_incoming_interaction, validate_interaction,
  process_posts, process_interactions, process_sync_result,
}
use proscenium.Feed.Quiet.{Quiet, stay, notify-Quiet, notify_post-Quiet}

put_post-All :
    (P : Post → Type 0) (p : Post) (ps : List Post) → P p → All P ps → All P (put_post p ps)
put_post-All P p [] a h = (a, tt)
put_post-All P p (q ∷ ps) a h = elim (Bool-cases ((q.author == p.author) && (q.id == p.id))) [
  | inl there ↦ rw there h
  | inr other ↦ rw other (h.0, put_post-All P p ps a h.1)
]

put_interaction-All :
    (P : Interaction → Type 0) (i : Interaction) (is : List Interaction)
    → P i
    → All P is
    → All P (put_interaction i is)
put_interaction-All P i [] a h = (a, tt)
put_interaction-All P i (j ∷ is) a h =
    elim (Bool-cases
      ((j.author == i.author) && ((j.id == i.id) || (j.target_post_id == i.target_post_id)))) [
        | inl there ↦ rw there h
        | inr other ↦ rw other (h.0, put_interaction-All P i is a h.1)
      ]

module _ (keys : Keys) where
  -- The key is the author's own, or the author's key has delegated to it.
  abbrev pub IsSignerOf : ℕ → ℕ → Type 0
  IsSignerOf author k =
      (keys.parse_key author ≡ some k)
      ⊎ ((d : SigningKeyDelegation) × (verify_delegation keys d ≡ ok tt)
          × (d.master_pubkey ≡ author)
          × (keys.parse_key d.signing_pubkey ≡ some k))

  -- The author signed the post, and it is within the limits.
  pub record IsAuthentic (p : Post) : Type 0 where
    pub signer : ℕ
    pub entitled : IsSignerOf p.author signer
    pub signed : verify_post_signature keys p signer ≡ ok tt
    pub content_limit : length p.content ≤ max_post_content_len
    pub media_limit : length p.media ≤ max_media_count

  pub record IsOwn (i : Interaction) : Type 0 where
    pub signer : ℕ
    pub entitled : IsSignerOf i.author signer
    pub signed : verify_interaction_signature keys i signer ≡ ok tt

  abbrev pub IsBound : ℕ → PeerRow → Type 0
  IsBound master row =
      (verify_delegation keys row.delegation ≡ ok tt) × (row.delegation.master_pubkey ≡ master)

  -- Every post and interaction was signed for its author, and every delegation by its master key.
  pub record IsSound (s : Store) : Type 0 where
    pub posts : All IsAuthentic s.posts
    pub interactions : All IsOwn s.interactions
    pub delegations : Entries IsBound s.peer_delegations

  pub passes-ok : (r : Result (Unit {0})) → passes r ≡ true → r ≡ ok tt
  passes-ok (ok _) e = refl
  passes-ok (err _) e = ground arith

  module _ (w : Env) where
    pub resolve_signer-IsSignerOf :
        (m k : ℕ) (s : Store) → IsSound s → resolve_signer keys w m s ≡ some k → IsSignerOf m k
    unfolding resolve_signer get_peer_signing_pubkey
    resolve_signer-IsSignerOf m k s h e = elim (Bool-cases (w.fails q_signing)) [
      | inl fails ↦ inl (simp (fails, resolve_signer, get_peer_signing_pubkey) at e)
      | inr works ↦ elim (Option-cases (lookup m s.peer_delegations)) [
        | inl missing ↦ inl (simp (works, missing, resolve_signer, get_peer_signing_pubkey) at e)
        | inr (row, cached) ↦ elim (Option-cases (keys.parse_key row.delegation.signing_pubkey)) [
          | inl unparsed ↦
              inl (simp (works, cached, unparsed, resolve_signer, get_peer_signing_pubkey) at e)
          | inr (j, parsed) ↦
              let b = Entries-lookup IsBound m row s.peer_delegations h.delegations cached in
              let same : j ≡ k =
                some_inj j k
                  (simp (works, cached, parsed, resolve_signer, get_peer_signing_pubkey) at e) in
              inr (row.delegation, b.0, b.1, parsed ∙ ap some same)
        ]
      ]
    ]

  pub Quiet-IsSound : {s t : Store} → Quiet s t → IsSound s → IsSound t
  Quiet-IsSound q h = record {
    posts = subst (All IsAuthentic) (sym q.posts) h.posts;
    interactions = subst (All IsOwn) (sym q.interactions) h.interactions;
    delegations = subst (Entries IsBound) (sym q.delegations) h.delegations;
  }

  validate_post-limits :
      (now : ℕ) (p : Post)
      → validate_post now p ≡ true
      → (length p.content ≤ max_post_content_len) × (length p.media ≤ max_media_count)
  unfolding validate_post
  validate_post-limits now p e = ground arith

  module _ (c : Crates) (w : Env) where
    store_post-IsSound :
        (my_id : ℕ) (p : Post) (s : Store)
        → IsAuthentic p
        → IsSound s
        → IsSound (store_post c w my_id p s).1
    unfolding store_post insert_post
    store_post-IsSound my_id p s a h = elim (Bool-cases (w.fails q_insert_post)) [
      | inl fails ↦ rw fails h
      | inr works ↦
          let s' : Store = record s { posts = put_post p s.posts } in
          let kept : IsSound s' = record {
            posts = put_post-All IsAuthentic p s.posts a h.posts;
            interactions = h.interactions;
            delegations = h.delegations;
          } in
          elim (Bool-cases (p.author == my_id)) [
            | inl mine ↦ simp (works, mine, store_post, insert_post) kept
            | inr other ↦
                simp (works, other, store_post, insert_post)
                  (Quiet-IsSound (notify_post-Quiet c w my_id p s') kept)
          ]
    ]

    pub process_incoming_post-IsSound :
        (my_id : ℕ) (p : Post) (s : Store)
        → IsSound s
        → IsSound (process_incoming_post keys c w my_id p s).1
    unfolding process_incoming_post
    process_incoming_post-IsSound my_id p s h = elim (Bool-cases (validate_post w.now p)) [
      | inr bad ↦ simp (bad, process_incoming_post) h
      | inl good ↦ elim (Option-cases (resolve_signer keys w p.author s)) [
        | inl unknown ↦ simp (good, unknown, process_incoming_post) h
        | inr (k, known) ↦ elim (Bool-cases (passes (verify_post_signature keys p k))) [
          | inr forged ↦ simp (good, known, forged, process_incoming_post) h
          | inl signed ↦
              simp (good, known, signed, process_incoming_post)
                (store_post-IsSound my_id p s
                  (record {
                    signer = k;
                    entitled = resolve_signer-IsSignerOf w p.author k s h known;
                    signed = passes-ok _ signed;
                    content_limit = (validate_post-limits w.now p good).0;
                    media_limit = (validate_post-limits w.now p good).1;
                  })
                  h)
        ]
      ]
    ]

    store_interaction-IsSound :
        (my_id : ℕ) (i : Interaction) (s : Store)
        → IsOwn i
        → IsSound s
        → IsSound (store_interaction c w my_id i s)
    unfolding store_interaction save_interaction
    store_interaction-IsSound my_id i s a h =
        Quiet-IsSound (notify-Quiet c w _ _ (save_interaction w i s))
          (elim (Bool-cases (w.fails q_interaction)) [
            | inl fails ↦ rw fails h
            | inr works ↦ rw works (record {
              posts = h.posts;
              interactions = put_interaction-All IsOwn i s.interactions a h.interactions;
              delegations = h.delegations;
            })
          ])

    pub process_incoming_interaction-IsSound :
        (my_id expected : ℕ) (i : Interaction) (s : Store)
        → IsSound s
        → IsSound (process_incoming_interaction keys c w my_id expected i s)
    unfolding process_incoming_interaction
    process_incoming_interaction-IsSound my_id expected i s h =
        elim (Bool-cases (i.author == expected)) [
          | inr other ↦ simp (other, process_incoming_interaction) h
          | inl expected_author ↦ elim (Bool-cases (validate_interaction w.now i)) [
            | inr bad ↦ simp (expected_author, bad, process_incoming_interaction) h
            | inl good ↦ elim (Option-cases (resolve_signer keys w i.author s)) [
              | inl unknown ↦ simp (expected_author, good, unknown, process_incoming_interaction) h
              | inr (k, known) ↦
                  elim (Bool-cases (passes (verify_interaction_signature keys i k))) [
                    | inr forged ↦
                        simp (expected_author, good, known, forged, process_incoming_interaction) h
                    | inl signed ↦
                        simp (expected_author, good, known, signed, process_incoming_interaction)
                          (store_interaction-IsSound my_id i s
                            (record {
                              signer = k;
                              entitled = resolve_signer-IsSignerOf w i.author k s h known;
                              signed = passes-ok _ signed;
                            })
                            h)
                  ]
            ]
          ]
        ]

    process_posts-IsSound :
        (my_id : ℕ) (ps : List Post) (s : Store)
        → IsSound s
        → IsSound (process_posts keys c w my_id ps s).1
    unfolding process_posts
    process_posts-IsSound my_id [] s h = h
    process_posts-IsSound my_id (p ∷ ps) s h =
        process_posts-IsSound my_id ps (process_incoming_post keys c w my_id p s).1
          (process_incoming_post-IsSound my_id p s h)

    process_interactions-IsSound :
        (my_id pubkey : ℕ) (is : List Interaction) (s : Store)
        → IsSound s
        → IsSound (process_interactions keys c w my_id pubkey is s)
    unfolding process_interactions
    process_interactions-IsSound my_id pubkey [] s h = h
    process_interactions-IsSound my_id pubkey (i ∷ is) s h =
        process_interactions-IsSound my_id pubkey is
          (process_incoming_interaction keys c w my_id pubkey i s)
          (process_incoming_interaction-IsSound my_id pubkey i s h)

    pub save_profile-Quiet :
        (pubkey : ℕ) (p : Profile) (s : Store) → Quiet s (save_profile w pubkey p s)
    unfolding save_profile
    save_profile-Quiet pubkey p s = elim (Bool-cases (w.fails q_profile)) [
      | inl fails ↦ rw fails (stay s s refl refl refl refl)
      | inr works ↦ rw works (stay s _ refl refl refl refl)
    ]

    pub process_sync_result-IsSound :
        (my_id pubkey : ℕ) (ps : List Post) (profile : Option Profile) (is : List Interaction)
        (s : Store)
        → IsSound s
        → IsSound (process_sync_result keys c w my_id pubkey ps profile is s).1
    unfolding process_sync_result
    process_sync_result-IsSound my_id pubkey ps none is s h =
        process_interactions-IsSound my_id pubkey is (process_posts keys c w my_id ps s).1
          (process_posts-IsSound my_id ps s h)
    process_sync_result-IsSound my_id pubkey ps (some p) is s h =
        let s₁ = (process_posts keys c w my_id ps s).1 in
        process_interactions-IsSound my_id pubkey is (save_profile w pubkey p s₁)
          (Quiet-IsSound (save_profile-Quiet pubkey p s₁) (process_posts-IsSound my_id ps s h))
