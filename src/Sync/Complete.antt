-- ===== src/Sync/Complete.antt =====
-- What a sync brings, by sync/server.rs and sync/client.rs.
use proscenium.Common.{
  ℕ, ◌+◌, ◌≤◌, ◌<◌, ◌≡◌, refl, sym, subst, ap, ap₂, ◌∙◌, ◌⊎◌, inl, inr, Bool, true, ◌&&◌, some,
  List, [], ◌∷◌, ◌++◌, arith, length, ltb, ◌==◌, Bool-cases, All,
}
use proscenium.Sync.{
  Row, posts_frame, interactions_frame, Visibility, SyncMode, SyncRequest, keep, elem, ids_of,
  newest, is_after, is_new, may_sync, after_count, is_catch_up, sync_mode, selected_posts,
  selected_interactions, handle_sync, sync_request, collect, sync_from_peer, stream_all, frames,
  is_up_to_date,
}
use proscenium.Sync.Paging.{concat-stream_all, collect-frames}

-- The rows with known ids.
abbrev pub known_rows : List ℕ → List Row → List Row
known_rows known = keep (λ r. elem r.id known)

length-known_rows :
    (known : List ℕ) (rows : List Row)
    → length (known_rows known rows) + length (keep (is_new known) rows) ≡ length rows
length-known_rows known [] = omega arith
length-known_rows known (r ∷ rs) = ground (arith, length-known_rows known rs)

-- The newer rows are new rows, if none of the known ones is newer.
abbrev pub NoneNewer : ℕ → List ℕ → List Row → Type 0
NoneNewer t known = All (λ r. elem r.id known ≡ true → r.timestamp ≤ t)

newest-NoneNewer :
    (t : ℕ) (known : List ℕ) (rows : List Row)
    → newest (known_rows known rows) ≤ t
    → NoneNewer t known rows
newest-NoneNewer t known [] h = tt
newest-NoneNewer t known (r ∷ rs) h = elim (Bool-cases (elem r.id known)) [
  | inl old ↦ (λ e. ground arith, newest-NoneNewer t known rs (ground arith))
  | inr fresh ↦ (λ e. ground arith, newest-NoneNewer t known rs (ground arith))
]

length-newer :
    (t : ℕ) (known : List ℕ) (rows : List Row)
    → NoneNewer t known rows
    → length (keep (is_after t) rows) ≤ length (keep (is_new known) rows)
length-newer t known [] h = omega arith
length-newer t known (r ∷ rs) h = ground (arith, length-newer t known rs h.1, h.0)

-- As many newer rows as new ones are the new ones.
newer-new :
    (t : ℕ) (known : List ℕ) (rows : List Row)
    → NoneNewer t known rows
    → length (keep (is_after t) rows) ≡ length (keep (is_new known) rows)
    → keep (is_after t) rows ≡ keep (is_new known) rows
newer-new t known [] h e = refl
newer-new t known (r ∷ rs) h e =
    ground (arith, newer-new t known rs h.1, length-newer t known rs h.1, h.0)

length-zero : (rs : List Row) → length rs ≡ 0 → rs ≡ []
length-zero [] e = refl
length-zero (r ∷ rs) e = absurd (omega arith)

keep_positive : (rows : List Row) → All (λ r. 0 < r.timestamp) rows → keep (is_after 0) rows ≡ rows
keep_positive [] h = refl
keep_positive (r ∷ rs) h = ground (arith, keep_positive rs h.1, h.0)

-- A client that has some of the server's rows, all of whose timestamps are positive.
pub record IsPart (client server : List Row) : Type 0 where
  pub part : client ≡ known_rows (ids_of client) server
  pub positive : All (λ r. 0 < r.timestamp) server

-- A catch-up selects exactly the missing rows.
catch_up-new :
    (client server : List Row)
    → IsPart client server
    → is_catch_up (length client) (newest client) server ≡ true
    → keep (is_after (newest client)) server ≡ keep (is_new (ids_of client)) server
unfolding is_catch_up after_count
catch_up-new client server v e =
    let none_newer =
      newest-NoneNewer (newest client) (ids_of client) server
        (subst (λ rs. newest rs ≤ newest client) v.part (omega arith)) in
    let counted = length-known_rows (ids_of client) server in
    newer-new (newest client) (ids_of client) server none_newer
      (elim (Bool-cases (ltb 0 (newest client))) [
        | inl some_newest ↦ ground (arith, counted, ap length v.part)
        | inr no_newest ↦
            let zero_newest : newest client ≡ 0 = ground arith in
            let whole =
              subst (λ t. length (keep (is_after t) server) ≡ length server) (sym zero_newest)
                (ap length (keep_positive server v.positive)) in
            ground (arith, counted, ap length v.part, whole)
      ])

-- With as many rows as the server, a client that has a part of them misses none.
none-new :
    (client server : List Row)
    → IsPart client server
    → length client ≡ length server
    → keep (is_new (ids_of client)) server ≡ []
none-new client server v e =
    length-zero (keep (is_new (ids_of client)) server)
      (omega (arith, length-known_rows (ids_of client) server, ap length v.part))

selected_posts-new :
    (my_interactions client server interactions : List Row)
    → IsPart client server
    → selected_posts
        (sync_mode (sync_request client my_interactions) server interactions)
        (newest client)
        (ids_of client)
        server
      ≡ keep (is_new (ids_of client)) server
unfolding sync_mode sync_request
selected_posts-new my_interactions client server interactions v =
    let matched =
      (length client == length server) && (length my_interactions == length interactions) in
    elim (Bool-cases matched) [
      | inl equal ↦ rw equal (sym (none-new client server v (ground arith)))
      | inr differ ↦ elim (Bool-cases (is_catch_up (length client) (newest client) server)) [
        | inl newer ↦ rw (differ, newer) (catch_up-new client server v newer)
        | inr other ↦ rw (differ, other) refl
      ]
    ]

selected_interactions-new :
    (client server : List Row)
    → IsPart client server
    → let sent = selected_interactions (length client) (newest client) server in
      (sent ≡ keep (is_new (ids_of client)) server) ⊎ (sent ≡ server)
selected_interactions-new client server v = elim (Bool-cases (length client == length server)) [
  | inl equal ↦ rw equal (inl (sym (none-new client server v (ground arith))))
  | inr differ ↦ elim (Bool-cases (is_catch_up (length client) (newest client) server)) [
    | inl newer ↦ rw (differ, newer) (inl (catch_up-new client server v newer))
    | inr other ↦ rw (differ, other) (inr refl)
  ]
]

collect-stream :
    (ps is : List Row)
    → collect (frames posts_frame (stream_all ps) ++ frames interactions_frame (stream_all is))
      ≡ (ps, is)
collect-stream ps is =
    collect-frames (stream_all ps) (stream_all is)
    ∙ ap₂ (λ a b. (a, b)) (concat-stream_all ps) (concat-stream_all is)

up_to_date-counts :
    (req : SyncRequest) (posts interactions : List Row)
    → is_up_to_date (sync_mode req posts interactions) ≡ true
    → (req.post_count ≡ length posts) × (req.interaction_count ≡ length interactions)
unfolding sync_mode
up_to_date-counts req posts interactions e =
    let matched =
      (req.post_count == length posts) && (req.interaction_count == length interactions) in
    elim (Bool-cases matched) [
      | inl equal ↦ (ground arith, ground arith)
      | inr differ ↦ absurd (ground arith)
    ]

-- A client that has a part of the server's posts and interactions, all with positive timestamps,
-- syncs with a server that lets it. Then, whichever mode the server chooses, the posts that the
-- client gets are exactly those that it misses, in the order of the server, and the interactions
-- are exactly those that it misses or all of the server's.
pub sync_from_peer_lem :
    (visibility : Visibility) (is_follower is_mutual : Bool)
    (my_posts my_interactions posts interactions : List Row)
    → may_sync visibility is_follower is_mutual ≡ true
    → IsPart my_posts posts
    → IsPart my_interactions interactions
    → (mode : SyncMode) × (got : List Row) × (sync_from_peer visibility is_follower is_mutual
          my_posts my_interactions posts interactions
        ≡ some (mode, keep (is_new (ids_of my_posts)) posts, got))
      × ((got ≡ keep (is_new (ids_of my_interactions)) interactions) ⊎ (got ≡ interactions))
unfolding sync_from_peer handle_sync sync_request collect
sync_from_peer_lem visibility is_follower is_mutual my_posts my_interactions posts interactions may
      v w =
    let mode = sync_mode (sync_request my_posts my_interactions) posts interactions in
    let got =
      selected_interactions (length my_interactions) (newest my_interactions) interactions in
    elim (Bool-cases (is_up_to_date mode)) [
      | inl done ↦
          let (ps, is) =
            up_to_date-counts (sync_request my_posts my_interactions) posts interactions done in
          (
            mode,
            [],
            rw (may, done) (ap (λ qs. some (mode, qs, [])) (sym (none-new my_posts posts v ps))),
            inl (sym (none-new my_interactions interactions w is)),
          )
      | inr more ↦ (
        mode,
        got,
        rw (may, more)
            (ap (λ r. some (mode, r.0, r.1)) (collect-stream _ got)
              ∙ ap (λ qs. some (mode, qs, got))
                  (selected_posts-new my_interactions my_posts posts interactions v)),
        selected_interactions-new my_interactions interactions w,
      )
    ]
