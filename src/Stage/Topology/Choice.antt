-- ===== src/Stage/Topology/Choice.antt =====
-- What stage/topology.rs picks: a source with room, and nothing only when none has room.
use proscenium.Common.{
  ℕ, suc, ◌+◌, ◌≤◌, ◌<◌, ◌≡◌, refl, subst, ◌⊎◌, inl, inr, ◌&&◌, Option, none, some, List, [], ◌∷◌,
  arith, All, Option-cases, Bool-cases,
}
use proscenium.Stage.Topology.{
  Source, has_room, is_host, find_host, better, max_room, choose, source_at,
}

-- What `choose` picks has room.
abbrev pub HasRoomAt : ℕ → List Source → Type 0
HasRoomAt i ss = (s : Source) × (source_at i ss ≡ some s) × (s.assigned < s.capacity)

-- Nobody has room.
abbrev pub IsFull : List Source → Type 0
IsFull = All (λ s. s.capacity ≤ s.assigned)

-- Index `i`, reckoned from `base`, lies in the list and has room there.
abbrev RoomFrom : ℕ → ℕ → List Source → Type 0
RoomFrom base i ss = (k : ℕ) × (i ≡ base + k) × HasRoomAt k ss

find_host-RoomFrom :
    (base i : ℕ) (ss : List Source) → find_host base ss ≡ some i → RoomFrom base i ss
unfolding find_host
find_host-RoomFrom base i [] e = cc
find_host-RoomFrom base i (s ∷ ss) e = elim (Bool-cases (is_host s.kind && has_room s)) [
  | inl here ↦ (0, ground arith, (s, refl, ground arith))
  | inr further ↦
      let (k, at, r) = find_host-RoomFrom (suc base) i ss (ground arith) in (suc k, omega arith, r)
]

better-some :
    (base i room : ℕ) (best : Option (ℕ × ℕ)) (s : Source)
    → better base best s ≡ some (i, room)
    → (best ≡ some (i, room)) ⊎ ((i ≡ base) × (s.assigned < s.capacity))
better-some base i room none s e = ground arith
better-some base i room (some (b, r)) s e = ground arith

better-none :
    (base : ℕ) (best : Option (ℕ × ℕ)) (s : Source)
    → better base best s ≡ none
    → (best ≡ none) × (s.capacity ≤ s.assigned)
better-none base none s e = ground arith
better-none base (some (b, r)) s e = ground arith

-- Either the choice so far stands, or a later source is chosen.
max_room-RoomFrom :
    (base i room : ℕ) (best : Option (ℕ × ℕ)) (ss : List Source)
    → max_room base best ss ≡ some (i, room)
    → (best ≡ some (i, room)) ⊎ RoomFrom base i ss
unfolding max_room
max_room-RoomFrom base i room best [] e = inl e
max_room-RoomFrom base i room best (s ∷ ss) e =
    elim (max_room-RoomFrom (suc base) i room (better base best s) ss e) [
      | inl kept ↦ elim (better-some base i room best s kept) [
        | inl before ↦ inl before
        | inr (here, lt) ↦ inr (0, ground arith, (s, refl, lt))
      ]
      | inr (k, at, r) ↦ inr (suc k, omega arith, r)
    ]

max_room-IsFull :
    (base : ℕ) (best : Option (ℕ × ℕ)) (ss : List Source)
    → max_room base best ss ≡ none
    → (best ≡ none) × IsFull ss
unfolding max_room
max_room-IsFull base best [] e = (e, tt)
max_room-IsFull base best (s ∷ ss) e =
    let (kept, full) = max_room-IsFull (suc base) (better base best s) ss e in
    let (none_yet, over) = better-none base best s kept in (none_yet, (over, full))

pub choose-some : (ss : List Source) (i : ℕ) → choose ss ≡ some i → HasRoomAt i ss
unfolding choose
choose-some ss i e = elim (Option-cases (find_host 0 ss)) [
  | inl no_host ↦ elim (Option-cases (max_room 0 none ss)) [
    | inl nobody ↦ absurd (ground arith)
    | inr ((k, room), found) ↦ elim (max_room-RoomFrom 0 k room none ss found) [
      | inl never ↦ absurd (cc)
      | inr (j, at, r) ↦ subst (λ x. HasRoomAt x ss) (ground arith) r
    ]
  ]
  | inr (k, found) ↦
      let (j, at, r) = find_host-RoomFrom 0 k ss found in
      subst (λ x. HasRoomAt x ss) (ground arith) r
]

pub choose-none : (ss : List Source) → choose ss ≡ none → IsFull ss
unfolding choose
choose-none ss e = elim (Option-cases (max_room 0 none ss)) [
  | inl nobody ↦ (max_room-IsFull 0 none ss nobody).1
  | inr ((k, room), found) ↦ absurd (ground arith)
]
