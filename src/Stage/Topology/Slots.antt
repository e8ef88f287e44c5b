-- ===== src/Stage/Topology/Slots.antt =====
-- Slots and assignments counted: what taking and giving back a slot does to the counts.
use proscenium.Common.{
  ℕ, zero, suc, ◌+◌, ◌≤◌, ◌<◌, ◌≡◌, refl, ◌∙◌, Bool, true, false, none, some, List, [], ◌∷◌, arith,
  ◌==◌, if◌then◌else◌, All, lookup, insert, remove, lookup-insert, lookup-remove, Bool-cases, inl,
  inr,
}
use proscenium.Stage.Topology.{Source, has_endpoint, release_slot, take_slot, source_at}

-- How many listeners are assigned to an endpoint.
abbrev pub count : ℕ → List (ℕ × ℕ) → ℕ
count id [] = 0
count id ((k, v) ∷ m) = if v == id then suc (count id m) else count id m

-- The entries have different keys.
abbrev pub Distinct : List (ℕ × ℕ) → Type 0
Distinct [] = Unit
Distinct ((k, v) ∷ m) = (lookup k m ≡ none) × Distinct m

-- The sources have different endpoints.
abbrev pub Unique : List Source → Type 0
Unique [] = Unit
Unique (s ∷ ss) = (has_endpoint s.endpoint_id ss ≡ false) × Unique ss

-- Each source counts its listeners as `f` does, and is within its capacity.
abbrev pub Counts : (ℕ → ℕ) → List Source → Type 0
Counts f = All (λ s. (s.assigned ≡ f s.endpoint_id) × (s.assigned ≤ s.capacity))

abbrev pub one_if : Bool → ℕ
one_if true = 1
one_if false = 0

pub count-insert :
    (k v id : ℕ) (m : List (ℕ × ℕ))
    → lookup k m ≡ none
    → count id (insert k v m) ≡ count id m + one_if (v == id)
count-insert k v id [] e = ground arith
count-insert k v id ((j, w) ∷ m) e = ground (arith, count-insert k v id m)

remove-absent : (k : ℕ) (m : List (ℕ × ℕ)) → lookup k m ≡ none → remove k m ≡ m
remove-absent k [] e = refl
remove-absent k ((j, w) ∷ m) e = ground (arith, remove-absent k m)

pub count-remove :
    (k v id : ℕ) (m : List (ℕ × ℕ))
    → Distinct m
    → lookup k m ≡ some v
    → count id (remove k m) + one_if (v == id) ≡ count id m
count-remove k v id [] d e = cc
count-remove k v id ((j, w) ∷ m) d e = ground (arith, count-remove k v id m d.1, remove-absent k m)

pub insert-Distinct : (k v : ℕ) (m : List (ℕ × ℕ)) → Distinct m → Distinct (insert k v m)
insert-Distinct k v [] d = (refl, tt)
insert-Distinct k v ((j, w) ∷ m) d =
    ground (arith, insert-Distinct k v m d.1, lookup-insert k j v m)

pub remove-Distinct : (k : ℕ) (m : List (ℕ × ℕ)) → Distinct m → Distinct (remove k m)
remove-Distinct k [] d = tt
remove-Distinct k ((j, w) ∷ m) d = ground (arith, remove-Distinct k m d.1, lookup-remove k j m)

pub has_endpoint-release_slot :
    (id old : ℕ) (ss : List Source) → has_endpoint id (release_slot old ss) ≡ has_endpoint id ss
has_endpoint-release_slot id old [] = refl
has_endpoint-release_slot id old (s ∷ ss) = ground (arith, has_endpoint-release_slot id old ss)

pub has_endpoint-take_slot :
    (id i : ℕ) (ss : List Source) → has_endpoint id (take_slot i ss) ≡ has_endpoint id ss
has_endpoint-take_slot id i [] = refl
has_endpoint-take_slot id zero (s ∷ ss) = refl
has_endpoint-take_slot id (suc i) (s ∷ ss) = ground (arith, has_endpoint-take_slot id i ss)

pub release_slot-Unique : (old : ℕ) (ss : List Source) → Unique ss → Unique (release_slot old ss)
release_slot-Unique old [] u = tt
release_slot-Unique old (s ∷ ss) u =
    ground (arith, release_slot-Unique old ss u.1, has_endpoint-release_slot s.endpoint_id old ss)

pub take_slot-Unique : (i : ℕ) (ss : List Source) → Unique ss → Unique (take_slot i ss)
take_slot-Unique i [] u = tt
take_slot-Unique zero (s ∷ ss) u = u
take_slot-Unique (suc i) (s ∷ ss) u =
    (has_endpoint-take_slot s.endpoint_id i ss ∙ u.0, take_slot-Unique i ss u.1)

-- A change of the counting that leaves the endpoints of the sources alone.
Counts-same :
    (f g : ℕ → ℕ) (id : ℕ) (ss : List Source)
    → has_endpoint id ss ≡ false
    → ((j : ℕ) → (j == id) ≡ false → g j ≡ f j)
    → Counts f ss
    → Counts g ss
Counts-same f g id [] e h c = tt
Counts-same f g id (s ∷ ss) e h c =
    (ground (arith, h s.endpoint_id), Counts-same f g id ss (ground arith) h c.1)

pub release_slot-Counts :
    (f g : ℕ → ℕ) (id : ℕ) (ss : List Source)
    → Unique ss
    → ((j : ℕ) → g j + one_if (id == j) ≡ f j)
    → Counts f ss
    → Counts g (release_slot id ss)
release_slot-Counts f g id [] u h c = tt
release_slot-Counts f g id (s ∷ ss) u h c = elim (Bool-cases (s.endpoint_id == id)) [
  | inl hit ↦ rw hit (
    ground (arith, h s.endpoint_id),
    Counts-same f g s.endpoint_id ss u.0 (λ j ne. ground (arith, h j)) c.1,
  )
  | inr miss ↦ rw miss (ground (arith, h s.endpoint_id), release_slot-Counts f g id ss u.1 h c.1)
]

pub source_at-ne :
    (id i : ℕ) (ss : List Source) (t : Source)
    → source_at i ss ≡ some t
    → has_endpoint id ss ≡ false
    → (t.endpoint_id == id) ≡ false
source_at-ne id i [] t e h = cc
source_at-ne id zero (s ∷ ss) t e h = ground arith
source_at-ne id (suc i) (s ∷ ss) t e h = ground (arith, source_at-ne id i ss t)

pub take_slot-Counts :
    (f g : ℕ → ℕ) (i : ℕ) (ss : List Source) (t : Source)
    → source_at i ss ≡ some t
    → t.assigned < t.capacity
    → Unique ss
    → ((j : ℕ) → g j ≡ f j + one_if (t.endpoint_id == j))
    → Counts f ss
    → Counts g (take_slot i ss)
take_slot-Counts f g i [] t e lt u h c = tt
take_slot-Counts f g zero (s ∷ ss) t e lt u h c = (
  ground (arith, h s.endpoint_id),
  Counts-same f g s.endpoint_id ss u.0 (λ j ne. ground (arith, h j)) c.1,
)
take_slot-Counts f g (suc i) (s ∷ ss) t e lt u h c = (
  ground (arith, h s.endpoint_id, source_at-ne s.endpoint_id i ss t),
  take_slot-Counts f g i ss t e lt u.1 h c.1,
)
