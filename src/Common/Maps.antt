-- ===== src/Common/Maps.antt =====
-- A `HashMap` keyed by identifiers, as an association list with at most one entry for a key.
use Prim.Native.Nat.{ℕ}
use mathlib.Core.Path.{◌≡◌, refl, ap, subst}
use mathlib.Core.Logic.{inl, inr}
use mathlib.Core.Option.{Option, none, some}
use mathlib.Core.List.{List, [], ◌∷◌}
use native.Mathlib.Omega.{arith}
use mathlib.Core.Bool.{Bool, true, false}
use proscenium.Common.Tests.{◌==◌, if◌then◌else◌, Bool-cases, ==→eq}

module _ {ℓ} {V : Type ℓ} where
  abbrev pub lookup : ℕ → List (ℕ × V) → Option V
  lookup k [] = none
  lookup k ((j, v) ∷ m) = if j == k then some v else lookup k m

  abbrev pub insert : ℕ → V → List (ℕ × V) → List (ℕ × V)
  insert k v [] = (k, v) ∷ []
  insert k v ((j, w) ∷ m) = if j == k then (k, v) ∷ m else (j, w) ∷ insert k v m

  -- `HashMap::remove`.
  abbrev pub remove : ℕ → List (ℕ × V) → List (ℕ × V)
  remove k [] = []
  remove k ((j, w) ∷ m) = if j == k then remove k m else (j, w) ∷ remove k m

  -- `get_mut` and an assignment through it, if the key is there.
  abbrev pub update : ℕ → (V → V) → List (ℕ × V) → List (ℕ × V)
  update k f [] = []
  update k f ((j, v) ∷ m) = if j == k then (k, f v) ∷ m else (j, v) ∷ update k f m

  abbrev pub contains_key : ℕ → List (ℕ × V) → Bool
  contains_key k [] = false
  contains_key k ((j, v) ∷ m) = if j == k then true else contains_key k m

  abbrev pub values : List (ℕ × V) → List V
  values [] = []
  values ((j, v) ∷ m) = v ∷ values m

  pub lookup-insert :
      (k j : ℕ) (v : V) (m : List (ℕ × V))
      → lookup j (insert k v m) ≡ (if k == j then some v else lookup j m)
  lookup-insert k j v [] = refl
  lookup-insert k j v ((i, w) ∷ m) = ground (arith, lookup-insert k j v m)

  pub lookup-remove :
      (k j : ℕ) (m : List (ℕ × V)) → lookup j (remove k m) ≡ (if k == j then none else lookup j m)
  lookup-remove k j [] = ground arith
  lookup-remove k j ((i, w) ∷ m) = ground (arith, lookup-remove k j m)

  pub lookup-update :
      (k j : ℕ) (f : V → V) (m : List (ℕ × V))
      → lookup j (update k f m)
        ≡ (if k == j then elim (lookup j m) [ none ↦ none | some v ↦ some (f v) ] else lookup j m)
  lookup-update k j f [] = ground arith
  lookup-update k j f ((i, v) ∷ m) = ground (arith, lookup-update k j f m)

  -- `INSERT OR IGNORE`: what is there stays.
  abbrev pub insert_or_ignore : ℕ → V → List (ℕ × V) → List (ℕ × V)
  insert_or_ignore k v m = if contains_key k m then m else insert k v m

pub some_inj {ℓ} : {A : Type ℓ} (a b : A) → some a ≡ some b → a ≡ b
some_inj a b e = ap (λ o. elim o [ none ↦ a | some x ↦ x ]) e

module _ {ℓ κ} {V : Type ℓ} (P : ℕ → V → Type κ) where
  -- Every entry satisfies `P`.
  abbrev pub Entries : List (ℕ × V) → Type κ
  Entries [] = Unit
  Entries ((k, v) ∷ m) = P k v × Entries m

  pub Entries-lookup : (k : ℕ) (v : V) (m : List (ℕ × V)) → Entries m → lookup k m ≡ some v → P k v
  Entries-lookup k v [] h e = ground arith
  Entries-lookup k v ((j, w) ∷ m) h e = elim (Bool-cases (j == k)) [
    | inl hit ↦
        subst (λ i. P i v) (==→eq j k hit)
          (subst (P j) (some_inj w v (simp (hit, lookup) at e)) h.0)
    | inr miss ↦ Entries-lookup k v m h.1 (simp (miss, lookup) at e)
  ]

  pub insert-Entries :
      (k : ℕ) (v : V) (m : List (ℕ × V)) → P k v → Entries m → Entries (insert k v m)
  insert-Entries k v [] p h = (p, tt)
  insert-Entries k v ((j, w) ∷ m) p h = elim (Bool-cases (j == k)) [
    | inl hit ↦ rw hit (p, h.1)
    | inr miss ↦ rw miss (h.0, insert-Entries k v m p h.1)
  ]

  pub update-Entries :
      (k : ℕ) (f : V → V) (m : List (ℕ × V))
      → ((j : ℕ) (v : V) → P j v → P j (f v))
      → Entries m
      → Entries (update k f m)
  update-Entries k f [] keeps h = tt
  update-Entries k f ((j, w) ∷ m) keeps h = elim (Bool-cases (j == k)) [
    | inl hit ↦ rw hit (subst (λ i. P i (f w)) (==→eq j k hit) (keeps j w h.0), h.1)
    | inr miss ↦ rw miss (h.0, update-Entries k f m keeps h.1)
  ]
