-- ===== src/Common/Lww.antt =====
-- Tables with one row for a key, whose rows carry the time of their last change: the newer of two
-- rows wins. The keys are compared by a Boolean test.
use Prim.Native.Nat.{ℕ, ◌+◌}
use mathlib.Core.Path.{◌≡◌, refl, ap, sym, subst, ◌∙◌}
use mathlib.Core.Logic.{◌⊎◌, inl, inr}
use mathlib.Core.Option.{Option, none, some}
use mathlib.Core.List.{List, [], ◌∷◌}
use mathlib.Core.Bool.{Bool, true, false}
use native.Mathlib.Omega.{arith}
use proscenium.Common.Tests.{ltb, ◌==◌, if◌then◌else◌, Bool-cases, ==→eq, if_keeps}

-- The test of an interface of keys, with what it decides.
pub record Key {ℓ} (K : Type ℓ) : Type ℓ where
  pub same : K → K → Bool
  pub same_refl : (k : K) → same k k ≡ true
  pub same→eq : (j k : K) → same j k ≡ true → j ≡ k

module _ {ℓ κ} {K : Type ℓ} {E : Type κ} (key : Key K) where
  abbrev pub find : K → List (K × E) → Option E
  find k [] = none
  find k ((j, e) ∷ t) = if key.same j k then some e else find k t

  -- `INSERT ... ON CONFLICT DO UPDATE`.
  abbrev pub put : K → E → List (K × E) → List (K × E)
  put k e [] = (k, e) ∷ []
  put k e ((j, d) ∷ t) = if key.same j k then (k, e) ∷ t else (j, d) ∷ put k e t

  -- One row for a key.
  abbrev pub UniqueKeys : List (K × E) → Type κ
  UniqueKeys [] = Unit
  UniqueKeys ((k, e) ∷ t) = (find k t ≡ none) × UniqueKeys t

  pub find-put :
      (k j : K) (e : E) (t : List (K × E))
      → find j (put k e t) ≡ (if key.same k j then some e else find j t)
  find-put k j e [] = refl
  find-put k j e ((i, d) ∷ t) = elim (Bool-cases (key.same i k)) [
    | inl hit ↦ elim (Bool-cases (key.same k j)) [
      | inl found ↦ simp (hit, found, find) refl
      | inr other ↦
          let there : key.same i j ≡ false =
            subst (λ x. key.same x j ≡ false) (sym (key.same→eq i k hit)) other in
          simp (hit, other, there, find) refl
    ]
    | inr miss ↦ elim (Bool-cases (key.same i j)) [
      | inl at_i ↦ elim (Bool-cases (key.same k j)) [
        | inl found ↦ absurd (
            ground (
              arith,
              miss,
              key.same_refl i,
              subst (λ x. key.same i x ≡ true) (key.same→eq i j at_i ∙ sym (key.same→eq k j found))
                  (key.same_refl i),
            ))
        | inr other ↦ simp (miss, at_i, other, find) refl
      ]
      | inr not_i ↦ simp (miss, not_i, find) (find-put k j e t)
    ]
  ]

  pub put-UniqueKeys : (k : K) (e : E) (t : List (K × E)) → UniqueKeys t → UniqueKeys (put k e t)
  put-UniqueKeys k e [] u = (refl, tt)
  put-UniqueKeys k e ((j, d) ∷ t) u = elim (Bool-cases (key.same j k)) [
    | inl hit ↦ rw hit (subst (λ i. find i t ≡ none) (key.same→eq j k hit) u.0, u.1)
    | inr miss ↦ elim (Bool-cases (key.same k j)) [
      | inl back ↦ absurd (
          ground (
            arith,
            miss,
            subst (λ i. key.same j i ≡ true) (sym (key.same→eq k j back)) (key.same_refl j),
          ))
      | inr away ↦ rw miss (find-put k j e t ∙ simp (away) u.0, put-UniqueKeys k e t u.1)
    ]
  ]

module _ {ℓ κ} {K : Type ℓ} {E : Type κ} (key : Key K) (stamp : E → ℕ) where
  -- Whether a row is news beside the row that is there.
  abbrev pub is_newer : E → Option E → Bool
  is_newer e none = true
  is_newer e (some d) = ltb (stamp d) (stamp e)

  abbrev pub merge_one : K → E → List (K × E) → List (K × E)
  merge_one k e t = if is_newer e (find key k t) then put key k e t else t

  -- Merges rows one by one and counts those that are written.
  abbrev pub merge_lww : List (K × E) → List (K × E) → ℕ × List (K × E)
  merge_lww [] t = (0, t)
  merge_lww ((k, e) ∷ es) t =
      let rest = merge_lww es (merge_one k e t) in
      ((if is_newer e (find key k t) then 1 else 0) + rest.0, rest.1)

  -- The rows that are news to a peer.
  abbrev pub deltas : List (K × E) → List (K × E) → List (K × E)
  deltas [] theirs = []
  deltas ((k, e) ∷ ours) theirs =
      if is_newer e (find key k theirs) then (k, e) ∷ deltas ours theirs else deltas ours theirs

  -- Of an offered row and the own one, the newer; at the same time, the own one.
  abbrev pub pick : Option E → Option E → Option E
  pick none own = own
  pick (some e) own = if is_newer e own then some e else own

  pub find-merge_one :
      (k j : K) (e : E) (t : List (K × E))
      → find key j (merge_one k e t)
        ≡ (if key.same k j then pick (some e) (find key j t) else find key j t)
  find-merge_one k j e t = elim (Bool-cases (is_newer e (find key k t))) [
    | inl new ↦ elim (Bool-cases (key.same k j)) [
      | inl hit ↦
          let news : is_newer e (find key j t) ≡ true =
            subst (λ i. is_newer e (find key i t) ≡ true) (key.same→eq k j hit) new in
          rw new (find-put key k j e t ∙ simp (hit, news, pick) refl)
      | inr miss ↦ rw new (find-put key k j e t ∙ simp (miss) refl)
    ]
    | inr old ↦ elim (Bool-cases (key.same k j)) [
      | inl hit ↦
          let stale : is_newer e (find key j t) ≡ false =
            subst (λ i. is_newer e (find key i t) ≡ false) (key.same→eq k j hit) old in
          simp (old, hit, stale, pick) refl
      | inr miss ↦ simp (old, miss) refl
    ]
  ]

  -- Rows with different keys are merged independently of each other.
  pub find-merge_lww :
      (es t : List (K × E)) (j : K)
      → UniqueKeys key es
      → find key j (merge_lww es t).1 ≡ pick (find key j es) (find key j t)
  find-merge_lww [] t j u = refl
  find-merge_lww ((k, e) ∷ es) t j u = elim (Bool-cases (key.same k j)) [
    | inl hit ↦
        let gone : find key j es ≡ none =
          subst (λ i. find key i es ≡ none) (key.same→eq k j hit) u.0 in
        find-merge_lww es (merge_one k e t) j u.1
        ∙ ap (λ o. pick o (find key j (merge_one k e t))) gone
        ∙ find-merge_one k j e t
        ∙ simp (hit, find) refl
    | inr miss ↦
        let same_row : find key j (merge_one k e t) ≡ find key j t =
          find-merge_one k j e t ∙ simp (miss) refl in
        find-merge_lww es (merge_one k e t) j u.1
        ∙ ap (pick (find key j es)) same_row
        ∙ simp (miss, find) refl
  ]

  pub deltas-absent :
      (ours theirs : List (K × E)) (j : K)
      → find key j ours ≡ none
      → find key j (deltas ours theirs) ≡ none
  deltas-absent [] theirs j e = refl
  deltas-absent ((k, d) ∷ ours) theirs j e = elim (Bool-cases (key.same k j)) [
    | inl hit ↦ absurd (ground (arith, (simp (hit, find) at e)))
    | inr miss ↦
        let rest = deltas-absent ours theirs j (simp (miss, find) at e) in
        elim (Bool-cases (is_newer d (find key k theirs))) [
          | inl new ↦ simp (new, miss, find, deltas) rest
          | inr old ↦ simp (old, deltas) rest
        ]
  ]

  pub deltas-UniqueKeys :
      (ours theirs : List (K × E)) → UniqueKeys key ours → UniqueKeys key (deltas ours theirs)
  deltas-UniqueKeys [] theirs u = tt
  deltas-UniqueKeys ((k, d) ∷ ours) theirs u = elim (Bool-cases (is_newer d (find key k theirs))) [
    | inl new ↦ rw new (deltas-absent ours theirs k u.0, deltas-UniqueKeys ours theirs u.1)
    | inr old ↦ rw old (deltas-UniqueKeys ours theirs u.1)
  ]

  -- What a peer picks from the deltas, it picks from the whole table.
  pub pick-deltas :
      (ours theirs : List (K × E)) (j : K)
      → UniqueKeys key ours
      → pick (find key j (deltas ours theirs)) (find key j theirs)
        ≡ pick (find key j ours) (find key j theirs)
  pick-deltas [] theirs j u = refl
  pick-deltas ((k, d) ∷ ours) theirs j u = elim (Bool-cases (key.same k j)) [
    | inl hit ↦ elim (Bool-cases (is_newer d (find key k theirs))) [
      | inl new ↦ simp (new, hit, find, deltas) refl
      | inr old ↦
          let stale : is_newer d (find key j theirs) ≡ false =
            subst (λ i. is_newer d (find key i theirs) ≡ false) (key.same→eq k j hit) old in
          let gone : find key j (deltas ours theirs) ≡ none =
            deltas-absent ours theirs j
              (subst (λ i. find key i ours ≡ none) (key.same→eq k j hit) u.0) in
          simp (old, hit, gone, stale, find, deltas, pick) refl
    ]
    | inr miss ↦
        let rest = pick-deltas ours theirs j u.1 in
        elim (Bool-cases (is_newer d (find key k theirs))) [
          | inl new ↦ simp (new, miss, find, deltas) rest
          | inr old ↦ simp (old, miss, find, deltas) rest
        ]
  ]

  -- A table that merged a peer's deltas holds, under every key, the newer of the two rows.
  pub find-merge-deltas :
      (ours theirs : List (K × E)) (j : K)
      → UniqueKeys key ours
      → find key j (merge_lww (deltas ours theirs) theirs).1
        ≡ pick (find key j ours) (find key j theirs)
  find-merge-deltas ours theirs j u =
      find-merge_lww (deltas ours theirs) theirs j (deltas-UniqueKeys ours theirs u)
      ∙ pick-deltas ours theirs j u

  merge_one-UniqueKeys :
      (k : K) (e : E) (t : List (K × E)) → UniqueKeys key t → UniqueKeys key (merge_one k e t)
  merge_one-UniqueKeys k e t u =
      if_keeps (UniqueKeys key) (is_newer e (find key k t)) (put-UniqueKeys key k e t u) u

  pub merge_lww-UniqueKeys :
      (es t : List (K × E)) → UniqueKeys key t → UniqueKeys key (merge_lww es t).1
  merge_lww-UniqueKeys [] t u = u
  merge_lww-UniqueKeys ((k, e) ∷ es) t u =
      merge_lww-UniqueKeys es (merge_one k e t) (merge_one-UniqueKeys k e t u)

  -- Picking once more changes nothing.
  pub pick-pick : (a b : Option E) → pick (pick a b) a ≡ pick b a
  pick-pick none none = refl
  pick-pick none (some e) = refl
  pick-pick (some d) none = ground arith
  pick-pick (some d) (some e) = ground arith

  -- The two rows have the same time.
  abbrev pub Tied : Option E → Option E → Type κ
  Tied a b = (x y : E) × (a ≡ some x) × (b ≡ some y) × (stamp x ≡ stamp y)

  -- `c` is one of two rows, and neither is newer.
  abbrev pub IsNewest : Option E → Option E → Option E → Type κ
  IsNewest a b c = ((c ≡ a) ⊎ (c ≡ b)) × (pick a c ≡ c) × (pick b c ≡ c)

  pub pick-IsNewest : (a b : Option E) → IsNewest a b (pick a b)
  pick-IsNewest none none = (inl refl, refl, refl)
  pick-IsNewest none (some e) = (inr refl, refl, ground arith)
  pick-IsNewest (some d) none = (inl refl, ground arith, refl)
  pick-IsNewest (some d) (some e) = elim (Bool-cases (ltb (stamp e) (stamp d))) [
    | inl new ↦ rw new (inl refl, ground arith, ground arith)
    | inr old ↦ rw old (inr refl, ground arith, ground arith)
  ]

  pub pick_sides : (a b : Option E) → (pick a b ≡ pick b a) ⊎ Tied a b
  pick_sides none none = inl refl
  pick_sides none (some e) = inl refl
  pick_sides (some d) none = inl refl
  pick_sides (some d) (some e) = elim (Bool-cases (stamp d == stamp e)) [
    | inl tie ↦ inr (d, e, refl, refl, ==→eq (stamp d) (stamp e) tie)
    | inr apart ↦ inl (ground (arith, apart))
  ]
