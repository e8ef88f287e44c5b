-- ===== src/Stage/Room/Handler/Participants.antt =====
-- The participants map of stage/state.rs: every entry stands under its own public key.
use proscenium.Common.{
  ℕ, ◌≡◌, refl, true, false, List, [], ◌∷◌, ◌==◌, if◌then◌else◌, arith, lookup, insert, remove,
  update, contains_key, values,
}
use proscenium.Stage.Room.{Participant}
use proscenium.Stage.Room.Handler.{elem, listeners_of, or_else}

-- Each entry stands under its key, once.
abbrev pub Keyed : List (ℕ × Participant) → Type 0
Keyed [] = Unit
Keyed ((k, p) ∷ m) = (p.pubkey ≡ k) × (contains_key k m ≡ false) × Keyed m

abbrev pub Distinct : List ℕ → Type 0
Distinct [] = Unit
Distinct (k ∷ ks) = (elem k ks ≡ false) × Distinct ks

contains_key-update :
    (j k : ℕ) (f : Participant → Participant) (m : List (ℕ × Participant))
    → contains_key j (update k f m) ≡ contains_key j m
contains_key-update j k f [] = refl
contains_key-update j k f ((i, p) ∷ m) = ground (arith, contains_key-update j k f m)

contains_key-insert :
    (j k : ℕ) (p : Participant) (m : List (ℕ × Participant))
    → contains_key j (insert k p m) ≡ (if k == j then true else contains_key j m)
contains_key-insert j k p [] = refl
contains_key-insert j k p ((i, q) ∷ m) = ground (arith, contains_key-insert j k p m)

contains_key-remove :
    (j k : ℕ) (m : List (ℕ × Participant))
    → contains_key j (remove k m) ≡ (if k == j then false else contains_key j m)
contains_key-remove j k [] = ground arith
contains_key-remove j k ((i, q) ∷ m) = ground (arith, contains_key-remove j k m)

pub update-Keyed :
    (k : ℕ) (f : Participant → Participant) (m : List (ℕ × Participant))
    → ((p : Participant) → (f p).pubkey ≡ p.pubkey)
    → Keyed m
    → Keyed (update k f m)
update-Keyed k f [] same v = tt
update-Keyed k f ((i, p) ∷ m) same v =
    ground (arith, same p, update-Keyed k f m same v.2, contains_key-update i k f m)

pub insert-Keyed :
    (k : ℕ) (p : Participant) (m : List (ℕ × Participant))
    → p.pubkey ≡ k
    → Keyed m
    → Keyed (insert k p m)
insert-Keyed k p [] e v = (e, refl, tt)
insert-Keyed k p ((i, q) ∷ m) e v =
    ground (arith, insert-Keyed k p m e v.2, contains_key-insert i k p m)

pub remove-Keyed : (k : ℕ) (m : List (ℕ × Participant)) → Keyed m → Keyed (remove k m)
remove-Keyed k [] v = tt
remove-Keyed k ((i, q) ∷ m) v = ground (arith, remove-Keyed k m v.2, contains_key-remove i k m)

pub lookup-Keyed :
    (k : ℕ) (p : Participant) (m : List (ℕ × Participant))
    → Keyed m
    → p.pubkey ≡ k
    → (or_else (lookup k m) p).pubkey ≡ k
lookup-Keyed k p [] v e = e
lookup-Keyed k p ((i, q) ∷ m) v e = ground (arith, lookup-Keyed k p m v.2 e)

elem-listeners_of :
    (k : ℕ) (m : List (ℕ × Participant))
    → Keyed m
    → contains_key k m ≡ false
    → elem k (listeners_of (values m)) ≡ false
elem-listeners_of k [] v e = refl
elem-listeners_of k ((i, q) ∷ m) v e = ground (arith, elem-listeners_of k m v.2)

pub listeners_of-Distinct :
    (m : List (ℕ × Participant)) → Keyed m → Distinct (listeners_of (values m))
listeners_of-Distinct [] v = tt
listeners_of-Distinct ((i, q) ∷ m) v =
    ground (arith, listeners_of-Distinct m v.2, elem-listeners_of i m v.2 v.1)
