-- ===== src/Identity/Tests.antt =====
-- Toy keys, and the theorems at such inputs.
use proscenium.Common.{
  ℕ, ◌*◌, ◌≡◌, refl, subst, true, Option, none, some, List, [], ◌∷◌, arith, length, be_bytes,
  bytes_eq, bytes_eq_refl, length-be_bytes, some_inj,
}
use proscenium.Identity.{Keys, ok, verify_rotation, sign_rotation, sign_delegation}
use proscenium.Identity.Honest.{Laws, verify_rotation-sign_rotation}

-- A byte and a filler.
abbrev spread : List ℕ → List ℕ
spread [] = []
spread (b ∷ bs) = b ∷ 0 ∷ spread bs

abbrev gather : List ℕ → Option (List ℕ)
gather [] = some []
gather (b ∷ []) = none
gather (b ∷ filler ∷ r) = elim (gather r) [ none ↦ none | some bs ↦ some (b ∷ bs) ]

gather-spread : (b : List ℕ) → gather (spread b) ≡ some b
gather-spread [] = refl
gather-spread (b ∷ bs) = rw (gather-spread bs) refl

length-spread : (b : List ℕ) → length (spread b) ≡ 2 * length b
length-spread [] = refl
length-spread (b ∷ bs) = omega (arith, length-spread bs)

abbrev toy_keys : Keys
toy_keys = record {
  public_key = λ s. s;
  parse_key = λ k. some k;
  sign = λ s m. be_bytes 64 s;
  verify = λ k m sig. bytes_eq sig (be_bytes 64 k);
  hex_encode = spread;
  hex_decode = gather;
  to_json = λ fields. [];
  hkdf = λ salt key info len. key;
}

toy-Laws : Laws toy_keys
toy-Laws = record {
  verifies = λ s k m p.
      subst (λ j. bytes_eq (be_bytes 64 s) (be_bytes 64 j) ≡ true) (some_inj s k p)
        (bytes_eq_refl (be_bytes 64 s));
  sign_length = λ s m. length-be_bytes 64 s;
  hex = gather-spread;
  hex_length = λ b l. omega (arith, length-spread b, l);
}

verify_rotation-sign_rotation_example :
    verify_rotation toy_keys
      (sign_rotation toy_keys 5 6 7 2 90 (sign_delegation toy_keys 5 7 2 8 1 80))
    ≡ ok tt
verify_rotation-sign_rotation_example =
    verify_rotation-sign_rotation toy_keys toy-Laws 5 5 6 7 7 2 8 1 80 90 refl refl
