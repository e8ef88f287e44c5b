-- ===== src/Feed/Mentions/Found.antt =====
-- parse_mentions: what it returns, and that its loop ends.
use proscenium.Common.{
  ℕ, zero, suc, ◌≤◌, ◌≡◌, refl, ap, ap₂, leb→le, inl, inr, Bool, true, false, ◌||◌, List, [], ◌∷◌,
  ◌++◌, leb, ◌==◌, if◌then◌else◌, length, bytes_eq, arith, All, All-append, Bool-cases, if_keeps,
}
use proscenium.Feed.Mentions.{
  to_lowercase, contains, hex_run, add_mention, mentions_loop, parse_mentions,
}

-- No text is in the list twice.
abbrev pub Distinct : List (List ℕ) → Type 0
Distinct [] = Unit
Distinct (m ∷ ms) = (contains ms m ≡ false) × Distinct ms

bytes_eq_sym : (xs ys : List ℕ) → bytes_eq xs ys ≡ bytes_eq ys xs
bytes_eq_sym [] [] = refl
bytes_eq_sym [] (y ∷ ys) = refl
bytes_eq_sym (x ∷ xs) [] = refl
bytes_eq_sym (x ∷ xs) (y ∷ ys) = ground (arith, bytes_eq_sym xs ys)

contains-append :
    (ms : List (List ℕ)) (m x : List ℕ)
    → contains (ms ++ (m ∷ [])) x ≡ contains ms x || bytes_eq m x
contains-append [] m x = ground arith
contains-append (k ∷ ms) m x = ground (arith, contains-append ms m x)

Distinct-append :
    (ms : List (List ℕ)) (m : List ℕ)
    → Distinct ms
    → contains ms m ≡ false
    → Distinct (ms ++ (m ∷ []))
Distinct-append [] m d e = (refl, tt)
Distinct-append (k ∷ ms) m d e = (
  ground (arith, contains-append ms m k, bytes_eq_sym m k),
  Distinct-append ms m d.1 (ground (arith, e)),
)

length-to_lowercase : (bs : List ℕ) → length (to_lowercase bs) ≡ length bs
length-to_lowercase [] = refl
length-to_lowercase (b ∷ bs) = ap suc (length-to_lowercase bs)

module _ (is_public_key : List ℕ → Bool) where
  -- A key, of at least 52 characters.
  abbrev pub IsMention : List ℕ → Type 0
  IsMention m = (52 ≤ length m) × (is_public_key m ≡ true)

  abbrev pub IsFound : List (List ℕ) → Type 0
  IsFound ms = All IsMention ms × Distinct ms

  add_mention-IsFound :
      (run : List ℕ) (ms : List (List ℕ)) → IsFound ms → IsFound (add_mention is_public_key run ms)
  unfolding add_mention
  add_mention-IsFound run ms h =
      let m = to_lowercase run in
      elim (Bool-cases (leb 52 (length run))) [
        | inr short ↦ simp (short, add_mention) h
        | inl long ↦ elim (Bool-cases (is_public_key m)) [
          | inr other ↦ simp (long, other, add_mention) h
          | inl key ↦ elim (Bool-cases (contains ms m)) [
            | inl old ↦ simp (long, key, old, add_mention) h
            | inr new ↦
                simp (long, key, new, add_mention)
                  (
                    All-append IsMention ms (m ∷ []) h.0 (
                      (omega (arith, length-to_lowercase run, leb→le 52 (length run) long), key),
                      tt,
                    ),
                    Distinct-append ms m h.1 new,
                  )
          ]
        ]
      ]

  mentions_loop-IsFound :
      (fuel : ℕ) (bs : List ℕ) (ms : List (List ℕ))
      → IsFound ms
      → IsFound (mentions_loop is_public_key fuel bs ms)
  unfolding mentions_loop
  mentions_loop-IsFound zero bs ms h = h
  mentions_loop-IsFound (suc fuel) [] ms h = h
  mentions_loop-IsFound (suc fuel) (b ∷ bs) ms h =
      let run = hex_run bs in
      if_keeps IsFound (b == 64)
        (mentions_loop-IsFound fuel run.1 (add_mention is_public_key run.0 ms)
          (add_mention-IsFound run.0 ms h))
        (mentions_loop-IsFound fuel bs ms h)

  length-hex_run : (bs : List ℕ) → length (hex_run bs).1 ≤ length bs
  unfolding hex_run
  length-hex_run [] = omega arith
  length-hex_run (b ∷ bs) = ground (arith, length-hex_run bs)

  mentions_loop_fuel :
      (f g : ℕ) (bs : List ℕ) (ms : List (List ℕ))
      → length bs ≤ f
      → length bs ≤ g
      → mentions_loop is_public_key f bs ms ≡ mentions_loop is_public_key g bs ms
  unfolding mentions_loop
  mentions_loop_fuel zero zero bs ms h k = refl
  mentions_loop_fuel zero (suc g) [] ms h k = refl
  mentions_loop_fuel zero (suc g) (b ∷ bs) ms h k = absurd (omega (arith, h))
  mentions_loop_fuel (suc f) zero [] ms h k = refl
  mentions_loop_fuel (suc f) zero (b ∷ bs) ms h k = absurd (omega (arith, k))
  mentions_loop_fuel (suc f) (suc g) [] ms h k = refl
  mentions_loop_fuel (suc f) (suc g) (b ∷ bs) ms h k =
      let (run, rest) = hex_run bs in
      let shorter = length-hex_run bs in
      ap₂ (λ x y. if b == 64 then x else y)
        (mentions_loop_fuel f g rest (add_mention is_public_key run ms) (omega (arith, h, shorter))
          (omega (arith, k, shorter)))
        (mentions_loop_fuel f g bs ms (omega (arith, h)) (omega (arith, k)))

  -- Whatever the content of a post: every mention that parse_mentions returns has at least 52
  -- characters and is a public key, none is returned twice, and the loop ends: any fuel from the
  -- number of bytes on gives the same mentions.
  pub parse_mentions_lem :
      (content : List ℕ) (fuel : ℕ)
      → length content ≤ fuel
      → IsFound (parse_mentions is_public_key content)
        × (mentions_loop is_public_key fuel content [] ≡ parse_mentions is_public_key content)
  unfolding parse_mentions
  parse_mentions_lem content fuel h = (
    mentions_loop-IsFound (length content) content [] (tt, tt),
    mentions_loop_fuel fuel (length content) content [] h (omega arith),
  )
