-- ===== src/Feed/Mentions.antt =====
-- parse_mentions of crates/proscenium-types/src/validation.rs. Text is its bytes.
pub mod Found
use proscenium.Common.{
  ℕ, zero, suc, ◌+◌, ◌-◌, ◌≤◌, ◌<◌, ◌≡◌, refl, ap, ◌∙◌, inl, inr, Bool, true, false, not, ◌&&◌,
  ◌||◌, Option, List, [], ◌∷◌, ◌++◌, ltb, leb, ◌==◌, if◌then◌else◌, length, bytes_eq, arith, All,
  Bool-cases, bytes_eq→eq,
}

abbrev pub is_hex_digit : ℕ → Bool
is_hex_digit b = (leb 48 b && leb b 57) || (leb 65 b && leb b 70) || (leb 97 b && leb b 102)

-- `to_lowercase`, of hex digits.
abbrev lower : ℕ → ℕ
lower b = if leb 65 b && leb b 90 then b + 32 else b

abbrev pub to_lowercase : List ℕ → List ℕ
to_lowercase [] = []
to_lowercase (b ∷ bs) = lower b ∷ to_lowercase bs

abbrev pub contains : List (List ℕ) → List ℕ → Bool
contains [] m = false
contains (x ∷ xs) m = bytes_eq x m || contains xs m

-- The inner loop: the hex digits from here on, and what follows them.
unfoldable pub hex_run : List ℕ → List ℕ × List ℕ
hex_run [] = ([], [])
hex_run (b ∷ bs) =
    let (run, rest) = hex_run bs in if is_hex_digit b then (b ∷ run, rest) else ([], b ∷ bs)

module _ (is_public_key : List ℕ → Bool) where
  -- The body of the test on a candidate.
  unfoldable pub add_mention : List ℕ → List (List ℕ) → List (List ℕ)
  add_mention run mentions =
      if leb 52 (length run)
        && is_public_key (to_lowercase run)
        && not (contains mentions (to_lowercase run))
      then mentions ++ (to_lowercase run ∷ [])
      else mentions

  -- The outer loop, on fuel: 64 is '@'.
  unfoldable pub mentions_loop : ℕ → List ℕ → List (List ℕ) → List (List ℕ)
  mentions_loop zero bytes mentions = mentions
  mentions_loop (suc fuel) [] mentions = mentions
  mentions_loop (suc fuel) (b ∷ bs) mentions =
      let (run, rest) = hex_run bs in
      let behind = mentions_loop fuel rest (add_mention run mentions) in
      let next = mentions_loop fuel bs mentions in if b == 64 then behind else next

  unfoldable pub parse_mentions : List ℕ → List (List ℕ)
  parse_mentions content = mentions_loop (length content) content []
