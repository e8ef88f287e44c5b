-- ===== src/Sync/Paging.antt =====
-- The batches of sync/server.rs hold every selected row once, in order.
use proscenium.Common.{
  ℕ, zero, suc, ◌+◌, ◌≤◌, ◌<◌, ◌≡◌, refl, sym, ap, ◌∙◌, true, false, List, [], ◌∷◌, ◌++◌, arith,
  length, take, drop, Bool-cases, inl, inr, take-append-drop,
}
use proscenium.Sync.{
  Row, posts_frame, interactions_frame, page, is_nil, stream, stream_all, frames, collect,
  batch_size,
}

abbrev pub concat : List (List Row) → List Row
concat [] = []
concat (b ∷ bs) = b ++ concat bs

drop-nil : (n : ℕ) → drop {A = Row} n [] ≡ []
drop-nil zero = refl
drop-nil (suc n) = refl

suc-add : (m n : ℕ) → suc (m + n) ≡ suc m + n
suc-add m n = omega arith

drop-drop : (m n : ℕ) (rs : List Row) → drop n (drop m rs) ≡ drop (m + n) rs
drop-drop zero n rs = ground arith
drop-drop (suc m) n [] = ground (arith, drop-nil n, drop-nil (suc m + n))
drop-drop (suc m) n (r ∷ rs) = drop-drop m n rs ∙ ap (λ k. drop k (r ∷ rs)) (suc-add m n)

drop-length-take : (n : ℕ) (rs : List Row) → drop (length (take n rs)) rs ≡ drop n rs
drop-length-take zero rs = refl
drop-length-take (suc n) [] = refl
drop-length-take (suc n) (r ∷ rs) = drop-length-take n rs

drop_enough : (n : ℕ) (rs : List Row) → length rs ≤ n → drop n rs ≡ []
drop_enough zero [] h = refl
drop_enough zero (r ∷ rs) h = ground arith
drop_enough (suc n) [] h = refl
drop_enough (suc n) (r ∷ rs) h = drop_enough n rs (omega arith)

take-none : (n : ℕ) (rs : List Row) → 0 < n → take n rs ≡ [] → rs ≡ []
take-none zero rs h e = ground arith
take-none (suc n) [] h e = refl
take-none (suc n) (r ∷ rs) h e = cc

is_nil-true : (rs : List Row) → is_nil rs ≡ true → rs ≡ []
is_nil-true [] e = refl
is_nil-true (r ∷ rs) e = cc

is_nil-false : (rs : List Row) → is_nil rs ≡ false → 0 < length rs
is_nil-false [] e = absurd cc
is_nil-false (r ∷ rs) e = omega arith

pub concat-stream :
    (fuel limit offset : ℕ) (rows : List Row)
    → 0 < limit
    → length rows < offset + fuel
    → concat (stream fuel (λ o. page limit o rows) offset) ≡ drop offset rows
unfolding stream
concat-stream zero limit offset rows pos enough = sym (drop_enough offset rows (omega arith))
concat-stream (suc fuel) limit offset rows pos enough =
    let batch = page limit offset rows in
    elim (Bool-cases (is_nil batch)) [
      | inl nil ↦ rw nil (sym (take-none limit (drop offset rows) pos (is_nil-true batch nil)))
      | inr more ↦
          rw
            (
              more,
              concat-stream fuel limit (offset + length batch) rows pos
                  (omega (arith, is_nil-false batch more)),
              ← drop-drop offset (length batch) rows,
              drop-length-take limit (drop offset rows),
            )
            (take-append-drop limit (drop offset rows))
    ]

-- The batches that the server streams, fetched by limit and offset until one is empty, hold the
-- selected rows in order, each once, and the fuel of one more than their number is enough.
pub concat-stream_all : (rows : List Row) → concat (stream_all rows) ≡ rows
concat-stream_all rows =
    concat-stream (suc (length rows)) batch_size 0 rows (omega arith) (omega arith)

pub collect-frames :
    (ps is : List (List Row))
    → collect (frames posts_frame ps ++ frames interactions_frame is) ≡ (concat ps, concat is)
unfolding collect
collect-frames [] [] = refl
collect-frames [] (b ∷ is) = rw (collect-frames [] is) refl
collect-frames (b ∷ ps) is = rw (collect-frames ps is) refl
