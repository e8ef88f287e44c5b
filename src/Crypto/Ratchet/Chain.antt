-- ===== src/Crypto/Ratchet/Chain.antt =====
-- One chain of the ratchet as the receiver holds it: which stored keys are right, and which
-- messages it still awaits.
use native.Mathlib.Numerals.{add-one}
use proscenium.Common.{
  ℕ, zero, suc, ◌+◌, ◌≤◌, ◌<◌, ◌≡◌, refl, ◌≢◌, ◌⊎◌, inl, inr, Bool, true, false, ◌&&◌, ◌||◌, none,
  some, List, [], ◌∷◌, ◌++◌, arith, ltb, leb, ◌==◌, All, Bool-cases,
}
use proscenium.Crypto.Ratchet.{
  Primitives, RatchetHeader, RatchetState, SkippedKey, matches, take_skipped, kdf_ck,
}
use proscenium.Crypto.Ratchet.Skip.{chain_after, key_at, stash, chain_after-suc}

-- The chain of the sender whose ratchet key is `p`, which began at the chain key `base`.
module _ (c : Primitives) (base p : ℕ) where
  -- A stored key of this chain is the right one, and its number is behind the counter `r`.
  abbrev pub IsCorrect : ℕ → SkippedKey → Type 0
  IsCorrect r k =
      (k.ratchet_public ≢ p)
      ⊎ ((k.message_key ≡ key_at c base k.message_number) × (k.message_number < r))

  -- The receiver has followed the chain up to its counter.
  pub record Follows (s : RatchetState) : Type 0 where
    pub remote : s.dh_remote_public ≡ some p
    pub chain : s.chain_key_recv ≡ some (chain_after c s.recv_count base)
    pub stored : All (IsCorrect s.recv_count) s.skipped_keys

  abbrev pub has : ℕ → List SkippedKey → Bool
  has n [] = false
  has n (k ∷ ks) = ((k.ratchet_public == p) && (k.message_number == n)) || has n ks

  -- Message `n` of the chain has not been received yet.
  abbrev pub awaits : ℕ → RatchetState → Bool
  awaits n s = leb s.recv_count n || has n s.skipped_keys

  abbrev pub header_of : ℕ → ℕ → RatchetHeader
  header_of n previous = record {
    dh_public = p;
    message_number = n;
    previous_chain_length = previous;
  }

  abbrev pub Takes : ℕ → ℕ → ℕ → List SkippedKey → Type 0
  Takes r n previous ks =
      (k : SkippedKey) × (rest : List SkippedKey) × (take_skipped (header_of n previous) ks
        ≡ some (k, rest))
      × (k.message_key ≡ key_at c base n)
      × (n < r)
      × All (IsCorrect r) rest
      × ((j : ℕ) → j ≢ n → has j rest ≡ has j ks)

  pub take_skipped-absent :
      (n previous : ℕ) (ks : List SkippedKey)
      → has n ks ≡ false
      → take_skipped (header_of n previous) ks ≡ none
  unfolding take_skipped
  take_skipped-absent n previous [] e = refl
  take_skipped-absent n previous (k ∷ ks) e = ground (arith, take_skipped-absent n previous ks)

  pub take_skipped-present :
      (r n previous : ℕ) (ks : List SkippedKey)
      → has n ks ≡ true
      → All (IsCorrect r) ks
      → Takes r n previous ks
  unfolding take_skipped
  take_skipped-present r n previous [] e h = ground arith
  take_skipped-present r n previous (k ∷ ks) e h =
      elim (Bool-cases (matches (header_of n previous) k)) [
        | inl hit ↦ (k, ks, ground arith, ground arith, ground arith, h.1, λ j ne. ground arith)
        | inr miss ↦
            let (found, rest, taken, key, behind, correct, others) =
              take_skipped-present r n previous ks (ground arith) h.1 in
            (
              found,
              k ∷ rest,
              ground arith,
              key,
              behind,
              (h.0, correct),
              λ j ne. ground (arith, others j),
            )
      ]

  pub IsCorrect-mono :
      {q r : ℕ} (ks : List SkippedKey) → q ≤ r → All (IsCorrect q) ks → All (IsCorrect r) ks
  IsCorrect-mono [] h a = tt
  IsCorrect-mono (k ∷ ks) h a = (ground arith, IsCorrect-mono ks h a.1)

  pub stash-IsCorrect :
      (k n r : ℕ) → n + k ≤ r → All (IsCorrect r) (stash c p k (chain_after c n base) n)
  stash-IsCorrect zero n r h = tt
  stash-IsCorrect (suc k) n r h = (
    inr (refl, omega arith),
    ground (arith, stash-IsCorrect k (n + 1) r, chain_after-suc c n base, add-one n),
  )

  pub has-append : (n : ℕ) (ks ls : List SkippedKey) → has n (ks ++ ls) ≡ has n ks || has n ls
  has-append n [] ls = refl
  has-append n (k ∷ ks) ls = ground (arith, has-append n ks ls)

  pub has-stash : (j k n ck : ℕ) → has j (stash c p k ck n) ≡ leb n j && ltb j (n + k)
  has-stash j zero n ck = ground arith
  has-stash j (suc k) n ck = ground (arith, has-stash j k (n + 1) (kdf_ck c ck).0)
