-- ===== src/Crypto/Ratchet/Skip.antt =====
-- What `skip_messages` does, in closed form: the keys it stores and the counters it leaves.
use proscenium.Common.{
  ℕ, zero, suc, ◌+◌, ◌-◌, ◌^◌, ◌≤◌, ◌<◌, ◌≡◌, refl, inl, inr, none, some, Option-cases, List, [],
  ◌∷◌, ◌++◌, arith, length, length-append, add_u32, append-nil, append_assoc,
}
use proscenium.Crypto.Ratchet.{
  Primitives, RatchetState, SkippedKey, ok, err, too_many_skipped, max_skip, remote_or_zero, kdf_ck,
  skip_loop, skip_messages,
}

module _ (c : Primitives) where
  -- The chain key behind `n` steps of the chain, and the message key of step `n`.
  abbrev pub chain_after : ℕ → ℕ → ℕ
  chain_after zero ck = ck
  chain_after (suc n) ck = chain_after n (kdf_ck c ck).0

  abbrev pub key_at : ℕ → ℕ → ℕ
  key_at base n = (kdf_ck c (chain_after n base)).1

  -- The `k` keys from number `n` on, of the chain that stands at `ck`.
  abbrev pub stash : ℕ → ℕ → ℕ → ℕ → List SkippedKey
  stash p zero ck n = []
  stash p (suc k) ck n =
      record { ratchet_public = p; message_number = n; message_key = (kdf_ck c ck).1 }
      ∷ stash p k (kdf_ck c ck).0 (n + 1)

  abbrev pub after_skip : ℕ → ℕ → RatchetState → RatchetState
  after_skip k ck s = record s {
    skipped_keys = s.skipped_keys ++ stash (remote_or_zero s.dh_remote_public) k ck s.recv_count;
    recv_count = s.recv_count + k;
    chain_key_recv = some (chain_after k ck);
  }

  -- One round of the loop.
  abbrev one_skip : ℕ → RatchetState → RatchetState
  one_skip ck s = record s {
    skipped_keys = s.skipped_keys ++ stash (remote_or_zero s.dh_remote_public) 1 ck s.recv_count;
    recv_count = add_u32 s.recv_count 1;
  }

  pub chain_after-suc : (n ck : ℕ) → chain_after (suc n) ck ≡ (kdf_ck c (chain_after n ck)).0
  chain_after-suc zero ck = refl
  chain_after-suc (suc n) ck = chain_after-suc n (kdf_ck c ck).0

  pub length-stash : (p k ck n : ℕ) → length (stash p k ck n) ≡ k
  length-stash p zero ck n = refl
  length-stash p (suc k) ck n = omega (arith, length-stash p k (kdf_ck c ck).0 (n + 1))

  pub skip_loop_lem :
      (k until ck : ℕ) (s : RatchetState)
      → s.recv_count + k ≡ until
      → until < 2 ^ 32
      → skip_loop c k until ck s ≡ after_skip k ck s
  unfolding skip_loop
  skip_loop_lem zero until ck s e h = ground (arith, append-nil s.skipped_keys)
  skip_loop_lem (suc k) until ck s e h = ground (
    arith,
    skip_loop_lem k until (kdf_ck c ck).0 (one_skip ck s),
    append_assoc s.skipped_keys (stash (remote_or_zero s.dh_remote_public) 1 ck s.recv_count)
        (stash (remote_or_zero s.dh_remote_public) k (kdf_ck c ck).0 (s.recv_count + 1)),
  )

  -- On a receiving chain, with the target at or above the counter by at most MAX_SKIP and no
  -- overflow, skip_messages succeeds and stores exactly the keys of the numbers from the counter
  -- to the target, each under its number, and moves chain key and counter to the target.
  pub skip_messages_lem :
      (until ck : ℕ) (s : RatchetState)
      → s.chain_key_recv ≡ some ck
      → s.recv_count ≤ until
      → until ≤ s.recv_count + max_skip
      → s.recv_count + max_skip < 2 ^ 32
      → skip_messages c until s ≡ (ok tt, after_skip (until - s.recv_count) ck s)
  unfolding skip_messages
  skip_messages_lem until ck s e lo hi w =
      ground (arith, skip_loop_lem (until - s.recv_count) until ck s)

  skip_loop_behind :
      (k until ck : ℕ) (s : RatchetState)
      → until ≤ s.recv_count
      → skip_loop c k until ck s ≡ record s { chain_key_recv = some ck }
  unfolding skip_loop
  skip_loop_behind zero until ck s h = refl
  skip_loop_behind (suc k) until ck s h = ground arith

  pub skip_messages_behind :
      (until ck : ℕ) (s : RatchetState)
      → s.chain_key_recv ≡ some ck
      → until ≤ s.recv_count
      → s.recv_count + max_skip < 2 ^ 32
      → skip_messages c until s ≡ (ok tt, s)
  unfolding skip_messages
  skip_messages_behind until ck s e h w =
      ground (arith, skip_loop_behind (until - s.recv_count) until ck s h)

  -- Before the first message there is no chain, and nothing is stored.
  pub skip_messages_unchained :
      (until : ℕ) (s : RatchetState)
      → s.chain_key_recv ≡ none
      → until ≤ s.recv_count + max_skip
      → s.recv_count + max_skip < 2 ^ 32
      → skip_messages c until s ≡ (ok tt, s)
  unfolding skip_messages
  skip_messages_unchained until s e h w = ground arith

  -- Past the limit nothing changes.
  pub skip_messages_refused :
      (until : ℕ) (s : RatchetState)
      → s.recv_count + max_skip < until
      → until < 2 ^ 32
      → skip_messages c until s ≡ (err too_many_skipped, s)
  unfolding skip_messages
  skip_messages_refused until s h w = ground arith

  -- No branch stores more than the limit, whatever the counters are.
  length-skip_loop :
      (k until ck : ℕ) (s : RatchetState)
      → length (skip_loop c k until ck s).skipped_keys ≤ length s.skipped_keys + k
  unfolding skip_loop
  length-skip_loop zero until ck s = omega arith
  length-skip_loop (suc k) until ck s = ground (
    arith,
    length-skip_loop k until (kdf_ck c ck).0 (one_skip ck s),
    length-append s.skipped_keys (stash (remote_or_zero s.dh_remote_public) 1 ck s.recv_count),
  )

  pub length-skip_messages :
      (until : ℕ) (s : RatchetState)
      → length (skip_messages c until s).1.skipped_keys ≤ length s.skipped_keys + max_skip
  unfolding skip_messages
  length-skip_messages until s = elim (Option-cases s.chain_key_recv) [
    | inl e ↦ ground arith
    | inr (ck, e) ↦ ground (arith, length-skip_loop (until - s.recv_count) until ck s)
  ]
