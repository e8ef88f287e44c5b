-- ===== src/Crypto/Ratchet/Delivery.antt =====
-- Messages of one sending chain, delivered in any order: each decrypts to what was sent.
use proscenium.Common.{
  ℕ, zero, suc, ◌+◌, ◌-◌, ◌^◌, ◌≤◌, ◌<◌, max, ◌≡◌, refl, sym, ap₂, subst, ◌∙◌, ◌≢◌, inl, inr, true,
  some, [], ◌∷◌, map, All, List, arith, All-append, Bool-cases,
}
use proscenium.Crypto.Ratchet.{
  Primitives, RatchetState, Result, ok, max_skip, and_then, skip_messages, next_message, decrypt,
}
use proscenium.Crypto.Ratchet.Steps.{decrypt_stored, decrypt_new, receive_on_chain}
use proscenium.Crypto.Ratchet.Skip.{
  chain_after, key_at, stash, after_skip, chain_after-suc, skip_messages_lem,
}
use proscenium.Crypto.Ratchet.Chain.{
  Follows, IsCorrect, has, awaits, header_of, take_skipped-absent, take_skipped-present,
  IsCorrect-mono, stash-IsCorrect, has-append, has-stash,
}

-- A delivery of a message of the chain: number, previous chain length, plaintext.
abbrev pub Delivery : Type 0
Delivery = ℕ × ℕ × List ℕ

chain_after-chain_after :
    (c : Primitives) (j k base : ℕ)
    → chain_after c k (chain_after c j base) ≡ chain_after c (j + k) base
chain_after-chain_after c j zero base = ground arith
chain_after-chain_after c j (suc k) base =
    ground (arith, chain_after-chain_after c (suc j) k base, chain_after-suc c j base)

module _ (c : Primitives)
    (opens : (k : ℕ) (m : List ℕ) → c.aead_decrypt k (c.aead_encrypt k m) ≡ some m)
    (base p : ℕ) where
  -- What the sender makes of the plaintext `m` as message `n`.
  abbrev pub ciphertext_of : ℕ → List ℕ → List ℕ
  ciphertext_of n m = c.aead_encrypt (key_at c base n) m

  -- The half of the state that sends.
  pub record KeepsSending (s t : RatchetState) : Type 0 where
    pub private_key : t.dh_self_private ≡ s.dh_self_private
    pub public_key : t.dh_self_public ≡ s.dh_self_public
    pub root : t.root_key ≡ s.root_key
    pub chain_send : t.chain_key_send ≡ s.chain_key_send
    pub sent : t.send_count ≡ s.send_count
    pub sent_before : t.prev_send_count ≡ s.prev_send_count

  -- A delivery of message `n` gave `m`, and left every other message as it was.
  pub record Delivered (n : ℕ) (m : List ℕ) (s : RatchetState)
      (out : Result (List ℕ) × RatchetState) : Type 0 where
    pub plaintext : out.0 ≡ ok m
    pub follows : Follows c base p out.1
    pub counter : out.1.recv_count ≡ max s.recv_count (n + 1)
    pub others : (j : ℕ) → j ≢ n → awaits c base p j out.1 ≡ awaits c base p j s
    pub sending : KeepsSending s out.1

  after_skip-Follows :
      (k : ℕ) {s : RatchetState}
      → Follows c base p s
      → Follows c base p (after_skip c k (chain_after c s.recv_count base) s)
  after_skip-Follows k {s} f = record {
    remote = f.remote;
    chain = ground (arith, chain_after-chain_after c s.recv_count k base);
    stored =
        All-append (IsCorrect c base p (s.recv_count + k)) s.skipped_keys _
          (IsCorrect-mono c base p s.skipped_keys (omega arith) f.stored)
          (rw f.remote (stash-IsCorrect c base p k s.recv_count (s.recv_count + k) (omega arith)));
  }

  abbrev pub advance : RatchetState → RatchetState
  advance s = record s {
    chain_key_recv = some (chain_after c (suc s.recv_count) base);
    recv_count = suc s.recv_count;
  }

  next_message-advance :
      (n : ℕ) (m : List ℕ) {s : RatchetState}
      → Follows c base p s
      → s.recv_count ≡ n
      → n + 1 < 2 ^ 32
      → next_message c (ciphertext_of n m) s ≡ (ok m, advance s)
  unfolding next_message
  next_message-advance n m {s} f e w =
      ground (arith, f.chain, opens (key_at c base n) m, chain_after-suc c s.recv_count base)

  -- The counter reaches `n` by storing the keys between, and message `n` is then the next.
  pub read_ahead :
      (n : ℕ) (m : List ℕ) {s : RatchetState}
      → Follows c base p s
      → s.recv_count ≤ n
      → n ≤ s.recv_count + max_skip
      → s.recv_count + max_skip + 1 < 2 ^ 32
      → let ahead = after_skip c (n - s.recv_count) (chain_after c s.recv_count base) s in
        and_then (skip_messages c n s) (λ _. next_message c (ciphertext_of n m))
        ≡ (ok m, advance ahead)
  read_ahead n m {s} f lo hi w =
      rw (skip_messages_lem c n (chain_after c s.recv_count base) s f.chain lo hi (omega arith)) (
        next_message-advance n m (after_skip-Follows (n - s.recv_count) f) (omega arith)
          (omega arith))

  pub advance-Delivered :
      (n : ℕ) (m : List ℕ) {s : RatchetState}
      → Follows c base p s
      → s.recv_count ≤ n
      → let ahead = after_skip c (n - s.recv_count) (chain_after c s.recv_count base) s in
        Delivered n m s (ok m, advance ahead)
  advance-Delivered n m {s} f lo = record {
    plaintext = refl;
    follows =
        let ahead = after_skip-Follows (n - s.recv_count) f in
        record {
          remote = ahead.remote;
          chain = refl;
          stored = IsCorrect-mono c base p _ (omega arith) ahead.stored;
        };
    counter = omega arith;
    others = λ j ne. ground (
      arith,
      f.remote,
      has-append c base p j s.skipped_keys
          (stash c p (n - s.recv_count) (chain_after c s.recv_count base) s.recv_count),
      has-stash c base p j (n - s.recv_count) s.recv_count (chain_after c s.recv_count base),
    );
    sending = ground arith;
  }

  -- A message that is still awaited, and not too far ahead, decrypts to its plaintext.
  pub decrypt-Delivered :
      (random n previous : ℕ) (m : List ℕ) {s : RatchetState}
      → Follows c base p s
      → awaits c base p n s ≡ true
      → n ≤ s.recv_count + max_skip
      → s.recv_count + max_skip + 1 < 2 ^ 32
      → Delivered n m s (decrypt c random (header_of c base p n previous) (ciphertext_of n m) s)
  decrypt-Delivered random n previous m {s} f a hi w =
      elim (Bool-cases (has c base p n s.skipped_keys)) [
        | inl kept ↦
            let (k, rest, taken, key, behind, correct, others) =
              take_skipped-present c base p s.recv_count n previous s.skipped_keys kept f.stored in
            rw
              (decrypt_stored c random (header_of c base p n previous) (ciphertext_of n m) s {m = m}
                taken (rw key (opens (key_at c base n) m)))
              (record {
                plaintext = refl;
                follows = record { remote = f.remote; chain = f.chain; stored = correct };
                counter = omega arith;
                others = λ j ne. ground (arith, others j ne);
                sending = ground arith;
              })
        | inr fresh ↦
            rw
              (
                decrypt_new c random _ _ s
                    (take_skipped-absent c base p n previous s.skipped_keys fresh),
                receive_on_chain c random (header_of c base p n previous) _ s f.remote,
                read_ahead n m f (ground arith) hi w,
              )
              (advance-Delivered n m f (ground arith))
      ]

  unfoldable pub deliver_all :
      ℕ → List Delivery → RatchetState → List (Result (List ℕ)) × RatchetState
  deliver_all random [] s = ([], s)
  deliver_all random ((n, previous, m) ∷ ds) s =
      let (r, s₁) = decrypt c random (header_of c base p n previous) (ciphertext_of n m) s in
      let (rs, s₂) = deliver_all random ds s₁ in (r ∷ rs, s₂)

  -- No number comes twice, none is already received, and none is more than `max_skip` ahead of
  -- those before it. `r` is the receiver's counter and `s` its state.
  abbrev pub IsSchedule : ℕ → List Delivery → Type 0
  IsSchedule r [] = Unit
  IsSchedule r ((n, _, _) ∷ ds) =
      (n ≤ r + max_skip)
      × (r + max_skip + 1 < 2 ^ 32)
      × All (λ d. d.0 ≢ n) ds
      × IsSchedule (max r (n + 1)) ds

  abbrev pub AllAwaited : RatchetState → List Delivery → Type 0
  AllAwaited s = All (λ d. awaits c base p d.0 s ≡ true)

  AllAwaited-Delivered :
      (n : ℕ) (m : List ℕ) (s : RatchetState) (out : Result (List ℕ) × RatchetState)
      (ds : List Delivery)
      → Delivered n m s out
      → All (λ d. d.0 ≢ n) ds
      → AllAwaited s ds
      → AllAwaited out.1 ds
  AllAwaited-Delivered n m s out [] v ne a = tt
  AllAwaited-Delivered n m s out ((j, _, _) ∷ ds) v ne a =
      (v.others j ne.0 ∙ a.0, AllAwaited-Delivered n m s out ds v ne.1 a.1)

  -- Let a receiver follow the chain of a peer, and let messages of that chain arrive in any order
  -- in which no number comes twice, each is still awaited and at most MAX_SKIP ahead of the
  -- counter, and the counter stays within 32 bits. Then each of them decrypts to its plaintext,
  -- and the receiver still follows the chain. Decryption is assumed to undo encryption under the
  -- same key.
  pub deliver_all_lem :
      (random : ℕ) (ds : List Delivery) (s : RatchetState)
      → Follows c base p s
      → IsSchedule s.recv_count ds
      → AllAwaited s ds
      → ((deliver_all random ds s).0 ≡ map (λ d. ok d.2) ds)
        × Follows c base p (deliver_all random ds s).1
  unfolding deliver_all
  deliver_all_lem random [] s f w a = (refl, f)
  deliver_all_lem random ((n, previous, m) ∷ ds) s f w a =
      let out = decrypt c random (header_of c base p n previous) (ciphertext_of n m) s in
      let v : Delivered n m s out = decrypt-Delivered random n previous m f a.0 w.0 w.1 in
      let later =
        deliver_all_lem random ds out.1 v.follows (subst (λ r. IsSchedule r ds) (sym v.counter) w.3)
          (AllAwaited-Delivered n m s out ds v w.2 a.1) in
      (ap₂ ◌∷◌ v.plaintext later.0, later.1)
