-- ===== src/Crypto/Ratchet/NewChain.antt =====
-- The first message that a receiver sees of a new chain.
use proscenium.Common.{
  ℕ, zero, suc, ◌+◌, ◌-◌, ◌^◌, ◌≤◌, ◌<◌, ◌≡◌, refl, ◌∙◌, ◌≢◌, inl, inr, true, false, Option, none,
  some, Option-cases, Bool-cases, leb, List, [], ◌∷◌, arith, All, All-append, ==_ne,
}
use proscenium.Crypto.Ratchet.{
  Primitives, RatchetState, SkippedKey, ok, max_skip, is_remote, remote_or_zero, kdf_rk, kdf_ck,
  skip_messages, dh_ratchet, decrypt, init_alice, init_bob, encrypt,
}
use proscenium.Crypto.Ratchet.Skip.{
  stash, after_skip, skip_messages_lem, skip_messages_behind, skip_messages_unchained,
}
use proscenium.Crypto.Ratchet.Steps.{decrypt_new, receive_new_chain}
use proscenium.Crypto.Ratchet.Chain.{
  Follows, IsCorrect, has, awaits, header_of, take_skipped-absent,
}
use proscenium.Crypto.Ratchet.Delivery.{Delivered, ciphertext_of, read_ahead, advance-Delivered}
use proscenium.Crypto.Ratchet.Turns.{Offers, Sends, dh_ratchet-Offers}

-- The key `p` is new to the receiver.
pub record IsNew (p : ℕ) (s : RatchetState) : Type 0 where
  pub not_remote : is_remote s.dh_remote_public p ≡ false
  pub not_zero : p ≢ 0
  pub not_stored : All (λ k. k.ratchet_public ≢ p) s.skipped_keys

-- At the start of a session every key is new to the responder.
pub init_bob-IsNew :
    (c : Primitives) (secret private public p : ℕ)
    → p ≢ 0
    → IsNew p (init_bob c secret (private, public))
      × ((init_bob c secret (private, public)).recv_count ≡ 0)
unfolding init_bob
init_bob-IsNew c secret private public p ne =
    (record { not_remote = refl; not_zero = ne; not_stored = tt }, refl)

-- Without a sending chain there is nothing to encrypt with, as in the responder's first state.
pub encrypt-unchained :
    (c : Primitives) (m : List ℕ) (s : RatchetState)
    → s.chain_key_send ≡ none
    → encrypt c m s ≡ none
unfolding encrypt
encrypt-unchained c m s e = simp (e, encrypt) refl

pub init_bob-unchained :
    (c : Primitives) (secret private public : ℕ)
    → (init_bob c secret (private, public)).chain_key_send ≡ none
unfolding init_bob
init_bob-unchained c secret private public = refl

pub init_alice-counts :
    (c : Primitives) (random secret peer : ℕ)
    → let a = init_alice c random secret peer in
      (a.send_count ≡ 0) × (a.prev_send_count ≡ 0) × (a.dh_self_public ≡ c.public_key random)
unfolding init_alice
init_alice-counts c random secret peer = (refl, refl, refl)

remote_or_zero-ne : (o : Option ℕ) (p : ℕ) → is_remote o p ≡ false → p ≢ 0 → remote_or_zero o ≢ p
remote_or_zero-ne none p r z = ground arith
remote_or_zero-ne (some k) p r z = ground arith

module _ (c : Primitives) where
  stash-ne : (q p k ck n : ℕ) → q ≢ p → All (λ k. k.ratchet_public ≢ p) (stash c q k ck n)
  stash-ne q p zero ck n ne = tt
  stash-ne q p (suc k) ck n ne = (ne, stash-ne q p k (kdf_ck c ck).0 (n + 1) ne)

  -- What the skip on the old chain leaves alone.
  record Left (p : ℕ) (s t : RatchetState) : Type 0 where
    private_key : t.dh_self_private ≡ s.dh_self_private
    public_key : t.dh_self_public ≡ s.dh_self_public
    root : t.root_key ≡ s.root_key
    sent : t.send_count ≡ s.send_count
    not_stored : All (λ k. k.ratchet_public ≢ p) t.skipped_keys

  leave_chain :
      (p previous : ℕ) (s : RatchetState)
      → IsNew p s
      → previous ≤ s.recv_count + max_skip
      → s.recv_count + max_skip < 2 ^ 32
      → (t : RatchetState) × (skip_messages c previous s ≡ (ok tt, t)) × Left p s t
  leave_chain p previous s v hi w = elim (Option-cases s.chain_key_recv) [
    | inl none_yet ↦ (s, skip_messages_unchained c previous s none_yet hi w, stay)
    | inr (ck, e) ↦ elim (Bool-cases (leb s.recv_count previous)) [
      | inl ahead ↦ (
        after_skip c (previous - s.recv_count) ck s,
        skip_messages_lem c previous ck s e (ground arith) hi w,
        record {
          private_key = refl;
          public_key = refl;
          root = refl;
          sent = refl;
          not_stored =
              All-append (λ k. k.ratchet_public ≢ p) s.skipped_keys _ v.not_stored
                (stash-ne (remote_or_zero s.dh_remote_public) p (previous - s.recv_count) ck
                  s.recv_count (remote_or_zero-ne s.dh_remote_public p v.not_remote v.not_zero));
        },
      )
      | inr behind ↦ (s, skip_messages_behind c previous ck s e (ground arith) w, stay)
    ]
  ]
    where
      stay : Left p s s
      stay = record {
        private_key = refl;
        public_key = refl;
        root = refl;
        sent = refl;
        not_stored = v.not_stored;
      }

  absent :
      (base p n : ℕ) (ks : List SkippedKey)
      → All (λ k. k.ratchet_public ≢ p) ks
      → has c base p n ks ≡ false
  absent base p n [] h = refl
  absent base p n (k ∷ ks) h = rw (==_ne k.ratchet_public p h.0) (absent base p n ks h.1)

  leave_chain-IsCorrect :
      (base p r : ℕ) (ks : List SkippedKey)
      → All (λ k. k.ratchet_public ≢ p) ks
      → All (IsCorrect c base p r) ks
  leave_chain-IsCorrect base p r [] h = tt
  leave_chain-IsCorrect base p r (k ∷ ks) h = (inl h.0, leave_chain-IsCorrect base p r ks h.1)

module _ (c : Primitives)
    (opens : (k : ℕ) (m : List ℕ) → c.aead_decrypt k (c.aead_encrypt k m) ≡ some m)
    (agrees : (a b : ℕ)
      → c.diffie_hellman a (c.public_key b) ≡ c.diffie_hellman b (c.public_key a)) where
  -- Behind the ratchet step the receiver follows the new chain from its beginning.
  begin_chain :
      (random base p : ℕ) {s t : RatchetState}
      → Left c p s t
      → (dh_ratchet c random p t).chain_key_recv ≡ some base
      → Follows c base p (dh_ratchet c random p t)
  unfolding dh_ratchet
  begin_chain random base p {s} {t} l e = record {
    remote = refl;
    chain = e;
    stored = leave_chain-IsCorrect c base p 0 t.skipped_keys l.not_stored;
  }

  at_zero : (random p : ℕ) (t : RatchetState) → (dh_ratchet c random p t).recv_count ≡ 0
  unfolding dh_ratchet
  at_zero random p t = refl

  sends_from_zero :
      (random p : ℕ) (t : RatchetState)
      → ((dh_ratchet c random p t).send_count ≡ 0)
        × ((dh_ratchet c random p t).prev_send_count ≡ t.send_count)
  unfolding dh_ratchet
  sends_from_zero random p t = (refl, refl)

  -- The call is a delivery to the receiver as it stands behind the ratchet step.
  deliver_first :
      (random n previous base p : ℕ) (m : List ℕ) (b t : RatchetState)
      → IsNew p b
      → skip_messages c previous b ≡ (ok tt, t)
      → Follows c base p (dh_ratchet c random p t)
      → n ≤ max_skip
      → Delivered c opens base p n m
          (dh_ratchet c random p t)
          (decrypt c random (header_of c base p n previous) (ciphertext_of c opens base p n m) b)
  deliver_first random n previous base p m b t v left f k =
      let zeroed = at_zero random p t in
      rw
        (
          decrypt_new c random (header_of c base p n previous) (ciphertext_of c opens base p n m) b
              (take_skipped-absent c base p n previous b.skipped_keys
                (absent c base p n b.skipped_keys v.not_stored)),
          receive_new_chain c random (header_of c base p n previous)
              (ciphertext_of c opens base p n m) b v.not_remote left,
          read_ahead c opens base p n m f (omega arith) (omega arith) (omega arith),
        )
        (advance-Delivered c opens base p n m f (omega arith))

  -- The peer offers a chain under a key that is not zero and that the receiver neither follows
  -- nor has stored keys of, and sends message n of it with n at most MAX_SKIP, a previous chain
  -- at most MAX_SKIP ahead and no counter overflow. Then the message decrypts, the receiver
  -- follows the chain up to n + 1 and still awaits the numbers below n, and it offers a chain of
  -- its own to the peer and stands at its start: the sending chain key is the first one of that
  -- chain, the send counter is 0, and the length of the previous chain is what was sent on it.
  -- Decryption is assumed to undo encryption, and Diffie-Hellman to commute.
  pub decrypt-first :
      (random n previous base : ℕ) (m : List ℕ) {a b : RatchetState}
      → Offers c agrees base a b
      → IsNew a.dh_self_public b
      → previous ≤ b.recv_count + max_skip
      → b.recv_count + max_skip < 2 ^ 32
      → n ≤ max_skip
      → let p = a.dh_self_public in
        let out =
          decrypt c random (header_of c base p n previous) (ciphertext_of c opens base p n m) b in
        let base' = (kdf_rk c a.root_key (c.diffie_hellman random p)).1 in
        (out.0 ≡ ok m)
        × Follows c base p out.1
        × (out.1.recv_count ≡ n + 1)
        × ((j : ℕ) → j < n → awaits c base p j out.1 ≡ true)
        × Offers c agrees base' out.1 a
        × Sends c agrees base' out.1
        × (out.1.send_count ≡ 0)
        × (out.1.prev_send_count ≡ b.send_count)
  decrypt-first random n previous base m {a} {b} o v hi w k =
      let p = a.dh_self_public in
      let (t, left, l) = leave_chain c p previous b v hi w in
      let b₀ = dh_ratchet c random p t in
      let o' : Offers c agrees base a t = record {
        own_key = o.own_key;
        peer_key = ground (arith, o.peer_key, l.public_key, l.private_key);
        agreed = ground (arith, o.agreed, l.root, l.public_key);
      } in
      let (chain, offers, sends) = dh_ratchet-Offers c agrees random base o' in
      let f : Follows c base p b₀ = begin_chain random base p l chain in
      let d = deliver_first random n previous base p m b t v left f k in
      let zeroed = at_zero random p t in
      let start = sends_from_zero random p t in
      (
        d.plaintext,
        d.follows,
        omega (arith, d.counter),
        λ j lt. d.others j (omega arith) ∙ ground (arith, zeroed),
        record {
          own_key = ground (arith, offers.own_key, d.sending.public_key, d.sending.private_key);
          peer_key = o.own_key;
          agreed = ground (arith, offers.agreed, d.sending.public_key, d.sending.root);
        },
        record { chain = ground (arith, sends.chain, d.sending.chain_send, d.sending.sent) },
        d.sending.sent ∙ start.0,
        d.sending.sent_before ∙ start.1 ∙ l.sent,
      )
