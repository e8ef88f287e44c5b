-- ===== src/Dm/Delivery/Mailbox.antt =====
-- What a conversation promises: the receiver's messages are those that were sent, as in a mailbox.
use proscenium.Common.{
  insert_or_ignore, ℕ, ◌+◌, ◌^◌, ◌<◌, ◌≡◌, refl, ◌∙◌, sym, subst, ap, length, some, List, [], ◌∷◌,
  arith, All, bound_of,
}
use proscenium.Crypto.Ratchet.{Primitives, RatchetState, decrypt, max_skip}
use proscenium.Crypto.Ratchet.Chain.{Follows, header_of}
use proscenium.Crypto.Ratchet.Delivery.{decrypt-Delivered, ciphertext_of}
use proscenium.Crypto.Ratchet.Turns.{Sends, encrypt-Sends}
use proscenium.Crypto.Noise.{Snow}
use proscenium.Dm.{
  pair, Store, Env, Crates, Identity, DirectMessage, EncryptedEnvelope, StoredMessage, Result, ok,
  err, message,
}
use proscenium.Dm.Storage.{find_dm_pubkey}
use proscenium.Dm.Sealing.RoundTrip.{Laws, wire_to_ratchet_header-ratchet_header_to_wire}
use proscenium.Dm.Establish.{encrypt_and_save}
use proscenium.Dm.Incoming.{preview_of, to_stored, handle_encrypted_message}
use proscenium.Dm.Delivery.{Works, Holds}
use proscenium.Dm.Delivery.Steps.{
  Knows, plain, envelope_of, encrypt_and_save-Holds, handle_encrypted_message-Holds,
}

-- A message on its way: what the sender and the receiver meet while they handle it.
abbrev pub Passage : Type 0
Passage = Env × Env × DirectMessage

module _ (prim : Primitives) (snow : Snow) (c : Crates) (alice bob : Identity) where
  abbrev hand_over : Env → Result EncryptedEnvelope → Store → Store
  hand_over w (ok env) s = (handle_encrypted_message prim c bob w env.sender env s).1
  hand_over w (err e) s = s

  -- Each message is encrypted, and what comes of it is handled at the other node, in order.
  unfoldable pub converse : List Passage → Store × Store → Store × Store
  converse [] (a, b) = (a, b)
  converse ((wa, wb, msg) ∷ ps) (a, b) =
      let (r, a') = encrypt_and_save prim snow c alice wa bob.master_pubkey (message msg) a in
      converse ps (a', hand_over wb r b)

-- Nothing fails on the way, and the preview does not cut a character.
abbrev pub IsSmooth : Passage → Type 0
IsSmooth (wa, wb, msg) = Works wa × Works wb × ((p : List ℕ) × (preview_of msg.content ≡ some p))

module _ (c : Crates) (alice bob : Identity) where
  -- The mailbox: a message goes in under its id, unless there is one.
  abbrev pub mailbox : List Passage → List (ℕ × StoredMessage) → List (ℕ × StoredMessage)
  mailbox [] m = m
  mailbox ((_, _, msg) ∷ ps) m =
      mailbox ps (insert_or_ignore msg.id (to_stored c bob alice.master_pubkey msg) m)

module _ (prim : Primitives) (snow : Snow) (c : Crates)
    (opens : (k : ℕ) (m : List ℕ) → prim.aead_decrypt k (prim.aead_encrypt k m) ≡ some m)
    (agrees : (a b : ℕ)
      → prim.diffie_hellman a (prim.public_key b) ≡ prim.diffie_hellman b (prim.public_key a))
    (alice bob : Identity) where
  -- Both nodes hold the session: alice stands on her chain, and bob has followed it so far.
  pub record Linked (base : ℕ) (n : ℕ) (a b : Store) : Type 0 where
    pub sender : RatchetState
    pub receiver : RatchetState
    pub holds_sender : Holds c alice bob.dm_pubkey sender a
    pub holds_receiver : Holds c bob alice.dm_pubkey receiver b
    pub sends : Sends prim agrees base sender
    pub follows : Follows prim base sender.dh_self_public receiver
    pub sent : sender.send_count ≡ n
    pub received : receiver.recv_count ≡ n
    pub key_bound : sender.dh_self_public < bound_of 32
    pub knows : Knows bob.master_pubkey bob.dm_pubkey a
    pub known : find_dm_pubkey alice.dm_pubkey b.peer_delegations ≡ some alice.master_pubkey

  pass :
      (laws : Laws c) (base n : ℕ) (wa wb : Env) (msg : DirectMessage) {a b : Store}
      → Linked base n a b
      → IsSmooth (wa, wb, msg)
      → n + max_skip + 1 < 2 ^ 32
      → (env : EncryptedEnvelope) × (a' : Store) × (b' : Store) × (encrypt_and_save prim snow c
            alice wa bob.master_pubkey
            (message msg)
            a
          ≡ (ok env, a'))
        × (handle_encrypted_message prim c bob wb env.sender env b ≡ (ok tt, b'))
        × (b'.messages
            ≡ insert_or_ignore msg.id (to_stored c bob alice.master_pubkey msg) b.messages)
        × Linked base (n + 1) a' b'
  pass laws base n wa wb msg {a} {b} l (works_a, works_b, (preview, shown)) w =
      let text = plain prim c laws bob wb works_b msg in
      let p = l.sender.dh_self_public in
      let (ra, encrypted, sends, count, key, previous, skipped, recv) =
        encrypt-Sends prim agrees base text l.sends (omega (arith, l.sent)) in
      let h = header_of prim base p l.sender.send_count l.sender.prev_send_count in
      let ct = ciphertext_of prim opens base p l.sender.send_count text in
      let (a', saved, holds_a, same_a) =
        encrypt_and_save-Holds prim snow c laws alice wa works_a bob.master_pubkey bob.dm_pubkey
          (message msg) h ct l.sender ra a l.knows l.holds_sender encrypted in
      let env = envelope_of prim snow c laws alice wa works_a h ct in
      let v =
        decrypt-Delivered prim opens base p wb.ratchet_random l.sender.send_count
          l.sender.prev_send_count text l.follows (ground (arith, l.sent, l.received))
          (omega (arith, l.sent, l.received)) (omega (arith, l.sent, l.received)) in
      let out = decrypt prim wb.ratchet_random h ct l.receiver in
      let (b', handled, holds_b, stored, same_b) =
        handle_encrypted_message-Holds prim c laws bob wb works_b alice.dm_pubkey
          alice.master_pubkey env h msg preview l.holds_receiver l.known
          (wire_to_ratchet_header-ratchet_header_to_wire c laws h l.key_bound)
          (pair v.plaintext refl) shown in
      (
        env,
        a',
        b',
        saved,
        handled,
        stored,
        record {
          sender = ra;
          receiver = out.1;
          holds_sender = holds_a;
          holds_receiver = holds_b;
          sends = sends;
          follows = subst (λ q. Follows prim base q out.1) (sym key) v.follows;
          sent = count ∙ ap (λ k. k + 1) l.sent;
          received = omega (arith, v.counter, l.sent, l.received);
          key_bound = rw key l.key_bound;
          knows = record {
            identity = l.knows.identity;
            cached = rw same_a l.knows.cached;
            key = l.knows.key;
            present = l.knows.present;
          };
          known = rw same_b l.known;
        },
      )

  converse-pass :
      (wa wb : Env) (msg : DirectMessage) (env : EncryptedEnvelope) (ps : List Passage)
      (a b a' b' : Store)
      → encrypt_and_save prim snow c alice wa bob.master_pubkey (message msg) a ≡ (ok env, a')
      → handle_encrypted_message prim c bob wb env.sender env b ≡ (ok tt, b')
      → converse prim snow c alice bob ((wa, wb, msg) ∷ ps) (a, b)
        ≡ converse prim snow c alice bob ps (a', b')
  unfolding converse
  converse-pass wa wb msg env ps a b a' b' saved handled =
      simp (saved, handled, converse, hand_over) refl

  -- Suppose two nodes hold a session, in which one stands at message n of its chain and the other
  -- has followed the chain up to n. Let the one send a list of messages in turn, each of which
  -- the other handles before the next, while no statement on a database fails, no preview cuts a
  -- character, and the counter stays within 32 bits. Then the messages that the other node stores
  -- are those it had and each of these, in order, as in a mailbox, and the nodes are linked again
  -- at message n + length. The crates are assumed to decode what they encode, and decryption to
  -- undo encryption.
  pub converse_lem :
      (laws : Laws c) (base n : ℕ) (ps : List Passage) (a b : Store)
      → Linked base n a b
      → All IsSmooth ps
      → n + length ps + max_skip < 2 ^ 32
      → let out = converse prim snow c alice bob ps (a, b) in
        (out.1.messages ≡ mailbox c alice bob ps b.messages)
        × Linked base (n + length ps) out.0 out.1
  unfolding converse
  converse_lem laws base n [] a b l s w = (refl, subst (λ k. Linked base k a b) (omega arith) l)
  converse_lem laws base n ((wa, wb, msg) ∷ ps) a b l s w =
      let (env, a', b', saved, handled, stored, l') =
        pass laws base n wa wb msg l s.0 (omega arith) in
      let (later, linked) = converse_lem laws base (n + 1) ps a' b' l' s.1 (omega arith) in
      let out = converse prim snow c alice bob ps (a', b') in
      rw (converse-pass wa wb msg env ps a b a' b' saved handled) (
        later ∙ ap (mailbox c alice bob ps) stored,
        subst (λ k. Linked base k out.0 out.1) (omega arith) linked,
      )
