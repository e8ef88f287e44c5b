-- ===== src/Dm/FirstContact.antt =====
-- dm/handshake.rs at both ends: the handshake and the first message behind it.
use proscenium.Common.{
  insert_or_ignore, ℕ, ◌<◌, ◌≡◌, refl, sym, ap, ◌∙◌, subst, ◌≢◌, none, some, List, arith, lookup,
  insert, bound_of, be_bytes, ==_refl,
}
use proscenium.Crypto.Ratchet.{Primitives, RatchetState, kdf_rk, decrypt, init_alice, init_bob}
use proscenium.Crypto.Ratchet.Chain.{Follows, header_of}
use proscenium.Crypto.Ratchet.Delivery.{ciphertext_of}
use proscenium.Crypto.Ratchet.NewChain.{
  decrypt-first, init_bob-IsNew, init_alice-counts, encrypt-unchained, init_bob-unchained,
}
use proscenium.Crypto.Ratchet.Turns.{Offers, Sends, init-Offers, encrypt-Sends}
use proscenium.Crypto.Noise.{Snow}
use proscenium.Crypto.Noise.Agreement.{
  Honest, initiates, responds, secret, completes_initiator, completes_responder,
}
use proscenium.Dm.{
  pair, Store, Env, Crates, Identity, DirectMessage, DmPayload, EncryptedEnvelope, panicked, ok,
  err, message, init, response, get_ratchet_session as q_get_session,
  save_ratchet_session as q_save_session, get_peer_transport_node_ids as q_node_ids,
}
use proscenium.Dm.Storage.{
  get_ratchet_session, save_ratchet_session, get_peer_transport_node_ids, find_dm_pubkey,
}
use proscenium.Dm.Sealing.{dm_pubkey_to_x25519}
use proscenium.Dm.Sealing.RoundTrip.{
  Laws, seals, dm_pubkey_to_x25519-hex, wire_to_ratchet_header-ratchet_header_to_wire,
}
use proscenium.Dm.Establish.{
  establish, get_or_establish_session, encrypt_and_save, handle_handshake, first,
}
use proscenium.Dm.Incoming.{to_stored, handle_encrypted_message}
use proscenium.Dm.Delivery.{Works, Holds}
use proscenium.Dm.Delivery.Steps.{
  Knows, plain, envelope_of, insert-Holds, cached_key, encrypt_and_save-from,
  encrypt_and_save-unchained, handle_encrypted_message-Holds,
}
use proscenium.Dm.Delivery.Mailbox.{Linked, IsSmooth}

-- The keys of a node belong together.
pub record IsIdentity (prim : Primitives) (c : Crates) (me : Identity) : Type 0 where
  pub own_key : me.dm_x25519_public ≡ prim.public_key me.dm_x25519_private
  pub in_hex : me.dm_pubkey ≡ c.hex_encode (be_bytes 32 me.dm_x25519_public)
  pub bounded : me.dm_x25519_public < bound_of 32

own_x25519 :
    (prim : Primitives) (c : Crates) (laws : Laws c) (me : Identity)
    → IsIdentity prim c me
    → dm_pubkey_to_x25519 c me.dm_pubkey ≡ ok me.dm_x25519_public
own_x25519 prim c laws me i =
    ap (dm_pubkey_to_x25519 c) i.in_hex
    ∙ dm_pubkey_to_x25519-hex c laws me.dm_x25519_public i.bounded

module _ (prim : Primitives) (snow : Snow) (c : Crates) (laws : Laws c) (alice bob : Identity)
    (ia : IsIdentity prim c alice) (ib : IsIdentity prim c bob)
    (honest : Honest snow alice.dm_x25519_private alice.dm_x25519_public bob.dm_x25519_private
      bob.dm_x25519_public) where
  abbrev pub shared : ℕ
  shared = secret snow honest

  abbrev pub bob_start : RatchetState
  bob_start = init_bob prim shared (bob.dm_x25519_private, bob.dm_x25519_public)

  pub bob_answers :
      (w : Env) (b : Store)
      → Works w
      → (b' : Store) × (handle_handshake prim snow c bob w alice.dm_pubkey honest.first b
          ≡ (ok (response honest.second), b'))
        × Holds c bob alice.dm_pubkey bob_start b'
        × (b'.messages ≡ b.messages)
        × (b'.peer_delegations ≡ b.peer_delegations)
  unfolding handle_handshake save_ratchet_session
  bob_answers w b works =
      let (sealed, done, opens) =
        seals c laws bob.ratchet_storage_key w.session_nonce bob_start works.session_nonce in
      let b' : Store = record b {
        sessions =
            insert alice.dm_pubkey (record { state_json = sealed; updated_at = w.now }) b.sessions;
      } in
      (
        b',
        simp
            (
              responds snow honest,
              completes_responder snow honest ia.bounded,
              own_x25519 prim c laws alice ia,
              ==_refl alice.dm_x25519_public,
              done,
              works.queries q_save_session,
              handle_handshake,
              save_ratchet_session,
            )
            refl,
        insert-Holds c bob alice.dm_pubkey sealed w.now bob_start b b' opens refl,
        refl,
        refl,
      )

  -- Suppose Bob's node has accepted an honest handshake of Alice's, and knows her DM key. Until a
  -- message of hers arrives, whatever Bob sends her panics: the handshake leaves him a session
  -- without a sending chain. The database does not fail, and the crates decode what they encode.
  pub responder_panics :
      (wh w : Env) (payload : DmPayload) (b : Store)
      → Works wh
      → Works w
      → Knows alice.master_pubkey alice.dm_pubkey b
      → let b' = (handle_handshake prim snow c bob wh alice.dm_pubkey honest.first b).1 in
        encrypt_and_save prim snow c bob w alice.master_pubkey payload b' ≡ (err panicked, b')
  responder_panics wh w payload b works_h works k =
      let (b', handshaken, holds, _, same) = bob_answers wh b works_h in
      let k' : Knows alice.master_pubkey alice.dm_pubkey b' = record {
        identity = k.identity;
        cached = rw same k.cached;
        key = k.key;
        present = k.present;
      } in
      rw handshaken (
        encrypt_and_save-unchained prim snow c laws bob w works alice.master_pubkey alice.dm_pubkey
          payload bob_start b' k' holds
          (encrypt-unchained prim (c.payload_to_json payload) bob_start
            (init_bob-unchained prim shared bob.dm_x25519_private bob.dm_x25519_public)))

  -- Alice has no session with Bob, and Bob's node gives the honest answer.
  pub record Reaches (w : Env) (a : Store) : Type 0 where
    pub knows : Knows bob.master_pubkey bob.dm_pubkey a
    pub no_session : lookup bob.dm_pubkey a.sessions ≡ none
    pub node : ℕ
    pub endpoint : ℕ
    pub listed : first knows.identity.transport_node_ids ≡ some node
    pub parsed : c.parse_node_id node ≡ some endpoint
    pub answered :
        w.ask endpoint (init honest.first alice.dm_pubkey) ≡ some (response honest.second)

  abbrev pub alice_start : Env → RatchetState
  alice_start w = init_alice prim w.ratchet_random shared bob.dm_x25519_public

  alice_establishes :
      (w : Env) (a : Store)
      → Works w
      → Reaches w a
      → (a' : Store) × (get_or_establish_session prim snow c alice w bob.master_pubkey a
          ≡ (ok (alice_start w, bob.dm_pubkey), a'))
        × (a'.peer_delegations ≡ a.peer_delegations)
  unfolding get_or_establish_session establish get_ratchet_session get_peer_transport_node_ids
      save_ratchet_session
  alice_establishes w a works r =
      let (sealed, done, opens) =
        seals c laws alice.ratchet_storage_key w.session_nonce (alice_start w)
          works.session_nonce in
      let a' : Store = record a {
        sessions =
            insert bob.dm_pubkey (record { state_json = sealed; updated_at = w.now }) a.sessions;
      } in
      (
        a',
        simp
            (
              cached_key prim snow c laws alice w works bob.master_pubkey bob.dm_pubkey a r.knows,
              works.queries q_get_session,
              r.no_session,
              works.queries q_node_ids,
              r.knows.cached,
              r.listed,
              r.parsed,
              own_x25519 prim c laws bob ib,
              initiates snow honest,
              r.answered,
              completes_initiator snow honest,
              done,
              works.queries q_save_session,
              get_or_establish_session,
              establish,
              get_ratchet_session,
              get_peer_transport_node_ids,
              save_ratchet_session,
            )
            refl,
        refl,
      )

  agreed_start :
      (agrees : (a b : ℕ)
        → prim.diffie_hellman a (prim.public_key b) ≡ prim.diffie_hellman b (prim.public_key a))
      (w : Env)
      → let base =
          (kdf_rk prim shared (prim.diffie_hellman w.ratchet_random bob.dm_x25519_public)).1 in
        Offers prim agrees base (alice_start w) bob_start × Sends prim agrees base (alice_start w)
  agreed_start agrees w =
      rw ib.own_key (init-Offers prim agrees w.ratchet_random shared bob.dm_x25519_private)

  -- Suppose Alice has no session with Bob, and her handshake with Bob's node is an honest run of
  -- Noise IK. Then Bob's node accepts the handshake, Alice's node makes an envelope of her first
  -- message, and Bob's node opens it: what Bob stores is what he had and that message, and the
  -- two nodes are linked behind the first message of Alice's chain. No statement on a database
  -- fails, the preview cuts no character, keys are 32 bytes, and Alice's ratchet key is not zero.
  -- The crates are assumed to decode what they encode, decryption to undo encryption, and
  -- Diffie-Hellman to commute.
  pub first_message_lem :
      (opens : (k : ℕ) (m : List ℕ) → prim.aead_decrypt k (prim.aead_encrypt k m) ≡ some m)
      (agrees : (a b : ℕ)
        → prim.diffie_hellman a (prim.public_key b) ≡ prim.diffie_hellman b (prim.public_key a))
      (wa wh wb : Env) (msg : DirectMessage) (a b : Store)
      → Reaches wa a
      → find_dm_pubkey alice.dm_pubkey b.peer_delegations ≡ some alice.master_pubkey
      → Works wh
      → IsSmooth (wa, wb, msg)
      → prim.public_key wa.ratchet_random < bound_of 32
      → prim.public_key wa.ratchet_random ≢ 0
      → let base =
          (kdf_rk prim shared (prim.diffie_hellman wa.ratchet_random bob.dm_x25519_public)).1 in
        (env : EncryptedEnvelope) × (a' : Store) × (b₁ : Store) × (b₂ : Store) × (handle_handshake
            prim snow c bob wh alice.dm_pubkey honest.first b
          ≡ (ok (response honest.second), b₁))
        × (encrypt_and_save prim snow c alice wa bob.master_pubkey (message msg) a ≡ (ok env, a'))
        × (handle_encrypted_message prim c bob wb env.sender env b₁ ≡ (ok tt, b₂))
        × (b₂.messages
            ≡ insert_or_ignore msg.id (to_stored c bob alice.master_pubkey msg) b.messages)
        × Linked prim snow c opens agrees alice bob base 1 a' b₂
  first_message_lem opens agrees wa wh wb msg a b r known works_h
        (works_a, works_b, (preview, shown)) bounded nonzero =
      let base =
        (kdf_rk prim shared (prim.diffie_hellman wa.ratchet_random bob.dm_x25519_public)).1 in
      let text = plain prim c laws bob wb works_b msg in
      let p = prim.public_key wa.ratchet_random in
      let (b₁, handshaken, holds_b, same_messages, same_peers) = bob_answers wh b works_h in
      let (a₁, found, same_a) = alice_establishes wa a works_a r in
      let a₀ = alice_start wa in
      let (offers, sends) = agreed_start agrees wa in
      let (none_sent, none_before, own) =
        init_alice-counts prim wa.ratchet_random shared bob.dm_x25519_public in
      let (new, none_received) =
        init_bob-IsNew prim shared bob.dm_x25519_private bob.dm_x25519_public a₀.dh_self_public
          (λ z. nonzero (sym own ∙ z)) in
      let (ra, encrypted, sends', count, key, _, _, _) =
        encrypt-Sends prim agrees base text sends (omega (arith, none_sent)) in
      let q = a₀.dh_self_public in
      let h = header_of prim base q a₀.send_count a₀.prev_send_count in
      let ct = ciphertext_of prim opens base q a₀.send_count text in
      let (a', saved, holds_a, same_a') =
        encrypt_and_save-from prim snow c laws alice wa works_a bob.master_pubkey bob.dm_pubkey
          (message msg) h ct a₀ ra a a₁ found encrypted in
      let env = envelope_of prim snow c laws alice wa works_a h ct in
      let (plaintext, follows, counter, _, _, _, _, _) =
        decrypt-first prim opens agrees wb.ratchet_random a₀.send_count a₀.prev_send_count base text
          offers new (omega (arith, none_before)) (omega (arith, none_received))
          (omega (arith, none_sent)) in
      let out = decrypt prim wb.ratchet_random h ct bob_start in
      let (b₂, handled, holds_b', stored, same_b') =
        handle_encrypted_message-Holds prim c laws bob wb works_b alice.dm_pubkey
          alice.master_pubkey env h msg preview holds_b (rw same_peers known)
          (wire_to_ratchet_header-ratchet_header_to_wire c laws h (rw own bounded))
          (pair plaintext refl) shown in
      (
        env,
        a',
        b₁,
        b₂,
        handshaken,
        saved,
        handled,
        stored
            ∙ ap (insert_or_ignore msg.id (to_stored c bob alice.master_pubkey msg)) same_messages,
        record {
          sender = ra;
          receiver = out.1;
          holds_sender = holds_a;
          holds_receiver = holds_b';
          sends = sends';
          follows = subst (λ k. Follows prim base k out.1) (sym key) follows;
          sent = omega (arith, count, none_sent);
          received = omega (arith, counter, none_sent);
          key_bound = rw (key, own) bounded;
          knows = record {
            identity = r.knows.identity;
            cached = rw (same_a', same_a) r.knows.cached;
            key = r.knows.key;
            present = r.knows.present;
          };
          known = rw (same_b', same_peers) known;
        },
      )
