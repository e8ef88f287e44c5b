-- ===== src/Dm/Delivery/Steps.antt =====
-- One send and one receipt over sessions that are in place.
use proscenium.Common.{
  insert_or_ignore, ℕ, ◌≡◌, refl, false, none, some, List, [], ◌∷◌, ◌++◌, arith, ◌==◌, lookup,
  insert, lookup-insert, ==_refl,
}
use proscenium.Crypto.Ratchet
use proscenium.Crypto.Ratchet.{Primitives, RatchetState, RatchetHeader, encrypt, decrypt}
use proscenium.Crypto.Noise.{Snow}
use proscenium.Dm.{
  Store, Env, Crates, Identity, DirectMessage, DmPayload, EncryptedEnvelope, PeerIdentity, ok, err,
  panicked, message, dm_received, get_peer_dm_pubkey as q_dm_pubkey,
  get_ratchet_session as q_get_session, save_ratchet_session as q_save_session,
  receive_dm_message_atomically as q_receive, get_master_pubkey_for_dm_pubkey as q_master,
}
use proscenium.Dm.Storage.{
  get_ratchet_session, save_ratchet_session, get_peer_dm_pubkey, get_master_pubkey_for_dm_pubkey,
  receive_dm_message_atomically, find_dm_pubkey, upsert_conversation,
}
use proscenium.Dm.Sealing.{open_state, seal_state, ratchet_header_to_wire, wire_to_ratchet_header}
use proscenium.Dm.Sealing.RoundTrip.{Laws, seals}
use proscenium.Dm.Establish.{get_or_establish_session, encrypt_and_save}
use proscenium.Dm.Incoming.{
  preview_of, to_stored, receive_message, handle_payload, open_envelope, handle_encrypted_message,
}
use proscenium.Dm.Delivery.{Works, Holds}

-- A row that is just written opens to what was sealed.
pub insert-Holds :
    (c : Crates) (me : Identity) (peer : ℕ) (sealed : List ℕ) (now : ℕ) (r : RatchetState)
    (s t : Store)
    → open_state c me.ratchet_storage_key sealed ≡ ok r
    → t.sessions ≡ insert peer (record { state_json = sealed; updated_at = now }) s.sessions
    → Holds c me peer r t
insert-Holds c me peer sealed now r s t o e = record {
  row = record { state_json = sealed; updated_at = now };
  stored = ground (
    arith,
    e,
    lookup-insert peer peer (record { state_json = sealed; updated_at = now }) s.sessions,
    ==_refl peer,
  );
  opened = o;
}

-- The peer's DM key is cached.
pub record Knows (master dm : ℕ) (s : Store) : Type 0 where
  pub identity : PeerIdentity
  pub cached : lookup master s.peer_delegations ≡ some identity
  pub key : identity.dm_pubkey ≡ dm
  pub present : (dm == 0) ≡ false

module _ (prim : Primitives) (snow : Snow) (c : Crates) (laws : Laws c) (me : Identity) (w : Env)
    (works : Works w) where
  pub cached_key :
      (master dm : ℕ) (s : Store)
      → Knows master dm s
      → get_peer_dm_pubkey w master s ≡ (ok (some dm), s)
  unfolding get_peer_dm_pubkey
  cached_key master dm s k =
      simp (works.queries q_dm_pubkey, k.cached, k.key, k.present, get_peer_dm_pubkey) refl

  stored_row :
      (dm : ℕ) {r : RatchetState} {s : Store} (h : Holds c me dm r s)
      → get_ratchet_session w dm s ≡ (ok (some h.row.state_json), s)
  unfolding get_ratchet_session
  stored_row dm {r} {s} h = simp (works.queries q_get_session, h.stored, get_ratchet_session) refl

  session :
      (master dm : ℕ) {r : RatchetState} {s : Store}
      → Knows master dm s
      → Holds c me dm r s
      → get_or_establish_session prim snow c me w master s ≡ (ok (r, dm), s)
  unfolding get_or_establish_session
  session master dm {r} {s} k h =
      simp (cached_key master dm s k, stored_row dm h, h.opened, get_or_establish_session) refl

  abbrev pub envelope_of : RatchetHeader → List ℕ → EncryptedEnvelope
  envelope_of h ct = record {
    sender = me.dm_pubkey;
    ratchet_header = ratchet_header_to_wire c h;
    ciphertext = ct;
  }

  -- Whether the session was stored or is new, the envelope is the ratchet's and the session is kept.
  pub encrypt_and_save-from :
      (master dm : ℕ) (payload : DmPayload) (h : RatchetHeader) (ct : List ℕ) (r r' : RatchetState)
      (s s₁ : Store)
      → get_or_establish_session prim snow c me w master s ≡ (ok (r, dm), s₁)
      → encrypt prim (c.payload_to_json payload) r ≡ some (h, ct, r')
      → (s' : Store) × (encrypt_and_save prim snow c me w master payload s
          ≡ (ok (envelope_of h ct), s'))
        × Holds c me dm r' s'
        × (s'.peer_delegations ≡ s₁.peer_delegations)
  unfolding encrypt_and_save save_ratchet_session
  encrypt_and_save-from master dm payload h ct r r' s s₁ found e =
      let (sealed, done, opens) = seals c laws me.ratchet_storage_key w.nonce r' works.nonce in
      let s' : Store = record s₁ {
        sessions = insert dm (record { state_json = sealed; updated_at = w.now }) s₁.sessions;
      } in
      (
        s',
        simp (found, e, done, works.queries q_save_session, encrypt_and_save, save_ratchet_session)
            refl,
        insert-Holds c me dm sealed w.now r' s₁ s' opens refl,
        refl,
      )

  -- A session without a sending chain makes the sender panic.
  pub encrypt_and_save-unchained :
      (master dm : ℕ) (payload : DmPayload) (r : RatchetState) (s : Store)
      → Knows master dm s
      → Holds c me dm r s
      → encrypt prim (c.payload_to_json payload) r ≡ none
      → encrypt_and_save prim snow c me w master payload s ≡ (err panicked, s)
  unfolding encrypt_and_save
  encrypt_and_save-unchained master dm payload r s k held e =
      simp (session master dm k held, e, encrypt_and_save) refl

  pub encrypt_and_save-Holds :
      (master dm : ℕ) (payload : DmPayload) (h : RatchetHeader) (ct : List ℕ) (r r' : RatchetState)
      (s : Store)
      → Knows master dm s
      → Holds c me dm r s
      → encrypt prim (c.payload_to_json payload) r ≡ some (h, ct, r')
      → (s' : Store) × (encrypt_and_save prim snow c me w master payload s
          ≡ (ok (envelope_of h ct), s'))
        × Holds c me dm r' s'
        × (s'.peer_delegations ≡ s.peer_delegations)
  encrypt_and_save-Holds master dm payload h ct r r' s k held e =
      encrypt_and_save-from master dm payload h ct r r' s s (session master dm k held) e

module _ (prim : Primitives) (c : Crates) (laws : Laws c) (me : Identity) (w : Env)
    (works : Works w) where
  abbrev pub plain : DirectMessage → List ℕ
  plain msg = c.payload_to_json (message msg)

  opens_envelope :
      (dm : ℕ) (env : EncryptedEnvelope) (h : RatchetHeader) (msg : DirectMessage) (sealed : List ℕ)
      {r r' : RatchetState} {s : Store}
      → Holds c me dm r s
      → wire_to_ratchet_header c env.ratchet_header ≡ ok h
      → decrypt prim w.ratchet_random h env.ciphertext r ≡ (Ratchet.ok (plain msg), r')
      → seal_state c me.ratchet_storage_key w.nonce r' ≡ ok sealed
      → open_envelope prim c me w dm env s ≡ (ok (sealed, message msg), s)
  unfolding open_envelope get_ratchet_session
  opens_envelope dm env h msg sealed {r} {r'} {s} held wire e done =
      simp
        (
          works.queries q_get_session,
          held.stored,
          held.opened,
          wire,
          e,
          done,
          laws.payload (message msg),
          open_envelope,
          get_ratchet_session,
        )
        refl

  -- An envelope that the ratchet opens to a message of a known peer stores that message.
  pub handle_encrypted_message-Holds :
      (dm master : ℕ) (env : EncryptedEnvelope) (h : RatchetHeader) (msg : DirectMessage)
      (preview : List ℕ) {r r' : RatchetState} {s : Store}
      → Holds c me dm r s
      → find_dm_pubkey dm s.peer_delegations ≡ some master
      → wire_to_ratchet_header c env.ratchet_header ≡ ok h
      → decrypt prim w.ratchet_random h env.ciphertext r ≡ (Ratchet.ok (plain msg), r')
      → preview_of msg.content ≡ some preview
      → (s' : Store) × (handle_encrypted_message prim c me w dm env s ≡ (ok tt, s'))
        × Holds c me dm r' s'
        × (s'.messages ≡ insert_or_ignore msg.id (to_stored c me master msg) s.messages)
        × (s'.peer_delegations ≡ s.peer_delegations)
  unfolding handle_encrypted_message handle_payload receive_message receive_dm_message_atomically
      get_master_pubkey_for_dm_pubkey
  handle_encrypted_message-Holds dm master env h msg preview {r} {r'} {s} held known wire e shown =
      let (sealed, done, opens) = seals c laws me.ratchet_storage_key w.nonce r' works.nonce in
      let stored_msg = to_stored c me master msg in
      let s' : Store = record s {
        sessions = insert dm (record { state_json = sealed; updated_at = w.now }) s.sessions;
        conversations = upsert_conversation master stored_msg preview s.conversations;
        messages = insert_or_ignore msg.id stored_msg s.messages;
        events = s.events ++ (dm_received master stored_msg ∷ []);
      } in
      (
        s',
        simp
            (
              opens_envelope dm env h msg sealed held wire e done,
              works.queries q_master,
              known,
              shown,
              works.queries q_receive,
              handle_encrypted_message,
              handle_payload,
              receive_message,
              receive_dm_message_atomically,
              get_master_pubkey_for_dm_pubkey,
            )
            refl,
        insert-Holds c me dm sealed w.now r' s s' opens refl,
        refl,
        refl,
      )
