-- ===== src/Dm/Incoming/Unread.antt =====
-- dm/incoming.rs and dm/mod.rs: an envelope that cannot be read is acknowledged.
use proscenium.Common.{
  lookup, none, true, ℕ, ◌≡◌, refl, false, inl, inr, Bool-cases, List, arith, some,
}
use proscenium.Crypto.Ratchet
use proscenium.Crypto.Ratchet.{Primitives, RatchetState, RatchetHeader, decrypt}
use proscenium.Crypto.Noise.{Snow}
use proscenium.Dm.{
  envelope, Result-cases, Store, Env, Crates, Identity, EncryptedEnvelope, AppError, ok, err,
  storage, get_ratchet_session as q_session, Session, RatchetHeaderWire, no_session, crypto,
  bad_json,
}
use proscenium.Dm.Storage
use proscenium.Dm.Sealing.{
  seal_state, open_state, wire_to_ratchet_header, seal_ratchet_state, open_ratchet_state,
}
use proscenium.Dm.Incoming.{
  accept, handle_message, ack, ack_of, is_panic, is_blocked_remote, open_envelope,
  handle_encrypted_message,
}

module _ (prim : Primitives) (c : Crates) (me : Identity) (w : Env) where
  -- The session that is stored with the sender, and what it and the header decode to.
  pub record Decoded (env : EncryptedEnvelope) (s : Store) : Type 0 where
    pub row : Session
    pub ratchet : RatchetState
    pub header : RatchetHeader
    pub found : lookup env.sender s.sessions ≡ some row
    pub opened : open_state c me.ratchet_storage_key row.state_json ≡ ok ratchet
    pub parsed : wire_to_ratchet_header c env.ratchet_header ≡ ok header

  abbrev pub decrypted :
      (env : EncryptedEnvelope) (s : Store) → Decoded env s → Ratchet.Result (List ℕ) × RatchetState
  decrypted env s d = decrypt prim w.ratchet_random d.header env.ciphertext d.ratchet

  -- Why an envelope cannot be read: the query fails, there is no session, the stored state or the
  -- header is broken, the ratchet refuses, or the plaintext is no payload.
  pub data Unreadable (env : EncryptedEnvelope) (s : Store) : Type 0 where
    no_answer : w.fails q_session ≡ true → Unreadable env s
    no_row : lookup env.sender s.sessions ≡ none → Unreadable env s
    broken_state :
        (row : Session) (e : AppError)
        → lookup env.sender s.sessions ≡ some row
        → open_state c me.ratchet_storage_key row.state_json ≡ err e
        → Unreadable env s
    broken_header :
        (row : Session) (r : RatchetState) (e : AppError)
        → lookup env.sender s.sessions ≡ some row
        → open_state c me.ratchet_storage_key row.state_json ≡ ok r
        → wire_to_ratchet_header c env.ratchet_header ≡ err e
        → Unreadable env s
    refused :
        (d : Decoded env s) (e : Ratchet.CryptoError)
        → (decrypted env s d).0 ≡ Ratchet.err e
        → Unreadable env s
    no_payload :
        (d : Decoded env s) (plaintext : List ℕ)
        → (decrypted env s d).0 ≡ Ratchet.ok plaintext
        → c.payload_from_json plaintext ≡ none
        → Unreadable env s

  -- Nothing on the way from the stored state to the sealed one panics.
  open_state-calm :
      (key : ℕ) (stored : List ℕ) (e : AppError)
      → open_state c key stored ≡ err e
      → is_panic e ≡ false
  unfolding open_ratchet_state
  open_state-calm key stored e h = ground arith

  header-calm :
      (wire : RatchetHeaderWire) (e : AppError)
      → wire_to_ratchet_header c wire ≡ err e
      → is_panic e ≡ false
  unfolding wire_to_ratchet_header
  header-calm wire e h = ground arith

  seal_state-calm :
      (key : ℕ) (nonce : List ℕ) (r : RatchetState) (e : AppError)
      → seal_state c key nonce r ≡ err e
      → is_panic e ≡ false
  unfolding seal_ratchet_state
  seal_state-calm key nonce r e h = ground arith

  -- Opening fails without a panic and without a write.
  Unopened : EncryptedEnvelope → Store → Type 0
  Unopened env s =
      (e : AppError) × (open_envelope prim c me w env.sender env s ≡ (err e, s))
      × (is_panic e ≡ false)

  -- It is enough to look at a query that answers.
  answered :
      (env : EncryptedEnvelope) (s : Store)
      → (w.fails q_session ≡ false → Unopened env s)
      → Unopened env s
  unfolding open_envelope Storage.get_ratchet_session Unopened
  answered env s go = elim (Bool-cases (w.fails q_session)) [
    | inl fails ↦ (storage, simp (fails, open_envelope) refl, refl)
    | inr works ↦ go works
  ]

  open_envelope-Unreadable :
      (env : EncryptedEnvelope) (s : Store) → Unreadable env s → Unopened env s
  unfolding open_envelope Storage.get_ratchet_session Unopened
  open_envelope-Unreadable env s (no_answer fails) =
      (storage, simp (fails, open_envelope) refl, refl)
  open_envelope-Unreadable env s (no_row missing) =
      answered env s (λ works. (no_session, simp (works, missing, open_envelope) refl, refl))
  open_envelope-Unreadable env s (broken_state row e found broken) = answered env s (λ works. (
    e,
    simp (works, found, broken, open_envelope) refl,
    open_state-calm me.ratchet_storage_key row.state_json e broken,
  ))
  open_envelope-Unreadable env s (broken_header row r e found opened broken) =
      answered env s (λ works. (
        e,
        simp (works, found, opened, broken, open_envelope) refl,
        header-calm env.ratchet_header e broken,
      ))
  open_envelope-Unreadable env s (refused d e failed) = answered env s (λ works.
      (crypto e, simp (works, d.found, d.opened, d.parsed, failed, open_envelope) refl, refl))
  open_envelope-Unreadable env s (no_payload d plaintext decrypts bad) = answered env s (λ works.
      elim (Result-cases (seal_state c me.ratchet_storage_key w.nonce (decrypted env s d).1)) [
        | inl (sealed, kept) ↦ (
          bad_json,
          simp (works, d.found, d.opened, d.parsed, decrypts, kept, bad, open_envelope) refl,
          refl,
        )
        | inr (e, unsealed) ↦ (
          e,
          simp (works, d.found, d.opened, d.parsed, decrypts, unsealed, open_envelope) refl,
          seal_state-calm me.ratchet_storage_key w.nonce (decrypted env s d).1 e unsealed,
        )
      ])

-- Suppose an envelope arrives from a node that is not blocked, and it cannot be read: the session
-- cannot be looked up or there is none with its sender, the stored state or the header does not
-- decode, the ratchet refuses it, or the plaintext is no payload. Then the store stays as it was
-- and the sender gets an acknowledgement all the same.
pub unread_acknowledged :
    (prim : Primitives) (snow : Snow) (c : Crates) (me : Identity) (w : Env) (remote : ℕ)
    (env : EncryptedEnvelope) (s : Store)
    → is_blocked_remote w remote s ≡ false
    → Unreadable prim c me w env s
    → accept prim snow c me w remote (some (envelope env)) s ≡ (ack, s)
unfolding accept handle_encrypted_message Unopened
unread_acknowledged prim snow c me w remote env s free unreadable =
    let (e, unopened, calm) = open_envelope-Unreadable prim c me w env s unreadable in
    simp (free, unopened, accept, handle_message, handle_encrypted_message)
      (simp (calm, ack_of) refl)
