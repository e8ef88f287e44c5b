-- ===== src/Dm/Sealing/RoundTrip.antt =====
-- dm/crypto.rs: what is sealed opens again, and a header survives the wire.
use proscenium.Common.{
  ℕ, ◌≤◌, ◌<◌, ◌≡◌, refl, inl, inr, some, List, ◌++◌, length, be_bytes, bound_of, arith,
  Option-cases, take-append, drop-append, length-append,
}
use proscenium.Crypto.Ratchet.{RatchetState, RatchetHeader}
use proscenium.Crypto.Noise.Agreement.{key_of_bytes-be_bytes}
use proscenium.Dm.{Crates, DmPayload, ok}
use proscenium.Dm.Sealing.{
  seal_ratchet_state, open_ratchet_state, seal_state, open_state, dm_pubkey_to_x25519,
  ratchet_header_to_wire, wire_to_ratchet_header,
}

-- What the crates document: each decoder undoes its encoder, JSON is UTF-8, and the ciphertext
-- carries a tag.
pub record Laws (c : Crates) : Type 0 where
  pub hex :
      (k : ℕ) → k < bound_of 32 → c.hex_decode (c.hex_encode (be_bytes 32 k)) ≡ some (be_bytes 32 k)
  pub base64 : (b : List ℕ) → c.base64_decode (c.base64_encode b) ≡ some b
  pub opens :
      (key : ℕ) (nonce m ct : List ℕ)
      → c.chacha_encrypt key nonce m ≡ some ct
      → c.chacha_decrypt key nonce ct ≡ some m
  pub tagged :
      (key : ℕ) (nonce m ct : List ℕ) → c.chacha_encrypt key nonce m ≡ some ct → 16 ≤ length ct
  pub encrypts :
      (key : ℕ) (nonce m : List ℕ)
      → length nonce ≡ 12
      → (ct : List ℕ) × (c.chacha_encrypt key nonce m ≡ some ct)
  pub utf8 : (r : RatchetState) → c.from_utf8 (c.state_to_json r) ≡ some (c.state_to_json r)
  pub state : (r : RatchetState) → c.state_from_json (c.state_to_json r) ≡ some r
  pub payload : (p : DmPayload) → c.payload_from_json (c.payload_to_json p) ≡ some p

module _ (c : Crates) (laws : Laws c) where
  open_blob :
      (key : ℕ) (nonce m ct : List ℕ)
      → length nonce ≡ 12
      → c.chacha_encrypt key nonce m ≡ some ct
      → c.from_utf8 m ≡ some m
      → open_ratchet_state c key (c.base64_encode (nonce ++ ct)) ≡ ok m
  unfolding open_ratchet_state
  open_blob key nonce m ct l e u = ground (
    arith,
    laws.base64 (nonce ++ ct),
    laws.opens key nonce m ct e,
    laws.tagged key nonce m ct e,
    take-append 12 nonce ct l,
    drop-append 12 nonce ct l,
    length-append nonce ct,
    u,
  )

  -- Suppose a ratchet state was sealed under a key and a nonce of 12 bytes. Then opening what is
  -- stored, under the same key, gives the same state back. It is assumed that the decoders of
  -- base64 and JSON and the decryption undo their counterparts.
  pub open_state-seal_state :
      (key : ℕ) (nonce : List ℕ) (r : RatchetState) (sealed : List ℕ)
      → length nonce ≡ 12
      → seal_state c key nonce r ≡ ok sealed
      → open_state c key sealed ≡ ok r
  unfolding seal_ratchet_state
  open_state-seal_state key nonce r sealed l e =
      elim (Option-cases (c.chacha_encrypt key nonce (c.state_to_json r))) [
        | inl fails ↦ ground (arith, fails)
        | inr (ct, encrypted) ↦ ground (
          arith,
          open_blob key nonce (c.state_to_json r) ct l encrypted (laws.utf8 r),
          laws.state r,
        )
      ]

  pub dm_pubkey_to_x25519-hex :
      (k : ℕ) → k < bound_of 32 → dm_pubkey_to_x25519 c (c.hex_encode (be_bytes 32 k)) ≡ ok k
  unfolding dm_pubkey_to_x25519
  dm_pubkey_to_x25519-hex k h = ground (arith, laws.hex k h, key_of_bytes-be_bytes k h)

  -- A header whose key fits in 32 bytes comes back from the wire as it was.
  pub wire_to_ratchet_header-ratchet_header_to_wire :
      (h : RatchetHeader)
      → h.dh_public < bound_of 32
      → wire_to_ratchet_header c (ratchet_header_to_wire c h) ≡ ok h
  unfolding wire_to_ratchet_header ratchet_header_to_wire
  wire_to_ratchet_header-ratchet_header_to_wire h w =
      ground (arith, laws.hex h.dh_public w, key_of_bytes-be_bytes h.dh_public w)

  -- Sealing succeeds, and what is stored opens again.
  pub seals :
      (key : ℕ) (nonce : List ℕ) (r : RatchetState)
      → length nonce ≡ 12
      → (sealed : List ℕ) × (seal_state c key nonce r ≡ ok sealed)
        × (open_state c key sealed ≡ ok r)
  unfolding seal_ratchet_state
  seals key nonce r l =
      let (ct, e) = laws.encrypts key nonce (c.state_to_json r) l in
      let sealed = c.base64_encode (nonce ++ ct) in
      let done : seal_state c key nonce r ≡ ok sealed = rw e refl in
      (sealed, done, open_state-seal_state key nonce r sealed l done)
