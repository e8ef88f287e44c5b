-- ===== src/Dm/Sealing.antt =====
-- dm/crypto.rs: ratchet states at rest, keys in hex, and headers on the wire.
pub mod RoundTrip
use proscenium.Common.{
  ℕ, ◌≤◌, ◌<◌, ◌≡◌, refl, ap, ◌∙◌, Option, none, some, List, [], ◌∷◌, ◌++◌, leb, if◌then◌else◌,
  length, take, drop, be_bytes, bound_of, arith,
}
use proscenium.Crypto.Ratchet.{RatchetState, RatchetHeader}
use proscenium.Crypto.Noise.{key_of_bytes}
use proscenium.Dm.{
  Crates, RatchetHeaderWire, AppError, Result, ok, err, encryption_failed, bad_base64, too_short,
  decryption_failed, not_utf8, bad_json, bad_hex, wrong_length,
}

-- `?` on a pure result.
infixl 5 ◌>>=◌
abbrev ◌>>=◌ : {A B : Type 0} → Result A → (A → Result B) → Result B
ok a >>= f = f a
err e >>= f = err e

abbrev pub or_err : {A : Type 0} → Option A → AppError → Result A
or_err none e = err e
or_err (some a) e = ok a

module _ (c : Crates) where
  unfoldable pub seal_ratchet_state : ℕ → List ℕ → List ℕ → Result (List ℕ)
  seal_ratchet_state key nonce_bytes plaintext = do
    ciphertext ← or_err (c.chacha_encrypt key nonce_bytes plaintext) encryption_failed
    ok (c.base64_encode (nonce_bytes ++ ciphertext))

  unfoldable pub open_ratchet_state : ℕ → List ℕ → Result (List ℕ)
  open_ratchet_state key stored = do
    blob ← or_err (c.base64_decode stored) bad_base64
    if leb (length blob) 12 then err too_short else do
      plaintext_bytes ←
          or_err (c.chacha_decrypt key (take 12 blob) (drop 12 blob)) decryption_failed
      or_err (c.from_utf8 plaintext_bytes) not_utf8

  unfoldable pub dm_pubkey_to_x25519 : ℕ → Result ℕ
  dm_pubkey_to_x25519 hex_pubkey = do
    bytes ← or_err (c.hex_decode hex_pubkey) bad_hex
    or_err (key_of_bytes bytes) wrong_length

  unfoldable pub ratchet_header_to_wire : RatchetHeader → RatchetHeaderWire
  ratchet_header_to_wire header = record {
    dh_public = c.hex_encode (be_bytes 32 header.dh_public);
    message_number = header.message_number;
    previous_chain_length = header.previous_chain_length;
  }

  unfoldable pub wire_to_ratchet_header : RatchetHeaderWire → Result RatchetHeader
  wire_to_ratchet_header wire = do
    bytes ← or_err (c.hex_decode wire.dh_public) bad_hex
    dh_public ← or_err (key_of_bytes bytes) wrong_length
    ok (record {
      dh_public = dh_public;
      message_number = wire.message_number;
      previous_chain_length = wire.previous_chain_length;
    })

  -- A state behind serde_json and the seal, and back.
  abbrev pub seal_state : ℕ → List ℕ → RatchetState → Result (List ℕ)
  seal_state key nonce ratchet = seal_ratchet_state key nonce (c.state_to_json ratchet)

  abbrev pub open_state : ℕ → List ℕ → Result RatchetState
  open_state key stored = do
    json ← open_ratchet_state key stored
    or_err (c.state_from_json json) bad_json
