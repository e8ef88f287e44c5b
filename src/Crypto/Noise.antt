-- ===== src/Crypto/Noise.antt =====
-- src-tauri/src/crypto/noise.rs, the Noise IK handshake that seeds a ratchet.
pub mod Agreement
use proscenium.Common.{
  ℕ, Bool, true, false, Option, none, some, List, [], ◌∷◌, ◌++◌, ltb, if◌then◌else◌, length, take,
  from_be,
}

-- The crate snow under the pattern "Noise_IK_25519_ChaChaPoly_BLAKE2s": the builder with its keys,
-- and the calls on a handshake state. `none` is an error of the crate.
pub record Snow : Type 1 where
  pub HandshakeState : Type 0
  pub build_initiator : ℕ → ℕ → Option HandshakeState
  pub build_responder : ℕ → Option HandshakeState
  pub write_message : HandshakeState → Option (HandshakeState × List ℕ)
  pub read_message : HandshakeState → List ℕ → Option HandshakeState
  pub get_handshake_hash : HandshakeState → List ℕ
  pub get_remote_static : HandshakeState → Option (List ℕ)
  pub into_transport_mode : HandshakeState → Bool

infixl 5 ◌>>=◌
abbrev pub ◌>>=◌ : {A B : Type 0} → Option A → (A → Option B) → Option B
none >>= f = none
some a >>= f = f a

abbrev zeros : ℕ → List ℕ
zeros ℕ.zero = []
zeros (ℕ.suc n) = 0 ∷ zeros n

-- `try_into` of a slice: an array of 32 bytes.
unfoldable pub key_of_bytes : List ℕ → Option ℕ
key_of_bytes bytes =
    if ltb (length bytes) 32
    then none
    else if ltb 32 (length bytes)
    then none
    else some (from_be 0 bytes)

module _ (snow : Snow) where
  open snow use {
    HandshakeState, build_initiator, build_responder, write_message, read_message,
    get_handshake_hash, get_remote_static, into_transport_mode,
  }

  -- At most 32 bytes of the hash, in front of zeros.
  unfoldable pub extract_handshake_hash : HandshakeState → ℕ
  extract_handshake_hash hs = from_be 0 (take 32 (get_handshake_hash hs ++ zeros 32))

  unfoldable pub noise_initiate : ℕ → ℕ → Option (HandshakeState × List ℕ)
  noise_initiate my_x25519_private peer_x25519_public = do
    initiator ← build_initiator my_x25519_private peer_x25519_public
    write_message initiator

  unfoldable pub noise_respond : ℕ → List ℕ → Option (HandshakeState × List ℕ)
  noise_respond my_x25519_private message = do
    responder ← build_responder my_x25519_private
    read ← read_message responder message
    write_message read

  unfoldable pub noise_complete_initiator : HandshakeState → List ℕ → Option ℕ
  unfolding extract_handshake_hash
  noise_complete_initiator initiator response = do
    read ← read_message initiator response
    if into_transport_mode read then some (extract_handshake_hash read) else none

  unfoldable pub noise_complete_responder : HandshakeState → Option (ℕ × Option ℕ)
  unfolding extract_handshake_hash key_of_bytes
  noise_complete_responder responder =
      let initiator_dm_pubkey = get_remote_static responder >>= key_of_bytes in
      if into_transport_mode responder
      then some (extract_handshake_hash responder, initiator_dm_pubkey)
      else none
