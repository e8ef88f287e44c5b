-- ===== src/Crypto/Noise/Agreement.antt =====
-- What the two sides of an honest handshake end with.
use proscenium.Common.{
  ℕ, ◌<◌, ◌≡◌, refl, true, some, List, arith, be_bytes, bound_of, from_be-be_bytes, length-be_bytes,
}
use proscenium.Crypto.Noise.{
  Snow, key_of_bytes, extract_handshake_hash, noise_initiate, noise_respond,
  noise_complete_initiator, noise_complete_responder,
}

pub key_of_bytes-be_bytes : (k : ℕ) → k < bound_of 32 → key_of_bytes (be_bytes 32 k) ≡ some k
unfolding key_of_bytes
key_of_bytes-be_bytes k h = ground (arith, length-be_bytes 32 k, from_be-be_bytes 32 k h)

module _ (snow : Snow) where
  open snow use {
    HandshakeState, build_initiator, build_responder, write_message, read_message,
    get_handshake_hash, get_remote_static, into_transport_mode,
  }

  -- A run of the pattern between honest parties, as the Noise specification has it: both sides
  -- finish, their handshake hashes are equal, and the responder has learnt the initiator's key.
  pub record Honest (private public peer_private peer_public : ℕ) : Type 0 where
    pub initiator : HandshakeState
    pub sent : HandshakeState
    pub responder : HandshakeState
    pub received : HandshakeState
    pub replied : HandshakeState
    pub finished : HandshakeState
    pub first : List ℕ
    pub second : List ℕ
    pub built : build_initiator private peer_public ≡ some initiator
    pub first_written : write_message initiator ≡ some (sent, first)
    pub peer_built : build_responder peer_private ≡ some responder
    pub first_read : read_message responder first ≡ some received
    pub second_written : write_message received ≡ some (replied, second)
    pub second_read : read_message sent second ≡ some finished
    pub same_hash : get_handshake_hash finished ≡ get_handshake_hash replied
    pub revealed : get_remote_static replied ≡ some (be_bytes 32 public)
    pub initiator_done : into_transport_mode finished ≡ true
    pub responder_done : into_transport_mode replied ≡ true

  module _ {a p b q : ℕ} (h : Honest a p b q) where
    pub initiates : noise_initiate snow a q ≡ some (h.sent, h.first)
    unfolding noise_initiate
    initiates = rw h.built h.first_written

    pub responds : noise_respond snow b h.first ≡ some (h.replied, h.second)
    unfolding noise_respond
    responds = rw (h.peer_built, h.first_read) h.second_written

    abbrev pub secret : ℕ
    secret = extract_handshake_hash snow h.replied

    pub completes_initiator : noise_complete_initiator snow h.sent h.second ≡ some secret
    unfolding noise_complete_initiator extract_handshake_hash
    completes_initiator = rw (h.second_read, h.initiator_done, h.same_hash) refl

    pub completes_responder :
        p < bound_of 32 → noise_complete_responder snow h.replied ≡ some (secret, some p)
    unfolding noise_complete_responder extract_handshake_hash
    completes_responder w = ground (arith, h.revealed, h.responder_done, key_of_bytes-be_bytes p w)
