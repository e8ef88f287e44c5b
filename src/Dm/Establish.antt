-- ===== src/Dm/Establish.antt =====
-- dm/handshake.rs and `encrypt_and_save` of dm/crypto.rs: how a session comes about and how an
-- envelope is made of a payload. A handshake message is the value that its JSON spells.
pub mod Authenticated
use proscenium.Common.{ℕ, Option, none, some, List, [], ◌∷◌, ◌==◌, if◌then◌else◌}
use proscenium.Crypto.Ratchet.{Primitives, RatchetState, init_alice, init_bob, encrypt}
use proscenium.Crypto.Noise.{
  Snow, noise_initiate, noise_respond, noise_complete_initiator, noise_complete_responder,
}
use proscenium.Dm.{
  M, Store, Env, Crates, Identity, DmPayload, DmHandshake, EncryptedEnvelope, Result, AppError,
  init, response, ◌>>=◌, ◌>>◌, pure, throw, or_throw, no_dm_pubkey, no_transport, bad_transport,
  connect_failed, unexpected_response, noise, sender_mismatch, no_initiator_key, panicked,
}
use proscenium.Dm.Storage.{
  get_ratchet_session, save_ratchet_session, get_peer_dm_pubkey, get_peer_transport_node_ids,
}
use proscenium.Dm.Sealing.{seal_state, open_state, dm_pubkey_to_x25519, ratchet_header_to_wire}

abbrev pub lift : {A : Type 0} → Result A → M A
lift r s = (r, s)

abbrev pub first : List ℕ → Option ℕ
first [] = none
first (x ∷ xs) = some x

abbrev noise_message_of : DmHandshake → M (List ℕ)
noise_message_of (response noise_message) = pure noise_message
noise_message_of (init _ _) = throw unexpected_response

-- The authenticated key has to be the one that the message claims.
abbrev check_sender : ℕ → Option ℕ → M (Unit {0})
check_sender claimed_key none = throw no_initiator_key
check_sender claimed_key (some actual) =
    if actual == claimed_key then pure tt else throw sender_mismatch

module _ (prim : Primitives) (snow : Snow) (c : Crates) (me : Identity) (w : Env) where
  -- The Noise IK handshake with a peer that there is no session with.
  unfoldable pub establish : ℕ → ℕ → M (RatchetState × ℕ)
  establish peer_master_pubkey peer_dm_pubkey = do
    node_ids ← get_peer_transport_node_ids w peer_master_pubkey
    transport_id_str ← or_throw (first node_ids) no_transport
    transport_id ← or_throw (c.parse_node_id transport_id_str) bad_transport
    peer_x25519_public ← lift (dm_pubkey_to_x25519 c peer_dm_pubkey)
    initiated ← or_throw (noise_initiate snow me.dm_x25519_private peer_x25519_public) noise
    resp ← or_throw (w.ask transport_id (init initiated.1 me.dm_pubkey)) connect_failed
    noise_response ← noise_message_of resp
    shared_secret ← or_throw (noise_complete_initiator snow initiated.0 noise_response) noise
    let ratchet = init_alice prim w.ratchet_random shared_secret peer_x25519_public
    sealed ← lift (seal_state c me.ratchet_storage_key w.session_nonce ratchet)
    save_ratchet_session w peer_dm_pubkey sealed
    pure (ratchet, peer_dm_pubkey)

  unfoldable pub get_or_establish_session : ℕ → M (RatchetState × ℕ)
  get_or_establish_session peer_master_pubkey = do
    cached ← get_peer_dm_pubkey w peer_master_pubkey
    peer_dm_pubkey ← or_throw cached no_dm_pubkey
    stored ← get_ratchet_session w peer_dm_pubkey
    elim stored [
      | some sealed ↦ do
        state ← lift (open_state c me.ratchet_storage_key sealed)
        pure (state, peer_dm_pubkey)
      | none ↦ establish peer_master_pubkey peer_dm_pubkey
    ]

  unfoldable pub encrypt_and_save : ℕ → DmPayload → M EncryptedEnvelope
  encrypt_and_save peer_pubkey payload = do
    session ← get_or_establish_session peer_pubkey
    encrypted ← or_throw (encrypt prim (c.payload_to_json payload) session.0) panicked
    sealed ← lift (seal_state c me.ratchet_storage_key w.nonce encrypted.2)
    save_ratchet_session w session.1 sealed
    pure (record {
      sender = me.dm_pubkey;
      ratchet_header = ratchet_header_to_wire c encrypted.0;
      ciphertext = encrypted.1;
    })

  unfoldable pub handle_handshake : ℕ → List ℕ → M DmHandshake
  handle_handshake peer_dm_pubkey noise_message = do
    responded ← or_throw (noise_respond snow me.dm_x25519_private noise_message) noise
    completed ← or_throw (noise_complete_responder snow responded.0) noise
    claimed_key ← lift (dm_pubkey_to_x25519 c peer_dm_pubkey)
    check_sender claimed_key completed.1
    let ratchet = init_bob prim completed.0 (me.dm_x25519_private, me.dm_x25519_public)
    sealed ← lift (seal_state c me.ratchet_storage_key w.session_nonce ratchet)
    save_ratchet_session w peer_dm_pubkey sealed
    pure (response responded.1)
