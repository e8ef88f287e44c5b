-- ===== src/Dm/Incoming.antt =====
-- dm/incoming.rs, and `accept` of dm/mod.rs: what a node does with what arrives on DM_ALPN.
pub mod Atomic
pub mod Unread
use proscenium.Common.{
  ℕ, Bool, true, false, not, ◌&&◌, Option, none, some, List, [], ◌∷◌, ◌++◌, ltb, leb, length, take,
  drop, if◌then◌else◌,
}
use proscenium.Crypto.Ratchet
use proscenium.Crypto.Ratchet.{Primitives, RatchetState, RatchetHeader, decrypt}
use proscenium.Crypto.Noise.{Snow}
use proscenium.Dm.{
  M, Store, Env, Crates, Identity, DirectMessage, StoredMessage, DmPayload, DmMessage, DmHandshake,
  EncryptedEnvelope, Event, CallSignal, Result, AppError, ok, err, init, response, handshake,
  envelope, message, typing, read, delivered, dm_received, dm_delivered, dm_read, typing_indicator,
  ◌>>=◌, ◌>>◌, pure, throw, or_throw, no_session, no_master_pubkey, bad_json, crypto, panicked,
}
use proscenium.Dm.Storage.{
  get_ratchet_session, save_ratchet_session, get_master_pubkey_for_dm_pubkey, mark_dm_delivered,
  mark_dm_read_by_id, receive_dm_message_atomically, conversation_id,
  get_master_pubkey_for_transport, is_blocked,
}
use proscenium.Dm.Sealing.{seal_state, open_state, wire_to_ratchet_header}
use proscenium.Dm.Establish.{lift, handle_handshake}

abbrev pub emit : Event → M (Unit {0})
emit e s = (ok tt, record s { events = s.events ++ (e ∷ []) })

abbrev pub send_signal : CallSignal → M (Unit {0})
send_signal x s = (ok tt, record s { call_signals = s.call_signals ++ (x ∷ []) })

-- `&content[..77]` panics inside a character: at a byte 10xxxxxx.
abbrev is_char_boundary : List ℕ → Bool
is_char_boundary [] = true
is_char_boundary (b ∷ bs) = not (leb 128 b && ltb b 192)

-- The first 77 bytes and "...", of a content longer than 80 bytes.
abbrev pub preview_of : List ℕ → Option (List ℕ)
preview_of content =
    if ltb 80 (length content)
    then if is_char_boundary (drop 77 content)
      then some (take 77 content ++ (46 ∷ 46 ∷ 46 ∷ []))
      else none
    else some content

abbrev pub of_ratchet : Ratchet.Result (List ℕ) → Result (List ℕ)
of_ratchet (Ratchet.ok m) = ok m
of_ratchet (Ratchet.err e) = err (crypto e)

module _ (w : Env) where
  -- The master key is looked up again, and nothing happens without one.
  abbrev with_master : ℕ → (ℕ → M (Unit {0})) → M (Unit {0})
  with_master peer_dm_pubkey f s = elim (get_master_pubkey_for_dm_pubkey w peer_dm_pubkey s) [
    | none ↦ (ok tt, s)
    | some peer_master_pubkey ↦ f peer_master_pubkey s
  ]

module _ (c : Crates) (me : Identity) where
  abbrev pub to_stored : ℕ → DirectMessage → StoredMessage
  to_stored peer_master_pubkey msg = record {
    id = msg.id;
    conversation_id = conversation_id c me.master_pubkey peer_master_pubkey;
    from_pubkey = peer_master_pubkey;
    to_pubkey = me.master_pubkey;
    content = msg.content;
    timestamp = msg.timestamp;
    media = msg.media;
    is_read = false;
    is_delivered = true;
    reply_to = msg.reply_to;
  }

module _ (c : Crates) (me : Identity) (w : Env) where
  unfoldable pub receive_message : ℕ → List ℕ → DirectMessage → M (Unit {0})
  receive_message peer_dm_pubkey ratchet_sealed msg s =
      elim (get_master_pubkey_for_dm_pubkey w peer_dm_pubkey s) [
        | none ↦ (err no_master_pubkey, s)
        | some peer_master_pubkey ↦
            let stored_msg = to_stored c me peer_master_pubkey msg in
            let store : M (Unit {0}) = do
              preview ← or_throw (preview_of msg.content) panicked
              receive_dm_message_atomically w peer_dm_pubkey peer_master_pubkey ratchet_sealed
                  stored_msg preview
              emit (dm_received peer_master_pubkey stored_msg)
            in store s
      ]

  -- The `match` on the payload.
  unfoldable pub handle_payload : ℕ → List ℕ → DmPayload → M (Unit {0})
  handle_payload peer_dm_pubkey ratchet_sealed (message msg) =
      receive_message peer_dm_pubkey ratchet_sealed msg
  handle_payload peer_dm_pubkey ratchet_sealed (delivered message_id) = do
    save_ratchet_session w peer_dm_pubkey ratchet_sealed
    mark_dm_delivered w message_id
    emit (dm_delivered message_id)
  handle_payload peer_dm_pubkey ratchet_sealed (read message_id) = do
    save_ratchet_session w peer_dm_pubkey ratchet_sealed
    mark_dm_read_by_id w message_id
    emit (dm_read message_id)
  handle_payload peer_dm_pubkey ratchet_sealed typing = do
    save_ratchet_session w peer_dm_pubkey ratchet_sealed
    with_master w peer_dm_pubkey (λ peer. emit (typing_indicator peer))
  handle_payload peer_dm_pubkey ratchet_sealed payload = do
    save_ratchet_session w peer_dm_pubkey ratchet_sealed
    with_master w peer_dm_pubkey
        (λ peer. send_signal (record { peer_pubkey = peer; payload = payload }))

module _ (prim : Primitives) (c : Crates) (me : Identity) (w : Env) where
  -- The advanced ratchet, sealed, and the payload.
  unfoldable pub open_envelope : ℕ → EncryptedEnvelope → M (List ℕ × DmPayload)
  open_envelope peer_dm_pubkey env = do
    found ← get_ratchet_session w peer_dm_pubkey
    stored ← or_throw found no_session
    ratchet ← lift (open_state c me.ratchet_storage_key stored)
    header ← lift (wire_to_ratchet_header c env.ratchet_header)
    let out = decrypt prim w.ratchet_random header env.ciphertext ratchet
    plaintext ← lift (of_ratchet out.0)
    ratchet_sealed ← lift (seal_state c me.ratchet_storage_key w.nonce out.1)
    payload ← or_throw (c.payload_from_json plaintext) bad_json
    pure (ratchet_sealed, payload)

  unfoldable pub handle_encrypted_message : ℕ → EncryptedEnvelope → M (Unit {0})
  handle_encrypted_message peer_dm_pubkey env = do
    opened ← open_envelope peer_dm_pubkey env
    handle_payload c me w peer_dm_pubkey opened.0 opened.1

-- What `accept` writes to the stream, or how it ends without writing.
pub data Reply : Type 0 where
  ack no_reply rejected failed : Reply
  answer : DmHandshake → Reply

abbrev pub is_panic : AppError → Bool
is_panic panicked = true
is_panic e = false

-- A panic ends the task before the acknowledgement; any other error is only logged.
abbrev ack_of : Result (Unit {0}) → Reply
ack_of (ok _) = ack
ack_of (err e) = if is_panic e then failed else ack

-- The block list holds master keys, which the transport's node id is resolved to.
unfoldable pub is_blocked_remote : Env → ℕ → Store → Bool
is_blocked_remote w remote_str s = elim (get_master_pubkey_for_transport w remote_str s) [
  | none ↦ is_blocked w remote_str s
  | some master_pubkey ↦ is_blocked w master_pubkey s
]

abbrev answer_of : Result DmHandshake → Reply
answer_of (ok reply) = answer reply
answer_of (err _) = failed

module _ (prim : Primitives) (snow : Snow) (c : Crates) (me : Identity) (w : Env) where
  abbrev handle_message : DmMessage → Store → Reply × Store
  handle_message (handshake (init noise_message sender)) s =
      let (r, s') = handle_handshake prim snow c me w sender noise_message s in (answer_of r, s')
  handle_message (handshake (response _)) s = (no_reply, s)
  handle_message (envelope env) s =
      let (r, s') = handle_encrypted_message prim c me w env.sender env s in (ack_of r, s')

  -- `none` is a frame that is too long or does not parse.
  unfoldable pub accept : ℕ → Option DmMessage → Store → Reply × Store
  accept remote_str frame s =
      if is_blocked_remote w remote_str s
      then (rejected, s)
      else elim frame [ none ↦ (failed, s) | some msg ↦ handle_message msg s ]
