-- ===== src/Dm/Outbox.antt =====
-- dm/delivery.rs: sending, and the outbox for peers that cannot be reached.
pub mod Sending
pub mod Flush
use proscenium.Common.{ℕ, Bool, Option, none, some, List, [], ◌∷◌, ◌++◌}
use proscenium.Crypto.Ratchet.{Primitives}
use proscenium.Crypto.Noise.{Snow}
use proscenium.Dm.{
  M, Store, Env, Crates, Identity, DirectMessage, DmPayload, EncryptedEnvelope, OutboxEntry, Result,
  AppError, ok, err, message, dm_delivered, ◌>>=◌, ◌>>◌, pure, or_throw, no_transport,
  bad_transport, and_then,
}
use proscenium.Dm.Storage.{
  get_peer_transport_node_ids, get_all_outbox_messages, insert_outbox_message,
  remove_outbox_message, mark_dm_delivered,
}
use proscenium.Dm.Establish.{first, encrypt_and_save}
use proscenium.Dm.Incoming.{emit}

abbrev of_exchange : Option AppError → M (Unit {0})
of_exchange none s = (ok tt, s)
of_exchange (some e) s = (err e, s)

-- A failure is only logged.
abbrev logged : M (Unit {0}) → Store → Store
logged m s = (m s).1

module _ (c : Crates) (w : Env) where
  -- Connecting, writing the envelope and reading the acknowledgement are one exchange.
  unfoldable pub try_send_envelope : ℕ → EncryptedEnvelope → M (Unit {0})
  try_send_envelope peer_master_pubkey env = do
    node_ids ← get_peer_transport_node_ids w peer_master_pubkey
    transport_id_str ← or_throw (first node_ids) no_transport
    transport_id ← or_throw (c.parse_node_id transport_id_str) bad_transport
    of_exchange (w.exchange transport_id env)

  unfoldable pub mark_delivered : ℕ → Store → Store
  mark_delivered message_id s =
      let marking : M (Unit {0}) = do mark_dm_delivered w message_id; emit (dm_delivered message_id)
      in logged marking s

  -- The body of the loop of `flush_all_outbox`.
  unfoldable pub flush_entry : OutboxEntry → Store → Store
  flush_entry e s = elim (c.envelope_from_json e.envelope_json) [
    | none ↦ s
    | some env ↦
        let (sent, s₁) = try_send_envelope e.peer_pubkey env s in
        elim sent [
          | ok _ ↦ mark_delivered e.message_id (logged (remove_outbox_message w e.id) s₁)
          | err _ ↦ s₁
        ]
  ]

  unfoldable pub flush_entries : List OutboxEntry → Store → Store
  flush_entries [] s = s
  flush_entries (e ∷ es) s = flush_entries es (flush_entry e s)

  unfoldable pub flush_all_outbox : Store → Store
  flush_all_outbox s =
      let (found, s₁) = get_all_outbox_messages w s in
      elim found [ ok entries ↦ flush_entries entries s₁ | err _ ↦ s₁ ]

abbrev notify_one : M (Unit {0})
notify_one s = (ok tt, record s { outbox_notified = Bool.true })

module _ (prim : Primitives) (snow : Snow) (c : Crates) (me : Identity) (w : Env) where
  abbrev queue : ℕ → EncryptedEnvelope → ℕ → M (Unit {0})
  queue peer_pubkey env message_id = do
    insert_outbox_message w (record {
      id = w.generated_id;
      peer_pubkey = peer_pubkey;
      envelope_json = c.envelope_to_json env;
      created_at = w.now;
      message_id = message_id;
    })
    notify_one

  -- The `match` of `send_dm` on the attempt to send.
  unfoldable pub deliver_or_queue : ℕ → DirectMessage → EncryptedEnvelope → M (Unit {0})
  deliver_or_queue peer_pubkey msg env s =
      let (sent, s') = try_send_envelope c w peer_pubkey env s in
      elim sent [
        | ok _ ↦ (ok tt, mark_delivered c w msg.id s')
        | err _ ↦ queue peer_pubkey env msg.id s'
      ]

  unfoldable pub send_dm : ℕ → DirectMessage → M (Unit {0})
  send_dm peer_pubkey msg = do
    env ← encrypt_and_save prim snow c me w peer_pubkey (message msg)
    deliver_or_queue peer_pubkey msg env

  unfoldable pub send_signal : ℕ → DmPayload → M (Unit {0})
  send_signal peer_pubkey payload = do
    env ← encrypt_and_save prim snow c me w peer_pubkey payload
    try_send_envelope c w peer_pubkey env

-- The background loop: a flush for each notification or tick.
unfoldable pub flush_rounds : Crates → List Env → Store → Store
flush_rounds c [] s = s
flush_rounds c (w ∷ ws) s =
    flush_rounds c ws (flush_all_outbox c w (record s { outbox_notified = Bool.false }))
