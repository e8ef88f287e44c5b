-- ===== src/Dm/Outbox/Sending.antt =====
-- dm/delivery.rs: one attempt to send, and what becomes of the message.
use mathlib.Core.Path.{fun_ext}
use proscenium.Common.{
  ℕ, ◌≡◌, refl, ap, subst, inl, inr, Bool, true, false, none, some, List, [], ◌∷◌, ◌++◌, arith,
  if◌then◌else◌, lookup, update, Bool-cases, Option-cases,
}
use proscenium.Crypto.Ratchet.{Primitives}
use proscenium.Crypto.Noise.{Snow}
use proscenium.Dm.{
  Store, Env, Crates, Identity, DirectMessage, EncryptedEnvelope, PeerIdentity, Result, AppError,
  ok, err, and_then, message, dm_delivered, no_transport, bad_transport,
  get_peer_transport_node_ids as q_node_ids, mark_dm_delivered as q_mark_delivered,
  insert_outbox_message as q_insert_outbox,
}
use proscenium.Dm.Storage.{
  get_peer_transport_node_ids, mark_dm_delivered, insert_outbox_message, insert_by_time,
}
use proscenium.Dm.Establish.{first, encrypt_and_save}
use proscenium.Dm.Outbox.{try_send_envelope, mark_delivered, deliver_or_queue, send_dm}
use proscenium.Dm.Delivery.{Works}

-- The first node of the peer takes the envelope and acknowledges it.
abbrev pub answers : Crates → Env → List (ℕ × PeerIdentity) → ℕ → EncryptedEnvelope → Bool
answers c w peers peer env = elim (lookup peer peers) [
  | none ↦ false
  | some p ↦ elim (first p.transport_node_ids) [
    | none ↦ false
    | some node ↦ elim (c.parse_node_id node) [
      | none ↦ false
      | some id ↦ elim (w.exchange id env) [ none ↦ true | some e ↦ false ]
    ]
  ]
]

-- The attempt ends as `answers` says, and leaves the store alone.
abbrev pub Ends : Bool → Result (Unit {0}) × Store → Store → Type 0
Ends true out s = out ≡ (ok tt, s)
Ends false out s = (e : AppError) × (out ≡ (err e, s))

-- The message is marked and the frontend told.
abbrev pub marked : ℕ → Store → Store
marked id s = record s {
  messages = update id (λ m. record m { is_delivered = true }) s.messages;
  events = s.events ++ (dm_delivered id ∷ []);
}

module _ (c : Crates) (w : Env) (works : Works w) where
  pub try_send_envelope-Ends :
      (peer : ℕ) (env : EncryptedEnvelope) (s : Store)
      → Ends (answers c w s.peer_delegations peer env) (try_send_envelope c w peer env s) s
  unfolding try_send_envelope get_peer_transport_node_ids
  try_send_envelope-Ends peer env s = elim (Option-cases (lookup peer s.peer_delegations)) [
    | inl unknown ↦
        simp
          (
            works.queries q_node_ids,
            try_send_envelope,
            get_peer_transport_node_ids,
            answers,
            unknown,
          )
          (no_transport, refl)
    | inr (p, known) ↦ elim (Option-cases (first p.transport_node_ids)) [
      | inl unlisted ↦
          simp
            (
              works.queries q_node_ids,
              try_send_envelope,
              get_peer_transport_node_ids,
              answers,
              known,
              unlisted,
            )
            (no_transport, refl)
      | inr (node, listed) ↦ elim (Option-cases (c.parse_node_id node)) [
        | inl unparsed ↦
            simp
              (
                works.queries q_node_ids,
                try_send_envelope,
                get_peer_transport_node_ids,
                answers,
                known,
                listed,
                unparsed,
              )
              (bad_transport, refl)
        | inr (id, parsed) ↦ elim (Option-cases (w.exchange id env)) [
          | inl done ↦
              simp
                (
                  works.queries q_node_ids,
                  try_send_envelope,
                  get_peer_transport_node_ids,
                  answers,
                  known,
                  listed,
                  parsed,
                  done,
                )
                refl
          | inr (e, failed) ↦
              simp
                (
                  works.queries q_node_ids,
                  try_send_envelope,
                  get_peer_transport_node_ids,
                  answers,
                  known,
                  listed,
                  parsed,
                  failed,
                )
                (e, refl)
        ]
      ]
    ]
  ]

  pub mark_delivered_lem : (id : ℕ) (s : Store) → mark_delivered c w id s ≡ marked id s
  unfolding mark_delivered mark_dm_delivered
  mark_delivered_lem id s = ground (arith, works.queries (q_mark_delivered id))

module _ (prim : Primitives) (snow : Snow) (c : Crates) (me : Identity) (w : Env)
    (works : Works w) where
  -- A row of the outbox for an envelope.
  abbrev pub queued : ℕ → EncryptedEnvelope → ℕ → Store → Store
  queued peer env message_id s = record s {
    outbox =
        insert_by_time
          (record {
            id = w.generated_id;
            peer_pubkey = peer;
            envelope_json = c.envelope_to_json env;
            created_at = w.now;
            message_id = message_id;
          })
          s.outbox;
    outbox_notified = true;
  }

  -- What `send_dm` leaves once there is an envelope.
  abbrev pub sent_or_queued : ℕ → EncryptedEnvelope → DirectMessage → Store → Store
  sent_or_queued peer env msg s =
      if answers c w s.peer_delegations peer env then marked msg.id s else queued peer env msg.id s

  deliver_or_queue_lem :
      (peer : ℕ) (msg : DirectMessage) (env : EncryptedEnvelope) (s : Store)
      → deliver_or_queue prim snow c me w peer msg env s ≡ (ok tt, sent_or_queued peer env msg s)
  unfolding deliver_or_queue insert_outbox_message
  deliver_or_queue_lem peer msg env s =
      let ends = try_send_envelope-Ends c w works peer env s in
      elim (Bool-cases (answers c w s.peer_delegations peer env)) [
        | inl taken ↦
            let sent : try_send_envelope c w peer env s ≡ (ok tt, s) =
              subst (λ b. Ends b (try_send_envelope c w peer env s) s) taken ends in
            simp (sent, taken, deliver_or_queue)
              (ap (λ x. (ok tt, x)) (mark_delivered_lem c w works msg.id s))
        | inr missed ↦
            let (e, failed) : (e : AppError) × (try_send_envelope c w peer env s ≡ (err e, s)) =
              subst (λ b. Ends b (try_send_envelope c w peer env s) s) missed ends in
            simp
              (
                failed,
                missed,
                works.queries q_insert_outbox,
                deliver_or_queue,
                insert_outbox_message,
              )
              refl
      ]

  -- While no statement on the database fails, send_dm fails only as encrypt_and_save does, with
  -- what that left. Otherwise it succeeds: if the first node of the peer takes the envelope the
  -- message is marked as delivered and the frontend told, and if not the same envelope goes into
  -- the outbox under the message, behind what is older, and the flush loop is notified. In both
  -- cases the rest of the store, the advanced session too, is as encrypt_and_save left it.
  pub send_dm_lem :
      (peer : ℕ) (msg : DirectMessage) (s : Store)
      → send_dm prim snow c me w peer msg s
        ≡ and_then
            (encrypt_and_save prim snow c me w peer (message msg) s)
            (λ env s₁. (ok tt, sent_or_queued peer env msg s₁))
  unfolding send_dm
  send_dm_lem peer msg s =
      ap (and_then (encrypt_and_save prim snow c me w peer (message msg) s))
        (fun_ext λ env. fun_ext λ s₁. deliver_or_queue_lem peer msg env s₁)
