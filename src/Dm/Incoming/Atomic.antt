-- ===== src/Dm/Incoming/Atomic.antt =====
-- dm/incoming.rs: nothing is taken from an envelope unless the session advances with it.
use proscenium.Common.{ℕ, ◌≡◌, refl, ◌⊎◌, inl, inr, Bool-cases, Option-cases, List, insert, arith}
use proscenium.Crypto.Ratchet.{Primitives}
use proscenium.Dm.{
  Result-cases, pair, Store, Env, Crates, Identity, DirectMessage, DmPayload, EncryptedEnvelope,
  Result, AppError, ok, err, message, typing, read, delivered, call_offer, call_answer, call_reject,
  call_hangup, M, Event, ◌>>◌, dm_read, dm_delivered, save_ratchet_session,
  receive_dm_message_atomically, mark_dm_delivered, mark_dm_read, no_master_pubkey, panicked,
  storage,
}
use proscenium.Dm.Storage
use proscenium.Dm.Incoming.{
  receive_message, handle_payload, open_envelope, handle_encrypted_message, preview_of, emit,
  send_signal, with_master,
}

module _ (c : Crates) (me : Identity) (w : Env) where
  -- What a run of the handler left: nothing, or the advanced session.
  abbrev pub Advances : ℕ → List ℕ → Store → Result (Unit {0}) × Store → Type 0
  Advances peer sealed s out =
      ((e : AppError) × (out ≡ (err e, s)))
      ⊎ (out.1.sessions
          ≡ insert peer (record { state_json = sealed; updated_at = w.now }) s.sessions)

  receive_message-Advances :
      (peer : ℕ) (sealed : List ℕ) (msg : DirectMessage) (s : Store)
      → Advances peer sealed s (receive_message c me w peer sealed msg s)
  unfolding receive_message Storage.receive_dm_message_atomically
  receive_message-Advances peer sealed msg s =
      elim (Option-cases (Storage.get_master_pubkey_for_dm_pubkey w peer s)) [
        | inl missing ↦ inl (no_master_pubkey, simp (missing, receive_message) refl)
        | inr (master, known) ↦ elim (Option-cases (preview_of msg.content)) [
          | inl panics ↦ inl (panicked, simp (known, panics, receive_message) refl)
          | inr (preview, shown) ↦ elim (Bool-cases (w.fails receive_dm_message_atomically)) [
            | inl fails ↦ inl (storage, simp (known, shown, fails, receive_message) refl)
            | inr works ↦ inr (simp (known, shown, works, receive_message) refl)
          ]
        ]
      ]

  save_then :
      (peer : ℕ) (sealed : List ℕ) (m : M (Unit {0})) (s : Store)
      → ((t : Store) → (m t).1.sessions ≡ t.sessions)
      → Advances peer sealed s ((Storage.save_ratchet_session w peer sealed >> m) s)
  unfolding Storage.save_ratchet_session
  save_then peer sealed m s keeps = elim (Bool-cases (w.fails save_ratchet_session)) [
    | inl fails ↦ inl (storage, rw fails refl)
    | inr works ↦ inr (
        rw works (
          keeps (record s {
            sessions = insert peer (record { state_json = sealed; updated_at = w.now }) s.sessions;
          })))
  ]

  mark_delivered-keeps :
      (id : ℕ) (e : Event) (t : Store)
      → (((Storage.mark_dm_delivered w id) >> emit e) t).1.sessions ≡ t.sessions
  unfolding Storage.mark_dm_delivered
  mark_delivered-keeps id e t = elim (Bool-cases (w.fails (mark_dm_delivered id))) [
    | inl fails ↦ rw fails refl
    | inr works ↦ rw works refl
  ]

  mark_read-keeps :
      (id : ℕ) (e : Event) (t : Store)
      → (((Storage.mark_dm_read_by_id w id) >> emit e) t).1.sessions ≡ t.sessions
  unfolding Storage.mark_dm_read_by_id
  mark_read-keeps id e t = elim (Bool-cases (w.fails (mark_dm_read id))) [
    | inl fails ↦ rw fails refl
    | inr works ↦ rw works refl
  ]

  with_master-keeps :
      (peer : ℕ) (f : ℕ → M (Unit {0}))
      → ((j : ℕ) (t : Store) → (f j t).1.sessions ≡ t.sessions)
      → (t : Store) → (with_master w peer f t).1.sessions ≡ t.sessions
  with_master-keeps peer f keeps t =
      elim (Option-cases (Storage.get_master_pubkey_for_dm_pubkey w peer t)) [
        | inl missing ↦ simp (missing, with_master) refl
        | inr (master, known) ↦ simp (known, with_master) (keeps master t)
      ]

  signal_then :
      (peer : ℕ) (sealed : List ℕ) (payload : DmPayload) (s : Store)
      → Advances peer sealed s (
          (Storage.save_ratchet_session w peer sealed
              >> with_master w peer
                  (λ j. send_signal (record { peer_pubkey = j; payload = payload })))
            s)
  signal_then peer sealed payload s =
      save_then peer sealed _ s (with_master-keeps peer _ (λ j t. refl))

  handle_payload-Advances :
      (peer : ℕ) (sealed : List ℕ) (payload : DmPayload) (s : Store)
      → Advances peer sealed s (handle_payload c me w peer sealed payload s)
  unfolding handle_payload
  handle_payload-Advances peer sealed (message msg) s = receive_message-Advances peer sealed msg s
  handle_payload-Advances peer sealed (delivered id) s =
      save_then peer sealed _ s (mark_delivered-keeps id (dm_delivered id))
  handle_payload-Advances peer sealed (read id) s =
      save_then peer sealed _ s (mark_read-keeps id (dm_read id))
  handle_payload-Advances peer sealed typing s =
      save_then peer sealed _ s (with_master-keeps peer _ (λ j t. refl))
  handle_payload-Advances peer sealed (call_offer id video) s = signal_then peer sealed _ s
  handle_payload-Advances peer sealed (call_answer id) s = signal_then peer sealed _ s
  handle_payload-Advances peer sealed (call_reject id) s = signal_then peer sealed _ s
  handle_payload-Advances peer sealed (call_hangup id) s = signal_then peer sealed _ s

module _ (prim : Primitives) (c : Crates) (me : Identity) (w : Env) where
  open_envelope-keeps :
      (peer : ℕ) (env : EncryptedEnvelope) (s : Store)
      → (open_envelope prim c me w peer env s).1 ≡ s
  unfolding open_envelope Storage.get_ratchet_session
  open_envelope-keeps peer env s = ground arith

  -- Whatever envelope arrives and whichever statements on the database fail, the handler either
  -- fails and leaves the whole store as it was, or the envelope opened to a payload and the
  -- stored session of the sender, and of nobody else, is the advanced one.
  pub handle_encrypted_message-Advances :
      (peer : ℕ) (env : EncryptedEnvelope) (s : Store)
      → let out = handle_encrypted_message prim c me w peer env s in
        ((e : AppError) × (out ≡ (err e, s)))
        ⊎ ((sealed : List ℕ) × (payload : DmPayload) × (open_envelope prim c me w peer env s
              ≡ (ok (sealed, payload), s))
            × (out.1.sessions
                ≡ insert peer (record { state_json = sealed; updated_at = w.now }) s.sessions))
  unfolding handle_encrypted_message
  handle_encrypted_message-Advances peer env s =
      elim (Result-cases (open_envelope prim c me w peer env s).0) [
        | inl (opened, e) ↦
            let all = pair e (open_envelope-keeps peer env s) in
            elim (handle_payload-Advances c me w peer opened.0 opened.1 s) [
              | inl (reason, unchanged) ↦ inl (reason, rw all unchanged)
              | inr saved ↦ inr (opened.0, opened.1, all, rw all saved)
            ]
        | inr (reason, e) ↦ inl (reason, rw (pair e (open_envelope-keeps peer env s)) refl)
      ]
