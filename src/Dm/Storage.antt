-- ===== src/Dm/Storage.antt =====
-- The statements of storage/messaging.rs, ratchet.rs and peer_delegations.rs on their tables.
-- A table with a primary key is a map. A transaction is one step.
use proscenium.Common.{
  insert_or_ignore, ℕ, ◌+◌, Bool, true, false, Option, none, some, List, [], ◌∷◌, leb, ltb, ◌==◌,
  if◌then◌else◌, lookup, insert, update, contains_key,
}
use proscenium.Dm.{
  Store, StoredMessage, Conversation, OutboxEntry, PeerIdentity, Crates, Env, Query, ok, err, M,
  storage, get_ratchet_session as q_get_session, save_ratchet_session as q_save_session,
  get_peer_dm_pubkey as q_dm_pubkey, get_peer_transport_node_ids as q_node_ids,
  get_all_outbox_messages as q_outbox, insert_outbox_message as q_insert_outbox,
  receive_dm_message_atomically as q_receive, get_master_pubkey_for_dm_pubkey as q_master,
  remove_outbox_message as q_remove_outbox, mark_dm_delivered as q_mark_delivered,
  mark_dm_read as q_mark_read, get_master_pubkey_for_transport as q_transport,
  is_blocked as q_blocked,
}

-- Two keys in order.
abbrev sorted : ℕ → ℕ → ℕ × ℕ
sorted a b = if leb a b then (a, b) else (b, a)

unfoldable pub conversation_id : Crates → ℕ → ℕ → ℕ
conversation_id c pubkey_a pubkey_b = let (a, b) = sorted pubkey_a pubkey_b in c.sha256_hex a b

abbrev query : {A : Type 0} → Env → Query → M A → M A
query w q m s = if w.fails q then (err storage, s) else m s

abbrev pub find_dm_pubkey : ℕ → List (ℕ × PeerIdentity) → Option ℕ
find_dm_pubkey dm_pubkey [] = none
find_dm_pubkey dm_pubkey ((master_pubkey, p) ∷ ps) =
    if p.dm_pubkey == dm_pubkey then some master_pubkey else find_dm_pubkey dm_pubkey ps

abbrev mem : ℕ → List ℕ → Bool
mem x [] = false
mem x (y ∷ ys) = if y == x then true else mem x ys

abbrev find_transport : ℕ → List (ℕ × PeerIdentity) → Option ℕ
find_transport transport_id [] = none
find_transport transport_id ((master_pubkey, p) ∷ ps) =
    if mem transport_id p.transport_node_ids
    then some master_pubkey
    else find_transport transport_id ps

-- A later row goes behind those with the same time.
abbrev pub insert_by_time : OutboxEntry → List OutboxEntry → List OutboxEntry
insert_by_time e [] = e ∷ []
insert_by_time e (x ∷ xs) =
    if ltb e.created_at x.created_at then e ∷ x ∷ xs else x ∷ insert_by_time e xs

abbrev pub without : ℕ → List OutboxEntry → List OutboxEntry
without id [] = []
without id (x ∷ xs) = if x.id == id then without id xs else x ∷ without id xs

abbrev pub upsert_conversation :
    ℕ → StoredMessage → List ℕ → List (ℕ × Conversation) → List (ℕ × Conversation)
upsert_conversation peer msg preview m =
    if contains_key msg.conversation_id m
    then update msg.conversation_id
        (λ c. record c {
          last_message_at = msg.timestamp;
          last_message_preview = preview;
          unread_count = c.unread_count + 1;
        })
        m
    else insert msg.conversation_id
        (record {
          peer_pubkey = peer;
          last_message_at = msg.timestamp;
          last_message_preview = preview;
          unread_count = 1;
          created_at = msg.timestamp;
        })
        m

module _ (w : Env) where
  unfoldable pub get_ratchet_session : ℕ → M (Option (List ℕ))
  get_ratchet_session peer_pubkey = query w q_get_session (λ s. (
    ok (elim (lookup peer_pubkey s.sessions) [ none ↦ none | some row ↦ some row.state_json ]),
    s,
  ))

  unfoldable pub save_ratchet_session : ℕ → List ℕ → M (Unit {0})
  save_ratchet_session peer_pubkey state = query w q_save_session (λ s. (
    ok tt,
    record s {
      sessions = insert peer_pubkey (record { state_json = state; updated_at = w.now }) s.sessions;
    },
  ))

  -- `none` when the statement fails.
  unfoldable pub get_master_pubkey_for_dm_pubkey : ℕ → Store → Option ℕ
  get_master_pubkey_for_dm_pubkey dm_pubkey s =
      if w.fails q_master then none else find_dm_pubkey dm_pubkey s.peer_delegations

  unfoldable pub get_master_pubkey_for_transport : ℕ → Store → Option ℕ
  get_master_pubkey_for_transport transport_id s =
      if w.fails q_transport then none else find_transport transport_id s.peer_delegations

  -- `is_blocked` of storage/moderation.rs under its caller's `unwrap_or(false)`.
  unfoldable pub is_blocked : ℕ → Store → Bool
  is_blocked pubkey s = if w.fails (q_blocked pubkey) then false else mem pubkey s.blocked

  -- The empty key, 0 here, counts as none.
  unfoldable pub get_peer_dm_pubkey : ℕ → M (Option ℕ)
  get_peer_dm_pubkey master_pubkey = query w q_dm_pubkey (λ s. (
    ok (elim (lookup master_pubkey s.peer_delegations) [
      | none ↦ none
      | some p ↦ if p.dm_pubkey == 0 then none else some p.dm_pubkey
    ]),
    s,
  ))

  unfoldable pub get_peer_transport_node_ids : ℕ → M (List ℕ)
  get_peer_transport_node_ids master_pubkey = query w q_node_ids (λ s. (
    ok (elim (lookup master_pubkey s.peer_delegations) [
      | none ↦ []
      | some p ↦ p.transport_node_ids
    ]),
    s,
  ))

  -- The outbox is kept in the order of `ORDER BY created_at`.
  unfoldable pub get_all_outbox_messages : M (List OutboxEntry)
  get_all_outbox_messages = query w q_outbox (λ s. (ok s.outbox, s))

  unfoldable pub insert_outbox_message : OutboxEntry → M (Unit {0})
  insert_outbox_message e =
      query w q_insert_outbox (λ s. (ok tt, record s { outbox = insert_by_time e s.outbox }))

  unfoldable pub remove_outbox_message : ℕ → M (Unit {0})
  remove_outbox_message id =
      query w (q_remove_outbox id) (λ s. (ok tt, record s { outbox = without id s.outbox }))

  unfoldable pub mark_dm_delivered : ℕ → M (Unit {0})
  mark_dm_delivered id = query w (q_mark_delivered id) (λ s.
      (ok tt, record s { messages = update id (λ m. record m { is_delivered = true }) s.messages }))

  unfoldable pub mark_dm_read_by_id : ℕ → M (Unit {0})
  mark_dm_read_by_id id = query w (q_mark_read id) (λ s.
      (ok tt, record s { messages = update id (λ m. record m { is_read = true }) s.messages }))

  unfoldable pub receive_dm_message_atomically :
      ℕ → ℕ → List ℕ → StoredMessage → List ℕ → M (Unit {0})
  receive_dm_message_atomically peer_dm_pubkey peer_master_pubkey state msg preview =
      query w q_receive (λ s. (
        ok tt,
        record s {
          sessions =
              insert peer_dm_pubkey (record { state_json = state; updated_at = w.now }) s.sessions;
          conversations = upsert_conversation peer_master_pubkey msg preview s.conversations;
          messages = insert_or_ignore msg.id msg s.messages;
        },
      ))
