-- ===== src/Dm/Outbox/Flush.antt =====
-- dm/delivery.rs: what a flush takes out of the outbox, and what is left after many.
use proscenium.Common.{
  ℕ, ◌≡◌, refl, ap, ap₂, sym, subst, ◌∙◌, ◌≢◌, inl, inr, Bool, true, false, not, ◌||◌, none, some,
  List, [], ◌∷◌, ◌++◌, arith, if◌then◌else◌, All, Bool-cases, Option-cases, ==_ne, ==_refl,
  append_assoc,
}
use proscenium.Dm.{
  Store, Env, Crates, OutboxEntry, PeerIdentity, AppError, ok, err,
  get_all_outbox_messages as q_outbox, remove_outbox_message as q_remove_outbox,
}
use proscenium.Dm.Storage.{get_all_outbox_messages, remove_outbox_message, without}
use proscenium.Dm.Outbox.{
  try_send_envelope, mark_delivered, flush_entry, flush_entries, flush_all_outbox, flush_rounds,
}
use proscenium.Dm.Outbox.Sending.{answers, Ends, marked, try_send_envelope-Ends, mark_delivered_lem}
use proscenium.Dm.Delivery.{Works}

-- The row holds an envelope, and the peer's node takes it.
abbrev pub reached : Crates → Env → List (ℕ × PeerIdentity) → OutboxEntry → Bool
reached c w peers e = elim (c.envelope_from_json e.envelope_json) [
  | none ↦ false
  | some env ↦ answers c w peers e.peer_pubkey env
]

abbrev pub keep_if : (OutboxEntry → Bool) → List OutboxEntry → List OutboxEntry
keep_if p [] = []
keep_if p (e ∷ es) = if p e then e ∷ keep_if p es else keep_if p es

-- The ids of the rows, a primary key, differ.
abbrev pub IsUnique : List OutboxEntry → Type 0
IsUnique [] = Unit
IsUnique (e ∷ es) = All (λ x. x.id ≢ e.id) es × IsUnique es

without-absent : (id : ℕ) (es : List OutboxEntry) → All (λ x. x.id ≢ id) es → without id es ≡ es
without-absent id [] h = refl
without-absent id (e ∷ es) h = rw (==_ne e.id id h.0) (ap (◌∷◌ e) (without-absent id es h.1))

without-middle :
    (e : OutboxEntry) (kept es : List OutboxEntry)
    → All (λ x. x.id ≢ e.id) kept
    → All (λ x. x.id ≢ e.id) es
    → without e.id (kept ++ (e ∷ es)) ≡ kept ++ es
without-middle e [] es h k = rw (==_refl e.id) (without-absent e.id es k)
without-middle e (x ∷ kept) es h k =
    rw (==_ne x.id e.id h.0) (ap (◌∷◌ x) (without-middle e kept es h.1 k))

-- No row of the one list has an id of the other.
abbrev Apart : List OutboxEntry → List OutboxEntry → Type 0
Apart kept [] = Unit
Apart kept (e ∷ es) = All (λ x. x.id ≢ e.id) kept × Apart kept es

Apart-nil : (es : List OutboxEntry) → Apart [] es
Apart-nil [] = tt
Apart-nil (e ∷ es) = (tt, Apart-nil es)

All-append_one :
    (id : ℕ) (kept : List OutboxEntry) (e : OutboxEntry)
    → All (λ x. x.id ≢ id) kept
    → e.id ≢ id
    → All (λ x. x.id ≢ id) (kept ++ (e ∷ []))
All-append_one id [] e h k = (k, tt)
All-append_one id (x ∷ kept) e h k = (h.0, All-append_one id kept e h.1 k)

Apart-append :
    (kept : List OutboxEntry) (e : OutboxEntry) (es : List OutboxEntry)
    → Apart kept es
    → All (λ x. x.id ≢ e.id) es
    → Apart (kept ++ (e ∷ [])) es
Apart-append kept e [] a h = tt
Apart-append kept e (x ∷ es) a h =
    (All-append_one x.id kept e a.0 (λ q. h.0 (sym q)), Apart-append kept e es a.1 h.1)

keep_if-All :
    (P : OutboxEntry → Type 0) (p : OutboxEntry → Bool) (es : List OutboxEntry)
    → All P es
    → All P (keep_if p es)
keep_if-All P p [] h = tt
keep_if-All P p (e ∷ es) h = elim (Bool-cases (p e)) [
  | inl stays ↦ rw stays (h.0, keep_if-All P p es h.1)
  | inr goes ↦ rw goes (keep_if-All P p es h.1)
]

keep_if-IsUnique :
    (p : OutboxEntry → Bool) (es : List OutboxEntry) → IsUnique es → IsUnique (keep_if p es)
keep_if-IsUnique p [] h = tt
keep_if-IsUnique p (e ∷ es) h = elim (Bool-cases (p e)) [
  | inl stays ↦ rw stays (keep_if-All (λ x. x.id ≢ e.id) p es h.0, keep_if-IsUnique p es h.1)
  | inr goes ↦ rw goes (keep_if-IsUnique p es h.1)
]

module _ (c : Crates) (w : Env) (works : Works w) where
  -- What one row does to the store.
  abbrev pub handled : OutboxEntry → Store → Store
  handled e s =
      if reached c w s.peer_delegations e
      then marked e.message_id (record s { outbox = without e.id s.outbox })
      else s

  removed :
      (id : ℕ) (s : Store)
      → (remove_outbox_message w id s).1 ≡ record s { outbox = without id s.outbox }
  unfolding remove_outbox_message
  removed id s = ground (arith, works.queries (q_remove_outbox id))

  flush_entry_lem : (e : OutboxEntry) (s : Store) → flush_entry c w e s ≡ handled e s
  unfolding flush_entry
  flush_entry_lem e s = elim (Option-cases (c.envelope_from_json e.envelope_json)) [
    | inl broken ↦ simp (broken, flush_entry, reached) refl
    | inr (env, parsed) ↦
        let ends = try_send_envelope-Ends c w works e.peer_pubkey env s in
        elim (Bool-cases (answers c w s.peer_delegations e.peer_pubkey env)) [
          | inl taken ↦
              let sent : try_send_envelope c w e.peer_pubkey env s ≡ (ok tt, s) =
                subst (λ b. Ends b (try_send_envelope c w e.peer_pubkey env s) s) taken ends in
              simp (parsed, sent, taken, flush_entry, reached)
                (ap (mark_delivered c w e.message_id) (removed e.id s)
                  ∙ mark_delivered_lem c w works e.message_id
                      (record s { outbox = without e.id s.outbox }))
          | inr missed ↦
              let (x, failed) : (x : AppError) × (try_send_envelope c w e.peer_pubkey env s
                    ≡ (err x, s)) =
                subst (λ b. Ends b (try_send_envelope c w e.peer_pubkey env s) s) missed ends in
              simp (parsed, failed, missed, flush_entry, reached) refl
        ]
  ]

  flush_entries_lem :
      (es kept : List OutboxEntry) (s : Store)
      → s.outbox ≡ kept ++ es
      → Apart kept es
      → IsUnique es
      → let out = flush_entries c w es s in
        (out.outbox ≡ kept ++ keep_if (λ e. not (reached c w s.peer_delegations e)) es)
        × (out.peer_delegations ≡ s.peer_delegations)
  unfolding flush_entries
  flush_entries_lem [] kept s e a u = (e, refl)
  flush_entries_lem (x ∷ es) kept s e a u = elim (Bool-cases (reached c w s.peer_delegations x)) [
    | inl hit ↦
        let s' = marked x.message_id (record s { outbox = without x.id s.outbox }) in
        let step : flush_entry c w x s ≡ s' =
          flush_entry_lem x s ∙ ap (λ b. if b then s' else s) hit in
        let rest =
          flush_entries_lem es kept s' (ap (without x.id) e ∙ without-middle x kept es a.0 u.0) a.1
            u.1 in
        simp (step, hit, flush_entries, keep_if) rest
    | inr miss ↦
        let step : flush_entry c w x s ≡ s =
          flush_entry_lem x s
          ∙ ap
              (λ b.
                if b then marked x.message_id (record s { outbox = without x.id s.outbox }) else s)
              miss in
        let rest =
          flush_entries_lem es (kept ++ (x ∷ [])) s (e ∙ sym (append_assoc kept (x ∷ []) es))
            (Apart-append kept x es a.1 u.0) u.1 in
        simp (step, miss, flush_entries, keep_if)
          (
            rest.0
                ∙ append_assoc kept (x ∷ [])
                    (keep_if (λ e'. not (reached c w s.peer_delegations e')) es),
            rest.1,
          )
  ]

  -- A flush takes out the rows whose peer takes the envelope, and leaves the others in order.
  flush_all_outbox_lem :
      (s : Store)
      → IsUnique s.outbox
      → let out = flush_all_outbox c w s in
        (out.outbox ≡ keep_if (λ e. not (reached c w s.peer_delegations e)) s.outbox)
        × (out.peer_delegations ≡ s.peer_delegations)
  unfolding flush_all_outbox get_all_outbox_messages
  flush_all_outbox_lem s u =
      simp (works.queries q_outbox, flush_all_outbox, get_all_outbox_messages)
        (flush_entries_lem s.outbox [] s refl (Apart-nil s.outbox) u)

-- Some round reached the peer.
abbrev pub reached_in : Crates → List Env → List (ℕ × PeerIdentity) → OutboxEntry → Bool
reached_in c [] peers e = false
reached_in c (w ∷ ws) peers e = reached c w peers e || reached_in c ws peers e

keep_if-keep_if :
    (c : Crates) (w : Env) (ws : List Env) (peers : List (ℕ × PeerIdentity)) (es : List OutboxEntry)
    → keep_if (λ e. not (reached_in c ws peers e)) (keep_if (λ e. not (reached c w peers e)) es)
      ≡ keep_if (λ e. not (reached_in c (w ∷ ws) peers e)) es
keep_if-keep_if c w ws peers [] = refl
keep_if-keep_if c w ws peers (e ∷ es) = elim (Bool-cases (reached c w peers e)) [
  | inl hit ↦ simp (hit, keep_if, reached_in) (keep_if-keep_if c w ws peers es)
  | inr miss ↦ elim (Bool-cases (reached_in c ws peers e)) [
    | inl later ↦ simp (miss, later, keep_if, reached_in) (keep_if-keep_if c w ws peers es)
    | inr never ↦
        simp (miss, never, keep_if, reached_in) (ap (◌∷◌ e) (keep_if-keep_if c w ws peers es))
  ]
]

keep_all : (es : List OutboxEntry) → keep_if (λ e. true) es ≡ es
keep_all [] = refl
keep_all (e ∷ es) = ap (◌∷◌ e) (keep_all es)

-- Suppose the rows of the outbox have different ids, and no statement on the database fails in
-- any of a number of rounds of the flush loop. Then the rows that are left, in their order, are
-- exactly those whose peer took the envelope in none of the rounds. In particular a row is gone
-- once its peer can be reached in one round.
pub flush_rounds_lem :
    (c : Crates) (ws : List Env) (s : Store)
    → All Works ws
    → IsUnique s.outbox
    → (flush_rounds c ws s).outbox
      ≡ keep_if (λ e. not (reached_in c ws s.peer_delegations e)) s.outbox
unfolding flush_rounds
flush_rounds_lem c [] s h u = sym (keep_all s.outbox)
flush_rounds_lem c (w ∷ ws) s h u =
    let s₀ : Store = record s { outbox_notified = false } in
    let s₁ = flush_all_outbox c w s₀ in
    let (left, same) = flush_all_outbox_lem c w h.0 s₀ u in
    let later =
      flush_rounds_lem c ws s₁ h.1 (subst IsUnique (sym left) (keep_if-IsUnique _ s.outbox u)) in
    later
    ∙ ap₂ (λ ps es. keep_if (λ e. not (reached_in c ws ps e)) es) same left
    ∙ keep_if-keep_if c w ws s.peer_delegations s.outbox
