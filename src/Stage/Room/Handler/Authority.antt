-- ===== src/Stage/Room/Handler/Authority.antt =====
-- Who may do what in a room, by stage/control_handler.rs.
use proscenium.Common.{
  ℕ, ◌≡◌, refl, ◌⊎◌, inl, inr, Bool, true, false, ◌&&◌, Option, none, some, List, [], ◌∷◌, ◌==◌,
  if◌then◌else◌, arith, Bool-cases, Option-cases,
}
use proscenium.Stage.Topology.{TopologyManager}
use proscenium.Stage.Room.{
  StageRole, Participant, StageControl, announce, end_room, presence, relay_volunteer,
  relay_assignment, raise_hand, lower_hand, promote_speaker, demote_speaker, mute_speaker,
  self_mute_toggle, kick, ban, reaction, chat, SignedStageControl, ActiveStage, StageEvent, kicked,
  ended, emit, shut_down, Outcome, Platform, Identity, is_host_role, is_moderator,
}
use proscenium.Stage.Room.Handler.{
  on_presence, on_end, leave, on_raise_hand, on_lower_hand, set_role, on_promote_speaker,
  on_demote_speaker, on_mute_speaker, on_self_mute_toggle, on_kick, on_ban, on_relay_assignment,
  on_relay_volunteer, on_control, handle_control, elem,
}

-- Messages that only a moderator or the host may send.
abbrev pub needs_moderator : StageControl → Bool
needs_moderator (promote_speaker _ _) = true
needs_moderator (demote_speaker _ _) = true
needs_moderator (mute_speaker _ _) = true
needs_moderator (kick _ _) = true
needs_moderator (end_room _) = true
needs_moderator (relay_assignment _ _ _ _) = true
needs_moderator (ban _ _) = true
needs_moderator _ = false

-- Messages that end the session of the node that gets them.
abbrev pub ends_session : ActiveStage → ℕ → StageControl → Bool
ends_session s sender (end_room _) = sender == s.host_pubkey
ends_session s sender (kick _ pubkey) = is_moderator s sender && (pubkey == s.my_pubkey)
ends_session s sender (ban _ pubkey) = (sender == s.host_pubkey) && (pubkey == s.my_pubkey)
ends_session s sender _ = false

-- What a session keeps for its whole life.
pub record SameSession (s t : ActiveStage) : Type 0 where
  pub stage_id : t.stage_id ≡ s.stage_id
  pub host_pubkey : t.host_pubkey ≡ s.host_pubkey
  pub my_pubkey : t.my_pubkey ≡ s.my_pubkey
  pub host_node_id : t.host_node_id ≡ s.host_node_id
  pub ticket : t.ticket ≡ s.ticket
  pub self_muted : t.self_muted ≡ s.self_muted

abbrev pub GoesOn : ActiveStage → Option ActiveStage → Type 0
GoesOn s active = (t : ActiveStage) × (active ≡ some t) × SameSession s t

-- A handler that changes only what a session does not keep.
kept :
    (s : ActiveStage) {role : StageRole} {ps : List (ℕ × Participant)} {t : Option TopologyManager}
    {upstream : Option ℕ} {listening mixing : Bool} {banned : List ℕ}
    → GoesOn s (
        some (record s {
          my_role = role;
          participants = ps;
          topology = t;
          listener_upstream_id = upstream;
          has_listener_pipeline = listening;
          has_speaker_mixer = mixing;
          banned_node_ids = banned;
        }))
kept s = (
  _,
  refl,
  record {
    stage_id = refl;
    host_pubkey = refl;
    my_pubkey = refl;
    host_node_id = refl;
    ticket = refl;
    self_muted = refl;
  },
)

abbrev pub HasLeft : Outcome → Type 0
HasLeft out = (e : StageEvent) × (out ≡ (none, shut_down ∷ emit e ∷ []))

-- A guard that fails leaves the session alone.
guarded-GoesOn :
    (s : ActiveStage) (b : Bool) (out : Outcome)
    → GoesOn s out.0
    → GoesOn s (if b then out else (some s, [])).0
guarded-GoesOn s true out g = g
guarded-GoesOn s false out g = kept s

abbrev Removes : ActiveStage → Bool → Outcome → Type 0
Removes s gone out = ((gone ≡ true) × HasLeft out) ⊎ ((gone ≡ false) × GoesOn s out.0)

-- A removal that is allowed ends the session exactly if it names this node.
removal-Removes :
    (s : ActiveStage) (allowed me : Bool) (e : StageEvent) (out : Outcome)
    → GoesOn s out.0
    → Removes s (allowed && me) (if allowed then (if me then leave e else out) else (some s, []))
unfolding leave
removal-Removes s true true e out g = inl (refl, (e, refl))
removal-Removes s true false e out g = inr (refl, g)
removal-Removes s false me e out g = inr (refl, kept s)

module _ (c : Platform) (identity : Identity) (now : ℕ) where
  on_control_refused :
      (sender : ℕ) (control : StageControl) (s : ActiveStage)
      → needs_moderator control ≡ true
      → is_moderator s sender ≡ false
      → on_control c identity now sender control s ≡ (some s, [])
  unfolding on_control is_moderator
  on_control_refused sender (end_room _) s n m = ground arith
  on_control_refused sender (promote_speaker _ _) s n m = ground arith
  on_control_refused sender (demote_speaker _ _) s n m = ground arith
  on_control_refused sender (mute_speaker _ _) s n m = ground arith
  on_control_refused sender (kick _ _) s n m = ground arith
  on_control_refused sender (ban _ _) s n m = ground arith
  on_control_refused sender (relay_assignment _ _ _ _) s n m = ground arith
  on_control_refused sender (announce _ _ _ _) s n m = ground arith
  on_control_refused sender (presence _ _ _ _ _) s n m = ground arith
  on_control_refused sender (relay_volunteer _ _ _ _) s n m = ground arith
  on_control_refused sender (raise_hand _ _) s n m = ground arith
  on_control_refused sender (lower_hand _ _) s n m = ground arith
  on_control_refused sender (self_mute_toggle _ _ _) s n m = ground arith
  on_control_refused sender (reaction _ _ _) s n m = ground arith
  on_control_refused sender (chat _ _ _) s n m = ground arith

  -- A promotion, demotion, mute, kick, ban, end of the room or relay assignment from a sender
  -- that is neither the host nor a co-host changes nothing and has no effect.
  pub unauthorised_ignored :
      (signed : SignedStageControl) (s : ActiveStage)
      → needs_moderator signed.control ≡ true
      → is_moderator s signed.sender_pubkey ≡ false
      → handle_control c identity now signed (some s) ≡ (some s, [])
  unfolding handle_control
  unauthorised_ignored signed s n m = on_control_refused signed.sender_pubkey signed.control s n m

  abbrev Fate : ActiveStage → ℕ → StageControl → Outcome → Type 0
  Fate s sender control out =
      ((ends_session s sender control ≡ true) × HasLeft out)
      ⊎ ((ends_session s sender control ≡ false) × GoesOn s out.0)

  on_promote_speaker-GoesOn :
      (pubkey : ℕ) (s : ActiveStage) → GoesOn s (on_promote_speaker pubkey s).0
  unfolding on_promote_speaker set_role
  on_promote_speaker-GoesOn pubkey s = elim (Bool-cases (pubkey == s.my_pubkey)) [
    | inl me ↦ rw (me, on_promote_speaker) (kept s)
    | inr other ↦ rw (other, on_promote_speaker) (kept s)
  ]

  on_demote_speaker-GoesOn :
      (pubkey : ℕ) (s : ActiveStage) → GoesOn s (on_demote_speaker pubkey s).0
  unfolding on_demote_speaker set_role
  on_demote_speaker-GoesOn pubkey s = elim (Bool-cases (pubkey == s.my_pubkey)) [
    | inl me ↦ rw (me, on_demote_speaker) (kept s)
    | inr other ↦ rw (other, on_demote_speaker) (kept s)
  ]

  on_relay_assignment-GoesOn :
      (relay : ℕ) (pks : List ℕ) (s : ActiveStage) → GoesOn s (on_relay_assignment relay pks s).0
  unfolding on_relay_assignment
  on_relay_assignment-GoesOn relay pks s = elim (Bool-cases (elem s.my_pubkey pks)) [
    | inl me ↦ rw (me, on_relay_assignment) (kept s)
    | inr other ↦ rw (other, on_relay_assignment) (kept s)
  ]

  on_relay_volunteer-GoesOn :
      (rp relay capacity : ℕ) (s : ActiveStage)
      → GoesOn s (on_relay_volunteer c identity now rp relay capacity s).0
  unfolding on_relay_volunteer
  on_relay_volunteer-GoesOn rp relay capacity s = elim (Bool-cases (is_host_role s.my_role)) [
    | inr guest ↦ rw (guest, on_relay_volunteer) (kept s)
    | inl hosting ↦ elim (Option-cases s.topology) [
      | inl absent ↦ simp (hosting, absent, on_relay_volunteer) (kept s)
      | inr (t, present) ↦ simp (hosting, present, on_relay_volunteer) (kept s)
    ]
  ]

  on_control-Fate :
      (sender : ℕ) (control : StageControl) (s : ActiveStage)
      → Fate s sender control (on_control c identity now sender control s)
  unfolding on_control on_end leave on_kick on_ban on_presence on_raise_hand on_lower_hand
      on_mute_speaker on_self_mute_toggle
  on_control-Fate sender (end_room _) s = elim (Bool-cases (sender == s.host_pubkey)) [
    | inl h ↦ inl (h, (ended s.stage_id, rw (h, on_end) refl))
    | inr n ↦ inr (n, rw n (kept s))
  ]
  on_control-Fate sender (promote_speaker _ pubkey) s =
      inr (refl, guarded-GoesOn s _ _ (on_promote_speaker-GoesOn pubkey s))
  on_control-Fate sender (demote_speaker _ pubkey) s =
      inr (refl, guarded-GoesOn s _ _ (on_demote_speaker-GoesOn pubkey s))
  on_control-Fate sender (mute_speaker _ _) s = inr (refl, guarded-GoesOn s _ _ (kept s))
  on_control-Fate sender (kick _ pubkey) s =
      removal-Removes s (is_moderator s sender) (pubkey == s.my_pubkey) kicked _ (kept s)
  on_control-Fate sender (ban _ pubkey) s =
      removal-Removes s (sender == s.host_pubkey) (pubkey == s.my_pubkey) kicked _ (kept s)
  on_control-Fate sender (relay_assignment _ _ relay pks) s =
      inr (refl, guarded-GoesOn s _ _ (on_relay_assignment-GoesOn relay pks s))
  on_control-Fate sender (announce _ _ _ _) s = inr (refl, kept s)
  on_control-Fate sender (presence _ pk r t n) s = inr (refl, kept s)
  on_control-Fate sender (relay_volunteer _ rp relay capacity) s =
      inr (refl, on_relay_volunteer-GoesOn rp relay capacity s)
  on_control-Fate sender (raise_hand _ _) s = inr (refl, kept s)
  on_control-Fate sender (lower_hand _ _) s = inr (refl, kept s)
  on_control-Fate sender (self_mute_toggle _ _ _) s = inr (refl, kept s)
  on_control-Fate sender (reaction _ _ _) s = inr (refl, kept s)
  on_control-Fate sender (chat _ _ _) s = inr (refl, kept s)

  -- A received message ends the session, with its tasks shut down and one event, exactly when it
  -- is the end of the room from the host, a kick of this node from a moderator, or a ban of this
  -- node from the host. After any other message the session goes on with the same room, host, own
  -- key, host node, ticket and own mute state.
  pub handle_control_lem :
      (signed : SignedStageControl) (s : ActiveStage)
      → let out = handle_control c identity now signed (some s) in
        ((ends_session s signed.sender_pubkey signed.control ≡ true)
          × ((e : StageEvent) × (out ≡ (none, shut_down ∷ emit e ∷ []))))
        ⊎ ((ends_session s signed.sender_pubkey signed.control ≡ false)
            × ((t : ActiveStage) × (out.0 ≡ some t) × SameSession s t))
  unfolding handle_control
  handle_control_lem signed s = on_control-Fate signed.sender_pubkey signed.control s
