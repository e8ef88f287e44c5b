-- ===== src/Stage/Room/Handler/Soundness.antt =====
-- The invariant of a session, and that a received message keeps it.
use proscenium.Common.{
  ℕ, ◌≡◌, refl, ap, subst, inl, inr, Bool, true, false, Option, none, some, List, [], ◌==◌,
  if◌then◌else◌, arith, Bool-cases,
}
use proscenium.Stage.Topology.{TopologyManager}
use proscenium.Stage.Topology.Capacity.{IsValid}
use proscenium.Stage.Room.{
  SignedStageControl, StageRole, speaker, listener, StageControl, announce, end_room, presence,
  relay_volunteer, relay_assignment, raise_hand, lower_hand, promote_speaker, demote_speaker,
  mute_speaker, self_mute_toggle, kick, ban, reaction, chat, Participant, ActiveStage, Outcome,
  Platform, Identity, is_host_role, is_moderator,
}
use proscenium.Stage.Room.Handler.{
  on_presence, on_end, leave, on_raise_hand, on_lower_hand, set_role, on_promote_speaker,
  on_demote_speaker, on_mute_speaker, on_self_mute_toggle, on_kick, on_ban, on_relay_assignment,
  on_relay_volunteer, on_control, handle_control, elem,
}
use proscenium.Stage.Room.Handler.Participants.{
  Keyed, update-Keyed, insert-Keyed, remove-Keyed, lookup-Keyed,
}
use proscenium.Stage.Room.Handler.Relays.{on_relay_volunteer_lem}

abbrev pub BooksValid : Option TopologyManager → Type 0
BooksValid none = Unit
BooksValid (some t) = IsValid t

-- Participants stand under their keys, the books are valid, and a host has books.
pub record IsSound (s : ActiveStage) : Type 0 where
  pub keyed : Keyed s.participants
  pub books : BooksValid s.topology
  pub hosting : is_host_role s.my_role ≡ true → (t : TopologyManager) × (s.topology ≡ some t)

abbrev pub SessionSound : Option ActiveStage → Type 0
SessionSound none = Unit
SessionSound (some s) = IsSound s

-- A handler that changes the participants, and no role of this node to host.
pub new_participants-IsSound :
    (s : ActiveStage) (role : StageRole) (ps : List (ℕ × Participant)) {muted relay : Bool}
    {upstream : Option ℕ} {listening mixing : Bool} {banned : List ℕ}
    → IsSound s
    → Keyed ps
    → (is_host_role role ≡ true → is_host_role s.my_role ≡ true)
    → IsSound (record s {
      my_role = role;
      participants = ps;
      self_muted = muted;
      is_relay = relay;
      listener_upstream_id = upstream;
      has_listener_pipeline = listening;
      has_speaker_mixer = mixing;
      banned_node_ids = banned;
    })
new_participants-IsSound s role ps v keyed host = record {
  keyed = keyed;
  books = v.books;
  hosting = λ h. v.hosting (host h);
}

pub set_role-Keyed :
    (pubkey : ℕ) (role : StageRole) (s : ActiveStage)
    → IsSound s
    → Keyed (set_role pubkey role s).participants
unfolding set_role
set_role-Keyed pubkey role s v =
    update-Keyed pubkey (λ p. record p { role = role }) s.participants (λ p. refl) v.keyed

on_promote_speaker-IsSound :
    (pubkey : ℕ) (s : ActiveStage) → IsSound s → SessionSound (on_promote_speaker pubkey s).0
unfolding on_promote_speaker set_role
on_promote_speaker-IsSound pubkey s v =
    let keyed = set_role-Keyed pubkey speaker s v in
    elim (Bool-cases (pubkey == s.my_pubkey)) [
      | inl me ↦
          rw (me, on_promote_speaker)
            (new_participants-IsSound s speaker _ v keyed (λ h. ground arith))
      | inr other ↦
          rw (other, on_promote_speaker) (new_participants-IsSound s s.my_role _ v keyed (λ h. h))
    ]

on_demote_speaker-IsSound :
    (pubkey : ℕ) (s : ActiveStage) → IsSound s → SessionSound (on_demote_speaker pubkey s).0
unfolding on_demote_speaker set_role
on_demote_speaker-IsSound pubkey s v =
    let keyed = set_role-Keyed pubkey listener s v in
    elim (Bool-cases (pubkey == s.my_pubkey)) [
      | inl me ↦
          rw (me, on_demote_speaker)
            (new_participants-IsSound s listener _ v keyed (λ h. ground arith))
      | inr other ↦
          rw (other, on_demote_speaker) (new_participants-IsSound s s.my_role _ v keyed (λ h. h))
    ]

-- A guard that fails, or a removal that names this node.
guarded-SessionSound :
    (s : ActiveStage) (b : Bool) (out : Outcome)
    → IsSound s
    → SessionSound out.0
    → SessionSound (if b then out else (some s, [])).0
guarded-SessionSound s true out v g = g
guarded-SessionSound s false out v g = v

removal-SessionSound :
    (me : Bool) (gone out : Outcome)
    → gone.0 ≡ none
    → SessionSound out.0
    → SessionSound (if me then gone else out).0
removal-SessionSound true gone out e g = rw e tt
removal-SessionSound false gone out e g = g

module _ (c : Platform) (identity : Identity) (now : ℕ) where
  on_relay_volunteer-IsSound :
      (rp relay capacity : ℕ) (s : ActiveStage)
      → IsSound s
      → SessionSound (on_relay_volunteer c identity now rp relay capacity s).0
  unfolding on_relay_volunteer
  on_relay_volunteer-IsSound rp relay capacity s v = elim (Bool-cases (is_host_role s.my_role)) [
    | inr guest ↦ rw (guest, on_relay_volunteer) v
    | inl hosting ↦
        let (t, here) = v.hosting hosting in
        let (ls, t', result, valid, _, _) =
          on_relay_volunteer_lem c identity now rp relay capacity s t hosting here
            (subst BooksValid here v.books) v.keyed in
        rw (ap (λ out. out.0) result)
          (record { keyed = v.keyed; books = valid; hosting = λ h. (t', refl) })
  ]

  pub on_control-IsSound :
      (sender : ℕ) (control : StageControl) (s : ActiveStage)
      → IsSound s
      → SessionSound (on_control c identity now sender control s).0
  unfolding on_control on_end leave on_kick on_ban on_presence on_raise_hand on_lower_hand
      on_mute_speaker on_self_mute_toggle on_relay_assignment
  on_control-IsSound sender (end_room _) s v =
      guarded-SessionSound s (sender == s.host_pubkey) _ v tt
  on_control-IsSound sender (promote_speaker _ pubkey) s v =
      guarded-SessionSound s (is_moderator s sender) _ v (on_promote_speaker-IsSound pubkey s v)
  on_control-IsSound sender (demote_speaker _ pubkey) s v =
      guarded-SessionSound s (is_moderator s sender) _ v (on_demote_speaker-IsSound pubkey s v)
  on_control-IsSound sender (mute_speaker _ pubkey) s v =
      guarded-SessionSound s (is_moderator s sender) _ v (
        new_participants-IsSound s s.my_role _ v
          (update-Keyed pubkey (λ p. record p { host_muted = true }) s.participants (λ p. refl)
            v.keyed)
          (λ h. h))
  on_control-IsSound sender (kick _ pubkey) s v =
      guarded-SessionSound s (is_moderator s sender) _ v (
        removal-SessionSound (pubkey == s.my_pubkey) _ _ refl (
          new_participants-IsSound s s.my_role _ v (remove-Keyed pubkey s.participants v.keyed)
            (λ h. h)))
  on_control-IsSound sender (ban _ pubkey) s v =
      guarded-SessionSound s (sender == s.host_pubkey) _ v (
        removal-SessionSound (pubkey == s.my_pubkey) _ _ refl (
          new_participants-IsSound s s.my_role _ v (remove-Keyed pubkey s.participants v.keyed)
            (λ h. h)))
  on_control-IsSound sender (relay_assignment _ _ relay pks) s v =
      guarded-SessionSound s (sender == s.host_pubkey) _ v (
        guarded-SessionSound s (elem s.my_pubkey pks) _ v
          (new_participants-IsSound s s.my_role _ v v.keyed (λ h. h)))
  on_control-IsSound sender (announce _ _ _ _) s v = v
  on_control-IsSound sender (presence _ pk r t n) s v =
      new_participants-IsSound s s.my_role _ v
        (insert-Keyed pk _ s.participants (lookup-Keyed pk _ s.participants v.keyed refl) v.keyed)
        (λ h. h)
  on_control-IsSound sender (relay_volunteer _ rp relay capacity) s v =
      on_relay_volunteer-IsSound rp relay capacity s v
  on_control-IsSound sender (raise_hand _ pubkey) s v =
      new_participants-IsSound s s.my_role _ v
        (update-Keyed pubkey (λ p. record p { hand_raised = true }) s.participants (λ p. refl)
          v.keyed)
        (λ h. h)
  on_control-IsSound sender (lower_hand _ pubkey) s v =
      new_participants-IsSound s s.my_role _ v
        (update-Keyed pubkey (λ p. record p { hand_raised = false }) s.participants (λ p. refl)
          v.keyed)
        (λ h. h)
  on_control-IsSound sender (self_mute_toggle _ pubkey muted) s v =
      new_participants-IsSound s s.my_role _ v
        (update-Keyed pubkey (λ p. record p { self_muted = muted }) s.participants (λ p. refl)
          v.keyed)
        (λ h. h)
  on_control-IsSound sender (reaction _ _ _) s v = v
  on_control-IsSound sender (chat _ _ _) s v = v

  pub handle_control-IsSound :
      (signed : SignedStageControl) (active : Option ActiveStage)
      → SessionSound active
      → SessionSound (handle_control c identity now signed active).0
  unfolding handle_control
  handle_control-IsSound signed none v = tt
  handle_control-IsSound signed (some s) v =
      on_control-IsSound signed.sender_pubkey signed.control s v
