-- ===== src/Stage/Room/Handler/Lost.antt =====
-- What happens to the messages that stage/moderation.rs sends: they carry the signing key's public
-- key, while stage/control_handler.rs looks participants up by their master public key.
use proscenium.Common.{
  ℕ, ◌≡◌, ◌≢◌, refl, true, false, none, some, List, [], ◌∷◌, ==_ne, ==_refl, arith, lookup, update,
  Option, lookup-update as lookup-update_all,
}
use proscenium.Stage.Room.{
  SignedStageControl, StageControl, end_room, ended, emit, shut_down, stage_id_matches,
  verify_stage_control, raise_hand, demote_speaker, Participant, ActiveStage, Platform, Identity,
  is_host_role, is_moderator, own_message, sign_stage_control, broadcast, hand_raised_event,
}
use proscenium.Stage.Room.Handler.{
  on_raise_hand, on_control, handle_control, on_demote_speaker, set_role, is_accepted, on_end,
  leave,
}
use proscenium.Stage.Room.Moderation.{ok, do_raise_hand, broadcast_control, guarded, require_active}
use proscenium.Stage.Room.Handler.Authority.{unauthorised_ignored, needs_moderator}

pub lookup-update :
    (j k : ℕ) (f : Participant → Participant) (m : List (ℕ × Participant))
    → j ≢ k
    → lookup j (update k f m) ≡ lookup j m
lookup-update j k f [] ne = refl
lookup-update j k f ((i, p) ∷ m) ne = ground (arith, lookup-update j k f m ne)

-- The participant that is there has its hand raised.
abbrev pub raised : Option Participant → Option Participant
raised none = none
raised (some p) = some (record p { hand_raised = true })

module _ (c : Platform) (sender receiver : Identity) (sent received : ℕ) where
  -- Raising a hand always broadcasts one message, from the public key of the sender's signing
  -- key, and emits the own event under the sender's key in the room. A receiver that handles the
  -- message emits the event under the public key of the signing key, raises the hand of the
  -- participant under that key, if there is one, and leaves every other entry alone, so also the
  -- one under the sender's master key when the two keys differ.
  pub raised_hand_elsewhere :
      (j : ℕ) (a s : ActiveStage)
      → j ≢ c.public_of sender.signing_key
      → let k = c.public_of sender.signing_key in
        (m : SignedStageControl) × (t : ActiveStage) × (do_raise_hand c sender sent (some a)
          ≡ (ok tt, some a, broadcast m ∷ emit (hand_raised_event a.my_pubkey) ∷ []))
        × (m.sender_pubkey ≡ k)
        × (handle_control c receiver received m (some s)
            ≡ (some t, emit (hand_raised_event k) ∷ []))
        × (lookup j t.participants ≡ lookup j s.participants)
        × (lookup k t.participants ≡ raised (lookup k s.participants))
  unfolding handle_control on_control on_raise_hand own_message sign_stage_control do_raise_hand
      broadcast_control guarded require_active
  raised_hand_elsewhere j a s ne =
      let k = c.public_of sender.signing_key in
      let raise : Participant → Participant = λ p. record p { hand_raised = true } in
      (
        own_message c sender sent (raise_hand a.stage_id k),
        record s { participants = update k raise s.participants },
        refl,
        refl,
        refl,
        lookup-update j k raise s.participants ne,
        ground (arith, lookup-update_all k k raise s.participants),
      )

  -- A moderation message carries the public key of the sender's signing key. A receiver that has
  -- no participant under that key, and another key for the host, ignores it, whatever role the
  -- sender has.
  pub co_host_ignored :
      (control : StageControl) (s : ActiveStage)
      → needs_moderator control ≡ true
      → lookup (c.public_of sender.signing_key) s.participants ≡ none
      → c.public_of sender.signing_key ≢ s.host_pubkey
      → handle_control c receiver received (own_message c sender sent control) (some s)
        ≡ (some s, [])
  unfolding own_message is_moderator sign_stage_control
  co_host_ignored control s n absent ne =
      unauthorised_ignored c receiver received (own_message c sender sent control) s n
        (ground (arith, absent, ==_ne (c.public_of sender.signing_key) s.host_pubkey ne))

pub demoted-my_role :
    (c : Platform) (identity : Identity) (now stage_id : ℕ) (signed : SignedStageControl)
    (s : ActiveStage)
    → signed.control ≡ demote_speaker stage_id s.my_pubkey
    → is_moderator s signed.sender_pubkey ≡ true
    → (t : ActiveStage) × ((handle_control c identity now signed (some s)).0 ≡ some t)
      × (is_host_role t.my_role ≡ false)
unfolding handle_control on_control on_demote_speaker set_role
demoted-my_role c identity now stage_id signed s e m =
    simp (e, m, ==_refl s.my_pubkey, handle_control, on_control, on_demote_speaker) (_, refl, refl)

-- The end of a room, signed by its host, is let through and obeyed.
pub end_obeyed :
    (c : Platform) (sender receiver : Identity) (sent received stage_id : ℕ) (s : ActiveStage)
    → ((k : ℕ) (m : List ℕ) → c.verify (c.public_of k) m (c.sign k m) ≡ true)
    → s.host_pubkey ≡ c.public_of sender.signing_key
    → let m = own_message c sender sent (end_room stage_id) in
      (is_accepted c stage_id m ≡ true)
      × (handle_control c receiver received m (some s)
          ≡ (none, shut_down ∷ emit (ended s.stage_id) ∷ []))
unfolding is_accepted verify_stage_control sign_stage_control own_message stage_id_matches
    handle_control on_control on_end leave
end_obeyed c sender receiver sent received stage_id s signed e = (
  rw (signed sender.signing_key, ==_refl stage_id) refl,
  rw (e, ==_refl (c.public_of sender.signing_key)) refl,
)
