-- ===== src/Stage/Room/Moderation.antt =====
-- src-tauri/src/stage/moderation.rs, and the guards of stage/mod.rs: what the local user does in a
-- room, and the sweep of participants that are gone.
pub mod Sweep
pub mod Soundness
use proscenium.Common.{
  ℕ, ◌-◌, Bool, true, false, not, ◌&&◌, Option, none, some, List, [], ◌∷◌, ltb, ◌==◌, if◌then◌else◌,
  take, insert, remove, update, values,
}
use proscenium.Stage.Room.{
  StageRole, host, co_host, speaker, listener, StageControl, raise_hand, lower_hand,
  promote_speaker, demote_speaker, self_mute_toggle, reaction, chat, relay_volunteer, StageEvent,
  participant_left, role_changed, mute_changed, hand_raised_event, hand_lowered_event,
  reaction_event, chat_event, Participant, ActiveStage, Effect, emit, broadcast,
  start_relay_pipeline, Outcome, Platform, Identity, own_message,
}
use proscenium.Stage.Room.Handler.{set_role}

pub data StageError : Type 0 where
  not_in_stage not_the_host no_upstream relay_failed already_in_stage only_the_host start_failed :
      StageError

pub data Reply (A : Type 0) : Type 0 where
  ok : A → Reply A
  err : StageError → Reply A

-- How long without a heartbeat before a participant is gone, in milliseconds.
abbrev pub presence_expiry : ℕ
presence_expiry = 45000

unfoldable pub require_active : Option ActiveStage → Reply ActiveStage
require_active none = err not_in_stage
require_active (some s) = ok s

abbrev pub may_moderate : StageRole → Bool
may_moderate host = true
may_moderate co_host = true
may_moderate _ = false

unfoldable pub require_host_active : Option ActiveStage → Reply ActiveStage
require_host_active none = err not_in_stage
require_host_active (some s) = if may_moderate s.my_role then ok s else err not_the_host

-- An early return leaves the session alone and has no effect.
unfoldable pub guarded :
    {A : Type 0}
    → Reply ActiveStage
    → Option ActiveStage
    → (ActiveStage → Reply A × Option ActiveStage × List Effect)
    → Reply A × Option ActiveStage × List Effect
guarded (err e) active f = (err e, active, [])
guarded (ok s) active f = f s

-- Keys of the participants that have not been seen since the cutoff, the own one excepted.
abbrev pub expired : ℕ → ℕ → List Participant → List ℕ
expired cutoff me [] = []
expired cutoff me (p ∷ ps) =
    if ltb p.last_seen_ms cutoff && not (p.pubkey == me)
    then p.pubkey ∷ expired cutoff me ps
    else expired cutoff me ps

abbrev pub remove_all : List ℕ → List (ℕ × Participant) → List (ℕ × Participant)
remove_all [] ps = ps
remove_all (k ∷ ks) ps = remove_all ks (remove k ps)

abbrev pub emit_left : List ℕ → List Effect
emit_left [] = []
emit_left (k ∷ ks) = emit (participant_left k) ∷ emit_left ks

pub sweep_presence : ℕ → Option ActiveStage → Outcome
sweep_presence now none = (none, [])
sweep_presence now (some s) =
    let gone = expired (now - presence_expiry) s.my_pubkey (values s.participants) in
    (some (record s { participants = remove_all gone s.participants }), emit_left gone)

module _ (c : Platform) (identity : Identity) (now : ℕ) where
  open c use {public_of}

  -- The key that `broadcast_control` hands to the maker of a message.
  abbrev pub my_key : ℕ
  my_key = public_of identity.signing_key

  unfoldable pub broadcast_control : StageControl → Effect
  broadcast_control control = broadcast (own_message c identity now control)

  unfoldable pub do_raise_hand :
      Option ActiveStage → Reply (Unit {0}) × Option ActiveStage × List Effect
  do_raise_hand active = guarded (require_active active) active (λ s. (
    ok tt,
    some s,
    broadcast_control (raise_hand s.stage_id my_key) ∷ emit (hand_raised_event s.my_pubkey) ∷ [],
  ))

  pub do_lower_hand : Option ActiveStage → Reply (Unit {0}) × Option ActiveStage × List Effect
  do_lower_hand active = guarded (require_active active) active (λ s. (
    ok tt,
    some s,
    broadcast_control (lower_hand s.stage_id my_key) ∷ emit (hand_lowered_event s.my_pubkey) ∷ [],
  ))

  pub toggle_self_mute : Option ActiveStage → Reply Bool × Option ActiveStage × List Effect
  toggle_self_mute active = guarded (require_active active) active (λ s.
      let muted = not s.self_muted in
      (
        ok muted,
        some (record s { self_muted = muted }),
        broadcast_control (self_mute_toggle s.stage_id my_key muted)
            ∷ emit (mute_changed s.my_pubkey muted false)
            ∷ [],
      ))

  -- A reaction is cut to 16 characters.
  pub send_reaction :
      List ℕ → Option ActiveStage → Reply (Unit {0}) × Option ActiveStage × List Effect
  send_reaction emoji active = guarded (require_active active) active (λ s.
      let short = take 16 emoji in
      (
        ok tt,
        some s,
        broadcast_control (reaction s.stage_id my_key short)
            ∷ emit (reaction_event s.my_pubkey short)
            ∷ [],
      ))

  -- A chat message is cut to 500 characters.
  pub send_chat : List ℕ → Option ActiveStage → Reply (Unit {0}) × Option ActiveStage × List Effect
  send_chat text active = guarded (require_active active) active (λ s.
      let short = take 500 text in
      (
        ok tt,
        some s,
        broadcast_control (chat s.stage_id my_key short) ∷ emit (chat_event s.my_pubkey short) ∷ [],
      ))

  pub do_promote_speaker :
      ℕ → Option ActiveStage → Reply (Unit {0}) × Option ActiveStage × List Effect
  do_promote_speaker pubkey active = guarded (require_host_active active) active (λ s. (
    ok tt,
    some (set_role pubkey speaker s),
    broadcast_control (promote_speaker s.stage_id pubkey) ∷ emit (role_changed pubkey speaker) ∷ [],
  ))

  pub do_demote_speaker :
      ℕ → Option ActiveStage → Reply (Unit {0}) × Option ActiveStage × List Effect
  do_demote_speaker pubkey active = guarded (require_host_active active) active (λ s. (
    ok tt,
    some (set_role pubkey listener s),
    broadcast_control (demote_speaker s.stage_id pubkey) ∷ emit (role_changed pubkey listener) ∷ [],
  ))

  -- `started` says whether the relay pipeline comes up.
  pub volunteer_as_relay :
      Bool → ℕ → Option ActiveStage → Reply (Unit {0}) × Option ActiveStage × List Effect
  volunteer_as_relay started capacity active = guarded (require_active active) active (λ s.
      elim s.listener_upstream_id [
        | none ↦ (err no_upstream, active, [])
        | some upstream_id ↦
            if started
            then (
              ok tt,
              some (record s { is_relay = true }),
              start_relay_pipeline upstream_id
                  ∷ broadcast_control
                      (relay_volunteer s.stage_id s.my_pubkey identity.transport_node_id capacity)
                  ∷ [],
            )
            else (err relay_failed, active, start_relay_pipeline upstream_id ∷ [])
      ])
