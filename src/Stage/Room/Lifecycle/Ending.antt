-- ===== src/Stage/Room/Lifecycle/Ending.antt =====
-- How a room ends for its host and for those who joined, across stage/lifecycle.rs,
-- stage/control.rs and stage/control_handler.rs.
use proscenium.Common.{ℕ, ◌≡◌, refl, true, false, none, some, List, [], ◌∷◌}
use proscenium.Stage.Room.{
  end_room, demote_speaker, SignedStageControl, ended, ActiveStage, emit, broadcast, announce_ended,
  shut_down, Platform, Identity, is_host_role, is_moderator, own_message,
}
use proscenium.Stage.Room.Handler.{handle_control, is_accepted}
use proscenium.Stage.Room.Handler.Lost.{demoted-my_role, end_obeyed}
use proscenium.Stage.Room.Moderation.{err, ok, only_the_host, guarded, require_active}
use proscenium.Stage.Room.Lifecycle.{end_stage, hosted, joined, own_ticket}

module _ (c : Platform) (host guest : Identity) where
  -- A host that has just created a room ends it. A guest that joined with the host's ticket then
  -- accepts the message that the host broadcasts and leaves the room. Own signatures are assumed
  -- to verify.
  pub end_reaches_guest :
      (stage_id created joined_at ended_at received : ℕ) (title : List ℕ)
      → ((k : ℕ) (m : List ℕ) → c.verify (c.public_of k) m (c.sign k m) ≡ true)
      → let r = joined c guest joined_at (own_ticket c host created stage_id title) in
        (m : SignedStageControl) × (end_stage c host ended_at
            (some (hosted c host created stage_id title))
          ≡ (
            ok tt,
            none,
            broadcast m ∷ shut_down ∷ announce_ended stage_id ∷ emit (ended stage_id) ∷ [],
          ))
        × (is_accepted c stage_id m ≡ true)
        × (handle_control c guest received m (some r)
            ≡ (none, shut_down ∷ emit (ended stage_id) ∷ []))
  unfolding end_stage guarded require_active
  end_reaches_guest stage_id created joined_at ended_at received title signed =
      let (accepted, obeyed) =
        end_obeyed c host guest ended_at received stage_id
          (joined c guest joined_at (own_ticket c host created stage_id title)) signed refl in
      (own_message c host ended_at (end_room stage_id), refl, accepted, obeyed)

module _ (c : Platform) (host : Identity) where
  pub end_refused :
      (now : ℕ) (s : ActiveStage)
      → is_host_role s.my_role ≡ false
      → end_stage c host now (some s) ≡ (err only_the_host, some s, [])
  unfolding end_stage guarded require_active
  end_refused now s e = simp (e, end_stage) refl

  -- When a moderator's demotion names this node, be it the host, the node afterwards fails to end
  -- the room: only the host may.
  pub demoted_cannot_end :
      (received ended_at stage_id : ℕ) (signed : SignedStageControl) (s : ActiveStage)
      → signed.control ≡ demote_speaker stage_id s.my_pubkey
      → is_moderator s signed.sender_pubkey ≡ true
      → (end_stage c host ended_at (handle_control c host received signed (some s)).0).0
        ≡ err only_the_host
  demoted_cannot_end received ended_at stage_id signed s e m =
      let (t, result, role) = demoted-my_role c host received stage_id signed s e m in
      rw (result, end_refused ended_at t role) refl
