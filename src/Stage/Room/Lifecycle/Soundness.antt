-- ===== src/Stage/Room/Lifecycle/Soundness.antt =====
-- A session begins sound, by stage/lifecycle.rs.
use proscenium.Common.{
  ℕ, ◌≡◌, refl, inl, inr, Bool, true, false, Option, none, some, List, arith, Bool-cases,
}
use proscenium.Stage.Topology.{new}
use proscenium.Stage.Topology.Capacity.{new-IsValid}
use proscenium.Stage.Room.{ActiveStage, StageTicket, Platform, Identity, is_host_role}
use proscenium.Stage.Room.Handler.Soundness.{IsSound, SessionSound}
use proscenium.Stage.Room.Moderation.{guarded, require_active}
use proscenium.Stage.Room.Lifecycle.{
  create_stage, join_stage, leave_stage, end_stage, hosted, joined, host_capacity,
}

module _ (c : Platform) (identity : Identity) (now : ℕ) where
  hosted-IsSound : (stage_id : ℕ) (title : List ℕ) → IsSound (hosted c identity now stage_id title)
  hosted-IsSound stage_id title = record {
    keyed = (refl, refl, tt);
    books = new-IsValid identity.transport_node_id host_capacity;
    hosting = λ h. (new identity.transport_node_id host_capacity, refl);
  }

  joined-IsSound : (ticket : StageTicket) → IsSound (joined c identity now ticket)
  joined-IsSound ticket = record { keyed = tt; books = tt; hosting = λ h. ground arith }

  pub create_stage-IsSound :
      (stage_id : ℕ) (subscribed mixing : Bool) (title : List ℕ) (active : Option ActiveStage)
      → SessionSound active
      → SessionSound (create_stage c identity now stage_id subscribed mixing title active).1
  unfolding create_stage
  create_stage-IsSound stage_id subscribed mixing title (some s) v = v
  create_stage-IsSound stage_id true true title none v = hosted-IsSound stage_id title
  create_stage-IsSound stage_id true false title none v = tt
  create_stage-IsSound stage_id false mixing title none v = tt

  pub join_stage-IsSound :
      (subscribed : Bool) (ticket : StageTicket) (active : Option ActiveStage)
      → SessionSound active
      → SessionSound (join_stage c identity now subscribed ticket active).1
  unfolding join_stage
  join_stage-IsSound subscribed ticket (some s) v = v
  join_stage-IsSound true ticket none v = joined-IsSound ticket
  join_stage-IsSound false ticket none v = tt

  pub end_stage-IsSound :
      (active : Option ActiveStage)
      → SessionSound active
      → SessionSound (end_stage c identity now active).1
  unfolding end_stage guarded require_active
  end_stage-IsSound none v = tt
  end_stage-IsSound (some s) v = elim (Bool-cases (is_host_role s.my_role)) [
    | inl may ↦ simp (may, end_stage) tt
    | inr may_not ↦ simp (may_not, end_stage) v
  ]

pub leave_stage-none : (active : Option ActiveStage) → (leave_stage active).1 ≡ none
unfolding leave_stage guarded require_active
leave_stage-none none = refl
leave_stage-none (some s) = refl
