-- ===== src/Stage/Room/Actor.antt =====
-- src-tauri/src/stage/command.rs and the dispatch of stage/mod.rs: the actor that owns the session
-- and handles one command after another.
pub mod Runs
use proscenium.Common.{ℕ, Bool, Option, none, some, List, [], ◌∷◌, ◌++◌}
use proscenium.Stage.Room.{
  SignedStageControl, StageTicket, StageState, ActiveStage, Effect, serve_connection,
  close_connection, Platform, Identity,
}
use proscenium.Stage.Room.Handler.{handle_control}
use proscenium.Stage.Room.Moderation.{
  Reply, sweep_presence, toggle_self_mute, send_reaction, send_chat, do_raise_hand, do_lower_hand,
  do_promote_speaker, do_demote_speaker, volunteer_as_relay,
}
use proscenium.Stage.Room.Lifecycle.{
  StageAnnouncement, build_active_announcement, build_state, create_stage, join_stage, leave_stage,
  end_stage,
}

pub data StageCommand : Type 0 where
  create_command : List ℕ → StageCommand
  join_command : StageTicket → StageCommand
  leave_command end_command : StageCommand
  incoming_connection : ℕ → StageCommand
  control_received : SignedStageControl → StageCommand
  sweep_command : StageCommand
  promote_command demote_command : ℕ → StageCommand
  raise_hand_command lower_hand_command toggle_mute_command : StageCommand
  reaction_command chat_command : List ℕ → StageCommand
  volunteer_command : ℕ → StageCommand
  get_state get_active_announcement : StageCommand

-- What goes back to the caller.
pub data Response : Type 0 where
  no_response : Response
  of_ticket : Reply StageTicket → Response
  of_unit : Reply (Unit {0}) → Response
  of_muted : Reply Bool → Response
  of_state : Option StageState → Response
  of_announcement : Option StageAnnouncement → Response

-- What a command meets: the clock, a new room id, and whether the gossip subscription, the mixer
-- and a relay pipeline come up.
pub record Environment : Type 0 where
  pub now : ℕ
  pub generated_id : ℕ
  pub subscribed : Bool
  pub mixing : Bool
  pub relaying : Bool

abbrev pub Answer : Type 0
Answer = Response × Option ActiveStage × List Effect

abbrev respond :
    {A : Type 0} → (Reply A → Response) → Reply A × Option ActiveStage × List Effect → Answer
respond f (r, active, es) = (f r, active, es)

abbrev silent : Option ActiveStage × List Effect → Answer
silent (active, es) = (no_response, active, es)

pub accept_connection : ℕ → Option ActiveStage → List Effect
accept_connection remote none = close_connection remote ∷ []
accept_connection remote (some s) = serve_connection remote s.my_role s.banned_node_ids ∷ []

module _ (c : Platform) (identity : Identity) where
  abbrev pub state_of : Option ActiveStage → Option StageState
  state_of none = none
  state_of (some s) = some (build_state c s)

  pub handle : Environment → StageCommand → Option ActiveStage → Answer
  handle e (create_command title) active =
      respond of_ticket
        (create_stage c identity e.now e.generated_id e.subscribed e.mixing title active)
  handle e (join_command ticket) active =
      respond of_unit (join_stage c identity e.now e.subscribed ticket active)
  handle e leave_command active = respond of_unit (leave_stage active)
  handle e end_command active = respond of_unit (end_stage c identity e.now active)
  handle e (incoming_connection remote) active =
      (no_response, active, accept_connection remote active)
  handle e (control_received signed) active = silent (handle_control c identity e.now signed active)
  handle e sweep_command active = silent (sweep_presence e.now active)
  handle e (promote_command pubkey) active =
      respond of_unit (do_promote_speaker c identity e.now pubkey active)
  handle e (demote_command pubkey) active =
      respond of_unit (do_demote_speaker c identity e.now pubkey active)
  handle e raise_hand_command active = respond of_unit (do_raise_hand c identity e.now active)
  handle e lower_hand_command active = respond of_unit (do_lower_hand c identity e.now active)
  handle e toggle_mute_command active = respond of_muted (toggle_self_mute c identity e.now active)
  handle e (reaction_command emoji) active =
      respond of_unit (send_reaction c identity e.now emoji active)
  handle e (chat_command text) active = respond of_unit (send_chat c identity e.now text active)
  handle e (volunteer_command capacity) active =
      respond of_unit (volunteer_as_relay c identity e.now e.relaying capacity active)
  handle e get_state active = (of_state (state_of active), active, [])
  handle e get_active_announcement active =
      (of_announcement (build_active_announcement active), active, [])

  -- The actor's loop over the commands that arrive.
  pub run : List (Environment × StageCommand) → Option ActiveStage → Option ActiveStage
  run [] active = active
  run ((e, command) ∷ later) active = run later (handle e command active).1
