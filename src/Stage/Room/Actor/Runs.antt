-- ===== src/Stage/Room/Actor/Runs.antt =====
-- The invariant of a room over any run of the actor in stage/mod.rs.
use proscenium.Common.{sym, subst, Option, List, [], ◌∷◌}
use proscenium.Stage.Room.{ActiveStage, Platform, Identity}
use proscenium.Stage.Room.Handler.Soundness.{SessionSound, handle_control-IsSound}
use proscenium.Stage.Room.Moderation.Sweep.{sweep_presence-IsSound}
use proscenium.Stage.Room.Moderation.Soundness.{
  toggle_self_mute-IsSound, talk_unchanged, do_promote_speaker-IsSound, do_demote_speaker-IsSound,
  volunteer_as_relay-IsSound,
}
use proscenium.Stage.Room.Lifecycle.Soundness.{
  create_stage-IsSound, join_stage-IsSound, leave_stage-none, end_stage-IsSound,
}
use proscenium.Stage.Room.Actor.{
  StageCommand, create_command, join_command, leave_command, end_command, incoming_connection,
  control_received, sweep_command, promote_command, demote_command, raise_hand_command,
  lower_hand_command, toggle_mute_command, reaction_command, chat_command, volunteer_command,
  get_state, get_active_announcement, Environment, handle, run,
}

module _ (c : Platform) (identity : Identity) where
  handle-IsSound :
      (e : Environment) (command : StageCommand) (active : Option ActiveStage)
      → SessionSound active
      → SessionSound (handle c identity e command active).1
  unfolding handle
  handle-IsSound e (create_command title) active v =
      create_stage-IsSound c identity e.now e.generated_id e.subscribed e.mixing title active v
  handle-IsSound e (join_command ticket) active v =
      join_stage-IsSound c identity e.now e.subscribed ticket active v
  handle-IsSound e leave_command active v = subst SessionSound (sym (leave_stage-none active)) tt
  handle-IsSound e end_command active v = end_stage-IsSound c identity e.now active v
  handle-IsSound e (incoming_connection remote) active v = v
  handle-IsSound e (control_received signed) active v =
      handle_control-IsSound c identity e.now signed active v
  handle-IsSound e sweep_command active v = sweep_presence-IsSound e.now active v
  handle-IsSound e (promote_command pubkey) active v =
      do_promote_speaker-IsSound c identity e.now pubkey active v
  handle-IsSound e (demote_command pubkey) active v =
      do_demote_speaker-IsSound c identity e.now pubkey active v
  handle-IsSound e raise_hand_command active v =
      subst SessionSound (sym (talk_unchanged c identity e.now [] active).2) v
  handle-IsSound e lower_hand_command active v =
      subst SessionSound (sym (talk_unchanged c identity e.now [] active).3) v
  handle-IsSound e toggle_mute_command active v = toggle_self_mute-IsSound c identity e.now active v
  handle-IsSound e (reaction_command emoji) active v =
      subst SessionSound (sym (talk_unchanged c identity e.now emoji active).0) v
  handle-IsSound e (chat_command text) active v =
      subst SessionSound (sym (talk_unchanged c identity e.now text active).1) v
  handle-IsSound e (volunteer_command capacity) active v =
      volunteer_as_relay-IsSound c identity e.now e.relaying capacity active v
  handle-IsSound e get_state active v = v
  handle-IsSound e get_active_announcement active v = v

  -- Whatever commands the actor handles, at any times and whether subscriptions and pipelines
  -- come up or not, a sound session stays sound: every participant stands under its own key once,
  -- the topology manager keeps valid books, and a node in the host role has one.
  pub run-IsSound :
      (commands : List (Environment × StageCommand)) (active : Option ActiveStage)
      → SessionSound active
      → SessionSound (run c identity commands active)
  unfolding run
  run-IsSound [] active v = v
  run-IsSound ((e, command) ∷ later) active v =
      run-IsSound later (handle c identity e command active).1 (handle-IsSound e command active v)
