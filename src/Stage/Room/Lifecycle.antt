-- ===== src/Stage/Room/Lifecycle.antt =====
-- src-tauri/src/stage/lifecycle.rs, with the start of the control plane in stage/control.rs and the
-- snapshots of stage/mod.rs: how a session begins and ends.
pub mod Soundness
pub mod Ending
use proscenium.Common.{
  ℕ, Bool, true, false, Option, none, some, List, [], ◌∷◌, ◌++◌, if◌then◌else◌, map, values,
}
use proscenium.Stage.Topology.{TopologyManager, new}
use proscenium.Stage.Room.{
  StageRole, host, listener, StageControl, announce, end_room, presence, StageTicket,
  StageParticipant, StageState, StageEvent, state_snapshot, ended, Participant, ActiveStage, Effect,
  emit, broadcast, start_listener_pipeline, start_presence_sweep, start_announcements,
  announce_ended, shut_down, Outcome, Platform, Identity, is_host_role, own_message,
}
use proscenium.Stage.Room.Moderation.{
  Reply, ok, err, already_in_stage, only_the_host, start_failed, guarded, require_active,
}

-- The number of listeners that the host serves itself.
abbrev pub host_capacity : ℕ
host_capacity = 15

unfoldable pub show_participant : Participant → StageParticipant
show_participant p = record {
  pubkey = p.pubkey;
  role = p.role;
  display_name = none;
  avatar_hash = none;
  hand_raised = p.hand_raised;
  self_muted = p.self_muted;
  host_muted = p.host_muted;
}

-- The announcement of a room: its ticket and the time of its start.
pub record StageAnnouncement : Type 0 where
  pub stage_id : ℕ
  pub title : List ℕ
  pub ticket : StageTicket
  pub host_pubkey : ℕ
  pub started_at : ℕ

pub build_active_announcement : Option ActiveStage → Option StageAnnouncement
build_active_announcement none = none
build_active_announcement (some s) =
    if is_host_role s.my_role
    then elim s.ticket [
      | none ↦ none
      | some ticket ↦ some (record {
        stage_id = s.stage_id;
        title = s.title;
        ticket = ticket;
        host_pubkey = s.host_pubkey;
        started_at = s.started_at;
      })
    ]
    else none

pub leave_stage : Option ActiveStage → Reply (Unit {0}) × Option ActiveStage × List Effect
leave_stage active =
    guarded (require_active active) active
      (λ s. (ok tt, none, shut_down ∷ emit (ended s.stage_id) ∷ []))

module _ (c : Platform) where
  open c use {ticket_text}

  abbrev show_ticket : Option StageTicket → Option (List ℕ)
  show_ticket none = none
  show_ticket (some ticket) = some (ticket_text ticket)

  pub build_state : ActiveStage → StageState
  build_state s = record {
    stage_id = s.stage_id;
    title = s.title;
    host_pubkey = s.host_pubkey;
    my_pubkey = s.my_pubkey;
    my_role = s.my_role;
    participants = map show_participant (values s.participants);
    started_at = s.started_at;
    ticket = show_ticket s.ticket;
  }

  unfoldable pub emit_state_snapshot : ActiveStage → Effect
  emit_state_snapshot s = emit (state_snapshot (build_state s))

module _ (c : Platform) (identity : Identity) (now : ℕ) where
  open c use {public_of}

  -- `ControlPlane::start` sends the first Presence.
  unfoldable pub start_control_plane : ℕ → StageRole → Effect
  start_control_plane stage_id role = broadcast (
      own_message c identity now
        (presence stage_id identity.master_pubkey role now (some identity.transport_node_id)))

  abbrev pub own_ticket : ℕ → List ℕ → StageTicket
  own_ticket stage_id title = record {
    stage_id = stage_id;
    host_pubkey = public_of identity.signing_key;
    host_node_id = identity.transport_node_id;
    title = title;
  }

  abbrev pub hosted : ℕ → List ℕ → ActiveStage
  hosted stage_id title =
      let me : Participant = record {
        pubkey = identity.master_pubkey;
        role = host;
        hand_raised = false;
        self_muted = false;
        host_muted = false;
        last_seen_ms = now;
        node_id = some identity.transport_node_id;
      } in
      record {
        stage_id = stage_id;
        title = title;
        host_pubkey = identity.master_pubkey;
        my_pubkey = identity.master_pubkey;
        my_role = host;
        self_muted = false;
        started_at = now;
        participants = (identity.master_pubkey, me) ∷ [];
        topology = some (new identity.transport_node_id host_capacity);
        is_relay = false;
        ticket = some (own_ticket stage_id title);
        listener_upstream_id = none;
        has_listener_pipeline = false;
        has_speaker_mixer = false;
        host_node_id = identity.transport_node_id;
        banned_node_ids = [];
      }

  -- The room id is `generate_id`'s. `subscribed` and `mixing` say whether the gossip subscription
  -- and the mixer come up.
  pub create_stage :
      ℕ
      → Bool
      → Bool
      → List ℕ
      → Option ActiveStage
      → Reply StageTicket × Option ActiveStage × List Effect
  create_stage stage_id subscribed mixing title (some s) = (err already_in_stage, some s, [])
  create_stage stage_id subscribed mixing title none =
      let announced =
        start_control_plane stage_id host
        ∷ broadcast
            (own_message c identity now (announce stage_id title identity.master_pubkey now))
        ∷ [] in
      if subscribed
      then if mixing
        then (
          ok (own_ticket stage_id title),
          some (hosted stage_id title),
          announced
              ++ (start_presence_sweep
                  ∷ start_announcements (own_ticket stage_id title)
                  ∷ emit_state_snapshot c (hosted stage_id title)
                  ∷ []),
        )
        else (err start_failed, none, announced)
      else (err start_failed, none, [])

  abbrev pub joined : StageTicket → ActiveStage
  joined ticket = record {
    stage_id = ticket.stage_id;
    title = ticket.title;
    host_pubkey = ticket.host_pubkey;
    my_pubkey = identity.master_pubkey;
    my_role = listener;
    self_muted = false;
    started_at = now;
    participants = [];
    topology = none;
    is_relay = false;
    ticket = none;
    listener_upstream_id = some ticket.host_node_id;
    has_listener_pipeline = true;
    has_speaker_mixer = false;
    host_node_id = ticket.host_node_id;
    banned_node_ids = [];
  }

  pub join_stage :
      Bool → StageTicket → Option ActiveStage → Reply (Unit {0}) × Option ActiveStage × List Effect
  join_stage subscribed ticket (some s) = (err already_in_stage, some s, [])
  join_stage subscribed ticket none =
      if subscribed
      then (
        ok tt,
        some (joined ticket),
        start_control_plane ticket.stage_id listener
            ∷ start_presence_sweep
            ∷ start_listener_pipeline ticket.host_node_id ticket.host_pubkey
            ∷ emit_state_snapshot c (joined ticket)
            ∷ [],
      )
      else (err start_failed, none, [])

  -- Only the role decides who may end the room.
  pub end_stage : Option ActiveStage → Reply (Unit {0}) × Option ActiveStage × List Effect
  end_stage active = guarded (require_active active) active (λ s.
      if is_host_role s.my_role
      then (
        ok tt,
        none,
        broadcast (own_message c identity now (end_room s.stage_id))
            ∷ shut_down
            ∷ announce_ended s.stage_id
            ∷ emit (ended s.stage_id)
            ∷ [],
      )
      else (err only_the_host, active, []))
