-- ===== src/Stage/Room/Handler.antt =====
-- src-tauri/src/stage/control_handler.rs: what a received control message does, and the test of
-- stage/control.rs that lets a message through. One function for each kind of message.
pub mod Authority
pub mod Participants
pub mod Relays
pub mod Soundness
pub mod Lost
use proscenium.Common.{
  ℕ, Bool, true, false, not, ◌&&◌, Option, none, some, List, [], ◌∷◌, ◌++◌, ◌==◌, if◌then◌else◌,
  lookup, insert, remove, update, contains_key, values,
}
use proscenium.Stage.Topology.{TopologyManager, AudioAssignment, add_relay, assign_listener}
use proscenium.Stage.Room.{
  StageRole, speaker, listener, StageControl, announce, end_room, presence, relay_volunteer,
  relay_assignment, raise_hand, lower_hand, promote_speaker, demote_speaker, mute_speaker,
  self_mute_toggle, kick, ban, reaction, chat, SignedStageControl, StageEvent, participant_joined,
  participant_left, role_changed, mute_changed, hand_raised_event, hand_lowered_event,
  reaction_event, chat_event, ended, kicked, Participant, ActiveStage, Effect, emit, broadcast,
  start_speaker_pipeline, start_listener_pipeline, stop_listener_pipeline, shut_down, Outcome,
  Platform, Identity, is_host_role, is_listener_role, is_moderator, stage_id_matches,
  verify_stage_control, own_message,
}

-- `is_none` is a separate test.
abbrev pub or_else : {A : Type 0} → Option A → A → A
or_else none a = a
or_else (some b) a = b

abbrev pub or_keep : {A : Type 0} → Option A → Option A → Option A
or_keep none b = b
or_keep (some a) b = some a

abbrev pub elem : ℕ → List ℕ → Bool
elem n [] = false
elem n (m ∷ ms) = if m == n then true else elem n ms

abbrev pub is_empty : List ℕ → Bool
is_empty [] = true
is_empty (n ∷ ns) = false

pub on_presence : ℕ → ℕ → StageRole → ℕ → Option ℕ → ActiveStage → Outcome
on_presence now pubkey role timestamp node_id s =
    let fresh : Participant = record {
      pubkey = pubkey;
      role = role;
      hand_raised = false;
      self_muted = false;
      host_muted = false;
      last_seen_ms = timestamp;
      node_id = node_id;
    } in
    let entry = or_else (lookup pubkey s.participants) fresh in
    let seen = record entry {
      last_seen_ms = now;
      role = role;
      node_id = or_keep node_id entry.node_id;
    } in
    (
      some (record s { participants = insert pubkey seen s.participants }),
      if contains_key pubkey s.participants then [] else emit (participant_joined pubkey role) ∷ [],
    )

-- The session ends with this event.
unfoldable pub leave : StageEvent → Outcome
leave event = (none, shut_down ∷ emit event ∷ [])

pub on_end : ActiveStage → Outcome
unfolding leave
on_end s = leave (ended s.stage_id)

pub on_raise_hand : ℕ → ActiveStage → Outcome
on_raise_hand pubkey s = (
  some (record s {
    participants = update pubkey (λ p. record p { hand_raised = true }) s.participants;
  }),
  emit (hand_raised_event pubkey) ∷ [],
)

pub on_lower_hand : ℕ → ActiveStage → Outcome
on_lower_hand pubkey s = (
  some (record s {
    participants = update pubkey (λ p. record p { hand_raised = false }) s.participants;
  }),
  emit (hand_lowered_event pubkey) ∷ [],
)

unfoldable pub set_role : ℕ → StageRole → ActiveStage → ActiveStage
set_role pubkey role s = record s {
  participants = update pubkey (λ p. record p { role = role }) s.participants;
}

-- `listener_pipeline_cancel.take()` and its cancellation.
unfoldable pub stop_listening : ActiveStage → List Effect
stop_listening s = if s.has_listener_pipeline then stop_listener_pipeline ∷ [] else []

pub on_promote_speaker : ℕ → ActiveStage → Outcome
unfolding set_role stop_listening
on_promote_speaker pubkey s =
    if pubkey == s.my_pubkey
    then (
      some (record (set_role pubkey speaker s) {
        my_role = speaker;
        has_listener_pipeline = false;
        has_speaker_mixer = true;
      }),
      stop_listening s
          ++ (start_speaker_pipeline s.host_node_id ∷ emit (role_changed pubkey speaker) ∷ []),
    )
    else (some (set_role pubkey speaker s), emit (role_changed pubkey speaker) ∷ [])

pub on_demote_speaker : ℕ → ActiveStage → Outcome
unfolding set_role
on_demote_speaker pubkey s =
    let demoted = set_role pubkey listener s in
    (
      some (if pubkey == s.my_pubkey then record demoted { my_role = listener } else demoted),
      emit (role_changed pubkey listener) ∷ [],
    )

abbrev pub self_muted_of : Option Participant → Bool
self_muted_of none = false
self_muted_of (some p) = p.self_muted

abbrev pub host_muted_of : Option Participant → Bool
host_muted_of none = false
host_muted_of (some p) = p.host_muted

pub on_mute_speaker : ℕ → ActiveStage → Outcome
on_mute_speaker pubkey s =
    let participants = update pubkey (λ p. record p { host_muted = true }) s.participants in
    (
      some (record s { participants = participants }),
      emit (mute_changed pubkey (self_muted_of (lookup pubkey participants)) true) ∷ [],
    )

pub on_self_mute_toggle : ℕ → Bool → ActiveStage → Outcome
on_self_mute_toggle pubkey muted s =
    let participants = update pubkey (λ p. record p { self_muted = muted }) s.participants in
    (
      some (record s { participants = participants }),
      emit (mute_changed pubkey muted (host_muted_of (lookup pubkey participants))) ∷ [],
    )

pub on_kick : ℕ → ActiveStage → Outcome
unfolding leave
on_kick pubkey s = if pubkey == s.my_pubkey then leave kicked else (
  some (record s { participants = remove pubkey s.participants }),
  emit (participant_left pubkey) ∷ [],
)

abbrev node_id_of : Option Participant → Option ℕ
node_id_of none = none
node_id_of (some p) = p.node_id

-- `HashSet::insert`, if the participant has a node id.
abbrev pub insert_banned : Option ℕ → List ℕ → List ℕ
insert_banned none ids = ids
insert_banned (some id) ids = if elem id ids then ids else id ∷ ids

pub on_ban : ℕ → ActiveStage → Outcome
unfolding leave
on_ban pubkey s = if pubkey == s.my_pubkey then leave kicked else (
  some (record s {
    banned_node_ids = insert_banned (node_id_of (lookup pubkey s.participants)) s.banned_node_ids;
    participants = remove pubkey s.participants;
  }),
  emit (participant_left pubkey) ∷ [],
)

-- The listeners of the room, in the order of the map's `values`.
abbrev pub listeners_of : List Participant → List ℕ
listeners_of [] = []
listeners_of (p ∷ ps) =
    if is_listener_role p.role then p.pubkey ∷ listeners_of ps else listeners_of ps

abbrev pub is_assigned_to : ℕ → Option AudioAssignment → Bool
is_assigned_to id none = false
is_assigned_to id (some a) = a.source_endpoint_id == id

-- Assigns each listener again; the answer lists those that go to the relay.
pub reassign : ℕ → List ℕ → TopologyManager → List ℕ × TopologyManager
reassign relay_id [] t = ([], t)
reassign relay_id (pk ∷ pks) t =
    let (assignment, t₁) = assign_listener pk t in
    let (later, t₂) = reassign relay_id pks t₁ in
    (if is_assigned_to relay_id assignment then pk ∷ later else later, t₂)

pub on_relay_assignment : ℕ → List ℕ → ActiveStage → Outcome
unfolding stop_listening
on_relay_assignment relay_node_id listener_pubkeys s =
    if elem s.my_pubkey listener_pubkeys
    then (
      some (record s { has_listener_pipeline = true; listener_upstream_id = some relay_node_id }),
      stop_listening s ++ (start_listener_pipeline relay_node_id s.host_pubkey ∷ []),
    )
    else (some s, [])

module _ (c : Platform) (identity : Identity) (now : ℕ) where
  pub on_relay_volunteer : ℕ → ℕ → ℕ → ActiveStage → Outcome
  on_relay_volunteer relay_pubkey relay_node_id capacity s =
      if is_host_role s.my_role
      then elim s.topology [
        | none ↦ (some s, [])
        | some t ↦
            let (relay_listeners, t') =
              reassign relay_node_id (listeners_of (values s.participants))
                (add_relay relay_node_id capacity t) in
            (
              some (record s { topology = some t' }),
              if is_empty relay_listeners
                  then []
                  else broadcast (
                      own_message c identity now
                        (relay_assignment s.stage_id relay_pubkey relay_node_id relay_listeners))
                    ∷ [],
            )
      ]
      else (some s, [])

  -- The message's effect on a session, `sender` its sender.
  pub on_control : ℕ → StageControl → ActiveStage → Outcome
  on_control sender (presence _ pubkey role timestamp node_id) s =
      on_presence now pubkey role timestamp node_id s
  on_control sender (end_room _) s = if sender == s.host_pubkey then on_end s else (some s, [])
  on_control sender (raise_hand _ pubkey) s = on_raise_hand pubkey s
  on_control sender (lower_hand _ pubkey) s = on_lower_hand pubkey s
  on_control sender (promote_speaker _ pubkey) s =
      if is_moderator s sender then on_promote_speaker pubkey s else (some s, [])
  on_control sender (demote_speaker _ pubkey) s =
      if is_moderator s sender then on_demote_speaker pubkey s else (some s, [])
  on_control sender (mute_speaker _ pubkey) s =
      if is_moderator s sender then on_mute_speaker pubkey s else (some s, [])
  on_control sender (self_mute_toggle _ pubkey muted) s = on_self_mute_toggle pubkey muted s
  on_control sender (kick _ pubkey) s =
      if is_moderator s sender then on_kick pubkey s else (some s, [])
  on_control sender (reaction _ pubkey emoji) s = (some s, emit (reaction_event pubkey emoji) ∷ [])
  on_control sender (chat _ pubkey text) s = (some s, emit (chat_event pubkey text) ∷ [])
  on_control sender (relay_volunteer _ relay_pubkey relay_node_id capacity) s =
      on_relay_volunteer relay_pubkey relay_node_id capacity s
  on_control sender (relay_assignment _ _ relay_node_id listener_pubkeys) s =
      if sender == s.host_pubkey
      then on_relay_assignment relay_node_id listener_pubkeys s
      else (some s, [])
  on_control sender (ban _ pubkey) s =
      if sender == s.host_pubkey then on_ban pubkey s else (some s, [])
  on_control sender (announce _ _ _ _) s = (some s, [])

  pub handle_control : SignedStageControl → Option ActiveStage → Outcome
  handle_control signed none = (none, [])
  handle_control signed (some s) = on_control signed.sender_pubkey signed.control s

-- What `receive_loop` lets through to the actor.
pub is_accepted : Platform → ℕ → SignedStageControl → Bool
unfolding verify_stage_control
is_accepted c stage_id signed =
    verify_stage_control c signed signed.sender_pubkey && stage_id_matches signed.control stage_id
