-- ===== src/Stage/Room/Tests.antt =====
-- Runs of a room, and its theorems at such inputs.
use proscenium.Common.{
  ℕ, ◌+◌, ◌≡◌, ◌⊎◌, refl, true, false, ◌&&◌, none, some, List, [], ◌∷◌, if◌then◌else◌, arith,
  lookup, bytes_eq, bytes_eq_refl,
}
use proscenium.Stage.Topology.{TopologyManager, new, add_relay}
use proscenium.Stage.Topology.Capacity.{IsValid, new-IsValid}
use proscenium.Stage.Room.{
  StageRole, host, co_host, listener, promote_speaker, demote_speaker, relay_assignment, kick,
  SignedStageControl, StageEvent, ended, Participant, ActiveStage, emit, broadcast,
  hand_raised_event, announce_ended, shut_down, Platform, Identity, is_moderator, own_message,
}
use proscenium.Stage.Room.Handler.{elem, is_empty, handle_control, is_accepted, on_relay_volunteer}
use proscenium.Stage.Room.Handler.Authority.{
  unauthorised_ignored, handle_control_lem, ends_session, SameSession,
}
use proscenium.Stage.Room.Handler.Relays.{on_relay_volunteer_lem, holds}
use proscenium.Stage.Room.Handler.Soundness.{SessionSound}
use proscenium.Stage.Room.Handler.Lost.{raised, raised_hand_elsewhere, co_host_ignored}
use proscenium.Stage.Room.Moderation.{
  do_raise_hand, err, ok, only_the_host, sweep_presence, emit_left,
}
use proscenium.Stage.Room.Moderation.Sweep.{sweep_presence_lem, is_gone}
use proscenium.Stage.Room.Lifecycle.{end_stage, hosted, joined, own_ticket, host_capacity}
use proscenium.Stage.Room.Lifecycle.Ending.{end_reaches_guest, demoted_cannot_end}
use proscenium.Stage.Room.Actor.{create_command, control_received, sweep_command, Environment, run}
use proscenium.Stage.Room.Actor.Runs.{run-IsSound}

abbrev toy : Platform
toy = record {
  signing_bytes = λ sender control timestamp. sender ∷ timestamp ∷ [];
  public_of = λ key. key + 1000;
  sign = λ key message. (key + 1000) ∷ message;
  verify = λ key message signature. bytes_eq (key ∷ message) signature;
  ticket_text = λ ticket. [];
}

toy_verifies : (k : ℕ) (m : List ℕ) → toy.verify (toy.public_of k) m (toy.sign k m) ≡ true
toy_verifies k m = bytes_eq_refl ((k + 1000) ∷ m)

abbrev host_identity : Identity
host_identity = record { master_pubkey = 1; signing_key = 2; transport_node_id = 3 }

abbrev guest_identity : Identity
guest_identity = record { master_pubkey = 11; signing_key = 12; transport_node_id = 13 }

abbrev guest : ℕ → StageRole → ℕ → ℕ × Participant
guest pubkey role seen = (
  pubkey,
  record {
    pubkey = pubkey;
    role = role;
    hand_raised = false;
    self_muted = false;
    host_muted = false;
    last_seen_ms = seen;
    node_id = none;
  },
)

-- The host's session, with two listeners and a co-host.
abbrev room : ActiveStage
room = record (hosted toy host_identity 0 77 []) {
  participants =
      guest 1 host 0
      ∷ guest 11 listener 5000
      ∷ guest 21 listener 90000
      ∷ guest 31 co_host 90000
      ∷ [];
}

abbrev from_nobody : SignedStageControl
from_nobody = record { sender_pubkey = 21; control = kick 77 11; timestamp = 0; signature = [] }

abbrev from_co_host : SignedStageControl
from_co_host = record {
  sender_pubkey = 31;
  control = demote_speaker 77 1;
  timestamp = 0;
  signature = [];
}

unauthorised_ignored_example :
    handle_control toy host_identity 9 from_nobody (some room) ≡ (some room, [])
unfolding is_moderator
unauthorised_ignored_example = unauthorised_ignored toy host_identity 9 from_nobody room refl refl

handle_control_lem_example :
    ((ends_session room 31 (demote_speaker 77 1) ≡ true)
      × ((e : StageEvent) × (handle_control toy host_identity 9 from_co_host (some room)
            ≡ (none, shut_down ∷ emit e ∷ []))))
    ⊎ ((ends_session room 31 (demote_speaker 77 1) ≡ false)
        × ((t : ActiveStage) × ((handle_control toy host_identity 9 from_co_host (some room)).0
              ≡ some t)
            × SameSession room t))
handle_control_lem_example = handle_control_lem toy host_identity 9 from_co_host room

on_relay_volunteer_lem_example :
    (ls : List ℕ) × (t' : TopologyManager) × (on_relay_volunteer toy host_identity 9 21 23 4 room
      ≡ (
        some (record room { topology = some t' }),
        if is_empty ls
            then []
            else broadcast (own_message toy host_identity 9 (relay_assignment 77 21 23 ls)) ∷ [],
      ))
    × IsValid t'
    × ((j : ℕ) → elem j ls ≡ elem j (11 ∷ 21 ∷ []) && holds 23 (lookup j t'.assignments))
    × ((j : ℕ)
        → elem j (11 ∷ 21 ∷ []) ≡ false
        → lookup j t'.assignments ≡ lookup j (add_relay 23 4 (new 3 15)).assignments)
on_relay_volunteer_lem_example =
    on_relay_volunteer_lem toy host_identity 9 21 23 4 room (new 3 host_capacity) refl refl
      (new-IsValid 3 host_capacity) (refl, refl, (refl, refl, (refl, refl, (refl, refl, tt))))

abbrev start : Environment
start = record { now = 5; generated_id = 77; subscribed = true; mixing = true; relaying = true }

run-IsSound_example : SessionSound (
    run toy host_identity
      ((start, create_command [])
        ∷ (start, control_received from_nobody)
        ∷ (start, sweep_command)
        ∷ [])
      none)
run-IsSound_example =
    run-IsSound toy host_identity
      ((start, create_command [])
        ∷ (start, control_received from_nobody)
        ∷ (start, sweep_command)
        ∷ [])
      none tt

sweep_presence_lem_example :
    (gone : List ℕ) × (t : ActiveStage) × (sweep_presence 60000 (some room)
      ≡ (some t, emit_left gone))
    × ((j : ℕ)
        → (elem j gone ≡ is_gone 15000 1 (lookup j room.participants))
          × (lookup j t.participants ≡ (if elem j gone then none else lookup j room.participants)))
sweep_presence_lem_example =
    sweep_presence_lem 60000 room (refl, refl, (refl, refl, (refl, refl, (refl, refl, tt))))

raised_hand_elsewhere_example :
    (m : SignedStageControl) × (t : ActiveStage) × (do_raise_hand toy guest_identity 8 (some room)
      ≡ (ok tt, some room, broadcast m ∷ emit (hand_raised_event room.my_pubkey) ∷ []))
    × (m.sender_pubkey ≡ 1012)
    × (handle_control toy host_identity 9 m (some room)
        ≡ (some t, emit (hand_raised_event 1012) ∷ []))
    × (lookup 11 t.participants ≡ lookup 11 room.participants)
    × (lookup 1012 t.participants ≡ raised (lookup 1012 room.participants))
raised_hand_elsewhere_example =
    raised_hand_elsewhere toy guest_identity host_identity 8 9 11 room room (ground arith)

co_host_ignored_example :
    handle_control toy host_identity 9
      (own_message toy guest_identity 8 (promote_speaker 77 21))
      (some room)
    ≡ (some room, [])
co_host_ignored_example =
    co_host_ignored toy guest_identity host_identity 8 9 (promote_speaker 77 21) room refl refl
      (ground arith)

end_reaches_guest_example :
    (m : SignedStageControl) × (end_stage toy host_identity 8
        (some (hosted toy host_identity 5 77 []))
      ≡ (ok tt, none, broadcast m ∷ shut_down ∷ announce_ended 77 ∷ emit (ended 77) ∷ []))
    × (is_accepted toy 77 m ≡ true)
    × (handle_control toy guest_identity 9 m
          (some (joined toy guest_identity 6 (own_ticket toy host_identity 5 77 [])))
        ≡ (none, shut_down ∷ emit (ended 77) ∷ []))
end_reaches_guest_example =
    end_reaches_guest toy host_identity guest_identity 77 5 6 8 9 [] toy_verifies

demoted_cannot_end_example :
    (end_stage toy host_identity 10
      (handle_control toy host_identity 9 from_co_host (some room)).0).0
    ≡ err only_the_host
unfolding is_moderator
demoted_cannot_end_example =
    demoted_cannot_end toy host_identity 9 10 77 from_co_host room refl refl
