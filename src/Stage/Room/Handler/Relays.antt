-- ===== src/Stage/Room/Handler/Relays.antt =====
-- The assignment of listeners when a relay volunteers, in stage/control_handler.rs.
use proscenium.Common.{
  ℕ, ◌≡◌, refl, inl, inr, Bool, true, false, ◌&&◌, Option, none, some, List, [], ◌∷◌, ◌==◌,
  if◌then◌else◌, arith, Bool-cases, lookup, values,
}
use proscenium.Stage.Topology.{TopologyManager, add_relay, assign_listener}
use proscenium.Stage.Topology.Capacity.{
  IsValid, add_relay-IsValid, assign_listener-IsValid, assign_listener_result,
}
use proscenium.Stage.Room.{
  relay_assignment, ActiveStage, broadcast, Platform, Identity, is_host_role, own_message,
}
use proscenium.Stage.Room.Handler.{
  elem, is_empty, listeners_of, is_assigned_to, reassign, on_relay_volunteer,
}
use proscenium.Stage.Room.Handler.Participants.{Keyed, Distinct, listeners_of-Distinct}

abbrev pub holds : ℕ → Option ℕ → Bool
holds relay_id none = false
holds relay_id (some id) = id == relay_id

==_eq : (m n : ℕ) → m == n ≡ true → m ≡ n
==_eq m n e = ground arith

-- The answer for a listener says what the manager then knows of it.
answer-holds :
    (relay_id pk : ℕ) (t : TopologyManager)
    → IsValid t
    → let (answer, t') = assign_listener pk t in
      is_assigned_to relay_id answer ≡ holds relay_id (lookup pk t'.assignments)
answer-holds relay_id pk t v = elim ((assign_listener_result pk t v).0) [
  | inl (no_answer, full, absent) ↦ rw (no_answer, absent) refl
  | inr (_, s, _, answer, room, present) ↦ rw (answer, present) refl
]

-- The manager behind a reassignment, and who then listens to the relay.
pub record Reassigned (relay_id : ℕ) (pks : List ℕ) (t : TopologyManager) (ls : List ℕ)
    (t' : TopologyManager) : Type 0 where
  pub valid : IsValid t'
  pub listed : (j : ℕ) → elem j ls ≡ elem j pks && holds relay_id (lookup j t'.assignments)
  pub others : (j : ℕ) → elem j pks ≡ false → lookup j t'.assignments ≡ lookup j t.assignments

pub reassign-Reassigned :
    (relay_id : ℕ) (pks : List ℕ) (t : TopologyManager)
    → IsValid t
    → Distinct pks
    → Reassigned relay_id pks t (reassign relay_id pks t).0 (reassign relay_id pks t).1
unfolding reassign
reassign-Reassigned relay_id [] t v d = record {
  valid = v;
  listed = λ j. refl;
  others = λ j e. refl;
}
reassign-Reassigned relay_id (pk ∷ pks) t v d =
    let t₁ = (assign_listener pk t).1 in
    let later = reassign-Reassigned relay_id pks t₁ (assign_listener-IsValid pk t v) d.1 in
    let keeps = (assign_listener_result pk t v).1 in
    record {
      valid = later.valid;
      listed = λ j. elim (Bool-cases (pk == j)) [
        | inl me ↦ ground (
          arith,
          answer-holds relay_id pk t v,
          later.listed j,
          later.others pk d.0,
          d.0,
          ==_eq pk j me,
        )
        | inr other ↦ ground (arith, later.listed j)
      ];
      others = λ j e. ground (arith, later.others j, keeps j);
    }

module _ (c : Platform) (identity : Identity) (now : ℕ) where
  -- When a relay volunteers at the host, whose books are valid and whose participants stand under
  -- their keys, the books stay valid, exactly the listeners that are then assigned to the relay
  -- are named in the assignment that the host broadcasts, nothing is broadcast if there is none,
  -- and whoever is not a listener keeps the assignment it had with the relay added.
  pub on_relay_volunteer_lem :
      (relay_pubkey relay_id capacity : ℕ) (s : ActiveStage) (t : TopologyManager)
      → is_host_role s.my_role ≡ true
      → s.topology ≡ some t
      → IsValid t
      → Keyed s.participants
      → let listeners = listeners_of (values s.participants) in
        (ls : List ℕ) × (t' : TopologyManager) × (on_relay_volunteer c identity now relay_pubkey
            relay_id capacity s
          ≡ (
            some (record s { topology = some t' }),
            if is_empty ls
                then []
                else broadcast (
                    own_message c identity now
                      (relay_assignment s.stage_id relay_pubkey relay_id ls))
                  ∷ [],
          ))
        × IsValid t'
        × ((j : ℕ) → elem j ls ≡ elem j listeners && holds relay_id (lookup j t'.assignments))
        × ((j : ℕ)
            → elem j listeners ≡ false
            → lookup j t'.assignments ≡ lookup j (add_relay relay_id capacity t).assignments)
  unfolding on_relay_volunteer
  on_relay_volunteer_lem relay_pubkey relay_id capacity s t h e v keyed =
      let listeners = listeners_of (values s.participants) in
      let out = reassign relay_id listeners (add_relay relay_id capacity t) in
      let r =
        reassign-Reassigned relay_id listeners (add_relay relay_id capacity t)
          (add_relay-IsValid relay_id capacity t v) (listeners_of-Distinct s.participants keyed) in
      (out.0, out.1, simp (h, e, on_relay_volunteer) refl, r.valid, r.listed, r.others)
