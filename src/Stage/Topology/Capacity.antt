-- ===== src/Stage/Topology/Capacity.antt =====
-- The bookkeeping of stage/topology.rs: slots, assignments and capacities agree.
use proscenium.Common.{
  ℕ, ◌≤◌, ◌<◌, ◌≡◌, ◌∙◌, refl, sym, ◌≢◌, if◌then◌else◌, ◌⊎◌, inl, inr, true, false, none, some,
  List, [], ◌∷◌, ◌++◌, arith, ◌==◌, All-append, lookup, insert, remove, lookup-insert,
  lookup-remove, Option-cases, Bool-cases,
}
use proscenium.Stage.Topology.{
  source_at, Source, relay, TopologyManager, new, add_relay, has_endpoint, choose, release, take,
  assign_listener,
}
use proscenium.Stage.Topology.Choice.{IsFull, choose-some, choose-none}
use proscenium.Stage.Topology.Slots.{
  count, Distinct, Unique, Counts, count-insert, count-remove, insert-Distinct, remove-Distinct,
  release_slot-Unique, take_slot-Unique, release_slot-Counts, take_slot-Counts, source_at-ne,
  has_endpoint-release_slot, has_endpoint-take_slot,
}

-- Each source counts its assigned listeners, none is over its capacity, endpoints and listeners
-- are not listed twice, and nobody is assigned to an unknown endpoint.
pub record IsValid (t : TopologyManager) : Type 0 where
  pub counts : Counts (λ id. count id t.assignments) t.sources
  pub unique : Unique t.sources
  pub distinct : Distinct t.assignments
  pub known : (id : ℕ) → has_endpoint id t.sources ≡ false → count id t.assignments ≡ 0

pub new-IsValid : (id capacity : ℕ) → IsValid (new id capacity)
unfolding new
new-IsValid id capacity = record {
  counts = ((refl, omega arith), tt);
  unique = (refl, tt);
  distinct = tt;
  known = λ i e. refl;
}

-- Giving a slot back keeps the books, and the listener is then unassigned.
release-IsValid :
    (pubkey : ℕ) (t : TopologyManager)
    → IsValid t
    → IsValid (release pubkey t) × (lookup pubkey (release pubkey t).assignments ≡ none)
unfolding release
release-IsValid pubkey t v = elim (Option-cases (lookup pubkey t.assignments)) [
  | inl unknown ↦ rw (unknown, release) (v, unknown)
  | inr (old, found) ↦
      rw (found, release)
        (
          record {
            counts =
                release_slot-Counts (λ id. count id t.assignments)
                  (λ id. count id (remove pubkey t.assignments)) old t.sources v.unique
                  (λ id. count-remove pubkey old id t.assignments v.distinct found) v.counts;
            unique = release_slot-Unique old t.sources v.unique;
            distinct = remove-Distinct pubkey t.assignments v.distinct;
            known = λ id e. omega (
              arith,
              count-remove pubkey old id t.assignments v.distinct found,
              v.known id (sym (has_endpoint-release_slot id old t.sources) ∙ e),
            );
          },
          ground (arith, lookup-remove pubkey pubkey t.assignments),
        )
]

lookup-release :
    (pubkey j : ℕ) (t : TopologyManager)
    → j ≢ pubkey
    → lookup j (release pubkey t).assignments ≡ lookup j t.assignments
unfolding release
lookup-release pubkey j t ne = ground (arith, lookup-remove pubkey j t.assignments)

take-IsValid :
    (pubkey : ℕ) (t : TopologyManager)
    → IsValid t
    → lookup pubkey t.assignments ≡ none
    → IsValid (take pubkey t).1
unfolding take
take-IsValid pubkey t v e = elim (Option-cases (choose t.sources)) [
  | inl nobody ↦ rw (nobody, take) v
  | inr (i, chosen) ↦
      let (s, at, lt) = choose-some t.sources i chosen in
      rw (chosen, take, at)
        (record {
          counts =
              take_slot-Counts (λ id. count id t.assignments)
                (λ id. count id (insert pubkey s.endpoint_id t.assignments)) i t.sources s at lt
                v.unique (λ id. count-insert pubkey s.endpoint_id id t.assignments e) v.counts;
          unique = take_slot-Unique i t.sources v.unique;
          distinct = insert-Distinct pubkey s.endpoint_id t.assignments v.distinct;
          known = λ id n.
              let before = sym (has_endpoint-take_slot id i t.sources) ∙ n in
              ground (
                arith,
                count-insert pubkey s.endpoint_id id t.assignments e,
                v.known id before,
                source_at-ne id i t.sources s at before,
              );
        })
]

-- On valid books, assign_listener leaves valid books: every source counts exactly the listeners
-- assigned to it and stays within its capacity, no endpoint or listener is listed twice, and
-- nobody is assigned to an unknown endpoint.
pub assign_listener-IsValid :
    (pubkey : ℕ) (t : TopologyManager) → IsValid t → IsValid (assign_listener pubkey t).1
unfolding assign_listener
assign_listener-IsValid pubkey t v =
    let (kept, unassigned) = release-IsValid pubkey t v in
    take-IsValid pubkey (release pubkey t) kept unassigned

-- The endpoint of a new relay is unknown before.
relay-known :
    (id capacity j : ℕ) (ss : List Source)
    → has_endpoint j
        (ss ++ (record { kind = relay; endpoint_id = id; capacity = capacity; assigned = 0 } ∷ []))
      ≡ (if has_endpoint j ss then true else id == j)
relay-known id capacity j [] = ground arith
relay-known id capacity j (s ∷ ss) = ground (arith, relay-known id capacity j ss)

relay-Unique :
    (id capacity : ℕ) (ss : List Source)
    → Unique ss
    → has_endpoint id ss ≡ false
    → Unique
        (ss ++ (record { kind = relay; endpoint_id = id; capacity = capacity; assigned = 0 } ∷ []))
relay-Unique id capacity [] u e = (refl, tt)
relay-Unique id capacity (s ∷ ss) u e = (
  ground (arith, u.0, relay-known id capacity s.endpoint_id ss),
  relay-Unique id capacity ss u.1 (ground arith),
)

-- add_relay keeps the books of the topology manager valid, also for an endpoint that is already
-- known.
pub add_relay-IsValid :
    (id capacity : ℕ) (t : TopologyManager) → IsValid t → IsValid (add_relay id capacity t)
unfolding add_relay
add_relay-IsValid id capacity t v = elim (Bool-cases (has_endpoint id t.sources)) [
  | inl old ↦ rw (old, add_relay) v
  | inr fresh ↦
      rw (fresh, add_relay)
        (record {
          counts =
              All-append
                (λ s. (s.assigned ≡ count s.endpoint_id t.assignments) × (s.assigned ≤ s.capacity))
                t.sources _ v.counts ((sym (v.known id fresh), omega arith), tt);
          unique = relay-Unique id capacity t.sources v.unique fresh;
          distinct = v.distinct;
          known = λ j e. v.known j (ground (arith, relay-known id capacity j t.sources));
        })
]

-- On valid books assign_listener answers either nothing, when every slot but the listener's own
-- old one is taken, and the listener is then unassigned, or the endpoint of a source of the
-- manager that has a free slot once the listener's old one is released, and that the listener is
-- then assigned to. Every other listener keeps its assignment.
pub assign_listener_result :
    (pubkey : ℕ) (t : TopologyManager)
    → IsValid t
    → let (answer, t') = assign_listener pubkey t in
      (((answer ≡ none) × IsFull (release pubkey t).sources × (lookup pubkey t'.assignments ≡ none))
        ⊎ ((i : ℕ) × (s : Source) × (source_at i (release pubkey t).sources ≡ some s)
            × (answer ≡ some (record { source_endpoint_id = s.endpoint_id }))
            × (s.assigned < s.capacity)
            × (lookup pubkey t'.assignments ≡ some s.endpoint_id)))
      × ((j : ℕ) → j ≢ pubkey → lookup j t'.assignments ≡ lookup j t.assignments)
unfolding assign_listener take
assign_listener_result pubkey t v =
    let r = release pubkey t in
    elim (Option-cases (choose r.sources)) [
      | inl nobody ↦
          rw (nobody, assign_listener, take)
            (
              inl (refl, choose-none r.sources nobody, (release-IsValid pubkey t v).1),
              λ j ne. lookup-release pubkey j t ne,
            )
      | inr (i, chosen) ↦
          let (s, at, lt) = choose-some r.sources i chosen in
          rw (chosen, assign_listener, take, at)
            (
              inr (
                i,
                s,
                at,
                refl,
                lt,
                ground (arith, lookup-insert pubkey pubkey s.endpoint_id r.assignments),
              ),
              λ j ne. ground (
                arith,
                lookup-insert pubkey j s.endpoint_id r.assignments,
                lookup-release pubkey j t ne,
              ),
            )
    ]
