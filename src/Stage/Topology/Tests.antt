-- ===== src/Stage/Topology/Tests.antt =====
-- Runs of stage/topology.rs, and the theorems at such inputs.
use proscenium.Common.{ℕ, ◌≡◌, refl, ◌≢◌, ◌⊎◌, ◌<◌, none, some, [], ◌∷◌, lookup}
use proscenium.Stage.Topology.{
  Source, host, relay, TopologyManager, source_at, new, add_relay, assign_listener, release, take,
  choose, find_host, max_room,
}
use proscenium.Stage.Topology.Choice.{IsFull}
use proscenium.Stage.Topology.Capacity.{
  IsValid, new-IsValid, add_relay-IsValid, assign_listener-IsValid, assign_listener_result,
}

-- A host with one slot, and a relay with two.
abbrev room : TopologyManager
room = record {
  sources =
      record { kind = host; endpoint_id = 7; capacity = 1; assigned = 1 }
      ∷ record { kind = relay; endpoint_id = 8; capacity = 2; assigned = 1 }
      ∷ [];
  assignments = (20, 7) ∷ (21, 8) ∷ [];
}

-- A listener who reconnects gets its slot at the host again; the next one goes to the relay.
reconnect : (assign_listener 20 room).0 ≡ some (record { source_endpoint_id = 7 })
unfolding assign_listener release take choose find_host max_room
reconnect = refl

overflow : (assign_listener 22 room).0 ≡ some (record { source_endpoint_id = 8 })
unfolding assign_listener release take choose find_host max_room
overflow = refl

full : (assign_listener 23 (assign_listener 22 room).1).0 ≡ none
unfolding assign_listener release take choose find_host max_room
full = refl

abbrev one_relay : TopologyManager
one_relay = add_relay 8 2 (new 7 1)

one_relay-IsValid : IsValid one_relay
one_relay-IsValid = add_relay-IsValid 8 2 (new 7 1) (new-IsValid 7 1)

add_relay-IsValid_example : IsValid (add_relay 9 4 one_relay)
add_relay-IsValid_example = add_relay-IsValid 9 4 one_relay one_relay-IsValid

assign_listener-IsValid_example : IsValid (assign_listener 20 one_relay).1
assign_listener-IsValid_example = assign_listener-IsValid 20 one_relay one_relay-IsValid

assign_listener_result_example :
    let (answer, t') = assign_listener 20 one_relay in
    (((answer ≡ none) × IsFull (release 20 one_relay).sources × (lookup 20 t'.assignments ≡ none))
      ⊎ ((i : ℕ) × (s : Source) × (source_at i (release 20 one_relay).sources ≡ some s)
          × (answer ≡ some (record { source_endpoint_id = s.endpoint_id }))
          × (s.assigned < s.capacity)
          × (lookup 20 t'.assignments ≡ some s.endpoint_id)))
    × ((j : ℕ) → j ≢ 20 → lookup j t'.assignments ≡ lookup j one_relay.assignments)
assign_listener_result_example = assign_listener_result 20 one_relay one_relay-IsValid
