-- ===== src/Stage/Topology.antt =====
-- src-tauri/src/stage/topology.rs: which source a listener takes the mixed stream from.
-- A transport NodeId and a public key are numbers, since the code only compares them.
pub mod Slots
pub mod Choice
pub mod Capacity
mod Tests
use proscenium.Common.{
  ℕ, zero, suc, ◌+◌, ◌-◌, Bool, true, false, ◌&&◌, not, Option, none, some, List, [], ◌∷◌, ◌++◌,
  ltb, leb, ◌==◌, if◌then◌else◌, lookup, insert, remove,
}

pub data SourceKind : Type 0 where
  host relay : SourceKind

pub record Source : Type 0 where
  pub kind : SourceKind
  pub endpoint_id : ℕ
  pub capacity : ℕ
  pub assigned : ℕ

pub record TopologyManager : Type 0 where
  pub sources : List Source
  -- Public key of a listener, and the endpoint that it is assigned to.
  pub assignments : List (ℕ × ℕ)

pub record AudioAssignment : Type 0 where
  pub source_endpoint_id : ℕ

pub new : ℕ → ℕ → TopologyManager
new host_endpoint_id host_capacity = record {
  sources =
      record { kind = host; endpoint_id = host_endpoint_id; capacity = host_capacity; assigned = 0 }
      ∷ [];
  assignments = [];
}

abbrev pub has_endpoint : ℕ → List Source → Bool
has_endpoint id [] = false
has_endpoint id (s ∷ ss) = if s.endpoint_id == id then true else has_endpoint id ss

pub add_relay : ℕ → ℕ → TopologyManager → TopologyManager
add_relay id capacity t = if has_endpoint id t.sources then t else record t {
  sources =
      t.sources
      ++ (record { kind = relay; endpoint_id = id; capacity = capacity; assigned = 0 } ∷ []);
}

-- `saturating_sub` on the first source of that endpoint, if there is one.
abbrev pub release_slot : ℕ → List Source → List Source
release_slot id [] = []
release_slot id (s ∷ ss) =
    if s.endpoint_id == id
    then record s { assigned = s.assigned - 1 } ∷ ss
    else s ∷ release_slot id ss

abbrev pub is_host : SourceKind → Bool
is_host host = true
is_host relay = false

abbrev pub has_room : Source → Bool
has_room s = ltb s.assigned s.capacity

-- Index of the first host with room, from `i` on.
pub find_host : ℕ → List Source → Option ℕ
find_host i [] = none
find_host i (s ∷ ss) = if is_host s.kind && has_room s then some i else find_host (suc i) ss

-- The better of the choice so far and source `i`: an equal amount of room prefers the later.
abbrev pub better : ℕ → Option (ℕ × ℕ) → Source → Option (ℕ × ℕ)
better i none s = if has_room s then some (i, s.capacity - s.assigned) else none
better i (some (b, room)) s =
    if has_room s && leb room (s.capacity - s.assigned)
    then some (i, s.capacity - s.assigned)
    else some (b, room)

-- `filter` and `max_by_key`: of the sources with room, the last of those with the most room left,
-- with that room. Source `i` is the first of the list.
pub max_room : ℕ → Option (ℕ × ℕ) → List Source → Option (ℕ × ℕ)
max_room i best [] = best
max_room i best (s ∷ ss) = max_room (suc i) (better i best s) ss

pub choose : List Source → Option ℕ
choose ss = elim (find_host 0 ss) [
  | some i ↦ some i
  | none ↦ elim (max_room 0 none ss) [ none ↦ none | some (i, _) ↦ some i ]
]

abbrev pub take_slot : ℕ → List Source → List Source
take_slot i [] = []
take_slot zero (s ∷ ss) = record s { assigned = s.assigned + 1 } ∷ ss
take_slot (suc i) (s ∷ ss) = s ∷ take_slot i ss

abbrev pub source_at : ℕ → List Source → Option Source
source_at i [] = none
source_at zero (s ∷ ss) = some s
source_at (suc i) (s ∷ ss) = source_at i ss

-- The first part of `assign_listener`: an old slot is given back.
pub release : ℕ → TopologyManager → TopologyManager
release pubkey t = elim (lookup pubkey t.assignments) [
  | none ↦ t
  | some old ↦ record {
    sources = release_slot old t.sources;
    assignments = remove pubkey t.assignments;
  }
]

-- The second part: a slot is taken, if there is one.
pub take : ℕ → TopologyManager → Option AudioAssignment × TopologyManager
take pubkey t = elim (choose t.sources) [
  | none ↦ (none, t)
  | some i ↦ elim (source_at i t.sources) [
    | none ↦ (none, t)
    | some s ↦ (
      some (record { source_endpoint_id = s.endpoint_id }),
      record {
        sources = take_slot i t.sources;
        assignments = insert pubkey s.endpoint_id t.assignments;
      },
    )
  ]
]

pub assign_listener : ℕ → TopologyManager → Option AudioAssignment × TopologyManager
assign_listener pubkey t = take pubkey (release pubkey t)
