-- ===== src/Stage/Room/Moderation/Sweep.antt =====
-- The sweep of stage/moderation.rs.
use proscenium.Common.{
  ℕ, ◌-◌, ◌≡◌, refl, Bool, false, not, ◌&&◌, Option, none, some, List, [], ◌∷◌, ltb, ◌==◌,
  if◌then◌else◌, arith, lookup, remove, lookup-remove, values, contains_key,
}
use proscenium.Stage.Room.{Participant, ActiveStage}
use proscenium.Stage.Room.Handler.{elem}
use proscenium.Stage.Room.Handler.Participants.{Keyed, remove-Keyed}
use proscenium.Stage.Room.Handler.Soundness.{SessionSound, new_participants-IsSound}
use proscenium.Stage.Room.Moderation.{
  presence_expiry, expired, remove_all, emit_left, sweep_presence,
}

remove_all-Keyed : (ks : List ℕ) (m : List (ℕ × Participant)) → Keyed m → Keyed (remove_all ks m)
remove_all-Keyed [] m v = v
remove_all-Keyed (k ∷ ks) m v = remove_all-Keyed ks (remove k m) (remove-Keyed k m v)

lookup-remove_all :
    (j : ℕ) (ks : List ℕ) (m : List (ℕ × Participant))
    → lookup j (remove_all ks m) ≡ (if elem j ks then none else lookup j m)
lookup-remove_all j [] m = refl
lookup-remove_all j (k ∷ ks) m =
    ground (arith, lookup-remove_all j ks (remove k m), lookup-remove k j m)

lookup-absent : (j : ℕ) (m : List (ℕ × Participant)) → contains_key j m ≡ false → lookup j m ≡ none
lookup-absent j [] e = refl
lookup-absent j ((i, p) ∷ m) e = ground (arith, lookup-absent j m)

-- Whether an entry is swept away.
abbrev pub is_gone : ℕ → ℕ → Option Participant → Bool
is_gone cutoff me none = false
is_gone cutoff me (some p) = ltb p.last_seen_ms cutoff && not (p.pubkey == me)

elem-expired :
    (cutoff me j : ℕ) (m : List (ℕ × Participant))
    → Keyed m
    → elem j (expired cutoff me (values m)) ≡ is_gone cutoff me (lookup j m)
elem-expired cutoff me j [] v = refl
elem-expired cutoff me j ((i, p) ∷ m) v =
    ground (arith, elem-expired cutoff me j m v.2, lookup-absent i m v.1)

-- With every participant under its own key, the sweep removes exactly the participants other than
-- this node that were last seen before the cutoff, keeps every other entry, and reports the
-- removed ones as having left.
pub sweep_presence_lem :
    (now : ℕ) (s : ActiveStage)
    → Keyed s.participants
    → (gone : List ℕ) × (t : ActiveStage) × (sweep_presence now (some s) ≡ (some t, emit_left gone))
      × ((j : ℕ)
          → (elem j gone ≡ is_gone (now - presence_expiry) s.my_pubkey (lookup j s.participants))
            × (lookup j t.participants ≡ (if elem j gone then none else lookup j s.participants)))
unfolding sweep_presence
sweep_presence_lem now s v =
    let gone = expired (now - presence_expiry) s.my_pubkey (values s.participants) in
    (
      gone,
      record s { participants = remove_all gone s.participants },
      refl,
      λ j. (
        elem-expired (now - presence_expiry) s.my_pubkey j s.participants v,
        lookup-remove_all j gone s.participants,
      ),
    )

pub sweep_presence-IsSound :
    (now : ℕ) (active : Option ActiveStage)
    → SessionSound active
    → SessionSound (sweep_presence now active).0
unfolding sweep_presence
sweep_presence-IsSound now none v = tt
sweep_presence-IsSound now (some s) v =
    new_participants-IsSound s s.my_role _ v
      (remove_all-Keyed (expired (now - presence_expiry) s.my_pubkey (values s.participants))
        s.participants v.keyed)
      (λ h. h)
