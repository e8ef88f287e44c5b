-- ===== src/DeviceSync/Convergence.antt =====
-- What two devices hold after they exchanged their deltas, by device_sync.rs.
use proscenium.Common.{
  ℕ, ◌≡◌, refl, sym, ap, ap₂, subst, ◌∙◌, ◌⊎◌, inl, inr, true, ◌||◌, Option, List, [], ◌∷◌, ◌++◌,
  arith, ◌==◌, if◌then◌else◌, Bool-cases, ==→eq, Key, find, is_newer, pick, deltas, UniqueKeys,
  find-merge-deltas, merge_lww-UniqueKeys, pick-pick, Tied, IsNewest, pick-IsNewest, pick_sides,
}
use proscenium.DeviceSync.{
  FollowEntry, ModerationEntry, RatchetSessionExport, Device, DeviceSyncStats, follows_frame,
  moderation_frame, bookmarks_frame, ratchet_sessions_frame, pubkeys, pubkeys_and_kinds, has,
  summaries, build_device_sync_vector, merge_follows_lww, merge_moderation_lww, merge_bookmarks,
  merge_ratchet_sessions_lww, follow_deltas, mod_deltas, bookmark_deltas, ratchet_deltas,
  frame_unless_empty, send_deltas, import_deltas, no_stats, sync_with_device,
}

-- What is sent of the sessions by their summaries is what the sessions themselves call for.
find-summaries :
    (k : ℕ) (r : RatchetSessionExport) (t : List (ℕ × RatchetSessionExport))
    → is_newer pubkeys (λ u. u) r.updated_at (find pubkeys k (summaries t))
      ≡ is_newer pubkeys (λ x. x.updated_at) r (find pubkeys k t)
find-summaries k r [] = refl
find-summaries k r ((j, d) ∷ t) = elim (Bool-cases (j == k)) [
  | inl hit ↦ simp (hit, find, summaries) refl
  | inr miss ↦ simp (miss, find, summaries) (find-summaries k r t)
]

ratchet_deltas_lem :
    (ours theirs : List (ℕ × RatchetSessionExport))
    → ratchet_deltas ours (summaries theirs) ≡ deltas pubkeys (λ x. x.updated_at) ours theirs
ratchet_deltas_lem [] theirs = refl
ratchet_deltas_lem ((k, r) ∷ ours) theirs =
    ap₂ (λ b rest. if b then (k, r) ∷ rest else rest) (find-summaries k r theirs)
      (ratchet_deltas_lem ours theirs)

-- A device after the frames of one transfer: each table merged what was sent of it.
abbrev after_frames :
    List (ℕ × FollowEntry)
    → List ((ℕ × ℕ) × ModerationEntry)
    → List ℕ
    → List (ℕ × RatchetSessionExport)
    → Device
    → Device
after_frames fs ms bs rs d = record {
  follows = (merge_follows_lww fs d.follows).1;
  moderation = (merge_moderation_lww ms d.moderation).1;
  bookmarks = (merge_bookmarks bs d.bookmarks).1;
  sessions = (merge_ratchet_sessions_lww rs d.sessions).1;
}

-- A frame that is left out when it is empty imports as if it were sent.
import_sessions :
    (rs : List (ℕ × RatchetSessionExport)) (s : DeviceSyncStats) (d : Device)
    → (import_deltas (frame_unless_empty ratchet_sessions_frame rs) s d).1
      ≡ after_frames [] [] [] rs d
import_sessions [] s d = refl
import_sessions (r ∷ rs) s d = refl

import_bookmarks :
    (bs : List ℕ) (rs : List (ℕ × RatchetSessionExport)) (s : DeviceSyncStats) (d : Device)
    → (import_deltas
        (frame_unless_empty bookmarks_frame bs ++ frame_unless_empty ratchet_sessions_frame rs)
        s
        d).1
      ≡ after_frames [] [] bs rs d
import_bookmarks [] rs s d = import_sessions rs s d
import_bookmarks (b ∷ bs) rs s d = import_sessions rs _ _

import_moderation :
    (ms : List ((ℕ × ℕ) × ModerationEntry)) (bs : List ℕ) (rs : List (ℕ × RatchetSessionExport))
    (s : DeviceSyncStats) (d : Device)
    → (import_deltas
        (frame_unless_empty moderation_frame ms
          ++ frame_unless_empty bookmarks_frame bs
          ++ frame_unless_empty ratchet_sessions_frame rs)
        s
        d).1
      ≡ after_frames [] ms bs rs d
import_moderation [] bs rs s d = import_bookmarks bs rs s d
import_moderation (m ∷ ms) bs rs s d = import_bookmarks bs rs _ _

import_all :
    (fs : List (ℕ × FollowEntry)) (ms : List ((ℕ × ℕ) × ModerationEntry)) (bs : List ℕ)
    (rs : List (ℕ × RatchetSessionExport)) (s : DeviceSyncStats) (d : Device)
    → (import_deltas
        (frame_unless_empty follows_frame fs
          ++ frame_unless_empty moderation_frame ms
          ++ frame_unless_empty bookmarks_frame bs
          ++ frame_unless_empty ratchet_sessions_frame rs)
        s
        d).1
      ≡ after_frames fs ms bs rs d
import_all [] ms bs rs s d = import_moderation ms bs rs s d
import_all (f ∷ fs) ms bs rs s d = import_moderation ms bs rs _ _

has-merge_bookmarks :
    (n : ℕ) (bs t : List ℕ) → has n (merge_bookmarks bs t).1 ≡ (has n bs || has n t)
has-merge_bookmarks n [] t = refl
has-merge_bookmarks n (b ∷ bs) t = elim (Bool-cases (has b t)) [
  | inl old ↦
      let there : (b == n) ≡ true → has n t ≡ true =
        λ hit. subst (λ i. has i t ≡ true) (==→eq b n hit) old in
      elim (Bool-cases (b == n)) [
        | inl hit ↦ ground (arith, old, hit, there hit, has-merge_bookmarks n bs t)
        | inr miss ↦ ground (arith, old, miss, has-merge_bookmarks n bs t)
      ]
  | inr new ↦ ground (arith, new, has-merge_bookmarks n bs (b ∷ t))
]

-- What a peer has or is sent is what either device has.
has-bookmark_deltas :
    (n : ℕ) (ours theirs : List ℕ)
    → (has n (bookmark_deltas ours theirs) || has n theirs) ≡ (has n ours || has n theirs)
has-bookmark_deltas n [] theirs = refl
has-bookmark_deltas n (b ∷ ours) theirs = elim (Bool-cases (b == n)) [
  | inl hit ↦
      let same : has b theirs ≡ has n theirs = ap (λ i. has i theirs) (==→eq b n hit) in
      ground (arith, hit, same, has-bookmark_deltas n ours theirs)
  | inr miss ↦ ground (arith, miss, has-bookmark_deltas n ours theirs)
]

-- One row for a key in each table.
abbrev pub IsTidy : Device → Type 0
IsTidy d =
    UniqueKeys pubkeys d.follows
    × UniqueKeys pubkeys_and_kinds d.moderation
    × UniqueKeys pubkeys d.sessions

-- Of two rows, each side holds the newer afterwards, and both sides the same unless the two have
-- the same time.
abbrev pub Settled {ℓ κ} :
    {K : Type ℓ} {E : Type κ} → Key K → (E → ℕ) → Option E → Option E → Option E → Option E → Type κ
Settled key stamp a b a' b' =
    IsNewest key stamp b a a' × IsNewest key stamp a b b' × ((b' ≡ a') ⊎ Tied key stamp a b)

settle {ℓ κ} :
    {K : Type ℓ} {E : Type κ} (key : Key K) (stamp : E → ℕ) (a b a' b' : Option E)
    → a' ≡ pick key stamp b a
    → b' ≡ pick key stamp a b
    → Settled key stamp a b a' b'
settle key stamp a b a' b' p q =
    subst (λ x. Settled key stamp a b x b') (sym p)
      (subst (λ y. Settled key stamp a b (pick key stamp b a) y) (sym q)
        (pick-IsNewest key stamp b a, pick-IsNewest key stamp a b, pick_sides key stamp a b))

-- What the two devices hold of one user, one moderated user, one peer and one post, before and
-- after.
abbrev pub Converged : Device → Device → Device → Device → ℕ → ℕ × ℕ → ℕ → ℕ → Type 0
Converged r i r' i' user moderated peer post =
    Settled pubkeys (λ e. e.last_changed_at) (find pubkeys user r.follows)
      (find pubkeys user i.follows) (find pubkeys user r'.follows) (find pubkeys user i'.follows)
    × Settled pubkeys_and_kinds (λ e. e.last_changed_at)
        (find pubkeys_and_kinds moderated r.moderation)
        (find pubkeys_and_kinds moderated i.moderation)
        (find pubkeys_and_kinds moderated r'.moderation)
        (find pubkeys_and_kinds moderated i'.moderation)
    × Settled pubkeys (λ e. e.updated_at) (find pubkeys peer r.sessions)
        (find pubkeys peer i.sessions) (find pubkeys peer r'.sessions)
        (find pubkeys peer i'.sessions)
    × (has post r'.bookmarks ≡ (has post i.bookmarks || has post r.bookmarks))
    × (has post i'.bookmarks ≡ (has post r.bookmarks || has post i.bookmarks))

-- The device after it imported what another one sends.
abbrev imported : Device → Device → Device → Device
imported sender theirs d =
    after_frames (follow_deltas theirs.follows d.follows)
      (mod_deltas theirs.moderation d.moderation) (bookmark_deltas theirs.bookmarks d.bookmarks)
      (deltas pubkeys (λ x. x.updated_at) sender.sessions d.sessions) d

import_sent :
    (sender theirs d : Device)
    → (import_deltas
        (send_deltas sender (build_device_sync_vector theirs) (build_device_sync_vector d))
        no_stats
        d).1
      ≡ imported sender theirs d
import_sent sender theirs d =
    import_all (follow_deltas theirs.follows d.follows) (mod_deltas theirs.moderation d.moderation)
      (bookmark_deltas theirs.bookmarks d.bookmarks)
      (ratchet_deltas sender.sessions (summaries d.sessions)) no_stats d
    ∙ ap
        (λ rs.
          after_frames (follow_deltas theirs.follows d.follows)
            (mod_deltas theirs.moderation d.moderation)
            (bookmark_deltas theirs.bookmarks d.bookmarks) rs d)
        (ratchet_deltas_lem sender.sessions d.sessions)

sync_with_device_states :
    (r i : Device) → sync_with_device r i ≡ (imported (imported r r i) i r, imported r r i)
sync_with_device_states r i =
    let there = import_sent r r i in
    ap
      (λ x. (
        (import_deltas (send_deltas x (build_device_sync_vector i) (build_device_sync_vector r))
            no_stats r).1,
        x,
      ))
      there
    ∙ ap (λ x. (x, imported r r i)) (import_sent (imported r r i) i r)

-- The initiator sends back also what it has just imported, which changes nothing.
sessions_back :
    (r i : Device) (peer : ℕ)
    → IsTidy r
    → IsTidy i
    → find pubkeys peer (imported (imported r r i) i r).sessions
      ≡ pick pubkeys
          (λ e. e.updated_at)
          (find pubkeys peer i.sessions)
          (find pubkeys peer r.sessions)
sessions_back r i peer tr ti =
    let sent = deltas pubkeys (λ e. e.updated_at) r.sessions i.sessions in
    find-merge-deltas pubkeys (λ e. e.updated_at) (imported r r i).sessions r.sessions peer
      (merge_lww-UniqueKeys pubkeys (λ e. e.updated_at) sent i.sessions ti.2)
    ∙ ap (λ o. pick pubkeys (λ e. e.updated_at) o (find pubkeys peer r.sessions))
        (find-merge-deltas pubkeys (λ e. e.updated_at) r.sessions i.sessions peer tr.2)
    ∙ pick-pick pubkeys (λ e. e.updated_at) (find pubkeys peer r.sessions)
        (find pubkeys peer i.sessions)

-- Two devices of one user sync, each with one row for a key in every table. Afterwards each
-- holds, of every follow, every mute or block and every ratchet session, the newer of the two
-- rows, both hold the same row unless two rows had the same time, and each has exactly the
-- bookmarks that either had.
pub sync_with_device_lem :
    (r i : Device) (user : ℕ) (moderated : ℕ × ℕ) (peer post : ℕ)
    → IsTidy r
    → IsTidy i
    → Converged r i (sync_with_device r i).0 (sync_with_device r i).1 user moderated peer post
sync_with_device_lem r i user moderated peer post tr ti =
    subst (λ p. Converged r i p.0 p.1 user moderated peer post) (sym (sync_with_device_states r i))
      (
        settle pubkeys (λ e. e.last_changed_at) _ _ _ _
            (find-merge-deltas pubkeys (λ e. e.last_changed_at) i.follows r.follows user ti.0)
            (find-merge-deltas pubkeys (λ e. e.last_changed_at) r.follows i.follows user tr.0),
        settle pubkeys_and_kinds (λ e. e.last_changed_at) _ _ _ _
            (find-merge-deltas pubkeys_and_kinds (λ e. e.last_changed_at) i.moderation r.moderation
              moderated ti.1)
            (find-merge-deltas pubkeys_and_kinds (λ e. e.last_changed_at) r.moderation i.moderation
              moderated tr.1),
        settle pubkeys (λ e. e.updated_at) _ _ _ _ (sessions_back r i peer tr ti)
            (find-merge-deltas pubkeys (λ e. e.updated_at) r.sessions i.sessions peer tr.2),
        has-merge_bookmarks post (bookmark_deltas i.bookmarks r.bookmarks) r.bookmarks
            ∙ has-bookmark_deltas post i.bookmarks r.bookmarks,
        has-merge_bookmarks post (bookmark_deltas r.bookmarks i.bookmarks) i.bookmarks
            ∙ has-bookmark_deltas post r.bookmarks i.bookmarks,
      )
