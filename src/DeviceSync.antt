-- ===== src/DeviceSync.antt =====
-- src-tauri/src/device_sync.rs and storage/device_sync.rs: how two linked devices of one user merge
-- their follows, mutes and blocks, bookmarks and ratchet sessions. A table maps a key to its row;
-- strings are numbers and times are below 2 ^ 63, where the casts between `u64` and `i64` keep
-- them. The statements on the database do not fail here.
pub mod Convergence
mod Tests
use proscenium.Common.{
  ℕ, zero, suc, ◌+◌, ◌≡◌, refl, Bool, true, false, not, ◌&&◌, Option, none, some, List, [], ◌∷◌,
  ◌++◌, map, arith, ◌==◌, if◌then◌else◌, ==_refl, ==→eq, Key, find, is_newer, merge_lww, deltas,
}

pub record FollowEntry : Type 0 where
  pub followed_at : ℕ
  pub state : ℕ
  pub last_changed_at : ℕ

pub record ModerationEntry : Type 0 where
  pub created_at : ℕ
  pub state : ℕ
  pub last_changed_at : ℕ

pub record RatchetSessionExport : Type 0 where
  pub state_json : ℕ
  pub updated_at : ℕ

-- What a device stores of its user: under a public key, under a public key and a kind, and under a
-- peer; the ids of the bookmarked posts.
pub record Device : Type 0 where
  pub follows : List (ℕ × FollowEntry)
  pub moderation : List ((ℕ × ℕ) × ModerationEntry)
  pub bookmarks : List ℕ
  pub sessions : List (ℕ × RatchetSessionExport)

pub record DeviceSyncVector : Type 0 where
  pub follows : List (ℕ × FollowEntry)
  pub moderation : List ((ℕ × ℕ) × ModerationEntry)
  pub bookmarks : List ℕ
  pub ratchet_summaries : List (ℕ × ℕ)

pub data DeviceSyncFrame : Type 0 where
  follows_frame : List (ℕ × FollowEntry) → DeviceSyncFrame
  moderation_frame : List ((ℕ × ℕ) × ModerationEntry) → DeviceSyncFrame
  bookmarks_frame : List ℕ → DeviceSyncFrame
  ratchet_sessions_frame : List (ℕ × RatchetSessionExport) → DeviceSyncFrame

pub record DeviceSyncStats : Type 0 where
  pub follows_merged : ℕ
  pub mutes_merged : ℕ
  pub bookmarks_added : ℕ
  pub ratchets_merged : ℕ

abbrev pub pubkeys : Key ℕ
pubkeys = record { same = ◌==◌; same_refl = ==_refl; same→eq = ==→eq }

-- Equal components.
abbrev pub same_pair : ℕ × ℕ → ℕ × ℕ → Bool
same_pair (a, b) (c, d) = (a == c) && (b == d)

pub same_pair_refl : (p : ℕ × ℕ) → same_pair p p ≡ true
same_pair_refl (a, b) = ground arith

pub same_pair→eq : (p q : ℕ × ℕ) → same_pair p q ≡ true → p ≡ q
same_pair→eq (a, b) (c, d) e = ground arith

abbrev pub pubkeys_and_kinds : Key (ℕ × ℕ)
pubkeys_and_kinds = record { same = same_pair; same_refl = same_pair_refl; same→eq = same_pair→eq }

abbrev pub has : ℕ → List ℕ → Bool
has n [] = false
has n (m ∷ ms) = if m == n then true else has n ms

abbrev pub summaries : List (ℕ × RatchetSessionExport) → List (ℕ × ℕ)
summaries [] = []
summaries ((p, r) ∷ sessions) = (p, r.updated_at) ∷ summaries sessions

abbrev pub build_device_sync_vector : Device → DeviceSyncVector
build_device_sync_vector d = record {
  follows = d.follows;
  moderation = d.moderation;
  bookmarks = d.bookmarks;
  ratchet_summaries = summaries d.sessions;
}

abbrev pub merge_follows_lww :
    List (ℕ × FollowEntry) → List (ℕ × FollowEntry) → ℕ × List (ℕ × FollowEntry)
merge_follows_lww = merge_lww pubkeys (λ e. e.last_changed_at)

abbrev pub merge_moderation_lww :
    List ((ℕ × ℕ) × ModerationEntry)
    → List ((ℕ × ℕ) × ModerationEntry)
    → ℕ × List ((ℕ × ℕ) × ModerationEntry)
merge_moderation_lww = merge_lww pubkeys_and_kinds (λ e. e.last_changed_at)

abbrev pub merge_ratchet_sessions_lww :
    List (ℕ × RatchetSessionExport)
    → List (ℕ × RatchetSessionExport)
    → ℕ × List (ℕ × RatchetSessionExport)
merge_ratchet_sessions_lww = merge_lww pubkeys (λ r. r.updated_at)

abbrev pub merge_bookmarks : List ℕ → List ℕ → ℕ × List ℕ
merge_bookmarks [] t = (0, t)
merge_bookmarks (p ∷ post_ids) t =
    let rest = merge_bookmarks post_ids (if has p t then t else p ∷ t) in
    ((if has p t then 0 else 1) + rest.0, rest.1)

abbrev pub follow_deltas : List (ℕ × FollowEntry) → List (ℕ × FollowEntry) → List (ℕ × FollowEntry)
follow_deltas = deltas pubkeys (λ e. e.last_changed_at)

abbrev pub mod_deltas :
    List ((ℕ × ℕ) × ModerationEntry)
    → List ((ℕ × ℕ) × ModerationEntry)
    → List ((ℕ × ℕ) × ModerationEntry)
mod_deltas = deltas pubkeys_and_kinds (λ e. e.last_changed_at)

abbrev pub bookmark_deltas : List ℕ → List ℕ → List ℕ
bookmark_deltas [] peer_bookmarks = []
bookmark_deltas (b ∷ bs) peer_bookmarks =
    if has b peer_bookmarks
    then bookmark_deltas bs peer_bookmarks
    else b ∷ bookmark_deltas bs peer_bookmarks

-- A session is news if the peer's summary is older or has none of this peer.
abbrev pub ratchet_deltas :
    List (ℕ × RatchetSessionExport) → List (ℕ × ℕ) → List (ℕ × RatchetSessionExport)
ratchet_deltas [] peer_ratchet_map = []
ratchet_deltas ((p, r) ∷ rs) peer_ratchet_map =
    if is_newer pubkeys (λ t. t) r.updated_at (find pubkeys p peer_ratchet_map)
    then (p, r) ∷ ratchet_deltas rs peer_ratchet_map
    else ratchet_deltas rs peer_ratchet_map

-- A frame, if there is something to send.
abbrev pub frame_unless_empty {ℓ} :
    {A : Type ℓ} → (List A → DeviceSyncFrame) → List A → List DeviceSyncFrame
frame_unless_empty frame [] = []
frame_unless_empty frame (x ∷ xs) = frame (x ∷ xs) ∷ []

-- What follows the posts and interactions: by the vector that was built before the exchange, but
-- with the sessions of now.
abbrev pub send_deltas : Device → DeviceSyncVector → DeviceSyncVector → List DeviceSyncFrame
send_deltas device our_vector peer_vector =
    frame_unless_empty follows_frame (follow_deltas our_vector.follows peer_vector.follows)
    ++ frame_unless_empty moderation_frame (mod_deltas our_vector.moderation peer_vector.moderation)
    ++ frame_unless_empty bookmarks_frame
        (bookmark_deltas our_vector.bookmarks peer_vector.bookmarks)
    ++ frame_unless_empty ratchet_sessions_frame
        (ratchet_deltas device.sessions peer_vector.ratchet_summaries)

abbrev pub import_frame : DeviceSyncFrame → DeviceSyncStats → Device → DeviceSyncStats × Device
import_frame (follows_frame entries) stats d =
    let merged = merge_follows_lww entries d.follows in
    (
      record stats { follows_merged = stats.follows_merged + merged.0 },
      record d { follows = merged.1 },
    )
import_frame (moderation_frame entries) stats d =
    let merged = merge_moderation_lww entries d.moderation in
    (
      record stats { mutes_merged = stats.mutes_merged + merged.0 },
      record d { moderation = merged.1 },
    )
import_frame (bookmarks_frame ids) stats d =
    let merged = merge_bookmarks ids d.bookmarks in
    (
      record stats { bookmarks_added = stats.bookmarks_added + merged.0 },
      record d { bookmarks = merged.1 },
    )
import_frame (ratchet_sessions_frame sessions) stats d =
    let merged = merge_ratchet_sessions_lww sessions d.sessions in
    (
      record stats { ratchets_merged = stats.ratchets_merged + merged.0 },
      record d { sessions = merged.1 },
    )

abbrev pub import_deltas :
    List DeviceSyncFrame → DeviceSyncStats → Device → DeviceSyncStats × Device
import_deltas [] stats d = (stats, d)
import_deltas (frame ∷ frames) stats d =
    let next = import_frame frame stats d in import_deltas frames next.0 next.1

abbrev pub no_stats : DeviceSyncStats
no_stats = record { follows_merged = 0; mutes_merged = 0; bookmarks_added = 0; ratchets_merged = 0 }

-- Both vectors are built first. The initiator imports what the responder sends, and only then
-- sends its own.
abbrev pub sync_with_device : Device → Device → Device × Device
sync_with_device responder initiator =
    let theirs = build_device_sync_vector responder in
    let ours = build_device_sync_vector initiator in
    let imported = import_deltas (send_deltas responder theirs ours) no_stats initiator in
    let answered = import_deltas (send_deltas imported.1 ours theirs) no_stats responder in
    (answered.1, imported.1)
