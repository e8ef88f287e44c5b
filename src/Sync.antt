-- ===== src/Sync.antt =====
-- src-tauri/src/sync/server.rs and sync/client.rs: how a client gets the posts and interactions of
-- an author that it does not have. A table is the list of the author's rows in the order of their
-- timestamps, which the queries of storage/posts.rs and storage/interactions.rs ask for. A row is
-- its id, its timestamp and the other columns; ids are numbers.
pub mod Paging
pub mod Complete
mod Tests
use proscenium.Common.{
  ℕ, zero, suc, ◌+◌, ◌-◌, Bool, true, false, not, ◌&&◌, Option, none, some, List, [], ◌∷◌, ◌++◌,
  max, ltb, leb, ◌==◌, if◌then◌else◌, length, take, drop,
}

pub record Row : Type 0 where
  pub id : ℕ
  pub timestamp : ℕ
  pub columns : List ℕ

pub data Visibility : Type 0 where
  public_profile listed_profile private_profile : Visibility

pub data SyncMode : Type 0 where
  up_to_date timestamp_catch_up need_id_diff : SyncMode

pub record SyncRequest : Type 0 where
  pub post_count : ℕ
  pub interaction_count : ℕ
  pub newest_timestamp : ℕ
  pub newest_interaction_timestamp : ℕ

pub data SyncFrame : Type 0 where
  posts_frame interactions_frame : List Row → SyncFrame
  device_announcements_frame : List (List ℕ) → SyncFrame

abbrev pub batch_size : ℕ
batch_size = 200

-- `WHERE`.
abbrev pub keep : (Row → Bool) → List Row → List Row
keep f [] = []
keep f (r ∷ rs) = if f r then r ∷ keep f rs else keep f rs

abbrev pub elem : ℕ → List ℕ → Bool
elem n [] = false
elem n (m ∷ ms) = if m == n then true else elem n ms

abbrev pub ids_of : List Row → List ℕ
ids_of [] = []
ids_of (r ∷ rs) = r.id ∷ ids_of rs

-- `MAX(timestamp)`, 0 of no rows.
abbrev pub newest : List Row → ℕ
newest [] = 0
newest (r ∷ rs) = max r.timestamp (newest rs)

abbrev pub is_after : ℕ → Row → Bool
is_after t r = ltb t r.timestamp

abbrev pub is_new : List ℕ → Row → Bool
is_new known r = not (elem r.id known)

-- `LIMIT` and `OFFSET`.
abbrev pub page : ℕ → ℕ → List Row → List Row
page limit offset rows = take limit (drop offset rows)

unfoldable pub may_sync : Visibility → Bool → Bool → Bool
may_sync public_profile is_follower is_mutual = true
may_sync listed_profile is_follower is_mutual = is_follower
may_sync private_profile is_follower is_mutual = is_mutual

-- The number of rows that the server takes to be newer than the client's.
pub after_count : ℕ → List Row → ℕ
after_count t rows = if ltb 0 t then length (keep (is_after t) rows) else length rows

-- Whether the missing rows are as many as the newer ones.
pub is_catch_up : ℕ → ℕ → List Row → Bool
is_catch_up count t rows = leb count (length rows) && (length rows - count == after_count t rows)

pub sync_mode : SyncRequest → List Row → List Row → SyncMode
sync_mode req posts interactions =
    if (req.post_count == length posts) && (req.interaction_count == length interactions)
    then up_to_date
    else if is_catch_up req.post_count req.newest_timestamp posts
    then timestamp_catch_up
    else need_id_diff

abbrev pub is_nil : List Row → Bool
is_nil [] = true
is_nil (r ∷ rs) = false

-- The loop that fetches batches until one is empty.
pub stream : ℕ → (ℕ → List Row) → ℕ → List (List Row)
stream zero fetch offset = []
stream (suc fuel) fetch offset =
    let batch = fetch offset in
    let rest = stream fuel fetch (offset + length batch) in
    if is_nil batch then [] else batch ∷ rest

abbrev pub stream_all : List Row → List (List Row)
stream_all rows = stream (suc (length rows)) (λ offset. page batch_size offset rows) 0

-- The rows of posts that a mode selects.
abbrev pub selected_posts : SyncMode → ℕ → List ℕ → List Row → List Row
selected_posts up_to_date t known posts = []
selected_posts timestamp_catch_up t known posts = keep (is_after t) posts
selected_posts need_id_diff t known posts = keep (is_new known) posts

abbrev pub selected_interactions : ℕ → ℕ → List Row → List Row
selected_interactions count t interactions =
    if count == length interactions
    then []
    else if is_catch_up count t interactions
    then keep (is_after t) interactions
    else interactions

abbrev pub frames : (List Row → SyncFrame) → List (List Row) → List SyncFrame
frames f [] = []
frames f (b ∷ bs) = f b ∷ frames f bs

abbrev pub is_up_to_date : SyncMode → Bool
is_up_to_date up_to_date = true
is_up_to_date _ = false

-- The mode and the frames of an answer; `none` is a rejection. The known ids are those that the
-- client sends for an id diff.
pub handle_sync :
    Visibility
    → Bool
    → Bool
    → SyncRequest
    → List ℕ
    → List Row
    → List Row
    → Option (SyncMode × List SyncFrame)
handle_sync visibility is_follower is_mutual req known posts interactions =
    let mode = sync_mode req posts interactions in
    if may_sync visibility is_follower is_mutual
    then if is_up_to_date mode
      then some (mode, [])
      else some (
        mode,
        frames posts_frame (stream_all (selected_posts mode req.newest_timestamp known posts))
            ++ frames interactions_frame (
                stream_all (
                  selected_interactions req.interaction_count req.newest_interaction_timestamp
                    interactions)),
      )
    else none

pub sync_request : List Row → List Row → SyncRequest
sync_request posts interactions = record {
  post_count = length posts;
  interaction_count = length interactions;
  newest_timestamp = newest posts;
  newest_interaction_timestamp = newest interactions;
}

-- The client's loop over the frames: posts and interactions. Device announcements go elsewhere.
pub collect : List SyncFrame → List Row × List Row
collect [] = ([], [])
collect (device_announcements_frame _ ∷ fs) = collect fs
collect (posts_frame b ∷ fs) = let (ps, is) = collect fs in (b ++ ps, is)
collect (interactions_frame b ∷ fs) = let (ps, is) = collect fs in (ps, b ++ is)

abbrev pub collect_answer :
    Option (SyncMode × List SyncFrame) → Option (SyncMode × List Row × List Row)
collect_answer none = none
collect_answer (some (mode, fs)) = some (mode, (collect fs).0, (collect fs).1)

-- What the client gets from a server, by the tables of the two.
pub sync_from_peer :
    Visibility
    → Bool
    → Bool
    → List Row
    → List Row
    → List Row
    → List Row
    → Option (SyncMode × List Row × List Row)
sync_from_peer visibility is_follower is_mutual my_posts my_interactions posts interactions =
    collect_answer (
      handle_sync visibility is_follower is_mutual (sync_request my_posts my_interactions)
        (ids_of my_posts) posts interactions)
