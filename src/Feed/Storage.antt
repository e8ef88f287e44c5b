-- ===== src/Feed/Storage.antt =====
-- The statements of src-tauri/src/storage on the feed's tables. A table whose primary key is one
-- column is a map; posts and interactions, with two, are lists of rows. A statement that fails leaves its table alone.
use proscenium.Common.{
  insert_or_ignore, ℕ, zero, suc, Bool, true, false, ◌&&◌, ◌||◌, Option, none, some, List, [], ◌∷◌,
  ◌==◌, if◌then◌else◌, lookup, insert, update,
}
use proscenium.Identity.{
  Post, Interaction, Profile, SigningKeyDelegation, DeviceEntry, LinkedDevicesAnnouncement,
}
use proscenium.Feed.{
  Store, Env, Crates, Notification, PeerRow, get_peer_signing_pubkey as q_signing,
  get_peer_delegation as q_delegation, get_peer_transport_node_ids as q_node_ids,
  is_hidden as q_hidden, get_post_by_id as q_post, get_peer_announcement_version as q_version,
  insert_post as q_insert_post, insert_notification as q_notify, save_interaction as q_interaction,
  save_profile as q_profile, delete_post as q_delete_post, delete_post_notifications as q_unnotify,
  delete_interaction as q_delete_interaction, cache_announcement as q_announcement,
  update_transport_node_ids as q_update_ids, cache_peer_identity as q_identity,
}

abbrev mem : ℕ → List ℕ → Bool
mem x [] = false
mem x (y ∷ ys) = if y == x then true else mem x ys

abbrev is_some_of : ℕ → Option ℕ → Bool
is_some_of id none = false
is_some_of id (some k) = k == id

-- `DELETE FROM notifications WHERE post_id=?1 OR target_post_id=?1`.
abbrev forget_post : ℕ → List (ℕ × Notification) → List (ℕ × Notification)
forget_post id [] = []
forget_post id ((k, n) ∷ ns) =
    if is_some_of id n.post_id || is_some_of id n.target_post_id
    then forget_post id ns
    else (k, n) ∷ forget_post id ns

-- The row under the primary key of posts, which is the author and the id.
abbrev pub row_of : ℕ → ℕ → List Post → Option Post
row_of author id [] = none
row_of author id (p ∷ ps) =
    if (p.author == author) && (p.id == id) then some p else row_of author id ps

-- `INSERT OR IGNORE INTO posts`.
abbrev pub put_post : Post → List Post → List Post
put_post post [] = post ∷ []
put_post post (p ∷ ps) =
    if (p.author == post.author) && (p.id == post.id) then p ∷ ps else p ∷ put_post post ps

-- `WHERE id=?1`, whoever the author is.
abbrev pub with_id : ℕ → List Post → List Post
with_id id [] = []
with_id id (p ∷ ps) = if p.id == id then p ∷ with_id id ps else with_id id ps

abbrev pub without_id : ℕ → List Post → List Post
without_id id [] = []
without_id id (p ∷ ps) = if p.id == id then without_id id ps else p ∷ without_id id ps

-- One row of those that a query without an order matches, if there is any.
abbrev pub fetch : ℕ → List Post → Option Post
fetch n [] = none
fetch n (p ∷ []) = some p
fetch zero (p ∷ q ∷ ps) = some p
fetch (suc n) (p ∷ q ∷ ps) = fetch n (q ∷ ps)

-- `INSERT OR IGNORE INTO interactions`, with the primary key (author, id) and the unique index
-- (author, kind, target_post_id); likes are the only kind.
abbrev pub put_interaction : Interaction → List Interaction → List Interaction
put_interaction i [] = i ∷ []
put_interaction i (j ∷ is) =
    if (j.author == i.author) && ((j.id == i.id) || (j.target_post_id == i.target_post_id))
    then j ∷ is
    else j ∷ put_interaction i is

-- `DELETE FROM interactions WHERE id=?1 AND author=?2`.
abbrev pub forget_interaction : ℕ → ℕ → List Interaction → List Interaction
forget_interaction id author [] = []
forget_interaction id author (i ∷ is) =
    if (i.id == id) && (i.author == author)
    then forget_interaction id author is
    else i ∷ forget_interaction id author is

abbrev pub node_ids : List DeviceEntry → List ℕ
node_ids [] = []
node_ids (d ∷ ds) = d.node_id ∷ node_ids ds

module _ (w : Env) where
  -- A failed statement and a missing row are both `none` to the callers.
  unfoldable pub get_peer_signing_pubkey : ℕ → Store → Option ℕ
  get_peer_signing_pubkey master_pubkey s =
      if w.fails q_signing then none else elim (lookup master_pubkey s.peer_delegations) [
        | none ↦ none
        | some row ↦ some row.delegation.signing_pubkey
      ]

  unfoldable pub get_peer_delegation : ℕ → Store → Option SigningKeyDelegation
  get_peer_delegation master_pubkey s =
      if w.fails q_delegation then none else elim (lookup master_pubkey s.peer_delegations) [
        | none ↦ none
        | some row ↦ some row.delegation
      ]

  -- Under `unwrap_or_default`.
  unfoldable pub get_peer_transport_node_ids : ℕ → Store → List ℕ
  get_peer_transport_node_ids master_pubkey s =
      if w.fails q_node_ids then [] else elim (lookup master_pubkey s.peer_delegations) [
        | none ↦ []
        | some row ↦ row.transport_node_ids
      ]

  -- Under `unwrap_or(None).unwrap_or(0)`.
  unfoldable pub get_peer_announcement_version : ℕ → Store → ℕ
  get_peer_announcement_version master_pubkey s =
      if w.fails q_version
      then 0
      else elim (lookup master_pubkey s.peer_device_announcements) [ none ↦ 0 | some a ↦ a.version ]

  -- Under `unwrap_or(false)`.
  unfoldable pub is_hidden : ℕ → Store → Bool
  is_hidden pubkey s = if w.fails q_hidden then false else mem pubkey s.hidden

  unfoldable pub get_post_by_id : ℕ → Store → Option Post
  get_post_by_id id s = if w.fails q_post then none else fetch w.row (with_id id s.posts)

  -- Whether it worked, and the store.
  unfoldable pub insert_post : Post → Store → Bool × Store
  insert_post post s =
      if w.fails q_insert_post
      then (false, s)
      else (true, record s { posts = put_post post s.posts })

  unfoldable pub insert_notification : Crates → Notification → Store → Store
  insert_notification c n s = if w.fails q_notify then s else record s {
    notifications =
        insert_or_ignore (c.notification_id n.kind n.actor n.target_post_id n.post_id) n
          s.notifications;
  }

  unfoldable pub save_interaction : Interaction → Store → Store
  save_interaction i s =
      if w.fails q_interaction
      then s
      else record s { interactions = put_interaction i s.interactions }

  unfoldable pub save_profile : ℕ → Profile → Store → Store
  save_profile pubkey p s =
      if w.fails q_profile then s else record s { profiles = insert pubkey p s.profiles }

  -- The second statement is not reached when the first one fails.
  unfoldable pub delete_post : ℕ → Store → Store
  delete_post id s =
      if w.fails q_unnotify
      then s
      else let s₁ : Store = record s { notifications = forget_post id s.notifications } in
        if w.fails q_delete_post then s₁ else record s₁ { posts = without_id id s₁.posts }

  unfoldable pub delete_interaction : ℕ → ℕ → Store → Store
  delete_interaction id author s =
      if w.fails q_delete_interaction
      then s
      else record s { interactions = forget_interaction id author s.interactions }

  unfoldable pub cache_peer_device_announcement : ℕ → LinkedDevicesAnnouncement → Store → Store
  cache_peer_device_announcement master_pubkey a s =
      if w.fails q_announcement
      then s
      else let s₁ : Store = record s {
        peer_device_announcements = insert master_pubkey a s.peer_device_announcements;
      } in
        if w.fails q_update_ids then s₁ else record s₁ {
          peer_delegations =
              update master_pubkey (λ row. record row { transport_node_ids = node_ids a.devices })
                s₁.peer_delegations;
        }

  unfoldable pub cache_peer_identity : ℕ → PeerRow → Store → Store
  cache_peer_identity master_pubkey row s =
      if w.fails q_identity
      then s
      else record s { peer_delegations = insert master_pubkey row s.peer_delegations }
