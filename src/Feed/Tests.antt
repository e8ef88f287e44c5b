-- ===== src/Feed/Tests.antt =====
-- Runs of the feed over toy keys, and the theorems at such inputs.
use proscenium.Common.{
  ◌≡◌, refl, true, false, none, some, List, [], ◌∷◌, ◌++◌, take, arith, be_bytes, bytes_eq,
}
use proscenium.Identity.{
  Keys, Post, SigningKeyDelegation, SigningKeyRotation, LinkedDevicesAnnouncement,
  verify_post_signature, verify_bytes, hex_to_signature, verify_delegation,
  verify_linked_devices_announcement,
}
use proscenium.Feed.{Store, Env, Crates, new_post, delete_post_message, signing_key_rotation}
use proscenium.Feed.Storage.{
  row_of, is_hidden, get_peer_signing_pubkey, insert_post, delete_post,
  cache_peer_device_announcement,
}
use proscenium.Feed.Ingest.{
  validate_post, resolve_signer, notify, notify_post, store_post, process_incoming_post,
}
use proscenium.Feed.Mentions.{hex_run, mentions_loop, parse_mentions}
use proscenium.Feed.Mentions.Found.{IsFound, parse_mentions_lem}
use proscenium.Feed.Authentic.{IsSound}
use proscenium.Feed.Gossip.{
  Arrival, gossip, synced, receive, receive_all, handle_follow_message, handle_new_post,
  cache_announcements,
}
use proscenium.Feed.Gossip.Soundness.{receive_all-IsSound}
use proscenium.Feed.Gossip.Confined.{OnlyBy, AskedFor, handle_follow_message-OnlyBy}
use proscenium.Feed.Progress.{version_of}
use proscenium.Feed.Progress.Runs.{Advances, receive_all-Advances}

abbrev toy_keys : Keys
toy_keys = record {
  public_key = λ s. s;
  parse_key = λ k. some k;
  sign = λ s m. be_bytes 64 s;
  verify = λ k m sig. bytes_eq sig (be_bytes 64 k);
  hex_encode = λ b. b ++ b;
  hex_decode = λ b. some (take 64 b);
  to_json = λ fields. [];
  hkdf = λ salt key info len. key;
}

abbrev toy_crates : Crates
toy_crates = record {
  is_public_key = λ b. true;
  text_of = λ id. id ∷ [];
  notification_id = λ kind actor target post. actor;
}

abbrev works : Env
works = record { now = 1000; fails = λ q. false; row = 0 }

abbrev empty : Store
empty = record {
  posts = [];
  interactions = [];
  profiles = [];
  notifications = [];
  peer_delegations = [];
  peer_device_announcements = [];
  hidden = [];
  events = [];
}

abbrev hello : Post
hello = record {
  id = 1;
  author = 5;
  content = 104 ∷ 105 ∷ [];
  timestamp = 900;
  media = [];
  reply_to = none;
  reply_to_author = none;
  quote_of = none;
  quote_of_author = none;
  signature = be_bytes 64 5 ++ be_bytes 64 5;
}

abbrev delegation : SigningKeyDelegation
delegation = record {
  master_pubkey = 5;
  signing_pubkey = 7;
  key_index = 2;
  dm_pubkey = 8;
  dm_key_index = 1;
  issued_at = 80;
  signature = be_bytes 64 5 ++ be_bytes 64 5;
}

abbrev rotation : SigningKeyRotation
rotation = record {
  master_pubkey = 5;
  old_signing_pubkey = 6;
  new_signing_pubkey = 7;
  new_key_index = 2;
  timestamp = 90;
  signature = be_bytes 64 5 ++ be_bytes 64 5;
  new_delegation = delegation;
}

abbrev devices : LinkedDevicesAnnouncement
devices = record {
  master_pubkey = 5;
  delegation = delegation;
  devices = record { node_id = 70; device_name = 71; is_primary = true; added_at = 60 } ∷ [];
  version = 3;
  timestamp = 95;
  signature = be_bytes 64 7 ++ be_bytes 64 7;
}

abbrev arrivals : List (Env × Arrival)
arrivals =
    (works, gossip 5 (some (new_post hello)))
    ∷ (works, gossip 5 (some (signing_key_rotation rotation)))
    ∷ (works, synced 5 (devices ∷ []) (hello ∷ []) none [])
    ∷ (works, gossip 5 (some (delete_post_message 1 5 [])))
    ∷ []

stored :
    row_of 5 1
      (receive_all toy_keys toy_crates 9
        ((works, gossip 5 (some (new_post hello))) ∷ [])
        empty).posts
    ≡ some hello
unfolding receive_all receive handle_follow_message handle_new_post is_hidden process_incoming_post
    validate_post resolve_signer get_peer_signing_pubkey verify_post_signature verify_bytes
    hex_to_signature store_post insert_post notify_post notify parse_mentions mentions_loop hex_run
stored = refl

-- The deletion of the peer's own post takes the post of another author with the same id along.
deleted_along :
    (delete_post works 1 (record empty { posts = hello ∷ record hello { author = 6 } ∷ [] })).posts
    ≡ []
unfolding delete_post
deleted_along = refl

-- A sync lowers the version that is cached.
lowered :
    version_of 5 (
      cache_announcements toy_keys works 5
        (devices ∷ [])
        (record empty { peer_device_announcements = (5, record devices { version = 4 }) ∷ [] }))
    ≡ 3
unfolding cache_announcements cache_peer_device_announcement verify_linked_devices_announcement
    verify_delegation hex_to_signature
lowered = refl

receive_all-IsSound_example : IsSound toy_keys (receive_all toy_keys toy_crates 9 arrivals empty)
receive_all-IsSound_example =
    receive_all-IsSound toy_keys toy_crates 9 arrivals empty
      (record { posts = tt; interactions = tt; delegations = tt })

receive_all-Advances_example :
    Advances arrivals empty (receive_all toy_keys toy_crates 9 arrivals empty)
receive_all-Advances_example = receive_all-Advances toy_keys toy_crates 9 arrivals empty (
  record { delegation = refl; version = refl },
  (
    record { delegation = refl; version = refl },
    (
      record { delegation = refl; version = refl },
      (record { delegation = refl; version = refl }, tt),
    ),
  ),
)

handle_follow_message-OnlyBy_example :
    OnlyBy
      (AskedFor (some (delete_post_message 1 6 [])))
      6
      (record empty { posts = hello ∷ [] })
      (handle_follow_message toy_keys toy_crates works 6 9
        (some (delete_post_message 1 6 []))
        (record empty { posts = hello ∷ [] }))
handle_follow_message-OnlyBy_example =
    handle_follow_message-OnlyBy toy_keys toy_crates works 6 9 (some (delete_post_message 1 6 []))
      (record empty { posts = hello ∷ [] })

parse_mentions_lem_example :
    IsFound (λ b. true) (parse_mentions (λ b. true) (64 ∷ 97 ∷ 98 ∷ []))
    × (mentions_loop (λ b. true) 10 (64 ∷ 97 ∷ 98 ∷ []) []
        ≡ parse_mentions (λ b. true) (64 ∷ 97 ∷ 98 ∷ []))
parse_mentions_lem_example = parse_mentions_lem (λ b. true) (64 ∷ 97 ∷ 98 ∷ []) 10 (omega arith)
