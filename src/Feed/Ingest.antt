-- ===== src/Feed/Ingest.antt =====
-- validation.rs, ingest.rs, and process_sync_result of sync/processing.rs.
use proscenium.Common.{
  ℕ, ◌+◌, ◌*◌, Bool, true, false, not, ◌&&◌, Option, none, some, List, [], ◌∷◌, ◌++◌, ltb, ◌==◌,
  if◌then◌else◌, length,
}
use proscenium.Identity.{
  Keys, Post, Interaction, Profile, Result, ok, err, verify_post_signature,
  verify_interaction_signature,
}
use proscenium.Feed.{
  Store, Env, Crates, Event, Notification, mention, reply, quote, like, mentioned_in_post,
  notification_received,
}
use proscenium.Feed.Mentions.{parse_mentions, contains}
use proscenium.Feed.Storage.{
  get_peer_signing_pubkey, insert_post, insert_notification, save_interaction, save_profile,
}

abbrev pub max_post_content_len : ℕ
max_post_content_len = 10000

abbrev pub max_media_count : ℕ
max_media_count = 10

abbrev pub max_timestamp_drift_ms : ℕ
max_timestamp_drift_ms = 5 * 60 * 1000

abbrev pub max_display_name_len : ℕ
max_display_name_len = 200

abbrev pub max_bio_len : ℕ
max_bio_len = 2000

unfoldable pub validate_profile : Profile → Bool
validate_profile p =
    if ltb max_display_name_len (length p.display_name)
    then false
    else if ltb max_bio_len (length p.bio)
    then false
    else true

unfoldable pub validate_interaction : ℕ → Interaction → Bool
validate_interaction now i = if ltb (now + max_timestamp_drift_ms) i.timestamp then false else true

unfoldable pub validate_post : ℕ → Post → Bool
validate_post now p =
    if ltb max_post_content_len (length p.content)
    then false
    else if ltb max_media_count (length p.media)
    then false
    else if ltb (now + max_timestamp_drift_ms) p.timestamp
    then false
    else true

abbrev pub emit : Event → Store → Store
emit e s = record s { events = s.events ++ (e ∷ []) }

abbrev pub passes : {A : Type 0} → Result A → Bool
passes (ok _) = true
passes (err _) = false

abbrev is_some_of : ℕ → Option ℕ → Bool
is_some_of id none = false
is_some_of id (some k) = k == id

abbrev or_else : Option ℕ → Option ℕ → Option ℕ
or_else none o = o
or_else (some a) o = some a

module _ (keys : Keys) (w : Env) where
  -- The cached signing key if there is one that parses, else the master key.
  unfoldable pub resolve_signer : ℕ → Store → Option ℕ
  resolve_signer master_pubkey s =
      let cached : Option ℕ = elim (get_peer_signing_pubkey w master_pubkey s) [
        | none ↦ none
        | some signing_pubkey ↦ keys.parse_key signing_pubkey
      ] in
      or_else cached (keys.parse_key master_pubkey)

module _ (c : Crates) (w : Env) where
  unfoldable pub notify : Bool → Notification → Store → Store
  notify relevant n s =
      if relevant then emit notification_received (insert_notification w c n s) else s

  -- What a stored post of somebody else sets off.
  unfoldable pub notify_post : ℕ → Post → Store → Store
  notify_post my_id post s =
      let mentioned = contains (parse_mentions c.is_public_key post.content) (c.text_of my_id) in
      let s₁ =
        if mentioned
        then emit notification_received (
            emit (mentioned_in_post post) (
              insert_notification w c
                (record {
                  kind = mention;
                  actor = post.author;
                  target_post_id = none;
                  post_id = some post.id;
                  timestamp = post.timestamp;
                })
                s))
        else s in
      let s₂ =
        notify (is_some_of my_id post.reply_to_author)
          (record {
            kind = reply;
            actor = post.author;
            target_post_id = post.reply_to;
            post_id = some post.id;
            timestamp = post.timestamp;
          })
          s₁ in
      notify (is_some_of my_id post.quote_of_author)
        (record {
          kind = quote;
          actor = post.author;
          target_post_id = post.quote_of;
          post_id = some post.id;
          timestamp = post.timestamp;
        })
        s₂

  unfoldable pub store_post : ℕ → Post → Store → Bool × Store
  store_post my_id post s =
      let (stored, s') = insert_post w post s in
      if stored
      then (true, if not (post.author == my_id) then notify_post my_id post s' else s')
      else (false, s')

  unfoldable pub store_interaction : ℕ → Interaction → Store → Store
  store_interaction my_id i s =
      notify ((i.target_author == my_id) && not (i.author == my_id))
        (record {
          kind = like;
          actor = i.author;
          target_post_id = some i.target_post_id;
          post_id = none;
          timestamp = i.timestamp;
        })
        (save_interaction w i s)

module _ (keys : Keys) (c : Crates) (w : Env) where
  unfoldable pub process_incoming_post : ℕ → Post → Store → Bool × Store
  process_incoming_post my_id post s =
      if validate_post w.now post
      then elim (resolve_signer keys w post.author s) [
        | none ↦ (false, s)
        | some signer ↦
            if passes (verify_post_signature keys post signer)
            then store_post c w my_id post s
            else (false, s)
      ]
      else (false, s)

  unfoldable pub process_incoming_interaction : ℕ → ℕ → Interaction → Store → Store
  process_incoming_interaction my_id expected_author i s =
      if i.author == expected_author
      then if validate_interaction w.now i
        then elim (resolve_signer keys w i.author s) [
          | none ↦ s
          | some signer ↦
              if passes (verify_interaction_signature keys i signer)
              then store_interaction c w my_id i s
              else s
        ]
        else s
      else s

  -- The loops of `process_sync_result`.
  unfoldable pub process_posts : ℕ → List Post → Store → ℕ × Store
  process_posts my_id [] s = (0, s)
  process_posts my_id (post ∷ posts) s =
      let (stored, s₁) = process_incoming_post my_id post s in
      let (count, s₂) = process_posts my_id posts s₁ in (if stored then count + 1 else count, s₂)

  unfoldable pub process_interactions : ℕ → ℕ → List Interaction → Store → Store
  process_interactions my_id pubkey [] s = s
  process_interactions my_id pubkey (i ∷ is) s =
      process_interactions my_id pubkey is (process_incoming_interaction my_id pubkey i s)

  unfoldable pub process_sync_result :
      ℕ → ℕ → List Post → Option Profile → List Interaction → Store → ℕ × Store
  process_sync_result my_id pubkey posts profile interactions s =
      let (stored, s₁) = process_posts my_id posts s in
      let s₂ : Store = elim profile [ none ↦ s₁ | some p ↦ save_profile w pubkey p s₁ ] in
      (stored, process_interactions my_id pubkey interactions s₂)
