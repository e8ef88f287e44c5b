-- ===== src/Feed/Quiet.antt =====
-- ingest.rs: what a notification leaves alone.
use proscenium.Common.{ℕ, ◌≡◌, refl, ◌∙◌, inl, inr, Bool, true, false, Bool-cases}
use proscenium.Identity.{Post}
use proscenium.Feed.{
  notification_received, mentioned_in_post, Store, Env, Crates, Notification, Event,
}
use proscenium.Feed.Storage.{insert_notification}
use proscenium.Feed.{insert_notification as q_notify}
use proscenium.Feed.Mentions.{parse_mentions, contains}
use proscenium.Feed.Ingest.{emit, notify, notify_post}

-- Notifications and events aside, nothing changes.
pub record Quiet (s t : Store) : Type 0 where
  pub posts : t.posts ≡ s.posts
  pub interactions : t.interactions ≡ s.interactions
  pub delegations : t.peer_delegations ≡ s.peer_delegations
  pub announcements : t.peer_device_announcements ≡ s.peer_device_announcements

pub stay :
    (s t : Store)
    → t.posts ≡ s.posts
    → t.interactions ≡ s.interactions
    → t.peer_delegations ≡ s.peer_delegations
    → t.peer_device_announcements ≡ s.peer_device_announcements
    → Quiet s t
stay s t a b c d = record { posts = a; interactions = b; delegations = c; announcements = d }

Quiet-trans : {s t u : Store} → Quiet s t → Quiet t u → Quiet s u
Quiet-trans p q = record {
  posts = q.posts ∙ p.posts;
  interactions = q.interactions ∙ p.interactions;
  delegations = q.delegations ∙ p.delegations;
  announcements = q.announcements ∙ p.announcements;
}

pub emit-Quiet : (e : Event) {s t : Store} → Quiet s t → Quiet s (emit e t)
emit-Quiet e q = record {
  posts = q.posts;
  interactions = q.interactions;
  delegations = q.delegations;
  announcements = q.announcements;
}

module _ (c : Crates) (w : Env) where
  insert_notification-Quiet : (n : Notification) (s : Store) → Quiet s (insert_notification w c n s)
  unfolding insert_notification
  insert_notification-Quiet n s = elim (Bool-cases (w.fails q_notify)) [
    | inl fails ↦ rw fails (stay s s refl refl refl refl)
    | inr works ↦ rw works (stay s _ refl refl refl refl)
  ]

  pub notify-Quiet : (b : Bool) (n : Notification) (s : Store) → Quiet s (notify c w b n s)
  unfolding notify
  notify-Quiet true n s = emit-Quiet notification_received (insert_notification-Quiet n s)
  notify-Quiet false n s = stay s s refl refl refl refl

  pub notify_post-Quiet : (my_id : ℕ) (p : Post) (s : Store) → Quiet s (notify_post c w my_id p s)
  unfolding notify_post
  notify_post-Quiet my_id p s =
      elim (Bool-cases (contains (parse_mentions c.is_public_key p.content) (c.text_of my_id))) [
        | inl mentioned ↦
            simp (mentioned, notify_post)
              (Quiet-trans
                (Quiet-trans
                  (emit-Quiet notification_received
                    (emit-Quiet (mentioned_in_post p) (insert_notification-Quiet _ s)))
                  (notify-Quiet _ _ _))
                (notify-Quiet _ _ _))
        | inr not_mentioned ↦
            simp (not_mentioned, notify_post)
              (Quiet-trans (notify-Quiet _ _ _) (notify-Quiet _ _ _))
      ]
