-- ===== src/DeviceSync/Tests.antt =====
-- Two devices that merge, and the theorem at them.
use proscenium.Common.{◌≡◌, refl, [], ◌∷◌}
use proscenium.DeviceSync.{Device, sync_with_device}
use proscenium.DeviceSync.Convergence.{IsTidy, Converged, sync_with_device_lem}

-- The phone unfollowed user 7 after the laptop followed it, and has the newer session with peer 9;
-- the laptop muted user 8.
abbrev phone : Device
phone = record {
  follows = (7, record { followed_at = 10; state = 0; last_changed_at = 30 }) ∷ [];
  moderation = [];
  bookmarks = 1 ∷ 2 ∷ [];
  sessions = (9, record { state_json = 55; updated_at = 21 }) ∷ [];
}

abbrev laptop : Device
laptop = record {
  follows =
      (7, record { followed_at = 10; state = 1; last_changed_at = 20 })
      ∷ (6, record { followed_at = 11; state = 1; last_changed_at = 11 })
      ∷ [];
  moderation = ((8, 0), record { created_at = 12; state = 1; last_changed_at = 12 }) ∷ [];
  bookmarks = 2 ∷ 3 ∷ [];
  sessions = (9, record { state_json = 44; updated_at = 20 }) ∷ [];
}

both_sessions : (sync_with_device phone laptop).1.sessions ≡ phone.sessions
both_sessions = refl

phone_follows :
    (sync_with_device phone laptop).0.follows
    ≡ (7, record { followed_at = 10; state = 0; last_changed_at = 30 })
      ∷ (6, record { followed_at = 11; state = 1; last_changed_at = 11 })
      ∷ []
phone_follows = refl

phone-IsTidy : IsTidy phone
phone-IsTidy = ((refl, tt), tt, (refl, tt))

laptop-IsTidy : IsTidy laptop
laptop-IsTidy = ((refl, (refl, tt)), (refl, tt), (refl, tt))

sync_with_device_lem_example :
    Converged phone laptop
      (sync_with_device phone laptop).0
      (sync_with_device phone laptop).1
      7
      (8, 0)
      9
      3
sync_with_device_lem_example =
    sync_with_device_lem phone laptop 7 (8, 0) 9 3 phone-IsTidy laptop-IsTidy
