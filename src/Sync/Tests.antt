-- ===== src/Sync/Tests.antt =====
-- Syncs between small tables, and the theorems at such inputs.
use proscenium.Common.{ℕ, ◌≡◌, ◌⊎◌, refl, true, false, none, some, List, [], ◌∷◌, arith}
use proscenium.Sync.{
  Row, public_profile, private_profile, SyncMode, timestamp_catch_up, need_id_diff, is_catch_up,
  after_count, keep, ids_of, is_new, may_sync, sync_mode, sync_request, handle_sync, stream_all,
  sync_from_peer,
}
use proscenium.Sync.Paging.{concat, concat-stream_all}
use proscenium.Sync.Complete.{IsPart, sync_from_peer_lem}

abbrev row : ℕ → ℕ → Row
row id timestamp = record { id = id; timestamp = timestamp; columns = [] }

abbrev server_rows : List Row
server_rows = row 1 10 ∷ row 2 20 ∷ row 3 30 ∷ []

abbrev client_rows : List Row
client_rows = row 1 10 ∷ row 3 30 ∷ []

-- A gap in the middle needs the ids, a missing end does not.
gap_needs_ids : sync_mode (sync_request client_rows []) server_rows [] ≡ need_id_diff
unfolding sync_mode sync_request is_catch_up after_count
gap_needs_ids = refl

end_needs_time : sync_mode (sync_request (row 1 10 ∷ []) []) server_rows [] ≡ timestamp_catch_up
unfolding sync_mode sync_request is_catch_up after_count
end_needs_time = refl

stranger_rejected : sync_from_peer private_profile true false client_rows [] server_rows [] ≡ none
unfolding sync_from_peer handle_sync may_sync
stranger_rejected = refl

client_rows-IsPart : IsPart client_rows server_rows
client_rows-IsPart = record {
  part = refl;
  positive = (omega arith, (omega arith, (omega arith, tt)));
}

no_rows-IsPart : IsPart [] []
no_rows-IsPart = record { part = refl; positive = tt }

sync_from_peer_lem_example :
    (mode : SyncMode) × (got : List Row) × (sync_from_peer public_profile false false client_rows []
        server_rows []
      ≡ some (mode, keep (is_new (ids_of client_rows)) server_rows, got))
    × ((got ≡ keep (is_new []) []) ⊎ (got ≡ []))
unfolding may_sync
sync_from_peer_lem_example =
    sync_from_peer_lem public_profile false false client_rows [] server_rows [] refl
      client_rows-IsPart no_rows-IsPart

concat-stream_whole_example : concat (stream_all server_rows) ≡ server_rows
concat-stream_whole_example = concat-stream_all server_rows
