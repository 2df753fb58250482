-- ===== src/ThumbnailPurge.antt =====
-- `purgeThumbnailBatch` of tasks/task_runner/purge_thumbnails.go.
pub mod Safety
pub mod Progress
pub mod Counts
pub mod Loop
pub mod Ends
use matrix_media_repo.Prelude.{
  Bool, true, false, not, ◌&&◌, Option, none, some, List, [], ◌∷◌, filter, any, length, ◌==◌,
  if◌then◌else◌,
}
use matrix_media_repo.Prelude.Int.{ℤ, pos, ltb_ℤ, leb_ℤ, add64}
use matrix_media_repo.Prelude.Text.{Str}
use matrix_media_repo.Prelude.Keys.{Map, lookup, insert, pair_key}
use matrix_media_repo.Config.{Context}
use matrix_media_repo.World.{M, pure, attempt, ◌>>=◌}
use matrix_media_repo.Database.Rows.{DbThumbnail}
use matrix_media_repo.Database.Media.{location_exists}
use matrix_media_repo.Database.Thumbnails.{thumbnails_at, delete_thumbnail}
use matrix_media_repo.Datastores.{remove_with_ds_id}

-- `deletedLocations`
abbrev pub Gone : Type 0
Gone = Map (Str × Str) Bool

-- `touchedLocations`: the first thumbnail at each location. Go visits them in no fixed order; here
-- it is that of the thumbnails.
unfoldable pub touched :
    List DbThumbnail → Map (Str × Str) DbThumbnail → Map (Str × Str) DbThumbnail
touched [] seen = seen
touched (x ∷ thumbs) seen = touched thumbs (elim (lookup (x.datastore_id, x.location) seen) [
  | none ↦ insert (x.datastore_id, x.location) x seen
  | some y ↦ seen
])

-- What follows a call whose error is logged, after which the location is left.
abbrev pub or_leave : {A : Type 0} → Gone → Option A → (A → M (Gone × ℤ)) → M (Gone × ℤ)
or_leave gone none next = pure (gone, pos 0)
or_leave gone (some a) next = next a

abbrev pub one_more : Option (Unit {0}) → ℤ → ℤ
one_more none n = n
one_more (some u) n = add64 n (pos 1)

-- The rows of the old thumbnails, of which those that can be deleted are counted.
unfoldable pub delete_old : List DbThumbnail → ℤ → M ℤ
delete_old [] n = pure n
delete_old (x ∷ thumbs) n = do
  deleted ← attempt (delete_thumbnail x)
  delete_old thumbs (one_more deleted n)

abbrev pub is_old : ℤ → DbThumbnail → Bool
is_old before_ts x = ltb_ℤ x.creation_ts before_ts

abbrev pub is_new : ℤ → DbThumbnail → Bool
is_new before_ts x = not (is_old before_ts x)

-- The object goes where no medium and no newer thumbnail uses it; the rows of the old thumbnails go,
-- unless the object was to go and could not.
unfoldable pub clear_location :
    Context → ℤ → DbThumbnail → Gone → Bool → List DbThumbnail → M (Gone × ℤ)
unfolding delete_old
clear_location ctx before_ts x gone media_exists here =
    if length (filter (is_old before_ts) here) == 0
    then pure (gone, pos 0)
    else if not media_exists && not (any (is_new before_ts) here)
    then (do
      removed ← attempt (remove_with_ds_id ctx x.datastore_id x.location)
      or_leave gone removed λ _. (do
        n ← delete_old (filter (is_old before_ts) here) (pos 0)
        pure (insert (x.datastore_id, x.location) true gone, n)))
    else (do n ← delete_old (filter (is_old before_ts) here) (pos 0); pure (gone, n))

-- The body of the loop over the locations.
unfoldable pub purge_location : Context → ℤ → DbThumbnail → Gone → M (Gone × ℤ)
unfolding clear_location
purge_location ctx before_ts x gone = do
  media_exists ← attempt (location_exists x.datastore_id x.location)
  or_leave gone media_exists λ used. (do
    here ← attempt (thumbnails_at x.datastore_id x.location)
    or_leave gone here (clear_location ctx before_ts x gone used))

abbrev pub unless_gone : Option Bool → Gone → M (Gone × ℤ) → M (Gone × ℤ)
unless_gone none gone next = next
unless_gone (some b) gone next = pure (gone, pos 0)

unfoldable pub purge_locations : Context → ℤ → Map (Str × Str) DbThumbnail → Gone → ℤ → M (Gone × ℤ)
unfolding purge_location
purge_locations ctx before_ts [] gone total = pure (gone, total)
purge_locations ctx before_ts ((loc, x) ∷ rest) gone total = do
  (gone', n) ← unless_gone (lookup loc gone) gone (purge_location ctx before_ts x gone)
  purge_locations ctx before_ts rest gone' (add64 total n)

-- `purgeThumbnailBatch`: the locations known to be gone, and the number of deleted rows.
unfoldable pub purge_thumbnail_batch : Context → List DbThumbnail → Gone → ℤ → M (Gone × ℤ)
unfolding touched purge_locations
purge_thumbnail_batch ctx thumbs gone before_ts =
    purge_locations ctx before_ts (touched thumbs []) gone (pos 0)
