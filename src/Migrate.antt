-- ===== src/Migrate.antt =====
-- tasks/task_runner/datastore_migrate.go and `Download` of datastores/download.go: the files of one
-- datastore that were not accessed lately move to another.
pub mod Moves
pub mod Safety
pub mod Steps
pub mod Task
use matrix_media_repo.Prelude.{
  Bool, true, not, ◌||◌, Option, none, some, List, [], ◌∷◌, if◌then◌else◌,
}
use matrix_media_repo.Prelude.Int.{ℤ}
use matrix_media_repo.Prelude.Text.{Str, str_eq, codes}
use matrix_media_repo.Prelude.Keys.{Map, lookup, insert, str_key}
use matrix_media_repo.Common.{new}
use matrix_media_repo.Config.{Context, DatastoreConfig}
use matrix_media_repo.World.{M, pure, raise, ask, attempt, ◌>>=◌, ◌>>◌}
use matrix_media_repo.Database.Rows.{VirtLastAccess}
use matrix_media_repo.Database.Media.{update_location}
use matrix_media_repo.Database.Thumbnails.{update_thumbnail_location}
use matrix_media_repo.Database.Access.{media_by_last_access, thumbnails_by_last_access}
use matrix_media_repo.Datastores
use matrix_media_repo.Datastores.{get, remove}
use matrix_media_repo.Purge.{location_id}

abbrev pub Moved : Type 0
Moved = Map Str Bool

pub record DatastoreMigrateParams : Type 0 where
  pub source_ds_id : Str
  pub target_ds_id : Str
  pub before_ts : ℤ

-- `object` is what a datastore holds at a location.
module _ (object : Str → Str → Str) (sha256 : Str → Str) where
  -- `datastores.Download`
  unfoldable pub download : DatastoreConfig → Str → M Str
  download ds location =
      if str_eq ds.ds_type (codes "s3") || str_eq ds.ds_type (codes "file")
      then ask (λ _. object ds.id location)
      else raise (new (codes "unknown datastore type - contact developer"))

  -- One file: the body of the loop up to its first error, which is logged.
  unfoldable pub move_object : DatastoreConfig → DatastoreConfig → VirtLastAccess → M (Unit {0})
  unfolding download
  move_object source target r = do
    bytes ← download source r.location
    location ← Datastores.upload sha256 target bytes r.size_bytes r.sha256_hash
    update_location r.datastore_id r.location target.id location
    update_thumbnail_location r.datastore_id r.location target.id location
    remove source r.location

  abbrev pub mark_moved : Str → Option (Unit {0}) → Moved → Moved
  mark_moved done_id none moved = moved
  mark_moved done_id (some u) moved = insert done_id true moved

  -- `moveDatastoreObjects`
  unfoldable pub move_objects :
      DatastoreConfig → DatastoreConfig → List VirtLastAccess → Moved → M (Unit {0})
  unfolding move_object
  move_objects source target [] moved = pure tt
  move_objects source target (r ∷ records) moved =
      elim (lookup (location_id r.datastore_id r.location) moved) [
        | some b ↦ move_objects source target records moved
        | none ↦ (do
          result ← attempt (move_object source target r)
          move_objects source target records
              (mark_moved (location_id r.datastore_id r.location) result moved))
      ]

  -- The error that the task is marked with, if any.
  abbrev located_or :
      Str → Option (List VirtLastAccess) → (List VirtLastAccess → M (Option Str)) → M (Option Str)
  located_or message none next = pure (some message)
  located_or message (some records) next = next records

  abbrev between :
      Option DatastoreConfig
      → Option DatastoreConfig
      → (DatastoreConfig → DatastoreConfig → M (Option Str))
      → M (Option Str)
  between none target next = pure (some (codes "missing source"))
  between (some source) none next = pure (some (codes "missing target"))
  between (some source) (some target) next = next source target

  -- `DatastoreMigrate`, with the parameters decoded.
  unfoldable pub datastore_migrate : Context → DatastoreMigrateParams → M (Option Str)
  unfolding move_objects
  datastore_migrate ctx params =
      if str_eq params.source_ds_id params.target_ds_id
      then pure (some (codes "source and target are the same"))
      else between (get ctx.domain.data_stores params.source_ds_id)
          (get ctx.domain.data_stores params.target_ds_id)
          λ source target. (do
            media ← attempt (media_by_last_access params.source_ds_id params.before_ts)
            located_or (codes "error in locate") media λ records. (do
              move_objects source target records []
              thumbs ← attempt (thumbnails_by_last_access params.source_ds_id params.before_ts)
              located_or (codes "error in thumbnails") thumbs
                  λ records'. (do move_objects source target records' []; pure none)))
