-- ===== src/Datastores.antt =====
-- datastores/: which datastore takes a file, and the removal of an object.
-- `Pick`, `Get`, `HasListedKind`, `Upload`, `Remove` and `RemoveWithDsId`, and the size estimate of
-- database/virtualtable_metadata.go that `Pick` reads.
pub mod Choice
pub mod Removal
pub mod Sizes
use matrix_media_repo.Prelude.{
  ℕ, zero, suc, not, take, drop, Bool, true, false, ◌||◌, Option, none, some, List, [], ◌∷◌, ◌++◌,
  any, filter, length, map, if◌then◌else◌,
}
use matrix_media_repo.Prelude.Int.{ℤ, pos, negsuc, ltb_ℤ, eqb_ℤ, ◌+ℤ◌}
use matrix_media_repo.Prelude.Text.{Str, str_eq, codes}
use matrix_media_repo.Common.{Error, Result, ok, err, new}
use matrix_media_repo.World.{
  World, M, pure, raise, ask, query, remove_object, os_remove, put_object, ignore_error, ◌>>=◌,
  ◌>>◌,
}
use matrix_media_repo.Prelude.Keys.{Map, lookup, insert, str_key}
use matrix_media_repo.Util.Mxc.{slash}
use matrix_media_repo.Database.Rows.{DbMedia, DbThumbnail}
use matrix_media_repo.Config.{DatastoreConfig, Context}

pub data Kind : Type 0 where
  local_media remote_media thumbnails archives all_kinds : Kind

abbrev pub kind_name : Kind → Str
kind_name local_media = codes "local_media"
kind_name remote_media = codes "remote_media"
kind_name thumbnails = codes "thumbnails"
kind_name archives = codes "archives"
kind_name all_kinds = codes "all"

-- `HasListedKind`
unfoldable pub has_listed_kind : List Str → Kind → Bool
has_listed_kind have want =
    any (λ k. str_eq k (kind_name want) || str_eq k (kind_name all_kinds)) have

-- `Get`
unfoldable pub get : List DatastoreConfig → Str → Option DatastoreConfig
get [] ds_id = none
get (c ∷ confs) ds_id = if str_eq c.id ds_id then some c else get confs ds_id

-- The sizes of the distinct hashes: for each hash the largest size that a row has.
unfoldable pub max_by_hash : List (Str × ℤ) → Map Str ℤ
max_by_hash [] = []
max_by_hash ((hash, size) ∷ rows) =
    let rest = max_by_hash rows in
    elim (lookup hash rest) [
      | none ↦ insert hash size rest
      | some n ↦ insert hash (if ltb_ℤ n size then size else n) rest
    ]

unfoldable pub sum_sizes : Map Str ℤ → ℤ
sum_sizes [] = pos 0
sum_sizes ((hash, size) ∷ m) = size +ℤ sum_sizes m

-- `EstimateDatastoreSize`
unfoldable pub estimate_datastore_size : Str → M ℤ
unfolding max_by_hash sum_sizes
estimate_datastore_size ds_id = query (λ t.
    sum_sizes (
      max_by_hash (
        map (λ (m : DbMedia). (m.sha256_hash, m.size_bytes))
          (filter (λ (m : DbMedia). str_eq m.datastore_id ds_id) t.media)))
    +ℤ sum_sizes (
        max_by_hash (
          map (λ (x : DbThumbnail). (x.sha256_hash, x.size_bytes))
            (filter (λ (x : DbThumbnail). str_eq x.datastore_id ds_id) t.thumbnails))))

-- The loop over the usable datastores, at the index `i`. `ds_size` is -1 throughout: the loop does
-- not assign it.
unfoldable pub pick_index : ℤ → List DatastoreConfig → ℕ → ℕ → M ℕ
pick_index ds_size [] i idx = pure idx
pick_index ds_size (ds ∷ usable) i idx = do
  size ← estimate_datastore_size ds.id
  pick_index ds_size usable (suc i) (if ltb_ℤ ds_size (pos 0) || ltb_ℤ ds_size size then i else idx)

abbrev no_usable : Error
no_usable = new (codes "unable to locate a usable datastore")

-- `usable[idx]`, which would panic out of range.
abbrev pub at_index : List DatastoreConfig → ℕ → M DatastoreConfig
at_index [] idx = raise no_usable
at_index (ds ∷ usable) zero = pure ds
at_index (ds ∷ usable) (suc idx) = at_index usable idx

abbrev pub choose : List DatastoreConfig → M DatastoreConfig
choose [] = raise no_usable
choose (ds ∷ []) = pure ds
choose (ds ∷ (ds' ∷ usable)) = do
  idx ← pick_index (negsuc 0) (ds ∷ (ds' ∷ usable)) 0 0
  at_index (ds ∷ (ds' ∷ usable)) idx

abbrev pub usable_for : Context → Kind → List DatastoreConfig
usable_for ctx kind =
    filter (λ (c : DatastoreConfig). has_listed_kind c.media_kinds kind) ctx.domain.data_stores

-- `Pick`
unfoldable pub pick : Context → Kind → M DatastoreConfig
unfolding pick_index
pick ctx kind = choose (usable_for ctx kind)

-- `ids.NewUniqueId`: random text, padded with a snowflake.
unfoldable pub new_unique_id : M Str
new_unique_id = do
  r ← ask (λ w. w.env.random w.calls)
  sf ← ask (λ w. w.env.random w.calls)
  pure (r ++ sf)

-- Where a file datastore puts an object: two levels of directories named by its first bytes.
abbrev file_path : Str → Str
file_path (a ∷ (b ∷ (c ∷ (d ∷ name)))) =
    (a ∷ (b ∷ [])) ++ (slash ∷ (c ∷ (d ∷ []))) ++ (slash ∷ name)
file_path name = name

-- The name of an S3 object, split after its prefix.
abbrev s3_path : ℕ → Str → Str
s3_path zero name = name
s3_path (suc n) name = take (suc n) name ++ (slash ∷ drop (suc n) name)

-- `Remove`. `getS3` can fail before the request is made.
unfoldable pub remove : DatastoreConfig → Str → M (Unit {0})
remove ds location =
    if str_eq ds.ds_type (codes "s3")
    then (ask (λ _. tt) >> remove_object ds.id location)
    else if str_eq ds.ds_type (codes "file")
    then os_remove ds.id location
    else raise (new (codes "unknown datastore type - contact developer"))

-- `RemoveWithDsId`
unfoldable pub remove_with_ds_id : Context → Str → Str → M (Unit {0})
unfolding get remove
remove_with_ds_id ctx ds_id location = elim (get ctx.domain.data_stores ds_id) [
  | none ↦ raise (new (codes "unknown datastore"))
  | some ds ↦ remove ds location
]

-- The object is written and its size comes back. A file datastore copies every byte.
abbrev pub write_object : DatastoreConfig → Str → Str → M (Str × ℤ)
write_object ds name bytes =
    if str_eq ds.ds_type (codes "s3")
    then (do
      ask (λ _. tt)
      size ← put_object ds.id (s3_path ds.prefix_length name)
      pure (s3_path ds.prefix_length name, size))
    else if str_eq ds.ds_type (codes "file")
    then (do put_object ds.id (file_path name); pure (file_path name, pos (length bytes)))
    else raise (new (codes "unknown datastore type - contact developer"))

module _ (sha256 : Str → Str) where
  -- `Upload`: the object's location, once its size and its hash are those announced. An object that
  -- fails the test is removed, and an error of that removal is only logged.
  unfoldable pub upload : DatastoreConfig → Str → ℤ → Str → M Str
  upload ds bytes size hash = do
    name ← new_unique_id
    (location, uploaded) ← write_object ds (name ++ codes "idv2fmt") bytes
    if not (eqb_ℤ uploaded size)
        then (ignore_error (remove ds location) >> raise (new (codes "upload size mismatch")))
        else if not (str_eq (sha256 bytes) hash)
        then (ignore_error (remove ds location) >> raise (new (codes "upload hash mismatch")))
        else pure location
