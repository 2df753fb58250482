-- ===== src/Purge.antt =====
-- tasks/task_runner/purge.go, purge_remote_media.go and `resolveMedia` of quarantine.go: which
-- media a purge affects, and the three stages in which it deletes files and rows.
pub mod Cover
pub mod Identify
mod Mark
mod Remove
pub mod Safety
pub mod Spares
pub mod Resolve
use matrix_media_repo.Prelude.{
  Bool, true, false, not, ◌&&◌, ◌||◌, Option, none, some, List, [], ◌∷◌, ◌++◌, map, all, length,
  if◌then◌else◌,
}
use matrix_media_repo.Prelude.Int.{ℤ, pos}
use matrix_media_repo.Prelude.Text.{Str, str_eq, codes}
use matrix_media_repo.Prelude.Keys.{Map, lookup, insert, str_key}
use matrix_media_repo.Common.{Error, Result, ok, err, new, wrong_user}
use matrix_media_repo.World.{World, M, pure, raise, raise_if, continue, ◌>>=◌, ◌>>◌}
use matrix_media_repo.Config.{Context, is_server_ours}
use matrix_media_repo.Util.Mxc.{mxc_uri, split_mxc, slash}
use matrix_media_repo.Database.Rows.{DbMedia, DbThumbnail, DbMediaAttributes, purpose_pinned}
use matrix_media_repo.Database.Media.{get_by_id, get_by_location, delete_media, get_old_excluding}
use matrix_media_repo.Database.Thumbnails.{get_for_media, thumbnails_at, delete_thumbnail}
use matrix_media_repo.Database.Ids.{get_attributes, insert_reserved}
use matrix_media_repo.Datastores.{remove_with_ds_id}

-- `QuarantineThis`: nil fields are `none`. `DbMedia` may be nil or a list.
pub record QuarantineThis : Type 0 where
  pub mxc_uris : List Str
  pub single : Option (Str × Str)
  pub db_media : List DbMedia

abbrev add_found : Option DbMedia → List DbMedia → List DbMedia
add_found none records = records
add_found (some r) records = records ++ r ∷ []

-- The test of the host comes before the test of the error: an unparsable URI has the host "".
abbrev resolve_one : Str → Result (Str × Str) → M (Option DbMedia)
resolve_one only_host (err e) = if not (str_eq only_host []) then pure none else raise e
resolve_one only_host (ok (origin, media_id)) =
    if not (str_eq only_host []) && not (str_eq origin only_host)
    then pure none
    else get_by_id origin media_id

unfoldable resolve_uris : Str → List Str → List DbMedia → M (List DbMedia)
resolve_uris only_host [] records = pure records
resolve_uris only_host (mxc ∷ rest) records = do
  found ← resolve_one only_host (split_mxc mxc)
  resolve_uris only_host rest (add_found found records)

abbrev resolve_single : Str → Option (Str × Str) → List DbMedia → M (List DbMedia)
resolve_single only_host none records = pure records
resolve_single only_host (some (origin, media_id)) records =
    if str_eq only_host [] || str_eq origin only_host
    then (do found ← get_by_id origin media_id; pure (add_found found records))
    else pure records

-- `resolveMedia`
unfoldable pub resolve_media : Str → QuarantineThis → M (List DbMedia)
unfolding resolve_uris
resolve_media only_host to_handle = do
  records ← resolve_single only_host to_handle.single to_handle.db_media
  resolve_uris only_host to_handle.mxc_uris records

abbrev pub media_mxc : DbMedia → Str
media_mxc r = mxc_uri r.origin r.media_id

abbrev pub thumbnail_mxc : DbThumbnail → Str
thumbnail_mxc t = mxc_uri t.origin t.media_id

-- `fmt.Sprintf("%s/%s", datastoreId, location)`
unfoldable pub location_id : Str → Str → Str
location_id ds location = ds ++ (slash ∷ location)

abbrev pub is_pinned : Option DbMediaAttributes → Bool
is_pinned none = false
is_pinned (some a) = str_eq a.purpose purpose_pinned

-- The pre-filter.
unfoldable pub pre_filter : Bool → List DbMedia → M (List DbMedia)
pre_filter include_quarantined [] = pure []
pre_filter include_quarantined (r ∷ records) =
    let rest = pre_filter include_quarantined records in
    if r.quarantined && not include_quarantined then rest else do
      attrs ← get_attributes r.origin r.media_id
      kept ← rest
      pure (if is_pinned attrs then kept else r ∷ kept)

-- For each file, whether each medium that uses it is being purged.
abbrev pub Flags : Type 0
Flags = Map Str (Map Str Bool)

abbrev pub Thumbs : Type 0
Thumbs = Map Str (List DbThumbnail)

pub flag_false : List Str → Map Str Bool → Map Str Bool
flag_false [] m = m
flag_false (mxc ∷ rest) m = flag_false rest (insert mxc false m)

-- `doFlagging`
unfoldable pub do_flagging : Str → Str → Flags → M Flags
unfolding flag_false
do_flagging ds location flags = elim (lookup (location_id ds location) flags) [
  | some _ ↦ pure flags
  | none ↦ do
    media ← get_by_location ds location
    thumbs ← thumbnails_at ds location
    pure (
        insert (location_id ds location)
          (flag_false (map thumbnail_mxc thumbs) (flag_false (map media_mxc media) [])) flags)
]

unfoldable pub flag_thumbs : List DbThumbnail → Flags → M Flags
flag_thumbs [] flags = pure flags
flag_thumbs (t ∷ thumbs) flags = do
  flags' ← do_flagging t.datastore_id t.location flags
  flag_thumbs thumbs flags'

-- Stage 1.
unfoldable pub identify : List DbMedia → Flags → Thumbs → M (Flags × Thumbs)
identify [] flags thumbs_map = pure (flags, thumbs_map)
identify (r ∷ records) flags thumbs_map = do
  flags' ← do_flagging r.datastore_id r.location flags
  thumbs ← get_for_media r.origin r.media_id
  flags'' ← flag_thumbs thumbs flags'
  identify records flags'' (insert (media_mxc r) thumbs thumbs_map)

abbrev mark_in : Str → Str → Flags → Option (Map Str Bool) → Result Flags
mark_in location_key mxc flags none =
    err (new (codes "logic error: missing flag map for location ID in second step"))
mark_in location_key mxc flags (some m) = elim (lookup mxc m) [
  | none ↦ err (new (codes "logic error: missing flag map value for MXC URI in second step"))
  | some v ↦ ok (if v then flags else insert location_key (insert mxc true m) flags)
]

-- `markBeingPurged`
unfoldable pub mark_being_purged : Str → Str → Flags → M Flags
mark_being_purged location_key mxc flags w =
    (mark_in location_key mxc flags (lookup location_key flags), w)

unfoldable pub mark_thumbs : List DbThumbnail → Flags → M Flags
mark_thumbs [] flags = pure flags
mark_thumbs (t ∷ thumbs) flags = do
  flags' ← mark_being_purged (location_id t.datastore_id t.location) (thumbnail_mxc t) flags
  mark_thumbs thumbs flags'

abbrev missing_in_second_step : Str
missing_in_second_step =
    codes "logic error: missing thumbnails map value for MXC URI in second step"

abbrev missing_in_third_step : Str
missing_in_third_step = codes "logic error: missing thumbnails for MXC URI in third step"

-- The thumbnails that stage 1 found for a medium.
abbrev pub thumbs_of : Str → Str → Thumbs → M (List DbThumbnail)
thumbs_of missing mxc thumbs_map = elim (lookup mxc thumbs_map) [
  | none ↦ raise (new missing)
  | some thumbs ↦ pure thumbs
]

-- Stage 2.
unfoldable pub mark : List DbMedia → Thumbs → Flags → M Flags
mark [] thumbs_map flags = pure flags
mark (r ∷ records) thumbs_map flags = do
  flags' ← mark_being_purged (location_id r.datastore_id r.location) (media_mxc r) flags
  thumbs ← thumbs_of missing_in_second_step (media_mxc r) thumbs_map
  flags'' ← mark_thumbs thumbs flags'
  mark records thumbs_map flags''

abbrev pub Deleted : Type 0
Deleted = Map Str Bool

-- `tryRemoveDsFile`
unfoldable pub try_remove_ds_file : Context → Flags → Str → Str → Deleted → M Deleted
try_remove_ds_file ctx flags ds location deleted = elim (lookup (location_id ds location) deleted) [
  | some _ ↦ pure deleted
  | none ↦ elim (lookup (location_id ds location) flags) [
    | none ↦ raise (new (codes "logic error: missing flag map value for location ID in third step"))
    | some m ↦
        if all (λ (e : Str × Bool). e.1) m
        then (do
          remove_with_ds_id ctx ds location
          pure (insert (location_id ds location) true deleted))
        else pure deleted
  ]
]

unfoldable pub remove_thumbs : Context → Flags → List DbThumbnail → Deleted → M Deleted
remove_thumbs ctx flags [] deleted = pure deleted
remove_thumbs ctx flags (t ∷ thumbs) deleted = do
  deleted' ← try_remove_ds_file ctx flags t.datastore_id t.location deleted
  delete_thumbnail t
  remove_thumbs ctx flags thumbs deleted'

abbrev pub done : M (Unit {0})
done = pure tt

-- The ID of a medium of ours is not given out again.
unfoldable pub reserve_id : Context → DbMedia → M (Unit {0})
reserve_id ctx r =
    if is_server_ours ctx r.origin
    then insert_reserved r.origin r.media_id (codes "purged / deleted")
    else done

-- The row of a quarantined medium stays, to keep the flag.
unfoldable pub delete_row : DbMedia → M (Unit {0})
delete_row r = if r.quarantined then done else delete_media r.origin r.media_id

-- Stage 3.
unfoldable pub remove_records :
    Context → Flags → Thumbs → List DbMedia → Deleted → List Str → M (List Str)
remove_records ctx flags thumbs_map [] deleted removed_mxcs = pure removed_mxcs
remove_records ctx flags thumbs_map (r ∷ records) deleted removed_mxcs = do
  deleted' ← try_remove_ds_file ctx flags r.datastore_id r.location deleted
  reserve_id ctx r
  delete_row r
  thumbs ← thumbs_of missing_in_third_step (media_mxc r) thumbs_map
  deleted'' ← remove_thumbs ctx flags thumbs deleted'
  remove_records ctx flags thumbs_map records deleted'' (removed_mxcs ++ media_mxc r ∷ [])

-- The three stages over the records that the pre-filter keeps.
unfoldable pub purge_stages : Context → List DbMedia → M (List Str)
unfolding identify mark remove_records
purge_stages ctx records = do
  (flags, thumbs_map) ← identify records [] []
  flags' ← mark records thumbs_map flags
  remove_records ctx flags' thumbs_map records [] []

-- `doPurge`
unfoldable pub do_purge : Context → Bool → List DbMedia → M (List Str)
unfolding pre_filter purge_stages
do_purge ctx include_quarantined records = do
  kept ← pre_filter include_quarantined records
  purge_stages ctx kept

pub record PurgeAuthContext : Type 0 where
  pub uploader_user_id : Str
  pub source_origin : Str

-- `canAffect`
unfoldable pub can_affect : PurgeAuthContext → DbMedia → Bool
can_affect c media =
    if not (str_eq c.uploader_user_id []) && not (str_eq c.uploader_user_id media.user_id)
    then false
    else not (not (str_eq c.source_origin []) && not (str_eq c.source_origin media.origin))

-- The purge of the records, if the authorisation covers each of them.
unfoldable pub purge_all : Context → PurgeAuthContext → List DbMedia → M (List Str)
purge_all ctx auth records = do
  raise_if (not (all (can_affect auth) records)) wrong_user
  do_purge ctx true records

-- `PurgeMedia`
unfoldable pub purge_media : Context → PurgeAuthContext → QuarantineThis → M (List Str)
unfolding resolve_media
purge_media ctx auth to_handle = do records ← resolve_media [] to_handle; purge_all ctx auth records

-- `PurgeRemoteMediaBefore`
unfoldable pub purge_remote_media_before : Context → ℤ → M ℤ
purge_remote_media_before ctx before_ts = do
  records ← get_old_excluding ctx.main.domains before_ts
  removed ← do_purge ctx false records
  pure (pos (length removed))
