-- ===== src/Download/Stream.antt =====
-- pipelines/_steps/download/open_stream.go and wait.go, pipelines/_steps/quarantine/logic.go and
-- datastores/download.go: the bytes of a stored file, and a record that is awaited.
use matrix_media_repo.Prelude.{
  ℕ, Bool, true, false, not, ◌&&◌, ◌||◌, Option, none, some, [], ◌++◌, if◌then◌else◌,
}
use matrix_media_repo.Prelude.Int.{ℤ}
use matrix_media_repo.Prelude.Text.{Str, codes, str_eq}
use matrix_media_repo.Common.{ok, err, new, redirect, media_quarantined, media_not_yet_uploaded}
use matrix_media_repo.Config.{Context, DatastoreConfig}
use matrix_media_repo.World.{M, pure, raise, ask, or_else, tick, ◌>>=◌, ◌>>◌}
use matrix_media_repo.Database.Rows.{DbMedia, DbExpiringMedia, Locatable}
use matrix_media_repo.Database.Ids.{get_expiring, is_expired}
use matrix_media_repo.Datastores.{get}

-- What a datastore holds at a location, what the n-th read of the media cache in Redis finds for a
-- hash, what the n-th wait for an upload ends with (nothing where the request times out first), and
-- the image that stands for quarantined media.
pub record Files : Type 0 where
  pub object : Str → Str → Str
  pub cached_media : ℕ → Str → Option Str
  pub awaited : ℕ → Option (Option DbMedia)
  pub quarantine_image : ℤ → ℤ → Str

module _ (files : Files) (ctx : Context) where
  -- `datastores.Download`
  unfoldable pub read_object : DatastoreConfig → Str → M Str
  read_object ds location =
      if str_eq ds.ds_type (codes "s3") || str_eq ds.ds_type (codes "file")
      then ask (λ _. files.object ds.id location)
      else raise (new (codes "unknown datastore type - contact developer"))

  -- `datastores.DownloadOrRedirect`
  unfoldable pub download_or_redirect : DatastoreConfig → Str → M Str
  unfolding read_object
  download_or_redirect ds location =
      if not (str_eq ds.ds_type (codes "s3")) then read_object ds location else (do
        ask (λ _. tt)
        if not (str_eq ds.public_base_url [])
            then raise (redirect (ds.public_base_url ++ location))
            else read_object ds location)

  -- `datastores.WouldRedirectWhenCached`
  unfoldable pub would_redirect_when_cached : DatastoreConfig → M Bool
  would_redirect_when_cached ds =
      if not (str_eq ds.ds_type (codes "s3"))
      then pure false
      else ask (λ _. ds.redirect_when_cached && not (str_eq ds.public_base_url []))

  -- `redislib.TryGetMedia`
  abbrev try_get_media : Str → M (Option Str)
  try_get_media hash = ask (λ w. files.cached_media w.calls hash)

  -- `doOpenStream`, for a datastore that was found.
  unfoldable pub cached_or_not : Str → DatastoreConfig → Bool → M (Option Str)
  unfolding would_redirect_when_cached
  cached_or_not hash ds can_redirect = do
    redirects ← or_else (would_redirect_when_cached ds) false
    if not redirects || not can_redirect then try_get_media hash else pure none

  abbrev missing_datastore : M Str
  missing_datastore = raise (new (codes "unable to locate datastore for media"))

  abbrev pub or_read : M Str → Option Str → M Str
  or_read rest none = rest
  or_read rest (some bytes) = pure bytes

  -- `OpenStream`
  unfoldable pub open_stream : Locatable → M Str
  unfolding cached_or_not read_object
  open_stream media = elim (get ctx.domain.data_stores media.datastore_id) [
    | none ↦ missing_datastore
    | some ds ↦ do
      found ← cached_or_not media.sha256_hash ds false
      or_read (read_object ds media.location) found
  ]

  -- `OpenOrRedirect`
  unfoldable pub open_or_redirect : Locatable → M Str
  unfolding cached_or_not download_or_redirect
  open_or_redirect media = elim (get ctx.domain.data_stores media.datastore_id) [
    | none ↦ missing_datastore
    | some ds ↦ do
      found ← cached_or_not media.sha256_hash ds true
      or_read (download_or_redirect ds media.location) found
  ]

  -- `quarantine.ReturnAppropriateThing`, of which `MakeThumbnail` draws the image.
  unfoldable pub return_appropriate_thing : Bool → Bool → ℤ → ℤ → M Str
  return_appropriate_thing is_download record_only width height =
      let flag =
        if is_download
        then ctx.domain.quarantine.replace_downloads
        else ctx.domain.quarantine.replace_thumbnails in
      if not flag || record_only
      then raise media_quarantined
      else ask (λ _. files.quarantine_image width height)

  -- The end of the wait.
  abbrev await : M (Option DbMedia)
  await w = elim (files.awaited w.calls) [
    | none ↦ (err media_not_yet_uploaded, tick w)
    | some record_ ↦ (ok record_, tick w)
  ]

  abbrev wait_unless_expired : Option DbExpiringMedia → M (Option DbMedia)
  wait_unless_expired none = pure none
  wait_unless_expired (some r) = do late ← is_expired r; if late then pure none else await

  -- `WaitForAsyncMedia`
  unfoldable pub wait_for_async_media : Str → Str → M (Option DbMedia)
  wait_for_async_media origin media_id = do
    held ← get_expiring origin media_id
    wait_unless_expired held
