-- ===== src/Thumbnails/Pipeline.antt =====
-- pipelines/pipeline_thumbnail/pipeline.go and pipelines/_steps/thumbnails/generate.go. One caller of each
-- single flight is at work. The image processing of thumbnailing/, with the detection of the content type,
-- is a parameter, `Generator`.
use matrix_media_repo.Prelude.{
  ℕ, Bool, true, false, not, ◌&&◌, ◌||◌, Option, none, some, [], if◌then◌else◌,
}
use matrix_media_repo.Prelude.Int.{ℤ}
use matrix_media_repo.Prelude.Text.{Str, codes}
use matrix_media_repo.Common.{
  Error, Result, ok, new, media_not_found, media_quarantined, media_dimensions_too_small,
  restricted_auth, panicked,
}
use matrix_media_repo.Config.{Context}
use matrix_media_repo.Database.Rows.{DbMedia, DbThumbnail, Locatable}
use matrix_media_repo.Database.Thumbnails.{get_by_params, insert_thumbnail}
use matrix_media_repo.Datastores.{thumbnails}
use matrix_media_repo.World.{M, pure, raise, raise_if, ask, lift, handle, ignore_error, ◌>>=◌, ◌>>◌}
use matrix_media_repo.Upload.Steps.{Upload, does_media_require_auth}
use matrix_media_repo.Download.Stream.{
  Files, open_stream, open_or_redirect, return_appropriate_thing,
}
use matrix_media_repo.Download.Remote.{Federation, put_and_return_stream}
use matrix_media_repo.Download.Pipeline.{DownloadOpts, Bucket, bucket_call}
use matrix_media_repo.Download.Pipeline
use matrix_media_repo.Thumbnails.{Float32, pick_new_dimensions}

pub record ThumbnailOpts : Type 0 where
  pub download : DownloadOpts
  pub width : ℤ
  pub height : ℤ
  pub method : Str
  pub animated : Bool

-- `m.Thumbnail`
pub record Thumbnail : Type 0 where
  pub animated : Bool
  pub content_type : Str
  pub reader : Str

-- What the n-th call makes of the bytes for the options: an image, nothing, or an error.
pub record Generator : Type 0 where
  pub generate : ℕ → Str → ThumbnailOpts → Result (Option Thumbnail)

-- What `Execute` returns without an error, or with `ErrMediaDimensionsTooSmall` and a stream.
pub data Served : Type 0 where
  served : DbThumbnail → Option Str → Served
  too_small : Str → Served

-- `ImpliedDownloadOpts`
abbrev pub implied_download_opts : ThumbnailOpts → DownloadOpts
implied_download_opts o = record {
  fetch_remote_if_needed = o.download.fetch_remote_if_needed;
  block_for_read_until = o.download.block_for_read_until;
  record_only = true;
  can_redirect = false;
  auth_provided = o.download.auth_provided;
}

abbrev pub is_quarantined : Error → Bool
is_quarantined e = elim e [ media_quarantined ↦ true | other ↦ false ]

abbrev pub is_too_small : Error → Bool
is_too_small e = elim e [ media_dimensions_too_small ↦ true | other ↦ false ]

module _ {F : Type 0} (float : Float32 F) (generator : Generator) (glob : Str → Str → Bool)
    (sha256 : Str → Str) (fed : Federation) (files : Files) (bucket : Bucket) (ctx : Context)
    (request_host : Str) where
  -- The work that is queued.
  abbrev pub generated : DbMedia → ThumbnailOpts → M (Option Thumbnail)
  generated m opts = do
    bytes ← open_stream files ctx m.locatable
    n ← ask (λ w. w.calls)
    lift (generator.generate n bytes opts)

  -- `GetByParams` of a medium and the options.
  abbrev pub find_thumbnail : Str → Str → ThumbnailOpts → Bool → M (Option DbThumbnail)
  find_thumbnail origin media_id opts animated =
      get_by_params origin media_id opts.width opts.height opts.method animated

  abbrev pub uploaded : Thumbnail → Upload
  uploaded i = record {
    origin = request_host;
    content_type = i.content_type;
    file_name = [];
    user_id = [];
    kind = thumbnails;
  }

  abbrev pub thumbnail_of : DbMedia → ThumbnailOpts → Bool → DbMedia → DbThumbnail
  thumbnail_of m opts animated stored = record {
    locatable = stored.locatable;
    origin = m.origin;
    media_id = m.media_id;
    content_type = stored.content_type;
    width = opts.width;
    height = opts.height;
    method = opts.method;
    animated = animated;
    size_bytes = stored.size_bytes;
    creation_ts = stored.creation_ts;
  }

  -- The upload may return no record, whose fields are read.
  abbrev pub with_stored :
      DbMedia → ThumbnailOpts → Bool → Option DbMedia × Str → M (DbThumbnail × Str)
  with_stored m opts animated (none, bytes) = raise panicked
  with_stored m opts animated (some stored, bytes) = do
    insert_thumbnail (thumbnail_of m opts animated stored)
    pure (thumbnail_of m opts animated stored, bytes)

  unfoldable pub store_thumbnail : DbMedia → ThumbnailOpts → Thumbnail → M (DbThumbnail × Str)
  store_thumbnail m opts i = do
    put ← put_and_return_stream glob sha256 fed ctx (uploaded i) [] (ok i.reader)
    with_stored m opts i.animated put

  abbrev pub as_animated : DbThumbnail → DbThumbnail
  as_animated r = record r { animated = true }

  -- A record with the other flag is there, or is not.
  unfoldable pub reuse_or_store :
      DbMedia → ThumbnailOpts → Thumbnail → Option DbThumbnail → M (DbThumbnail × Str)
  unfolding store_thumbnail
  reuse_or_store m opts i none = store_thumbnail m opts i
  reuse_or_store m opts i (some r) =
      if i.animated then (do bytes ← open_stream files ctx r.locatable; pure (r, bytes)) else (do
        ignore_error (insert_thumbnail (as_animated r))
        bytes ← open_stream files ctx r.locatable
        pure (as_animated r, bytes))

  abbrev pub differs : Bool → Bool → Bool
  differs a b = if a then not b else b

  abbrev pub from_generated : DbMedia → ThumbnailOpts → Option Thumbnail → M (DbThumbnail × Str)
  from_generated m opts none = raise media_not_found
  from_generated m opts (some i) =
      if differs i.animated opts.animated
      then (do
        existing ← find_thumbnail m.origin m.media_id opts i.animated
        reuse_or_store m opts i existing)
      else store_thumbnail m opts i

  -- `Generate`
  unfoldable pub generate : DbMedia → ThumbnailOpts → M (DbThumbnail × Str)
  unfolding reuse_or_store store_thumbnail
  generate m opts = do ask (λ _. tt); i ← generated m opts; from_generated m opts i

  abbrev pub opened : ThumbnailOpts → Locatable → M Str
  opened opts l =
      if opts.download.can_redirect then open_or_redirect files ctx l else open_stream files ctx l

  -- An image that is smaller than the thumbnail is served itself.
  unfoldable pub too_small_or_raise : ThumbnailOpts → DbMedia → Error → M Served
  too_small_or_raise opts m e =
      if is_too_small e && not opts.download.record_only
      then (do bytes ← opened opts m.locatable; pure (too_small bytes))
      else raise e

  abbrev pub without_stream : ThumbnailOpts → Str → Option Str
  without_stream opts bytes = if opts.download.record_only then none else some bytes

  -- Steps 5 to 7, with the thumbnail that is found the second time.
  unfoldable pub serve_thumbnail : ThumbnailOpts → DbMedia → Option DbThumbnail → M Served
  unfolding generate too_small_or_raise
  serve_thumbnail opts m (some r) =
      if opts.download.record_only
      then pure (served r none)
      else (do bytes ← opened opts r.locatable; pure (served r (some bytes)))
  serve_thumbnail opts m none =
      handle (generate m opts) (too_small_or_raise opts m)
        (λ p. pure (served p.0 (without_stream opts p.1)))

  abbrev pub or_find : Str → Str → ThumbnailOpts → Option DbThumbnail → M (Option DbThumbnail)
  or_find origin media_id opts none = find_thumbnail origin media_id opts opts.animated
  or_find origin media_id opts (some r) = pure (some r)

  -- The image for quarantined media goes with the thumbnail that was found at first; where none was, the
  -- record is looked up once more, and the flight was told that there is none.
  abbrev pub with_image : Option DbThumbnail → Str → M Served
  with_image (some r) image = pure (served r (some image))
  with_image none image =
      raise (new (codes "unexpected error: no viable record and no error condition"))

  unfoldable pub serve_quarantined : ThumbnailOpts → Option DbThumbnail → Error → M Served
  serve_quarantined opts found e =
      if is_quarantined e
      then (do
        image ←
            return_appropriate_thing files ctx false opts.download.record_only opts.width
              opts.height
        with_image found image)
      else raise e

  -- Steps 4 to 7.
  unfoldable pub serve : Str → Str → ThumbnailOpts → Option DbThumbnail → M Served
  unfolding serve_thumbnail serve_quarantined
  serve origin media_id opts found =
      handle
        (Pipeline.execute glob sha256 fed files bucket ctx origin media_id
          (implied_download_opts opts))
        (serve_quarantined opts found)
        (λ got. do again ← or_find origin media_id opts found; serve_thumbnail opts got.0 again)

  -- The rate limit for a thumbnail that is there.
  abbrev charge_thumbnail : ThumbnailOpts → Option DbThumbnail → M (Unit {0})
  charge_thumbnail opts none = pure tt
  charge_thumbnail opts (some r) =
      if opts.download.record_only then pure tt else bucket_call bucket.add r.size_bytes

  unfoldable pub charge : ThumbnailOpts → Option DbThumbnail → M (Unit {0})
  charge opts found =
      if ctx.main.rate_limit_enabled
      then (do ask (λ _. tt); charge_thumbnail opts found)
      else pure tt

  -- Where no stream comes with the error, the bucket gets the size of the record back, which may be nil.
  abbrev pub drained : Option DbThumbnail → Error → M Served
  drained none e = if ctx.main.rate_limit_enabled then raise panicked else raise e
  drained (some r) e =
      if ctx.main.rate_limit_enabled
      then (do ignore_error (bucket_call bucket.drain r.size_bytes); raise e)
      else raise e

  unfoldable pub settle : Option DbThumbnail → Error → M Served
  settle found e = if is_quarantined e || is_too_small e then drained found e else raise e

  abbrev pub fixed : ThumbnailOpts → (ℤ × ℤ) × Str → ThumbnailOpts
  fixed opts p = record opts { width = p.0.0; height = p.0.1; method = p.1 }

  -- `Execute` after its step 1.
  unfoldable pub execute_fixed : Str → Str → ThumbnailOpts → M Served
  unfolding serve charge settle
  execute_fixed origin media_id opts = do
    found ← find_thumbnail origin media_id opts opts.animated
    charge opts found
    handle (serve origin media_id opts found) (settle found) (λ s. pure s)

  -- `Execute`
  unfoldable pub execute : Str → Str → ThumbnailOpts → M Served
  unfolding execute_fixed
  execute origin media_id opts = do
    requires_auth ← does_media_require_auth origin media_id
    raise_if (requires_auth && not opts.download.auth_provided) restricted_auth
    dimensions ← lift (pick_new_dimensions float ctx opts.width opts.height opts.method)
    execute_fixed origin media_id (fixed opts dimensions)
