-- ===== src/Thumbnails/Served.antt =====
-- The dimensions of the thumbnail that `Execute` of pipelines/pipeline_thumbnail/pipeline.go returns.
use matrix_media_repo.Prelude.{◌≡◌, refl, Bool, false, not, ◌&&◌, ◌||◌, Option, none, some}
use matrix_media_repo.Prelude.Int.{ℤ}
use matrix_media_repo.Prelude.Text.{Str}
use matrix_media_repo.Common.{Error, ok, restricted_auth}
use matrix_media_repo.Config.{Context}
use matrix_media_repo.Database.Rows.{DbThumbnail}
use matrix_media_repo.World.{World, pure, raise, raise_if, lift, handle, ignore_error, ◌>>◌}
use matrix_media_repo.World.Rules.{
  any_Post, lift-Post, Post, Post-bind, Post-weaken, Post-if, Post-handle,
}
use matrix_media_repo.Download.Stream.{Files, return_appropriate_thing}
use matrix_media_repo.Download.Remote.{Federation}
use matrix_media_repo.Download.Pipeline.{Bucket, bucket_call}
use matrix_media_repo.Download.Pipeline
use matrix_media_repo.Upload.Steps.{does_media_require_auth}
use matrix_media_repo.Thumbnails.{Float32, pick_new_dimensions}
use matrix_media_repo.Thumbnails.Pipeline.{
  ThumbnailOpts, Generator, find_thumbnail, serve_thumbnail, serve_quarantined, serve, settle,
  charge, drained, is_too_small, is_quarantined, implied_download_opts, with_image, or_find, fixed,
  execute_fixed, execute,
}
use matrix_media_repo.Thumbnails.Fits.{
  FitsServed, Found, Fine, Any, find_thumbnail-Fits, serve_thumbnail-Fits,
}

module _ {F : Type 0} (float : Float32 F) (generator : Generator) (glob : Str → Str → Bool)
    (sha256 : Str → Str) (fed : Federation) (files : Files) (bucket : Bucket) (ctx : Context)
    (request_host : Str) (opts : ThumbnailOpts) where
  with_image-Fits :
      (found : Option DbThumbnail) (image : Str) (w : World)
      → Found float generator glob sha256 fed files bucket ctx request_host opts found w
      → Post
          (Fine float generator glob sha256 fed files bucket ctx request_host opts)
          (Any float generator glob sha256 fed files bucket ctx request_host opts)
          (with_image float generator glob sha256 fed files bucket ctx request_host found image w)
  with_image-Fits none image w f = record { at = tt }
  with_image-Fits (some r) image w f = record { at = f r refl }

  or_find-Fits :
      (origin media_id : Str) (found : Option DbThumbnail) (w : World)
      → Found float generator glob sha256 fed files bucket ctx request_host opts found w
      → Post
          (Found float generator glob sha256 fed files bucket ctx request_host opts)
          (Any float generator glob sha256 fed files bucket ctx request_host opts)
          (or_find float generator glob sha256 fed files bucket ctx request_host origin media_id
            opts found w)
  or_find-Fits origin media_id none w f =
      find_thumbnail-Fits float generator glob sha256 fed files bucket ctx request_host opts origin
        media_id opts.animated w
  or_find-Fits origin media_id (some r) w f = record { at = f }

  serve-Fits :
      (origin media_id : Str) (found : Option DbThumbnail) (w : World)
      → Found float generator glob sha256 fed files bucket ctx request_host opts found w
      → Post
          (Fine float generator glob sha256 fed files bucket ctx request_host opts)
          (Any float generator glob sha256 fed files bucket ctx request_host opts)
          (serve float generator glob sha256 fed files bucket ctx request_host origin media_id opts
            found w)
  unfolding serve serve_quarantined
  serve-Fits origin media_id found w f =
      Post-handle
        (Pipeline.execute glob sha256 fed files bucket ctx origin media_id
          (implied_download_opts opts))
        (serve_quarantined float generator glob sha256 fed files bucket ctx request_host opts found)
        _ w (any_Post _)
        (λ got w1 h.
          Post-bind
            (or_find float generator glob sha256 fed files bucket ctx request_host origin media_id
              opts found)
            (serve_thumbnail float generator glob sha256 fed files bucket ctx request_host opts
              got.0)
            w1 (or_find-Fits origin media_id found w1 f)
            λ again w2 g.
              serve_thumbnail-Fits float generator glob sha256 fed files bucket ctx request_host
                opts got.0 again w2 g)
        (λ e w1 h. (
          tt,
          Post-if (is_quarantined e) _ _ w1
              (λ q.
                Post-bind
                  (return_appropriate_thing files ctx false opts.download.record_only opts.width
                    opts.height)
                  (with_image float generator glob sha256 fed files bucket ctx request_host found)
                  w1 (any_Post _) λ image w2 h2. with_image-Fits found image w2 f)
              (λ q. record { at = tt }),
        ))

  drained-Fits :
      (found : Option DbThumbnail) (e : Error) (w : World)
      → Post
          (Fine float generator glob sha256 fed files bucket ctx request_host opts)
          (Any float generator glob sha256 fed files bucket ctx request_host opts)
          (drained float generator glob sha256 fed files bucket ctx request_host found e w)
  drained-Fits none e w =
      Post-if ctx.main.rate_limit_enabled _ _ w (λ l. record { at = tt }) (λ l. record { at = tt })
  drained-Fits (some r) e w =
      Post-if ctx.main.rate_limit_enabled _ _ w
        (λ l.
          Post-bind (ignore_error (bucket_call bucket.drain r.size_bytes)) (λ u. raise e) w
            (any_Post _) λ u w1 h. record { at = tt })
        (λ l. record { at = tt })

  execute_fixed-Fits :
      (origin media_id : Str) (w : World)
      → Post
          (Fine float generator glob sha256 fed files bucket ctx request_host opts)
          (Any float generator glob sha256 fed files bucket ctx request_host opts)
          (execute_fixed float generator glob sha256 fed files bucket ctx request_host origin
            media_id opts w)
  unfolding execute_fixed settle
  execute_fixed-Fits origin media_id w =
      Post-bind
        (find_thumbnail float generator glob sha256 fed files bucket ctx request_host origin
          media_id opts opts.animated)
        (λ found.
          charge float generator glob sha256 fed files bucket ctx request_host opts found
          >> handle
              (serve float generator glob sha256 fed files bucket ctx request_host origin media_id
                opts found)
              (settle float generator glob sha256 fed files bucket ctx request_host found)
              (λ s. pure s))
        w
        (find_thumbnail-Fits float generator glob sha256 fed files bucket ctx request_host opts
          origin media_id opts.animated w)
        λ found w1 f.
          Post-bind
            (charge float generator glob sha256 fed files bucket ctx request_host opts found)
            (λ u.
              handle
                (serve float generator glob sha256 fed files bucket ctx request_host origin media_id
                  opts found)
                (settle float generator glob sha256 fed files bucket ctx request_host found)
                (λ s. pure s))
            w1 (any_Post _)
            λ u w2 h.
              Post-handle
                (serve float generator glob sha256 fed files bucket ctx request_host origin media_id
                  opts found)
                (settle float generator glob sha256 fed files bucket ctx request_host found)
                (λ s. pure s) w2 (serve-Fits origin media_id found w2 f)
                (λ s w3 g. record { at = g })
                (λ e w3 g. (
                  tt,
                  Post-if (is_quarantined e || is_too_small e) _ _ w3 (λ q. drained-Fits found e w3)
                      (λ q. record { at = tt }),
                ))

module _ {F : Type 0} (float : Float32 F) (generator : Generator) (glob : Str → Str → Bool)
    (sha256 : Str → Str) (fed : Federation) (files : Files) (bucket : Bucket) (ctx : Context)
    (request_host : Str) where
  -- What `Execute` returns without an error, the image itself where that is too small apart, is a thumbnail
  -- with the dimensions and the method that `PickNewDimensions` gives for the request.
  pub execute-Picked :
      (origin media_id : Str) (opts : ThumbnailOpts) (w : World)
      → Post
          (λ s w'.
            (p : (ℤ × ℤ) × Str) × (pick_new_dimensions float ctx opts.width opts.height opts.method
              ≡ ok p)
            × FitsServed p.0.0 p.0.1 p.1 s)
          (λ e w'. Unit {0})
          (execute float generator glob sha256 fed files bucket ctx request_host origin media_id
            opts w)
  unfolding execute
  execute-Picked origin media_id opts w =
      Post-bind (does_media_require_auth origin media_id) _ w (any_Post _) λ req w1 h1.
        Post-bind (raise_if (req && not opts.download.auth_provided) restricted_auth) _ w1
          (any_Post _)
          λ u w2 h2.
            Post-bind (lift (pick_new_dimensions float ctx opts.width opts.height opts.method))
              (λ p.
                execute_fixed float generator glob sha256 fed files bucket ctx request_host origin
                  media_id
                  (fixed float generator glob sha256 fed files bucket ctx request_host opts p))
              w2 (lift-Post _ w2)
              λ p w3 e.
                Post-weaken _ _ _
                  (execute_fixed-Fits float generator glob sha256 fed files bucket ctx request_host
                    (fixed float generator glob sha256 fed files bucket ctx request_host opts p)
                    origin media_id w3)
                  (λ s w4 f. (p, e, f)) (λ x w4 g. tt)
