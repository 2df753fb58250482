-- ===== src/Thumbnails/Fits.antt =====
-- The dimensions of the thumbnail that pipeline_thumbnail's `Execute` returns.
use matrix_media_repo.Prelude.{
  ◌≡◌, refl, Bool, true, not, ◌&&◌, Option, none, some, List, [], ◌∷◌, filter, head?, inl, inr,
  Bool-cases, arith,
}
use matrix_media_repo.Prelude.Int.{ℤ, eqb_ℤ}
use matrix_media_repo.Prelude.Text.{Str, str_eq_iff}
use matrix_media_repo.Common.{Error, ok}
use matrix_media_repo.Config.{Context}
use matrix_media_repo.Database.Rows.{DbMedia, DbThumbnail}
use matrix_media_repo.Database.Thumbnails.{has_params, insert_thumbnail}
use matrix_media_repo.World.{World, M, pure, ask, ignore_error, ◌>>=◌}
use matrix_media_repo.World.Rules.{
  any_Post, Post, Post-bind, Post-weaken, Post-if, Post-handle, query_lem,
}
use matrix_media_repo.Download.Stream.{Files, open_stream}
use matrix_media_repo.Download.Remote.{Federation, put_and_return_stream}
use matrix_media_repo.Download.Pipeline.{Bucket}
use matrix_media_repo.Thumbnails.{Float32}
use matrix_media_repo.Thumbnails.Pipeline.{
  ThumbnailOpts, Thumbnail, Generator, Served, served, too_small, find_thumbnail, store_thumbnail,
  reuse_or_store, generate, serve_thumbnail, with_stored, opened, from_generated, thumbnail_of,
  uploaded, as_animated, differs, generated, too_small_or_raise, is_too_small,
}

-- The thumbnail has the dimensions and the method of the options.
pub record Fits (width height : ℤ) (method : Str) (r : DbThumbnail) : Type 0 where
  pub same_width : r.width ≡ width
  pub same_height : r.height ≡ height
  pub same_method : r.method ≡ method

eqb_ℤ-≡ : (a b : ℤ) → eqb_ℤ a b ≡ true → a ≡ b
eqb_ℤ-≡ a b e = ground (arith, e)

has_params-Fits :
    (origin media_id : Str) (width height : ℤ) (method : Str) (animated : Bool) (r : DbThumbnail)
    → has_params origin media_id width height method animated r ≡ true
    → Fits width height method r
has_params-Fits origin media_id width height method animated r e = record {
  same_width = eqb_ℤ-≡ r.width width (ground (arith, e));
  same_height = eqb_ℤ-≡ r.height height (ground (arith, e));
  same_method = (str_eq_iff r.method method).0 (ground (arith, e));
}

head-filter :
    (p : DbThumbnail → Bool) (xs : List DbThumbnail) (r : DbThumbnail)
    → head? (filter p xs) ≡ some r
    → p r ≡ true
head-filter p [] r e = absurd (ground (arith, e))
head-filter p (x ∷ xs) r e = elim (Bool-cases (p x)) [
  | inl s ↦ let e' : some x ≡ some r = rw s at e in let q : x ≡ r = cc in rw q at s
  | inr n ↦ head-filter p xs r (rw n at e)
]

-- What is served has the dimensions and the method, unless it is the image itself.
abbrev pub FitsServed : ℤ → ℤ → Str → Served → Type 0
FitsServed width height method (served r stream) = Fits width height method r
FitsServed width height method (too_small bytes) = Unit

module _ {F : Type 0} (float : Float32 F) (generator : Generator) (glob : Str → Str → Bool)
    (sha256 : Str → Str) (fed : Federation) (files : Files) (bucket : Bucket) (ctx : Context)
    (request_host : Str) (opts : ThumbnailOpts) where
  abbrev pub FitsOpts : DbThumbnail → Type 0
  FitsOpts r = Fits opts.width opts.height opts.method r

  abbrev pub Found : Option DbThumbnail → World → Type 0
  Found o w = (r : DbThumbnail) → o ≡ some r → FitsOpts r

  abbrev pub Made : DbThumbnail × Str → World → Type 0
  Made p w = FitsOpts p.0

  abbrev pub Fine : Served → World → Type 0
  Fine s w = FitsServed opts.width opts.height opts.method s

  abbrev pub Any : Error → World → Type 0
  Any e w = Unit

  pub find_thumbnail-Fits :
      (origin media_id : Str) (animated : Bool) (w : World)
      → Post Found Any (
          find_thumbnail float generator glob sha256 fed files bucket ctx request_host origin
            media_id opts animated w)
  find_thumbnail-Fits origin media_id animated w =
      let p = has_params origin media_id opts.width opts.height opts.method animated in
      Post-weaken _ _ _
        (query_lem (λ t. head? (filter p t.thumbnails)) {db = w.db} {rem = w.removed} w
          (record { db_kept = refl; removed_kept = refl }))
        (λ o w' (g, k) r e.
          has_params-Fits origin media_id opts.width opts.height opts.method animated r
            (head-filter p w.db.thumbnails r cc))
        (λ e w' k. tt)

  with_stored-Fits :
      (m : DbMedia) (animated : Bool) (stored : Option DbMedia) (bytes : Str) (w : World)
      → Post Made Any (
          with_stored float generator glob sha256 fed files bucket ctx request_host m opts animated
            (stored, bytes)
            w)
  with_stored-Fits m animated none bytes w = record { at = tt }
  with_stored-Fits m animated (some stored) bytes w =
      let r =
        thumbnail_of float generator glob sha256 fed files bucket ctx request_host m opts animated
          stored in
      Post-bind (insert_thumbnail r) (λ u. pure (r, bytes)) w (any_Post _)
        λ u w1 h. record {
          at = record { same_width = refl; same_height = refl; same_method = refl };
        }

  store_thumbnail-Fits :
      (m : DbMedia) (i : Thumbnail) (w : World)
      → Post Made Any
          (store_thumbnail float generator glob sha256 fed files bucket ctx request_host m opts i w)
  unfolding store_thumbnail
  store_thumbnail-Fits m i w =
      Post-bind
        (put_and_return_stream glob sha256 fed ctx
          (uploaded float generator glob sha256 fed files bucket ctx request_host i) []
          (ok i.reader))
        (with_stored float generator glob sha256 fed files bucket ctx request_host m opts
          i.animated)
        w (any_Post _) λ put w1 h. with_stored-Fits m i.animated put.0 put.1 w1

  opened_with :
      (r : DbThumbnail) (m : M Str) (w : World)
      → FitsOpts r
      → Post Made Any ((m >>= λ bytes. pure (r, bytes)) w)
  opened_with r m w f =
      Post-bind m (λ bytes. pure (r, bytes)) w (any_Post _) λ bytes w1 h. record { at = f }

  reuse_or_store-Fits :
      (m : DbMedia) (i : Thumbnail) (found : Option DbThumbnail) (w : World)
      → Found found w
      → Post Made Any (
          reuse_or_store float generator glob sha256 fed files bucket ctx request_host m opts i
            found w)
  unfolding reuse_or_store
  reuse_or_store-Fits m i none w f = store_thumbnail-Fits m i w
  reuse_or_store-Fits m i (some r) w f =
      Post-if i.animated _ _ w (λ a. opened_with r (open_stream files ctx r.locatable) w (f r refl))
        (λ a.
          Post-bind
            (ignore_error (
              insert_thumbnail
                (as_animated float generator glob sha256 fed files bucket ctx request_host r)))
            (λ u. open_stream files ctx r.locatable >>= λ bytes.
              pure (
                as_animated float generator glob sha256 fed files bucket ctx request_host r,
                bytes,
              ))
            w (any_Post _)
            λ u w1 h.
              opened_with
                (as_animated float generator glob sha256 fed files bucket ctx request_host r)
                (open_stream files ctx r.locatable) w1
                (record {
                  same_width = (f r refl).same_width;
                  same_height = (f r refl).same_height;
                  same_method = (f r refl).same_method;
                }))

  from_generated-Fits :
      (m : DbMedia) (i : Option Thumbnail) (w : World)
      → Post Made Any
          (from_generated float generator glob sha256 fed files bucket ctx request_host m opts i w)
  from_generated-Fits m none w = record { at = tt }
  from_generated-Fits m (some i) w =
      Post-if
        (differs float generator glob sha256 fed files bucket ctx request_host i.animated
          opts.animated)
        _ _ w
        (λ d.
          Post-bind
            (find_thumbnail float generator glob sha256 fed files bucket ctx request_host m.origin
              m.media_id opts i.animated)
            (reuse_or_store float generator glob sha256 fed files bucket ctx request_host m opts i)
            w (find_thumbnail-Fits m.origin m.media_id i.animated w)
            (λ found w1 f. reuse_or_store-Fits m i found w1 f))
        (λ d. store_thumbnail-Fits m i w)

  generate-Fits :
      (m : DbMedia) (w : World)
      → Post Made Any
          (generate float generator glob sha256 fed files bucket ctx request_host m opts w)
  unfolding generate
  generate-Fits m w =
      Post-bind (ask (λ _. tt))
        (λ u.
          generated float generator glob sha256 fed files bucket ctx request_host m opts
          >>= from_generated float generator glob sha256 fed files bucket ctx request_host m opts)
        w (any_Post _)
        λ u w1 h.
          Post-bind (generated float generator glob sha256 fed files bucket ctx request_host m opts)
            (from_generated float generator glob sha256 fed files bucket ctx request_host m opts) w1
            (any_Post _) λ i w2 h2. from_generated-Fits m i w2

  pub serve_thumbnail-Fits :
      (m : DbMedia) (found : Option DbThumbnail) (w : World)
      → Found found w
      → Post Fine Any (
          serve_thumbnail float generator glob sha256 fed files bucket ctx request_host opts m found
            w)
  unfolding serve_thumbnail too_small_or_raise
  serve_thumbnail-Fits m (some r) w f =
      Post-if opts.download.record_only _ _ w (λ o. record { at = f r refl })
        (λ o.
          Post-bind
            (opened float generator glob sha256 fed files bucket ctx request_host opts r.locatable)
            (λ bytes. pure (served r (some bytes))) w (any_Post _)
            λ bytes w1 h. record { at = f r refl })
  serve_thumbnail-Fits m none w f =
      Post-handle (generate float generator glob sha256 fed files bucket ctx request_host m opts)
        (too_small_or_raise float generator glob sha256 fed files bucket ctx request_host opts m) _
        w (generate-Fits m w) (λ p w1 h. record { at = h })
        (λ e w1 h. (
          tt,
          Post-if (is_too_small e && not opts.download.record_only) _ _ w1
              (λ s.
                Post-bind
                  (opened float generator glob sha256 fed files bucket ctx request_host opts
                    m.locatable)
                  (λ bytes. pure (too_small bytes)) w1 (any_Post _)
                  λ bytes w2 h2. record { at = tt })
              (λ s. record { at = tt }),
        ))
