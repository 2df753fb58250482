-- ===== src/Thumbnails.antt =====
-- pipelines/_steps/thumbnails/pick_dimensions.go
pub mod Sizes
pub mod Pipeline
pub mod Fits
pub mod Served
use matrix_media_repo.Prelude.{
  Bool, true, false, not, ◌&&◌, ◌||◌, Option, none, some, List, [], ◌∷◌, if◌then◌else◌,
}
use matrix_media_repo.Prelude.Int.{ℤ, pos, eqb_ℤ, leb_ℤ, ltb_ℤ}
use matrix_media_repo.Prelude.Text.{Str, codes, str_eq}
use matrix_media_repo.Common.{Result, ok, err, new}
use matrix_media_repo.Config.{Context, ThumbnailSize}

-- Go's float32.
pub record Float32 (F : Type 0) : Type 0 where
  pub of_int : ℤ → F
  pub to_int : F → ℤ
  pub divide : F → F → F
  pub times : F → F → F
  pub smaller : F → F → F
  pub equal : F → F → Bool

-- `util.MaxInt` and `util.MinInt`
abbrev pub max_int : ℤ → ℤ → ℤ
max_int a b = if ltb_ℤ b a then a else b

abbrev pub min_int : ℤ → ℤ → ℤ
min_int a b = if ltb_ℤ a b then a else b

-- The variables of the loop over the sizes.
pub record Search : Type 0 where
  pub found_size : Bool
  pub target_width : ℤ
  pub target_height : ℤ
  pub largest_width : ℤ
  pub largest_height : ℤ

module _ (desired_width desired_height : ℤ) where
  abbrev pub is_exact : ThumbnailSize → Bool
  is_exact x = eqb_ℤ desired_width x.width && eqb_ℤ desired_height x.height

  abbrev pub covers : ThumbnailSize → Bool
  covers x = leb_ℤ desired_width x.width && leb_ℤ desired_height x.height

  -- The size is larger than requested, and smaller than the one that is picked already.
  abbrev pub is_better : ThumbnailSize → Search → Bool
  is_better x s =
      covers x
      && (not s.found_size || (ltb_ℤ x.width s.target_width && ltb_ℤ x.height s.target_height))

  unfoldable pub look_at : ThumbnailSize → Search → Search
  look_at x s = record {
    found_size = if is_better x s then true else s.found_size;
    target_width = if is_better x s then x.width else s.target_width;
    target_height = if is_better x s then x.height else s.target_height;
    largest_width = max_int s.largest_width x.width;
    largest_height = max_int s.largest_height x.height;
  }

  -- The loop, which ends at a size that fits exactly.
  unfoldable pub search : List ThumbnailSize → Search → Option Search
  unfolding look_at
  search [] s = some s
  search (x ∷ sizes) s = let rest = search sizes (look_at x s) in if is_exact x then none else rest

abbrev pub nothing_found : Search
nothing_found = record {
  found_size = false;
  target_width = pos 0;
  target_height = pos 0;
  largest_width = pos 0;
  largest_height = pos 0;
}

module _ {F : Type 0} (float : Float32 F) where
  abbrev ratio : ℤ → ℤ → F
  ratio a b = float.divide (float.of_int a) (float.of_int b)

  -- The aspect ratio of the request is kept.
  unfoldable pub keep_aspect : ℤ → ℤ → ℤ → ℤ → ℤ × ℤ
  keep_aspect desired_width desired_height width height =
      if float.equal (ratio width height) (ratio desired_width desired_height)
      then (width, height)
      else let r = float.smaller (ratio width desired_width) (ratio height desired_height) in
        (
          float.to_int (float.times (float.of_int desired_width) r),
          float.to_int (float.times (float.of_int desired_height) r),
        )

  -- The largest dimensions, where no size was found.
  abbrev pub target_of : Search → ℤ × ℤ
  target_of s =
      if s.found_size
      then (s.target_width, s.target_height)
      else (s.largest_width, s.largest_height)

  -- What follows the loop.
  unfoldable pub finish_search : Context → ℤ → ℤ → Str → Option Search → (ℤ × ℤ) × Str
  unfolding keep_aspect
  finish_search ctx desired_width desired_height method none =
      ((desired_width, desired_height), method)
  finish_search ctx desired_width desired_height method (some s) =
      if ctx.domain.dynamic_sizing
      then (
        (min_int s.largest_width desired_width, min_int s.largest_height desired_height),
        method,
      )
      else if str_eq method (codes "crop")
      then (keep_aspect desired_width desired_height (target_of s).0 (target_of s).1, method)
      else (target_of s, method)

  -- `PickNewDimensions`
  unfoldable pub pick_new_dimensions : Context → ℤ → ℤ → Str → Result ((ℤ × ℤ) × Str)
  unfolding search finish_search
  pick_new_dimensions ctx desired_width desired_height method =
      if leb_ℤ desired_width (pos 0)
      then err (new (codes "width must be positive"))
      else if leb_ℤ desired_height (pos 0)
      then err (new (codes "height must be positive"))
      else if not (str_eq method (codes "crop")) && not (str_eq method (codes "scale"))
      then err (new (codes "method must be crop or scale"))
      else ok (
          finish_search ctx desired_width desired_height method
            (search desired_width desired_height ctx.domain.thumbnail_sizes nothing_found))
