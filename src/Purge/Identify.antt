-- ===== src/Purge/Identify.antt =====
-- The pre-filter and stage 1 of `doPurge`: the flag map that they return.
use matrix_media_repo.Prelude.{
  ◌≡◌, refl, Bool, not, ◌&&◌, some, List, [], ◌∷◌, filter, inl, inr, All, Bool-cases, Option-cases,
  head?, arith,
}
use matrix_media_repo.Prelude.Text.{Str, str_eq, str_eq_iff}
use matrix_media_repo.Prelude.Keys.{lookup, insert, lookup-insert, str_key}
use matrix_media_repo.Util.Mxc.{mxc_uri}
use mathlib.Core.Path.{ap₂}
use matrix_media_repo.World.{World}
use matrix_media_repo.World.Rules.{Post, Post-bind, Kept, query_lem}
use matrix_media_repo.Database.Rows.{Tables, DbMedia, DbThumbnail}
use matrix_media_repo.Database.Media.{get_by_location}
use matrix_media_repo.Database.Thumbnails.{is_for_media, thumbnails_at, get_for_media}
use matrix_media_repo.Database.Ids.{attributes_id, get_attributes}
use matrix_media_repo.Purge.{
  Flags, Thumbs, media_mxc, thumbnail_mxc, location_id, is_pinned, pre_filter, do_flagging,
  flag_thumbs, identify,
}
use matrix_media_repo.Purge.Cover.{NoSlash, AllCover, AllCover-insert, Covers-flag_false}

-- The pre-filter keeps a record unless it is quarantined (where those are left alone) or pinned.
abbrev pub is_purgeable : Bool → Tables → DbMedia → Bool
is_purgeable include_quarantined t r =
    not (r.quarantined && not include_quarantined)
    && not (is_pinned (head? (filter (attributes_id r.origin r.media_id) t.media_attributes)))

-- A thumbnail in the map of stage 1 belongs to the medium of its key.
abbrev pub IsThumbOf : Str → DbThumbnail → Type 0
IsThumbOf mxc x = (thumbnail_mxc x ≡ mxc) × NoSlash x.datastore_id

abbrev pub ThumbsFit : Thumbs → Type 0
ThumbsFit thumbs_map =
    (mxc : Str) (thumbs : List DbThumbnail)
    → lookup mxc thumbs_map ≡ some thumbs
    → All (IsThumbOf mxc) thumbs

pub ThumbsFit-empty : ThumbsFit []
unfolding lookup
ThumbsFit-empty mxc thumbs e = absurd (ground arith)

ThumbsFit-insert :
    (mxc : Str) (thumbs : List DbThumbnail) (thumbs_map : Thumbs)
    → All (IsThumbOf mxc) thumbs
    → ThumbsFit thumbs_map
    → ThumbsFit (insert mxc thumbs thumbs_map)
ThumbsFit-insert mxc thumbs thumbs_map new old mxc' thumbs' e =
    elim (Bool-cases (str_eq mxc mxc')) [
      | inl same ↦
          let found : some thumbs ≡ some thumbs' =
            ground (arith, lookup-insert mxc mxc' thumbs thumbs_map) in
          let n : thumbs ≡ thumbs' = cc in rw (← (str_eq_iff mxc mxc').0 same, ← n) new
      | inr other ↦ old mxc' thumbs' (ground (arith, lookup-insert mxc mxc' thumbs thumbs_map))
    ]

pub All-filter :
    {A : Type 0} (P : A → Type 0) (p : A → Bool) (xs : List A) → All P xs → All P (filter p xs)
All-filter P p [] h = h
All-filter P p (x ∷ xs) h = elim (Bool-cases (p x)) [
  | inl e ↦ rw e (h.0, All-filter P p xs h.1)
  | inr e ↦ rw e (All-filter P p xs h.1)
]

-- The thumbnails that `GetForMedia` finds have the URI of the medium.
filter-IsThumbOf :
    (r : DbMedia) (xs : List DbThumbnail)
    → All (λ (x : DbThumbnail). NoSlash x.datastore_id) xs
    → All (IsThumbOf (media_mxc r)) (filter (is_for_media r.origin r.media_id) xs)
filter-IsThumbOf r [] h = tt
filter-IsThumbOf r (x ∷ xs) h = elim (Bool-cases (is_for_media r.origin r.media_id x)) [
  | inl e ↦ rw e (
    (
      ap₂ mxc_uri ((str_eq_iff x.origin r.origin).0 (ground arith))
          ((str_eq_iff x.media_id r.media_id).0 (ground arith)),
      h.0,
    ),
    filter-IsThumbOf r xs h.1,
  )
  | inr e ↦ rw e (filter-IsThumbOf r xs h.1)
]

module _ (t : Tables) (rem : List (Str × Str)) where
  pub pre_filter-Post :
      (include_quarantined : Bool) (records : List DbMedia) (w : World)
      → Kept t rem w
      → Post
          (λ kept w'. (kept ≡ filter (is_purgeable include_quarantined t) records) × Kept t rem w')
          (λ e w'. Kept t rem w')
          (pre_filter include_quarantined records w)
  unfolding pre_filter get_attributes
  pre_filter-Post i [] w k = record { at = (refl, k) }
  pre_filter-Post i (r ∷ records) w k = elim (Bool-cases (r.quarantined && not i)) [
    | inl skip ↦ rw skip (pre_filter-Post i records w k)
    | inr keep ↦ rw keep (
        Post-bind (get_attributes r.origin r.media_id) _ w (query_lem _ w k) λ attrs w1 (found, k1).
          Post-bind (pre_filter i records) _ w1 (pre_filter-Post i records w1 k1)
            λ kept w2 (rest, k2). record { at = (rw (found, rest) (ground arith), k2) })
  ]

  module _ (purged : List Str) where
    pub do_flagging-Post :
        (ds location : Str) (flags : Flags) (w : World)
        → NoSlash ds
        → AllCover t purged flags
        → Kept t rem w
        → Post
            (λ f w'. AllCover t purged f × Kept t rem w')
            (λ e w'. Kept t rem w')
            (do_flagging ds location flags w)
    unfolding do_flagging get_by_location thumbnails_at
    do_flagging-Post ds location flags w n h k =
        elim (Option-cases (lookup (location_id ds location) flags)) [
          | inr (m, e) ↦ rw (e, do_flagging) (record { at = (h, k) })
          | inl e ↦
              rw (e, do_flagging)
                (Post-bind (get_by_location ds location) _ w (query_lem _ w k)
                  λ media w1 (found, k1).
                    Post-bind (thumbnails_at ds location) _ w1 (query_lem _ w1 k1)
                      λ thumbs w2 (found', k2). record {
                        at = (
                          rw (found, found')
                              (AllCover-insert t purged _ _ flags
                                (Covers-flag_false t purged ds location n) h),
                          k2,
                        );
                      })
        ]

    pub flag_thumbs-Post :
        (thumbs : List DbThumbnail) (flags : Flags) (w : World)
        → All (λ (x : DbThumbnail). NoSlash x.datastore_id) thumbs
        → AllCover t purged flags
        → Kept t rem w
        → Post
            (λ f w'. AllCover t purged f × Kept t rem w')
            (λ e w'. Kept t rem w')
            (flag_thumbs thumbs flags w)
    unfolding flag_thumbs
    flag_thumbs-Post [] flags w n h k = record { at = (h, k) }
    flag_thumbs-Post (x ∷ thumbs) flags w n h k =
        Post-bind (do_flagging x.datastore_id x.location flags) (flag_thumbs thumbs) w
          (do_flagging-Post x.datastore_id x.location flags w n.0 h k)
          λ f w1 (h1, k1). flag_thumbs-Post thumbs f w1 n.1 h1 k1

    pub identify-Post :
        (records : List DbMedia) (flags : Flags) (thumbs_map : Thumbs) (w : World)
        → All (λ (x : DbThumbnail). NoSlash x.datastore_id) t.thumbnails
        → All (λ (r : DbMedia). NoSlash r.datastore_id) records
        → AllCover t purged flags
        → ThumbsFit thumbs_map
        → Kept t rem w
        → Post
            (λ p w'. AllCover t purged p.0 × ThumbsFit p.1 × Kept t rem w')
            (λ e w'. Kept t rem w')
            (identify records flags thumbs_map w)
    unfolding identify get_for_media
    identify-Post [] flags thumbs_map w nt n h f k = record { at = (h, f, k) }
    identify-Post (r ∷ records) flags thumbs_map w nt n h f k =
        Post-bind (do_flagging r.datastore_id r.location flags) _ w
          (do_flagging-Post r.datastore_id r.location flags w n.0 h k)
          λ flags1 w1 (h1, k1).
            Post-bind (get_for_media r.origin r.media_id) _ w1 (query_lem _ w1 k1)
              λ thumbs w2 (found, k2).
                Post-bind (flag_thumbs thumbs flags1) _ w2
                  (flag_thumbs-Post thumbs flags1 w2 (rw found (All-filter _ _ t.thumbnails nt)) h1
                    k2)
                  λ flags2 w3 (h3, k3).
                    identify-Post records flags2 (insert (media_mxc r) thumbs thumbs_map) w3 nt n.1
                      h3
                      (ThumbsFit-insert (media_mxc r) thumbs thumbs_map
                        (rw found (filter-IsThumbOf r t.thumbnails nt)) f)
                      k3
