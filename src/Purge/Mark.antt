-- ===== src/Purge/Mark.antt =====
-- Stage 2 of `doPurge`: which media are flagged.
use matrix_media_repo.Prelude.{
  Bool, true, false, List, [], ◌∷◌, inl, inr, Contains, All, Bool-cases, Option-cases, arith,
}
use matrix_media_repo.Prelude.Text.{Str, str_eq, str_eq_iff}
use matrix_media_repo.Prelude.Keys.{Map, lookup, insert, lookup-insert, str_key}
use matrix_media_repo.World.{World}
use matrix_media_repo.World.Rules.{Post, Post-bind, Kept}
use matrix_media_repo.Database.Rows.{Tables, DbMedia, DbThumbnail}
use matrix_media_repo.Purge.{
  Flags, Thumbs, media_mxc, thumbnail_mxc, location_id, mark_being_purged, mark_thumbs, mark,
  mark_in, thumbs_of, missing_in_second_step,
}
use matrix_media_repo.Purge.Cover.{Covers, AllCover, AllCover-insert}
use matrix_media_repo.Purge.Identify.{IsThumbOf, ThumbsFit}

module _ (t : Tables) (purged : List Str) where
  Covers-mark :
      (key mxc : Str) (m : Map Str Bool)
      → Contains mxc purged
      → Covers t purged key m
      → Covers t purged key (insert mxc true m)
  Covers-mark key mxc m c v = record {
    ds = v.ds;
    location = v.location;
    plain = v.plain;
    key_eq = v.key_eq;
    covered = λ x h. elim (Bool-cases (str_eq mxc x)) [
      | inl e ↦ (true, ground (arith, lookup-insert mxc x true m))
      | inr e ↦ let (b, f) = v.covered x h in (b, ground (arith, lookup-insert mxc x true m))
    ];
    flagged = λ x h. elim (Bool-cases (str_eq mxc x)) [
      | inl e ↦ rw (← (str_eq_iff mxc x).0 e) c
      | inr e ↦ v.flagged x (ground (arith, lookup-insert mxc x true m))
    ];
  }

  module _ (rem : List (Str × Str)) where
    mark_being_purged-Post :
        (key mxc : Str) (flags : Flags) (w : World)
        → Contains mxc purged
        → AllCover t purged flags
        → Kept t rem w
        → Post
            (λ f w'. AllCover t purged f × Kept t rem w')
            (λ e w'. Kept t rem w')
            (mark_being_purged key mxc flags w)
    unfolding mark_being_purged
    mark_being_purged-Post key mxc flags w c h k = elim (Option-cases (lookup key flags)) [
      | inl e ↦ rw e (record { at = k })
      | inr (m, e) ↦ elim (Option-cases (lookup mxc m)) [
        | inl e' ↦ rw (e, mark_in, e') (record { at = k })
        | inr (true, e') ↦ rw (e, mark_in, e') (record { at = (h, k) })
        | inr (false, e') ↦
            rw (e, mark_in, e')
              (record {
                at = (
                  AllCover-insert t purged key (insert mxc true m) flags
                      (Covers-mark key mxc m c (h key m e)) h,
                  k,
                );
              })
      ]
    ]

    mark_thumbs-Post :
        (mxc : Str) (thumbs : List DbThumbnail) (flags : Flags) (w : World)
        → Contains mxc purged
        → All (IsThumbOf mxc) thumbs
        → AllCover t purged flags
        → Kept t rem w
        → Post
            (λ f w'. AllCover t purged f × Kept t rem w')
            (λ e w'. Kept t rem w')
            (mark_thumbs thumbs flags w)
    unfolding mark_thumbs
    mark_thumbs-Post mxc [] flags w c n h k = record { at = (h, k) }
    mark_thumbs-Post mxc (x ∷ thumbs) flags w c n h k =
        Post-bind
          (mark_being_purged (location_id x.datastore_id x.location) (thumbnail_mxc x) flags)
          (mark_thumbs thumbs) w
          (mark_being_purged-Post _ (thumbnail_mxc x) flags w (rw n.0.0 c) h k)
          λ f w1 (h1, k1). mark_thumbs-Post mxc thumbs f w1 c n.1 h1 k1

    pub thumbs_of-Post :
        (missing mxc : Str) (thumbs_map : Thumbs) (w : World)
        → ThumbsFit thumbs_map
        → Kept t rem w
        → Post
            (λ thumbs w'. All (IsThumbOf mxc) thumbs × Kept t rem w')
            (λ e w'. Kept t rem w')
            (thumbs_of missing mxc thumbs_map w)
    thumbs_of-Post missing mxc thumbs_map w f k = elim (Option-cases (lookup mxc thumbs_map)) [
      | inl e ↦ rw (e, thumbs_of) (record { at = k })
      | inr (thumbs, e) ↦ rw (e, thumbs_of) (record { at = (f mxc thumbs e, k) })
    ]

    pub mark-Post :
        (records : List DbMedia) (thumbs_map : Thumbs) (flags : Flags) (w : World)
        → All (λ (r : DbMedia). Contains (media_mxc r) purged) records
        → ThumbsFit thumbs_map
        → AllCover t purged flags
        → Kept t rem w
        → Post
            (λ f w'. AllCover t purged f × Kept t rem w')
            (λ e w'. Kept t rem w')
            (mark records thumbs_map flags w)
    unfolding mark
    mark-Post [] thumbs_map flags w c f h k = record { at = (h, k) }
    mark-Post (r ∷ records) thumbs_map flags w c f h k =
        Post-bind (mark_being_purged (location_id r.datastore_id r.location) (media_mxc r) flags) _
          w (mark_being_purged-Post _ (media_mxc r) flags w c.0 h k)
          λ flags1 w1 (h1, k1).
            Post-bind (thumbs_of missing_in_second_step (media_mxc r) thumbs_map) _ w1
              (thumbs_of-Post missing_in_second_step (media_mxc r) thumbs_map w1 f k1)
              λ thumbs w2 (n, k2).
                Post-bind (mark_thumbs thumbs flags1) _ w2
                  (mark_thumbs-Post (media_mxc r) thumbs flags1 w2 c.0 n h1 k2)
                  λ flags2 w3 (h3, k3). mark-Post records thumbs_map flags2 w3 c.1 f h3 k3
