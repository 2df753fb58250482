-- ===== src/Purge/Safety.antt =====
-- The files that `doPurge` removes, over its three stages.
use matrix_media_repo.Prelude.{
  ◌≡◌, refl, Bool, List, [], ◌∷◌, map, filter, inl, inr, ◌⊎◌, Contains, All,
}
use matrix_media_repo.Prelude.Text.{Str}
use matrix_media_repo.Config.{Context}
use matrix_media_repo.World.{World}
use matrix_media_repo.World.Rules.{Post, Post-bind, Post-weaken, Post-world, Kept}
use matrix_media_repo.Database.Rows.{Tables, DbMedia, DbThumbnail}
use matrix_media_repo.Purge.{media_mxc, pre_filter, identify, mark, purge_stages, do_purge}
use matrix_media_repo.Purge.Cover.{NoSlash, AllCover-empty, references, Contains-map}
use matrix_media_repo.Purge.Identify.{
  is_purgeable, ThumbsFit-empty, All-filter, pre_filter-Post, identify-Post,
}
use matrix_media_repo.Purge.Mark.{mark-Post}
use matrix_media_repo.Purge.Remove.{Safe, remove_records-IsSafe}

-- Every record's URI is among the records' URIs.
All-mxc :
    (records kept : List DbMedia)
    → ((r : DbMedia) → Contains r kept → Contains r records)
    → All (λ (r : DbMedia). Contains (media_mxc r) (map media_mxc records)) kept
All-mxc records [] h = tt
All-mxc records (r ∷ kept) h =
    (Contains-map media_mxc r records (h r (inl refl)), All-mxc records kept (λ x c. h x (inr c)))

Kept-Safe :
    (t : Tables) (purged : List Str) (rem : List (Str × Str)) (w : World)
    → Kept t rem w
    → Safe t purged rem w
Kept-Safe t purged rem w k = record { at = λ p c. inl (rw k.removed_kept at c) }

module _ (ctx : Context) (t : Tables) (rem : List (Str × Str)) (records : List DbMedia) where
  purge_stages-IsSafe :
      (w : World)
      → All (λ (x : DbThumbnail). NoSlash x.datastore_id) t.thumbnails
      → All (λ (r : DbMedia). NoSlash r.datastore_id) records
      → Kept t rem w
      → let purged = map media_mxc records in
        Post
          (λ a w'. Safe t purged rem w')
          (λ e w'. Safe t purged rem w')
          (purge_stages ctx records w)
  unfolding purge_stages
  purge_stages-IsSafe w nt n k =
      let purged = map media_mxc records in
      let broken = λ (w' : World) (k' : Kept t rem w'). Kept-Safe t purged rem w' k' in
      Post-bind (identify records [] []) _ w
        (Post-weaken _ _ _
          (identify-Post t rem purged records [] [] w nt n (AllCover-empty t purged) ThumbsFit-empty
            k)
          (λ p w' h. h) (λ e w'. broken w'))
        λ (flags, thumbs_map) w1 (h1, f1, k1).
          Post-bind (mark records thumbs_map flags) _ w1
            (Post-weaken _ _ _
              (mark-Post t purged rem records thumbs_map flags w1
                (All-mxc records records (λ r c. c)) f1 h1 k1)
              (λ p w' h. h) (λ e w'. broken w'))
            λ flags2 w2 (h2, k2).
              remove_records-IsSafe t purged rem flags2 h2 ctx thumbs_map records [] [] w2 n f1
                (broken w2 k2)

-- Let no datastore ID of the records or of the stored thumbnails contain a slash. Whatever fails on
-- the way, each object that a purge has removed was removed before, or every medium that used it
-- when the purge began, directly or by a thumbnail, is the URI of a record of the purge that is not
-- pinned, and not quarantined where quarantined media are left alone.
pub do_purge-removes_unused :
    (ctx : Context) (include_quarantined : Bool) (records : List DbMedia) (w : World)
    → All (λ (x : DbThumbnail). NoSlash x.datastore_id) w.db.thumbnails
    → All (λ (r : DbMedia). NoSlash r.datastore_id) records
    → (p : Str × Str) → Contains p (do_purge ctx include_quarantined records w).1.removed
    → Contains p w.removed
      ⊎ ((x : Str)
          → Contains x (references w.db p.0 p.1)
          → Contains x (map media_mxc (filter (is_purgeable include_quarantined w.db) records)))
unfolding do_purge
do_purge-removes_unused ctx i records w nt n p c =
    let kept = filter (is_purgeable i w.db) records in
    (Post-world (
        Post-bind (pre_filter i records) (purge_stages ctx) w
          (Post-weaken (λ found w'. (found ≡ kept) × Kept w.db w.removed w')
            (λ e w'. Safe w.db (map media_mxc kept) w.removed w') (pre_filter i records w)
            (pre_filter-Post w.db w.removed i records w
              (record { db_kept = refl; removed_kept = refl }))
            (λ found w' h. h) (λ e w'. Kept-Safe w.db (map media_mxc kept) w.removed w'))
          λ found w1 (e, k1).
            rw e
              (purge_stages-IsSafe ctx w.db w.removed kept w1 nt (All-filter _ _ records n) k1))).at
      p c
