-- ===== src/Purge/Remove.antt =====
-- Stage 3 of `doPurge`: which files are removed.
use matrix_media_repo.Prelude.{
  ◌≡◌, Bool, true, Option, some, List, [], ◌∷◌, ◌++◌, all, inl, inr, ◌⊎◌, Contains, All, Bool-cases,
  Option-cases,
}
use matrix_media_repo.Prelude.Text.{Str}
use matrix_media_repo.Prelude.Keys.{Map, lookup, str_key}
use matrix_media_repo.Common.{Result}
use matrix_media_repo.Config.{Context, is_server_ours}
use matrix_media_repo.World.{World, exec}
use matrix_media_repo.World.Rules.{Post, Post-bind, Post-both, removed-exec}
use matrix_media_repo.Database.Rows.{Tables, DbMedia, DbThumbnail}
use matrix_media_repo.Database.Media.{delete_media}
use matrix_media_repo.Database.Thumbnails.{delete_thumbnail}
use matrix_media_repo.Database.Ids.{insert_reserved}
use matrix_media_repo.Datastores.{remove_with_ds_id}
use matrix_media_repo.Datastores.Removal.{remove_with_ds_id_lem}
use matrix_media_repo.Purge.{
  Flags, Thumbs, Deleted, media_mxc, location_id, try_remove_ds_file, remove_thumbs, remove_records,
  thumbs_of, reserve_id, delete_row, missing_in_third_step,
}
use matrix_media_repo.Purge.Cover.{NoSlash, AllCover, references, location_id_injective, all-lookup}
use matrix_media_repo.Purge.Identify.{IsThumbOf, ThumbsFit}

-- Every medium that uses the file is being purged.
abbrev pub Cleared : Tables → List Str → Str × Str → Type 0
Cleared t purged p = (x : Str) → Contains x (references t p.0 p.1) → Contains x purged

-- Every object removed since `rem` was cleared.
pub record Safe (t : Tables) (purged : List Str) (rem : List (Str × Str)) (w : World) : Type 0 where
  pub at : (p : Str × Str) → Contains p w.removed → Contains p rem ⊎ Cleared t purged p

module _ (t : Tables) (purged : List Str) (rem : List (Str × Str)) where
  Safe-same : {w w' : World} → w'.removed ≡ w.removed → Safe t purged rem w → Safe t purged rem w'
  Safe-same e s = record { at = λ p c. s.at p (rw e at c) }

  Safe-cons :
      {w w' : World} (p : Str × Str)
      → w'.removed ≡ p ∷ w.removed
      → Cleared t purged p
      → Safe t purged rem w
      → Safe t purged rem w'
  Safe-cons {w = w} p e k s = record {
    at = λ q c.
        let c' : Contains q (p ∷ w.removed) = rw e at c in
        elim c' [ inl same ↦ inr (rw same k) | inr old ↦ s.at q old ];
  }

  -- An action that leaves a safe world, whatever its outcome.
  abbrev IsSafe : {A : Type 0} → Result A × World → Type 0
  IsSafe p = Post (λ a w. Safe t purged rem w) (λ e w. Safe t purged rem w) p

  exec-IsSafe : (f : Tables → Option Tables) (w : World) → Safe t purged rem w → IsSafe (exec f w)
  exec-IsSafe f w s = Post-both (Safe t purged rem) (exec f w) (Safe-same (removed-exec f w) s)

  remove_with_ds_id-IsSafe :
      (ctx : Context) (ds location : Str) (w : World)
      → Cleared t purged (ds, location)
      → Safe t purged rem w
      → IsSafe (remove_with_ds_id ctx ds location w)
  remove_with_ds_id-IsSafe ctx ds location w k s =
      Post-both (Safe t purged rem) (remove_with_ds_id ctx ds location w)
        (elim ((remove_with_ds_id_lem ctx ds location w).0) [
          | inl same ↦ Safe-same same s
          | inr cons ↦ Safe-cons (ds, location) cons k s
        ])

  -- The entry of a file whose flags are all true clears the file.
  Cleared-of_all :
      (flags : Flags) (ds location : Str) (m : Map Str Bool)
      → AllCover t purged flags
      → NoSlash ds
      → lookup (location_id ds location) flags ≡ some m
      → all (λ (e : Str × Bool). e.1) m ≡ true
      → Cleared t purged (ds, location)
  Cleared-of_all flags ds location m h n e full x c =
      let v = h (location_id ds location) m e in
      let (same_ds, same_location) =
        location_id_injective ds location v.ds v.location n v.plain v.key_eq in
      let (b, found) = v.covered x (rw (← same_ds, ← same_location) c) in
      v.flagged x (all-lookup x m b full found)

  module _ (flags : Flags) (cover : AllCover t purged flags) (ctx : Context) where
    try_remove_ds_file-IsSafe :
        (ds location : Str) (deleted : Deleted) (w : World)
        → NoSlash ds
        → Safe t purged rem w
        → IsSafe (try_remove_ds_file ctx flags ds location deleted w)
    unfolding try_remove_ds_file
    try_remove_ds_file-IsSafe ds location deleted w n s =
        elim (Option-cases (lookup (location_id ds location) deleted)) [
          | inr (b, e) ↦ rw (e, try_remove_ds_file) (record { at = s })
          | inl e ↦ elim (Option-cases (lookup (location_id ds location) flags)) [
            | inl e' ↦ rw (e, try_remove_ds_file, e') (record { at = s })
            | inr (m, e') ↦ elim (Bool-cases (all (λ (x : Str × Bool). x.1) m)) [
              | inr some_used ↦ rw (e, try_remove_ds_file, e', some_used) (record { at = s })
              | inl full ↦
                  rw (e, try_remove_ds_file, e', full)
                    (Post-bind (remove_with_ds_id ctx ds location) _ w
                      (remove_with_ds_id-IsSafe ctx ds location w
                        (Cleared-of_all flags ds location m cover n e' full) s)
                      λ u w1 s1. record { at = s1 })
            ]
          ]
        ]

    remove_thumbs-IsSafe :
        (mxc : Str) (thumbs : List DbThumbnail) (deleted : Deleted) (w : World)
        → All (IsThumbOf mxc) thumbs
        → Safe t purged rem w
        → IsSafe (remove_thumbs ctx flags thumbs deleted w)
    unfolding remove_thumbs delete_thumbnail
    remove_thumbs-IsSafe mxc [] deleted w n s = record { at = s }
    remove_thumbs-IsSafe mxc (x ∷ thumbs) deleted w n s =
        Post-bind (try_remove_ds_file ctx flags x.datastore_id x.location deleted) _ w
          (try_remove_ds_file-IsSafe x.datastore_id x.location deleted w n.0.1 s)
          λ deleted1 w1 s1.
            Post-bind (delete_thumbnail x) _ w1 (exec-IsSafe _ w1 s1)
              λ u w2 s2. remove_thumbs-IsSafe mxc thumbs deleted1 w2 n.1 s2

    reserve_id-IsSafe :
        (r : DbMedia) (w : World) → Safe t purged rem w → IsSafe (reserve_id ctx r w)
    unfolding reserve_id insert_reserved
    reserve_id-IsSafe r w s = elim (Bool-cases (is_server_ours ctx r.origin)) [
      | inl e ↦ rw e (exec-IsSafe _ w s)
      | inr e ↦ rw e (record { at = s })
    ]

    delete_row-IsSafe : (r : DbMedia) (w : World) → Safe t purged rem w → IsSafe (delete_row r w)
    unfolding delete_row delete_media
    delete_row-IsSafe r w s = elim (Bool-cases r.quarantined) [
      | inl e ↦ rw e (record { at = s })
      | inr e ↦ rw e (exec-IsSafe _ w s)
    ]

    found-IsSafe :
        (missing mxc : Str) (thumbs_map : Thumbs) (w : World)
        → ThumbsFit thumbs_map
        → Safe t purged rem w
        → Post
            (λ thumbs w'. All (IsThumbOf mxc) thumbs × Safe t purged rem w')
            (λ e w'. Safe t purged rem w')
            (thumbs_of missing mxc thumbs_map w)
    found-IsSafe missing mxc thumbs_map w f s = elim (Option-cases (lookup mxc thumbs_map)) [
      | inl e ↦ rw (e, thumbs_of) (record { at = s })
      | inr (thumbs, e) ↦ rw (e, thumbs_of) (record { at = (f mxc thumbs e, s) })
    ]

    pub remove_records-IsSafe :
        (thumbs_map : Thumbs) (records : List DbMedia) (deleted : Deleted) (acc : List Str)
        (w : World)
        → All (λ (r : DbMedia). NoSlash r.datastore_id) records
        → ThumbsFit thumbs_map
        → Safe t purged rem w
        → IsSafe (remove_records ctx flags thumbs_map records deleted acc w)
    unfolding remove_records
    remove_records-IsSafe thumbs_map [] deleted acc w n f s = record { at = s }
    remove_records-IsSafe thumbs_map (r ∷ records) deleted acc w n f s =
        Post-bind (try_remove_ds_file ctx flags r.datastore_id r.location deleted) _ w
          (try_remove_ds_file-IsSafe r.datastore_id r.location deleted w n.0 s)
          λ deleted1 w1 s1. Post-bind (reserve_id ctx r) _ w1 (reserve_id-IsSafe r w1 s1) λ u w2 s2.
            Post-bind (delete_row r) _ w2 (delete_row-IsSafe r w2 s2) λ v w3 s3.
              Post-bind (thumbs_of missing_in_third_step (media_mxc r) thumbs_map) _ w3
                (found-IsSafe missing_in_third_step (media_mxc r) thumbs_map w3 f s3)
                λ thumbs w4 (fit, s4).
                  Post-bind (remove_thumbs ctx flags thumbs deleted1) _ w4
                    (remove_thumbs-IsSafe (media_mxc r) thumbs deleted1 w4 fit s4)
                    λ deleted2 w5 s5.
                      remove_records-IsSafe thumbs_map records deleted2 (acc ++ media_mxc r ∷ []) w5
                        n.1 f s5
