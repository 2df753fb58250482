-- ===== src/Purge/Spares.antt =====
-- The rows of `media` that a purge leaves.
use matrix_media_repo.Prelude.{
  ◌≡◌, refl, Bool, false, not, List, [], ◌∷◌, inl, inr, Contains, All, Bool-cases, Option-cases,
  filter-Contains, any, if◌then◌else◌,
}
use matrix_media_repo.Prelude.Text.{Str}
use matrix_media_repo.Config.{Context}
use matrix_media_repo.World.{World}
use matrix_media_repo.World.Keeps.{
  Keeps, pure-Keeps, raise-Keeps, bind-Keeps, if-Keeps, query-Keeps, write-Keeps, bind-keeps,
}
use matrix_media_repo.Database.Rows.{Tables, DbMedia, DbThumbnail}
use matrix_media_repo.Database.Media.{has_id, delete_rows, delete_media, get_by_location}
use matrix_media_repo.Database.Thumbnails.{delete_thumbnail, get_for_media, thumbnails_at}
use matrix_media_repo.Database.Ids.{insert_reserved, reserved_id}
use matrix_media_repo.Datastores.{remove_with_ds_id}
use matrix_media_repo.Datastores.Removal.{remove_with_ds_id_lem}
use matrix_media_repo.Purge.Identify.{pre_filter-Post, All-filter}
use matrix_media_repo.Purge.{
  Flags, Thumbs, Deleted, media_mxc, pre_filter, do_flagging, flag_thumbs, identify, mark,
  mark_thumbs, mark_being_purged, thumbs_of, try_remove_ds_file, remove_thumbs, reserve_id,
  delete_row, remove_records, purge_stages, do_purge, location_id, thumbnail_mxc,
}
use matrix_media_repo.Prelude.Keys.{lookup, str_key}

-- The row is in the table.
abbrev pub Present : DbMedia → Tables → Type 0
Present m t = Contains m t.media

-- No record of the list has the ID of the row.
abbrev pub Spared : DbMedia → List DbMedia → Type 0
Spared m records = All (λ (r : DbMedia). has_id r.origin r.media_id m ≡ false) records

module _ (m : DbMedia) where
  remove_with_ds_id-Keeps :
      (ctx : Context) (ds location : Str) → Keeps (Present m) (remove_with_ds_id ctx ds location)
  remove_with_ds_id-Keeps ctx ds location = record {
    at = λ w c. rw (remove_with_ds_id_lem ctx ds location w).1 c;
  }

  try_remove_ds_file-Keeps :
      (ctx : Context) (flags : Flags) (ds location : Str) (deleted : Deleted)
      → Keeps (Present m) (try_remove_ds_file ctx flags ds location deleted)
  unfolding try_remove_ds_file
  try_remove_ds_file-Keeps ctx flags ds location deleted =
      elim (Option-cases (lookup (location_id ds location) deleted)) [
        | inr (b, e) ↦ rw (e, try_remove_ds_file) (pure-Keeps _)
        | inl e ↦ elim (Option-cases (lookup (location_id ds location) flags)) [
          | inl e' ↦ rw (e, try_remove_ds_file, e') (raise-Keeps _)
          | inr (f, e') ↦
              rw (e, try_remove_ds_file, e')
                (if-Keeps _ _ _
                  (bind-Keeps _ _ (remove_with_ds_id-Keeps ctx ds location) (λ u. pure-Keeps _))
                  (pure-Keeps _))
        ]
      ]

  remove_thumbs-Keeps :
      (ctx : Context) (flags : Flags) (thumbs : List DbThumbnail) (deleted : Deleted)
      → Keeps (Present m) (remove_thumbs ctx flags thumbs deleted)
  unfolding remove_thumbs delete_thumbnail
  remove_thumbs-Keeps ctx flags [] deleted = pure-Keeps _
  remove_thumbs-Keeps ctx flags (x ∷ thumbs) deleted =
      bind-Keeps _ _ (try_remove_ds_file-Keeps ctx flags x.datastore_id x.location deleted)
        λ deleted'.
          bind-Keeps (delete_thumbnail x) _ (write-Keeps _ (λ db c. c))
            λ u. remove_thumbs-Keeps ctx flags thumbs deleted'

  if-Present :
      (b : Bool) (t t' : Tables) → Present m t → Present m t' → Present m (if b then t else t')
  if-Present b t t' c c' = elim (Bool-cases b) [ inl e ↦ rw e c | inr e ↦ rw e c' ]

  reserve_id-Keeps : (ctx : Context) (r : DbMedia) → Keeps (Present m) (reserve_id ctx r)
  unfolding reserve_id insert_reserved
  reserve_id-Keeps ctx r =
      if-Keeps _ _ _
        (write-Keeps _
          (λ db c. if-Present (any (reserved_id r.origin r.media_id) db.reserved_media) db _ c c))
        (pure-Keeps _)

  delete_row-Keeps :
      (r : DbMedia) → has_id r.origin r.media_id m ≡ false → Keeps (Present m) (delete_row r)
  unfolding delete_row delete_media delete_rows
  delete_row-Keeps r n = if-Keeps _ _ _ (pure-Keeps _) (
      write-Keeps _ (λ db c.
        filter-Contains (λ x. not (has_id r.origin r.media_id x)) m db.media c (rw n refl)))

  thumbs_of-Keeps :
      (missing mxc : Str) (thumbs_map : Thumbs)
      → Keeps (Present m) (thumbs_of missing mxc thumbs_map)
  thumbs_of-Keeps missing mxc thumbs_map = elim (Option-cases (lookup mxc thumbs_map)) [
    | inl e ↦ rw (e, thumbs_of) (raise-Keeps _)
    | inr (thumbs, e) ↦ rw (e, thumbs_of) (pure-Keeps _)
  ]

  remove_records-Keeps :
      (ctx : Context) (flags : Flags) (thumbs_map : Thumbs) (records : List DbMedia)
      (deleted : Deleted) (acc : List Str)
      → Spared m records
      → Keeps (Present m) (remove_records ctx flags thumbs_map records deleted acc)
  unfolding remove_records
  remove_records-Keeps ctx flags thumbs_map [] deleted acc n = pure-Keeps _
  remove_records-Keeps ctx flags thumbs_map (r ∷ records) deleted acc n =
      bind-Keeps _ _ (try_remove_ds_file-Keeps ctx flags r.datastore_id r.location deleted)
        λ deleted1. bind-Keeps (reserve_id ctx r) _ (reserve_id-Keeps ctx r) λ u.
          bind-Keeps (delete_row r) _ (delete_row-Keeps r n.0) λ v.
            bind-Keeps _ _ (thumbs_of-Keeps _ (media_mxc r) thumbs_map) λ thumbs.
              bind-Keeps _ _ (remove_thumbs-Keeps ctx flags thumbs deleted1)
                λ deleted2. remove_records-Keeps ctx flags thumbs_map records deleted2 _ n.1

  do_flagging-Keeps :
      (ds location : Str) (flags : Flags) → Keeps (Present m) (do_flagging ds location flags)
  unfolding do_flagging get_by_location thumbnails_at
  do_flagging-Keeps ds location flags =
      elim (Option-cases (lookup (location_id ds location) flags)) [
        | inr (f, e) ↦ rw (e, do_flagging) (pure-Keeps _)
        | inl e ↦
            rw (e, do_flagging)
              (bind-Keeps _ _ (query-Keeps _)
                λ media. bind-Keeps _ _ (query-Keeps _) λ thumbs. pure-Keeps _)
      ]

  flag_thumbs-Keeps :
      (thumbs : List DbThumbnail) (flags : Flags) → Keeps (Present m) (flag_thumbs thumbs flags)
  unfolding flag_thumbs
  flag_thumbs-Keeps [] flags = pure-Keeps _
  flag_thumbs-Keeps (x ∷ thumbs) flags =
      bind-Keeps _ _ (do_flagging-Keeps x.datastore_id x.location flags) (flag_thumbs-Keeps thumbs)

  identify-Keeps :
      (records : List DbMedia) (flags : Flags) (thumbs_map : Thumbs)
      → Keeps (Present m) (identify records flags thumbs_map)
  unfolding identify get_for_media
  identify-Keeps [] flags thumbs_map = pure-Keeps _
  identify-Keeps (r ∷ records) flags thumbs_map =
      bind-Keeps _ _ (do_flagging-Keeps r.datastore_id r.location flags) λ flags1.
        bind-Keeps _ _ (query-Keeps _) λ thumbs.
          bind-Keeps _ _ (flag_thumbs-Keeps thumbs flags1) λ flags2. identify-Keeps records flags2 _

  mark_being_purged-Keeps :
      (key mxc : Str) (flags : Flags) → Keeps (Present m) (mark_being_purged key mxc flags)
  unfolding mark_being_purged
  mark_being_purged-Keeps key mxc flags = record { at = λ w c. c }

  mark_thumbs-Keeps :
      (thumbs : List DbThumbnail) (flags : Flags) → Keeps (Present m) (mark_thumbs thumbs flags)
  unfolding mark_thumbs
  mark_thumbs-Keeps [] flags = pure-Keeps _
  mark_thumbs-Keeps (x ∷ thumbs) flags =
      bind-Keeps _ _ (mark_being_purged-Keeps _ (thumbnail_mxc x) flags) (mark_thumbs-Keeps thumbs)

  mark-Keeps :
      (records : List DbMedia) (thumbs_map : Thumbs) (flags : Flags)
      → Keeps (Present m) (mark records thumbs_map flags)
  unfolding mark
  mark-Keeps [] thumbs_map flags = pure-Keeps _
  mark-Keeps (r ∷ records) thumbs_map flags =
      bind-Keeps _ _ (mark_being_purged-Keeps _ (media_mxc r) flags) λ flags1.
        bind-Keeps _ _ (thumbs_of-Keeps _ (media_mxc r) thumbs_map)
          λ thumbs. bind-Keeps _ _ (mark_thumbs-Keeps thumbs flags1) (mark-Keeps records thumbs_map)

  purge_stages-Keeps :
      (ctx : Context) (records : List DbMedia)
      → Spared m records
      → Keeps (Present m) (purge_stages ctx records)
  unfolding purge_stages
  purge_stages-Keeps ctx records n = bind-Keeps _ _ (identify-Keeps records [] []) λ found.
      bind-Keeps _ _ (mark-Keeps records found.1 found.0)
        λ flags. remove_records-Keeps ctx flags found.1 records [] [] n

  pub do_purge-Present :
      (ctx : Context) (include_quarantined : Bool) (records : List DbMedia) (w : World)
      → Spared m records
      → Present m w.db
      → Present m (do_purge ctx include_quarantined records w).1.db
  unfolding do_purge
  do_purge-Present ctx i records w n c =
      bind-keeps (λ w'. Present m w'.db) (pre_filter i records) (purge_stages ctx) w
        (pre_filter-Post w.db w.removed i records w
          (record { db_kept = refl; removed_kept = refl }))
        (λ kept w' (e, k).
          (purge_stages-Keeps ctx kept (rw e (All-filter _ _ records n))).at w' (rw k.db_kept c))
        (λ e w' k. rw k.db_kept c)
