-- ===== src/Tests/Examples.antt =====
-- The theorems at the concrete tables and options.
use matrix_media_repo.Prelude.{
  Bool-cases, ◌≡◌, refl, ap, Bool, true, false, none, some, [], ◌∷◌, Contains, inl, inr, arith, ◌⊎◌,
  ◌↔◌, map, filter,
}
use matrix_media_repo.Prelude.Int.{pos, ◌+ℤ◌, ◌-ℤ◌, ◌<ℤ◌, ◌≤ℤ◌}
use matrix_media_repo.Prelude.Text.{Str, codes, str_eq}
use matrix_media_repo.Prelude.Keys.{lookup, insert, str_key, pair_key}
use matrix_media_repo.Common.{ok}
use matrix_media_repo.Config.{QuotaUserConfig, is_server_ours}
use matrix_media_repo.Database.Rows.{DbMedia}
use matrix_media_repo.World.{World, query, ask, exec, os_remove, remove_object}
use matrix_media_repo.World.Rules.{Post}
use matrix_media_repo.Database.Counted.{Counted, insert_row-Counted, delete_rows-Counted}
use matrix_media_repo.Database.Updates.{update_rows-Counted}
use matrix_media_repo.Upload.Create.{GivenOut, create-GivenOut}
use matrix_media_repo.Upload.Whole.{Returned, execute-Backed}
use matrix_media_repo.Util.Mxc.{mxc_uri, split_mxc, split_user_id}
use matrix_media_repo.Util.RoundTrip.{split_mxc-mxc_uri, split_user_id-parts}
use matrix_media_repo.Migrate.{DatastoreMigrateParams, datastore_migrate}
use matrix_media_repo.Migrate.Safety.{LostUnused}
use matrix_media_repo.Migrate.Task.{datastore_migrate-Sound}
use matrix_media_repo.Upload.Put.{MayPut, execute_put-MayPut}
use matrix_media_repo.Database.Ids.{get_attributes, insert_reserved}
use matrix_media_repo.Database.Media.{
  get_by_location, location_exists, has_hash, insert_row, update_rows, count_insert, delete_media,
  delete_rows,
}
use matrix_media_repo.Database.Thumbnails.{thumbnails_at, get_for_media, delete_thumbnail}
use matrix_media_repo.Datastores.{
  local_media, remote_media, pick, pick_index, remove_with_ds_id, get, remove,
  estimate_datastore_size, max_by_hash, sum_sizes, has_listed_kind,
}
use matrix_media_repo.Datastores.Choice.{pick_last, pick-accepts}
use matrix_media_repo.Purge.{
  media_mxc, do_purge, do_flagging, flag_thumbs, location_id, mark_being_purged, mark_thumbs,
  try_remove_ds_file, delete_row, identify, mark, pre_filter, purge_stages, remove_records,
  remove_thumbs, reserve_id,
}
use matrix_media_repo.Purge.Cover.{references}
use matrix_media_repo.Purge.Identify.{is_purgeable}
use matrix_media_repo.Purge.Safety.{do_purge-removes_unused}
use matrix_media_repo.Quota.{max_bytes, max_count, limit, limit_of, default_limit, can_upload}
use matrix_media_repo.Quota.Fits.{FirstFit, NoFit, can_upload_iff, limit_first}
use matrix_media_repo.Readers.{Stream, eof, read_all, read_pieces, read_limited}
use matrix_media_repo.Readers.Bounds.{read_limited-fits, read_limited-bounded}
use matrix_media_repo.Upload.Steps.{create, buffer, Upload, find_match, generate_media_id}
use matrix_media_repo.Upload.Ids.{Fresh, find_match_first, generate_media_id-Fresh}
use matrix_media_repo.Upload.Pipeline.{execute, execute_put}
use matrix_media_repo.Upload.Rows.{Backed}
use matrix_media_repo.Quarantine.{quarantine_records}
use matrix_media_repo.Quarantine.Flags.{Hidden, concerned, is_handled, quarantine_records-Hidden}
use matrix_media_repo.ThumbnailPurge.{
  purge_thumbnail_batch, touched, purge_locations, purge_location, clear_location, delete_old,
}
use matrix_media_repo.ThumbnailPurge.Safety.{Unused, purge_batch-Unused}
use matrix_media_repo.Tests.{context, files_ds, bucket_ds, photo, thumb, world, sent}

abbrev pub here : World
here = world (photo ∷ [])

do_purge-removes_unused_example :
    Contains {A = Str × Str} (codes "files", codes "a") []
    ⊎ ((x : Str)
        → Contains x (references here.db (codes "files") (codes "a"))
        → Contains x (map media_mxc (filter (is_purgeable true here.db) (photo ∷ []))))
unfolding do_purge get_attributes query do_flagging lookup get_by_location thumbnails_at
    get_for_media flag_thumbs str_eq insert location_id mark_being_purged mxc_uri mark_thumbs
    try_remove_ds_file remove_with_ds_id os_remove is_server_ours insert_reserved delete_media
    delete_rows delete_thumbnail get remove ◌-ℤ◌ delete_row identify mark pre_filter purge_stages
    remove_records remove_thumbs reserve_id ask exec remove_object
do_purge-removes_unused_example =
    do_purge-removes_unused context true (photo ∷ []) here (ground arith) (ground arith)
      (codes "files", codes "a") (inr (inl refl))

pub here-Backed : Backed here
here-Backed = record {
  file = λ r c. elim c [
    | inl e ↦ inl (ap (λ (x : DbMedia). (x.datastore_id, x.location)) e)
    | inr h ↦ absurd h
  ];
}

abbrev ann_upload : Upload
ann_upload = record {
  origin = codes "here";
  content_type = codes "text/plain";
  file_name = codes "notes";
  user_id = codes "@ann";
  kind = local_media;
}

abbrev glob : Str → Str → Bool
glob = str_eq

abbrev digest : Str → Str
digest s = s

generate_media_id-Fresh_example :
    Post
      (λ media_id w'. Fresh (codes "here") media_id w' × (w'.db.media ≡ photo ∷ []))
      (λ e w'. w'.db.media ≡ photo ∷ [])
      (generate_media_id context (codes "here") here)
generate_media_id-Fresh_example = generate_media_id-Fresh context (codes "here") here

abbrev flagged : World
flagged = world (record photo { quarantined = true } ∷ [])

can_upload_iff_example : ((can_upload glob context (codes "@ann") (pos 30) here).0 ≡ ok tt) ↔ (
    (limit glob context (codes "@ann") max_bytes <ℤ pos 0)
    ⊎ ((pos 50 ≤ℤ limit glob context (codes "@ann") max_bytes)
        × ((limit glob context (codes "@ann") max_count ≤ℤ pos 0)
            ⊎ (pos 1 <ℤ limit glob context (codes "@ann") max_count))))
unfolding limit ◌+ℤ◌ str_eq lookup
can_upload_iff_example =
    can_upload_iff glob context (codes "@ann") (pos 30) here (λ n. refl) (ground arith)

limit_first_example :
    ((context.domain.uploads.quota.enabled ≡ true)
      × (q : QuotaUserConfig) × FirstFit glob context
          (codes "@ann")
          q
          context.domain.uploads.quota.user_quotas
      × (limit glob context (codes "@ann") max_count ≡ limit_of q max_count))
    ⊎ (((context.domain.uploads.quota.enabled ≡ false)
          ⊎ NoFit glob context (codes "@ann") context.domain.uploads.quota.user_quotas)
        × (limit glob context (codes "@ann") max_count ≡ default_limit context max_count))
limit_first_example = limit_first glob context (codes "@ann") max_count

find_match_first_example :
    find_match (codes "@ann") (codes "photo") none (photo ∷ []) ≡ (some photo, true)
unfolding str_eq
find_match_first_example = find_match_first (codes "@ann") (codes "photo") (photo ∷ [])

pick_last_example : (pick context local_media here).0 ≡ ok bucket_ds
unfolding has_listed_kind str_eq
pick_last_example = pick_last context local_media (files_ds ∷ []) bucket_ds here refl (λ n. refl)

pick-accepts_example :
    Contains bucket_ds (files_ds ∷ (bucket_ds ∷ []))
    × (has_listed_kind bucket_ds.media_kinds remote_media ≡ true)
unfolding pick has_listed_kind str_eq pick_index estimate_datastore_size query max_by_hash sum_sizes
    lookup insert ◌+ℤ◌
pick-accepts_example = pick-accepts context remote_media here refl

-- Three pieces, of which the last comes with the end.
abbrev pieces : Stream
pieces = record { pieces = codes "ab" ∷ (codes "cd" ∷ []); ending = eof (codes "e") }

read_limited-fits_example : read_limited (pos 5) pieces ≡ ok (codes "abcde")
read_limited-fits_example = read_limited-fits (pos 5) pieces (ground arith) refl (ground arith)

-- The limit is passed by the last byte.
read_limited-bounded_example :
    (codes "abcde" ≡ codes "abcde")
    × (pos 5 ≤ℤ pos 6)
    × ((read_all pieces ≡ ok (codes "abcde")) ⊎ (pos 4 ≤ℤ pos 4))
unfolding read_limited read_pieces ◌+ℤ◌ ◌-ℤ◌
read_limited-bounded_example =
    read_limited-bounded (pos 4) pieces 2 (ground arith) (ground arith) (ground arith)
      (ground arith) refl

purge_batch-Unused_example :
    Contains {A = Str × Str} (codes "bucket", codes "b") []
    ⊎ Unused here.db (pos 100) (codes "bucket", codes "b")
unfolding purge_thumbnail_batch touched purge_locations purge_location location_exists thumbnails_at
    clear_location lookup insert query ask str_eq remove_with_ds_id get remove remove_object
    delete_old delete_thumbnail exec
purge_batch-Unused_example =
    purge_batch-Unused context (thumb ∷ []) [] (pos 100) here (codes "bucket", codes "b") (inl refl)

quarantine_records-Hidden_example :
    Post
      (λ n w'.
        (r : DbMedia)
        → Contains r (photo ∷ [])
        → is_handled (codes "here") r ≡ true
        → Hidden (concerned (codes "here") r) w'.db)
      (λ e w'. Unit)
      (quarantine_records (codes "here") (photo ∷ []) (pos 0) here)
quarantine_records-Hidden_example = quarantine_records-Hidden (codes "here") (photo ∷ []) here

-- A photo that was not accessed lately, in the files.
abbrev old_photo : DbMedia
old_photo = record photo {
  locatable = record photo.locatable { sha256_hash = codes "message" };
  size_bytes = pos 7;
}

abbrev unused_lately : World
unused_lately = record here {
  db = record here.db { media = old_photo ∷ []; last_access = (codes "message", pos 6) ∷ [] };
}

unused_lately-Backed : Backed unused_lately
unused_lately-Backed = record {
  file = λ r c. elim c [
    | inl e ↦ inl (ap (λ (x : DbMedia). (x.datastore_id, x.location)) e)
    | inr h ↦ absurd h
  ];
}

abbrev held_object : Str → Str → Str
held_object ds location = codes "message"

abbrev to_bucket : DatastoreMigrateParams
to_bucket = record {
  source_ds_id = codes "files";
  target_ds_id = codes "bucket";
  before_ts = pos 99;
}

-- The photo moves, and its file is removed.
datastore_migrate-Sound_example :
    Post
      (λ o w'. Backed w' × LostUnused (codes "files") [] w')
      (λ e w'. Backed w' × LostUnused (codes "files") [] w')
      (datastore_migrate held_object digest context to_bucket unused_lately)
datastore_migrate-Sound_example =
    datastore_migrate-Sound held_object digest context to_bucket unused_lately unused_lately-Backed

execute_put-MayPut_example :
    Post
      (λ o w'. MayPut ann_upload (codes "two") here)
      (λ e w'. Unit)
      (execute_put glob digest context ann_upload (codes "two") (sent (codes "message")) here)
execute_put-MayPut_example =
    execute_put-MayPut glob digest context ann_upload (codes "two") (sent (codes "message")) here

split_mxc-mxc_uri_example :
    split_mxc (mxc_uri (codes "here") (codes "one")) ≡ ok (codes "here", codes "one")
split_mxc-mxc_uri_example =
    split_mxc-mxc_uri (codes "here") (codes "one") (refl, (refl, (refl, (refl, tt))))
      (refl, (refl, (refl, tt))) (refl, (refl, (refl, (refl, tt)))) (refl, (refl, (refl, tt)))

split_user_id-parts_example :
    split_user_id (codes "@ann:here:80") ≡ ok (codes "ann", codes "here:80")
split_user_id-parts_example =
    split_user_id-parts (codes "ann") (codes "here:80") (refl, (refl, (refl, tt)))

execute-Backed_example :
    Post
      (λ o w'.
        Backed w' × Returned digest (buffer context local_media (sent (codes "message"))) o w')
      (λ e w'. Backed w')
      (execute glob digest context ann_upload [] (sent (codes "message")) here)
execute-Backed_example =
    execute-Backed glob digest context ann_upload [] (sent (codes "message")) here here-Backed

here-Counted : Counted here.db
unfolding lookup ◌+ℤ◌
here-Counted = record {
  counts = λ u. elim (Bool-cases (str_eq (codes "@ann") u)) [
    | inl e ↦ rw e (rw e refl)
    | inr e ↦ rw e (rw e refl)
  ];
}

abbrev second : DbMedia
second = record photo { media_id = codes "three" }

insert_row-Counted_example : Counted (record here.db {
  media = second ∷ (photo ∷ []);
  user_stats = count_insert second here.db.user_stats;
})
unfolding insert_row str_eq
insert_row-Counted_example =
    insert_row-Counted second here.db
      (record here.db {
        media = second ∷ (photo ∷ []);
        user_stats = count_insert second here.db.user_stats;
      })
      refl here-Counted

delete_rows-Counted_example : Counted (delete_rows (has_hash (codes "hash")) here.db)
delete_rows-Counted_example = delete_rows-Counted (has_hash (codes "hash")) here.db here-Counted

update_rows-Counted_example :
    Counted (update_rows (has_hash (codes "hash")) (λ m. record m { quarantined = true }) here.db)
update_rows-Counted_example =
    update_rows-Counted (has_hash (codes "hash")) (λ m. record m { quarantined = true }) here.db
      (λ m. refl) (λ m. refl) here-Counted

create-GivenOut_example :
    Post
      (λ r w'. GivenOut (codes "here") (codes "@ann") r w')
      (λ e w'. Unit)
      (create glob context (codes "here") (codes "@ann") (pos 0) here)
create-GivenOut_example = create-GivenOut glob context (codes "here") (codes "@ann") (pos 0) here
