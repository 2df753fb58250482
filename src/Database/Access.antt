-- ===== src/Database/Access.antt =====
-- The queries of database/virtualtable_metadata.go that join files with their last access.
use matrix_media_repo.Prelude.{Bool, ◌&&◌, none, some, List, [], ◌∷◌, filter}
use matrix_media_repo.Prelude.Int.{ℤ, ltb_ℤ}
use matrix_media_repo.Prelude.Text.{Str, str_eq}
use matrix_media_repo.Prelude.Keys.{Map, lookup, str_key}
use matrix_media_repo.World.{M, query}
use matrix_media_repo.Database.Rows.{DbMedia, DbThumbnail, Locatable, VirtLastAccess}

abbrev with_access : Map Str ℤ → Locatable → ℤ → ℤ → Str → List VirtLastAccess → List VirtLastAccess
with_access accesses file size created content_type rest = elim (lookup file.sha256_hash accesses) [
  | none ↦ rest
  | some ts ↦
      record {
        locatable = file;
        size_bytes = size;
        creation_ts = created;
        last_access_ts = ts;
        content_type = content_type;
      }
      ∷ rest
]

-- The JOIN: `last_access` has one row for a hash at most, since the hash is its key.
unfoldable pub join_media : Map Str ℤ → List DbMedia → List VirtLastAccess
join_media accesses [] = []
join_media accesses (m ∷ media) =
    with_access accesses m.locatable m.size_bytes m.creation_ts m.content_type
      (join_media accesses media)

unfoldable pub join_thumbnails : Map Str ℤ → List DbThumbnail → List VirtLastAccess
join_thumbnails accesses [] = []
join_thumbnails accesses (x ∷ thumbs) =
    with_access accesses x.locatable x.size_bytes x.creation_ts x.content_type
      (join_thumbnails accesses thumbs)

abbrev pub is_old_access : Str → ℤ → VirtLastAccess → Bool
is_old_access ds_id before_ts r = ltb_ℤ r.last_access_ts before_ts && str_eq r.datastore_id ds_id

-- `GetMediaForDatastoreByLastAccess`
unfoldable pub media_by_last_access : Str → ℤ → M (List VirtLastAccess)
unfolding join_media
media_by_last_access ds_id before_ts =
    query (λ t. filter (is_old_access ds_id before_ts) (join_media t.last_access t.media))

-- `GetThumbnailsForDatastoreByLastAccess`
unfoldable pub thumbnails_by_last_access : Str → ℤ → M (List VirtLastAccess)
unfolding join_thumbnails
thumbnails_by_last_access ds_id before_ts =
    query (λ t. filter (is_old_access ds_id before_ts) (join_thumbnails t.last_access t.thumbnails))
