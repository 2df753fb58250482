-- ===== src/Database/Thumbnails.antt =====
-- database/table_thumbnails.go
use matrix_media_repo.Prelude.{
  Bool, not, ◌&&◌, Option, none, some, List, ◌∷◌, filter, map, any, head?, if◌then◌else◌,
}
use matrix_media_repo.Prelude.Int.{ℤ, ltb_ℤ, eqb_ℤ}
use matrix_media_repo.Prelude.Text.{Str, str_eq}
use matrix_media_repo.World.{M, query, exec}
use matrix_media_repo.Database.Rows.{DbThumbnail}
use matrix_media_repo.Database.Quarantine.{bool_eq}

abbrev pub has_location : Str → Str → DbThumbnail → Bool
has_location ds location t = str_eq t.datastore_id ds && str_eq t.location location

abbrev pub is_for_media : Str → Str → DbThumbnail → Bool
is_for_media origin media_id t = str_eq t.origin origin && str_eq t.media_id media_id

-- The columns of the unique index `thumbnails_index`.
abbrev pub has_params : Str → Str → ℤ → ℤ → Str → Bool → DbThumbnail → Bool
has_params origin media_id width height method animated t =
    is_for_media origin media_id t
    && (eqb_ℤ t.width width
        && (eqb_ℤ t.height height && (str_eq t.method method && bool_eq t.animated animated)))

-- Every column is the same.
abbrev pub is_same : DbThumbnail → DbThumbnail → Bool
is_same r t =
    has_params r.origin r.media_id r.width r.height r.method r.animated t
    && (str_eq t.content_type r.content_type
        && (str_eq t.sha256_hash r.sha256_hash
            && (eqb_ℤ t.size_bytes r.size_bytes
                && (eqb_ℤ t.creation_ts r.creation_ts
                    && has_location r.datastore_id r.location t))))

abbrev pub get_by_params : Str → Str → ℤ → ℤ → Str → Bool → M (Option DbThumbnail)
get_by_params origin media_id width height method animated =
    query
      (λ t. head? (filter (has_params origin media_id width height method animated) t.thumbnails))

unfoldable pub get_for_media : Str → Str → M (List DbThumbnail)
get_for_media origin media_id = query (λ t. filter (is_for_media origin media_id) t.thumbnails)

abbrev get_older_than : ℤ → M (List DbThumbnail)
get_older_than ts = query (λ t. filter (λ r. ltb_ℤ r.creation_ts ts) t.thumbnails)

unfoldable pub thumbnails_at : Str → Str → M (List DbThumbnail)
thumbnails_at ds location = query (λ t. filter (has_location ds location) t.thumbnails)

abbrev pub insert_thumbnail : DbThumbnail → M (Unit {0})
insert_thumbnail r = exec (λ t.
    if any (has_params r.origin r.media_id r.width r.height r.method r.animated) t.thumbnails
    then none
    else some (record t { thumbnails = r ∷ t.thumbnails }))

unfoldable pub delete_thumbnail : DbThumbnail → M (Unit {0})
delete_thumbnail r =
    exec (λ t. some (record t { thumbnails = filter (λ x. not (is_same r x)) t.thumbnails }))

unfoldable pub update_thumbnail_location : Str → Str → Str → Str → M (Unit {0})
update_thumbnail_location source_ds source_location target_ds target_location = exec (λ t.
    some (record t {
      thumbnails =
          map
            (λ (r : DbThumbnail).
              if has_location source_ds source_location r
              then record r {
                locatable = record r.locatable {
                  datastore_id = target_ds;
                  location = target_location;
                };
              }
              else r)
            t.thumbnails;
    }))
