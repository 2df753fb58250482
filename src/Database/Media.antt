-- ===== src/Database/Media.antt =====
-- database/table_media.go and the quarantine updates of database/virtualtable_metadata.go, with the
-- trigger on `media` that keeps `user_stats` (migrations/17_add_user_stats_table_up.sql).
use matrix_media_repo.Prelude.{
  Bool, not, ◌&&◌, ◌||◌, Option, none, some, List, [], ◌∷◌, map, length, filter, any, head?,
  if◌then◌else◌, ◌==◌,
}
use matrix_media_repo.Prelude.Int.{ℤ, pos, ◌+ℤ◌, ◌-ℤ◌, ltb_ℤ, leb_ℤ, eqb_ℤ}
use matrix_media_repo.Prelude.Text.{Str, str_eq}
use matrix_media_repo.Prelude.Keys.{Map, lookup, insert, str_key}
use matrix_media_repo.World.{M, query, exec}
use matrix_media_repo.Database.Rows.{Tables, DbMedia}

-- `WHERE origin = $1 AND media_id = $2`.
abbrev pub has_id : Str → Str → DbMedia → Bool
has_id origin media_id m = str_eq m.origin origin && str_eq m.media_id media_id

abbrev pub has_hash : Str → DbMedia → Bool
has_hash hash m = str_eq m.sha256_hash hash

abbrev pub has_location : Str → Str → DbMedia → Bool
has_location ds location m = str_eq m.datastore_id ds && str_eq m.location location

-- `x = ANY($1)` and `x <> ANY($1)`.
abbrev pub eq_any : Str → List Str → Bool
eq_any x xs = any (λ y. str_eq x y) xs

abbrev pub ne_any : Str → List Str → Bool
ne_any x xs = any (λ y. not (str_eq x y)) xs

unfoldable pub is_hash_quarantined : Str → M Bool
is_hash_quarantined hash = query (λ t. any (λ m. m.quarantined && has_hash hash m) t.media)

unfoldable pub get_by_hash : Str → M (List DbMedia)
get_by_hash hash = query (λ t. filter (has_hash hash) t.media)

unfoldable pub get_by_user_id : Str → M (List DbMedia)
get_by_user_id user_id = query (λ t. filter (λ m. str_eq m.user_id user_id) t.media)

unfoldable pub get_old_by_user_id : Str → ℤ → M (List DbMedia)
get_old_by_user_id user_id before_ts =
    query (λ t. filter (λ m. str_eq m.user_id user_id && ltb_ℤ m.creation_ts before_ts) t.media)

unfoldable pub get_by_origin : Str → M (List DbMedia)
get_by_origin origin = query (λ t. filter (λ m. str_eq m.origin origin) t.media)

unfoldable pub get_old_by_origin : Str → ℤ → M (List DbMedia)
get_old_by_origin origin before_ts =
    query (λ t. filter (λ m. str_eq m.origin origin && ltb_ℤ m.creation_ts before_ts) t.media)

unfoldable pub get_by_origin_users : Str → List Str → M (List DbMedia)
get_by_origin_users origin users =
    query (λ t. filter (λ m. str_eq m.origin origin && eq_any m.user_id users) t.media)

unfoldable pub get_by_ids : Str → List Str → M (List DbMedia)
get_by_ids origin media_ids =
    query (λ t. filter (λ m. str_eq m.origin origin && eq_any m.media_id media_ids) t.media)

-- The WHERE clause of `selectOldMediaExcludingDomains`, at the row `m`.
unfoldable pub is_old_excluding : List Str → ℤ → List DbMedia → DbMedia → Bool
is_old_excluding origins before_ts rows m =
    (ne_any m.origin origins || length origins == 0)
    && (ltb_ℤ m.creation_ts before_ts
        && (length (filter (λ d. has_hash m.sha256_hash d && leb_ℤ before_ts d.creation_ts) rows)
              == 0
            && length (filter (λ d. has_hash m.sha256_hash d && eq_any d.origin origins) rows)
              == 0))

unfoldable pub get_old_excluding : List Str → ℤ → M (List DbMedia)
get_old_excluding origins before_ts =
    query (λ t. filter (is_old_excluding origins before_ts t.media) t.media)

unfoldable pub get_by_location : Str → Str → M (List DbMedia)
get_by_location ds location = query (λ t. filter (has_location ds location) t.media)

unfoldable pub get_by_quarantine : M (List DbMedia)
get_by_quarantine = query (λ t. filter (λ m. m.quarantined) t.media)

unfoldable pub get_by_origin_quarantine : Str → M (List DbMedia)
get_by_origin_quarantine origin =
    query (λ t. filter (λ m. m.quarantined && str_eq m.origin origin) t.media)

unfoldable pub get_by_id : Str → Str → M (Option DbMedia)
get_by_id origin media_id = query (λ t. head? (filter (has_id origin media_id) t.media))

unfoldable pub by_user_count : Str → M ℤ
by_user_count user_id = query (λ t. pos (length (filter (λ m. str_eq m.user_id user_id) t.media)))

unfoldable pub id_exists : Str → Str → M Bool
id_exists origin media_id = query (λ t. any (has_id origin media_id) t.media)

unfoldable pub location_exists : Str → Str → M Bool
location_exists ds location = query (λ t. any (has_location ds location) t.media)

-- The trigger `track_update_user_media`: a new row adds its size to its user's sum, and a deleted
-- row takes it away where the user has a sum.
abbrev pub count_insert : DbMedia → Map Str ℤ → Map Str ℤ
count_insert m stats = elim (lookup m.user_id stats) [
  | none ↦ insert m.user_id m.size_bytes stats
  | some n ↦ insert m.user_id (n +ℤ m.size_bytes) stats
]

abbrev pub count_delete : DbMedia → Map Str ℤ → Map Str ℤ
count_delete m stats = elim (lookup m.user_id stats) [
  | none ↦ stats
  | some n ↦ insert m.user_id (n -ℤ m.size_bytes) stats
]

-- A user has a sum from the first update on.
abbrev pub ensure : Str → Map Str ℤ → Map Str ℤ
ensure user_id stats = elim (lookup user_id stats) [
  | none ↦ insert user_id (pos 0) stats
  | some n ↦ stats
]

abbrev pub add_to : Str → ℤ → Map Str ℤ → Map Str ℤ
add_to user_id change stats = elim (lookup user_id stats) [
  | none ↦ stats
  | some n ↦ insert user_id (n +ℤ change) stats
]

-- An update moves the size from the old user to the new one, or changes it.
abbrev pub count_update : DbMedia → DbMedia → Map Str ℤ → Map Str ℤ
count_update old new stats =
    let stats' = ensure old.user_id (ensure new.user_id stats) in
    if not (str_eq new.user_id old.user_id)
    then add_to new.user_id new.size_bytes (count_delete old stats')
    else if not (eqb_ℤ new.size_bytes old.size_bytes)
    then add_to new.user_id (new.size_bytes -ℤ old.size_bytes) stats'
    else stats'

-- The rows that a statement touches, in turn.
unfoldable pub fold_rows : (DbMedia → Map Str ℤ → Map Str ℤ) → List DbMedia → Map Str ℤ → Map Str ℤ
fold_rows f [] stats = stats
fold_rows f (m ∷ rows) stats = fold_rows f rows (f m stats)

-- `media_index` is unique over the media ID and the origin.
unfoldable pub insert_row : DbMedia → Tables → Option Tables
insert_row m t =
    if any (has_id m.origin m.media_id) t.media
    then none
    else some (record t { media = m ∷ t.media; user_stats = count_insert m t.user_stats })

unfoldable pub insert_media : DbMedia → M (Unit {0})
unfolding insert_row
insert_media m = exec (insert_row m)

unfoldable pub delete_rows : (DbMedia → Bool) → Tables → Tables
unfolding fold_rows
delete_rows hit t = record t {
  media = filter (λ m. not (hit m)) t.media;
  user_stats = fold_rows count_delete (filter hit t.media) t.user_stats;
}

unfoldable pub delete_media : Str → Str → M (Unit {0})
unfolding delete_rows
delete_media origin media_id = exec (λ t. some (delete_rows (has_id origin media_id) t))

unfoldable pub update_rows : (DbMedia → Bool) → (DbMedia → DbMedia) → Tables → Tables
unfolding fold_rows
update_rows hit change t = record t {
  media = map (λ m. if hit m then change m else m) t.media;
  user_stats = fold_rows (λ m. count_update m (change m)) (filter hit t.media) t.user_stats;
}

unfoldable pub update_location : Str → Str → Str → Str → M (Unit {0})
unfolding update_rows
update_location source_ds source_location target_ds target_location = exec (λ t. some (
    update_rows (has_location source_ds source_location)
      (λ m. record m {
        locatable = record m.locatable { datastore_id = target_ds; location = target_location };
      })
      t))
