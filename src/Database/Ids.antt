-- ===== src/Database/Ids.antt =====
-- The tables about media IDs: database/table_expiring_media.go, table_media_hold.go,
-- table_reserved_media.go, table_restricted_media.go, table_media_attributes.go,
-- table_last_access.go and table_user_stats.go.
use matrix_media_repo.Prelude.{
  Bool, not, ◌&&◌, Option, none, some, List, ◌∷◌, map, length, filter, any, head?, if◌then◌else◌,
}
use matrix_media_repo.Prelude.Int.{ℤ, pos, leb_ℤ, ltb_ℤ}
use matrix_media_repo.Prelude.Text.{Str, str_eq}
use matrix_media_repo.Prelude.Keys.{lookup, insert, str_key}
use matrix_media_repo.World.{M, query, exec, now_millis, pure, ◌>>=◌}
use matrix_media_repo.Database.Rows.{
  Tables, DbExpiringMedia, DbHeldMedia, DbReservedMedia, DbRestrictedMedia, DbMediaAttributes,
}

abbrev pub expiring_id : Str → Str → DbExpiringMedia → Bool
expiring_id origin media_id r = str_eq r.origin origin && str_eq r.media_id media_id

abbrev pub held_id : Str → Str → DbHeldMedia → Bool
held_id origin media_id r = str_eq r.origin origin && str_eq r.media_id media_id

abbrev pub reserved_id : Str → Str → DbReservedMedia → Bool
reserved_id origin media_id r = str_eq r.origin origin && str_eq r.media_id media_id

abbrev pub restricted_id : Str → Str → DbRestrictedMedia → Bool
restricted_id origin media_id r = str_eq r.origin origin && str_eq r.media_id media_id

abbrev pub attributes_id : Str → Str → DbMediaAttributes → Bool
attributes_id origin media_id r = str_eq r.origin origin && str_eq r.media_id media_id

-- `IsExpired`
unfoldable pub is_expired : DbExpiringMedia → M Bool
is_expired r = do now ← now_millis; pure (ltb_ℤ r.expires_ts now)

unfoldable pub insert_expiring : Str → Str → Str → ℤ → M (Unit {0})
insert_expiring origin media_id user_id expires_ts = exec (λ t.
    if any (expiring_id origin media_id) t.expiring_media
    then none
    else some (record t {
      expiring_media =
          record {
            origin = origin;
            media_id = media_id;
            user_id = user_id;
            expires_ts = expires_ts;
          }
          ∷ t.expiring_media;
    }))

-- Pending uploads of the user that have not expired.
unfoldable pub expiring_by_user_count : Str → M ℤ
expiring_by_user_count user_id = do
  now ← now_millis
  query (λ t. pos (
      length (
        filter (λ (r : DbExpiringMedia). str_eq r.user_id user_id && leb_ℤ now r.expires_ts)
          t.expiring_media)))

unfoldable pub get_expiring : Str → Str → M (Option DbExpiringMedia)
get_expiring origin media_id =
    query (λ t. head? (filter (expiring_id origin media_id) t.expiring_media))

unfoldable pub delete_expiring : Str → Str → M (Unit {0})
delete_expiring origin media_id = exec (λ t. some (record t {
  expiring_media = filter (λ r. not (expiring_id origin media_id r)) t.expiring_media;
}))

unfoldable pub hold_row : Str → Str → Str → ℤ → Tables → Option Tables
hold_row origin media_id reason now t =
    if any (held_id origin media_id) t.media_id_hold
    then none
    else some (record t {
      media_id_hold =
          record { origin = origin; media_id = media_id; reason = reason; held_ts = now }
          ∷ t.media_id_hold;
    })

-- `TryInsert`
unfoldable pub try_insert_held : Str → Str → Str → M (Unit {0})
unfolding hold_row
try_insert_held origin media_id reason = do
  now ← now_millis
  exec (hold_row origin media_id reason now)

abbrev delete_held_older_than : Str → ℤ → M (Unit {0})
delete_held_older_than reason ts = exec (λ t. some (record t {
  media_id_hold = filter (λ r. not (str_eq r.reason reason && leb_ℤ r.held_ts ts)) t.media_id_hold;
}))

-- `InsertNoConflict`
unfoldable pub insert_reserved : Str → Str → Str → M (Unit {0})
insert_reserved origin media_id reason = exec (λ t. some (
    if any (reserved_id origin media_id) t.reserved_media then t else record t {
      reserved_media =
          record { origin = origin; media_id = media_id; reason = reason } ∷ t.reserved_media;
    }))

unfoldable pub reserved_exists : Str → Str → M Bool
reserved_exists origin media_id = query (λ t. any (reserved_id origin media_id) t.reserved_media)

-- `idx_restricted_media` is unique over the origin and the media ID.
unfoldable pub insert_restricted : Str → Str → Str → Str → M (Unit {0})
insert_restricted origin media_id condition value = exec (λ t.
    if any (restricted_id origin media_id) t.restricted_media
    then none
    else some (record t {
      restricted_media =
          record {
            origin = origin;
            media_id = media_id;
            condition = condition;
            condition_value = value;
          }
          ∷ t.restricted_media;
    }))

unfoldable pub get_all_restricted : Str → Str → M (List DbRestrictedMedia)
get_all_restricted origin media_id =
    query (λ t. filter (restricted_id origin media_id) t.restricted_media)

unfoldable pub get_attributes : Str → Str → M (Option DbMediaAttributes)
get_attributes origin media_id =
    query (λ t. head? (filter (attributes_id origin media_id) t.media_attributes))

-- `UpsertPurpose`
unfoldable pub upsert_purpose : Str → Str → Str → M (Unit {0})
upsert_purpose origin media_id purpose = exec (λ t. some (
    if any (attributes_id origin media_id) t.media_attributes
    then record t {
      media_attributes =
          map
            (λ (r : DbMediaAttributes).
              if attributes_id origin media_id r then record r { purpose = purpose } else r)
            t.media_attributes;
    }
    else record t {
      media_attributes =
          record { origin = origin; media_id = media_id; purpose = purpose } ∷ t.media_attributes;
    }))

-- `LastAccess.Upsert`
unfoldable pub upsert_last_access : Str → ℤ → M (Unit {0})
upsert_last_access hash ts =
    exec (λ t. some (record t { last_access = insert hash ts t.last_access }))

unfoldable pub user_uploaded_bytes : Str → M ℤ
user_uploaded_bytes user_id =
    query (λ t. elim (lookup user_id t.user_stats) [ none ↦ pos 0 | some n ↦ n ])
