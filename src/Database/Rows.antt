-- ===== src/Database/Rows.antt =====
-- The rows of the tables (the structs of database/table_*.go) and the columns that are compared.
use matrix_media_repo.Prelude.{Bool, List}
use matrix_media_repo.Prelude.Int.{ℤ}
use matrix_media_repo.Prelude.Text.{Str, codes}
use matrix_media_repo.Prelude.Keys.{Map}

pub record Locatable : Type 0 where
  pub sha256_hash : Str
  pub datastore_id : Str
  pub location : Str

pub record DbMedia : Type 0 where
  pub locatable : Locatable
  pub open locatable use *
  pub origin : Str
  pub media_id : Str
  pub upload_name : Str
  pub content_type : Str
  pub user_id : Str
  pub size_bytes : ℤ
  pub creation_ts : ℤ
  pub quarantined : Bool

pub record DbThumbnail : Type 0 where
  pub locatable : Locatable
  pub open locatable use *
  pub origin : Str
  pub media_id : Str
  pub content_type : Str
  pub width : ℤ
  pub height : ℤ
  pub method : Str
  pub animated : Bool
  pub size_bytes : ℤ
  pub creation_ts : ℤ

pub record DbExpiringMedia : Type 0 where
  pub origin : Str
  pub media_id : Str
  pub user_id : Str
  pub expires_ts : ℤ

pub record DbHeldMedia : Type 0 where
  pub origin : Str
  pub media_id : Str
  pub reason : Str
  pub held_ts : ℤ

pub record DbReservedMedia : Type 0 where
  pub origin : Str
  pub media_id : Str
  pub reason : Str

pub record DbRestrictedMedia : Type 0 where
  pub origin : Str
  pub media_id : Str
  pub condition : Str
  pub condition_value : Str

pub record DbMediaAttributes : Type 0 where
  pub origin : Str
  pub media_id : Str
  pub purpose : Str

-- A file with the time of its last access.
pub record VirtLastAccess : Type 0 where
  pub locatable : Locatable
  pub open locatable use *
  pub size_bytes : ℤ
  pub creation_ts : ℤ
  pub last_access_ts : ℤ
  pub content_type : Str

abbrev pub for_create_held_reason : Str
for_create_held_reason = codes "media_create"

abbrev pub restricted_requires_auth : Str
restricted_requires_auth = codes "io.t2bot.requires_authentication"

abbrev pub purpose_pinned : Str
purpose_pinned = codes "pinned"

-- The tables. `user_stats` is kept by a trigger on `media`.
pub record Tables : Type 0 where
  pub media : List DbMedia
  pub thumbnails : List DbThumbnail
  pub expiring_media : List DbExpiringMedia
  pub media_id_hold : List DbHeldMedia
  pub reserved_media : List DbReservedMedia
  pub restricted_media : List DbRestrictedMedia
  pub media_attributes : List DbMediaAttributes
  pub last_access : Map Str ℤ
  pub user_stats : Map Str ℤ
