-- ===== src/Config.antt =====
-- The options that the modelled code reads: structs of common/config/models_main.go,
-- models_domain.go and conf_*.go. `DomainConfig` is `ctx.Config`, `MainConfig` is `config.Get()`.
use matrix_media_repo.Prelude.{ℕ, Bool, List, any}
use matrix_media_repo.Prelude.Int.{ℤ}
use matrix_media_repo.Prelude.Text.{Str, str_eq}

pub record DatastoreConfig : Type 0 where
  pub ds_type : Str
  pub id : Str
  pub media_kinds : List Str
  pub prefix_length : ℕ
  pub public_base_url : Str
  pub redirect_when_cached : Bool

pub record QuotaUserConfig : Type 0 where
  pub glob : Str
  pub max_bytes : ℤ
  pub max_pending : ℤ
  pub max_files : ℤ

pub record QuotasConfig : Type 0 where
  pub enabled : Bool
  pub user_quotas : List QuotaUserConfig

pub record UploadsConfig : Type 0 where
  pub max_size_bytes : ℤ
  pub min_size_bytes : ℤ
  pub max_pending : ℤ
  pub max_age_seconds : ℤ
  pub quota : QuotasConfig

pub record ThumbnailSize : Type 0 where
  pub width : ℤ
  pub height : ℤ

pub record QuarantineConfig : Type 0 where
  pub replace_thumbnails : Bool
  pub replace_downloads : Bool
  pub allow_local_admins : Bool

pub record AppserviceConfig : Type 0 where
  pub id : Str
  pub appservice_token : Str
  pub sender_user_id : Str
  pub user_namespaces : List Str

pub record AccessTokenConfig : Type 0 where
  pub max_cache_time_seconds : ℤ
  pub use_appservices : Bool
  pub appservices : List AppserviceConfig

pub record SharedSecretConfig : Type 0 where
  pub enabled : Bool
  pub token : Str

pub record TrustedAdminHeaderConfig : Type 0 where
  pub enabled : Bool
  pub header : Str
  pub value : Str

pub record DomainConfig : Type 0 where
  pub data_stores : List DatastoreConfig
  pub uploads : UploadsConfig
  pub downloads_max_size_bytes : ℤ
  pub thumbnail_sizes : List ThumbnailSize
  pub dynamic_sizing : Bool
  pub quarantine : QuarantineConfig
  pub access_tokens : AccessTokenConfig
  pub signing_key_path : Str

-- `domains` are the keys of the map that `reloadConfig` fills, and `admin_api_kind` reads the
-- `AdminApiKind` of the options under a key.
pub record MainConfig : Type 0 where
  pub domains : List Str
  pub freeze_unauthenticated_media : Bool
  pub is_import_process : Bool
  pub downloads_expire_days : ℤ
  pub thumbnails_expire_days : ℤ
  pub rate_limit_enabled : Bool
  pub admins : List Str
  pub shared_secret : SharedSecretConfig
  pub trusted_admin_header : TrustedAdminHeaderConfig
  pub ignored_hosts : List Str
  pub admin_api_kind : Str → Str

-- What a handler can read of its surroundings.
pub record Context : Type 0 where
  pub domain : DomainConfig
  pub main : MainConfig

-- `util.IsServerOurs`: `config.GetDomain` finds the server.
unfoldable pub is_server_ours : Context → Str → Bool
is_server_ours ctx server = any (λ d. str_eq d server) ctx.main.domains

-- `util.IsGlobalAdmin`
unfoldable pub is_global_admin : Context → Str → Bool
is_global_admin ctx user_id = any (λ admin. str_eq admin user_id) ctx.main.admins
