-- ===== src/Tests.antt =====
-- Concrete tables, options and calls, and the theorems at them.
pub mod Examples
pub mod Requests
pub mod Thumbs
use matrix_media_repo.Prelude.{
  ◌≡◌, refl, ℕ, Bool, true, false, not, Option, none, some, List, [], ◌∷◌, Contains, inl, inr,
  arith, ◌==◌,
}
use matrix_media_repo.Prelude.Int.{ℤ, pos, negsuc}
use matrix_media_repo.Prelude.Text.{Str, codes, str_eq}
use matrix_media_repo.Config.{Context, DatastoreConfig}
use matrix_media_repo.Database.Rows.{Tables, DbMedia, DbThumbnail}
use matrix_media_repo.World.{World}
use matrix_media_repo.Readers.{Stream, eof}

abbrev pub files_ds : DatastoreConfig
files_ds = record {
  ds_type = codes "file";
  id = codes "files";
  media_kinds = codes "local_media" ∷ [];
  prefix_length = 0;
  public_base_url = [];
  redirect_when_cached = false;
}

abbrev pub bucket_ds : DatastoreConfig
bucket_ds = record {
  ds_type = codes "s3";
  id = codes "bucket";
  media_kinds = codes "all" ∷ [];
  prefix_length = 2;
  public_base_url = [];
  redirect_when_cached = false;
}

abbrev pub context : Context
context = record {
  domain = record {
    data_stores = files_ds ∷ (bucket_ds ∷ []);
    uploads = record {
      max_size_bytes = pos 100;
      min_size_bytes = pos 0;
      max_pending = pos 5;
      max_age_seconds = pos 60;
      quota = record {
        enabled = true;
        user_quotas =
            record {
              glob = codes "@bot";
              max_bytes = pos 0;
              max_pending = pos 0;
              max_files = pos 0;
            }
            ∷ (record {
              glob = codes "@ann";
              max_bytes = pos 50;
              max_pending = pos 0;
              max_files = pos 3;
            }
                ∷ []);
      };
    };
    downloads_max_size_bytes = pos 100;
    thumbnail_sizes = record { width = pos 32; height = pos 32 } ∷ [];
    dynamic_sizing = false;
    quarantine = record {
      replace_thumbnails = false;
      replace_downloads = false;
      allow_local_admins = true;
    };
    access_tokens = record {
      max_cache_time_seconds = pos 60;
      use_appservices = false;
      appservices = [];
    };
    signing_key_path = [];
  };
  main = record {
    domains = codes "here" ∷ [];
    freeze_unauthenticated_media = true;
    is_import_process = false;
    downloads_expire_days = pos 7;
    thumbnails_expire_days = pos 7;
    rate_limit_enabled = false;
    admins = codes "@root" ∷ [];
    shared_secret = record { enabled = false; token = [] };
    trusted_admin_header = record { enabled = false; header = []; value = [] };
    ignored_hosts = [];
    admin_api_kind = λ server. codes "synapse";
  };
}

abbrev pub photo : DbMedia
photo = record {
  locatable = record {
    sha256_hash = codes "hash";
    datastore_id = codes "files";
    location = codes "a";
  };
  origin = codes "here";
  media_id = codes "one";
  upload_name = codes "photo";
  content_type = codes "image/png";
  user_id = codes "@ann";
  size_bytes = pos 20;
  creation_ts = pos 5;
  quarantined = false;
}

abbrev pub thumb : DbThumbnail
thumb = record {
  locatable = record {
    sha256_hash = codes "small";
    datastore_id = codes "bucket";
    location = codes "b";
  };
  origin = codes "here";
  media_id = codes "one";
  content_type = codes "image/png";
  width = pos 32;
  height = pos 32;
  method = codes "crop";
  animated = false;
  size_bytes = pos 2;
  creation_ts = pos 6;
}

abbrev pub tables : List DbMedia → Tables
tables media = record {
  media = media;
  thumbnails = thumb ∷ [];
  expiring_media =
      record {
        origin = codes "here";
        media_id = codes "two";
        user_id = codes "@ann";
        expires_ts = pos 99;
      }
      ∷ [];
  media_id_hold = [];
  reserved_media = [];
  restricted_media = [];
  media_attributes = [];
  last_access = [];
  user_stats = (codes "@ann", pos 20) ∷ [];
}

-- Every call succeeds, and every random text is the same.
abbrev pub world : List DbMedia → World
world media = record {
  db = tables media;
  stored = (codes "files", codes "a") ∷ [];
  removed = [];
  token_cache = [];
  download_errors = [];
  calls = 0;
  env = record {
    fault = λ n. false;
    not_exist = λ n. false;
    clock = λ n. pos n;
    random = λ n. codes "id";
    is_spam = λ n. false;
    put_size = λ n. pos 7;
    is_stale = λ n. false;
  };
}

-- A body that comes in one piece.
abbrev pub sent : Str → Stream
sent bytes = record { pieces = bytes ∷ []; ending = eof [] }
