-- ===== src/Api/Usage.antt =====
-- api/custom/usage.go, with `ByteUsageForServer` and `CountUsageForServer` of
-- database/virtualtable_metadata.go.
pub mod Entries
use matrix_media_repo.Prelude.{
  ℕ, Bool, true, false, not, ◌&&◌, ◌||◌, Option, none, some, List, [], ◌∷◌, ◌++◌, filter, length,
  map, inl, inr, ◌⊎◌, ◌==◌, if◌then◌else◌,
}
use matrix_media_repo.Prelude.Int.{ℤ, pos, negsuc, ◌+ℤ◌, add64, ltb_ℤ, leb_ℤ}
use matrix_media_repo.Prelude.Text.{Str, codes, str_eq}
use matrix_media_repo.Prelude.Keys.{Map, lookup, insert, str_key}
use matrix_media_repo.Common.{Error, Result, ok, err}
use matrix_media_repo.World.{M, pure, query, handle}
use matrix_media_repo.Util.Mxc.{mxc_uri, split_mxc}
use matrix_media_repo.Util.Parse.{parse_int64}
use matrix_media_repo.Database.Rows.{DbMedia, DbThumbnail}
use matrix_media_repo.Database.Media.{get_by_origin, get_by_origin_users, get_by_ids}
use matrix_media_repo.Api.Request.{
  Request, Response, payload, query_get, is_server_name, bad_request, internal_server_error,
}

pub record MinimalUsageInfo : Type 0 where
  pub total : ℤ
  pub media : ℤ

pub record UsageInfo : Type 0 where
  pub minimal : MinimalUsageInfo
  pub thumbnails : ℤ

pub record CountsUsageResponse : Type 0 where
  pub raw_bytes : UsageInfo
  pub raw_counts : UsageInfo

pub record UserUsageEntry : Type 0 where
  pub raw_bytes : MinimalUsageInfo
  pub raw_counts : MinimalUsageInfo
  pub uploaded_mxcs : List Str

pub record MediaUsageEntry : Type 0 where
  pub size_bytes : ℤ
  pub uploaded_by : Str
  pub datastore_id : Str
  pub datastore_location : Str
  pub sha256_hash : Str
  pub quarantined : Bool
  pub upload_name : Str
  pub content_type : Str
  pub created_ts : ℤ

-- `SUM(size_bytes)`
unfoldable pub sum : List ℤ → ℤ
sum [] = pos 0
sum (n ∷ ns) = n +ℤ sum ns

-- `ByteUsageForServer`
unfoldable pub byte_usage_for_server : Str → M (ℤ × ℤ)
unfolding sum
byte_usage_for_server server = query (λ t. (
  sum (map (λ (m : DbMedia). m.size_bytes) (filter (λ m. str_eq m.origin server) t.media)),
  sum (map (λ (x : DbThumbnail). x.size_bytes) (filter (λ x. str_eq x.origin server) t.thumbnails)),
))

-- `CountUsageForServer`
unfoldable pub count_usage_for_server : Str → M (ℤ × ℤ)
count_usage_for_server server = query (λ t. (
  pos (length (filter (λ (m : DbMedia). str_eq m.origin server) t.media)),
  pos (length (filter (λ (x : DbThumbnail). str_eq x.origin server) t.thumbnails)),
))

abbrev pub usage_of : ℤ × ℤ → UsageInfo
usage_of (media, thumbs) = record {
  minimal = record { total = add64 media thumbs; media = media };
  thumbnails = thumbs;
}

abbrev no_usage : UserUsageEntry
no_usage = record {
  raw_bytes = record { total = pos 0; media = pos 0 };
  raw_counts = record { total = pos 0; media = pos 0 };
  uploaded_mxcs = [];
}

abbrev grown : MinimalUsageInfo → ℤ → MinimalUsageInfo
grown i n = record { total = add64 i.total n; media = add64 i.media n }

abbrev pub with_media : DbMedia → UserUsageEntry → UserUsageEntry
with_media m e = record {
  raw_bytes = grown e.raw_bytes m.size_bytes;
  raw_counts = grown e.raw_counts (pos 1);
  uploaded_mxcs = e.uploaded_mxcs ++ mxc_uri m.origin m.media_id ∷ [];
}

abbrev pub entry_of : Option UserUsageEntry → UserUsageEntry
entry_of none = no_usage
entry_of (some e) = e

-- The loop of `GetUserUsage`: the entry of each user.
unfoldable pub by_user : List DbMedia → Map Str UserUsageEntry → Map Str UserUsageEntry
by_user [] parsed = parsed
by_user (m ∷ records) parsed =
    by_user records (insert m.user_id (with_media m (entry_of (lookup m.user_id parsed))) parsed)

abbrev pub media_entry : DbMedia → MediaUsageEntry
media_entry m = record {
  size_bytes = m.size_bytes;
  uploaded_by = m.user_id;
  datastore_id = m.datastore_id;
  datastore_location = m.location;
  sha256_hash = m.sha256_hash;
  quarantined = m.quarantined;
  upload_name = m.upload_name;
  content_type = m.content_type;
  created_ts = m.creation_ts;
}

-- The loop of `GetUploadsUsage` over the records.
unfoldable pub by_mxc : List DbMedia → Map Str MediaUsageEntry → Map Str MediaUsageEntry
by_mxc [] parsed = parsed
by_mxc (m ∷ records) parsed =
    by_mxc records (insert (mxc_uri m.origin m.media_id) (media_entry m) parsed)

abbrev failed_media : {A : Type 0} → Error → M (Response A)
failed_media e = pure (internal_server_error (codes "Failed to get media records for users"))

-- The media IDs of the URIs, or the answer to a wrong one.
unfoldable pub media_ids_of : {A : Type 0} → Str → List Str → List Str → List Str ⊎ Response A
media_ids_of server [] split = inl split
media_ids_of server (mxc ∷ mxcs) split = elim (split_mxc mxc) [
  | err e ↦ inr (internal_server_error (codes "Error parsing MXC " ++ mxc))
  | ok p ↦
      if not (str_eq p.0 server)
      then inr (bad_request (codes "MXC URIs must match the requested server"))
      else media_ids_of server mxcs (split ++ p.1 ∷ [])
]

module _ (r : Request) where
  -- `GetDomainUsage`
  unfoldable pub get_domain_usage : M (Response CountsUsageResponse)
  unfolding byte_usage_for_server count_usage_for_server
  get_domain_usage =
      let server = r.param (codes "serverName") in
      if not (is_server_name server)
      then pure (bad_request (codes "invalid server name"))
      else handle (byte_usage_for_server server)
          (λ e. pure (internal_server_error (codes "Failed to get byte usage for server")))
          (λ bytes.
            handle (count_usage_for_server server)
              (λ e. pure (internal_server_error (codes "Failed to get count usage for server")))
              (λ counts.
                pure
                  (payload (record { raw_bytes = usage_of bytes; raw_counts = usage_of counts }))))

  -- `GetUserUsage`
  unfoldable pub get_user_usage : M (Response (Map Str UserUsageEntry))
  unfolding by_user
  get_user_usage =
      let server = r.param (codes "serverName") in
      let user_ids = r.query (codes "user_id") in
      if not (is_server_name server)
      then pure (bad_request (codes "invalid server name"))
      else handle
          (if length user_ids == 0
            then get_by_origin server
            else get_by_origin_users server user_ids)
          failed_media (λ records. pure (payload (by_user records [])))

  abbrev uploads_of :
      Str → List Str ⊎ Response (Map Str MediaUsageEntry) → M (Response (Map Str MediaUsageEntry))
  uploads_of server (inr answer) = pure answer
  uploads_of server (inl ids) =
      handle (get_by_ids server ids) failed_media (λ records. pure (payload (by_mxc records [])))

  -- `GetUploadsUsage`
  unfoldable pub get_uploads_usage : M (Response (Map Str MediaUsageEntry))
  unfolding by_mxc media_ids_of
  get_uploads_usage =
      let server = r.param (codes "serverName") in
      let mxcs = r.query (codes "mxc") in
      if not (is_server_name server)
      then pure (bad_request (codes "invalid server name"))
      else if length mxcs == 0
      then handle (get_by_origin server) failed_media
          (λ records. pure (payload (by_mxc records [])))
      else uploads_of server (media_ids_of server mxcs [])
