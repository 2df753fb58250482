-- ===== src/Api/Download.antt =====
-- api/r0/download.go.
use matrix_media_repo.Prelude.{
  Bool, true, false, not, ◌&&◌, ◌||◌, Option, none, some, [], if◌then◌else◌,
}
use matrix_media_repo.Prelude.Int.{ℤ}
use matrix_media_repo.Prelude.Text.{Str, codes, str_eq}
use matrix_media_repo.Common.{
  Error, media_not_found, restricted_auth, media_too_large, rate_limit_exceeded, media_quarantined,
  media_not_yet_uploaded, redirect,
}
use matrix_media_repo.Config.{Context, is_global_admin}
use matrix_media_repo.World.{M, pure, handle}
use matrix_media_repo.Util.Parse.{parse_bool, calc_block_for_duration, is_host_ignored}
use matrix_media_repo.Database.Rows.{DbMedia}
use matrix_media_repo.Download.Stream.{Files}
use matrix_media_repo.Download.Remote.{Federation}
use matrix_media_repo.Download.Pipeline.{DownloadOpts, Bucket, execute}
use matrix_media_repo.Api.Request.{
  Request, Response, download_response, redirect_response, error_response, query_get,
  is_server_name, bad_request, media_blocked, not_found_error, request_too_large,
  rate_limit_reached, not_yet_uploaded, internal_server_error,
}
use matrix_media_repo.Api.Meta.{AuthContext, UserInfo, is_authenticated}

-- A flag of the query, with its default.
abbrev pub flag_or : Request → Str → Bool → Option Bool
flag_or r name default =
    if str_eq (query_get r name) [] then some default else parse_bool (query_get r name)

-- The answers to the errors of a download. With an error there is no stream.
abbrev pub download_error : {A : Type 0} → Error → Response A
download_error e = elim e [
  | media_not_found ↦ not_found_error
  | restricted_auth ↦
      error_response (codes "M_NOT_FOUND")
        (codes "authentication is required to download this media") (codes "M_NOT_FOUND")
  | media_too_large ↦ request_too_large
  | rate_limit_exceeded ↦ rate_limit_reached
  | media_quarantined ↦ not_found_error
  | media_not_yet_uploaded ↦ not_yet_uploaded
  | redirect url ↦ redirect_response url
  | other ↦ internal_server_error (codes "Unexpected Error")
]

-- A HEAD request has no body.
abbrev bytes_of : Option Str → Str
bytes_of none = []
bytes_of (some s) = s

abbrev or_upload_name : Str → DbMedia → Str
or_upload_name filename media = if str_eq filename [] then media.upload_name else filename

module _ (glob : Str → Str → Bool) (sha256 : Str → Str) (fed : Federation) (files : Files)
    (bucket : Bucket) (ctx : Context) (r : Request) where
  abbrev opts_of : AuthContext → Bool → Bool → ℤ → DownloadOpts
  opts_of auth download_remote can_redirect block_for = record {
    fetch_remote_if_needed = download_remote;
    block_for_read_until = block_for;
    record_only = str_eq r.method (codes "HEAD");
    can_redirect = can_redirect;
    auth_provided = is_authenticated auth;
  }

  abbrev is_blocked : UserInfo → Bool
  is_blocked user =
      is_host_ignored ctx (r.param (codes "server"))
      && (str_eq user.user_id [] || not (is_global_admin ctx user.user_id))

  -- The download, once the parameters are read.
  unfoldable pub download_with : {A : Type 0} → AuthContext → DownloadOpts → M (Response A)
  download_with auth opts =
      if is_blocked auth.user
      then pure media_blocked
      else handle
          (execute glob sha256 fed files bucket ctx (r.param (codes "server"))
            (r.param (codes "mediaId")) opts)
          (λ e. pure (download_error e))
          (λ p. pure (
            download_response (record {
              content_type = p.0.content_type;
              filename = or_upload_name (r.param (codes "filename")) p.0;
              size_bytes = p.0.size_bytes;
              stream = bytes_of p.1;
              target_disposition = codes "infer";
            })))

  abbrev with_flag : {A : Type 0} → Option Bool → Str → (Bool → M (Response A)) → M (Response A)
  with_flag none message next = pure (bad_request message)
  with_flag (some b) message next = next b

  abbrev with_duration : {A : Type 0} → Option ℤ → (ℤ → M (Response A)) → M (Response A)
  with_duration none next = pure (bad_request (codes "timeout_ms does not appear to be an integer"))
  with_duration (some t) next = next t

  -- `DownloadMedia`
  unfoldable pub download_media : {A : Type 0} → AuthContext → M (Response A)
  unfolding download_with
  download_media auth =
      if not (is_server_name (r.param (codes "server")))
      then pure (bad_request (codes "invalid server ID"))
      else with_flag (flag_or r (codes "allow_remote") true)
          (codes "allow_remote flag does not appear to be a boolean")
          λ download_remote.
            with_flag (flag_or r (codes "allow_redirect") false)
              (codes "allow_redirect flag does not appear to be a boolean")
              λ can_redirect.
                with_duration (calc_block_for_duration (query_get r (codes "timeout_ms")))
                  λ block_for.
                    download_with auth (opts_of auth download_remote can_redirect block_for)
