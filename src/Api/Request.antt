-- ===== src/Api/Request.antt =====
-- What the handlers read of an HTTP request (api/_routers/00-install-params.go and util/http.go), and
-- what they answer with (api/_responses/).
use matrix_media_repo.Prelude.{
  ℕ, ◌==◌, leb, Bool, ◌&&◌, ◌||◌, List, [], ◌∷◌, any, drop, if◌then◌else◌,
}
use matrix_media_repo.Prelude.Int.{ℤ, negsuc}
use matrix_media_repo.Prelude.Text.{Str, codes, str_eq, has_prefix}
use matrix_media_repo.Readers.{Stream}

-- `param` is `GetParam`, `query` the values of a query parameter, `header` is `Header.Get`, and
-- `authorization` the values of the Authorization headers, and `body` what reads of the body return.
pub record Request : Type 0 where
  pub host : Str
  pub remote_addr : Str
  pub method : Str
  pub param : Str → Str
  pub query : Str → List Str
  pub header : Str → Str
  pub authorization : List Str
  pub content_length : ℤ
  pub body : Stream

-- The first value of a query parameter, or "".
abbrev pub first_or_empty : List Str → Str
first_or_empty [] = []
first_or_empty (v ∷ vs) = v

abbrev pub query_get : Request → Str → Str
query_get r name = first_or_empty (r.query name)

abbrev is_server_char : ℕ → Bool
is_server_char c =
    (leb b'a' c && leb c b'z')
    || ((leb b'A' c && leb c b'Z')
        || ((leb b'0' c && leb c b'9')
            || ((c == b'.') || ((c == b':') || ((c == b'-') || (c == b'_'))))))

-- `ServerNameRegex.MatchString`: the expression is not anchored.
abbrev pub is_server_name : Str → Bool
is_server_name s = any is_server_char s

-- `util.GetAccessTokenFromRequest`
unfoldable pub get_access_token : Request → Str
get_access_token r =
    let token = r.header (codes "Authorization") in
    if str_eq token []
    then query_get r (codes "access_token")
    else if has_prefix token (codes "Bearer ")
    then drop 7 token
    else []

-- `util.GetAppserviceUserIdFromRequest`
abbrev pub get_appservice_user_id : Request → Str
get_appservice_user_id r = query_get r (codes "user_id")

pub record DownloadResponse : Type 0 where
  pub content_type : Str
  pub filename : Str
  pub size_bytes : ℤ
  pub stream : Str
  pub target_disposition : Str

-- The answers. `payload` is `DoNotCacheResponse`, around a value that becomes JSON.
pub data Response (A : Type 0) : Type 0 where
  error_response : Str → Str → Str → Response A
  empty_response : Response A
  redirect_response : Str → Response A
  download_response : DownloadResponse → Response A
  payload : A → Response A

module _ {A : Type 0} where
  abbrev pub internal_server_error : Str → Response A
  internal_server_error message = error_response (codes "M_UNKNOWN") message (codes "M_UNKNOWN")

  abbrev pub rate_limit_reached : Response A
  rate_limit_reached =
      error_response (codes "M_LIMIT_EXCEEDED") (codes "Rate Limited") (codes "M_LIMIT_EXCEEDED")

  abbrev pub not_found_error : Response A
  not_found_error = error_response (codes "M_NOT_FOUND") (codes "Not found") (codes "M_NOT_FOUND")

  abbrev pub request_too_large : Response A
  request_too_large =
      error_response (codes "M_TOO_LARGE") (codes "Too Large") (codes "M_MEDIA_TOO_LARGE")

  abbrev pub request_too_small : Response A
  request_too_small =
      error_response (codes "M_UNKNOWN") (codes "Body too small or not provided")
        (codes "M_MEDIA_TOO_SMALL")

  abbrev pub quota_exceeded_error : Response A
  quota_exceeded_error =
      error_response (codes "M_FORBIDDEN") (codes "Quota Exceeded") (codes "M_QUOTA_EXCEEDED")

  abbrev pub auth_failed : Response A
  auth_failed =
      error_response (codes "M_UNKNOWN_TOKEN") (codes "Authentication Failed")
        (codes "M_UNKNOWN_TOKEN")

  abbrev pub media_blocked : Response A
  media_blocked =
      error_response (codes "M_NOT_FOUND") (codes "Media blocked or not found")
        (codes "M_FORBIDDEN")

  abbrev pub guest_auth_failed : Response A
  guest_auth_failed =
      error_response (codes "M_GUEST_ACCESS_FORBIDDEN") (codes "Guests cannot use this endpoint")
        (codes "M_GUEST_ACCESS_FORBIDDEN")

  abbrev pub bad_request : Str → Response A
  bad_request message = error_response (codes "M_UNKNOWN") message (codes "M_BAD_REQUEST")

  abbrev pub not_yet_uploaded : Response A
  not_yet_uploaded =
      error_response (codes "M_NOT_YET_UPLOADED") (codes "Media not yet uploaded")
        (codes "M_NOT_YET_UPLOADED")

  abbrev pub make_quarantined_image_response : Str → Response A
  make_quarantined_image_response stream = download_response (record {
    content_type = codes "image/png";
    filename = codes "not_allowed.png";
    size_bytes = negsuc 0;
    stream = stream;
    target_disposition = codes "inline";
  })

-- The switch over `InternalCode` in `ServeHTTP` of api/_routers/98-use-rcontext.go.
abbrev pub status_of_code : Str → ℕ
status_of_code code =
    if str_eq code (codes "M_MISSING_TOKEN")
    then 401
    else if str_eq code (codes "M_UNKNOWN_TOKEN")
    then 401
    else if str_eq code (codes "M_NOT_FOUND")
    then 404
    else if str_eq code (codes "M_MEDIA_TOO_LARGE")
    then 413
    else if str_eq code (codes "M_BAD_REQUEST")
    then 400
    else if str_eq code (codes "M_METHOD_NOT_ALLOWED")
    then 405
    else if str_eq code (codes "M_FORBIDDEN")
    then 403
    else if str_eq code (codes "M_GUEST_ACCESS_FORBIDDEN")
    then 403
    else if str_eq code (codes "M_CANNOT_OVERWRITE_MEDIA")
    then 409
    else if str_eq code (codes "M_NOT_YET_UPLOADED")
    then 504
    else 500
