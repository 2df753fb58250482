-- ===== src/Api/Upload.antt =====
-- api/r0/upload_sync.go, api/r0/upload_async.go, api/v1/create.go and api/r0/logout.go. `filepath.Base`
-- is a parameter.
pub mod Backed
use matrix_media_repo.Prelude.{
  Bool, true, false, ◌&&◌, ◌||◌, not, Option, none, some, List, [], ◌∷◌, if◌then◌else◌,
}
use matrix_media_repo.Prelude.Int.{ℤ, pos, ltb_ℤ}
use matrix_media_repo.Prelude.Text.{Str, codes, str_eq}
use matrix_media_repo.Common.{
  Error, quota_exceeded, already_uploaded, wrong_user, expired, panicked,
}
use matrix_media_repo.Config.{Context}
use matrix_media_repo.World.{M, pure, raise, handle}
use matrix_media_repo.Util.Mxc.{mxc_uri}
use matrix_media_repo.Util.Parse.{parse_int64_or_limit}
use matrix_media_repo.Database.Rows.{DbMedia, DbExpiringMedia}
use matrix_media_repo.Datastores.{local_media}
use matrix_media_repo.Upload.Steps.{Upload, create}
use matrix_media_repo.Upload.Pipeline.{execute, execute_put}
use matrix_media_repo.Api.Request.{
  Request, Response, error_response, empty_response, payload, query_get, request_too_large,
  request_too_small, quota_exceeded_error, internal_server_error,
}
use matrix_media_repo.Api.Meta.{UserInfo}
use matrix_media_repo.Api.AuthCache.{invalidate_token, invalidate_all_tokens}
use matrix_media_repo.Matrix.{Homeservers}

-- `MediaUploadedResponse`
pub record MediaUploadedResponse : Type 0 where
  pub content_uri : Str

-- `MediaCreatedResponse`
pub record MediaCreatedResponse : Type 0 where
  pub content_uri : Str
  pub expires_ts : ℤ

abbrev pub is_quota_exceeded : Error → Bool
is_quota_exceeded e = elim e [ quota_exceeded ↦ true | other ↦ false ]

module _ (ctx : Context) (r : Request) where
  -- The tests of an announced size.
  abbrev pub check_size : {A : Type 0} → ℤ → Option (Response A)
  check_size size =
      let max = ctx.domain.uploads.max_size_bytes in
      let min = ctx.domain.uploads.min_size_bytes in
      if ltb_ℤ (pos 0) max && ltb_ℤ max size
      then some request_too_large
      else if ltb_ℤ (pos 0) min && ltb_ℤ size min
      then some request_too_small
      else none

  -- `uploadRequestSizeCheck`
  unfoldable pub upload_request_size_check : {A : Type 0} → Option (Response A)
  upload_request_size_check =
      let header = r.header (codes "Content-Length") in
      if ltb_ℤ (pos 0) ctx.domain.uploads.max_size_bytes
        || ltb_ℤ (pos 0) ctx.domain.uploads.min_size_bytes
      then (if ltb_ℤ (pos 0) r.content_length
          then check_size r.content_length
          else if str_eq header []
          then none
          else check_size (parse_int64_or_limit header))
      else none

  abbrev content_type_of : Str
  content_type_of =
      let given = r.header (codes "Content-Type") in
      if str_eq given [] then codes "application/octet-stream" else given

  module _ (base : Str → Str) (user : UserInfo) where
    abbrev pub upload_of : Str → Upload
    upload_of origin = record {
      origin = origin;
      content_type = content_type_of;
      file_name = base (query_get r (codes "filename"));
      user_id = user.user_id;
      kind = local_media;
    }

    abbrev pub sync_error : Error → M (Response MediaUploadedResponse)
    sync_error e = pure (
        if is_quota_exceeded e
        then quota_exceeded_error
        else internal_server_error (codes "Unexpected Error"))

    -- The record is read, and is nil where the upload returned none.
    abbrev pub uploaded_uri : Option DbMedia → M (Response MediaUploadedResponse)
    uploaded_uri none = raise panicked
    uploaded_uri (some m) = pure (payload (record { content_uri = mxc_uri m.origin m.media_id }))

    abbrev pub unless_answered :
        {A : Type 0} → Option (Response A) → M (Response A) → M (Response A)
    unless_answered none next = next
    unless_answered (some answer) next = pure answer

    -- `UploadMediaSync`
    unfoldable pub upload_media_sync :
        (Str → Str → Bool) → (Str → Str) → M (Response MediaUploadedResponse)
    upload_media_sync glob sha256 =
        unless_answered upload_request_size_check
          (handle (execute glob sha256 ctx (upload_of r.host) [] r.body) sync_error uploaded_uri)

    abbrev async_error : Error → Response MediaUploadedResponse
    async_error e = elim e [
      | quota_exceeded ↦ quota_exceeded_error
      | already_uploaded ↦
          error_response (codes "M_CANNOT_OVERWRITE_MEDIA")
            (codes "This media has already been uploaded.") (codes "M_CANNOT_OVERWRITE_MEDIA")
      | wrong_user ↦
          error_response (codes "M_FORBIDDEN")
            (codes "You do not have permission to upload this media.") (codes "M_FORBIDDEN")
      | expired ↦
          error_response (codes "M_NOT_FOUND") (codes "Media expired or not found.")
            (codes "M_NOT_FOUND")
      | other ↦ internal_server_error (codes "Unexpected Error")
    ]

    -- `UploadMediaAsync`
    unfoldable pub upload_media_async :
        (Str → Str → Bool) → (Str → Str) → M (Response MediaUploadedResponse)
    upload_media_async glob sha256 =
        let server = r.param (codes "server") in
        if not (str_eq r.host server)
        then pure (
            error_response (codes "M_NOT_FOUND") (codes "Upload request is for another domain.")
              (codes "M_FORBIDDEN"))
        else unless_answered upload_request_size_check (
            handle
              (execute_put glob sha256 ctx (upload_of server) (r.param (codes "mediaId")) r.body)
              (λ e. pure (async_error e)) (λ m. pure (payload (record { content_uri = [] }))))

    -- `CreateMedia`
    unfoldable pub create_media : (Str → Str → Bool) → M (Response MediaCreatedResponse)
    create_media glob =
        handle (create glob ctx r.host user.user_id (pos 0))
          (λ e. pure (internal_server_error (codes "unexpected error")))
          (λ (h : DbExpiringMedia). pure (
            payload
              (record { content_uri = mxc_uri h.origin h.media_id; expires_ts = h.expires_ts })))

  module _ (matches : Str → Str → Bool) (hs : Homeservers) (user : UserInfo) where
    abbrev logout_error : {A : Type 0} → Error → M (Response A)
    logout_error e = pure (internal_server_error (codes "unable to logout"))

    -- `Logout`
    unfoldable pub logout_handler : {A : Type 0} → M (Response A)
    logout_handler =
        handle (invalidate_token matches hs ctx r user.access_token user.user_id) logout_error
          (λ u. pure empty_response)

    -- `LogoutAll`
    unfoldable pub logout_all_handler : {A : Type 0} → M (Response A)
    logout_all_handler =
        handle (invalidate_all_tokens matches hs ctx r user.access_token user.user_id) logout_error
          (λ u. pure empty_response)
