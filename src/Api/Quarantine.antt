-- ===== src/Api/Quarantine.antt =====
-- api/custom/quarantine.go
use matrix_media_repo.Prelude.{Bool, true, false, not, ◌&&◌, List, [], ◌∷◌, ◌++◌, if◌then◌else◌}
use matrix_media_repo.Prelude.Int.{ℤ}
use matrix_media_repo.Prelude.Text.{Str, codes, str_eq}
use matrix_media_repo.Common.{Result, ok, err}
use matrix_media_repo.Config.{Context}
use matrix_media_repo.World.{M, pure, handle, ◌>>=◌}
use matrix_media_repo.Util.Mxc.{split_user_id}
use matrix_media_repo.Database.Media.{get_by_user_id, get_by_origin}
use matrix_media_repo.Purge.{QuarantineThis}
use matrix_media_repo.Quarantine.{quarantine_media}
use matrix_media_repo.Matrix.{Homeservers, MediaListResponse, is_user_admin, list_media}
use matrix_media_repo.Api.Request.{
  Request, Response, payload, is_server_name, bad_request, auth_failed, internal_server_error,
}
use matrix_media_repo.Api.Meta.{UserInfo, is_repo_admin}
use matrix_media_repo.Api.Purge.{of_db_media, of_single, of_mxc_uris}

-- The answer to `getQuarantineRequestInfo`.
pub record QuarantineRequestInfo : Type 0 where
  pub can_quarantine : Bool
  pub allow_other_hosts : Bool
  pub is_local_admin : Bool

abbrev pub info : Bool → Bool → Bool → QuarantineRequestInfo
info can other is_local = record {
  can_quarantine = can;
  allow_other_hosts = other;
  is_local_admin = is_local;
}

-- `performQuarantineRequest`: the number of media is the JSON value.
unfoldable pub perform_quarantine_request : Str → Bool → QuarantineThis → M (Response ℤ)
perform_quarantine_request host allow_other_hosts to_quarantine =
    handle (quarantine_media (if allow_other_hosts then [] else host) to_quarantine)
      (λ e. pure (internal_server_error (codes "error quarantining media")))
      (λ total. pure (payload total))

module _ (hs : Homeservers) (ctx : Context) (r : Request) (user : UserInfo) where
  -- `getQuarantineRequestInfo`
  unfoldable pub get_quarantine_request_info : M QuarantineRequestInfo
  get_quarantine_request_info =
      if is_repo_admin ctx user
      then pure (info true true false)
      else if ctx.domain.quarantine.allow_local_admins
      then handle (is_user_admin hs ctx r.host user.access_token)
          (λ e. pure (info false false false))
          (λ is_local_admin. pure (info is_local_admin false is_local_admin))
      else pure (info false false false)

  abbrev pub quarantine_mxcs : Bool → MediaListResponse → List Str
  quarantine_mxcs allow_other_hosts all_media =
      if allow_other_hosts
      then all_media.local_mxcs ++ all_media.remote_mxcs
      else all_media.local_mxcs

  -- What `QuarantineRoomMedia` does once it is allowed.
  unfoldable pub quarantine_room : Bool → M (Response ℤ)
  unfolding perform_quarantine_request
  quarantine_room allow =
      handle (list_media hs ctx r.host user.access_token (r.param (codes "roomId")))
        (λ e. pure (internal_server_error (codes "error retrieving media in room")))
        (λ all_media.
          perform_quarantine_request r.host allow (of_mxc_uris (quarantine_mxcs allow all_media)))

  -- What `QuarantineUserMedia` does once it is allowed and the user ID is split.
  abbrev pub quarantine_user_of : Bool → Result (Str × Str) → M (Response ℤ)
  quarantine_user_of allow (err e) = pure (internal_server_error (codes "error parsing user ID"))
  quarantine_user_of allow (ok p) =
      if not allow && not (str_eq p.1 r.host)
      then pure auth_failed
      else handle (get_by_user_id (r.param (codes "userId")))
          (λ e. pure (internal_server_error (codes "error retrieving media for user")))
          (λ records. perform_quarantine_request r.host allow (of_db_media records))

  unfoldable pub quarantine_user : Bool → M (Response ℤ)
  unfolding perform_quarantine_request
  quarantine_user allow = quarantine_user_of allow (split_user_id (r.param (codes "userId")))

  -- What `QuarantineDomainMedia` does once it is allowed.
  unfoldable pub quarantine_domain : Bool → M (Response ℤ)
  unfolding perform_quarantine_request
  quarantine_domain allow =
      let server_name = r.param (codes "serverName") in
      if not (is_server_name server_name)
      then pure (bad_request (codes "invalid server name"))
      else if not allow && not (str_eq server_name r.host)
      then pure auth_failed
      else handle (get_by_origin server_name)
          (λ e. pure (internal_server_error (codes "error retrieving media for server")))
          (λ records. perform_quarantine_request r.host allow (of_db_media records))

  -- What `QuarantineMedia` does once it is allowed.
  unfoldable pub quarantine_one : Bool → M (Response ℤ)
  unfolding perform_quarantine_request
  quarantine_one allow =
      let server = r.param (codes "server") in
      if not (is_server_name server)
      then pure (bad_request (codes "invalid server ID"))
      else if not allow && not (str_eq r.host server)
      then pure (bad_request (codes "unable to quarantine media on other homeservers"))
      else perform_quarantine_request r.host allow (of_single server (r.param (codes "mediaId")))

  -- The start of each handler.
  unfoldable pub when_allowed : (Bool → M (Response ℤ)) → M (Response ℤ)
  unfolding get_quarantine_request_info
  when_allowed next = do
    i ← get_quarantine_request_info
    if not i.can_quarantine then pure auth_failed else next i.allow_other_hosts

  -- The handlers: `QuarantineRoomMedia`, `QuarantineUserMedia`, `QuarantineDomainMedia` and
  -- `QuarantineMedia`.
  unfoldable pub quarantine_handlers : List (M (Response ℤ))
  unfolding when_allowed quarantine_room quarantine_user quarantine_domain quarantine_one
  quarantine_handlers =
      when_allowed quarantine_room
      ∷ (when_allowed quarantine_user
          ∷ (when_allowed quarantine_domain ∷ (when_allowed quarantine_one ∷ [])))
