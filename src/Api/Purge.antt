-- ===== src/Api/Purge.antt =====
-- api/custom/purge.go
use matrix_media_repo.Prelude.{
  Bool, true, false, not, ◌&&◌, none, some, List, [], ◌∷◌, ◌++◌, if◌then◌else◌,
}
use matrix_media_repo.Prelude.Int.{ℤ}
use matrix_media_repo.Prelude.Text.{Str, codes, str_eq}
use matrix_media_repo.Common.{Error, Result, ok, err, wrong_user}
use matrix_media_repo.Config.{Context}
use matrix_media_repo.World.{M, pure, now_millis, handle, ◌>>=◌}
use matrix_media_repo.Util.Mxc.{split_mxc, split_user_id}
use matrix_media_repo.Util.Parse.{parse_int64, parse_bool}
use matrix_media_repo.Database.Rows.{DbMedia}
use matrix_media_repo.Database.Media.{
  get_by_quarantine, get_by_origin_quarantine, get_old_by_user_id, get_old_by_origin,
  get_old_excluding,
}
use matrix_media_repo.Purge.{
  PurgeAuthContext, QuarantineThis, purge_media, purge_remote_media_before,
}
use matrix_media_repo.Matrix.{Homeservers, MediaListResponse, list_media}
use matrix_media_repo.Api.Request.{
  Request, Response, payload, query_get, is_server_name, bad_request, auth_failed,
  internal_server_error,
}
use matrix_media_repo.Api.Meta.{UserInfo, get_request_user_admin_status}

-- The JSON values: `MediaPurgedResponse`, and the maps with "purged" and "affected".
pub data Purged : Type 0 where
  num_removed : ℤ → Purged
  purged_one : Purged
  purged_affected : List Str → Purged

abbrev pub everything : PurgeAuthContext
everything = record { uploader_user_id = []; source_origin = [] }

abbrev pub auth_context_of : Request → UserInfo → Bool × Bool → PurgeAuthContext × (Bool × Bool)
auth_context_of r user (global_admin, local_admin) =
    if global_admin
    then (everything, (true, local_admin))
    else if local_admin
    then (record { uploader_user_id = []; source_origin = r.host }, (false, true))
    else (record { uploader_user_id = user.user_id; source_origin = [] }, (false, false))

abbrev pub of_db_media : List DbMedia → QuarantineThis
of_db_media records = record { mxc_uris = []; single = none; db_media = records }

abbrev pub of_single : Str → Str → QuarantineThis
of_single server media_id = record {
  mxc_uris = [];
  single = some (server, media_id);
  db_media = [];
}

abbrev pub of_mxc_uris : List Str → QuarantineThis
of_mxc_uris mxcs = record { mxc_uris = mxcs; single = none; db_media = [] }

-- The answers to the errors of a purge.
abbrev purge_error : Error → Response Purged
purge_error e = elim e [
  | wrong_user ↦ auth_failed
  | other ↦ internal_server_error (codes "unexpected error")
]

abbrev pub fetch_error : Error → M (Response Purged)
fetch_error e = pure (internal_server_error (codes "error fetching media records"))

-- The purge that each handler ends with.
unfoldable pub purge_and_reply : Context → PurgeAuthContext → QuarantineThis → M (Response Purged)
purge_and_reply ctx auth to_handle =
    handle (purge_media ctx auth to_handle) (λ e. pure (purge_error e))
      (λ mxcs. pure (payload (purged_affected mxcs)))

-- `before_ts`, which is now where it is left out.
unfoldable pub with_before_ts : Request → (ℤ → M (Response Purged)) → M (Response Purged)
with_before_ts r next = do
  now ← now_millis
  if str_eq (query_get r (codes "before_ts")) []
      then next now
      else elim (parse_int64 (query_get r (codes "before_ts"))) [
        | none ↦ pure (bad_request (codes "Error parsing before_ts: "))
        | some ts ↦ next ts
      ]

module _ (hs : Homeservers) (ctx : Context) (r : Request) (user : UserInfo) where
  -- `PurgeRemoteMedia`
  unfoldable pub purge_remote_media : M (Response Purged)
  purge_remote_media =
      if str_eq (query_get r (codes "before_ts")) []
      then pure (bad_request (codes "Missing before_ts argument"))
      else elim (parse_int64 (query_get r (codes "before_ts"))) [
        | none ↦ pure (bad_request (codes "Error parsing before_ts: "))
        | some ts ↦
            handle (purge_remote_media_before ctx ts)
              (λ e. pure (internal_server_error (codes "Error purging remote media")))
              (λ removed. pure (payload (num_removed removed)))
      ]

  -- `getPurgeAuthContext`
  unfoldable pub get_purge_auth_context : M (PurgeAuthContext × (Bool × Bool))
  get_purge_auth_context = do
    status ← get_request_user_admin_status hs ctx r user
    pure (auth_context_of r user status)

  -- `PurgeIndividualRecord`
  unfoldable pub purge_individual_record : M (Response Purged)
  unfolding get_purge_auth_context
  purge_individual_record = do
    auth ← get_purge_auth_context
    if is_server_name (r.param (codes "server"))
        then handle
            (purge_media ctx auth.0
              (of_single (r.param (codes "server")) (r.param (codes "mediaId"))))
            (λ e. pure (purge_error e)) (λ mxcs. pure (payload purged_one))
        else pure (bad_request (codes "invalid server ID"))

  -- `PurgeQuarantined`
  unfoldable pub purge_quarantined : M (Response Purged)
  unfolding get_purge_auth_context purge_and_reply
  purge_quarantined = do
    auth ← get_purge_auth_context
    if auth.1.0
        then handle get_by_quarantine fetch_error
            (λ affected. purge_and_reply ctx auth.0 (of_db_media affected))
        else if auth.1.1
        then handle (get_by_origin_quarantine r.host) fetch_error
            (λ affected. purge_and_reply ctx auth.0 (of_db_media affected))
        else pure auth_failed

  -- `include_local`, which is false where it is left out.
  abbrev with_include_local : (Bool → M (Response Purged)) → M (Response Purged)
  with_include_local next =
      if str_eq (query_get r (codes "include_local")) []
      then next false
      else elim (parse_bool (query_get r (codes "include_local"))) [
        | none ↦ pure (bad_request (codes "Error parsing include_local: "))
        | some b ↦ next b
      ]

  -- `PurgeOldMedia`
  unfoldable pub purge_old_media : M (Response Purged)
  unfolding with_before_ts purge_and_reply
  purge_old_media = with_before_ts r λ ts. with_include_local λ include_local.
      handle (get_old_excluding (if include_local then [] else ctx.main.domains) ts) fetch_error
        (λ records. purge_and_reply ctx everything (of_db_media records))

  -- What `PurgeUserMedia` does for an admin, once the user ID is split.
  abbrev pub purge_user_of : PurgeAuthContext → Bool → ℤ → Result (Str × Str) → M (Response Purged)
  purge_user_of auth is_global_admin ts (err e) =
      pure (internal_server_error (codes "error parsing user ID"))
  purge_user_of auth is_global_admin ts (ok p) =
      if not is_global_admin && not (str_eq p.1 r.host)
      then pure auth_failed
      else handle (get_old_by_user_id (r.param (codes "userId")) ts) fetch_error
          (λ records. purge_and_reply ctx auth (of_db_media records))

  unfoldable pub purge_user_before : PurgeAuthContext → Bool → ℤ → M (Response Purged)
  unfolding purge_and_reply
  purge_user_before auth is_global_admin ts =
      purge_user_of auth is_global_admin ts (split_user_id (r.param (codes "userId")))

  -- `PurgeUserMedia`
  unfoldable pub purge_user_media : M (Response Purged)
  unfolding get_purge_auth_context with_before_ts purge_user_before
  purge_user_media = do
    auth ← get_purge_auth_context
    if not auth.1.0 && not auth.1.1
        then pure auth_failed
        else with_before_ts r (purge_user_before auth.0 auth.1.0)

  abbrev is_at_host : Result (Str × Str) → Bool
  is_at_host (ok p) = str_eq p.0 r.host
  is_at_host (err e) = false

  -- The URIs of the host.
  unfoldable pub at_host : List Str → List Str
  at_host [] = []
  at_host (mxc ∷ mxcs) = if is_at_host (split_mxc mxc) then mxc ∷ at_host mxcs else at_host mxcs

  abbrev pub room_mxcs : Bool → MediaListResponse → List Str
  room_mxcs is_global_admin all_media =
      if is_global_admin
      then all_media.local_mxcs ++ all_media.remote_mxcs
      else at_host all_media.local_mxcs ++ at_host all_media.remote_mxcs

  -- What `PurgeRoomMedia` does for an admin.
  unfoldable pub purge_room_before : PurgeAuthContext → Bool → ℤ → M (Response Purged)
  unfolding purge_and_reply at_host
  purge_room_before auth is_global_admin ts =
      handle (list_media hs ctx r.host user.access_token (r.param (codes "roomId")))
        (λ e. pure (internal_server_error (codes "error retrieving media in room")))
        (λ all_media. purge_and_reply ctx auth (of_mxc_uris (room_mxcs is_global_admin all_media)))

  -- `PurgeRoomMedia`
  unfoldable pub purge_room_media : M (Response Purged)
  unfolding get_purge_auth_context with_before_ts purge_room_before
  purge_room_media = do
    auth ← get_purge_auth_context
    if not auth.1.0 && not auth.1.1
        then pure auth_failed
        else with_before_ts r (purge_room_before auth.0 auth.1.0)

  -- What `PurgeDomainMedia` does for an admin.
  unfoldable pub purge_domain_before : PurgeAuthContext → Bool → ℤ → M (Response Purged)
  unfolding purge_and_reply
  purge_domain_before auth is_global_admin ts =
      let server_name = r.param (codes "serverName") in
      if not (is_server_name server_name)
      then pure (bad_request (codes "invalid server name"))
      else if not is_global_admin && not (str_eq server_name r.host)
      then pure auth_failed
      else handle (get_old_by_origin server_name ts) fetch_error
          (λ records. purge_and_reply ctx auth (of_db_media records))

  -- `PurgeDomainMedia`
  unfoldable pub purge_domain_media : M (Response Purged)
  unfolding get_purge_auth_context with_before_ts purge_domain_before
  purge_domain_media = do
    auth ← get_purge_auth_context
    if not auth.1.0 && not auth.1.1
        then pure auth_failed
        else with_before_ts r (purge_domain_before auth.0 auth.1.0)

  -- The handlers that api/routes.go leaves to each user with an access token.
  unfoldable pub open_purge_handlers : List (M (Response Purged))
  open_purge_handlers =
      purge_individual_record
      ∷ (purge_quarantined ∷ (purge_user_media ∷ (purge_room_media ∷ (purge_domain_media ∷ []))))
