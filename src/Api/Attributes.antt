-- ===== src/Api/Attributes.antt =====
-- api/custom/media_attributes.go, with `IsPurpose` of database/table_media_attributes.go. `decode` is
-- what `json.Decode` makes of the request's body.
use matrix_media_repo.Prelude.{Bool, true, false, not, ◌||◌, Option, none, some, if◌then◌else◌}
use matrix_media_repo.Prelude.Text.{Str, codes, str_eq}
use matrix_media_repo.Config.{Context}
use matrix_media_repo.World.{M, pure, handle, ◌>>=◌}
use matrix_media_repo.Database.Rows.{DbMedia, DbMediaAttributes, purpose_pinned}
use matrix_media_repo.Database.Media.{get_by_id}
use matrix_media_repo.Database.Ids.{get_attributes, upsert_purpose}
use matrix_media_repo.Matrix.{Homeservers, is_user_admin}
use matrix_media_repo.Api.Request.{
  Request, Response, payload, is_server_name, bad_request, auth_failed, not_found_error,
  internal_server_error,
}
use matrix_media_repo.Api.Meta.{UserInfo, is_repo_admin}

abbrev pub purpose_none : Str
purpose_none = codes "none"

-- `IsPurpose`
abbrev pub is_purpose : Str → Bool
is_purpose purpose = str_eq purpose purpose_none || str_eq purpose purpose_pinned

abbrev pub purpose_of : Option DbMediaAttributes → Str
purpose_of none = purpose_none
purpose_of (some a) = a.purpose

abbrev pub has_purpose : Str → Option DbMediaAttributes → Bool
has_purpose purpose none = false
has_purpose purpose (some a) = str_eq a.purpose purpose

module _ (hs : Homeservers) (ctx : Context) (r : Request) (user : UserInfo) where
  -- `canChangeAttributes`
  unfoldable pub can_change_attributes : Str → M Bool
  can_change_attributes origin =
      if is_repo_admin ctx user
      then pure true
      else handle (is_user_admin hs ctx origin user.access_token) (λ e. pure false)
          (λ is_local_admin. pure is_local_admin)

  -- What `GetAttributes` answers about a medium that is there.
  unfoldable pub answer_attributes : Str → Str → Option DbMedia → M (Response Str)
  answer_attributes origin media_id none = pure not_found_error
  answer_attributes origin media_id (some m) =
      handle (get_attributes origin media_id)
        (λ e. pure (internal_server_error (codes "failed to get attributes record")))
        (λ attrs. pure (payload (purpose_of attrs)))

  -- `GetAttributes`
  unfoldable pub get_media_attributes : M (Response Str)
  unfolding can_change_attributes answer_attributes
  get_media_attributes =
      let origin = r.param (codes "server") in
      let media_id = r.param (codes "mediaId") in
      if not (is_server_name origin) then pure (bad_request (codes "invalid origin")) else (do
        allowed ← can_change_attributes origin
        if not allowed
            then pure auth_failed
            else handle (get_by_id origin media_id)
                (λ e. pure (internal_server_error (codes "failed to get media record")))
                (answer_attributes origin media_id))

  -- The change, if there is one.
  unfoldable pub change_purpose : Str → Str → Str → Option DbMediaAttributes → M (Response Str)
  change_purpose origin media_id purpose attrs =
      if has_purpose purpose attrs
      then pure (payload purpose)
      else if not (is_purpose purpose)
      then pure (bad_request (codes "unknown purpose"))
      else handle (upsert_purpose origin media_id purpose)
          (λ e. pure (internal_server_error (codes "failed to update attributes: purpose")))
          (λ u. pure (payload purpose))

  abbrev set_decoded : Str → Str → Option Str → M (Response Str)
  set_decoded origin media_id none =
      pure (internal_server_error (codes "failed to read attributes"))
  set_decoded origin media_id (some purpose) =
      handle (get_attributes origin media_id)
        (λ e. pure (internal_server_error (codes "failed to get attributes")))
        (change_purpose origin media_id purpose)

  -- `SetAttributes`
  unfoldable pub set_media_attributes : Option Str → M (Response Str)
  unfolding can_change_attributes change_purpose
  set_media_attributes decoded =
      let origin = r.param (codes "server") in
      if not (is_server_name origin) then pure (bad_request (codes "invalid origin")) else (do
        allowed ← can_change_attributes origin
        if not allowed
            then pure auth_failed
            else set_decoded origin (r.param (codes "mediaId")) decoded)
