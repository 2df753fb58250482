-- ===== src/Api/Routers.antt =====
-- api/_routers/97-require-access-token.go, 97-optional-access-token.go, 97-require-repo-admin.go and
-- 97-require-server-auth.go: what stands between a request and a handler. `user_of_token` is the
-- variable `getUserIdForToken`, and `validate_auth` is `matrix.ValidateXMatrixAuth`.
pub mod Admins
use matrix_media_repo.Prelude.{Bool, true, false, not, ◌&&◌, Option, none, some, [], if◌then◌else◌}
use matrix_media_repo.Prelude.Text.{Str, codes, str_eq}
use matrix_media_repo.Common.{Error, invalid_token, panicked, no_xmatrix_auth, wrong_destination}
use matrix_media_repo.Config.{Context}
use matrix_media_repo.World.{M, pure, raise, handle, CachedToken, ◌>>=◌}
use matrix_media_repo.Api.Request.{
  Request, Response, error_response, get_access_token, get_appservice_user_id, auth_failed,
  guest_auth_failed, internal_server_error,
}
use matrix_media_repo.Api.Meta.{UserInfo, is_repo_admin, request_claims_repo_admin}

-- `applyTrustedRepoAdminHeader`
unfoldable pub apply_trusted_repo_admin_header : Context → Request → UserInfo → UserInfo
apply_trusted_repo_admin_header ctx r user =
    if request_claims_repo_admin ctx r then record user { is_trusted_header_admin = true } else user

abbrev pub plain_user : Str → Str → Bool → UserInfo
plain_user user_id token shared = record {
  user_id = user_id;
  access_token = token;
  is_shared = shared;
  is_trusted_header_admin = false;
}

-- The error is another than that of an invalid token.
abbrev pub is_unexpected : Option Error → Bool
is_unexpected none = false
is_unexpected (some e) = elim e [ invalid_token ↦ false | other ↦ true ]

abbrev pub has_error : Option Error → Bool
has_error none = false
has_error (some e) = true

abbrev pub shared_secret_user : Context → Request → Str → UserInfo
shared_secret_user ctx r token =
    apply_trusted_repo_admin_header ctx r (plain_user (codes "@sharedsecret") token true)

module _ {A : Type 0} (user_of_token : Str → Str → M CachedToken) (ctx : Context)
    (r : Request) where
  abbrev unexpected : M (Response A)
  unexpected = pure (internal_server_error (codes "unexpected error validating access token"))

  -- What `RequireAccessToken` does with the answer about the token.
  unfoldable pub require_user :
      (UserInfo → M (Response A)) → Bool → Str → CachedToken → M (Response A)
  unfolding apply_trusted_repo_admin_header
  require_user generator allow_guests token t =
      if t.is_guest && not allow_guests
      then pure guest_auth_failed
      else if is_unexpected t.error
      then unexpected
      else if has_error t.error
      then pure auth_failed
      else if str_eq t.user_id []
      then pure auth_failed
      else generator (apply_trusted_repo_admin_header ctx r (plain_user t.user_id token false))

  -- `RequireAccessToken`
  unfoldable pub require_access_token : (UserInfo → M (Response A)) → Bool → M (Response A)
  unfolding require_user
  require_access_token generator allow_guests =
      let token = get_access_token r in
      if str_eq token []
      then pure (
          error_response (codes "M_MISSING_TOKEN") (codes "no token provided (required)")
            (codes "M_MISSING_TOKEN"))
      else if ctx.main.shared_secret.enabled && str_eq token ctx.main.shared_secret.token
      then generator (shared_secret_user ctx r token)
      else (do
        t ← user_of_token token (get_appservice_user_id r)
        require_user generator allow_guests token t)

  -- What `OptionalAccessToken` does with the answer about the token.
  unfoldable pub optional_user : (UserInfo → M (Response A)) → Str → CachedToken → M (Response A)
  unfolding apply_trusted_repo_admin_header
  optional_user generator token t =
      if t.is_guest
      then pure guest_auth_failed
      else if is_unexpected t.error
      then unexpected
      else let user_id = if has_error t.error then [] else t.user_id in
        if str_eq user_id []
        then generator (plain_user user_id token false)
        else generator (apply_trusted_repo_admin_header ctx r (plain_user user_id token false))

  -- `OptionalAccessToken`
  unfoldable pub optional_access_token : (UserInfo → M (Response A)) → M (Response A)
  unfolding optional_user
  optional_access_token generator =
      let token = get_access_token r in
      if str_eq token []
      then generator (plain_user [] [] false)
      else if ctx.main.shared_secret.enabled && str_eq token ctx.main.shared_secret.token
      then generator (shared_secret_user ctx r token)
      else (do t ← user_of_token token (get_appservice_user_id r); optional_user generator token t)

  -- The handler behind `RequireRepoAdmin`. An empty user ID is a panic.
  abbrev pub for_repo_admin : (UserInfo → M (Response A)) → UserInfo → M (Response A)
  for_repo_admin generator user =
      if str_eq user.user_id []
      then raise panicked
      else if not (is_repo_admin ctx user)
      then pure auth_failed
      else generator user

  -- `RequireRepoAdmin`
  unfoldable pub require_repo_admin : (UserInfo → M (Response A)) → M (Response A)
  unfolding require_access_token
  require_repo_admin generator = require_access_token (for_repo_admin generator) false

  -- `RequireServerAuth`
  unfoldable pub require_server_auth : M Str → (Str → M (Response A)) → M (Response A)
  require_server_auth validate_auth generator =
      handle validate_auth
        (λ e. pure (elim e [
          | no_xmatrix_auth ↦
              error_response (codes "M_UNAUTHORIZED") (codes "no auth provided (required)")
                (codes "M_MISSING_TOKEN")
          | wrong_destination ↦
              error_response (codes "M_UNAUTHORIZED")
                (codes "no auth provided for this destination (required)") (codes "M_BAD_REQUEST")
          | other ↦
              error_response (codes "M_FORBIDDEN") (codes "invalid auth provided (required)")
                (codes "M_BAD_REQUEST")
        ]))
        generator
