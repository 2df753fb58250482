-- ===== src/Api/Meta.antt =====
-- api/_apimeta/auth.go: who makes a request, and as what.
use matrix_media_repo.Prelude.{Bool, true, false, not, ◌&&◌, ◌||◌, [], if◌then◌else◌}
use matrix_media_repo.Prelude.Text.{Str, str_eq}
use matrix_media_repo.Config.{Context, is_global_admin}
use matrix_media_repo.World.{M, pure, handle}
use matrix_media_repo.Matrix.{Homeservers, is_user_admin}
use matrix_media_repo.Api.Request.{Request}

pub record UserInfo : Type 0 where
  pub user_id : Str
  pub access_token : Str
  pub is_shared : Bool
  pub is_trusted_header_admin : Bool

pub record AuthContext : Type 0 where
  pub user : UserInfo
  pub server_name : Str

-- `IsAuthenticated`
abbrev pub is_authenticated : AuthContext → Bool
is_authenticated a = not (str_eq a.user.user_id []) || not (str_eq a.server_name [])

-- `IsRepoAdmin`
unfoldable pub is_repo_admin : Context → UserInfo → Bool
is_repo_admin ctx user =
    user.is_shared
    || (is_global_admin ctx user.user_id
        || (not (str_eq user.user_id []) && user.is_trusted_header_admin))

-- `RequestClaimsRepoAdmin`
unfoldable pub request_claims_repo_admin : Context → Request → Bool
request_claims_repo_admin ctx r =
    let cfg = ctx.main.trusted_admin_header in
    if not cfg.enabled || (str_eq cfg.header [] || str_eq cfg.value [])
    then false
    else str_eq (r.header cfg.header) cfg.value

-- `GetRequestUserAdminStatus`: an admin of the repo, and an admin of the homeserver.
unfoldable pub get_request_user_admin_status :
    Homeservers → Context → Request → UserInfo → M (Bool × Bool)
get_request_user_admin_status hs ctx r user =
    if is_repo_admin ctx user
    then pure (true, false)
    else handle (is_user_admin hs ctx r.host user.access_token) (λ e. pure (false, false))
        (λ is_local_admin. pure (false, is_local_admin))
