-- ===== src/Api/Routers/Admins.antt =====
-- Which users reach a handler behind the routers.
use matrix_media_repo.Prelude.{
  ◌≡◌, refl, Bool, true, false, not, ◌&&◌, [], inl, inr, Bool-cases, arith,
}
use matrix_media_repo.Prelude.Text.{Str, codes, str_eq}
use matrix_media_repo.Config.{Context}
use matrix_media_repo.Database.Rows.{Tables}
use matrix_media_repo.World.{M, CachedToken}
use matrix_media_repo.World.Keeps.{Keeps, pure-Keeps, if-Keeps, bind-Keeps}
use matrix_media_repo.Api.Request.{Request, Response, get_access_token, get_appservice_user_id}
use matrix_media_repo.Api.Meta.{UserInfo, is_repo_admin}
use matrix_media_repo.Api.Routers.{
  apply_trusted_repo_admin_header, plain_user, require_user, require_access_token,
  require_repo_admin, is_unexpected, has_error, for_repo_admin,
}

header-user_id :
    (ctx : Context) (r : Request) (user : UserInfo)
    → (apply_trusted_repo_admin_header ctx r user).user_id ≡ user.user_id
unfolding apply_trusted_repo_admin_header
header-user_id ctx r user = ground arith

module _ {A : Type 0} (P : Tables → Type 0) (user_of_token : Str → Str → M CachedToken)
    (ctx : Context) (r : Request) where
  -- The handler keeps the property for each user who has an ID.
  abbrev ForNamed : (UserInfo → M (Response A)) → Type 0
  ForNamed generator = (user : UserInfo) → str_eq user.user_id [] ≡ false → Keeps P (generator user)

  require_user-Keeps :
      (generator : UserInfo → M (Response A)) (allow_guests : Bool) (token : Str) (t : CachedToken)
      → ForNamed generator
      → Keeps P (require_user user_of_token ctx r generator allow_guests token t)
  unfolding require_user
  require_user-Keeps generator allow token t h =
      if-Keeps (t.is_guest && not allow) _ _ (pure-Keeps _) (
        if-Keeps (is_unexpected t.error) _ _ (pure-Keeps _) (
          if-Keeps (has_error t.error) _ _ (pure-Keeps _) (elim (Bool-cases (str_eq t.user_id [])) [
            | inl e ↦ rw e (pure-Keeps _)
            | inr e ↦ rw e (h _ (rw (header-user_id ctx r (plain_user t.user_id token false)) e))
          ])))

  named-Keeps :
      (generator : UserInfo → M (Response A)) (allow_guests : Bool)
      → ((token u : Str) → Keeps P (user_of_token token u))
      → ForNamed generator
      → Keeps P (require_access_token user_of_token ctx r generator allow_guests)
  unfolding require_access_token str_eq
  named-Keeps generator allow k h = if-Keeps (str_eq (get_access_token r) []) _ _ (pure-Keeps _) (
      if-Keeps _ _ _
        (h _ (
          rw (header-user_id ctx r (plain_user (codes "@sharedsecret") (get_access_token r) true))
            refl))
        (bind-Keeps _ _ (k (get_access_token r) (get_appservice_user_id r))
          (λ t. require_user-Keeps generator allow (get_access_token r) t h)))

-- Let the lookup of access tokens keep a property of the tables. Behind `RequireRepoAdmin` a handler
-- keeps it, whatever the request is, if it keeps it for each user who has an ID and is an admin of
-- the repo: for any other request the handler does not run.
pub require_repo_admin-admins_only :
    {A : Type 0} (P : Tables → Type 0) (user_of_token : Str → Str → M CachedToken) (ctx : Context)
    (r : Request) (generator : UserInfo → M (Response A))
    → ((token u : Str) → Keeps P (user_of_token token u))
    → ((user : UserInfo)
        → str_eq user.user_id [] ≡ false
        → is_repo_admin ctx user ≡ true
        → Keeps P (generator user))
    → Keeps P (require_repo_admin user_of_token ctx r generator)
unfolding require_repo_admin
require_repo_admin-admins_only P user_of_token ctx r generator k h =
    named-Keeps P user_of_token ctx r (for_repo_admin user_of_token ctx r generator) false k
      λ user named. elim (Bool-cases (is_repo_admin ctx user)) [
        | inl e ↦ rw (named, e) (h user named e)
        | inr e ↦ rw (named, e) (pure-Keeps _)
      ]
