-- ===== src/Api/AuthCache.antt =====
-- api/_auth_cache/auth_cache.go: the users behind access tokens, kept for some time. A token that
-- the cache (github.com/patrickmn/go-cache) has dropped for its age is not found. The regular
-- expressions of the appservices are matched by `matches`, for Go's regexp.
pub mod Keys
pub mod Answers
use matrix_media_repo.Prelude.{
  ℕ, Bool, true, false, not, ◌&&◌, ◌||◌, Option, none, some, List, [], ◌∷◌, ◌++◌, filter, any,
  if◌then◌else◌,
}
use matrix_media_repo.Prelude.Int.{ℤ, pos, leb_ℤ}
use matrix_media_repo.Prelude.Text.{Str, codes, str_eq}
use matrix_media_repo.Prelude.Keys.{Map, lookup, insert, str_key}
use matrix_media_repo.Common.{Error, Result, ok, err, invalid_token, new}
use matrix_media_repo.Config.{Context, AppserviceConfig}
use matrix_media_repo.World.{World, M, pure, handle, tick, CachedToken, ◌>>=◌, ◌>>◌}
use matrix_media_repo.Matrix.{Homeservers, get_user_id_from_token, logout, logout_all}
use matrix_media_repo.Api.Request.{Request}

-- `cacheKey`
unfoldable pub cache_key : Str → Str → Str
cache_key access_token appservice_user_id =
    codes "@@"
    ++ (access_token
        ++ (codes "@@"
            ++ (if str_eq appservice_user_id [] then codes "__NOOP__" else appservice_user_id)))

-- `tokenCache.Get`
unfoldable pub cache_get : Str → M (Option CachedToken)
cache_get key w = (ok (if w.env.is_stale w.calls then none else lookup key w.token_cache), tick w)

-- `tokenCache.Set`
unfoldable pub cache_set : Str → CachedToken → M (Unit {0})
cache_set key v w = (ok tt, record w { token_cache = insert key v w.token_cache })

abbrev pub delete_key : Str → Map Str CachedToken → Map Str CachedToken
delete_key key = filter (λ (e : Str × CachedToken). not (str_eq e.0 key))

-- `tokenCache.Delete`
unfoldable pub cache_delete : Str → M (Unit {0})
cache_delete key w = (ok tt, record w { token_cache = delete_key key w.token_cache })

-- `FlushCache`
unfoldable pub flush_cache : M (Unit {0})
flush_cache w = (ok tt, record w { token_cache = [] })

abbrev pub found : Str → Bool → CachedToken
found user_id is_guest = record { user_id = user_id; is_guest = is_guest; error = none }

abbrev pub failed : Error → CachedToken
failed e = record { user_id = []; is_guest = false; error = some e }

-- What `GetUserId` returns of a record of the cache.
abbrev pub of_record : CachedToken → CachedToken
of_record t = elim t.error [ none ↦ found t.user_id t.is_guest | some e ↦ failed e ]

module _ (matches : Str → Str → Bool) (hs : Homeservers) (ctx : Context) (r : Request) where
  -- `cacheToken`
  unfoldable pub cache_token : Str → Str → CachedToken → M (Unit {0})
  unfolding cache_set
  cache_token access_token appservice_user_id v =
      cache_set (cache_key access_token appservice_user_id) v

  abbrev pub keep : Bool → Str → Str → CachedToken → M CachedToken
  keep with_cache access_token appservice_user_id v =
      if with_cache then (do cache_token access_token appservice_user_id v; pure v) else pure v

  -- `checkTokenWithHomeserver`
  unfoldable pub check_token_with_homeserver : Str → Str → Bool → M CachedToken
  unfolding cache_token
  check_token_with_homeserver access_token appservice_user_id with_cache =
      handle (get_user_id_from_token hs ctx r.host access_token appservice_user_id)
        (λ e. keep with_cache access_token appservice_user_id (failed e))
        (λ p. keep with_cache access_token appservice_user_id (found p.0 p.1))

  abbrev is_sender : AppserviceConfig → Str → Bool
  is_sender a appservice_user_id =
      not (str_eq a.sender_user_id [])
      && (str_eq a.sender_user_id appservice_user_id || str_eq appservice_user_id [])

  -- The user that the first appservice with the token stands for.
  unfoldable pub appservice_user : List AppserviceConfig → Str → Str → Option Str
  appservice_user [] access_token appservice_user_id = none
  appservice_user (a ∷ services) access_token appservice_user_id =
      let rest = appservice_user services access_token appservice_user_id in
      if not (str_eq a.appservice_token access_token)
      then rest
      else if is_sender a appservice_user_id
      then some a.sender_user_id
      else if any (λ n. matches n appservice_user_id) a.user_namespaces
      then some appservice_user_id
      else rest

  -- `GetUserId` where the cache has nothing.
  unfoldable pub get_uncached : Str → Str → M CachedToken
  unfolding check_token_with_homeserver appservice_user
  get_uncached access_token appservice_user_id =
      let check = check_token_with_homeserver access_token appservice_user_id true in
      if not ctx.domain.access_tokens.use_appservices
      then check
      else elim (appservice_user ctx.domain.access_tokens.appservices access_token
          appservice_user_id) [
            | none ↦ check
            | some user_id ↦ keep true access_token appservice_user_id (found user_id false)
          ]

  -- `GetUserId`
  unfoldable pub get_user_id : Str → Str → M CachedToken
  unfolding get_uncached cache_get check_token_with_homeserver
  get_user_id access_token appservice_user_id =
      if str_eq access_token []
      then pure (failed invalid_token)
      else if leb_ℤ ctx.domain.access_tokens.max_cache_time_seconds (pos 0)
      then check_token_with_homeserver access_token appservice_user_id false
      else (do
        cached ← cache_get (cache_key access_token appservice_user_id)
        elim cached [
          | some t ↦ pure (of_record t)
          | none ↦ get_uncached access_token appservice_user_id
        ])

  -- `InvalidateToken`
  unfoldable pub invalidate_token : Str → Str → M (Unit {0})
  unfolding cache_delete
  invalidate_token access_token appservice_user_id = do
    logout hs ctx r.host access_token appservice_user_id
    cache_delete (cache_key access_token appservice_user_id)
    cache_delete (cache_key access_token [])

  -- `InvalidateAllTokens`
  unfoldable pub invalidate_all_tokens : Str → Str → M (Unit {0})
  unfolding flush_cache
  invalidate_all_tokens access_token appservice_user_id = do
    logout_all hs ctx r.host access_token appservice_user_id
    flush_cache
