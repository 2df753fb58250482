-- ===== src/Matrix.antt =====
-- matrix/breakers.go, errors.go, requests_admin.go and requests_auth.go: calls of a homeserver. The
-- circuit breaker (github.com/rubyist/circuitbreaker) either refuses a call, or runs it and returns
-- its error.
pub mod Unchanged
pub mod XMatrix
use matrix_media_repo.Prelude.{
  ℕ, Bool, true, false, ◌||◌, Option, none, some, List, [], if◌then◌else◌,
}
use matrix_media_repo.Prelude.Text.{Str, codes, str_eq}
use matrix_media_repo.Common.{
  Error, Result, ok, err, external, response, invalid_token, guest_token, panicked, new,
}
use matrix_media_repo.Config.{Context, is_server_ours}
use matrix_media_repo.World.{World, M, pure, raise, tick, ◌>>=◌, ◌>>◌}

-- What comes back of a request: the decoded body of a 200, the `errcode` of an error, or neither.
pub data Reply (A : Type 0) : Type 0 where
  answered : A → Reply A
  refused : Str → Reply A
  unreadable : Reply A

pub record UserIdResponse : Type 0 where
  pub user_id : Str
  pub is_guest : Bool
  pub is_guest2 : Bool

pub record MediaListResponse : Type 0 where
  pub local_mxcs : List Str
  pub remote_mxcs : List Str

-- The homeservers: what the n-th call brings back, given the server, the access token and the user
-- or the room that it is about.
pub record Homeservers : Type 0 where
  pub whoami : ℕ → Str → Str → Str → Reply UserIdResponse
  pub whois : ℕ → Str → Str → Reply (Unit {0})
  pub room_media : ℕ → Str → Str → Str → Reply MediaListResponse
  pub logout : ℕ → Str → Str → Str → Reply (Unit {0})
  pub logout_all : ℕ → Str → Str → Str → Reply (Unit {0})

abbrev outcome : {A : Type 0} → ℕ → Reply A → Result A
outcome n (answered a) = ok a
outcome n (refused code) = err (response code)
outcome n unreadable = err (external n)

-- `doRequest`
unfoldable pub do_request : {A : Type 0} → (ℕ → Reply A) → M A
do_request reply w = (outcome w.calls (reply w.calls), tick w)

-- `filterError`: the error for the breaker, and the error for the caller.
unfoldable pub filter_error : Error → Option Error × Option Error
filter_error e = elim e [
  | response code ↦
      if str_eq code (codes "M_UNKNOWN_TOKEN")
      then (none, some invalid_token)
      else if str_eq code (codes "M_GUEST_ACCESS_FORBIDDEN")
      then (none, some guest_token)
      else (some (response code), some (response code))
  | other ↦ (some other, some other)
]

-- `getBreakerAndConfig`: the options of a server that is not ours are nil, and are read.
unfoldable pub get_breaker_and_config : Context → Str → M (Unit {0})
get_breaker_and_config ctx server = if is_server_ours ctx server then pure tt else raise panicked

-- `cb.CallContext`
unfoldable pub call_context : {A : Type 0} → M A → M A
call_context m w = if w.env.fault w.calls then (err (external w.calls), tick w) else m (tick w)

-- A callback whose filtered error is what it returns: the value that was there stays where that is
-- nil.
abbrev filtered : {A : Type 0} → A → Result A → M A
filtered a (ok b) = pure b
filtered a (err e) = elim ((filter_error e).0) [ none ↦ pure a | some e' ↦ raise e' ]

abbrev pub with_filter : {A : Type 0} → A → M A → M A
with_filter a m w = let (r, w') = m w in filtered a r w'

-- The error for the caller comes first.
abbrev auth_error : {A : Type 0} → Result A → M A
auth_error (ok a) = pure a
auth_error (err e) = elim ((filter_error e).1) [ none ↦ raise e | some e' ↦ raise e' ]

abbrev with_auth_error : {A : Type 0} → M A → M A
with_auth_error m w = let (r, w') = m w in auth_error r w'

module _ (hs : Homeservers) (ctx : Context) where
  -- `doBreakerRequest`
  unfoldable pub do_breaker_request : {A : Type 0} → Str → (ℕ → Reply A) → M A
  do_breaker_request server reply = do
    get_breaker_and_config ctx server
    call_context (with_auth_error (do_request reply))

  -- `GetUserIdFromToken`
  unfoldable pub get_user_id_from_token : Str → Str → Str → M (Str × Bool)
  unfolding do_breaker_request
  get_user_id_from_token server access_token appservice_user_id = do
    r ← do_breaker_request server (λ n. hs.whoami n server access_token appservice_user_id)
    pure (r.user_id, r.is_guest || r.is_guest2)

  -- `Logout`
  unfoldable pub logout : Str → Str → Str → M (Unit {0})
  logout server access_token appservice_user_id =
      do_breaker_request server (λ n. hs.logout n server access_token appservice_user_id)

  -- `LogoutAll`
  unfoldable pub logout_all : Str → Str → Str → M (Unit {0})
  logout_all server access_token appservice_user_id =
      do_breaker_request server (λ n. hs.logout_all n server access_token appservice_user_id)

  -- `IsUserAdmin`: the error that the callback sets is overwritten by what the breaker returns.
  unfoldable pub is_user_admin : Str → Str → M Bool
  is_user_admin server access_token = do
    get_breaker_and_config ctx server
    call_context
        (with_filter false (do do_request (λ n. hs.whois n server access_token); pure true))

  abbrev no_media : MediaListResponse
  no_media = record { local_mxcs = []; remote_mxcs = [] }

  -- The callback of `ListMedia`.
  abbrev list_media_call : Str → Str → Str → M MediaListResponse
  list_media_call server access_token room_id =
      if str_eq (ctx.main.admin_api_kind server) (codes "synapse")
      then with_filter no_media (do_request (λ n. hs.room_media n server access_token room_id))
      else if str_eq (ctx.main.admin_api_kind server) (codes "dendrite")
      then raise (new (codes "this function is not supported when backed by Dendrite"))
      else raise
          (new (codes "unable to query media for homeserver: wrong or incompatible adminApiKind"))

  -- `ListMedia`
  unfoldable pub list_media : Str → Str → Str → M MediaListResponse
  list_media server access_token room_id = do
    get_breaker_and_config ctx server
    call_context (list_media_call server access_token room_id)
