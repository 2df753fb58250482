-- ===== src/Common.antt =====
-- common/errors.go, with the other error values that the modelled code returns.
use matrix_media_repo.Prelude.{ℕ, Bool, true, false}
use matrix_media_repo.Prelude.Text.{Str}

-- `new` is `errors.New`; `external n` is the error of the n-th call of something outside the
-- program (the database server, an object store, the network). `response` is an error that a
-- homeserver answers with, by its code; `redirect` is `RedirectError` of datastores/. `panicked` is a
-- panic (a nil pointer that is read), which no handler catches.
pub data Error : Type 0 where
  media_not_found media_too_large invalid_host host_not_found host_not_allowed : Error
  media_quarantined quota_exceeded wrong_user expired already_uploaded : Error
  media_not_yet_uploaded media_dimensions_too_small rate_limit_exceeded restricted_auth : Error
  invalid_token guest_token : Error
  no_xmatrix_auth wrong_destination : Error
  conflict : Error
  new redirect server_not_allowed : Str → Error
  response : Str → Error
  panicked : Error
  external : ℕ → Error

-- Go's pair of a value and an error, of which the callers read one.
pub data Result (A : Type 0) : Type 0 where
  ok : A → Result A
  err : Error → Result A

abbrev pub is_panic : Error → Bool
is_panic panicked = true
is_panic _ = false
