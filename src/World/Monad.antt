-- ===== src/World/Monad.antt =====
-- State passing with errors, and the calls that leave the program.
use matrix_media_repo.Prelude.{ℕ, suc, Bool, Option, none, some, List, ◌∷◌, if◌then◌else◌}
use matrix_media_repo.Prelude.Int.{ℤ}
use matrix_media_repo.Prelude.Text.{Str}
use matrix_media_repo.Prelude.Keys.{Map}
use matrix_media_repo.Common.{Error, Result, ok, err, external, conflict, is_panic}
use matrix_media_repo.Database.Rows.{Tables}

-- What the program does not decide. Every call that leaves it has a number, and the outcome is a
-- function of that number: whether the call fails and whether that is for want of the file, what the clock
-- shows, which random text is drawn, what a spam checker says, and the size that an object store
-- reports for what was put, and whether a cache entry that is read has expired.
pub record Env : Type 0 where
  pub fault : ℕ → Bool
  pub not_exist : ℕ → Bool
  pub clock : ℕ → ℤ
  pub random : ℕ → Str
  pub is_spam : ℕ → Bool
  pub put_size : ℕ → ℤ
  pub is_stale : ℕ → Bool

-- An answer of the homeserver about an access token: a user, or an error.
pub record CachedToken : Type 0 where
  pub user_id : Str
  pub is_guest : Bool
  pub error : Option Error

pub record World : Type 0 where
  pub db : Tables
  pub stored : List (Str × Str)
  pub removed : List (Str × Str)
  pub token_cache : Map Str CachedToken
  pub download_errors : Map Str Error
  pub calls : ℕ
  pub env : Env

abbrev pub M : Type 0 → Type 0
M A = World → Result A × World

module _ {A : Type 0} where
  abbrev pub pure : A → M A
  pure a w = (ok a, w)

  abbrev pub raise : Error → M A
  raise e w = (err e, w)

-- What follows a result: the rest of the handler, or the early return of its error.
abbrev pub continue : {A B : Type 0} → Result A → (A → M B) → M B
continue (ok a) f w = f a w
continue (err e) f w = (err e, w)

infixl 5 ◌>>=◌ ◌>>◌
abbrev pub ◌>>=◌ : {A B : Type 0} → M A → (A → M B) → M B
◌>>=◌ m f w = let (r, w') = m w in continue r f w'

abbrev pub ◌>>◌ : {A B : Type 0} → M A → M B → M B
m >> k = m >>= λ _. k

abbrev pub raise_if : Bool → Error → M (Unit {0})
raise_if b e w = (if b then err e else ok tt, w)

abbrev pub tick : World → World
tick w = record w { calls = suc w.calls }

-- A call to the outside that changes nothing here: the value of `f` at the world, or an error.
unfoldable pub ask : {A : Type 0} → (World → A) → M A
ask f w = (if w.env.fault w.calls then err (external w.calls) else ok (f w), tick w)

-- A SELECT.
unfoldable pub query : {A : Type 0} → (Tables → A) → M A
unfolding ask
query f = ask (λ w. f w.db)

-- What an INSERT, UPDATE or DELETE leaves: nothing if a unique index refuses it.
abbrev commit : Option Tables → World → Result (Unit {0}) × World
commit none w = (err conflict, tick w)
commit (some db) w = (ok tt, tick (record w { db = db }))

-- An INSERT, UPDATE or DELETE. A statement that fails changes nothing.
unfoldable pub exec : (Tables → Option Tables) → M (Unit {0})
exec f w = if w.env.fault w.calls then (err (external w.calls), tick w) else commit (f w.db) w

-- `util.NowMillis`.
unfoldable pub now_millis : M ℤ
now_millis w = (ok (w.env.clock w.calls), tick w)

-- An error that the caller logs and drops.
abbrev pub ignore_error : M (Unit {0}) → M (Unit {0})
ignore_error m w = let (r, w') = m w in (ok tt, w')

-- The datastore accepts the removal of an object, or fails and keeps it.
unfoldable pub remove_object : Str → Str → M (Unit {0})
remove_object ds location w =
    if w.env.fault w.calls
    then (err (external w.calls), tick w)
    else (ok tt, tick (record w { removed = (ds, location) ∷ w.removed }))

-- `os.Remove` of an object's file: a file that is not there counts as removed.
unfoldable pub os_remove : Str → Str → M (Unit {0})
os_remove ds location w =
    if w.env.fault w.calls
    then (if w.env.not_exist w.calls then ok tt else err (external w.calls), tick w)
    else (ok tt, tick (record w { removed = (ds, location) ∷ w.removed }))

-- The datastore takes an object and reports its size.
unfoldable pub put_object : Str → Str → M ℤ
put_object ds location w =
    if w.env.fault w.calls
    then (err (external w.calls), tick w)
    else (ok (w.env.put_size w.calls), tick (record w { stored = (ds, location) ∷ w.stored }))

-- The value of a call whose error is dropped, and what stands in its place.
abbrev pub or_else : {A : Type 0} → M A → A → M A
or_else m a w = let (r, w') = m w in (elim r [ ok b ↦ ok b | err e ↦ ok a ], w')

-- A call whose error is dropped.
abbrev pub attempt : {A : Type 0} → M A → M (Option A)
attempt m w = let (r, w') = m w in (elim r [ ok a ↦ ok (some a) | err e ↦ ok none ], w')

-- A result of a pure function.
abbrev pub lift : {A : Type 0} → Result A → M A
lift r w = (r, w)

-- `if err != nil { ... }`: the caller's own way on with an error. A panic goes past it.
abbrev pub handled : {A B : Type 0} → Result A → (Error → M B) → (A → M B) → M B
handled (ok a) on_error next = next a
handled (err e) on_error next = if is_panic e then raise e else on_error e

abbrev pub handle : {A B : Type 0} → M A → (Error → M B) → (A → M B) → M B
handle m on_error next w = let (r, w') = m w in handled r on_error next w'
