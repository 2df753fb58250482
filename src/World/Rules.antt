-- ===== src/World/Rules.antt =====
-- Reasoning about handlers: what holds of the result and the world that a call leaves.
use matrix_media_repo.Prelude.{
  ℕ, Bool, true, false, if◌then◌else◌, Option, List, ap, Bool-cases, Option-cases, none, some, inl,
  inr, ◌≡◌, refl, arith,
}
use matrix_media_repo.Prelude.Text.{Str}
use matrix_media_repo.Common.{Error, Result, ok, err, is_panic}
use matrix_media_repo.Database.Rows.{Tables}
use matrix_media_repo.World.Monad.{
  World, M, pure, raise, ◌>>=◌, continue, query, exec, ask, tick, attempt, handle, lift, handled,
}

-- No call outside the program fails.
abbrev pub NoFaults : World → Type 0
NoFaults w = (n : ℕ) → w.env.fault n ≡ false

-- `Q` holds if the call returned a value, and `E` if it returned an error.
abbrev pub Holds :
    {A : Type 0} → (A → World → Type 0) → (Error → World → Type 0) → Result A → World → Type 0
Holds Q E (ok a) w = Q a w
Holds Q E (err e) w = E e w

pub record Post {A : Type 0} (Q : A → World → Type 0) (E : Error → World → Type 0)
    (p : Result A × World) : Type 0 where
  pub at : Holds Q E p.0 p.1

module _ {A B : Type 0} {Q : A → World → Type 0} {E : Error → World → Type 0}
    {R : B → World → Type 0} where
  pub Post-continue :
      (r : Result A) (f : A → M B) (w : World)
      → Holds Q E r w
      → ((a : A) (w' : World) → Q a w' → Post R E (f a w'))
      → Post R E (continue r f w)
  Post-continue (ok a) f w h k = k a w h
  Post-continue (err e) f w h k = record { at = h }

  pub Post-bind :
      (m : M A) (f : A → M B) (w : World)
      → Post Q E (m w)
      → ((a : A) (w' : World) → Q a w' → Post R E (f a w'))
      → Post R E ((m >>= f) w)
  Post-bind m f w h k = Post-continue (m w).0 f (m w).1 h.at k

module _ {A : Type 0} {Q : A → World → Type 0} {E : Error → World → Type 0} where
  pub Post-pure : (a : A) (w : World) → Q a w → Post Q E (pure a w)
  Post-pure a w h = record { at = h }

  pub Post-raise : (e : Error) (w : World) → E e w → Post Q E (raise {A = A} e w)
  Post-raise e w h = record { at = h }

  pub Post-weaken :
      (Q' : A → World → Type 0) (E' : Error → World → Type 0) (p : Result A × World)
      → Post Q E p
      → ((a : A) (w : World) → Q a w → Q' a w)
      → ((e : Error) (w : World) → E e w → E' e w)
      → Post Q' E' p
  Post-weaken Q' E' (ok a, w) h q e = record { at = q a w h.at }
  Post-weaken Q' E' (err x, w) h q e = record { at = e x w h.at }

-- A property of the world alone holds on both outcomes.
pub Post-both :
    {A : Type 0} (P : World → Type 0) (p : Result A × World)
    → P p.1
    → Post (λ a w. P w) (λ e w. P w) p
Post-both P (ok a, w) h = record { at = h }
Post-both P (err e, w) h = record { at = h }

-- Nothing is said of a call.
pub any_Post : {A : Type 0} (p : Result A × World) → Post (λ a w. Unit {0}) (λ e w. Unit {0}) p
any_Post p = Post-both (λ w. Unit) p tt

pub lift-Post :
    {A : Type 0} (r : Result A) (w : World) → Post (λ a w'. r ≡ ok a) (λ e w'. Unit {0}) (lift r w)
lift-Post (ok a) w = record { at = refl }
lift-Post (err e) w = record { at = tt }

Holds-world :
    {A : Type 0} (P : World → Type 0) (r : Result A) {w : World}
    → Holds (λ a w. P w) (λ e w. P w) r w
    → P w
Holds-world P (ok a) h = h
Holds-world P (err e) h = h

pub Post-world :
    {A : Type 0} {P : World → Type 0} {p : Result A × World}
    → Post (λ a w. P w) (λ e w. P w) p
    → P p.1
Post-world {P = P} {p = p} h = Holds-world P p.0 h.at

-- The tables and the removals are those given.
pub record Kept (db : Tables) (rem : List (Str × Str)) (w : World) : Type 0 where
  pub db_kept : w.db ≡ db
  pub removed_kept : w.removed ≡ rem

-- A SELECT returns its value at the tables, or fails, and changes neither.
pub query_lem :
    {A : Type 0} (f : Tables → A) {db : Tables} {rem : List (Str × Str)} (w : World)
    → Kept db rem w
    → Post (λ a w'. (a ≡ f db) × Kept db rem w') (λ e w'. Kept db rem w') (query f w)
unfolding query
query_lem f w k = elim (Bool-cases (w.env.fault w.calls)) [
  | inl e ↦ rw e (record { at = record { db_kept = k.db_kept; removed_kept = k.removed_kept } })
  | inr e ↦ rw e (record {
    at = (ap f k.db_kept, record { db_kept = k.db_kept; removed_kept = k.removed_kept });
  })
]

-- No statement removes an object.
pub removed-exec : (f : Tables → Option Tables) (w : World) → (exec f w).1.removed ≡ w.removed
unfolding exec
removed-exec f w = ground arith

-- A SELECT that the database answers.
pub query-ok :
    {A : Type 0} (f : Tables → A) (w : World) → NoFaults w → query f w ≡ (ok (f w.db), tick w)
unfolding query
query-ok f w nf = rw (nf w.calls)

-- An INSERT, UPDATE or DELETE commits what it computes, or fails and changes nothing.
pub exec_lem :
    (f : Tables → Option Tables) (w : World)
    → Post
        (λ u w'. (db : Tables) × (f w.db ≡ some db) × (w' ≡ tick (record w { db = db })))
        (λ e w'. w' ≡ tick w)
        (exec f w)
unfolding exec
exec_lem f w = elim (Bool-cases (w.env.fault w.calls)) [
  | inl e ↦ rw e (record { at = refl })
  | inr e ↦ elim (Option-cases (f w.db)) [
    | inl n ↦ rw (e, n) (record { at = refl })
    | inr (db, s) ↦ rw (e, s) (record { at = (db, refl, refl) })
  ]
]

-- A call that changes nothing here.
pub ask_lem :
    {A : Type 0} (f : World → A) (w : World)
    → Post (λ a w'. (a ≡ f w) × (w' ≡ tick w)) (λ e w'. w' ≡ tick w) (ask f w)
unfolding ask
ask_lem f w = elim (Bool-cases (w.env.fault w.calls)) [
  | inl e ↦ rw e (record { at = refl })
  | inr e ↦ rw e (record { at = (refl, refl) })
]

-- A call whose error is dropped: what holds on either outcome holds of the option.
attempted-Post :
    {A : Type 0} {Q : A → World → Type 0} {E : Error → World → Type 0}
    (R : Option A → World → Type 0) (F : Error → World → Type 0) (p : Result A × World)
    → Post Q E p
    → ((a : A) (w : World) → Q a w → R (some a) w)
    → ((e : Error) (w : World) → E e w → R none w)
    → Post R F (elim p.0 as (λ r. Result (Option A)) [ ok a ↦ ok (some a) | err e ↦ ok none ], p.1)
attempted-Post R F (ok a, w) h q e = record { at = q a w h.at }
attempted-Post R F (err x, w) h q e = record { at = e x w h.at }

pub Post-attempt :
    {A : Type 0} {Q : A → World → Type 0} {E : Error → World → Type 0}
    (R : Option A → World → Type 0) (F : Error → World → Type 0) (m : M A) (w : World)
    → Post Q E (m w)
    → ((a : A) (w : World) → Q a w → R (some a) w)
    → ((e : Error) (w : World) → E e w → R none w)
    → Post R F (attempt m w)
Post-attempt R F m w h q e = attempted-Post R F (m w) h q e

-- The branch that the test takes.
pub Post-if :
    {A : Type 0} {Q : A → World → Type 0} {E : Error → World → Type 0} (b : Bool) (m m' : M A)
    (w : World)
    → (b ≡ true → Post Q E (m w))
    → (b ≡ false → Post Q E (m' w))
    → Post Q E ((if b then m else m') w)
Post-if b m m' w h h' = elim (Bool-cases b) [ inl e ↦ rw e (h e) | inr e ↦ rw e (h' e) ]

-- A call whose error is the caller's to deal with, unless it is a panic.
module _ {A B : Type 0} {Q : A → World → Type 0} {E F : Error → World → Type 0}
    {R : B → World → Type 0} where
  handled-Post :
      (r : Result A) (on_error : Error → M B) (next : A → M B) (w : World)
      → Holds Q E r w
      → ((a : A) (w' : World) → Q a w' → Post R F (next a w'))
      → ((e : Error) (w' : World) → E e w' → F e w' × Post R F (on_error e w'))
      → Post R F (handled r on_error next w)
  handled-Post (ok a) on_error next w h k ke = k a w h
  handled-Post (err e) on_error next w h k ke = elim (Bool-cases (is_panic e)) [
    | inl f ↦ rw f (record { at = (ke e w h).0 })
    | inr f ↦ rw f (ke e w h).1
  ]

  pub Post-handle :
      (m : M A) (on_error : Error → M B) (next : A → M B) (w : World)
      → Post Q E (m w)
      → ((a : A) (w' : World) → Q a w' → Post R F (next a w'))
      → ((e : Error) (w' : World) → E e w' → F e w' × Post R F (on_error e w'))
      → Post R F (handle m on_error next w)
  Post-handle m on_error next w h k ke = handled-Post (m w).0 on_error next (m w).1 h.at k ke
