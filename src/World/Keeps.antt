-- ===== src/World/Keeps.antt =====
-- Properties of the tables that a call leaves as they were, whatever its outcome.
use matrix_media_repo.Prelude.{
  ◌≡◌, Bool, Option, some, inl, inr, Bool-cases, Option-cases, if◌then◌else◌,
}
use matrix_media_repo.Common.{Error, Result, ok, err, is_panic}
use matrix_media_repo.Database.Rows.{Tables}
use matrix_media_repo.World.Monad.{
  World, M, pure, raise, ◌>>=◌, continue, query, exec, ask, now_millis, handle, handled,
}
use matrix_media_repo.World.Rules.{Post, Holds}

-- The call keeps the property of the tables.
pub record Keeps (P : Tables → Type 0) {A : Type 0} (m : M A) : Type 0 where
  pub at : (w : World) → P w.db → P (m w).1.db

module _ {P : Tables → Type 0} {A : Type 0} where
  pub pure-Keeps : (a : A) → Keeps P (pure a)
  pure-Keeps a = record { at = λ w p. p }

  pub raise-Keeps : (e : Error) → Keeps P (raise {A = A} e)
  raise-Keeps e = record { at = λ w p. p }

  pub if-Keeps : (b : Bool) (m m' : M A) → Keeps P m → Keeps P m' → Keeps P (if b then m else m')
  if-Keeps b m m' h h' = elim (Bool-cases b) [ inl e ↦ rw e h | inr e ↦ rw e h' ]

  pub ask-Keeps : (f : World → A) → Keeps P (ask f)
  unfolding ask
  ask-Keeps f = record { at = λ w p. p }

  pub query-Keeps : (f : Tables → A) → Keeps P (query f)
  unfolding query ask
  query-Keeps f = record { at = λ w p. p }

module _ {P : Tables → Type 0} {A B : Type 0} where
  continue-Keeps : (r : Result A) (f : A → M B) → ((a : A) → Keeps P (f a)) → Keeps P (continue r f)
  continue-Keeps (ok a) f k = record { at = (k a).at }
  continue-Keeps (err e) f k = record { at = λ w p. p }

  pub bind-Keeps :
      (m : M A) (f : A → M B) → Keeps P m → ((a : A) → Keeps P (f a)) → Keeps P (m >>= f)
  bind-Keeps m f h k = record { at = λ w p. (continue-Keeps (m w).0 f k).at (m w).1 (h.at w p) }

  handled-Keeps :
      (r : Result A) (on_error : Error → M B) (next : A → M B)
      → ((e : Error) → Keeps P (on_error e))
      → ((a : A) → Keeps P (next a))
      → Keeps P (handled r on_error next)
  handled-Keeps (ok a) on_error next ke kn = record { at = (kn a).at }
  handled-Keeps (err e) on_error next ke kn = if-Keeps (is_panic e) _ _ (raise-Keeps e) (ke e)

  pub handle-Keeps :
      (m : M A) (on_error : Error → M B) (next : A → M B)
      → Keeps P m
      → ((e : Error) → Keeps P (on_error e))
      → ((a : A) → Keeps P (next a))
      → Keeps P (handle m on_error next)
  handle-Keeps m on_error next h ke kn = record {
    at = λ w p. (handled-Keeps (m w).0 on_error next ke kn).at (m w).1 (h.at w p);
  }

pub now_millis-Keeps : {P : Tables → Type 0} → Keeps P now_millis
unfolding now_millis
now_millis-Keeps = record { at = λ w p. p }

pub exec-Keeps :
    {P : Tables → Type 0} (f : Tables → Option Tables)
    → ((db db' : Tables) → P db → f db ≡ some db' → P db')
    → Keeps P (exec f)
unfolding exec
exec-Keeps f k = record {
  at = λ w p. elim (Bool-cases (w.env.fault w.calls)) [
    | inl e ↦ rw e p
    | inr e ↦ elim (Option-cases (f w.db)) [
      | inl n ↦ rw (e, n) p
      | inr (db, s) ↦ rw (e, s) (k w.db db p s)
    ]
  ];
}

-- A statement that no index refuses.
pub write-Keeps :
    {P : Tables → Type 0} (f : Tables → Tables)
    → ((db : Tables) → P db → P (f db))
    → Keeps P (exec (λ t. some (f t)))
unfolding exec
write-Keeps f k = record {
  at = λ w p. elim (Bool-cases (w.env.fault w.calls)) [ inl e ↦ rw e p | inr e ↦ rw e (k w.db p) ];
}

module _ {A B : Type 0} {Q : A → World → Type 0} {E : Error → World → Type 0} where
  continue-keeps :
      (P : World → Type 0) (r : Result A) (f : A → M B) (w : World)
      → Holds Q E r w
      → ((a : A) (w' : World) → Q a w' → P (f a w').1)
      → ((e : Error) (w' : World) → E e w' → P w')
      → P (continue r f w).1
  continue-keeps P (ok a) f w h k ke = k a w h
  continue-keeps P (err e) f w h k ke = ke e w h

  -- A call that is known to return a value with a property.
  pub bind-keeps :
      (P : World → Type 0) (m : M A) (f : A → M B) (w : World)
      → Post Q E (m w)
      → ((a : A) (w' : World) → Q a w' → P (f a w').1)
      → ((e : Error) (w' : World) → E e w' → P w')
      → P ((m >>= f) w).1
  bind-keeps P m f w h k ke = continue-keeps P (m w).0 f (m w).1 h.at k ke

  handled-keeps :
      (P : World → Type 0) (r : Result A) (on_error : Error → M B) (next : A → M B) (w : World)
      → Holds Q E r w
      → ((a : A) (w' : World) → Q a w' → P (next a w').1)
      → ((e : Error) (w' : World) → E e w' → P w' × P (on_error e w').1)
      → P (handled r on_error next w).1
  handled-keeps P (ok a) on_error next w h k ke = k a w h
  handled-keeps P (err e) on_error next w h k ke = elim (Bool-cases (is_panic e)) [
    | inl f ↦ rw f (ke e w h).0
    | inr f ↦ rw f (ke e w h).1
  ]

  pub handle-keeps :
      (P : World → Type 0) (m : M A) (on_error : Error → M B) (next : A → M B) (w : World)
      → Post Q E (m w)
      → ((a : A) (w' : World) → Q a w' → P (next a w').1)
      → ((e : Error) (w' : World) → E e w' → P w' × P (on_error e w').1)
      → P (handle m on_error next w).1
  handle-keeps P m on_error next w h k ke = handled-keeps P (m w).0 on_error next (m w).1 h.at k ke
