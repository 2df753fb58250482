-- ===== src/Prelude/Keys.antt =====
-- Keys with a Boolean equality, and Go's maps over them as association lists.
use matrix_media_repo.Prelude.Tests.{if◌then◌else◌}
use matrix_media_repo.Prelude.Text.{Str, str_eq, str_eq_iff}
use mathlib.Core.Path.{◌≡◌, refl}
use mathlib.Core.Logic.{◌↔◌}
use mathlib.Core.Bool.{Bool, true, ◌&&◌}
use mathlib.Core.Option.{Option, none, some}
use mathlib.Core.List.{List, [], ◌∷◌}
use native.Mathlib.Omega.{arith}

pub record Eq (K : Type 0) : Type 0 where
  pub beq : K → K → Bool
  pub beq_iff : (a b : K) → (beq a b ≡ true) ↔ (a ≡ b)

instance abbrev pub str_key : Eq Str
str_key = record { beq = str_eq; beq_iff = str_eq_iff }

-- Pairs of strings: a datastore and a location, or an origin and a media ID.
abbrev pub pair_eq : Str × Str → Str × Str → Bool
pair_eq p q = str_eq p.0 q.0 && str_eq p.1 q.1

pub pair_eq_iff : (p q : Str × Str) → (pair_eq p q ≡ true) ↔ (p ≡ q)
pair_eq_iff (a, b) (c, d) = ground (arith, str_eq_iff a c, str_eq_iff b d)

instance abbrev pub pair_key : Eq (Str × Str)
pair_key = record { beq = pair_eq; beq_iff = pair_eq_iff }

-- Go's `map[K]V`. Its iteration order is never relied on.
abbrev pub Map : Type 0 → Type 0 → Type 0
Map K V = List (K × V)

module _ {K V : Type 0} ⦃e : Eq K⦄ where
  -- `v, ok := m[k]`
  unfoldable pub lookup : K → Map K V → Option V
  lookup k [] = none
  lookup k ((j, v) ∷ m) = if e.beq j k then some v else lookup k m

  -- `m[k] = v`
  unfoldable pub insert : K → V → Map K V → Map K V
  insert k v [] = (k, v) ∷ []
  insert k v ((j, w) ∷ m) = if e.beq j k then (k, v) ∷ m else (j, w) ∷ insert k v m

  pub lookup-insert :
      (k j : K) (v : V) (m : Map K V)
      → lookup j (insert k v m) ≡ (if e.beq k j then some v else lookup j m)
  unfolding lookup insert
  lookup-insert k j v [] = refl
  lookup-insert k j v ((i, w) ∷ m) =
      ground (arith, e.beq_iff k j, e.beq_iff i k, e.beq_iff i j, lookup-insert k j v m)

  pub lookup-insert_self : (k : K) (v : V) (m : Map K V) → lookup k (insert k v m) ≡ some v
  lookup-insert_self k v m = ground (arith, lookup-insert k k v m, e.beq_iff k k)
