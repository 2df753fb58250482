-- ===== src/Prelude/Lists.antt =====
-- Lists with Boolean tests, measured by native numbers; membership as a computed sum.
use Prim.Native.Nat.{ℕ, zero, suc, ◌+◌, ◌≤◌}
use mathlib.Core.Path.{◌≡◌, refl}
use mathlib.Core.Logic.{◌⊎◌, inl, inr}
use mathlib.Core.Bool.{Bool, true, false, ◌&&◌, ◌||◌}
use mathlib.Core.List.{List, [], ◌∷◌, ◌++◌, map}
use mathlib.Core.Option.{Option, none, some}
use native.Mathlib.Omega.{arith}
use matrix_media_repo.Prelude.Tests.{if◌then◌else◌, Bool-cases}

-- `a` stands in the list.
abbrev pub Contains : {A : Type 0} → A → List A → Type 0
Contains a [] = ⊥
Contains a (x ∷ xs) = (a ≡ x) ⊎ Contains a xs

abbrev pub All {ℓ κ} : {A : Type ℓ} → (A → Type κ) → List A → Type κ
All P [] = Unit
All P (x ∷ xs) = P x × All P xs

module _ {ℓ} {A : Type ℓ} where
  abbrev pub length : List A → ℕ
  length [] = 0
  length (x ∷ xs) = suc (length xs)

  pub length-append : (xs ys : List A) → length (xs ++ ys) ≡ length xs + length ys
  length-append [] ys = omega arith
  length-append (x ∷ xs) ys = omega (arith, length-append xs ys)

  abbrev pub filter : (A → Bool) → List A → List A
  filter p [] = []
  filter p (x ∷ xs) = if p x then x ∷ filter p xs else filter p xs

  abbrev pub any : (A → Bool) → List A → Bool
  any p [] = false
  any p (x ∷ xs) = p x || any p xs

  abbrev pub all : (A → Bool) → List A → Bool
  all p [] = true
  all p (x ∷ xs) = p x && all p xs

  abbrev pub take : ℕ → List A → List A
  take zero xs = []
  take (suc n) [] = []
  take (suc n) (x ∷ xs) = x ∷ take n xs

  abbrev pub drop : ℕ → List A → List A
  drop zero xs = xs
  drop (suc n) [] = []
  drop (suc n) (x ∷ xs) = drop n xs

  abbrev pub head? : List A → Option A
  head? [] = none
  head? (x ∷ xs) = some x

module _ {A : Type 0} (p : A → Bool) where
  pub Contains-filter :
      (a : A) (xs : List A) → Contains a (filter p xs) → Contains a xs × (p a ≡ true)
  Contains-filter a [] h = absurd h
  Contains-filter a (x ∷ xs) h = elim (Bool-cases (p x)) [
    | inl e ↦ ground (arith, Contains-filter a xs)
    | inr e ↦ ground (arith, Contains-filter a xs)
  ]

  pub filter-Contains :
      (a : A) (xs : List A) → Contains a xs → p a ≡ true → Contains a (filter p xs)
  filter-Contains a [] h e = absurd h
  filter-Contains a (x ∷ xs) h e = ground (arith, filter-Contains a xs)

  pub length-filter : (xs : List A) → length (filter p xs) ≤ length xs
  length-filter [] = omega arith
  length-filter (x ∷ xs) = ground (arith, length-filter xs)

  pub any-true : (xs : List A) → any p xs ≡ true → (a : A) × Contains a xs × (p a ≡ true)
  any-true [] h = absurd (ground arith)
  any-true (x ∷ xs) h = elim (Bool-cases (p x)) [
    | inl e ↦ (x, inl refl, e)
    | inr e ↦
        let rest : any p xs ≡ true = ground arith in
        let (a, m, t) = any-true xs rest in (a, inr m, t)
  ]

  pub any-Contains : (a : A) (xs : List A) → Contains a xs → p a ≡ true → any p xs ≡ true
  any-Contains a [] h e = absurd h
  any-Contains a (x ∷ xs) h e = ground (arith, any-Contains a xs)

  pub all-Contains : (a : A) (xs : List A) → all p xs ≡ true → Contains a xs → p a ≡ true
  all-Contains a [] h m = absurd m
  all-Contains a (x ∷ xs) h m = ground (arith, all-Contains a xs)

pub Contains-append :
    {A : Type 0} (a : A) (xs ys : List A) → Contains a (xs ++ ys) → Contains a xs ⊎ Contains a ys
Contains-append a [] ys h = inr h
Contains-append a (x ∷ xs) ys (inl e) = inl (inl e)
Contains-append a (x ∷ xs) ys (inr h) = elim (Contains-append a xs ys h) [
  | inl l ↦ inl (inr l)
  | inr r ↦ inr r
]

pub map-Contains :
    {A B : Type 0} (f : A → B) (y : B) (xs : List A)
    → Contains y (map f xs)
    → (x : A) × Contains x xs × (y ≡ f x)
map-Contains f y [] h = absurd h
map-Contains f y (x ∷ xs) (inl e) = (x, inl refl, e)
map-Contains f y (x ∷ xs) (inr h) = let (a, c, e) = map-Contains f y xs h in (a, inr c, e)
