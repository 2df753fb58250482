-- ===== src/Thumbnails/Sizes.antt =====
-- The sizes that `PickNewDimensions` (pipelines/_steps/thumbnails/pick_dimensions.go) picks.
use mathlib.Core.Path.{subst}
use matrix_media_repo.Prelude.{
  ◌≡◌, refl, true, false, Option, none, some, List, [], ◌∷◌, Contains, inl, inr, Bool-cases, arith,
  ap, sym,
}
use matrix_media_repo.Prelude.Int.{ℤ, pos, eqb_ℤ, leb_ℤ}
use matrix_media_repo.Prelude.Text.{codes, str_eq}
use matrix_media_repo.Common.{ok}
use matrix_media_repo.Config.{Context, ThumbnailSize}
use matrix_media_repo.Thumbnails.{
  Float32, Search, is_exact, covers, is_better, look_at, search, nothing_found, finish_search,
  pick_new_dimensions,
}

module _ (dw dh : ℤ) (sizes : List ThumbnailSize) where
  -- A pair of dimensions is those of a configured size that is large enough.
  abbrev pub IsListed : ℤ → ℤ → Type 0
  IsListed w h =
      (x : ThumbnailSize) × Contains x sizes
      × (covers dw dh x ≡ true)
      × (x.width ≡ w)
      × (x.height ≡ h)

  abbrev Good : Search → Type 0
  Good s = s.found_size ≡ true → IsListed s.target_width s.target_height

  look_at-Good :
      (x : ThumbnailSize) (s : Search) → Contains x sizes → Good s → Good (look_at dw dh x s)
  unfolding look_at
  look_at-Good x s c g = elim (Bool-cases (is_better dw dh x s)) [
    | inl b ↦ rw (b) (λ f. (x, c, ground (arith, b), refl, refl))
    | inr b ↦ rw (b) g
  ]

  -- What the loop ends with.
  search-Good :
      (xs : List ThumbnailSize) (s : Search)
      → ((x : ThumbnailSize) → Contains x xs → Contains x sizes)
      → Good s
      → (s' : Search) → search dw dh xs s ≡ some s'
      → Good s'
  unfolding search
  search-Good [] s sub g s' e = let q : s ≡ s' = cc in subst Good q g
  search-Good (x ∷ xs) s sub g s' e = elim (Bool-cases (is_exact dw dh x)) [
    | inl b ↦ absurd (ground (arith, e, b))
    | inr b ↦
        search-Good xs (look_at dw dh x s) (λ y c. sub y (inr c))
          (look_at-Good x s (sub x (inl refl)) g) s' (ground (arith, e, b))
  ]

  found-stays :
      (xs : List ThumbnailSize) (s s' : Search)
      → s.found_size ≡ true
      → search dw dh xs s ≡ some s'
      → s'.found_size ≡ true
  unfolding search look_at
  found-stays [] s s' f e = let q : s ≡ s' = cc in subst (λ (z : Search). z.found_size ≡ true) q f
  found-stays (x ∷ xs) s s' f e = elim (Bool-cases (is_exact dw dh x)) [
    | inl b ↦ absurd (ground (arith, e, b))
    | inr b ↦ found-stays xs (look_at dw dh x s) s' (ground (arith, f)) (ground (arith, e, b))
  ]

  -- A size that covers the request is found, or one that fits exactly ends the loop.
  search-finds :
      (x : ThumbnailSize) (xs : List ThumbnailSize) (s s' : Search)
      → Contains x xs
      → covers dw dh x ≡ true
      → search dw dh xs s ≡ some s'
      → s'.found_size ≡ true
  unfolding search look_at
  search-finds x [] s s' c v e = absurd c
  search-finds x (y ∷ xs) s s' c v e = elim (Bool-cases (is_exact dw dh y)) [
    | inl b ↦ absurd (ground (arith, e, b))
    | inr b ↦
        let e' : search dw dh xs (look_at dw dh y s) ≡ some s' = ground (arith, e, b) in
        elim c [
          | inl same ↦
              let v' : covers dw dh y ≡ true = rw same at v in
              found-stays xs (look_at dw dh y s) s' (ground (arith, v')) e'
          | inr d ↦ search-finds x xs (look_at dw dh y s) s' d v e'
        ]
  ]

  search-exact :
      (xs : List ThumbnailSize) (s : Search)
      → search dw dh xs s ≡ none
      → (x : ThumbnailSize) × Contains x xs × (is_exact dw dh x ≡ true)
  unfolding search
  search-exact [] s e = absurd (ground (arith, e))
  search-exact (x ∷ xs) s e = elim (Bool-cases (is_exact dw dh x)) [
    | inl b ↦ (x, inl refl, b)
    | inr b ↦
        let (y, c, h) = search-exact xs (look_at dw dh x s) (ground (arith, e, b)) in (y, inr c, h)
  ]

eqb_ℤ-≡ : (a b : ℤ) → eqb_ℤ a b ≡ true → a ≡ b
eqb_ℤ-≡ a b e = ground (arith, e)

exact-IsListed :
    (dw dh : ℤ) (sizes : List ThumbnailSize) (x : ThumbnailSize)
    → Contains x sizes
    → is_exact dw dh x ≡ true
    → IsListed dw dh sizes dw dh
exact-IsListed dw dh sizes x c e =
    let w : dw ≡ x.width = eqb_ℤ-≡ dw x.width (ground (arith, e)) in
    let h : dh ≡ x.height = eqb_ℤ-≡ dh x.height (ground (arith, e)) in
    (x, c, ground (arith, e), sym w, sym h)

module _ {F : Type 0} (float : Float32 F) (ctx : Context) (dw dh : ℤ) where
  finish-IsListed :
      (x : ThumbnailSize) (o : Option Search)
      → Contains x ctx.domain.thumbnail_sizes
      → covers dw dh x ≡ true
      → ctx.domain.dynamic_sizing ≡ false
      → search dw dh ctx.domain.thumbnail_sizes nothing_found ≡ o
      → let p = finish_search float ctx dw dh (codes "scale") o in
        IsListed dw dh ctx.domain.thumbnail_sizes p.0.0 p.0.1 × (p.1 ≡ codes "scale")
  unfolding finish_search str_eq
  finish-IsListed x none c v fixed e =
      let (y, d, h) =
        search-exact dw dh ctx.domain.thumbnail_sizes ctx.domain.thumbnail_sizes nothing_found e in
      (exact-IsListed dw dh ctx.domain.thumbnail_sizes y d h, refl)
  finish-IsListed x (some s) c v fixed e =
      let f : s.found_size ≡ true =
        search-finds dw dh ctx.domain.thumbnail_sizes x ctx.domain.thumbnail_sizes nothing_found s c
          v e in
      rw (fixed, f)
        (
          search-Good dw dh ctx.domain.thumbnail_sizes ctx.domain.thumbnail_sizes nothing_found
              (λ y d. d) (λ n. absurd (ground (arith, n))) s e f,
          refl,
        )

  -- With fixed sizes, for a positive request to scale that some configured size covers,
  -- `PickNewDimensions` returns the dimensions of a configured size that covers it.
  pub pick_new_dimensions-IsListed :
      (x : ThumbnailSize)
      → ctx.domain.dynamic_sizing ≡ false
      → leb_ℤ dw (pos 0) ≡ false
      → leb_ℤ dh (pos 0) ≡ false
      → Contains x ctx.domain.thumbnail_sizes
      → covers dw dh x ≡ true
      → (w h : ℤ) × (pick_new_dimensions float ctx dw dh (codes "scale")
          ≡ ok ((w, h), codes "scale"))
        × IsListed dw dh ctx.domain.thumbnail_sizes w h
  unfolding pick_new_dimensions str_eq
  pick_new_dimensions-IsListed x fixed pw ph c v =
      let o = search dw dh ctx.domain.thumbnail_sizes nothing_found in
      let p = finish_search float ctx dw dh (codes "scale") o in
      let (l, m) = finish-IsListed x o c v fixed refl in
      (p.0.0, p.0.1, rw (pw, ph) (ap (λ t. ok ((p.0.0, p.0.1), t)) m), l)
