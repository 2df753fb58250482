-- ===== src/ThumbnailPurge/Ends.antt =====
-- That the loop of `PurgeThumbnails` (tasks/task_runner/purge_thumbnails.go) ends.
use mathlib.Core.Path.{subst}
use matrix_media_repo.Prelude.{
  ◌≡◌, refl, ℕ, zero, suc, ◌+◌, ◌≤◌, ◌<◌, Bool, true, false, Option, none, some, List, [], ◌∷◌,
  filter, length, take, inl, inr, ◌⊎◌, Contains, Bool-cases, length-filter, Contains-filter, arith,
}
use matrix_media_repo.Prelude.Int.{ℤ, pos, eqb_ℤ, leb_ℤ, sub64}
use matrix_media_repo.Config.{Context}
use matrix_media_repo.World.{World, now_millis}
use matrix_media_repo.World.Rules.{Post, Post-bind, Post-weaken, Post-if, query_lem}
use matrix_media_repo.Database.Rows.{DbThumbnail}
use matrix_media_repo.ThumbnailPurge.{Gone, purge_thumbnail_batch}
use matrix_media_repo.ThumbnailPurge.Progress.{Shrunk}
use matrix_media_repo.ThumbnailPurge.Counts.{purge_batch-Counts}
use matrix_media_repo.ThumbnailPurge.Loop.{
  place, sort_rows, is_after, is_wanted, older_than_batch_after, last_of, next_after, round,
  purge_loop, days, purge_thumbnails,
}

module _ (lt : DbThumbnail → DbThumbnail → Bool) where
  Contains-place :
      (x y : DbThumbnail) (ys : List DbThumbnail)
      → Contains x (place lt y ys)
      → (x ≡ y) ⊎ Contains x ys
  unfolding place
  Contains-place x y [] (inl e) = inl e
  Contains-place x y [] (inr c) = absurd c
  Contains-place x y (z ∷ ys) c = elim (Bool-cases (lt z y)) [
    | inr e ↦ rw e at c
    | inl e ↦
        let c' : (x ≡ z) ⊎ Contains x (place lt y ys) = rw e at c in
        elim c' [
          | inl s ↦ inr (inl s)
          | inr d ↦ elim (Contains-place x y ys d) [ inl s ↦ inl s | inr r ↦ inr (inr r) ]
        ]
  ]

  Contains-sort :
      (x : DbThumbnail) (xs : List DbThumbnail) → Contains x (sort_rows lt xs) → Contains x xs
  unfolding sort_rows
  Contains-sort x [] c = c
  Contains-sort x (y ∷ xs) c = elim (Contains-place x y (sort_rows lt xs) c) [
    | inl e ↦ inl e
    | inr d ↦ inr (Contains-sort x xs d)
  ]

  Contains-take :
      (n : ℕ) (x : DbThumbnail) (xs : List DbThumbnail) → Contains x (take n xs) → Contains x xs
  Contains-take zero x xs c = absurd c
  Contains-take (suc n) x [] c = absurd c
  Contains-take (suc n) x (y ∷ xs) (inl e) = inl e
  Contains-take (suc n) x (y ∷ xs) (inr c) = inr (Contains-take n x xs c)

last-Contains : (x : DbThumbnail) (xs : List DbThumbnail) → Contains (last_of x xs) (x ∷ xs)
last-Contains x [] = inl refl
last-Contains x (y ∷ ys) = inr (last-Contains y ys)

-- Fuel for the batches: a batch that removes no row moves on by one row at least, and one that removes
-- a row starts again.
unfoldable pub rounds : ℕ → ℕ → ℕ
rounds k zero = 0
rounds k (suc n) = suc k + rounds k n

abbrev pub enough_fuel : ℕ → ℕ
enough_fuel n = suc (rounds n n + n)

rounds-lt : (k a b : ℕ) → a < b → suc k + rounds k a ≤ rounds k b
unfolding rounds
rounds-lt k a zero h = absurd (omega (arith, h))
rounds-lt k zero (suc zero) h = omega arith
rounds-lt k zero (suc (suc b)) h = omega (arith, rounds-lt k zero (suc b))
rounds-lt k (suc a) (suc b) h = omega (arith, rounds-lt k a b)

rounds-le : (k a b : ℕ) → a ≤ b → rounds k a ≤ rounds k b
unfolding rounds
rounds-le k zero b h = omega arith
rounds-le k (suc a) zero h = absurd (omega (arith, h))
rounds-le k (suc a) (suc b) h = omega (arith, rounds-le k a b (omega (arith, h)))

filter-weaker :
    (p q : DbThumbnail → Bool) (xs : List DbThumbnail)
    → ((x : DbThumbnail) → p x ≡ true → q x ≡ true)
    → length (filter p xs) ≤ length (filter q xs)
filter-weaker p q [] h = omega arith
filter-weaker p q (x ∷ xs) h = ground (arith, h x, filter-weaker p q xs h)

-- A row that the weaker test takes and the stronger one does not.
filter-smaller :
    (p q : DbThumbnail → Bool) (x : DbThumbnail) (xs : List DbThumbnail)
    → ((y : DbThumbnail) → p y ≡ true → q y ≡ true)
    → Contains x xs
    → q x ≡ true
    → p x ≡ false
    → length (filter p xs) < length (filter q xs)
filter-smaller p q x [] h c e n = absurd c
filter-smaller p q x (y ∷ xs) h (inl same) e n =
    let e' : q y ≡ true = rw same at e in
    let n' : p y ≡ false = rw same at n in rw (e', n') (omega (arith, filter-weaker p q xs h))
filter-smaller p q x (y ∷ xs) h (inr c) e n = ground (arith, h y, filter-smaller p q x xs h c e n)

-- The order is strict.
pub record IsStrict (lt : DbThumbnail → DbThumbnail → Bool) : Type 0 where
  pub irreflexive : (x : DbThumbnail) → lt x x ≡ false
  pub transitive : (x y z : DbThumbnail) → lt x y ≡ true → lt y z ≡ true → lt x z ≡ true

module _ (lt : DbThumbnail → DbThumbnail → Bool) (strict : IsStrict lt) (ctx : Context) (ts : ℤ)
    (limit : ℕ) where
  abbrev left : Option DbThumbnail → World → ℕ
  left after w = length (filter (is_wanted lt ts after) w.db.thumbnails)

  is_after-step :
      (after : Option DbThumbnail) (x y : DbThumbnail)
      → is_after lt after x ≡ true
      → lt x y ≡ true
      → is_after lt after y ≡ true
  is_after-step none x y a b = refl
  is_after-step (some z) x y a b = strict.transitive z x y a b

  left-smaller :
      (after : Option DbThumbnail) (x : DbThumbnail) (w : World)
      → Contains x (filter (is_wanted lt ts after) w.db.thumbnails)
      → left (some x) w < left after w
  left-smaller after x w c =
      let (d, e) = Contains-filter (is_wanted lt ts after) x w.db.thumbnails c in
      filter-smaller (is_wanted lt ts (some x)) (is_wanted lt ts after) x w.db.thumbnails
        (λ y h. ground (arith, h, e, is_after-step after x y)) d e
        (ground (arith, strict.irreflexive x))

  -- The last row of a batch is one of those wanted.
  last-wanted :
      (after : Option DbThumbnail) (x : DbThumbnail) (xs : List DbThumbnail) (w : World)
      → x ∷ xs ≡ take limit (sort_rows lt (filter (is_wanted lt ts after) w.db.thumbnails))
      → Contains (last_of x xs) (filter (is_wanted lt ts after) w.db.thumbnails)
  last-wanted after x xs w e =
      let c : Contains (last_of x xs)
          (take limit (sort_rows lt (filter (is_wanted lt ts after) w.db.thumbnails))) =
        subst (λ l. Contains (last_of x xs) l) e (last-Contains x xs) in
      Contains-sort lt _ _ (Contains-take lt limit _ _ c)

  -- What remains to be done: the rounds for the rows that there are, and for the rows still wanted.
  abbrev Remains : ℕ → ℕ → Option DbThumbnail → World → Type 0
  Remains k fuel after w =
      (length w.db.thumbnails ≤ k) × (rounds k (length w.db.thumbnails) + left after w < fuel)

  next-Remains :
      (k fuel : ℕ) (after : Option DbThumbnail) (n : ℤ) (x : DbThumbnail) (xs : List DbThumbnail)
      (w w' : World)
      → Remains k (suc fuel) after w
      → x ∷ xs ≡ take limit (sort_rows lt (filter (is_wanted lt ts after) w.db.thumbnails))
      → Shrunk w n w'
      → Remains k fuel (next_after n x xs) w'
  next-Remains k fuel after n x xs w w' (small, few) e s = elim (Bool-cases (eqb_ℤ n (pos 0))) [
    | inl z ↦
        let l : left (some (last_of x xs)) w < left after w =
          left-smaller after (last_of x xs) w (last-wanted after x xs w e) in
        rw z (
          omega (arith, s.shorter, small),
          omega (
            arith,
            few,
            l,
            s.fewer (is_wanted lt ts (some (last_of x xs))),
            rounds-le k _ _ s.shorter,
          ),
        )
    | inr z ↦
        let l : length w'.db.thumbnails < length w.db.thumbnails = elim s.progress [
          | inl o ↦ absurd (ground (arith, o, z))
          | inr l ↦ l
        ] in
        rw z (
          omega (arith, s.shorter, small),
          omega (
            arith,
            few,
            small,
            s.shorter,
            rounds-lt k _ _ l,
            length-filter (is_wanted lt ts none) w'.db.thumbnails,
          ),
        )
  ]

  -- The loop came to its end.
  abbrev Ended : Option (Unit {0}) → World → Type 0
  Ended o w' = o ≡ some tt

  Next : ℕ → ℕ → Type 0
  Next k fuel =
      (after : Option DbThumbnail) (gone : Gone) (w : World)
      → Remains k fuel after w
      → Post Ended (λ e w'. Unit {0}) (purge_loop lt ctx ts limit fuel after gone w)

  round-Ends :
      (k fuel : ℕ) (after : Option DbThumbnail) (gone : Gone) (old : List DbThumbnail) (w : World)
      → Next k fuel
      → Remains k (suc fuel) after w
      → old ≡ take limit (sort_rows lt (filter (is_wanted lt ts after) w.db.thumbnails))
      → Post Ended (λ e w'. Unit {0}) (round ctx ts (purge_loop lt ctx ts limit fuel) gone old w)
  unfolding Next
  round-Ends k fuel after gone [] w next r e = record { at = refl }
  round-Ends k fuel after gone (x ∷ xs) w next r e =
      Post-bind (purge_thumbnail_batch ctx (x ∷ xs) gone ts) _ w
        (Post-weaken _ _ _ (purge_batch-Counts ctx ts (x ∷ xs) gone w) (λ p w' s. s)
          (λ q w' b. absurd b))
        λ p w' s. next (next_after p.1 x xs) p.0 w' (next-Remains k fuel after p.1 x xs w w' r e s)

  purge_loop-Ends : (k fuel : ℕ) → Next k fuel
  unfolding Next purge_loop older_than_batch_after
  purge_loop-Ends k zero after gone w (small, few) = absurd (omega (arith, few))
  purge_loop-Ends k (suc fuel) after gone w r =
      Post-bind (older_than_batch_after lt ts limit after)
        (round ctx ts (purge_loop lt ctx ts limit fuel) gone) w
        (Post-weaken _ _ _
          (query_lem (λ t. take limit (sort_rows lt (filter (is_wanted lt ts after) t.thumbnails)))
            {db = w.db} {rem = w.removed} w (record { db_kept = refl; removed_kept = refl }))
          (λ old w' g. g) (λ e w' g. tt))
        λ old w' (g, kept).
          round-Ends k fuel after gone old w' (purge_loop-Ends k fuel) (rw kept.db_kept r)
            (rw kept.db_kept g)

module _ (lt : DbThumbnail → DbThumbnail → Bool) (strict : IsStrict lt) (ctx : Context) where
  now_millis-same : (w : World) → Post (λ a w'. w'.db ≡ w.db) (λ e w'. Unit {0}) (now_millis w)
  unfolding now_millis
  now_millis-same w = record { at = refl }

  -- With `enough_fuel` for the number of thumbnail rows, and an order of the rows that is strict,
  -- `PurgeThumbnails` never stops for want of fuel: it comes to its end, or ends with the error of a
  -- SELECT.
  pub purge_thumbnails-ends :
      (fuel : ℕ) (w : World)
      → enough_fuel (length w.db.thumbnails) ≤ fuel
      → Post (λ o w'. o ≡ some tt) (λ e w'. Unit {0}) (purge_thumbnails lt ctx fuel w)
  unfolding purge_thumbnails Next
  purge_thumbnails-ends fuel w h =
      Post-if (leb_ℤ ctx.main.thumbnails_expire_days (pos 0)) _ _ w (λ e. record { at = refl })
        λ e. Post-bind now_millis _ w (now_millis-same w) λ now w' q.
          purge_loop-Ends lt strict ctx (sub64 now (days ctx.main.thumbnails_expire_days)) 1000
            (length w.db.thumbnails) fuel none [] w'
            (rw q (
              omega arith,
              omega (
                arith,
                h,
                length-filter (is_wanted lt (sub64 now (days ctx.main.thumbnails_expire_days)) none)
                    w.db.thumbnails,
              ),
            ))
