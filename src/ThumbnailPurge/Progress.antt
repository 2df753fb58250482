-- ===== src/ThumbnailPurge/Progress.antt =====
-- The thumbnail rows that a batch of the purge leaves, and what its count says about them.
use matrix_media_repo.Prelude.{
  ◌≡◌, refl, ◌≤◌, ◌<◌, Bool, true, false, not, List, [], ◌∷◌, filter, length, inl, inr, ◌⊎◌,
  Contains, length-filter, arith,
}
use matrix_media_repo.Prelude.Int.{ℤ, pos, add64, wrap64, ◌+ℤ◌, eqb_ℤ}
use matrix_media_repo.Prelude.Text.{str_eq_refl}
use matrix_media_repo.Prelude.Keys.{pair_key}
use matrix_media_repo.World.{World}
use matrix_media_repo.World.Rules.{Post, Post-weaken, exec_lem}
use matrix_media_repo.Database.Rows.{DbThumbnail}
use matrix_media_repo.Database.Quarantine.{bool_eq}
use matrix_media_repo.Database.Thumbnails.{delete_thumbnail, is_same}

-- What a call has done to the rows, given the count that it returns: some rows are gone at most, and a
-- count other than 0 means that some are.
pub record Shrunk (w : World) (n : ℤ) (w' : World) : Type 0 where
  pub shorter : length w'.db.thumbnails ≤ length w.db.thumbnails
  pub fewer :
      (p : DbThumbnail → Bool)
      → length (filter p w'.db.thumbnails) ≤ length (filter p w.db.thumbnails)
  pub progress : (n ≡ pos 0) ⊎ (length w'.db.thumbnails < length w.db.thumbnails)

pub same-Shrunk : (w w' : World) → w'.db ≡ w.db → Shrunk w (pos 0) w'
same-Shrunk w w' e = record {
  shorter = rw e (omega arith);
  fewer = λ p. rw e (omega arith);
  progress = inl refl;
}

pub zero_sum : add64 (pos 0) (pos 0) ≡ pos 0
unfolding add64 wrap64 ◌+ℤ◌
zero_sum = refl

module _ {w w1 w2 : World} where
  sum-progress :
      (n n' : ℤ)
      → Shrunk w n w1
      → Shrunk w1 n' w2
      → (add64 n n' ≡ pos 0) ⊎ (length w2.db.thumbnails < length w.db.thumbnails)
  sum-progress n n' s s' = elim s.progress [
    | inr l ↦ inr (omega (arith, s'.shorter, l))
    | inl e ↦ elim s'.progress [
      | inr l ↦ inr (omega (arith, s.shorter, l))
      | inl e' ↦ inl (rw (e, e') zero_sum)
    ]
  ]

  pub trans-Shrunk : (n n' : ℤ) → Shrunk w n w1 → Shrunk w1 n' w2 → Shrunk w (add64 n n') w2
  trans-Shrunk n n' s s' = record {
    shorter = omega (arith, s.shorter, s'.shorter);
    fewer = λ p. omega (arith, s.fewer p, s'.fewer p);
    progress = sum-progress n n' s s';
  }

  -- A call before which the tables are the same.
  pub after_same : (n : ℤ) → w1.db ≡ w.db → Shrunk w1 n w2 → Shrunk w n w2
  after_same n e s = record {
    shorter = rw e at s.shorter;
    fewer = λ p. rw e at (s.fewer p);
    progress = rw e at s.progress;
  }

pub filter-filter :
    (p q : DbThumbnail → Bool) (xs : List DbThumbnail)
    → length (filter p (filter q xs)) ≤ length (filter p xs)
filter-filter p q [] = omega arith
filter-filter p q (x ∷ xs) = ground (arith, filter-filter p q xs)

-- A row that is there and fails the test makes the rest shorter.
pub filter-shorter :
    (q : DbThumbnail → Bool) (x : DbThumbnail) (xs : List DbThumbnail)
    → Contains x xs
    → q x ≡ false
    → length (filter q xs) < length xs
filter-shorter q x [] c e = absurd c
filter-shorter q x (y ∷ xs) (inl same) e =
    let e' : q y ≡ false = rw same at e in rw e' (ground (arith, length-filter q xs))
filter-shorter q x (y ∷ xs) (inr c) e = ground (arith, filter-shorter q x xs c e)

pub eqb_ℤ-refl : (z : ℤ) → eqb_ℤ z z ≡ true
eqb_ℤ-refl z = ground arith

bool_eq_refl : (b : Bool) → bool_eq b b ≡ true
bool_eq_refl true = refl
bool_eq_refl false = refl

pub is_same_refl : (x : DbThumbnail) → is_same x x ≡ true
is_same_refl x =
    rw
      (
        str_eq_refl x.origin,
        str_eq_refl x.media_id,
        eqb_ℤ-refl x.width,
        eqb_ℤ-refl x.height,
        str_eq_refl x.method,
        bool_eq_refl x.animated,
        str_eq_refl x.content_type,
        str_eq_refl x.sha256_hash,
        eqb_ℤ-refl x.size_bytes,
        eqb_ℤ-refl x.creation_ts,
        str_eq_refl x.datastore_id,
        str_eq_refl x.location,
      )
      refl

pub delete_thumbnail-Post :
    (x : DbThumbnail) (w : World)
    → Post
        (λ u w'. w'.db.thumbnails ≡ filter (λ y. not (is_same x y)) w.db.thumbnails)
        (λ e w'. w'.db ≡ w.db)
        (delete_thumbnail x w)
unfolding delete_thumbnail
delete_thumbnail-Post x w =
    Post-weaken _ _ _ (exec_lem _ w)
      (λ u w' (db, s, e).
        let d : (record w.db { thumbnails = filter (λ y. not (is_same x y)) w.db.thumbnails })
            ≡ db =
          cc in
        rw (e, ← d) refl)
      (λ e w' q. rw q refl)
