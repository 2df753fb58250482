-- ===== src/ThumbnailPurge/Counts.antt =====
-- The count that `purgeThumbnailBatch` returns, and the rows that it leaves.
use matrix_media_repo.Prelude.{
  ◌≡◌, refl, ◌≤◌, ◌<◌, Bool, true, not, ◌&&◌, Option, none, some, List, [], ◌∷◌, filter, any,
  length, inl, inr, ◌⊎◌, Contains, All, Bool-cases, length-filter, arith, ◌==◌,
}
use matrix_media_repo.Prelude.Int.{ℤ, pos, add64}
use matrix_media_repo.Prelude.Text.{Str}
use matrix_media_repo.Prelude.Keys.{Map, lookup, insert, pair_key}
use matrix_media_repo.Config.{Context}
use matrix_media_repo.World.{World, M, query, attempt, pure, ◌>>=◌}
use matrix_media_repo.World.Rules.{Post, Post-bind, Post-attempt, Post-if, Post-both, query_lem}
use matrix_media_repo.Database.Rows.{Tables, DbThumbnail}
use matrix_media_repo.Database.Media
use matrix_media_repo.Database.Media.{location_exists}
use matrix_media_repo.Database.Thumbnails.{thumbnails_at, delete_thumbnail, is_same, has_location}
use matrix_media_repo.Datastores.{remove_with_ds_id}
use matrix_media_repo.Datastores.Removal.{remove_with_ds_id_lem}
use matrix_media_repo.ThumbnailPurge.{
  Gone, touched, or_leave, one_more, delete_old, is_old, is_new, clear_location, purge_location,
  unless_gone, purge_locations, purge_thumbnail_batch,
}
use matrix_media_repo.ThumbnailPurge.Progress.{
  Shrunk, same-Shrunk, trans-Shrunk, filter-shorter, filter-filter, is_same_refl,
  delete_thumbnail-Post,
}

-- Each row is still there, or some row is gone.
abbrev Ready : World → World → List DbThumbnail → Type 0
Ready w0 w thumbs =
    All (λ x. Contains x w.db.thumbnails) thumbs
    ⊎ (length w.db.thumbnails < length w0.db.thumbnails)

deleted-Shrunk :
    (w0 w w1 : World) (x : DbThumbnail) (n n' : ℤ)
    → Shrunk w0 n w
    → Contains x w.db.thumbnails ⊎ (length w.db.thumbnails < length w0.db.thumbnails)
    → w1.db.thumbnails ≡ filter (λ y. not (is_same x y)) w.db.thumbnails
    → Shrunk w0 n' w1 × (length w1.db.thumbnails < length w0.db.thumbnails)
deleted-Shrunk w0 w w1 x n n' s c e =
    let q = λ (y : DbThumbnail). not (is_same x y) in
    let le : length w1.db.thumbnails ≤ length w.db.thumbnails =
      rw e (length-filter q w.db.thumbnails) in
    let lt : length w1.db.thumbnails < length w0.db.thumbnails = elim c [
      | inl d ↦
          let l : length w1.db.thumbnails < length w.db.thumbnails =
            rw e (filter-shorter q x w.db.thumbnails d (rw (is_same_refl x) refl)) in
          omega (arith, l, s.shorter)
      | inr l ↦ omega (arith, l, le)
    ] in
    (
      record {
        shorter = omega (arith, lt);
        fewer = λ p.
            let f : length (filter p w1.db.thumbnails) ≤ length (filter p w.db.thumbnails) =
              rw e (filter-filter p q w.db.thumbnails) in
            omega (arith, f, s.fewer p);
        progress = inr lt;
      },
      lt,
    )

Ready-head :
    (w0 w : World) (x : DbThumbnail) (thumbs : List DbThumbnail)
    → Ready w0 w (x ∷ thumbs)
    → Contains x w.db.thumbnails ⊎ (length w.db.thumbnails < length w0.db.thumbnails)
Ready-head w0 w x thumbs (inl h) = inl h.0
Ready-head w0 w x thumbs (inr l) = inr l

Ready-tail :
    (w0 w w1 : World) (x : DbThumbnail) (thumbs : List DbThumbnail)
    → w1.db ≡ w.db
    → Ready w0 w (x ∷ thumbs)
    → Ready w0 w1 thumbs
Ready-tail w0 w w1 x thumbs e (inl h) = rw e (inl h.1)
Ready-tail w0 w w1 x thumbs e (inr l) = rw e (inr l)

-- What one deletion leaves, whether it worked or not.
abbrev Step : World → ℤ → List DbThumbnail → Option (Unit {0}) → World → Type 0
Step w0 n thumbs deleted w1 = Shrunk w0 (one_more deleted n) w1 × Ready w0 w1 thumbs

delete_old-Post :
    (thumbs : List DbThumbnail) (n : ℤ) (w0 w : World)
    → Shrunk w0 n w
    → Ready w0 w thumbs
    → Post (λ n' w'. Shrunk w0 n' w') (λ e w'. ⊥) (delete_old thumbs n w)
unfolding delete_old
delete_old-Post [] n w0 w s r = record { at = s }
delete_old-Post (x ∷ thumbs) n w0 w s r =
    Post-bind (attempt (delete_thumbnail x)) _ w
      (Post-attempt (Step w0 n thumbs) (λ e w'. ⊥) (delete_thumbnail x) w
        (delete_thumbnail-Post x w)
        (λ u w1 e.
          let (s1, l) =
            deleted-Shrunk w0 w w1 x n (add64 n (pos 1)) s (Ready-head w0 w x thumbs r) e in
          (s1, inr l))
        (λ e w1 q. (
          record {
            shorter = rw q s.shorter;
            fewer = λ p. rw q (s.fewer p);
            progress = rw q s.progress;
          },
          Ready-tail w0 w w1 x thumbs q r,
        )))
      λ deleted w1 (s1, r1). delete_old-Post thumbs (one_more deleted n) w0 w1 s1 r1

module _ {A : Type 0} (P : A → Type 0) where
  All-kept : (p : A → Bool) (xs : List A) → All P xs → All P (filter p xs)
  All-kept p [] h = tt
  All-kept p (x ∷ xs) h = elim (Bool-cases (p x)) [
    | inl e ↦ rw e (h.0, All-kept p xs h.1)
    | inr e ↦ rw e (All-kept p xs h.1)
  ]

All-found :
    (p : DbThumbnail → Bool) (xs ys : List DbThumbnail)
    → ((x : DbThumbnail) → Contains x xs → Contains x ys)
    → All (λ x. Contains x ys) (filter p xs)
All-found p [] ys h = tt
All-found p (x ∷ xs) ys h = elim (Bool-cases (p x)) [
  | inl e ↦ rw e (h x (inl refl), All-found p xs ys (λ z c. h z (inr c)))
  | inr e ↦ rw e (All-found p xs ys (λ z c. h z (inr c)))
]

-- The count of a pair.
abbrev pub Counted : World → Gone × ℤ → World → Type 0
Counted w0 p w' = Shrunk w0 p.1 w'

module _ (ctx : Context) (before_ts : ℤ) where
  -- A call that returns a count and never fails.
  abbrev Counts : M (Gone × ℤ) → Type 0
  Counts m = (w : World) → Post (Counted w) (λ e w'. ⊥) (m w)

  skip-Counts : (gone : Gone) → Counts (pure (gone, pos 0))
  skip-Counts gone w = record { at = same-Shrunk w w refl }

  old_rows-Post :
      (gone : Gone) (here : List DbThumbnail) (w0 w : World)
      → w.db ≡ w0.db
      → All (λ x. Contains x w0.db.thumbnails) here
      → Post
          (Counted w0)
          (λ e w'. ⊥)
          ((delete_old (filter (is_old before_ts) here) (pos 0) >>= λ n. pure (gone, n)) w)
  old_rows-Post gone here w0 w e h =
      Post-bind (delete_old (filter (is_old before_ts) here) (pos 0)) (λ n. pure (gone, n)) w
        (delete_old-Post (filter (is_old before_ts) here) (pos 0) w0 w (same-Shrunk w0 w e)
          (inl (rw e (All-kept _ (is_old before_ts) here h))))
        λ n w' s. record { at = s }

  removed_Post :
      (ds location : Str) (w0 w : World)
      → w.db ≡ w0.db
      → Post (λ o w'. w'.db ≡ w0.db) (λ e w'. ⊥) (attempt (remove_with_ds_id ctx ds location) w)
  removed_Post ds location w0 w e =
      let kept = (remove_with_ds_id_lem ctx ds location w).1 in
      Post-attempt (λ o w'. w'.db ≡ w0.db) (λ x w'. ⊥) (remove_with_ds_id ctx ds location) w
        (Post-both (λ w'. w'.db ≡ w0.db) (remove_with_ds_id ctx ds location w) (rw kept e))
        (λ u w' h. h) (λ x w' h. h)

  clear_location-Post :
      (x : DbThumbnail) (gone : Gone) (used : Bool) (here : List DbThumbnail) (w0 w : World)
      → w.db ≡ w0.db
      → All (λ y. Contains y w0.db.thumbnails) here
      → Post (Counted w0) (λ e w'. ⊥) (clear_location ctx before_ts x gone used here w)
  unfolding clear_location
  clear_location-Post x gone used here w0 w e h =
      Post-if (length (filter (is_old before_ts) here) == 0) _ _ w
        (λ n. record { at = same-Shrunk w0 w e })
        λ n.
          Post-if (not used && not (any (is_new before_ts) here)) _ _ w
            (λ f.
              Post-bind (attempt (remove_with_ds_id ctx x.datastore_id x.location)) _ w
                (removed_Post x.datastore_id x.location w0 w e)
                (λ o w1 e1.
                  elim o
                    as (λ o'.
                      Post (Counted w0) (λ q w'. ⊥)
                        (or_leave gone o'
                          (λ u. delete_old (filter (is_old before_ts) here) (pos 0) >>= λ k.
                            pure (insert (x.datastore_id, x.location) true gone, k))
                          w1)) [
                            | none ↦ record { at = same-Shrunk w0 w1 e1 }
                            | some u ↦ old_rows-Post _ here w0 w1 e1 h
                          ]))
            (λ f. old_rows-Post gone here w0 w e h)

  -- A SELECT whose error is logged.
  selected_Post :
      {A : Type 0} (f : Tables → A) (w0 w : World)
      → w.db ≡ w0.db
      → Post
          (λ o w'. ((a : A) → o ≡ some a → a ≡ f w0.db) × (w'.db ≡ w0.db))
          (λ e w'. ⊥)
          (attempt (query f) w)
  selected_Post f w0 w e =
      Post-attempt _ _ (query f) w
        (query_lem f {db = w0.db} {rem = w.removed} w (record { db_kept = e; removed_kept = refl }))
        (λ a w' (g, k). (λ b s. let s' : a ≡ b = cc in rw (← s') g, k.db_kept))
        (λ x w' k. (λ b s. absurd (ground (arith, s)), k.db_kept))

  cleared-Post :
      (x : DbThumbnail) (gone : Gone) (used : Bool) (found : Option (List DbThumbnail))
      (w0 w : World)
      → w.db ≡ w0.db
      → ((here : List DbThumbnail)
          → found ≡ some here
          → All (λ y. Contains y w0.db.thumbnails) here)
      → Post
          (Counted w0)
          (λ e w'. ⊥)
          (or_leave gone found (clear_location ctx before_ts x gone used) w)
  cleared-Post x gone used none w0 w e h = record { at = same-Shrunk w0 w e }
  cleared-Post x gone used (some here) w0 w e h =
      clear_location-Post x gone used here w0 w e (h here refl)

  used-Post :
      (x : DbThumbnail) (gone : Gone) (used : Option Bool) (w0 w : World)
      → w.db ≡ w0.db
      → Post
          (Counted w0)
          (λ e w'. ⊥)
          (or_leave gone used
            (λ u. attempt (thumbnails_at x.datastore_id x.location) >>= λ here.
              or_leave gone here (clear_location ctx before_ts x gone u))
            w)
  unfolding thumbnails_at
  used-Post x gone none w0 w e = record { at = same-Shrunk w0 w e }
  used-Post x gone (some u) w0 w e =
      Post-bind (attempt (thumbnails_at x.datastore_id x.location)) _ w
        (selected_Post (λ t. filter (has_location x.datastore_id x.location) t.thumbnails) w0 w e)
        λ found w1 (g, e1).
          cleared-Post x gone u found w0 w1 e1
            (λ here s. rw (g here s) (All-found _ w0.db.thumbnails _ (λ y c. c)))

  purge_location-Counts :
      (x : DbThumbnail) (gone : Gone) → Counts (purge_location ctx before_ts x gone)
  unfolding purge_location location_exists
  purge_location-Counts x gone w =
      Post-bind (attempt (location_exists x.datastore_id x.location)) _ w
        (selected_Post (λ t. any (Media.has_location x.datastore_id x.location) t.media) w w refl)
        λ used w1 (g, e1). used-Post x gone used w w1 e1

  unless_gone-Counts :
      (o : Option Bool) (gone : Gone) (m : M (Gone × ℤ)) → Counts m → Counts (unless_gone o gone m)
  unless_gone-Counts none gone m h = h
  unless_gone-Counts (some b) gone m h = skip-Counts gone

  purge_locations-Post :
      (locs : Map (Str × Str) DbThumbnail) (gone : Gone) (total : ℤ) (w0 w : World)
      → Shrunk w0 total w
      → Post (Counted w0) (λ e w'. ⊥) (purge_locations ctx before_ts locs gone total w)
  unfolding purge_locations
  purge_locations-Post [] gone total w0 w s = record { at = s }
  purge_locations-Post ((loc, x) ∷ rest) gone total w0 w s =
      Post-bind (unless_gone (lookup loc gone) gone (purge_location ctx before_ts x gone)) _ w
        (unless_gone-Counts (lookup loc gone) gone _ (purge_location-Counts x gone) w)
        λ p w1 s1.
          purge_locations-Post rest p.0 (add64 total p.1) w0 w1 (trans-Shrunk total p.1 s s1)

  -- A batch never fails, only takes rows away, and returns a count other than 0 only if it took one.
  pub purge_batch-Counts :
      (thumbs : List DbThumbnail) (gone : Gone)
      → Counts (purge_thumbnail_batch ctx thumbs gone before_ts)
  unfolding purge_thumbnail_batch
  purge_batch-Counts thumbs gone w =
      purge_locations-Post (touched thumbs []) gone (pos 0) w w (same-Shrunk w w refl)
