-- ===== src/ThumbnailPurge/Safety.antt =====
-- The objects that `purgeThumbnailBatch` removes.
use matrix_media_repo.Prelude.{
  ◌≡◌, refl, Bool, true, false, not, ◌&&◌, Option, none, some, List, [], ◌∷◌, filter, any, inl, inr,
  ◌⊎◌, Contains, All, Bool-cases, Option-cases, arith, filter-Contains, any-Contains, length, ◌==◌,
}
use matrix_media_repo.Prelude.Int.{ℤ, pos}
use matrix_media_repo.Prelude.Text.{Str}
use matrix_media_repo.Prelude.Keys.{Map, lookup, insert, pair_key}
use matrix_media_repo.Config.{Context}
use matrix_media_repo.World.{World, M, ◌>>=◌, attempt, pure, tick}
use matrix_media_repo.World.Rules.{
  Post, Post-bind, Post-weaken, Post-both, Post-world, Post-attempt, query_lem, exec_lem,
}
use matrix_media_repo.Database.Rows.{Tables, DbThumbnail}
use matrix_media_repo.Database.Media
use matrix_media_repo.Database.Media.{location_exists}
use matrix_media_repo.Database.Thumbnails.{has_location, is_same, thumbnails_at, delete_thumbnail}
use matrix_media_repo.Datastores.{remove_with_ds_id}
use matrix_media_repo.Datastores.Removal.{remove_with_ds_id_lem}
use matrix_media_repo.ThumbnailPurge.{
  Gone, or_leave, one_more, delete_old, is_old, is_new, clear_location, purge_location, unless_gone,
  purge_locations, touched, purge_thumbnail_batch,
}

-- No medium of the tables uses the object, and every thumbnail that does is old.
pub record Unused (t : Tables) (before_ts : ℤ) (p : Str × Str) : Type 0 where
  pub no_media : any (Media.has_location p.0 p.1) t.media ≡ false
  pub old_thumbs :
      (x : DbThumbnail)
      → Contains x t.thumbnails
      → has_location p.0 p.1 x ≡ true
      → is_old before_ts x ≡ true

module _ (t : Tables) (rem : List (Str × Str)) (before_ts : ℤ) where
  record Inv (w : World) : Type 0 where
    media_kept : w.db.media ≡ t.media
    new_kept :
        (x : DbThumbnail)
        → Contains x t.thumbnails
        → is_new before_ts x ≡ true
        → Contains x w.db.thumbnails
    removed_unused : (p : Str × Str) → Contains p w.removed → Contains p rem ⊎ Unused t before_ts p

  abbrev Keeps : {A : Type 0} → M A → Type 0
  Keeps {A = A} m = (w : World) → Inv w → Post (λ (a : A) w'. Inv w') (λ e w'. Inv w') (m w)

  Inv-same : (w w' : World) → w'.db ≡ w.db → w'.removed ≡ w.removed → Inv w → Inv w'
  Inv-same w w' e r i = record {
    media_kept = rw e i.media_kept;
    new_kept = λ x c n. rw e (i.new_kept x c n);
    removed_unused = λ p c. i.removed_unused p (rw r at c);
  }

  location_exists-Post :
      (ds location : Str) (w : World)
      → Inv w
      → Post
          (λ b w'. (any (Media.has_location ds location) t.media ≡ b) × Inv w')
          (λ e w'. Inv w')
          (location_exists ds location w)
  unfolding location_exists
  location_exists-Post ds location w i =
      Post-weaken _ _ _
        (query_lem (λ t. any (Media.has_location ds location) t.media) w
          (record { db_kept = refl; removed_kept = refl }))
        (λ b w' (e, k). (rw (e, ← i.media_kept) refl, Inv-same w w' k.db_kept k.removed_kept i))
        (λ e w' k. Inv-same w w' k.db_kept k.removed_kept i)

  -- Every new thumbnail of the location is among these.
  abbrev HasNew : Str → Str → List DbThumbnail → Type 0
  HasNew ds location here =
      (x : DbThumbnail)
      → Contains x t.thumbnails
      → has_location ds location x ≡ true
      → is_new before_ts x ≡ true
      → Contains x here

  thumbnails_at-Post :
      (ds location : Str) (w : World)
      → Inv w
      → Post
          (λ here w'. HasNew ds location here × Inv w')
          (λ e w'. Inv w')
          (thumbnails_at ds location w)
  unfolding thumbnails_at
  thumbnails_at-Post ds location w i =
      Post-weaken _ _ _
        (query_lem (λ t. filter (has_location ds location) t.thumbnails) w
          (record { db_kept = refl; removed_kept = refl }))
        (λ here w' (e, k). (
          (λ x c h n.
              rw e (
                filter-Contains (has_location ds location) x w.db.thumbnails (i.new_kept x c n) h)),
          Inv-same w w' k.db_kept k.removed_kept i,
        ))
        (λ e w' k. Inv-same w w' k.db_kept k.removed_kept i)

  kept_new :
      (x y : DbThumbnail) (rows : List DbThumbnail)
      → is_old before_ts x ≡ true
      → is_new before_ts y ≡ true
      → Contains y rows
      → Contains y (filter (λ z. not (is_same x z)) rows)
  kept_new x y rows o n c = filter-Contains (λ z. not (is_same x z)) y rows c (ground arith)

  delete_thumbnail-Keeps :
      (x : DbThumbnail) → is_old before_ts x ≡ true → Keeps (delete_thumbnail x)
  unfolding delete_thumbnail
  delete_thumbnail-Keeps x o w i =
      Post-weaken _ _ _ (exec_lem _ w)
        (λ u w' (db, s, e).
          let d : record w.db { thumbnails = filter (λ z. not (is_same x z)) w.db.thumbnails }
              ≡ db =
            cc in
          rw (e, ← d)
            (record {
              media_kept = i.media_kept;
              new_kept = λ y c n. kept_new x y w.db.thumbnails o n (i.new_kept y c n);
              removed_unused = i.removed_unused;
            }))
        (λ e w' q. rw q (Inv-same w (tick w) refl refl i))

  delete_old-Keeps :
      (thumbs : List DbThumbnail) (n : ℤ)
      → All (λ (x : DbThumbnail). is_old before_ts x ≡ true) thumbs
      → Keeps (delete_old thumbs n)
  unfolding delete_old
  delete_old-Keeps [] n o w i = record { at = i }
  delete_old-Keeps (x ∷ thumbs) n o w i =
      Post-bind {Q = λ d w'. Inv w'} (attempt (delete_thumbnail x)) _ w
        (Post-attempt _ _ (delete_thumbnail x) w (delete_thumbnail-Keeps x o.0 w i) (λ u w' h. h)
          (λ e w' h. h))
        λ d w1 i1. delete_old-Keeps thumbs (one_more d n) o.1 w1 i1

  removed_now :
      {p : Str × Str} (q : Str × Str)
      → Unused t before_ts p
      → (w : World) → Inv w
      → Contains q (p ∷ w.removed)
      → Contains q rem ⊎ Unused t before_ts q
  removed_now q u w i (inl e) = inr (rw e u)
  removed_now q u w i (inr c) = i.removed_unused q c

  remove-Keeps :
      (ctx : Context) (ds location : Str)
      → Unused t before_ts (ds, location)
      → Keeps (remove_with_ds_id ctx ds location)
  remove-Keeps ctx ds location u w i = Post-both Inv (remove_with_ds_id ctx ds location w) (
      let (r, d) = remove_with_ds_id_lem ctx ds location w in
      elim r [
        | inl same ↦ Inv-same w _ d same i
        | inr cons ↦ record {
          media_kept = rw d i.media_kept;
          new_kept = λ y c n. rw d (i.new_kept y c n);
          removed_unused = λ p c. removed_now p u w i (rw cons at c);
        }
      ])

  filter-All :
      (thumbs : List DbThumbnail)
      → All (λ (x : DbThumbnail). is_old before_ts x ≡ true) (filter (is_old before_ts) thumbs)
  filter-All [] = tt
  filter-All (x ∷ thumbs) = elim (Bool-cases (is_old before_ts x)) [
    | inl e ↦ rw e (e, filter-All thumbs)
    | inr e ↦ rw e (filter-All thumbs)
  ]

  -- Where no medium and no new thumbnail stands at a location, its object is unused.
  Unused-of_none :
      (ds location : Str) (here : List DbThumbnail)
      → any (Media.has_location ds location) t.media ≡ false
      → HasNew ds location here
      → any (is_new before_ts) here ≡ false
      → Unused t before_ts (ds, location)
  Unused-of_none ds location here m h n = record {
    no_media = m;
    old_thumbs = λ x c l. elim (Bool-cases (is_old before_ts x)) [
      | inl e ↦ e
      | inr e ↦
          let new : is_new before_ts x ≡ true = rw e refl in
          let found : any (is_new before_ts) here ≡ true =
            any-Contains (is_new before_ts) x here (h x c l new) new in
          cc
    ];
  }

  delete_here-Keeps :
      {A : Type 0} (here : List DbThumbnail) (a : A)
      → Keeps {A = A × ℤ} (delete_old (filter (is_old before_ts) here) (pos 0) >>= λ n. pure (a, n))
  delete_here-Keeps here a w i =
      Post-bind (delete_old (filter (is_old before_ts) here) (pos 0)) _ w
        (delete_old-Keeps (filter (is_old before_ts) here) (pos 0) (filter-All here) w i)
        λ n w1 i1. record { at = i1 }

  clear_location-Keeps :
      (ctx : Context) (x : DbThumbnail) (gone : Gone) (used : Bool) (here : List DbThumbnail)
      → any (Media.has_location x.datastore_id x.location) t.media ≡ used
      → HasNew x.datastore_id x.location here
      → Keeps (clear_location ctx before_ts x gone used here)
  unfolding clear_location
  clear_location-Keeps ctx x gone used here m h w i =
      elim (Bool-cases (length (filter (is_old before_ts) here) == 0)) [
        | inl e ↦ rw e (record { at = i })
        | inr e ↦ elim (Bool-cases (not used && not (any (is_new before_ts) here))) [
          | inr f ↦ rw (e, f) (delete_here-Keeps here gone w i)
          | inl f ↦
              let no_media : any (Media.has_location x.datastore_id x.location) t.media ≡ false =
                ground (arith, m, f) in
              let no_new : any (is_new before_ts) here ≡ false = ground (arith, f) in
              rw (e, f)
                (Post-bind {Q = λ d w'. Inv w'}
                  (attempt (remove_with_ds_id ctx x.datastore_id x.location)) _ w
                  (Post-attempt _ _ (remove_with_ds_id ctx x.datastore_id x.location) w
                    (remove-Keeps ctx x.datastore_id x.location
                      (Unused-of_none x.datastore_id x.location here no_media h no_new) w i)
                    (λ u w' h. h) (λ e w' h. h))
                  λ removed w1 i1. elim (Option-cases removed) [
                    | inl g ↦ rw g (record { at = i1 })
                    | inr (u, g) ↦ rw g (
                        delete_here-Keeps here (insert (x.datastore_id, x.location) true gone) w1
                          i1)
                  ])
        ]
      ]

  -- What holds of the value of a call whose error is logged.
  abbrev Got : {A : Type 0} → (A → Type 0) → Option A → World → Type 0
  Got P none w = Inv w
  Got P (some a) w = P a × Inv w

  or_leave-Keeps :
      {A : Type 0} (P : A → Type 0) (gone : Gone) (o : Option A) (next : A → M (Gone × ℤ))
      (w : World)
      → Got P o w
      → ((a : A) (w' : World)
          → P a
          → Inv w'
          → Post (λ r w''. Inv w'') (λ e w''. Inv w'') (next a w'))
      → Post (λ r w'. Inv w') (λ e w'. Inv w') (or_leave gone o next w)
  or_leave-Keeps P gone none next w g k = record { at = g }
  or_leave-Keeps P gone (some a) next w g k = k a w g.0 g.1

  purge_location-Keeps :
      (ctx : Context) (x : DbThumbnail) (gone : Gone) → Keeps (purge_location ctx before_ts x gone)
  unfolding purge_location
  purge_location-Keeps ctx x gone w i =
      Post-bind {Q = Got (λ b. any (Media.has_location x.datastore_id x.location) t.media ≡ b)}
        (attempt (location_exists x.datastore_id x.location)) _ w
        (Post-attempt _ _ (location_exists x.datastore_id x.location) w
          (location_exists-Post x.datastore_id x.location w i) (λ b w' h. h) (λ e w' h. h))
        λ found w1 g1. or_leave-Keeps _ gone found _ w1 g1 λ used w2 m i2.
          Post-bind {Q = Got (HasNew x.datastore_id x.location)}
            (attempt (thumbnails_at x.datastore_id x.location)) _ w2
            (Post-attempt _ _ (thumbnails_at x.datastore_id x.location) w2
              (thumbnails_at-Post x.datastore_id x.location w2 i2) (λ b w' h. h) (λ e w' h. h))
            λ listed w3 g3.
              or_leave-Keeps _ gone listed _ w3 g3
                λ here w4 h i4. clear_location-Keeps ctx x gone used here m h w4 i4

  purge_locations-Keeps :
      (ctx : Context) (locations : Map (Str × Str) DbThumbnail) (gone : Gone) (total : ℤ)
      → Keeps (purge_locations ctx before_ts locations gone total)
  unfolding purge_locations
  purge_locations-Keeps ctx [] gone total w i = record { at = i }
  purge_locations-Keeps ctx ((loc, x) ∷ rest) gone total w i =
      Post-bind (unless_gone (lookup loc gone) gone (purge_location ctx before_ts x gone)) _ w
        (elim (Option-cases (lookup loc gone)) [
          | inl e ↦ rw e (purge_location-Keeps ctx x gone w i)
          | inr (b, e) ↦ rw e (record { at = i })
        ])
        λ (gone', n) w1 i1. purge_locations-Keeps ctx rest gone' _ w1 i1

-- Whatever fails, each object that a batch of the thumbnail purge has removed was removed before, or
-- when the batch began no medium used it and every thumbnail that used it was older than the limit.
pub purge_batch-Unused :
    (ctx : Context) (thumbs : List DbThumbnail) (gone : Gone) (before_ts : ℤ) (w : World)
    (p : Str × Str)
    → Contains p (purge_thumbnail_batch ctx thumbs gone before_ts w).1.removed
    → Contains p w.removed ⊎ Unused w.db before_ts p
unfolding purge_thumbnail_batch
purge_batch-Unused ctx thumbs gone before_ts w p =
    (Post-world (
        purge_locations-Keeps w.db w.removed before_ts ctx (touched thumbs []) gone (pos 0) w
          (record {
            media_kept = refl;
            new_kept = λ x c n. c;
            removed_unused = λ q c. inl c;
          }))).removed_unused
      p
