-- ===== src/Migrate/Steps.antt =====
-- What the steps of a move of files change: an upload removes at most its own object, and no row
-- names the old location once it is updated.
use matrix_media_repo.Prelude.{
  ◌≡◌, ◌∙◌, ap, refl, Bool, false, ◌⊎◌, List, [], ◌∷◌, ◌++◌, any, map, inl, inr, Bool-cases,
  if◌then◌else◌, arith,
}
use matrix_media_repo.Prelude.Int.{ℤ, eqb_ℤ}
use matrix_media_repo.Prelude.Text.{Str, str_eq, codes}
use matrix_media_repo.Prelude.Keys.{str_key}
use matrix_media_repo.Config.{DatastoreConfig}
use matrix_media_repo.World.{World, ask, put_object}
use matrix_media_repo.World.Rules.{Kept, Post, Post-bind, Post-weaken, Post-both}
use matrix_media_repo.Database.Rows.{Tables, DbMedia, DbThumbnail}
use matrix_media_repo.Database.Media.{has_location}
use matrix_media_repo.Database.Thumbnails
use matrix_media_repo.Database.Thumbnails.{update_thumbnail_location}
use matrix_media_repo.Datastores
use matrix_media_repo.Datastores.{remove, new_unique_id, write_object}
use matrix_media_repo.Datastores.Removal.{remove_lem}

-- No row of `media` or `thumbnails` has the location.
abbrev pub Unreferenced : Tables → Str → Str → Type 0
Unreferenced t ds location =
    (any (has_location ds location) t.media ≡ false)
    × (any (Thumbnails.has_location ds location) t.thumbnails ≡ false)

module _ {A : Type 0} (p : A → Bool) (f : A → A) where
  pub any-map-kept :
      (xs : List A)
      → ((x : A) → p x ≡ false → p (f x) ≡ false)
      → any p xs ≡ false
      → any p (map f xs) ≡ false
  any-map-kept [] h e = refl
  any-map-kept (x ∷ xs) h e = ground (arith, any-map-kept xs h, h x)

  pub any-map-cleared : (xs : List A) → ((x : A) → p (f x) ≡ false) → any p (map f xs) ≡ false
  any-map-cleared [] h = refl
  any-map-cleared (x ∷ xs) h = ground (arith, any-map-cleared xs h, h x)

module _ (db : Tables) (rem : List (Str × Str)) where
  pub ask-Kept :
      {A : Type 0} (f : World → A) (w : World)
      → Kept db rem w
      → Post (λ a w'. Kept db rem w') (λ e w'. Kept db rem w') (ask f w)
  unfolding ask
  ask-Kept f w k = Post-both (Kept db rem) _ (record {
    db_kept = ground (arith, k.db_kept);
    removed_kept = ground (arith, k.removed_kept);
  })

  new_unique_id-Kept :
      (w : World)
      → Kept db rem w
      → Post (λ a w'. Kept db rem w') (λ e w'. Kept db rem w') (new_unique_id w)
  unfolding new_unique_id
  new_unique_id-Kept w k =
      Post-bind (ask (λ x. x.env.random x.calls)) _ w (ask-Kept _ w k) λ r w1 k1.
        Post-bind (ask (λ x. x.env.random x.calls)) _ w1 (ask-Kept _ w1 k1)
          λ sf w2 k2. record { at = k2 }

  put_object-Kept :
      (ds location : Str) (w : World)
      → Kept db rem w
      → Post (λ a w'. Kept db rem w') (λ e w'. Kept db rem w') (put_object ds location w)
  unfolding put_object
  put_object-Kept ds location w k = Post-both (Kept db rem) _ (record {
    db_kept = ground (arith, k.db_kept);
    removed_kept = ground (arith, k.removed_kept);
  })

  write_object-Kept :
      (ds : DatastoreConfig) (name bytes : Str) (w : World)
      → Kept db rem w
      → Post (λ a w'. Kept db rem w') (λ e w'. Kept db rem w') (write_object ds name bytes w)
  write_object-Kept ds name bytes w k = elim (Bool-cases (str_eq ds.ds_type (codes "s3"))) [
    | inl e ↦ rw e (
        Post-bind (ask (λ _. tt)) _ w (ask-Kept (λ _. tt) w k) λ u w1 k1.
          Post-bind (put_object ds.id _) _ w1 (put_object-Kept ds.id _ w1 k1)
            λ n w2 k2. record { at = k2 })
    | inr e ↦ elim (Bool-cases (str_eq ds.ds_type (codes "file"))) [
      | inl f ↦
          rw (e, f)
            (Post-bind (put_object ds.id _) _ w (put_object-Kept ds.id _ w k)
              λ n w1 k1. record { at = k1 })
      | inr f ↦ rw (e, f) (record { at = k })
    ]
  ]

  -- A failed upload removes at most one object, of its own datastore.
  abbrev pub RemovedOne : Str → World → Type 0
  RemovedOne ds w = (w.db ≡ db) × ((w.removed ≡ rem) ⊎ ((l : Str) × (w.removed ≡ (ds, l) ∷ rem)))

  pub Kept-RemovedOne : (ds : Str) (w : World) → Kept db rem w → RemovedOne ds w
  Kept-RemovedOne ds w k = (k.db_kept, inl k.removed_kept)

  pub remove-RemovedOne :
      (ds : DatastoreConfig) (location : Str) (w : World)
      → Kept db rem w
      → RemovedOne ds.id (remove ds location w).1
  remove-RemovedOne ds location w k =
      let (r, d) = remove_lem ds location w in
      (
        d ∙ k.db_kept,
        elim r [
          | inl e ↦ inl (e ∙ k.removed_kept)
          | inr e ↦ inr (location, e ∙ ap (λ x. (ds.id, location) ∷ x) k.removed_kept)
        ],
      )

  pub upload-RemovedOne :
      (sha256 : Str → Str) (ds : DatastoreConfig) (bytes : Str) (size : ℤ) (hash : Str) (w : World)
      → Kept db rem w
      → Post
          (λ l w'. RemovedOne ds.id w')
          (λ e w'. RemovedOne ds.id w')
          (Datastores.upload sha256 ds bytes size hash w)
  unfolding Datastores.upload
  upload-RemovedOne sha256 ds bytes size hash w k =
      Post-bind new_unique_id _ w
        (Post-weaken _ _ _ (new_unique_id-Kept w k) (λ x w' h. h)
          (λ e w' h. Kept-RemovedOne ds.id w' h))
        λ name w1 k1.
          Post-bind (write_object ds (name ++ codes "idv2fmt") bytes) _ w1
            (Post-weaken _ _ _ (write_object-Kept ds _ bytes w1 k1) (λ x w' h. h)
              (λ e w' h. Kept-RemovedOne ds.id w' h))
            λ (l, n) w2 k2.
              let removed = remove-RemovedOne ds l w2 k2 in
              elim (Bool-cases (eqb_ℤ n size)) [
                | inl e ↦ elim (Bool-cases (str_eq (sha256 bytes) hash)) [
                  | inl f ↦ rw (e, f) (record { at = Kept-RemovedOne ds.id w2 k2 })
                  | inr f ↦ rw (e, f) (record { at = removed })
                ]
                | inr e ↦ rw e (record { at = removed })
              ]

module _ (source target_id : Str) (other : str_eq target_id source ≡ false)
    (location new_location : Str) where
  abbrev moved_media : DbMedia → DbMedia
  moved_media m =
      if has_location source location m
      then record m {
        locatable = record m.locatable { datastore_id = target_id; location = new_location };
      }
      else m

  abbrev moved_thumbnail : DbThumbnail → DbThumbnail
  moved_thumbnail r =
      if Thumbnails.has_location source location r
      then record r {
        locatable = record r.locatable { datastore_id = target_id; location = new_location };
      }
      else r

  pub media-kept :
      (l : Str) (m : DbMedia)
      → has_location source l m ≡ false
      → has_location source l (moved_media m) ≡ false
  media-kept l m e = elim (Bool-cases (has_location source location m)) [
    | inl f ↦ rw (f, other) refl
    | inr f ↦ rw (f, e) refl
  ]

  pub media-cleared : (m : DbMedia) → has_location source location (moved_media m) ≡ false
  media-cleared m = elim (Bool-cases (has_location source location m)) [
    | inl f ↦ rw (f, other) refl
    | inr f ↦ rw (f, f) refl
  ]

  pub thumbnail-kept :
      (l : Str) (r : DbThumbnail)
      → Thumbnails.has_location source l r ≡ false
      → Thumbnails.has_location source l (moved_thumbnail r) ≡ false
  thumbnail-kept l r e = elim (Bool-cases (Thumbnails.has_location source location r)) [
    | inl f ↦ rw (f, other) refl
    | inr f ↦ rw (f, e) refl
  ]

  pub thumbnail-cleared :
      (r : DbThumbnail) → Thumbnails.has_location source location (moved_thumbnail r) ≡ false
  thumbnail-cleared r = elim (Bool-cases (Thumbnails.has_location source location r)) [
    | inl f ↦ rw (f, other) refl
    | inr f ↦ rw (f, f) refl
  ]
