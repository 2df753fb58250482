-- ===== src/Migrate/Safety.antt =====
-- The files that `DatastoreMigrate` removes.
use matrix_media_repo.Prelude.{
  ◌≡◌, ap, refl, true, false, ◌⊎◌, List, [], ◌∷◌, any, All, inl, inr, Contains, Bool-cases,
  Option-cases, ◌||◌, arith,
}
use matrix_media_repo.Prelude.Text.{Str, str_eq, str_eq_refl, codes}
use matrix_media_repo.Prelude.Keys.{lookup, str_key}
use matrix_media_repo.Config.{DatastoreConfig}
use matrix_media_repo.World.{World, attempt, exec}
use matrix_media_repo.World.Rules.{Kept, Post, Post-bind, Post-weaken, Post-attempt, Post-both}
use matrix_media_repo.Database.Rows.{VirtLastAccess}
use matrix_media_repo.Database.Media.{has_location, update_rows, update_location}
use matrix_media_repo.Database.Thumbnails
use matrix_media_repo.Database.Thumbnails.{update_thumbnail_location}
use matrix_media_repo.Datastores
use matrix_media_repo.Datastores.{remove}
use matrix_media_repo.Datastores.Removal.{remove_lem}
use matrix_media_repo.Purge.{location_id}
use matrix_media_repo.Migrate.{Moved, download, move_object, move_objects}
use matrix_media_repo.Migrate.Steps.{
  Unreferenced, RemovedOne, any-map-kept, any-map-cleared, ask-Kept, Kept-RemovedOne,
  upload-RemovedOne, media-kept, media-cleared, thumbnail-kept, thumbnail-cleared,
}

-- Every object that the datastore has lost since `rem` is one that no row names.
pub record LostUnused (ds : Str) (rem : List (Str × Str)) (w : World) : Type 0 where
  pub unused :
      (l : Str) → Contains (ds, l) w.removed → Contains (ds, l) rem ⊎ Unreferenced w.db ds l

module _ (source : Str) (rem : List (Str × Str)) where
  -- A removal in another datastore.
  RemovedOne-LostUnused :
      (target : Str) (w w' : World)
      → str_eq target source ≡ false
      → LostUnused source rem w
      → RemovedOne w.db w.removed target w'
      → LostUnused source rem w'
  RemovedOne-LostUnused target w w' other s (d, inl e) = record {
    unused = λ l c. rw d (s.unused l (rw e at c));
  }
  RemovedOne-LostUnused target w w' other s (d, inr (k, e)) = record {
    unused = λ l c.
        let c' : Contains (source, l) ((target, k) ∷ w.removed) = rw e at c in
        elim c' [
          | inl here ↦
              let same : source ≡ target = ap (λ (p : Str × Str). p.0) here in
              let yes : str_eq target source ≡ true = rw same (str_eq_refl target) in
              absurd (ground (arith, yes, other))
          | inr there ↦ rw d (s.unused l there)
        ];
  }

  update_location-LostUnused :
      (target location new_location : Str) (w : World)
      → str_eq target source ≡ false
      → LostUnused source rem w
      → Post
          (λ u w'.
            LostUnused source rem w' × (any (has_location source location) w'.db.media ≡ false))
          (λ e w'. LostUnused source rem w')
          (update_location source location target new_location w)
  unfolding update_location update_rows exec
  update_location-LostUnused target location new_location w other s =
      elim (Bool-cases (w.env.fault w.calls)) [
        | inl e ↦ rw e (record { at = record { unused = s.unused } })
        | inr e ↦ rw e (record {
          at = (
            record {
              unused = λ l c. elim (s.unused l c) [
                | inl old ↦ inl old
                | inr (m, t) ↦ inr (
                  any-map-kept (has_location source l) _ w.db.media
                      (media-kept source target other location new_location l) m,
                  t,
                )
              ];
            },
            any-map-cleared (has_location source location) _ w.db.media
                (media-cleared source target other location new_location),
          );
        })
      ]

  update_thumbnail-LostUnused :
      (target location new_location : Str) (w : World)
      → str_eq target source ≡ false
      → LostUnused source rem w × (any (has_location source location) w.db.media ≡ false)
      → Post
          (λ u w'. LostUnused source rem w' × Unreferenced w'.db source location)
          (λ e w'. LostUnused source rem w')
          (update_thumbnail_location source location target new_location w)
  unfolding update_thumbnail_location exec
  update_thumbnail-LostUnused target location new_location w other (s, gone) =
      elim (Bool-cases (w.env.fault w.calls)) [
        | inl e ↦ rw e (record { at = record { unused = s.unused } })
        | inr e ↦ rw e (record {
          at = (
            record {
              unused = λ l c. elim (s.unused l c) [
                | inl old ↦ inl old
                | inr (m, t) ↦ inr (
                  m,
                  any-map-kept (Thumbnails.has_location source l) _ w.db.thumbnails
                      (thumbnail-kept source target other location new_location l) t,
                )
              ];
            },
            (
              gone,
              any-map-cleared (Thumbnails.has_location source location) _ w.db.thumbnails
                  (thumbnail-cleared source target other location new_location),
            ),
          );
        })
      ]

  -- A removal that no row minds.
  remove-LostUnused :
      (ds : DatastoreConfig) (location : Str) (w : World)
      → ds.id ≡ source
      → LostUnused source rem w × Unreferenced w.db source location
      → LostUnused source rem (remove ds location w).1
  remove-LostUnused ds location w same (s, gone) =
      let (r, d) = remove_lem ds location w in
      elim r [
        | inl e ↦ record { unused = λ l c. rw d (s.unused l (rw e at c)) }
        | inr e ↦ record {
          unused = λ l c.
              let c' : Contains (source, l) ((ds.id, location) ∷ w.removed) = rw e at c in
              elim c' [
                | inl here ↦
                    let at_location : l ≡ location = ap (λ (p : Str × Str). p.1) here in
                    inr (rw (d, at_location) gone)
                | inr there ↦ rw d (s.unused l there)
              ];
        }
      ]

module _ (object : Str → Str → Str) (sha256 : Str → Str) (source target : DatastoreConfig)
    (other : str_eq target.id source.id ≡ false) (rem : List (Str × Str)) where
  abbrev Fine : World → Type 0
  Fine w = LostUnused source.id rem w

  Kept-Fine : (w w' : World) → Kept w.db w.removed w' → Fine w → Fine w'
  Kept-Fine w w' k s =
      RemovedOne-LostUnused source.id rem target.id w w' other s
        (Kept-RemovedOne w.db w.removed target.id w' k)

  download-Fine :
      (location : Str) (w : World)
      → Fine w
      → Post (λ u w'. Fine w') (λ e w'. Fine w') (download object sha256 source location w)
  unfolding download
  download-Fine location w s =
      elim (Bool-cases
        (str_eq source.ds_type (codes "s3") || str_eq source.ds_type (codes "file"))) [
          | inl e ↦ rw e (
              Post-weaken _ _ _
                (ask-Kept w.db w.removed (λ _. object source.id location) w
                  (record { db_kept = refl; removed_kept = refl }))
                (λ x w' k. Kept-Fine w w' k s) (λ x w' k. Kept-Fine w w' k s))
          | inr e ↦ rw e (record { at = s })
        ]

  move_object-Fine :
      (r : VirtLastAccess) (w : World)
      → r.datastore_id ≡ source.id
      → Fine w
      → Post (λ u w'. Fine w') (λ e w'. Fine w') (move_object object sha256 source target r w)
  unfolding move_object
  move_object-Fine r w at_source s = rw at_source (
      Post-bind (download object sha256 source r.location) _ w (download-Fine r.location w s)
        λ bytes w1 s1.
          Post-bind (Datastores.upload sha256 target bytes r.size_bytes r.sha256_hash) _ w1
            (Post-weaken _ _ _
              (upload-RemovedOne w1.db w1.removed sha256 target bytes r.size_bytes r.sha256_hash w1
                (record { db_kept = refl; removed_kept = refl }))
              (λ l w' k. RemovedOne-LostUnused source.id rem target.id w1 w' other s1 k)
              (λ e w' k. RemovedOne-LostUnused source.id rem target.id w1 w' other s1 k))
            λ l w2 s2.
              Post-bind (update_location source.id r.location target.id l) _ w2
                (update_location-LostUnused source.id rem target.id r.location l w2 other s2)
                λ u w3 s3.
                  Post-bind (update_thumbnail_location source.id r.location target.id l)
                    (λ _. remove source r.location) w3
                    (update_thumbnail-LostUnused source.id rem target.id r.location l w3 other s3)
                    λ u w4 s4.
                      Post-both Fine (remove source r.location w4)
                        (remove-LostUnused source.id rem source r.location w4 refl s4))

  pub move_objects-Fine :
      (records : List VirtLastAccess) (moved : Moved) (w : World)
      → All (λ (r : VirtLastAccess). r.datastore_id ≡ source.id) records
      → Fine w
      → Post
          (λ u w'. Fine w')
          (λ e w'. Fine w')
          (move_objects object sha256 source target records moved w)
  unfolding move_objects
  move_objects-Fine [] moved w a s = record { at = s }
  move_objects-Fine (r ∷ records) moved w a s =
      elim (Option-cases (lookup (location_id r.datastore_id r.location) moved)) [
        | inr (x, e) ↦ rw (e, move_objects) (move_objects-Fine records moved w a.1 s)
        | inl e ↦
            rw (e, move_objects)
              (Post-bind {Q = λ o w'. Fine w'} (attempt (move_object object sha256 source target r))
                _ w
                (Post-attempt _ _ (move_object object sha256 source target r) w
                  (move_object-Fine r w a.0 s) (λ u w' h. h) (λ e w' h. h))
                λ o w1 s1. move_objects-Fine records _ w1 a.1 s1)
      ]
