-- ===== src/Migrate/Moves.antt =====
-- The rows and the files after `moveDatastoreObjects`.
use matrix_media_repo.Prelude.{
  ◌≡◌, refl, List, [], ◌∷◌, inl, inr, Contains, map-Contains, Bool-cases, Option-cases,
  if◌then◌else◌, ◌||◌,
}
use matrix_media_repo.Prelude.Text.{Str, str_eq, codes}
use matrix_media_repo.Prelude.Keys.{lookup, str_key}
use matrix_media_repo.Config.{DatastoreConfig}
use matrix_media_repo.World.{World, attempt, exec}
use matrix_media_repo.World.Rules.{Post, Post-bind, Post-weaken, Post-attempt}
use matrix_media_repo.Database.Rows.{DbMedia, VirtLastAccess}
use matrix_media_repo.Database.Media.{has_location, update_rows, update_location}
use matrix_media_repo.Database.Thumbnails.{update_thumbnail_location}
use matrix_media_repo.Datastores
use matrix_media_repo.Datastores.{remove}
use matrix_media_repo.Upload.Frame.{Unmoved, ask-Unmoved, remove-Unmoved, upload-Post}
use matrix_media_repo.Upload.Rows.{Backed, Same-Backed, NoLoss-Backed}
use matrix_media_repo.Purge.{location_id}
use matrix_media_repo.Migrate.{Moved, download, move_object, move_objects}

-- Every row after the move has a file, if the new one is in its datastore.
moved_row :
    (ds location new_ds new_location : Str) (stored : List (Str × Str)) (m m' : DbMedia)
    → Contains (m.datastore_id, m.location) stored
    → Contains (new_ds, new_location) stored
    → m' ≡ (
        if has_location ds location m
        then record m {
          locatable = record m.locatable { datastore_id = new_ds; location = new_location };
        }
        else m)
    → Contains (m'.datastore_id, m'.location) stored
moved_row ds location new_ds new_location stored m m' old new e =
    elim (Bool-cases (has_location ds location m)) [
      | inl f ↦
          let e1 : m' ≡ record m {
            locatable = record m.locatable { datastore_id = new_ds; location = new_location };
          } =
            rw f at e in
          rw e1 new
      | inr f ↦ let e1 : m' ≡ m = rw f at e in rw e1 old
    ]

update_location-Backed :
    (ds location new_ds new_location : Str) (w : World)
    → Backed w
    → Contains (new_ds, new_location) w.stored
    → Post
        (λ u w'. Backed w')
        (λ e w'. Backed w')
        (update_location ds location new_ds new_location w)
unfolding update_location update_rows exec
update_location-Backed ds location new_ds new_location w b c =
    elim (Bool-cases (w.env.fault w.calls)) [
      | inl e ↦ rw e (record { at = record { file = b.file } })
      | inr e ↦ rw e (record {
        at = record {
          file = λ m' c'.
              let (m, cm, eq) = map-Contains _ m' w.db.media c' in
              moved_row ds location new_ds new_location w.stored m m' (b.file m cm) c eq;
        };
      })
    ]

update_thumbnail-Backed :
    (ds location new_ds new_location : Str) (w : World)
    → Backed w
    → Post
        (λ u w'. Backed w')
        (λ e w'. Backed w')
        (update_thumbnail_location ds location new_ds new_location w)
unfolding update_thumbnail_location exec
update_thumbnail-Backed ds location new_ds new_location w b =
    elim (Bool-cases (w.env.fault w.calls)) [
      | inl e ↦ rw e (record { at = record { file = b.file } })
      | inr e ↦ rw e (record { at = record { file = b.file } })
    ]

module _ (object : Str → Str → Str) (sha256 : Str → Str) (source target : DatastoreConfig) where
  download-Unmoved :
      (media : List DbMedia) (stored : List (Str × Str)) (location : Str)
      → Unmoved media stored (download object sha256 source location)
  unfolding download
  download-Unmoved media stored location w s =
      elim (Bool-cases
        (str_eq source.ds_type (codes "s3") || str_eq source.ds_type (codes "file"))) [
          | inl e ↦ rw e (ask-Unmoved media stored (λ _. object source.id location) w s)
          | inr e ↦ rw e (record { at = s })
        ]

  move_object-Backed :
      (r : VirtLastAccess) (w : World)
      → Backed w
      → Post (λ u w'. Backed w') (λ e w'. Backed w') (move_object object sha256 source target r w)
  unfolding move_object
  move_object-Backed r w b =
      let media = w.db.media in
      let stored = w.stored in
      Post-bind (download object sha256 source r.location) _ w
        (Post-weaken _ _ _ (download-Unmoved media stored r.location w (refl, refl)) (λ x w' h. h)
          (λ e w' h. Same-Backed media stored w' b.file h))
        λ bytes w1 s1.
          Post-bind (Datastores.upload sha256 target bytes r.size_bytes r.sha256_hash) _ w1
            (Post-weaken _ _ _
              (upload-Post media stored sha256 target bytes r.size_bytes r.sha256_hash w1 s1)
              (λ x w' h. h) (λ e w' h. NoLoss-Backed media stored w' b.file h))
            λ l w2 s2.
              Post-bind (update_location r.datastore_id r.location target.id l) _ w2
                (update_location-Backed r.datastore_id r.location target.id l w2
                  (Same-Backed media ((target.id, l) ∷ stored) w2 (λ m c. inr (b.file m c)) s2)
                  (rw s2.1 (inl refl)))
                λ u w3 b3.
                  Post-bind (update_thumbnail_location r.datastore_id r.location target.id l)
                    (λ _. remove source r.location) w3
                    (update_thumbnail-Backed r.datastore_id r.location target.id l w3 b3)
                    λ u w4 b4.
                      Post-weaken _ _ _
                        (remove-Unmoved w4.db.media w4.stored source r.location w4 (refl, refl))
                        (λ x w' h. Same-Backed w4.db.media w4.stored w' b4.file h)
                        (λ e w' h. Same-Backed w4.db.media w4.stored w' b4.file h)

  -- If the file of every row was put in a datastore before files are moved, it is so after, whatever
  -- fails: a row points at its new file only once that is stored.
  pub move_objects-Backed :
      (records : List VirtLastAccess) (moved : Moved) (w : World)
      → Backed w
      → Post
          (λ u w'. Backed w')
          (λ e w'. Backed w')
          (move_objects object sha256 source target records moved w)
  unfolding move_objects
  move_objects-Backed [] moved w b = record { at = b }
  move_objects-Backed (r ∷ records) moved w b =
      elim (Option-cases (lookup (location_id r.datastore_id r.location) moved)) [
        | inr (x, e) ↦ rw (e, move_objects) (move_objects-Backed records moved w b)
        | inl e ↦
            rw (e, move_objects)
              (Post-bind {Q = λ o w'. Backed w'}
                (attempt (move_object object sha256 source target r)) _ w
                (Post-attempt _ _ (move_object object sha256 source target r) w
                  (move_object-Backed r w b) (λ u w' h. h) (λ e w' h. h))
                λ o w1 b1. move_objects-Backed records _ w1 b1)
      ]
