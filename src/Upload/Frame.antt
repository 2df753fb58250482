-- ===== src/Upload/Frame.antt =====
-- What the steps of an upload leave alone: the rows of `media` and the stored objects.
use matrix_media_repo.Prelude.{
  ◌≡◌, refl, Bool, List, ◌∷◌, ◌++◌, Contains, inl, inr, Bool-cases, arith,
}
use matrix_media_repo.Prelude.Int.{ℤ, eqb_ℤ}
use matrix_media_repo.Prelude.Text.{Str, str_eq, codes}
use matrix_media_repo.Config.{Context, DatastoreConfig}
use matrix_media_repo.Database.Rows.{DbMedia}
use matrix_media_repo.Database.Media.{by_user_count}
use matrix_media_repo.Database.Ids.{
  insert_restricted, upsert_last_access, user_uploaded_bytes, expiring_by_user_count,
}
use matrix_media_repo.Datastores.{remove, new_unique_id, write_object, upload}
use matrix_media_repo.Quota.{can_upload, check, current}
use matrix_media_repo.World.{
  World, M, ask, query, exec, now_millis, ignore_error, remove_object, os_remove, put_object,
}
use matrix_media_repo.World.Rules.{Post, Post-bind, Post-weaken, Post-both, Post-world}
use matrix_media_repo.Upload.Steps.{set_media_requires_auth, flag_access}

-- The rows and the objects are those given.
abbrev pub Same : List DbMedia → List (Str × Str) → World → Type 0
Same media stored w = (w.db.media ≡ media) × (w.stored ≡ stored)

module _ (media : List DbMedia) (stored : List (Str × Str)) where
  abbrev pub Unmoved : {A : Type 0} → M A → Type 0
  Unmoved {A = A} m =
      (w : World)
      → Same media stored w
      → Post (λ (a : A) w'. Same media stored w') (λ e w'. Same media stored w') (m w)

  pub can_upload-Unmoved :
      (glob : Str → Str → Bool) (ctx : Context) (user_id : Str) (bytes : ℤ)
      → Unmoved (can_upload glob ctx user_id bytes)
  unfolding can_upload check current user_uploaded_bytes by_user_count expiring_by_user_count query
      ask now_millis
  can_upload-Unmoved glob ctx user_id bytes w s =
      Post-both (Same media stored) _ (ground (arith, s))

  pub ask-Unmoved : {A : Type 0} (f : World → A) → Unmoved (ask f)
  unfolding ask
  ask-Unmoved f w s = Post-both (Same media stored) _ s

  pub flag_access-Unmoved : (hash : Str) → Unmoved (flag_access hash)
  unfolding flag_access upsert_last_access exec now_millis
  flag_access-Unmoved hash w s = Post-both (Same media stored) _ (ground (arith, s))

  pub requires_auth-Unmoved :
      (origin media_id : Str) → Unmoved (set_media_requires_auth origin media_id)
  unfolding set_media_requires_auth insert_restricted exec
  requires_auth-Unmoved origin media_id w s = Post-both (Same media stored) _ (ground (arith, s))

  pub remove-Unmoved : (ds : DatastoreConfig) (location : Str) → Unmoved (remove ds location)
  unfolding remove ask remove_object os_remove
  remove-Unmoved ds location w s = Post-both (Same media stored) _ (ground (arith, s))

  pub ignored-Unmoved :
      (ds : DatastoreConfig) (location : Str) (w : World)
      → Same media stored w
      → Same media stored (ignore_error (remove ds location) w).1
  ignored-Unmoved ds location w s = Post-world (remove-Unmoved ds location w s)

module _ (media : List DbMedia) (stored : List (Str × Str)) (ds : DatastoreConfig) where
  new_unique_id-Unmoved : Unmoved media stored new_unique_id
  unfolding new_unique_id ask
  new_unique_id-Unmoved w s = Post-both (Same media stored) _ (ground (arith, s))

  put_object-Post :
      (location : Str) (w : World)
      → Same media stored w
      → Post
          (λ n w'. Same media ((ds.id, location) ∷ stored) w')
          (λ e w'. Same media stored w')
          (put_object ds.id location w)
  unfolding put_object
  put_object-Post location w s = elim (Bool-cases (w.env.fault w.calls)) [
    | inl e ↦ rw e (record { at = s })
    | inr e ↦ rw e (record { at = (s.0, rw s.1 refl) })
  ]

  write_object-Post :
      (name bytes : Str) (w : World)
      → Same media stored w
      → Post
          (λ p w'. Same media ((ds.id, p.0) ∷ stored) w')
          (λ e w'. Same media stored w')
          (write_object ds name bytes w)
  write_object-Post name bytes w s = elim (Bool-cases (str_eq ds.ds_type (codes "s3"))) [
    | inl e ↦ rw e (
        Post-bind (ask (λ _. tt)) _ w (ask-Unmoved media stored (λ _. tt) w s) λ u w1 s1.
          Post-bind (put_object ds.id _) _ w1 (put_object-Post _ w1 s1)
            λ n w2 s2. record { at = s2 })
    | inr e ↦ elim (Bool-cases (str_eq ds.ds_type (codes "file"))) [
      | inl f ↦
          rw (e, f)
            (Post-bind (put_object ds.id _) _ w (put_object-Post _ w s)
              λ n w2 s2. record { at = s2 })
      | inr f ↦ rw (e, f) (record { at = s })
    ]
  ]

-- What a failed call leaves: the rows, and at least the objects there were.
pub record NoLoss (media : List DbMedia) (stored : List (Str × Str)) (w : World) : Type 0 where
  pub rows_kept : w.db.media ≡ media
  pub objects_kept : (p : Str × Str) → Contains p stored → Contains p w.stored

module _ (media : List DbMedia) (stored : List (Str × Str)) where
  pub Same-NoLoss : (w : World) → Same media stored w → NoLoss media stored w
  Same-NoLoss w s = record { rows_kept = s.0; objects_kept = λ p c. rw s.1 c }

  added-NoLoss : (p : Str × Str) (w : World) → Same media (p ∷ stored) w → NoLoss media stored w
  added-NoLoss p w s = record { rows_kept = s.0; objects_kept = λ q c. rw s.1 (inr c) }

  pub upload-Post :
      (sha256 : Str → Str) (ds : DatastoreConfig) (bytes : Str) (size : ℤ) (hash : Str) (w : World)
      → Same media stored w
      → Post
          (λ l w'. Same media ((ds.id, l) ∷ stored) w')
          (λ e w'. NoLoss media stored w')
          (upload sha256 ds bytes size hash w)
  unfolding upload
  upload-Post sha256 ds bytes size hash w s =
      Post-bind new_unique_id _ w
        (Post-weaken _ _ _ (new_unique_id-Unmoved media stored ds w s) (λ x w' h. h)
          (λ e w' h. Same-NoLoss w' h))
        λ name w1 s1.
          Post-bind (write_object ds (name ++ codes "idv2fmt") bytes) _ w1
            (Post-weaken _ _ _ (write_object-Post media stored ds _ bytes w1 s1) (λ x w' h. h)
              (λ e w' h. Same-NoLoss w' h))
            λ (l, n) w2 s2.
              let removed =
                added-NoLoss (ds.id, l) _
                  (ignored-Unmoved media ((ds.id, l) ∷ stored) ds l w2 s2) in
              elim (Bool-cases (eqb_ℤ n size)) [
                | inl e ↦ elim (Bool-cases (str_eq (sha256 bytes) hash)) [
                  | inl f ↦ rw (e, f) (record { at = s2 })
                  | inr f ↦ rw (e, f) (record { at = removed })
                ]
                | inr e ↦ rw e (record { at = removed })
              ]
