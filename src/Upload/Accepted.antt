-- ===== src/Upload/Accepted.antt =====
-- What an accepted upload leaves in `media` and in the datastores.
use matrix_media_repo.Prelude.{
  ◌≡◌, ◌∙◌, ap, refl, Bool, not, ◌&&◌, Option, none, some, List, [], ◌∷◌, Contains, inl, inr,
  Bool-cases, if◌then◌else◌, length,
}
use matrix_media_repo.Prelude.Int.{ℤ, pos}
use matrix_media_repo.Prelude.Text.{Str, str_eq}
use matrix_media_repo.Common.{Result, ok, err}
use matrix_media_repo.Config.{Context, DatastoreConfig}
use matrix_media_repo.Database.Rows.{DbMedia}
use matrix_media_repo.Database.Media.{insert_row, insert_media}
use matrix_media_repo.Datastores
use matrix_media_repo.Datastores.{remove}
use matrix_media_repo.World.{World, tick, pure, ask, now_millis, ignore_error}
use matrix_media_repo.World.Rules.{Post, Post-bind, Post-weaken, Post-both, Post-world, exec_lem}
use matrix_media_repo.Upload.Steps.{
  Upload, set_media_requires_auth, flag_access, check_quarantine_status, find_record,
}
use matrix_media_repo.Upload.Pipeline.{
  new_record, located, finish, insert_or_remove, store_new, reuse, dispatch, within_quota,
  under_lock, accept,
}
use matrix_media_repo.Upload.Frame.{
  Same, Unmoved, can_upload-Unmoved, ask-Unmoved, flag_access-Unmoved, requires_auth-Unmoved,
  ignored-Unmoved, upload-Post,
}
use matrix_media_repo.Upload.Rows.{
  BackedBy, Same-Backed, NoLoss-Backed, BackedBy-add, Found, check_quarantine-Unmoved,
  find_record-Post, insert_row-media, Backed, InTable,
}

module _ (glob : Str → Str → Bool) (sha256 : Str → Str) (ctx : Context) where
  finish-Post :
      (media : List DbMedia) (stored : List (Str × Str)) (r : DbMedia) (w : World)
      → Same media stored w
      → Post
          (λ o w'. (o ≡ some r) × Same media stored w')
          (λ e w'. Same media stored w')
          (finish glob sha256 ctx r w)
  unfolding finish
  finish-Post media stored r w s =
      Post-bind {Q = λ u w'. Same media stored w'}
        (if ctx.main.freeze_unauthenticated_media
          then set_media_requires_auth r.origin r.media_id
          else pure tt)
        _ w
        (elim (Bool-cases ctx.main.freeze_unauthenticated_media) [
          | inl e ↦ rw e (requires_auth-Unmoved media stored r.origin r.media_id w s)
          | inr e ↦ rw e (record { at = s })
        ])
        λ u w1 s1.
          Post-bind (flag_access r.sha256_hash) _ w1
            (flag_access-Unmoved media stored r.sha256_hash w1 s1)
            λ u w2 s2.
              Post-bind (ignore_error (ask (λ _. tt))) (λ _. pure (some r)) w2
                (Post-both (Same media stored) (ignore_error (ask (λ _. tt)) w2)
                  (Post-world (ask-Unmoved media stored (λ _. tt) w2 s2)))
                λ u w3 s3. record { at = (refl, s3) }

  insert-Post :
      (media : List DbMedia) (stored : List (Str × Str)) (m : DbMedia) (w : World)
      → Same media stored w
      → Post (λ u w'. Same (m ∷ media) stored w') (λ e w'. Same media stored w') (insert_media m w)
  unfolding insert_media
  insert-Post media stored m w s =
      Post-weaken _ _ _ (exec_lem (insert_row m) w)
        (λ u w' (db, h, e). rw e (insert_row-media m w.db db h ∙ ap (λ x. m ∷ x) s.0, s.1))
        (λ e w' q. rw q s)

  cleaned-Post :
      (media : List DbMedia) (stored : List (Str × Str)) (ds : DatastoreConfig) (location : Str)
      (m : DbMedia) (p : Result (Unit {0}) × World)
      → Post (λ u w'. Same (m ∷ media) stored w') (λ e w'. Same media stored w') p
      → Post
          (λ (u : Unit {0}) w'. Same (m ∷ media) stored w')
          (λ e w'. Same media stored w')
          (elim p.0 [
            | ok u ↦ (ok tt, p.1)
            | err e ↦ (err e, (ignore_error (remove ds location) p.1).1)
          ])
  cleaned-Post media stored ds location m (ok u, w) h = record { at = h.at }
  cleaned-Post media stored ds location m (err e, w) h = record {
    at = ignored-Unmoved media stored ds location w h.at;
  }

  insert_or_remove-Post :
      (media : List DbMedia) (stored : List (Str × Str)) (ds : DatastoreConfig) (location : Str)
      (m : DbMedia) (w : World)
      → Same media stored w
      → Post
          (λ u w'. Same (m ∷ media) stored w')
          (λ e w'. Same media stored w')
          (insert_or_remove glob sha256 ctx ds location m w)
  unfolding insert_or_remove
  insert_or_remove-Post media stored ds location m w s =
      cleaned-Post media stored ds location m (insert_media m w) (insert-Post media stored m w s)

  -- The end of an upload, after its row is there.
  finish-Backed :
      (media : List DbMedia) (stored : List (Str × Str)) (m : DbMedia) (w : World)
      → BackedBy (m ∷ media) stored
      → Same (m ∷ media) stored w
      → Post
          (λ o w'. Backed w' × InTable m.sha256_hash o w')
          (λ e w'. Backed w')
          (finish glob sha256 ctx m w)
  finish-Backed media stored m w b s =
      Post-weaken _ _ _ (finish-Post (m ∷ media) stored m w s)
        (λ o w' (e, s'). (
          Same-Backed (m ∷ media) stored w' b s',
          record { row = m; returned = e; in_table = rw s'.0 (inl refl); hash_eq = refl },
        ))
        (λ e w' s'. Same-Backed (m ∷ media) stored w' b s')

  store_new-Backed :
      (media : List DbMedia) (stored : List (Str × Str)) (ds : DatastoreConfig) (bytes : Str)
      (r : DbMedia) (w : World)
      → BackedBy media stored
      → Same media stored w
      → Post
          (λ o w'. Backed w' × InTable r.sha256_hash o w')
          (λ e w'. Backed w')
          (store_new glob sha256 ctx ds bytes r w)
  unfolding store_new
  store_new-Backed media stored ds bytes r w b s =
      Post-bind (Datastores.upload sha256 ds bytes r.size_bytes r.sha256_hash) _ w
        (Post-weaken _ _ _ (upload-Post media stored sha256 ds bytes r.size_bytes r.sha256_hash w s)
          (λ l w' h. h) (λ e w' h. NoLoss-Backed media stored w' b h))
        λ l w1 s1.
          let m = located glob sha256 ctx r ds.id l in
          Post-bind (insert_or_remove glob sha256 ctx ds l m) _ w1
            (Post-weaken _ _ _ (insert_or_remove-Post media ((ds.id, l) ∷ stored) ds l m w1 s1)
              (λ u w' h. h)
              (λ e w' h. Same-Backed media ((ds.id, l) ∷ stored) w' (λ x c. inr (b x c)) h))
            λ u w2 s2.
              finish-Backed media ((ds.id, l) ∷ stored) m w2
                (BackedBy-add media stored ((ds.id, l) ∷ stored) m b (λ p c. inr c) (inl refl)) s2

  reuse-Backed :
      (media : List DbMedia) (stored : List (Str × Str)) (old r : DbMedia) (w : World)
      → BackedBy media stored
      → Contains old media
      → Same media stored w
      → Post
          (λ o w'. Backed w' × InTable r.sha256_hash o w')
          (λ e w'. Backed w')
          (reuse glob sha256 ctx old r w)
  unfolding reuse
  reuse-Backed media stored old r w b c s =
      let m = record (located glob sha256 ctx r old.datastore_id old.location) {
        quarantined = old.quarantined;
      } in
      Post-bind (insert_media m) (λ _. finish glob sha256 ctx m) w
        (Post-weaken _ _ _ (insert-Post media stored m w s) (λ u w' h. h)
          (λ e w' h. Same-Backed media stored w' b h))
        λ u w1 s1.
          finish-Backed media stored m w1
            (BackedBy-add media stored stored m b (λ p h. h) (b old c)) s1

  dispatch-Backed :
      (media : List DbMedia) (stored : List (Str × Str)) (must : Bool) (ds : DatastoreConfig)
      (bytes : Str) (r : DbMedia) (found : Option DbMedia × Bool) (w : World)
      → BackedBy media stored
      → Found (λ old. Contains old media × (old.sha256_hash ≡ r.sha256_hash)) found.0
      → Same media stored w
      → Post
          (λ o w'. Backed w' × InTable r.sha256_hash o w')
          (λ e w'. Backed w')
          (dispatch glob sha256 ctx must ds bytes r found w)
  dispatch-Backed media stored must ds bytes r (none, perfect) w b f s =
      store_new-Backed media stored ds bytes r w b s
  dispatch-Backed media stored must ds bytes r (some old, perfect) w b f s =
      elim (Bool-cases (perfect && not must)) [
        | inl e ↦ rw e (record {
          at = (
            Same-Backed media stored w b s,
            record { row = old; returned = refl; in_table = rw s.0 f.0; hash_eq = f.1 },
          );
        })
        | inr e ↦ rw e (reuse-Backed media stored old r w b f.0 s)
      ]

  within_quota-Unmoved :
      (media : List DbMedia) (stored : List (Str × Str)) (u : Upload) (size : ℤ)
      → Unmoved media stored (within_quota glob sha256 ctx u size)
  unfolding within_quota
  within_quota-Unmoved media stored u size w s =
      elim (Bool-cases (not (str_eq u.user_id []) && not ctx.main.is_import_process)) [
        | inl e ↦ rw e (can_upload-Unmoved media stored glob ctx u.user_id size w s)
        | inr e ↦ rw e (record { at = s })
      ]

  under_lock-Backed :
      (media : List DbMedia) (stored : List (Str × Str)) (u : Upload) (must : Bool) (media_id : Str)
      (ds : DatastoreConfig) (bytes : Str) (w : World)
      → BackedBy media stored
      → Same media stored w
      → Post
          (λ o w'. Backed w' × InTable (sha256 bytes) o w')
          (λ e w'. Backed w')
          (under_lock glob sha256 ctx u must media_id ds bytes w)
  unfolding under_lock now_millis
  under_lock-Backed media stored u must media_id ds bytes w b s =
      let now = w.env.clock w.calls in
      let r = new_record glob sha256 ctx u media_id (sha256 bytes) (pos (length bytes)) now in
      Post-bind (find_record (sha256 bytes) u.user_id u.content_type u.file_name)
        (dispatch glob sha256 ctx must ds bytes r) (tick w)
        (Post-weaken _ _ _
          (find_record-Post media stored (sha256 bytes) u.user_id u.content_type u.file_name
            (tick w) s)
          (λ x w' h. h) (λ e w' h. Same-Backed media stored w' b h))
        λ found w1 (f, s1). dispatch-Backed media stored must ds bytes r found w1 b f s1

  -- If the file of every row was put in a datastore before an upload is stored, it is so after it,
  -- whatever fails; where there is no error, the upload returns a row of the table, whose hash is
  -- that of the bytes.
  pub accept-Backed :
      (u : Upload) (must_use_media_id : Bool) (media_id : Str) (ds : DatastoreConfig) (bytes : Str)
      (w : World)
      → Backed w
      → Post
          (λ o w'. Backed w' × InTable (sha256 bytes) o w')
          (λ e w'. Backed w')
          (accept glob sha256 ctx u must_use_media_id media_id ds bytes w)
  unfolding accept
  accept-Backed u must media_id ds bytes w b =
      let media = w.db.media in
      let stored = w.stored in
      let broken =
        λ (w' : World) (s : Same media stored w'). Same-Backed media stored w' b.file s in
      Post-bind (check_quarantine_status (sha256 bytes)) _ w
        (Post-weaken _ _ _ (check_quarantine-Unmoved media stored (sha256 bytes) w (refl, refl))
          (λ x w' h. h) (λ e w' h. broken w' h))
        λ x w1 s1.
          Post-bind (within_quota glob sha256 ctx u (pos (length bytes))) _ w1
            (Post-weaken _ _ _ (within_quota-Unmoved media stored u (pos (length bytes)) w1 s1)
              (λ x w' h. h) (λ e w' h. broken w' h))
            λ x w2 s2.
              Post-bind (ask (λ _. tt)) (λ _. under_lock glob sha256 ctx u must media_id ds bytes)
                w2
                (Post-weaken _ _ _ (ask-Unmoved media stored (λ _. tt) w2 s2) (λ x w' h. h)
                  (λ e w' h. broken w' h))
                λ x w3 s3. under_lock-Backed media stored u must media_id ds bytes w3 b.file s3
