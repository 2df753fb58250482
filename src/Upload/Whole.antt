-- ===== src/Upload/Whole.antt =====
-- The invariant of `accept` over the whole of pipeline_upload.Execute.
use matrix_media_repo.Prelude.{
  ◌≡◌, refl, ℕ, zero, suc, Bool, true, false, not, Option, none, some, List, [], ◌∷◌, inl, inr,
  Bool-cases, arith,
}
use matrix_media_repo.Prelude.Int.{ℤ, negsuc}
use matrix_media_repo.Prelude.Text.{Str, str_eq}
use matrix_media_repo.Common.{Error, Result, ok, err}
use matrix_media_repo.Config.{Context, DatastoreConfig}
use matrix_media_repo.World.{World, raise_if, ask, query, exec, now_millis, or_else, attempt, lift}
use matrix_media_repo.World.Rules.{Post, Post-bind, Post-weaken, Post-both, Post-attempt}
use matrix_media_repo.Database.Rows.{DbMedia, for_create_held_reason}
use matrix_media_repo.Database.Media.{id_exists}
use matrix_media_repo.Database.Ids.{try_insert_held, hold_row, reserved_exists}
use matrix_media_repo.Datastores.{
  Kind, new_unique_id, estimate_datastore_size, pick_index, at_index, choose, pick, usable_for,
}
use matrix_media_repo.Readers.{Stream}
use matrix_media_repo.Upload.Steps.{Upload, generate_attempts, generate_media_id, buffer}
use matrix_media_repo.Upload.Pipeline.{
  accept, after_spam, buffer_temp, known_type, media_id_for, execute,
}
use matrix_media_repo.Upload.Frame.{Same, Unmoved, ask-Unmoved}
use matrix_media_repo.Upload.Rows.{Backed, InTable, Same-Backed}
use matrix_media_repo.Upload.Accepted.{accept-Backed}

module _ (media : List DbMedia) (stored : List (Str × Str)) where
  drawn-Unmoved : Unmoved media stored (or_else new_unique_id [])
  unfolding new_unique_id ask
  drawn-Unmoved w s = Post-both (Same media stored) _ (ground (arith, s))

  try_insert_held-Unmoved :
      (origin media_id : Str)
      → Unmoved media stored (try_insert_held origin media_id for_create_held_reason)
  unfolding try_insert_held hold_row exec now_millis
  try_insert_held-Unmoved origin media_id w s = Post-both (Same media stored) _ (ground (arith, s))

  id_exists-Unmoved : (origin media_id : Str) → Unmoved media stored (id_exists origin media_id)
  unfolding id_exists query ask
  id_exists-Unmoved origin media_id w s = Post-both (Same media stored) _ s

  reserved_exists-Unmoved :
      (origin media_id : Str) → Unmoved media stored (reserved_exists origin media_id)
  unfolding reserved_exists query ask
  reserved_exists-Unmoved origin media_id w s = Post-both (Same media stored) _ s

  generate_attempts-Unmoved :
      (attempts : ℕ) (origin : Str) → Unmoved media stored (generate_attempts attempts origin)
  unfolding generate_attempts
  generate_attempts-Unmoved zero origin w s = record { at = s }
  generate_attempts-Unmoved (suc attempts) origin w s =
      Post-bind (or_else new_unique_id []) _ w (drawn-Unmoved w s) λ media_id w1 s1.
        Post-bind (try_insert_held origin media_id for_create_held_reason) _ w1
          (try_insert_held-Unmoved origin media_id w1 s1)
          λ u w2 s2.
            Post-bind (id_exists origin media_id) _ w2 (id_exists-Unmoved origin media_id w2 s2)
              λ exists w3 s3. elim (Bool-cases exists) [
                | inl e ↦ rw e (generate_attempts-Unmoved attempts origin w3 s3)
                | inr e ↦ rw e (
                    Post-bind (reserved_exists origin media_id) _ w3
                      (reserved_exists-Unmoved origin media_id w3 s3)
                      λ reserved w4 s4. elim (Bool-cases reserved) [
                        | inl r ↦ rw r (generate_attempts-Unmoved attempts origin w4 s4)
                        | inr r ↦ rw r (record { at = s4 })
                      ])
              ]

  generate_media_id-Unmoved :
      (ctx : Context) (origin : Str) → Unmoved media stored (generate_media_id ctx origin)
  unfolding generate_media_id
  generate_media_id-Unmoved ctx origin w s = elim (Bool-cases ctx.main.is_import_process) [
    | inl e ↦ rw e (record { at = s })
    | inr e ↦ rw e (generate_attempts-Unmoved 10 origin w s)
  ]

  estimate-Unmoved : (ds_id : Str) → Unmoved media stored (estimate_datastore_size ds_id)
  unfolding estimate_datastore_size query ask
  estimate-Unmoved ds_id w s = Post-both (Same media stored) _ s

  pick_index-Unmoved :
      (size : ℤ) (usable : List DatastoreConfig) (i idx : ℕ)
      → Unmoved media stored (pick_index size usable i idx)
  unfolding pick_index
  pick_index-Unmoved size [] i idx w s = record { at = s }
  pick_index-Unmoved size (ds ∷ usable) i idx w s =
      Post-bind (estimate_datastore_size ds.id) _ w (estimate-Unmoved ds.id w s)
        λ n w1 s1. pick_index-Unmoved size usable _ _ w1 s1

  at_index-Unmoved :
      (usable : List DatastoreConfig) (idx : ℕ) → Unmoved media stored (at_index usable idx)
  at_index-Unmoved [] idx w s = record { at = s }
  at_index-Unmoved (ds ∷ usable) zero w s = record { at = s }
  at_index-Unmoved (ds ∷ usable) (suc idx) w s = at_index-Unmoved usable idx w s

  choose-Unmoved : (usable : List DatastoreConfig) → Unmoved media stored (choose usable)
  choose-Unmoved [] w s = record { at = s }
  choose-Unmoved (ds ∷ []) w s = record { at = s }
  choose-Unmoved (ds ∷ (ds' ∷ usable)) w s =
      Post-bind (pick_index (negsuc 0) (ds ∷ (ds' ∷ usable)) 0 0) (at_index (ds ∷ (ds' ∷ usable))) w
        (pick_index-Unmoved (negsuc 0) (ds ∷ (ds' ∷ usable)) 0 0 w s)
        λ idx w1 s1. at_index-Unmoved (ds ∷ (ds' ∷ usable)) idx w1 s1

  pick-Unmoved : (ctx : Context) (kind : Kind) → Unmoved media stored (pick ctx kind)
  unfolding pick
  pick-Unmoved ctx kind w s = choose-Unmoved (usable_for ctx kind) w s

  lift-Post :
      {A : Type 0} (r : Result A) (w : World)
      → Same media stored w
      → Post (λ a w'. (r ≡ ok a) × Same media stored w') (λ e w'. Same media stored w') (lift r w)
  lift-Post (ok a) w s = record { at = (refl, s) }
  lift-Post (err e) w s = record { at = s }

  raise_if-Unmoved : (b : Bool) (e : Error) → Unmoved media stored (raise_if b e)
  raise_if-Unmoved true e w s = record { at = s }
  raise_if-Unmoved false e w s = record { at = s }

-- What an upload returns: no record, where the spam checkers failed, or a row of the table with the
-- hash of the bytes that came in.
pub data Returned (hash : Str → Str) (bytes : Result Str) (o : Option DbMedia) (w : World)
    : Type 0 where
  no_record : o ≡ none → Returned hash bytes o w
  a_record : (b : Str) → bytes ≡ ok b → InTable (hash b) o w → Returned hash bytes o w

module _ (glob : Str → Str → Bool) (sha256 : Str → Str) (ctx : Context) where
  media_id_for-Unmoved :
      (media : List DbMedia) (stored : List (Str × Str)) (u : Upload) (media_id : Str)
      → Unmoved media stored (media_id_for glob sha256 ctx u media_id)
  unfolding media_id_for
  media_id_for-Unmoved media stored u media_id w s = elim (Bool-cases (not (str_eq media_id []))) [
    | inl e ↦ rw e (record { at = s })
    | inr e ↦ rw e (generate_media_id-Unmoved media stored ctx u.origin w s)
  ]

  buffer_temp-Post :
      (media : List DbMedia) (stored : List (Str × Str)) (ds : DatastoreConfig) (kind : Kind)
      (r : Stream) (w : World)
      → Same media stored w
      → Post
          (λ b w'. (buffer ctx kind r ≡ ok b) × Same media stored w')
          (λ e w'. Same media stored w')
          (buffer_temp glob sha256 ctx ds kind r w)
  unfolding buffer_temp
  buffer_temp-Post media stored ds kind r w s =
      Post-bind (raise_if (not (known_type glob sha256 ctx ds)) _) _ w
        (raise_if-Unmoved media stored (not (known_type glob sha256 ctx ds)) _ w s)
        λ u w1 s1.
          Post-bind (ask (λ _. tt)) (λ _. lift (buffer ctx kind r)) w1
            (ask-Unmoved media stored (λ _. tt) w1 s1)
            λ u w2 s2. lift-Post media stored (buffer ctx kind r) w2 s2

  after_spam-Backed :
      (o : Option Bool) (u : Upload) (must : Bool) (media_id : Str) (ds : DatastoreConfig) (b : Str)
      (bytes : Result Str) (w : World)
      → bytes ≡ ok b
      → Backed w
      → Post
          (λ o w'. Backed w' × Returned sha256 bytes o w')
          (λ e w'. Backed w')
          (after_spam glob sha256 ctx o (accept glob sha256 ctx u must media_id ds b) w)
  after_spam-Backed none u must media_id ds b bytes w e k = record { at = (k, no_record refl) }
  after_spam-Backed (some true) u must media_id ds b bytes w e k = record { at = k }
  after_spam-Backed (some false) u must media_id ds b bytes w e k =
      Post-weaken _ _ _ (accept-Backed glob sha256 ctx u must media_id ds b w k)
        (λ o w' (k', t). (k', a_record b e t)) (λ e w' k'. k')

  -- If the file of every row was put in a datastore before an upload comes in, it is so after it,
  -- whatever fails; where there is no error, the upload returns no record, or a row of the table with
  -- the hash of the bytes that the limited stream gave.
  pub execute-Backed :
      (u : Upload) (media_id : Str) (r : Stream) (w : World)
      → Backed w
      → Post
          (λ o w'. Backed w' × Returned sha256 (buffer ctx u.kind r) o w')
          (λ e w'. Backed w')
          (execute glob sha256 ctx u media_id r w)
  unfolding execute
  execute-Backed u media_id r w b =
      let media = w.db.media in
      let stored = w.stored in
      let broken =
        λ (w' : World) (s : Same media stored w'). Same-Backed media stored w' b.file s in
      Post-bind (media_id_for glob sha256 ctx u media_id) _ w
        (Post-weaken _ _ _ (media_id_for-Unmoved media stored u media_id w (refl, refl))
          (λ x w' h. h) (λ e w' h. broken w' h))
        λ media_id' w1 s1.
          Post-bind (pick ctx u.kind) _ w1
            (Post-weaken _ _ _ (pick-Unmoved media stored ctx u.kind w1 s1) (λ x w' h. h)
              (λ e w' h. broken w' h))
            λ ds w2 s2.
              Post-bind (buffer_temp glob sha256 ctx ds u.kind r) _ w2
                (Post-weaken _ _ _ (buffer_temp-Post media stored ds u.kind r w2 s2) (λ x w' h. h)
                  (λ e w' h. broken w' h))
                λ bytes w3 (e3, s3).
                  Post-bind {Q = λ o w'. Same media stored w'}
                    (attempt (ask (λ w. w.env.is_spam w.calls))) _ w3
                    (Post-attempt _ _ (ask (λ w. w.env.is_spam w.calls)) w3
                      (ask-Unmoved media stored (λ w. w.env.is_spam w.calls) w3 s3) (λ x w' h. h)
                      (λ e w' h. h))
                    λ spam w4 s4.
                      after_spam-Backed spam u (not (str_eq media_id [])) media_id' ds bytes
                        (buffer ctx u.kind r) w4 e3 (broken w4 s4)
