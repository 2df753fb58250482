-- ===== src/Upload/Ids.antt =====
-- Media IDs (upload.GenerateMediaId) and the search for a duplicate (upload.FindRecord).
use matrix_media_repo.Prelude.{
  ◌≡◌, ◌∙◌, refl, ℕ, zero, suc, Bool, true, false, ◌&&◌, Option, none, some, List, [], ◌∷◌, filter,
  any, head?, inl, inr, Bool-cases, arith,
}
use matrix_media_repo.Prelude.Int.{ℤ}
use matrix_media_repo.Prelude.Text.{Str, str_eq, str_eq_refl}
use matrix_media_repo.Config.{Context}
use matrix_media_repo.Database.Rows.{Tables, DbMedia, for_create_held_reason}
use matrix_media_repo.Database.Media.{has_id, id_exists}
use matrix_media_repo.Database.Ids.{
  held_id, reserved_id, hold_row, try_insert_held, reserved_exists,
}
use matrix_media_repo.Datastores.{new_unique_id}
use matrix_media_repo.World.{World, ask, tick, now_millis, or_else}
use matrix_media_repo.World.Rules.{
  Post, Post-bind, Post-weaken, Post-both, Kept, query_lem, exec_lem,
}
use matrix_media_repo.Upload.Steps.{find_match, generate_attempts, generate_media_id}

abbrev same_upload : Str → Str → DbMedia → Bool
same_upload user_id file_name r = str_eq r.user_id user_id && str_eq r.upload_name file_name

abbrev best_of : Option DbMedia → Option DbMedia → Option DbMedia × Bool
best_of (some r) first = (some r, true)
best_of none first = (first, false)

find_match-from :
    (user_id file_name : Str) (seen : Option DbMedia) (records : List DbMedia)
    → find_match user_id file_name seen records
      ≡ best_of
          (head? (filter (same_upload user_id file_name) records))
          (elim seen [ none ↦ head? records | some m ↦ some m ])
unfolding find_match
find_match-from user_id file_name none [] = refl
find_match-from user_id file_name (some m) [] = refl
find_match-from user_id file_name none (r ∷ records) =
    ground (arith, str_eq_refl r.content_type, find_match-from user_id file_name (some r) records)
find_match-from user_id file_name (some m) (r ∷ records) =
    ground (arith, str_eq_refl r.content_type, find_match-from user_id file_name (some m) records)

best_of_eq :
    (o first : Option DbMedia)
    → best_of o first ≡ elim o [ none ↦ (first, false) | some r ↦ (some r, true) ]
best_of_eq none first = refl
best_of_eq (some r) first = refl

-- Among the records with the hash of an upload, the search returns as perfect the first whose user
-- and file name are those of the upload, whatever its content type; if there is none it returns the
-- first of all records, as not perfect, and no record if there are no records.
pub find_match_first :
    (user_id file_name : Str) (records : List DbMedia)
    → find_match user_id file_name none records
      ≡ elim (head? (filter (same_upload user_id file_name) records)) [
        | none ↦ (head? records, false)
        | some r ↦ (some r, true)
      ]
find_match_first user_id file_name records =
    rw (find_match-from user_id file_name none records)
      (best_of_eq (head? (filter (same_upload user_id file_name) records)) (head? records))

-- No medium and no reservation has the ID, and it is on hold.
pub record Fresh (origin media_id : Str) (w : World) : Type 0 where
  pub not_used : any (has_id origin media_id) w.db.media ≡ false
  pub not_reserved : any (reserved_id origin media_id) w.db.reserved_media ≡ false
  pub on_hold : any (held_id origin media_id) w.db.media_id_hold ≡ true

-- What no call of this file changes.
abbrev MediaKept : List DbMedia → World → Type 0
MediaKept media w = w.db.media ≡ media

module _ (origin : Str) (media : List DbMedia) where
  any-first :
      (media_id : Str) (now : ℤ) (t u : Tables)
      → hold_row origin media_id for_create_held_reason now t ≡ some u
      → (any (held_id origin media_id) u.media_id_hold ≡ true) × (u.media ≡ t.media)
  unfolding hold_row
  any-first media_id now t u h = elim (Bool-cases (any (held_id origin media_id) t.media_id_hold)) [
    | inl e ↦ ground arith
    | inr e ↦ ground (arith, str_eq_refl origin, str_eq_refl media_id)
  ]

  try_insert_held-Post :
      (media_id : Str) (w : World)
      → MediaKept media w
      → Post
          (λ u w'. (any (held_id origin media_id) w'.db.media_id_hold ≡ true) × MediaKept media w')
          (λ e w'. MediaKept media w')
          (try_insert_held origin media_id for_create_held_reason w)
  unfolding try_insert_held now_millis
  try_insert_held-Post media_id w k =
      Post-weaken _ _ _
        (exec_lem (hold_row origin media_id for_create_held_reason (w.env.clock w.calls)) (tick w))
        (λ u w' (db, s, e). let (a, b) = any-first media_id _ _ db s in rw e (a, b ∙ k))
        (λ e w' q. rw q k)

  drawn-kept : (w : World) → MediaKept media w → MediaKept media (or_else new_unique_id [] w).1
  unfolding new_unique_id ask
  drawn-kept w k = ground (arith, k)

  abbrev InHold : Str → World → Type 0
  InHold media_id w = (any (held_id origin media_id) w.db.media_id_hold ≡ true) × MediaKept media w

  InHold-same :
      (media_id : Str) (w w' : World)
      → InHold media_id w
      → Kept w.db w.removed w'
      → InHold media_id w'
  InHold-same media_id w w' h k = rw k.db_kept h

  -- The rows of `media` with the ID, as a value that a later statement keeps.
  exists-Post :
      (media_id : Str) (w : World)
      → InHold media_id w
      → Post
          (λ b w'. (any (has_id origin media_id) w'.db.media ≡ b) × InHold media_id w')
          (λ e w'. MediaKept media w')
          (id_exists origin media_id w)
  unfolding id_exists
  exists-Post media_id w h =
      Post-weaken _ _ _
        (query_lem (λ t. any (has_id origin media_id) t.media) w
          (record { db_kept = refl; removed_kept = refl }))
        (λ b w' (e, k). (rw (e, k.db_kept) refl, InHold-same media_id w w' h k))
        (λ e w' k. (InHold-same media_id w w' h k).1)

  reserved-Post :
      (media_id : Str) (used : Bool) (w : World)
      → InHold media_id w
      → any (has_id origin media_id) w.db.media ≡ used
      → Post
          (λ b w'.
            (any (reserved_id origin media_id) w'.db.reserved_media ≡ b)
            × (any (has_id origin media_id) w'.db.media ≡ used)
            × InHold media_id w')
          (λ e w'. MediaKept media w')
          (reserved_exists origin media_id w)
  unfolding reserved_exists
  reserved-Post media_id used w h u =
      Post-weaken _ _ _
        (query_lem (λ t. any (reserved_id origin media_id) t.reserved_media) w
          (record { db_kept = refl; removed_kept = refl }))
        (λ b w' (e, k). (rw (e, k.db_kept) refl, rw k.db_kept u, InHold-same media_id w w' h k))
        (λ e w' k. (InHold-same media_id w w' h k).1)

  generate_attempts-Post :
      (attempts : ℕ) (w : World)
      → MediaKept media w
      → Post
          (λ media_id w'. Fresh origin media_id w' × MediaKept media w')
          (λ e w'. MediaKept media w')
          (generate_attempts attempts origin w)
  unfolding generate_attempts
  generate_attempts-Post zero w k = record { at = k }
  generate_attempts-Post (suc attempts) w k =
      Post-bind {Q = λ a w'. MediaKept media w'} (or_else new_unique_id []) _ w
        (Post-both (MediaKept media) (or_else new_unique_id [] w) (drawn-kept w k))
        λ media_id w1 k1.
          Post-bind (try_insert_held origin media_id for_create_held_reason) _ w1
            (try_insert_held-Post media_id w1 k1)
            λ u w2 h2.
              Post-bind (id_exists origin media_id) _ w2 (exists-Post media_id w2 h2)
                λ exists w3 (e3, h3). elim (Bool-cases exists) [
                  | inl e ↦ rw e (generate_attempts-Post attempts w3 h3.1)
                  | inr e ↦ rw e (
                      Post-bind (reserved_exists origin media_id) _ w3
                        (reserved-Post media_id false w3 h3 (e3 ∙ e))
                        λ reserved w4 (e4, n4, h4). elim (Bool-cases reserved) [
                          | inl r ↦ rw r (generate_attempts-Post attempts w4 h4.1)
                          | inr r ↦ rw r (record {
                            at = (
                              record { not_used = n4; not_reserved = e4 ∙ r; on_hold = h4.0 },
                              h4.1,
                            );
                          })
                        ])
                ]

-- Whatever fails and whatever is drawn: an ID that `GenerateMediaId` returns for an origin is the ID
-- of no medium there and of no reservation, it is on hold, and no medium has changed; if there is an
-- error, no medium has changed.
pub generate_media_id-Fresh :
    (ctx : Context) (origin : Str) (w : World)
    → Post
        (λ media_id w'. Fresh origin media_id w' × (w'.db.media ≡ w.db.media))
        (λ e w'. w'.db.media ≡ w.db.media)
        (generate_media_id ctx origin w)
unfolding generate_media_id
generate_media_id-Fresh ctx origin w = elim (Bool-cases ctx.main.is_import_process) [
  | inl e ↦ rw e (record { at = refl })
  | inr e ↦ rw e (generate_attempts-Post origin w.db.media 10 w refl)
]
