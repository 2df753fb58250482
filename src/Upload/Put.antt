-- ===== src/Upload/Put.antt =====
-- Who may upload to an ID that was given out before (pipeline_upload.ExecutePut).
use matrix_media_repo.Prelude.{
  ◌≡◌, refl, Bool, true, false, not, Option, none, some, filter, head?, inl, inr, Bool-cases, arith,
}
use matrix_media_repo.Prelude.Int.{ltb_ℤ}
use matrix_media_repo.Prelude.Text.{Str, str_eq, str_eq_iff}
use matrix_media_repo.Common.{Error, Result, ok, err, already_uploaded, wrong_user}
use matrix_media_repo.Config.{Context}
use matrix_media_repo.World.{World, raise_if, now_millis}
use matrix_media_repo.World.Rules.{Post, Post-bind, Post-weaken, query_lem}
use matrix_media_repo.Database.Rows.{DbMedia, DbExpiringMedia}
use matrix_media_repo.Database.Media.{has_id, get_by_id}
use matrix_media_repo.Database.Ids.{expiring_id, get_expiring, is_expired}
use matrix_media_repo.Readers.{Stream}
use matrix_media_repo.Upload.Steps.{Upload}
use matrix_media_repo.Upload.Pipeline.{is_some, expiry, execute_put}

-- What holds before a call holds after it.
Post-const : {A : Type 0} (P : Type 0) (p : Result A × World) → P → Post (λ a w. P) (λ e w. Unit) p
Post-const P (ok a, w) h = record { at = h }
Post-const P (err e, w) h = record { at = tt }

raise_if-Post :
    (b : Bool) (e : Error) (w : World)
    → Post (λ u w'. (b ≡ false) × (w' ≡ w)) (λ e w'. Unit) (raise_if b e w)
raise_if-Post true e w = record { at = tt }
raise_if-Post false e w = record { at = (refl, refl) }

-- The ID is on hold for the user, and no medium has it.
pub record MayPut (u : Upload) (media_id : Str) (w : World) : Type 0 where
  pub hold : DbExpiringMedia
  pub not_there : head? (filter (has_id u.origin media_id) w.db.media) ≡ none
  pub on_hold : head? (filter (expiring_id u.origin media_id) w.db.expiring_media) ≡ some hold
  pub same_user : hold.user_id ≡ u.user_id

none-of_not_some : (o : Option DbMedia) → is_some o ≡ false → o ≡ none
none-of_not_some none h = refl
none-of_not_some (some r) h = cc

module _ (glob : Str → Str → Bool) (sha256 : Str → Str) (ctx : Context) where
  expiry-Post :
      (o : Option DbExpiringMedia) (w : World)
      → Post (λ hold w'. o ≡ some hold) (λ e w'. Unit) (expiry glob sha256 ctx o w)
  unfolding is_expired now_millis
  expiry-Post none w = record { at = tt }
  expiry-Post (some r) w = elim (Bool-cases (ltb_ℤ r.expires_ts (w.env.clock w.calls))) [
    | inl e ↦ rw e (record { at = tt })
    | inr e ↦ rw e (record { at = refl })
  ]

  -- Whatever fails: if an upload to a given ID is accepted, then when it came in no medium had the
  -- ID, and the ID was on hold for the uploading user.
  pub execute_put-MayPut :
      (u : Upload) (media_id : Str) (r : Stream) (w : World)
      → Post
          (λ o w'. MayPut u media_id w)
          (λ e w'. Unit)
          (execute_put glob sha256 ctx u media_id r w)
  unfolding execute_put get_by_id get_expiring
  execute_put-MayPut u media_id r w =
      Post-bind (get_by_id u.origin media_id) _ w
        (Post-weaken _ (λ e w'. Unit) _
          (query_lem (λ t. head? (filter (has_id u.origin media_id) t.media)) w
            (record { db_kept = refl; removed_kept = refl }))
          (λ x w' h. h) (λ e w' h. tt))
        λ existing w1 (e1, k1).
          Post-bind (raise_if (is_some existing) already_uploaded) _ w1
            (raise_if-Post (is_some existing) already_uploaded w1)
            λ x w2 (absent, s2).
              Post-bind (get_expiring u.origin media_id) _ w2
                (Post-weaken _ (λ e w'. Unit) _
                  (query_lem (λ t. head? (filter (expiring_id u.origin media_id) t.expiring_media))
                    {db = w.db} {rem = w.removed} w2 (rw s2 k1))
                  (λ x w' h. h) (λ e w' h. tt))
                λ held w3 (e3, k3).
                  Post-bind (expiry glob sha256 ctx held) _ w3 (expiry-Post held w3) λ hold w4 e4.
                    Post-bind (raise_if (not (str_eq hold.user_id u.user_id)) wrong_user) _ w4
                      (raise_if-Post (not (str_eq hold.user_id u.user_id)) wrong_user w4)
                      λ x w5 (same, s5). Post-const (MayPut u media_id w) _ (record {
                        hold = hold;
                        not_there = rw (← e1) (none-of_not_some existing absent);
                        on_hold = rw (← e3) e4;
                        same_user = ground (arith, same, str_eq_iff hold.user_id u.user_id);
                      })
