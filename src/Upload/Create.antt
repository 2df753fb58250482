-- ===== src/Upload/Create.antt =====
-- The ID that pipeline_create.Execute gives out.
use matrix_media_repo.Prelude.{◌≡◌, refl, Bool, any, Contains, inl, inr, Bool-cases}
use matrix_media_repo.Prelude.Int.{ℤ}
use matrix_media_repo.Prelude.Text.{Str}
use matrix_media_repo.Common.{ok}
use matrix_media_repo.Config.{Context}
use matrix_media_repo.World.{World, exec, now_millis, tick}
use matrix_media_repo.World.Rules.{Post, Post-bind, Post-weaken, Post-both}
use matrix_media_repo.Database.Rows.{DbExpiringMedia}
use matrix_media_repo.Database.Ids.{expiring_id, insert_expiring}
use matrix_media_repo.Quota.{max_pending, check}
use matrix_media_repo.Upload.Steps.{generate_media_id, create}
use matrix_media_repo.Upload.Ids.{Fresh, generate_media_id-Fresh}

abbrev hold_of : Str → Str → Str → ℤ → DbExpiringMedia
hold_of origin media_id user_id expires_ts = record {
  origin = origin;
  media_id = media_id;
  user_id = user_id;
  expires_ts = expires_ts;
}

-- The hold is stored for the user, at an ID that is used by nothing else.
pub record GivenOut (origin user_id : Str) (r : DbExpiringMedia) (w : World) : Type 0 where
  pub stored : Contains r w.db.expiring_media
  pub same_origin : r.origin ≡ origin
  pub same_user : r.user_id ≡ user_id
  pub fresh : Fresh origin r.media_id w

insert_expiring-Post :
    (origin media_id user_id : Str) (expires_ts : ℤ) (w : World)
    → Fresh origin media_id w
    → Post
        (λ u w'. GivenOut origin user_id (hold_of origin media_id user_id expires_ts) w')
        (λ e w'. Unit)
        (insert_expiring origin media_id user_id expires_ts w)
unfolding insert_expiring exec
insert_expiring-Post origin media_id user_id expires_ts w f =
    elim (Bool-cases (w.env.fault w.calls)) [
      | inl e ↦ rw e (record { at = tt })
      | inr e ↦ elim (Bool-cases (any (expiring_id origin media_id) w.db.expiring_media)) [
        | inl g ↦ rw (e, g) (record { at = tt })
        | inr g ↦
            rw (e, g)
              (record {
                at = record {
                  stored = inl refl;
                  same_origin = refl;
                  same_user = refl;
                  fresh = record {
                    not_used = f.not_used;
                    not_reserved = f.not_reserved;
                    on_hold = f.on_hold;
                  };
                };
              })
      ]
    ]

-- Whatever fails: a hold that is given out is stored for the origin and the user, and its ID is that
-- of no medium, not reserved, and on hold.
pub create-GivenOut :
    (glob : Str → Str → Bool) (ctx : Context) (origin user_id : Str) (expiration_time : ℤ)
    (w : World)
    → Post
        (λ r w'. GivenOut origin user_id r w')
        (λ e w'. Unit)
        (create glob ctx origin user_id expiration_time w)
unfolding create now_millis
create-GivenOut glob ctx origin user_id expiration_time w =
    Post-bind {Q = λ u w'. Unit} (check glob ctx user_id max_pending) _ w
      (Post-weaken _ _ _ (Post-both (λ w'. Unit) (check glob ctx user_id max_pending w) tt)
        (λ u w' h. h) (λ e w' h. h))
      λ u w1 h.
        Post-bind (generate_media_id ctx origin) _ w1
          (Post-weaken _ (λ e w'. Unit) _ (generate_media_id-Fresh ctx origin w1) (λ m w' f. f.0)
            (λ e w' f. tt))
          λ media_id w2 f.
            Post-bind (insert_expiring origin media_id user_id _) (λ _ w'. (ok _, w')) (tick w2)
              (insert_expiring-Post origin media_id user_id _ (tick w2) (record {
                not_used = f.not_used;
                not_reserved = f.not_reserved;
                on_hold = f.on_hold;
              }))
              λ u w3 g. record { at = g }
