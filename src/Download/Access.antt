-- ===== src/Download/Access.antt =====
-- What pipeline_download.Execute refuses to serve.
use matrix_media_repo.Prelude.{
  ◌≡◌, refl, Bool, true, false, not, ◌&&◌, ◌||◌, Option, none, some, filter, inl, inr, Bool-cases,
  ◌∷◌, if◌then◌else◌, arith,
}
use matrix_media_repo.Prelude.Int.{pos}
use matrix_media_repo.Prelude.Text.{Str, codes, str_eq, str_eq_refl}
use matrix_media_repo.Common.{ok, err, external, restricted_auth}
use matrix_media_repo.Config.{Context}
use matrix_media_repo.World.{World, pure, tick, ask, query, exec, raise_if, ◌>>=◌}
use matrix_media_repo.World.Rules.{any_Post, Post, Post-bind, Post-if}
use matrix_media_repo.Database.Rows.{DbMedia, DbRestrictedMedia, restricted_requires_auth}
use matrix_media_repo.Database.Ids.{restricted_id, insert_restricted, get_all_restricted}
use matrix_media_repo.Upload.Steps.{
  does_media_require_auth, set_media_requires_auth, first_condition, flag_access,
}
use matrix_media_repo.Download.Stream.{Files, return_appropriate_thing}
use matrix_media_repo.Download.Remote.{Federation, try_download}
use matrix_media_repo.Download.Pipeline.{
  DownloadOpts, Bucket, serve, serve_known, serve_downloaded, quarantined_stream, opened, settle,
  fetch_record, charge, execute, execute_allowed,
}

-- The first condition on the medium that is about authentication asks for it.
abbrev pub is_restricted : Str → Str → World → Bool
is_restricted origin media_id w =
    first_condition (filter (restricted_id origin media_id) w.db.restricted_media)

-- The row that `SetMediaRequiresAuth` inserts.
abbrev auth_row : Str → Str → DbRestrictedMedia
auth_row origin media_id = record {
  origin = origin;
  media_id = media_id;
  condition = restricted_requires_auth;
  condition_value = codes "true";
}

requires_auth-row :
    (origin media_id : Str) (w : World)
    → (set_media_requires_auth origin media_id w).0 ≡ ok tt
    → (set_media_requires_auth origin media_id w).1.db.restricted_media
      ≡ auth_row origin media_id ∷ w.db.restricted_media
unfolding set_media_requires_auth insert_restricted exec
requires_auth-row origin media_id w done = ground arith

requires_auth-restricted :
    (origin media_id : Str) (w w' : World)
    → (set_media_requires_auth origin media_id w).0 ≡ ok tt
    → w'.db.restricted_media ≡ (set_media_requires_auth origin media_id w).1.db.restricted_media
    → is_restricted origin media_id w' ≡ true
unfolding str_eq
requires_auth-restricted origin media_id w w' done same =
    rw (same, requires_auth-row origin media_id w done, str_eq_refl origin, str_eq_refl media_id)
      refl

module _ (glob : Str → Str → Bool) (sha256 : Str → Str) (fed : Federation) (files : Files)
    (bucket : Bucket) (ctx : Context) where
  -- If `SetMediaRequiresAuth` recorded for a medium, without an error, that it asks for
  -- authentication, then in every world with the restrictions it left a caller without
  -- authentication is refused as such by `Execute`, or by the error of the SELECT if that fails;
  -- one SELECT is all that happens.
  pub execute-refuses_restricted :
      (origin media_id : Str) (opts : DownloadOpts) (w w' : World)
      → (set_media_requires_auth origin media_id w).0 ≡ ok tt
      → w'.db.restricted_media ≡ (set_media_requires_auth origin media_id w).1.db.restricted_media
      → opts.auth_provided ≡ false
      → execute glob sha256 fed files bucket ctx origin media_id opts w'
        ≡ (err (if w'.env.fault w'.calls then external w'.calls else restricted_auth), tick w')
  unfolding execute does_media_require_auth get_all_restricted query ask
  execute-refuses_restricted origin media_id opts w w' done same anonymous =
      let restricted = requires_auth-restricted origin media_id w w' done same in
      elim (Bool-cases (w'.env.fault w'.calls)) [
        | inl e ↦ rw e refl
        | inr e ↦ rw (e, restricted, anonymous) refl
      ]

  -- Bytes of a quarantined record are those of the image.
  abbrev pub Hides : DbMedia × Option Str → World → Type 0
  Hides p w = p.0.quarantined ≡ true → p.1 ≡ some (files.quarantine_image (pos 512) (pos 512))

  quarantined_stream-Post :
      (opts : DownloadOpts) (w : World)
      → Post
          (λ s w'. s ≡ some (files.quarantine_image (pos 512) (pos 512)))
          (λ e w'. Unit)
          (quarantined_stream glob sha256 fed files bucket ctx opts w)
  unfolding return_appropriate_thing ask
  quarantined_stream-Post opts w =
      elim (Bool-cases (not ctx.domain.quarantine.replace_downloads || opts.record_only)) [
        | inl e ↦ rw e (record { at = tt })
        | inr e ↦ elim (Bool-cases (w.env.fault w.calls)) [
          | inl f ↦ rw (e, f) (record { at = tt })
          | inr f ↦ rw (e, f) (record { at = refl })
        ]
      ]

  replaced-Hides :
      (opts : DownloadOpts) (r : DbMedia) (w : World)
      → Post Hides
          (λ e w'. Unit)
          ((quarantined_stream glob sha256 fed files bucket ctx opts >>= λ s. pure (r, s)) w)
  replaced-Hides opts r w =
      Post-bind (quarantined_stream glob sha256 fed files bucket ctx opts) (λ s. pure (r, s)) w
        (quarantined_stream-Post opts w) λ s w' e. record { at = λ q. e }

  known-Hides :
      (opts : DownloadOpts) (r : DbMedia) (w : World)
      → Post Hides (λ e w'. Unit) (serve_known glob sha256 fed files bucket ctx opts r w)
  unfolding serve_known
  known-Hides opts r w =
      Post-if r.quarantined _ _ w (λ e. replaced-Hides opts r w)
        λ e. Post-bind (flag_access r.sha256_hash) _ w (any_Post _) λ u w1 h.
          Post-if opts.record_only _ _ w1 (λ f. record { at = λ q. absurd (ground (arith, e, q)) })
            λ f.
              Post-bind (opened glob sha256 fed files bucket ctx opts r) (λ s. pure (r, some s)) w1
                (any_Post _) λ s w2 h2. record { at = λ q. absurd (ground (arith, e, q)) }

  downloaded-Hides :
      (opts : DownloadOpts) (got : DbMedia × Str) (w : World)
      → Post Hides (λ e w'. Unit) (serve_downloaded glob sha256 fed files bucket ctx opts got w)
  downloaded-Hides opts got w =
      Post-if got.0.quarantined _ _ w (λ e. replaced-Hides opts got.0 w)
        λ e.
          Post-bind (flag_access got.0.sha256_hash) _ w (any_Post _)
            λ u w1 h. record { at = λ q. absurd (ground (arith, e, q)) }

  serve-Hides :
      (origin media_id : Str) (opts : DownloadOpts) (found : Option DbMedia) (w : World)
      → Post Hides
          (λ e w'. Unit)
          (serve glob sha256 fed files bucket ctx origin media_id opts found w)
  unfolding serve
  serve-Hides origin media_id opts (some r) w = known-Hides opts r w
  serve-Hides origin media_id opts none w = elim (Bool-cases (not opts.fetch_remote_if_needed)) [
    | inl e ↦ rw e (record { at = tt })
    | inr e ↦ rw e (
        Post-bind (try_download glob sha256 fed ctx origin media_id) _ w (any_Post _)
          λ got w1 h. downloaded-Hides opts got w1)
  ]

  -- Whatever fails: where `Execute` returns a quarantined record, the bytes that come with it are those of
  -- the image that replaces quarantined media.
  pub execute-hides_quarantined :
      (origin media_id : Str) (opts : DownloadOpts) (w : World)
      → Post
          (λ p w'. p.0.quarantined ≡ true → p.1 ≡ some (files.quarantine_image (pos 512) (pos 512)))
          (λ e w'. Unit)
          (execute glob sha256 fed files bucket ctx origin media_id opts w)
  unfolding execute execute_allowed
  execute-hides_quarantined origin media_id opts w =
      Post-bind (does_media_require_auth origin media_id) _ w (any_Post _) λ req w1 h1.
        Post-bind (raise_if (req && not opts.auth_provided) restricted_auth) _ w1 (any_Post _)
          λ u w2 h2.
            Post-bind (fetch_record glob sha256 fed files bucket ctx origin media_id) _ w2
              (any_Post _)
              λ found w3 h3.
                Post-bind (charge glob sha256 fed files bucket ctx opts found) _ w3 (any_Post _)
                  λ did w4 h4.
                    Post-bind (serve glob sha256 fed files bucket ctx origin media_id opts found) _
                      w4 (serve-Hides origin media_id opts found w4)
                      λ served w5 h5.
                        Post-bind (settle glob sha256 fed files bucket ctx did served.0)
                          (λ v. pure served) w5 (any_Post _) λ v w6 h6. record { at = h5 }
