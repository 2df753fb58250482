-- ===== src/Quota/Fits.antt =====
-- What the quota checks decide, when the database answers.
use matrix_media_repo.Prelude.{
  ◌≡◌, ◌↔◌, ◌⊎◌, Bool, true, false, List, [], ◌∷◌, ◌++◌, All, length, filter, arith, none, some,
  inl, inr, refl, Bool-cases, suc, ap,
}
use matrix_media_repo.Prelude.Int.{ℤ, pos, ◌+ℤ◌, ◌≤ℤ◌, ◌<ℤ◌, add64-eq, IsInt64}
use matrix_media_repo.Prelude.Text.{Str, str_eq}
use matrix_media_repo.Common.{ok}
use matrix_media_repo.Config.{Context, QuotaUserConfig}
use matrix_media_repo.World.Rules.{NoFaults}
use matrix_media_repo.World.{World, query}
use matrix_media_repo.Database.Rows.{Tables, DbMedia}
use matrix_media_repo.Prelude.Keys.{lookup, str_key}
use matrix_media_repo.Database.Media.{by_user_count}
use matrix_media_repo.Database.Ids.{user_uploaded_bytes}
use matrix_media_repo.Quota.{
  QuotaType, max_bytes, max_count, limit_of, default_limit, limit_from, limit, current, check,
  can_upload,
}

-- The bytes that the tables count for a user, and the number of rows.
abbrev pub uploaded : Tables → Str → ℤ
uploaded t user_id = elim (lookup user_id t.user_stats) [ none ↦ pos 0 | some n ↦ n ]

abbrev pub files : Tables → Str → ℤ
files t user_id = pos (length (filter (λ (m : DbMedia). str_eq m.user_id user_id) t.media))

module _ (glob : Str → Str → Bool) (ctx : Context) (user_id : Str) where
  -- While no call fails, and the sum of the user's bytes and the new ones is an int64, an upload is
  -- accepted exactly if the byte limit is negative, or the sum is at most that limit and the file
  -- limit is zero, negative or more than the number of the user's files.
  pub can_upload_iff :
      (bytes : ℤ) (w : World)
      → NoFaults w
      → IsInt64 (uploaded w.db user_id +ℤ bytes)
      → let byte_limit = limit glob ctx user_id max_bytes in
        let file_limit = limit glob ctx user_id max_count in
        ((can_upload glob ctx user_id bytes w).0 ≡ ok tt) ↔ (
          (byte_limit <ℤ pos 0)
          ⊎ ((uploaded w.db user_id +ℤ bytes ≤ℤ byte_limit)
              × ((file_limit ≤ℤ pos 0) ⊎ (files w.db user_id <ℤ file_limit))))
  unfolding can_upload check current user_uploaded_bytes by_user_count query
  can_upload_iff bytes w nf r =
      ground (arith, nf w.calls, nf (suc w.calls), add64-eq (uploaded w.db user_id) bytes r)

  -- The rule is the first one whose glob fits the user.
  abbrev pub FirstFit : QuotaUserConfig → List QuotaUserConfig → Type 0
  FirstFit q quotas =
      (before after : List QuotaUserConfig) × (quotas ≡ before ++ q ∷ after)
      × All (λ (x : QuotaUserConfig). glob x.glob user_id ≡ false) before
      × (glob q.glob user_id ≡ true)

  abbrev pub NoFit : List QuotaUserConfig → Type 0
  NoFit quotas = All (λ (x : QuotaUserConfig). glob x.glob user_id ≡ false) quotas

  limit_from_first :
      (quota_type : QuotaType) (quotas : List QuotaUserConfig)
      → ((q : QuotaUserConfig) × FirstFit q quotas
          × (limit_from glob ctx quotas user_id quota_type ≡ limit_of q quota_type))
        ⊎ (NoFit quotas
            × (limit_from glob ctx quotas user_id quota_type ≡ default_limit ctx quota_type))
  unfolding limit_from
  limit_from_first quota_type [] = inr (tt, refl)
  limit_from_first quota_type (x ∷ quotas) = elim (Bool-cases (glob x.glob user_id)) [
    | inl fits ↦ inl (x, ([], quotas, refl, tt, fits), rw fits refl)
    | inr misses ↦ elim (limit_from_first quota_type quotas) [
      | inl (q, (before, after, e, none_before, fits), l) ↦
          inl (q, (x ∷ before, after, ap (λ l. x ∷ l) e, (misses, none_before), fits), rw misses l)
      | inr (no_fit, l) ↦ inr ((misses, no_fit), rw misses l)
    ]
  ]

  -- For each of the three limits: quotas are enabled and the limit is that of the first rule whose
  -- glob fits the user, or it is the default and quotas are not enabled or no rule's glob fits the
  -- user.
  pub limit_first :
      (quota_type : QuotaType)
      → ((ctx.domain.uploads.quota.enabled ≡ true)
          × (q : QuotaUserConfig) × FirstFit q ctx.domain.uploads.quota.user_quotas
          × (limit glob ctx user_id quota_type ≡ limit_of q quota_type))
        ⊎ (((ctx.domain.uploads.quota.enabled ≡ false) ⊎ NoFit ctx.domain.uploads.quota.user_quotas)
            × (limit glob ctx user_id quota_type ≡ default_limit ctx quota_type))
  unfolding limit
  limit_first quota_type = elim (Bool-cases ctx.domain.uploads.quota.enabled) [
    | inr off ↦ inr (inl off, rw off refl)
    | inl on ↦ elim (limit_from_first quota_type ctx.domain.uploads.quota.user_quotas) [
      | inl (q, first, l) ↦ inl (on, q, first, rw on l)
      | inr (no_fit, l) ↦ inr (inr no_fit, rw on l)
    ]
  ]
