-- ===== src/Quota.antt =====
-- pipelines/_steps/quota/check.go: the limits of a user, and whether an upload fits them.
-- `glob` stands for github.com/ryanuber/go-glob.
pub mod Fits
use matrix_media_repo.Prelude.{Bool, true, false, not, List, [], ◌∷◌, if◌then◌else◌}
use matrix_media_repo.Prelude.Int.{ℤ, pos, negsuc, ltb_ℤ, leb_ℤ, add64}
use matrix_media_repo.Prelude.Text.{Str}
use matrix_media_repo.Common.{quota_exceeded}
use matrix_media_repo.Config.{Context, QuotaUserConfig}
use matrix_media_repo.World.{M, pure, raise, raise_if, ◌>>=◌, ◌>>◌}
use matrix_media_repo.Database.Media.{by_user_count}
use matrix_media_repo.Database.Ids.{user_uploaded_bytes, expiring_by_user_count}

-- `quota.Type`. The values that the constants do not name end in "contact developer".
pub data QuotaType : Type 0 where
  max_bytes max_pending max_count : QuotaType

-- `defaultLimit`
unfoldable pub default_limit : Context → QuotaType → ℤ
default_limit ctx max_bytes = negsuc 0
default_limit ctx max_pending = ctx.domain.uploads.max_pending
default_limit ctx max_count = pos 0

abbrev pub limit_of : QuotaUserConfig → QuotaType → ℤ
limit_of q max_bytes = q.max_bytes
limit_of q max_pending = q.max_pending
limit_of q max_count = q.max_files

-- `Current`
unfoldable pub current : Str → QuotaType → M ℤ
current user_id max_bytes = user_uploaded_bytes user_id
current user_id max_pending = expiring_by_user_count user_id
current user_id max_count = by_user_count user_id

module _ (glob : Str → Str → Bool) where
  -- The first glob that fits the user decides.
  unfoldable pub limit_from : Context → List QuotaUserConfig → Str → QuotaType → ℤ
  limit_from ctx [] user_id quota_type = default_limit ctx quota_type
  limit_from ctx (q ∷ quotas) user_id quota_type =
      if glob q.glob user_id
      then limit_of q quota_type
      else limit_from ctx quotas user_id quota_type

  -- `Limit`
  unfoldable pub limit : Context → Str → QuotaType → ℤ
  unfolding default_limit limit_from
  limit ctx user_id quota_type =
      if ctx.domain.uploads.quota.enabled
      then limit_from ctx ctx.domain.uploads.quota.user_quotas user_id quota_type
      else default_limit ctx quota_type

  -- `Check`
  unfoldable pub check : Context → Str → QuotaType → M (Unit {0})
  check ctx user_id quota_type =
      let allowed = limit ctx user_id quota_type in
      if leb_ℤ allowed (pos 0) then pure tt else do
        count ← current user_id quota_type
        raise_if (not (ltb_ℤ count allowed)) quota_exceeded

  -- `CanUpload`
  unfoldable pub can_upload : Context → Str → ℤ → M (Unit {0})
  can_upload ctx user_id bytes =
      let allowed = limit ctx user_id max_bytes in
      if ltb_ℤ allowed (pos 0) then pure tt else do
        count ← current user_id max_bytes
        raise_if (ltb_ℤ allowed (add64 count bytes)) quota_exceeded
        check ctx user_id max_count
