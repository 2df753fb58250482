-- ===== src/Upload/Steps.antt =====
-- The steps of an upload: pipelines/_steps/upload/*.go, pipelines/_steps/meta/flag_access.go and
-- restrictions/auth.go, and pipelines/pipeline_create/pipeline.go.
use matrix_media_repo.Prelude.{
  ℕ, zero, suc, Bool, true, false, ◌&&◌, Option, none, some, List, [], ◌∷◌, if◌then◌else◌,
}
use matrix_media_repo.Prelude.Int.{ℤ, pos, ltb_ℤ, eqb_ℤ, add64, mul64}
use matrix_media_repo.Prelude.Text.{Str, str_eq, codes}
use matrix_media_repo.Common.{Result, new, media_quarantined}
use matrix_media_repo.World.{
  M, pure, raise, raise_if, now_millis, ignore_error, or_else, ◌>>=◌, ◌>>◌,
}
use matrix_media_repo.Config.{Context}
use matrix_media_repo.Readers.{Stream, read_all, read_limited}
use matrix_media_repo.Database.Rows.{
  DbMedia, DbExpiringMedia, DbRestrictedMedia, for_create_held_reason, restricted_requires_auth,
}
use matrix_media_repo.Database.Media.{is_hash_quarantined, get_by_hash, id_exists}
use matrix_media_repo.Database.Ids.{
  try_insert_held, reserved_exists, insert_restricted, get_all_restricted, upsert_last_access,
  insert_expiring,
}
use matrix_media_repo.Datastores.{Kind, local_media, new_unique_id}
use matrix_media_repo.Quota.{max_pending, check}

-- `restrictions.DoesMediaRequireAuth`: the first condition of the right type decides.
abbrev pub first_condition : List DbRestrictedMedia → Bool
first_condition [] = false
first_condition (r ∷ rest) =
    if str_eq r.condition restricted_requires_auth
    then str_eq r.condition_value (codes "true")
    else first_condition rest

unfoldable pub does_media_require_auth : Str → Str → M Bool
does_media_require_auth origin media_id = do
  restrictions ← get_all_restricted origin media_id
  pure (first_condition restrictions)

-- `restrictions.SetMediaRequiresAuth`
unfoldable pub set_media_requires_auth : Str → Str → M (Unit {0})
set_media_requires_auth origin media_id =
    insert_restricted origin media_id restricted_requires_auth (codes "true")

-- `meta.FlagAccess`, without its metrics.
unfoldable pub flag_access : Str → M (Unit {0})
flag_access hash = ignore_error (do now ← now_millis; upsert_last_access hash now)

-- `upload.CheckQuarantineStatus`
unfoldable pub check_quarantine_status : Str → M (Unit {0})
check_quarantine_status hash = do q ← is_hash_quarantined hash; raise_if q media_quarantined

-- The loop of `upload.FindRecord`, from the first record with the hash. It compares the content type
-- of the record with itself.
abbrev pub is_perfect : Str → Str → DbMedia → Bool
is_perfect user_id file_name r =
    str_eq r.user_id user_id
    && (str_eq r.content_type r.content_type && str_eq r.upload_name file_name)

abbrev pub or_first : Option DbMedia → DbMedia → Option DbMedia
or_first none r = some r
or_first (some m) r = some m

unfoldable pub find_match : Str → Str → Option DbMedia → List DbMedia → Option DbMedia × Bool
find_match user_id file_name hash_match [] = (hash_match, false)
find_match user_id file_name hash_match (r ∷ records) =
    let rest = find_match user_id file_name (or_first hash_match r) records in
    if is_perfect user_id file_name r then (some r, true) else rest

-- `upload.FindRecord`. The content type is an argument that the search does not use.
unfoldable pub find_record : Str → Str → Str → Str → M (Option DbMedia × Bool)
unfolding find_match
find_record hash user_id content_type file_name = do
  records ← get_by_hash hash
  pure (find_match user_id file_name none records)

-- The loop of `upload.GenerateMediaId`, over the attempts that are left. An error of `NewUniqueId`
-- is overwritten, and the ID is then empty.
unfoldable pub generate_attempts : ℕ → Str → M Str
generate_attempts zero origin =
    raise (new (codes "internal limit reached: unable to generate media ID"))
generate_attempts (suc attempts) origin =
    let again = generate_attempts attempts origin in
    do
      media_id ← or_else new_unique_id []
      try_insert_held origin media_id for_create_held_reason
      exists ← id_exists origin media_id
      if exists then again else do
        reserved ← reserved_exists origin media_id
        if reserved then again else pure media_id

unfoldable pub generate_media_id : Context → Str → M Str
unfolding generate_attempts
generate_media_id ctx origin =
    if ctx.main.is_import_process
    then raise (new (codes "media IDs should not be generated from import processes"))
    else generate_attempts 10 origin

-- `pipeline_create.Execute`. 0 is `DefaultExpirationTime`.
unfoldable pub create : (Str → Str → Bool) → Context → Str → Str → ℤ → M DbExpiringMedia
create glob ctx origin user_id expiration_time = do
  check glob ctx user_id max_pending
  media_id ← generate_media_id ctx origin
  now ← now_millis
  let expires_ts = add64 now (
      if eqb_ℤ expiration_time (pos 0)
      then mul64 ctx.domain.uploads.max_age_seconds (pos 1000)
      else expiration_time)
  insert_expiring origin media_id user_id expires_ts
  pure (record { origin = origin; media_id = media_id; user_id = user_id; expires_ts = expires_ts })

abbrev pub is_local : Kind → Bool
is_local local_media = true
is_local _ = false

-- `upload.LimitStream`, for media that a local user uploads, and the copy to a temporary file.
unfoldable pub buffer : Context → Kind → Stream → Result Str
buffer ctx kind r =
    if is_local kind && ltb_ℤ (pos 0) ctx.domain.uploads.max_size_bytes
    then read_limited ctx.domain.uploads.max_size_bytes r
    else read_all r

-- What the caller announces about a file.
pub record Upload : Type 0 where
  pub origin : Str
  pub content_type : Str
  pub file_name : Str
  pub user_id : Str
  pub kind : Kind
