-- ===== src/Upload/Pipeline.antt =====
-- pipelines/pipeline_upload/pipeline.go and pipeline2.go. The lock and the cache of an upload are
-- calls outside the program.
use matrix_media_repo.Prelude.{
  Bool, true, false, not, ◌&&◌, ◌||◌, Option, none, some, [], length, if◌then◌else◌,
}
use matrix_media_repo.Prelude.Int.{ℤ, pos}
use matrix_media_repo.Prelude.Text.{Str, str_eq, codes}
use matrix_media_repo.Common.{
  ok, err, new, media_quarantined, already_uploaded, expired, wrong_user,
}
use matrix_media_repo.World.{
  M, pure, raise, raise_if, ask, now_millis, ignore_error, attempt, lift, ◌>>=◌, ◌>>◌,
}
use matrix_media_repo.Config.{Context, DatastoreConfig}
use matrix_media_repo.Readers.{Stream}
use matrix_media_repo.Database.Rows.{DbMedia, DbExpiringMedia}
use matrix_media_repo.Database.Media.{get_by_id, insert_media}
use matrix_media_repo.Database.Ids.{get_expiring, delete_expiring, is_expired}
use matrix_media_repo.Datastores
use matrix_media_repo.Datastores.{Kind, local_media, local_media, pick, new_unique_id, remove}
use matrix_media_repo.Quota.{can_upload}
use matrix_media_repo.Upload.Steps.{
  Upload, set_media_requires_auth, flag_access, check_quarantine_status, find_record,
  generate_media_id, buffer,
}

abbrev pub is_some : Option DbMedia → Bool
is_some none = false
is_some (some r) = true

module _ (glob : Str → Str → Bool) (sha256 : Str → Str) (ctx : Context) where
  abbrev pub new_record : Upload → Str → Str → ℤ → ℤ → DbMedia
  new_record u media_id hash size now = record {
    locatable = record { sha256_hash = hash; datastore_id = []; location = [] };
    origin = u.origin;
    media_id = media_id;
    upload_name = u.file_name;
    content_type = u.content_type;
    user_id = u.user_id;
    size_bytes = size;
    creation_ts = now;
    quarantined = false;
  }

  abbrev pub located : DbMedia → Str → Str → DbMedia
  located r ds location = record r {
    locatable = record r.locatable { datastore_id = ds; location = location };
  }

  -- What follows an accepted INSERT: the freeze, and `uploadDone`.
  unfoldable pub finish : DbMedia → M (Option DbMedia)
  finish r = do
    if ctx.main.freeze_unauthenticated_media
        then set_media_requires_auth r.origin r.media_id
        else pure tt
    flag_access r.sha256_hash
    ignore_error (ask (λ _. tt))
    pure (some r)

  -- Step 14: where the row is refused the object is removed again, and an error of that is logged.
  unfoldable pub insert_or_remove : DatastoreConfig → Str → DbMedia → M (Unit {0})
  insert_or_remove ds location m w =
      let (r, w1) = insert_media m w in
      elim r [ ok u ↦ (ok tt, w1) | err e ↦ (err e, (ignore_error (remove ds location) w1).1) ]

  -- Steps 11 to 14: no duplicate was found.
  unfoldable pub store_new : DatastoreConfig → Str → DbMedia → M (Option DbMedia)
  unfolding finish insert_or_remove
  store_new ds bytes r = do
    location ← Datastores.upload sha256 ds bytes r.size_bytes r.sha256_hash
    insert_or_remove ds location (located r ds.id location)
    finish (located r ds.id location)

  -- Another record has the hash: its file is used, and its quarantine flag kept.
  unfoldable pub reuse : DbMedia → DbMedia → M (Option DbMedia)
  unfolding finish
  reuse old r = do
    let m = record (located r old.datastore_id old.location) { quarantined = old.quarantined }
    insert_media m
    finish m

  abbrev pub dispatch :
      Bool → DatastoreConfig → Str → DbMedia → Option DbMedia × Bool → M (Option DbMedia)
  dispatch must_use_media_id ds bytes r (none, perfect) = store_new ds bytes r
  dispatch must_use_media_id ds bytes r (some old, perfect) =
      if perfect && not must_use_media_id then pure (some old) else reuse old r

  -- Step 7.
  unfoldable pub within_quota : Upload → ℤ → M (Unit {0})
  within_quota u size =
      if not (str_eq u.user_id []) && not ctx.main.is_import_process
      then can_upload glob ctx u.user_id size
      else pure tt

  -- Steps 9 to 14.
  unfoldable pub under_lock : Upload → Bool → Str → DatastoreConfig → Str → M (Option DbMedia)
  unfolding store_new reuse
  under_lock u must_use_media_id media_id ds bytes = do
    now ← now_millis
    found ← find_record (sha256 bytes) u.user_id u.content_type u.file_name
    dispatch must_use_media_id ds bytes
        (new_record u media_id (sha256 bytes) (pos (length bytes)) now) found

  -- Steps 6 to 14. The lock of step 8 is a call that may fail.
  unfoldable pub accept : Upload → Bool → Str → DatastoreConfig → Str → M (Option DbMedia)
  unfolding within_quota under_lock
  accept u must_use_media_id media_id ds bytes = do
    check_quarantine_status (sha256 bytes)
    within_quota u (pos (length bytes))
    ask (λ _. tt)
    under_lock u must_use_media_id media_id ds bytes

  -- Step 4, the answer of the spam checkers. Where they fail the handler returns `err`, which is nil
  -- at that point, and no record.
  abbrev pub after_spam : Option Bool → M (Option DbMedia) → M (Option DbMedia)
  after_spam none rest = pure none
  after_spam (some true) rest = raise media_quarantined
  after_spam (some false) rest = rest

  abbrev pub known_type : DatastoreConfig → Bool
  known_type ds = str_eq ds.ds_type (codes "s3") || str_eq ds.ds_type (codes "file")

  -- `datastores.BufferTemp`: the temporary file can fail, and so can the stream.
  unfoldable pub buffer_temp : DatastoreConfig → Kind → Stream → M Str
  buffer_temp ds kind r = do
    raise_if (not (known_type ds)) (new (codes "unknown datastore type - contact developer"))
    ask (λ _. tt)
    lift (buffer ctx kind r)

  -- Step 2.
  unfoldable pub media_id_for : Upload → Str → M Str
  media_id_for u media_id =
      if not (str_eq media_id []) then pure media_id else generate_media_id ctx u.origin

  -- `pipeline_upload.Execute`. An empty media ID asks for a new one.
  unfoldable pub execute : Upload → Str → Stream → M (Option DbMedia)
  unfolding accept media_id_for buffer_temp
  execute u media_id r = do
    media_id' ← media_id_for u media_id
    ds ← pick ctx u.kind
    bytes ← buffer_temp ds u.kind r
    spam ← attempt (ask (λ w. w.env.is_spam w.calls))
    after_spam spam (accept u (not (str_eq media_id [])) media_id' ds bytes)

  abbrev pub expiry : Option DbExpiringMedia → M DbExpiringMedia
  expiry none = raise expired
  expiry (some r) = do e ← is_expired r; raise_if e expired; pure r

  -- `pipeline_upload.ExecutePut`: an upload to an ID that `create` gave out.
  unfoldable pub execute_put : Upload → Str → Stream → M (Option DbMedia)
  execute_put u media_id r = do
    existing ← get_by_id u.origin media_id
    raise_if (is_some existing) already_uploaded
    held ← get_expiring u.origin media_id
    hold ← expiry held
    raise_if (not (str_eq hold.user_id u.user_id)) wrong_user
    uploaded ← execute (record u { kind = local_media }) media_id r
    ignore_error (delete_expiring u.origin media_id)
    pure uploaded
