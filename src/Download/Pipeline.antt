-- ===== src/Download/Pipeline.antt =====
-- pipelines/pipeline_download/pipeline.go. One caller is at work: a single flight
-- (github.com/t2bot/go-singleflight-streams, go-typed-singleflight) runs the function once and hands
-- its result to each caller. Step 3 asks `errors.As` for a pointer to `ServerNotAllowedError`, of
-- which only values are made, so the call for another host is never made again.
use matrix_media_repo.Prelude.{ℕ, Bool, true, false, not, ◌&&◌, Option, none, some, if◌then◌else◌}
use matrix_media_repo.Prelude.Int.{ℤ, pos, sub64}
use matrix_media_repo.Prelude.Text.{Str}
use matrix_media_repo.Common.{
  Result, ok, err, external, media_not_found, rate_limit_exceeded, restricted_auth,
}
use matrix_media_repo.Config.{Context}
use matrix_media_repo.World.{M, pure, raise, raise_if, ask, tick, ◌>>=◌, ◌>>◌}
use matrix_media_repo.Database.Rows.{DbMedia}
use matrix_media_repo.Database.Media.{get_by_id}
use matrix_media_repo.Upload.Steps.{does_media_require_auth, flag_access}
use matrix_media_repo.Download.Stream.{
  Files, open_stream, open_or_redirect, return_appropriate_thing, wait_for_async_media,
}
use matrix_media_repo.Download.Remote.{Federation, try_download}

pub record DownloadOpts : Type 0 where
  pub fetch_remote_if_needed : Bool
  pub block_for_read_until : ℤ
  pub record_only : Bool
  pub can_redirect : Bool
  pub auth_provided : Bool

-- What the leaky bucket (github.com/t2bot/go-leaky-bucket) of a caller says to so many bytes.
pub data BucketReply : Type 0 where
  fits full broken : BucketReply

pub record Bucket : Type 0 where
  pub add : ℕ → ℤ → BucketReply
  pub drain : ℕ → ℤ → BucketReply

abbrev bucket_result : ℕ → BucketReply → Result (Unit {0})
bucket_result n fits = ok tt
bucket_result n full = err rate_limit_exceeded
bucket_result n broken = err (external n)

abbrev pub bucket_call : (ℕ → ℤ → BucketReply) → ℤ → M (Unit {0})
bucket_call reply n w = (bucket_result w.calls (reply w.calls n), tick w)

module _ (glob : Str → Str → Bool) (sha256 : Str → Str) (fed : Federation) (files : Files)
    (bucket : Bucket) (ctx : Context) where
  -- `limitBucket.Add`
  abbrev bucket_add : ℤ → M (Unit {0})
  bucket_add n = bucket_call bucket.add n

  abbrev or_wait : Str → Str → Option DbMedia → M (Option DbMedia)
  or_wait origin media_id none = wait_for_async_media files ctx origin media_id
  or_wait origin media_id (some r) = pure (some r)

  -- `fetchRecordFn`
  unfoldable pub fetch_record : Str → Str → M (Option DbMedia)
  fetch_record origin media_id = do found ← get_by_id origin media_id; or_wait origin media_id found

  -- The bytes that the bucket is asked for. The result is `didBucketMaxSize`.
  unfoldable pub charge_record : DownloadOpts → Option DbMedia → M Bool
  charge_record opts none =
      if opts.fetch_remote_if_needed
      then (do bucket_add ctx.domain.downloads_max_size_bytes; pure true)
      else pure false
  charge_record opts (some r) =
      if not opts.record_only && not r.quarantined
      then (do bucket_add r.size_bytes; pure false)
      else pure false

  -- The rate limit.
  unfoldable pub charge : DownloadOpts → Option DbMedia → M Bool
  unfolding charge_record
  charge opts found =
      if ctx.main.rate_limit_enabled
      then (do ask (λ _. tt); charge_record opts found)
      else pure false

  abbrev pub quarantined_stream : DownloadOpts → M (Option Str)
  quarantined_stream opts = do
    image ← return_appropriate_thing files ctx true opts.record_only (pos 512) (pos 512)
    pure (some image)

  abbrev pub opened : DownloadOpts → DbMedia → M Str
  opened opts r =
      if opts.can_redirect
      then open_or_redirect files ctx r.locatable
      else open_stream files ctx r.locatable

  -- Step 3: a record that is there.
  unfoldable pub serve_known : DownloadOpts → DbMedia → M (DbMedia × Option Str)
  serve_known opts r = if r.quarantined then (do s ← quarantined_stream opts; pure (r, s)) else (do
    flag_access r.sha256_hash
    if opts.record_only then pure (r, none) else (do s ← opened opts r; pure (r, some s)))

  -- Step 4: a record that has to be downloaded.
  abbrev pub serve_downloaded : DownloadOpts → DbMedia × Str → M (DbMedia × Option Str)
  serve_downloaded opts (r, bytes) =
      if r.quarantined
      then (do s ← quarantined_stream opts; pure (r, s))
      else (do flag_access r.sha256_hash; pure (r, if opts.record_only then none else some bytes))

  unfoldable pub serve : Str → Str → DownloadOpts → Option DbMedia → M (DbMedia × Option Str)
  unfolding serve_known
  serve origin media_id opts (some r) = serve_known opts r
  serve origin media_id opts none =
      if not opts.fetch_remote_if_needed
      then raise media_not_found
      else do got ← try_download glob sha256 fed ctx origin media_id; serve_downloaded opts got

  -- The difference between the largest and the actual size goes back to the bucket.
  abbrev pub settle : Bool → DbMedia → M (Unit {0})
  settle did_bucket_max_size r =
      if did_bucket_max_size
      then bucket_call bucket.drain (sub64 ctx.domain.downloads_max_size_bytes r.size_bytes)
      else pure tt

  -- `Execute` after its step 0.
  unfoldable pub execute_allowed : Str → Str → DownloadOpts → M (DbMedia × Option Str)
  unfolding fetch_record charge serve
  execute_allowed origin media_id opts = do
    found ← fetch_record origin media_id
    did_bucket_max_size ← charge opts found
    served ← serve origin media_id opts found
    settle did_bucket_max_size served.0
    pure served

  -- `Execute`
  unfoldable pub execute : Str → Str → DownloadOpts → M (DbMedia × Option Str)
  unfolding execute_allowed
  execute origin media_id opts = do
    requires_auth ← does_media_require_auth origin media_id
    raise_if (requires_auth && not opts.auth_provided) restricted_auth
    execute_allowed origin media_id opts
