-- ===== src/Quarantine.antt =====
-- `QuarantineMedia` of tasks/task_runner/quarantine.go.
pub mod Flags
pub mod Hosts
use matrix_media_repo.Prelude.{Bool, true, not, ◌&&◌, List, [], ◌∷◌, if◌then◌else◌}
use matrix_media_repo.Prelude.Int.{ℤ, pos, add64}
use matrix_media_repo.Prelude.Text.{Str, str_eq}
use matrix_media_repo.World.{M, pure, ask, ignore_error, ◌>>=◌, ◌>>◌}
use matrix_media_repo.Database.Rows.{DbMedia}
use matrix_media_repo.Database.Quarantine.{
  update_quarantine_by_hash, update_quarantine_by_hash_and_origin,
}
use matrix_media_repo.Purge.{QuarantineThis, resolve_media}

-- The statement for one record.
abbrev pub flag_record : Str → DbMedia → M ℤ
flag_record only_host r =
    if not (str_eq only_host [])
    then update_quarantine_by_hash_and_origin r.origin r.sha256_hash true
    else update_quarantine_by_hash r.sha256_hash true

-- The loop over the records. The cache entry is deleted by a call outside the program, whose error is
-- logged. The total that comes with an error is left out.
unfoldable pub quarantine_records : Str → List DbMedia → ℤ → M ℤ
quarantine_records only_host [] total = pure total
quarantine_records only_host (r ∷ records) total =
    if not (str_eq only_host []) && not (str_eq only_host r.origin)
    then quarantine_records only_host records total
    else do
      count ← flag_record only_host r
      ignore_error (ask (λ _. tt))
      quarantine_records only_host records (add64 total count)

unfoldable pub quarantine_media : Str → QuarantineThis → M ℤ
unfolding quarantine_records
quarantine_media only_host to_handle = do
  records ← resolve_media only_host to_handle
  quarantine_records only_host records (pos 0)
