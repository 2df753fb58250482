-- ===== src/Datastores/Sizes.antt =====
-- `SizeOfDsIdWithAge` of datastores/info.go: what a migration of a datastore would move.
use matrix_media_repo.Prelude.{Bool, List, [], ◌∷◌, any, if◌then◌else◌}
use matrix_media_repo.Prelude.Int.{ℤ, pos, add64}
use matrix_media_repo.Prelude.Text.{Str, str_eq}
use matrix_media_repo.World.{M, pure, ◌>>=◌}
use matrix_media_repo.Database.Rows.{VirtLastAccess}
use matrix_media_repo.Database.Access.{media_by_last_access, thumbnails_by_last_access}

pub record SizeEstimate : Type 0 where
  pub thumbnails_affected : ℤ
  pub thumbnail_hashes_affected : ℤ
  pub thumbnail_bytes : ℤ
  pub media_affected : ℤ
  pub media_hashes_affected : ℤ
  pub media_bytes : ℤ
  pub total_hashes_affected : ℤ
  pub total_bytes : ℤ

-- A map to `true` is the list of its keys.
abbrev pub is_seen : List Str → Str → Bool
is_seen seen hash = any (λ h. str_eq h hash) seen

abbrev pub unless_seen : Bool → ℤ → ℤ → ℤ
unless_seen seen total n = if seen then total else add64 total n

-- A record of the first loop. `seen` are the hashes of both loops, `own` those of this one.
unfoldable pub count_media :
    List VirtLastAccess → List Str → List Str → SizeEstimate → SizeEstimate × List Str
count_media [] seen own e = (e, seen)
count_media (r ∷ records) seen own e =
    count_media records (r.sha256_hash ∷ seen) (r.sha256_hash ∷ own) (record e {
      media_affected = add64 e.media_affected (pos 1);
      total_bytes = unless_seen (is_seen seen r.sha256_hash) e.total_bytes r.size_bytes;
      total_hashes_affected =
          unless_seen (is_seen seen r.sha256_hash) e.total_hashes_affected (pos 1);
      media_bytes = unless_seen (is_seen own r.sha256_hash) e.media_bytes r.size_bytes;
      media_hashes_affected =
          unless_seen (is_seen own r.sha256_hash) e.media_hashes_affected (pos 1);
    })

-- A record of the second loop.
unfoldable pub count_thumbnails :
    List VirtLastAccess → List Str → List Str → SizeEstimate → SizeEstimate
count_thumbnails [] seen own e = e
count_thumbnails (r ∷ records) seen own e =
    count_thumbnails records (r.sha256_hash ∷ seen) (r.sha256_hash ∷ own) (record e {
      thumbnails_affected = add64 e.thumbnails_affected (pos 1);
      total_bytes = unless_seen (is_seen seen r.sha256_hash) e.total_bytes r.size_bytes;
      total_hashes_affected =
          unless_seen (is_seen seen r.sha256_hash) e.total_hashes_affected (pos 1);
      thumbnail_bytes = unless_seen (is_seen own r.sha256_hash) e.thumbnail_bytes r.size_bytes;
      thumbnail_hashes_affected =
          unless_seen (is_seen own r.sha256_hash) e.thumbnail_hashes_affected (pos 1);
    })

abbrev pub nothing : SizeEstimate
nothing = record {
  thumbnails_affected = pos 0;
  thumbnail_hashes_affected = pos 0;
  thumbnail_bytes = pos 0;
  media_affected = pos 0;
  media_hashes_affected = pos 0;
  media_bytes = pos 0;
  total_hashes_affected = pos 0;
  total_bytes = pos 0;
}

-- Both loops.
unfoldable pub estimate_of : List VirtLastAccess → List VirtLastAccess → SizeEstimate
unfolding count_media count_thumbnails
estimate_of media thumbs =
    let counted = count_media media [] [] nothing in count_thumbnails thumbs counted.1 [] counted.0

-- `SizeOfDsIdWithAge`
unfoldable pub size_of_ds_id_with_age : Str → ℤ → M SizeEstimate
unfolding estimate_of
size_of_ds_id_with_age ds_id before_ts = do
  media ← media_by_last_access ds_id before_ts
  thumbs ← thumbnails_by_last_access ds_id before_ts
  pure (estimate_of media thumbs)
