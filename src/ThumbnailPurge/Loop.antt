-- ===== src/ThumbnailPurge/Loop.antt =====
-- `PurgeThumbnails` of tasks/task_runner/purge_thumbnails.go: the loop over the batches, on fuel. `lt`
-- is the order of the rows in PostgreSQL, which depends on the collation of its text columns.
use matrix_media_repo.Prelude.{
  ℕ, zero, suc, Bool, true, ◌&&◌, Option, none, some, List, [], ◌∷◌, filter, take, if◌then◌else◌,
}
use matrix_media_repo.Prelude.Int.{ℤ, pos, eqb_ℤ, leb_ℤ, sub64, mul64}
use matrix_media_repo.Config.{Context}
use matrix_media_repo.World.{M, pure, query, now_millis, ◌>>=◌}
use matrix_media_repo.Database.Rows.{DbThumbnail}
use matrix_media_repo.ThumbnailPurge.{Gone, is_old, purge_thumbnail_batch}

abbrev pub last_of : DbThumbnail → List DbThumbnail → DbThumbnail
last_of x [] = x
last_of x (y ∷ ys) = last_of y ys

-- Where no row went the next batch starts after this one.
abbrev pub next_after : ℤ → DbThumbnail → List DbThumbnail → Option DbThumbnail
next_after deleted x xs = if eqb_ℤ deleted (pos 0) then some (last_of x xs) else none

-- One batch, and `next` with the row to start after.
abbrev pub round :
    Context
    → ℤ
    → (Option DbThumbnail → Gone → M (Option (Unit {0})))
    → Gone
    → List DbThumbnail
    → M (Option (Unit {0}))
round ctx ts next gone [] = pure (some tt)
round ctx ts next gone (x ∷ xs) = do
  (gone', deleted) ← purge_thumbnail_batch ctx (x ∷ xs) gone ts
  next (next_after deleted x xs) gone'

-- The milliseconds of a number of days.
abbrev pub days : ℤ → ℤ
days n = mul64 n (pos 86400000)

module _ (lt : DbThumbnail → DbThumbnail → Bool) where
  -- `ORDER BY`
  unfoldable pub place : DbThumbnail → List DbThumbnail → List DbThumbnail
  place x [] = x ∷ []
  place x (y ∷ ys) = let rest = place x ys in if lt y x then y ∷ rest else x ∷ y ∷ ys

  unfoldable pub sort_rows : List DbThumbnail → List DbThumbnail
  unfolding place
  sort_rows [] = []
  sort_rows (x ∷ xs) = place x (sort_rows xs)

  abbrev pub is_after : Option DbThumbnail → DbThumbnail → Bool
  is_after none x = true
  is_after (some a) x = lt a x

  -- The rows that a batch is taken from.
  abbrev pub is_wanted : ℤ → Option DbThumbnail → DbThumbnail → Bool
  is_wanted ts after x = is_old ts x && is_after after x

  -- `GetOlderThanBatchAfter`, and `GetOlderThanBatch` where there is no last row.
  unfoldable pub older_than_batch_after : ℤ → ℕ → Option DbThumbnail → M (List DbThumbnail)
  unfolding sort_rows
  older_than_batch_after ts limit after =
      query (λ t. take limit (sort_rows (filter (is_wanted ts after) t.thumbnails)))

  -- The loop. `none` is an end of the fuel; an error ends the loop as well.
  unfoldable pub purge_loop :
      Context → ℤ → ℕ → ℕ → Option DbThumbnail → Gone → M (Option (Unit {0}))
  unfolding older_than_batch_after
  purge_loop ctx ts limit zero after gone = pure none
  purge_loop ctx ts limit (suc fuel) after gone = do
    old ← older_than_batch_after ts limit after
    round ctx ts (purge_loop ctx ts limit fuel) gone old

  -- `PurgeThumbnails`, with batches of 1000.
  unfoldable pub purge_thumbnails : Context → ℕ → M (Option (Unit {0}))
  unfolding purge_loop
  purge_thumbnails ctx fuel =
      if leb_ℤ ctx.main.thumbnails_expire_days (pos 0) then pure (some tt) else do
        now ← now_millis
        purge_loop ctx (sub64 now (days ctx.main.thumbnails_expire_days)) 1000 fuel none []
