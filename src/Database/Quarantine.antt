-- ===== src/Database/Quarantine.antt =====
-- `UpdateQuarantineByHash` and `UpdateQuarantineByHashAndOrigin` of
-- database/virtualtable_metadata.go.
use matrix_media_repo.Prelude.{Bool, not, ◌&&◌, some, length, filter, any, if◌then◌else◌}
use matrix_media_repo.Prelude.Int.{ℤ, pos}
use matrix_media_repo.Prelude.Text.{Str, str_eq}
use matrix_media_repo.World.{M, exec, pure, ◌>>◌}
use matrix_media_repo.Database.Rows.{Tables, DbMedia, DbMediaAttributes, purpose_pinned}
use matrix_media_repo.Database.Media.{has_id, has_hash, update_rows}

abbrev pub bool_eq : Bool → Bool → Bool
bool_eq a b = if a then b else not b

-- The row is joined with attributes whose purpose is "pinned". At most one attribute row has its
-- ID (`idx_media_attributes`), so otherwise the join gives it a NULL or another purpose.
abbrev pub is_pinned : Tables → DbMedia → Bool
is_pinned t m =
    any
      (λ (a : DbMediaAttributes).
        str_eq a.origin m.origin
        && (str_eq a.media_id m.media_id && str_eq a.purpose purpose_pinned))
      t.media_attributes

-- The rows of the WITH clause.
abbrev pub to_flag : (DbMedia → Bool) → Bool → Tables → DbMedia → Bool
to_flag wanted quarantined t m =
    wanted m && (not (is_pinned t m) && not (bool_eq m.quarantined quarantined))

-- The rows whose ID stands in the WITH clause.
abbrev pub is_flagged : (DbMedia → Bool) → Bool → Tables → DbMedia → Bool
is_flagged wanted quarantined t m =
    any (has_id m.origin m.media_id) (filter (to_flag wanted quarantined t) t.media)

unfoldable pub flag_rows : (DbMedia → Bool) → Bool → Tables → Tables
unfolding update_rows
flag_rows wanted quarantined t =
    update_rows (is_flagged wanted quarantined t) (λ m. record m { quarantined = quarantined }) t

-- The statement's `RowsAffected` comes with its success.
unfoldable pub flag : (DbMedia → Bool) → Bool → M ℤ
unfolding flag_rows
flag wanted quarantined w =
    let count = pos (length (filter (is_flagged wanted quarantined w.db) w.db.media)) in
    (exec (λ t. some (flag_rows wanted quarantined t)) >> pure count) w

unfoldable pub update_quarantine_by_hash : Str → Bool → M ℤ
unfolding flag
update_quarantine_by_hash hash quarantined = flag (has_hash hash) quarantined

unfoldable pub update_quarantine_by_hash_and_origin : Str → Str → Bool → M ℤ
unfolding flag
update_quarantine_by_hash_and_origin origin hash quarantined =
    flag (λ m. str_eq m.origin origin && has_hash hash m) quarantined
