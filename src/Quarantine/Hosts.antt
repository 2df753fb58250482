-- ===== src/Quarantine/Hosts.antt =====
-- The rows that `QuarantineMedia` leaves where only one host is affected.
use matrix_media_repo.Prelude.{
  ◌≡◌, refl, true, false, not, ◌&&◌, some, List, [], ◌∷◌, map, filter, length, inl, inr, Contains,
  Bool-cases, arith, Contains-filter, any-true,
}
use matrix_media_repo.Prelude.Int.{ℤ, pos, add64}
use matrix_media_repo.Prelude.Text.{Str, str_eq, str_eq_iff}
use matrix_media_repo.World.{World, exec, ask, pure, ignore_error}
use matrix_media_repo.World.Keeps.{
  Keeps, bind-Keeps, pure-Keeps, write-Keeps, ask-Keeps, bind-keeps,
}
use matrix_media_repo.Database.Rows.{Tables, DbMedia}
use matrix_media_repo.Database.Media.{has_id, has_hash, update_rows}
use matrix_media_repo.Database.Quarantine.{
  to_flag, is_flagged, flag_rows, flag, update_quarantine_by_hash_and_origin,
}
use matrix_media_repo.Purge.{QuarantineThis, resolve_media}
use matrix_media_repo.Purge.Spares.{Present}
use matrix_media_repo.Purge.Resolve.{AllRows, resolve_media-Post}
use matrix_media_repo.Quarantine.{flag_record, quarantine_records, quarantine_media}

pub map-keeps :
    {A : Type 0} (f : A → A) (a : A) (xs : List A) → Contains a xs → f a ≡ a → Contains a (map f xs)
map-keeps f a [] h e = absurd h
map-keeps f a (x ∷ xs) (inl same) e = inl (rw (← same, e) refl)
map-keeps f a (x ∷ xs) (inr c) e = inr (map-keeps f a xs c e)

module _ (m : DbMedia) where
  -- A statement about the rows of another origin does not concern the row.
  not_flagged :
      (origin hash : Str) (t : Tables)
      → str_eq m.origin origin ≡ false
      → is_flagged (λ x. str_eq x.origin origin && has_hash hash x) true t m ≡ false
  not_flagged origin hash t n =
      let wanted = λ (x : DbMedia). str_eq x.origin origin && has_hash hash x in
      elim (Bool-cases (is_flagged wanted true t m)) [
        | inr e ↦ e
        | inl e ↦
            let (x, c, same) = any-true (has_id m.origin m.media_id) _ e in
            let (d, f) = Contains-filter (to_flag wanted true t) x t.media c in
            let o : x.origin ≡ m.origin = (str_eq_iff x.origin m.origin).0 (ground (arith, same)) in
            let o' : str_eq x.origin origin ≡ true = ground (arith, f) in
            let o'' : str_eq m.origin origin ≡ true = rw o at o' in absurd (ground (arith, n, o''))
      ]

  flag-Keeps :
      (origin hash : Str)
      → str_eq m.origin origin ≡ false
      → Keeps (Present m) (flag (λ x. str_eq x.origin origin && has_hash hash x) true)
  unfolding flag flag_rows update_rows
  flag-Keeps origin hash n =
      let wanted = λ (x : DbMedia). str_eq x.origin origin && has_hash hash x in
      record {
        at = λ w c.
            (bind-Keeps (exec (λ t. some (flag_rows wanted true t)))
                (λ u. pure (pos (length (filter (is_flagged wanted true w.db) w.db.media))))
                (write-Keeps (flag_rows wanted true)
                  (λ db d. map-keeps _ m db.media d (rw (not_flagged origin hash db n) refl)))
                (λ u. pure-Keeps _)).at
              w c;
      }

  module _ (only_host : Str) (locked : str_eq only_host [] ≡ false)
      (other : str_eq m.origin only_host ≡ false) where
    flag_record-Keeps :
        (r : DbMedia)
        → str_eq only_host r.origin ≡ true
        → Keeps (Present m) (flag_record only_host r)
    unfolding update_quarantine_by_hash_and_origin
    flag_record-Keeps r e =
        rw locked
          (flag-Keeps r.origin r.sha256_hash (rw ((str_eq_iff only_host r.origin).0 e) at other))

    quarantine_records-Keeps :
        (records : List DbMedia) (total : ℤ)
        → Keeps (Present m) (quarantine_records only_host records total)
    unfolding quarantine_records
    quarantine_records-Keeps [] total = pure-Keeps total
    quarantine_records-Keeps (r ∷ records) total = elim (Bool-cases (str_eq only_host r.origin)) [
      | inr e ↦ rw (locked, e) (quarantine_records-Keeps records total)
      | inl e ↦
          let e1 : not (str_eq only_host []) && not (str_eq only_host r.origin) ≡ false =
            ground (arith, e) in
          rw e1 (
            bind-Keeps (flag_record only_host r) _ (flag_record-Keeps r e) λ count.
              bind-Keeps (ignore_error (ask (λ _. tt))) _ (record { at = (ask-Keeps (λ _. tt)).at })
                λ u. quarantine_records-Keeps records (add64 total count))
    ]

-- Whatever fails: where a host is named, a quarantine leaves each row of every other host as it is.
-- The rows that it is handed are rows of the table.
pub quarantine_media-spares_hosts :
    (only_host : Str) (to_handle : QuarantineThis) (w : World)
    → str_eq only_host [] ≡ false
    → AllRows w.db to_handle.db_media
    → (m : DbMedia) → Contains m w.db.media
    → str_eq m.origin only_host ≡ false
    → Contains m (quarantine_media only_host to_handle w).1.db.media
unfolding quarantine_media
quarantine_media-spares_hosts only_host to_handle w locked rows m c other =
    bind-keeps (λ w'. Present m w'.db) (resolve_media only_host to_handle)
      (λ records. quarantine_records only_host records (pos 0)) w
      (resolve_media-Post w.db w.removed only_host to_handle w rows
        (record { db_kept = refl; removed_kept = refl }))
      (λ records w1 (h, k).
        (quarantine_records-Keeps m only_host locked other records (pos 0)).at w1 (rw k.db_kept c))
      (λ e w1 k. rw k.db_kept c)
