-- ===== src/Quarantine/Flags.antt =====
-- The flags that `QuarantineMedia` leaves on the rows.
use matrix_media_repo.Prelude.{
  ◌≡◌, refl, Bool, true, false, not, ◌&&◌, some, List, [], ◌∷◌, filter, inl, inr, ◌⊎◌, Contains,
  Bool-cases, arith, if◌then◌else◌, filter-Contains, map-Contains, any-Contains,
}
use matrix_media_repo.Prelude.Int.{ℤ, pos, add64}
use matrix_media_repo.Prelude.Text.{Str, str_eq, str_eq_refl}
use matrix_media_repo.World.{World, exec, ask, tick}
use matrix_media_repo.World.Rules.{Post, Post-bind, Post-weaken, exec_lem}
use matrix_media_repo.Database.Rows.{Tables, DbMedia}
use matrix_media_repo.Database.Media.{has_id, has_hash, update_rows}
use matrix_media_repo.Database.Quarantine.{
  is_pinned, to_flag, is_flagged, flag_rows, flag, update_quarantine_by_hash,
  update_quarantine_by_hash_and_origin,
}
use matrix_media_repo.Quarantine.{flag_record, quarantine_records}

-- The rows that a record's statement is about.
abbrev pub concerned : Str → DbMedia → DbMedia → Bool
concerned only_host r =
    if not (str_eq only_host [])
    then (λ m. str_eq m.origin r.origin && has_hash r.sha256_hash m)
    else has_hash r.sha256_hash

-- The loop does not pass over the record.
abbrev pub is_handled : Str → DbMedia → Bool
is_handled only_host r = not (not (str_eq only_host []) && not (str_eq only_host r.origin))

-- Each of the rows is pinned or quarantined.
pub record Hidden (wanted : DbMedia → Bool) (t : Tables) : Type 0 where
  pub hides :
      (m : DbMedia)
      → Contains m t.media
      → wanted m ≡ true
      → (is_pinned t m ≡ true) ⊎ (m.quarantined ≡ true)

module _ (wanted : DbMedia → Bool) (t : Tables) where
  open_row :
      (m : DbMedia)
      → Contains m t.media
      → wanted m ≡ true
      → is_flagged wanted true t m ≡ false
      → (is_pinned t m ≡ true) ⊎ (m.quarantined ≡ true)
  open_row m c h n = elim (Bool-cases (to_flag wanted true t m)) [
    | inl e ↦
        let found : is_flagged wanted true t m ≡ true =
          any-Contains (has_id m.origin m.media_id) m (filter (to_flag wanted true t) t.media)
            (filter-Contains (to_flag wanted true t) m t.media c e)
            (ground (arith, str_eq_refl m.origin, str_eq_refl m.media_id)) in
        cc
    | inr e ↦ ground (arith, h, e)
  ]

  abbrev flag_row : DbMedia → DbMedia
  flag_row m = if is_flagged wanted true t m then record m { quarantined = true } else m

  covered_row :
      (m m' : DbMedia)
      → Contains m t.media
      → m' ≡ flag_row m
      → wanted m' ≡ true
      → (is_pinned t m' ≡ true) ⊎ (m'.quarantined ≡ true)
  covered_row m m' c e h = elim (Bool-cases (is_flagged wanted true t m)) [
    | inl f ↦ inr (rw (e, f) refl)
    | inr f ↦ let e1 : m' ≡ m = rw f at e in rw e1 (open_row m c (rw e1 at h) f)
  ]

  kept_row :
      (other : DbMedia → Bool)
      → Hidden other t
      → (m m' : DbMedia) → Contains m t.media
      → m' ≡ flag_row m
      → other m' ≡ true
      → (is_pinned t m' ≡ true) ⊎ (m'.quarantined ≡ true)
  kept_row other d m m' c e h = elim (Bool-cases (is_flagged wanted true t m)) [
    | inl f ↦ inr (rw (e, f) refl)
    | inr f ↦ let e1 : m' ≡ m = rw f at e in rw e1 (d.hides m c (rw e1 at h))
  ]

  flag_rows-Hidden : Hidden wanted (flag_rows wanted true t)
  unfolding flag_rows update_rows
  flag_rows-Hidden = record {
    hides =
        λ m' c h. let (m, cm, e) = map-Contains flag_row m' t.media c in covered_row m m' cm e h;
  }

  flag_rows-keeps :
      (other : DbMedia → Bool) → Hidden other t → Hidden other (flag_rows wanted true t)
  unfolding flag_rows update_rows
  flag_rows-keeps other d = record {
    hides = λ m' c h.
        let (m, cm, e) = map-Contains flag_row m' t.media c in kept_row other d m m' cm e h;
  }

flag-Post :
    (wanted : DbMedia → Bool) (w : World)
    → Post (λ n w'. w'.db ≡ flag_rows wanted true w.db) (λ e w'. w'.db ≡ w.db) (flag wanted true w)
unfolding flag
flag-Post wanted w =
    Post-bind (exec (λ t. some (flag_rows wanted true t))) _ w
      (Post-weaken _ _ _ (exec_lem (λ t. some (flag_rows wanted true t)) w)
        (λ u w' (db, s, e). let d : flag_rows wanted true w.db ≡ db = cc in rw (e, ← d) refl)
        (λ e w' q. rw q refl))
      λ u w1 e. record { at = e }

module _ (only_host : Str) where
  flag_record-Post :
      (r : DbMedia) (w : World)
      → Post
          (λ n w'. w'.db ≡ flag_rows (concerned only_host r) true w.db)
          (λ e w'. Unit)
          (flag_record only_host r w)
  unfolding update_quarantine_by_hash update_quarantine_by_hash_and_origin
  flag_record-Post r w = elim (Bool-cases (not (str_eq only_host []))) [
    | inl e ↦ rw e (
        Post-weaken _ _ _ (flag-Post (λ m. str_eq m.origin r.origin && has_hash r.sha256_hash m) w)
          (λ n w' d. d) (λ e w' d. tt))
    | inr e ↦
        rw e (Post-weaken _ _ _ (flag-Post (has_hash r.sha256_hash) w) (λ n w' d. d) (λ e w' d. tt))
  ]

  abbrev AllHidden : List DbMedia → Tables → Type 0
  AllHidden done t = (r : DbMedia) → Contains r done → Hidden (concerned only_host r) t

  AllHidden-add :
      (r : DbMedia) (done : List DbMedia) (t : Tables)
      → AllHidden done t
      → AllHidden (r ∷ done) (flag_rows (concerned only_host r) true t)
  AllHidden-add r done t h x (inl e) = rw e (flag_rows-Hidden (concerned only_host r) t)
  AllHidden-add r done t h x (inr c) =
      flag_rows-keeps (concerned only_host r) t (concerned only_host x) (h x c)

  -- What the loop has done once it is over.
  abbrev Done : List DbMedia → List DbMedia → Tables → Type 0
  Done done records t =
      (r : DbMedia)
      → Contains r done ⊎ (Contains r records × (is_handled only_host r ≡ true))
      → Hidden (concerned only_host r) t

  passed_over :
      (x : DbMedia) (records done : List DbMedia) (r : DbMedia)
      → is_handled only_host x ≡ false
      → Contains r done ⊎ (Contains r (x ∷ records) × (is_handled only_host r ≡ true))
      → Contains r done ⊎ (Contains r records × (is_handled only_host r ≡ true))
  passed_over x records done r e (inl d) = inl d
  passed_over x records done r e (inr (inl same, g)) =
      let g' : is_handled only_host x ≡ true = rw same at g in cc
  passed_over x records done r e (inr (inr c, g)) = inr (c, g)

  handled_first :
      (x : DbMedia) (records done : List DbMedia) (r : DbMedia)
      → Contains r done ⊎ (Contains r (x ∷ records) × (is_handled only_host r ≡ true))
      → Contains r (x ∷ done) ⊎ (Contains r records × (is_handled only_host r ≡ true))
  handled_first x records done r (inl d) = inl (inr d)
  handled_first x records done r (inr (inl same, g)) = inl (inl same)
  handled_first x records done r (inr (inr c, g)) = inr (c, g)

  quarantine_records-Done :
      (records done : List DbMedia) (total : ℤ) (w : World)
      → AllHidden done w.db
      → Post
          (λ n w'. Done done records w'.db)
          (λ e w'. Unit)
          (quarantine_records only_host records total w)
  unfolding quarantine_records ask
  quarantine_records-Done [] done total w h = record {
    at = λ r c. elim c [ inl d ↦ h r d | inr (n, g) ↦ absurd n ];
  }
  quarantine_records-Done (x ∷ records) done total w h =
      elim (Bool-cases (is_handled only_host x)) [
        | inr e ↦
            let e1 : not (str_eq only_host []) && not (str_eq only_host x.origin) ≡ true =
              ground (arith, e) in
            rw e1 (
              Post-weaken _ _ _ (quarantine_records-Done records done total w h)
                (λ n w' d r c. d r (passed_over x records done r e c)) (λ e w' u. u))
        | inl e ↦
            let e1 : not (str_eq only_host []) && not (str_eq only_host x.origin) ≡ false =
              ground (arith, e) in
            rw e1 (
              Post-bind (flag_record only_host x) _ w (flag_record-Post x w) λ count w1 d1.
                Post-weaken _ _ _
                  (quarantine_records-Done records (x ∷ done) (add64 total count) (tick w1)
                    (rw d1 (AllHidden-add x done w.db h)))
                  (λ n w' d r c. d r (handled_first x records done r c)) (λ e w' u. u))
      ]

-- Whatever fails: once media are quarantined without an error, every row that has the hash of a
-- record of the list, and its origin where only one host is affected, is quarantined or pinned. Where
-- only one host is affected, this is so for the records of that host.
pub quarantine_records-Hidden :
    (only_host : Str) (records : List DbMedia) (w : World)
    → Post
        (λ n w'.
          (r : DbMedia)
          → Contains r records
          → is_handled only_host r ≡ true
          → Hidden (concerned only_host r) w'.db)
        (λ e w'. Unit)
        (quarantine_records only_host records (pos 0) w)
quarantine_records-Hidden only_host records w =
    Post-weaken _ _ _ (quarantine_records-Done only_host records [] (pos 0) w (λ r c. absurd c))
      (λ n w' d r c h. d r (inr (c, h))) (λ e w' u. u)
