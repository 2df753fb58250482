-- ===== src/Database/Updates.antt =====
-- The trigger on `media` and `user_stats`, where rows are updated.
use matrix_media_repo.Prelude.{
  ◌≡◌, ◌∙◌, refl, sym, Bool, true, Option, none, some, List, [], ◌∷◌, map, filter, inl, inr,
  Bool-cases, Option-cases, arith, if◌then◌else◌,
}
use matrix_media_repo.Prelude.Int.{ℤ, pos, eqb_ℤ}
use matrix_media_repo.Prelude.Text.{Str, str_eq, str_eq_iff, str_eq_refl}
use matrix_media_repo.Prelude.Keys.{Map, lookup, lookup-insert, str_key}
use matrix_media_repo.Database.Rows.{Tables, DbMedia}
use matrix_media_repo.Database.Media.{count_update, ensure, fold_rows, update_rows}
use matrix_media_repo.Database.Counted.{is_of, total, IsCount, Counted, filter-none}

lookup-ensure :
    (u v : Str) (stats : Map Str ℤ)
    → lookup u (ensure v stats) ≡ (
        if str_eq v u
        then some (elim (lookup u stats) [ none ↦ pos 0 | some n ↦ n ])
        else lookup u stats)
lookup-ensure u v stats = elim (Option-cases (lookup v stats)) [
  | inl e ↦ rw (e, ensure) (ground (arith, lookup-insert v u (pos 0) stats, str_eq_iff v u, e))
  | inr (n, e) ↦ rw (e, ensure) (ground (arith, str_eq_iff v u, e))
]

eqb_ℤ_refl : (a : ℤ) → eqb_ℤ a a ≡ true
eqb_ℤ_refl a = ground arith

-- An update of other columns makes sure that the user has a count.
count_update-same :
    (m m' : DbMedia) (stats : Map Str ℤ)
    → m'.user_id ≡ m.user_id
    → m'.size_bytes ≡ m.size_bytes
    → count_update m m' stats ≡ ensure m.user_id (ensure m.user_id stats)
count_update-same m m' stats su ss =
    rw (su, ss, count_update, str_eq_refl m.user_id, eqb_ℤ_refl m.size_bytes) refl

lookup-count_update :
    (u : Str) (m m' : DbMedia) (stats : Map Str ℤ)
    → m'.user_id ≡ m.user_id
    → m'.size_bytes ≡ m.size_bytes
    → lookup u (count_update m m' stats) ≡ (
        if is_of u m
        then some (elim (lookup u stats) [ none ↦ pos 0 | some n ↦ n ])
        else lookup u stats)
lookup-count_update u m m' stats su ss = rw (count_update-same m m' stats su ss) (
    ground
      (arith, lookup-ensure u m.user_id (ensure m.user_id stats), lookup-ensure u m.user_id stats))

module _ (change : DbMedia → DbMedia) (same_user : (m : DbMedia) → (change m).user_id ≡ m.user_id)
    (same_size : (m : DbMedia) → (change m).size_bytes ≡ m.size_bytes) where
  -- A user that has a count keeps it.
  lookup-updated :
      (u : Str) (rows : List DbMedia) (stats : Map Str ℤ) {n : ℤ}
      → lookup u stats ≡ some n
      → lookup u (fold_rows (λ m. count_update m (change m)) rows stats) ≡ some n
  unfolding fold_rows
  lookup-updated u [] stats e = e
  lookup-updated u (m ∷ rows) stats e =
      lookup-updated u rows (count_update m (change m) stats)
        (ground (arith, lookup-count_update u m (change m) stats (same_user m) (same_size m), e))

  -- A user with no row among those that are updated gets none.
  lookup-none_updated :
      (u : Str) (rows : List DbMedia) (stats : Map Str ℤ)
      → filter (is_of u) rows ≡ []
      → lookup u stats ≡ none
      → lookup u (fold_rows (λ m. count_update m (change m)) rows stats) ≡ none
  unfolding fold_rows
  lookup-none_updated u [] stats h e = e
  lookup-none_updated u (m ∷ rows) stats h e = elim (Bool-cases (is_of u m)) [
    | inl f ↦ absurd (ground (arith, h, f))
    | inr f ↦
        lookup-none_updated u rows (count_update m (change m) stats) (rw f at h)
          (lookup-count_update u m (change m) stats (same_user m) (same_size m) ∙ rw (f, e) refl)
  ]

module _ (u : Str) (f : DbMedia → DbMedia) (same_user : (m : DbMedia) → (f m).user_id ≡ m.user_id)
    (same_size : (m : DbMedia) → (f m).size_bytes ≡ m.size_bytes) where
  total-map : (media : List DbMedia) → total u (map f media) ≡ total u media
  total-map [] = refl
  total-map (m ∷ media) = rw (same_user m, same_size m, total-map media) refl

  filter-map :
      (media : List DbMedia) → filter (is_of u) media ≡ [] → filter (is_of u) (map f media) ≡ []
  filter-map [] h = refl
  filter-map (m ∷ media) h = elim (Bool-cases (is_of u m)) [
    | inl e ↦ absurd (ground (arith, h, e))
    | inr e ↦ rw (same_user m, e) (filter-map media (rw e at h))
  ]

  -- A map of the rows keeps a count that the trigger keeps.
  IsCount-map :
      (media : List DbMedia) (o : Option ℤ) → IsCount u media o → IsCount u (map f media) o
  IsCount-map media none c = filter-map media c
  IsCount-map media (some n) c = c ∙ sym (total-map media)

updated_lookup :
    (u : Str) (hit : DbMedia → Bool) (change : DbMedia → DbMedia) (media : List DbMedia)
    (stats : Map Str ℤ) (o : Option ℤ)
    → ((m : DbMedia) → (change m).user_id ≡ m.user_id)
    → ((m : DbMedia) → (change m).size_bytes ≡ m.size_bytes)
    → lookup u stats ≡ o
    → IsCount u media o
    → lookup u (fold_rows (λ m. count_update m (change m)) (filter hit media) stats) ≡ o
updated_lookup u hit change media stats none su ss e c =
    lookup-none_updated change su ss u (filter hit media) stats (filter-none u hit media c) e
updated_lookup u hit change media stats (some n) su ss e c =
    lookup-updated change su ss u (filter hit media) stats e

-- If every user's count is the sum of the sizes of the user's rows, it is so after an UPDATE that
-- leaves the user and the size of each row alone.
pub update_rows-Counted :
    (hit : DbMedia → Bool) (change : DbMedia → DbMedia) (t : Tables)
    → ((m : DbMedia) → (change m).user_id ≡ m.user_id)
    → ((m : DbMedia) → (change m).size_bytes ≡ m.size_bytes)
    → Counted t
    → Counted (update_rows hit change t)
unfolding update_rows
update_rows-Counted hit change t same_user same_size c = record {
  counts = λ u.
      rw
        (updated_lookup u hit change t.media t.user_stats (lookup u t.user_stats) same_user
          same_size refl (c.counts u))
        (IsCount-map u (λ m. if hit m then change m else m)
          (λ m. elim (Bool-cases (hit m)) [ inl e ↦ rw e (same_user m) | inr e ↦ rw e refl ])
          (λ m. elim (Bool-cases (hit m)) [ inl e ↦ rw e (same_size m) | inr e ↦ rw e refl ])
          t.media (lookup u t.user_stats) (c.counts u));
}
