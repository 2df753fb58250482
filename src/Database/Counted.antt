-- ===== src/Database/Counted.antt =====
-- The trigger on `media` and `user_stats`, where rows are inserted or deleted: a user's count and the
-- sum of the sizes of the user's rows.
use matrix_media_repo.Prelude.{
  ◌≡◌, refl, sym, ◌∙◌, ap, Bool, true, false, not, Option, none, some, List, [], ◌∷◌, filter, any,
  inl, inr, Bool-cases, Option-cases, arith, if◌then◌else◌,
}
use matrix_media_repo.Prelude.Int.{ℤ, pos, negsuc, ◌+ℤ◌, ◌-ℤ◌, int_laws}
use matrix_media_repo.Prelude.Text.{Str, str_eq, str_eq_iff}
use matrix_media_repo.Prelude.Keys.{Map, lookup, lookup-insert, str_key}
use matrix_media_repo.Database.Rows.{Tables, DbMedia}
use matrix_media_repo.Database.Media.{
  has_id, count_insert, count_delete, fold_rows, insert_row, delete_rows,
}

abbrev pub is_of : Str → DbMedia → Bool
is_of u m = str_eq m.user_id u

-- The sum of the sizes of a user's rows.
abbrev pub total : Str → List DbMedia → ℤ
total u [] = pos 0
total u (m ∷ media) = if is_of u m then m.size_bytes +ℤ total u media else total u media

-- A user with no count has no row; another user's count is the sum.
abbrev pub IsCount : Str → List DbMedia → Option ℤ → Type 0
IsCount u media none = filter (is_of u) media ≡ []
IsCount u media (some n) = n ≡ total u media

pub record Counted (t : Tables) : Type 0 where
  pub counts : (u : Str) → IsCount u t.media (lookup u t.user_stats)

pub total-none :
    (u : Str) (media : List DbMedia) → filter (is_of u) media ≡ [] → total u media ≡ pos 0
total-none u [] h = refl
total-none u (m ∷ media) h = elim (Bool-cases (is_of u m)) [
  | inl e ↦ absurd (ground (arith, h, e))
  | inr e ↦ rw e (total-none u media (rw e at h))
]

IsCount-other :
    (u : Str) (m : DbMedia) (media : List DbMedia) (o : Option ℤ)
    → is_of u m ≡ false
    → IsCount u media o
    → IsCount u (m ∷ media) o
IsCount-other u m media none e h = rw e h
IsCount-other u m media (some n) e h = rw e h

add_comm : (a b : ℤ) → a +ℤ b ≡ b +ℤ a
unfolding ◌+ℤ◌
add_comm a b = ground arith

add_zero : (a : ℤ) → a ≡ a +ℤ pos 0
unfolding ◌+ℤ◌
add_zero (pos n) = ground arith
add_zero (negsuc n) = ground arith

add_assoc : (a b c : ℤ) → a +ℤ (b +ℤ c) ≡ a +ℤ b +ℤ c
add_assoc a b c = grind int_laws

add_swap : (a b c : ℤ) → a +ℤ (b +ℤ c) ≡ b +ℤ (a +ℤ c)
add_swap a b c = grind int_laws

sub_add : (a b c : ℤ) → (a +ℤ b) +ℤ c -ℤ a ≡ b +ℤ c
sub_add a b c = grind int_laws

-- The counts after one row is added, and after one is taken away.
lookup-count_insert :
    (u : Str) (m : DbMedia) (stats : Map Str ℤ)
    → lookup u (count_insert m stats) ≡ (
        if is_of u m
        then some (elim (lookup u stats) [ none ↦ m.size_bytes | some n ↦ n +ℤ m.size_bytes ])
        else lookup u stats)
lookup-count_insert u m stats = elim (Option-cases (lookup m.user_id stats)) [
  | inl e ↦
      rw (e, count_insert)
        (ground (arith, lookup-insert m.user_id u m.size_bytes stats, str_eq_iff m.user_id u, e))
  | inr (n, e) ↦
      rw (e, count_insert)
        (ground
          (arith, lookup-insert m.user_id u (n +ℤ m.size_bytes) stats, str_eq_iff m.user_id u, e))
]

lookup-count_delete :
    (u : Str) (m : DbMedia) (stats : Map Str ℤ)
    → lookup u (count_delete m stats) ≡ (
        if is_of u m
        then elim (lookup u stats) [ none ↦ none | some n ↦ some (n -ℤ m.size_bytes) ]
        else lookup u stats)
lookup-count_delete u m stats = elim (Option-cases (lookup m.user_id stats)) [
  | inl e ↦ rw (e, count_delete) (ground (arith, str_eq_iff m.user_id u, e))
  | inr (n, e) ↦
      rw (e, count_delete)
        (ground
          (arith, lookup-insert m.user_id u (n -ℤ m.size_bytes) stats, str_eq_iff m.user_id u, e))
]

IsCount-insert :
    (u : Str) (m : DbMedia) (media : List DbMedia) (o : Option ℤ)
    → is_of u m ≡ true
    → IsCount u media o
    → IsCount u (m ∷ media) (some (elim o [ none ↦ m.size_bytes | some n ↦ n +ℤ m.size_bytes ]))
IsCount-insert u m media none e h = rw (e, total-none u media h) (add_zero m.size_bytes)
IsCount-insert u m media (some n) e h = rw (e, h) (add_comm (total u media) m.size_bytes)

-- The count of a user after rows are deleted.
lookup-deleted :
    (u : Str) (rows : List DbMedia) (stats : Map Str ℤ) (rest : ℤ) {n : ℤ}
    → lookup u stats ≡ some n
    → n ≡ total u rows +ℤ rest
    → lookup u (fold_rows count_delete rows stats) ≡ some rest
unfolding fold_rows
lookup-deleted u [] stats rest e h =
    e ∙ ap (λ x. some x) (h ∙ (add_comm (pos 0) rest ∙ sym (add_zero rest)))
lookup-deleted u (m ∷ rows) stats rest {n} e h = elim (Bool-cases (is_of u m)) [
  | inl f ↦
      lookup-deleted u rows (count_delete m stats) rest {n = n -ℤ m.size_bytes}
        (lookup-count_delete u m stats ∙ rw (f, e) refl)
        (let h1 : n ≡ m.size_bytes +ℤ total u rows +ℤ rest = rw f at h in
          rw h1 (sub_add m.size_bytes (total u rows) rest))
  | inr f ↦
      lookup-deleted u rows (count_delete m stats) rest
        (lookup-count_delete u m stats ∙ rw (f, e) refl) (rw f at h)
]

lookup-none_deleted :
    (u : Str) (rows : List DbMedia) (stats : Map Str ℤ)
    → lookup u stats ≡ none
    → lookup u (fold_rows count_delete rows stats) ≡ none
unfolding fold_rows
lookup-none_deleted u [] stats e = e
lookup-none_deleted u (m ∷ rows) stats e =
    lookup-none_deleted u rows (count_delete m stats)
      (ground (arith, lookup-count_delete u m stats, e))

-- The sum splits into that of the rows that a statement hits and that of the others.
total-split :
    (u : Str) (hit : DbMedia → Bool) (media : List DbMedia)
    → total u media ≡ total u (filter hit media) +ℤ total u (filter (λ m. not (hit m)) media)
total-split u hit [] = add_zero (pos 0)
total-split u hit (m ∷ media) =
    let a = total u (filter hit media) in
    let b = total u (filter (λ m. not (hit m)) media) in
    elim (Bool-cases (is_of u m)) [
      | inl f ↦ elim (Bool-cases (hit m)) [
        | inl e ↦ rw (e, f, total-split u hit media) (add_assoc m.size_bytes a b)
        | inr e ↦ rw (e, f, total-split u hit media) (add_swap m.size_bytes a b)
      ]
      | inr f ↦ elim (Bool-cases (hit m)) [
        | inl e ↦ rw (e, f, total-split u hit media) refl
        | inr e ↦ rw (e, f, total-split u hit media) refl
      ]
    ]

pub filter-none :
    (u : Str) (hit : DbMedia → Bool) (media : List DbMedia)
    → filter (is_of u) media ≡ []
    → filter (is_of u) (filter hit media) ≡ []
filter-none u hit [] h = refl
filter-none u hit (m ∷ media) h = ground (arith, filter-none u hit media)

inserted_counts :
    (u : Str) (m : DbMedia) (t : Tables)
    → Counted t
    → IsCount u (m ∷ t.media) (lookup u (count_insert m t.user_stats))
inserted_counts u m t c = elim (Bool-cases (is_of u m)) [
  | inl e ↦
      rw (lookup-count_insert u m t.user_stats, e)
        (IsCount-insert u m t.media (lookup u t.user_stats) e (c.counts u))
  | inr e ↦
      rw (lookup-count_insert u m t.user_stats, e)
        (IsCount-other u m t.media (lookup u t.user_stats) e (c.counts u))
]

-- If every user's count is the sum of the sizes of the user's rows, it is so after an INSERT that the
-- unique index lets through.
pub insert_row-Counted :
    (m : DbMedia) (t t' : Tables) → insert_row m t ≡ some t' → Counted t → Counted t'
unfolding insert_row
insert_row-Counted m t t' e c = elim (Bool-cases (any (has_id m.origin m.media_id) t.media)) [
  | inl f ↦ absurd (ground (arith, e, f))
  | inr f ↦
      let e1 : some (record t { media = m ∷ t.media; user_stats = count_insert m t.user_stats })
          ≡ some t' =
        rw f at e in
      let d : record t { media = m ∷ t.media; user_stats = count_insert m t.user_stats } ≡ t' =
        cc in
      rw (← d) (record { counts = λ u. inserted_counts u m t c })
]

deleted_counts :
    (u : Str) (hit : DbMedia → Bool) (media : List DbMedia) (stats : Map Str ℤ) (o : Option ℤ)
    → lookup u stats ≡ o
    → IsCount u media o
    → IsCount u
        (filter (λ m. not (hit m)) media)
        (lookup u (fold_rows count_delete (filter hit media) stats))
deleted_counts u hit media stats none e c =
    rw (lookup-none_deleted u (filter hit media) stats e) (filter-none u (λ m. not (hit m)) media c)
deleted_counts u hit media stats (some n) e c =
    rw
      (lookup-deleted u (filter hit media) stats (total u (filter (λ m. not (hit m)) media)) e
        (c ∙ total-split u hit media))
      refl

-- If every user's count is the sum of the sizes of the user's rows, it is so after a DELETE.
pub delete_rows-Counted :
    (hit : DbMedia → Bool) (t : Tables) → Counted t → Counted (delete_rows hit t)
unfolding delete_rows
delete_rows-Counted hit t c = record {
  counts = λ u. deleted_counts u hit t.media t.user_stats (lookup u t.user_stats) refl (c.counts u);
}
