-- ===== src/Api/Usage/Entries.antt =====
-- The entries of `GetUserUsage`.
use matrix_media_repo.Prelude.{
  ◌≡◌, refl, ap, ◌∙◌, Option, none, some, List, [], ◌∷◌, ◌++◌, map, filter, inl, inr, Bool-cases,
}
use matrix_media_repo.Prelude.Text.{Str, str_eq, str_eq_iff}
use matrix_media_repo.Prelude.Keys.{Map, lookup, insert, lookup-insert, str_key}
use matrix_media_repo.Util.Mxc.{mxc_uri}
use matrix_media_repo.Database.Rows.{DbMedia}
use matrix_media_repo.Api.Usage.{UserUsageEntry, with_media, by_user, entry_of}

abbrev pub uploads : Option UserUsageEntry → List Str
uploads none = []
uploads (some e) = e.uploaded_mxcs

append_assoc : {A : Type 0} (xs ys zs : List A) → (xs ++ ys) ++ zs ≡ xs ++ (ys ++ zs)
append_assoc [] ys zs = refl
append_assoc (x ∷ xs) ys zs = ap (λ l. x ∷ l) (append_assoc xs ys zs)

append-nil : {A : Type 0} (xs : List A) → xs ++ [] ≡ xs
append-nil [] = refl
append-nil (x ∷ xs) = ap (λ l. x ∷ l) (append-nil xs)

uploads-entry_of : (o : Option UserUsageEntry) → (entry_of o).uploaded_mxcs ≡ uploads o
uploads-entry_of none = refl
uploads-entry_of (some e) = refl

abbrev pub mxcs_of : Str → List DbMedia → List Str
mxcs_of u records =
    map (λ (m : DbMedia). mxc_uri m.origin m.media_id) (filter (λ m. str_eq m.user_id u) records)

by_user-lookup :
    (u : Str) (records : List DbMedia) (parsed : Map Str UserUsageEntry)
    → uploads (lookup u (by_user records parsed)) ≡ uploads (lookup u parsed) ++ mxcs_of u records
unfolding by_user
by_user-lookup u [] parsed = rw (append-nil (uploads (lookup u parsed))) refl
by_user-lookup u (m ∷ records) parsed =
    let e = with_media m (entry_of (lookup m.user_id parsed)) in
    by_user-lookup u records (insert m.user_id e parsed) ∙ (elim (Bool-cases (str_eq m.user_id u)) [
      | inr n ↦ rw (lookup-insert m.user_id u e parsed, n) refl
      | inl s ↦
          rw
            (
              lookup-insert m.user_id u e parsed,
              s,
              (str_eq_iff m.user_id u).0 s,
              uploads-entry_of (lookup u parsed),
            )
            (append_assoc (uploads (lookup u parsed)) (mxc_uri m.origin m.media_id ∷ [])
              (mxcs_of u records))
    ])

-- The entry that `GetUserUsage` makes for a user lists the URIs of that user's media, in the order of
-- the records, and a user with none has no URI in it.
pub by_user-uploads :
    (u : Str) (records : List DbMedia) → uploads (lookup u (by_user records [])) ≡ mxcs_of u records
unfolding lookup
by_user-uploads u records = by_user-lookup u records []
