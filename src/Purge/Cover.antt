-- ===== src/Purge/Cover.antt =====
-- The flag map of `doPurge`: what an entry says of the media that use its file.
use matrix_media_repo.Prelude.{
  ◌≡◌, ◌≢◌, refl, ap, Bool, true, false, some, List, [], ◌∷◌, ◌++◌, map, all, filter, inl, inr, ◌⊎◌,
  Contains, Contains-append, Bool-cases, arith,
}
use matrix_media_repo.Prelude.Text.{Str, str_eq, str_eq_iff}
use matrix_media_repo.Prelude.Keys.{Map, lookup, insert, lookup-insert, str_key}
use matrix_media_repo.Database.Rows.{Tables}
use matrix_media_repo.Database.Media.{has_location}
use matrix_media_repo.Database.Thumbnails.{has_location as thumb_at}
use matrix_media_repo.Util.Mxc.{slash}
use matrix_media_repo.Purge.{Flags, media_mxc, thumbnail_mxc, location_id, flag_false}

-- A datastore ID with no slash.
abbrev pub NoSlash : Str → Type 0
NoSlash [] = Unit
NoSlash (c ∷ s) = (c ≢ slash) × NoSlash s

-- With slash-free datastore IDs a location ID stands for one file.
pub location_id_injective :
    (ds location ds' location' : Str)
    → NoSlash ds
    → NoSlash ds'
    → location_id ds location ≡ location_id ds' location'
    → (ds ≡ ds') × (location ≡ location')
unfolding location_id
location_id_injective [] l [] l' n n' e = ground arith
location_id_injective [] l (c ∷ ds') l' n n' e = absurd (n'.0 (ground arith))
location_id_injective (c ∷ ds) l [] l' n n' e = absurd (n.0 (ground arith))
location_id_injective (c ∷ ds) l (c' ∷ ds') l' n n' e =
    ground (arith, location_id_injective ds l ds' l' n.1 n'.1)

-- The MXC URIs of the media, and of the media with thumbnails, that use a file.
abbrev pub references : Tables → Str → Str → List Str
references t ds location =
    map media_mxc (filter (has_location ds location) t.media)
    ++ map thumbnail_mxc (filter (thumb_at ds location) t.thumbnails)

module _ {A B : Type 0} (f : A → B) where
  pub Contains-map : (a : A) (xs : List A) → Contains a xs → Contains (f a) (map f xs)
  Contains-map a [] h = h
  Contains-map a (x ∷ xs) (inl e) = inl (ap f e)
  Contains-map a (x ∷ xs) (inr h) = inr (Contains-map a xs h)

-- An entry of the flag map, over the tables and the URIs being purged.
pub record Covers (t : Tables) (purged : List Str) (key : Str) (m : Map Str Bool) : Type 0 where
  pub ds : Str
  pub location : Str
  pub plain : NoSlash ds
  pub key_eq : key ≡ location_id ds location
  pub covered :
      (x : Str) → Contains x (references t ds location) → (b : Bool) × (lookup x m ≡ some b)
  pub flagged : (x : Str) → lookup x m ≡ some true → Contains x purged

abbrev pub AllCover : Tables → List Str → Flags → Type 0
AllCover t purged flags =
    (key : Str) (m : Map Str Bool) → lookup key flags ≡ some m → Covers t purged key m

module _ (t : Tables) (purged : List Str) where
  pub AllCover-empty : AllCover t purged []
  unfolding lookup
  AllCover-empty key m e = absurd (ground arith)

  pub AllCover-insert :
      (key : Str) (m : Map Str Bool) (flags : Flags)
      → Covers t purged key m
      → AllCover t purged flags
      → AllCover t purged (insert key m flags)
  AllCover-insert key m flags c h key' m' e = elim (Bool-cases (str_eq key key')) [
    | inl same ↦
        let found : some m ≡ some m' = ground (arith, lookup-insert key key' m flags) in
        let k : key ≡ key' = (str_eq_iff key key').0 same in let n : m ≡ m' = cc in rw (← k, ← n) c
    | inr other ↦ h key' m' (ground (arith, lookup-insert key key' m flags))
  ]

-- What `flag_false` does to one key.
pub lookup-flag_false :
    (x : Str) (xs : List Str) (m : Map Str Bool)
    → Contains x xs ⊎ (lookup x m ≡ some false)
    → lookup x (flag_false xs m) ≡ some false
unfolding flag_false
lookup-flag_false x [] m (inl h) = absurd h
lookup-flag_false x [] m (inr e) = e
lookup-flag_false x (y ∷ ys) m (inl (inl e)) =
    lookup-flag_false x ys (insert y false m)
      (inr (ground (arith, lookup-insert y x false m, str_eq_iff y x)))
lookup-flag_false x (y ∷ ys) m (inl (inr h)) = lookup-flag_false x ys (insert y false m) (inl h)
lookup-flag_false x (y ∷ ys) m (inr e) =
    lookup-flag_false x ys (insert y false m) (inr (ground (arith, lookup-insert y x false m)))

-- It raises no flag.
pub flag_false-unflagged :
    (x : Str) (xs : List Str) (m : Map Str Bool)
    → lookup x m ≢ some true
    → lookup x (flag_false xs m) ≢ some true
unfolding flag_false
flag_false-unflagged x [] m h = h
flag_false-unflagged x (y ∷ ys) m h =
    flag_false-unflagged x ys (insert y false m) (λ e. ground (arith, lookup-insert y x false m, h))

-- Where every value is true, so is each that is looked up.
pub all-lookup :
    (x : Str) (m : Map Str Bool) (b : Bool)
    → all (λ (e : Str × Bool). e.1) m ≡ true
    → lookup x m ≡ some b
    → lookup x m ≡ some true
unfolding lookup
all-lookup x [] b h e = absurd (ground arith)
all-lookup x ((k, v) ∷ m) b h e = ground (arith, all-lookup x m b)

lookup-empty : (x : Str) → lookup {V = Bool} x [] ≢ some true
unfolding lookup
lookup-empty x e = ground arith

-- A fresh entry covers the file that it is made for.
pub Covers-flag_false :
    (t : Tables) (purged : List Str) (ds location : Str)
    → NoSlash ds
    → Covers t purged (location_id ds location) (
        flag_false
          (map thumbnail_mxc (filter (thumb_at ds location) t.thumbnails))
          (flag_false (map media_mxc (filter (has_location ds location) t.media)) []))
Covers-flag_false t purged ds location n =
    let media = map media_mxc (filter (has_location ds location) t.media) in
    let thumbs = map thumbnail_mxc (filter (thumb_at ds location) t.thumbnails) in
    record {
      ds = ds;
      location = location;
      plain = n;
      key_eq = refl;
      covered = λ x h. (
        false,
        elim (Contains-append x media thumbs h) [
          | inl l ↦
              lookup-flag_false x thumbs (flag_false media [])
                (inr (lookup-flag_false x media [] (inl l)))
          | inr r ↦ lookup-flag_false x thumbs (flag_false media []) (inl r)
        ],
      );
      flagged = λ x e. absurd (
          flag_false-unflagged x thumbs (flag_false media [])
            (flag_false-unflagged x media [] (lookup-empty x)) e);
    }
