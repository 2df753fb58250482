-- ===== src/Purge/Resolve.antt =====
-- The records that `resolveMedia` returns, and the rows that `PurgeMedia` may delete.
use matrix_media_repo.Prelude.{
  ◌≡◌, refl, Bool, true, false, not, ◌&&◌, ◌||◌, Option, none, some, List, [], ◌∷◌, ◌++◌, inl, inr,
  Contains, All, Bool-cases, arith, head?, filter, all,
}
use matrix_media_repo.Prelude.Text.{Str, str_eq}
use matrix_media_repo.Common.{Result, ok, err}
use matrix_media_repo.Config.{Context}
use matrix_media_repo.World.{World, pure}
use matrix_media_repo.World.Rules.{Post, Post-bind, Post-weaken, Kept, query_lem}
use matrix_media_repo.World.Keeps.{bind-keeps}
use matrix_media_repo.Database.Rows.{Tables, DbMedia}
use matrix_media_repo.Database.Media.{has_id, get_by_id}
use matrix_media_repo.Util.Mxc.{split_mxc}
use matrix_media_repo.Purge.{
  QuarantineThis, PurgeAuthContext, can_affect, purge_all, resolve_media, resolve_one, resolve_uris,
  resolve_single, add_found, purge_media,
}
use matrix_media_repo.Prelude.Keys.{str_key}
use matrix_media_repo.Purge.Spares.{Present, Spared, do_purge-Present}

-- The records are rows.
abbrev pub AllRows : Tables → List DbMedia → Type 0
AllRows t records = All (λ (r : DbMedia). Contains r t.media) records

pub filter-AllRows :
    (t : Tables) (p : DbMedia → Bool) (xs : List DbMedia)
    → ((x : DbMedia) → Contains x xs → Contains x t.media)
    → AllRows t (filter p xs)
filter-AllRows t p [] h = tt
filter-AllRows t p (x ∷ xs) h = elim (Bool-cases (p x)) [
  | inl e ↦ rw e (h x (inl refl), filter-AllRows t p xs (λ y c. h y (inr c)))
  | inr e ↦ rw e (filter-AllRows t p xs (λ y c. h y (inr c)))
]

-- At most one row has an ID: `media_index` is unique.
abbrev pub UniqueIds : Tables → Type 0
UniqueIds t =
    (m m' : DbMedia)
    → Contains m t.media
    → Contains m' t.media
    → has_id m.origin m.media_id m' ≡ true
    → m' ≡ m

module _ (t : Tables) (rem : List (Str × Str)) where
  All-snoc :
      (r : DbMedia) (records : List DbMedia)
      → AllRows t records
      → Contains r t.media
      → AllRows t (records ++ r ∷ [])
  All-snoc r [] h c = (c, tt)
  All-snoc r (x ∷ records) h c = (h.0, All-snoc r records h.1 c)

  abbrev RowIn : Option DbMedia → Type 0
  RowIn found = (r : DbMedia) → found ≡ some r → Contains r t.media

  add_found-AllRows :
      (found : Option DbMedia) (records : List DbMedia)
      → RowIn found
      → AllRows t records
      → AllRows t (add_found found records)
  add_found-AllRows none records f h = h
  add_found-AllRows (some r) records f h = All-snoc r records h (f r refl)

  head-Contains :
      (p : DbMedia → Bool) (xs : List DbMedia) (r : DbMedia)
      → head? (filter p xs) ≡ some r
      → Contains r xs
  head-Contains p [] r e = cc
  head-Contains p (x ∷ xs) r e = elim (Bool-cases (p x)) [
    | inl f ↦ let same : some x ≡ some r = rw f at e in inl cc
    | inr f ↦ inr (head-Contains p xs r (rw f at e))
  ]

  abbrev Resolved : List DbMedia → World → Type 0
  Resolved records w = AllRows t records × Kept t rem w

  get_by_id-Post :
      (origin media_id : Str) (w : World)
      → Kept t rem w
      → Post
          (λ found w'. RowIn found × Kept t rem w')
          (λ e w'. Kept t rem w')
          (get_by_id origin media_id w)
  unfolding get_by_id
  get_by_id-Post origin media_id w k =
      Post-weaken _ _ _ (query_lem _ w k)
        (λ found w' (e, k').
          (λ r f. head-Contains (has_id origin media_id) t.media r (rw e at f), k'))
        (λ e w' k'. k')

  resolve_one-Post :
      (only_host : Str) (parsed : Result (Str × Str)) (w : World)
      → Kept t rem w
      → Post
          (λ found w'. RowIn found × Kept t rem w')
          (λ e w'. Kept t rem w')
          (resolve_one only_host parsed w)
  resolve_one-Post only_host (err e) w k = elim (Bool-cases (not (str_eq only_host []))) [
    | inl f ↦ rw f (record { at = (λ r g. absurd (ground arith), k) })
    | inr f ↦ rw f (record { at = k })
  ]
  resolve_one-Post only_host (ok p) w k =
      elim (Bool-cases (not (str_eq only_host []) && not (str_eq p.0 only_host))) [
        | inl f ↦ rw f (record { at = (λ r g. absurd (ground arith), k) })
        | inr f ↦ rw f (get_by_id-Post p.0 p.1 w k)
      ]

  resolve_uris-Post :
      (only_host : Str) (uris : List Str) (records : List DbMedia) (w : World)
      → AllRows t records
      → Kept t rem w
      → Post Resolved (λ e w'. Kept t rem w') (resolve_uris only_host uris records w)
  unfolding resolve_uris
  resolve_uris-Post only_host [] records w h k = record { at = (h, k) }
  resolve_uris-Post only_host (mxc ∷ uris) records w h k =
      Post-bind (resolve_one only_host (split_mxc mxc)) _ w
        (resolve_one-Post only_host (split_mxc mxc) w k)
        λ found w1 (f, k1).
          resolve_uris-Post only_host uris (add_found found records) w1
            (add_found-AllRows found records f h) k1

  resolve_single-Post :
      (only_host : Str) (single : Option (Str × Str)) (records : List DbMedia) (w : World)
      → AllRows t records
      → Kept t rem w
      → Post Resolved (λ e w'. Kept t rem w') (resolve_single only_host single records w)
  resolve_single-Post only_host none records w h k = record { at = (h, k) }
  resolve_single-Post only_host (some p) records w h k =
      elim (Bool-cases (str_eq only_host [] || str_eq p.0 only_host)) [
        | inr f ↦ rw f (record { at = (h, k) })
        | inl f ↦ rw f (
            Post-bind (get_by_id p.0 p.1) (λ found. pure (add_found found records)) w
              (get_by_id-Post p.0 p.1 w k)
              λ found w1 (g, k1). record { at = (add_found-AllRows found records g h, k1) })
      ]

  pub resolve_media-Post :
      (only_host : Str) (to_handle : QuarantineThis) (w : World)
      → AllRows t to_handle.db_media
      → Kept t rem w
      → Post Resolved (λ e w'. Kept t rem w') (resolve_media only_host to_handle w)
  unfolding resolve_media
  resolve_media-Post only_host to_handle w h k =
      Post-bind (resolve_single only_host to_handle.single to_handle.db_media) _ w
        (resolve_single-Post only_host to_handle.single to_handle.db_media w h k)
        λ records w1 (h1, k1). resolve_uris-Post only_host to_handle.mxc_uris records w1 h1 k1

-- A row that may not be affected has another ID than each record that may be.
affected-Spared :
    (auth : PurgeAuthContext) (t : Tables) (m : DbMedia) (records : List DbMedia)
    → UniqueIds t
    → Contains m t.media
    → can_affect auth m ≡ false
    → AllRows t records
    → all (can_affect auth) records ≡ true
    → Spared m records
affected-Spared auth t m [] u c n h a = tt
affected-Spared auth t m (r ∷ records) u c n h a = (
  elim (Bool-cases (has_id r.origin r.media_id m)) [
    | inr e ↦ e
    | inl e ↦
        let same : m ≡ r = u r m h.0 c e in
        let n' : can_affect auth r ≡ false = rw same at n in absurd (ground (arith, n', a))
  ],
  affected-Spared auth t m records u c n h.1 (ground (arith, a)),
)

-- Let the rows have distinct IDs, and the records that are handed to `PurgeMedia` be rows. Whatever
-- fails, a row that the authorisation does not cover is still there after the purge.
pub purge_media-spares_others :
    (ctx : Context) (auth : PurgeAuthContext) (to_handle : QuarantineThis) (w : World)
    → UniqueIds w.db
    → AllRows w.db to_handle.db_media
    → (m : DbMedia) → Contains m w.db.media
    → can_affect auth m ≡ false
    → Contains m (purge_media ctx auth to_handle w).1.db.media
unfolding purge_media purge_all
purge_media-spares_others ctx auth to_handle w u h m c n =
    bind-keeps (λ w'. Present m w'.db) (resolve_media [] to_handle) (purge_all ctx auth) w
      (resolve_media-Post w.db w.removed [] to_handle w h
        (record { db_kept = refl; removed_kept = refl }))
      (λ records w1 (rows, k). elim (Bool-cases (all (can_affect auth) records)) [
        | inr e ↦ rw e (rw k.db_kept c)
        | inl e ↦ rw e (
            do_purge-Present m ctx true records w1
              (affected-Spared auth w.db m records u c n rows e) (rw k.db_kept c))
      ])
      (λ e w1 k. rw k.db_kept c)
