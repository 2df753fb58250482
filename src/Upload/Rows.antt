-- ===== src/Upload/Rows.antt =====
-- Rows with a file, and the steps of an upload that find and insert them.
use matrix_media_repo.Prelude.{
  ◌≡◌, refl, Option, none, some, List, [], ◌∷◌, filter, any, Contains, inl, inr, Bool-cases, arith,
  Contains-filter,
}
use matrix_media_repo.Prelude.Text.{Str, str_eq_iff}
use matrix_media_repo.Database.Rows.{DbMedia, Tables}
use matrix_media_repo.Database.Media.{
  has_id, has_hash, is_hash_quarantined, get_by_hash, insert_row,
}
use matrix_media_repo.World.{World, ask, query}
use matrix_media_repo.World.Rules.{Post, Post-both}
use matrix_media_repo.Upload.Steps.{
  check_quarantine_status, find_record, find_match, is_perfect, or_first,
}
use matrix_media_repo.Upload.Frame.{Same, Unmoved, NoLoss}

-- The file of every row was put in a datastore.
abbrev pub BackedBy : List DbMedia → List (Str × Str) → Type 0
BackedBy media stored =
    (r : DbMedia) → Contains r media → Contains (r.datastore_id, r.location) stored

pub record Backed (w : World) : Type 0 where
  pub file : BackedBy w.db.media w.stored

pub Same-Backed :
    (media : List DbMedia) (stored : List (Str × Str)) (w : World)
    → BackedBy media stored
    → Same media stored w
    → Backed w
Same-Backed media stored w b s = record { file = rw (s.0, s.1) b }

pub NoLoss-Backed :
    (media : List DbMedia) (stored : List (Str × Str)) (w : World)
    → BackedBy media stored
    → NoLoss media stored w
    → Backed w
NoLoss-Backed media stored w b n = record {
  file = λ r c. n.objects_kept (r.datastore_id, r.location) (b r (rw (← n.rows_kept) c));
}

pub BackedBy-add :
    (media : List DbMedia) (stored more : List (Str × Str)) (m : DbMedia)
    → BackedBy media stored
    → ((p : Str × Str) → Contains p stored → Contains p more)
    → Contains (m.datastore_id, m.location) more
    → BackedBy (m ∷ media) more
BackedBy-add media stored more m b grows c r (inl e) = rw e c
BackedBy-add media stored more m b grows c r (inr h) = grows _ (b r h)

-- The record that an upload returns: a row with the hash.
pub record InTable (hash : Str) (o : Option DbMedia) (w : World) : Type 0 where
  pub row : DbMedia
  pub returned : o ≡ some row
  pub in_table : Contains row w.db.media
  pub hash_eq : row.sha256_hash ≡ hash

abbrev pub Found : (DbMedia → Type 0) → Option DbMedia → Type 0
Found P none = Unit
Found P (some r) = P r

module _ (P : DbMedia → Type 0) where
  Found-or_first :
      (seen : Option DbMedia) (r : DbMedia) → P r → Found P seen → Found P (or_first seen r)
  Found-or_first none r p s = p
  Found-or_first (some m) r p s = s

  find_match-Found :
      (user_id file_name : Str) (seen : Option DbMedia) (records : List DbMedia)
      → ((r : DbMedia) → Contains r records → P r)
      → Found P seen
      → Found P (find_match user_id file_name seen records).0
  unfolding find_match
  find_match-Found user_id file_name seen [] h s = s
  find_match-Found user_id file_name seen (r ∷ records) h s =
      elim (Bool-cases (is_perfect user_id file_name r)) [
        | inl e ↦ rw e (h r (inl refl))
        | inr e ↦ rw e (
            find_match-Found user_id file_name (or_first seen r) records (λ x c. h x (inr c))
              (Found-or_first seen r (h r (inl refl)) s))
      ]

module _ (media : List DbMedia) (stored : List (Str × Str)) where
  pub check_quarantine-Unmoved : (hash : Str) → Unmoved media stored (check_quarantine_status hash)
  unfolding check_quarantine_status is_hash_quarantined query ask
  check_quarantine-Unmoved hash w s = Post-both (Same media stored) _ (ground (arith, s))

  pub find_record-Post :
      (hash user_id content_type file_name : Str) (w : World)
      → Same media stored w
      → Post
          (λ p w'.
            Found (λ r. Contains r media × (r.sha256_hash ≡ hash)) p.0 × Same media stored w')
          (λ e w'. Same media stored w')
          (find_record hash user_id content_type file_name w)
  unfolding find_record get_by_hash query ask
  find_record-Post hash user_id content_type file_name w s =
      elim (Bool-cases (w.env.fault w.calls)) [
        | inl e ↦ rw e (record { at = s })
        | inr e ↦ rw e (record {
          at = (
            find_match-Found (λ r. Contains r media × (r.sha256_hash ≡ hash)) user_id file_name none
                (filter (has_hash hash) w.db.media)
                (λ r c.
                  let (c', h) = Contains-filter (has_hash hash) r w.db.media c in
                  (rw (← s.0) c', (str_eq_iff r.sha256_hash hash).0 h))
                tt,
            s,
          );
        })
      ]

pub insert_row-media :
    (m : DbMedia) (t u : Tables) → insert_row m t ≡ some u → u.media ≡ m ∷ t.media
unfolding insert_row
insert_row-media m t u h = elim (Bool-cases (any (has_id m.origin m.media_id) t.media)) [
  | inl e ↦ ground (arith, e)
  | inr e ↦ ground (arith, e)
]
