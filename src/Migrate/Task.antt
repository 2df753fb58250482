-- ===== src/Migrate/Task.antt =====
-- `DatastoreMigrate` as a whole.
use matrix_media_repo.Prelude.{
  ◌≡◌, false, Option, none, some, List, [], ◌∷◌, filter, All, inl, inr, Bool-cases, Option-cases,
  arith,
}
use matrix_media_repo.Prelude.Int.{ℤ}
use matrix_media_repo.Prelude.Text.{Str, str_eq, str_eq_iff, codes}
use matrix_media_repo.Common.{Error, Result, ok, err}
use matrix_media_repo.Config.{Context, DatastoreConfig}
use matrix_media_repo.World.{World, M, attempt, query, pure, ◌>>=◌, ◌>>◌}
use matrix_media_repo.World.Rules.{Post, Post-bind, Post-attempt}
use matrix_media_repo.Database.Rows.{Tables, VirtLastAccess}
use matrix_media_repo.Database.Access.{
  media_by_last_access, thumbnails_by_last_access, is_old_access,
}
use matrix_media_repo.Datastores.{get}
use matrix_media_repo.Datastores.Removal.{id-get}
use matrix_media_repo.Upload.Rows.{Backed}
use matrix_media_repo.Migrate.{DatastoreMigrateParams, datastore_migrate, move_objects, located_or}
use matrix_media_repo.Migrate.Moves.{move_objects-Backed}
use matrix_media_repo.Migrate.Safety.{LostUnused, move_objects-Fine}

-- Two conclusions of one call.
Post-and :
    {A : Type 0} {Q Q' : A → World → Type 0} {E E' : Error → World → Type 0} (p : Result A × World)
    → Post Q E p
    → Post Q' E' p
    → Post (λ a w. Q a w × Q' a w) (λ e w. E e w × E' e w) p
Post-and (ok a, w) h h' = record { at = (h.at, h'.at) }
Post-and (err e, w) h h' = record { at = (h.at, h'.at) }

abbrev IsAt : Str → VirtLastAccess → Type 0
IsAt ds r = r.datastore_id ≡ ds

-- The WHERE clause on the datastore.
old_access-IsAt :
    (ds : Str) (before_ts : ℤ) (rows : List VirtLastAccess)
    → All (IsAt ds) (filter (is_old_access ds before_ts) rows)
old_access-IsAt ds before_ts [] = tt
old_access-IsAt ds before_ts (r ∷ rows) = elim (Bool-cases (is_old_access ds before_ts r)) [
  | inl e ↦
      rw e (ground (arith, e, str_eq_iff r.datastore_id ds), old_access-IsAt ds before_ts rows)
  | inr e ↦ rw e (old_access-IsAt ds before_ts rows)
]

module _ (ds : Str) (rem : List (Str × Str)) where
  -- Every row's file was put in a datastore, and what `ds` lost no row names.
  abbrev Sound : World → Type 0
  Sound w = Backed w × LostUnused ds rem w

  query-Sound :
      {A : Type 0} (P : A → Type 0) (f : Tables → A) (w : World)
      → ((t : Tables) → P (f t))
      → Sound w
      → Post (λ a w'. P a × Sound w') (λ e w'. Sound w') (query f w)
  unfolding query
  query-Sound P f w p (b, s) = elim (Bool-cases (w.env.fault w.calls)) [
    | inl e ↦ rw e (record { at = (record { file = b.file }, record { unused = s.unused }) })
    | inr e ↦
        rw e (record { at = (p w.db, (record { file = b.file }, record { unused = s.unused })) })
  ]

module _ (object : Str → Str → Str) (sha256 : Str → Str) (source target : DatastoreConfig)
    (other : str_eq target.id source.id ≡ false) (rem : List (Str × Str)) where
  abbrev Listed : Option (List VirtLastAccess) → Type 0
  Listed none = Unit
  Listed (some rows) = All (IsAt source.id) rows

  -- A query for the files to move, and their move.
  batch-Sound :
      (message : Str) (f : Tables → List VirtLastAccess) (next : M (Option Str)) (w : World)
      → ((t : Tables) → All (IsAt source.id) (f t))
      → ((w1 : World)
          → Sound source.id rem w1
          → Post (λ o w'. Sound source.id rem w') (λ e w'. Sound source.id rem w') (next w1))
      → Sound source.id rem w
      → Post
          (λ o w'. Sound source.id rem w')
          (λ e w'. Sound source.id rem w')
          ((do
            records ← attempt (query f)
            located_or object sha256 message records
                λ records. (do move_objects object sha256 source target records []; next))
            w)
  batch-Sound message f next w at then_next s =
      Post-bind {Q = λ o w'. Listed o × Sound source.id rem w'} (attempt (query f)) _ w
        (Post-attempt _ _ (query f) w
          (query-Sound source.id rem (λ rows. All (IsAt source.id) rows) f w at s) (λ rows w' h. h)
          (λ e w' h. (tt, h)))
        move
    where
      move :
          (o : Option (List VirtLastAccess)) (w1 : World)
          → Listed o × Sound source.id rem w1
          → Post
              (λ o w'. Sound source.id rem w')
              (λ e w'. Sound source.id rem w')
              (located_or object sha256 message o
                (λ records. (do move_objects object sha256 source target records []; next))
                w1)
      move none w1 (a, s1) = record { at = s1 }
      move (some rows) w1 (a, (b1, s1)) =
          Post-bind (move_objects object sha256 source target rows []) (λ _. next) w1
            (Post-and _ (move_objects-Backed object sha256 source target rows [] w1 b1)
              (move_objects-Fine object sha256 source target other rem rows [] w1 a s1))
            λ u w2 s2. then_next w2 s2

str_eq_swap : (s t : Str) → str_eq s t ≡ false → str_eq t s ≡ false
str_eq_swap s t e = grind (arith, str_eq_iff s t, str_eq_iff t s)

apart_ids :
    (source target : DatastoreConfig) {s t : Str}
    → source.id ≡ s
    → target.id ≡ t
    → str_eq s t ≡ false
    → str_eq target.id source.id ≡ false
apart_ids source target {s} {t} e f differ = rw (e, f) (str_eq_swap s t differ)

module _ (object : Str → Str → Str) (sha256 : Str → Str) (ctx : Context)
    (params : DatastoreMigrateParams) where
  -- The task, once its datastores are found.
  abbrev moves : DatastoreConfig → DatastoreConfig → M (Option Str)
  moves source target = do
    media ← attempt (media_by_last_access params.source_ds_id params.before_ts)
    located_or object sha256 (codes "error in locate") media λ records. (do
      move_objects object sha256 source target records []
      thumbs ← attempt (thumbnails_by_last_access params.source_ds_id params.before_ts)
      located_or object sha256 (codes "error in thumbnails") thumbs
          λ records'. (do move_objects object sha256 source target records' []; pure none))

  migrated :
      (rem : List (Str × Str)) (w : World) (source target : DatastoreConfig)
      → source.id ≡ params.source_ds_id
      → str_eq target.id source.id ≡ false
      → Sound params.source_ds_id rem w
      → Post
          (λ o w'. Sound params.source_ds_id rem w')
          (λ e w'. Sound params.source_ds_id rem w')
          (moves source target w)
  unfolding media_by_last_access thumbnails_by_last_access
  migrated rem w source target same other s = rw (← same) (
      batch-Sound object sha256 source target other rem (codes "error in locate") _ _ w
        (λ t. old_access-IsAt source.id params.before_ts _)
        (λ w1 s1.
          batch-Sound object sha256 source target other rem (codes "error in thumbnails") _
            (pure none) w1 (λ t. old_access-IsAt source.id params.before_ts _)
            (λ w2 s2. record { at = s2 }) s1)
        (rw same s))

  -- If the file of every media row was put in a datastore before `DatastoreMigrate`, it is so after,
  -- whatever fails; and no media row and no thumbnail row names an object that the source datastore
  -- has lost since.
  pub datastore_migrate-Sound :
      (w : World)
      → Backed w
      → Post
          (λ o w'. Backed w' × LostUnused params.source_ds_id w.removed w')
          (λ e w'. Backed w' × LostUnused params.source_ds_id w.removed w')
          (datastore_migrate object sha256 ctx params w)
  unfolding datastore_migrate media_by_last_access thumbnails_by_last_access
  datastore_migrate-Sound w b =
      let start : Sound params.source_ds_id w.removed w = (b, record { unused = λ l c. inl c }) in
      elim (Bool-cases (str_eq params.source_ds_id params.target_ds_id)) [
        | inl same ↦ rw same (record { at = start })
        | inr differ ↦
            rw differ (elim (Option-cases (get ctx.domain.data_stores params.source_ds_id)) [
              | inl none_there ↦ rw none_there (record { at = start })
              | inr (source, s) ↦
                  rw s (elim (Option-cases (get ctx.domain.data_stores params.target_ds_id)) [
                    | inl none_there ↦ rw none_there (record { at = start })
                    | inr (target, t) ↦ rw t (
                        migrated w.removed w source target (id-get _ _ source s)
                          (apart_ids source target (id-get _ _ source s) (id-get _ _ target t)
                            differ)
                          start)
                  ])
            ])
      ]
