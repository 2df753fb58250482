-- ===== src/Datastores/Removal.antt =====
-- What a call of `datastores.Remove` or `RemoveWithDsId` removes.
use matrix_media_repo.Prelude.{◌≡◌, refl, some, List, [], ◌∷◌, inl, inr, ◌⊎◌, Option-cases, arith}
use matrix_media_repo.Prelude.Text.{Str, str_eq_iff}
use matrix_media_repo.Config.{Context, DatastoreConfig}
use matrix_media_repo.World.{World, ask, remove_object, os_remove}
use matrix_media_repo.Datastores.{get, remove, remove_with_ds_id}

pub id-get :
    (confs : List DatastoreConfig) (ds_id : Str) (c : DatastoreConfig)
    → get confs ds_id ≡ some c
    → c.id ≡ ds_id
unfolding get
id-get [] ds_id c e = cc
id-get (x ∷ confs) ds_id c e = ground (arith, id-get confs ds_id c, str_eq_iff x.id ds_id)

-- The object is removed, or none is; the tables stay.
abbrev pub RemovesAtMost : Str × Str → World → World → Type 0
RemovesAtMost p w w' = ((w'.removed ≡ w.removed) ⊎ (w'.removed ≡ p ∷ w.removed)) × (w'.db ≡ w.db)

pub remove_lem :
    (ds : DatastoreConfig) (location : Str) (w : World)
    → RemovesAtMost (ds.id, location) w (remove ds location w).1
unfolding remove ask remove_object os_remove
remove_lem ds location w = ground arith

named_lem :
    (c : DatastoreConfig) (ds location : Str) (w : World)
    → c.id ≡ ds
    → RemovesAtMost (ds, location) w (remove c location w).1
named_lem c ds location w e = rw (← e) (remove_lem c location w)

pub remove_with_ds_id_lem :
    (ctx : Context) (ds location : Str) (w : World)
    → RemovesAtMost (ds, location) w (remove_with_ds_id ctx ds location w).1
unfolding remove_with_ds_id
remove_with_ds_id_lem ctx ds location w = elim (Option-cases (get ctx.domain.data_stores ds)) [
  | inl e ↦ rw (e, remove_with_ds_id) (inl refl, refl)
  | inr (c, e) ↦
      rw (e, remove_with_ds_id) (named_lem c ds location w (id-get ctx.domain.data_stores ds c e))
]
