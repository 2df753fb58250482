-- ===== src/Datastores/Choice.antt =====
-- Which datastore `Pick` returns.
use matrix_media_repo.Prelude.{
  ℕ, zero, suc, ◌+◌, ◌≡◌, ◌∙◌, ap, refl, true, List, [], ◌∷◌, ◌++◌, length, arith, inl, inr,
  Contains, Contains-filter,
}
use matrix_media_repo.Prelude.Int.{ℤ, negsuc}
use matrix_media_repo.Prelude.Text.{Str}
use matrix_media_repo.Common.{Result, ok, err}
use matrix_media_repo.Config.{Context, DatastoreConfig}
use matrix_media_repo.World.{World, M, pure, continue, tick}
use matrix_media_repo.World.Rules.{NoFaults, query-ok}
use matrix_media_repo.Datastores.{
  Kind, has_listed_kind, usable_for, estimate_datastore_size, pick_index, at_index, choose, pick,
}

estimate-ok :
    (ds_id : Str) (w : World)
    → NoFaults w
    → (size : ℤ) × (estimate_datastore_size ds_id w ≡ (ok size, tick w))
unfolding estimate_datastore_size
estimate-ok ds_id w nf = (_, query-ok _ w nf)

-- The size that the loop compares with is never set, so each datastore replaces the last choice.
pick_index-last :
    (before : List DatastoreConfig) (ds : DatastoreConfig) (i idx : ℕ) (w : World)
    → NoFaults w
    → (w' : World) × (pick_index (negsuc 0) (before ++ ds ∷ []) i idx w
        ≡ (ok (i + length before), w'))
unfolding pick_index
pick_index-last [] ds i idx w nf =
    let (size, e) = estimate-ok ds.id w nf in
    (tick w, rw e (ap (λ n. (ok n, tick w)) (omega arith)))
pick_index-last (d ∷ before) ds i idx w nf =
    let (size, e) = estimate-ok d.id w nf in
    let (w', h) = pick_index-last before ds (suc i) i (tick w) nf in
    (w', rw e (h ∙ ap (λ n. (ok n, w')) (omega arith)))

at_index-last :
    (before : List DatastoreConfig) (ds : DatastoreConfig)
    → at_index (before ++ ds ∷ []) (length before) ≡ pure ds
at_index-last [] ds = refl
at_index-last (d ∷ before) ds = at_index-last before ds

choose-last :
    (before : List DatastoreConfig) (ds : DatastoreConfig) (w : World)
    → NoFaults w
    → (choose (before ++ ds ∷ []) w).0 ≡ ok ds
choose-last [] ds w nf = refl
choose-last (d ∷ []) ds w nf = let (w', h) = pick_index-last (d ∷ []) ds 0 0 w nf in rw h
choose-last (d ∷ (d' ∷ before)) ds w nf =
    let (w', h) = pick_index-last (d ∷ (d' ∷ before)) ds 0 0 w nf in
    let z : 0 + suc (suc (length before)) ≡ suc (suc (length before)) = omega arith in
    rw (h, z) (ap (λ (m : M DatastoreConfig). (m w').0) (at_index-last (d ∷ (d' ∷ before)) ds))

-- While no call fails, the datastore that is picked is the last one configured that accepts the kind
-- of media, whatever the sizes of the datastores are.
pub pick_last :
    (ctx : Context) (kind : Kind) (before : List DatastoreConfig) (ds : DatastoreConfig) (w : World)
    → usable_for ctx kind ≡ before ++ ds ∷ []
    → NoFaults w
    → (pick ctx kind w).0 ≡ ok ds
unfolding pick
pick_last ctx kind before ds w e nf = rw e (choose-last before ds w nf)

at_index-Contains :
    (usable : List DatastoreConfig) (idx : ℕ) (w : World) {ds : DatastoreConfig}
    → (at_index usable idx w).0 ≡ ok ds
    → Contains ds usable
at_index-Contains [] idx w h = cc
at_index-Contains (d ∷ usable) zero w h = inl cc
at_index-Contains (d ∷ usable) (suc idx) w h = inr (at_index-Contains usable idx w h)

continue-ok :
    {A B : Type 0} (r : Result A) (f : A → M B) (w : World) {b : B}
    → (continue r f w).0 ≡ ok b
    → (a : A) × ((f a w).0 ≡ ok b)
continue-ok (ok a) f w h = (a, h)
continue-ok (err e) f w h = cc

choose-Contains :
    (usable : List DatastoreConfig) (w : World) {ds : DatastoreConfig}
    → (choose usable w).0 ≡ ok ds
    → Contains ds usable
choose-Contains [] w h = cc
choose-Contains (d ∷ []) w h = inl cc
choose-Contains (d ∷ (d' ∷ usable)) w h =
    let p = pick_index (negsuc 0) (d ∷ (d' ∷ usable)) 0 0 w in
    let (idx, h') = continue-ok p.0 (at_index (d ∷ (d' ∷ usable))) p.1 h in
    at_index-Contains (d ∷ (d' ∷ usable)) idx p.1 h'

-- Whatever fails, a datastore that is picked is configured for the domain and accepts the kind.
pub pick-accepts :
    (ctx : Context) (kind : Kind) (w : World) {ds : DatastoreConfig}
    → (pick ctx kind w).0 ≡ ok ds
    → Contains ds ctx.domain.data_stores × (has_listed_kind ds.media_kinds kind ≡ true)
unfolding pick
pick-accepts ctx kind w {ds} h =
    Contains-filter (λ (c : DatastoreConfig). has_listed_kind c.media_kinds kind) ds
      ctx.domain.data_stores (choose-Contains (usable_for ctx kind) w h)
