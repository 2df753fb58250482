-- ===== src/Util/RoundTrip.antt =====
-- `MxcUri` with `SplitMxc`, and `SplitUserId`, of util/mxc.go and util/identifiers.go.
use matrix_media_repo.Prelude.{
  ◌≡◌, refl, ap, ◌∙◌, ℕ, false, List, [], ◌∷◌, ◌++◌, All, Bool-cases, inl, inr, arith, ◌==◌,
}
use matrix_media_repo.Prelude.Text.{Str, has_prefix}
use matrix_media_repo.Common.{ok}
use matrix_media_repo.Util.Mxc.{slash, mxc_uri, split, first_piece, join, split_mxc, split_user_id}

-- The byte does not occur.
abbrev pub Without : ℕ → Str → Type 0
Without sep s = All (λ c. (c == sep) ≡ false) s

first_piece-whole : (sep : ℕ) (s : Str) → Without sep s → first_piece sep s ≡ s
unfolding first_piece
first_piece-whole sep [] h = refl
first_piece-whole sep (c ∷ s) h = rw h.0 (ap (λ x. c ∷ x) (first_piece-whole sep s h.1))

split-whole : (sep : ℕ) (s : Str) → Without sep s → split sep s ≡ s ∷ []
unfolding split
split-whole sep [] h = refl
split-whole sep (c ∷ s) h = rw (h.0, split-whole sep s h.1) refl

split-first :
    (sep : ℕ) (s rest : Str) → Without sep s → split sep (s ++ sep ∷ rest) ≡ s ∷ split sep rest
unfolding split
split-first sep [] rest h = ground arith
split-first sep (c ∷ s) rest h = rw (h.0, split-first sep s rest h.1) refl

Without-append : (sep : ℕ) (s t : Str) → Without sep s → Without sep t → Without sep (s ++ t)
Without-append sep [] t h k = k
Without-append sep (c ∷ s) t h k = (h.0, Without-append sep s t h.1 k)

split-cons : (sep : ℕ) (s : Str) → (p : Str) × (ps : List Str) × (split sep s ≡ p ∷ ps)
unfolding split
split-cons sep [] = ([], [], refl)
split-cons sep (c ∷ s) =
    let (p, ps, e) = split-cons sep s in
    elim (Bool-cases (c == sep)) [
      | inl f ↦ ([], split sep s, rw f refl)
      | inr f ↦ (c ∷ p, ps, rw (f, e) refl)
    ]

join-cons : (sep c : ℕ) (p : Str) (ps : List Str) → join sep ((c ∷ p) ∷ ps) ≡ c ∷ join sep (p ∷ ps)
unfolding join
join-cons sep c p [] = refl
join-cons sep c p (q ∷ ps) = refl

join-split : (sep : ℕ) (s : Str) → join sep (split sep s) ≡ s
unfolding split join
join-split sep [] = refl
join-split sep (c ∷ s) =
    let (p, ps, e) = split-cons sep s in
    elim (Bool-cases (c == sep)) [
      | inl f ↦ rw (f, e) (ground (arith, f, rw e at (join-split sep s)))
      | inr f ↦ rw (f, e) (join-cons sep c p ps ∙ ap (λ x. c ∷ x) (rw e at (join-split sep s)))
    ]

-- The URI of an origin and a media ID with no slash and no question mark in them is read back as
-- that origin and that media ID.
pub split_mxc-mxc_uri :
    (origin media_id : Str)
    → Without slash origin
    → Without slash media_id
    → Without b'?' origin
    → Without b'?' media_id
    → split_mxc (mxc_uri origin media_id) ≡ ok (origin, media_id)
unfolding split_mxc mxc_uri has_prefix
split_mxc-mxc_uri origin media_id so sm qo qm =
    rw
      (
        first_piece-whole b'?' (origin ++ slash ∷ media_id)
            (Without-append b'?' origin (slash ∷ media_id) qo (refl, qm)),
        split-first slash origin media_id so,
        split-whole slash media_id sm,
      )
      refl

-- A user ID is read back as its localpart, which has no colon, and its domain, which may have one.
pub split_user_id-parts :
    (localpart domain : Str)
    → Without b':' localpart
    → split_user_id (b'@' ∷ (localpart ++ b':' ∷ domain)) ≡ ok (localpart, domain)
unfolding split_user_id
split_user_id-parts localpart domain h =
    let (p, ps, e) = split-cons b':' domain in
    rw (split-first b':' localpart domain h, e)
      (ap (λ d. ok (localpart, d)) (rw e at (join-split b':' domain)))
