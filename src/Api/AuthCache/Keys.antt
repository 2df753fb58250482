-- ===== src/Api/AuthCache/Keys.antt =====
-- The keys of the cache of access tokens, and what a cached answer saves.
use matrix_media_repo.Prelude.{◌≡◌, refl, ℕ, false, [], ◌∷◌, ◌++◌, arith, if◌then◌else◌}
use matrix_media_repo.Prelude.Text.{Str, codes, str_eq, str_eq_iff}
use matrix_media_repo.Prelude.Keys.{str_key}
use matrix_media_repo.Util.RoundTrip.{Without}
use matrix_media_repo.Api.AuthCache.{cache_key}

-- What stands before the first `sep` is the same.
split_first :
    (sep : ℕ) (s t s' t' : Str)
    → Without sep s
    → Without sep t
    → s ++ sep ∷ s' ≡ t ++ sep ∷ t'
    → (s ≡ t) × (s' ≡ t')
split_first sep [] [] s' t' hs ht e = (refl, cc)
split_first sep [] (c ∷ t) s' t' hs ht e =
    let same : sep ≡ c = cc in absurd (ground (arith, ht.0, same))
split_first sep (c ∷ s) [] s' t' hs ht e =
    let same : c ≡ sep = cc in absurd (ground (arith, hs.0, same))
split_first sep (c ∷ s) (d ∷ t) s' t' hs ht e =
    let same : c ≡ d = cc in
    let rest : s ++ sep ∷ s' ≡ t ++ sep ∷ t' = cc in
    let (a, b) = split_first sep s t s' t' hs.1 ht.1 rest in (cc, b)

-- A user ID that is not the word that stands for none.
abbrev pub IsPlainUser : Str → Type 0
IsPlainUser u = str_eq u (codes "__NOOP__") ≡ false

user_part :
    (u v : Str)
    → IsPlainUser u
    → IsPlainUser v
    → (if str_eq u [] then codes "__NOOP__" else u) ≡ (if str_eq v [] then codes "__NOOP__" else v)
    → u ≡ v
user_part u v hu hv e = ground (
  arith,
  str_eq_iff u [],
  str_eq_iff v [],
  str_eq_iff u (codes "__NOOP__"),
  str_eq_iff v (codes "__NOOP__"),
  str_eq_iff u v,
)

-- Two access tokens with no "@" in them and two user IDs other than "__NOOP__" have the same key in
-- the cache only if both are the same.
pub cache_key-injective :
    (token token' u u' : Str)
    → Without b'@' token
    → Without b'@' token'
    → IsPlainUser u
    → IsPlainUser u'
    → cache_key token u ≡ cache_key token' u'
    → (token ≡ token') × (u ≡ u')
unfolding cache_key
cache_key-injective token token' u u' ht ht' hu hu' e =
    let (a, b) =
      split_first b'@' token token' (b'@' ∷ (if str_eq u [] then codes "__NOOP__" else u))
        (b'@' ∷ (if str_eq u' [] then codes "__NOOP__" else u')) ht ht' cc in
    (a, user_part u u' hu hu' cc)
