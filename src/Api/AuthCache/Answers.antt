-- ===== src/Api/AuthCache/Answers.antt =====
-- What the cache of access tokens answers after a lookup and after a logout.
use matrix_media_repo.Prelude.{
  ◌≡◌, refl, Bool, true, false, not, none, some, [], ◌∷◌, inl, inr, Bool-cases, Option-cases, arith,
  if◌then◌else◌,
}
use matrix_media_repo.Prelude.Int.{pos, leb_ℤ}
use matrix_media_repo.Prelude.Text.{Str, str_eq}
use matrix_media_repo.Prelude.Keys.{Map, lookup, lookup-insert_self, str_key}
use matrix_media_repo.Common.{Result, ok, err}
use matrix_media_repo.Config.{Context}
use matrix_media_repo.World.{World, CachedToken, tick}
use matrix_media_repo.World.Rules.{Post, Post-bind, Post-handle, Post-weaken, Post-both}
use matrix_media_repo.Matrix.{Homeservers, get_user_id_from_token, logout}
use matrix_media_repo.Api.Request.{Request}
use matrix_media_repo.Api.AuthCache.{
  cache_key, cache_get, cache_set, cache_token, cache_delete, delete_key, get_user_id, get_uncached,
  check_token_with_homeserver, appservice_user, of_record, found, failed, keep, invalidate_token,
}

-- The cache has a record that reads as the answer.
abbrev Stored : Str → CachedToken → World → Type 0
Stored key a w = (t : CachedToken) × (lookup key w.token_cache ≡ some t) × (of_record t ≡ a)

module _ (matches : Str → Str → Bool) (hs : Homeservers) (ctx : Context) (r : Request)
    (token u : Str) where
  keep-Stored :
      (a : CachedToken) (w : World)
      → of_record a ≡ a
      → Post (Stored (cache_key token u)) (λ e w'. Unit) (keep matches hs ctx r true token u a w)
  unfolding cache_token cache_set
  keep-Stored a w e = record { at = (a, lookup-insert_self (cache_key token u) a w.token_cache, e) }

  check-Stored :
      (w : World)
      → Post
          (Stored (cache_key token u))
          (λ e w'. Unit)
          (check_token_with_homeserver matches hs ctx r token u true w)
  unfolding check_token_with_homeserver
  check-Stored w =
      Post-handle {Q = λ a w'. Unit} {E = λ a w'. Unit}
        (get_user_id_from_token hs ctx r.host token u) _ _ w (Post-both (λ w'. Unit) _ tt)
        (λ p w' h. keep-Stored (found p.0 p.1) w' refl)
        (λ e w' h. (tt, keep-Stored (failed e) w' refl))

  uncached-Stored :
      (w : World)
      → Post (Stored (cache_key token u)) (λ e w'. Unit) (get_uncached matches hs ctx r token u w)
  unfolding get_uncached
  uncached-Stored w = elim (Bool-cases (not ctx.domain.access_tokens.use_appservices)) [
    | inl e ↦ rw e (check-Stored w)
    | inr e ↦
        elim (Option-cases
          (appservice_user matches hs ctx r ctx.domain.access_tokens.appservices token u)) [
            | inl f ↦ rw (e, f) (check-Stored w)
            | inr (x, f) ↦ rw (e, f) (keep-Stored (found x false) w refl)
          ]
  ]

  module _ (has_token : str_eq token [] ≡ false)
      (keeps : leb_ℤ ctx.domain.access_tokens.max_cache_time_seconds (pos 0) ≡ false) where
    lookup-Stored :
        (w : World)
        → Post (Stored (cache_key token u)) (λ e w'. Unit) (get_user_id matches hs ctx r token u w)
    unfolding get_user_id cache_get
    lookup-Stored w =
        elim (Option-cases
          (if w.env.is_stale w.calls then none else lookup (cache_key token u) w.token_cache)) [
            | inl e ↦ rw (has_token, keeps, e) (uncached-Stored (tick w))
            | inr (t, e) ↦
                rw (has_token, keeps, e)
                  (record {
                    at = (
                      t,
                      elim (Bool-cases (w.env.is_stale w.calls)) [
                        | inl s ↦ absurd (ground (arith, rw s at e))
                        | inr s ↦ rw s at e
                      ],
                      refl,
                    );
                  })
          ]

    stored_lem :
        (a : CachedToken) (w : World)
        → Stored (cache_key token u) a w
        → w.env.is_stale w.calls ≡ false
        → get_user_id matches hs ctx r token u w ≡ (ok a, tick w)
    unfolding get_user_id cache_get
    stored_lem a w (t, e, same) live = rw (has_token, keeps, live, e, same) refl

    answer-Stored :
        (p : Result CachedToken × World) (a : CachedToken)
        → Post (Stored (cache_key token u)) (λ e w'. Unit) p
        → p.0 ≡ ok a
        → Stored (cache_key token u) a p.1
    answer-Stored (ok b, w) a h e = let same : b ≡ a = cc in rw (← same) h.at
    answer-Stored (err x, w) a h e = cc

-- Where access tokens are kept, the answer to a token and a user is given again while the entry has
-- not expired, without a call of the homeserver: one read of the cache is all that happens.
pub get_user_id-answers_again :
    (matches : Str → Str → Bool) (hs : Homeservers) (ctx : Context) (r : Request) (token u : Str)
    (a : CachedToken) (w : World)
    → str_eq token [] ≡ false
    → leb_ℤ ctx.domain.access_tokens.max_cache_time_seconds (pos 0) ≡ false
    → (get_user_id matches hs ctx r token u w).0 ≡ ok a
    → let w' = (get_user_id matches hs ctx r token u w).1 in
      w'.env.is_stale w'.calls ≡ false → get_user_id matches hs ctx r token u w' ≡ (ok a, tick w')
get_user_id-answers_again matches hs ctx r token u a w has_token keeps e live =
    stored_lem matches hs ctx r token u has_token keeps a _
      (answer-Stored matches hs ctx r token u has_token keeps _ a
        (lookup-Stored matches hs ctx r token u has_token keeps w) e)
      live

lookup-delete_self : (key : Str) (m : Map Str CachedToken) → lookup key (delete_key key m) ≡ none
unfolding lookup
lookup-delete_self key [] = refl
lookup-delete_self key ((k, v) ∷ m) = ground (arith, lookup-delete_self key m)

lookup-delete_none :
    (key other : Str) (m : Map Str CachedToken)
    → lookup key m ≡ none
    → lookup key (delete_key other m) ≡ none
unfolding lookup
lookup-delete_none key other [] h = refl
lookup-delete_none key other ((k, v) ∷ m) h = ground (arith, lookup-delete_none key other m)

-- After a logout without an error the cache has nothing for the token with that user ID, nor
-- for the token with none.
pub invalidate_token-forgets :
    (matches : Str → Str → Bool) (hs : Homeservers) (ctx : Context) (r : Request) (token u : Str)
    (w : World)
    → Post
        (λ x w'.
          (lookup (cache_key token u) w'.token_cache ≡ none)
          × (lookup (cache_key token []) w'.token_cache ≡ none))
        (λ e w'. Unit)
        (invalidate_token matches hs ctx r token u w)
unfolding invalidate_token cache_delete
invalidate_token-forgets matches hs ctx r token u w =
    Post-bind {Q = λ x w'. Unit} (logout hs ctx r.host token u) _ w
      (Post-weaken _ _ _ (Post-both (λ w'. Unit) (logout hs ctx r.host token u w) tt) (λ x w' h. h)
        (λ e w' h. h))
      λ x w1 h. record {
        at = (
          lookup-delete_none (cache_key token u) (cache_key token [])
              (delete_key (cache_key token u) w1.token_cache)
              (lookup-delete_self (cache_key token u) w1.token_cache),
          lookup-delete_self (cache_key token []) (delete_key (cache_key token u) w1.token_cache),
        );
      }
