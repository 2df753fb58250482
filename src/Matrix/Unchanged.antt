-- ===== src/Matrix/Unchanged.antt =====
-- Calls of a homeserver leave the tables and the datastores.
use matrix_media_repo.Prelude.{List, arith}
use matrix_media_repo.Prelude.Text.{Str}
use matrix_media_repo.Config.{Context}
use matrix_media_repo.World.{World, M}
use matrix_media_repo.World.Rules.{Post, Post-both, Kept}
use matrix_media_repo.Database.Rows.{Tables}
use matrix_media_repo.Matrix.{
  Homeservers, is_user_admin, list_media, get_breaker_and_config, call_context, do_request,
}

-- A call of a homeserver leaves the tables and the removals.
abbrev pub Unchanged : {A : Type 0} → M A → Type 0
Unchanged m =
    (db : Tables) (rem : List (Str × Str)) (w : World)
    → Kept db rem w
    → Post (λ a w'. Kept db rem w') (λ e w'. Kept db rem w') (m w)

pub is_user_admin-Unchanged :
    (hs : Homeservers) (ctx : Context) (server token : Str)
    → Unchanged (is_user_admin hs ctx server token)
unfolding is_user_admin get_breaker_and_config call_context do_request
is_user_admin-Unchanged hs ctx server token db rem w k =
    Post-both (Kept db rem) _ (ground (arith, k))

pub list_media-Unchanged :
    (hs : Homeservers) (ctx : Context) (server token room : Str)
    → Unchanged (list_media hs ctx server token room)
unfolding list_media get_breaker_and_config call_context do_request
list_media-Unchanged hs ctx server token room db rem w k =
    Post-both (Kept db rem) _ (ground (arith, k))
