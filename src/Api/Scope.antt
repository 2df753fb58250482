-- ===== src/Api/Scope.antt =====
-- What the purge handlers can delete for a user who is no admin of the repo.
use matrix_media_repo.Prelude.{
  ◌≡◌, refl, Bool, true, false, not, ◌&&◌, List, [], inl, inr, Contains, Bool-cases, Option-cases,
  filter, if◌then◌else◌,
}
use matrix_media_repo.Prelude.Int.{ℤ}
use matrix_media_repo.Prelude.Text.{Str, codes, str_eq}
use matrix_media_repo.Common.{Result, ok, err}
use matrix_media_repo.Config.{Context}
use matrix_media_repo.World.{World, M, pure, now_millis, query, handle, ◌>>=◌}
use matrix_media_repo.World.Rules.{Post, Post-bind, Post-both, Post-handle, Kept, query_lem}
use matrix_media_repo.World.Keeps.{bind-keeps, handle-keeps}
use matrix_media_repo.Util.Mxc.{split_user_id}
use matrix_media_repo.Util.Parse.{parse_int64}
use matrix_media_repo.Database.Rows.{Tables, DbMedia}
use matrix_media_repo.Database.Media.{
  get_by_quarantine, get_by_origin_quarantine, get_old_by_user_id, get_old_by_origin,
}
use matrix_media_repo.Purge.{PurgeAuthContext, QuarantineThis, can_affect, purge_media}
use matrix_media_repo.Purge.Resolve.{AllRows, UniqueIds, filter-AllRows, purge_media-spares_others}
use matrix_media_repo.Matrix.{Homeservers, is_user_admin, list_media}
use matrix_media_repo.Matrix.Unchanged.{is_user_admin-Unchanged, list_media-Unchanged}
use matrix_media_repo.Api.Request.{Request, Response, is_server_name, query_get, auth_failed}
use matrix_media_repo.Api.Meta.{UserInfo, is_repo_admin, get_request_user_admin_status}
use matrix_media_repo.Api.Purge.{
  Purged, purge_and_reply, with_before_ts, get_purge_auth_context, purge_individual_record,
  purge_quarantined, purge_user_before, purge_user_of, purge_room_before, purge_user_media,
  purge_room_media, purge_domain_before, purge_domain_media, open_purge_handlers, of_db_media,
  of_single, auth_context_of, fetch_error,
}

-- A row of another host and another user.
pub record IsForeign (r : Request) (user : UserInfo) (m : DbMedia) : Type 0 where
  pub has_host : str_eq r.host [] ≡ false
  pub other_host : str_eq r.host m.origin ≡ false
  pub has_user : str_eq user.user_id [] ≡ false
  pub other_user : str_eq user.user_id m.user_id ≡ false

module _ (hs : Homeservers) (ctx : Context) (r : Request) (user : UserInfo) (m : DbMedia)
    (t : Tables) (rem : List (Str × Str)) (u : UniqueIds t) (c : Contains m t.media)
    (plain : is_repo_admin ctx user ≡ false) (foreign : IsForeign r user m) where
  abbrev Stays : World → Type 0
  Stays w = Contains m w.db.media

  Kept-Stays : (w : World) → Kept t rem w → Stays w
  Kept-Stays w k = rw k.db_kept c

  purge_media-Stays :
      (auth : PurgeAuthContext) (to_handle : QuarantineThis) (w : World)
      → can_affect auth m ≡ false
      → AllRows t to_handle.db_media
      → Kept t rem w
      → Stays (purge_media ctx auth to_handle w).1
  purge_media-Stays auth to_handle w n rows k =
      purge_media-spares_others ctx auth to_handle w (rw k.db_kept u) (rw k.db_kept rows) m
        (rw k.db_kept c) n

  purge_and_reply-Stays :
      (auth : PurgeAuthContext) (to_handle : QuarantineThis) (w : World)
      → can_affect auth m ≡ false
      → AllRows t to_handle.db_media
      → Kept t rem w
      → Stays (purge_and_reply ctx auth to_handle w).1
  unfolding purge_and_reply
  purge_and_reply-Stays auth to_handle w n rows k =
      handle-keeps Stays (purge_media ctx auth to_handle) _ _ w
        (Post-both Stays _ (purge_media-Stays auth to_handle w n rows k)) (λ mxcs w' h. h)
        (λ e w' h. (h, h))

  abbrev Limited : PurgeAuthContext × (Bool × Bool) → World → Type 0
  Limited auth w = (auth.1.0 ≡ false) × (can_affect auth.0 m ≡ false) × Kept t rem w

  auth_context_lem :
      (is_local_admin : Bool) (w : World)
      → Kept t rem w
      → Limited (auth_context_of r user (false, is_local_admin)) w
  unfolding can_affect str_eq
  auth_context_lem true w k = (refl, rw (foreign.has_host, foreign.other_host) refl, k)
  auth_context_lem false w k = (refl, rw (foreign.has_user, foreign.other_user) refl, k)

  status-Post :
      (w : World)
      → Kept t rem w
      → Post
          (λ s w'. (s.0 ≡ false) × Kept t rem w')
          (λ e w'. Kept t rem w')
          (get_request_user_admin_status hs ctx r user w)
  unfolding get_request_user_admin_status
  status-Post w k = rw plain (
      Post-handle (is_user_admin hs ctx r.host user.access_token) _ _ w
        (is_user_admin-Unchanged hs ctx r.host user.access_token t rem w k)
        (λ b w' k'. record { at = (refl, k') }) (λ e w' k'. (k', record { at = (refl, k') })))

  auth-Post :
      (w : World)
      → Kept t rem w
      → Post Limited (λ e w'. Kept t rem w') (get_purge_auth_context hs ctx r user w)
  unfolding get_purge_auth_context
  auth-Post w k =
      Post-bind (get_request_user_admin_status hs ctx r user)
        (λ status. pure (auth_context_of r user status)) w (status-Post w k)
        λ status w' (e, k').
          let same : status ≡ (false, status.1) = cc in
          record { at = rw same (auth_context_lem status.1 w' k') }

  -- What follows the authorisation.
  authorised-Stays :
      (next : PurgeAuthContext × (Bool × Bool) → M (Response Purged)) (w : World)
      → Kept t rem w
      → ((auth : PurgeAuthContext × (Bool × Bool)) (w' : World)
          → Limited auth w'
          → Stays (next auth w').1)
      → Stays ((get_purge_auth_context hs ctx r user >>= next) w).1
  authorised-Stays next w k h =
      bind-keeps Stays (get_purge_auth_context hs ctx r user) next w (auth-Post w k) h
        (λ e w' k'. Kept-Stays w' k')

  -- A SELECT of rows, and the purge of them.
  fetched-Stays :
      (auth : PurgeAuthContext) (p : DbMedia → Bool) (w : World)
      → can_affect auth m ≡ false
      → Kept t rem w
      → Stays
          (handle
            (query (λ s. filter p s.media))
            fetch_error
            (λ records. purge_and_reply ctx auth (of_db_media records))
            w).1
  fetched-Stays auth p w n k =
      handle-keeps Stays (query (λ s. filter p s.media)) _ _ w
        (query_lem (λ s. filter p s.media) w k)
        (λ records w' (e, k').
          purge_and_reply-Stays auth (of_db_media records) w' n
            (rw e (filter-AllRows t p t.media (λ x d. d))) k')
        (λ e w' k'. (Kept-Stays w' k', Kept-Stays w' k'))

  before_ts-Stays :
      (next : ℤ → M (Response Purged)) (w : World)
      → Kept t rem w
      → ((ts : ℤ) (w' : World) → Kept t rem w' → Stays (next ts w').1)
      → Stays (with_before_ts r next w).1
  unfolding with_before_ts now_millis
  before_ts-Stays next w k h =
      let k' : Kept t rem (now_millis w).1 = record {
        db_kept = k.db_kept;
        removed_kept = k.removed_kept;
      } in
      elim (Bool-cases (str_eq (query_get r (codes "before_ts")) [])) [
        | inl e ↦ rw e (h _ _ k')
        | inr e ↦ elim (Option-cases (parse_int64 (query_get r (codes "before_ts")))) [
          | inl f ↦ rw (e, f) (Kept-Stays _ k')
          | inr (ts, f) ↦ rw (e, f) (h ts _ k')
        ]
      ]

  individual-Stays : (w : World) → Kept t rem w → Stays (purge_individual_record hs ctx r user w).1
  unfolding purge_individual_record
  individual-Stays w k = authorised-Stays _ w k λ auth w' (g, n, k').
      elim (Bool-cases (is_server_name (r.param (codes "server")))) [
        | inr e ↦ rw e (Kept-Stays w' k')
        | inl e ↦ rw e (
            handle-keeps Stays
              (purge_media ctx auth.0
                (of_single (r.param (codes "server")) (r.param (codes "mediaId"))))
              _ _ w' (Post-both Stays _ (purge_media-Stays auth.0 _ w' n tt k')) (λ mxcs w1 h. h)
              (λ x w1 h. (h, h)))
      ]

  quarantined-Stays : (w : World) → Kept t rem w → Stays (purge_quarantined hs ctx r user w).1
  unfolding purge_quarantined get_by_quarantine get_by_origin_quarantine
  quarantined-Stays w k = authorised-Stays _ w k λ auth w' (g, n, k').
      rw g (elim (Bool-cases auth.1.1) [
        | inr e ↦ rw e (Kept-Stays w' k')
        | inl e ↦ rw e (fetched-Stays auth.0 _ w' n k')
      ])

  -- The handlers for the admins of the homeserver.
  for_admins-Stays :
      (next : PurgeAuthContext → Bool → ℤ → M (Response Purged)) (w : World)
      → Kept t rem w
      → ((auth : PurgeAuthContext) (ts : ℤ) (w' : World)
          → can_affect auth m ≡ false
          → Kept t rem w'
          → Stays (next auth false ts w').1)
      → Stays
          ((get_purge_auth_context hs ctx r user >>= λ auth.
              if not auth.1.0 && not auth.1.1
              then pure auth_failed
              else with_before_ts r (next auth.0 auth.1.0))
            w).1
  for_admins-Stays next w k h = authorised-Stays _ w k λ auth w' (g, n, k').
      rw g (elim (Bool-cases auth.1.1) [
        | inr e ↦ rw e (Kept-Stays w' k')
        | inl e ↦ rw e (before_ts-Stays _ w' k' (λ ts w1 k1. h auth.0 ts w1 n k1))
      ])

  user_of-Stays :
      (auth : PurgeAuthContext) (ts : ℤ) (parsed : Result (Str × Str)) (w : World)
      → can_affect auth m ≡ false
      → Kept t rem w
      → Stays (purge_user_of hs ctx r user auth false ts parsed w).1
  unfolding get_old_by_user_id
  user_of-Stays auth ts (err e) w n k = Kept-Stays w k
  user_of-Stays auth ts (ok p) w n k = elim (Bool-cases (not (str_eq p.1 r.host))) [
    | inl e ↦ rw e (Kept-Stays w k)
    | inr e ↦ rw e (fetched-Stays auth _ w n k)
  ]

  user-Stays : (w : World) → Kept t rem w → Stays (purge_user_media hs ctx r user w).1
  unfolding purge_user_media purge_user_before
  user-Stays w k =
      for_admins-Stays (purge_user_before hs ctx r user) w k
        λ auth ts w' n k'. user_of-Stays auth ts (split_user_id (r.param (codes "userId"))) w' n k'

  domain-Stays : (w : World) → Kept t rem w → Stays (purge_domain_media hs ctx r user w).1
  unfolding purge_domain_media purge_domain_before get_old_by_origin
  domain-Stays w k = for_admins-Stays (purge_domain_before hs ctx r user) w k λ auth ts w' n k'.
      elim (Bool-cases (not (is_server_name (r.param (codes "serverName"))))) [
        | inl e ↦ rw e (Kept-Stays w' k')
        | inr e ↦ elim (Bool-cases (not (str_eq (r.param (codes "serverName")) r.host))) [
          | inl f ↦ rw (e, f) (Kept-Stays w' k')
          | inr f ↦ rw (e, f) (fetched-Stays auth _ w' n k')
        ]
      ]

  room-Stays : (w : World) → Kept t rem w → Stays (purge_room_media hs ctx r user w).1
  unfolding purge_room_media purge_room_before
  room-Stays w k = for_admins-Stays (purge_room_before hs ctx r user) w k λ auth ts w' n k'.
      handle-keeps Stays (list_media hs ctx r.host user.access_token (r.param (codes "roomId"))) _ _
        w'
        (list_media-Unchanged hs ctx r.host user.access_token (r.param (codes "roomId")) t rem w'
          k')
        (λ all_media w1 k1. purge_and_reply-Stays auth _ w1 n tt k1)
        (λ e w1 k1. (Kept-Stays w1 k1, Kept-Stays w1 k1))

  abbrev Spares : M (Response Purged) → Type 0
  Spares handler = (w : World) → Kept t rem w → Stays (handler w).1

  handlers-Spare :
      (handler : M (Response Purged))
      → Contains handler (open_purge_handlers hs ctx r user)
      → Spares handler
  unfolding open_purge_handlers
  handlers-Spare h (inl e) = rw e individual-Stays
  handlers-Spare h (inr (inl e)) = rw e quarantined-Stays
  handlers-Spare h (inr (inr (inl e))) = rw e user-Stays
  handlers-Spare h (inr (inr (inr (inl e)))) = rw e room-Stays
  handlers-Spare h (inr (inr (inr (inr (inl e))))) = rw e domain-Stays
  handlers-Spare h (inr (inr (inr (inr (inr e))))) = absurd e

-- Let the rows have distinct IDs. Of a user with an ID who is no admin of the repo, whether or not the
-- homeserver makes an admin of them, no purge handler deletes a row of another user at another
-- host, whatever fails.
pub open_purge_handlers-spare_foreign :
    (hs : Homeservers) (ctx : Context) (r : Request) (user : UserInfo) (w : World)
    → UniqueIds w.db
    → is_repo_admin ctx user ≡ false
    → (m : DbMedia) → IsForeign r user m
    → Contains m w.db.media
    → (handler : M (Response Purged)) → Contains handler (open_purge_handlers hs ctx r user)
    → Contains m (handler w).1.db.media
open_purge_handlers-spare_foreign hs ctx r user w u plain m foreign c handler h =
    handlers-Spare hs ctx r user m w.db w.removed u c plain foreign handler h w
      (record { db_kept = refl; removed_kept = refl })
