-- ===== src/Api/Hosts.antt =====
-- What the quarantine handlers can change for a user who is no admin of the repo.
use matrix_media_repo.Prelude.{
  ◌≡◌, refl, Bool, false, not, List, [], inl, inr, Contains, Bool-cases, filter,
}
use matrix_media_repo.Prelude.Int.{ℤ}
use matrix_media_repo.Prelude.Text.{Str, codes, str_eq}
use matrix_media_repo.Common.{Result, ok, err}
use matrix_media_repo.Config.{Context}
use matrix_media_repo.World.{World, M, query, handle, pure}
use matrix_media_repo.World.Rules.{Post, Post-both, Post-if, Post-handle, Kept, query_lem}
use matrix_media_repo.World.Keeps.{bind-keeps, handle-keeps}
use matrix_media_repo.Util.Mxc.{split_user_id}
use matrix_media_repo.Database.Rows.{Tables, DbMedia}
use matrix_media_repo.Database.Media.{get_by_user_id, get_by_origin}
use matrix_media_repo.Purge.{QuarantineThis}
use matrix_media_repo.Purge.Resolve.{AllRows, filter-AllRows}
use matrix_media_repo.Quarantine.{quarantine_media}
use matrix_media_repo.Quarantine.Hosts.{quarantine_media-spares_hosts}
use matrix_media_repo.Matrix.{Homeservers, is_user_admin, list_media}
use matrix_media_repo.Matrix.Unchanged.{is_user_admin-Unchanged, list_media-Unchanged}
use matrix_media_repo.Api.Request.{Request, Response, is_server_name, internal_server_error}
use matrix_media_repo.Api.Meta.{UserInfo, is_repo_admin}
use matrix_media_repo.Api.Purge.{of_db_media}
use matrix_media_repo.Api.Quarantine.{
  perform_quarantine_request, get_quarantine_request_info, quarantine_room, quarantine_user_of,
  quarantine_user, quarantine_domain, quarantine_one, when_allowed, quarantine_handlers,
}

module _ (hs : Homeservers) (ctx : Context) (r : Request) (user : UserInfo) (m : DbMedia)
    (t : Tables) (rem : List (Str × Str)) (c : Contains m t.media)
    (plain : is_repo_admin ctx user ≡ false) (has_host : str_eq r.host [] ≡ false)
    (other : str_eq m.origin r.host ≡ false) where
  abbrev Stays : World → Type 0
  Stays w = Contains m w.db.media

  Kept-Stays : (w : World) → Kept t rem w → Stays w
  Kept-Stays w k = rw k.db_kept c

  perform-Stays :
      (to_handle : QuarantineThis) (w : World)
      → AllRows t to_handle.db_media
      → Kept t rem w
      → Stays (perform_quarantine_request r.host false to_handle w).1
  unfolding perform_quarantine_request
  perform-Stays to_handle w rows k =
      handle-keeps Stays (quarantine_media r.host to_handle) _ _ w
        (Post-both Stays _ (
          quarantine_media-spares_hosts r.host to_handle w has_host (rw k.db_kept rows) m
            (rw k.db_kept c) other))
        (λ total w' h. h) (λ e w' h. (h, h))

  fetched-Stays :
      (p : DbMedia → Bool) (message : Str) (w : World)
      → Kept t rem w
      → Stays
          (handle
            (query (λ s. filter p s.media))
            (λ e. pure (internal_server_error message))
            (λ records. perform_quarantine_request r.host false (of_db_media records))
            w).1
  fetched-Stays p message w k =
      handle-keeps Stays (query (λ s. filter p s.media)) _ _ w
        (query_lem (λ s. filter p s.media) w k)
        (λ records w' (e, k').
          perform-Stays (of_db_media records) w' (rw e (filter-AllRows t p t.media (λ x d. d))) k')
        (λ e w' k'. (Kept-Stays w' k', Kept-Stays w' k'))

  -- What a handler does where it may not affect other hosts.
  abbrev Spares : (Bool → M (Response ℤ)) → Type 0
  Spares next = (w : World) → Kept t rem w → Stays (next false w).1

  room-Spares : Spares (quarantine_room hs ctx r user)
  unfolding quarantine_room
  room-Spares w k =
      handle-keeps Stays (list_media hs ctx r.host user.access_token (r.param (codes "roomId"))) _ _
        w (list_media-Unchanged hs ctx r.host user.access_token _ t rem w k)
        (λ all_media w' k'. perform-Stays _ w' tt k')
        (λ e w' k'. (Kept-Stays w' k', Kept-Stays w' k'))

  user_of-Stays :
      (parsed : Result (Str × Str)) (w : World)
      → Kept t rem w
      → Stays (quarantine_user_of hs ctx r user false parsed w).1
  unfolding get_by_user_id
  user_of-Stays (err e) w k = Kept-Stays w k
  user_of-Stays (ok p) w k = elim (Bool-cases (not (str_eq p.1 r.host))) [
    | inl e ↦ rw e (Kept-Stays w k)
    | inr e ↦ rw e (fetched-Stays _ _ w k)
  ]

  user-Spares : Spares (quarantine_user hs ctx r user)
  unfolding quarantine_user
  user-Spares w k = user_of-Stays (split_user_id (r.param (codes "userId"))) w k

  domain-Spares : Spares (quarantine_domain hs ctx r user)
  unfolding quarantine_domain get_by_origin
  domain-Spares w k = elim (Bool-cases (not (is_server_name (r.param (codes "serverName"))))) [
    | inl e ↦ rw e (Kept-Stays w k)
    | inr e ↦ elim (Bool-cases (not (str_eq (r.param (codes "serverName")) r.host))) [
      | inl f ↦ rw (e, f) (Kept-Stays w k)
      | inr f ↦ rw (e, f) (fetched-Stays _ _ w k)
    ]
  ]

  one-Spares : Spares (quarantine_one hs ctx r user)
  unfolding quarantine_one
  one-Spares w k = elim (Bool-cases (not (is_server_name (r.param (codes "server"))))) [
    | inl e ↦ rw e (Kept-Stays w k)
    | inr e ↦ elim (Bool-cases (not (str_eq r.host (r.param (codes "server"))))) [
      | inl f ↦ rw (e, f) (Kept-Stays w k)
      | inr f ↦ rw (e, f) (perform-Stays _ w tt k)
    ]
  ]

  info-Post :
      (w : World)
      → Kept t rem w
      → Post
          (λ i w'. (i.allow_other_hosts ≡ false) × Kept t rem w')
          (λ e w'. Kept t rem w')
          (get_quarantine_request_info hs ctx r user w)
  unfolding get_quarantine_request_info
  info-Post w k = rw plain (
      Post-if ctx.domain.quarantine.allow_local_admins _ _ w
        (λ e.
          Post-handle (is_user_admin hs ctx r.host user.access_token) _ _ w
            (is_user_admin-Unchanged hs ctx r.host user.access_token t rem w k)
            (λ b w' k'. record { at = (refl, k') }) (λ x w' k'. (k', record { at = (refl, k') })))
        (λ e. record { at = (refl, k) }))

  allowed-Stays :
      (next : Bool → M (Response ℤ)) (w : World)
      → Spares next
      → Kept t rem w
      → Stays (when_allowed hs ctx r user next w).1
  unfolding when_allowed
  allowed-Stays next w s k =
      bind-keeps Stays (get_quarantine_request_info hs ctx r user) _ w (info-Post w k)
        (λ i w' (e, k'). elim (Bool-cases (not i.can_quarantine)) [
          | inl f ↦ rw f (Kept-Stays w' k')
          | inr f ↦ rw (f, e) (s w' k')
        ])
        (λ e w' k'. Kept-Stays w' k')

  handlers-Spare :
      (handler : M (Response ℤ)) (w : World)
      → Contains handler (quarantine_handlers hs ctx r user)
      → Kept t rem w
      → Stays (handler w).1
  unfolding quarantine_handlers
  handlers-Spare h w (inl e) k = rw e (allowed-Stays _ w room-Spares k)
  handlers-Spare h w (inr (inl e)) k = rw e (allowed-Stays _ w user-Spares k)
  handlers-Spare h w (inr (inr (inl e))) k = rw e (allowed-Stays _ w domain-Spares k)
  handlers-Spare h w (inr (inr (inr (inl e)))) k = rw e (allowed-Stays _ w one-Spares k)
  handlers-Spare h w (inr (inr (inr (inr e)))) k = absurd e

-- Of a user who is no admin of the repo, whether or not the homeserver makes an admin of them, no
-- quarantine handler changes a row of a host other than the one that the request is for, whatever fails.
pub quarantine_handlers-spare_hosts :
    (hs : Homeservers) (ctx : Context) (r : Request) (user : UserInfo) (w : World)
    → is_repo_admin ctx user ≡ false
    → str_eq r.host [] ≡ false
    → (m : DbMedia) → str_eq m.origin r.host ≡ false
    → Contains m w.db.media
    → (handler : M (Response ℤ)) → Contains handler (quarantine_handlers hs ctx r user)
    → Contains m (handler w).1.db.media
quarantine_handlers-spare_hosts hs ctx r user w plain has_host m other c handler h =
    handlers-Spare hs ctx r user m w.db w.removed c plain has_host other handler w h
      (record { db_kept = refl; removed_kept = refl })
