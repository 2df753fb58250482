-- ===== src/Tests/Requests.antt =====
-- The theorems about requests, tokens, downloads and the purge of thumbnails at concrete values.
use matrix_media_repo.Prelude.{
  ◌≡◌, refl, ap, ℕ, Bool, true, false, none, some, [], ◌∷◌, Contains, inl, inr, arith,
  if◌then◌else◌,
}
use matrix_media_repo.Prelude.Int.{pos, ltb_ℤ, leb_ℤ}
use matrix_media_repo.Prelude.Text.{Str, codes, str_eq}
use matrix_media_repo.Prelude.Keys.{lookup, insert, str_key}
use matrix_media_repo.Common.{ok, err, external, restricted_auth}
use matrix_media_repo.Config.{Context, is_global_admin, is_server_ours}
use matrix_media_repo.Database.Rows.{Tables, DbMedia, DbThumbnail}
use matrix_media_repo.Util.Mxc.{mxc_uri}
use matrix_media_repo.World.{World, M, pure, tick, ask, exec, query}
use matrix_media_repo.World.Rules.{Post}
use matrix_media_repo.World.Keeps.{Keeps, pure-Keeps}
use matrix_media_repo.Purge.{can_affect, purge_media}
use matrix_media_repo.Purge.Resolve.{UniqueIds, purge_media-spares_others}
use matrix_media_repo.Quarantine.{quarantine_media}
use matrix_media_repo.Quarantine.Hosts.{quarantine_media-spares_hosts}
use matrix_media_repo.ThumbnailPurge.Loop.{purge_thumbnails}
use matrix_media_repo.ThumbnailPurge.Ends.{IsStrict, rounds, purge_thumbnails-ends}
use matrix_media_repo.Matrix.{
  answered, Homeservers, get_user_id_from_token, do_breaker_request, get_breaker_and_config,
  call_context, do_request, filter_error,
}
use matrix_media_repo.Api.Request.{Request, Response, payload}
use matrix_media_repo.Api.Meta.{UserInfo, is_repo_admin}
use matrix_media_repo.Api.Purge.{purge_individual_record, open_purge_handlers, of_db_media}
use matrix_media_repo.Api.Quarantine.{when_allowed, quarantine_room, quarantine_handlers}
use matrix_media_repo.Api.Scope.{open_purge_handlers-spare_foreign}
use matrix_media_repo.Api.Hosts.{quarantine_handlers-spare_hosts}
use matrix_media_repo.Api.AuthCache.{
  cache_key, cache_get, cache_set, get_uncached, cache_token, check_token_with_homeserver,
  appservice_user, get_user_id, invalidate_token, found,
}
use matrix_media_repo.Api.AuthCache.Keys.{cache_key-injective}
use matrix_media_repo.Api.AuthCache.Answers.{get_user_id-answers_again, invalidate_token-forgets}
use matrix_media_repo.Api.Routers.{require_repo_admin}
use matrix_media_repo.Api.Routers.Admins.{require_repo_admin-admins_only}
use matrix_media_repo.Api.Usage.{by_user}
use matrix_media_repo.Api.Usage.Entries.{uploads, by_user-uploads}
use matrix_media_repo.Upload.Steps.{set_media_requires_auth}
use matrix_media_repo.Database.Ids.{insert_restricted}
use matrix_media_repo.Download.Stream.{Files}
use matrix_media_repo.Download.Remote.{Federation}
use matrix_media_repo.Download.Pipeline.{DownloadOpts, Bucket, fits, execute}
use matrix_media_repo.Download.Access.{execute-refuses_restricted, execute-hides_quarantined}
use matrix_media_repo.Tests.{context, photo, world, sent}

-- A medium of another user at another host.
abbrev theirs : DbMedia
theirs = record photo { origin = codes "there"; media_id = codes "two"; user_id = codes "@bob" }

abbrev pub both : World
both = world (photo ∷ (theirs ∷ []))

both-UniqueIds : UniqueIds both.db
unfolding str_eq
both-UniqueIds m m' (inl a) (inl b) e = cc
both-UniqueIds m m' (inr (inl a)) (inr (inl b)) e = cc
both-UniqueIds m m' (inl a) (inr (inl b)) e =
    absurd (ground (arith, ap (λ (x : DbMedia). x.origin) a, ap (λ (x : DbMedia). x.origin) b, e))
both-UniqueIds m m' (inr (inl a)) (inl b) e =
    absurd (ground (arith, ap (λ (x : DbMedia). x.origin) a, ap (λ (x : DbMedia). x.origin) b, e))
both-UniqueIds m m' (inl a) (inr (inr x)) e = absurd x
both-UniqueIds m m' (inr (inl a)) (inr (inr x)) e = absurd x
both-UniqueIds m m' (inr (inr x)) c e = absurd x

purge_media-spares_others_example :
    Contains theirs
      (purge_media context
        (record { uploader_user_id = codes "@ann"; source_origin = [] })
        (of_db_media (photo ∷ []))
        both).1.db.media
unfolding str_eq can_affect
purge_media-spares_others_example =
    purge_media-spares_others context
      (record { uploader_user_id = codes "@ann"; source_origin = [] }) (of_db_media (photo ∷ []))
      both both-UniqueIds (inl refl, tt) theirs (inr (inl refl)) refl

quarantine_media-spares_hosts_example :
    Contains theirs (quarantine_media (codes "here") (of_db_media (photo ∷ [])) both).1.db.media
unfolding str_eq
quarantine_media-spares_hosts_example =
    quarantine_media-spares_hosts (codes "here") (of_db_media (photo ∷ [])) both refl (inl refl, tt)
      theirs (inr (inl refl)) refl

abbrev by_age : DbThumbnail → DbThumbnail → Bool
by_age x y = ltb_ℤ x.creation_ts y.creation_ts

by_age-IsStrict : IsStrict by_age
by_age-IsStrict = record {
  irreflexive = λ x. ground arith;
  transitive = λ x y z a b. ground (arith, a, b);
}

purge_thumbnails-ends_example :
    Post (λ o w'. o ≡ some tt) (λ e w'. Unit {0}) (purge_thumbnails by_age context 10 both)
unfolding rounds
purge_thumbnails-ends_example =
    purge_thumbnails-ends by_age by_age-IsStrict context 10 both (ground arith)

-- A homeserver of which no user is an admin, and which answers all else.
abbrev homeservers : Homeservers
homeservers = record {
  whoami =
      λ n s t u. answered (record { user_id = codes "@ann"; is_guest = false; is_guest2 = false });
  whois = λ n s t. answered tt;
  room_media = λ n s t room.
      answered (record { local_mxcs = codes "mxc://there/two" ∷ []; remote_mxcs = [] });
  logout = λ n s t u. answered tt;
  logout_all = λ n s t u. answered tt;
}

abbrev pub request : Request
request = record {
  host = codes "here";
  remote_addr = codes "1";
  method = codes "POST";
  param = λ name. if str_eq name (codes "mediaId") then codes "two" else codes "there";
  query = λ name. [];
  header = λ name. codes "Bearer abc";
  authorization = [];
  content_length = pos 7;
  body = sent (codes "message");
}

abbrev pub ann : UserInfo
ann = record {
  user_id = codes "@ann";
  access_token = codes "abc";
  is_shared = false;
  is_trusted_header_admin = false;
}

ann_plain : is_repo_admin context ann ≡ false
unfolding is_repo_admin is_global_admin str_eq
ann_plain = refl

open_purge_handlers-spare_foreign_example :
    Contains theirs (purge_individual_record homeservers context request ann both).1.db.media
unfolding str_eq open_purge_handlers
open_purge_handlers-spare_foreign_example =
    open_purge_handlers-spare_foreign homeservers context request ann both both-UniqueIds ann_plain
      theirs (record { has_host = refl; other_host = refl; has_user = refl; other_user = refl })
      (inr (inl refl)) (purge_individual_record homeservers context request ann) (inl refl)

quarantine_handlers-spare_hosts_example :
    Contains theirs
      (when_allowed homeservers context request ann
        (quarantine_room homeservers context request ann)
        both).1.db.media
unfolding str_eq quarantine_handlers
quarantine_handlers-spare_hosts_example =
    quarantine_handlers-spare_hosts homeservers context request ann both ann_plain refl theirs refl
      (inr (inl refl))
      (when_allowed homeservers context request ann
        (quarantine_room homeservers context request ann))
      (inl refl)

-- Access tokens have a length, and "@" stands in none of these.
cache_key-injective_example : (codes "abc" ≡ codes "abc") × (codes "@ann" ≡ codes "@ann")
unfolding str_eq
cache_key-injective_example =
    cache_key-injective (codes "abc") (codes "abc") (codes "@ann") (codes "@ann")
      (refl, (refl, (refl, tt))) (refl, (refl, (refl, tt))) refl refl refl

abbrev pub matches : Str → Str → Bool
matches = str_eq

get_user_id-answers_again_example :
    let w' =
      (get_user_id matches homeservers context request (codes "abc") (codes "@ann") both).1 in
    get_user_id matches homeservers context request (codes "abc") (codes "@ann") w'
    ≡ (ok (found (codes "@ann") false), tick w')
unfolding str_eq get_user_id cache_get cache_set get_uncached cache_token
    check_token_with_homeserver appservice_user get_user_id_from_token do_breaker_request
    get_breaker_and_config call_context do_request is_server_ours cache_key lookup insert
    filter_error ask exec query leb_ℤ
get_user_id-answers_again_example =
    get_user_id-answers_again matches homeservers context request (codes "abc") (codes "@ann")
      (found (codes "@ann") false) both refl (ground arith) refl refl

invalidate_token-forgets_example :
    Post
      (λ x w'.
        (lookup (cache_key (codes "abc") (codes "@ann")) w'.token_cache ≡ none)
        × (lookup (cache_key (codes "abc") []) w'.token_cache ≡ none))
      (λ e w'. Unit)
      (invalidate_token matches homeservers context request (codes "abc") (codes "@ann") both)
invalidate_token-forgets_example =
    invalidate_token-forgets matches homeservers context request (codes "abc") (codes "@ann") both

abbrev nothing_done : UserInfo → M (Response ℕ)
nothing_done user = pure (payload 0)

abbrev KeepsPhoto : Tables → Type 0
KeepsPhoto t = Contains photo t.media

require_repo_admin-admins_only_example :
    Keeps KeepsPhoto (
      require_repo_admin
        (λ token u. pure (found (codes "@ann") false))
        context
        request
        nothing_done)
require_repo_admin-admins_only_example =
    require_repo_admin-admins_only KeepsPhoto (λ token u. pure (found (codes "@ann") false)) context
      request nothing_done (λ token u. pure-Keeps (found (codes "@ann") false))
      (λ user h a. pure-Keeps (payload 0))

by_user-uploads_example :
    uploads (lookup (codes "@ann") (by_user (photo ∷ (theirs ∷ [])) []))
    ≡ codes "mxc://here/one" ∷ []
unfolding str_eq mxc_uri
by_user-uploads_example = by_user-uploads (codes "@ann") (photo ∷ (theirs ∷ []))

abbrev pub files : Files
files = record {
  object = λ ds location. codes "bytes";
  cached_media = λ n hash. none;
  awaited = λ n. none;
  quarantine_image = λ width height. codes "image";
}

abbrev pub silent : Federation
silent = record {
  api_url = λ n server. none;
  media = λ n signed origin media_id. none;
  follow = λ n url. none;
}

abbrev pub bucket : Bucket
bucket = record { add = λ n size. fits; drain = λ n size. fits }

abbrev pub opts : DownloadOpts
opts = record {
  fetch_remote_if_needed = true;
  block_for_read_until = pos 0;
  record_only = false;
  can_redirect = true;
  auth_provided = false;
}

-- The photo is recorded to ask for authentication.
abbrev locked : World
locked = (set_media_requires_auth (codes "here") (codes "one") both).1

execute-refuses_restricted_example :
    execute matches (λ s. s) silent files bucket context (codes "here") (codes "one") opts locked
    ≡ (
      err (if locked.env.fault locked.calls then external locked.calls else restricted_auth),
      tick locked,
    )
unfolding set_media_requires_auth insert_restricted exec
execute-refuses_restricted_example =
    execute-refuses_restricted matches (λ s. s) silent files bucket context (codes "here")
      (codes "one") opts both locked refl refl refl

-- The image replaces quarantined media.
abbrev replacing : Context
replacing = record context {
  domain = record context.domain {
    quarantine = record context.domain.quarantine { replace_downloads = true };
  };
}

execute-hides_quarantined_example :
    Post
      (λ p w'. p.0.quarantined ≡ true → p.1 ≡ some (codes "image"))
      (λ e w'. Unit)
      (execute matches
        (λ s. s)
        silent
        files
        bucket
        replacing
        (codes "here")
        (codes "one")
        opts
        (world (record photo { quarantined = true } ∷ [])))
execute-hides_quarantined_example =
    execute-hides_quarantined matches (λ s. s) silent files bucket replacing (codes "here")
      (codes "one") opts (world (record photo { quarantined = true } ∷ []))
