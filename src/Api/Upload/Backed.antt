-- ===== src/Api/Upload/Backed.antt =====
-- What `UploadMediaSync` (api/r0/upload_sync.go) leaves and answers.
use matrix_media_repo.Prelude.{◌≡◌, refl, ap, sym, Bool, Option, none, some, [], Contains, arith}
use matrix_media_repo.Prelude.Text.{Str}
use matrix_media_repo.Prelude.Int.{ℤ}
use matrix_media_repo.Common.{Error, ok}
use matrix_media_repo.Config.{Context}
use matrix_media_repo.Database.Rows.{DbMedia}
use matrix_media_repo.World.{World, handle}
use matrix_media_repo.World.Rules.{Post, Post-handle}
use matrix_media_repo.Util.Mxc.{mxc_uri}
use matrix_media_repo.Upload.Steps.{buffer}
use matrix_media_repo.Upload.Pipeline.{execute}
use matrix_media_repo.Upload.Rows.{Backed}
use matrix_media_repo.Upload.Whole.{Returned, no_record, a_record, execute-Backed}
use matrix_media_repo.Datastores.{local_media}
use matrix_media_repo.Api.Request.{Request, Response, payload}
use matrix_media_repo.Api.Meta.{UserInfo}
use matrix_media_repo.Api.Upload.{
  MediaUploadedResponse, upload_request_size_check, upload_of, uploaded_uri, unless_answered,
  sync_error, check_size, upload_media_sync,
}

payload_same : (a b : MediaUploadedResponse) → payload a ≡ payload b → a ≡ b
payload_same a b e = cc

module _ (ctx : Context) (r : Request) (base : Str → Str) (user : UserInfo)
    (glob : Str → Str → Bool) (sha256 : Str → Str) where
  -- The answer, where it is a URI, is that of a row with the hash of the body.
  abbrev pub Answers : Response MediaUploadedResponse → World → Type 0
  Answers a w' =
      (uri : MediaUploadedResponse)
      → a ≡ payload uri
      → (m : DbMedia) × Contains m w'.db.media
        × (uri.content_uri ≡ mxc_uri m.origin m.media_id)
        × ((b : Str) × (buffer ctx local_media r.body ≡ ok b) × (m.sha256_hash ≡ sha256 b))

  check_size-error :
      (size : ℤ) (a : Response MediaUploadedResponse) (uri : MediaUploadedResponse)
      → check_size ctx r size ≡ some a
      → a ≡ payload uri
      → ⊥
  check_size-error size a uri e p = absurd (ground (arith, e, p))

  size_check-error :
      (a : Response MediaUploadedResponse) (uri : MediaUploadedResponse)
      → upload_request_size_check ctx r ≡ some a
      → a ≡ payload uri
      → ⊥
  unfolding upload_request_size_check
  size_check-error a uri e p = absurd (ground (arith, e, p))

  uploaded_uri-Answers :
      (o : Option DbMedia) (w : World)
      → Backed w
      → Returned sha256 (buffer ctx local_media r.body) o w
      → Post
          (λ a w'. Backed w' × Answers a w')
          (λ e w'. Backed w')
          (uploaded_uri ctx r base user o w)
  uploaded_uri-Answers none w b t = record { at = b }
  uploaded_uri-Answers (some m) w b (no_record e) = absurd (ground (arith, e))
  uploaded_uri-Answers (some m) w b (a_record bytes e t) =
      let same : m ≡ t.row = ground (arith, t.returned) in
      record {
        at = (
          b,
          λ uri p.
              let q : (record { content_uri = mxc_uri m.origin m.media_id }) ≡ uri =
                payload_same _ uri p in
              (
                m,
                rw same t.in_table,
                ap (λ (x : MediaUploadedResponse). x.content_uri) (sym q),
                (bytes, e, rw same t.hash_eq),
              ),
        );
      }

  sync_error-Answers :
      (e : Error) (w : World)
      → Backed w
      → Post (λ a w'. Backed w' × Answers a w') (λ e w'. Backed w') (sync_error ctx r base user e w)
  sync_error-Answers e w b = record { at = (b, λ uri p. absurd (ground (arith, p))) }

  answered-Answers :
      (o : Option (Response MediaUploadedResponse)) (w : World)
      → upload_request_size_check ctx r ≡ o
      → Backed w
      → Post
          (λ a w'. Backed w' × Answers a w')
          (λ e w'. Backed w')
          (unless_answered ctx r base user o
            (handle
              (execute glob sha256 ctx (upload_of ctx r base user r.host) [] r.body)
              (sync_error ctx r base user)
              (uploaded_uri ctx r base user))
            w)
  answered-Answers (some a) w e b = record {
    at = (b, λ uri p. absurd (size_check-error a uri e p));
  }
  answered-Answers none w e b =
      Post-handle (execute glob sha256 ctx (upload_of ctx r base user r.host) [] r.body)
        (sync_error ctx r base user) (uploaded_uri ctx r base user) w
        (execute-Backed glob sha256 ctx (upload_of ctx r base user r.host) [] r.body w b)
        (λ o w1 (b1, t). uploaded_uri-Answers o w1 b1 t)
        (λ x w1 b1. (b1, sync_error-Answers x w1 b1))

  -- If the file of every media row was put in a datastore before, it is so after `UploadMediaSync`, whatever
  -- fails; and where the answer is a URI, it is that of a media row with the hash of the body.
  pub upload_media_sync-Backed :
      (w : World)
      → Backed w
      → Post
          (λ a w'. Backed w' × Answers a w')
          (λ e w'. Backed w')
          (upload_media_sync ctx r base user glob sha256 w)
  unfolding upload_media_sync
  upload_media_sync-Backed w b = answered-Answers (upload_request_size_check ctx r) w refl b
