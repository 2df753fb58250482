-- ===== src/Download/Remote.antt =====
-- pipelines/_steps/download/try_download.go, pipelines/_steps/datastore_op/put_and_return_stream.go,
-- `FederatedGet` of matrix/requests.go and errcache/: a medium of another server.
use matrix_media_repo.Prelude.{
  ℕ, Bool, true, false, not, ◌&&◌, ◌||◌, Option, none, some, [], ◌∷◌, ◌++◌, ◌==◌, if◌then◌else◌,
}
use matrix_media_repo.Prelude.Int.{ℤ, pos, ltb_ℤ, eqb_ℤ}
use matrix_media_repo.Prelude.Text.{Str, codes, str_eq, has_prefix}
use matrix_media_repo.Prelude.Keys.{lookup, insert, str_key}
use matrix_media_repo.Common.{
  Error, Result, ok, err, external, new, media_not_found, media_too_large, server_not_allowed,
  panicked,
}
use matrix_media_repo.Config.{Context, is_server_ours}
use matrix_media_repo.World.{M, pure, raise, raise_if, ask, lift, tick, ◌>>=◌, ◌>>◌}
use matrix_media_repo.Util.Mxc.{slash}
use matrix_media_repo.Util.Parse.{parse_int64}
use matrix_media_repo.Readers.{Stream, eof, read_all, read_limited}
use matrix_media_repo.Database.Rows.{DbMedia}
use matrix_media_repo.Datastores.{pick, remote_media}
use matrix_media_repo.Matrix.{call_context}
use matrix_media_repo.Upload.Steps.{Upload}
use matrix_media_repo.Upload.Pipeline.{execute}

-- A part of a multipart body. `filename` is what `mime.ParseMediaType` makes of the disposition.
pub record MediaPart : Type 0 where
  pub content_type : Str
  pub filename : Str
  pub location : Str
  pub body : Stream

-- What `multipart.NewReader` and `json.Decode` make of a body: the type of the first part with
-- whether it is JSON, and the second part.
pub record Parts : Type 0 where
  pub json_type : Str
  pub is_json : Bool
  pub media : Option MediaPart

-- A response. `error_code` is the `errcode` of a body that is a JSON object.
pub record FedResponse : Type 0 where
  pub status : ℕ
  pub content_length : Str
  pub error_code : Option Str
  pub whole : MediaPart
  pub parts : Option Parts

-- Other servers: what the n-th request brings back, by whether it is signed, and what following a
-- `Location` brings back.
pub record Federation : Type 0 where
  pub api_url : ℕ → Str → Option (Str × Str)
  pub media : ℕ → Bool → Str → Str → Option FedResponse
  pub follow : ℕ → Str → Option MediaPart

module _ (glob : Str → Str → Bool) (sha256 : Str → Str) (fed : Federation) (ctx : Context) where
  abbrev outside : {A : Type 0} → (ℕ → Option A) → M A
  outside f w = elim (f w.calls) [
    | none ↦ (err (external w.calls), tick w)
    | some a ↦ (ok a, tick w)
  ]

  -- `matrix.FederatedGet`
  unfoldable pub federated_get : Bool → Str → Str → M FedResponse
  federated_get signed origin media_id = call_context (do
    resp ← outside (λ n. fed.media n signed origin media_id)
    raise_if (not (resp.status == 200) && not (resp.status == 404)) (new (codes "response not ok"))
    pure resp)

  abbrev fallback_on_unrecognized : FedResponse → Option Str → Option (FedResponse × Bool)
  fallback_on_unrecognized resp none = none
  fallback_on_unrecognized resp (some code) =
      if str_eq code (codes "M_UNRECOGNIZED") then none else some (resp, false)

  -- The signed request: nothing asks for the fallback. The flag is `usesMultipartFormat`.
  unfoldable pub authenticated : Str → Str → M (Option (FedResponse × Bool))
  unfolding federated_get
  authenticated origin media_id = if str_eq ctx.domain.signing_key_path [] then pure none else do
    resp ← federated_get true origin media_id
    if (resp.status == 403) || (resp.status == 401)
        then raise (server_not_allowed [])
        else if resp.status == 404
        then pure (fallback_on_unrecognized resp resp.error_code)
        else pure (some (resp, resp.status == 200))

  abbrev or_fallback : Str → Str → Option (FedResponse × Bool) → M (FedResponse × Bool)
  or_fallback origin media_id none = do
    resp ← federated_get false origin media_id
    pure (resp, false)
  or_fallback origin media_id (some r) = pure r

  abbrev content_length_of : FedResponse → Result ℤ
  content_length_of resp =
      if str_eq resp.content_length [] then ok (pos 0) else elim (parse_int64 resp.content_length) [
        | none ↦ err (new (codes "strconv.ParseInt: invalid Content-Length"))
        | some n ↦ ok n
      ]

  -- The checks of the status and of the announced length.
  unfoldable pub check_response : FedResponse → M (Unit {0})
  check_response resp = do
    raise_if (resp.status == 404) media_not_found
    raise_if (not (resp.status == 200)) (new (codes "unexpected status code"))
    content_length ← lift (content_length_of resp)
    let max = ctx.domain.downloads_max_size_bytes
    raise_if (not (eqb_ℤ content_length (pos 0)) && (ltb_ℤ (pos 0) max && ltb_ℤ max content_length))
        media_too_large

  -- The body, cut off at the limit. A redirect to elsewhere is not limited.
  abbrev limited : Stream → Result Str
  limited body =
      if ltb_ℤ (pos 0) ctx.domain.downloads_max_size_bytes
      then read_limited ctx.domain.downloads_max_size_bytes body
      else read_all body

  -- The limit is on the body around the part.
  abbrev limited_part : Stream → MediaPart → Result Str
  limited_part body part = elim (limited body) [ ok s ↦ read_all part.body | err e ↦ err e ]

  abbrev second_part : Stream → Option MediaPart → M (MediaPart × Result Str)
  second_part body none = raise (new (codes "multipart: NextPart: EOF"))
  second_part body (some part) =
      if str_eq part.location []
      then pure (part, limited_part body part)
      else (do part' ← outside (λ n. fed.follow n part.location); pure (part', read_all part'.body))

  abbrev of_parts : Stream → Option Parts → M (MediaPart × Result Str)
  of_parts body none = raise (new (codes "multipart: NextPart: EOF"))
  of_parts body (some p) =
      if str_eq p.json_type [] || str_eq p.json_type (codes "application/json")
      then (do raise_if (not p.is_json) (new (codes "invalid character")); second_part body p.media)
      else raise (new (codes "expected application/json as the first part"))

  -- The part with the medium, and what reading it gives.
  unfoldable pub media_part : FedResponse × Bool → M (MediaPart × Result Str)
  media_part (resp, multipart) =
      if multipart
      then (do
        raise_if (not (has_prefix resp.whole.content_type (codes "multipart/mixed;")))
            (new (codes "expected multipart/mixed"))
        of_parts resp.whole.body resp.parts)
      else pure (resp.whole, limited resp.whole.body)

  -- The work that is queued, up to its result.
  unfoldable pub fetch : Str → Str → M (MediaPart × Result Str)
  unfolding authenticated check_response media_part
  fetch origin media_id = do
    url ← outside (λ n. fed.api_url n origin)
    first ← authenticated origin media_id
    resp ← or_fallback origin media_id first
    check_response resp.0
    media_part resp

  abbrev error_key : Str → Str → Str
  error_key origin media_id = origin ++ slash ∷ media_id

  -- `errFn`: the error is kept for later requests.
  abbrev remember_error : {A : Type 0} → Str → M A → M A
  remember_error key m w =
      let (r, w') = m w in
      elim r [
        | ok a ↦ (ok a, w')
        | err e ↦ (err e, record w' { download_errors = insert key e w'.download_errors })
      ]

  -- `errcache.DownloadErrors.Get`
  unfoldable pub remembered : Str → M (Option Error)
  remembered key w =
      (ok (if w.env.is_stale w.calls then none else lookup key w.download_errors), tick w)

  abbrev or_default : Str → Str → Str
  or_default s d = if str_eq s [] then d else s

  abbrev uploaded : MediaPart → Str → Upload
  uploaded part origin = record {
    origin = origin;
    content_type = or_default part.content_type (codes "application/octet-stream");
    file_name = or_default part.filename (codes "download");
    user_id = [];
    kind = remote_media;
  }

  -- `PutAndReturnStream`: the stream is uploaded and buffered at once. A read error of the stream is
  -- the upload's, which has picked a datastore by then.
  unfoldable pub put_and_return_stream : Upload → Str → Result Str → M (Option DbMedia × Str)
  put_and_return_stream u media_id (ok bytes) = do
    pick ctx u.kind
    m ← execute glob sha256 ctx u media_id (record { pieces = bytes ∷ []; ending = eof [] })
    pure (m, bytes)
  put_and_return_stream u media_id (err e) = do pick ctx u.kind; pick ctx u.kind; raise e

  -- The caller reads the record, which is nil where the upload returned none.
  abbrev with_record : Option DbMedia × Str → M (DbMedia × Str)
  with_record (none, bytes) = raise panicked
  with_record (some m, bytes) = pure (m, bytes)

  abbrev unless_remembered : Option Error → M (MediaPart × Result Str) → M (MediaPart × Result Str)
  unless_remembered none next = next
  unless_remembered (some e) next = raise e

  -- `TryDownload`
  unfoldable pub try_download : Str → Str → M (DbMedia × Str)
  unfolding fetch remembered put_and_return_stream
  try_download origin media_id = if is_server_ours ctx origin then raise media_not_found else do
    ask (λ _. tt)
    known ← remembered (error_key origin media_id)
    part ←
        unless_remembered known (remember_error (error_key origin media_id) (fetch origin media_id))
    put ← put_and_return_stream (uploaded part.0 origin) media_id part.1
    with_record put
