-- ===== src/Matrix/XMatrix.antt =====
-- matrix/xmatrix.go and `GetXMatrixAuth` of util/http.go, with util/canonical_json.go: the signatures of
-- requests between servers. Ed25519, base64 and `json.Marshal` are a parameter, `Crypto`.
pub mod Signed
use matrix_media_repo.Prelude.{
  ℕ, suc, zero, Bool, true, false, not, ◌&&◌, ◌||◌, Option, none, some, List, [], ◌∷◌, ◌++◌, ◌==◌,
  leb, length, if◌then◌else◌,
}
use matrix_media_repo.Prelude.Text.{Str, codes, str_eq, has_prefix}
use matrix_media_repo.Prelude.Keys.{Map, lookup, insert, str_key}
use matrix_media_repo.Common.{Result, ok, err, new, no_xmatrix_auth, wrong_destination}
use matrix_media_repo.Config.{Context, is_server_ours}
use matrix_media_repo.World.{M, pure, raise, lift, ◌>>=◌, ◌>>◌}
use matrix_media_repo.Util.Mxc.{split}
use matrix_media_repo.Util.Parse.{to_lower}

pub record XMatrixAuth : Type 0 where
  pub origin : Str
  pub destination : Str
  pub key_id : Str
  pub signature : Str

-- The object that is signed. `content` is left out where it is nil.
pub record SignedObject : Type 0 where
  pub method : Str
  pub uri : Str
  pub origin : Str
  pub destination : Str
  pub content : Option Str

pub record Crypto : Type 0 where
  pub marshal : SignedObject → Option Str
  pub verify : Str → Str → Str → Bool
  pub sign : Str → Str → Str
  pub encode_base64 : Str → Str
  pub decode_base64 : Str → Option Str

-- `strings.SplitN(s, sep, 2)`, where it gives two pieces.
unfoldable pub cut : ℕ → Str → Option (Str × Str)
cut sep [] = none
cut sep (c ∷ s) =
    let rest = cut sep s in
    if c == sep then some ([], s) else elim rest [ none ↦ none | some p ↦ some (c ∷ p.0, p.1) ]

unfoldable pub trim_left : (ℕ → Bool) → Str → Str
trim_left p [] = []
trim_left p (c ∷ s) = let rest = trim_left p s in if p c then rest else c ∷ s

-- A byte goes where nothing but such bytes follows.
abbrev pub unless_empty : (ℕ → Bool) → ℕ → Str → Str
unless_empty p c [] = if p c then [] else c ∷ []
unless_empty p c (d ∷ s) = c ∷ d ∷ s

unfoldable pub trim_right : (ℕ → Bool) → Str → Str
trim_right p [] = []
trim_right p (c ∷ s) = unless_empty p c (trim_right p s)

abbrev pub trim : (ℕ → Bool) → Str → Str
trim p s = trim_right p (trim_left p s)

-- The space of ASCII.
abbrev pub is_space : ℕ → Bool
is_space c = (leb 9 c && leb c 13) || (c == 32)

abbrev pub is_quote : ℕ → Bool
is_quote c = c == b'"'

-- The pairs of a header. A key that is there already is an error.
unfoldable pub parse_pairs : List Str → Map Str Str → Result (Map Str Str)
parse_pairs [] params = ok params
parse_pairs (pair ∷ pairs) params = elim (cut b'=' pair) [
  | none ↦ err (new (codes "invalid auth param pair: " ++ pair))
  | some p ↦
      let key = trim is_space (to_lower p.0) in
      let value = trim is_quote (trim is_space p.1) in
      elim (lookup key params) [
        | some v ↦ err (new (codes "duplicate auth param: " ++ key))
        | none ↦ parse_pairs pairs (insert key value params)
      ]
]

-- A Go map gives "" for a missing key.
abbrev pub or_empty : Option Str → Str
or_empty none = []
or_empty (some v) = v

abbrev pub x_matrix : Str
x_matrix = codes "X-Matrix "

abbrev after_prefix : Str → Str → Str
after_prefix [] s = s
after_prefix (p ∷ ps) [] = []
after_prefix (p ∷ ps) (c ∷ s) = after_prefix ps s

abbrev pub is_complete : XMatrixAuth → Bool
is_complete a =
    not (str_eq a.origin []) && (not (str_eq a.key_id []) && not (length a.signature == 0))

module _ (crypto : Crypto) where
  abbrev auth_of : Map Str Str → Str → XMatrixAuth
  auth_of params sig = record {
    origin = or_empty (lookup (codes "origin") params);
    destination = or_empty (lookup (codes "destination") params);
    key_id = or_empty (lookup (codes "key") params);
    signature = sig;
  }

  -- What a parsed header adds.
  abbrev add_auth : Result (Map Str Str) → List XMatrixAuth → Result (List XMatrixAuth)
  add_auth (err e) auths = err e
  add_auth (ok params) auths =
      elim (crypto.decode_base64 (or_empty (lookup (codes "sig") params))) [
        | none ↦ err (new (codes "illegal base64 data"))
        | some sig ↦
            ok
              (if is_complete (auth_of params sig) then auths ++ auth_of params sig ∷ [] else auths)
      ]

  abbrev and_then :
      Result (List XMatrixAuth)
      → (List XMatrixAuth → Result (List XMatrixAuth))
      → Result (List XMatrixAuth)
  and_then (err e) next = err e
  and_then (ok auths) next = next auths

  -- The loop of `GetXMatrixAuth`.
  unfoldable pub read_headers : List Str → List XMatrixAuth → Result (List XMatrixAuth)
  unfolding parse_pairs
  read_headers [] auths = ok auths
  read_headers (h ∷ headers) auths =
      let skipped = read_headers headers auths in
      let read =
        and_then (add_auth (parse_pairs (split b',' (after_prefix x_matrix h)) []) auths)
          (read_headers headers) in
      if has_prefix h x_matrix then read else skipped

  -- `GetXMatrixAuth`
  unfoldable pub get_x_matrix_auth : List Str → Result (List XMatrixAuth)
  unfolding read_headers
  get_x_matrix_auth headers = read_headers headers []

  -- `bytes.Replace` of six bytes by one. `skip` is what is left of the six.
  unfoldable pub replace_six : Str → ℕ → ℕ → Str → Str
  replace_six old c' skip [] = []
  replace_six old c' (suc skip) (c ∷ s) = replace_six old c' skip s
  replace_six old c' zero (c ∷ s) =
      let matched = c' ∷ replace_six old c' 5 s in
      let other = c ∷ replace_six old c' 0 s in if has_prefix (c ∷ s) old then matched else other

  abbrev de_encode : Str → Str
  de_encode b =
      replace_six (codes "\\u0026") b'&' 0
        (replace_six (codes "\\u003e") b'>' 0 (replace_six (codes "\\u003c") b'<' 0 b))

  -- `EncodeCanonicalJson`
  unfoldable pub encode_canonical_json : SignedObject → Result Str
  unfolding replace_six
  encode_canonical_json obj = elim (crypto.marshal obj) [
    | none ↦ err (new (codes "json: unsupported value"))
    | some b ↦ ok (de_encode b)
  ]

  module _ (ctx : Context) (keys : Map Str Str) (host : Str) (obj : SignedObject)
      (canonical : Str) where
    -- The tests of one header.
    unfoldable pub check_header : XMatrixAuth → Result (Unit {0})
    check_header h =
        if not (str_eq h.origin obj.origin)
        then err (new (codes "auth is from multiple servers"))
        else if not (str_eq h.destination obj.destination)
        then err (new (codes "auth is for multiple servers"))
        else if not (str_eq h.destination [])
            && (not (is_server_ours ctx h.destination) || not (str_eq host h.destination))
        then err wrong_destination
        else elim (lookup h.key_id keys) [
          | none ↦ err (new (codes "unknown key"))
          | some key ↦
              if not (crypto.verify key canonical h.signature)
              then err (new (codes "failed signatures"))
              else ok tt
        ]

    abbrev and_check : Result (Unit {0}) → Result (Unit {0}) → Result (Unit {0})
    and_check (err e) rest = err e
    and_check (ok u) rest = rest

    unfoldable pub check_headers : List XMatrixAuth → Result (Unit {0})
    unfolding check_header
    check_headers [] = ok tt
    check_headers (h ∷ headers) = and_check (check_header h) (check_headers headers)

  abbrev object_of : Str → Str → Option Str → XMatrixAuth → SignedObject
  object_of method uri content h = record {
    method = method;
    uri = uri;
    origin = h.origin;
    destination = h.destination;
    content = content;
  }

  -- `ValidateXMatrixAuthHeader`
  unfoldable pub validate_x_matrix_auth_header :
      Context → Str → Str → Option Str → List XMatrixAuth → Map Str Str → Str → Result (Unit {0})
  unfolding encode_canonical_json check_headers
  validate_x_matrix_auth_header ctx method uri content [] keys host = err no_xmatrix_auth
  validate_x_matrix_auth_header ctx method uri content (h ∷ hs) keys host =
      elim (encode_canonical_json (object_of method uri content h)) [
        | err e ↦ err e
        | ok canonical ↦
            check_headers ctx keys host (object_of method uri content h) canonical (h ∷ hs)
      ]

  -- `RequestURI` without the "?" that may end it.
  unfoldable pub without_question_mark : Str → Str
  without_question_mark [] = []
  without_question_mark (c ∷ []) = if c == b'?' then [] else c ∷ []
  without_question_mark (c ∷ (d ∷ s)) = c ∷ without_question_mark (d ∷ s)

  abbrev first_origin : List XMatrixAuth → M Str
  first_origin [] = raise no_xmatrix_auth
  first_origin (h ∷ hs) = pure h.origin

  -- What `ValidateXMatrixAuth` does with the headers.
  unfoldable pub validate_auths :
      (Str → M (Map Str Str)) → Context → Str → Str → Str → List XMatrixAuth → M Str
  unfolding validate_x_matrix_auth_header without_question_mark
  validate_auths query_keys ctx method uri host auths = do
    origin ← first_origin auths
    keys ← query_keys origin
    lift (validate_x_matrix_auth_header ctx method (without_question_mark uri) none auths keys host)
    pure origin

  -- `ValidateXMatrixAuth`, of a request with no body. `query_keys` is `QuerySigningKeys`.
  unfoldable pub validate_x_matrix_auth :
      (Str → M (Map Str Str)) → Context → Str → Str → List Str → Str → M Str
  unfolding get_x_matrix_auth validate_auths
  validate_x_matrix_auth query_keys ctx method uri headers host = do
    auths ← lift (get_x_matrix_auth headers)
    validate_auths query_keys ctx method uri host auths

  -- `CreateXMatrixHeader`
  unfoldable pub create_x_matrix_header :
      Str → Str → Str → Str → Option Str → Str → Str → Result Str
  unfolding encode_canonical_json
  create_x_matrix_header origin destination method uri content key key_version =
      elim (encode_canonical_json (record {
        method = method;
        uri = uri;
        origin = origin;
        destination = destination;
        content = content;
      })) [
        | err e ↦ err e
        | ok canonical ↦ ok (
            codes "X-Matrix origin=\""
            ++ (origin
                ++ (codes "\",destination=\""
                    ++ (destination
                        ++ (codes "\",key=\"ed25519:"
                            ++ (key_version
                                ++ (codes "\",sig=\""
                                    ++ (crypto.encode_base64 (crypto.sign key canonical)
                                        ++ codes "\""))))))))
      ]
