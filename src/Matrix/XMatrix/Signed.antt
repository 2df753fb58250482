-- ===== src/Matrix/XMatrix/Signed.antt =====
-- What a request has that `ValidateXMatrixAuth` (matrix/xmatrix.go) accepts.
use matrix_media_repo.Prelude.{
  ◌≡◌, refl, true, false, not, ◌&&◌, ◌||◌, none, some, List, [], ◌∷◌, All, inl, inr, ◌⊎◌,
  Bool-cases, Option-cases, arith,
}
use matrix_media_repo.Prelude.Text.{Str, str_eq, str_eq_iff}
use matrix_media_repo.Prelude.Keys.{Map, lookup, str_key}
use matrix_media_repo.Common.{Error, Result, ok, err}
use matrix_media_repo.Config.{Context, is_server_ours}
use matrix_media_repo.World.{World, M, lift, pure, ◌>>=◌}
use matrix_media_repo.World.Rules.{lift-Post, Post, Post-bind}
use matrix_media_repo.Matrix.XMatrix.{
  Crypto, XMatrixAuth, SignedObject, get_x_matrix_auth, encode_canonical_json, check_header,
  check_headers, object_of, validate_x_matrix_auth_header, validate_x_matrix_auth, validate_auths,
  without_question_mark,
}

ok-cases : (r : Result (Unit {0})) → ((x : Error) × (r ≡ err x)) ⊎ (r ≡ ok tt)
ok-cases (ok tt) = inr refl
ok-cases (err x) = inl (x, refl)

encoded-cases : (r : Result Str) → ((x : Error) × (r ≡ err x)) ⊎ ((s : Str) × (r ≡ ok s))
encoded-cases (ok s) = inr (s, refl)
encoded-cases (err x) = inl (x, refl)

module _ (crypto : Crypto) (ctx : Context) where
  -- The header is from the server and for the destination of the object, the destination is
  -- left out or is the host of the request and ours, and the signature is that of a key.
  pub record Signed (keys : Map Str Str) (host : Str) (obj : SignedObject) (canonical : Str)
      (h : XMatrixAuth) : Type 0 where
    pub same_origin : h.origin ≡ obj.origin
    pub same_destination : h.destination ≡ obj.destination
    pub for_us :
        (h.destination ≡ []) ⊎ ((is_server_ours ctx h.destination ≡ true) × (host ≡ h.destination))
    pub signed :
        (key : Str) × (lookup h.key_id keys ≡ some key)
        × (crypto.verify key canonical h.signature ≡ true)

  module _ (keys : Map Str Str) (host : Str) (obj : SignedObject) (canonical : Str) where
    destination_lem :
        (d : Str)
        → (not (str_eq d []) && (not (is_server_ours ctx d) || not (str_eq host d))) ≡ false
        → (d ≡ []) ⊎ ((is_server_ours ctx d ≡ true) × (host ≡ d))
    destination_lem d e = elim (Bool-cases (str_eq d [])) [
      | inl s ↦ inl ((str_eq_iff d []).0 s)
      | inr n ↦ inr (ground (arith, e, n), (str_eq_iff host d).0 (ground (arith, e, n)))
    ]

    check_header-Signed :
        (h : XMatrixAuth)
        → check_header crypto ctx keys host obj canonical h ≡ ok tt
        → Signed keys host obj canonical h
    unfolding check_header
    check_header-Signed h e =
        let a : str_eq h.origin obj.origin ≡ true = ground (arith, e) in
        let b : str_eq h.destination obj.destination ≡ true = ground (arith, e) in
        let c : (not (str_eq h.destination [])
              && (not (is_server_ours ctx h.destination) || not (str_eq host h.destination)))
            ≡ false =
          ground (arith, e) in
        elim (Option-cases (lookup h.key_id keys)) [
          | inl n ↦ absurd (ground (arith, e, n))
          | inr (key, k) ↦ record {
            same_origin = (str_eq_iff h.origin obj.origin).0 a;
            same_destination = (str_eq_iff h.destination obj.destination).0 b;
            for_us = destination_lem h.destination c;
            signed = (key, k, ground (arith, e, k));
          }
        ]

    check_headers-Signed :
        (hs : List XMatrixAuth)
        → check_headers crypto ctx keys host obj canonical hs ≡ ok tt
        → All (Signed keys host obj canonical) hs
    unfolding check_headers
    check_headers-Signed [] e = tt
    check_headers-Signed (h ∷ hs) e =
        elim (ok-cases (check_header crypto ctx keys host obj canonical h)) [
          | inl (x, n) ↦ absurd (ground (arith, e, n))
          | inr s ↦ (check_header-Signed h s, check_headers-Signed hs (rw s at e))
        ]

  -- What is known of the origin of a request that is accepted. `Trusted` is what is known of the keys
  -- that were found for a server.
  pub record Accepted (Trusted : Str → Map Str Str → Type 0) (method uri : Str) (headers : List Str)
      (host origin : Str) : Type 0 where
    pub first : XMatrixAuth
    pub others : List XMatrixAuth
    pub keys : Map Str Str
    pub canonical : Str
    pub read : get_x_matrix_auth crypto headers ≡ ok (first ∷ others)
    pub from : first.origin ≡ origin
    pub trusted : Trusted origin keys
    pub encoded :
        encode_canonical_json crypto
          (object_of crypto method (without_question_mark crypto uri) none first)
        ≡ ok canonical
    pub all_signed :
        All
          (Signed keys host
            (object_of crypto method (without_question_mark crypto uri) none first)
            canonical)
          (first ∷ others)

  encoded_lem :
      (method uri host : Str) (keys : Map Str Str) (h : XMatrixAuth) (hs : List XMatrixAuth)
      → validate_x_matrix_auth_header crypto ctx method uri none (h ∷ hs) keys host ≡ ok tt
      → (canonical : Str) × (encode_canonical_json crypto (object_of crypto method uri none h)
          ≡ ok canonical)
        × (check_headers crypto ctx keys host
              (object_of crypto method uri none h)
              canonical
              (h ∷ hs)
            ≡ ok tt)
  unfolding validate_x_matrix_auth_header
  encoded_lem method uri host keys h hs e =
      elim (encoded-cases (encode_canonical_json crypto (object_of crypto method uri none h))) [
        | inl (x, n) ↦ absurd (ground (arith, e, n))
        | inr (canonical, s) ↦ (canonical, s, rw (validate_x_matrix_auth_header, s) at e)
      ]

  module _ (query_keys : Str → M (Map Str Str)) (Trusted : Str → Map Str Str → Type 0)
      (method uri : Str) (headers : List Str) (host : Str) where
    with_keys :
        (h : XMatrixAuth) (hs : List XMatrixAuth) (keys : Map Str Str) (w : World)
        → get_x_matrix_auth crypto headers ≡ ok (h ∷ hs)
        → Trusted h.origin keys
        → Post
            (λ origin w'. Accepted Trusted method uri headers host origin)
            (λ e w'. Unit {0})
            ((lift (
                  validate_x_matrix_auth_header crypto ctx method
                    (without_question_mark crypto uri)
                    none
                    (h ∷ hs)
                    keys
                    host)
                >>= λ u. pure h.origin)
              w)
    with_keys h hs keys w read trusted =
        Post-bind
          (lift (
            validate_x_matrix_auth_header crypto ctx method (without_question_mark crypto uri) none
              (h ∷ hs) keys host))
          (λ u. pure h.origin) w (lift-Post _ w)
          λ u w' e.
            let (canonical, c, s) =
              encoded_lem method (without_question_mark crypto uri) host keys h hs e in
            record {
              at = record {
                first = h;
                others = hs;
                keys = keys;
                canonical = canonical;
                read = read;
                from = refl;
                trusted = trusted;
                encoded = c;
                all_signed = check_headers-Signed keys host _ canonical (h ∷ hs) s;
              };
            }

    auths-Accepted :
        (auths : List XMatrixAuth) (w : World)
        → get_x_matrix_auth crypto headers ≡ ok auths
        → ((origin : Str) (w : World)
            → Post (λ keys w'. Trusted origin keys) (λ e w'. Unit {0}) (query_keys origin w))
        → Post
            (λ origin w'. Accepted Trusted method uri headers host origin)
            (λ e w'. Unit {0})
            (validate_auths crypto query_keys ctx method uri host auths w)
    unfolding validate_auths
    auths-Accepted [] w read found = record { at = tt }
    auths-Accepted (h ∷ hs) w read found =
        Post-bind (query_keys h.origin) _ w (found h.origin w)
          λ keys w2 t. with_keys h hs keys w2 read t

  -- Let the keys that are found for a server be trusted. Where `ValidateXMatrixAuth` accepts a request, the
  -- origin that it returns is that of the first header, trusted keys were found for it, and every header
  -- of the request names that origin, the same destination, which is left out or is the host of the
  -- request and ours, and has a signature of the request by one of the keys.
  pub validate_x_matrix_auth-Accepted :
      (query_keys : Str → M (Map Str Str)) (Trusted : Str → Map Str Str → Type 0) (method uri : Str)
      (headers : List Str) (host : Str) (w : World)
      → ((origin : Str) (w : World)
          → Post (λ keys w'. Trusted origin keys) (λ e w'. Unit {0}) (query_keys origin w))
      → Post
          (λ origin w'. Accepted Trusted method uri headers host origin)
          (λ e w'. Unit {0})
          (validate_x_matrix_auth crypto query_keys ctx method uri headers host w)
  unfolding validate_x_matrix_auth
  validate_x_matrix_auth-Accepted query_keys Trusted method uri headers host w found =
      Post-bind (lift (get_x_matrix_auth crypto headers))
        (validate_auths crypto query_keys ctx method uri host) w (lift-Post _ w)
        λ auths w1 read.
          auths-Accepted query_keys Trusted method uri headers host auths w1 read found
