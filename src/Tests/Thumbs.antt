-- ===== src/Tests/Thumbs.antt =====
-- The theorems about thumbnails, signed requests and uploads over HTTP at concrete values.
use matrix_media_repo.Prelude.{◌≡◌, refl, false, some, [], ◌∷◌, ◌++◌, inl, arith}
use matrix_media_repo.Prelude.Int.{ℤ, pos, eqb_ℤ}
use matrix_media_repo.Prelude.Text.{Str, codes, str_eq}
use matrix_media_repo.Prelude.Keys.{Map}
use matrix_media_repo.Common.{ok}
use matrix_media_repo.World.{pure}
use matrix_media_repo.World.Rules.{Post}
use matrix_media_repo.Thumbnails.{Float32, pick_new_dimensions}
use matrix_media_repo.Thumbnails.Sizes.{IsListed, pick_new_dimensions-IsListed}
use matrix_media_repo.Thumbnails.Pipeline.{ThumbnailOpts, Generator, execute}
use matrix_media_repo.Thumbnails.Fits.{FitsServed}
use matrix_media_repo.Thumbnails.Served.{execute-Picked}
use matrix_media_repo.Matrix.XMatrix.{Crypto, validate_x_matrix_auth}
use matrix_media_repo.Matrix.XMatrix.Signed.{Accepted, validate_x_matrix_auth-Accepted}
use matrix_media_repo.Tests.{context}
use matrix_media_repo.Tests.Examples.{here, here-Backed}
use matrix_media_repo.Upload.Rows.{Backed}
use matrix_media_repo.Api.Upload.{upload_media_sync}
use matrix_media_repo.Api.Upload.Backed.{Answers, upload_media_sync-Backed}
use matrix_media_repo.Tests.Requests.{request, ann, both, matches, files, silent, bucket, opts}

-- Whole numbers in place of float32.
abbrev whole : Float32 ℤ
whole = record {
  of_int = λ n. n;
  to_int = λ n. n;
  divide = λ a b. a;
  times = λ a b. a;
  smaller = λ a b. a;
  equal = λ a b. eqb_ℤ a b;
}

pick_new_dimensions-IsListed_example :
    (w h : ℤ) × (pick_new_dimensions whole context (pos 20) (pos 30) (codes "scale")
      ≡ ok ((w, h), codes "scale"))
    × IsListed (pos 20) (pos 30) (record { width = pos 32; height = pos 32 } ∷ []) w h
pick_new_dimensions-IsListed_example =
    pick_new_dimensions-IsListed whole context (pos 20) (pos 30)
      (record { width = pos 32; height = pos 32 }) refl (ground arith) (ground arith) (inl refl)
      (ground arith)

abbrev small_image : Generator
small_image = record {
  generate = λ n bytes o. ok (
      some
        (record { animated = false; content_type = codes "image/png"; reader = codes "smaller" }));
}

abbrev thumbnail_opts : ThumbnailOpts
thumbnail_opts = record {
  download = opts;
  width = pos 20;
  height = pos 30;
  method = codes "scale";
  animated = false;
}

execute-Picked_example :
    Post
      (λ s w'.
        (p : (ℤ × ℤ) × Str) × (pick_new_dimensions whole context (pos 20) (pos 30) (codes "scale")
          ≡ ok p)
        × FitsServed p.0.0 p.0.1 p.1 s)
      (λ e w'. Unit)
      (execute whole small_image matches
        (λ s. s)
        silent
        files
        bucket
        context
        (codes "here")
        (codes "here")
        (codes "one")
        thumbnail_opts
        both)
execute-Picked_example =
    execute-Picked whole small_image matches (λ s. s) silent files bucket context (codes "here")
      (codes "here") (codes "one") thumbnail_opts both

-- A signature is the key and the message.
abbrev open_crypto : Crypto
open_crypto = record {
  marshal = λ o. some (o.method ++ o.uri);
  verify = λ key message signature. str_eq signature (key ++ message);
  sign = λ key message. key ++ message;
  encode_base64 = λ s. s;
  decode_base64 = λ s. some s;
}

abbrev TheirKeys : Str → Map Str Str → Type 0
TheirKeys origin keys = keys ≡ (codes "ed25519:1", codes "k") ∷ []

validate_x_matrix_auth-Accepted_example :
    Post
      (λ origin w'.
        Accepted open_crypto context TheirKeys
          (codes "GET")
          (codes "/x?")
          (codes "X-Matrix origin=\"there\",destination=\"here\",key=\"ed25519:1\",sig=\"kGET/x\""
            ∷ [])
          (codes "here")
          origin)
      (λ e w'. Unit)
      (validate_x_matrix_auth open_crypto
        (λ origin. pure ((codes "ed25519:1", codes "k") ∷ []))
        context
        (codes "GET")
        (codes "/x?")
        (codes "X-Matrix origin=\"there\",destination=\"here\",key=\"ed25519:1\",sig=\"kGET/x\""
          ∷ [])
        (codes "here")
        both)
validate_x_matrix_auth-Accepted_example =
    validate_x_matrix_auth-Accepted open_crypto context
      (λ origin. pure ((codes "ed25519:1", codes "k") ∷ [])) TheirKeys (codes "GET") (codes "/x?")
      (codes "X-Matrix origin=\"there\",destination=\"here\",key=\"ed25519:1\",sig=\"kGET/x\"" ∷ [])
      (codes "here") both (λ origin w. record { at = refl })

upload_media_sync-Backed_example :
    Post
      (λ a w'. Backed w' × Answers context request (λ s. s) ann matches (λ s. s) a w')
      (λ e w'. Backed w')
      (upload_media_sync context request (λ s. s) ann matches (λ s. s) here)
upload_media_sync-Backed_example =
    upload_media_sync-Backed context request (λ s. s) ann matches (λ s. s) here here-Backed
