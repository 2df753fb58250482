-- ===== src/Util/Parse.antt =====
-- `strconv.ParseInt` in base 10 and `strconv.ParseBool`, with the functions of util/arrays.go,
-- util/mime.go, util/strings.go and util/config.go that test strings.
use matrix_media_repo.Prelude.{
  ℕ, ◌+◌, ◌-◌, ◌*◌, ◌^◌, Bool, true, false, ◌&&◌, Option, none, some, List, [], ◌∷◌, any, map, ltb,
  leb, ◌==◌, if◌then◌else◌,
}
use matrix_media_repo.Prelude.Int.{ℤ, pos, negsuc, ltb_ℤ}
use matrix_media_repo.Prelude.Text.{Str, codes, str_eq, has_prefix}
use matrix_media_repo.Config.{Context}
use matrix_media_repo.Util.Mxc.{first_piece}

abbrev is_digit : ℕ → Bool
is_digit c = leb b'0' c && leb c b'9'

-- The number that the digits denote, or none where another byte stands between them.
unfoldable digits : Str → ℕ → Option ℕ
digits [] n = some n
digits (c ∷ s) n = let rest = digits s (n * 10 + (c - b'0')) in if is_digit c then rest else none

abbrev unsigned : Str → Option ℕ
unsigned [] = none
unsigned (c ∷ s) = digits (c ∷ s) 0

abbrev positive : Option ℕ → Option ℤ
positive none = none
positive (some n) = if ltb n (2 ^ 63) then some (pos n) else none

abbrev negative : Option ℕ → Option ℤ
negative none = none
negative (some n) =
    if n == 0 then some (pos 0) else if leb n (2 ^ 63) then some (negsuc (n - 1)) else none

-- `strconv.ParseInt(s, 10, 64)`
unfoldable pub parse_int64 : Str → Option ℤ
unfolding digits
parse_int64 [] = none
parse_int64 (c ∷ s) =
    if c == b'-'
    then negative (unsigned s)
    else if c == b'+'
    then positive (unsigned s)
    else positive (digits (c ∷ s) 0)

abbrev at_most : Option ℕ → ℤ
at_most none = pos 0
at_most (some n) = if ltb n (2 ^ 63) then pos n else pos (2 ^ 63 - 1)

abbrev at_least : Option ℕ → ℤ
at_least none = pos 0
at_least (some n) =
    if n == 0 then pos 0 else if leb n (2 ^ 63) then negsuc (n - 1) else negsuc (2 ^ 63 - 1)

-- The number that `strconv.ParseInt(s, 10, 64)` returns with its error: 0 for a text that is no number,
-- and the nearest int64 for one that is out of range.
unfoldable pub parse_int64_or_limit : Str → ℤ
unfolding digits
parse_int64_or_limit [] = pos 0
parse_int64_or_limit (c ∷ s) =
    if c == b'-'
    then at_least (unsigned s)
    else if c == b'+'
    then at_most (unsigned s)
    else at_most (digits (c ∷ s) 0)

-- `util.ArrayContains`
abbrev pub array_contains : List Str → Str → Bool
array_contains a v = any (λ e. str_eq e v) a

abbrev true_words : List Str
true_words = map codes ("1" ∷ ("t" ∷ ("T" ∷ ("TRUE" ∷ ("true" ∷ ("True" ∷ []))))))

abbrev false_words : List Str
false_words = map codes ("0" ∷ ("f" ∷ ("F" ∷ ("FALSE" ∷ ("false" ∷ ("False" ∷ []))))))

-- `strconv.ParseBool`
abbrev pub parse_bool : Str → Option Bool
parse_bool s =
    if array_contains true_words s
    then some true
    else if array_contains false_words s
    then some false
    else none

-- `strings.ToLower` on ASCII.
abbrev lower : ℕ → ℕ
lower c = if leb b'A' c && leb c b'Z' then c + 32 else c

abbrev pub to_lower : Str → Str
to_lower s = map lower s

-- `util.IsHostIgnored`
abbrev pub is_host_ignored : Context → Str → Bool
is_host_ignored ctx server =
    any (λ host. str_eq (to_lower host) (to_lower server)) ctx.main.ignored_hosts

-- `util.HasAnyPrefix`
abbrev pub has_any_prefix : Str → List Str → Bool
has_any_prefix val prefixes = any (λ p. has_prefix val p) prefixes

-- `util.FixContentType`
abbrev pub fix_content_type : Str → Str
fix_content_type ct = first_piece b';' ct

-- `util.InlineContentTypes`
abbrev pub inline_content_types : List Str
inline_content_types = map codes (
    "text/css"
    ∷ ("text/plain"
        ∷ ("text/csv"
            ∷ ("application/json"
                ∷ ("application/ld+json"
                    ∷ ("image/jpeg"
                        ∷ ("image/gif"
                            ∷ ("image/png"
                                ∷ ("image/apng"
                                    ∷ ("image/webp"
                                        ∷ ("image/avif"
                                            ∷ ("video/mp4"
                                                ∷ ("video/webm"
                                                    ∷ ("video/ogg"
                                                        ∷ ("video/quicktime"
                                                            ∷ ("audio/mp4"
                                                            ∷ ("audio/webm"
                                                            ∷ ("audio/aac"
                                                            ∷ ("audio/mpeg"
                                                            ∷ ("audio/ogg"
                                                            ∷ ("audio/wave"
                                                            ∷ ("audio/wav"
                                                            ∷ ("audio/x-wav"
                                                            ∷ ("audio/x-pn-wav"
                                                            ∷ ("audio/flac"
                                                            ∷ ("audio/x-flac"
                                                            ∷ []))))))))))))))))))))))))))

-- `util.CanInline`
abbrev pub can_inline : Str → Bool
can_inline ct = array_contains inline_content_types (fix_content_type ct)

-- `util.CalcBlockForDuration`, in milliseconds.
unfoldable pub calc_block_for_duration : Str → Option ℤ
calc_block_for_duration [] = some (pos 20000)
calc_block_for_duration (c ∷ s) = elim (parse_int64 (c ∷ s)) [
  | none ↦ none
  | some parsed ↦ some (
      if ltb_ℤ (pos 0) parsed
      then (if ltb_ℤ (pos 60000) parsed then pos 60000 else parsed)
      else pos 20000)
]
