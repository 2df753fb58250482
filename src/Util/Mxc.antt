-- ===== src/Util/Mxc.antt =====
-- util/mxc.go and util/identifiers.go, with the functions of Go's `strings` that they call.
use matrix_media_repo.Prelude.{ℕ, List, [], ◌∷◌, ◌++◌, ◌==◌, if◌then◌else◌}
use matrix_media_repo.Prelude.Text.{Str, codes, has_prefix}
use matrix_media_repo.Common.{Result, ok, err, new}

abbrev pub slash : ℕ
slash = 47

-- `util.MxcUri`
unfoldable pub mxc_uri : Str → Str → Str
mxc_uri origin media_id = codes "mxc://" ++ (origin ++ (slash ∷ media_id))

-- `strings.Split` at one byte: the first piece and the rest.
abbrev cons_first : ℕ → List Str → List Str
cons_first c [] = (c ∷ []) ∷ []
cons_first c (p ∷ ps) = (c ∷ p) ∷ ps

unfoldable pub split : ℕ → Str → List Str
split sep [] = [] ∷ []
split sep (c ∷ s) = let rest = split sep s in if c == sep then [] ∷ rest else cons_first c rest

-- `strings.Split(s, sep)[0]`
unfoldable pub first_piece : ℕ → Str → Str
first_piece sep [] = []
first_piece sep (c ∷ s) = let rest = first_piece sep s in if c == sep then [] else c ∷ rest

-- `strings.Join` with one byte between the pieces.
unfoldable pub join : ℕ → List Str → Str
join sep [] = []
join sep (p ∷ []) = p
join sep (p ∷ (q ∷ ps)) = p ++ (sep ∷ join sep (q ∷ ps))

abbrev two_parts : List Str → Result (Str × Str)
two_parts (origin ∷ (media_id ∷ [])) = ok (origin, media_id)
two_parts _ = err (new (codes "not a valid mxc uri: not in the format of mxc://origin/media_id"))

-- `mxc[6:]`, which follows the test of the prefix.
abbrev drop_six : Str → Str
drop_six (a ∷ (b ∷ (c ∷ (d ∷ (e ∷ (f ∷ s)))))) = s
drop_six _ = []

-- `util.SplitMxc`
unfoldable pub split_mxc : Str → Result (Str × Str)
split_mxc mxc =
    if has_prefix mxc (codes "mxc://")
    then two_parts (split slash (first_piece b'?' (drop_six mxc)))
    else err (new (codes "not a valid mxc uri: missing protocol"))

abbrev local_and_domain : List Str → Result (Str × Str)
local_and_domain (localpart ∷ (d ∷ ds)) = ok (localpart, join b':' (d ∷ ds))
local_and_domain _ = err (new (codes "not a valid user id: not enough parts"))

-- `util.SplitUserId`
unfoldable pub split_user_id : Str → Result (Str × Str)
split_user_id [] = err (new (codes "not a valid user id: missing symbol"))
split_user_id (c ∷ s) =
    if c == b'@'
    then local_and_domain (split b':' s)
    else err (new (codes "not a valid user id: missing symbol"))
