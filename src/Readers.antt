-- ===== src/Readers.antt =====
-- util/readers/error_limit_reader.go: a stream cut off at a number of bytes, read to its end. A
-- stream is the pieces that successive calls of `Read` return without an error, and what the call
-- after them returns.
pub mod Bounds
use matrix_media_repo.Prelude.{Bool, List, [], ◌∷◌, ◌++◌, length, if◌then◌else◌}
use matrix_media_repo.Prelude.Int.{ℤ, pos, ◌-ℤ◌, leb_ℤ}
use matrix_media_repo.Prelude.Text.{Str}
use matrix_media_repo.Common.{Error, Result, ok, err, media_too_large}

-- The last call: `io.EOF` or another error, with bytes or without.
pub data End : Type 0 where
  eof : Str → End
  failed : Str → Error → End

pub record Stream : Type 0 where
  pub pieces : List Str
  pub ending : End

abbrev pub end_bytes : End → Str
end_bytes (eof c) = c
end_bytes (failed c e) = c

abbrev pub concat : List Str → Str
concat [] = []
concat (c ∷ cs) = c ++ concat cs

-- All bytes that the stream hands over, whatever ends it.
abbrev pub handed_over : Stream → Str
handed_over s = concat s.pieces ++ end_bytes s.ending

abbrev pub end_result : End → Result Str
end_result (eof c) = ok c
end_result (failed c e) = err e

abbrev pub prepend : Str → Result Str → Result Str
prepend c (ok s) = ok (c ++ s)
prepend c (err e) = err e

-- `io.Copy` of the stream itself: its bytes, or the error that it ends with.
abbrev pub read_all : Stream → Result Str
read_all s = prepend (concat s.pieces) (end_result s.ending)

-- At the limit one more byte is asked for. A byte without an error means that the stream is too
-- large, and neither a byte nor an error that it has ended.
abbrev pub one_more : Str → Result Str
one_more [] = ok []
one_more (b ∷ c) = err media_too_large

-- The last call at the limit, for one byte. Of more than one byte the first comes without an error;
-- with an error of any kind the stream has ended, and the byte is let through.
abbrev pub one_last : Str → Result Str
one_last [] = ok []
one_last (b ∷ []) = ok (b ∷ [])
one_last (b ∷ (b' ∷ c)) = err media_too_large

-- `limitedReader.Read` until it reports an error. `n` is what is left of the limit.
unfoldable pub read_pieces : ℤ → List Str → End → Result Str
read_pieces n [] e = if leb_ℤ n (pos 0) then one_last (end_bytes e) else end_result e
read_pieces n (c ∷ cs) e =
    let rest = read_pieces (n -ℤ pos (length c)) cs e in
    if leb_ℤ n (pos 0) then one_more c else prepend c rest

unfoldable pub read_limited : ℤ → Stream → Result Str
unfolding read_pieces
read_limited n s = read_pieces n s.pieces s.ending
