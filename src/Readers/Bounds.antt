-- ===== src/Readers/Bounds.antt =====
-- What the limited reader lets through.
use mathlib.Core.List.{append_assoc, append-nil}
use matrix_media_repo.Prelude.{
  ℕ, ◌≤◌, ◌<◌, ◌≡◌, refl, true, false, List, [], ◌∷◌, ◌++◌, ◌⊎◌, length, length-append, ap, sym,
  ◌∙◌, All, arith, Bool-cases, inl, inr,
}
use matrix_media_repo.Prelude.Int.{ℤ, pos, ◌+ℤ◌, ◌-ℤ◌, -ℤ_parts, +ℤ_parts, leb_ℤ, ◌≤ℤ◌, ◌<ℤ◌}
use matrix_media_repo.Prelude.Text.{Str}
use matrix_media_repo.Common.{Error, Result, ok, err}
use matrix_media_repo.Readers.{
  End, eof, failed, Stream, end_bytes, end_result, concat, handed_over, read_all, read_pieces,
  read_limited, prepend, one_more, one_last,
}

leb_ℤ-false : (n : ℤ) → pos 0 <ℤ n → leb_ℤ n (pos 0) ≡ false
leb_ℤ-false n h = ground arith

leb_ℤ-true : (n : ℤ) → n ≤ℤ pos 0 → leb_ℤ n (pos 0) ≡ true
leb_ℤ-true n h = ground arith

le_of_leb : (n : ℤ) → leb_ℤ n (pos 0) ≡ true → n ≤ℤ pos 0
le_of_leb n h = ground arith

lt_of_leb : (n : ℤ) → leb_ℤ n (pos 0) ≡ false → pos 0 <ℤ n
lt_of_leb n h = ground arith

prepend-ok :
    (c : Str) (r : Result Str) {got : Str}
    → prepend c r ≡ ok got
    → (s : Str) × (r ≡ ok s) × (got ≡ c ++ s)
prepend-ok c (ok s) h = (s, refl, cc)
prepend-ok c (err e) h = cc

one_last-ok : (c : Str) {got : Str} → one_last c ≡ ok got → (got ≡ c) × (length c ≤ 1)
one_last-ok [] h = (cc, omega arith)
one_last-ok (b ∷ []) h = (cc, omega arith)
one_last-ok (b ∷ (b' ∷ c)) h = cc

end_result-ok : (e : End) {got : Str} → end_result e ≡ ok got → got ≡ end_bytes e
end_result-ok (eof c) h = cc
end_result-ok (failed c e) h = cc

one_last-short : (c : Str) → length c ≤ 0 → one_last c ≡ ok c
one_last-short [] h = refl
one_last-short (b ∷ c) h = absurd (omega arith)

-- One piece comes before the rest, however it is cut.
prepend-prepend : (c d : Str) (r : Result Str) → prepend c (prepend d r) ≡ prepend (c ++ d) r
prepend-prepend c d (ok s) = simp append_assoc
prepend-prepend c d (err e) = refl

read_pieces-fits :
    (n : ℤ) (cs : List Str) (last : Str)
    → All (λ (c : Str). 0 < length c) cs
    → pos (length (concat cs ++ last)) ≤ℤ n
    → read_pieces n cs (eof last) ≡ ok (concat cs ++ last)
unfolding read_pieces
read_pieces-fits n [] last p h = elim (Bool-cases (leb_ℤ n (pos 0))) [
  | inl e ↦ rw e (one_last-short last (omega (arith, le_of_leb n e)))
  | inr e ↦ rw e refl
]
read_pieces-fits n (c ∷ cs) last p h =
    let l = length-append (c ++ concat cs) last in
    let k = length-append c (concat cs) in
    let j = length-append (concat cs) last in
    rw (leb_ℤ-false n (omega (arith, l, k))) (
      rw
        (read_pieces-fits (n -ℤ pos (length c)) cs last p.1
          (omega (arith, l, k, j, -ℤ_parts n (pos (length c)))))
        (simp append_assoc))

ending-fits :
    (n : ℤ) (cs : List Str) (e : End) {whole : Str}
    → All (λ (c : Str). 0 < length c) cs
    → prepend (concat cs) (end_result e) ≡ ok whole
    → pos (length whole) ≤ℤ n
    → read_pieces n cs e ≡ ok whole
ending-fits n cs (eof last) p r h =
    let g : concat cs ++ last ≡ _ = cc in read_pieces-fits n cs last p (rw g h) ∙ ap ok g
ending-fits n cs (failed c e) p r h = cc

-- A stream of non-empty pieces that has no read error and fits the limit comes through whole,
-- however it is cut.
pub read_limited-fits :
    (n : ℤ) (s : Stream) {whole : Str}
    → All (λ (c : Str). 0 < length c) s.pieces
    → read_all s ≡ ok whole
    → pos (length whole) ≤ℤ n
    → read_limited n s ≡ ok whole
unfolding read_limited
read_limited-fits n s p r h = ending-fits n s.pieces s.ending p r h

-- With nothing left of the limit, what comes through is the end of the stream.
read_pieces-spent :
    (n : ℤ) (cs : List Str) (e : End) {got : Str}
    → All (λ (c : Str). 0 < length c) cs
    → n ≤ℤ pos 0
    → read_pieces n cs e ≡ ok got
    → (concat cs ≡ []) × (got ≡ end_bytes e) × (length got ≤ 1)
unfolding read_pieces
read_pieces-spent n [] e {got} p h r =
    let r' : one_last (end_bytes e) ≡ ok got = rw (leb_ℤ-true n h) at r in
    let (g, l) = one_last-ok (end_bytes e) r' in (refl, g, rw g l)
read_pieces-spent n ([] ∷ cs) e p h r = absurd (omega (arith, p.0))
read_pieces-spent n ((b ∷ c) ∷ cs) e p h r =
    let r' : one_more (b ∷ c) ≡ ok _ = rw (leb_ℤ-true n h) at r in cc

-- From a positive limit, for pieces and last bytes no longer than `piece`.
read_pieces-bounded :
    (n : ℤ) (cs : List Str) (e : End) (piece : ℕ) {got : Str}
    → All (λ (c : Str). 0 < length c) cs
    → All (λ (c : Str). length c ≤ piece) cs
    → length (end_bytes e) ≤ piece
    → pos 0 <ℤ n
    → read_pieces n cs e ≡ ok got
    → (got ≡ concat cs ++ end_bytes e)
      × (pos (length got) ≤ℤ n +ℤ pos piece)
      × ((end_result e ≡ ok (end_bytes e)) ⊎ (n ≤ℤ pos (length (concat cs))))
unfolding read_pieces
read_pieces-bounded n [] e piece {got} p q z l r =
    let r' : end_result e ≡ ok got = rw (leb_ℤ-false n l) at r in
    let g = end_result-ok e r' in
    (g, rw g (omega (arith, +ℤ_parts n (pos piece))), inl (r' ∙ ap ok g))
read_pieces-bounded n (c ∷ cs) e piece {got} p q z l r =
    let left = n -ℤ pos (length c) in
    let r1 : prepend c (read_pieces left cs e) ≡ ok got = rw (leb_ℤ-false n l) at r in
    let (s, t, g) = prepend-ok c (read_pieces left cs e) r1 in
    let k = length-append c (concat cs) in
    elim (Bool-cases (leb_ℤ left (pos 0))) [
      | inl spent ↦
          let (a, b, d) = read_pieces-spent left cs e p.1 (le_of_leb left spent) t in
          (
            rw (g, b, a) (simp append-nil),
            rw g (omega (arith, length-append c s, d, +ℤ_parts n (pos piece), q.0)),
            inr (omega (arith, k, le_of_leb left spent, -ℤ_parts n (pos (length c)))),
          )
      | inr more ↦
          let (a, b, d) = read_pieces-bounded left cs e piece p.1 q.1 z (lt_of_leb left more) t in
          (
            rw (g, a) (simp append_assoc),
            rw g (
                omega (
                  arith,
                  length-append c s,
                  b,
                  +ℤ_parts n (pos piece),
                  +ℤ_parts left (pos piece),
                  -ℤ_parts n (pos (length c)),
                )),
            elim d [
              | inl f ↦ inl f
              | inr f ↦ inr (omega (arith, k, f, -ℤ_parts n (pos (length c))))
            ],
          )
    ]

-- From a positive limit, of a stream whose pieces are not empty: where the limited reader reports no
-- error, what comes through is all that the stream handed over. If no piece, and nothing that comes
-- with the end, is longer than `piece`, it is at most `piece` longer than the limit. The stream had
-- no read error, or its pieces had reached the limit.
pub read_limited-bounded :
    (n : ℤ) (s : Stream) (piece : ℕ) {got : Str}
    → All (λ (c : Str). 0 < length c) s.pieces
    → All (λ (c : Str). length c ≤ piece) s.pieces
    → length (end_bytes s.ending) ≤ piece
    → pos 0 <ℤ n
    → read_limited n s ≡ ok got
    → (got ≡ handed_over s)
      × (pos (length got) ≤ℤ n +ℤ pos piece)
      × ((read_all s ≡ ok got) ⊎ (n ≤ℤ pos (length (concat s.pieces))))
unfolding read_limited
read_limited-bounded n s piece p q z l r =
    let (g, b, d) = read_pieces-bounded n s.pieces s.ending piece p q z l r in
    (
      g,
      b,
      elim d [ inl f ↦ inl (ap (prepend (concat s.pieces)) f ∙ ap ok (sym g)) | inr f ↦ inr f ],
    )

-- A stream that comes in one piece comes through whole from any positive limit, also where it is
-- longer than the limit.
read_limited-one_piece :
    (n : ℤ) (c : Str)
    → pos 0 <ℤ n
    → read_limited n (record { pieces = c ∷ []; ending = eof [] }) ≡ ok (c ++ [])
unfolding read_limited read_pieces
read_limited-one_piece n c h =
    rw (leb_ℤ-false n h) (elim (Bool-cases (leb_ℤ (n -ℤ pos (length c)) (pos 0))) [
      | inl e ↦ rw e refl
      | inr e ↦ rw e refl
    ])

-- At the limit a read error is the end: the stream that broke off counts as whole.
read_limited-broken :
    (n : ℤ) (c : Str) (e : Error)
    → pos 0 <ℤ n
    → n ≤ℤ pos (length c)
    → read_limited n (record { pieces = c ∷ []; ending = failed [] e }) ≡ ok (c ++ [])
unfolding read_limited read_pieces
read_limited-broken n c e h l =
    rw
      (
        leb_ℤ-false n h,
        leb_ℤ-true (n -ℤ pos (length c)) (omega (arith, -ℤ_parts n (pos (length c)))),
      )
      refl
