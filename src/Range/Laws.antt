-- ===== src/Range/Laws.antt =====
-- Ranges: what is parsed, what is printed, and what a file of a given length makes of them.
use send_to.Prelude.{
  ℕ, zero, suc, ◌+◌, ◌-◌, ◌%◌, ◌<◌, ◌≤◌, ◌≡◌, ◌≢◌, refl, true, false, ◌⊎◌, inl, inr, Option, some,
  [], ◌∷◌, ◌++◌, Bytes, codes, arith, ltb, ◌==◌, if◌then◌else◌, strip_prefix-append, all, ap,
  Option-cases, le_or_lt,
}
use send_to.Prelude.Maybe.{◌>>=◌}
use send_to.Prelude.Decimal.{
  parse_uint, parse_uint-format, parse_uint-lt, is_digit, span_digits-append, span_digits-all,
  format, format-ne-nil, all-format,
}
use send_to.Range.{Range, u64, range, accept_length, parse_range, submatches, behind_start, span_of}

behind_start_dash :
    (first last : Bytes)
    → first ≢ []
    → all is_digit last ≡ true
    → behind_start (first, b'-' ∷ last) ≡ some (first, last)
unfolding behind_start
behind_start_dash [] last h d = absurd (h refl)
behind_start_dash (c ∷ first) last h d = rw (span_digits-all last d)

submatches_printed :
    (start : ℕ) (last : Bytes)
    → all is_digit last ≡ true
    → submatches (codes "bytes=" ++ (format start ++ b'-' ∷ last)) ≡ some (format start, last)
unfolding submatches
submatches_printed start last d =
    rw
      (
        strip_prefix-append (codes "bytes=") (format start ++ b'-' ∷ last),
        span_digits-append (format start) b'-' last (all-format start) refl,
      )
      (behind_start_dash (format start) last (format-ne-nil start) d)

span_of_digits :
    (start finish : ℕ) (digits : Bytes)
    → digits ≢ []
    → parse_uint u64 digits ≡ some finish
    → start ≤ finish
    → finish + 1 < u64
    → span_of start digits
      ≡ some (record { start = start; limit = finish - start + 1; content_range = [] })
unfolding span_of
span_of_digits start finish [] h p le lt = absurd (h refl)
span_of_digits start finish (c ∷ digits) h p le lt = rw p (ground arith)

parse_range_parts :
    (rng first last : Bytes) (start : ℕ) {o : Option Range}
    → submatches rng ≡ some (first, last)
    → parse_uint u64 first ≡ some start
    → span_of start last ≡ o
    → parse_range rng ≡ o
unfolding parse_range
parse_range_parts rng first last start p q h = cc (
  ap (λ m. m >>= λ (t : Bytes × Bytes). parse_uint u64 t.0 >>= λ n. span_of n t.1) p,
  ap (λ m. m >>= λ n. span_of n last) q,
)

printed : ℕ → Bytes → Bytes
printed start last = codes "bytes=" ++ (format start ++ b'-' ∷ last)

parse_range-printed :
    (start : ℕ) (last : Bytes) {o : Option Range}
    → start < u64
    → all is_digit last ≡ true
    → span_of start last ≡ o
    → parse_range (printed start last) ≡ o
unfolding printed
parse_range-printed start last h d e =
    parse_range_parts (codes "bytes=" ++ (format start ++ b'-' ∷ last)) (format start) last start
      (submatches_printed start last d) (parse_uint-format u64 start h) e

range-printed :
    (start limit : ℕ)
    → start + suc limit < u64
    → range (record { start = start; limit = suc limit; content_range = [] })
      ≡ printed start (format (start + limit))
unfolding range printed
range-printed start limit h =
    let finish : (start + suc limit + u64 - 1) % u64 ≡ start + limit = omega arith in
    let positive : ltb 0 (suc limit) ≡ true = ground arith in rw (finish, positive)

-- The header that a range prints is read back as the same range: for an open range every start below
-- 2^64, and for a bounded one every start and positive limit whose sum is below 2^64.
pub parse_range-range :
    (start limit : ℕ)
    → start + limit < u64
    → parse_range (range (record { start = start; limit = limit; content_range = [] }))
      ≡ some (record { start = start; limit = limit; content_range = [] })
parse_range-range start zero h =
    rw (open_range start) (parse_range-printed start [] (omega arith) refl (unfold span_of in refl))
  where
    open_range :
        (start : ℕ)
        → range (record { start = start; limit = 0; content_range = [] }) ≡ printed start []
    open_range start = unfold range printed in refl
parse_range-range start (suc limit) h =
    let span =
      span_of_digits start (start + limit) (format (start + limit)) (format-ne-nil (start + limit))
        (parse_uint-format u64 (start + limit) (omega arith)) (omega arith) (omega arith) in
    let count : start + limit - start + 1 ≡ suc limit = omega arith in
    rw (range-printed start limit h) (
      parse_range-printed start (format (start + limit)) (omega arith) (all-format (start + limit))
        (rw count at span))

span_of_fits :
    (start : ℕ) (digits : Bytes) (r : Range)
    → start < u64
    → span_of start digits ≡ some r
    → (r.start ≡ start) × (r.start + r.limit < u64) × (r.content_range ≡ [])
unfolding span_of
span_of_fits start [] r h e = ground arith
span_of_fits start (c ∷ digits) r h e = elim (Option-cases (parse_uint u64 (c ∷ digits))) [
  | inl p ↦ ground arith
  | inr (finish, p) ↦ ground (arith, parse_uint-lt u64 (c ∷ digits) finish p)
]

-- A range that is accepted ends below 2^64: no start and limit of it wrap around, and no content
-- range is set yet.
pub parse_range_fits :
    (rng : Bytes) (r : Range)
    → parse_range rng ≡ some r
    → (r.start + r.limit < u64) × (r.content_range ≡ [])
unfolding parse_range
parse_range_fits rng r e = elim (Option-cases (submatches rng)) [
  | inl p ↦ ground arith
  | inr ((first, last), p) ↦ elim (Option-cases (parse_uint u64 first)) [
    | inl q ↦ ground arith
    | inr (start, q) ↦ ground (arith, parse_uint-lt u64 first start q, span_of_fits start last r)
  ]
]

-- What `AcceptLength` makes of a parsed range at a file of n bytes: a content range is set exactly
-- when the span lies in the file; then it names that span and n, the new length is the limit, and
-- otherwise the length stays n. An open range runs to the end of the file.
pub accept_length_lem :
    (r : Range) (n : ℕ)
    → r.start + r.limit < u64
    → n < u64
    → r.content_range ≡ []
    → ((r.start + r.limit ≤ n)
        × ((accept_length r n).0.content_range
            ≡ codes "bytes "
              ++ (format r.start
                  ++ b'-'
                    ∷ (format ((r.start + (accept_length r n).1 + u64 - 1) % u64)
                        ++ b'/' ∷ format n)))
        × ((accept_length r n).1 ≡ (if r.limit == 0 then n - r.start else r.limit))
        × ((accept_length r n).0.limit ≡ (accept_length r n).1)
        × (r.start + (accept_length r n).1 ≤ n))
      ⊎ ((n < r.start + r.limit)
          × ((accept_length r n).0.content_range ≡ [])
          × ((accept_length r n).1 ≡ n))
unfolding accept_length
accept_length_lem r n h hn e = elim (le_or_lt (r.start + r.limit) n) [
  | inl inside ↦ inl (ground arith)
  | inr outside ↦ inr (ground arith)
]

-- An open range that starts exactly at the end of a file of n > 0 bytes is not refused: the content
-- range names the span from n to n - 1, backwards, and the new length is 0.
pub accept_length_end :
    (n : ℕ)
    → 0 < n
    → n < u64
    → ((accept_length (record { start = n; limit = 0; content_range = [] }) n).0.content_range
        ≡ codes "bytes " ++ (format n ++ b'-' ∷ (format (n - 1) ++ b'/' ∷ format n)))
      × ((accept_length (record { start = n; limit = 0; content_range = [] }) n).1 ≡ 0)
unfolding accept_length
accept_length_end n pos h =
    let none_left : (n + u64 - n) % u64 ≡ 0 = omega arith in
    let before : (n + 0 + u64 - 1) % u64 ≡ n - 1 = omega arith in
    let at : ltb n n ≡ false = ground arith in (rw (none_left, at, before), rw (none_left, at))
