-- ===== src/Server/Session/ContentRange/Laws.antt =====
-- The header that the client sends with a chunk, and what the server reads in it.
use send_to.Prelude.{
  ℕ, ◌+◌, ◌-◌, ◌^◌, ◌<◌, ◌≤◌, ◌≡◌, ◌≢◌, refl, Option, none, some, [], ◌∷◌, ◌++◌, Bytes, codes,
  arith, inl, inr, strip_prefix-append, Option-cases, ◌∙◌, ap,
}
use send_to.Prelude.Decimal.{
  format, format-ne-nil, all-format, span_digits, span_digits-append, span_digits-all, parse_uint,
  parse_uint-format, parse_uint-lt,
}
use send_to.Server.Session.ContentRange.{
  Three, third_part, second_part, first_part, after_unit, content_range_submatches, Span, parsed,
  of_submatches, parse_upload_content_range,
}

-- `fmt.Sprintf("bytes %d-%d/%d", …)` of client/resumable.go
unfoldable pub content_range_header : ℕ → ℕ → ℕ → Bytes
content_range_header start finish total =
    codes "bytes " ++ (format start ++ b'-' ∷ (format finish ++ b'/' ∷ format total))

third_part_whole :
    (first last total : Bytes)
    → total ≢ []
    → third_part first last (total, [])
      ≡ some (record { first = first; last = last; total = total })
third_part_whole first last [] h = absurd (h refl)
third_part_whole first last (d ∷ total) h = refl

second_part_slash :
    (first last rest : Bytes)
    → last ≢ []
    → second_part first (last, b'/' ∷ rest) ≡ third_part first last (span_digits rest)
second_part_slash first [] rest h = absurd (h refl)
second_part_slash first (d ∷ last) rest h = refl

first_part_dash :
    (first rest : Bytes)
    → first ≢ []
    → first_part (first, b'-' ∷ rest) ≡ second_part first (span_digits rest)
first_part_dash [] rest h = absurd (h refl)
first_part_dash (d ∷ first) rest h = refl

submatches_header :
    (start finish total : ℕ)
    → content_range_submatches (content_range_header start finish total)
      ≡ some (record { first = format start; last = format finish; total = format total })
unfolding content_range_submatches content_range_header
submatches_header start finish total =
    ap after_unit (
      strip_prefix-append (codes "bytes ")
        (format start ++ b'-' ∷ (format finish ++ b'/' ∷ format total)))
    ∙ ap first_part (
        span_digits-append (format start) b'-' (format finish ++ b'/' ∷ format total)
          (all-format start) refl)
    ∙ first_part_dash (format start) _ (format-ne-nil start)
    ∙ ap (second_part (format start))
        (span_digits-append (format finish) b'/' (format total) (all-format finish) refl)
    ∙ second_part_slash (format start) (format finish) _ (format-ne-nil finish)
    ∙ ap (third_part (format start) (format finish))
        (span_digits-all (format total) (all-format total))
    ∙ third_part_whole (format start) (format finish) (format total) (format-ne-nil total)

-- The server reads in a chunk's header exactly the span that the client has put there: for a start, a
-- length n > 0 and a total below 2^63 that the chunk does not pass.
pub parse_upload_content_range-header :
    (start n total : ℕ)
    → 0 < n
    → start + n ≤ total
    → total < 2 ^ 63
    → parse_upload_content_range (content_range_header start (start + n - 1) total)
      ≡ parsed (record { start = start; finish = start + n - 1; total = total })
unfolding parse_upload_content_range
parse_upload_content_range-header start n total pos fits small =
    ap of_submatches (submatches_header start (start + n - 1) total)
    ∙ ground (
      arith,
      parse_uint-format (2 ^ 63) start,
      parse_uint-format (2 ^ 63) (start + n - 1),
      parse_uint-format (2 ^ 63) total,
    )

-- Whatever header is accepted, its span is not empty, lies in the total, and the total is an int64.
pub parse_upload_content_range_sound :
    (v : Bytes) (span : Span)
    → parse_upload_content_range v ≡ parsed span
    → (span.start ≤ span.finish) × (span.finish < span.total) × (span.total < 2 ^ 63)
unfolding parse_upload_content_range
parse_upload_content_range_sound v span e = of_matches (content_range_submatches v) e
  where
    of_matches :
        (m : Option Three)
        → of_submatches m ≡ parsed span
        → (span.start ≤ span.finish) × (span.finish < span.total) × (span.total < 2 ^ 63)
    of_matches none h = cc
    of_matches (some m) h = elim (Option-cases (parse_uint (2 ^ 63) m.total)) [
      | inl p ↦ ground arith
      | inr (total, p) ↦ ground (arith, parse_uint-lt (2 ^ 63) m.total total p)
    ]
