-- ===== src/Server/Session/ContentRange.antt =====
-- `parseUploadContentRange` of server/resumable.go.
pub mod Laws
use send_to.Prelude.{
  ℕ, ◌^◌, ◌||◌, Option, none, some, [], ◌∷◌, Bytes, codes, ltb, leb, ◌==◌, if◌then◌else◌,
  strip_prefix,
}
use send_to.Prelude.Decimal.{parse_uint, span_digits}
use send_to.Server.Exec.{
  MsgId, msg_content_range_form, msg_content_range_from, msg_content_range_to,
  msg_content_range_all, msg_content_range_span,
}

-- The submatches of `^bytes (\d+)-(\d+)/(\d+)$`.
abbrev pub Three : Type 0
Three = record { first : Bytes; last : Bytes; total : Bytes }

abbrev third_part : Bytes → Bytes → Bytes × Bytes → Option Three
third_part first last ([], rest) = none
third_part first last (d ∷ total, []) =
    some (record { first = first; last = last; total = d ∷ total })
third_part first last (d ∷ total, c ∷ rest) = none

abbrev second_part : Bytes → Bytes × Bytes → Option Three
second_part first ([], rest) = none
second_part first (d ∷ last, []) = none
second_part first (d ∷ last, c ∷ rest) =
    if c == b'/' then third_part first (d ∷ last) (span_digits rest) else none

abbrev first_part : Bytes × Bytes → Option Three
first_part ([], rest) = none
first_part (d ∷ first, []) = none
first_part (d ∷ first, c ∷ rest) =
    if c == b'-' then second_part (d ∷ first) (span_digits rest) else none

abbrev after_unit : Option Bytes → Option Three
after_unit none = none
after_unit (some rest) = first_part (span_digits rest)

unfoldable pub content_range_submatches : Bytes → Option Three
content_range_submatches v = after_unit (strip_prefix (codes "bytes ") v)

pub record Span : Type 0 where
  pub start : ℕ
  pub finish : ℕ
  pub total : ℕ

pub data Parsed : Type 0 where
  parsed : Span → Parsed
  unparsed : MsgId → Parsed

abbrev span_checked : ℕ → ℕ → ℕ → Parsed
span_checked start finish total =
    if ltb finish start || leb total finish
    then unparsed msg_content_range_span
    else parsed (record { start = start; finish = finish; total = total })

abbrev with_total : ℕ → ℕ → Option ℕ → Parsed
with_total start finish none = unparsed msg_content_range_all
with_total start finish (some total) = span_checked start finish total

abbrev with_finish : ℕ → Option ℕ → Option ℕ → Parsed
with_finish start none total = unparsed msg_content_range_to
with_finish start (some finish) total = with_total start finish total

abbrev with_start : Option ℕ → Option ℕ → Option ℕ → Parsed
with_start none finish total = unparsed msg_content_range_from
with_start (some start) finish total = with_finish start finish total

abbrev of_submatches : Option Three → Parsed
of_submatches none = unparsed msg_content_range_form
of_submatches (some m) =
    with_start (parse_uint (2 ^ 63) m.first) (parse_uint (2 ^ 63) m.last)
      (parse_uint (2 ^ 63) m.total)

-- `parseUploadContentRange` of a trimmed header
unfoldable pub parse_upload_content_range : Bytes → Parsed
unfolding content_range_submatches
parse_upload_content_range v = of_submatches (content_range_submatches v)
