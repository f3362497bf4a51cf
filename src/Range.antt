-- ===== src/Range.antt =====
-- server/storage/common.go: byte ranges. A uint64 is a number below 2^64, and its arithmetic wraps.
pub mod Laws
mod Tests
use send_to.Prelude.{
  ℕ, ◌+◌, ◌-◌, ◌%◌, ◌^◌, ◌&&◌, ◌||◌, Option, none, some, [], ◌∷◌, ◌++◌, Bytes, codes, ltb, ◌==◌,
  if◌then◌else◌, strip_prefix,
}
use send_to.Prelude.Maybe.{◌>>=◌}
use send_to.Prelude.Decimal.{parse_uint, span_digits, format}

abbrev pub u64 : ℕ
u64 = 2 ^ 64

pub record Range : Type 0 where
  pub start : ℕ
  pub limit : ℕ
  pub content_range : Bytes

-- `(*Range).Range`
unfoldable pub range : Range → Bytes
range r =
    if ltb 0 r.limit
    then codes "bytes=" ++ (format r.start ++ b'-' ∷ format ((r.start + r.limit + u64 - 1) % u64))
    else codes "bytes=" ++ (format r.start ++ b'-' ∷ [])

-- `(*Range).AcceptLength`: the range as it is left behind, and the new content length
unfoldable pub accept_length : Range → ℕ → Range × ℕ
accept_length r content_length =
    let limit = if r.limit == 0 then (content_length + u64 - r.start) % u64 else r.limit in
    let r' = record r { limit = limit } in
    if ltb content_length r.start
    then (r', content_length)
    else if ltb ((content_length + u64 - r.start) % u64) limit
    then (r', content_length)
    else (
      record r' {
        content_range =
            codes "bytes "
            ++ (format r.start
                ++ b'-'
                  ∷ (format ((r.start + limit + u64 - 1) % u64) ++ b'/' ∷ format content_length));
      },
      limit,
    )

-- The submatches of `^bytes=([0-9]+)-([0-9]*)$`.
to_end : Bytes → Bytes × Bytes → Option (Bytes × Bytes)
to_end start (finish, []) = some (start, finish)
to_end start (finish, c ∷ rest) = none

behind_start : Bytes × Bytes → Option (Bytes × Bytes)
unfolding to_end
behind_start ([], rest) = none
behind_start (d ∷ start, []) = none
behind_start (d ∷ start, c ∷ rest) =
    if c == b'-' then to_end (d ∷ start) (span_digits rest) else none

submatches : Bytes → Option (Bytes × Bytes)
unfolding behind_start
submatches rng = do rest ← strip_prefix (codes "bytes=") rng; behind_start (span_digits rest)

span_of : ℕ → Bytes → Option Range
span_of start [] = some (record { start = start; limit = 0; content_range = [] })
span_of start (c ∷ digits) = do
  finish ← parse_uint u64 (c ∷ digits)
  if ltb finish start || ltb ((finish + 1) % u64) finish
      then none
      else some (record {
        start = start;
        limit = ((finish + u64 - start) % u64 + 1) % u64;
        content_range = [];
      })

-- `ParseRange`; the empty text has no submatches either
unfoldable pub parse_range : Bytes → Option Range
unfolding submatches span_of
parse_range rng = do
  (first, last) ← submatches rng
  start ← parse_uint u64 first
  span_of start last
