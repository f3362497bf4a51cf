-- ===== src/Range/Tests.antt =====
-- Ranges on concrete headers and files.
use send_to.Prelude.{
  ◌+◌, ◌-◌, ◌%◌, ◌≤◌, ◌<◌, ◌≡◌, refl, ◌⊎◌, none, some, [], ◌∷◌, ◌++◌, codes, arith, ◌==◌,
  if◌then◌else◌, strip_prefix,
}
use send_to.Prelude.Decimal.{parse_uint, span_digits, format}
use send_to.Range.{Range, u64, range, accept_length, parse_range}
use send_to.Range.Laws.{parse_range-range, accept_length_lem}

abbrev middle : Range
middle = record { start = 5; limit = 10; content_range = [] }

runs : Unit {0}
unfolding parse_range range accept_length strip_prefix span_digits parse_uint format
runs = tt

parsed : parse_range (codes "bytes=5-14") ≡ some middle
unfolding runs
parsed = refl

open_ended :
    parse_range (codes "bytes=7-") ≡ some (record { start = 7; limit = 0; content_range = [] })
unfolding runs
open_ended = refl

refused :
    (parse_range (codes "bytes=9-5") ≡ none)
    × (parse_range (codes "bytes=0-18446744073709551615") ≡ none)
    × (parse_range (codes "bytes=-5") ≡ none)
    × (parse_range (codes "bytes=0-1,4-5") ≡ none)
unfolding runs
refused = (refl, refl, refl, refl)

accepted : (accept_length middle 20).0.content_range ≡ codes "bytes 5-14/20"
unfolding runs
accepted = refl

parse_range-range_example : parse_range (range middle) ≡ some middle
parse_range-range_example = parse_range-range 5 10 (omega arith)

accept_length_lem_example :
    ((5 + 10 ≤ 20)
      × ((accept_length middle 20).0.content_range
          ≡ codes "bytes "
            ++ (format 5
                ++ b'-'
                  ∷ (format ((5 + (accept_length middle 20).1 + u64 - 1) % u64)
                      ++ b'/' ∷ format 20)))
      × ((accept_length middle 20).1 ≡ (if 10 == 0 then 20 - 5 else 10))
      × ((accept_length middle 20).0.limit ≡ (accept_length middle 20).1)
      × (5 + (accept_length middle 20).1 ≤ 20))
    ⊎ ((20 < 5 + 10)
        × ((accept_length middle 20).0.content_range ≡ [])
        × ((accept_length middle 20).1 ≡ 20))
accept_length_lem_example = accept_length_lem middle 20 (omega arith) (omega arith) refl
