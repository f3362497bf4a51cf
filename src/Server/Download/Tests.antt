-- ===== src/Server/Download/Tests.antt =====
-- Downloads from a concrete instance.
use send_to.Prelude.{◌≡◌, refl, sym, subst, false, some, codes, arith, length, strip_prefix, []}
use send_to.Prelude.Decimal.{parse_uint, span_digits}
use send_to.Range.{Range, parse_range}
use send_to.Server.Post.{Post}
use send_to.Server.Types.{Headers}
use send_to.Server.Toy.{toy_env}
use send_to.Server.Sample.{limits, note, hello, shelf, shelf_file, shelf_side, no_headers}
use send_to.Server.Lifecycle.{used_up, too_old}
use send_to.Server.Caching.{etag_matches}
use send_to.Server.Download.{get_handler, requested_range}
use send_to.Server.Download.Delivery.{Available, Plain, Serves}
use send_to.Server.Download.Ranges.{Gets, Misled, Fits, get_handler-Serves, get_handler_overlong}

-- the bytes from 1 to 3 of the upload, and the ones from 1 to 9
abbrev middle : Headers
middle = record no_headers { range = codes "bytes=1-3" }

abbrev too_far : Headers
too_far = record no_headers { range = codes "bytes=1-9" }

abbrev one_to_nine : Range
one_to_nine = record { start = 1; limit = 9; content_range = [] }

shelf-Available :
    (h : Headers) → Available toy_env limits (codes "abc") (codes "a.txt") hello note h shelf
unfolding Available used_up too_old
shelf-Available h = (refl, shelf_file, shelf_side, refl, refl)

middle-Plain : Plain toy_env limits (codes "abc") (codes "a.txt") hello note middle
unfolding etag_matches
middle-Plain = (refl, refl)

too_far-Plain : Plain toy_env limits (codes "abc") (codes "a.txt") hello note too_far
unfolding etag_matches
too_far-Plain = (refl, refl)

middle_range :
    requested_range middle.range ≡ some (record { start = 1; limit = 3; content_range = [] })
unfolding requested_range parse_range strip_prefix span_digits parse_uint
middle_range = refl

too_far_range : requested_range too_far.range ≡ some one_to_nine
unfolding requested_range parse_range strip_prefix span_digits parse_uint
too_far_range = refl

get_handler-Serves_example :
    Post
      (λ _ _. ⊥)
      (λ a _.
        Serves
          (Gets toy_env limits
            (codes "abc")
            (codes "a.txt")
            hello
            note
            middle
            (requested_range middle.range))
          a)
      (get_handler toy_env limits (codes "abc") (codes "a.txt") false middle shelf)
get_handler-Serves_example =
    get_handler-Serves toy_env limits (codes "abc") (codes "a.txt") hello note middle shelf
      (shelf-Available middle) middle-Plain (omega arith)
      (subst (λ o. Fits o (length hello)) (sym middle_range) (omega arith, refl))

get_handler_overlong_example :
    Post
      (λ _ _. ⊥)
      (λ a _.
        Serves
          (Misled toy_env limits (codes "abc") (codes "a.txt") hello note too_far one_to_nine)
          a)
      (get_handler toy_env limits (codes "abc") (codes "a.txt") false too_far shelf)
get_handler_overlong_example =
    get_handler_overlong toy_env limits (codes "abc") (codes "a.txt") hello note too_far one_to_nine
      shelf (shelf-Available too_far) too_far-Plain (omega arith) (omega arith) too_far_range refl
      (omega arith) (omega arith) (omega arith) (omega arith)
