-- ===== src/Prelude/Decimal.antt =====
-- `strconv`: `FormatUint` and `ParseUint` in base ten, and the span of digits that `[0-9]+` takes.
use Prim.Native.Nat.{ℕ, zero, suc, ◌+◌, ◌-◌, ◌*◌, ◌/◌, ◌%◌, ◌<◌}
use mathlib.Core.Path.{◌≡◌, refl}
use mathlib.Core.Logic.{◌≢◌}
use mathlib.Core.Bool.{Bool, true, false, ◌&&◌}
use mathlib.Core.Option.{Option, none, some}
use mathlib.Core.List.{[], ◌∷◌, ◌++◌}
use native.Mathlib.Omega.{arith}
use send_to.Prelude.Tests.{ltb, leb, if◌then◌else◌}
use send_to.Prelude.Lists.{all}
use send_to.Prelude.Text.{Bytes}

abbrev pub is_digit : ℕ → Bool
is_digit c = leb b'0' c && leb c b'9'

-- the number that the digits spell behind `n`
abbrev pub value : ℕ → Bytes → ℕ
value n [] = n
value n (c ∷ s) = value (n * 10 + (c - b'0')) s

-- `strconv.ParseUint(s, 10, bits)` with `bound` = 2 ^ bits
unfoldable pub parse_uint : ℕ → Bytes → Option ℕ
parse_uint bound [] = none
parse_uint bound (c ∷ s) =
    if all is_digit (c ∷ s) && ltb (value 0 (c ∷ s)) bound then some (value 0 (c ∷ s)) else none

-- The digits at the head of a text, and the rest.
unfoldable pub span_digits : Bytes → Bytes × Bytes
span_digits [] = ([], [])
span_digits (c ∷ s) =
    let (digits, rest) = span_digits s in if is_digit c then (c ∷ digits, rest) else ([], c ∷ s)

-- One digit is enough fuel for each factor of ten.
format_from : ℕ → ℕ → Bytes → Bytes
format_from zero n out = out
format_from (suc fuel) n out = elim (ltb n 10) [
  | true ↦ (b'0' + n) ∷ out
  | false ↦ format_from fuel (n / 10) ((b'0' + n % 10) ∷ out)
]

-- `strconv.FormatUint(n, 10)`, `%d`
unfoldable pub format : ℕ → Bytes
unfolding format_from
format n = format_from (suc n) n []

all-format_from :
    (fuel n : ℕ) (out : Bytes)
    → all is_digit out ≡ true
    → all is_digit (format_from fuel n out) ≡ true
unfolding format_from
all-format_from zero n out h = h
all-format_from (suc fuel) n out h =
    ground (arith, all-format_from fuel (n / 10) ((b'0' + n % 10) ∷ out))

value-format_from :
    (fuel n : ℕ) (out : Bytes) → n < fuel → value 0 (format_from fuel n out) ≡ value n out
unfolding format_from
value-format_from zero n out h = absurd (omega arith)
value-format_from (suc fuel) n out h =
    ground (arith, value-format_from fuel (n / 10) ((b'0' + n % 10) ∷ out))

format_from-ne-nil : (fuel n : ℕ) (out : Bytes) → n < fuel → format_from fuel n out ≢ []
unfolding format_from
format_from-ne-nil zero n out h = absurd (omega arith)
format_from-ne-nil (suc fuel) n out h =
    ground (arith, format_from-ne-nil fuel (n / 10) ((b'0' + n % 10) ∷ out))

pub all-format : (n : ℕ) → all is_digit (format n) ≡ true
unfolding format
all-format n = all-format_from (suc n) n [] refl

pub format-ne-nil : (n : ℕ) → format n ≢ []
unfolding format
format-ne-nil n = format_from-ne-nil (suc n) n [] (omega arith)

pub value-format : (n : ℕ) → value 0 (format n) ≡ n
unfolding format
value-format n = value-format_from (suc n) n [] (omega arith)

pub parse_uint_digits :
    (bound : ℕ) (s : Bytes)
    → s ≢ []
    → all is_digit s ≡ true
    → value 0 s < bound
    → parse_uint bound s ≡ some (value 0 s)
unfolding parse_uint
parse_uint_digits bound [] h d lt = absurd (h refl)
parse_uint_digits bound (c ∷ s) h d lt = ground arith

-- Every number below the bound is read back from its decimal print.
pub parse_uint-format : (bound n : ℕ) → n < bound → parse_uint bound (format n) ≡ some n
parse_uint-format bound n h =
    ground
      (arith, parse_uint_digits bound (format n), format-ne-nil n, all-format n, value-format n)

-- A number that is read is below the bound.
pub parse_uint-lt : (bound : ℕ) (s : Bytes) (n : ℕ) → parse_uint bound s ≡ some n → n < bound
unfolding parse_uint
parse_uint-lt bound [] n h = cc
parse_uint-lt bound (c ∷ s) n h = ground arith

-- The span stops at the first byte that is no digit.
pub span_digits-append :
    (s : Bytes) (c : ℕ) (rest : Bytes)
    → all is_digit s ≡ true
    → is_digit c ≡ false
    → span_digits (s ++ c ∷ rest) ≡ (s, c ∷ rest)
unfolding span_digits
span_digits-append [] c rest h k = ground arith
span_digits-append (d ∷ s) c rest h k = ground (arith, span_digits-append s c rest)

pub span_digits-all : (s : Bytes) → all is_digit s ≡ true → span_digits s ≡ (s, [])
unfolding span_digits
span_digits-all [] h = refl
span_digits-all (d ∷ s) h = ground (arith, span_digits-all s)
