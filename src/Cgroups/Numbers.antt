-- ===== src/Cgroups/Numbers.antt =====
-- strconv.Atoi on a 64-bit system, as pkg/cgroups uses it: the value is meaningful beside a range
-- error, where it is the nearest one that an int holds.
use go_opentelemetry.Prelude.{
  ℕ, zero, suc, ◌+◌, ◌-◌, ◌*◌, ◌≤◌, ◌<◌, Bool, true, false, Option, none, some, [], ◌∷◌, arith, ltb,
  leb, if◌then◌else◌, ◌==◌, ◌&&◌, if_both,
}
use go_opentelemetry.Cgroups.{Bytes, Error, syntax_error, range_error}
pub use go_opentelemetry.Prelude.{ℤ, pos, negsuc}

abbrev pub minus : ℕ → ℤ
minus zero = pos zero
minus (suc n) = negsuc n

abbrev pub is_positive : ℤ → Bool
is_positive (pos zero) = false
is_positive (pos (suc n)) = true
is_positive (negsuc n) = false

-- What the digits come to: no number, one above 2^64 - 1, or one that an unsigned word holds.
pub data Scan : Type 0 where
  no_number : Scan
  too_large : Scan
  number : ℕ → Scan

unfoldable pub scan : ℕ → Bytes → Scan
scan n [] = number n
scan n (c ∷ cs) =
    let m = n * 10 + (c - 48) in
    let rest = scan m cs in
    if leb 48 c && leb c 57
    then (if ltb 18446744073709551615 m then too_large else rest)
    else no_number

abbrev pub digits : Bytes → Scan
digits [] = no_number
digits (c ∷ cs) = scan 0 (c ∷ cs)

abbrev pub positive : Scan → ℤ × Option Error
positive no_number = (pos 0, some syntax_error)
positive too_large = (pos 9223372036854775807, some range_error)
positive (number n) =
    if leb 9223372036854775808 n then (pos 9223372036854775807, some range_error) else (pos n, none)

abbrev pub negative : Scan → ℤ × Option Error
negative no_number = (pos 0, some syntax_error)
negative too_large = (minus 9223372036854775808, some range_error)
negative (number n) =
    if ltb 9223372036854775808 n
    then (minus 9223372036854775808, some range_error)
    else (minus n, none)

unfoldable pub atoi : Bytes → ℤ × Option Error
atoi [] = (pos 0, some syntax_error)
atoi (c ∷ cs) =
    if c == 45
    then negative (digits cs)
    else (if c == 43 then positive (digits cs) else positive (digits (c ∷ cs)))

-- The value fits an int of 64 bits.
abbrev pub IsInt64 : ℤ → Type 0
IsInt64 (pos n) = n < 9223372036854775808
IsInt64 (negsuc n) = n < 9223372036854775808

positive-IsInt64 : (r : Scan) → IsInt64 (positive r).0
positive-IsInt64 no_number = omega arith
positive-IsInt64 too_large = omega arith
positive-IsInt64 (number n) = ground arith

minus-IsInt64 : (n : ℕ) → n ≤ 9223372036854775808 → IsInt64 (minus n)
minus-IsInt64 zero h = omega arith
minus-IsInt64 (suc n) h = omega arith

negative-IsInt64 : (r : Scan) → IsInt64 (negative r).0
negative-IsInt64 no_number = omega arith
negative-IsInt64 too_large = omega arith
negative-IsInt64 (number n) = ground (arith, minus-IsInt64 n)

-- Whatever the text, and beside an error too, the value is one that an int of 64 bits holds.
pub atoi-IsInt64 : (s : Bytes) → IsInt64 (atoi s).0
unfolding atoi
atoi-IsInt64 [] = omega arith
atoi-IsInt64 (c ∷ cs) =
    if_both (λ (p : ℤ × Option Error). IsInt64 p.0) (c == 45) (negative-IsInt64 (digits cs))
      (if_both (λ (p : ℤ × Option Error). IsInt64 p.0) (c == 43) (positive-IsInt64 (digits cs))
        (positive-IsInt64 (digits (c ∷ cs))))
