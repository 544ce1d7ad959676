-- ===== src/Prelude/Decimal.antt =====
-- Decimal text of machine integers: `to_string` and `str::parse` of Rust's `u64`, `u32` and `i64`,
-- as its standard library documents them.
pub mod RoundTrip
use sixpack.Prelude.{
  ℕ, zero, suc, ◌+◌, ◌-◌, ◌*◌, ◌/◌, ◌%◌, ◌^◌, ◌<◌, ◌≤◌, List, [], ◌∷◌, ◌++◌, Option, none, some,
  arith, ltb, leb, ◌==◌, if◌then◌else◌, ◌≡◌, refl,
}
use sixpack.Prelude.Text.{Text, codes, is_ascii_digit}

-- `negsuc n` is -(n + 1)
pub data ℤ : Type 0 where
  pos : ℕ → ℤ
  negsuc : ℕ → ℤ

abbrev pub IsI64 : ℤ → Type 0
IsI64 (pos n) = n < 2 ^ 63
IsI64 (negsuc n) = n < 2 ^ 63

-- The last `fuel` digits of `n`, with no leading zero.
pub digits : ℕ → ℕ → Text → Text
digits zero n out = out
digits (suc fuel) n out =
    let more = digits fuel (n / 10) ((b'0' + n % 10) ∷ out) in
    if ltb n 10 then (b'0' + n) ∷ out else more

-- Twenty digits hold every `u64`.
unfoldable pub print_nat : ℕ → Text
unfolding digits
print_nat n = digits 20 n []

unfoldable pub print_int : ℤ → Text
unfolding print_nat
print_int (pos n) = print_nat n
print_int (negsuc n) = b'-' ∷ print_nat (suc n)

-- The digits of a number of at most `bound`; each step checks for overflow.
pub scan_digits : ℕ → Text → ℕ → Option ℕ
scan_digits bound [] n = some n
scan_digits bound (c ∷ s) n =
    let rest = scan_digits bound s (n * 10 + (c - b'0')) in
    if is_ascii_digit c then (if leb (n * 10 + (c - b'0')) bound then rest else none) else none

-- One digit at least.
pub scan_number : ℕ → Text → Option ℕ
unfolding scan_digits
scan_number bound [] = none
scan_number bound (c ∷ s) = scan_digits bound (c ∷ s) 0

-- A leading `+` is allowed.
unfoldable pub parse_nat : ℕ → Text → Option ℕ
unfolding scan_number
parse_nat bound [] = none
parse_nat bound (c ∷ s) = if c == b'+' then scan_number bound s else scan_number bound (c ∷ s)

abbrev pub u64_max : ℕ
u64_max = 2 ^ 64 - 1

abbrev pub u32_max : ℕ
u32_max = 2 ^ 32 - 1

-- `-n` for a magnitude
abbrev pub negate : ℕ → ℤ
negate zero = pos zero
negate (suc n) = negsuc n

abbrev pub signed : (ℕ → ℤ) → Option ℕ → Option ℤ
signed f none = none
signed f (some n) = some (f n)

unfoldable pub parse_i64 : Text → Option ℤ
unfolding scan_number
parse_i64 [] = none
parse_i64 (c ∷ s) =
    if c == b'-'
    then signed negate (scan_number (2 ^ 63) s)
    else if c == b'+'
    then signed pos (scan_number (2 ^ 63 - 1) s)
    else signed pos (scan_number (2 ^ 63 - 1) (c ∷ s))

print_int_tests : print_int (negsuc 41) ≡ codes "-42"
unfolding print_int
print_int_tests = refl

parse_i64_tests :
    (parse_i64 (codes "-9223372036854775808") ≡ some (negsuc 9223372036854775807))
    × (parse_i64 (codes "9223372036854775808") ≡ none)
    × (parse_i64 (codes "-") ≡ none)
unfolding parse_i64
parse_i64_tests = (refl, refl, refl)
