-- ===== src/Prelude/Decimal/RoundTrip.antt =====
-- A printed integer reads back.
use sixpack.Prelude.{
  ℕ, zero, suc, ◌+◌, ◌-◌, ◌*◌, ◌/◌, ◌%◌, ◌^◌, ◌<◌, ◌≤◌, [], ◌∷◌, some, arith, ◌≡◌, refl, All, ◌≢◌,
  ◌∙◌,
}
use native.Mathlib.Nat.{pow-suc}
use sixpack.Prelude.Text.{Text}
use sixpack.Prelude.Decimal.{
  ℤ, pos, negsuc, IsI64, digits, print_nat, print_int, scan_digits, scan_number, parse_nat,
  parse_i64, signed,
}

abbrev pub IsDigit : ℕ → Type 0
IsDigit c = (b'0' ≤ c) × (c ≤ b'9')

-- reading one digit
scan_digit :
    (bound n d : ℕ) (s : Text)
    → d < 10
    → n * 10 + d ≤ bound
    → scan_digits bound ((b'0' + d) ∷ s) n ≡ scan_digits bound s (n * 10 + d)
unfolding scan_digits
scan_digit bound n d s small fits = ground arith

-- `digits` meets `scan_digits` from the value that is left.
digits_scan :
    (bound fuel n : ℕ) (out : Text)
    → n < 10 ^ fuel
    → n ≤ bound
    → (fuel ≡ 0 → ⊥)
    → scan_digits bound (digits fuel n out) 0 ≡ scan_digits bound out n
unfolding digits
digits_scan bound zero n out small fits some_fuel = absurd (some_fuel refl)
digits_scan bound (suc zero) n out small fits _ = ground (arith, scan_digit bound 0 n out)
digits_scan bound (suc (suc fuel)) n out small fits _ = ground (
  arith,
  scan_digit bound 0 n out,
  scan_digit bound (n / 10) (n % 10) out,
  digits_scan bound (suc fuel) (n / 10) ((b'0' + n % 10) ∷ out),
  pow-suc 10 (suc fuel),
)

digits-IsDigit : (fuel n : ℕ) (out : Text) → All IsDigit out → All IsDigit (digits fuel n out)
unfolding digits
digits-IsDigit zero n out h = h
digits-IsDigit (suc fuel) n out h =
    ground (arith, digits-IsDigit fuel (n / 10) ((b'0' + n % 10) ∷ out))

digits-ne-nil : (fuel n : ℕ) (out : Text) → out ≢ [] → digits fuel n out ≢ []
unfolding digits
digits-ne-nil zero n out h = h
digits-ne-nil (suc fuel) n out h =
    ground (arith, digits-ne-nil fuel (n / 10) ((b'0' + n % 10) ∷ out))

pub print_nat-ne-nil : (n : ℕ) → print_nat n ≢ []
unfolding print_nat
print_nat-ne-nil n = ground (arith, digits-ne-nil 19 (n / 10) ((b'0' + n % 10) ∷ []))

pub print_nat-IsDigit : (n : ℕ) → All IsDigit (print_nat n)
unfolding print_nat
print_nat-IsDigit n = digits-IsDigit 20 n [] tt

scan-print_nat :
    (bound n : ℕ) → n < 10 ^ 20 → n ≤ bound → scan_digits bound (print_nat n) 0 ≡ some n
unfolding print_nat scan_digits
scan-print_nat bound n small fits = digits_scan bound 20 n [] small fits (λ e. cc)

scan_number-scan : (bound : ℕ) (s : Text) → s ≢ [] → scan_number bound s ≡ scan_digits bound s 0
unfolding scan_number
scan_number-scan bound [] h = absurd (h refl)
scan_number-scan bound (c ∷ s) h = refl

parse_nat-scan :
    (bound : ℕ) (s : Text) → s ≢ [] → All IsDigit s → parse_nat bound s ≡ scan_digits bound s 0
unfolding parse_nat
parse_nat-scan bound [] h d = absurd (h refl)
parse_nat-scan bound (c ∷ s) h d = ground arith

parse_i64-scan :
    (s : Text) → s ≢ [] → All IsDigit s → parse_i64 s ≡ signed pos (scan_digits (2 ^ 63 - 1) s 0)
unfolding parse_i64
parse_i64-scan [] h d = absurd (h refl)
parse_i64-scan (c ∷ s) h d = ground arith

pub parse-print_nat :
    (bound n : ℕ) → bound < 10 ^ 20 → n ≤ bound → parse_nat bound (print_nat n) ≡ some n
parse-print_nat bound n small fits =
    parse_nat-scan bound (print_nat n) (print_nat-ne-nil n) (print_nat-IsDigit n)
    ∙ scan-print_nat bound n (omega arith) fits

scan_number-print_nat :
    (bound n : ℕ) → n < 10 ^ 20 → n ≤ bound → scan_number bound (print_nat n) ≡ some n
scan_number-print_nat bound n small fits =
    scan_number-scan bound (print_nat n) (print_nat-ne-nil n) ∙ scan-print_nat bound n small fits

pub parse-print_int : (z : ℤ) → IsI64 z → parse_i64 (print_int z) ≡ some z
unfolding print_int
parse-print_int (pos n) h =
    parse_i64-scan (print_nat n) (print_nat-ne-nil n) (print_nat-IsDigit n)
    ∙ rw (scan-print_nat (2 ^ 63 - 1) n (omega arith) (omega arith))
parse-print_int (negsuc n) h =
    unfold parse_i64 in rw (scan_number-print_nat (2 ^ 63) (suc n) (omega arith) (omega arith))
