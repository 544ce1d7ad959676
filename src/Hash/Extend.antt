-- ===== src/Hash/Extend.antt =====
-- The hash of a source can be extended by what is appended to it.
use mathlib.Core.Bool.{false}
use native.Mathlib.Nat.{pow-suc}
use sixpack.Prelude.{
  ℕ, zero, suc, ◌+◌, ◌*◌, ◌/◌, ◌%◌, ◌^◌, ◌<◌, List, [], ◌∷◌, ◌++◌, some, ◌≡◌, refl, ◌∙◌, ap, arith,
}
use sixpack.Prelude.Outcome.{ok}
use sixpack.Prelude.Text.{Text, is_empty}
use sixpack.Hash.{
  fnv_offset_basis, fnv_step, fnv, hex_digit, hex_digits, hex16, unhex, scan_hex, from_hex,
  source_hash, extend_source_hash,
}

pub fnv-append : (h : ℕ) (a b : List ℕ) → fnv h (a ++ b) ≡ fnv (fnv h a) b
unfolding fnv
fnv-append h [] b = refl
fnv-append h (x ∷ a) b = fnv-append (fnv_step h x) a b

pub fnv-lt : (h : ℕ) (a : List ℕ) → h < 2 ^ 64 → fnv h a < 2 ^ 64
unfolding fnv
fnv-lt h [] small = small
fnv-lt h (x ∷ a) small = fnv-lt (fnv_step h x) a (unfold fnv_step in omega arith)

unhex_digit : (d : ℕ) → d < 16 → unhex (hex_digit d) ≡ some d
unfolding unhex
unhex_digit d h = ground arith

scan_hex-digit :
    (n d : ℕ) (s : Text)
    → d < 16
    → n * 16 + d < 2 ^ 64
    → scan_hex (hex_digit d ∷ s) n ≡ scan_hex s (n * 16 + d)
unfolding scan_hex
scan_hex-digit n d s small fits = rw (unhex_digit d small, scan_hex) (ground arith)

scan_hex-digits :
    (k n : ℕ) (out : Text)
    → n < 16 ^ k
    → n < 2 ^ 64
    → scan_hex (hex_digits k n out) 0 ≡ scan_hex out n
unfolding hex_digits
scan_hex-digits zero n out small fits = ap (scan_hex out) (omega arith)
scan_hex-digits (suc k) n out small fits =
    scan_hex-digits k (n / 16) (hex_digit (n % 16) ∷ out) (ground (arith, pow-suc 16 k))
      (omega arith)
    ∙ scan_hex-digit (n / 16) (n % 16) out (omega arith) (omega arith)
    ∙ ap (scan_hex out) (omega arith)

from_hex-scan : (c : ℕ) (s : Text) → (c ≡ b'+' → ⊥) → from_hex (c ∷ s) ≡ scan_hex (c ∷ s) 0
unfolding from_hex
from_hex-scan c [] h = refl
from_hex-scan c (d ∷ s) h = ground arith

hex_digit-ne-plus : (d : ℕ) → d < 16 → hex_digit d ≡ b'+' → ⊥
hex_digit-ne-plus d h = ground arith

-- Sixteen digits begin with a hexadecimal digit.
from_hex-hex_digits :
    (k n : ℕ) (c : ℕ) (out : Text)
    → (c ≡ b'+' → ⊥)
    → from_hex (hex_digits k n (c ∷ out)) ≡ scan_hex (hex_digits k n (c ∷ out)) 0
unfolding hex_digits
from_hex-hex_digits zero n c out h = from_hex-scan c out h
from_hex-hex_digits (suc k) n c out h =
    from_hex-hex_digits k (n / 16) (hex_digit (n % 16)) (c ∷ out)
      (hex_digit-ne-plus (n % 16) (omega arith))

pub from_hex-hex16 : (n : ℕ) → n < 2 ^ 64 → from_hex (hex16 n) ≡ some n
unfolding hex16
from_hex-hex16 n small =
    unfold hex_digits scan_hex in
    from_hex-hex_digits 15 (n / 16) (hex_digit (n % 16)) []
      (hex_digit-ne-plus (n % 16) (omega arith))
    ∙ scan_hex-digits 16 n [] small small

hex_digits-ne-nil : (k n : ℕ) (c : ℕ) (out : Text) → is_empty (hex_digits k n (c ∷ out)) ≡ false
unfolding hex_digits
hex_digits-ne-nil zero n c out = refl
hex_digits-ne-nil (suc k) n c out = hex_digits-ne-nil k (n / 16) (hex_digit (n % 16)) (c ∷ out)

is_empty-hex16 : (n : ℕ) → is_empty (hex16 n) ≡ false
unfolding hex16
is_empty-hex16 n = unfold hex_digits in hex_digits-ne-nil 15 (n / 16) (hex_digit (n % 16)) []

-- Extending the hash of the bytes `a` by the bytes `b` gives the hash of both together, so the
-- hash that an append maintains is the one that a full scan of the files computes.
pub extend_source_hash-source_hash :
    (a b : List ℕ) → extend_source_hash (source_hash a) b ≡ ok (source_hash (a ++ b))
unfolding extend_source_hash source_hash
extend_source_hash-source_hash a b =
    let small : fnv fnv_offset_basis a < 2 ^ 64 = fnv-lt fnv_offset_basis a (omega arith) in
    rw (is_empty-hex16 (fnv fnv_offset_basis a)) (
      rw (from_hex-hex16 (fnv fnv_offset_basis a) small)
        (rw (fnv-append fnv_offset_basis a b) refl))
