-- ===== src/Hash.antt =====
-- FNV-1a over 64 bits and its sixteen hexadecimal digits: the loops of
-- packages/sixpack-core/src/schema.rs, packages/sixpack-format/src/format/sixb.rs and
-- packages/sixpack-store/src/store/files.rs.
pub mod Extend
use Prim.Native.Nat.{bit_xor}
use sixpack.Prelude.{
  Bool, true, false, ℕ, zero, suc, ◌+◌, ◌-◌, ◌*◌, ◌/◌, ◌%◌, ◌^◌, List, [], ◌∷◌, Option, none, some,
  ◌≡◌, refl, ltb, leb, ◌&&◌, if◌then◌else◌, ◌==◌,
}
use sixpack.Prelude.Outcome.{Outcome, ok, err, ◌>>=◌, ok_or}
use sixpack.Prelude.Text.{Text, codes, is_empty}

abbrev pub fnv_offset_basis : ℕ
fnv_offset_basis = 0xcbf29ce484222325

abbrev pub fnv_prime : ℕ
fnv_prime = 0x100000001b3

-- `hash ^= byte; hash = hash.wrapping_mul(FNV_PRIME)`
unfoldable pub fnv_step : ℕ → ℕ → ℕ
fnv_step hash byte = bit_xor hash byte * fnv_prime % 2 ^ 64

unfoldable pub fnv : ℕ → List ℕ → ℕ
unfolding fnv_step
fnv hash [] = hash
fnv hash (byte ∷ bytes) = fnv (fnv_step hash byte) bytes

abbrev pub hex_digit : ℕ → ℕ
hex_digit d = if ltb d 10 then b'0' + d else 87 + d

unfoldable pub hex_digits : ℕ → ℕ → Text → Text
hex_digits zero n out = out
hex_digits (suc k) n out = hex_digits k (n / 16) (hex_digit (n % 16) ∷ out)

-- `format!("{hash:016x}")`
unfoldable pub hex16 : ℕ → Text
unfolding hex_digits
hex16 n = hex_digits 16 n []

unfoldable pub unhex : ℕ → Option ℕ
unhex c =
    if leb b'0' c && leb c b'9'
    then some (c - b'0')
    else if leb b'a' c && leb c b'f'
    then some (c - 87)
    else if leb b'A' c && leb c b'F'
    then some (c - 55)
    else none

unfoldable pub scan_hex : Text → ℕ → Option ℕ
unfolding unhex
scan_hex [] n = some n
scan_hex (c ∷ s) n = elim (unhex c) [
  | none ↦ none
  | some d ↦ elim (ltb (n * 16 + d) (2 ^ 64)) [ true ↦ scan_hex s (n * 16 + d) | false ↦ none ]
]

-- `u64::from_str_radix(s, 16)`: one digit at least, and a leading `+` is allowed
unfoldable pub from_hex : Text → Option ℕ
unfolding scan_hex
from_hex [] = none
from_hex (c ∷ []) = scan_hex (c ∷ []) 0
from_hex (c ∷ d ∷ s) = if c == b'+' then scan_hex (d ∷ s) 0 else scan_hex (c ∷ d ∷ s) 0

-- `source_hash` of sixb.rs
unfoldable pub source_hash : List ℕ → Text
source_hash bytes = hex16 (fnv fnv_offset_basis bytes)

pub data BadHash : Type 0 where
  bad_source_hash : Text → BadHash

-- `extend_source_hash` of files.rs
unfoldable pub extend_source_hash : Text → List ℕ → Outcome BadHash Text
extend_source_hash current bytes = do
  hash ←
      if is_empty current
      then ok fnv_offset_basis
      else ok_or (bad_source_hash current) (from_hex current)
  ok (hex16 (fnv hash bytes))

source_hash_tests : source_hash [] ≡ codes "cbf29ce484222325"
unfolding source_hash fnv hex16
source_hash_tests = refl
