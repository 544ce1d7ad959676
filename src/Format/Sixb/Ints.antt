-- ===== src/Format/Sixb/Ints.antt =====
-- Little-endian words.
use sixpack.Prelude.{
  ℕ, zero, suc, ◌+◌, ◌*◌, ◌/◌, ◌^◌, ◌<◌, List, [], ◌∷◌, ◌≡◌, refl, length, arith, ap, All,
}
use native.Mathlib.Nat.{pow-suc}
use sixpack.Format.Sixb.{le_bytes}

-- `from_le_bytes`
unfoldable pub from_le_bytes : List ℕ → ℕ
from_le_bytes [] = 0
from_le_bytes (b ∷ bs) = b + 256 * from_le_bytes bs

pub length-le_bytes : (w v : ℕ) → length (le_bytes w v) ≡ w
unfolding le_bytes
length-le_bytes zero v = refl
length-le_bytes (suc w) v = ap suc (length-le_bytes w (v / 256))

pub from_le_bytes-le_bytes : (w v : ℕ) → v < 256 ^ w → from_le_bytes (le_bytes w v) ≡ v
unfolding le_bytes from_le_bytes
from_le_bytes-le_bytes zero v h = omega arith
from_le_bytes-le_bytes (suc w) v h =
    omega (arith, from_le_bytes-le_bytes w (v / 256) (omega (arith, pow-suc 256 w)))

-- every byte of a word is one
pub le_bytes-lt : (w v : ℕ) → All (λ b. b < 256) (le_bytes w v)
unfolding le_bytes
le_bytes-lt zero v = tt
le_bytes-lt (suc w) v = (omega arith, le_bytes-lt w (v / 256))
