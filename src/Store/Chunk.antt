-- ===== src/Store/Chunk.antt =====
-- The names of chunk files: `chunk_path`, `encode_reverse_base36` and `encode_fixed_base36` of
-- packages/sixpack-store/src/store/files.rs. Files are read in the descending order of their names.
use sixpack.Prelude.{
  ℕ, zero, suc, ◌+◌, ◌-◌, ◌/◌, ◌%◌, ◌^◌, ◌<◌, [], ◌∷◌, ◌++◌, ◌≡◌, refl, arith, if◌then◌else◌, ltb,
  length, length-append, ◌⊎◌, inl, inr, ap, ◌∙◌, sym,
}
use sixpack.Prelude.Outcome.{Outcome, ok, ◌>>=◌, ◌>>◌, ensure}
use sixpack.Prelude.Order.{list_cmp}
use sixpack.Prelude.Text.{Text, text_ord, codes}
use sixpack.Prelude.Decimal.{print_nat}
use sixpack.Store.Error.{IoError, io_error, ErrorKind}
use Prim.Native.Nat.Ordering.{lt}

abbrev pub chunk_base : ℕ
chunk_base = 36

abbrev pub chunk_width : ℕ
chunk_width = 3

abbrev pub max_chunks : ℕ
max_chunks = 36 ^ 3

-- `CHUNK_CHARS[digit]`
abbrev pub chunk_char : ℕ → ℕ
chunk_char d = if ltb d 10 then b'0' + d else 87 + d

-- the loop that fills the digits from the last to the first
unfoldable pub base36_digits : ℕ → ℕ → Text
base36_digits zero n = []
base36_digits (suc width) n =
    base36_digits width (n / chunk_base) ++ (chunk_char (n % chunk_base) ∷ [])

abbrev out_of_range : ℕ → IoError
out_of_range max =
    io_error ErrorKind.invalid_input (codes "value must be between 0 and " ++ print_nat (max - 1))

unfoldable pub encode_fixed_base36 : ℕ → ℕ → Outcome IoError Text
encode_fixed_base36 n width = do
  let max = chunk_base ^ width
  ensure (ltb n max) (out_of_range max)
  ok (base36_digits width n)

unfoldable pub encode_reverse_base36 : ℕ → ℕ → Outcome IoError Text
encode_reverse_base36 n width = do
  let max = chunk_base ^ width
  ensure (ltb n max) (out_of_range max)
  encode_fixed_base36 (max - 1 - n) width

unfoldable pub chunk_path : ℕ → Outcome IoError Text
chunk_path counter = do
  ensure (ltb counter max_chunks)
      (io_error ErrorKind.invalid_input (codes "chunk counter must be between 0 and 46655"))
  file ← encode_reverse_base36 counter chunk_width
  ok (file ++ codes ".6")

cmp_append :
    (a b x y : Text)
    → length a ≡ length b
    → text_ord.cmp a b ≡ lt
    → text_ord.cmp (a ++ x) (b ++ y) ≡ lt
unfolding list_cmp
cmp_append [] [] x y e h = absurd (cc)
cmp_append [] (d ∷ b) x y e h = absurd (omega arith)
cmp_append (c ∷ a) [] x y e h = absurd (omega arith)
cmp_append (c ∷ a) (d ∷ b) x y e h = ground (arith, cmp_append a b x y)

cmp_append_same : (a x y : Text) → text_ord.cmp (a ++ x) (a ++ y) ≡ text_ord.cmp x y
unfolding list_cmp
cmp_append_same [] x y = refl
cmp_append_same (c ∷ a) x y = ground (arith, cmp_append_same a x y)

length-base36_digits : (width n : ℕ) → length (base36_digits width n) ≡ width
unfolding base36_digits
length-base36_digits zero n = refl
length-base36_digits (suc width) n = omega (
  arith,
  length-base36_digits width (n / 36),
  length-append (base36_digits width (n / 36)) (chunk_char (n % 36) ∷ []),
)

last_digit :
    (n m : ℕ) → n < m → n < 36 → m < 36 → text_ord.cmp (chunk_char n ∷ []) (chunk_char m ∷ []) ≡ lt
unfolding list_cmp
last_digit n m h p q = ground arith

-- the quotients are in order, or they agree and the remainders are in order
quotients : (n m : ℕ) → n < m → (n / 36 < m / 36) ⊎ ((n / 36 ≡ m / 36) × (n % 36 < m % 36))
quotients n m h = ground arith

power_suc : (width m : ℕ) → m < 36 ^ suc width → m / 36 < 36 ^ width
power_suc width m h = omega arith

same_head :
    (width a b c d : ℕ)
    → a ≡ b
    → text_ord.cmp (chunk_char c ∷ []) (chunk_char d ∷ []) ≡ lt
    → text_ord.cmp
        (base36_digits width a ++ (chunk_char c ∷ []))
        (base36_digits width b ++ (chunk_char d ∷ []))
      ≡ lt
same_head width a b c d e h =
    ap
      (λ n.
        text_ord.cmp (base36_digits width n ++ (chunk_char c ∷ []))
          (base36_digits width b ++ (chunk_char d ∷ [])))
      e
    ∙ cmp_append_same (base36_digits width b) (chunk_char c ∷ []) (chunk_char d ∷ [])
    ∙ h

base36_digits-lt :
    (width n m : ℕ)
    → n < m
    → m < 36 ^ width
    → text_ord.cmp (base36_digits width n) (base36_digits width m) ≡ lt
unfolding base36_digits
base36_digits-lt zero n m h k = absurd (omega arith)
base36_digits-lt (suc width) n m h k = elim (quotients n m h) [
  | inl less ↦
      cmp_append (base36_digits width (n / 36)) (base36_digits width (m / 36))
        (chunk_char (n % 36) ∷ []) (chunk_char (m % 36) ∷ [])
        (length-base36_digits width (n / 36) ∙ sym (length-base36_digits width (m / 36)))
        (base36_digits-lt width (n / 36) (m / 36) less (power_suc width m k))
  | inr (same, less) ↦
      same_head width (n / 36) (m / 36) (n % 36) (m % 36) same
        (last_digit (n % 36) (m % 36) less (omega arith) (omega arith))
]

chunk_path-eq :
    (n : ℕ)
    → n < max_chunks
    → chunk_path n ≡ ok (base36_digits 3 (max_chunks - 1 - n) ++ codes ".6")
unfolding chunk_path encode_reverse_base36 encode_fixed_base36
chunk_path-eq n h = ground arith

-- Of two chunk counters below the limit the greater has the lesser file name, in byte order: read
-- in the descending order of the names, the files come in the order in which they were made.
pub chunk_path-order :
    (n m : ℕ)
    → n < m
    → m < max_chunks
    → (p : Text) × (q : Text) × (chunk_path n ≡ ok p)
      × (chunk_path m ≡ ok q)
      × (text_ord.cmp q p ≡ lt)
chunk_path-order n m h k = (
  base36_digits 3 (max_chunks - 1 - n) ++ codes ".6",
  base36_digits 3 (max_chunks - 1 - m) ++ codes ".6",
  chunk_path-eq n (omega arith),
  chunk_path-eq m k,
  cmp_append (base36_digits 3 (max_chunks - 1 - m)) (base36_digits 3 (max_chunks - 1 - n))
      (codes ".6") (codes ".6")
      (length-base36_digits 3 (max_chunks - 1 - m)
        ∙ sym (length-base36_digits 3 (max_chunks - 1 - n)))
      (base36_digits-lt 3 (max_chunks - 1 - m) (max_chunks - 1 - n) (omega arith) (omega arith)),
)
