-- ===== src/Format/Sixb/Reads.antt =====
-- Readers that give back what was written: the rules for the reads of `Reader`.
use native.Mathlib.Nat.{mod-eq_of_lt, add-zero}
use sixpack.Prelude.{
  ℕ, ◌+◌, ◌^◌, ◌<◌, ◌≤◌, ◌%◌, List, [], ◌∷◌, ◌++◌, length, ◌≡◌, refl, sym, ◌∙◌, ap, arith, drop,
  drop-drop, drop-length-append, take-length-append, length-append, length-drop, append_assoc,
  append-nil, subst, All,
}
use sixpack.Prelude.Outcome.{ok}
use sixpack.Prelude.Order.{same_self}
use sixpack.Prelude.Text.{text_ord}
use sixpack.Format.Sixb.{sixb_magic, write_u32, write_u64, write_all, le_bytes}
use sixpack.Format.Sixb.Ints.{from_le_bytes, from_le_bytes-le_bytes, length-le_bytes}
use sixpack.Format.Sixb.Reader.{
  Read, ◌then_read◌, done, take_bytes, expect_magic, read_u32, read_u64, read_all,
}

-- Wherever the encoded bytes stand at the offset, the value is read, and the reader stands
-- behind them.
pub record Reads {A : Type 0} (read : Read A) (encoded : List ℕ) (x : A) : Type 0 where
  pub at :
      (bytes rest : List ℕ) (offset next : ℕ)
      → drop offset bytes ≡ encoded ++ rest
      → offset ≤ length bytes
      → length bytes < 2 ^ 64
      → next ≡ offset + length encoded
      → read (record { bytes = bytes; offset = offset })
        ≡ ok (x, record { bytes = bytes; offset = next })

fits :
    (bytes encoded rest : List ℕ) (offset : ℕ)
    → drop offset bytes ≡ encoded ++ rest
    → offset ≤ length bytes
    → offset + length encoded + length rest ≡ length bytes
fits bytes encoded rest offset at within =
    omega (arith, length-drop offset bytes, ap length at, length-append encoded rest)

drop_next :
    (bytes encoded rest : List ℕ) (offset : ℕ)
    → drop offset bytes ≡ encoded ++ rest
    → drop (offset + length encoded) bytes ≡ rest
drop_next bytes encoded rest offset at =
    sym (drop-drop (length encoded) offset bytes)
    ∙ ap (drop (length encoded)) at
    ∙ drop-length-append encoded rest

pub Reads-done : {A : Type 0} (x : A) → Reads (done x) [] x
Reads-done x = record { at = λ bytes rest offset next at within small e. rw e (rw add-zero) }

pub Reads-then :
    {A B : Type 0} (m : Read A) (f : A → Read B) (e₁ e₂ : List ℕ) (a : A) (b : B)
    → Reads m e₁ a
    → Reads (f a) e₂ b
    → Reads (m then_read f) (e₁ ++ e₂) b
Reads-then m f e₁ e₂ a b ra rb = record {
  at = λ bytes rest offset next at within small e.
      let at₁ : drop offset bytes ≡ e₁ ++ (e₂ ++ rest) = at ∙ append_assoc e₁ e₂ rest in
      let room = fits bytes e₁ (e₂ ++ rest) offset at₁ within in
      rw (ra.at bytes (e₂ ++ rest) offset (offset + length e₁) at₁ within small refl) (
        rb.at bytes rest (offset + length e₁) next (drop_next bytes e₁ (e₂ ++ rest) offset at₁)
          (omega arith) small (omega (arith, length-append e₁ e₂)));
}

pub Reads-take : (encoded : List ℕ) → Reads (take_bytes (length encoded)) encoded encoded
unfolding take_bytes
Reads-take encoded = record {
  at = λ bytes rest offset next at within small e.
      let room = fits bytes encoded rest offset at within in
      rw at (rw take-length-append (ground arith));
}

pub Reads-map :
    {A B : Type 0} (m : Read A) (f : A → B) (encoded : List ℕ) (a : A)
    → Reads m encoded a
    → Reads (m then_read λ x. done (f x)) encoded (f a)
Reads-map m f encoded a ra =
    subst (λ e. Reads (m then_read λ x. done (f x)) e (f a)) (append-nil encoded)
      (Reads-then m (λ x. done (f x)) encoded [] a (f a) ra (Reads-done (f a)))

Reads-word :
    (w v : ℕ)
    → v < 256 ^ w
    → Reads (take_bytes w then_read λ bytes. done (from_le_bytes bytes)) (le_bytes w v) v
Reads-word w v h =
    subst (λ x. Reads (take_bytes w then_read λ bytes. done (from_le_bytes bytes)) (le_bytes w v) x)
      (from_le_bytes-le_bytes w v h)
      (Reads-map (take_bytes w) from_le_bytes (le_bytes w v) (le_bytes w v) (
        subst (λ n. Reads (take_bytes n) (le_bytes w v) (le_bytes w v)) (length-le_bytes w v)
          (Reads-take (le_bytes w v))))

pub Reads-u32 : (v : ℕ) → v < 2 ^ 32 → Reads read_u32 (write_u32 v) v
unfolding read_u32
Reads-u32 v h = Reads-word 4 v h

pub Reads-u64 : (v : ℕ) → v < 2 ^ 64 → Reads read_u64 (write_u64 v) v
unfolding read_u64
Reads-u64 v h = Reads-word 8 v h

pub Reads-count : (v : ℕ) → v < 2 ^ 32 → Reads read_u32 (write_u32 (v % 2 ^ 32)) v
Reads-count v h = rw (mod-eq_of_lt h) (Reads-u32 v h)

pub Reads-magic : Reads (expect_magic sixb_magic) sixb_magic tt
unfolding expect_magic
Reads-magic = record {
  at = λ bytes rest offset next at within small e.
      let t : Reads (take_bytes (length sixb_magic)) sixb_magic sixb_magic =
        Reads-take sixb_magic in
      rw (t.at bytes rest offset next at within small e) (rw (same_self sixb_magic));
}

pub Reads-All :
    {A : Type 0} (read : Read A) (write : A → List ℕ) (xs : List A)
    → All (λ x. Reads read (write x) x) xs
    → Reads (read_all read (length xs)) (write_all write xs) xs
unfolding read_all write_all
Reads-All read write [] h = Reads-done []
Reads-All read write (x ∷ xs) h = Reads-then read _ (write x) (write_all write xs) x (x ∷ xs) h.0 (
    Reads-map (read_all read (length xs)) (λ ys. x ∷ ys) (write_all write xs) xs
      (Reads-All read write xs h.1))
