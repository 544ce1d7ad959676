-- ===== src/Format/Sixb/Reader.antt =====
-- The `BinaryReader` and `decode_sixb_cache_binary` of
-- packages/sixpack-format/src/format/sixb.rs. A reader is its bytes and its offset; each read
-- returns the new reader.
use sixpack.Prelude.{
  ℕ, zero, suc, ◌+◌, ◌^◌, List, [], ◌∷◌, Bool, not, length, ltb, ◌==◌, if◌then◌else◌, take, drop,
}
use sixpack.Prelude.Outcome.{Outcome, ok, err, ◌>>=◌, ◌>>◌, ensure}
use sixpack.Prelude.Order.{same}
use sixpack.Prelude.Text.{Text, text_ord, codes}
use sixpack.Format.Error.{FormatError, bad_sixb}
use sixpack.Format.Sixb.{SixbRowEntry, SixbLookupEntry, SixbCache, sixb_magic}
use sixpack.Format.Sixb.Ints.{from_le_bytes}

pub record BinaryReader : Type 0 where
  pub bytes : List ℕ
  pub offset : ℕ

-- a read returns what it read and the reader behind it
abbrev pub Read : Type 0 → Type 0
Read A = BinaryReader → Outcome FormatError (A × BinaryReader)

infixl 5 ◌then_read◌
abbrev pub ◌then_read◌ : {A B : Type 0} → Read A → (A → Read B) → Read B
(m then_read f) r = m r >>= λ (a, r'). f a r'

abbrev pub done : {A : Type 0} → A → Read A
done a r = ok (a, r)

-- `usize` has 64 bits
unfoldable pub take_bytes : ℕ → Read (List ℕ)
take_bytes len r =
    if not (ltb (r.offset + len) (2 ^ 64))
    then err (bad_sixb (codes "SIXB offset overflow"))
    else if ltb (length r.bytes) (r.offset + len)
    then err (bad_sixb (codes "truncated SIXB binary"))
    else ok (take len (drop r.offset r.bytes), record r { offset = r.offset + len })

unfoldable pub expect_magic : List ℕ → Read (Unit {0})
expect_magic magic r = do
  found ← take_bytes (length magic) r
  if same found.0 magic then ok (tt, found.1) else err (bad_sixb (codes "bad SIXB binary magic"))

unfoldable pub read_u32 : Read ℕ
read_u32 = take_bytes 4 then_read λ bytes. done (from_le_bytes bytes)

unfoldable pub read_u64 : Read ℕ
read_u64 = take_bytes 8 then_read λ bytes. done (from_le_bytes bytes)

unfoldable pub expect_eof : BinaryReader → Outcome FormatError (Unit {0})
expect_eof r = ensure (r.offset == length r.bytes) (bad_sixb (codes "trailing SIXB bytes"))

-- a loop that reads so many elements
unfoldable pub read_all : {A : Type 0} → Read A → ℕ → Read (List A)
read_all read zero = done []
read_all read (suc n) = read then_read λ x. read_all read n then_read λ xs. done (x ∷ xs)

-- `is_utf8` is what `String::from_utf8` accepts. The source adds the error of `from_utf8` to the
-- message.
module _ (is_utf8 : List ℕ → Bool) where
  abbrev pub from_utf8 : List ℕ → Read Text
  from_utf8 bytes r =
      if is_utf8 bytes then ok (bytes, r) else err (bad_sixb (codes "invalid utf-8 string"))

  unfoldable pub read_string : Read Text
  read_string = read_u32 then_read λ len. take_bytes len then_read from_utf8

  unfoldable pub read_row : Read SixbRowEntry
  read_row = read_string then_read λ id. read_string then_read λ chunk_name.
      read_u64 then_read λ offset. read_u32 then_read λ len. read_u64 then_read λ tx_id.
      done (record {
        id = id;
        ptr = record { chunk_name = chunk_name; offset = offset; len = len; tx_id = tx_id };
      })

  unfoldable pub read_lookup : Read SixbLookupEntry
  read_lookup = read_string then_read λ field_name. read_string then_read λ key.
      read_string then_read λ id. done (record { field_name = field_name; key = key; id = id })

  unfoldable pub read_cache : Read SixbCache
  read_cache = expect_magic sixb_magic then_read λ _. read_u32 then_read λ version.
      read_string then_read λ table. read_string then_read λ schema_hash.
      read_string then_read λ source_hash. read_u32 then_read λ row_count.
      read_all read_row row_count then_read λ rows. read_u32 then_read λ lookup_count.
      read_all read_lookup lookup_count then_read λ lookups. done (record {
        version = version;
        table = table;
        schema_hash = schema_hash;
        source_hash = source_hash;
        rows = rows;
        lookups = lookups;
      })

  unfoldable pub decode_sixb_cache_binary : List ℕ → Outcome FormatError SixbCache
  decode_sixb_cache_binary bytes = do
    found ← read_cache (record { bytes = bytes; offset = 0 })
    expect_eof found.1
    ok found.0
