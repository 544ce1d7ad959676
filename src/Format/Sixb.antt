-- ===== src/Format/Sixb.antt =====
-- The binary `.6b` cache of packages/sixpack-format/src/format/sixb.rs. Bytes are numbers below
-- 256; `from_utf8` is the standard library's check, a parameter of the reader.
pub mod Ints
pub mod Reader
mod Reads
pub mod RoundTrip
use sixpack.Prelude.{
  ℕ, zero, suc, ◌+◌, ◌*◌, ◌/◌, ◌%◌, ◌^◌, ◌<◌, List, [], ◌∷◌, ◌++◌, Bool, true, false, length, ltb,
  ◌==◌, if◌then◌else◌, take, drop,
}
use sixpack.Prelude.Outcome.{Outcome, ok, err, ◌>>=◌, ensure}
use sixpack.Prelude.Text.{Text, codes}

pub record RowPointer : Type 0 where
  pub chunk_name : Text
  pub offset : ℕ
  pub len : ℕ
  pub tx_id : ℕ

pub record SixbRowEntry : Type 0 where
  pub id : Text
  pub ptr : RowPointer

pub record SixbLookupEntry : Type 0 where
  pub field_name : Text
  pub key : Text
  pub id : Text

pub record SixbCache : Type 0 where
  pub version : ℕ
  pub table : Text
  pub schema_hash : Text
  pub source_hash : Text
  pub rows : List SixbRowEntry
  pub lookups : List SixbLookupEntry

abbrev pub sixb_binary_version : ℕ
sixb_binary_version = 2

abbrev pub sixb_magic : List ℕ
sixb_magic = codes "SIXB" ++ (0 ∷ [])

-- `to_le_bytes` of a word of so many bytes
unfoldable pub le_bytes : ℕ → ℕ → List ℕ
le_bytes zero v = []
le_bytes (suc w) v = (v % 256) ∷ le_bytes w (v / 256)

abbrev pub write_u32 : ℕ → List ℕ
write_u32 = le_bytes 4

abbrev pub write_u64 : ℕ → List ℕ
write_u64 = le_bytes 8

-- `value.len() as u32` keeps the low 32 bits
unfoldable pub write_string : Text → List ℕ
write_string s = write_u32 (length s % 2 ^ 32) ++ s

unfoldable pub write_row : SixbRowEntry → List ℕ
write_row r =
    write_string r.id
    ++ (write_string r.ptr.chunk_name
        ++ (write_u64 r.ptr.offset ++ (write_u32 r.ptr.len ++ write_u64 r.ptr.tx_id)))

unfoldable pub write_lookup : SixbLookupEntry → List ℕ
write_lookup l = write_string l.field_name ++ (write_string l.key ++ write_string l.id)

-- a loop that writes one element after another
unfoldable pub write_all : {A : Type 0} → (A → List ℕ) → List A → List ℕ
write_all write [] = []
write_all write (x ∷ xs) = write x ++ write_all write xs

-- The version that is written is the current one, whatever the cache holds.
unfoldable pub encode_sixb_cache : SixbCache → List ℕ
encode_sixb_cache c =
    sixb_magic
    ++ (write_u32 sixb_binary_version
        ++ (write_string c.table
            ++ (write_string c.schema_hash
                ++ (write_string c.source_hash
                    ++ (write_u32 (length c.rows % 2 ^ 32)
                        ++ (write_all write_row c.rows
                            ++ (write_u32 (length c.lookups % 2 ^ 32)
                                ++ write_all write_lookup c.lookups)))))))
