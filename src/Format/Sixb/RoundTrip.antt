-- ===== src/Format/Sixb/RoundTrip.antt =====
-- A cache that is encoded is decoded to itself.
use native.Mathlib.Nat.{add-zero}
use sixpack.Prelude.{
  if◌then◌else◌, ℕ, ◌+◌, ◌^◌, ◌<◌, ◌%◌, List, [], ◌∷◌, ◌++◌, Bool, true, ◌==◌, length, ◌≡◌, refl,
  sym, arith, length-append, append-nil, subst, All,
}
use sixpack.Prelude.Outcome.{ok, err}
use sixpack.Prelude.Text.{Text, codes, is_empty}
use sixpack.Format.Error.{bad_sixb}
use sixpack.Format.Sixb.{
  SixbRowEntry, SixbLookupEntry, SixbCache, sixb_magic, sixb_binary_version, write_u32, write_u64,
  write_string, write_row, write_lookup, write_all, encode_sixb_cache,
}
use sixpack.Format.Sixb.Reader.{
  ◌then_read◌, take_bytes, expect_magic, read_u32, read_u64, read_all, from_utf8, read_string,
  read_row, read_lookup, read_cache, expect_eof, decode_sixb_cache_binary,
}
use sixpack.Format.Sixb.Reads.{
  Reads, Reads-then, Reads-map, Reads-u32, Reads-u64, Reads-count, Reads-magic, Reads-All,
  Reads-take,
}

module _ (is_utf8 : List ℕ → Bool) where
  -- a text whose length a `u32` holds
  abbrev pub IsShort : Text → Type 0
  IsShort s = (length s < 2 ^ 32) × (is_utf8 s ≡ true)

  pub record IsStorableRow (r : SixbRowEntry) : Type 0 where
    pub id : IsShort r.id
    pub chunk_name : IsShort r.ptr.chunk_name
    pub offset : r.ptr.offset < 2 ^ 64
    pub len : r.ptr.len < 2 ^ 32
    pub tx_id : r.ptr.tx_id < 2 ^ 64

  pub record IsStorableLookup (l : SixbLookupEntry) : Type 0 where
    pub field_name : IsShort l.field_name
    pub key : IsShort l.key
    pub id : IsShort l.id

  -- The widths that the format has room for.
  pub record IsStorable (c : SixbCache) : Type 0 where
    pub version : c.version ≡ sixb_binary_version
    pub table : IsShort c.table
    pub schema_hash : IsShort c.schema_hash
    pub source_hash : IsShort c.source_hash
    pub row_count : length c.rows < 2 ^ 32
    pub lookup_count : length c.lookups < 2 ^ 32
    pub rows : All IsStorableRow c.rows
    pub lookups : All IsStorableLookup c.lookups

  Reads-checked : (s : Text) → is_utf8 s ≡ true → Reads (from_utf8 is_utf8 s) [] s
  Reads-checked s h = record {
    at = λ bytes rest offset next at within small e. rw h (rw e (rw add-zero));
  }

  Reads-string : (s : Text) → IsShort s → Reads (read_string is_utf8) (write_string s) s
  unfolding read_string write_string
  Reads-string s h =
      Reads-then read_u32 (λ len. take_bytes len then_read from_utf8 is_utf8)
        (write_u32 (length s % 2 ^ 32)) s (length s) s (Reads-count (length s) h.0)
        (subst (λ e. Reads (take_bytes (length s) then_read from_utf8 is_utf8) e s) (append-nil s)
          (Reads-then (take_bytes (length s)) (from_utf8 is_utf8) s [] s s (Reads-take s)
            (Reads-checked s h.1)))

  Reads-lookup :
      (l : SixbLookupEntry) → IsStorableLookup l → Reads (read_lookup is_utf8) (write_lookup l) l
  unfolding read_lookup write_lookup
  Reads-lookup l h =
      Reads-then (read_string is_utf8) _ (write_string l.field_name) _ l.field_name l
        (Reads-string l.field_name h.field_name)
        (Reads-then (read_string is_utf8) _ (write_string l.key) _ l.key l
          (Reads-string l.key h.key)
          (Reads-map (read_string is_utf8)
            (λ id. record { field_name = l.field_name; key = l.key; id = id }) (write_string l.id)
            l.id (Reads-string l.id h.id)))

  Reads-row : (r : SixbRowEntry) → IsStorableRow r → Reads (read_row is_utf8) (write_row r) r
  unfolding read_row write_row
  Reads-row r h =
      Reads-then (read_string is_utf8) _ (write_string r.id) _ r.id r (Reads-string r.id h.id) (
        Reads-then (read_string is_utf8) _ (write_string r.ptr.chunk_name) _ r.ptr.chunk_name r
          (Reads-string r.ptr.chunk_name h.chunk_name)
          (Reads-then read_u64 _ (write_u64 r.ptr.offset) _ r.ptr.offset r
            (Reads-u64 r.ptr.offset h.offset)
            (Reads-then read_u32 _ (write_u32 r.ptr.len) _ r.ptr.len r (Reads-u32 r.ptr.len h.len) (
              Reads-map read_u64
                (λ tx_id. record { id = r.id; ptr = record r.ptr { tx_id = tx_id } })
                (write_u64 r.ptr.tx_id) r.ptr.tx_id (Reads-u64 r.ptr.tx_id h.tx_id)))))

  All-rows :
      (rs : List SixbRowEntry)
      → All IsStorableRow rs
      → All (λ r. Reads (read_row is_utf8) (write_row r) r) rs
  All-rows [] h = tt
  All-rows (r ∷ rs) h = (Reads-row r h.0, All-rows rs h.1)

  All-lookups :
      (ls : List SixbLookupEntry)
      → All IsStorableLookup ls
      → All (λ l. Reads (read_lookup is_utf8) (write_lookup l) l) ls
  All-lookups [] h = tt
  All-lookups (l ∷ ls) h = (Reads-lookup l h.0, All-lookups ls h.1)

  Reads-cache : (c : SixbCache) → IsStorable c → Reads (read_cache is_utf8) (encode_sixb_cache c) c
  unfolding read_cache encode_sixb_cache
  Reads-cache c h = Reads-then (expect_magic sixb_magic) _ sixb_magic _ tt c Reads-magic (
      Reads-then read_u32 _ (write_u32 sixb_binary_version) _ c.version c
        (subst (λ v. Reads read_u32 (write_u32 sixb_binary_version) v) (sym h.version)
          (Reads-u32 sixb_binary_version (omega arith)))
        (Reads-then (read_string is_utf8) _ (write_string c.table) _ c.table c
          (Reads-string c.table h.table)
          (Reads-then (read_string is_utf8) _ (write_string c.schema_hash) _ c.schema_hash c
            (Reads-string c.schema_hash h.schema_hash)
            (Reads-then (read_string is_utf8) _ (write_string c.source_hash) _ c.source_hash c
              (Reads-string c.source_hash h.source_hash)
              (Reads-then read_u32 _ (write_u32 (length c.rows % 2 ^ 32)) _ (length c.rows) c
                (Reads-count (length c.rows) h.row_count)
                (Reads-then (read_all (read_row is_utf8) (length c.rows)) _
                  (write_all write_row c.rows) _ c.rows c
                  (Reads-All (read_row is_utf8) write_row c.rows (All-rows c.rows h.rows))
                  (Reads-then read_u32 _ (write_u32 (length c.lookups % 2 ^ 32)) _
                    (length c.lookups) c (Reads-count (length c.lookups) h.lookup_count)
                    (Reads-map (read_all (read_lookup is_utf8) (length c.lookups))
                      (λ lookups. record c { lookups = lookups }) (write_all write_lookup c.lookups)
                      c.lookups
                      (Reads-All (read_lookup is_utf8) write_lookup c.lookups
                        (All-lookups c.lookups h.lookups))))))))))

is_empty-end : (n : ℕ) (rest : List ℕ) → (n == n + length rest) ≡ is_empty rest
is_empty-end n [] = ground arith
is_empty-end n (b ∷ rest) = ground arith

module _ (is_utf8 : List ℕ → Bool) (c : SixbCache) (rest : List ℕ) where
  -- Let a cache carry the current version, texts that are UTF-8, and lengths, counts and numbers
  -- within the widths of the format, and let the file be shorter than 2^64 bytes. The encoded
  -- bytes decode to the cache, and with any further bytes behind them they are refused.
  pub decode-encode_sixb_cache :
      IsStorable is_utf8 c
      → length (encode_sixb_cache c ++ rest) < 2 ^ 64
      → decode_sixb_cache_binary is_utf8 (encode_sixb_cache c ++ rest)
        ≡ (if is_empty rest then ok c else err (bad_sixb (codes "trailing SIXB bytes")))
  unfolding decode_sixb_cache_binary expect_eof
  decode-encode_sixb_cache h small =
      let reads : Reads (read_cache is_utf8) (encode_sixb_cache c) c = Reads-cache is_utf8 c h in
      rw
        (reads.at (encode_sixb_cache c ++ rest) rest 0 (length (encode_sixb_cache c)) refl
          (omega arith) small (omega arith))
        (rw (length-append (encode_sixb_cache c) rest)
          (ground (arith, is_empty-end (length (encode_sixb_cache c)) rest)))
