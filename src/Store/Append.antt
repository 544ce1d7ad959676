-- ===== src/Store/Append.antt =====
-- packages/sixpack-store/src/store/append.rs: appending a batch to the chunk files of one table,
-- with the caches of cache.rs that belong to it. The layout of directories and the metadata file
-- are left out; a write to a file is taken to succeed.
pub mod Checked
pub mod Encoded
pub mod Mirror
pub mod Applied
pub mod Files
pub mod Stored
pub mod Chunks
pub mod Placing
pub mod Remembered
pub mod Committed
pub mod Preserved
mod Tests
use sixpack.Prelude.{
  ℕ, zero, suc, ◌+◌, ◌-◌, ◌*◌, ◌%◌, ◌^◌, List, [], ◌∷◌, ◌++◌, Bool, true, false, Option, none, some,
  ◌&&◌, not, length, leb, ltb, min, is_some, if◌then◌else◌,
}
use sixpack.Prelude.Outcome.{
  Outcome, ok, err, ◌>>=◌, ◌>>◌, ok_or, ensure, Fault, panic, fault, map_err, may_fail, may_panic,
}
use sixpack.Prelude.Text.{Text, text_ord, codes, is_empty}
use sixpack.Prelude.Map.{Map, Keys, empty, get, contains_key, insert, remove}
use sixpack.Core.Value.{FloatText}
use sixpack.Core.Record.{Record}
use sixpack.Core.Schema.Table.{TableSchema}
use sixpack.Core.Schema.Database.{DatabaseSchema, table}
use sixpack.Core.Schema.Signature.{schema_hash}
use sixpack.Hash.{BadHash, extend_source_hash}
use sixpack.Format.Error.{FormatError}
use sixpack.Format.Escape.{newline}
use sixpack.Format.Lines.{ends_line}
use sixpack.Format.Lines.Cut.{complete_len, cut}
use sixpack.Format.Operation.{Operation, encode_six_operation}
use sixpack.Format.Preamble.{encode_six_preamble}
use sixpack.Format.Sixb.{RowPointer, sixb_binary_version}
use sixpack.Store.Error.{IoError, io_error, ErrorKind, StoreError}
use sixpack.Store.Keys.{Key, record_id}
use sixpack.Store.Chunk.{chunk_path}
use sixpack.Store.Runtime.{RuntimeSixb, has_row, remove_row_for_validation, apply_operation}
use sixpack.Store.Unique.{validate_put_unique_lookup_conflicts}
use sixpack.Store.Batch.{
  AppendResult, WriteBatchMode, AppendOperation, WriteBatch, validate_storage_operation,
}
use sixpack.Store.Scan.{store_error, hashed}

abbrev pub max_six_chunk_bytes : ℕ
max_six_chunk_bytes = 1024 * 1024

abbrev pub u64_limit : ℕ
u64_limit = 2 ^ 64

-- What the store holds of one table: its files, in the order of their names, and the caches of
-- their bytes, their lengths, the index and the rows.
pub record TableStore (F : Type 0) : Type 0 where
  pub files : Map Text Text
  pub chunk_cache : Map Text Text
  pub chunk_len_cache : Map Text ℕ
  pub runtime_sixb : RuntimeSixb
  pub row_cache : Map Text (Record F)
  pub next_tx : ℕ
  pub next_chunk : ℕ

pub record EncodedAppend (F : Type 0) : Type 0 where
  pub operation : Operation
  pub record_ : Record F
  pub tx_id : ℕ
  pub line : Text
  pub bytes_written : ℕ

pub record AppendTarget : Type 0 where
  pub chunk_name : Text
  pub row_offset : ℕ
  pub next_chunk : ℕ
  pub is_new : Bool

abbrev pub saturating_add : ℕ → ℕ → ℕ
saturating_add a b = min (a + b) (u64_limit - 1)

abbrev pub io_fault : Fault IoError → Fault StoreError
io_fault panic = panic
io_fault (fault e) = fault (StoreError.io e)

abbrev pub is_insert_only : WriteBatchMode → Bool
is_insert_only WriteBatchMode.insert_only = true
is_insert_only WriteBatchMode.upsert = false

abbrev refused : ErrorKind → Text → Fault StoreError
refused kind message = fault (StoreError.io (io_error kind message))

abbrev pub new_target : ℕ → ℕ → Outcome IoError AppendTarget
new_target preamble_len counter = do
  name ← chunk_path counter
  ok (record {
    chunk_name = name;
    row_offset = preamble_len;
    next_chunk = saturating_add counter 1;
    is_new = true;
  })

module _ {F : Type 0} where
  -- `set_chunk_len`, `remember_chunk` and `forget_chunk`
  unfoldable pub set_chunk_len : Text → ℕ → TableStore F → TableStore F
  set_chunk_len name len s = record s { chunk_len_cache = insert name len s.chunk_len_cache }

  unfoldable pub remember_chunk : Text → Text → TableStore F → TableStore F
  unfolding set_chunk_len
  remember_chunk name bytes s =
      set_chunk_len name (length bytes) (record s { chunk_cache = insert name bytes s.chunk_cache })

  unfoldable pub forget_chunk : Text → TableStore F → TableStore F
  forget_chunk name s = record s {
    chunk_cache = remove name s.chunk_cache;
    chunk_len_cache = remove name s.chunk_len_cache;
  }

  -- `read_chunk`: the bytes from the cache, or from the file, which is then remembered
  unfoldable pub read_chunk : Text → TableStore F → Outcome IoError (Text × TableStore F)
  read_chunk name s = elim (get name s.chunk_cache) [
    | some bytes ↦ ok (bytes, s)
    | none ↦ (do
      bytes ←
          ok_or (io_error ErrorKind.not_found (codes "No such file or directory"))
            (get name s.files)
      ok (bytes, remember_chunk name bytes s))
  ]

  abbrev pub known_len : Text → Text → TableStore F → ℕ
  known_len name content s = elim (get name s.chunk_len_cache) [
    | some len ↦ len
    | none ↦ length content
  ]

  -- the last chunk when it exists and has room
  unfoldable pub target_in :
      ℕ → ℕ → TableStore F → ℕ → Text → Option Text → Outcome IoError (AppendTarget × TableStore F)
  target_in append_len preamble_len s counter name none = do
    target ← new_target preamble_len (suc counter)
    ok (target, s)
  target_in append_len preamble_len s counter name (some content) =
      let len = known_len name content s in
      let s' = set_chunk_len name len s in
      let fresh = (do target ← new_target preamble_len (suc counter); ok (target, s')) in
      if leb (saturating_add len append_len) max_six_chunk_bytes
      then ok (
        record { chunk_name = name; row_offset = len; next_chunk = suc counter; is_new = false },
        s',
      )
      else fresh

  unfoldable pub target_at :
      ℕ → ℕ → TableStore F → ℕ → Outcome IoError (AppendTarget × TableStore F)
  target_at append_len preamble_len s zero = do target ← new_target preamble_len 0; ok (target, s)
  target_at append_len preamble_len s (suc counter) = do
    name ← chunk_path counter
    target_in append_len preamble_len s counter name (get name s.files)

  -- the target, with the length that is remembered
  unfoldable pub append_target :
      ℕ → ℕ → TableStore F → Outcome IoError (AppendTarget × TableStore F)
  append_target append_len preamble_len s = target_at append_len preamble_len s s.next_chunk

  -- the part of the last chunk behind its last newline is cut off
  unfoldable pub truncate_incomplete_tail : TableStore F → TableStore F
  truncate_incomplete_tail s = elim s.files [
    | [] ↦ s
    | (name, content) ∷ older ↦
        if is_empty content
        then s
        else if ends_line content
        then s
        else set_chunk_len name (complete_len content)
            (forget_chunk name (record s { files = (name, cut content) ∷ older }))
  ]

  unfoldable pub ensure_complete_tail : TableStore F → Outcome IoError (Unit {0})
  ensure_complete_tail s = elim s.files [
    | [] ↦ ok tt
    | (name, content) ∷ older ↦
        if is_empty content
        then ok tt
        else if ends_line content
        then ok tt
        else err (
            io_error ErrorKind.invalid_data
              (codes "incomplete .6 tail in clean workspace: " ++ name))
  ]

  -- the bytes that are written, and the bytes that are hashed
  unfoldable pub append_bytes : List (EncodedAppend F) → Text
  append_bytes [] = []
  append_bytes (e ∷ es) = e.line ++ (newline ∷ append_bytes es)

  unfoldable pub append_hash_bytes : Text → List (EncodedAppend F) → List ℕ
  append_hash_bytes chunk_name [] = []
  append_hash_bytes chunk_name (e ∷ es) =
      hashed chunk_name (e.line ++ (newline ∷ [])) ++ append_hash_bytes chunk_name es

  unfoldable pub append_len : List (EncodedAppend F) → ℕ
  append_len [] = 0
  append_len (e ∷ es) = e.bytes_written + append_len es

  -- the file is made, or is appended to
  unfoldable pub write_chunk :
      AppendTarget → Text → Text → ℕ → TableStore F → Outcome (Fault StoreError) (TableStore F)
  write_chunk target preamble bytes len s = elim (get target.chunk_name s.files) [
    | none ↦
        if target.is_new
        then ok (
            remember_chunk target.chunk_name (preamble ++ bytes)
              (record s { files = insert target.chunk_name (preamble ++ bytes) s.files }))
        else err (refused ErrorKind.not_found (codes "No such file or directory"))
    | some content ↦
        if target.is_new
        then err (refused ErrorKind.already_exists (codes "File exists"))
        else ok (
            forget_chunk target.chunk_name (
              set_chunk_len target.chunk_name (target.row_offset + len)
                (record s { files = insert target.chunk_name (content ++ bytes) s.files })))
  ]

module _ {F : Type 0} ⦃float : FloatText F⦄ where
  -- the first loop: the index without the rows that the batch touches
  unfoldable pub validate_batch :
      DatabaseSchema
      → TableSchema
      → WriteBatchMode
      → RuntimeSixb
      → List (AppendOperation F)
      → RuntimeSixb
      → Outcome (Fault StoreError) RuntimeSixb
  validate_batch schema t mode cache [] validation = ok validation
  validate_batch schema t mode cache (append ∷ rest) validation = do
    map_err io_fault (validate_storage_operation schema t append)
    id ← store_error (record_id append.record_)
    ensure (not (is_insert_only mode && has_row id cache)) (
        refused ErrorKind.already_exists
          (codes "row `" ++ (id ++ (codes "` already exists in `" ++ (t.name ++ codes "`")))))
    validate_batch schema t mode cache rest (remove_row_for_validation id validation)

  -- only a put is checked
  abbrev check_operation :
      TableSchema → RuntimeSixb → AppendOperation F → Map Key Text → Outcome IoError (Map Key Text)
  check_operation t validation append unique = elim append.operation [
    | Operation.put ↦ validate_put_unique_lookup_conflicts t validation append.record_ unique
    | Operation.delete ↦ ok unique
  ]

  -- the second loop, with the ids and the unique keys of the batch so far
  unfoldable pub encode_batch :
      TableSchema
      → RuntimeSixb
      → ℕ
      → ℕ
      → List (AppendOperation F)
      → Keys Text
      → Map Key Text
      → Outcome (Fault StoreError) (List (EncodedAppend F))
  encode_batch t validation tx_start index [] ids unique = ok []
  encode_batch t validation tx_start index (append ∷ rest) ids unique = do
    id ← store_error (record_id append.record_)
    ensure (not (contains_key id ids)) (
        refused ErrorKind.invalid_input
          (codes "write batch touches row `" ++ (id ++ codes "` more than once")))
    unique' ← store_error (check_operation t validation append unique)
    let tx_id = (tx_start + index) % u64_limit
    line ←
        may_fail
          (map_err StoreError.format (encode_six_operation t append.operation tx_id append.record_))
    encoded ← encode_batch t validation tx_start (suc index) rest (insert id tt ids) unique'
    ok (
        record {
          operation = append.operation;
          record_ = append.record_;
          tx_id = tx_id;
          line = line;
          bytes_written = length line + 1;
        }
        ∷ encoded)

  -- the third loop: the index and the results
  unfoldable pub apply_batch :
      TableSchema
      → Text
      → ℕ
      → Map Text (Record F)
      → List (EncodedAppend F)
      → RuntimeSixb
      → Outcome (Fault StoreError) (RuntimeSixb × List AppendResult)
  apply_batch t chunk_name offset rows [] cache = ok (cache, [])
  apply_batch t chunk_name offset rows (e ∷ es) cache = do
    id ← store_error (record_id e.record_)
    let old_record = if has_row id cache then get id rows else none
    let ptr : RowPointer = record {
      chunk_name = chunk_name;
      offset = offset;
      len = e.bytes_written % 2 ^ 32;
      tx_id = e.tx_id;
    }
    cache' ← store_error (apply_operation t e.operation e.record_ ptr old_record cache)
    rest ← apply_batch t chunk_name (saturating_add offset e.bytes_written) rows es cache'
    ok (
      rest.0,
      record { tx_id = e.tx_id; operation = e.operation; bytes_written = e.bytes_written } ∷ rest.1,
    )

  -- the loop over the row cache
  unfoldable pub remember_rows :
      List (EncodedAppend F) → Map Text (Record F) → Outcome IoError (Map Text (Record F))
  remember_rows [] rows = ok rows
  remember_rows (e ∷ es) rows = do
    id ← record_id e.record_
    elim e.operation [
      | Operation.put ↦ remember_rows es (insert id e.record_ rows)
      | Operation.delete ↦ remember_rows es (remove id rows)
    ]

  -- from the choice of the file on, under the schema hash
  unfoldable pub commit_batch :
      TableSchema
      → Text
      → List (EncodedAppend F)
      → TableStore F
      → Outcome (Fault StoreError) (List AppendResult × TableStore F)
  commit_batch t hash encoded s = do
    preamble ← may_panic (encode_six_preamble t hash)
    placed ← store_error (append_target (append_len encoded) (length preamble) s)
    let target = placed.0
    applied ← apply_batch t target.chunk_name target.row_offset s.row_cache encoded s.runtime_sixb
    source ← may_fail (
        map_err StoreError.hash
          (extend_source_hash applied.0.source_hash (append_hash_bytes target.chunk_name encoded)))
    written ← write_chunk target preamble (append_bytes encoded) (append_len encoded) placed.1
    rows ← store_error (remember_rows encoded s.row_cache)
    ok (
      applied.1,
      record written {
        runtime_sixb = record applied.0 {
          source_hash = source;
          version = sixb_binary_version;
          table = t.name;
          schema_hash = hash;
        };
        row_cache = rows;
        next_tx = (s.next_tx + length encoded) % u64_limit;
        next_chunk = target.next_chunk;
      },
    )

  unfoldable pub append_operations :
      DatabaseSchema
      → Text
      → WriteBatchMode
      → List (AppendOperation F)
      → TableStore F
      → Outcome (Fault StoreError) (List AppendResult × TableStore F)
  append_operations schema name mode [] s = ok ([], s)
  append_operations schema name mode (first ∷ rest) s = do
    t ← ok_or (refused ErrorKind.invalid_input (codes "unknown table")) (table name schema)
    validation ← validate_batch schema t mode s.runtime_sixb (first ∷ rest) s.runtime_sixb
    encoded ← encode_batch t validation s.next_tx 0 (first ∷ rest) empty empty
    hash ← may_panic (schema_hash schema)
    commit_batch t hash encoded s

  unfoldable pub append_batch_inner :
      DatabaseSchema
      → WriteBatch F
      → TableStore F
      → Outcome (Fault StoreError) (List AppendResult × TableStore F)
  append_batch_inner schema batch s =
      append_operations schema batch.table batch.mode batch.operations s
