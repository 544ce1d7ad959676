-- ===== src/Store/Append/Tests.antt =====
-- A row inserted into an empty table.
use sixpack.Prelude.{
  ℕ, ◌+◌, ◌≤◌, [], ◌∷◌, ◌++◌, List, Bool, true, none, some, ◌≡◌, refl, arith, length,
}
use sixpack.Prelude.Outcome.{ok}
use sixpack.Prelude.Order.{list_cmp, pair_ord}
use sixpack.Prelude.Text.{Text, text_ord, codes}
use sixpack.Prelude.Decimal.{u64_max}
use sixpack.Prelude.Map.{get, get-cons, get-nil, insert, remove, contains_key}
use sixpack.Core.Tests.{users, users_db, users_db-IsValid, ada, ada-IsSorted}
use sixpack.Core.Schema.Signature.{schema_hash, schema_hash_total}
use sixpack.Format.Preamble.{encode_six_preamble}
use sixpack.Format.Lines.{read_lines}
use sixpack.Format.Tests.{nat_float, ada-Readable}
use sixpack.Store.Batch.{AppendResult, AppendOperation, WriteBatch, WriteBatchMode, append_put}
use sixpack.Store.Scan.{Scanned, scan_chunks}
use sixpack.Store.Scan.Header.{AreUtf8}
use sixpack.Format.Operation.{Operation}
use sixpack.Hash.{source_hash, fnv, hex16}
use sixpack.Store.Runtime.Has.{has_id}
use sixpack.Store.Runtime.Lookups.{ids_at}
use sixpack.Store.Append.Encoded.{ArePrintable}
use sixpack.Store.Append.Mirror.{records}
use sixpack.Store.Append.Stored.{IsStored}
use sixpack.Store.Append.Preserved.{Appended, append_batch_inner-IsStored}
use sixpack.Store.Append.{TableStore, append_batch_inner}

abbrev ada_batch : WriteBatch ℕ
ada_batch = record {
  table = codes "users";
  mode = WriteBatchMode.insert_only;
  operations = append_put ada ∷ [];
}

abbrev empty_store : TableStore ℕ
empty_store = record {
  files = [];
  chunk_cache = [];
  chunk_len_cache = [];
  runtime_sixb = record {
    version = 2;
    table = codes "users";
    schema_hash = [];
    source_hash = codes "cbf29ce484222325";
    rows_by_id = [];
    lookup_ids = [];
    row_lookup_keys = [];
  };
  row_cache = [];
  next_tx = 1;
  next_chunk = 0;
}

abbrev users_hash : Text
users_hash = codes "e5a1ef4cc8394b17"

abbrev ada_file : Text
ada_file =
    codes "SIX\t1\ttable\tusers\te5a1ef4cc8394b17\n@field\tid\tid\n@field\tage\tint\n"
    ++ codes "@lookup\tid\tunique\n@lookup\tage\tmany\n@data\nR\t1\ta\\t1\t36\n"

abbrev one_key : Text → List (Text × Unit {0})
one_key id = (id, tt) ∷ []

abbrev ada_store : TableStore ℕ
ada_store = record {
  files = (codes "zzz.6", ada_file) ∷ [];
  chunk_cache = (codes "zzz.6", ada_file) ∷ [];
  chunk_len_cache = (codes "zzz.6", 116) ∷ [];
  runtime_sixb = record {
    version = 2;
    table = codes "users";
    schema_hash = users_hash;
    source_hash = codes "1d8a4f81e6d51282";
    rows_by_id =
        (codes "a\t1", record { chunk_name = codes "zzz.6"; offset = 104; len = 12; tx_id = 1 })
        ∷ [];
    lookup_ids =
        ((codes "age", codes "36"), one_key (codes "a\t1"))
        ∷ ((codes "id", codes "a\t1"), one_key (codes "a\t1"))
        ∷ [];
    row_lookup_keys =
        (codes "a\t1", (codes "id", codes "a\t1") ∷ (codes "age", codes "36") ∷ []) ∷ [];
  };
  row_cache = (codes "a\t1", ada) ∷ [];
  next_tx = 2;
  next_chunk = 1;
}

abbrev ada_results : List AppendResult
ada_results = record { tx_id = 1; operation = Operation.put; bytes_written = 12 } ∷ []

ada-appended : append_batch_inner users_db ada_batch empty_store ≡ ok (ada_results, ada_store)
unfolding append_batch_inner sixpack.Store.Append.append_operations get list_cmp
    sixpack.Store.Append.validate_batch sixpack.Store.Batch.validate_storage_operation
    sixpack.Core.Schema.Database.validate_record contains_key
    sixpack.Core.Schema.Database.check_present sixpack.Core.Schema.Database.check_values
    sixpack.Core.Value.matches_value sixpack.Store.Keys.record_id sixpack.Store.Runtime.has_row
    sixpack.Store.Append.encode_batch sixpack.Store.Unique.validate_put_unique_lookup_conflicts
    sixpack.Store.Unique.check_lookups_of sixpack.Core.Schema.Table.lookup_specs_with_implicit_id
    sixpack.Core.Error.display schema_hash sixpack.Core.Value.type_name
    sixpack.Core.Value.value_type sixpack.Format.Escape.escape_char
    sixpack.Format.Escape.escape_six_value sixpack.Format.Lines.ended_lines
    sixpack.Format.Operation.encode_six_operation encode_six_preamble
    sixpack.Format.Preamble.field_lines sixpack.Format.Preamble.lookup_lines
    sixpack.Format.Preamble.magic_line sixpack.Format.Preamble.shape_lines
    sixpack.Format.Row.encode_columns sixpack.Format.Row.encode_six_row
    sixpack.Format.Row.value_to_string sixpack.Format.Split.join sixpack.Hash.extend_source_hash fnv
    sixpack.Hash.from_hex hex16 sixpack.Hash.hex_digits sixpack.Prelude.Decimal.print_int
    sixpack.Prelude.Decimal.print_nat insert remove sixpack.Store.Append.append_bytes
    sixpack.Store.Append.append_hash_bytes sixpack.Store.Append.append_len
    sixpack.Store.Append.append_target sixpack.Store.Append.apply_batch
    sixpack.Store.Append.commit_batch sixpack.Store.Append.forget_chunk
    sixpack.Store.Append.remember_chunk sixpack.Store.Append.remember_rows
    sixpack.Store.Append.set_chunk_len sixpack.Store.Append.target_at sixpack.Store.Append.target_in
    sixpack.Store.Append.write_chunk sixpack.Store.Chunk.base36_digits
    sixpack.Store.Chunk.chunk_path sixpack.Store.Chunk.encode_fixed_base36
    sixpack.Store.Chunk.encode_reverse_base36 sixpack.Store.Keys.record_keys
    sixpack.Store.Keys.value_to_lookup_key sixpack.Store.Runtime.Lookups.add_id ids_at
    sixpack.Store.Runtime.Lookups.remove_everywhere sixpack.Store.Runtime.Lookups.remove_key
    sixpack.Store.Runtime.apply_operation sixpack.Store.Runtime.first_lookup_id
    sixpack.Store.Runtime.insert_keys sixpack.Store.Runtime.insert_record_lookups
    sixpack.Store.Runtime.remove_keys sixpack.Store.Runtime.remove_lookup_id_slow
    sixpack.Store.Runtime.remove_lookup_keys sixpack.Store.Runtime.remove_record_lookups
    sixpack.Store.Runtime.remove_remembered_lookups sixpack.Store.Runtime.remove_row_for_validation
    sixpack.Store.Scan.hashed sixpack.Store.Unique.check_key sixpack.Core.Schema.Signature.signature
    sixpack.Core.Schema.Signature.hash_tables sixpack.Core.Schema.Signature.field_part
    sixpack.Core.Schema.Signature.lookup_part sixpack.Hash.fnv_step sixpack.Hash.unhex
    sixpack.Hash.scan_hex
ada-appended = refl

abbrev any_text : Text → Bool
any_text s = true

abbrev nothing_scanned : Scanned ℕ
nothing_scanned = record { live = []; hash_bytes = [] }

empty_store-IsStored : IsStored any_text users users_hash nothing_scanned empty_store
unfolding scan_chunks get source_hash fnv hex16 has_id ids_at contains_key records
empty_store-IsStored = record {
  scanned = refl;
  last = refl;
  mirror = record {
    exact = record {
      sorted = tt;
      rows = λ j. refl;
      keyed = λ j r e. absurd (cc);
      exact = λ q j. refl;
      remembered = λ j ks e. absurd (cc);
    };
    pointers = λ j. refl;
  };
  source = refl;
  remembered = λ j r e. absurd (cc);
  lens = λ n len e. absurd (cc);
  chunks = λ n c e. absurd (cc);
}

users_hash-made : schema_hash users_db ≡ ok users_hash
unfolding schema_hash sixpack.Core.Schema.Signature.signature
    sixpack.Core.Schema.Signature.hash_tables sixpack.Core.Schema.Signature.field_part
    sixpack.Core.Schema.Signature.lookup_part fnv sixpack.Hash.fnv_step hex16
    sixpack.Hash.hex_digits get list_cmp sixpack.Core.Value.type_name
    sixpack.Core.Schema.Table.lookup_specs_with_implicit_id
users_hash-made = refl

ada-ArePrintable : ArePrintable any_text users ada_batch.operations
ada-ArePrintable = (
  record { sorted = λ e. ada-IsSorted; readable = λ e. ada-Readable; utf8 = λ tx line e. refl },
  tt,
)

all_utf8 : (ls : List Text) → AreUtf8 any_text ls
all_utf8 [] = tt
all_utf8 (l ∷ ls) = (refl, all_utf8 ls)

ada_file-short : (n c : Text) → get n ada_store.files ≡ some c → length c ≤ u64_max
ada_file-short n c e = ground (arith, get-cons (codes "zzz.6") n ada_file [], get-nil {V = Text} n)

append_batch_inner-IsStored_example :
    Appended any_text users users_hash ada_batch.operations nothing_scanned ada_store
append_batch_inner-IsStored_example =
    append_batch_inner-IsStored any_text users users_hash users_db ada_batch nothing_scanned
      empty_store ada_store ada_results users_db-IsValid.0 users_db-IsValid.1 users_hash-made
      ada-ArePrintable (λ p e. all_utf8 (read_lines p)) (omega arith) empty_store-IsStored
      ada_file-short ada-appended
