-- ===== src/Store/Append/Placing.antt =====
-- The write of a batch at its place: the files behind it, and what is remembered of them.
use Prim.Native.Nat.Ordering.{lt}
use sixpack.Prelude.{
  ℕ, suc, ◌+◌, ◌≤◌, List, [], ◌∷◌, ◌++◌, Bool, true, false, some, ◌≡◌, refl, arith, All, ap, ◌∙◌,
  sym, subst, length, length-append,
}
use sixpack.Prelude.Outcome.{ok}
use sixpack.Prelude.Order.{same, same_self}
use sixpack.Prelude.Text.{Text, text_ord, is_empty}
use sixpack.Prelude.Decimal.{u64_max}
use sixpack.Prelude.Map.{Map, get, insert, get-insert_self, get-cons}
use sixpack.Core.Value.{FloatText}
use sixpack.Core.Schema.Table.{TableSchema}
use sixpack.Format.Lines.{is_complete-append, ended_lines}
use sixpack.Store.Chunk.{chunk_path, chunk_path-order}
use sixpack.Format.Lines.{read_lines}
use sixpack.Format.Preamble.{encode_six_preamble, magic_line}
use sixpack.Format.Preamble.Valid.{IsHash, PreambleOf, PreambleOf-encoded}
use sixpack.Store.Scan.{Scanned, scan_chunks, apply_entries}
use sixpack.Store.Scan.Header.{AreUtf8, encode_six_preamble-scanned}
use sixpack.Store.Append.Files.{scan_chunks-extended, scan_chunks-new}
use sixpack.Store.Scan.Written.{entries_of}
use sixpack.Store.Append.{
  TableStore, AppendTarget, EncodedAppend, set_chunk_len, write_chunk, append_bytes, append_len,
}
use sixpack.Store.Append.Encoded.{IsEncoded}
use sixpack.Store.Append.Mirror.{written_of}
use sixpack.Store.Append.Stored.{
  IsLast, IsLens, IsChunks, len_of, Placed, at_end, first_file, next_file, IsStored,
  chunk_path-bound,
}
use sixpack.Store.Append.Chunks.{
  append_bytes-ended_lines, append_bytes_complete, append_len-length, written_of-IsWritten,
  insert_same, insert_below, insert_first, IsWrittenTo, set_chunk_len-IsLens, created, appended,
}

-- a new file comes before the last one in name order
names_descend :
    (counter : ℕ) (last name : Text)
    → chunk_path counter ≡ ok last
    → chunk_path (suc counter) ≡ ok name
    → text_ord.cmp name last ≡ lt
names_descend counter last name path path' =
    let (p, q, e, f, below) =
      chunk_path-order counter (suc counter) (omega arith)
        (chunk_path-bound (suc counter) name path') in
    let same_last : p ≡ last = ground arith in
    let same_name : q ≡ name = ground arith in rw (← same_last, ← same_name) below

get_first :
    (name content : Text) (older files : Map Text Text)
    → files ≡ (name, content) ∷ older
    → get name files ≡ some content
get_first name content older files e =
    ap (get name) e ∙ get-cons name name content older ∙ ground (arith, same_self name)

is_empty-append : (a b : Text) → is_empty a ≡ false → is_empty (a ++ b) ≡ false
is_empty-append [] b h = absurd (cc)
is_empty-append (c ∷ a) b h = refl

preamble-ne-nil :
    (t : TableSchema) (hash preamble : Text)
    → encode_six_preamble t hash ≡ ok preamble
    → is_empty preamble ≡ false
unfolding ended_lines magic_line
preamble-ne-nil t hash preamble e =
    let d : PreambleOf t hash preamble = PreambleOf-encoded t hash preamble e in ap is_empty d.whole

module _ (is_utf8 : Text → Bool) {F : Type 0} ⦃float : FloatText F⦄ (t : TableSchema)
    (hash : Text) where
  -- the files behind the write
  pub record Filed (acc' : Scanned F) (next_chunk : ℕ) (written : TableStore F) : Type 0 where
    pub scanned : scan_chunks is_utf8 t hash written.files ≡ ok acc'
    pub last : IsLast next_chunk written.files
    pub lens : IsLens written.files written.chunk_len_cache
    pub chunks : IsChunks written.files written.chunk_cache

  module _ (acc acc' : Scanned F) (s : TableStore F) (i : IsStored is_utf8 t hash acc s)
      (es : List (EncodedAppend F)) (h : All (IsEncoded is_utf8 t) es) where
    Filed-at_end :
        (name content preamble : Text) (older : Map Text Text) (counter : ℕ)
        (written : TableStore F)
        → s.files ≡ (name, content) ∷ older
        → chunk_path counter ≡ ok name
        → write_chunk
            (record {
              chunk_name = name;
              row_offset = length content;
              next_chunk = suc counter;
              is_new = false;
            })
            preamble
            (append_bytes es)
            (append_len es)
            (set_chunk_len name (length content) s)
          ≡ ok written
        → apply_entries name (entries_of name (length content) (written_of es)) acc ≡ ok acc'
        → Filed acc' (suc counter) written
    Filed-at_end name content preamble older counter written e path w applied =
        let (c, next, path', complete, some_byte) = subst (IsLast s.next_chunk) e i.last in
        let s1 = set_chunk_len name (length content) s in
        let files1 : s1.files ≡ (name, content) ∷ older = unfold set_chunk_len in e in
        let found : get name s1.files ≡ some content =
          get_first name content older s1.files files1 in
        let d : IsWrittenTo s1 written name (content ++ append_bytes es) =
          appended
            (record {
              chunk_name = name;
              row_offset = length content;
              next_chunk = suc counter;
              is_new = false;
            })
            preamble (append_bytes es) content (append_len es) s1 written refl found w in
        let files : written.files ≡ (name, content ++ append_bytes es) ∷ older =
          d.files
          ∙ ap (insert name (content ++ append_bytes es)) files1
          ∙ insert_same name content (content ++ append_bytes es) older in
        record {
          scanned =
              subst (λ fs. scan_chunks is_utf8 t hash fs ≡ ok acc')
                (sym (files ∙ ap (λ b. (name, content ++ b) ∷ older) (append_bytes-ended_lines es)))
                (scan_chunks-extended is_utf8 t hash name content older (written_of es) acc acc'
                  complete some_byte (written_of-IsWritten is_utf8 t es h)
                  (subst (λ fs. scan_chunks is_utf8 t hash fs ≡ ok acc) e i.scanned) applied);
          last = subst (IsLast (suc counter)) (sym files) (
            counter,
            refl,
            path,
            is_complete-append content (append_bytes es) (append_bytes_complete es) complete,
            is_empty-append content (append_bytes es) some_byte,
          );
          lens = d.lens (
              set_chunk_len-IsLens name (length content) s
                (ap len_of (get_first name content older s.files e)) i.lens);
          chunks = d.chunks (unfold set_chunk_len in i.chunks);
        }

    Filed-new :
        (name preamble : Text) (s1 written : TableStore F) (counter : ℕ)
        → s1.files ≡ s.files
        → IsLens s1.files s1.chunk_len_cache
        → IsChunks s1.files s1.chunk_cache
        → insert name (preamble ++ append_bytes es) s.files
          ≡ (name, preamble ++ append_bytes es) ∷ s.files
        → chunk_path counter ≡ ok name
        → IsHash hash
        → encode_six_preamble t hash ≡ ok preamble
        → AreUtf8 is_utf8 (read_lines preamble)
        → write_chunk
            (record {
              chunk_name = name;
              row_offset = length preamble;
              next_chunk = suc counter;
              is_new = true;
            })
            preamble
            (append_bytes es)
            (append_len es)
            s1
          ≡ ok written
        → apply_entries name (entries_of name (length preamble) (written_of es)) acc ≡ ok acc'
        → Filed acc' (suc counter) written
    Filed-new name preamble s1 written counter same_files lens chunks first path hex made utf8 w
          applied =
        let some_byte = preamble-ne-nil t hash preamble made in
        let (head, complete, none_found) =
          encode_six_preamble-scanned is_utf8 {F = F} t hash hash preamble name hex hex made utf8 in
        let d : IsWrittenTo s1 written name (preamble ++ append_bytes es) =
          created
            (record {
              chunk_name = name;
              row_offset = length preamble;
              next_chunk = suc counter;
              is_new = true;
            })
            preamble (append_bytes es) (append_len es) s1 written refl w in
        let files : written.files ≡ (name, preamble ++ append_bytes es) ∷ s.files =
          d.files ∙ ap (insert name (preamble ++ append_bytes es)) same_files ∙ first in
        record {
          scanned =
              subst (λ fs. scan_chunks is_utf8 t hash fs ≡ ok acc')
                (sym
                  (files ∙ ap (λ b. (name, preamble ++ b) ∷ s.files) (append_bytes-ended_lines es)))
                (scan_chunks-new is_utf8 t hash name preamble s.files (written_of es) acc acc' hex
                  made some_byte utf8 (written_of-IsWritten is_utf8 t es h) i.scanned applied);
          last = subst (IsLast (suc counter)) (sym files) (
            counter,
            refl,
            path,
            is_complete-append preamble (append_bytes es) (append_bytes_complete es) complete,
            is_empty-append preamble (append_bytes es) some_byte,
          );
          lens = d.lens lens;
          chunks = d.chunks chunks;
        }

    new_bound :
        (target : AppendTarget) (s1 written : TableStore F) (preamble : Text)
        → target.is_new ≡ true
        → target.row_offset ≡ length preamble
        → write_chunk target preamble (append_bytes es) (append_len es) s1 ≡ ok written
        → ((n c : Text) → get n written.files ≡ some c → length c ≤ u64_max)
        → target.row_offset + append_len es ≤ u64_max
    new_bound target s1 written preamble new offset w bound =
        let d : IsWrittenTo s1 written target.chunk_name (preamble ++ append_bytes es) =
          created target preamble (append_bytes es) (append_len es) s1 written new w in
        let b = bound target.chunk_name (preamble ++ append_bytes es) (
          ap (get target.chunk_name) d.files
          ∙ get-insert_self target.chunk_name (preamble ++ append_bytes es) s1.files) in
        omega (
          arith,
          b,
          offset,
          length-append preamble (append_bytes es),
          append_len-length is_utf8 t es h,
        )

    -- The batch written at its place.
    pub Filed-target :
        (target : AppendTarget) (s1 written : TableStore F) (preamble : Text)
        → IsHash hash
        → encode_six_preamble t hash ≡ ok preamble
        → AreUtf8 is_utf8 (read_lines preamble)
        → Placed (append_len es) (length preamble) s target s1
        → write_chunk target preamble (append_bytes es) (append_len es) s1 ≡ ok written
        → apply_entries target.chunk_name
            (entries_of target.chunk_name target.row_offset (written_of es))
            acc
          ≡ ok acc'
        → Filed acc' target.next_chunk written
    Filed-target target s1 written preamble hex made utf8
          (at_end name content older counter e path room shape same) w applied =
        subst (λ tg. Filed acc' tg.next_chunk written) (sym shape)
          (Filed-at_end name content preamble older counter written e path
            (subst
              (λ x.
                write_chunk x preamble (append_bytes es) (append_len es)
                  (set_chunk_len name (length content) s)
                ≡ ok written)
              shape
              (subst
                (λ x. write_chunk target preamble (append_bytes es) (append_len es) x ≡ ok written)
                same w))
            (subst
              (λ x.
                apply_entries x.chunk_name (entries_of x.chunk_name x.row_offset (written_of es))
                  acc
                ≡ ok acc')
              shape applied))
    Filed-target target s1 written preamble hex made utf8 (first_file name e path shape same) w
          applied =
        subst (λ tg. Filed acc' tg.next_chunk written) (sym shape)
          (Filed-new name preamble s written 0 refl i.lens i.chunks
            (subst
              (λ fs.
                insert name (preamble ++ append_bytes es) fs
                ≡ (name, preamble ++ append_bytes es) ∷ fs)
              (sym e) (insert_first name (preamble ++ append_bytes es)))
            path hex made utf8
            (subst (λ x. write_chunk x preamble (append_bytes es) (append_len es) s ≡ ok written)
              shape
              (subst
                (λ x. write_chunk target preamble (append_bytes es) (append_len es) x ≡ ok written)
                same w))
            (subst
              (λ x.
                apply_entries x.chunk_name (entries_of x.chunk_name x.row_offset (written_of es))
                  acc
                ≡ ok acc')
              shape applied))
    Filed-target target s1 written preamble hex made utf8
          (next_file last content name older counter e path path' shape same) w applied =
        subst (λ tg. Filed acc' tg.next_chunk written) (sym shape)
          (Filed-new name preamble (set_chunk_len last (length content) s) written (suc counter)
            (unfold set_chunk_len in refl)
            (set_chunk_len-IsLens last (length content) s
              (ap len_of (get_first last content older s.files e)) i.lens)
            (unfold set_chunk_len in i.chunks)
            (subst
              (λ fs.
                insert name (preamble ++ append_bytes es) fs
                ≡ (name, preamble ++ append_bytes es) ∷ fs)
              (sym e)
              (insert_below name last content (preamble ++ append_bytes es) older
                (names_descend counter last name path path')))
            path' hex made utf8
            (subst
              (λ x.
                write_chunk x preamble (append_bytes es) (append_len es)
                  (set_chunk_len last (length content) s)
                ≡ ok written)
              shape
              (subst
                (λ x. write_chunk target preamble (append_bytes es) (append_len es) x ≡ ok written)
                same w))
            (subst
              (λ x.
                apply_entries x.chunk_name (entries_of x.chunk_name x.row_offset (written_of es))
                  acc
                ≡ ok acc')
              shape applied))

    -- the offsets of the lines are below the bound of the file's length
    pub Placed-bound :
        (target : AppendTarget) (s1 written : TableStore F) (preamble : Text)
        → Placed (append_len es) (length preamble) s target s1
        → write_chunk target preamble (append_bytes es) (append_len es) s1 ≡ ok written
        → ((n c : Text) → get n written.files ≡ some c → length c ≤ u64_max)
        → target.row_offset + append_len es ≤ u64_max
    Placed-bound target s1 written preamble
          (at_end name content older counter e path room shape same) w bound =
        rw shape (omega (arith, room))
    Placed-bound target s1 written preamble (first_file name e path shape same) w bound =
        new_bound target s1 written preamble (rw shape refl) (rw shape refl) w bound
    Placed-bound target s1 written preamble
          (next_file last content name older counter e path path' shape same) w bound =
        new_bound target s1 written preamble (rw shape refl) (rw shape refl) w bound
