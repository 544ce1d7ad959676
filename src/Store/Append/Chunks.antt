-- ===== src/Store/Append/Chunks.antt =====
-- The write to one chunk file: the bytes of a batch, and what is remembered of the file.
use Prim.Native.Nat.Ordering.{lt}
use sixpack.Prelude.{
  ℕ, ◌+◌, List, [], ◌∷◌, ◌++◌, Bool, true, false, some, ◌≡◌, refl, arith, All, ap, ◌∙◌, sym, subst,
  length, Option-cases, inl, inr, length-append, append_assoc,
}
use sixpack.Prelude.Outcome.{ok}
use sixpack.Prelude.Order.{same→eq}
use sixpack.Prelude.Text.{Text, text_ord}
use sixpack.Prelude.Map.{Map, empty, get, insert, get-insert, get-remove}
use sixpack.Core.Value.{FloatText}
use sixpack.Core.Schema.Table.{TableSchema}
use sixpack.Format.Escape.{newline}
use sixpack.Format.Lines.{is_complete, ended_lines, ended_lines_complete}
use sixpack.Store.Scan.Written.{lines_of, IsWritten}
use sixpack.Store.Append.{
  TableStore, AppendTarget, EncodedAppend, set_chunk_len, remember_chunk, forget_chunk, write_chunk,
  append_bytes, append_len,
}
use sixpack.Store.Append.Encoded.{IsEncoded}
use sixpack.Store.Append.Mirror.{written_of}
use sixpack.Store.Append.Stored.{IsLens, IsChunks, len_of}

module _ {F : Type 0} ⦃float : FloatText F⦄ where
  pub append_bytes-ended_lines :
      (es : List (EncodedAppend F)) → append_bytes es ≡ ended_lines (lines_of (written_of es))
  unfolding append_bytes ended_lines
  append_bytes-ended_lines [] = refl
  append_bytes-ended_lines (e ∷ es) =
      ap (λ r. e.line ++ (newline ∷ r)) (append_bytes-ended_lines es)
      ∙ sym (append_assoc e.line (newline ∷ []) (ended_lines (lines_of (written_of es))))

  pub append_bytes_complete : (es : List (EncodedAppend F)) → is_complete (append_bytes es) ≡ true
  append_bytes_complete es =
      ap is_complete (append_bytes-ended_lines es) ∙ ended_lines_complete (lines_of (written_of es))

  module _ (is_utf8 : Text → Bool) (t : TableSchema) where
    pub append_len-length :
        (es : List (EncodedAppend F))
        → All (IsEncoded is_utf8 t) es
        → append_len es ≡ length (append_bytes es)
    unfolding append_len append_bytes
    append_len-length [] h = refl
    append_len-length (e ∷ es) h = omega (
      arith,
      h.0.bytes,
      append_len-length es h.1,
      length-append e.line (newline ∷ append_bytes es),
    )

    pub written_of-IsWritten :
        (es : List (EncodedAppend F))
        → All (IsEncoded is_utf8 t) es
        → All (IsWritten is_utf8 t) (written_of es)
    written_of-IsWritten [] h = tt
    written_of-IsWritten (e ∷ es) h = (h.0.written, written_of-IsWritten es h.1)

pub insert_same :
    (name : Text) (old new : Text) (m : Map Text Text)
    → insert name new ((name, old) ∷ m) ≡ (name, new) ∷ m
unfolding insert
insert_same name old new m = ground (arith, text_ord.cmp_self name)

pub insert_below :
    (name last old new : Text) (m : Map Text Text)
    → text_ord.cmp name last ≡ lt
    → insert name new ((last, old) ∷ m) ≡ (name, new) ∷ (last, old) ∷ m
unfolding insert
insert_below name last old new m e = ground (arith, e)

pub insert_first :
    (name new : Text) → insert name new (empty {K = Text} {V = Text}) ≡ (name, new) ∷ []
unfolding insert
insert_first name new = refl

module _ {F : Type 0} where
  -- the store behind the write to the file
  pub record IsWrittenTo (s written : TableStore F) (name content : Text) : Type 0 where
    pub files : written.files ≡ insert name content s.files
    pub lens : IsLens s.files s.chunk_len_cache → IsLens written.files written.chunk_len_cache
    pub chunks : IsChunks s.files s.chunk_cache → IsChunks written.files written.chunk_cache

  pub set_chunk_len-IsLens :
      (name : Text) (len : ℕ) (s : TableStore F)
      → len_of (get name s.files) ≡ some len
      → IsLens s.files s.chunk_len_cache
      → IsLens (set_chunk_len name len s).files (set_chunk_len name len s).chunk_len_cache
  unfolding set_chunk_len
  set_chunk_len-IsLens name len s e h n l f =
      ground (arith, get-insert name n len s.chunk_len_cache, h n l, same→eq n name)

  pub created :
      (target : AppendTarget) (preamble bytes : Text) (len : ℕ) (s written : TableStore F)
      → target.is_new ≡ true
      → write_chunk target preamble bytes len s ≡ ok written
      → IsWrittenTo s written target.chunk_name (preamble ++ bytes)
  unfolding write_chunk remember_chunk set_chunk_len
  created target preamble bytes len s written new h =
      elim (Option-cases (get target.chunk_name s.files)) [
        | inr (content, e) ↦ absurd (ground (arith, e, new))
        | inl e ↦
            let name = target.chunk_name in
            let content = preamble ++ bytes in
            let made : remember_chunk name content
                  (record s { files = insert name content s.files })
                ≡ written =
              ground (arith, e, new) in
            subst (λ w. IsWrittenTo s w name content) made
              (record {
                files = refl;
                lens = λ k n l f. ground (
                  arith,
                  get-insert name n (length content) s.chunk_len_cache,
                  get-insert name n content s.files,
                  k n l,
                );
                chunks = λ k n c f. ground (
                  arith,
                  get-insert name n content s.chunk_cache,
                  get-insert name n content s.files,
                  k n c,
                );
              })
      ]

  pub appended :
      (target : AppendTarget) (preamble bytes content : Text) (len : ℕ) (s written : TableStore F)
      → target.is_new ≡ false
      → get target.chunk_name s.files ≡ some content
      → write_chunk target preamble bytes len s ≡ ok written
      → IsWrittenTo s written target.chunk_name (content ++ bytes)
  unfolding write_chunk forget_chunk set_chunk_len
  appended target preamble bytes content len s written old found h =
      let name = target.chunk_name in
      let new_content = content ++ bytes in
      let made : forget_chunk name (
            set_chunk_len name (target.row_offset + len)
              (record s { files = insert name new_content s.files }))
          ≡ written =
        ground (arith, found, old) in
      subst (λ w. IsWrittenTo s w name new_content) made
        (record {
          files = refl;
          lens = λ k n l f. ground (
            arith,
            get-remove name n (insert name (target.row_offset + len) s.chunk_len_cache),
            get-insert name n (target.row_offset + len) s.chunk_len_cache,
            get-insert name n new_content s.files,
            k n l,
          );
          chunks = λ k n c f. ground (
            arith,
            get-remove name n s.chunk_cache,
            get-insert name n new_content s.files,
            k n c,
          );
        })
