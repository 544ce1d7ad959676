-- ===== src/Store/Append/Stored.antt =====
-- The invariant of a table's store: its files can be scanned, and its caches agree with the scan.
use sixpack.Prelude.{
  ℕ, suc, ◌+◌, ◌≤◌, ◌<◌, [], ◌∷◌, Bool, true, false, Option, none, some, ◌≡◌, refl, arith, ap, ◌∙◌,
  subst, length, Option-cases, Bool-cases, inl, inr, leb, leb→le, if◌then◌else◌,
}
use sixpack.Prelude.Outcome.{Outcome, ok, ◌>>=◌, >>=-eq-ok, Outcome-cases}
use sixpack.Prelude.Order.{same_self}
use sixpack.Prelude.Text.{Text, text_ord, is_empty}
use sixpack.Prelude.Map.{Map, get, get-cons}
use sixpack.Core.Value.{FloatText}
use sixpack.Core.Record.{Record}
use sixpack.Core.Schema.Table.{TableSchema}
use sixpack.Hash.{source_hash}
use sixpack.Format.Lines.{is_complete}
use sixpack.Store.Error.{IoError}
use sixpack.Store.Chunk.{chunk_path, max_chunks}
use sixpack.Store.Scan.{Scanned, scan_chunks}
use sixpack.Store.Append.{
  TableStore, AppendTarget, append_target, target_at, target_in, saturating_add, known_len,
  new_target, set_chunk_len, max_six_chunk_bytes,
}
use sixpack.Store.Append.Mirror.{records, IsMirror}

-- The last file is the one before the next counter, and holds complete lines only.
abbrev pub IsLast : ℕ → Map Text Text → Type 0
IsLast next_chunk [] = next_chunk ≡ 0
IsLast next_chunk ((name, content) ∷ older) =
    (counter : ℕ) × (next_chunk ≡ suc counter)
    × (chunk_path counter ≡ ok name)
    × (is_complete content ≡ true)
    × (is_empty content ≡ false)

abbrev pub len_of : Option Text → Option ℕ
len_of none = none
len_of (some content) = some (length content)

-- what is remembered of the files is so
abbrev pub IsLens : Map Text Text → Map Text ℕ → Type 0
IsLens files lens = (n : Text) (len : ℕ) → get n lens ≡ some len → len_of (get n files) ≡ some len

abbrev pub IsChunks : Map Text Text → Map Text Text → Type 0
IsChunks files chunks = (n c : Text) → get n chunks ≡ some c → get n files ≡ some c

module _ (is_utf8 : Text → Bool) {F : Type 0} ⦃float : FloatText F⦄ (t : TableSchema)
    (hash : Text) where
  pub record IsStored (acc : Scanned F) (s : TableStore F) : Type 0 where
    pub scanned : scan_chunks is_utf8 t hash s.files ≡ ok acc
    pub last : IsLast s.next_chunk s.files
    pub mirror : IsMirror t acc.live s.runtime_sixb
    pub source : s.runtime_sixb.source_hash ≡ source_hash acc.hash_bytes
    pub remembered :
        (j : Text) (r : Record F) → get j s.row_cache ≡ some r → get j (records acc.live) ≡ some r
    pub lens : IsLens s.files s.chunk_len_cache
    pub chunks : IsChunks s.files s.chunk_cache

  known_len-length :
      (acc : Scanned F) (s : TableStore F) (name content : Text)
      → IsStored acc s
      → get name s.files ≡ some content
      → known_len name content s ≡ length content
  known_len-length acc s name content i e = elim (Option-cases (get name s.chunk_len_cache)) [
    | inl f ↦ ground (arith, f)
    | inr (len, f) ↦ ground (arith, f, i.lens name len f)
  ]

-- where a batch goes: behind the last file, or into a new one before all others in name order
pub data Placed {F : Type 0} (append_len preamble_len : ℕ) (s : TableStore F)
    (target : AppendTarget) (s' : TableStore F) : Type 0 where
  at_end :
      (name content : Text) (older : Map Text Text) (counter : ℕ)
      → s.files ≡ (name, content) ∷ older
      → chunk_path counter ≡ ok name
      → length content + append_len ≤ max_six_chunk_bytes
      → target ≡ record {
        chunk_name = name;
        row_offset = length content;
        next_chunk = suc counter;
        is_new = false;
      }
      → s' ≡ set_chunk_len name (length content) s
      → Placed append_len preamble_len s target s'
  first_file :
      (name : Text)
      → s.files ≡ []
      → chunk_path 0 ≡ ok name
      → target
        ≡ record { chunk_name = name; row_offset = preamble_len; next_chunk = 1; is_new = true }
      → s' ≡ s
      → Placed append_len preamble_len s target s'
  next_file :
      (last content name : Text) (older : Map Text Text) (counter : ℕ)
      → s.files ≡ (last, content) ∷ older
      → chunk_path counter ≡ ok last
      → chunk_path (suc counter) ≡ ok name
      → target ≡ record {
        chunk_name = name;
        row_offset = preamble_len;
        next_chunk = suc (suc counter);
        is_new = true;
      }
      → s' ≡ set_chunk_len last (length content) s
      → Placed append_len preamble_len s target s'

pub chunk_path-bound : (n : ℕ) (name : Text) → chunk_path n ≡ ok name → n < max_chunks
unfolding chunk_path
chunk_path-bound n name h = ground arith

new_target-ok :
    (preamble_len n : ℕ) (target : AppendTarget)
    → new_target preamble_len n ≡ ok target
    → (name : Text) × (chunk_path n ≡ ok name)
      × (target ≡ record {
        chunk_name = name;
        row_offset = preamble_len;
        next_chunk = suc n;
        is_new = true;
      })
new_target-ok preamble_len n target h = elim (Outcome-cases (chunk_path n)) [
  | inr (bad, e) ↦ absurd (ground (arith, e))
  | inl (name, e) ↦
      let bound : n < max_chunks = chunk_path-bound n name e in
      let sum : saturating_add n 1 ≡ suc n = omega (arith, bound) in
      (name, e, ground (arith, e, sum))
]

-- where the batch goes when the last file has the length
abbrev placed_by :
    {F : Type 0}
    → ℕ
    → ℕ
    → TableStore F
    → ℕ
    → Text
    → ℕ
    → Outcome IoError (AppendTarget × TableStore F)
placed_by append_len preamble_len s counter name len =
    if leb (saturating_add len append_len) max_six_chunk_bytes
    then ok (
      record { chunk_name = name; row_offset = len; next_chunk = suc counter; is_new = false },
      set_chunk_len name len s,
    )
    else (new_target preamble_len (suc counter) >>= λ target. ok (target, set_chunk_len name len s))

module _ (is_utf8 : Text → Bool) {F : Type 0} ⦃float : FloatText F⦄ (t : TableSchema) (hash : Text)
    (acc : Scanned F) (append_len preamble_len : ℕ) (s : TableStore F)
    (i : IsStored is_utf8 t hash acc s) where
  fitting :
      (name content : Text) (older : Map Text Text) (counter : ℕ) (target : AppendTarget)
      (s' : TableStore F)
      → s.files ≡ (name, content) ∷ older
      → chunk_path counter ≡ ok name
      → leb (saturating_add (length content) append_len) max_six_chunk_bytes ≡ true
      → placed_by append_len preamble_len s counter name (length content) ≡ ok (target, s')
      → Placed append_len preamble_len s target s'
  fitting name content older counter target s' e path fits h =
      at_end name content older counter e path
        (omega
          (arith, leb→le (saturating_add (length content) append_len) max_six_chunk_bytes fits))
        (ground arith) (ground arith)

  target_in-Placed :
      (name content : Text) (older : Map Text Text) (counter : ℕ) (target : AppendTarget)
      (s' : TableStore F)
      → s.files ≡ (name, content) ∷ older
      → chunk_path counter ≡ ok name
      → target_in append_len preamble_len s counter name (some content) ≡ ok (target, s')
      → Placed append_len preamble_len s target s'
  unfolding target_in
  target_in-Placed name content older counter target s' e path h =
      let found : get name s.files ≡ some content =
        ap (get name) e ∙ get-cons name name content older ∙ ground (arith, same_self name) in
      let len : known_len name content s ≡ length content =
        known_len-length is_utf8 t hash acc s name content i found in
      let h' =
        subst (λ l. placed_by append_len preamble_len s counter name l ≡ ok (target, s')) len h in
      elim (Bool-cases (leb (saturating_add (length content) append_len) max_six_chunk_bytes)) [
        | inl fits ↦ fitting name content older counter target s' e path fits h'
        | inr full ↦
            let made : (new_target preamble_len (suc counter) >>= λ target.
            ok (target, set_chunk_len name (length content) s))
                ≡ ok (target, s') =
              ground (arith, h', full) in
            let (found, e1, e2) =
              >>=-eq-ok {B = AppendTarget × TableStore F} (new_target preamble_len (suc counter))
                (λ target. ok (target, set_chunk_len name (length content) s)) made in
            let (next, path', shape) = new_target-ok preamble_len (suc counter) found e1 in
            next_file name content next older counter e path path' (ground (arith, shape, e2))
              (ground (arith, e2))
      ]

  target_at-Placed :
      (files : Map Text Text) (target : AppendTarget) (s' : TableStore F)
      → s.files ≡ files
      → IsLast s.next_chunk files
      → append_target append_len preamble_len s ≡ ok (target, s')
      → Placed append_len preamble_len s target s'
  unfolding append_target target_at
  target_at-Placed [] target s' e zero_next h =
      let h0 = subst (λ n. target_at append_len preamble_len s n ≡ ok (target, s')) zero_next h in
      let (found, e1, e2) = >>=-eq-ok (new_target preamble_len 0) (λ target. ok (target, s)) h0 in
      let (name, path, shape) = new_target-ok preamble_len 0 found e1 in
      first_file name e path (ground (arith, shape, e2)) (ground (arith, e2))
  target_at-Placed ((name, content) ∷ older) target s' e (counter, next, path, complete, some_byte)
        h =
      let h1 = subst (λ n. target_at append_len preamble_len s n ≡ ok (target, s')) next h in
      let found : get name s.files ≡ some content =
        ap (get name) e ∙ get-cons name name content older ∙ ground (arith, same_self name) in
      target_in-Placed name content older counter target s' e path (
        subst (λ o. target_in append_len preamble_len s counter name o ≡ ok (target, s')) found
          (rw path at h1))

  pub append_target-Placed :
      (target : AppendTarget) (s' : TableStore F)
      → append_target append_len preamble_len s ≡ ok (target, s')
      → Placed append_len preamble_len s target s'
  append_target-Placed target s' h = target_at-Placed s.files target s' refl i.last h
