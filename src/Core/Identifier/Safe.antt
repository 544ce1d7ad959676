-- ===== src/Core/Identifier/Safe.antt =====
-- What a validated name promises to the code that puts it into lines and paths.
use sixpack.Prelude.{ℕ, ◌≤◌, Bool, true, false, ◌||◌, [], ◌∷◌, ◌≡◌, ◌≢◌, ◌↔◌, arith, all, All, ◌==◌}
use sixpack.Prelude.Outcome.{ok}
use sixpack.Prelude.Order.{same_self}
use sixpack.Prelude.Text.{Text, text_ord, codes, starts_with, is_ascii_alphanumeric}
use sixpack.Core.Identifier.{
  is_schema_name, workspace_name, table_name, field_name, ensure_public_field_name, is_name_byte,
}

-- a byte with no meaning to a line, a path or a quoted text
abbrev pub IsPlain : ℕ → Type 0
IsPlain c = (b'-' ≤ c) × (c ≤ b'z') × (c ≢ b'\\') × (c ≢ b'/') × (c ≢ b'.') × (c ≢ b':')

all-IsPlain :
    (p : ℕ → Bool) (s : Text) → ((c : ℕ) → p c ≡ true → IsPlain c) → all p s ≡ true → All IsPlain s
all-IsPlain p [] h e = tt
all-IsPlain p (c ∷ s) h e = (h c (ground arith), all-IsPlain p s h (ground arith))

pub is_schema_name-IsPlain : (s : Text) → is_schema_name s ≡ true → (s ≢ []) × All IsPlain s
unfolding is_schema_name
is_schema_name-IsPlain [] h = cc
is_schema_name-IsPlain (c ∷ s) h =
    (λ e. cc, (ground arith, all-IsPlain is_name_byte s (λ b e. ground arith) (ground arith)))

starts_with_underscore : (c : ℕ) (s : Text) → starts_with (c ∷ s) (codes "_") ≡ (c == b'_')
unfolding starts_with
starts_with_underscore c [] = ground arith
starts_with_underscore c (d ∷ s) = ground arith

-- A public field name is accepted exactly when it is a schema name: the separate tests for an
-- empty name and for a leading underscore refuse nothing else, and `TableName::new` and
-- `FieldName::new` accept the same texts.
pub field_names_agree :
    (name : Text)
    → ((ensure_public_field_name name ≡ ok tt) ↔ (is_schema_name name ≡ true))
      × ((field_name name ≡ ok name) ↔ (is_schema_name name ≡ true))
      × ((table_name name ≡ ok name) ↔ (is_schema_name name ≡ true))
unfolding ensure_public_field_name field_name table_name
field_names_agree [] =
    unfold starts_with is_schema_name in
    ((λ h. cc, λ h. cc), (λ h. cc, λ h. cc), (λ h. cc, λ h. cc))
field_names_agree (c ∷ s) =
    unfold is_schema_name in
    (
      (
        λ h. ground (arith, starts_with_underscore c s),
        λ h. ground (arith, starts_with_underscore c s),
      ),
      (
        λ h. ground (arith, starts_with_underscore c s),
        λ h. ground (arith, starts_with_underscore c s),
      ),
      (λ h. ground arith, λ h. ground arith),
    )

-- A validated workspace name is one path component: it is not empty, it is neither `.` nor `..`,
-- every byte is plain (so there is no separator), and it does not begin with an underscore.
pub workspace_name_safe :
    (name : Text) {w : Text}
    → workspace_name name ≡ ok w
    → (w ≡ name)
      × (w ≢ [])
      × (w ≢ codes ".")
      × (w ≢ codes "..")
      × All IsPlain w
      × (starts_with w (codes "_") ≡ false)
unfolding workspace_name
workspace_name_safe name h = ground (
  arith,
  same_self (codes "."),
  all-IsPlain (λ byte. is_ascii_alphanumeric byte || byte == b'-' || byte == b'_') name
      (λ c e. ground arith),
)
