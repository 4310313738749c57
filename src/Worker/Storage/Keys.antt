-- ===== src/Worker/Storage/Keys.antt =====
-- `_normalize_key` of storage.py.
use Prim.Native.Char.{Char, code}
use invoices_codex.Prelude.{
  ℕ, String, ◌≡◌, refl, ◌&&◌, ◌||◌, Bool, true, false, inl, inr, eqb, arith, Bool-cases,
}
use invoices_codex.Worker.Storage.{lstrip_slash, replace_dots, normalize_key}

-- A text that starts with a character of this code.
unfoldable pub starts_with : ℕ → String → Bool
starts_with n String.[] = false
starts_with n (String.◌∷◌ c s) = eqb (code c) n

-- A text with two dots in sequence.
unfoldable pub has_dots : String → Bool
unfolding starts_with
has_dots String.[] = false
has_dots (String.◌∷◌ c s) =
    let rest = has_dots s in (eqb (code c) b'.' && starts_with b'.' s) || rest

starts_dot-replace_dots :
    (c : Char) (s : String)
    → starts_with b'.' (replace_dots (String.◌∷◌ c s)) ≡ true
    → eqb (code c) b'.' ≡ true
unfolding starts_with replace_dots
starts_dot-replace_dots c String.[] h = ground arith
starts_dot-replace_dots c (String.◌∷◌ d s) h = ground arith

has_dots-replace_dots : (s : String) → has_dots (replace_dots s) ≡ false
unfolding has_dots replace_dots
has_dots-replace_dots String.[] = refl
has_dots-replace_dots (String.◌∷◌ c String.[]) = ground arith
has_dots-replace_dots (String.◌∷◌ c (String.◌∷◌ d s)) =
    elim (Bool-cases (eqb (code c) b'.' && eqb (code d) b'.')) [
      | inl both ↦ rw both (has_dots-replace_dots s)
      | inr one ↦
          ground (arith, has_dots-replace_dots (String.◌∷◌ d s), starts_dot-replace_dots d s)
    ]

starts_slash-lstrip_slash : (s : String) → starts_with b'/' (lstrip_slash s) ≡ false
unfolding starts_with lstrip_slash
starts_slash-lstrip_slash String.[] = refl
starts_slash-lstrip_slash (String.◌∷◌ c s) = elim (Bool-cases (eqb (code c) b'/')) [
  | inl slash ↦ rw slash (starts_slash-lstrip_slash s)
  | inr plain ↦ ground arith
]

starts_slash-replace_dots :
    (s : String) → starts_with b'/' s ≡ false → starts_with b'/' (replace_dots s) ≡ false
unfolding starts_with replace_dots
starts_slash-replace_dots String.[] h = refl
starts_slash-replace_dots (String.◌∷◌ c String.[]) h = ground arith
starts_slash-replace_dots (String.◌∷◌ c (String.◌∷◌ d s)) h =
    elim (Bool-cases (eqb (code c) b'.' && eqb (code d) b'.')) [
      | inl both ↦ ground arith
      | inr one ↦ ground arith
    ]

-- A normalised key has no two dots in sequence and no slash at its start, whatever the key was.
pub normalize_key-IsInside :
    (key : String)
    → (has_dots (normalize_key key) ≡ false) × (starts_with b'/' (normalize_key key) ≡ false)
unfolding normalize_key
normalize_key-IsInside key = (
  has_dots-replace_dots (lstrip_slash key),
  starts_slash-replace_dots (lstrip_slash key) (starts_slash-lstrip_slash key),
)
