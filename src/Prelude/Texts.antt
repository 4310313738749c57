-- ===== src/Prelude/Texts.antt =====
-- Texts character by character: stripping, and the part behind the last sign of a kind.
use Prim.Native.Char.{Char, code}
use Prim.Native.Nat.{ℕ, zero, suc, ◌+◌, ◌≤◌}
use Prim.Native.String.{String, ◌++◌}
use mathlib.Core.Path.{◌≡◌, refl, sym, ap, ◌∙◌}
use mathlib.Core.Logic.{inl, inr}
use mathlib.Core.Bool.{Bool, true, false, ◌&&◌}
use mathlib.Core.Option.{Option, none, some}
use native.Mathlib.Omega.{arith}
use text.Mathlib.Text.{◌==◌}
use text.Mathlib.TextLemmas.{nil-append, cons-append}
use invoices_codex.Prelude.Tests.{eqb, if◌then◌else◌, Bool-cases}

-- A text without a character of this code.
abbrev pub lacks : ℕ → String → Bool
lacks n String.[] = true
lacks n (String.◌∷◌ c s) = let rest = lacks n s in if eqb (code c) n then false else rest

-- The number of characters, and `text[:n]`.
unfoldable pub chars : String → ℕ
chars String.[] = 0
chars (String.◌∷◌ c s) = suc (chars s)

unfoldable pub take_chars : ℕ → String → String
take_chars zero s = ""
take_chars (suc n) String.[] = ""
take_chars (suc n) (String.◌∷◌ c s) = String.◌∷◌ c (take_chars n s)

-- A text whose characters all meet a test of their codes.
unfoldable pub all_chars : (ℕ → Bool) → String → Bool
all_chars p String.[] = true
all_chars p (String.◌∷◌ c s) = p (code c) && all_chars p s

-- `text.lstrip(sign)` and `text.rstrip(sign)`
unfoldable pub lstrip_sign : ℕ → String → String
lstrip_sign n String.[] = ""
lstrip_sign n (String.◌∷◌ c s) =
    let rest = lstrip_sign n s in if eqb (code c) n then rest else String.◌∷◌ c s

unfoldable pub rstrip_sign : ℕ → String → String
rstrip_sign n String.[] = ""
rstrip_sign n (String.◌∷◌ c s) =
    let rest = rstrip_sign n s in
    if rest == "" then (if eqb (code c) n then "" else String.◌∷◌ c "") else String.◌∷◌ c rest

-- What stands behind the last sign.
behind_last : ℕ → String → Option String
behind_last n String.[] = none
behind_last n (String.◌∷◌ c s) = elim (behind_last n s) [
  | some t ↦ some t
  | none ↦ if eqb (code c) n then some s else none
]

-- What the text functions do to the length and to a test of all characters.
pub chars-append : (a b : String) → chars (a ++ b) ≡ chars a + chars b
unfolding chars
chars-append String.[] b = rw (nil-append b) (omega arith)
chars-append (String.◌∷◌ c a) b =
    rw (cons-append c a b) (rw (chars, chars-append a b) (omega arith))

pub chars-take_chars : (n : ℕ) (s : String) → chars (take_chars n s) ≤ n
unfolding chars take_chars
chars-take_chars zero s = omega arith
chars-take_chars (suc n) String.[] = omega arith
chars-take_chars (suc n) (String.◌∷◌ c s) = omega (arith, chars-take_chars n s)

module _ (p : ℕ → Bool) where
  pub all_chars-append :
      (a b : String) → all_chars p a ≡ true → all_chars p b ≡ true → all_chars p (a ++ b) ≡ true
  unfolding all_chars
  all_chars-append String.[] b ha hb = rw (nil-append b) hb
  all_chars-append (String.◌∷◌ c a) b ha hb =
      rw (cons-append c a b) (ground (arith, all_chars-append a b))

  pub all_chars-take_chars :
      (n : ℕ) (s : String) → all_chars p s ≡ true → all_chars p (take_chars n s) ≡ true
  unfolding all_chars take_chars
  all_chars-take_chars zero s h = refl
  all_chars-take_chars (suc n) String.[] h = refl
  all_chars-take_chars (suc n) (String.◌∷◌ c s) h = ground (arith, all_chars-take_chars n s)

  pub all_chars-lstrip_sign :
      (n : ℕ) (s : String) → all_chars p s ≡ true → all_chars p (lstrip_sign n s) ≡ true
  unfolding all_chars lstrip_sign
  all_chars-lstrip_sign n String.[] h = refl
  all_chars-lstrip_sign n (String.◌∷◌ c s) h = ground (arith, all_chars-lstrip_sign n s)

  pub all_chars-rstrip_sign :
      (n : ℕ) (s : String) → all_chars p s ≡ true → all_chars p (rstrip_sign n s) ≡ true
  unfolding all_chars rstrip_sign
  all_chars-rstrip_sign n String.[] h = refl
  all_chars-rstrip_sign n (String.◌∷◌ c s) h = elim (Bool-cases (rstrip_sign n s == "")) [
    | inl empty ↦ elim (Bool-cases (eqb (code c) n)) [
      | inl sign ↦ rw (empty, sign) refl
      | inr other ↦ rw (empty, other) (ground arith)
    ]
    | inr more ↦ rw more (ground (arith, all_chars-rstrip_sign n s))
  ]

behind_last-lacks : (n : ℕ) (s : String) → lacks n s ≡ true → behind_last n s ≡ none
unfolding behind_last
behind_last-lacks n String.[] h = refl
behind_last-lacks n (String.◌∷◌ c s) h = ground (arith, behind_last-lacks n s)

behind_last-sign :
    (c : Char) (s : String)
    → lacks (code c) s ≡ true
    → behind_last (code c) (String.◌∷◌ c s) ≡ some s
unfolding behind_last
behind_last-sign c s h = ground (arith, behind_last-lacks (code c) s h)

behind_last-append :
    (n : ℕ) (a s t : String) → behind_last n s ≡ some t → behind_last n (a ++ s) ≡ some t
unfolding behind_last
behind_last-append n String.[] s t h = rw (nil-append s) h
behind_last-append n (String.◌∷◌ c a) s t h =
    rw (cons-append c a s) (rw (behind_last-append n a s t h, behind_last) refl)

-- Texts that end in a sign and a part without it are equal only if these parts are.
pub last_part_eq :
    (c : Char) (a b s t : String)
    → lacks (code c) s ≡ true
    → lacks (code c) t ≡ true
    → a ++ String.◌∷◌ c s ≡ b ++ String.◌∷◌ c t
    → s ≡ t
last_part_eq c a b s t hs ht e = some_eq (
    sym (behind_last-append (code c) a (String.◌∷◌ c s) s (behind_last-sign c s hs))
    ∙ ap (behind_last (code c)) e
    ∙ behind_last-append (code c) b (String.◌∷◌ c t) t (behind_last-sign c t ht))
  where
    some_eq : {s t : String} → some s ≡ some t → s ≡ t
    some_eq h = ground arith
