-- ===== src/Prelude/Decimal.antt =====
-- `str(n)` of a natural number.
use Prim.Native.Char.{Char, code}
use Prim.Native.Nat.{ℕ, zero, suc, ◌+◌, ◌-◌, ◌*◌, ◌/◌, ◌%◌, ◌^◌, ◌<◌, ◌≤◌}
use Prim.Native.String.{String}
use mathlib.Core.Path.{◌≡◌, refl, sym, ap, ◌∙◌}
use mathlib.Core.Logic.{inl, inr}
use mathlib.Core.Bool.{Bool, true, false}
use native.Mathlib.Omega.{arith}
use invoices_codex.Prelude.Tests.{eqb, ltb, if◌then◌else◌, Bool-cases}
use invoices_codex.Prelude.Texts.{chars, lacks, all_chars}

digit : ℕ → Char
digit zero = "0"
digit (suc zero) = "1"
digit (suc (suc zero)) = "2"
digit (suc (suc (suc zero))) = "3"
digit (suc (suc (suc (suc zero)))) = "4"
digit (suc (suc (suc (suc (suc zero))))) = "5"
digit (suc (suc (suc (suc (suc (suc zero)))))) = "6"
digit (suc (suc (suc (suc (suc (suc (suc zero))))))) = "7"
digit (suc (suc (suc (suc (suc (suc (suc (suc zero)))))))) = "8"
digit (suc (suc (suc (suc (suc (suc (suc (suc (suc n))))))))) = "9"

code-digit : (d : ℕ) → d < 10 → code (digit d) ≡ 48 + d
unfolding digit
code-digit zero h = refl
code-digit (suc zero) h = refl
code-digit (suc (suc zero)) h = refl
code-digit (suc (suc (suc zero))) h = refl
code-digit (suc (suc (suc (suc zero)))) h = refl
code-digit (suc (suc (suc (suc (suc zero))))) h = refl
code-digit (suc (suc (suc (suc (suc (suc zero)))))) h = refl
code-digit (suc (suc (suc (suc (suc (suc (suc zero))))))) h = refl
code-digit (suc (suc (suc (suc (suc (suc (suc (suc zero)))))))) h = refl
code-digit (suc (suc (suc (suc (suc (suc (suc (suc (suc zero))))))))) h = refl
code-digit (suc (suc (suc (suc (suc (suc (suc (suc (suc (suc n)))))))))) h = absurd (omega arith)

digit-bounds : (d : ℕ) → (48 ≤ code (digit d)) × (code (digit d) ≤ 57)
unfolding digit
digit-bounds zero = (omega arith, omega arith)
digit-bounds (suc zero) = (omega arith, omega arith)
digit-bounds (suc (suc zero)) = (omega arith, omega arith)
digit-bounds (suc (suc (suc zero))) = (omega arith, omega arith)
digit-bounds (suc (suc (suc (suc zero)))) = (omega arith, omega arith)
digit-bounds (suc (suc (suc (suc (suc zero))))) = (omega arith, omega arith)
digit-bounds (suc (suc (suc (suc (suc (suc zero)))))) = (omega arith, omega arith)
digit-bounds (suc (suc (suc (suc (suc (suc (suc zero))))))) = (omega arith, omega arith)
digit-bounds (suc (suc (suc (suc (suc (suc (suc (suc zero)))))))) = (omega arith, omega arith)
digit-bounds (suc (suc (suc (suc (suc (suc (suc (suc (suc n))))))))) = (omega arith, omega arith)

digit-high : (k d : ℕ) → k < 48 → eqb (code (digit d)) k ≡ false
digit-high k d low = ground (arith, (digit-bounds d).0)

-- The digits of a number in front of a text, the last one first, on fuel.
print : ℕ → ℕ → String → String
print zero n out = out
print (suc fuel) n out =
    let rest = print fuel (n / 10) (String.◌∷◌ (digit (n % 10)) out) in
    if ltb n 10 then String.◌∷◌ (digit n) out else rest

-- A number has fewer digits than itself and two.
unfoldable pub decimal : ℕ → String
unfolding print digit
decimal n = print (suc n) n ""

-- The number that digits spell behind another one.
value : ℕ → String → ℕ
value n String.[] = n
value n (String.◌∷◌ c s) = value (n * 10 + (code c - 48)) s

value-print : (fuel n : ℕ) (out : String) → n < fuel → value 0 (print fuel n out) ≡ value n out
unfolding value print
value-print zero n out h = absurd (omega arith)
value-print (suc fuel) n out h = elim (Bool-cases (ltb n 10)) [
  | inl small ↦
      rw small (rw (value, code-digit n (ground arith)) (ap (λ m. value m out) (omega arith)))
  | inr large ↦
      rw (large, value-print fuel (n / 10) (String.◌∷◌ (digit (n % 10)) out) (ground arith))
        (rw (value, code-digit (n % 10) (omega arith)) (ap (λ m. value m out) (omega arith)))
]

-- Different numbers print differently.
pub decimal_inj : (n m : ℕ) → decimal n ≡ decimal m → n ≡ m
unfolding decimal value
decimal_inj n m e =
    sym (value-print (suc n) n "" (omega arith))
    ∙ ap (value 0) e
    ∙ value-print (suc m) m "" (omega arith)

print-lacks_sign :
    (k fuel n : ℕ) (out : String) → k < 48 → lacks k out ≡ true → lacks k (print fuel n out) ≡ true
unfolding print
print-lacks_sign k zero n out low h = h
print-lacks_sign k (suc fuel) n out low h = ground (
  arith,
  digit-high k n low,
  digit-high k (n % 10) low,
  print-lacks_sign k fuel (n / 10) (String.◌∷◌ (digit (n % 10)) out) low,
)

-- Digits are no other signs.
pub decimal-lacks_sign : (k n : ℕ) → k < 48 → lacks k (decimal n) ≡ true
unfolding decimal
decimal-lacks_sign k n low = print-lacks_sign k (suc n) n "" low refl

print-all_digits :
    (p : ℕ → Bool) (fuel n : ℕ) (out : String)
    → ((d : ℕ) → p (code (digit d)) ≡ true)
    → all_chars p out ≡ true
    → all_chars p (print fuel n out) ≡ true
unfolding print all_chars
print-all_digits p zero n out each h = h
print-all_digits p (suc fuel) n out each h = ground (
  arith,
  each n,
  each (n % 10),
  print-all_digits p fuel (n / 10) (String.◌∷◌ (digit (n % 10)) out) each,
)

-- Each character of a printed number is a digit.
pub decimal-all_digits :
    (p : ℕ → Bool) (n : ℕ)
    → ((c : ℕ) → 48 ≤ c → c ≤ 57 → p c ≡ true)
    → all_chars p (decimal n) ≡ true
unfolding decimal all_chars
decimal-all_digits p n each =
    print-all_digits p (suc n) n ""
      (λ d. each (code (digit d)) (digit-bounds d).0 (digit-bounds d).1) refl

power_of_ten : ℕ → ℕ
power_of_ten zero = 1
power_of_ten (suc d) = 10 * power_of_ten d

print-chars :
    (d fuel n : ℕ) (out : String)
    → n < power_of_ten (suc d)
    → chars (print fuel n out) ≤ suc d + chars out
unfolding print chars power_of_ten
print-chars d zero n out h = omega arith
print-chars zero (suc fuel) n out h = ground arith
print-chars (suc d) (suc fuel) n out h =
    ground (arith, print-chars d fuel (n / 10) (String.◌∷◌ (digit (n % 10)) out) (omega arith))

-- A number below a power of ten has no more digits than that.
pub decimal-chars : (n : ℕ) → n < 10 ^ 60 → chars (decimal n) ≤ 60
unfolding decimal chars power_of_ten
decimal-chars n h = print-chars 59 (suc n) n "" h
