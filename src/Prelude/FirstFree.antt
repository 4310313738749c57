-- ===== src/Prelude/FirstFree.antt =====
-- The loop that tries numbered names until one is free, which the program writes in four places.
use Prim.Native.Nat.{ℕ, zero, suc, ◌+◌, ◌≤◌, ◌<◌}
use Prim.Native.String.{String}
use mathlib.Core.Path.{◌≡◌, refl}
use mathlib.Core.Logic.{inl, inr}
use mathlib.Core.Bool.{Bool, true, false}
use mathlib.Core.Option.{Option, none, some}
use mathlib.Core.List.{List, [], ◌∷◌}
use native.Mathlib.Omega.{arith}
use text.Mathlib.Text.{◌==◌}
use text.Mathlib.TextEquality.{eq_iff}
use invoices_codex.Prelude.Tests.{if◌then◌else◌, Bool-cases}
use invoices_codex.Prelude.Lists.{length, contains, delete_where}

length-delete_where_le :
    (p : String → Bool) (names : List String) → length (delete_where p names) ≤ length names
unfolding delete_where
length-delete_where_le p [] = omega arith
length-delete_where_le p (x ∷ xs) = ground (arith, length-delete_where_le p xs)

-- A name that stands in a list and is taken out makes the list shorter.
length-delete_where_lt :
    (x : String) (names : List String)
    → contains x names ≡ true
    → length (delete_where (λ y. x == y) names) < length names
unfolding delete_where
length-delete_where_lt x [] h = absurd (ground arith)
length-delete_where_lt x (y ∷ ys) h =
    ground (arith, length-delete_where_le (λ z. x == z) ys, length-delete_where_lt x ys)

contains-delete_where :
    (x y : String) (names : List String)
    → contains y names ≡ true
    → (x == y) ≡ false
    → contains y (delete_where (λ z. x == z) names) ≡ true
unfolding delete_where
contains-delete_where x y [] h n = absurd (ground arith)
contains-delete_where x y (z ∷ zs) h n =
    ground (arith, eq_iff y z, eq_iff x z, eq_iff x y, contains-delete_where x y zs)

module _ (candidate : ℕ → String) where
  -- `while taken(candidate(i)): i += 1`; `none` is fuel that ran out.
  unfoldable pub first_free : ℕ → ℕ → (String → Bool) → Option String
  first_free zero i taken = none
  first_free (suc fuel) i taken =
      let rest = first_free fuel (i + 1) taken in
      if taken (candidate i) then rest else some (candidate i)

  -- A text that the loop comes back with is one of the candidates it has tried.
  pub first_free-candidate :
      (fuel i : ℕ) (taken : String → Bool) (s : String)
      → first_free fuel i taken ≡ some s
      → (k : ℕ) × (s ≡ candidate k) × (k < i + fuel)
  unfolding first_free
  first_free-candidate zero i taken s h = absurd (ground arith)
  first_free-candidate (suc fuel) i taken s h = elim (Bool-cases (taken (candidate i))) [
    | inr free ↦ (i, ground arith, omega arith)
    | inl hit ↦
        let later = first_free-candidate fuel (i + 1) taken s (rw hit at h) in
        (later.0, later.1, omega (arith, later.2))
  ]

  module _ (distinct : (i j : ℕ) → candidate i ≡ candidate j → i ≡ j) (taken : String → Bool) where
    -- With more fuel than there are taken names the loop ends, with a candidate that is free.
    pub first_free-ends :
        (fuel i : ℕ) (names : List String)
        → ((j : ℕ) → i ≤ j → taken (candidate j) ≡ true → contains (candidate j) names ≡ true)
        → length names < fuel
        → (k : ℕ) × (i ≤ k)
          × (first_free fuel i taken ≡ some (candidate k))
          × (taken (candidate k) ≡ false)
    unfolding first_free
    first_free-ends zero i names known enough = absurd (omega arith)
    first_free-ends (suc fuel) i names known enough = elim (Bool-cases (taken (candidate i))) [
      | inr free ↦ (i, omega arith, rw free refl, free)
      | inl hit ↦
          let there = known i (omega arith) hit in
          let rest =
            first_free-ends fuel (i + 1) (delete_where (λ z. candidate i == z) names)
              (λ j later h.
                contains-delete_where (candidate i) (candidate j) names (known j (omega arith) h)
                  (other i j later))
              (omega (arith, length-delete_where_lt (candidate i) names there)) in
          (rest.0, omega (arith, rest.1), rw hit rest.2, rest.3)
    ]
      where
        other : (i j : ℕ) → i + 1 ≤ j → (candidate i == candidate j) ≡ false
        other i j later = ground (arith, eq_iff (candidate i) (candidate j), distinct i j)
