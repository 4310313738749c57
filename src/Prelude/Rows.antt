-- ===== src/Prelude/Rows.antt =====
-- Tables as lists of rows: how a saved row shows in a selection.
use mathlib.Core.Path.{◌≡◌, refl, ap}
use mathlib.Core.Logic.{inl, inr}
use mathlib.Core.Bool.{Bool, true, false}
use mathlib.Core.List.{List, [], ◌∷◌, ◌++◌}
use native.Mathlib.Omega.{arith}
use Prim.Native.String.{String}
use text.Mathlib.Text.{◌==◌}
use text.Mathlib.TextEquality.{eq_iff}
use invoices_codex.Prelude.Tests.{Bool-cases}
use invoices_codex.Prelude.Lists.{All, filter, save}

module _ {A : Type 0} (key : A → String) where
  -- No two rows have one key.
  abbrev pub IsKeyed : List A → Type 0
  IsKeyed [] = Unit
  IsKeyed (x ∷ xs) = All (λ y. (key y == key x) ≡ false) xs × IsKeyed xs

-- A one-row list taken apart.
cons_single : {A : Type 0} {x a : A} {xs : List A} → x ∷ xs ≡ a ∷ [] → (x ≡ a) × (xs ≡ [])
cons_single h = ground arith

module _ {A : Type 0} (p : A → Bool) where
  -- The rows that a selection leaves out.
  pub filter-nil : (xs : List A) → All (λ x. p x ≡ false) xs → filter p xs ≡ []
  unfolding filter
  filter-nil [] h = refl
  filter-nil (x ∷ xs) h = ground (arith, filter-nil xs h.1)

  pub All-filter_nil : (xs : List A) → filter p xs ≡ [] → All (λ x. p x ≡ false) xs
  unfolding filter
  All-filter_nil [] h = tt
  All-filter_nil (x ∷ xs) h = elim (Bool-cases (p x)) [
    | inl hit ↦ absurd (ground arith)
    | inr miss ↦ (miss, All-filter_nil xs (rw miss at h))
  ]

  pub filter-append : (xs ys : List A) → filter p (xs ++ ys) ≡ filter p xs ++ filter p ys
  unfolding filter
  filter-append [] ys = refl
  filter-append (x ∷ xs) ys = ground (arith, filter-append xs ys)

  -- What a selection holds meets its condition.
  pub filter_holds : (a : A) (xs : List A) → filter p xs ≡ a ∷ [] → p a ≡ true
  unfolding filter
  filter_holds a [] h = absurd (ground arith)
  filter_holds a (x ∷ xs) h = elim (Bool-cases (p x)) [
    | inl hit ↦ let one = cons_single (rw hit at h) in rw (← one.0) hit
    | inr miss ↦ filter_holds a xs (rw miss at h)
  ]

  module _ (key : A → String) where
    save-no_key :
        (a : A) (xs : List A) → All (λ y. (key y == key a) ≡ false) xs → save key a xs ≡ xs
    unfolding save
    save-no_key a [] h = refl
    save-no_key a (x ∷ xs) h = ground (arith, save-no_key a xs h.1)

    -- A row apart from the selected one has another key.
    key_of_other :
        (a x : A) (xs : List A)
        → filter p xs ≡ a ∷ []
        → All (λ y. (key y == key x) ≡ false) xs
        → (key a == key x) ≡ false
    unfolding filter
    key_of_other a x [] h u = absurd (ground arith)
    key_of_other a x (y ∷ xs) h u = elim (Bool-cases (p y)) [
      | inl hit ↦ let one = cons_single (rw hit at h) in rw (← one.0) u.0
      | inr miss ↦ key_of_other a x xs (rw miss at h) u.1
    ]

    -- A row that is written back under a key changes no selection that holds no row of that key
    -- before or after.
    pub filter-save_none :
        (a : A) (xs : List A)
        → p a ≡ false
        → All (λ x. p x ≡ false) xs
        → filter p (save key a xs) ≡ []
    unfolding filter save
    filter-save_none a [] pa h = refl
    filter-save_none a (x ∷ xs) pa h = ground (arith, filter-save_none a xs pa h.1)

    -- The one row that a selection held is gone once it is written back without what selected it.
    pub filter-save_dropped :
        (a a' : A) (xs : List A)
        → p a' ≡ false
        → key a' ≡ key a
        → filter p xs ≡ a ∷ []
        → filter p (save key a' xs) ≡ []
    unfolding filter save
    filter-save_dropped a a' [] pa k h = refl
    filter-save_dropped a a' (x ∷ xs) pa k h = elim (Bool-cases (p x)) [
      | inl hit ↦
          let one = cons_single (rw hit at h) in
          let none_left = filter-save_none a' xs pa (All-filter_nil xs one.1) in
          ground (arith, eq_iff (key x) (key a'), ap key one.0)
      | inr miss ↦ ground (arith, filter-save_dropped a a' xs pa k (rw miss at h))
    ]

    -- The one row that a selection held is replaced, once it is written back with what selected it.
    pub filter-save_kept :
        (a a' : A) (xs : List A)
        → p a' ≡ true
        → key a' ≡ key a
        → IsKeyed key xs
        → filter p xs ≡ a ∷ []
        → filter p (save key a' xs) ≡ a' ∷ []
    unfolding filter save
    filter-save_kept a a' [] pa k u h = absurd (ground arith)
    filter-save_kept a a' (x ∷ xs) pa k u h = elim (Bool-cases (p x)) [
      | inl hit ↦
          let one = cons_single (rw hit at h) in
          let same = save-no_key a' xs (rw (k, ← one.0) u.0) in
          ground (arith, eq_iff (key x) (key a'), ap key one.0, same)
      | inr miss ↦ ground (
        arith,
        filter-save_kept a a' xs pa k u.1 (rw miss at h),
        key_of_other a x xs (rw miss at h) u.0,
        eq_iff (key x) (key a'),
      )
    ]

    filter-save_other :
        (a' : A) (xs : List A)
        → p a' ≡ false
        → All (λ x. (key x == key a') ≡ true → p x ≡ false) xs
        → filter p (save key a' xs) ≡ filter p xs
    unfolding filter save
    filter-save_other a' [] pa h = refl
    filter-save_other a' (x ∷ xs) pa h = ground (arith, filter-save_other a' xs pa h.1, h.0)
