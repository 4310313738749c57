-- ===== src/Prelude/Keyed.antt =====
-- Tables with a unique column: what adding and saving a row does to it, and reads by it.
use Prim.Native.String.{String}
use mathlib.Core.Path.{◌≡◌, refl, ap}
use mathlib.Core.Logic.{inl, inr}
use mathlib.Core.Bool.{Bool, true, false}
use mathlib.Core.List.{List, [], ◌∷◌, ◌++◌, map}
use native.Mathlib.Omega.{arith}
use text.Mathlib.Text.{◌==◌}
use text.Mathlib.TextEquality.{eq_iff}
use invoices_codex.Prelude.Tests.{Bool-cases}
use invoices_codex.Prelude.Lists.{All, In, contains, filter, save, delete_where}
use invoices_codex.Prelude.Rows.{IsKeyed, filter-nil}

module _ {A : Type 0} where
  -- Rows that do not have this text in a column.
  abbrev pub Lacks : (A → String) → String → List A → Type 0
  Lacks key k = All (λ y. (key y == k) ≡ false)

  pub All-at : (P : A → Type 0) (a : A) (xs : List A) → All P xs → In a xs → P a
  All-at P a [] h i = absurd i
  All-at P a (x ∷ xs) h (inl e) = rw e h.0
  All-at P a (x ∷ xs) h (inr i) = All-at P a xs h.1 i

  All-apply : (P Q : A → Type 0) (xs : List A) → All P xs → All (λ y. P y → Q y) xs → All Q xs
  All-apply P Q [] h f = tt
  All-apply P Q (x ∷ xs) h f = (f.0 h.0, All-apply P Q xs h.1 f.1)

  All-append_last : (P : A → Type 0) (a : A) (xs : List A) → All P xs → P a → All P (xs ++ a ∷ [])
  All-append_last P a [] h pa = (pa, tt)
  All-append_last P a (x ∷ xs) h pa = (h.0, All-append_last P a xs h.1 pa)

  All-save :
      (P : A → Type 0) (key : A → String) (a : A) (xs : List A)
      → All P xs
      → P a
      → All P (save key a xs)
  unfolding save
  All-save P key a [] h pa = tt
  All-save P key a (x ∷ xs) h pa = elim (Bool-cases (key x == key a)) [
    | inl same ↦ rw same (pa, All-save P key a xs h.1 pa)
    | inr other ↦ rw other (h.0, All-save P key a xs h.1 pa)
  ]

  -- A row that a selection holds stands in the table.
  pub In-filter : (p : A → Bool) (a : A) (xs : List A) → filter p xs ≡ a ∷ [] → In a xs
  unfolding filter
  In-filter p a [] h = absurd (ground arith)
  In-filter p a (x ∷ xs) h = elim (Bool-cases (p x)) [
    | inl hit ↦ inl (head_eq (rw hit at h))
    | inr miss ↦ inr (In-filter p a xs (rw miss at h))
  ]
    where
      head_eq : {xs : List A} → x ∷ xs ≡ a ∷ [] → a ≡ x
      head_eq h = ground arith

  module _ (key : A → String) where
    pub Lacks-contains :
        (k : String) (xs : List A) → contains k (map key xs) ≡ false → Lacks key k xs
    Lacks-contains k [] h = tt
    Lacks-contains k (x ∷ xs) h =
        (ground (arith, eq_iff k (key x), eq_iff (key x) k), Lacks-contains k xs (ground arith))

    pub IsKeyed-append_last :
        (a : A) (xs : List A) → IsKeyed key xs → Lacks key (key a) xs → IsKeyed key (xs ++ a ∷ [])
    IsKeyed-append_last a [] u n = (tt, tt)
    IsKeyed-append_last a (x ∷ xs) u n = (
      All-append_last (λ y. (key y == key x) ≡ false) a xs u.0
          (ground (arith, n.0, eq_iff (key x) (key a), eq_iff (key a) (key x))),
      IsKeyed-append_last a xs u.1 n.1,
    )

    -- A read by a unique column finds the one row.
    pub filter-IsKeyed :
        (a : A) (xs : List A) → IsKeyed key xs → In a xs → filter (λ x. key x == key a) xs ≡ a ∷ []
    unfolding filter
    filter-IsKeyed a [] u i = absurd i
    filter-IsKeyed a (x ∷ xs) u (inl e) =
        let rest = filter-nil (λ y. key y == key a) xs (rw e u.0) in
        ground (arith, rest, eq_iff (key x) (key a), ap key e)
    filter-IsKeyed a (x ∷ xs) u (inr i) =
        let apart = All-at (λ y. (key y == key x) ≡ false) a xs u.0 i in
        ground
          (arith, eq_iff (key x) (key a), eq_iff (key a) (key x), apart, filter-IsKeyed a xs u.1 i)

    save-Lacks : (a : A) (xs : List A) → Lacks key (key a) xs → save key a xs ≡ xs
    unfolding save
    save-Lacks a [] h = refl
    save-Lacks a (x ∷ xs) h = ground (arith, save-Lacks a xs h.1)

    Lacks-same :
        (a x : A) (xs : List A)
        → (key x == key a) ≡ true
        → Lacks key (key x) xs
        → Lacks key (key a) xs
    Lacks-same a x xs same u =
        let e : key x ≡ key a = ground (arith, eq_iff (key x) (key a)) in rw (← e) u

    -- Writing a row back keeps the key distinct by which it is written back.
    pub IsKeyed-save : (a : A) (xs : List A) → IsKeyed key xs → IsKeyed key (save key a xs)
    unfolding save
    IsKeyed-save a [] u = tt
    IsKeyed-save a (x ∷ xs) u = elim (Bool-cases (key x == key a)) [
      | inl same ↦
          let apart = Lacks-same a x xs same u.0 in
          rw same (rw (save-Lacks a xs apart) (apart, u.1))
      | inr other ↦ rw other (
        All-save (λ y. (key y == key x) ≡ false) key a xs u.0
            (ground (arith, eq_iff (key x) (key a), eq_iff (key a) (key x))),
        IsKeyed-save a xs u.1,
      )
    ]

    -- Another column stays distinct where no other row has the text that the new row brings.
    module _ (column : A → String) where
      save-Lacks_column :
          (k : String) (a : A) (xs : List A)
          → Lacks column k xs
          → (column a == k) ≡ false
          → Lacks column k (save key a xs)
      save-Lacks_column k a xs h n = All-save (λ y. (column y == k) ≡ false) key a xs h n

      pub IsKeyed-save_column :
          (a : A) (xs : List A)
          → IsKeyed key xs
          → IsKeyed column xs
          → All (λ y. (key y == key a) ≡ false → (column y == column a) ≡ false) xs
          → IsKeyed column (save key a xs)
      unfolding save
      IsKeyed-save_column a [] u v n = tt
      IsKeyed-save_column a (x ∷ xs) u v n = elim (Bool-cases (key x == key a)) [
        | inl same ↦
            let apart = Lacks-same a x xs same u.0 in
            rw same (rw (save-Lacks a xs apart) (All-apply _ _ xs apart n.1, v.1))
        | inr other ↦ rw other (
          save-Lacks_column (column x) a xs v.0 (
              ground
                (arith, n.0 other, eq_iff (column a) (column x), eq_iff (column x) (column a))),
          IsKeyed-save_column a xs u.1 v.1 n.1,
        )
      ]

  module _ (key column : A → String) where
    -- What is kept of a column's texts where the rows of a key are taken out.
    pub All-delete_where :
        (k i : String) (xs : List A)
        → contains k (map column (delete_where (λ y. key y == i) xs)) ≡ false
        → All (λ y. (key y == i) ≡ false → (column y == k) ≡ false) xs
    unfolding delete_where
    All-delete_where k i [] h = tt
    All-delete_where k i (x ∷ xs) h = elim (Bool-cases (key x == i)) [
      | inl same ↦ (λ n. absurd (ground arith), All-delete_where k i xs (rw same at h))
      | inr other ↦
          let h' : contains k (column x ∷ map column (delete_where (λ y. key y == i) xs)) ≡ false =
            rw other at h in
          (
            λ n. ground (arith, eq_iff k (column x), eq_iff (column x) k),
            All-delete_where k i xs (ground arith),
          )
    ]

  -- A row that is written back over one of its key stands in the table.
  pub In-save :
      (key : A → String) (k a : A) (xs : List A) → In k xs → key a ≡ key k → In a (save key a xs)
  unfolding save
  In-save key k a [] i e = absurd i
  In-save key k a (x ∷ xs) (inl h) e =
      let same : (key x == key a) ≡ true = ground (arith, eq_iff (key x) (key a), ap key h) in
      rw same (inl refl)
  In-save key k a (x ∷ xs) (inr i) e = elim (Bool-cases (key x == key a)) [
    | inl same ↦ rw same (inl refl)
    | inr other ↦ rw other (inr (In-save key k a xs i e))
  ]

  module _ (key column : A → String) where
    apart_weaken :
        (k : A) (xs : List A)
        → Lacks column (column k) xs
        → All (λ y. (key y == key k) ≡ false → (column y == column k) ≡ false) xs
    apart_weaken k [] h = tt
    apart_weaken k (x ∷ xs) h = (λ n. h.0, apart_weaken k xs h.1)

    -- In a distinct column the rows of other keys have other texts than a row of the table.
    pub All-IsKeyed :
        (k : A) (xs : List A)
        → IsKeyed column xs
        → In k xs
        → All (λ y. (key y == key k) ≡ false → (column y == column k) ≡ false) xs
    All-IsKeyed k [] u i = absurd i
    All-IsKeyed k (x ∷ xs) u (inl e) = (
      λ n. absurd (ground (arith, eq_iff (key x) (key k), ap key e)),
      apart_weaken k xs (rw e u.0),
    )
    All-IsKeyed k (x ∷ xs) u (inr i) = (
      λ n. ground (
        arith,
        eq_iff (column x) (column k),
        eq_iff (column k) (column x),
        All-at (λ y. (column y == column x) ≡ false) k xs u.0 i,
      ),
      All-IsKeyed k xs u.1 i,
    )
