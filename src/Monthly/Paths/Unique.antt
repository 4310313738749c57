-- ===== src/Monthly/Paths/Unique.antt =====
-- The loop of `ensure_unique`.
use invoices_codex.Prelude.{
  ℕ, suc, String, ◌≡◌, refl, ap, ◌∙◌, true, false, some, inl, inr, List, [], ◌∷◌, ◌++◌, arith,
  contains, length, length-map, map, Bool-cases, eq_iff,
}
use text.Mathlib.TextLemmas.{append_cancel_left, append_cancel_right}
use invoices_codex.Prelude.FirstFree.{first_free-ends}
use invoices_codex.Prelude.Decimal.{decimal_inj}
use invoices_codex.Monthly.Paths.{
  FilePath, Entry, same_path, file_name, exists, stem_and_suffix, numbered_name, ensure_unique,
}

numbered_name_inj : (name : String) (i j : ℕ) → numbered_name name i ≡ numbered_name name j → i ≡ j
unfolding numbered_name
numbered_name_inj name i j e = decimal_inj i j (
    append_cancel_right _ _ _
      (append_cancel_left "__" _ _ (append_cancel_left (stem_and_suffix name).0 _ _ e)))

file_name-append_last : (p : FilePath) (n : String) → file_name (p ++ n ∷ []) ≡ n
file_name-append_last [] n = refl
file_name-append_last (x ∷ []) n = refl
file_name-append_last (x ∷ y ∷ ys) n = file_name-append_last (y ∷ ys) n

same_path_eq : (p q : FilePath) → same_path p q ≡ true → p ≡ q
same_path_eq [] [] h = refl
same_path_eq [] (y ∷ ys) h = absurd (ground arith)
same_path_eq (x ∷ xs) [] h = absurd (ground arith)
same_path_eq (x ∷ xs) (y ∷ ys) h = ground (arith, eq_iff x y, same_path_eq xs ys)

exists-contains :
    (fs : List Entry) (dest : FilePath) (n : String)
    → exists fs (dest ++ n ∷ []) ≡ true
    → contains n (map (λ (e : Entry). file_name e.path) fs) ≡ true
exists-contains [] dest n h = absurd (ground arith)
exists-contains (e ∷ fs) dest n h = elim (Bool-cases (same_path e.path (dest ++ n ∷ []))) [
  | inl same ↦
      let named : file_name e.path ≡ n =
        ap file_name (same_path_eq e.path (dest ++ n ∷ []) same) ∙ file_name-append_last dest n in
      ground (arith, named, eq_iff n (file_name e.path))
  | inr other ↦ ground (arith, exists-contains fs dest n)
]

-- `ensure_unique` always comes back, and nothing stands at the path that it comes back with.
pub ensure_unique-free :
    (fs : List Entry) (dest : FilePath) (name : String)
    → (n : String) × (ensure_unique fs dest name ≡ some n) × (exists fs (dest ++ n ∷ []) ≡ false)
unfolding ensure_unique
ensure_unique-free fs dest name = elim (Bool-cases (exists fs (dest ++ name ∷ []))) [
  | inr free ↦ (name, rw free refl, free)
  | inl taken ↦
      let names = map (λ (e : Entry). file_name e.path) fs in
      let ends =
        first_free-ends (numbered_name name) (numbered_name_inj name)
          (λ n. exists fs (dest ++ n ∷ [])) (suc (length fs)) 2 names
          (λ j later h. exists-contains fs dest (numbered_name name j) h)
          (omega (arith, length-map (λ (e : Entry). file_name e.path) fs)) in
      (numbered_name name ends.0, rw taken ends.2, ends.3)
]
