-- ===== src/Monthly/Moves/OwnPaths.antt =====
-- Files that stand each at a path of its own, before and after a move to a path that is free.
use invoices_codex.Prelude.{
  ◌≡◌, refl, ap, ◌∙◌, inl, inr, true, false, List, [], ◌∷◌, ◌++◌, arith, All, Bool-cases, eq_iff,
}
use invoices_codex.Monthly.Paths.{FilePath, Entry, same_path, file_name, exists}
use invoices_codex.Monthly.Paths.Unique.{ensure_unique-free}
use invoices_codex.Monthly.Moves.{move_entry, move_into}

-- Two files at different paths.
abbrev pub AreApartAt : Entry → Entry → Type 0
AreApartAt x y = (same_path y.path x.path ≡ false) × (same_path x.path y.path ≡ false)

-- No two of the files stand at one path.
abbrev pub HaveOwnPaths : List Entry → Type 0
HaveOwnPaths [] = Unit
HaveOwnPaths (x ∷ xs) = All (AreApartAt x) xs × HaveOwnPaths xs

same_path_sym : (p q : FilePath) → same_path p q ≡ same_path q p
same_path_sym [] [] = refl
same_path_sym [] (y ∷ ys) = refl
same_path_sym (x ∷ xs) [] = refl
same_path_sym (x ∷ xs) (y ∷ ys) = ground (arith, same_path_sym xs ys, eq_iff x y, eq_iff y x)

same_path_trans :
    (p q r : FilePath) → same_path p q ≡ true → same_path q r ≡ true → same_path p r ≡ true
same_path_trans [] [] r a b = b
same_path_trans [] (y ∷ ys) r a b = absurd (ground arith)
same_path_trans (x ∷ xs) [] r a b = absurd (ground arith)
same_path_trans (x ∷ xs) (y ∷ ys) [] a b = absurd (ground arith)
same_path_trans (x ∷ xs) (y ∷ ys) (z ∷ zs) a b =
    ground (arith, same_path_trans xs ys zs, eq_iff x y, eq_iff y z, eq_iff x z)

free_of :
    (fs : List Entry) (q : FilePath)
    → exists fs q ≡ false
    → All (λ (e : Entry). same_path e.path q ≡ false) fs
free_of [] q h = tt
free_of (e ∷ fs) q h = (ground arith, free_of fs q (ground arith))

module _ (p q : FilePath) where
  -- A move that finds no file changes nothing.
  move_entry-none :
      (xs : List Entry)
      → All (λ (y : Entry). same_path y.path p ≡ false) xs
      → move_entry p q xs ≡ xs
  unfolding move_entry
  move_entry-none [] h = refl
  move_entry-none (x ∷ xs) h = rw h.0 (ap (λ l. x ∷ l) (move_entry-none xs h.1))

  others_elsewhere :
      (x : Entry) (xs : List Entry)
      → same_path x.path p ≡ true
      → All (AreApartAt x) xs
      → All (λ (y : Entry). same_path y.path p ≡ false) xs
  others_elsewhere x [] same apart = tt
  others_elsewhere x (y ∷ ys) same apart = (
    elim (Bool-cases (same_path y.path p)) [
      | inr other ↦ other
      | inl here ↦
          let met = same_path_trans y.path p x.path here (same_path_sym p x.path ∙ same) in
          absurd (ground (arith, apart.0))
    ],
    others_elsewhere x ys same apart.1,
  )

  moved-apart :
      (x : Entry) (xs : List Entry)
      → All (λ (y : Entry). same_path y.path q ≡ false) xs
      → All (AreApartAt (record x { path = q })) xs
  moved-apart x [] free = tt
  moved-apart x (y ∷ ys) free = ((free.0, same_path_sym q y.path ∙ free.0), moved-apart x ys free.1)

  kept-apart :
      (x : Entry) (xs : List Entry)
      → same_path x.path q ≡ false
      → All (AreApartAt x) xs
      → All (AreApartAt x) (move_entry p q xs)
  unfolding move_entry
  kept-apart x [] free apart = tt
  kept-apart x (y ∷ ys) free apart = elim (Bool-cases (same_path y.path p)) [
    | inl here ↦ rw here ((same_path_sym q x.path ∙ free, free), kept-apart x ys free apart.1)
    | inr other ↦ rw other (apart.0, kept-apart x ys free apart.1)
  ]

  move_entry-HaveOwnPaths :
      (xs : List Entry)
      → HaveOwnPaths xs
      → All (λ (y : Entry). same_path y.path q ≡ false) xs
      → HaveOwnPaths (move_entry p q xs)
  unfolding move_entry
  move_entry-HaveOwnPaths [] own free = tt
  move_entry-HaveOwnPaths (x ∷ xs) own free = elim (Bool-cases (same_path x.path p)) [
    | inr other ↦ rw other (kept-apart x xs free.0 own.0, move_entry-HaveOwnPaths xs own.1 free.1)
    | inl here ↦
        let still = move_entry-none xs (others_elsewhere x xs here own.0) in
        rw here (rw still (moved-apart x xs free.1, own.1))
  ]

pub move_into-HaveOwnPaths :
    (folder : FilePath) (pdf : Entry) (fs : List Entry)
    → HaveOwnPaths fs
    → HaveOwnPaths (move_into folder pdf fs)
unfolding move_into
move_into-HaveOwnPaths folder pdf fs own =
    let (n, got, free) = ensure_unique-free fs folder (file_name pdf.path) in
    rw (move_into, got)
      (move_entry-HaveOwnPaths pdf.path (folder ++ n ∷ []) fs own
        (free_of fs (folder ++ n ∷ []) free))
