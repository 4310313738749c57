-- ===== src/Monthly/Moves.antt =====
-- Files moved into a folder beside the others: `shutil.move` under a name that `ensure_unique` gives.
pub mod Listed
pub mod OwnPaths
use invoices_codex.Prelude.{
  String, ◌≡◌, refl, ap, ◌∙◌, ◌⊎◌, inl, inr, none, some, List, [], ◌∷◌, ◌++◌, if◌then◌else◌,
  Bool-cases,
}
use invoices_codex.Monthly.Paths.{FilePath, Entry, same_path, file_name, ensure_unique}
use invoices_codex.Monthly.Paths.Unique.{ensure_unique-free}

-- The entry at a path stands at another one.
unfoldable pub move_entry : FilePath → FilePath → List Entry → List Entry
move_entry p p' [] = []
move_entry p p' (e ∷ fs) =
    let rest = move_entry p p' fs in
    if same_path e.path p then (record e { path = p' }) ∷ rest else e ∷ rest

-- `shutil.move(str(pdf), ensure_unique(folder, pdf.name))`
unfoldable pub move_into : FilePath → Entry → List Entry → List Entry
move_into folder pdf fs = elim (ensure_unique fs folder (file_name pdf.path)) [
  | none ↦ fs
  | some name ↦ move_entry pdf.path (folder ++ name ∷ []) fs
]

-- Entries that stand where they were, or right in a folder, with the content that they had.
abbrev pub AreMoved : FilePath → List Entry → List Entry → Type 0
AreMoved folder [] [] = Unit
AreMoved folder [] (e' ∷ es') = ⊥
AreMoved folder (e ∷ es) [] = ⊥
AreMoved folder (e ∷ es) (e' ∷ es') =
    ((e' ≡ e) ⊎ ((n : String) × (e' ≡ record e { path = folder ++ n ∷ [] })))
    × AreMoved folder es es'

pub AreMoved-refl : (folder : FilePath) (fs : List Entry) → AreMoved folder fs fs
AreMoved-refl folder [] = tt
AreMoved-refl folder (e ∷ fs) = (inl refl, AreMoved-refl folder fs)

pub AreMoved-trans :
    (folder : FilePath) (fs gs hs : List Entry)
    → AreMoved folder fs gs
    → AreMoved folder gs hs
    → AreMoved folder fs hs
AreMoved-trans folder [] [] [] a b = tt
AreMoved-trans folder [] [] (h ∷ hs) a b = absurd b
AreMoved-trans folder [] (g ∷ gs) hs a b = absurd a
AreMoved-trans folder (f ∷ fs) [] hs a b = absurd a
AreMoved-trans folder (f ∷ fs) (g ∷ gs) [] a b = absurd b
AreMoved-trans folder (f ∷ fs) (g ∷ gs) (h ∷ hs) a b =
    (step a.0 b.0, AreMoved-trans folder fs gs hs a.1 b.1)
  where
    step :
        (g ≡ f) ⊎ ((n : String) × (g ≡ record f { path = folder ++ n ∷ [] }))
        → (h ≡ g) ⊎ ((n : String) × (h ≡ record g { path = folder ++ n ∷ [] }))
        → (h ≡ f) ⊎ ((n : String) × (h ≡ record f { path = folder ++ n ∷ [] }))
    step (inl e) (inl e') = inl (e' ∙ e)
    step (inl e) (inr (n, e')) =
        inr (n, e' ∙ ap (λ (x : Entry). record x { path = folder ++ n ∷ [] }) e)
    step (inr (n, e)) (inl e') = inr (n, e' ∙ e)
    step (inr (n, e)) (inr (m, e')) =
        inr (m, e' ∙ ap (λ (x : Entry). record x { path = folder ++ m ∷ [] }) e)

AreMoved-move_entry :
    (folder p : FilePath) (n : String) (fs : List Entry)
    → AreMoved folder fs (move_entry p (folder ++ n ∷ []) fs)
unfolding move_entry
AreMoved-move_entry folder p n [] = tt
AreMoved-move_entry folder p n (e ∷ fs) = elim (Bool-cases (same_path e.path p)) [
  | inl same ↦ rw same (inr (n, refl), AreMoved-move_entry folder p n fs)
  | inr other ↦ rw other (inl refl, AreMoved-move_entry folder p n fs)
]

-- A move changes no content, and no path but to one in the folder.
pub AreMoved-move_into :
    (folder : FilePath) (pdf : Entry) (fs : List Entry)
    → AreMoved folder fs (move_into folder pdf fs)
unfolding move_into
AreMoved-move_into folder pdf fs =
    let (n, got, free) = ensure_unique-free fs folder (file_name pdf.path) in
    rw (move_into, got) (AreMoved-move_entry folder pdf.path n fs)
