-- ===== src/Monthly/Moves/Listed.antt =====
-- Which files `iter_invoice_pdfs` lists after a move into a folder that it skips.
use invoices_codex.Prelude.{
  ◌≡◌, refl, ap, ◌∙◌, ◌⊎◌, inl, inr, true, false, List, [], ◌∷◌, ◌++◌, arith, In, Bool-cases,
  eq_iff,
}
use invoices_codex.Monthly.Paths.{FilePath, Entry, same_path, is_skipped, is_invoice_pdf}
use invoices_codex.Monthly.Moves.{move_entry}

pub same_path_refl : (p : FilePath) → same_path p p ≡ true
same_path_refl [] = refl
same_path_refl (x ∷ xs) = ground (arith, same_path_refl xs, eq_iff x x)

pub is_skipped-append : (p q : FilePath) → is_skipped p ≡ true → is_skipped (p ++ q) ≡ true
is_skipped-append [] q h = absurd (ground arith)
is_skipped-append (x ∷ xs) q h = ground (arith, is_skipped-append xs q)

skipped-unlisted :
    (root : FilePath) (e : Entry) → is_skipped e.path ≡ true → is_invoice_pdf root e ≡ false
unfolding is_invoice_pdf
skipped-unlisted root e h = ground arith

-- An entry that is listed after a move into a skipped folder was there, and is not the one that was moved.
module _ (root p p' : FilePath) (skipped : is_skipped p' ≡ true) where
  pub move_entry_sound :
      (fs : List Entry) (e : Entry)
      → is_invoice_pdf root e ≡ true
      → In e (move_entry p p' fs)
      → In e fs × (same_path e.path p ≡ false)
  unfolding move_entry
  move_entry_sound [] e listed i = absurd i
  move_entry_sound (x ∷ fs) e listed i = elim (Bool-cases (same_path x.path p)) [
    | inl same ↦
        let i' : (e ≡ record x { path = p' }) ⊎ In e (move_entry p p' fs) = rw same at i in
        elim i' [
          | inl here ↦
              let hidden : is_invoice_pdf root e ≡ false =
                skipped-unlisted root e
                  (ap is_skipped (ap (λ (y : Entry). y.path) here) ∙ skipped) in
              absurd (ground arith)
          | inr later ↦ let r = move_entry_sound fs e listed later in (inr r.0, r.1)
        ]
    | inr other ↦
        let i' : (e ≡ x) ⊎ In e (move_entry p p' fs) = rw other at i in
        elim i' [
          | inl here ↦ (inl here, ap (λ (y : Entry). same_path y.path p) here ∙ other)
          | inr later ↦ let r = move_entry_sound fs e listed later in (inr r.0, r.1)
        ]
  ]

pub move_entry_complete :
    (p p' : FilePath) (fs : List Entry) (e : Entry)
    → In e fs
    → same_path e.path p ≡ false
    → In e (move_entry p p' fs)
unfolding move_entry
move_entry_complete p p' [] e i other = absurd i
move_entry_complete p p' (x ∷ fs) e (inl here) other =
    let kept : same_path x.path p ≡ false = rw (← here) other in rw kept (inl here)
move_entry_complete p p' (x ∷ fs) e (inr i) other = elim (Bool-cases (same_path x.path p)) [
  | inl same ↦ rw same (inr (move_entry_complete p p' fs e i other))
  | inr kept ↦ rw kept (inr (move_entry_complete p p' fs e i other))
]
