-- ===== src/Monthly/Dedupe/Staying.antt =====
-- Which files may stay in a folder that is freed of duplicates.
use invoices_codex.Prelude.{
  ◌≡◌, refl, Bool, true, false, none, inl, inr, List, [], ◌∷◌, ◌++◌, arith, All, Bool-cases, ◌⊎◌,
  In, filter,
}
use invoices_codex.Monthly.Paths.{FilePath, Entry, same_path, is_skipped}
use invoices_codex.Monthly.Moves.OwnPaths.{HaveOwnPaths}
use invoices_codex.Monthly.Moves.Listed.{same_path_refl}
use invoices_codex.Monthly.Dedupe.{PdfTools, prints_of}

pub still_there :
    (fs fs' : List Entry) (pdf : Entry) (xs : List Entry)
    → ((x : Entry)
        → In x fs
        → All (λ (y : Entry). same_path x.path y.path ≡ false) (pdf ∷ [])
        → In x fs')
    → All
        (λ (y : Entry). (same_path y.path pdf.path ≡ false) × (same_path pdf.path y.path ≡ false))
        xs
    → All (λ (x : Entry). In x fs) xs
    → All (λ (x : Entry). In x fs') xs
still_there fs fs' pdf [] stays own there = tt
still_there fs fs' pdf (x ∷ xs) stays own there =
    (stays x there.0 (own.0.0, tt), still_there fs fs' pdf xs stays own.1 there.1)

pub apart_from :
    (pdf : Entry) (xs : List Entry)
    → All
        (λ (y : Entry). (same_path y.path pdf.path ≡ false) × (same_path pdf.path y.path ≡ false))
        xs
    → All (λ (y : Entry). same_path pdf.path y.path ≡ false) xs
apart_from pdf [] own = tt
apart_from pdf (x ∷ xs) own = (own.0.1, apart_from pdf xs own.1)

pub All-filter :
    (P : Entry → Type 0) (p : Entry → Bool) (xs : List Entry) → All P xs → All P (filter p xs)
unfolding filter
All-filter P p [] h = tt
All-filter P p (x ∷ xs) h = elim (Bool-cases (p x)) [
  | inl hit ↦ rw hit (h.0, All-filter P p xs h.1)
  | inr miss ↦ rw miss (All-filter P p xs h.1)
]

pub HaveOwnPaths-filter :
    (p : Entry → Bool) (xs : List Entry) → HaveOwnPaths xs → HaveOwnPaths (filter p xs)
unfolding filter
HaveOwnPaths-filter p [] h = tt
HaveOwnPaths-filter p (x ∷ xs) h = elim (Bool-cases (p x)) [
  | inl hit ↦ rw hit (All-filter _ p xs h.0, HaveOwnPaths-filter p xs h.1)
  | inr miss ↦ rw miss (HaveOwnPaths-filter p xs h.1)
]

pub In-All :
    (fs xs : List Entry) → ((x : Entry) → In x xs → In x fs) → All (λ (x : Entry). In x fs) xs
In-All fs [] h = tt
In-All fs (x ∷ xs) h = (h x (inl refl), In-All fs xs (λ y i. h y (inr i)))

pub folder-skipped : (p : FilePath) → is_skipped (p ++ "duplicates" ∷ []) ≡ true
folder-skipped [] = refl
folder-skipped (x ∷ xs) = ground (arith, folder-skipped xs)

-- A file that was kept, could not be read, or could not be moved.
abbrev pub MayStay : PdfTools → List Entry → Entry → Type 0
MayStay tools es x = In x es ⊎ ((prints_of tools x ≡ none) ⊎ (tools.can_move x ≡ false))

pub MayStay-grows :
    (tools : PdfTools) (es es' : List Entry)
    → ((e : Entry) → In e es → In e es')
    → (x : Entry) → MayStay tools es x
    → MayStay tools es' x
MayStay-grows tools es es' grows x (inl i) = inl (grows x i)
MayStay-grows tools es es' grows x (inr o) = inr o

-- The rejected files that stand at the path of an entry.
abbrev pub Left : PdfTools → List Entry → List Entry → Entry → Type 0
Left tools es [] e = Unit
Left tools es (x ∷ xs) e =
    ((same_path e.path x.path ≡ true) → MayStay tools es x) × Left tools es xs e

pub Left-grows :
    (tools : PdfTools) (es es' pdfs : List Entry) (e : Entry)
    → ((x : Entry) → In x es → In x es')
    → Left tools es pdfs e
    → Left tools es' pdfs e
Left-grows tools es es' [] e grows l = tt
Left-grows tools es es' (x ∷ xs) e grows l =
    (λ same. MayStay-grows tools es es' grows x (l.0 same), Left-grows tools es es' xs e grows l.1)

pub Left-self :
    (tools : PdfTools) (es pdfs : List Entry) (e : Entry)
    → In e pdfs
    → Left tools es pdfs e
    → MayStay tools es e
Left-self tools es [] e i l = absurd i
Left-self tools es (x ∷ xs) e (inl here) l =
    let same : same_path e.path x.path ≡ true = rw (← here) (same_path_refl e.path) in
    rw here (l.0 same)
Left-self tools es (x ∷ xs) e (inr i) l = Left-self tools es xs e i l.1
