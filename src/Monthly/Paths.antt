-- ===== src/Monthly/Paths.antt =====
-- Files and folders as the monthly tools see them: `iter_invoice_pdfs` and `ensure_unique`, which
-- cli/monthly_invoices.py and cli/quarantine_invoices.py both have.
pub mod Unique
use Prim.Native.Char.{code}
use invoices_codex.Prelude.{
  ℕ, zero, suc, String, Bool, true, false, not, ◌&&◌, ◌||◌, Option, none, some, List, [], ◌∷◌, ◌++◌,
  ◌==◌, contains, filter, length, map, joined, eqb, if◌then◌else◌,
}
use invoices_codex.Prelude.FirstFree.{first_free}
use invoices_codex.Prelude.Decimal.{decimal}

-- The parts of a path.
abbrev pub FilePath : Type 0
FilePath = List String

-- An entry of the file system; `readable` says whether its bytes can be read.
pub record Entry : Type 0 where
  pub path : FilePath
  pub is_file : Bool
  pub readable : Bool
  pub content : String

abbrev pub same_path : FilePath → FilePath → Bool
same_path [] [] = true
same_path [] (y ∷ ys) = false
same_path (x ∷ xs) [] = false
same_path (x ∷ xs) (y ∷ ys) = x == y && same_path xs ys

-- A path below a folder.
abbrev pub in_folder : FilePath → FilePath → Bool
in_folder [] [] = false
in_folder [] (x ∷ xs) = true
in_folder (r ∷ rs) [] = false
in_folder (r ∷ rs) (x ∷ xs) = r == x && in_folder rs xs

-- `path.name`
abbrev pub file_name : FilePath → String
file_name [] = ""
file_name (x ∷ []) = x
file_name (x ∷ y ∷ ys) = file_name (y ∷ ys)

-- `path.exists()`, of a file and of a folder with something in it.
abbrev pub exists : List Entry → FilePath → Bool
exists [] p = false
exists (e ∷ fs) p = same_path e.path p || exists fs p

abbrev pub folder_exists : List Entry → FilePath → Bool
folder_exists [] p = false
folder_exists (e ∷ fs) p = (same_path e.path p || in_folder p e.path) || folder_exists fs p

-- `name` matches `*.pdf`
unfoldable pub is_pdf_name : String → Bool
is_pdf_name String.[] = false
is_pdf_name (String.◌∷◌ c s) = String.◌∷◌ c s == ".pdf" || is_pdf_name s

-- `any(part in SKIP_DIRS for part in path.parts)`
abbrev pub is_skipped : FilePath → Bool
is_skipped [] = false
is_skipped (x ∷ xs) = contains x ("_tmp" ∷ "quarantine" ∷ "duplicates" ∷ []) || is_skipped xs

unfoldable pub is_invoice_pdf : FilePath → Entry → Bool
unfolding is_pdf_name
is_invoice_pdf root e =
    in_folder root e.path && is_pdf_name (file_name e.path) && not (is_skipped e.path) && e.is_file

unfoldable pub iter_invoice_pdfs : List Entry → FilePath → List Entry
iter_invoice_pdfs fs root = filter (is_invoice_pdf root) fs

-- A name before its last dot, and from it on.
abbrev at_last_dot : String → Option (String × String)
at_last_dot String.[] = none
at_last_dot (String.◌∷◌ c s) = elim (at_last_dot s) [
  | some (a, b) ↦ some (String.◌∷◌ c a, b)
  | none ↦ if eqb (code c) b'.' then some ("", String.◌∷◌ c s) else none
]

-- `path.stem` and `path.suffix`
abbrev pub stem_and_suffix : String → String × String
stem_and_suffix name = elim (at_last_dot name) [
  | none ↦ (name, "")
  | some (a, b) ↦ if a == "" || b == "." then (name, "") else (a, b)
]

-- `f"{stem}__{counter}{suffix}"`
unfoldable pub numbered_name : String → ℕ → String
numbered_name name counter =
    let (stem, suffix) = stem_and_suffix name in
    joined stem (joined "__" (joined (decimal counter) suffix))

-- The file name of the path that `ensure_unique` comes back with, on fuel.
unfoldable pub ensure_unique : List Entry → FilePath → String → Option String
ensure_unique fs dest_dir name =
    let numbered =
      first_free (numbered_name name) (suc (length fs)) 2 (λ n. exists fs (dest_dir ++ n ∷ [])) in
    if exists fs (dest_dir ++ name ∷ []) then numbered else some name
