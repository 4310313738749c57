-- ===== src/Examples/Folders.antt =====
-- Folders of PDFs, consolidated and freed of duplicates.
use invoices_codex.Prelude.{String, refl, true, false, none, List, [], ◌∷◌, joined}
use invoices_codex.Monthly.Paths.{FilePath, Entry}
use invoices_codex.Monthly.Consolidation.{consolidate_pdfs}
use invoices_codex.Monthly.Consolidation.Refined.{
  IsApart, Consolidated, consolidate_pdfs-Consolidated,
}
use invoices_codex.Monthly.Moves.OwnPaths.{HaveOwnPaths}
use invoices_codex.Monthly.Dedupe.{PdfTools, dedupe_provider_dir}
use invoices_codex.Monthly.Dedupe.Kept.{Deduped, dedupe_provider_dir-Deduped}

abbrev pub pdf : FilePath → String → Entry
pdf path content = record { path = path; is_file = true; readable = true; content = content }

abbrev files : List Entry
files =
    pdf ("invoices" ∷ "gmail" ∷ "a.pdf" ∷ []) "one"
    ∷ pdf ("invoices" ∷ "gmail" ∷ "b.pdf" ∷ []) "two"
    ∷ pdf ("invoices" ∷ "gmail" ∷ "c.pdf" ∷ []) "one"
    ∷ pdf ("invoices" ∷ "all" ∷ "a.pdf" ∷ []) "three"
    ∷ []

abbrev hash : String → String
hash t = joined "h-" t

abbrev gmail : FilePath
gmail = "invoices" ∷ "gmail" ∷ []

abbrev all : FilePath
all = "invoices" ∷ "all" ∷ []

apart : IsApart all gmail
apart n = (refl, refl)

consolidate_pdfs-Consolidated_example :
    Consolidated hash all (gmail ∷ []) files "h-two" (consolidate_pdfs hash all (gmail ∷ []) files)
consolidate_pdfs-Consolidated_example =
    consolidate_pdfs-Consolidated hash all gmail [] files "h-two" (apart, tt)

abbrev pub pdf_tools : PdfTools
pdf_tools = record {
  hash = hash;
  match_copy = λ stem. none;
  have_pymupdf = false;
  text_fingerprint_of = λ t. none;
  can_move = λ e. true;
}

abbrev pub files-own : HaveOwnPaths files
files-own = (
  ((refl, refl), ((refl, refl), ((refl, refl), tt))),
  (((refl, refl), ((refl, refl), tt)), (((refl, refl), tt), (tt, tt))),
)

dedupe_provider_dir-Deduped_example :
    Deduped pdf_tools gmail files (dedupe_provider_dir pdf_tools gmail files)
dedupe_provider_dir-Deduped_example =
    dedupe_provider_dir-Deduped pdf_tools gmail files refl files-own
