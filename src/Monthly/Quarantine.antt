-- ===== src/Monthly/Quarantine.antt =====
-- cli/quarantine_invoices.py: PDFs that fail the keyword tests are moved out of the way.
pub mod Left
use invoices_codex.Prelude.{
  ℕ, ◌+◌, String, Bool, not, ◌&&◌, ◌||◌, Option, none, some, List, [], ◌∷◌, ◌++◌, ◌==◌, eqb, ltb,
  or_empty, if◌then◌else◌,
}
use invoices_codex.Monthly.Paths.{FilePath, Entry, iter_invoice_pdfs}
use invoices_codex.Monthly.Moves.{move_into}

-- What `pdf_keyword_stats` gives; whether a hint is there and not empty.
pub record KeywordStats : Type 0 where
  pub pos_hits : ℕ
  pub neg_hits : ℕ
  pub strong_hits : ℕ
  pub amount_hint : Bool
  pub invoice_id_hint : Bool

pub record QuarantineArgs : Type 0 where
  pub input_dir : String
  pub quarantine_dir : Option String
  pub dry_run : Bool

-- `pdf_keyword_stats` on a file's content, and `Path(text).expanduser()`.
pub record QuarantineTools : Type 0 where
  pub have_pymupdf : Bool
  pub pdf_keyword_stats : String → KeywordStats
  pub expanduser : String → FilePath

pub record Scan : Type 0 where
  pub files : List Entry
  pub scanned : ℕ
  pub moved : ℕ

abbrev pub iter_pdfs : List Entry → FilePath → List Entry
iter_pdfs fs root = iter_invoice_pdfs fs root

abbrev pub quarantine_folder : QuarantineTools → QuarantineArgs → FilePath
quarantine_folder tools args =
    if or_empty args.quarantine_dir == ""
    then tools.expanduser args.input_dir ++ "quarantine" ∷ []
    else tools.expanduser (or_empty args.quarantine_dir)

module _ (tools : QuarantineTools) where
  unfoldable pub assess_pdf : Entry → Bool
  assess_pdf pdf =
      let stats = tools.pdf_keyword_stats pdf.content in
      let weak_only = ltb 0 stats.pos_hits && eqb stats.strong_hits 0 in
      let ok = ltb 0 stats.pos_hits && eqb stats.neg_hits 0 in
      if ok && weak_only
      then (if tools.have_pymupdf then stats.amount_hint || stats.invoice_id_hint else ok)
      else ok

  abbrev with_scanned : Scan → Scan
  with_scanned st = record st { scanned = st.scanned + 1 }

  abbrev with_moved : List Entry → Scan → Scan
  with_moved fs st = record { files = fs; scanned = st.scanned + 1; moved = st.moved + 1 }

  -- One round of the loop.
  abbrev pub scan_one : Bool → FilePath → Entry → Scan → Scan
  scan_one dry_run quarantine_dir pdf st =
      if assess_pdf pdf
      then with_scanned st
      else if dry_run
      then with_moved st.files st
      else with_moved (move_into quarantine_dir pdf st.files) st

  unfoldable pub scan_all : Bool → FilePath → List Entry → Scan → Scan
  scan_all dry_run quarantine_dir [] st = st
  scan_all dry_run quarantine_dir (pdf ∷ pdfs) st =
      scan_all dry_run quarantine_dir pdfs (scan_one dry_run quarantine_dir pdf st)

  -- `none` is the SystemExit without the PDF library.
  unfoldable pub quarantine_main : QuarantineArgs → List Entry → Option Scan
  unfolding scan_all
  quarantine_main args fs =
      if not tools.have_pymupdf
      then none
      else some (
          scan_all args.dry_run (quarantine_folder tools args)
            (iter_pdfs fs (tools.expanduser args.input_dir))
            (record { files = fs; scanned = 0; moved = 0 }))
