-- ===== src/Examples/Scans.antt =====
-- Two files, of which the second has no word of an invoice.
use invoices_codex.Prelude.{
  String, ◌≡◌, refl, true, false, none, List, [], ◌∷◌, ◌==◌, In, inl, inr, filter, if◌then◌else◌,
  arith,
}
use invoices_codex.Prelude.FirstFree.{first_free}
use invoices_codex.Monthly.Paths.{
  FilePath, Entry, same_path, is_pdf_name, is_invoice_pdf, iter_invoice_pdfs, ensure_unique,
}
use invoices_codex.Monthly.Moves.{move_into, move_entry}
use invoices_codex.Monthly.Quarantine.{
  QuarantineArgs, QuarantineTools, Scan, assess_pdf, scan_all, quarantine_main,
}
use invoices_codex.Monthly.Quarantine.Left.{Quarantined, main-Quarantined}

abbrev pdf_tools : QuarantineTools
pdf_tools = record {
  have_pymupdf = true;
  pdf_keyword_stats = λ content. record {
    pos_hits = if content == "invoice" then 1 else 0;
    neg_hits = 0;
    strong_hits = 1;
    amount_hint = false;
    invoice_id_hint = false;
  };
  expanduser = λ t. t ∷ [];
}

abbrev pdf_at : FilePath → String → Entry
pdf_at path content = record { path = path; is_file = true; readable = true; content = content }

abbrev on_disk : List Entry
on_disk = pdf_at ("in" ∷ "a.pdf" ∷ []) "invoice" ∷ pdf_at ("in" ∷ "b.pdf" ∷ []) "menu" ∷ []

abbrev scan_args : QuarantineArgs
scan_args = record { input_dir = "in"; quarantine_dir = none; dry_run = false }

abbrev scan_end : Scan
scan_end = record {
  files =
      pdf_at ("in" ∷ "a.pdf" ∷ []) "invoice"
      ∷ pdf_at ("in" ∷ "quarantine" ∷ "b.pdf" ∷ []) "menu"
      ∷ [];
  scanned = 2;
  moved = 1;
}

on_disk-distinct :
    (a b : Entry) → In a on_disk → In b on_disk → same_path a.path b.path ≡ true → a ≡ b
on_disk-distinct a b (inl i) (inl j) h = ground arith
on_disk-distinct a b (inl i) (inr (inl j)) h = absurd (ground (arith, i, j))
on_disk-distinct a b (inl i) (inr (inr j)) h = elim j [ ]
on_disk-distinct a b (inr (inr i)) j h = elim i [ ]
on_disk-distinct a b (inr (inl i)) (inr (inr j)) h = elim j [ ]
on_disk-distinct a b (inr (inl i)) (inl j) h = absurd (ground (arith, i, j))
on_disk-distinct a b (inr (inl i)) (inr (inl j)) h = ground arith

main-Quarantined_example : Quarantined pdf_tools scan_args on_disk scan_end
unfolding quarantine_main scan_all assess_pdf move_into move_entry ensure_unique iter_invoice_pdfs
    is_invoice_pdf is_pdf_name filter first_free
main-Quarantined_example =
    main-Quarantined pdf_tools scan_args on_disk scan_end refl on_disk-distinct refl
