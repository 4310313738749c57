-- ===== src/Monthly/Consolidation/Refined.antt =====
-- `consolidate_pdfs` as a whole: the folder as a set of digests.
use invoices_codex.Prelude.{
  String, ◌+◌, ◌≡◌, refl, ap, ◌∙◌, false, ◌||◌, inl, inr, List, [], ◌∷◌, ◌++◌, arith, All, contains,
  length, map, filter, filter-nil, filter-append, append_nil, if◌then◌else◌, Bool-cases,
}
use invoices_codex.Monthly.Paths.{
  FilePath, Entry, same_path, in_folder, folder_exists, is_invoice_pdf, iter_invoice_pdfs,
}
use invoices_codex.Monthly.Consolidation.{
  Folder, preload_hashes, with_source, preloaded, consolidate_folder, consolidate_sources,
  consolidate_pdfs,
}
use invoices_codex.Monthly.Consolidation.Digests.{
  contents_of, readable_count, has_digest, AreNew, first_of_each-digests, first_of_each-contents,
  first_of_each-AreNew,
}
use invoices_codex.Monthly.Consolidation.Copies.{IsNewPath, Copied, Copied-append, Copied-folder}

-- The PDFs of the folders that exist, in the order of the folders.
unfoldable pub pdfs_of : List Entry → List FilePath → List Entry
pdfs_of fs [] = []
pdfs_of fs (src ∷ srcs) =
    let rest = pdfs_of fs srcs in
    if folder_exists fs src then iter_invoice_pdfs fs src ++ rest else rest

-- A folder that a new file of the destination is not in.
abbrev pub IsApart : FilePath → FilePath → Type 0
IsApart dest src =
    (n : String)
    → (in_folder src (dest ++ n ∷ []) ≡ false) × (same_path (dest ++ n ∷ []) src ≡ false)

module _ (dest : FilePath) where
  not_listed :
      (src : FilePath) (fs copies : List Entry)
      → IsApart dest src
      → All (IsNewPath dest fs) copies
      → All (λ c. is_invoice_pdf src c ≡ false) copies
  unfolding is_invoice_pdf
  not_listed src fs [] apart h = tt
  not_listed src fs (c ∷ copies) apart h =
      let (n, e, free) = h.0 in
      (ground (arith, ap (in_folder src) e, (apart n).0), not_listed src fs copies apart h.1)

  iter-kept :
      (src : FilePath) (fs copies : List Entry)
      → IsApart dest src
      → All (IsNewPath dest fs) copies
      → iter_invoice_pdfs (fs ++ copies) src ≡ iter_invoice_pdfs fs src
  unfolding iter_invoice_pdfs
  iter-kept src fs copies apart h =
      filter-append (is_invoice_pdf src) fs copies
      ∙ ap (λ l. filter (is_invoice_pdf src) fs ++ l)
          (filter-nil (is_invoice_pdf src) copies (not_listed src fs copies apart h))
      ∙ append_nil (filter (is_invoice_pdf src) fs)

  copies_apart :
      (src : FilePath) (fs copies : List Entry)
      → IsApart dest src
      → All (IsNewPath dest fs) copies
      → folder_exists copies src ≡ false
  copies_apart src fs [] apart h = refl
  copies_apart src fs (c ∷ copies) apart h =
      let (n, e, free) = h.0 in
      ground (
        arith,
        ap (in_folder src) e,
        ap (λ p. same_path p src) e,
        (apart n).0,
        (apart n).1,
        copies_apart src fs copies apart h.1,
      )

  folder_exists-append :
      (src : FilePath) (fs copies : List Entry)
      → folder_exists copies src ≡ false
      → folder_exists (fs ++ copies) src ≡ folder_exists fs src
  folder_exists-append src [] copies h = h
  folder_exists-append src (e ∷ fs) copies h = ground (arith, folder_exists-append src fs copies h)

  pdfs_of-kept :
      (srcs : List FilePath) (fs copies : List Entry)
      → All (IsApart dest) srcs
      → All (IsNewPath dest fs) copies
      → pdfs_of (fs ++ copies) srcs ≡ pdfs_of fs srcs
  unfolding pdfs_of
  pdfs_of-kept [] fs copies apart h = refl
  pdfs_of-kept (src ∷ srcs) fs copies apart h = ground (
    arith,
    folder_exists-append src fs copies (copies_apart src fs copies apart.0 h),
    iter-kept src fs copies apart.0 h,
    pdfs_of-kept srcs fs copies apart.1 h,
  )

module _ (hash : String → String) (dest : FilePath) where
  Copied-with_source :
      (pdfs : List Entry) (st st' : Folder)
      → Copied hash dest pdfs (with_source st) st'
      → Copied hash dest pdfs st st'
  Copied-with_source pdfs st st' c = record {
    copies = c.copies;
    files_kept = c.files_kept;
    contents = c.contents;
    seen_now = c.seen_now;
    new_paths = c.new_paths;
    copied = c.copied;
    counted = c.counted;
    existing_kept = c.existing_kept;
  }

  Copied-sources :
      (srcs : List FilePath) (st : Folder)
      → All (IsApart dest) srcs
      → Copied hash dest (pdfs_of st.files srcs) st (consolidate_sources hash dest srcs st)
  unfolding pdfs_of consolidate_sources consolidate_folder
  Copied-sources [] st apart = Copied-folder hash dest [] st
  Copied-sources (src ∷ srcs) st apart = elim (Bool-cases (folder_exists st.files src)) [
    | inr missing ↦ rw missing (Copied-sources srcs st apart.1)
    | inl there ↦
        let pdfs = iter_invoice_pdfs st.files src in
        let next = consolidate_folder hash dest pdfs (with_source st) in
        let first =
          Copied-with_source pdfs st next (Copied-folder hash dest pdfs (with_source st)) in
        let same =
          ap (λ fs. pdfs_of fs srcs) first.files_kept
          ∙ pdfs_of-kept dest srcs st.files first.copies apart.1 first.new_paths in
        rw there (
          Copied-append hash dest pdfs (pdfs_of st.files srcs) st next
            (consolidate_sources hash dest srcs next) first
            (rw same at (Copied-sources srcs next apart.1)))
  ]

  -- What a consolidation leaves: the files as they were and copies in the destination.
  pub record Consolidated (srcs : List FilePath) (fs : List Entry) (d : String) (st : Folder)
      : Type 0 where
    pub copies : List Entry
    pub files_kept : st.files ≡ fs ++ copies
    pub new_paths : All (IsNewPath dest fs) copies
    pub digests_new : AreNew hash (preload_hashes hash fs dest) (contents_of copies)
    pub digests_joined :
        (contains d (map hash (contents_of copies)) || contains d (preload_hashes hash fs dest))
        ≡ (has_digest hash d (pdfs_of fs srcs) || contains d (preload_hashes hash fs dest))
    pub copied : st.stats.copied ≡ length copies
    pub counted : st.stats.copied + st.stats.duplicates ≡ readable_count (pdfs_of fs srcs)
    pub existing : st.stats.existing ≡ length (preload_hashes hash fs dest)

  -- `consolidate_pdfs`, with at least one source, none of which holds the destination's own files, leaves every file
  -- as it was and adds copies at new paths in the destination. As a set of digests the destination then has what it
  -- had and what the readable PDFs of the sources have, and no digest was copied that was there or twice. The numbers
  -- of the summary are those of the copies, of the readable PDFs less the copies, and of the digests there before.
  pub consolidate_pdfs-Consolidated :
      (src : FilePath) (srcs : List FilePath) (fs : List Entry) (d : String)
      → All (IsApart dest) (src ∷ srcs)
      → Consolidated (src ∷ srcs) fs d (consolidate_pdfs hash dest (src ∷ srcs) fs)
  unfolding consolidate_pdfs
  consolidate_pdfs-Consolidated src srcs fs d apart =
      let c = Copied-sources (src ∷ srcs) (preloaded hash dest fs) apart in
      let pdfs = pdfs_of fs (src ∷ srcs) in
      let seen = preload_hashes hash fs dest in
      record {
        copies = c.copies;
        files_kept = c.files_kept;
        new_paths = c.new_paths;
        digests_new = rw c.contents (first_of_each-AreNew hash seen pdfs);
        digests_joined =
            ap (λ ts. contains d (map hash ts) || contains d seen) c.contents
            ∙ ap (λ b. b || contains d seen) (first_of_each-contents hash d seen pdfs)
            ∙ first_of_each-digests hash d seen pdfs;
        copied = omega (arith, c.copied);
        counted = omega (arith, c.counted);
        existing = c.existing_kept;
      }
