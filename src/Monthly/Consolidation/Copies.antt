-- ===== src/Monthly/Consolidation/Copies.antt =====
-- What the loops of `consolidate_pdfs` copy and count.
use invoices_codex.Prelude.{
  String, ◌+◌, ◌≡◌, refl, sym, ap, ◌∙◌, false, inl, inr, List, [], ◌∷◌, ◌++◌, arith, All,
  All-append, All-map, append_nil, append_assoc, map-append, contains, length, length-append, map,
  Bool-cases,
}
use invoices_codex.Monthly.Paths.{FilePath, Entry, file_name, exists}
use invoices_codex.Monthly.Paths.Unique.{ensure_unique-free}
use invoices_codex.Monthly.Consolidation.{Folder, copy_of, consolidate_one, consolidate_folder}
use invoices_codex.Monthly.Consolidation.Digests.{
  seen_after, first_of_each, all_seen, readable_count, first_of_each-append,
}

exists-append_left :
    (fs gs : List Entry) (p : FilePath) → exists (fs ++ gs) p ≡ false → exists fs p ≡ false
exists-append_left [] gs p h = refl
exists-append_left (e ∷ fs) gs p h = ground (arith, exists-append_left fs gs p)

readable_count-append :
    (xs ys : List Entry) → readable_count (xs ++ ys) ≡ readable_count xs + readable_count ys
unfolding readable_count
readable_count-append [] ys = omega arith
readable_count-append (e ∷ xs) ys = ground (arith, readable_count-append xs ys)

-- A path right in the folder, at which nothing stood.
abbrev pub IsNewPath : FilePath → List Entry → Entry → Type 0
IsNewPath dest fs c = (n : String) × (c.path ≡ dest ++ n ∷ []) × (exists fs c.path ≡ false)

module _ (hash : String → String) (dest : FilePath) where
  -- A run of the loops over some files, from one state of the folders to another.
  pub record Copied (pdfs : List Entry) (st st' : Folder) : Type 0 where
    pub copies : List Entry
    pub files_kept : st'.files ≡ st.files ++ copies
    pub contents :
        map (λ (e : Entry). e.content) copies
        ≡ map (λ (e : Entry). e.content) (first_of_each hash st.seen pdfs)
    pub seen_now : st'.seen ≡ all_seen hash st.seen pdfs
    pub new_paths : All (IsNewPath dest st.files) copies
    pub copied : st'.stats.copied ≡ st.stats.copied + length copies
    pub counted :
        st'.stats.copied + st'.stats.duplicates
        ≡ st.stats.copied + st.stats.duplicates + readable_count pdfs
    pub existing_kept : st'.stats.existing ≡ st.stats.existing

  pub all_seen-append :
      (seen : List String) (xs ys : List Entry)
      → all_seen hash seen (xs ++ ys) ≡ all_seen hash (all_seen hash seen xs) ys
  unfolding all_seen
  all_seen-append seen [] ys = refl
  all_seen-append seen (e ∷ xs) ys = all_seen-append (seen_after hash seen e) xs ys

  pub Copied-append :
      (xs ys : List Entry) (st st₁ st₂ : Folder)
      → Copied xs st st₁
      → Copied ys st₁ st₂
      → Copied (xs ++ ys) st st₂
  Copied-append xs ys st st₁ st₂ a b =
      let content_of : Entry → String = λ e. e.content in
      record {
        copies = a.copies ++ b.copies;
        files_kept =
            b.files_kept
            ∙ ap (λ fs. fs ++ b.copies) a.files_kept
            ∙ append_assoc st.files a.copies b.copies;
        contents =
            map-append content_of a.copies b.copies
            ∙ ap (λ l. l ++ map content_of b.copies) a.contents
            ∙ ap (λ l. map content_of (first_of_each hash st.seen xs) ++ l)
                (b.contents ∙ ap (λ s. map content_of (first_of_each hash s ys)) a.seen_now)
            ∙ sym (map-append content_of (first_of_each hash st.seen xs) _)
            ∙ ap (map content_of) (sym (first_of_each-append hash st.seen xs ys));
        seen_now =
            b.seen_now
            ∙ ap (λ s. all_seen hash s ys) a.seen_now
            ∙ sym (all_seen-append st.seen xs ys);
        new_paths = All-append (IsNewPath dest st.files) a.copies b.copies a.new_paths (
            All-map (IsNewPath dest st₁.files) (IsNewPath dest st.files)
              (λ c h. (
                h.0,
                h.1,
                exists-append_left st.files a.copies c.path
                    (ap (λ fs. exists fs c.path) (sym a.files_kept) ∙ h.2),
              ))
              b.copies b.new_paths);
        copied = omega (arith, a.copied, b.copied, length-append a.copies b.copies);
        counted = omega (arith, a.counted, b.counted, readable_count-append xs ys);
        existing_kept = b.existing_kept ∙ a.existing_kept;
      }

  Copied-step :
      (pdf : Entry) (st : Folder) → Copied (pdf ∷ []) st (consolidate_one hash dest pdf st)
  unfolding consolidate_one first_of_each all_seen readable_count
  Copied-step pdf st = elim (Bool-cases pdf.readable) [
    | inr unreadable ↦ record {
      copies = [];
      files_kept = ground (arith, append_nil st.files);
      contents = ground (arith, append_nil st.files);
      seen_now = ground (arith, append_nil st.files);
      new_paths = tt;
      copied = ground (arith, append_nil st.files);
      counted = ground (arith, append_nil st.files);
      existing_kept = ground (arith, append_nil st.files);
    }
    | inl readable ↦ elim (Bool-cases (contains (hash pdf.content) st.seen)) [
      | inl old ↦ record {
        copies = [];
        files_kept = ground (arith, append_nil st.files);
        contents = ground (arith, append_nil st.files);
        seen_now = ground (arith, append_nil st.files);
        new_paths = tt;
        copied = ground (arith, append_nil st.files);
        counted = ground (arith, append_nil st.files);
        existing_kept = ground (arith, append_nil st.files);
      }
      | inr new ↦
          let (n, got, free) = ensure_unique-free st.files dest (file_name pdf.path) in
          record {
            copies = copy_of dest n pdf ∷ [];
            files_kept = ground (arith, got);
            contents = ground (arith, got);
            seen_now = ground (arith, got);
            new_paths = ((n, refl, free), tt);
            copied = ground (arith, got);
            counted = ground (arith, got);
            existing_kept = ground (arith, got);
          }
    ]
  ]

  pub Copied-folder :
      (pdfs : List Entry) (st : Folder) → Copied pdfs st (consolidate_folder hash dest pdfs st)
  unfolding consolidate_folder first_of_each all_seen readable_count
  Copied-folder [] st = record {
    copies = [];
    files_kept = sym (append_nil st.files);
    contents = refl;
    seen_now = refl;
    new_paths = tt;
    copied = omega arith;
    counted = omega arith;
    existing_kept = refl;
  }
  Copied-folder (pdf ∷ pdfs) st =
      let next = consolidate_one hash dest pdf st in
      Copied-append (pdf ∷ []) pdfs st next (consolidate_folder hash dest pdfs next)
        (Copied-step pdf st) (Copied-folder pdfs next)
