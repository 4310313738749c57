-- ===== src/Monthly/Dedupe/Kept.antt =====
-- What `dedupe_provider_dir` keeps, moves and counts.
use invoices_codex.Prelude.{
  ◌+◌, ◌≡◌, refl, sym, ap, ◌∙◌, true, false, inl, inr, List, [], ◌∷◌, ◌++◌, arith, All, length,
  Bool-cases, Option-cases, ◌⊎◌, In, filter_sound, filter_complete,
}
use invoices_codex.Monthly.Paths.{
  FilePath, Entry, same_path, file_name, is_skipped, is_invoice_pdf, folder_exists,
  iter_invoice_pdfs,
}
use invoices_codex.Monthly.Paths.Unique.{ensure_unique-free}
use invoices_codex.Monthly.Moves.OwnPaths.{HaveOwnPaths, move_into-HaveOwnPaths}
use invoices_codex.Monthly.Moves.Listed.{is_skipped-append, move_entry_sound, move_entry_complete}
use invoices_codex.Monthly.Moves.{
  move_entry, move_into, AreMoved, AreMoved-refl, AreMoved-trans, AreMoved-move_into,
}
use invoices_codex.Monthly.Dedupe.{
  PdfTools, Deduping, remember_text, Prints, prints_of, is_duplicate, move_duplicate, dedupe_one,
  dedupe_all, starting, dedupe_provider_dir,
}
use invoices_codex.Monthly.Dedupe.Alike.{
  any_alike, AreApart, Remembers, is_duplicate-alike, alike_refl, IsCovered, PrintsOf,
}
use invoices_codex.Monthly.Dedupe.Staying.{
  still_there, apart_from, HaveOwnPaths-filter, In-All, folder-skipped, MayStay, MayStay-grows,
  Left, Left-self,
}

module _ (tools : PdfTools) (duplicates_dir root : FilePath)
    (skipped : is_skipped duplicates_dir ≡ true) where
  -- A run of the loop over some files, with the files kept before and after.
  record Run (pdfs : List Entry) (es : List Entry) (ks : List Prints) (st : Deduping)
      (es' : List Entry) (ks' : List Prints) (st' : Deduping) : Type 0 where
    pub remembers : Remembers ks' st'
    pub prints : PrintsOf tools es' ks'
    pub keeps : (e : Entry) → In e es → In e es'
    pub left :
        (e : Entry)
        → is_invoice_pdf root e ≡ true
        → In e st'.files
        → In e st.files × Left tools es' pdfs e
    pub stays :
        (e : Entry)
        → In e st.files
        → All (λ (x : Entry). same_path e.path x.path ≡ false) pdfs
        → In e st'.files
    pub own_paths : HaveOwnPaths st.files → HaveOwnPaths st'.files
    pub kept_there : (e : Entry) → In e es' → In e es ⊎ (In e pdfs × In e st'.files)
    pub apart : AreApart ks'
    pub grows : (p : Prints) → any_alike p ks ≡ true → any_alike p ks' ≡ true
    pub covers : All (IsCovered tools ks') pdfs
    pub moves : AreMoved duplicates_dir st.files st'.files
    pub kept : st'.stats.kept + length ks ≡ st.stats.kept + length ks'
    pub scanned : st'.stats.scanned ≡ st.stats.scanned + length pdfs
    pub counted :
        st'.stats.kept + st'.stats.moved + st'.stats.errors + st.stats.scanned
        ≡ st.stats.kept + st.stats.moved + st.stats.errors + st'.stats.scanned

  Run-dedupe_one :
      (pdf : Entry) (es : List Entry) (ks : List Prints) (st : Deduping)
      → Remembers ks st
      → PrintsOf tools es ks
      → AreApart ks
      → In pdf st.files
      → (es' : List Entry) × ((ks' : List Prints) × Run
            (pdf ∷ [])
            es
            ks
            st
            es'
            ks'
            (dedupe_one tools duplicates_dir pdf st))
  unfolding dedupe_one move_duplicate any_alike move_into
  Run-dedupe_one pdf es ks st r pr apart there = elim (Option-cases (prints_of tools pdf)) [
    | inl unread ↦
        rw (dedupe_one, unread)
          (
            es,
            (
              ks,
              record {
                remembers = record {
                  hashes = r.hashes;
                  stems = r.stems;
                  fingerprints = r.fingerprints;
                };
                apart = apart;
                grows = λ p h. h;
                covers = (λ p h. absurd (ground (arith, unread)), tt);
                moves = AreMoved-refl duplicates_dir st.files;
                kept = refl;
                scanned = refl;
                counted = omega arith;
                prints = pr;
                keeps = λ e i. i;
                left = λ e listed i. (i, (λ same. inr (inl unread), tt));
                stays = λ e i other. i;
                kept_there = λ e i. inl i;
                own_paths = λ own. own;
              },
            ),
          )
    | inr (p, read) ↦ elim (Bool-cases (is_duplicate p st)) [
      | inr new ↦
          let fresh : any_alike p ks ≡ false = sym (is_duplicate-alike p ks st r) ∙ new in
          rw (dedupe_one, read, new)
            (
              pdf ∷ es,
              (
                p ∷ ks,
                record {
                  remembers = record {
                    hashes = ap (λ l. p.digest ∷ l) r.hashes;
                    stems = ap (λ l. p.stem ∷ l) r.stems;
                    fingerprints = ap (remember_text p.fingerprint) r.fingerprints;
                  };
                  apart = (fresh, apart);
                  grows = λ q h. ground arith;
                  covers = (λ q h. ground (arith, alike_refl p, read), tt);
                  moves = AreMoved-refl duplicates_dir st.files;
                  kept = omega arith;
                  scanned = refl;
                  counted = omega arith;
                  prints = (read, pr);
                  keeps = λ e i. inr i;
                  left = λ e listed i. (i, (λ same. inl (inl refl), tt));
                  stays = λ e i other. i;
                  own_paths = λ own. own;
                  kept_there = λ e i. elim i [
                    | inl same ↦ inr (inl same, rw same there)
                    | inr older ↦ inl older
                  ];
                },
              ),
            )
      | inl old ↦
          let met : any_alike p ks ≡ true = sym (is_duplicate-alike p ks st r) ∙ old in
          elim (Bool-cases (tools.can_move pdf)) [
            | inl can ↦
                rw (dedupe_one, read, old, move_duplicate, can)
                  (
                    es,
                    (
                      ks,
                      record {
                        remembers = record {
                          hashes = r.hashes;
                          stems = r.stems;
                          fingerprints = r.fingerprints;
                        };
                        apart = apart;
                        grows = λ q h. h;
                        covers = (λ q h. ground (arith, read, met), tt);
                        moves = AreMoved-move_into duplicates_dir pdf st.files;
                        kept = refl;
                        scanned = refl;
                        counted = omega arith;
                        prints = pr;
                        keeps = λ e i. i;
                        left = λ e listed i.
                            let (n, got, free) =
                              ensure_unique-free st.files duplicates_dir (file_name pdf.path) in
                            let moved : In e
                                (move_entry pdf.path (duplicates_dir ++ n ∷ []) st.files) =
                              rw (move_into, got) at i in
                            let (was, other) =
                              move_entry_sound root pdf.path (duplicates_dir ++ n ∷ [])
                                (is_skipped-append duplicates_dir (n ∷ []) skipped) st.files e
                                listed moved in
                            (was, (λ same. absurd (ground arith), tt));
                        stays = λ e i other.
                            let (n, got, free) =
                              ensure_unique-free st.files duplicates_dir (file_name pdf.path) in
                            rw (move_into, got)
                              (move_entry_complete pdf.path (duplicates_dir ++ n ∷ []) st.files e i
                                other.0);
                        kept_there = λ e i. inl i;
                        own_paths = λ own. move_into-HaveOwnPaths duplicates_dir pdf st.files own;
                      },
                    ),
                  )
            | inr cannot ↦
                rw (dedupe_one, read, old, move_duplicate, cannot)
                  (
                    es,
                    (
                      ks,
                      record {
                        remembers = record {
                          hashes = r.hashes;
                          stems = r.stems;
                          fingerprints = r.fingerprints;
                        };
                        apart = apart;
                        grows = λ q h. h;
                        covers = (λ q h. ground (arith, read, met), tt);
                        moves = AreMoved-refl duplicates_dir st.files;
                        kept = refl;
                        scanned = refl;
                        counted = omega arith;
                        prints = pr;
                        keeps = λ e i. i;
                        left = λ e listed i. (i, (λ same. inr (inr cannot), tt));
                        stays = λ e i other. i;
                        kept_there = λ e i. inl i;
                        own_paths = λ own. own;
                      },
                    ),
                  )
          ]
    ]
  ]

  Run-dedupe_all :
      (pdfs es : List Entry) (ks : List Prints) (st : Deduping)
      → Remembers ks st
      → PrintsOf tools es ks
      → AreApart ks
      → All (λ (x : Entry). In x st.files) pdfs
      → HaveOwnPaths pdfs
      → (es' : List Entry) × ((ks' : List Prints) × Run pdfs es ks st es' ks'
            (dedupe_all tools duplicates_dir pdfs st))
  unfolding dedupe_all
  Run-dedupe_all [] es ks st r pr apart there own = (
    es,
    (
      ks,
      record {
        remembers = r;
        apart = apart;
        grows = λ p h. h;
        covers = tt;
        moves = AreMoved-refl duplicates_dir st.files;
        kept = refl;
        scanned = omega arith;
        counted = refl;
        prints = pr;
        keeps = λ e i. i;
        left = λ e listed i. (i, tt);
        stays = λ e i other. i;
        kept_there = λ e i. inl i;
        own_paths = λ own. own;
      },
    ),
  )
  Run-dedupe_all (pdf ∷ pdfs) es ks st r pr apart there own =
      let next = dedupe_one tools duplicates_dir pdf st in
      let (es₁, (ks₁, a)) = Run-dedupe_one pdf es ks st r pr apart there.0 in
      let still = still_there st.files next.files pdf pdfs a.stays own.0 there.1 in
      let (es₂, (ks₂, b)) =
        Run-dedupe_all pdfs es₁ ks₁ next a.remembers a.prints a.apart still own.1 in
      (
        es₂,
        (
          ks₂,
          record {
            remembers = b.remembers;
            apart = b.apart;
            grows = λ p h. b.grows p (a.grows p h);
            covers = (λ p h. b.grows p (a.covers.0 p h), b.covers);
            moves =
                AreMoved-trans duplicates_dir st.files next.files
                  (dedupe_all tools duplicates_dir pdfs next).files a.moves b.moves;
            kept = omega (arith, a.kept, b.kept);
            scanned = omega (arith, a.scanned, b.scanned);
            counted = omega (arith, a.counted, b.counted);
            prints = b.prints;
            keeps = λ e i. b.keeps e (a.keeps e i);
            left = λ e listed i.
                let later = b.left e listed i in
                let now = a.left e listed later.0 in
                (now.0, (λ same. MayStay-grows tools es₁ es₂ b.keeps pdf (now.1.0 same), later.1));
            stays = λ e i other. b.stays e (a.stays e i (other.0, tt)) other.1;
            own_paths = λ o. b.own_paths (a.own_paths o);
            kept_there = λ e i. elim (b.kept_there e i) [
              | inr (i', later) ↦ inr (inr i', later)
              | inl older ↦ elim (a.kept_there e older) [
                | inl oldest ↦ inl oldest
                | inr (inl same, now) ↦
                    inr (inl same, b.stays e now (rw same (apart_from pdf pdfs own.0)))
                | inr (inr nowhere, now) ↦ absurd nowhere
              ]
            ];
          },
        ),
      )

-- What a run of `dedupe_provider_dir` on a folder leaves, with the files that it kept and their prints.
pub record Deduped (tools : PdfTools) (target_dir : FilePath) (fs : List Entry) (st : Deduping)
    : Type 0 where
  pub kept_files : List Entry
  pub kept_prints : List Prints
  pub prints : PrintsOf tools kept_files kept_prints
  pub apart : AreApart kept_prints
  pub covers : All (IsCovered tools kept_prints) (iter_invoice_pdfs fs target_dir)
  pub still_there : (e : Entry) → In e kept_files → In e st.files
  pub listed_after :
      (e : Entry) → In e (iter_invoice_pdfs st.files target_dir) → MayStay tools kept_files e
  pub own_paths : HaveOwnPaths st.files
  pub moves : AreMoved (target_dir ++ "duplicates" ∷ []) fs st.files
  pub kept : st.stats.kept ≡ length kept_prints
  pub scanned : st.stats.scanned ≡ length (iter_invoice_pdfs fs target_dir)
  pub counted : st.stats.scanned ≡ st.stats.kept + st.stats.removed + st.stats.errors

-- `dedupe_provider_dir` on a folder that exists, where no two files stand at one path: no two of the files that it
-- keeps have one digest, one stem or one text fingerprint; every file that it could read is like one of those; the
-- kept ones stay, and what the folder lists afterwards is a kept file, one that could not be read, or a duplicate that
-- could not be moved; each entry stays where it was, or stands right in the folder's `duplicates` with the content that
-- it had; and each file scanned is kept, removed or an error.
pub dedupe_provider_dir-Deduped :
    (tools : PdfTools) (target_dir : FilePath) (fs : List Entry)
    → folder_exists fs target_dir ≡ true
    → HaveOwnPaths fs
    → Deduped tools target_dir fs (dedupe_provider_dir tools target_dir fs)
unfolding dedupe_provider_dir iter_invoice_pdfs
dedupe_provider_dir-Deduped tools target_dir fs there own =
    let duplicates_dir = target_dir ++ "duplicates" ∷ [] in
    let p = is_invoice_pdf target_dir in
    let pdfs = iter_invoice_pdfs fs target_dir in
    let (es, (ks, r)) =
      Run-dedupe_all tools duplicates_dir target_dir (folder-skipped target_dir) pdfs [] []
        (starting fs) (record { hashes = refl; stems = refl; fingerprints = refl }) tt tt
        (In-All fs pdfs (λ x i. (filter_sound p fs x i).0)) (HaveOwnPaths-filter p fs own) in
    let after = (dedupe_all tools duplicates_dir pdfs (starting fs)).files in
    rw (dedupe_provider_dir, there)
      (record {
        kept_files = es;
        kept_prints = ks;
        prints = r.prints;
        apart = r.apart;
        covers = r.covers;
        still_there =
            λ e i. elim (r.kept_there e i) [ inl nowhere ↦ absurd nowhere | inr (j, now) ↦ now ];
        listed_after = λ e i.
            let (now, listed) = filter_sound p after e i in
            let (was, left) = r.left e listed now in
            Left-self tools es pdfs e (filter_complete p fs e was listed) left;
        own_paths = r.own_paths own;
        moves = r.moves;
        kept = omega (arith, r.kept);
        scanned = omega (arith, r.scanned);
        counted = omega (arith, r.counted);
      })
