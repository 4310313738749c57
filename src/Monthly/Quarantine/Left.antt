-- ===== src/Monthly/Quarantine/Left.antt =====
-- What a run of the quarantine tool leaves to be listed.
use invoices_codex.Prelude.{
  suc, ◌+◌, Bool, true, false, not, ◌&&◌, ◌||◌, ◌≡◌, refl, sym, ap, ◌∙◌, ◌⊎◌, ◌↔◌, inl, inr, some,
  List, [], ◌∷◌, ◌++◌, arith, In, filter, filter_sound, filter_complete, length, Bool-cases,
  if◌then◌else◌,
}
use invoices_codex.Monthly.Paths.{
  FilePath, Entry, same_path, is_skipped, file_name, is_invoice_pdf, iter_invoice_pdfs,
}
use invoices_codex.Monthly.Paths.Unique.{ensure_unique-free}
use invoices_codex.Monthly.Moves.{
  move_entry, move_into, AreMoved, AreMoved-refl, AreMoved-trans, AreMoved-move_into,
}
use invoices_codex.Monthly.Moves.Listed.{
  same_path_refl, is_skipped-append, move_entry_sound, move_entry_complete,
}
use invoices_codex.Monthly.Quarantine.{
  QuarantineArgs, QuarantineTools, Scan, quarantine_folder, iter_pdfs, assess_pdf, scan_one,
  scan_all, quarantine_main,
}

module _ (tools : QuarantineTools) (folder : FilePath) where
  -- No listed file of this path was rejected.
  unfoldable is_left : Entry → List Entry → Bool
  is_left e [] = true
  is_left e (x ∷ xs) = (assess_pdf tools x || not (same_path e.path x.path)) && is_left e xs

  scan-AreMoved :
      (dry_run : Bool) (pdfs : List Entry) (st : Scan)
      → AreMoved folder st.files (scan_all tools dry_run folder pdfs st).files
  unfolding scan_all
  scan-AreMoved dry_run [] st = AreMoved-refl folder st.files
  scan-AreMoved dry_run (x ∷ xs) st =
      let next = scan_one tools dry_run folder x st in
      let first : AreMoved folder st.files next.files = elim (Bool-cases (assess_pdf tools x)) [
        | inl good ↦ rw good (AreMoved-refl folder st.files)
        | inr bad ↦ elim (Bool-cases dry_run) [
          | inl dry ↦ rw (bad, dry) (AreMoved-refl folder st.files)
          | inr wet ↦ rw (bad, wet) (AreMoved-move_into folder x st.files)
        ]
      ] in
      AreMoved-trans folder st.files next.files (scan_all tools dry_run folder xs next).files first
        (scan-AreMoved dry_run xs next)

  scan-dry : (pdfs : List Entry) (st : Scan) → (scan_all tools true folder pdfs st).files ≡ st.files
  unfolding scan_all
  scan-dry [] st = refl
  scan-dry (x ∷ xs) st = elim (Bool-cases (assess_pdf tools x)) [
    | inl good ↦ rw (scan_all, good) (scan-dry xs (record st { scanned = st.scanned + 1 }))
    | inr bad ↦
        rw (scan_all, bad)
          (scan-dry xs
            (record { files = st.files; scanned = st.scanned + 1; moved = st.moved + 1 }))
  ]

  one-counts :
      (dry_run : Bool) (x : Entry) (st : Scan)
      → ((scan_one tools dry_run folder x st).scanned ≡ suc st.scanned)
        × ((scan_one tools dry_run folder x st).moved
            ≡ st.moved + (if assess_pdf tools x then 0 else 1))
  one-counts dry_run x st = elim (Bool-cases (assess_pdf tools x)) [
    | inl good ↦ rw good (omega arith, omega arith)
    | inr bad ↦ elim (Bool-cases dry_run) [
      | inl dry ↦ rw (bad, dry) (omega arith, omega arith)
      | inr wet ↦ rw (bad, wet) (omega arith, omega arith)
    ]
  ]

  rejected-count :
      (x : Entry) (xs : List Entry)
      → length (filter (λ x. not (assess_pdf tools x)) (x ∷ xs))
        ≡ (if assess_pdf tools x then 0 else 1) + length (filter (λ x. not (assess_pdf tools x)) xs)
  unfolding filter
  rejected-count x xs = ground arith

  scan-counts :
      (dry_run : Bool) (pdfs : List Entry) (st : Scan)
      → ((scan_all tools dry_run folder pdfs st).scanned ≡ st.scanned + length pdfs)
        × ((scan_all tools dry_run folder pdfs st).moved
            ≡ st.moved + length (filter (λ x. not (assess_pdf tools x)) pdfs))
  unfolding scan_all filter
  scan-counts dry_run [] st = (omega arith, omega arith)
  scan-counts dry_run (x ∷ xs) st =
      let (a, b) = scan-counts dry_run xs (scan_one tools dry_run folder x st) in
      let (c, d) = one-counts dry_run x st in
      (a ∙ omega (arith, c), b ∙ omega (arith, d, rejected-count x xs))

  module _ (root : FilePath) (skipped : is_skipped folder ≡ true) where
    scan_sound :
        (pdfs : List Entry) (st : Scan) (e : Entry)
        → is_invoice_pdf root e ≡ true
        → In e (scan_all tools false folder pdfs st).files
        → In e st.files × (is_left e pdfs ≡ true)
    unfolding scan_all is_left move_into
    scan_sound [] st e listed i = (i, refl)
    scan_sound (x ∷ xs) st e listed i =
        let (j, left) = scan_sound xs (scan_one tools false folder x st) e listed i in
        elim (Bool-cases (assess_pdf tools x)) [
          | inl good ↦ (rw good at j, rw (good, left) refl)
          | inr bad ↦
              let (n, got, free) = ensure_unique-free st.files folder (file_name x.path) in
              let k : In e (move_entry x.path (folder ++ n ∷ []) st.files) =
                rw (bad, move_into, got) at j in
              let (there, other) =
                move_entry_sound root x.path (folder ++ n ∷ [])
                  (is_skipped-append folder (n ∷ []) skipped) st.files e listed k in
              (there, rw (bad, other, left) refl)
        ]

    scan_complete :
        (pdfs : List Entry) (st : Scan) (e : Entry)
        → In e st.files
        → is_left e pdfs ≡ true
        → In e (scan_all tools false folder pdfs st).files
    unfolding scan_all is_left move_into
    scan_complete [] st e i left = i
    scan_complete (x ∷ xs) st e i left =
        let rest : is_left e xs ≡ true = ground arith in
        let next : In e (scan_one tools false folder x st).files =
          elim (Bool-cases (assess_pdf tools x)) [
            | inl good ↦ rw good i
            | inr bad ↦
                let (n, got, free) = ensure_unique-free st.files folder (file_name x.path) in
                let other : same_path e.path x.path ≡ false = ground arith in
                rw (bad, move_into, got)
                  (move_entry_complete x.path (folder ++ n ∷ []) st.files e i other)
          ] in
        scan_complete xs (scan_one tools false folder x st) e next rest

  is_left_self :
      (e : Entry) (pdfs : List Entry)
      → In e pdfs
      → is_left e pdfs ≡ true
      → assess_pdf tools e ≡ true
  unfolding is_left
  is_left_self e [] i left = absurd i
  is_left_self e (x ∷ xs) (inl here) left =
      let same : same_path e.path x.path ≡ true = rw (← here) (same_path_refl e.path) in
      let good : assess_pdf tools x ≡ true = ground arith in rw here good
  is_left_self e (x ∷ xs) (inr i) left = is_left_self e xs i (ground arith)

  is_left-good :
      (fs : List Entry)
      → ((a b : Entry) → In a fs → In b fs → same_path a.path b.path ≡ true → a ≡ b)
      → (e : Entry) (pdfs : List Entry) → In e fs
      → assess_pdf tools e ≡ true
      → ((x : Entry) → In x pdfs → In x fs)
      → is_left e pdfs ≡ true
  unfolding is_left
  is_left-good fs distinct e [] i good within = refl
  is_left-good fs distinct e (x ∷ xs) i good within =
      let rest = is_left-good fs distinct e xs i good (λ y j. within y (inr j)) in
      elim (Bool-cases (same_path e.path x.path)) [
        | inr other ↦ ground (arith, rest)
        | inl same ↦
            let one = distinct e x i (within x (inl refl)) same in
            let good' : assess_pdf tools x ≡ true = ap (assess_pdf tools) (sym one) ∙ good in
            ground (arith, rest)
      ]

-- The scan of a run: in a dry run the files stay as they are; else each entry stays or stands in the quarantine folder
-- with its content, and the files that are listed now are those that were listed and were not rejected.
pub record Quarantined (tools : QuarantineTools) (args : QuarantineArgs) (fs : List Entry)
    (st : Scan) : Type 0 where
  pub files_after :
      ((args.dry_run ≡ true) × (st.files ≡ fs))
      ⊎ ((args.dry_run ≡ false)
          × (AreMoved (quarantine_folder tools args) fs st.files
              × ((e : Entry)
                  → In e (iter_pdfs st.files (tools.expanduser args.input_dir)) ↔ (
                      In e (iter_pdfs fs (tools.expanduser args.input_dir))
                      × (assess_pdf tools e ≡ true)))))
  pub scanned : st.scanned ≡ length (iter_pdfs fs (tools.expanduser args.input_dir))
  pub moved :
      st.moved
      ≡ length
          (filter (λ e. not (assess_pdf tools e)) (iter_pdfs fs (tools.expanduser args.input_dir)))

module _ (tools : QuarantineTools) (folder root : FilePath) (fs : List Entry) where
  abbrev start : Scan
  start = record { files = fs; scanned = 0; moved = 0 }

  listed-after :
      is_skipped folder ≡ true
      → ((a b : Entry) → In a fs → In b fs → same_path a.path b.path ≡ true → a ≡ b)
      → (e : Entry)
      → In e (iter_pdfs (scan_all tools false folder (iter_pdfs fs root) start).files root)
        ↔ (In e (iter_pdfs fs root) × (assess_pdf tools e ≡ true))
  unfolding iter_invoice_pdfs
  listed-after skipped distinct e =
      let p = is_invoice_pdf root in
      let pdfs = iter_pdfs fs root in
      let after = (scan_all tools false folder pdfs start).files in
      (
        λ i.
            let (there, listed) = filter_sound p after e i in
            let (was, left) = scan_sound tools folder root skipped pdfs start e listed there in
            let here = filter_complete p fs e was listed in
            (here, is_left_self tools folder e pdfs here left),
        λ i.
            let (was, listed) = filter_sound p fs e i.0 in
            let left =
              is_left-good tools folder fs distinct e pdfs was i.1
                (λ x j. (filter_sound p fs x j).0) in
            filter_complete p after e
              (scan_complete tools folder root skipped pdfs start e was left) listed,
      )

-- A run of the quarantine tool whose folder is one of those skipped, over files at different paths, counts the listed
-- files and the rejected ones. A dry run leaves the files; another one moves the rejected ones into the folder, with
-- their content, and the files that are listed after it are the accepted ones.
pub main-Quarantined :
    (tools : QuarantineTools) (args : QuarantineArgs) (fs : List Entry) (st : Scan)
    → is_skipped (quarantine_folder tools args) ≡ true
    → ((a b : Entry) → In a fs → In b fs → same_path a.path b.path ≡ true → a ≡ b)
    → quarantine_main tools args fs ≡ some st
    → Quarantined tools args fs st
unfolding quarantine_main
main-Quarantined tools args fs st skipped distinct h =
    let folder = quarantine_folder tools args in
    let root = tools.expanduser args.input_dir in
    let pdfs = iter_pdfs fs root in
    let e : scan_all tools args.dry_run folder pdfs (start tools folder root fs) ≡ st =
      ground arith in
    let (scanned, moved) =
      scan-counts tools folder args.dry_run pdfs (start tools folder root fs) in
    rw (← e) (record {
      files_after = elim (Bool-cases args.dry_run) [
        | inl dry ↦ inl (dry, rw dry (scan-dry tools folder pdfs (start tools folder root fs)))
        | inr wet ↦ inr (
          wet,
          (
            scan-AreMoved tools folder args.dry_run pdfs (start tools folder root fs),
            rw wet (listed-after tools folder root fs skipped distinct),
          ),
        )
      ];
      scanned = scanned ∙ omega arith;
      moved = moved ∙ omega arith;
    })
