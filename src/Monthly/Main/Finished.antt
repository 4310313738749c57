-- ===== src/Monthly/Main/Finished.antt =====
-- A monthly run that got results from its providers.
use text.Mathlib.TextLemmas.{append_cancel_left}
use invoices_codex.Prelude.{
  String, ◌≤◌, ◌≡◌, refl, ap, ◌⊎◌, ◌↔◌, inl, inr, true, false, Option, some, List, [], ◌∷◌, ◌++◌,
  ◌==◌, arith, All, All-append, contains, joined, truthy?, Bool-cases, eq_iff,
}
use invoices_codex.Prelude.Texts.{chars, chars-append}
use invoices_codex.Monthly.Paths.{FilePath, Entry, in_folder, same_path, folder_exists}
use invoices_codex.Monthly.Consolidation.{Folder, consolidate_pdfs}
use invoices_codex.Monthly.Consolidation.Refined.{
  IsApart, Consolidated, consolidate_pdfs-Consolidated,
}
use invoices_codex.Monthly.Dedupe.{PdfTools, Deduping, dedupe_provider_dir}
use invoices_codex.Monthly.Dedupe.Kept.{Deduped, dedupe_provider_dir-Deduped}
use invoices_codex.Monthly.Moves.OwnPaths.{HaveOwnPaths}
use invoices_codex.Monthly.Calendar.{Date, Window, month_window}
use invoices_codex.Monthly.Runs.{
  Result, ok, Result-cases, ProviderRun, ProviderResult, RunTools, normalize_providers,
  execute_provider, provider_dir, gmail_runs, outlook_runs, build_runs,
}
use invoices_codex.Monthly.Main.{
  Args, Summary, Ended, is_zero, failures_of, exit_of, successful_dirs, consolidated_dir,
  run_provider, run_all, dedupe_results, finish, after_runs, main,
}

ok_eq : {A : Type 0} {a b : A} → Result.ok a ≡ Result.ok b → a ≡ b
ok_eq h = ground arith

-- A folder of one of the two providers.
abbrev IsProviderDir : FilePath → String → FilePath → Type 0
IsProviderDir base label dir =
    (dir ≡ provider_dir base "gmail" label) ⊎ (dir ≡ provider_dir base "outlook" label)

module _ (base : FilePath) (a b : String) (other : (a == b) ≡ false) where
  apart-in_folder :
      (base : FilePath) (n : String)
      → in_folder (base ++ a ∷ []) ((base ++ b ∷ []) ++ n ∷ []) ≡ false
  apart-in_folder [] n = ground arith
  apart-in_folder (x ∷ base) n = ground (arith, apart-in_folder base n)

  apart-same_path :
      (base : FilePath) (n : String)
      → same_path ((base ++ b ∷ []) ++ n ∷ []) (base ++ a ∷ []) ≡ false
  apart-same_path [] n = ground arith
  apart-same_path (x ∷ base) n = ground (arith, apart-same_path base n)

  siblings-IsApart : IsApart (base ++ b ∷ []) (base ++ a ∷ [])
  siblings-IsApart n = (apart-in_folder base n, apart-same_path base n)

names_apart :
    (name label : String)
    → 1 ≤ chars name
    → (joined "invoices_" (joined name (joined "_" label)) == joined "invoices_" label) ≡ false
names_apart name label long =
    let a = joined "invoices_" (joined name (joined "_" label)) in
    let b = joined "invoices_" label in
    elim (Bool-cases (a == b)) [
      | inr other ↦ other
      | inl same ↦
          let e : a ≡ b = ground (arith, eq_iff a b) in
          let shorter = ap chars (append_cancel_left "invoices_" _ _ e) in
          absurd
            (omega (arith, shorter, chars-append name (joined "_" label), chars-append "_" label))
    ]

provider_dir-IsApart :
    (base dir : FilePath) (label : String)
    → IsProviderDir base label dir
    → IsApart (consolidated_dir base label) dir
unfolding consolidated_dir chars
provider_dir-IsApart base dir label (inl e) =
    rw e (siblings-IsApart base _ _ (names_apart "gmail" label (omega arith)))
provider_dir-IsApart base dir label (inr e) =
    rw e (siblings-IsApart base _ _ (names_apart "outlook" label (omega arith)))

module _ (tools : RunTools) (base : FilePath) (label : String) where
  run_provider-dir :
      (run : ProviderRun) (fs : List Entry) (r : ProviderResult)
      → (run_provider tools run fs).0 ≡ ok r
      → r.invoices_dir ≡ run.invoices_dir
  unfolding run_provider
  run_provider-dir run fs r h =
      elim (Result-cases (execute_provider tools run.name run.invocation fs).0) [
        | inl (e, ended) ↦ ground arith
        | inr (x, ended) ↦ absurd (ground arith)
      ]

  run_all-dirs :
      (runs : List ProviderRun) (fs : List Entry) (results : List ProviderResult)
      → All (λ (run : ProviderRun). IsProviderDir base label run.invoices_dir) runs
      → (run_all tools runs fs).0 ≡ ok results
      → All (λ (r : ProviderResult). IsProviderDir base label r.invoices_dir) results
  unfolding run_all
  run_all-dirs [] fs results dirs h = let none_left : [] ≡ results = ok_eq h in rw (← none_left) tt
  run_all-dirs (run ∷ runs) fs results dirs h =
      let fs₁ = (run_provider tools run fs).1 in
      elim (Result-cases (run_provider tools run fs).0) [
        | inr (x, ended) ↦ absurd (ground arith)
        | inl (r, ended) ↦ elim (Result-cases (run_all tools runs fs₁).0) [
          | inr (x, later) ↦ absurd (ground arith)
          | inl (rs, later) ↦
              let all : results ≡ r ∷ rs = ground arith in
              rw all
                (rw (run_provider-dir run fs r ended) dirs.0, run_all-dirs runs fs₁ rs dirs.1 later)
        ]
      ]

successful-IsProviderDir :
    (base : FilePath) (label : String) (results : List ProviderResult)
    → All (λ (r : ProviderResult). IsProviderDir base label r.invoices_dir) results
    → All (IsApart (consolidated_dir base label)) (successful_dirs results)
unfolding successful_dirs
successful-IsProviderDir base label [] h = tt
successful-IsProviderDir base label (r ∷ rs) h = elim (Bool-cases (is_zero r)) [
  | inl zero ↦ rw zero (
    provider_dir-IsApart base r.invoices_dir label h.0,
    successful-IsProviderDir base label rs h.1,
  )
  | inr other ↦ rw other (successful-IsProviderDir base label rs h.1)
]

gmail_runs-dirs :
    (tools : RunTools) (providers : List String) (python_bin : String) (w : Window)
    (base : FilePath) (gmail_args : String)
    → All
        (λ (run : ProviderRun). IsProviderDir base w.label run.invoices_dir)
        (gmail_runs tools providers python_bin w base gmail_args)
unfolding gmail_runs
gmail_runs-dirs tools providers python_bin w base gmail_args =
    elim (Bool-cases (contains "gmail" providers)) [
      | inl there ↦ rw there (inl refl, tt)
      | inr absent ↦ rw absent tt
    ]

outlook_runs-dirs :
    (tools : RunTools) (providers : List String) (python_bin : String) (w : Window)
    (base : FilePath) (client : Option String) (graph_args : String) (runs : List ProviderRun)
    → outlook_runs tools providers python_bin w base client graph_args ≡ ok runs
    → All (λ (run : ProviderRun). IsProviderDir base w.label run.invoices_dir) runs
unfolding outlook_runs
outlook_runs-dirs tools providers python_bin w base client graph_args runs h =
    elim (Bool-cases (contains "outlook" providers)) [
      | inr absent ↦ let e = ok_eq (rw absent at h) in rw (← e) tt
      | inl there ↦ elim (Bool-cases (truthy? client)) [
        | inr missing ↦ absurd (ground arith)
        | inl given ↦ let e = ok_eq (rw (there, given) at h) in rw (← e) (inr refl, tt)
      ]
    ]

build_runs-dirs :
    (tools : RunTools) (providers : List String) (python_bin : String) (w : Window)
    (base : FilePath) (client : Option String) (gmail_args graph_args : String)
    (runs : List ProviderRun)
    → build_runs tools providers python_bin w base client gmail_args graph_args ≡ ok runs
    → All (λ (run : ProviderRun). IsProviderDir base w.label run.invoices_dir) runs
unfolding build_runs gmail_runs outlook_runs
build_runs-dirs tools providers python_bin w base client gmail_args graph_args runs h =
    elim (Result-cases (outlook_runs tools providers python_bin w base client graph_args)) [
      | inr (x, refused) ↦ absurd (ground arith)
      | inl (outlook, some_runs) ↦
          let both : runs ≡ gmail_runs tools providers python_bin w base gmail_args ++ outlook =
            ground arith in
          rw both (
            All-append (λ (run : ProviderRun). IsProviderDir base w.label run.invoices_dir) _
              outlook (gmail_runs-dirs tools providers python_bin w base gmail_args)
              (outlook_runs-dirs tools providers python_bin w base client graph_args outlook
                some_runs))
    ]

exit_of_ok :
    (results : List ProviderResult)
    → exit_of (failures_of results) ≡ ok tt
    → All (λ r. is_zero r ≡ true) results
unfolding failures_of exit_of
exit_of_ok [] h = tt
exit_of_ok (r ∷ rs) h = elim (Bool-cases (is_zero r)) [
  | inl zero ↦ (zero, exit_of_ok rs (rw zero at h))
  | inr other ↦ absurd (ground arith)
]

exit_of_zeros :
    (results : List ProviderResult)
    → All (λ r. is_zero r ≡ true) results
    → exit_of (failures_of results) ≡ ok tt
unfolding failures_of exit_of
exit_of_zeros [] h = refl
exit_of_zeros (r ∷ rs) h = ground (arith, h.0, exit_of_zeros rs h.1)

-- Each successful folder that exists is freed of duplicates in turn, over the files that the one before left.
abbrev pub AllDeduped : PdfTools → List ProviderResult → List Entry → List Entry → Type 0
AllDeduped pdf_tools [] fs fs' = fs' ≡ fs
AllDeduped pdf_tools (r ∷ rs) fs fs' =
    ((is_zero r ≡ false) × AllDeduped pdf_tools rs fs fs')
    ⊎ ((is_zero r ≡ true)
        × (((folder_exists fs r.invoices_dir ≡ false) × AllDeduped pdf_tools rs fs fs')
            ⊎ ((d : Deduping) × (Deduped pdf_tools r.invoices_dir fs d
                  × AllDeduped pdf_tools rs d.files fs'))))

no_folder :
    (pdf_tools : PdfTools) (dir : FilePath) (fs : List Entry)
    → folder_exists fs dir ≡ false
    → (dedupe_provider_dir pdf_tools dir fs).files ≡ fs
unfolding dedupe_provider_dir
no_folder pdf_tools dir fs h = rw h refl

dedupe_results-AllDeduped :
    (pdf_tools : PdfTools) (results : List ProviderResult) (fs : List Entry)
    → HaveOwnPaths fs
    → AllDeduped pdf_tools results fs (dedupe_results pdf_tools results fs).1
unfolding dedupe_results
dedupe_results-AllDeduped pdf_tools [] fs own = refl
dedupe_results-AllDeduped pdf_tools (r ∷ rs) fs own = elim (Bool-cases (is_zero r)) [
  | inr other ↦
      inl (other, rw (dedupe_results, other) (dedupe_results-AllDeduped pdf_tools rs fs own))
  | inl zero ↦ elim (Bool-cases (folder_exists fs r.invoices_dir)) [
    | inr missing ↦ inr (
      zero,
      inl (
        missing,
        rw (dedupe_results, zero, no_folder pdf_tools r.invoices_dir fs missing)
            (dedupe_results-AllDeduped pdf_tools rs fs own),
      ),
    )
    | inl there ↦
        let d = dedupe_provider_dir pdf_tools r.invoices_dir fs in
        let done = dedupe_provider_dir-Deduped pdf_tools r.invoices_dir fs there own in
        inr (
          zero,
          inr (
            d,
            (
              done,
              rw (dedupe_results, zero)
                  (dedupe_results-AllDeduped pdf_tools rs d.files done.own_paths),
            ),
          ),
        )
  ]
]

-- What is left of a month, from the results of its providers and the files that they left.
pub record MonthFinished (pdf_tools : PdfTools) (w : Window) (base : FilePath)
    (results : List ProviderResult) (fs : List Entry) (srcs : List FilePath) (d : String)
    (end : Ended) : Type 0 where
  pub clean_exit : (end.exit ≡ ok tt) ↔ All (λ r. is_zero r ≡ true) results
  pub files_deduped : List Entry
  pub deduped : AllDeduped pdf_tools results fs files_deduped
  pub folder : Folder
  pub files_written : end.files ≡ folder.files
  pub consolidated :
      Consolidated pdf_tools.hash (consolidated_dir base w.label) srcs files_deduped d folder
  pub summary_written :
      (s : Summary) × (end.summary ≡ some s)
      × (s.consolidation ≡ folder.stats)
      × (s.providers ≡ results)

main-finish :
    (pdf_tools : PdfTools) (tools : RunTools) (today : Date) (args : Args) (w : Window)
    (providers : List String) (run : ProviderRun) (runs : List ProviderRun)
    (results : List ProviderResult) (fs fs₁ : List Entry)
    → month_window today args.year args.month ≡ some w
    → normalize_providers tools args.providers ≡ ok providers
    → build_runs tools providers args.python_bin w args.base_dir args.graph_client_id
        args.gmail_extra_args args.graph_extra_args
      ≡ ok (run ∷ runs)
    → run_all tools (run ∷ runs) fs ≡ (ok results, fs₁)
    → main pdf_tools tools today args fs ≡ finish pdf_tools w args.base_dir results fs₁
unfolding main
main-finish pdf_tools tools today args w providers run runs results fs fs₁ e₁ e₂ e₃ e₄ =
    rw (main, e₁, e₂, e₃) (ap (after_runs pdf_tools w args.base_dir) e₄)

-- A monthly run whose providers gave results, at least one of them successful, ends without an error if and only if
-- every provider returned 0. Either way, where no two files stand at one path, the folders of the successful ones that
-- exist are freed of duplicates in turn and then consolidated into the month's folder, which as a set of digests has what it had and what they have, and the summary
-- is written with the numbers of the consolidation.
pub main-MonthFinished :
    (pdf_tools : PdfTools) (tools : RunTools) (today : Date) (args : Args) (w : Window)
    (providers : List String) (run : ProviderRun) (runs : List ProviderRun)
    (results : List ProviderResult) (fs fs₁ : List Entry) (src : FilePath) (srcs : List FilePath)
    (d : String)
    → month_window today args.year args.month ≡ some w
    → normalize_providers tools args.providers ≡ ok providers
    → build_runs tools providers args.python_bin w args.base_dir args.graph_client_id
        args.gmail_extra_args args.graph_extra_args
      ≡ ok (run ∷ runs)
    → run_all tools (run ∷ runs) fs ≡ (ok results, fs₁)
    → successful_dirs results ≡ src ∷ srcs
    → HaveOwnPaths fs₁
    → MonthFinished pdf_tools w args.base_dir results fs₁
        (src ∷ srcs)
        d
        (main pdf_tools tools today args fs)
unfolding finish
main-MonthFinished pdf_tools tools today args w providers run runs results fs fs₁ src srcs d e₁ e₂
      e₃ e₄ some_dirs own =
    let base = args.base_dir in
    let dest = consolidated_dir base w.label in
    let files = (dedupe_results pdf_tools results fs₁).1 in
    let folder = consolidate_pdfs pdf_tools.hash dest (src ∷ srcs) files in
    let done =
      main-finish pdf_tools tools today args w providers run runs results fs fs₁ e₁ e₂ e₃ e₄ in
    let dirs =
      run_all-dirs tools base w.label (run ∷ runs) fs results
        (build_runs-dirs tools providers args.python_bin w base args.graph_client_id
          args.gmail_extra_args args.graph_extra_args (run ∷ runs) e₃)
        (ap (λ r. r.0) e₄) in
    let apart : All (IsApart dest) (src ∷ srcs) =
      rw some_dirs at (successful-IsProviderDir base w.label results dirs) in
    rw done (record {
      clean_exit = (exit_of_ok results, exit_of_zeros results);
      files_deduped = files;
      deduped = dedupe_results-AllDeduped pdf_tools results fs₁ own;
      folder = folder;
      files_written = ap (λ l. (consolidate_pdfs pdf_tools.hash dest l files).files) some_dirs;
      consolidated = consolidate_pdfs-Consolidated pdf_tools.hash dest src srcs files d apart;
      summary_written =
          (_, refl, ap (λ l. (consolidate_pdfs pdf_tools.hash dest l files).stats) some_dirs, refl);
    })
