-- ===== src/Monthly/Main.antt =====
-- `run_provider`, `run_all` and `main` of cli/monthly_invoices.py. The providers of a run are taken one after another,
-- in the order of the list; the printed lines and the timings are left out.
pub mod Finished
use invoices_codex.Prelude.{
  ℕ, String, Bool, true, false, ◌&&◌, Option, none, some, List, [], ◌∷◌, ◌++◌, ◌==◌, filter, map,
  eqb, joined, if◌then◌else◌,
}
use invoices_codex.Monthly.Paths.{FilePath, Entry}
use invoices_codex.Monthly.Consolidation.{Stats, Folder, consolidate_pdfs}
use invoices_codex.Monthly.Dedupe.{PdfTools, DedupeStats, Deduping, dedupe_provider_dir}
use invoices_codex.Monthly.Calendar.{Date, Window, month_window}
use invoices_codex.Monthly.Runs.{
  Result, ok, stopped, system_exit, value_error, ProviderRun, ProviderResult, RunTools,
  normalize_providers, execute_provider, build_runs,
}

-- The arguments of the command line.
pub record Args : Type 0 where
  pub providers : String
  pub month : Option ℕ
  pub year : Option ℕ
  pub base_dir : FilePath
  pub python_bin : String
  pub gmail_extra_args : String
  pub graph_extra_args : String
  pub graph_client_id : Option String

-- What `write_summary` writes into the consolidated folder.
pub record Summary : Type 0 where
  pub window : Window
  pub consolidated_dir : FilePath
  pub providers : List ProviderResult
  pub consolidation : Stats
  pub deduplication : List (String × DedupeStats)

-- How a run ends, with the files and the summary that it leaves.
pub record Ended : Type 0 where
  pub exit : Result (Unit {0})
  pub files : List Entry
  pub summary : Option Summary

unfoldable pub is_zero : ProviderResult → Bool
is_zero r = eqb r.returncode 0

-- `", ".join(...)`
abbrev comma_joined : List String → String
comma_joined [] = ""
comma_joined (n ∷ []) = n
comma_joined (n ∷ m ∷ ns) = joined n (joined ", " (comma_joined (m ∷ ns)))

unfoldable pub failures_of : List ProviderResult → List ProviderResult
unfolding is_zero
failures_of [] = []
failures_of (r ∷ rs) = let rest = failures_of rs in if is_zero r then rest else r ∷ rest

unfoldable pub exit_of : List ProviderResult → Result (Unit {0})
exit_of [] = ok tt
exit_of (r ∷ rs) = stopped (
    system_exit (
      joined "Some providers failed: "
        (comma_joined (map (λ (x : ProviderResult). x.name) (r ∷ rs)))))

-- `[r.invoices_dir for r in results if r.returncode == 0]`
unfoldable pub successful_dirs : List ProviderResult → List FilePath
unfolding is_zero
successful_dirs [] = []
successful_dirs (r ∷ rs) =
    let rest = successful_dirs rs in if is_zero r then r.invoices_dir ∷ rest else rest

unfoldable pub consolidated_dir : FilePath → String → FilePath
consolidated_dir base_dir label = base_dir ++ joined "invoices_" label ∷ []

module _ (tools : RunTools) where
  unfoldable pub run_provider : ProviderRun → List Entry → Result ProviderResult × List Entry
  run_provider run fs =
      let (r, fs') = execute_provider tools run.name run.invocation fs in
      (
        elim r [
          | stopped x ↦ stopped x
          | ok e ↦ ok (record {
            name = run.name;
            invoices_dir = run.invoices_dir;
            command = run.command;
            returncode = e.returncode;
          })
        ],
        fs',
      )

  unfoldable pub run_all : List ProviderRun → List Entry → Result (List ProviderResult) × List Entry
  run_all [] fs = (ok [], fs)
  run_all (run ∷ runs) fs =
      let (r, fs₁) = run_provider run fs in
      let (rest, fs₂) = run_all runs fs₁ in
      elim r [
        | stopped x ↦ (stopped x, fs₁)
        | ok result ↦
            (elim rest [ ok results ↦ ok (result ∷ results) | stopped x ↦ stopped x ], fs₂)
      ]

module _ (pdf_tools : PdfTools) where
  -- The loop that frees the folder of each successful provider of duplicates.
  unfoldable pub dedupe_results :
      List ProviderResult → List Entry → List (String × DedupeStats) × List Entry
  unfolding is_zero
  dedupe_results [] fs = ([], fs)
  dedupe_results (r ∷ rs) fs =
      let d = dedupe_provider_dir pdf_tools r.invoices_dir fs in
      let (stats, fs') = dedupe_results rs (if is_zero r then d.files else fs) in
      (if is_zero r then (r.name, d.stats) ∷ stats else stats, fs')

  -- What `main` does with the results.
  unfoldable pub finish : Window → FilePath → List ProviderResult → List Entry → Ended
  unfolding consolidated_dir
  finish w base_dir results fs =
      let (dedupe_stats, fs') = dedupe_results results fs in
      let dest = consolidated_dir base_dir w.label in
      let folder = consolidate_pdfs pdf_tools.hash dest (successful_dirs results) fs' in
      record {
        exit = exit_of (failures_of results);
        files = folder.files;
        summary = some (record {
          window = w;
          consolidated_dir = dest;
          providers = results;
          consolidation = folder.stats;
          deduplication = dedupe_stats;
        });
      }

  abbrev stopped_with : Result (Unit {0}) → List Entry → Ended
  stopped_with exit fs = record { exit = exit; files = fs; summary = none }

  abbrev pub after_runs : Window → FilePath → Result (List ProviderResult) × List Entry → Ended
  after_runs w base_dir (stopped x, fs) = stopped_with (stopped x) fs
  after_runs w base_dir (ok results, fs) = finish w base_dir results fs

  abbrev run_and_finish : RunTools → Window → FilePath → List ProviderRun → List Entry → Ended
  run_and_finish tools w base_dir [] fs = stopped_with (ok tt) fs
  run_and_finish tools w base_dir (run ∷ runs) fs =
      after_runs w base_dir (run_all tools (run ∷ runs) fs)

  unfoldable pub main : RunTools → Date → Args → List Entry → Ended
  main tools today args fs = elim (month_window today args.year args.month) [
    | none ↦ stopped_with (stopped (value_error "month must be between 1 and 12")) fs
    | some w ↦ elim (normalize_providers tools args.providers) [
      | stopped x ↦ stopped_with (stopped x) fs
      | ok providers ↦
          elim (build_runs tools providers args.python_bin w args.base_dir args.graph_client_id
            args.gmail_extra_args args.graph_extra_args) [
              | stopped x ↦ stopped_with (stopped x) fs
              | ok runs ↦ run_and_finish tools w args.base_dir runs fs
            ]
    ]
  ]
