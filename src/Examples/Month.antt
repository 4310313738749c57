-- ===== src/Examples/Month.antt =====
-- A monthly run in which one of two providers fails.
use invoices_codex.Prelude.{◌≡◌, refl, none, some, List, [], ◌∷◌}
use invoices_codex.Monthly.Paths.{Entry}
use invoices_codex.Monthly.Calendar.{
  Date, Window, month_window, add_days, days_in_month, iso_date, month_label,
}
use invoices_codex.Monthly.Calendar.Windows.{month_window-after}
use invoices_codex.Monthly.Runs.{
  Result, ok, returned, exited, ProviderRun, ProviderResult, RunTools, normalize_providers,
  execute_provider, to_command, gmail_runs, outlook_runs, build_runs,
}
use invoices_codex.Monthly.Main.{Args, is_zero, successful_dirs, run_provider, run_all, main}
use invoices_codex.Monthly.Main.Finished.{MonthFinished, main-MonthFinished}
use invoices_codex.Prelude.Decimal.{decimal}
use invoices_codex.Examples.Folders.{pdf, pdf_tools}

abbrev today : Date
today = record { year = 2025; month = 12; day = 5 }

abbrev window : Window
window = record { start_date = "2025-12-01"; end_date = "2026-01-01"; label = "12_2025" }

month_window-after_example : month_window today none none ≡ some window
unfolding decimal iso_date month_label
month_window-after_example = month_window-after today none none

abbrev run_tools : RunTools
run_tools = record {
  gmail_run = λ argv fs. (returned 0, fs);
  graph_run = λ argv fs. (exited none, fs);
  strip = λ t. t;
  lower = λ t. t;
  split_commas = λ t. t ∷ [];
  shlex_split = λ t. t ∷ [];
  str_path = λ p. "path";
  graph_authority = "consumers";
}

abbrev args : Args
args = record {
  providers = "";
  month = none;
  year = none;
  base_dir = "invoices" ∷ [];
  python_bin = "python";
  gmail_extra_args = "";
  graph_extra_args = "";
  graph_client_id = some "id";
}

abbrev files : List Entry
files = pdf ("invoices" ∷ "invoices_gmail_12_2025" ∷ "a.pdf" ∷ []) "one" ∷ []

abbrev runs_or_none : Result (List ProviderRun) → List ProviderRun
runs_or_none (ok runs) = runs
runs_or_none _ = []

abbrev results_or_none : Result (List ProviderResult) → List ProviderResult
results_or_none (ok results) = results
results_or_none _ = []

abbrev runs : List ProviderRun
runs = runs_or_none (
    build_runs run_tools ("gmail" ∷ "outlook" ∷ []) "python" window ("invoices" ∷ []) (some "id") ""
      "")

abbrev results : List ProviderResult
results = results_or_none (run_all run_tools runs files).0

main-MonthFinished_example :
    MonthFinished pdf_tools window
      ("invoices" ∷ [])
      results
      files
      (("invoices" ∷ "invoices_gmail_12_2025" ∷ []) ∷ [])
      "h-one"
      (main pdf_tools run_tools today args files)
unfolding month_window add_days days_in_month iso_date month_label decimal normalize_providers
    gmail_runs outlook_runs build_runs to_command execute_provider run_provider run_all
    successful_dirs is_zero
main-MonthFinished_example =
    main-MonthFinished pdf_tools run_tools today args window ("gmail" ∷ "outlook" ∷ []) _ _ results
      files files ("invoices" ∷ "invoices_gmail_12_2025" ∷ []) [] "h-one" refl refl refl refl refl
      (tt, tt)
