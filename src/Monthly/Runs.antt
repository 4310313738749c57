-- ===== src/Monthly/Runs.antt =====
-- The providers of a month: `normalize_providers`, `merged_pythonpath`, `build_runs`, `run_provider`, `run_all` and `main` of
-- cli/monthly_invoices.py, and usecases/provider_runner.py. The providers of a run are taken one after another, in
-- the order of the list; each writes into a folder of its own.
use invoices_codex.Prelude.{
  ℕ, String, ◌≡◌, refl, ◌⊎◌, inl, inr, not, ◌||◌, Option, none, some, List, [], ◌∷◌, ◌++◌, ◌==◌,
  contains, joined, or_empty, if◌then◌else◌, truthy?,
}
use invoices_codex.Monthly.Paths.{FilePath, Entry}
use invoices_codex.Monthly.Calendar.{Window}

-- What ends a run early: the exceptions, with the message of `SystemExit` and of `ValueError`.
pub data Exit : Type 0 where
  system_exit : String → Exit
  value_error : String → Exit

pub data Result (A : Type 0) : Type 0 where
  ok : A → Result A
  stopped : Exit → Result A

-- To split on whether a step stopped.
pub Result-cases :
    {A : Type 0} (r : Result A) → ((a : A) × (r ≡ ok a)) ⊎ ((x : Exit) × (r ≡ stopped x))
Result-cases (ok a) = inl (a, refl)
Result-cases (stopped x) = inr (x, refl)

-- How a provider's `run` ends: a code, `SystemExit` with a number or another code, or an exception.
pub data RunnerEnd : Type 0 where
  returned : ℕ → RunnerEnd
  exited : Option ℕ → RunnerEnd
  failed : String → RunnerEnd

-- `runner(argv)`, on the files.
abbrev pub ProviderRunner : Type 0
ProviderRunner = List String → List Entry → RunnerEnd × List Entry

pub record ProviderInvocation : Type 0 where
  pub python_bin : String
  pub provider_module : String
  pub argv : List String

unfoldable pub to_command : ProviderInvocation → List String
to_command i = i.python_bin ∷ "-m" ∷ i.provider_module ∷ i.argv

pub record ProviderRun : Type 0 where
  pub name : String
  pub invoices_dir : FilePath
  pub command : List String
  pub invocation : ProviderInvocation

pub record ProviderResult : Type 0 where
  pub name : String
  pub invoices_dir : FilePath
  pub command : List String
  pub returncode : ℕ

pub record ProviderExecutionResult : Type 0 where
  pub returncode : ℕ
  pub error : Option String

-- The finders of the two providers, the text functions, `shlex.split` and `str(path)`.
pub record RunTools : Type 0 where
  pub gmail_run : ProviderRunner
  pub graph_run : ProviderRunner
  pub strip : String → String
  pub lower : String → String
  pub split_commas : String → List String
  pub shlex_split : String → List String
  pub str_path : FilePath → String
  pub graph_authority : String

abbrev execution_of : RunnerEnd → ProviderExecutionResult
execution_of (returned code) = record { returncode = code; error = none }
execution_of (exited none) = record { returncode = 1; error = none }
execution_of (exited (some code)) = record { returncode = code; error = none }
execution_of (failed message) = record { returncode = 1; error = some message }

-- The providers of the list, without repeats.
unfoldable pub deduped : List String → List String → List String
deduped seen [] = []
deduped seen (p ∷ ps) =
    let rest = deduped (if contains p seen then seen else p ∷ seen) ps in
    if contains p seen then rest else p ∷ rest

-- The entries of PYTHONPATH that `merged_pythonpath` joins again; `chunks` are those of the current one.
unfoldable pub merged_pythonpath : List String → List String → List String
merged_pythonpath parts [] = parts
merged_pythonpath parts (chunk ∷ chunks) =
    merged_pythonpath (if chunk == "" || contains chunk parts then parts else parts ++ chunk ∷ [])
      chunks

abbrev both : List String
both = "gmail" ∷ "outlook" ∷ []

abbrev run_of : String → FilePath → ProviderInvocation → ProviderRun
run_of name dir i = record {
  name = name;
  invoices_dir = dir;
  command = to_command i;
  invocation = i;
}

abbrev pub provider_dir : FilePath → String → String → FilePath
provider_dir base_dir name label =
    base_dir ++ joined "invoices_" (joined name (joined "_" label)) ∷ []

module _ (tools : RunTools) where
  abbrev provider_names : List String → Result (List String)
  provider_names [] = ok []
  provider_names (entry ∷ entries) =
      let rest = provider_names entries in
      let p = tools.lower (tools.strip entry) in
      if p == ""
      then rest
      else if contains p ("graph" ∷ "msgraph" ∷ "outlook" ∷ "microsoft" ∷ [])
      then elim rest [ ok ps ↦ ok ("outlook" ∷ ps) | stopped x ↦ stopped x ]
      else if p == "gmail"
      then elim rest [ ok ps ↦ ok ("gmail" ∷ ps) | stopped x ↦ stopped x ]
      else stopped (value_error (joined "Unknown provider: " entry))

  abbrev or_both : List String → List String
  or_both [] = both
  or_both (p ∷ ps) = p ∷ ps

  unfoldable pub normalize_providers : String → Result (List String)
  unfolding deduped
  normalize_providers raw =
      if raw == "" then ok both else elim (provider_names (tools.split_commas raw)) [
        | stopped x ↦ stopped x
        | ok ps ↦ ok (or_both (deduped [] ps))
      ]

  -- `resolve_runner`
  abbrev resolve_runner : String → Result ProviderRunner
  resolve_runner name =
      if name == "gmail"
      then ok tools.gmail_run
      else if name == "outlook"
      then ok tools.graph_run
      else stopped (value_error (joined "Unknown provider: " name))

  unfoldable pub execute_provider :
      String → ProviderInvocation → List Entry → Result ProviderExecutionResult × List Entry
  execute_provider name invocation fs = elim (resolve_runner name) [
    | stopped x ↦ (stopped x, fs)
    | ok runner ↦ let (e, fs') = runner invocation.argv fs in (ok (execution_of e), fs')
  ]

  -- The arguments of both finders.
  abbrev report_args : FilePath → String → String → String → List String
  report_args dir suffix start_date end_date =
      "--start-date"
      ∷ start_date
      ∷ "--end-date"
      ∷ end_date
      ∷ "--invoices-dir"
      ∷ tools.str_path dir
      ∷ "--download-report"
      ∷ tools.str_path (dir ++ joined "download_report_" (joined suffix ".json") ∷ [])
      ∷ "--save-json"
      ∷ tools.str_path (dir ++ joined "invoices_" (joined suffix ".json") ∷ [])
      ∷ "--save-csv"
      ∷ tools.str_path (dir ++ joined "invoices_" (joined suffix ".csv") ∷ [])
      ∷ []

  abbrev extra : String → List String
  extra args = if args == "" then [] else tools.shlex_split args

  unfoldable pub gmail_runs : List String → String → Window → FilePath → String → List ProviderRun
  unfolding to_command
  gmail_runs providers python_bin w base_dir gmail_extra_args =
      let dir = provider_dir base_dir "gmail" w.label in
      if contains "gmail" providers
      then run_of "gmail" dir (record {
        python_bin = python_bin;
        provider_module = "invplatform.cli.gmail_invoice_finder";
        argv = report_args dir "gmail" w.start_date w.end_date ++ extra gmail_extra_args;
      })
        ∷ []
      else []

  unfoldable pub outlook_runs :
      List String → String → Window → FilePath → Option String → String → Result (List ProviderRun)
  unfolding to_command
  outlook_runs providers python_bin w base_dir graph_client_id graph_extra_args =
      let dir = provider_dir base_dir "outlook" w.label in
      if not (contains "outlook" providers)
      then ok []
      else if not (truthy? graph_client_id)
      then stopped (
          system_exit
            "GRAPH_CLIENT_ID is required for Outlook/Graph runs (pass via --graph-client-id or env var).")
      else ok (
          run_of "outlook" dir (record {
            python_bin = python_bin;
            provider_module = "invplatform.cli.graph_invoice_finder";
            argv =
                "--client-id"
                ∷ or_empty graph_client_id
                ∷ "--authority"
                ∷ tools.graph_authority
                ∷ (report_args dir "outlook" w.start_date w.end_date ++ extra graph_extra_args);
          })
          ∷ [])

  unfoldable pub build_runs :
      List String
      → String
      → Window
      → FilePath
      → Option String
      → String
      → String
      → Result (List ProviderRun)
  build_runs providers python_bin w base_dir graph_client_id gmail_extra_args graph_extra_args =
      elim (outlook_runs providers python_bin w base_dir graph_client_id graph_extra_args) [
        | stopped x ↦ stopped x
        | ok outlook ↦ ok (gmail_runs providers python_bin w base_dir gmail_extra_args ++ outlook)
      ]
