-- ===== src/Examples/Pipeline.antt =====
-- A parse job from its creation to its end.
use invoices_codex.Prelude.{◌≡◌, refl, false, none, some, [], ◌∷◌, filter}
use invoices_codex.Env.{found}
use invoices_codex.Models.{ParseJob}
use invoices_codex.Store.{World, ok}
use invoices_codex.Jobs.Idempotency.{resolve, resolve_idempotent_parse_job}
use invoices_codex.Jobs.ParseJobs.{
  job_key_taken, has_repeats, missing_files, add_parse_job, create_parse_job,
}
use invoices_codex.Worker.ParseRun.Outcomes.{parse_job_of}
use invoices_codex.Worker.Queue.{drain_in_memory_queue}
use invoices_codex.Worker.Tasks.{TaskTools, task_handlers}
use invoices_codex.Worker.Tasks.Ends.{IsOver, created_parse_job_ends}
use invoices_codex.Examples.Base.{env, env-reads, empty_db, world_of, value_or}
use invoices_codex.Examples.Creations.{job}
use invoices_codex.Examples.Tools.{disk, file, parse_tools, collection_tools, report_tools}

abbrev tools : TaskTools
tools = record {
  parse = parse_tools;
  report = report_tools;
  collection = collection_tools;
  disk = disk;
  begun = 7;
  ended = 8;
  int_text = λ t. none;
}

abbrev with_file : World
with_file = world_of (record empty_db { files = file ∷ [] })

abbrev created : ParseJob
created = value_or job (create_parse_job env 5 "t" ("f" ∷ []) false (some "k") none with_file).0

created_parse_job_ends_example :
    (w' : World) × (drain_in_memory_queue 2
        (task_handlers env tools)
        0
        (create_parse_job env 5 "t" ("f" ∷ []) false (some "k") none with_file).1
      ≡ some (ok 1, w'))
    × (w'.queue ≡ [])
    × ((j : ParseJob) × (parse_job_of env created.id w'.db ≡ found j) × IsOver j)
unfolding create_parse_job add_parse_job job_key_taken has_repeats missing_files
    resolve_idempotent_parse_job resolve filter
created_parse_job_ends_example =
    created_parse_job_ends env env-reads tools 5 "t" ("f" ∷ []) false (some "k") "k" created
      with_file refl (tt) refl refl refl refl
