-- ===== src/Worker/Tasks/Ends.antt =====
-- A parse job from its creation to its end: `create_parse_job` of service.py, and the queue's loop with the handlers
-- of tasks.py.
use text.Mathlib.TextPositions.{eq_refl}
use invoices_codex.Prelude.{
  ℕ, String, ◌+◌, ◌≡◌, refl, sym, ap, ◌∙◌, ◌⊎◌, inl, inr, Bool, Option, none, some, List, [], ◌∷◌,
  ◌++◌, ◌==◌, arith, IsKeyed, filter, All-filter_nil, filter-save_kept, filter_holds, length,
}
use invoices_codex.Prelude.Keyed.{IsKeyed-append_last, IsKeyed-save}
use invoices_codex.Env.{Env, absent, found, ReadsRows, filter_of_found, found_of_filter}
use invoices_codex.Models.{JobStatus, succeeded, failed, ParseJob}
use invoices_codex.Store.{World, Task, ok, save_parse_job}
use invoices_codex.Jobs.Idempotency.{has_key, normalize_key}
use invoices_codex.Jobs.Idempotency.Lookup.{added-found}
use invoices_codex.Jobs.ParseJobs.{parse_job_row, parse_job_task, create_parse_job}
use invoices_codex.Jobs.ParseJobs.Retry.{create_parse_job-Created}
use invoices_codex.Worker.ParseRun.{
  ParseTools, started_job, finished_job, failed_job, run_parse_job,
}
use invoices_codex.Worker.ParseRun.Outcomes.{parse_job_of, run_parse_job-outcomes}
use invoices_codex.Worker.Queue.{handle_task, drain_in_memory_queue}
use invoices_codex.Worker.Tasks.{TaskTools, run_parse_job_task, task_handlers}

-- A job that has come to an end.
abbrev pub IsOver : ParseJob → Type 0
IsOver j = (j.status ≡ succeeded) ⊎ (j.status ≡ failed)

-- The row that is written back last, under the id that was read.
saved_twice-found :
    (env : Env) (reads : ReadsRows env) (id : String) (job job₁ job₂ : ParseJob)
    (rows : List ParseJob)
    → IsKeyed (λ (j : ParseJob). j.id) rows
    → env.one_or_none (λ (j : ParseJob). j.id == id) rows ≡ found job
    → job₁.id ≡ job.id
    → job₂.id ≡ job.id
    → env.one_or_none
        (λ (j : ParseJob). j.id == id)
        (save_parse_job job₂ (save_parse_job job₁ rows))
      ≡ found job₂
unfolding save_parse_job
saved_twice-found env reads id job job₁ job₂ rows keyed known e₁ e₂ =
    let key : ParseJob → String = λ j. j.id in
    let p : ParseJob → Bool = λ j. j.id == id in
    let one = filter_of_found reads p rows job known in
    let hit = filter_holds p job rows one in
    let first = filter-save_kept p key job job₁ rows (ap (λ s. s == id) e₁ ∙ hit) e₁ keyed one in
    found_of_filter reads p _ job₂ (
      filter-save_kept p key job₁ job₂ _ (ap (λ s. s == id) e₂ ∙ hit) (e₂ ∙ sym e₁)
        (IsKeyed-save key job₁ rows keyed) first)

-- A run of a parse job that the database holds ends it, and leaves the queue.
run_parse_job-IsOver :
    (env : Env) (reads : ReadsRows env) (tools : ParseTools) (begun ended : ℕ) (id : String)
    (job : ParseJob) (w : World)
    → IsKeyed (λ (j : ParseJob). j.id) w.db.parse_jobs
    → parse_job_of env id w.db ≡ found job
    → (s : JobStatus) × ((run_parse_job env tools begun ended id w).0 ≡ ok s)
      × ((run_parse_job env tools begun ended id w).1.queue ≡ w.queue)
      × ((j : ParseJob) × (parse_job_of env id (run_parse_job env tools begun ended id w).1.db
            ≡ found j)
          × IsOver j)
unfolding started_job finished_job failed_job
run_parse_job-IsOver env reads tools begun ended id job w keyed known =
    let row₁ = started_job begun job in
    elim (run_parse_job-outcomes env reads tools begun ended id job w keyed known) [
      | inl s ↦
          let row₂ = finished_job ended row₁ (length s.records) in
          (
            succeeded,
            s.status_succeeded,
            s.queue_kept,
            (
              row₂,
              ap (env.one_or_none (λ (j : ParseJob). j.id == id)) s.job_finished
                  ∙ saved_twice-found env reads id job row₁ row₂ w.db.parse_jobs keyed known refl
                      refl,
              inl refl,
            ),
          )
      | inr f ↦
          let row₂ = failed_job ended row₁ (tools.str_exc f.fault) in
          (
            failed,
            f.status_failed,
            f.queue_kept,
            (
              row₂,
              ap (env.one_or_none (λ (j : ParseJob). j.id == id)) f.job_failed
                  ∙ saved_twice-found env reads id job row₁ row₂ w.db.parse_jobs keyed known refl
                      refl,
              inr refl,
            ),
          )
    ]

handle-parse_task :
    (env : Env) (tools : TaskTools) (id queue_id : String) (s : JobStatus) (w : World)
    → (run_parse_job env tools.parse tools.begun tools.ended id w).0 ≡ ok s
    → handle_task
        (task_handlers env tools)
        (record { task_name = parse_job_task; argument = id; job_id = queue_id })
        w
      ≡ (ok tt, (run_parse_job env tools.parse tools.begun tools.ended id w).1)
unfolding handle_task task_handlers run_parse_job_task
handle-parse_task env tools id queue_id s w h = ground arith

-- A queue of one task whose handler returns and leaves the queue empty.
drain-one :
    (env : Env) (tools : TaskTools) (t : Task) (w w' : World)
    → w.queue ≡ t ∷ []
    → handle_task (task_handlers env tools) t (record w { queue = [] }) ≡ (ok tt, w')
    → w'.queue ≡ []
    → drain_in_memory_queue 2 (task_handlers env tools) 0 w ≡ some (ok 1, w')
unfolding drain_in_memory_queue
drain-one env tools t w w' one handled empty = ground arith

-- A parse job that `create_parse_job` adds under a new key, with a new id and to an empty queue, comes to an end: the
-- loop over the queue, with the handlers of the tasks, handles its one task and leaves the queue empty, and then the
-- job's row is succeeded or failed.
pub created_parse_job_ends :
    (env : Env) (reads : ReadsRows env) (tools : TaskTools) (now : ℕ) (tenant_id : String)
    (file_ids : List String) (debug : Bool) (raw_key : Option String) (key : String) (r : ParseJob)
    (w : World)
    → w.queue ≡ []
    → IsKeyed (λ (j : ParseJob). j.id) w.db.parse_jobs
    → filter (λ (j : ParseJob). j.id == env.uuid4 w.drawn) w.db.parse_jobs ≡ []
    → normalize_key env raw_key ≡ some key
    → env.one_or_none (has_key env tenant_id "parse_jobs.create" key) w.db.idempotency ≡ absent
    → (create_parse_job env now tenant_id file_ids debug raw_key none w).0 ≡ ok r
    → (w' : World) × (drain_in_memory_queue 2
          (task_handlers env tools)
          0
          (create_parse_job env now tenant_id file_ids debug raw_key none w).1
        ≡ some (ok 1, w'))
      × (w'.queue ≡ [])
      × ((j : ParseJob) × (parse_job_of env r.id w'.db ≡ found j) × IsOver j)
unfolding parse_job_row
created_parse_job_ends env reads tools now tenant_id file_ids debug raw_key key r w empty keyed
      fresh given new h =
    let c =
      create_parse_job-Created env reads now tenant_id file_ids debug raw_key key r w given new h in
    let id = env.uuid4 w.drawn in
    let queue_id = env.uuid4 (w.drawn + 1) in
    let t : Task = record { task_name = parse_job_task; argument = id; job_id = queue_id } in
    let key_of : ParseJob → String = λ j. j.id in
    let w₁ = (create_parse_job env now tenant_id file_ids debug raw_key none w).1 in
    let popped : World = record w₁ { queue = [] } in
    let same : r.id ≡ id = ap key_of c.job_new in
    let keyed₁ : IsKeyed key_of popped.db.parse_jobs = rw c.jobs_added (
      IsKeyed-append_last key_of r w.db.parse_jobs keyed
        (rw same (All-filter_nil (λ j. j.id == id) w.db.parse_jobs fresh))) in
    let found₁ : parse_job_of env id popped.db ≡ found r =
      ap (env.one_or_none (λ (j : ParseJob). j.id == id)) c.jobs_added
      ∙ added-found env reads (λ (j : ParseJob). j.id == id) w.db.parse_jobs r fresh
          (rw same (eq_refl id)) in
    let (s, done, queue, over) =
      run_parse_job-IsOver env reads tools.parse tools.begun tools.ended id r popped keyed₁
        found₁ in
    let w' = (run_parse_job env tools.parse tools.begun tools.ended id popped).1 in
    let one : w₁.queue ≡ t ∷ [] = c.task_added ∙ ap (λ (q : List Task). q ++ t ∷ []) empty in
    (
      w',
      drain-one env tools t w₁ w' one (handle-parse_task env tools id queue_id s popped done) queue,
      queue,
      rw same over,
    )
