-- ===== src/Jobs/Reports/Retry.antt =====
-- `create_report_job` of service.py with an idempotency key, called twice.
use text.Mathlib.TextPositions.{eq_refl}
use invoices_codex.Prelude.{
  ℕ, String, ◌≡◌, ap, ◌∙◌, ◌+◌, Bool, true, Option, none, some, inl, inr, List, [], ◌∷◌, ◌++◌, ◌==◌,
  ◌&&◌, arith, List-cases, All, In, contains, map, eq_iff,
}
use invoices_codex.Env.{Env, Dict, found, absent, ReadsRows}
use invoices_codex.Models.{Report, ParseJob, queued, IdempotencyRecord}
use invoices_codex.Store.{World, Db, ok}
use invoices_codex.Jobs.Idempotency.{
  has_key, normalize_key, idempotency_row, resolve, resolve_idempotent_report, read_report,
}
use invoices_codex.Jobs.Idempotency.Lookup.{key_row-read, added-found, filter_of_absent}
use invoices_codex.Jobs.ParseJobs.{missing_from, missing_from-none, contains-map}
use invoices_codex.Jobs.Reports.{
  report_row, report_job_task, report_allowed_formats, requested_formats, missing_jobs, add_report,
  create_report_job,
}

-- Each id is that of a row of the tenant.
abbrev pub AllOwned : String → List String → List ParseJob → Type 0
AllOwned tenant_id ids rows =
    All (λ i. (a : ParseJob) × (In a rows × ((a.id ≡ i) × (a.tenant_id ≡ tenant_id)))) ids

owned-from :
    (env : Env) (reads : ReadsRows env) (tenant_id : String) (wanted : List String)
    (rows : List ParseJob) (ids : List String)
    → All
        (λ i.
          contains i (
            map
              (λ (a : ParseJob). a.id)
              (env.all_rows
                (λ (a : ParseJob). (a.tenant_id == tenant_id) && contains a.id wanted)
                rows))
          ≡ true)
        ids
    → AllOwned tenant_id ids rows
owned-from env reads tenant_id wanted rows [] h = tt
owned-from env reads tenant_id wanted rows (i ∷ is) h =
    let p : ParseJob → Bool = λ a. (a.tenant_id == tenant_id) && contains a.id wanted in
    let (a, (there, e)) = contains-map (λ (x : ParseJob). x.id) i (env.all_rows p rows) h.0 in
    let (known, both) = reads.all_rows-sound p rows a there in
    (
      (a, (known, (e, ground (arith, eq_iff a.tenant_id tenant_id)))),
      owned-from env reads tenant_id wanted rows is h.1,
    )

missing_jobs-none :
    (env : Env) (reads : ReadsRows env) (tenant_id : String) (ids : List String) (db : Db)
    → missing_jobs env tenant_id ids db ≡ []
    → AllOwned tenant_id ids db.parse_jobs
unfolding missing_jobs
missing_jobs-none env reads tenant_id ids db h =
    owned-from env reads tenant_id ids db.parse_jobs ids (missing_from-none _ ids h)

pub record Created (env : Env) (now : ℕ) (tenant_id : String) (parse_job_ids formats : List String)
    (filters : Dict) (key : String) (r : Report) (w w' : World) : Type 0 where
  pub formats_allowed :
      All
        (λ f. contains f ("json" ∷ "csv" ∷ "summary_csv" ∷ "pdf" ∷ []) ≡ true)
        (requested_formats formats)
  pub none_refused : missing_from report_allowed_formats (requested_formats formats) ≡ []
  pub all_known : AllOwned tenant_id parse_job_ids w.db.parse_jobs
  pub report_new : r ≡ record {
    id = env.uuid4 w.drawn;
    tenant_id = tenant_id;
    status = queued;
    idempotency_key = some key;
    queue_job_id = some (env.uuid4 (w.drawn + 1));
    requested_formats_json = env.dumps_texts (requested_formats formats);
    filters_json = env.dumps filters;
    error_message = none;
    created_at = now;
    started_at = none;
    finished_at = none;
  }
  pub reports_added : w'.db.reports ≡ w.db.reports ++ r ∷ []
  pub key_added :
      w'.db.idempotency
      ≡ w.db.idempotency
        ++ idempotency_row env now
            (env.uuid4 (w.drawn + 1 + 1))
            tenant_id
            "reports.create"
            key
            "report"
            (env.uuid4 w.drawn)
          ∷ []
  pub task_added :
      w'.queue
      ≡ w.queue
        ++ (record {
          task_name = report_job_task;
          argument = env.uuid4 w.drawn;
          job_id = env.uuid4 (w.drawn + 1);
        })
          ∷ []

-- A report created under a new key has only allowed formats, and for each id a parse job of the tenant with it; one queued
-- report is added with its key, and one task is enqueued, which carries the report's id.
pub create_report_job-Created :
    (env : Env) (reads : ReadsRows env) (now : ℕ) (tenant_id : String)
    (parse_job_ids formats : List String) (filters : Dict) (raw_key : Option String) (key : String)
    (r : Report) (w : World)
    → normalize_key env raw_key ≡ some key
    → env.one_or_none (has_key env tenant_id "reports.create" key) w.db.idempotency ≡ absent
    → (create_report_job env now tenant_id parse_job_ids formats filters raw_key none w).0 ≡ ok r
    → Created env now tenant_id parse_job_ids formats filters key r w
        (create_report_job env now tenant_id parse_job_ids formats filters raw_key none w).1
unfolding create_report_job add_report resolve_idempotent_report resolve report_row
create_report_job-Created env reads now tenant_id parse_job_ids formats filters raw_key key r w
      given new h =
    elim (List-cases (missing_from report_allowed_formats (requested_formats formats))) [
      | inr (f, (fs, e)) ↦ absurd (ground arith)
      | inl allowed ↦ elim (List-cases (missing_jobs env tenant_id parse_job_ids w.db)) [
        | inr (m, (ms, e')) ↦ absurd (ground arith)
        | inl known ↦ record {
          formats_allowed =
              missing_from-none report_allowed_formats (requested_formats formats) allowed;
          none_refused = allowed;
          all_known = missing_jobs-none env reads tenant_id parse_job_ids w.db known;
          report_new = ground arith;
          reports_added = ground arith;
          key_added = ground arith;
          task_added = ground arith;
        }
      ]
    ]

create_report_job-known :
    (env : Env) (now : ℕ) (tenant_id : String) (parse_job_ids formats : List String)
    (filters : Dict) (raw_key : Option String) (key : String) (lost : Option Db)
    (k : IdempotencyRecord) (r : Report) (w : World)
    → missing_from report_allowed_formats (requested_formats formats) ≡ []
    → normalize_key env raw_key ≡ some key
    → env.one_or_none (has_key env tenant_id "reports.create" key) w.db.idempotency ≡ found k
    → read_report env tenant_id k.resource_id w.db ≡ found r
    → create_report_job env now tenant_id parse_job_ids formats filters raw_key lost w ≡ (ok r, w)
unfolding create_report_job resolve_idempotent_report resolve
create_report_job-known env now tenant_id parse_job_ids formats filters raw_key key lost k r w
      allowed given known job =
    ground arith

-- A report request under a new key that returned is answered with the same report when it is sent once more
-- with that key, even for other parse jobs, and the second call changes nothing. The
-- report's id must be a new one.
pub create_report_job_retry :
    (env : Env) (reads : ReadsRows env) (now later : ℕ) (tenant_id : String)
    (parse_job_ids parse_job_ids' formats : List String) (filters filters' : Dict)
    (raw_key : Option String) (key : String) (r : Report) (w : World)
    → normalize_key env raw_key ≡ some key
    → env.one_or_none (has_key env tenant_id "reports.create" key) w.db.idempotency ≡ absent
    → read_report env tenant_id (env.uuid4 w.drawn) w.db ≡ absent
    → (create_report_job env now tenant_id parse_job_ids formats filters raw_key none w).0 ≡ ok r
    → create_report_job env later tenant_id parse_job_ids' formats filters' raw_key none
        (create_report_job env now tenant_id parse_job_ids formats filters raw_key none w).1
      ≡ (ok r, (create_report_job env now tenant_id parse_job_ids formats filters raw_key none w).1)
create_report_job_retry env reads now later tenant_id parse_job_ids parse_job_ids' formats filters
      filters' raw_key key r w given new fresh h =
    let c =
      create_report_job-Created env reads now tenant_id parse_job_ids formats filters raw_key key r
        w given new h in
    let w' = (create_report_job env now tenant_id parse_job_ids formats filters raw_key none w).1 in
    let id = env.uuid4 w.drawn in
    let k =
      idempotency_row env now (env.uuid4 (w.drawn + 1 + 1)) tenant_id "reports.create" key "report"
        id in
    let k_read =
      key_row-read env now (env.uuid4 (w.drawn + 1 + 1)) tenant_id "reports.create" key "report"
        id in
    let p : Report → Bool = λ x. (x.tenant_id == tenant_id) && (x.id == id) in
    let hit : p r ≡ true = ap p c.report_new ∙ ground (arith, eq_refl tenant_id, eq_refl id) in
    create_report_job-known env later tenant_id parse_job_ids' formats filters' raw_key key none k r
      w' c.none_refused given
      (rw c.key_added (
        added-found env reads (has_key env tenant_id "reports.create" key) w.db.idempotency k
          (filter_of_absent env reads _ w.db.idempotency new) k_read.0))
      (ap (λ (i : String). read_report env tenant_id i w'.db) k_read.1
        ∙ ap (env.one_or_none p) c.reports_added
        ∙ added-found env reads p w.db.reports r (filter_of_absent env reads p w.db.reports fresh)
            hit)
