-- ===== src/Jobs/ParseJobs/Retry.antt =====
-- `create_parse_job` of service.py with an idempotency key, called twice.
use text.Mathlib.TextPositions.{eq_refl}
use invoices_codex.Prelude.{
  ℕ, String, ◌≡◌, ap, ◌∙◌, ◌+◌, Bool, true, false, Option, none, some, inl, inr, List, [], ◌∷◌,
  ◌++◌, ◌==◌, ◌&&◌, arith, List-cases, Bool-cases, All, In, contains, map, eq_iff,
}
use invoices_codex.Env.{Env, found, absent, ReadsRows}
use invoices_codex.Models.{InvoiceFile, ParseJob, queued, IdempotencyRecord}
use invoices_codex.Store.{World, Db, ok}
use invoices_codex.Jobs.Idempotency.{
  has_key, normalize_key, idempotency_row, resolve, resolve_idempotent_parse_job, read_parse_job,
}
use invoices_codex.Jobs.Idempotency.Lookup.{key_row-read, added-found, filter_of_absent}
use invoices_codex.Jobs.ParseJobs.{
  job_key_taken, has_repeats, missing_from-none, contains-map, parse_job_row, parse_job_task, links,
  is_empty, missing_files, add_parse_job, create_parse_job,
}

-- Each id is that of a row of the tenant.
abbrev pub AllOwned : String → List String → List InvoiceFile → Type 0
AllOwned tenant_id ids rows =
    All (λ i. (a : InvoiceFile) × (In a rows × ((a.id ≡ i) × (a.tenant_id ≡ tenant_id)))) ids

owned-from :
    (env : Env) (reads : ReadsRows env) (tenant_id : String) (wanted : List String)
    (rows : List InvoiceFile) (ids : List String)
    → All
        (λ i.
          contains i (
            map
              (λ (a : InvoiceFile). a.id)
              (env.all_rows
                (λ (a : InvoiceFile). (a.tenant_id == tenant_id) && contains a.id wanted)
                rows))
          ≡ true)
        ids
    → AllOwned tenant_id ids rows
owned-from env reads tenant_id wanted rows [] h = tt
owned-from env reads tenant_id wanted rows (i ∷ is) h =
    let p : InvoiceFile → Bool = λ a. (a.tenant_id == tenant_id) && contains a.id wanted in
    let (a, (there, e)) = contains-map (λ (x : InvoiceFile). x.id) i (env.all_rows p rows) h.0 in
    let (known, both) = reads.all_rows-sound p rows a there in
    (
      (a, (known, (e, ground (arith, eq_iff a.tenant_id tenant_id)))),
      owned-from env reads tenant_id wanted rows is h.1,
    )

missing_files-none :
    (env : Env) (reads : ReadsRows env) (tenant_id : String) (ids : List String) (db : Db)
    → missing_files env tenant_id ids db ≡ []
    → AllOwned tenant_id ids db.files
unfolding missing_files
missing_files-none env reads tenant_id ids db h =
    owned-from env reads tenant_id ids db.files ids (missing_from-none _ ids h)

pub record Created (env : Env) (now : ℕ) (tenant_id : String) (file_ids : List String)
    (debug : Bool) (key : String) (r : ParseJob) (w w' : World) : Type 0 where
  pub all_known : AllOwned tenant_id file_ids w.db.files
  pub job_new : r ≡ record {
    id = env.uuid4 w.drawn;
    tenant_id = tenant_id;
    status = queued;
    idempotency_key = some key;
    queue_job_id = some (env.uuid4 (w.drawn + 1));
    debug = debug;
    records_count = 0;
    failed_count = 0;
    error_message = none;
    created_at = now;
    started_at = none;
    finished_at = none;
  }
  pub jobs_added : w'.db.parse_jobs ≡ w.db.parse_jobs ++ r ∷ []
  pub links_added :
      w'.db.parse_job_files ≡ w.db.parse_job_files ++ links now (env.uuid4 w.drawn) file_ids
  pub key_added :
      w'.db.idempotency
      ≡ w.db.idempotency
        ++ idempotency_row env now
            (env.uuid4 (w.drawn + 1 + 1))
            tenant_id
            "parse_jobs.create"
            key
            "parse_job"
            (env.uuid4 w.drawn)
          ∷ []
  pub task_added :
      w'.queue
      ≡ w.queue
        ++ (record {
          task_name = parse_job_task;
          argument = env.uuid4 w.drawn;
          job_id = env.uuid4 (w.drawn + 1);
        })
          ∷ []

-- A creation under a new key that returns has found, for every file id, a file of the tenant with it, adds one queued
-- job with its links and its key, and enqueues one task, which carries the job's id.
pub create_parse_job-Created :
    (env : Env) (reads : ReadsRows env) (now : ℕ) (tenant_id : String) (file_ids : List String)
    (debug : Bool) (raw_key : Option String) (key : String) (r : ParseJob) (w : World)
    → normalize_key env raw_key ≡ some key
    → env.one_or_none (has_key env tenant_id "parse_jobs.create" key) w.db.idempotency ≡ absent
    → (create_parse_job env now tenant_id file_ids debug raw_key none w).0 ≡ ok r
    → Created env now tenant_id file_ids debug key r w
        (create_parse_job env now tenant_id file_ids debug raw_key none w).1
unfolding create_parse_job add_parse_job resolve_idempotent_parse_job resolve parse_job_row
create_parse_job-Created env reads now tenant_id file_ids debug raw_key key r w given new h =
    elim (List-cases file_ids) [
      | inl e ↦ absurd (ground arith)
      | inr (f, (fs, e)) ↦ elim (List-cases (missing_files env tenant_id file_ids w.db)) [
        | inr (m, (ms, e')) ↦ absurd (ground arith)
        | inl known ↦ elim (Bool-cases (job_key_taken tenant_id (some key) w.db.parse_jobs)) [
          | inl taken ↦ absurd (ground arith)
          | inr free ↦ elim (Bool-cases (has_repeats file_ids)) [
            | inl twice ↦ absurd (ground arith)
            | inr once ↦ record {
              all_known = missing_files-none env reads tenant_id file_ids w.db known;
              job_new = ground arith;
              jobs_added = ground arith;
              links_added = ground arith;
              key_added = ground arith;
              task_added = ground arith;
            }
          ]
        ]
      ]
    ]

-- A call whose key is known returns the key's job and changes nothing.
create_parse_job-known :
    (env : Env) (now : ℕ) (tenant_id : String) (file_ids : List String) (debug : Bool)
    (raw_key : Option String) (key : String) (lost : Option Db) (k : IdempotencyRecord)
    (r : ParseJob) (w : World)
    → is_empty file_ids ≡ false
    → normalize_key env raw_key ≡ some key
    → env.one_or_none (has_key env tenant_id "parse_jobs.create" key) w.db.idempotency ≡ found k
    → read_parse_job env tenant_id k.resource_id w.db ≡ found r
    → create_parse_job env now tenant_id file_ids debug raw_key lost w ≡ (ok r, w)
unfolding create_parse_job resolve_idempotent_parse_job resolve
create_parse_job-known env now tenant_id file_ids debug raw_key key lost k r w some_files given
      known job =
    ground arith

-- A creation under a new key that returned is answered with the same job when it is sent once
-- more with that key, even with other files, and the second call changes nothing. The
-- job's id must be a new one.
pub create_parse_job_retry :
    (env : Env) (reads : ReadsRows env) (now later : ℕ) (tenant_id : String)
    (file_ids file_ids' : List String) (debug debug' : Bool) (raw_key : Option String)
    (key : String) (r : ParseJob) (w : World)
    → normalize_key env raw_key ≡ some key
    → is_empty file_ids' ≡ false
    → env.one_or_none (has_key env tenant_id "parse_jobs.create" key) w.db.idempotency ≡ absent
    → read_parse_job env tenant_id (env.uuid4 w.drawn) w.db ≡ absent
    → (create_parse_job env now tenant_id file_ids debug raw_key none w).0 ≡ ok r
    → create_parse_job env later tenant_id file_ids' debug' raw_key none
        (create_parse_job env now tenant_id file_ids debug raw_key none w).1
      ≡ (ok r, (create_parse_job env now tenant_id file_ids debug raw_key none w).1)
create_parse_job_retry env reads now later tenant_id file_ids file_ids' debug debug' raw_key key r w
      given some_files new fresh h =
    let c =
      create_parse_job-Created env reads now tenant_id file_ids debug raw_key key r w given new h in
    let id = env.uuid4 w.drawn in
    let k =
      idempotency_row env now (env.uuid4 (w.drawn + 1 + 1)) tenant_id "parse_jobs.create" key
        "parse_job" id in
    let k_read =
      key_row-read env now (env.uuid4 (w.drawn + 1 + 1)) tenant_id "parse_jobs.create" key
        "parse_job" id in
    let p : ParseJob → Bool = λ j. (j.tenant_id == tenant_id) && (j.id == id) in
    let hit : p r ≡ true = ap p c.job_new ∙ ground (arith, eq_refl tenant_id, eq_refl id) in
    create_parse_job-known env later tenant_id file_ids' debug' raw_key key none k r _ some_files
      given
      (rw c.key_added (
        added-found env reads (has_key env tenant_id "parse_jobs.create" key) w.db.idempotency k
          (filter_of_absent env reads _ w.db.idempotency new) k_read.0))
      (ap
          (λ (i : String).
            read_parse_job env tenant_id i
              (create_parse_job env now tenant_id file_ids debug raw_key none w).1.db)
          k_read.1
        ∙ ap (env.one_or_none p) c.jobs_added
        ∙ added-found env reads p w.db.parse_jobs r
            (filter_of_absent env reads p w.db.parse_jobs fresh) hit)
