-- ===== src/Jobs/CollectionJobs/Retry.antt =====
-- `create_collection_job` of service.py with an idempotency key, called twice.
use package.text.Mathlib.TextPositions.{eq_refl}
use invoices_codex.Prelude.{
  ℕ, String, ◌≡◌, refl, ap, ◌∙◌, ◌+◌, Bool, true, Option, none, some, inl, inr, List, [], ◌∷◌, ◌++◌,
  ◌==◌, ◌&&◌, arith,
}
use invoices_codex.Env.{Env, Json, found, absent, ReadsRows}
use invoices_codex.Models.{CollectionJob, IdempotencyRecord}
use invoices_codex.Store.{World, Db, ok, Outcome-cases}
use invoices_codex.Jobs.Idempotency.{
  has_key, normalize_key, idempotency_row, resolve, resolve_idempotent_collection_job,
  read_collection_job,
}
use invoices_codex.Jobs.Idempotency.Lookup.{key_row-read, added-found, filter_of_absent}
use invoices_codex.Jobs.CollectionJobs.{
  collection_row, collection_job_task, normalize_collection_providers,
  normalize_collection_month_scope, add_collection_job, create_collection_job,
}

pub record Created (env : Env) (now : ℕ) (tenant_id : String) (providers : List Json)
    (month_scope : Json) (key : String) (r : CollectionJob) (w w' : World) : Type 0 where
  pub names : List String
  pub month : String
  pub providers_normalized : normalize_collection_providers env providers ≡ ok names
  pub month_normalized : normalize_collection_month_scope env month_scope ≡ ok month
  pub job_new :
      r
      ≡ collection_row env now
          (env.uuid4 w.drawn)
          tenant_id
          (some key)
          (env.dumps_texts names)
          month
          (env.uuid4 (w.drawn + 1))
  pub jobs_added : w'.db.collection_jobs ≡ w.db.collection_jobs ++ r ∷ []
  pub key_added :
      w'.db.idempotency
      ≡ w.db.idempotency
        ++ idempotency_row env now
            (env.uuid4 (w.drawn + 1 + 1))
            tenant_id
            "collection_jobs.create"
            key
            "collection_job"
            (env.uuid4 w.drawn)
          ∷ []
  pub task_added :
      w'.queue
      ≡ w.queue
        ++ (record {
          task_name = collection_job_task;
          argument = env.uuid4 w.drawn;
          job_id = env.uuid4 (w.drawn + 1);
        })
          ∷ []

create_collection_job-Created :
    (env : Env) (now : ℕ) (tenant_id : String) (providers : List Json) (month_scope : Json)
    (raw_key actor : Option String) (key : String) (r : CollectionJob) (w : World)
    → normalize_key env raw_key ≡ some key
    → env.one_or_none (has_key env tenant_id "collection_jobs.create" key) w.db.idempotency ≡ absent
    → (create_collection_job env now tenant_id providers month_scope raw_key actor none w).0 ≡ ok r
    → Created env now tenant_id providers month_scope key r w
        (create_collection_job env now tenant_id providers month_scope raw_key actor none w).1
unfolding create_collection_job add_collection_job resolve_idempotent_collection_job resolve
create_collection_job-Created env now tenant_id providers month_scope raw_key actor key r w given
      new h =
    elim (Outcome-cases (normalize_collection_providers env providers)) [
      | inr (x, e) ↦ absurd (ground arith)
      | inl (names, e) ↦ elim (Outcome-cases (normalize_collection_month_scope env month_scope)) [
        | inr (x, e') ↦ absurd (ground arith)
        | inl (month, e') ↦ record {
          names = names;
          month = month;
          providers_normalized = e;
          month_normalized = e';
          job_new = ground arith;
          jobs_added = ground arith;
          key_added = ground arith;
          task_added = ground arith;
        }
      ]
    ]

create_collection_job-known :
    (env : Env) (now : ℕ) (tenant_id : String) (providers : List Json) (month_scope : Json)
    (raw_key actor : Option String) (key : String) (lost : Option Db) (names : List String)
    (month : String) (k : IdempotencyRecord) (r : CollectionJob) (w : World)
    → normalize_collection_providers env providers ≡ ok names
    → normalize_collection_month_scope env month_scope ≡ ok month
    → normalize_key env raw_key ≡ some key
    → env.one_or_none (has_key env tenant_id "collection_jobs.create" key) w.db.idempotency
      ≡ found k
    → read_collection_job env tenant_id k.resource_id w.db ≡ found r
    → create_collection_job env now tenant_id providers month_scope raw_key actor lost w ≡ (ok r, w)
unfolding create_collection_job add_collection_job resolve_idempotent_collection_job resolve
create_collection_job-known env now tenant_id providers month_scope raw_key actor key lost names
      month k r w e e' given known job =
    ground arith

collection_row-read :
    (env : Env) (now : ℕ) (id tenant_id : String) (key : Option String)
    (providers_json month queue_id : String)
    → ((collection_row env now id tenant_id key providers_json month queue_id).tenant_id
        ≡ tenant_id)
      × ((collection_row env now id tenant_id key providers_json month queue_id).id ≡ id)
unfolding collection_row
collection_row-read env now id tenant_id key providers_json month queue_id = (refl, refl)

-- A collection request under a new key that returned is answered with the same job when it is sent once more
-- with that key, and the second call changes nothing. The job's id must be a new one.
pub create_collection_job_retry :
    (env : Env) (reads : ReadsRows env) (now later : ℕ) (tenant_id : String) (providers : List Json)
    (month_scope : Json) (raw_key actor actor' : Option String) (key : String) (r : CollectionJob)
    (w : World)
    → normalize_key env raw_key ≡ some key
    → env.one_or_none (has_key env tenant_id "collection_jobs.create" key) w.db.idempotency ≡ absent
    → read_collection_job env tenant_id (env.uuid4 w.drawn) w.db ≡ absent
    → (create_collection_job env now tenant_id providers month_scope raw_key actor none w).0 ≡ ok r
    → create_collection_job env later tenant_id providers month_scope raw_key actor' none
        (create_collection_job env now tenant_id providers month_scope raw_key actor none w).1
      ≡ (
        ok r,
        (create_collection_job env now tenant_id providers month_scope raw_key actor none w).1,
      )
create_collection_job_retry env reads now later tenant_id providers month_scope raw_key actor actor'
      key r w given new fresh h =
    let c =
      create_collection_job-Created env now tenant_id providers month_scope raw_key actor key r w
        given new h in
    let w' =
      (create_collection_job env now tenant_id providers month_scope raw_key actor none w).1 in
    let id = env.uuid4 w.drawn in
    let k =
      idempotency_row env now (env.uuid4 (w.drawn + 1 + 1)) tenant_id "collection_jobs.create" key
        "collection_job" id in
    let k_read =
      key_row-read env now (env.uuid4 (w.drawn + 1 + 1)) tenant_id "collection_jobs.create" key
        "collection_job" id in
    let p : CollectionJob → Bool = λ x. (x.tenant_id == tenant_id) && (x.id == id) in
    let r_read =
      collection_row-read env now id tenant_id (some key) (env.dumps_texts c.names) c.month
        (env.uuid4 (w.drawn + 1)) in
    let hit : p r ≡ true = ap p c.job_new ∙ ground (arith, r_read, eq_refl tenant_id, eq_refl id) in
    create_collection_job-known env later tenant_id providers month_scope raw_key actor' key none
      c.names c.month k r w' c.providers_normalized c.month_normalized given
      (rw c.key_added (
        added-found env reads (has_key env tenant_id "collection_jobs.create" key) w.db.idempotency
          k (filter_of_absent env reads _ w.db.idempotency new) k_read.0))
      (ap (λ (i : String). read_collection_job env tenant_id i w'.db) k_read.1
        ∙ ap (env.one_or_none p) c.jobs_added
        ∙ added-found env reads p w.db.collection_jobs r
            (filter_of_absent env reads p w.db.collection_jobs fresh) hit)
