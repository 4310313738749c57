-- ===== src/Jobs/ParseJobs.antt =====
-- `register_file`, `create_parse_job`, `get_parse_job` and `list_invoices` of service.py.
pub mod Retry
use invoices_codex.Prelude.{
  ℕ, String, Bool, true, false, not, ◌&&◌, ◌||◌, Option, none, some, List, [], ◌∷◌, ◌++◌, map, ◌==◌,
  contains, if◌then◌else◌, ◌≡◌, refl, inl, inr, arith, All, In, Bool-cases, eq_iff,
}
use invoices_codex.Env.{Env, Selected, text, texts, text_or_null}
use invoices_codex.Models.{InvoiceFile, uploaded, ParseJob, ParseJobFile, queued}
use invoices_codex.Store.{
  Db, Tx, Outcome, World, Fault, value_error, integrity_error, unknown_ids, pure, raise, raise_if,
  reads, query, optional, modify, draw_uuid, enqueue, add_event, commit, transaction, ◌>>=◌, ◌>>◌,
}
use invoices_codex.Jobs.Repository.{TenantScoped, one_or_none}
use invoices_codex.Jobs.Idempotency.{
  normalize_key, resolve_idempotent_parse_job, existing_for, remember_key, commit_or, winner,
}

abbrev pub parse_job_task : String
parse_job_task = "invplatform.saas.tasks.run_parse_job_task"

abbrev pub parse_job_model : TenantScoped ParseJob
parse_job_model = record {
  tenant_of = λ j. j.tenant_id;
  created_at_of = λ j. j.created_at;
  id_of = λ j. j.id;
}

-- What the caller of `register_file` says of the file.
pub record FileDetails : Type 0 where
  pub filename : String
  pub storage_path : String
  pub mime_type : String
  pub content_sha256 : Option String
  pub bytes_size : Option ℕ

unfoldable pub file_row : ℕ → String → String → FileDetails → InvoiceFile
file_row now id tenant_id d = record {
  id = id;
  tenant_id = tenant_id;
  filename = d.filename;
  storage_path = d.storage_path;
  mime_type = d.mime_type;
  content_sha256 = d.content_sha256;
  bytes = d.bytes_size;
  status = uploaded;
  created_at = now;
}

-- A queued job that has not been started.
unfoldable pub parse_job_row : ℕ → String → String → Bool → Option String → String → ParseJob
parse_job_row now id tenant_id debug key queue_job_id = record {
  id = id;
  tenant_id = tenant_id;
  status = queued;
  idempotency_key = key;
  queue_job_id = some queue_job_id;
  debug = debug;
  records_count = 0;
  failed_count = 0;
  error_message = none;
  created_at = now;
  started_at = none;
  finished_at = none;
}

-- One link for each file id of the request.
abbrev pub links : ℕ → String → List String → List ParseJobFile
links now job_id [] = []
links now job_id (f ∷ fs) =
    (record { parse_job_id = job_id; file_id = f; created_at = now }) ∷ links now job_id fs

-- The ids that are not among those found, in the order of the request.
abbrev pub missing_from : List String → List String → List String
missing_from found [] = []
missing_from found (i ∷ is) =
    let rest = missing_from found is in if contains i found then rest else i ∷ rest

-- Every id that was asked for is one of those found.
pub missing_from-none :
    (found ids : List String) → missing_from found ids ≡ [] → All (λ i. contains i found ≡ true) ids
missing_from-none found [] h = tt
missing_from-none found (i ∷ is) h = elim (Bool-cases (contains i found)) [
  | inl there ↦ (there, missing_from-none found is (rw there at h))
  | inr missing ↦ absurd (ground arith)
]

-- An id among those of some rows is that of a row.
pub contains-map :
    {A : Type 0} (id_of : A → String) (k : String) (rows : List A)
    → contains k (map id_of rows) ≡ true
    → (a : A) × (In a rows × (id_of a ≡ k))
contains-map id_of k [] h = absurd (ground arith)
contains-map id_of k (a ∷ rows) h = elim (Bool-cases (k == id_of a)) [
  | inl same ↦ (a, (inl refl, ground (arith, eq_iff k (id_of a))))
  | inr other ↦
      let (b, (there, e)) = contains-map id_of k rows (ground arith) in (b, (inr there, e))
]

abbrev pub is_empty : {A : Type 0} → List A → Bool
is_empty [] = true
is_empty (_ ∷ _) = false

-- A job of the tenant has the key: `uq_saas_parse_jobs_idempotency` refuses another one.
unfoldable pub job_key_taken : String → Option String → List ParseJob → Bool
job_key_taken tenant_id none jobs = false
job_key_taken tenant_id (some key) [] = false
job_key_taken tenant_id (some key) (j ∷ js) =
    (j.tenant_id == tenant_id && (elim j.idempotency_key [ none ↦ false | some k ↦ k == key ]))
    || job_key_taken tenant_id (some key) js

-- An id that comes twice: the primary key of `ParseJobFile` refuses its second row.
unfoldable pub has_repeats : List String → Bool
has_repeats [] = false
has_repeats (i ∷ is) = contains i is || has_repeats is

module _ (env : Env) where
  unfoldable pub register_file : ℕ → String → FileDetails → World → Outcome InvoiceFile × World
  register_file now tenant_id d = transaction do
    id ← draw_uuid env
    let row = file_row now id tenant_id d
    modify (λ db. record db { files = db.files ++ row ∷ [] })
    add_event env now tenant_id "file.register" none (("filename", text d.filename) ∷ [])
    commit
    pure row

  -- The files of the tenant among the ids asked for.
  abbrev pub tenant_files : String → List String → Db → List InvoiceFile
  tenant_files tenant_id file_ids db =
      env.all_rows (λ (f : InvoiceFile). (f.tenant_id == tenant_id) && contains f.id file_ids)
        db.files

  unfoldable pub missing_files : String → List String → Db → List String
  missing_files tenant_id file_ids db =
      missing_from (map (λ (f : InvoiceFile). f.id) (tenant_files tenant_id file_ids db)) file_ids

  -- The rows of a new job, its task and its event, up to the commit. The flush of the job's row comes before the task,
  -- and that of the links with the commit.
  unfoldable pub add_parse_job :
      ℕ → String → List String → Bool → Option String → Option Db → Tx ParseJob
  add_parse_job now tenant_id file_ids debug key lost = do
    id ← draw_uuid env
    taken ← reads (λ db. job_key_taken tenant_id key db.parse_jobs)
    raise_if taken integrity_error
    queue_job_id ← enqueue env parse_job_task id
    let row = parse_job_row now id tenant_id debug key queue_job_id
    modify (λ db. record db {
      parse_jobs = db.parse_jobs ++ row ∷ [];
      parse_job_files = db.parse_job_files ++ links now id file_ids;
    })
    remember_key env now tenant_id "parse_jobs.create" key "parse_job" id
    add_event env now tenant_id "parse_job.create" none (
        ("parse_job_id", text id)
        ∷ ("queue_job_id", text queue_job_id)
        ∷ ("file_ids", texts file_ids)
        ∷ ("idempotency_key", text_or_null key)
        ∷ [])
    raise_if (has_repeats file_ids) integrity_error
    commit_or env lost (pure row) (winner env key (resolve_idempotent_parse_job env tenant_id))

  -- The creation where the key, if there is one, is not taken.
  unfoldable pub create_parse_job_anew :
      ℕ → String → List String → Bool → Option String → Option Db → Option ParseJob → Tx ParseJob
  create_parse_job_anew now tenant_id file_ids debug key lost (some existing) = pure existing
  create_parse_job_anew now tenant_id file_ids debug key lost none = do
    missing ← reads (missing_files tenant_id file_ids)
    raise_if (not (is_empty missing)) (unknown_ids "unknown file ids for tenant: " missing)
    add_parse_job now tenant_id file_ids debug key lost

  unfoldable pub create_parse_job :
      ℕ → String → List String → Bool → Option String → Option Db → World → Outcome ParseJob × World
  unfolding create_parse_job_anew
  create_parse_job now tenant_id file_ids debug idempotency_key lost = transaction do
    raise_if (is_empty file_ids) (value_error "file_ids cannot be empty")
    let key = normalize_key env idempotency_key
    existing ← existing_for env key (resolve_idempotent_parse_job env tenant_id)
    create_parse_job_anew now tenant_id file_ids debug key lost existing

  unfoldable pub get_parse_job : String → String → World → Outcome (Option ParseJob) × World
  get_parse_job tenant_id parse_job_id = transaction (
      query (λ db.
        optional
          (one_or_none env parse_job_model tenant_id (λ j. j.id == parse_job_id) db.parse_jobs)))
