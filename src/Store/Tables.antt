-- ===== src/Store/Tables.antt =====
-- The database, as the rows of each table, and the world around it.
use invoices_codex.Prelude.{ℕ, String, List}
use invoices_codex.Models.{
  Tenant, User, TenantMembership, AuthSession, ProviderConfig, ApiKey, InvoiceFile, ParseJob,
  CollectionJob, ParseJobFile, ReportParseJob, InvoiceRecord, Report, ReportArtifact, AuditEvent,
  IdempotencyRecord,
}

pub record Db : Type 0 where
  pub tenants : List Tenant
  pub users : List User
  pub memberships : List TenantMembership
  pub sessions : List AuthSession
  pub providers : List ProviderConfig
  pub api_keys : List ApiKey
  pub files : List InvoiceFile
  pub parse_jobs : List ParseJob
  pub parse_job_files : List ParseJobFile
  pub collection_jobs : List CollectionJob
  pub reports : List Report
  pub report_parse_jobs : List ReportParseJob
  pub artifacts : List ReportArtifact
  pub invoices : List InvoiceRecord
  pub events : List AuditEvent
  pub idempotency : List IdempotencyRecord

-- An entry of `InMemoryJobQueue.jobs`; each task of the program has one key in its payload.
pub record Task : Type 0 where
  pub task_name : String
  pub argument : String
  pub job_id : String

-- A stored object: its key and its bytes.
pub record Object : Type 0 where
  pub key : String
  pub content : String

-- `drawn` counts the random values drawn so far.
pub record World : Type 0 where
  pub db : Db
  pub queue : List Task
  pub objects : List Object
  pub drawn : ℕ
