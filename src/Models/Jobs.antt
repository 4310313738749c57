-- ===== src/Models/Jobs.antt =====
-- Files, jobs, invoices, reports, audit events and idempotency records.
use invoices_codex.Prelude.{ℕ, String, Bool, Option}

-- `ParseJobStatus`, `ReportStatus` and `CollectionJobStatus` have the same four values.
pub data JobStatus : Type 0 where
  queued running succeeded failed : JobStatus

pub data FileStatus : Type 0 where
  uploaded validated parsed rejected : FileStatus

pub record InvoiceFile : Type 0 where
  pub id : String
  pub tenant_id : String
  pub filename : String
  pub storage_path : String
  pub mime_type : String
  pub content_sha256 : Option String
  pub bytes : Option ℕ
  pub status : FileStatus
  pub created_at : ℕ

pub record ParseJob : Type 0 where
  pub id : String
  pub tenant_id : String
  pub status : JobStatus
  pub idempotency_key : Option String
  pub queue_job_id : Option String
  pub debug : Bool
  pub records_count : ℕ
  pub failed_count : ℕ
  pub error_message : Option String
  pub created_at : ℕ
  pub started_at : Option ℕ
  pub finished_at : Option ℕ

pub record CollectionJob : Type 0 where
  pub id : String
  pub tenant_id : String
  pub status : JobStatus
  pub idempotency_key : Option String
  pub providers_json : String
  pub month_scope : String
  pub queue_job_id : Option String
  pub files_discovered : ℕ
  pub files_downloaded : ℕ
  pub parse_job_ids_json : String
  pub error_message : Option String
  pub created_at : ℕ
  pub updated_at : ℕ
  pub started_at : Option ℕ
  pub finished_at : Option ℕ

pub record ParseJobFile : Type 0 where
  pub parse_job_id : String
  pub file_id : String
  pub created_at : ℕ

pub record ReportParseJob : Type 0 where
  pub report_id : String
  pub parse_job_id : String
  pub created_at : ℕ

pub record InvoiceRecord : Type 0 where
  pub id : String
  pub tenant_id : String
  pub parse_job_id : String
  pub vendor : String
  pub file_name : String
  pub invoice_number : Option String
  pub invoice_date : Option ℕ
  pub invoice_total : Option ℕ
  pub invoice_vat : Option ℕ
  pub currency : String
  pub purpose : Option String
  pub raw_json : String
  pub created_at : ℕ

pub record Report : Type 0 where
  pub id : String
  pub tenant_id : String
  pub status : JobStatus
  pub idempotency_key : Option String
  pub queue_job_id : Option String
  pub requested_formats_json : String
  pub filters_json : String
  pub error_message : Option String
  pub created_at : ℕ
  pub started_at : Option ℕ
  pub finished_at : Option ℕ

pub record ReportArtifact : Type 0 where
  pub id : String
  pub tenant_id : String
  pub report_id : String
  pub format : String
  pub storage_path : String
  pub bytes : Option ℕ
  pub created_at : ℕ

pub record AuditEvent : Type 0 where
  pub id : String
  pub tenant_id : String
  pub event_type : String
  pub actor : Option String
  pub payload_json : String
  pub created_at : ℕ

pub record IdempotencyRecord : Type 0 where
  pub id : String
  pub tenant_id : String
  pub scope : String
  pub idempotency_key : String
  pub resource_type : String
  pub resource_id : String
  pub created_at : ℕ
