-- ===== src/Jobs/Isolation.antt =====
-- The reads by id of service.py, by tenant.
use invoices_codex.Prelude.{
  String, ◌≡◌, Bool, true, some, inl, inr, List, ◌==◌, arith, filter_holds,
}
use invoices_codex.Env.{Env, ReadsRows, filter_of_found}
use invoices_codex.Models.{ParseJob, Report, CollectionJob, InvoiceRecord}
use invoices_codex.Store.{World, ok, optional, Selected-cases}
use invoices_codex.Jobs.Repository.{TenantScoped, tenant_clause, one_or_none}
use invoices_codex.Jobs.ParseJobs.{get_parse_job, parse_job_model}
use invoices_codex.Jobs.Reports.{get_report, report_model}
use invoices_codex.Jobs.CollectionJobs.{get_collection_job, collection_model}
use invoices_codex.Jobs.Dashboard.{get_invoice, invoice_model}

-- A scoped read finds a row that the tenant owns and that meets the filter.
one_or_none-found :
    {A : Type 0} (env : Env) (reads : ReadsRows env) (model : TenantScoped A) (tenant_id : String)
    (wanted : A → Bool) (rows : List A) (a : A)
    → optional (one_or_none env model tenant_id wanted rows) ≡ ok (some a)
    → ((model.tenant_of a == tenant_id) ≡ true) × (wanted a ≡ true)
unfolding one_or_none tenant_clause
one_or_none-found env reads model tenant_id wanted rows a h =
    elim (Selected-cases (env.one_or_none (tenant_clause env model tenant_id wanted) rows)) [
      | inl none_found ↦ absurd (ground arith)
      | inr (inr several) ↦ absurd (ground arith)
      | inr (inl (b, e)) ↦
          let both =
            filter_holds (tenant_clause env model tenant_id wanted) b rows
              (filter_of_found reads (tenant_clause env model tenant_id wanted) rows b e) in
          (ground arith, ground arith)
    ]

-- The parse job, report, collection job or invoice that a read by id returns is the tenant's that asks and has the id
-- that was asked for.
pub get-IsInTenant :
    (env : Env) (reads : ReadsRows env) (tenant_id id : String) (w : World)
    → ((j : ParseJob)
        → (get_parse_job env tenant_id id w).0 ≡ ok (some j)
        → ((j.tenant_id == tenant_id) ≡ true) × ((j.id == id) ≡ true))
      × ((r : Report)
          → (get_report env tenant_id id w).0 ≡ ok (some r)
          → ((r.tenant_id == tenant_id) ≡ true) × ((r.id == id) ≡ true))
      × ((j : CollectionJob)
          → (get_collection_job env tenant_id id w).0 ≡ ok (some j)
          → ((j.tenant_id == tenant_id) ≡ true) × ((j.id == id) ≡ true))
      × ((i : InvoiceRecord)
          → (get_invoice env tenant_id id w).0 ≡ ok (some i)
          → ((i.tenant_id == tenant_id) ≡ true) × ((i.id == id) ≡ true))
unfolding get_parse_job get_report get_collection_job get_invoice
get-IsInTenant env reads tenant_id id w = (
  λ j h.
      one_or_none-found env reads parse_job_model tenant_id (λ x. x.id == id) w.db.parse_jobs j h,
  λ r h. one_or_none-found env reads report_model tenant_id (λ x. x.id == id) w.db.reports r h,
  λ j h.
      one_or_none-found env reads collection_model tenant_id (λ x. x.id == id) w.db.collection_jobs
        j h,
  λ i h. one_or_none-found env reads invoice_model tenant_id (λ x. x.id == id) w.db.invoices i h,
)
