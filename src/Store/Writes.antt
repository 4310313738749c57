-- ===== src/Store/Writes.antt =====
-- A change of a row's fields, as the next flush writes it: the row with its key is replaced.
use invoices_codex.Prelude.{List, save}
use invoices_codex.Models.{
  User, TenantMembership, AuthSession, ProviderConfig, ApiKey, InvoiceFile, ParseJob, CollectionJob,
  Report,
}

unfoldable pub save_user : User → List User → List User
unfolding save
save_user = save (λ u. u.id)

unfoldable pub save_membership : TenantMembership → List TenantMembership → List TenantMembership
unfolding save
save_membership = save (λ m. m.id)

unfoldable pub save_session : AuthSession → List AuthSession → List AuthSession
unfolding save
save_session = save (λ s. s.id)

unfoldable pub save_provider : ProviderConfig → List ProviderConfig → List ProviderConfig
unfolding save
save_provider = save (λ p. p.id)

unfoldable pub save_api_key : ApiKey → List ApiKey → List ApiKey
unfolding save
save_api_key = save (λ k. k.id)

unfoldable pub save_file : InvoiceFile → List InvoiceFile → List InvoiceFile
unfolding save
save_file = save (λ f. f.id)

unfoldable pub save_parse_job : ParseJob → List ParseJob → List ParseJob
unfolding save
save_parse_job = save (λ j. j.id)

unfoldable pub save_collection_job : CollectionJob → List CollectionJob → List CollectionJob
unfolding save
save_collection_job = save (λ j. j.id)

unfoldable pub save_report : Report → List Report → List Report
unfolding save
save_report = save (λ r. r.id)
