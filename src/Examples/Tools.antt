-- ===== src/Examples/Tools.antt =====
-- What the jobs of the examples use.
use invoices_codex.Prelude.{none, some, [], ◌∷◌}
use invoices_codex.Env.{text}
use invoices_codex.Models.{InvoiceFile, uploaded}
use invoices_codex.Store.{ok, external}
use invoices_codex.Worker.Storage.{Disk}
use invoices_codex.Worker.ParseRun.{ParseTools, Attribute, ParsedInvoice}
use invoices_codex.Worker.ReportRun.{ReportTools}
use invoices_codex.Worker.CollectionRun.{CollectionTools}

abbrev pub disk : Disk
disk = record { size = λ t. 1; digest = λ t. t; write_fault = λ k. none; unlink_fault = λ k. none }

abbrev pub locked_disk : Disk
locked_disk = record disk { unlink_fault = λ k. some (external "OSError") }

abbrev pub invoice : ParsedInvoice
invoice = record {
  vendor = some "Acme";
  file_name = some "a.pdf";
  invoice_number = none;
  invoice_date = Attribute.value 7;
  invoice_total = Attribute.value 100;
  invoice_vat = Attribute.other;
  purpose = none;
}

abbrev pub file : InvoiceFile
file = record {
  id = "f";
  tenant_id = "t";
  filename = "a.pdf";
  storage_path = "a";
  mime_type = "application/pdf";
  content_sha256 = none;
  bytes = none;
  status = uploaded;
  created_at = 1;
}

abbrev pub parse_tools : ParseTools
parse_tools = record {
  parse_paths = λ paths debug. ok (invoice ∷ []);
  resolve_local_path = λ p. ok p;
  str_exc = λ e. "exception";
  raw_json = λ r. "{}";
}

abbrev pub collection_tools : CollectionTools
collection_tools = record {
  execute_provider = λ p month id. ok [];
  path_name = λ t. t;
  str_number = λ n. "n";
  str_exc = λ e. "exception";
  str_json = λ j. "";
  failures_payload = λ fs. "[]";
}

abbrev pub report_tools : ReportTools
report_tools = record {
  json_rows = λ rows. "[]";
  csv_rows = λ columns rows. "";
  summary_csv = λ rows. "";
  pdf = "%PDF";
  number = λ n. text "n";
  date_text = λ n. "d";
  str_exc = λ e. "exception";
  str_json = λ j. "";
  list_of = λ l. ok [];
}
