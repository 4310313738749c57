-- ===== src/Lib.antt =====
-- Verification of the invoice platform's Python code in apps/workers-py/src/invplatform: the SaaS
-- core (saas), the monthly run (cli/monthly_invoices.py), the quarantine tool
-- (cli/quarantine_invoices.py) and the mail fetch (usecases/fetch_invoices.py).
--
-- The programs. A request reaches a method of `SaaSService` (saas/service.py), which opens one
-- SQLAlchemy session, reads and writes rows of saas/models.py, puts tasks on the job queue
-- (saas/queue.py), and commits. A worker takes the tasks (saas/tasks.py) and runs the functions of
-- saas/worker.py: they parse stored files, collect files from mail providers, write reports to the
-- object storage (saas/storage.py), and remove old reports. Tokens, API keys and slugs are those of
-- saas/auth.py; the listener of saas/db.py keeps guarded statements to one tenant. The monthly run
-- starts one finder for each mail provider, by usecases/provider_runner.py, frees the folders of
-- duplicates, by usecases/duplicate_policy.py, and copies what is left into one folder; the
-- quarantine tool moves the files that have no words of an invoice. The mail fetch chooses messages
-- of an adapter by the keywords of domain/relevance.py.
--
-- The state. `World` (Store/Tables) has the tables of the database, the queue, the stored objects and
-- the number of random values drawn so far. `Session` (Store/Transactions) has what is stored, what
-- is pending until the next commit, and the world outside, whose effects no rollback takes back:
-- tasks that were enqueued and objects that were written. `transaction` is a `with` block on a
-- session: what is pending at its end, also after an exception, is dropped. An exception is a value
-- of `Fault`. Instants are microseconds, as natural numbers. The file system of the monthly run is a
-- list of `Entry` (Monthly/Paths), a path and its content each.
--
-- What stands for code outside of the repository is a field of `Env`, or of `Disk`, `ParseTools`,
-- `ReportTools`, `CollectionTools`, `OAuthConfig`, `MailTools` and the tools of the monthly run:
-- SQLAlchemy's reads, uuid and secrets, hashlib and hmac, base64, json, the Unicode text functions,
-- the date parsers, processes, the PDF parser and the provider executor. `ReadsRows` has the
-- documented behaviour of the reads. A commit may lose a race for a unique key: such an operation
-- takes an argument that says what the winner left.
--
-- The files.
--   Prelude: names of the libraries, Boolean tests, lists (Lists), tables as lists of rows (Keyed),
--     texts (Texts), decimal numbers (Decimal), and the search for a name that is free (FirstFree).
--   Models: the rows of saas/models.py.
--   Env: the environment, and JSON values (Env/Values).
--   Store: the world, sessions and transactions, rows written back under their key.
--   Guard: the listener _enforce_tenant_scope of saas/db.py and `_tenant_scope` of saas/service.py.
--   Auth: saas/auth.py (AccessToken with its RoundTrip, Passwords, Slugs, ApiKeys) and the methods
--     authenticate_user (Login), refresh_session and revoke_session (Refresh), get_current_user
--     (CurrentUser), create_tenant_user and bootstrap_tenant_admin_user (Members), bootstrap_tenant and the
--     methods on API keys (ApiKeys).
--   Jobs: saas/repository.py (Repository), the idempotency keys (Idempotency), register_file and
--     create_parse_job (ParseJobs), reports (Reports), collection jobs (CollectionJobs), invoices
--     and the dashboard (Dashboard), artifacts and audit events (Artifacts); Isolation is about the
--     reads by tenant.
--   Providers: provider configurations (Fields, Configs), the OAuth flow (OAuth), and
--     refresh_provider_oauth, revoke_provider_oauth and test_provider_connection (Tokens).
--   Worker: run_parse_job (ParseRun), run_report_job (ReportRun), run_collection_job (CollectionRun
--     and its Steps), run_report_retention_cleanup (Cleanup), LocalStorageBackend (Storage),
--     drain_in_memory_queue (Queue), and the handlers of saas/tasks.py (Tasks).
--   Monthly: cli/monthly_invoices.py. Paths, Moves: the listing, `ensure_unique` and moves of files.
--     Calendar: month_window. Runs: the providers and their commands. Dedupe: dedupe_provider_dir.
--     Consolidation: consolidate_pdfs. Main: main. Quarantine: cli/quarantine_invoices.py.
--   Mail: domain/relevance.py (Relevance) and usecases/fetch_invoices.py (Fetch).
--   Examples: a concrete environment and runs of the operations.
--
-- Bounds and fuel. Limits and offsets are natural numbers, so the tests for negative ones have no
-- counterpart. drain_in_memory_queue runs on fuel, since a handler may enqueue more; for the task of
-- a parse job, which enqueues nothing, a fuel of 2 is enough. The searches for a slug or a file name that
-- is free run on fuel too, of which one more than there are taken names is enough. The length of a
-- slug is bounded for fewer than 10 ^ 60 rounds, since a longer number would not fit.
--
-- What is assumed of the surroundings. The listing of a folder is read before its files are moved or
-- copied. The providers of a monthly run are taken one after another, though the code may start them
-- together. The unique columns of API keys and parse jobs are checked where the session flushes. No
-- other session takes a slug between its read and the flush. Putting a task on the queue does not
-- raise. The claim of a collection job is a read and a write in one transaction, which stands for
-- the one UPDATE of the code. A file that is copied or a folder that is made raises nothing, return
-- codes and dates are not negative, and the iterations of a stored password hash are positive.
-- Unknown ids are named in the order of the request, where the code sorts them.
--
-- Not modelled: the HTTP routes (saas/api.py), metrics, RQJobQueue and S3StorageBackend, which call
-- Redis and boto3, the invoice parser (usecases/report_*.py, cli/invoices_report.py), which works on
-- PDF text and floats by regular expressions, the PDF texts (domain/pdf.py), the
-- finders and the other tools of cli, which drive mail interfaces and a browser, the web
-- application, the migrations, and archive, which has older versions of the finders.
pub mod Prelude
pub mod Models
pub mod Env
pub mod Store
pub mod Guard
pub mod Monthly
pub mod Mail
pub mod Auth
pub mod Jobs
pub mod Worker
pub mod Providers
pub mod Examples
