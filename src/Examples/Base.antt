-- ===== src/Examples/Base.antt =====
-- A concrete environment, and rows for the examples.
use invoices_codex.Prelude.{
  ℕ, zero, suc, String, refl, true, none, some, [], ◌∷◌, filter, length, joined, filter_sound,
  filter_complete, ◌==◌, if◌then◌else◌,
}
use invoices_codex.Env.{Env, Loaded, Dict, object, array, invalid, text, num, classify, ReadsRows}
use invoices_codex.Store.{Db, World, Outcome, ok, raised}

abbrev pub marks : ℕ → String
marks zero = ""
marks (suc n) = joined "i" (marks n)

-- The JSON texts of the examples: an OAuth state, two lists, the claims of a token, and `{}`.
abbrev pub loads_example : String → Loaded
loads_example t =
    if t == "state"
    then object (("_oauth_state_hash", text "h-s") ∷ ("_oauth_state_expires_at", text "late") ∷ [])
    else if t == "providers"
    then array (text "gmail" ∷ [])
    else if t == "formats"
    then array (text "csv" ∷ text "pdf" ∷ [])
    else if t == "claimset"
    then object (
        ("exp", num 50)
        ∷ ("mid", text "m")
        ∷ ("sid", text "s")
        ∷ ("sub", text "u")
        ∷ ("tid", text "t")
        ∷ [])
    else if t == "{}"
    then object []
    else invalid

-- Of what the examples dump and read back, `{}` and the claims.
abbrev pub dumps_example : Dict → String
dumps_example [] = "{}"
dumps_example (e ∷ d) = "claimset"

abbrev pub env : Env
env = record {
  one_or_none = λ p rows. classify (filter p rows);
  all_rows = λ p rows. filter p rows;
  newest = λ created_at id p limit offset rows. filter p rows;
  count_rows = λ p rows. length (filter p rows);
  uuid4 = marks;
  token_urlsafe = λ n. joined "t" (marks n);
  sha256 = λ t. joined "h-" t;
  pbkdf2_hmac = λ password salt iterations. password;
  int_text = λ t. some 1;
  strip = λ t. t;
  lower = λ t. t;
  slice_to = λ n t. t;
  dumps = dumps_example;
  dumps_sorted = dumps_example;
  dumps_texts = λ ts. "[]";
  loads = loads_example;
  dumps_compact = λ d. "{}";
  str_json = λ j. "";
  int_json = λ j. none;
  hmac_sha256 = λ secret message. "sign";
  urlsafe_b64encode = λ t. t;
  urlsafe_b64decode = λ t. some t;
  isoformat = λ n. "late";
  fromisoformat = λ t. some 100;
  email_pattern = λ t. true;
  slug_pattern = λ t. true;
  month_pattern = λ t. true;
}

abbrev pub env-reads : ReadsRows env
env-reads = record {
  one_or_none_lem = λ p rows. refl;
  all_rows-sound = λ p rows a h. filter_sound p rows a h;
  all_rows-complete = λ p rows a i h. filter_complete p rows a i h;
}

abbrev pub empty_db : Db
empty_db = record {
  tenants = [];
  users = [];
  memberships = [];
  sessions = [];
  providers = [];
  api_keys = [];
  files = [];
  parse_jobs = [];
  parse_job_files = [];
  collection_jobs = [];
  reports = [];
  report_parse_jobs = [];
  artifacts = [];
  invoices = [];
  events = [];
  idempotency = [];
}

abbrev pub world_of : Db → World
world_of db = record { db = db; queue = []; objects = []; drawn = 1 }

-- The value of a computation that returned, and a stand-in for one that raised.
abbrev pub value_or : {A : Type 0} → A → Outcome A → A
value_or a (ok b) = b
value_or a (raised e) = a
