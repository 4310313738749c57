-- ===== src/Env.antt =====
-- What the service and the worker use and do not implement: SQLAlchemy's reads, the clock, random
-- texts, hashing, JSON, and the text functions that follow the Unicode tables.
mod Values
pub use Values.*
use invoices_codex.Prelude.{
  ℕ, String, ◌≡◌, refl, sym, ap, ◌∙◌, arith, Bool, true, false, Option, none, some, List, [], ◌∷◌,
  In, filter, length,
}

-- What `scalar_one_or_none()` comes back with; `ambiguous` is `MultipleResultsFound`.
pub data Selected (A : Type 0) : Type 0 where
  absent : Selected A
  found : A → Selected A
  ambiguous : Selected A

pub record Env : Type 1 where
  -- `session.execute(select(M).where(p)).scalar_one_or_none()`, over the rows of the table of `M`
  pub one_or_none : {A : Type 0} → (A → Bool) → List A → Selected A
  -- `session.execute(select(M).where(p)).scalars().all()`
  pub all_rows : {A : Type 0} → (A → Bool) → List A → List A
  -- `select(M).where(p)`, ordered by `created_at` and `id`, both descending, with limit and offset
  pub newest : {A : Type 0} → (A → ℕ) → (A → String) → (A → Bool) → ℕ → ℕ → List A → List A
  -- `select(func.count()).select_from(M).where(p)`
  pub count_rows : {A : Type 0} → (A → Bool) → List A → ℕ
  -- the values that `uuid.uuid4()` and `secrets` draw, by the number of earlier draws
  pub uuid4 : ℕ → String
  pub token_urlsafe : ℕ → String
  -- `hashlib.sha256(text.encode("utf-8")).hexdigest()`
  pub sha256 : String → String
  -- `hashlib.pbkdf2_hmac` of a password with a salt and a number of iterations, and `int(text)`, which may raise
  pub pbkdf2_hmac : String → String → ℕ → String
  pub int_text : String → Option ℕ
  pub strip : String → String
  pub lower : String → String
  -- `text[:n]`, `re.match`, and `json.dumps` and `json.loads`
  pub slice_to : ℕ → String → String
  pub dumps : Dict → String
  -- `json.dumps(d, sort_keys=True)`
  pub dumps_sorted : Dict → String
  pub dumps_texts : List String → String
  pub loads : String → Loaded
  -- `json.dumps(d, separators=(",", ":"), sort_keys=True)`
  pub dumps_compact : Dict → String
  -- `str(v)` and `int(v)` of a value that is neither a text nor a number; `int` may raise
  pub str_json : Json → String
  pub int_json : Json → Option ℕ
  -- `hmac.new(key, message, sha256).digest()`, and base64 in the alphabet that is safe in a URL,
  -- whose decoding may raise
  pub hmac_sha256 : String → String → String
  pub urlsafe_b64encode : String → String
  pub urlsafe_b64decode : String → Option String
  pub isoformat : ℕ → String
  pub fromisoformat : String → Option ℕ
  -- `_EMAIL_RE.match`, `_TENANT_SLUG_RE.match` and `_MONTH_SCOPE_PATTERN.match`
  pub email_pattern : String → Bool
  pub slug_pattern : String → Bool
  pub month_pattern : String → Bool

-- The documented behaviour of the reads: of the rows that meet the condition, `scalar_one_or_none`
-- gives `None`, the row, or raises; `all` gives the rows that meet it and no other.
abbrev pub classify : {A : Type 0} → List A → Selected A
classify [] = absent
classify (x ∷ []) = found x
classify (x ∷ y ∷ rows) = ambiguous

pub record ReadsRows (env : Env) : Type 1 where
  pub one_or_none_lem :
      {A : Type 0} (p : A → Bool) (rows : List A)
      → env.one_or_none p rows ≡ classify (filter p rows)
  pub all_rows-sound :
      {A : Type 0} (p : A → Bool) (rows : List A) (a : A)
      → In a (env.all_rows p rows)
      → In a rows × (p a ≡ true)
  pub all_rows-complete :
      {A : Type 0} (p : A → Bool) (rows : List A) (a : A)
      → In a rows
      → p a ≡ true
      → In a (env.all_rows p rows)

classify-found : {A : Type 0} (xs : List A) (a : A) → classify xs ≡ found a → xs ≡ a ∷ []
classify-found [] a h = absurd (ground arith)
classify-found (x ∷ []) a h = ground arith
classify-found (x ∷ y ∷ xs) a h = absurd (ground arith)

module _ {env : Env} (reads : ReadsRows env) {A : Type 0} (p : A → Bool) (rows : List A) where
  -- A row that `scalar_one_or_none` finds is the only one that meets the condition.
  pub filter_of_found : (a : A) → env.one_or_none p rows ≡ found a → filter p rows ≡ a ∷ []
  filter_of_found a h = classify-found (filter p rows) a (sym (reads.one_or_none_lem p rows) ∙ h)

  pub found_of_filter : (a : A) → filter p rows ≡ a ∷ [] → env.one_or_none p rows ≡ found a
  found_of_filter a h = reads.one_or_none_lem p rows ∙ ap classify h

  pub absent_of_filter : filter p rows ≡ [] → env.one_or_none p rows ≡ absent
  absent_of_filter h = reads.one_or_none_lem p rows ∙ ap classify h
