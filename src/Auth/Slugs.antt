-- ===== src/Auth/Slugs.antt =====
-- Tenant slugs: `slugify_tenant_name`, `unique_tenant_slug` and `is_valid_tenant_slug` of saas/auth.py.
pub mod Free
pub mod Bounds
use Prim.Native.Char.{code}
use invoices_codex.Prelude.{
  ℕ, zero, suc, String, ◌-◌, Bool, not, ◌&&◌, ◌||◌, Option, some, ◌==◌, eqb, leb, if◌then◌else◌,
  joined,
}
use invoices_codex.Prelude.FirstFree.{first_free}
use invoices_codex.Prelude.Texts.{chars, take_chars, lstrip_sign, rstrip_sign}
use invoices_codex.Prelude.Decimal.{decimal}
use invoices_codex.Env.{Env}

-- `[a-z0-9]`
abbrev pub is_word_char : ℕ → Bool
is_word_char c = (leb b'a' c && leb c b'z') || (leb b'0' c && leb c b'9')

-- `[a-z0-9-]`
abbrev pub is_slug_char : ℕ → Bool
is_slug_char c = is_word_char c || eqb c b'-'

-- `re.sub(r"[^a-z0-9]+", "-", value)`, where the flag says that the character before was replaced.
unfoldable pub dash_runs : Bool → String → String
dash_runs in_run String.[] = ""
dash_runs in_run (String.◌∷◌ c s) =
    let rest = dash_runs (not (is_word_char (code c))) s in
    if is_word_char (code c)
    then String.◌∷◌ c rest
    else if in_run
    then rest
    else String.◌∷◌ "-" rest

-- `f"{base_slug[:trim_to]}-{suffix}"`
abbrev pub dash_number : ℕ → String
dash_number suffix = String.◌∷◌ "-" (decimal suffix)

-- `max(1, 64 - n)`
abbrev pub trim_to : ℕ → ℕ
trim_to n = if leb 64 n then 1 else 64 - n

unfoldable pub numbered_slug : String → ℕ → String
numbered_slug base_slug suffix =
    joined (take_chars (trim_to (chars (dash_number suffix))) base_slug) (dash_number suffix)

module _ (env : Env) where
  unfoldable pub slugify_tenant_name : String → String
  slugify_tenant_name raw_name =
      let value = dash_runs Bool.false (env.lower (env.strip raw_name)) in
      let stripped = rstrip_sign b'-' (lstrip_sign b'-' value) in
      if stripped == "" then "tenant" else take_chars 64 stripped

  -- The loop runs on fuel; `none` is fuel that ran out.
  unfoldable pub unique_tenant_slug : ℕ → String → (String → Bool) → Option String
  unique_tenant_slug fuel name slug_exists =
      let base_slug = slugify_tenant_name name in
      let numbered = first_free (numbered_slug base_slug) fuel 1 slug_exists in
      if slug_exists base_slug then numbered else some base_slug
