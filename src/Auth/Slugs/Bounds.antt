-- ===== src/Auth/Slugs/Bounds.antt =====
-- The slugs that `unique_tenant_slug` makes, and the pattern that a login asks of a slug.
use Prim.Native.Char.{code}
use invoices_codex.Prelude.{
  ℕ, zero, suc, String, ◌+◌, ◌≤◌, ◌<◌, ◌≡◌, refl, ◌∙◌, Bool, true, false, not, ◌&&◌, some, inl, inr,
  arith, leb, ◌==◌, Bool-cases,
}
use Prim.Native.Nat.{◌^◌}
use invoices_codex.Prelude.FirstFree.{first_free-candidate}
use invoices_codex.Prelude.Texts.{
  chars, take_chars, all_chars, lstrip_sign, rstrip_sign, chars-append, chars-take_chars,
  all_chars-append, all_chars-take_chars, all_chars-lstrip_sign, all_chars-rstrip_sign,
}
use invoices_codex.Prelude.Decimal.{decimal, decimal-chars, decimal-all_digits}
use invoices_codex.Env.{Env}
use invoices_codex.Auth.Slugs.{
  is_word_char, is_slug_char, dash_runs, trim_to, dash_number, numbered_slug, slugify_tenant_name,
  unique_tenant_slug,
}

dash_runs-all_slug :
    (in_run : Bool) (s : String) → all_chars is_slug_char (dash_runs in_run s) ≡ true
unfolding dash_runs all_chars
dash_runs-all_slug in_run String.[] = refl
dash_runs-all_slug in_run (String.◌∷◌ c s) =
    ground (arith, dash_runs-all_slug (not (is_word_char (code c))) s)

-- A text of 1 to 64 characters, each of them a letter, a digit or a dash.
abbrev pub IsSlug : String → Type 0
IsSlug s = (all_chars is_slug_char s ≡ true) × (1 ≤ chars s) × (chars s ≤ 64)

chars-pos : (s : String) → (s == "") ≡ false → 1 ≤ chars s
unfolding chars
chars-pos String.[] h = absurd (ground arith)
chars-pos (String.◌∷◌ c s) h = omega arith

take_chars-pos : (n : ℕ) (s : String) → 1 ≤ chars s → 1 ≤ n → 1 ≤ chars (take_chars n s)
unfolding chars take_chars
take_chars-pos zero s h k = absurd (omega arith)
take_chars-pos (suc n) String.[] h k = absurd (omega arith)
take_chars-pos (suc n) (String.◌∷◌ c s) h k = omega arith

tenant-IsSlug : IsSlug "tenant"
unfolding all_chars chars
tenant-IsSlug = (refl, omega arith, omega arith)

slugify-IsSlug : (env : Env) (name : String) → IsSlug (slugify_tenant_name env name)
unfolding slugify_tenant_name
slugify-IsSlug env name =
    let value = dash_runs false (env.lower (env.strip name)) in
    let stripped = rstrip_sign b'-' (lstrip_sign b'-' value) in
    elim (Bool-cases (stripped == "")) [
      | inl empty ↦ rw empty tenant-IsSlug
      | inr more ↦ rw more (
        all_chars-take_chars is_slug_char 64 stripped (
            all_chars-rstrip_sign is_slug_char b'-' (lstrip_sign b'-' value)
              (all_chars-lstrip_sign is_slug_char b'-' value (dash_runs-all_slug false _))),
        take_chars-pos 64 stripped (chars-pos stripped more) (omega arith),
        chars-take_chars 64 stripped,
      )
    ]

chars-dash_number : (i : ℕ) → chars (dash_number i) ≡ 1 + chars (decimal i)
unfolding chars
chars-dash_number i = omega arith

all_slug-dash_number : (i : ℕ) → all_chars is_slug_char (dash_number i) ≡ true
unfolding all_chars
all_slug-dash_number i = decimal-all_digits is_slug_char i (λ c low high. ground arith)

numbered_slug-IsSlug :
    (base : String) (i : ℕ) → IsSlug base → i < 10 ^ 60 → IsSlug (numbered_slug base i)
unfolding numbered_slug
numbered_slug-IsSlug base i slug small =
    let t = trim_to (chars (dash_number i)) in
    let total = chars-append (take_chars t base) (dash_number i) in
    (
      all_chars-append is_slug_char (take_chars t base) (dash_number i)
          (all_chars-take_chars is_slug_char t base slug.0) (all_slug-dash_number i),
      omega (arith, total, chars-dash_number i),
      ground (arith, total, chars-dash_number i, chars-take_chars t base, decimal-chars i small),
    )

some_eq : {s t : String} → some s ≡ some t → s ≡ t
some_eq h = ground arith

unique_tenant_slug-IsSlug :
    (env : Env) (fuel : ℕ) (name : String) (slug_exists : String → Bool) (slug : String)
    → fuel + 1 < 10 ^ 60
    → unique_tenant_slug env fuel name slug_exists ≡ some slug
    → IsSlug slug
unfolding unique_tenant_slug
unique_tenant_slug-IsSlug env fuel name slug_exists slug small h =
    let base = slugify_tenant_name env name in
    elim (Bool-cases (slug_exists base)) [
      | inr free ↦
          let same : some base ≡ some slug = rw free at h in
          rw (← some_eq same) (slugify-IsSlug env name)
      | inl taken ↦
          let tried =
            first_free-candidate (numbered_slug base) fuel 1 slug_exists slug (rw taken at h) in
          rw tried.1
            (numbered_slug-IsSlug base tried.0 (slugify-IsSlug env name) (omega (arith, tried.2)))
    ]

-- A slug that `unique_tenant_slug` makes has 1 to 64 characters, each a small letter, a digit or a dash. So where
-- the login's slug pattern is what it says of such texts, 2 to 64 characters, the login takes the slug if and only
-- if it has 2 characters or more. The loop runs fewer than 10 ^ 60 rounds.
pub unique_tenant_slug-accepted :
    (env : Env) (fuel : ℕ) (name : String) (slug_exists : String → Bool) (slug : String)
    (pattern_lem : (s : String)
      → all_chars is_slug_char s ≡ true
      → env.slug_pattern s ≡ (leb 2 (chars s) && leb (chars s) 64))
    → fuel + 1 < 10 ^ 60
    → unique_tenant_slug env fuel name slug_exists ≡ some slug
    → IsSlug slug × (env.slug_pattern slug ≡ leb 2 (chars slug))
unique_tenant_slug-accepted env fuel name slug_exists slug pattern_lem small h =
    let made = unique_tenant_slug-IsSlug env fuel name slug_exists slug small h in
    (made, pattern_lem slug made.0 ∙ ground (arith, made.2))
