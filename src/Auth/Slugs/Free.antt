-- ===== src/Auth/Slugs/Free.antt =====
-- The loop of `unique_tenant_slug`.
use invoices_codex.Prelude.{
  ℕ, suc, String, ◌≡◌, refl, Bool, true, false, some, inl, inr, List, arith, contains, length,
  Bool-cases,
}
use invoices_codex.Prelude.FirstFree.{first_free-ends}
use invoices_codex.Prelude.Texts.{chars, take_chars, last_part_eq}
use invoices_codex.Prelude.Decimal.{decimal, decimal_inj, decimal-lacks_sign}
use invoices_codex.Env.{Env}
use invoices_codex.Auth.Slugs.{
  trim_to, dash_number, numbered_slug, slugify_tenant_name, unique_tenant_slug,
}

numbered_slug_inj : (base : String) (i j : ℕ) → numbered_slug base i ≡ numbered_slug base j → i ≡ j
unfolding numbered_slug
numbered_slug_inj base i j e = decimal_inj i j (
    last_part_eq "-" (take_chars (trim_to (chars (dash_number i))) base)
      (take_chars (trim_to (chars (dash_number j))) base) (decimal i) (decimal j)
      (decimal-lacks_sign b'-' i (omega arith)) (decimal-lacks_sign b'-' j (omega arith)) e)

-- Where the taken slugs stand in a list, `unique_tenant_slug` ends with a slug that is not taken, in no more
-- rounds than the list has entries and one.
pub unique_tenant_slug-free :
    (env : Env) (name : String) (slug_exists : String → Bool) (slugs : List String)
    → ((s : String) → slug_exists s ≡ true → contains s slugs ≡ true)
    → (slug : String) × (unique_tenant_slug env (suc (length slugs)) name slug_exists ≡ some slug)
      × (slug_exists slug ≡ false)
unfolding unique_tenant_slug
unique_tenant_slug-free env name slug_exists slugs known =
    let base = slugify_tenant_name env name in
    elim (Bool-cases (slug_exists base)) [
      | inr free ↦ (base, rw free refl, free)
      | inl taken ↦
          let ends =
            first_free-ends (numbered_slug base) (numbered_slug_inj base) slug_exists
              (suc (length slugs)) 1 slugs (λ j later h. known (numbered_slug base j) h)
              (omega arith) in
          (numbered_slug base ends.0, rw taken ends.2, ends.3)
    ]
