-- ===== src/Jobs/Repository.antt =====
-- `TenantScopedRepository` of saas/repository.py: reads that carry the tenant's condition.
use invoices_codex.Prelude.{ℕ, String, Bool, ◌&&◌, List, ◌==◌}
use invoices_codex.Env.{Env, Selected}

-- A model with a `tenant_id` column, and the columns that the listings order by.
pub record TenantScoped (A : Type 0) : Type 0 where
  pub tenant_of : A → String
  pub created_at_of : A → ℕ
  pub id_of : A → String

module _ (env : Env) {A : Type 0} (model : TenantScoped A) (tenant_id : String) where
  -- `_tenant_clause`, with the filters of the call
  unfoldable pub tenant_clause : (A → Bool) → A → Bool
  tenant_clause wanted a = (model.tenant_of a == tenant_id) && wanted a

  unfoldable pub one_or_none : (A → Bool) → List A → Selected A
  one_or_none wanted rows = env.one_or_none (tenant_clause wanted) rows

  -- `list` as the service calls it, with `created_at` and `id` descending, a limit and an offset
  unfoldable pub list_newest : (A → Bool) → ℕ → ℕ → List A → List A
  list_newest wanted limit offset rows =
      env.newest model.created_at_of model.id_of (tenant_clause wanted) limit offset rows

  unfoldable pub count : (A → Bool) → List A → ℕ
  count wanted rows = env.count_rows (tenant_clause wanted) rows
