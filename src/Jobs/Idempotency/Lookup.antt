-- ===== src/Jobs/Idempotency/Lookup.antt =====
-- Reads of a key, or a row, that has just been added.
use text.Mathlib.TextPositions.{eq_refl}
use invoices_codex.Prelude.{
  ℕ, String, ◌≡◌, refl, ◌∙◌, Bool, true, inl, inr, List, [], ◌∷◌, ◌++◌, arith, filter,
  filter-append, List-cases,
}
use invoices_codex.Env.{Env, found, absent, ReadsRows, found_of_filter}
use invoices_codex.Jobs.Idempotency.{has_key, idempotency_row}

pub key_row-read :
    (env : Env) (now : ℕ) (id tenant_id scope key kind resource : String)
    → (has_key env tenant_id scope key
          (idempotency_row env now id tenant_id scope key kind resource)
        ≡ true)
      × ((idempotency_row env now id tenant_id scope key kind resource).resource_id ≡ resource)
unfolding idempotency_row
key_row-read env now id tenant_id scope key kind resource =
    (ground (arith, eq_refl tenant_id, eq_refl scope, eq_refl key), refl)

-- A row that is added to a table that held none of its kind is the one that a read finds.
pub added-found :
    {A : Type 0} (env : Env) (reads : ReadsRows env) (p : A → Bool) (rows : List A) (a : A)
    → filter p rows ≡ []
    → p a ≡ true
    → env.one_or_none p (rows ++ a ∷ []) ≡ found a
unfolding filter
added-found env reads p rows a none_yet hit =
    found_of_filter reads p (rows ++ a ∷ []) a (filter-append p rows (a ∷ []) ∙ ground arith)

pub filter_of_absent :
    {A : Type 0} (env : Env) (reads : ReadsRows env) (p : A → Bool) (rows : List A)
    → env.one_or_none p rows ≡ absent
    → filter p rows ≡ []
filter_of_absent env reads p rows h = elim (List-cases (filter p rows)) [
  | inl e ↦ e
  | inr (x, (xs, e)) ↦ elim (List-cases xs) [
    | inl e' ↦ absurd (ground (arith, reads.one_or_none_lem p rows))
    | inr (y, (ys, e')) ↦ absurd (ground (arith, reads.one_or_none_lem p rows))
  ]
]
