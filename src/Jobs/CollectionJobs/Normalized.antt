-- ===== src/Jobs/CollectionJobs/Normalized.antt =====
-- `_normalize_collection_providers` of service.py.
use package.text.Mathlib.TextPositions.{eq_refl}
use invoices_codex.Prelude.{
  String, ◌≡◌, refl, true, false, inl, inr, List, [], ◌∷◌, ◌++◌, ◌==◌, contains, arith, eq_iff,
  Bool-cases, List-cases,
}
use invoices_codex.Env.{Env, Json, text, null, num, bool, texts, other}
use invoices_codex.Store.{ok, Outcome-cases}
use invoices_codex.Jobs.CollectionJobs.{
  provider_allowed_types, allowed_providers, normalize_collection_providers,
}

-- Distinct allowed types.
abbrev pub AreAllowed : List String → Type 0
AreAllowed [] = Unit
AreAllowed (p ∷ ps) =
    (contains p provider_allowed_types ≡ true) × ((contains p ps ≡ false) × AreAllowed ps)

contains-snoc :
    (a b : String) (xs : List String)
    → contains a xs ≡ false
    → (a == b) ≡ false
    → contains a (xs ++ b ∷ []) ≡ false
contains-snoc a b [] h n = ground arith
contains-snoc a b (x ∷ xs) h n = ground (arith, contains-snoc a b xs)

-- A type that is not there yet can be added.
AreAllowed-snoc :
    (xs : List String) (b : String)
    → AreAllowed xs
    → contains b provider_allowed_types ≡ true
    → contains b xs ≡ false
    → AreAllowed (xs ++ b ∷ [])
AreAllowed-snoc [] b h allowed new = (allowed, (refl, tt))
AreAllowed-snoc (x ∷ xs) b h allowed new = (
  h.0,
  (
    contains-snoc x b xs h.1.0 (ground (arith, eq_iff x b, eq_refl x)),
    AreAllowed-snoc xs b h.1.1 allowed (ground arith),
  ),
)

normalize_providers-AreAllowed :
    (env : Env) (kept : List String) (js : List Json) (ps : List String)
    → AreAllowed kept
    → allowed_providers env kept js ≡ ok ps
    → AreAllowed ps
unfolding allowed_providers
normalize_providers-AreAllowed env kept [] ps k h = ground arith
normalize_providers-AreAllowed env kept (text raw ∷ js) ps k h =
    let p = env.lower (env.strip raw) in
    elim (Bool-cases (contains p provider_allowed_types)) [
      | inr foreign ↦ absurd (ground arith)
      | inl allowed ↦ elim (Bool-cases (contains p kept)) [
        | inl seen ↦ normalize_providers-AreAllowed env kept js ps k (ground arith)
        | inr new ↦
            normalize_providers-AreAllowed env (kept ++ p ∷ []) js ps
              (AreAllowed-snoc kept p k allowed new) (ground arith)
      ]
    ]
normalize_providers-AreAllowed env kept (null ∷ js) ps k h = absurd (ground arith)
normalize_providers-AreAllowed env kept (num n ∷ js) ps k h = absurd (ground arith)
normalize_providers-AreAllowed env kept (bool b ∷ js) ps k h = absurd (ground arith)
normalize_providers-AreAllowed env kept (texts t ∷ js) ps k h = absurd (ground arith)
normalize_providers-AreAllowed env kept (other t ∷ js) ps k h = absurd (ground arith)

-- The providers of a collection job are allowed types, distinct, and at least one, whenever the normalisation
-- returns.
pub normalize_collection_providers-AreAllowed :
    (env : Env) (js : List Json) (ps : List String)
    → normalize_collection_providers env js ≡ ok ps
    → AreAllowed ps × ¬ (ps ≡ [])
unfolding normalize_collection_providers
normalize_collection_providers-AreAllowed env [] ps h = absurd (ground arith)
normalize_collection_providers-AreAllowed env (j ∷ js) ps h =
    elim (Outcome-cases (allowed_providers env [] (j ∷ js))) [
      | inr (e, raised_it) ↦ absurd (ground arith)
      | inl (qs, e) ↦
          let fine = normalize_providers-AreAllowed env [] (j ∷ js) qs tt e in
          elim (List-cases qs) [
            | inl none_left ↦ absurd (ground arith)
            | inr (q, (rest, e')) ↦ ground (arith, fine)
          ]
    ]
