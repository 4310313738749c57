-- ===== src/Store/Transactions.antt =====
-- A session: what is stored, what is pending until the next commit, and the effects that no rollback
-- takes back. `session.add` and a change of a row's field write to `pending`; leaving the `with` block,
-- also by an exception, drops what is pending.
use invoices_codex.Prelude.{
  ℕ, String, ◌+◌, ◌≡◌, refl, ◌⊎◌, inl, inr, Bool, Option, none, some, List, [], ◌∷◌, ◌++◌,
  if◌then◌else◌,
}
use invoices_codex.Env.{Env, Dict, Selected, absent, found, ambiguous}
use invoices_codex.Store.Tables.{Db, World}

-- The exceptions, with the code, message and status that each carries.
pub data Fault : Type 0 where
  auth_error : String → String → ℕ → Fault
  provider_error : String → String → Fault
  collection_error : String → String → Fault
  value_error : String → Fault
  runtime_error : String → Fault
  integrity_error : Fault
  unknown_ids : String → List String → Fault
  multiple_results : Fault
  no_result : Fault
  external : String → Fault

pub data Outcome (A : Type 0) : Type 0 where
  ok : A → Outcome A
  raised : Fault → Outcome A

pub record Session : Type 0 where
  pub stored : Db
  pub pending : Db
  pub outside : World

abbrev pub Tx : Type 0 → Type 0
Tx A = Session → Outcome A × Session

module _ {A : Type 0} where
  abbrev pub pure : A → Tx A
  pure a s = (ok a, s)

  abbrev pub raise : Fault → Tx A
  raise e s = (raised e, s)

  -- A read of the tables.
  abbrev pub reads : (Db → A) → Tx A
  reads f s = (ok (f s.pending), s)

infixl 5 ◌>>=◌ ◌>>◌
abbrev pub ◌>>=◌ : {A B : Type 0} → Tx A → (A → Tx B) → Tx B
◌>>=◌ m f s = let (r, s') = m s in elim r [ ok a ↦ f a s' | raised e ↦ (raised e, s') ]

abbrev pub ◌>>◌ : {A B : Type 0} → Tx A → Tx B → Tx B
m >> k = m >>= λ _. k

abbrev pub skip : Tx (Unit {0})
skip = pure tt

abbrev pub raise_if : Bool → Fault → Tx (Unit {0})
raise_if b e = if b then raise e else skip

-- A validation that may have found a fault.
abbrev pub raise_some : Option Fault → Tx (Unit {0})
raise_some none = skip
raise_some (some e) = raise e

-- A change of the tables that is not yet committed.
abbrev pub modify : (Db → Db) → Tx (Unit {0})
modify f s = (ok tt, record s { pending = f s.pending })

abbrev pub commit : Tx (Unit {0})
commit s = (ok tt, record s { stored = s.pending })

abbrev pub rollback : Tx (Unit {0})
rollback s = (ok tt, record s { pending = s.stored })

-- `scalar_one_or_none()`
abbrev pub optional : {A : Type 0} → Selected A → Outcome (Option A)
optional absent = ok none
optional (found a) = ok (some a)
optional ambiguous = raised multiple_results

-- `scalar_one()`
abbrev pub exactly_one : {A : Type 0} → Selected A → Outcome A
exactly_one absent = raised no_result
exactly_one (found a) = ok a
exactly_one ambiguous = raised multiple_results

-- A read that may raise.
abbrev pub query : {A : Type 0} → (Db → Outcome A) → Tx A
query f s = (f s.pending, s)

-- One read after another.
abbrev pub and_then : {A B : Type 0} → Outcome A → (A → Outcome B) → Outcome B
and_then (ok a) f = f a
and_then (raised e) f = raised e

-- `with session_factory() as session:`
abbrev pub transaction : {A : Type 0} → Tx A → World → Outcome A × World
transaction m w =
    let (r, s) = m (record { stored = w.db; pending = w.db; outside = w }) in
    (r, record s.outside { db = s.stored })

-- A transaction, and another one that takes the place of one that raised: `try` and `except` around
-- two `with session_factory()` blocks.
abbrev pub attempt : {A : Type 0} → Tx A → (Fault → Tx A) → World → Outcome A × World
attempt m handler w =
    let (r, w') = transaction m w in
    elim r [ ok a ↦ (ok a, w') | raised e ↦ transaction (handler e) w' ]

-- One transaction after another, where the first did not raise.
abbrev pub afterwards :
    {A B : Type 0} → Tx A → (World → Outcome B × World) → World → Outcome B × World
afterwards m next w =
    let (r, w') = transaction m w in elim r [ ok a ↦ next w' | raised e ↦ (raised e, w') ]

module _ (env : Env) where
  abbrev pub draw_uuid : Tx String
  draw_uuid s = (
    ok (env.uuid4 s.outside.drawn),
    record s { outside = record s.outside { drawn = s.outside.drawn + 1 } },
  )

  abbrev pub draw_token : Tx String
  draw_token s = (
    ok (env.token_urlsafe s.outside.drawn),
    record s { outside = record s.outside { drawn = s.outside.drawn + 1 } },
  )

  -- `queue.enqueue(task_name, payload)` of the in-memory queue: it takes effect at once.
  abbrev pub enqueue : String → String → Tx String
  enqueue task argument = do
    job_id ← draw_uuid
    (λ s. (
      ok tt,
      record s {
        outside = record s.outside {
          queue =
              s.outside.queue
              ++ (record { task_name = task; argument = argument; job_id = job_id }) ∷ [];
        };
      },
    ))
    pure job_id

  -- `session.add(AuditEvent(...))`
  abbrev pub add_event : ℕ → String → String → Option String → Dict → Tx (Unit {0})
  add_event now tenant_id event_type actor payload = do
    id ← draw_uuid
    modify (λ db. record db {
      events =
          db.events
          ++ (record {
            id = id;
            tenant_id = tenant_id;
            event_type = event_type;
            actor = actor;
            payload_json = env.dumps payload;
            created_at = now;
          })
            ∷ [];
    })

-- To split on the result of a read and keep the equation.
pub Selected-cases :
    {A : Type 0} (s : Selected A) → (s ≡ absent) ⊎ ((a : A) × (s ≡ found a)) ⊎ (s ≡ ambiguous)
Selected-cases absent = inl refl
Selected-cases (found a) = inr (inl (a, refl))
Selected-cases ambiguous = inr (inr refl)

-- To split on whether a computation raised.
pub Outcome-cases :
    {A : Type 0} (r : Outcome A) → ((a : A) × (r ≡ ok a)) ⊎ ((e : Fault) × (r ≡ raised e))
Outcome-cases (ok a) = inl (a, refl)
Outcome-cases (raised e) = inr (e, refl)

module _ {A B : Type 0} (m : Tx A) (k : Tx B) (s : Session) where
  -- A computation in sequence, by what the first part did.
  pub then-ok : (a : A) → (m s).0 ≡ ok a → (m >> k) s ≡ k (m s).1
  then-ok a h = rw (h, ◌>>=◌) refl

  pub then-raised : (e : Fault) → (m s).0 ≡ raised e → (m >> k) s ≡ (raised e, (m s).1)
  then-raised e h = rw (h, ◌>>=◌) refl
