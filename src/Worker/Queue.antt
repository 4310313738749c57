-- ===== src/Worker/Queue.antt =====
-- `drain_in_memory_queue` of saas/queue.py and the task functions of saas/tasks.py that it calls.
use invoices_codex.Prelude.{ℕ, zero, suc, String, ◌+◌, Option, none, some, [], ◌∷◌}
use invoices_codex.Store.{Task, World, Outcome, ok, raised, external}

-- `handlers[task_name]`; a handler may enqueue more and may raise.
abbrev pub Handlers : Type 0
Handlers = String → Option (String → World → Outcome (Unit {0}) × World)

unfoldable pub handle_task : Handlers → Task → World → Outcome (Unit {0}) × World
handle_task handlers t w = elim (handlers t.task_name) [
  | none ↦ (raised (external "KeyError"), w)
  | some handler ↦ handler t.argument w
]

-- The loop goes on where the handler returned.
abbrev pub after_task :
    Outcome (Unit {0}) × World → (World → Option (Outcome ℕ × World)) → Option (Outcome ℕ × World)
after_task (ok _, w) continue = continue w
after_task (raised e, w) continue = some (raised e, w)

-- `none` is fuel that ran out.
unfoldable pub drain_in_memory_queue : ℕ → Handlers → ℕ → World → Option (Outcome ℕ × World)
drain_in_memory_queue zero handlers processed w = none
drain_in_memory_queue (suc fuel) handlers processed w = elim w.queue [
  | [] ↦ some (ok processed, w)
  | t ∷ rest ↦
      after_task (handle_task handlers t (record w { queue = rest }))
        (drain_in_memory_queue fuel handlers (processed + 1))
]
