-- ===== src/Worker/Cleanup/Sweep.antt =====
-- `run_report_retention_cleanup` of worker.py when it returns, and when it raises.
use text.Mathlib.TextPositions.{eq_refl}
use invoices_codex.Prelude.{
  String, ℕ, ◌≡◌, refl, ap, sym, ◌∙◌, ◌+◌, ◌-◌, ◌⊎◌, inl, inr, Bool, false, List, [], ◌∷◌, ◌==◌,
  arith, In, length, ltb, true, ◌*◌, ◌↔◌, filter_complete, IsKeyed, none, some, Bool-cases,
  delete_where, Option-cases,
}
use invoices_codex.Prelude.Keyed.{filter-IsKeyed}
use invoices_codex.Env.{Env, ReadsRows}
use invoices_codex.Models.{Report, ReportArtifact}
use invoices_codex.Store.{
  World, Db, Outcome, ok, raised, Fault, Session, Tx, Outcome-cases, then-ok, then-raised, modify,
  ◌>>◌,
}
use invoices_codex.Worker.Storage.{Disk, normalize_key, has_object, delete}
use invoices_codex.Worker.Cleanup.{
  is_stale, days, without_report, delete_objects, clean_reports, run_report_retention_cleanup,
}

-- A row that is left was there, and is not one of those deleted.
In-delete_where :
    {A : Type 0} (p : A → Bool) (a : A) (xs : List A)
    → In a (delete_where p xs)
    → In a xs × (p a ≡ false)
unfolding delete_where
In-delete_where p a [] h = absurd h
In-delete_where p a (x ∷ xs) h = elim (Bool-cases (p x)) [
  | inl hit ↦ let i = In-delete_where p a xs (rw hit at h) in (inr i.0, i.1)
  | inr miss ↦
      let h' : (a ≡ x) ⊎ In a (delete_where p xs) = rw miss at h in
      elim h' [
        | inl e ↦ (inl e, rw e miss)
        | inr later ↦ let i = In-delete_where p a xs later in (inr i.0, i.1)
      ]
]

In-kept_where :
    {A : Type 0} (p : A → Bool) (a : A) (xs : List A)
    → In a xs
    → p a ≡ false
    → In a (delete_where p xs)
unfolding delete_where
In-kept_where p a [] i other = absurd i
In-kept_where p a (x ∷ xs) (inl e) other =
    let kept : p x ≡ false = rw (← e) other in rw kept (inl e)
In-kept_where p a (x ∷ xs) (inr i) other = elim (Bool-cases (p x)) [
  | inl hit ↦ rw hit (In-kept_where p a xs i other)
  | inr miss ↦ rw miss (inr (In-kept_where p a xs i other))
]

-- Two rows with one key are one row.
keyed_eq :
    (a b : Report) (rows : List Report)
    → IsKeyed (λ (r : Report). r.id) rows
    → In a rows
    → In b rows
    → (a.id == b.id) ≡ true
    → a ≡ b
keyed_eq a b rows keyed i j same =
    let one = filter-IsKeyed (λ (r : Report). r.id) b rows keyed j in
    let there = filter_complete (λ (r : Report). r.id == b.id) rows a i same in
    let there' : (a ≡ b) ⊎ ⊥ = rw one at there in
    elim there' [ inl e ↦ e | inr nowhere ↦ absurd nowhere ]

In-kept_report :
    (x r : Report) (db : Db)
    → In x db.reports
    → (x.id == r.id) ≡ false
    → In x (without_report r db).reports
unfolding without_report
In-kept_report x r db i other = In-kept_where (λ (y : Report). y.id == r.id) x db.reports i other

-- The reports that stay when one report goes.
In-without_report :
    (x r : Report) (db : Db)
    → In x (without_report r db).reports
    → In x db.reports × ((x.id == r.id) ≡ false)
unfolding without_report
In-without_report x r db h = In-delete_where (λ (y : Report). y.id == r.id) x db.reports h

module _ (env : Env) (disk : Disk) where
  delete-pending :
      (key : String) (s : Session)
      → ((delete disk key s).1.pending ≡ s.pending) × ((delete disk key s).1.stored ≡ s.stored)
  unfolding delete
  delete-pending key s = elim (Bool-cases (has_object (normalize_key key) s.outside.objects)) [
    | inr missing ↦ rw missing (refl, refl)
    | inl there ↦ elim (Option-cases (disk.unlink_fault key)) [
      | inl fine ↦ rw (there, fine) (refl, refl)
      | inr (e, refused) ↦ rw (there, refused) (refl, refl)
    ]
  ]

  delete_objects-pending :
      (as' : List ReportArtifact) (s : Session)
      → ((delete_objects env disk as' s).1.pending ≡ s.pending)
        × ((delete_objects env disk as' s).1.stored ≡ s.stored)
  unfolding delete_objects
  delete_objects-pending [] s = (refl, refl)
  delete_objects-pending (a ∷ as') s =
      let one = delete-pending a.storage_path s in
      let rest = delete_objects-pending as' (delete disk a.storage_path s).1 in
      elim (Outcome-cases (delete disk a.storage_path s).0) [
        | inl (done, h) ↦ (ground (arith, one, rest), ground (arith, one, rest))
        | inr (e, h) ↦ (ground (arith, one, rest), ground (arith, one, rest))
      ]

  abbrev removal : Report → Session → Tx (Unit {0})
  removal r s =
      delete_objects env disk
        (env.all_rows (λ (a : ReportArtifact). a.report_id == r.id) s.pending.artifacts)

  -- The session after one report has gone.
  abbrev without : Report → Session → Session
  without r s = let s' = (removal r s s).1 in record s' { pending = without_report r s'.pending }

  clean_reports-next :
      (deleted : ℕ) (r : Report) (rs : List Report) (s : Session)
      → ((clean_reports env disk deleted (r ∷ rs) s
            ≡ clean_reports env disk (deleted + 1) rs (without r s))
          ⊎ ((e : Fault) × (clean_reports env disk deleted (r ∷ rs) s
                ≡ (raised e, (removal r s s).1))))
  unfolding clean_reports
  clean_reports-next deleted r rs s =
      let k : Tx ℕ = modify (without_report r) >> clean_reports env disk (deleted + 1) rs in
      elim (Outcome-cases (removal r s s).0) [
        | inl (done, h) ↦ inl (then-ok (removal r s) k s done h)
        | inr (e, h) ↦ inr (e, then-raised (removal r s) k s e h)
      ]

  -- Nothing is stored before the commit that ends the run.
  clean_reports-stored :
      (deleted : ℕ) (rs : List Report) (s : Session)
      → (clean_reports env disk deleted rs s).1.stored ≡ s.stored
  unfolding clean_reports
  clean_reports-stored deleted [] s = refl
  clean_reports-stored deleted (r ∷ rs) s = elim (clean_reports-next deleted r rs s) [
    | inl e ↦
        ap (λ o. o.1.stored) e
        ∙ clean_reports-stored (deleted + 1) rs (without r s)
        ∙ (delete_objects-pending
            (env.all_rows (λ (a : ReportArtifact). a.report_id == r.id) s.pending.artifacts) s).1
    | inr (x, e) ↦
        ap (λ o. o.1.stored) e
        ∙ (delete_objects-pending
            (env.all_rows (λ (a : ReportArtifact). a.report_id == r.id) s.pending.artifacts) s).1
  ]

  In-without :
      (x r : Report) (s : Session)
      → In x (without r s).pending.reports
      → In x s.pending.reports × ((x.id == r.id) ≡ false)
  In-without x r s h = In-without_report x r s.pending (
      rw
        ((delete_objects-pending
          (env.all_rows (λ (a : ReportArtifact). a.report_id == r.id) s.pending.artifacts) s).0)
        at h)

  -- The reports that are left when the loop returns, and the count that it returns.
  clean_reports-left :
      (deleted n : ℕ) (rs : List Report) (s : Session)
      → (clean_reports env disk deleted rs s).0 ≡ ok n
      → (n ≡ deleted + length rs)
        × ((x : Report)
            → In x (clean_reports env disk deleted rs s).1.pending.reports
            → In x s.pending.reports × ((r : Report) → In r rs → (x.id == r.id) ≡ false))
  unfolding clean_reports
  clean_reports-left deleted n [] s h =
      (ground arith, λ x i. (i, λ r none_there. absurd none_there))
  clean_reports-left deleted n (r ∷ rs) s h = elim (clean_reports-next deleted r rs s) [
    | inl e ↦
        let rest =
          clean_reports-left (deleted + 1) n rs (without r s) (ap (λ o. o.0) (sym e) ∙ h) in
        (
          omega (arith, rest.0),
          λ x i.
              let later = rest.1 x (rw e at i) in
              let now = In-without x r s later.0 in
              (
                now.0,
                λ q there. elim there [
                  | inl same ↦ rw same now.1
                  | inr further ↦ later.1 q further
                ],
              ),
        )
    | inr (x, e) ↦ absurd (ground arith)
  ]

  -- A report whose id is not among those deleted is left.
  clean_reports-keeps :
      (deleted n : ℕ) (rs : List Report) (s : Session) (x : Report)
      → (clean_reports env disk deleted rs s).0 ≡ ok n
      → In x s.pending.reports
      → ((r : Report) → In r rs → (x.id == r.id) ≡ false)
      → In x (clean_reports env disk deleted rs s).1.pending.reports
  unfolding clean_reports
  clean_reports-keeps deleted n [] s x h i others = i
  clean_reports-keeps deleted n (r ∷ rs) s x h i others = elim (clean_reports-next deleted r rs s) [
    | inr (e, failed) ↦ absurd (ground arith)
    | inl e ↦
        let same =
          (delete_objects-pending
            (env.all_rows (λ (a : ReportArtifact). a.report_id == r.id) s.pending.artifacts) s).0 in
        let there : In x (without r s).pending.reports =
          rw same (In-kept_report x r s.pending i (others r (inl refl))) in
        rw e (
          clean_reports-keeps (deleted + 1) n rs (without r s) x (ap (λ o. o.0) (sym e) ∙ h) there
            (λ q j. others q (inr j)))
  ]

-- A report that finished before the cutoff, which is so many days ago.
abbrev finished_before : ℕ → ℕ → Report → Bool
finished_before now retention_days r = elim r.finished_at [
  | none ↦ false
  | some t ↦ ltb t (now - retention_days * 86400000000)
]

-- The count of a run, and the reports before and after it.
pub record Swept (env : Env) (now retention_days : ℕ) (rows : List Report) (n : ℕ)
    (rows' : List Report) : Type 0 where
  pub counted : n ≡ length (env.all_rows (finished_before now retention_days) rows)
  pub left :
      (x : Report) → In x rows' ↔ (In x rows × (finished_before now retention_days x ≡ false))

module _ (env : Env) (disk : Disk) (now retention_days : ℕ) (w : World) where
  abbrev stale : List Report
  stale = env.all_rows (is_stale (now - days retention_days)) w.db.reports

  abbrev swept : Outcome ℕ × Session
  swept = clean_reports env disk 0 stale (record { stored = w.db; pending = w.db; outside = w })

  committed :
      (n : ℕ)
      → (run_report_retention_cleanup env disk now retention_days w).0 ≡ ok n
      → (swept.0 ≡ ok n)
        × ((run_report_retention_cleanup env disk now retention_days w).1.db.reports
            ≡ swept.1.pending.reports)
  unfolding run_report_retention_cleanup
  committed n h = elim (Bool-cases (ltb retention_days 1)) [
    | inl small ↦ absurd (ground arith)
    | inr enough ↦ elim (Outcome-cases swept.0) [
      | inl (m, e) ↦ (ground arith, ground arith)
      | inr (x, e) ↦ absurd (ground arith)
    ]
  ]

  -- A run that returns has counted the reports that finished before the cutoff, a time so many days ago, and the
  -- reports that are left are those that were there and did not.
  pub run_report_retention_cleanup-Swept :
      (reads : ReadsRows env) (n : ℕ)
      → IsKeyed (λ (r : Report). r.id) w.db.reports
      → (run_report_retention_cleanup env disk now retention_days w).0 ≡ ok n
      → Swept env now retention_days w.db.reports n
          (run_report_retention_cleanup env disk now retention_days w).1.db.reports
  run_report_retention_cleanup-Swept reads n keyed h =
      let p = is_stale (now - days retention_days) in
      let done = committed n h in
      let gone = clean_reports-left env disk 0 n stale _ done.0 in
      record {
        counted = omega (arith, gone.0);
        left = λ x. (
          λ i.
              let kept = gone.1 x (rw done.1 at i) in
              (
                kept.0,
                elim (Bool-cases (p x)) [
                  | inl old ↦
                      let there = reads.all_rows-complete p w.db.reports x kept.0 old in
                      absurd (ground (arith, kept.1 x there, eq_refl x.id))
                  | inr fresh ↦ fresh
                ],
              ),
          λ i.
              let others : (r : Report) → In r stale → (x.id == r.id) ≡ false = λ r j.
                let (there, old) = reads.all_rows-sound p w.db.reports r j in
                elim (Bool-cases (x.id == r.id)) [
                  | inr other ↦ other
                  | inl same ↦
                      let one = keyed_eq x r w.db.reports keyed i.0 there same in
                      let stale_too : p x ≡ true = ap p one ∙ old in
                      absurd (ground (arith, stale_too, i.1))
                ] in
              rw done.1 (clean_reports-keeps env disk 0 n stale _ x done.0 i.0 others),
        );
      }

  -- A run that raises leaves the database as it was.
  pub run_report_retention_cleanup-raised :
      (e : Fault)
      → (run_report_retention_cleanup env disk now retention_days w).0 ≡ raised e
      → (run_report_retention_cleanup env disk now retention_days w).1.db ≡ w.db
  unfolding run_report_retention_cleanup
  run_report_retention_cleanup-raised e h = elim (Bool-cases (ltb retention_days 1)) [
    | inl small ↦ ground arith
    | inr enough ↦ elim (Outcome-cases swept.0) [
      | inl (m, e') ↦ absurd (ground arith)
      | inr (x, e') ↦ ground (
        arith,
        clean_reports-stored env disk 0 stale
            (record { stored = w.db; pending = w.db; outside = w }),
      )
    ]
  ]
