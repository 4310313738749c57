-- ===== src/Monthly/Calendar/Windows.antt =====
-- The month that `month_window` gives.
use invoices_codex.Prelude.{
  ℕ, ◌≡◌, refl, ◌≤◌, false, ◌&&◌, Option, none, some, inl, inr, arith, leb, eqb, if◌then◌else◌,
  Bool-cases,
}
use invoices_codex.Monthly.Calendar.{
  Date, days_in_month, month_after, add_days, iso_date, month_label, or_else, month_window,
}

days_in_month-le : (y m : ℕ) → days_in_month y m ≤ 31
unfolding days_in_month
days_in_month-le y m = ground arith

-- Four days after the 28th is a day of the month after, whatever the month.
next_month-after :
    (y m : ℕ)
    → record (add_days (record { year = y; month = m; day = 28 }) 4) { day = 1 } ≡ month_after y m
unfolding add_days
next_month-after y m =
    let large : leb 32 (days_in_month y m) ≡ false = ground (arith, days_in_month-le y m) in
    elim (Bool-cases (eqb m 12)) [
      | inl december ↦ rw (large, december) refl
      | inr other ↦ rw (large, other) refl
    ]

-- `month_window` refuses a month that is not from 1 to 12, and a window outside of the years 1 to 9999. Every other
-- month is given as its first day and the first day of the month after, January after December, with its label.
pub month_window-after :
    (today : Date) (year month : Option ℕ)
    → let y = or_else year today.year in
      let m = or_else month today.month in
      let next = month_after y m in
      month_window today year month ≡ (
        if (leb 1 m && leb m 12) && (leb 1 y && leb next.year 9999)
        then some (record {
          start_date = iso_date (record { year = y; month = m; day = 1 });
          end_date = iso_date next;
          label = month_label (record { year = y; month = m; day = 1 });
        })
        else none)
unfolding month_window
month_window-after today year month =
    let y = or_else year today.year in
    let m = or_else month today.month in ground (arith, next_month-after y m)
