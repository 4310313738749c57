-- ===== src/Monthly/Calendar.antt =====
-- `month_window` and `fmt_duration` of cli/monthly_invoices.py.
pub mod Windows
use invoices_codex.Prelude.{
  ℕ, String, ◌+◌, ◌-◌, ◌/◌, ◌%◌, Bool, ◌&&◌, ◌||◌, not, Option, none, some, leb, ltb, eqb, joined,
  if◌then◌else◌,
}
use invoices_codex.Prelude.Decimal.{decimal}

-- A date that has its day within the month.
pub record Date : Type 0 where
  pub year : ℕ
  pub month : ℕ
  pub day : ℕ

abbrev pub is_leap : ℕ → Bool
is_leap y = eqb (y % 4) 0 && (not (eqb (y % 100) 0) || eqb (y % 400) 0)

unfoldable pub days_in_month : ℕ → ℕ → ℕ
days_in_month y m =
    if eqb m 2
    then (if is_leap y then 29 else 28)
    else if eqb m 4 || (eqb m 6 || (eqb m 9 || eqb m 11))
    then 30
    else 31

-- The first day of the month after.
abbrev pub month_after : ℕ → ℕ → Date
month_after y m =
    if eqb m 12
    then record { year = y + 1; month = 1; day = 1 }
    else record { year = y; month = m + 1; day = 1 }

-- `d + timedelta(days=n)`, of no more days than a month has.
unfoldable pub add_days : Date → ℕ → Date
add_days d n =
    if leb (d.day + n) (days_in_month d.year d.month)
    then record d { day = d.day + n }
    else record (month_after d.year d.month) { day = d.day + n - days_in_month d.year d.month }

-- `f"{n:02d}"`
abbrev pub two_digits : ℕ → String
two_digits n = if ltb n 10 then joined "0" (decimal n) else decimal n

-- `strftime("%Y-%m-%d")` and `strftime("%m_%Y")`, of a year of four digits
unfoldable pub iso_date : Date → String
iso_date d =
    joined (decimal d.year)
      (joined "-" (joined (two_digits d.month) (joined "-" (two_digits d.day))))

unfoldable pub month_label : Date → String
month_label d = joined (two_digits d.month) (joined "_" (decimal d.year))

pub record Window : Type 0 where
  pub start_date : String
  pub end_date : String
  pub label : String

-- `value or default`
abbrev pub or_else : Option ℕ → ℕ → ℕ
or_else none default = default
or_else (some n) default = if eqb n 0 then default else n

-- `none` is the ValueError, of this function or of `dt.date`.
unfoldable pub month_window : Date → Option ℕ → Option ℕ → Option Window
month_window today year month =
    let y = or_else year today.year in
    let m = or_else month today.month in
    let first : Date = record { year = y; month = m; day = 1 } in
    let next_month = record (add_days (record first { day = 28 }) 4) { day = 1 } in
    if ltb m 1 || ltb 12 m
    then none
    else if ltb y 1 || ltb 9999 next_month.year
    then none
    else some (record {
      start_date = iso_date first;
      end_date = iso_date next_month;
      label = month_label first;
    })

-- `total` is `max(0, int(seconds))`.
unfoldable pub fmt_duration : ℕ → String
fmt_duration total =
    let h = total / 3600 in
    let m = total % 3600 / 60 in
    let s = total % 60 in
    joined (two_digits h)
      (joined "h:" (joined (two_digits m) (joined "m:" (joined (two_digits s) "s"))))
