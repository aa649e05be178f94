-- ===== src/Timestamp/Calendar.antt =====
-- The date of src/timestamp.rs against the calendar, counted day by day.
use fix_engine.Base.{Bool, if◌then◌else◌, ltb, not, suc, zero, ℕ, ◌%◌, ◌&&◌, ◌+◌, ◌==◌, ◌||◌}
use fix_engine.Timestamp.{Date}

-- The reference: the Gregorian leap years, the months and the day after a day.
unfoldable pub is_leap : ℕ → Bool
is_leap y = y % 4 == 0 && (not (y % 100 == 0) || y % 400 == 0)

unfoldable pub days_in_month : ℕ → ℕ → ℕ
unfolding is_leap
days_in_month y m =
    if m == 2
    then (if is_leap y then 29 else 28)
    else if (m == 4) || (m == 6) || (m == 9) || (m == 11)
    then 30
    else 31

unfoldable pub next_day : Date → Date
unfolding days_in_month
next_day d =
    if ltb d.day (days_in_month d.year d.month)
    then record d { day = d.day + 1 }
    else if ltb d.month 12
    then record d { month = d.month + 1; day = 1 }
    else record { year = d.year + 1; month = 1; day = 1 }

unfoldable pub calendar : ℕ → Date
unfolding next_day
calendar zero = record { year = 1_970; month = 1; day = 1 }
calendar (suc n) = next_day (calendar n)
