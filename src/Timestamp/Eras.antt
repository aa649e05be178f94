-- ===== src/Timestamp/Eras.antt =====
-- src/timestamp.rs: the date within an era of 400 years, and the date of any day.
use fix_engine.Base.{
  Bool-cases, arith, false, inl, inr, ltb, refl, suc, zero, ℕ, ◌%◌, ◌*◌, ◌+◌, ◌-◌, ◌/◌, ◌<◌, ◌≡◌,
  ◌⊎◌,
}
use fix_engine.Timestamp.{Date, year_of_era, day_of_year, month_and_day, civil_from_days}
use fix_engine.Timestamp.Calendar.{is_leap, next_day, calendar}
use fix_engine.Timestamp.Year.{
  before, last_day, year_of_era-low, year_of_era-high, month_and_day-next, month_and_day-last,
}

is_leap-period : (y era : ℕ) → is_leap (y + era * 400 + 1) ≡ is_leap (y + 1)
unfolding is_leap
is_leap-period y era = ground arith

year_of_era-suc :
    (doe : ℕ)
    → suc doe < 146_097
    → doe < before (year_of_era doe) + last_day (year_of_era doe)
    → year_of_era (suc doe) ≡ year_of_era doe
unfolding year_of_era is_leap
year_of_era-suc doe h k = ground arith

year_of_era-turn :
    (doe : ℕ)
    → suc doe < 146_097
    → doe ≡ before (year_of_era doe) + last_day (year_of_era doe)
    → (year_of_era (suc doe) ≡ year_of_era doe + 1) × (before (year_of_era doe + 1) ≡ suc doe)
unfolding year_of_era is_leap
year_of_era-turn doe h k = ground arith

-- A date from its era and the day in it.
abbrev in_era : ℕ → ℕ → Date
in_era era doe = let yoe = year_of_era doe in month_and_day (yoe + era * 400) (day_of_year doe yoe)

inside :
    (doe : ℕ)
    → doe < 146_097
    → ltb doe (before (year_of_era doe) + last_day (year_of_era doe)) ≡ false
    → doe ≡ before (year_of_era doe) + last_day (year_of_era doe)
inside doe h k = let high = year_of_era-high doe h in ground arith

last_day-period : (y era : ℕ) → last_day (y + era * 400) ≡ last_day y
last_day-period y era = rw (is_leap-period y era) refl

in_era-at :
    (era doe y doy : ℕ)
    → year_of_era doe ≡ y
    → doe - before y ≡ doy
    → in_era era doe ≡ month_and_day (y + era * 400) doy
unfolding day_of_year
in_era-at era doe y doy ey ed = rw (ey, ed) refl

in_era-suc : (era doe : ℕ) → suc doe < 146_097 → in_era era (suc doe) ≡ next_day (in_era era doe)
in_era-suc era doe h =
    let y = year_of_era doe in
    let low = year_of_era-low doe (omega arith) in
    let here = in_era-at era doe y (doe - before y) refl refl in
    elim (Bool-cases (ltb doe (before y + last_day y))) [
      | inl k ↦
          let short : doe - before y < last_day (y + era * 400) =
            rw (last_day-period y era) (ground arith) in
          rw
            (
              here,
              in_era-at era (suc doe) y (suc (doe - before y))
                  (year_of_era-suc doe h (ground arith)) (omega arith),
            )
            (month_and_day-next (y + era * 400) (doe - before y) short)
      | inr k ↦
          let end = inside doe (omega arith) k in
          let at = year_of_era-turn doe h end in
          let next_year : y + 1 + era * 400 ≡ y + era * 400 + 1 = omega arith in
          let last : doe - before y ≡ last_day (y + era * 400) =
            rw (last_day-period y era) (omega arith) in
          rw (here, in_era-at era (suc doe) (y + 1) 0 at.0 (omega arith), next_year, last)
            (month_and_day-last (y + era * 400))
    ]

in_era-turn : (era : ℕ) → in_era (suc era) 0 ≡ next_day (in_era era 146_096)
unfolding year_of_era is_leap
in_era-turn era =
    let leap : last_day (399 + era * 400) ≡ 365 = rw (last_day-period 399 era) refl in
    let e : 0 + suc era * 400 ≡ 399 + era * 400 + 1 = omega arith in
    rw (in_era-at (suc era) 0 0 0 refl refl, in_era-at era 146_096 399 365 refl refl, e)
      (rw (month_and_day-last (399 + era * 400), leap) refl)

civil_from_days-in_era :
    (days : ℕ)
    → civil_from_days days ≡ in_era ((days + 719_468) / 146_097) ((days + 719_468) % 146_097)
unfolding civil_from_days
civil_from_days-in_era days =
    let e : days + 719_468 - (days + 719_468) / 146_097 * 146_097 ≡ (days + 719_468) % 146_097 =
      omega arith in
    rw e refl

-- In the next day's era and day of the era, the day moves on or the era does.
era-suc :
    (z : ℕ)
    → (suc z / 146_097 ≡ z / 146_097)
        × (suc z % 146_097 ≡ suc (z % 146_097))
        × (suc (z % 146_097) < 146_097)
      ⊎ (suc z / 146_097 ≡ suc (z / 146_097)) × (suc z % 146_097 ≡ 0) × (z % 146_097 ≡ 146_096)
era-suc z = elim (Bool-cases (ltb (suc (z % 146_097)) 146_097)) [
  | inl k ↦ let h : suc (z % 146_097) < 146_097 = ground arith in inl (omega arith, omega arith, h)
  | inr k ↦ let h : z % 146_097 ≡ 146_096 = ground arith in inr (omega arith, omega arith, h)
]

civil_from_days-suc : (days : ℕ) → civil_from_days (suc days) ≡ next_day (civil_from_days days)
civil_from_days-suc days =
    let shift : suc days + 719_468 ≡ suc (days + 719_468) = omega arith in
    rw (civil_from_days-in_era (suc days), civil_from_days-in_era days, shift)
      (elim (era-suc (days + 719_468)) [
        | inl (e, d, h) ↦
            rw (e, d) (in_era-suc ((days + 719_468) / 146_097) ((days + 719_468) % 146_097) h)
        | inr (e, d, h) ↦ rw (e, d, h) (in_era-turn ((days + 719_468) / 146_097))
      ])

civil_from_days-start : civil_from_days 0 ≡ calendar 0
unfolding civil_from_days year_of_era day_of_year month_and_day calendar
civil_from_days-start = refl

-- The date computed for a number of days since 1970-01-01 is the one that counting the days from
-- there reaches.
pub civil_from_days-calendar : (days : ℕ) → civil_from_days days ≡ calendar days
unfolding calendar
civil_from_days-calendar zero = civil_from_days-start
civil_from_days-calendar (suc days) =
    rw (civil_from_days-suc days, civil_from_days-calendar days) refl
