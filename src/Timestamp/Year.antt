-- ===== src/Timestamp/Year.antt =====
-- src/timestamp.rs: a day within a year that starts in March, and the day after it.
use fix_engine.Base.{
  Bool-cases, arith, false, if◌then◌else◌, inl, inr, leb, ltb, refl, suc, tables_agree,
  tables_agree_at, ℕ, ◌%◌, ◌*◌, ◌+◌, ◌-◌, ◌/◌, ◌<◌, ◌==◌, ◌||◌, ◌≡◌, ◌≢◌, ◌≤◌,
}
use fix_engine.Timestamp.{Date, year_of_era, month_and_day}
use fix_engine.Timestamp.Calendar.{is_leap, next_day}

-- Days of an era before the year `y`, whose years start in March.
abbrev pub before : ℕ → ℕ
before y = 365 * y + y / 4 - y / 100

-- The last day of the year that starts in March of `y`; it has a leap day when `y + 1` has.
abbrev pub last_day : ℕ → ℕ
last_day y = if is_leap (y + 1) then 365 else 364

-- The year holds the day.
pub year_of_era-low : (doe : ℕ) → doe < 146_097 → before (year_of_era doe) ≤ doe
unfolding year_of_era
year_of_era-low doe h = omega arith

pub year_of_era-high :
    (doe : ℕ) → doe < 146_097 → doe ≤ before (year_of_era doe) + last_day (year_of_era doe)
unfolding year_of_era is_leap
year_of_era-high doe h = ground arith

-- Month and day of a day of the year, on their own.
abbrev month_of : ℕ → ℕ
month_of doy = let mp = (5 * doy + 2) / 153 in if ltb mp 10 then mp + 3 else mp - 9

abbrev day_of : ℕ → ℕ
day_of doy = let mp = (5 * doy + 2) / 153 in doy - (153 * mp + 2) / 5 + 1

-- Within a year that starts in March, one number for the month and the day.
abbrev place : ℕ → ℕ
place doy = month_of doy * 32 + day_of doy

-- The month's length, with a leap day.
abbrev long : ℕ → ℕ
long m = if m == 2 then 29 else if (m == 4) || (m == 6) || (m == 9) || (m == 11) then 30 else 31

abbrev next_place : ℕ → ℕ
next_place doy =
    if ltb (day_of doy) (long (month_of doy))
    then month_of doy * 32 + (day_of doy + 1)
    else month_of doy % 12 * 32 + 33

place-suc : (doy : ℕ) → doy < 365 → place (suc doy) ≡ next_place doy
unfolding tables_agree
place-suc doy h = tables_agree_at (λ d. place (suc d)) next_place 365 doy h refl

place_bounds :
    (doy : ℕ)
    → doy < 366
    → (1 ≤ month_of doy) × (month_of doy ≤ 12) × (1 ≤ day_of doy) × (day_of doy ≤ 31)
place_bounds doy h = ground arith

february : (doy : ℕ) → doy < 366 → month_of doy ≡ 2 → day_of doy + 336 ≡ doy
february doy h m = ground arith

abbrev in_year : ℕ → ℕ → ℕ → Date
in_year y m d = record { year = if leb m 2 then y + 1 else y; month = m; day = d }

month_and_day-in_year : (y doy : ℕ) → month_and_day y doy ≡ in_year y (month_of doy) (day_of doy)
unfolding month_and_day
month_and_day-in_year y doy = refl

-- The same month, or the first of the next, when February 28 of a common year is not passed.
in_year-same :
    (y m d : ℕ)
    → d < long m
    → (m ≡ 2 → d < 28 + (if is_leap (y + 1) then 1 else 0))
    → in_year y m (d + 1) ≡ next_day (in_year y m d)
unfolding next_day
in_year-same y m d h feb = ground arith

in_year-turn :
    (y m d : ℕ)
    → 1 ≤ m
    → m ≤ 12
    → m ≢ 2
    → long m ≤ d
    → in_year y (m % 12 + 1) 1 ≡ next_day (in_year y m d)
unfolding next_day
in_year-turn y m d low high feb h = ground arith

-- One number holds at most one month and day.
place-inj : (m d m' d' : ℕ) → d ≤ 31 → d' ≤ 31 → m * 32 + d ≡ m' * 32 + d' → (m ≡ m') × (d ≡ d')
place-inj m d m' d' h h' e = omega arith

long-high : (m : ℕ) → long m ≤ 31
long-high m = ground arith

-- In February the last day of the month is not passed within the year.
february_short :
    (y doy d : ℕ) → d + 336 ≡ doy → doy < last_day y → d < 28 + (if is_leap (y + 1) then 1 else 0)
february_short y doy d e h = ground arith

february_end :
    (y m d : ℕ)
    → (m ≡ 2 → d < 28 + (if is_leap (y + 1) then 1 else 0))
    → ltb d (long m) ≡ false
    → m ≢ 2
february_end y m d feb turn k = let f = feb k in ground arith

in_year-next :
    (y m d m' d' : ℕ)
    → 1 ≤ m
    → m ≤ 12
    → d ≤ 31
    → d' ≤ 31
    → m' * 32 + d' ≡ (if ltb d (long m) then m * 32 + (d + 1) else m % 12 * 32 + 33)
    → (m ≡ 2 → d < 28 + (if is_leap (y + 1) then 1 else 0))
    → in_year y m' d' ≡ next_day (in_year y m d)
in_year-next y m d m' d' low high h h' e feb = elim (Bool-cases (ltb d (long m))) [
  | inl same ↦
      let at = place-inj m' d' m (d + 1) h' (ground arith) (rw (e, same) refl) in
      rw (at.0, at.1) (in_year-same y m d (ground arith) feb)
  | inr turn ↦
      let at = place-inj m' d' (m % 12 + 1) 1 h' (omega arith) (rw (e, turn) (omega arith)) in
      rw (at.0, at.1) (in_year-turn y m d low high (february_end y m d feb turn) (ground arith))
]

pub month_and_day-next :
    (y doy : ℕ) → doy < last_day y → month_and_day y (suc doy) ≡ next_day (month_and_day y doy)
unfolding is_leap
month_and_day-next y doy h = next (ground arith)
  where
    next : doy < 365 → month_and_day y (suc doy) ≡ next_day (month_and_day y doy)
    next small =
        let at = place_bounds doy (omega arith) in
        let after = place_bounds (suc doy) (omega arith) in
        rw (month_and_day-in_year y (suc doy), month_and_day-in_year y doy)
          (in_year-next y (month_of doy) (day_of doy) (month_of (suc doy)) (day_of (suc doy)) at.0
            at.1 at.3 after.3 (place-suc doy small)
            (λ k. february_short y doy (day_of doy) (february doy (omega arith) k) h))

pub month_and_day-last : (y : ℕ) → month_and_day (y + 1) 0 ≡ next_day (month_and_day y (last_day y))
unfolding month_and_day next_day
month_and_day-last y = ground arith
