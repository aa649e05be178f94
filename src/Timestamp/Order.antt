-- ===== src/Timestamp/Order.antt =====
-- src/timestamp.rs: dates that a calendar has, and their order.
use fix_engine.Base.{Bool-cases, arith, inl, inr, ltb, refl, suc, zero, ℕ, ◌*◌, ◌+◌, ◌<◌, ◌≡◌, ◌≤◌}
use fix_engine.Timestamp.{Date}
use fix_engine.Timestamp.Calendar.{is_leap, next_day, days_in_month, calendar}

abbrev pub IsDate : Date → Type 0
IsDate d = (1 ≤ d.month) × (d.month ≤ 12) × (1 ≤ d.day) × (d.day ≤ days_in_month d.year d.month)

pub days_in_month-bounds : (y m : ℕ) → (28 ≤ days_in_month y m) × (days_in_month y m ≤ 31)
unfolding days_in_month
days_in_month-bounds y m = (ground arith, ground arith)

next_day-IsDate : (d : Date) → IsDate d → IsDate (next_day d)
unfolding next_day days_in_month is_leap
next_day-IsDate d h = ground arith

pub calendar-IsDate : (n : ℕ) → IsDate (calendar n)
unfolding calendar days_in_month
calendar-IsDate zero = (omega arith, omega arith, omega arith, omega arith)
calendar-IsDate (suc n) = next_day-IsDate (calendar n) (calendar-IsDate n)

-- A number that orders the dates.
abbrev rank : Date → ℕ
rank d = (d.year * 12 + d.month) * 32 + d.day

rank-next_day : (d : Date) → IsDate d → rank d < rank (next_day d)
unfolding next_day
rank-next_day d h = let b = days_in_month-bounds d.year d.month in ground arith

between : {a b c : ℕ} → a < b → b < c → a < c
between h k = omega arith

calendar-later : (m n : ℕ) → m < n → rank (calendar m) < rank (calendar n)
unfolding calendar
calendar-later m zero h = omega arith
calendar-later m (suc n) h =
    let next = rank-next_day (calendar n) (calendar-IsDate n) in
    elim (Bool-cases (ltb m n)) [
      | inl k ↦ between (calendar-later m n (ground arith)) next
      | inr k ↦ let e : m ≡ n = ground arith in rw e next
    ]

-- Two numbers of days with one date are equal.
pub calendar-injective : (m n : ℕ) → calendar m ≡ calendar n → m ≡ n
calendar-injective m n e = elim (Bool-cases (ltb m n)) [
  | inl k ↦
      let r : rank (calendar m) ≡ rank (calendar n) = rw e refl in
      omega (arith, r, calendar-later m n (ground arith))
  | inr k ↦ elim (Bool-cases (ltb n m)) [
    | inl l ↦
        let r : rank (calendar m) ≡ rank (calendar n) = rw e refl in
        omega (arith, r, calendar-later n m (ground arith))
    | inr l ↦ ground arith
  ]
]
