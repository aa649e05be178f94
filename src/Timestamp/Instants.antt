-- ===== src/Timestamp/Instants.antt =====
-- src/timestamp.rs: the instant that calendar fields name, and reading a print back.
use fix_engine.Timestamp.Order.{calendar-injective, calendar-IsDate, days_in_month-bounds}
use fix_engine.Base.{
  Bytes, ap, arith, codes, drop, length, refl, sym, take, value, ℕ, ◌*◌, ◌++◌, ◌+◌, ◌/◌, ◌<◌, ◌∙◌,
  ◌≡◌, ◌≤◌,
}
use fix_engine.Timestamp.{
  digits3, digits6, digits9, HrTimestamp, UtcComponents, date_bytes, digits2, digits4, stamped,
  time_bytes, to_utc_components, civil_from_days, to_fix_timestamp_ns, to_fix_timestamp,
  to_fix_timestamp_us, digits3, digits6,
}
use fix_engine.Timestamp.Calendar.{calendar}
use fix_engine.Timestamp.Eras.{civil_from_days-calendar}
use fix_engine.Timestamp.Prints.{
  digits2-Prints, digits4-Prints, digits9-Prints, digits3-Prints, digits6-Prints,
}

-- The fields `c` name the instant `nanos`, on the day `days` of the calendar.
abbrev pub Names : UtcComponents → ℕ → ℕ → Type 0
Names c days nanos =
    (c.date ≡ calendar days)
    × (c.hour < 24)
    × (c.minute < 60)
    × (c.second < 60)
    × (c.nanos_frac < 1_000_000_000)
    × (nanos
        ≡ (((days * 24 + c.hour) * 60 + c.minute) * 60 + c.second) * 1_000_000_000 + c.nanos_frac)

-- The fields computed for an instant name it: a date that counting the days from 1970-01-01
-- reaches, an hour, a minute and a second of the day and a fraction of the second, that sum up to
-- the instant.
pub to_utc_components-Names :
    (t : HrTimestamp) → (days : ℕ) × Names (to_utc_components t) days t.nanos
unfolding to_utc_components
to_utc_components-Names t =
    let days = t.nanos / 1_000_000_000 / 86_400 in
    let names : Names (to_utc_components t) days t.nanos = (
      civil_from_days-calendar days,
      omega arith,
      omega arith,
      omega arith,
      omega arith,
      omega arith,
    ) in
    (days, names)

-- The fields determine the day, and with it the instant.
Names-injective : (c : UtcComponents) (m n a b : ℕ) → Names c m a → Names c n b → a ≡ b
Names-injective c m n a b h k =
    let e : m ≡ n = calendar-injective m n (sym h.0 ∙ k.0) in
    let h' : Names c n a = rw (sym e) h in omega (arith, h', k)

-- Two instants with the same calendar fields are the same number of nanoseconds.
pub to_utc_components-injective :
    (t u : HrTimestamp) → to_utc_components t ≡ to_utc_components u → t.nanos ≡ u.nanos
to_utc_components-injective t u e =
    let at = to_utc_components-Names t in
    let bt = to_utc_components-Names u in
    Names-injective (to_utc_components t) at.0 bt.0 t.nanos u.nanos at.1 (rw e bt.1)

-- What a reader of a print takes for the fields; `unit` is what the last digit counts.
unfoldable pub read_print : ℕ → Bytes → UtcComponents
read_print unit p = record {
  date = record {
    year = value 0 (take 4 p);
    month = value 0 (take 2 (drop 4 p));
    day = value 0 (take 2 (drop 6 p));
  };
  hour = value 0 (take 2 (drop 9 p));
  minute = value 0 (take 2 (drop 12 p));
  second = value 0 (take 2 (drop 15 p));
  nanos_frac = value 0 (drop 18 p) * unit;
}

-- The bytes between the numbers.
unfoldable pub separators : Bytes → Bytes
separators p = take 1 (drop 8 p) ++ take 1 (drop 11 p) ++ take 1 (drop 14 p) ++ take 1 (drop 17 p)

stamped-read :
    (c : UtcComponents) (fraction : Bytes) (unit : ℕ)
    → c.date.year ≤ 9_999
    → c.date.month < 100
    → c.date.day < 100
    → c.hour < 100
    → c.minute < 100
    → c.second < 100
    → read_print unit (stamped c fraction) ≡ record c { nanos_frac = value 0 fraction * unit }
unfolding read_print stamped date_bytes time_bytes digits2 digits4
stamped-read c fraction unit y mo d h mi s =
    rw
      (
        (digits4-Prints c.date.year (omega arith)).2,
        (digits2-Prints c.date.month mo).2,
        (digits2-Prints c.date.day d).2,
        (digits2-Prints c.hour h).2,
        (digits2-Prints c.minute mi).2,
        (digits2-Prints c.second s).2,
      )
      refl

-- A date of the calendar has two digits for its month and for its day.
date_fits : (days : ℕ) → (civil_from_days days).month < 100 × (civil_from_days days).day < 100
date_fits days =
    let d = calendar days in
    let h = calendar-IsDate days in
    let b = days_in_month-bounds d.year d.month in
    rw (civil_from_days-calendar days) (omega (arith, h, b), omega (arith, h, b))

-- The prints with their fractions, for a width and the nanoseconds that the last digit counts.
read_stamped :
    (t : HrTimestamp) (fraction : Bytes) (unit n : ℕ)
    → (to_utc_components t).date.year ≤ 9_999
    → value 0 fraction ≡ n
    → read_print unit (stamped (to_utc_components t) fraction)
      ≡ record (to_utc_components t) { nanos_frac = n * unit }
unfolding to_utc_components
read_stamped t fraction unit n year e =
    let days = t.nanos / 1_000_000_000 / 86_400 in
    let fits = date_fits days in
    rw
      (
        stamped-read (to_utc_components t) fraction unit year fits.0 fits.1 (omega arith)
            (omega arith) (omega arith),
        e,
      )
      refl

frac_fits : (t : HrTimestamp) → (to_utc_components t).nanos_frac < 1_000_000_000
unfolding to_utc_components
frac_fits t = omega arith

-- A print is 18 bytes and its fraction, with `-`, two `:` and `.` between the numbers.
stamped-shape :
    (c : UtcComponents) (fraction : Bytes)
    → (length (stamped c fraction) ≡ 18 + length fraction)
      × (separators (stamped c fraction) ≡ codes "-::.")
unfolding separators stamped date_bytes time_bytes digits2 digits4
stamped-shape c fraction = (omega arith, refl)

-- For an instant before the year 10000, the prints with milliseconds, microseconds and nanoseconds
-- have 21, 24 and 27 bytes, with `-`, two `:` and `.` between the numbers, and a reader finds in
-- them the fields of the instant, the fraction cut to the unit.
pub to_fix_timestamp-read :
    (t : HrTimestamp)
    → (to_utc_components t).date.year ≤ 9_999
    → let c = to_utc_components t in
      (length (to_fix_timestamp t) ≡ 21)
      × (length (to_fix_timestamp_us t) ≡ 24)
      × (length (to_fix_timestamp_ns t) ≡ 27)
      × (separators (to_fix_timestamp t) ≡ codes "-::.")
      × (separators (to_fix_timestamp_us t) ≡ codes "-::.")
      × (separators (to_fix_timestamp_ns t) ≡ codes "-::.")
      × (read_print 1_000_000 (to_fix_timestamp t)
          ≡ record c { nanos_frac = c.nanos_frac / 1_000_000 * 1_000_000 })
      × (read_print 1_000 (to_fix_timestamp_us t)
          ≡ record c { nanos_frac = c.nanos_frac / 1_000 * 1_000 })
      × (read_print 1 (to_fix_timestamp_ns t) ≡ c)
unfolding to_fix_timestamp to_fix_timestamp_us to_fix_timestamp_ns
to_fix_timestamp-read t year =
    let c = to_utc_components t in
    let fits = frac_fits t in
    let ms = digits3-Prints (c.nanos_frac / 1_000_000) (omega arith) in
    let us = digits6-Prints (c.nanos_frac / 1_000) (omega arith) in
    let ns = digits9-Prints c.nanos_frac fits in
    let shape = stamped-shape c in
    (
      (shape (digits3 (c.nanos_frac / 1_000_000))).0 ∙ ap (λ n. 18 + n) ms.0,
      (shape (digits6 (c.nanos_frac / 1_000))).0 ∙ ap (λ n. 18 + n) us.0,
      (shape (digits9 c.nanos_frac)).0 ∙ ap (λ n. 18 + n) ns.0,
      (shape (digits3 (c.nanos_frac / 1_000_000))).1,
      (shape (digits6 (c.nanos_frac / 1_000))).1,
      (shape (digits9 c.nanos_frac)).1,
      read_stamped t (digits3 (c.nanos_frac / 1_000_000)) 1_000_000 (c.nanos_frac / 1_000_000) year
          ms.2,
      read_stamped t (digits6 (c.nanos_frac / 1_000)) 1_000 (c.nanos_frac / 1_000) year us.2,
      read_stamped t (digits9 c.nanos_frac) 1 c.nanos_frac year ns.2
          ∙ ap (λ n. record c { nanos_frac = n }) one,
    )
  where
    one : (to_utc_components t).nanos_frac * 1 ≡ (to_utc_components t).nanos_frac
    one = omega arith

-- Two instants before the year 10000 with the same print in nanoseconds are the same number of
-- nanoseconds.
to_fix_timestamp_ns-injective :
    (t u : HrTimestamp)
    → (to_utc_components t).date.year ≤ 9_999
    → (to_utc_components u).date.year ≤ 9_999
    → to_fix_timestamp_ns t ≡ to_fix_timestamp_ns u
    → t.nanos ≡ u.nanos
to_fix_timestamp_ns-injective t u yt yu e =
    to_utc_components-injective t u
      (sym (to_fix_timestamp-read t yt).8 ∙ (ap (read_print 1) e ∙ (to_fix_timestamp-read u yu).8))
