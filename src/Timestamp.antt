-- ===== src/Timestamp.antt =====
-- src/timestamp.rs: nanoseconds since 1970 to calendar fields, and their FIX prints; the readings
-- of a clock. What a clock or the counter of the processor shows is an argument.
pub mod Calendar
pub mod Year
pub mod Eras
pub mod Order
pub mod Prints
pub mod Clocks
pub mod Instants
pub mod Tests
use fix_engine.Base.{
  Bool, Bytes, [], false, if◌then◌else◌, leb, ltb, true, ℕ, ◌%◌, ◌*◌, ◌++◌, ◌+◌, ◌-◌, ◌/◌, ◌==◌,
  ◌^◌, ◌∷◌,
}

pub data TimestampSource : Type 0 where
  system tsc hardware ptp : TimestampSource

pub record HrTimestamp : Type 0 where
  pub nanos : ℕ
  pub source : TimestampSource

-- `saturating_sub` stops at zero.
unfoldable pub elapsed_ns : HrTimestamp → HrTimestamp → ℕ
elapsed_ns t since = t.nanos - since.nanos

-- What `SystemTime::now()` and the counter show.
pub record Readings : Type 0 where
  pub wall_nanos : ℕ
  pub ticks : ℕ

abbrev pub is_tsc : TimestampSource → Bool
is_tsc tsc = true
is_tsc _ = false

-- `HrTimestamp::now`.
unfoldable pub reading : TimestampSource → Readings → HrTimestamp
reading source r = record {
  nanos = if is_tsc source then r.ticks else r.wall_nanos % 2 ^ 64;
  source = source;
}

unfoldable pub tsc_to_nanos : ℕ → ℕ → ℕ
tsc_to_nanos ticks freq_hz = if freq_hz == 0 then 0 else ticks * 1_000_000_000 / freq_hz % 2 ^ 64

pub record HrClock : Type 0 where
  pub source : TimestampSource
  pub tsc_frequency_hz : ℕ
  pub tsc_offset : ℕ

-- `HrClock::new`, with the calibrated frequency; the subtraction wraps.
unfoldable pub new_clock : TimestampSource → ℕ → Readings → HrClock
unfolding tsc_to_nanos
new_clock source freq r =
    if is_tsc source
    then record {
      source = source;
      tsc_frequency_hz = freq;
      tsc_offset = (r.wall_nanos % 2 ^ 64 + 2 ^ 64 - tsc_to_nanos r.ticks freq) % 2 ^ 64;
    }
    else record { source = source; tsc_frequency_hz = 0; tsc_offset = 0 }

-- `HrClock::now`.
unfoldable pub now : HrClock → Readings → HrTimestamp
unfolding tsc_to_nanos reading
now c r =
    if is_tsc c.source
    then record {
      nanos = (tsc_to_nanos r.ticks c.tsc_frequency_hz + c.tsc_offset) % 2 ^ 64;
      source = tsc;
    }
    else reading c.source r

-- The end of `calibrate_tsc`, from the counter before and after and the time between.
unfoldable pub calibrated : ℕ → ℕ → ℕ → ℕ
calibrated tsc0 tsc1 elapsed_ns =
    if elapsed_ns == 0
    then 1_000_000_000
    else (tsc1 + 2 ^ 64 - tsc0) % 2 ^ 64 * 1_000_000_000 / elapsed_ns % 2 ^ 64

pub record LatencyTracker : Type 0 where
  pub start : HrTimestamp
  pub clock : HrClock

unfoldable pub start_tracker : HrClock → Readings → LatencyTracker
unfolding now
start_tracker clock r = record { start = now clock r; clock = clock }

unfoldable pub stop : LatencyTracker → Readings → ℕ
unfolding elapsed_ns now
stop l r = elapsed_ns (now l.clock r) l.start

pub record Date : Type 0 where
  pub year : ℕ
  pub month : ℕ
  pub day : ℕ

-- The lines of `civil_from_days`, from `doe` on.
pub year_of_era : ℕ → ℕ
year_of_era doe = (doe - doe / 1_460 + doe / 36_524 - doe / 146_096) / 365

pub day_of_year : ℕ → ℕ → ℕ
day_of_year doe yoe = doe - (365 * yoe + yoe / 4 - yoe / 100)

-- The year starts in March.
pub month_and_day : ℕ → ℕ → Date
month_and_day y doy =
    let mp = (5 * doy + 2) / 153 in
    let d = doy - (153 * mp + 2) / 5 + 1 in
    let m = if ltb mp 10 then mp + 3 else mp - 9 in
    record { year = if leb m 2 then y + 1 else y; month = m; day = d }

-- `civil_from_days` on the days since 1970-01-01. Its argument is signed; the only call passes a
-- number of days that is not negative, for which `era` is `z / 146097`.
unfoldable pub civil_from_days : ℕ → Date
unfolding year_of_era day_of_year month_and_day
civil_from_days days =
    let z = days + 719_468 in
    let era = z / 146_097 in
    let doe = z - era * 146_097 in
    let yoe = year_of_era doe in month_and_day (yoe + era * 400) (day_of_year doe yoe)

pub record UtcComponents : Type 0 where
  pub date : Date
  pub hour : ℕ
  pub minute : ℕ
  pub second : ℕ
  pub nanos_frac : ℕ

-- The casts to `u32` lose nothing, since the year is below 2 ^ 32.
unfoldable pub to_utc_components : HrTimestamp → UtcComponents
unfolding civil_from_days
to_utc_components t =
    let secs = t.nanos / 1_000_000_000 in
    let day_secs = secs % 86_400 in
    record {
      date = civil_from_days (secs / 86_400);
      hour = day_secs / 3_600;
      minute = day_secs % 3_600 / 60;
      second = day_secs % 60;
      nanos_frac = t.nanos % 1_000_000_000;
    }

-- `b'0' + n as u8`, which wraps at a byte.
abbrev pub digit : ℕ → ℕ
digit n = (b'0' + n % 256) % 256

unfoldable pub digits2 : ℕ → Bytes
digits2 v = digit (v / 10) ∷ digit (v % 10) ∷ []

unfoldable pub digits3 : ℕ → Bytes
digits3 v = digit (v / 100) ∷ digit (v / 10 % 10) ∷ digit (v % 10) ∷ []

unfoldable pub digits4 : ℕ → Bytes
digits4 v = digit (v / 1_000) ∷ digit (v / 100 % 10) ∷ digit (v / 10 % 10) ∷ digit (v % 10) ∷ []

unfoldable pub digits6 : ℕ → Bytes
digits6 v =
    digit (v / 100_000)
    ∷ digit (v / 10_000 % 10)
    ∷ digit (v / 1_000 % 10)
    ∷ digit (v / 100 % 10)
    ∷ digit (v / 10 % 10)
    ∷ digit (v % 10)
    ∷ []

unfoldable pub digits9 : ℕ → Bytes
digits9 v =
    digit (v / 100_000_000)
    ∷ digit (v / 10_000_000 % 10)
    ∷ digit (v / 1_000_000 % 10)
    ∷ digit (v / 100_000 % 10)
    ∷ digit (v / 10_000 % 10)
    ∷ digit (v / 1_000 % 10)
    ∷ digit (v / 100 % 10)
    ∷ digit (v / 10 % 10)
    ∷ digit (v % 10)
    ∷ []

-- The bytes of the buffer, which the writers fill one behind another.
unfoldable pub date_bytes : Date → Bytes
unfolding digits4 digits2
date_bytes d = digits4 d.year ++ (digits2 d.month ++ digits2 d.day)

unfoldable pub time_bytes : ℕ → ℕ → ℕ → Bytes
unfolding digits2
time_bytes h m s = digits2 h ++ (b':' ∷ (digits2 m ++ (b':' ∷ digits2 s)))

-- `YYYYMMDD-HH:MM:SS.` and what stands behind it.
unfoldable pub stamped : UtcComponents → Bytes → Bytes
unfolding date_bytes time_bytes
stamped c fraction =
    date_bytes c.date ++ (b'-' ∷ (time_bytes c.hour c.minute c.second ++ (b'.' ∷ fraction)))

unfoldable pub to_fix_timestamp : HrTimestamp → Bytes
unfolding stamped to_utc_components digits3
to_fix_timestamp t = let c = to_utc_components t in stamped c (digits3 (c.nanos_frac / 1_000_000))

unfoldable pub to_fix_timestamp_us : HrTimestamp → Bytes
unfolding stamped to_utc_components digits6
to_fix_timestamp_us t = let c = to_utc_components t in stamped c (digits6 (c.nanos_frac / 1_000))

unfoldable pub to_fix_timestamp_ns : HrTimestamp → Bytes
unfolding stamped to_utc_components digits9
to_fix_timestamp_ns t = let c = to_utc_components t in stamped c (digits9 c.nanos_frac)
