-- ===== src/Timestamp/Tests.antt =====
-- Runs of src/timestamp.rs at concrete instants.
use fix_engine.Base.{arith, codes, length, refl, ℕ, ◌*◌, ◌+◌, ◌/◌, ◌<◌, ◌^◌, ◌≡◌, ◌≤◌}
use fix_engine.Timestamp.{
  to_fix_timestamp_us, tsc_to_nanos, system, HrTimestamp, to_fix_timestamp, to_fix_timestamp_ns,
  civil_from_days, to_utc_components,
}
use fix_engine.Timestamp.Calendar.{calendar}
use fix_engine.Timestamp.Eras.{civil_from_days-calendar}
use fix_engine.Timestamp.Instants.{
  separators, read_print, to_fix_timestamp-read, Names, to_utc_components-Names,
}

-- A leap day.
abbrev leap_day : HrTimestamp
leap_day = record { nanos = 1_709_210_096_123_456_789; source = system }

printed : to_fix_timestamp_ns leap_day ≡ codes "20240229-12:34:56.123456789"
unfolding to_fix_timestamp_ns
printed = refl

printed_ms : to_fix_timestamp leap_day ≡ codes "20240229-12:34:56.123"
unfolding to_fix_timestamp
printed_ms = refl

civil_from_days-calendar_example : civil_from_days 19_782 ≡ calendar 19_782
civil_from_days-calendar_example = civil_from_days-calendar 19_782

to_utc_components-Names_example :
    (days : ℕ) × Names (to_utc_components leap_day) days 1_709_210_096_123_456_789
to_utc_components-Names_example = to_utc_components-Names leap_day

leap_day_fits : (to_utc_components leap_day).date.year ≤ 9_999
unfolding to_utc_components
leap_day_fits = omega arith

ascends :
    (tsc_to_nanos 500 3_000_000_000 ≤ tsc_to_nanos 3_500 3_000_000_000)
    × (tsc_to_nanos 3_500 3_000_000_000 ≤ tsc_to_nanos 9_500 3_000_000_000)
    × (1_700_000_000_000_000_000 + tsc_to_nanos 9_500 3_000_000_000 < 2 ^ 64)
unfolding tsc_to_nanos
ascends = (omega arith, omega arith, omega arith)

to_fix_timestamp-read_example :
    (length (to_fix_timestamp leap_day) ≡ 21)
    × (length (to_fix_timestamp_us leap_day) ≡ 24)
    × (length (to_fix_timestamp_ns leap_day) ≡ 27)
    × (separators (to_fix_timestamp leap_day) ≡ codes "-::.")
    × (separators (to_fix_timestamp_us leap_day) ≡ codes "-::.")
    × (separators (to_fix_timestamp_ns leap_day) ≡ codes "-::.")
    × (read_print 1_000_000 (to_fix_timestamp leap_day) ≡ record (to_utc_components leap_day) {
      nanos_frac = (to_utc_components leap_day).nanos_frac / 1_000_000 * 1_000_000;
    })
    × (read_print 1_000 (to_fix_timestamp_us leap_day) ≡ record (to_utc_components leap_day) {
      nanos_frac = (to_utc_components leap_day).nanos_frac / 1_000 * 1_000;
    })
    × (read_print 1 (to_fix_timestamp_ns leap_day) ≡ to_utc_components leap_day)
to_fix_timestamp-read_example = to_fix_timestamp-read leap_day leap_day_fits
