-- ===== src/Timestamp/Clocks.antt =====
-- src/timestamp.rs: the clock on the counter of the processor and the latency tracker.
use fix_engine.Base.{arith, refl, ℕ, ◌%◌, ◌+◌, ◌-◌, ◌<◌, ◌^◌, ◌∙◌, ◌≡◌, ◌≤◌}
use fix_engine.Timestamp.{
  Readings, new_clock, now, tsc_to_nanos, start_tracker, stop, elapsed_ns, tsc, HrTimestamp,
}

tsc_to_nanos-below : (ticks freq : ℕ) → tsc_to_nanos ticks freq < 2 ^ 64
unfolding tsc_to_nanos
tsc_to_nanos-below ticks freq = ground arith

offset_cancels :
    (wall a b : ℕ)
    → a ≤ b
    → b < 2 ^ 64
    → (b + (wall % 2 ^ 64 + 2 ^ 64 - a) % 2 ^ 64) % 2 ^ 64 ≡ (wall + (b - a)) % 2 ^ 64
offset_cancels wall a b h k = omega arith

-- A clock on the counter shows the wall time of its creation plus the time that the counter went on,
-- as long as the counter's time does not fall.
pub new_clock-now :
    (freq : ℕ) (at later : Readings)
    → tsc_to_nanos at.ticks freq ≤ tsc_to_nanos later.ticks freq
    → (now (new_clock tsc freq at) later).nanos
      ≡ (at.wall_nanos + (tsc_to_nanos later.ticks freq - tsc_to_nanos at.ticks freq)) % 2 ^ 64
unfolding new_clock now
new_clock-now freq at later h =
    offset_cancels at.wall_nanos (tsc_to_nanos at.ticks freq) (tsc_to_nanos later.ticks freq) h
      (tsc_to_nanos-below later.ticks freq)

elapsed :
    (t since : HrTimestamp) (a b : ℕ) → t.nanos ≡ a → since.nanos ≡ b → elapsed_ns t since ≡ a - b
unfolding elapsed_ns
elapsed t since a b e f = rw (e, f) refl

-- On a clock that was created before it, a latency tracker reports the time that the counter went on
-- between its start and its stop, as long as the counter's time does not fall and the wall time
-- stays below 2 ^ 64 nanoseconds.
stop-elapsed :
    (freq : ℕ) (at begin end : Readings)
    → tsc_to_nanos at.ticks freq ≤ tsc_to_nanos begin.ticks freq
    → tsc_to_nanos begin.ticks freq ≤ tsc_to_nanos end.ticks freq
    → at.wall_nanos + tsc_to_nanos end.ticks freq < 2 ^ 64
    → stop (start_tracker (new_clock tsc freq at) begin) end
      ≡ tsc_to_nanos end.ticks freq - tsc_to_nanos begin.ticks freq
unfolding stop start_tracker
stop-elapsed freq at begin end h k small =
    let first = new_clock-now freq at begin h in
    let last = new_clock-now freq at end (omega arith) in
    elapsed (now (new_clock tsc freq at) end) (now (new_clock tsc freq at) begin) _ _ last first
    ∙ (omega arith)
