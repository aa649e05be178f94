-- ===== src/Session/Rate.antt =====
-- The rate limit of src/session.rs over a run of calls.
use fix_engine.Base.{
  All, List, [], arith, if◌then◌else◌, leb, length, ℕ, ◌+◌, ◌-◌, ◌<◌, ◌^◌, ◌∷◌, ◌≡◌,
}
use Prim.Native.Nat.{min}
use fix_engine.Session.{Session, from_secs, check_rate_limit}

-- How many of the calls, one at each clock reading, are allowed.
pub allowed : Session → List ℕ → ℕ
allowed s [] = 0
allowed s (now ∷ rest) =
    let later = allowed (check_rate_limit s now).0 rest in
    if (check_rate_limit s now).1 then later + 1 else later

within_window :
    (s : Session) (now : ℕ)
    → now - s.window_start < from_secs 1
    → s.msg_count_window + 1 < 2 ^ 32
    → check_rate_limit s now ≡ (
      record s { msg_count_window = s.msg_count_window + 1 },
      leb (s.msg_count_window + 1) s.config.max_msg_rate,
    )
unfolding check_rate_limit
within_window s now h fits = ground arith

-- Within one window, when the counter does not wrap, exactly the first calls are allowed: as many
-- as the configured rate leaves room for behind those already counted.
pub allowed-eq-min :
    (nows : List ℕ) (s : Session)
    → All (λ now. now - s.window_start < from_secs 1) nows
    → s.msg_count_window + length nows < 2 ^ 32
    → allowed s nows ≡ min (length nows) (s.config.max_msg_rate - s.msg_count_window)
unfolding allowed
allowed-eq-min [] s h fits = omega arith
allowed-eq-min (now ∷ rest) s (h, hs) fits =
    let ih =
      allowed-eq-min rest (record s { msg_count_window = s.msg_count_window + 1 }) hs
        (omega arith) in
    rw (within_window s now h (omega arith)) (ground arith)
