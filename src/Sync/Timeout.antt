-- ===== src/Sync/Timeout.antt =====
-- daemon/sync.c, `abs_wait_timeout`: the point in time up to which a wait loop waits.
use pm_lab_tools.Prelude.{
  ℕ, ◌+◌, ◌-◌, ◌*◌, ◌%◌, ◌^◌, ◌≤◌, ◌<◌, ◌≡◌, arith, dec_lt, ltb, leb, if◌then◌else◌,
}
use pm_lab_tools.Sync.{Outcome, returns, assert, ◌>>◌}

-- `struct timespec`, each field as its 64 bit pattern.
pub record Timespec : Type 0 where
  pub tv_sec : ℕ
  pub tv_nsec : ℕ

abbrev pub time_ms : ℕ
time_ms = 1_000_000

abbrev pub time_s : ℕ
time_s = 1000 * time_ms

abbrev pub wait_timeout : Timespec
wait_timeout = record { tv_sec = 1; tv_nsec = 500 * time_ms }

-- `abs_wait_timeout` on Linux, for what `clock_gettime` has put into `*abs_timeout`. TIME_S is
-- unsigned, so the sums of nanoseconds are taken modulo 2^64.
pub abs_wait_timeout : Timespec → Outcome Timespec
abs_wait_timeout now =
    if leb time_s ((now.tv_nsec + wait_timeout.tv_nsec) % 2 ^ 64)
    then (do
      let tv_nsec = (now.tv_nsec + (wait_timeout.tv_nsec + 2 ^ 64 - time_s) % 2 ^ 64) % 2 ^ 64
      assert (ltb ((tv_nsec + wait_timeout.tv_nsec) % 2 ^ 64) time_s)
      returns
          (record { tv_sec = (now.tv_sec + wait_timeout.tv_sec + 1) % 2 ^ 64; tv_nsec = tv_nsec }))
    else returns (record {
      tv_sec = (now.tv_sec + wait_timeout.tv_sec) % 2 ^ 64;
      tv_nsec = (now.tv_nsec + wait_timeout.tv_nsec) % 2 ^ 64;
    })

-- `abs_wait_timeout` on Mach, for the seconds that `gettimeofday` gives.
pub abs_wait_timeout_mach : ℕ → Timespec
abs_wait_timeout_mach tv_sec = record { tv_sec = (tv_sec + 1) % 2 ^ 64; tv_nsec = 0 }

abbrev pub nanos : Timespec → ℕ
nanos t = t.tv_sec * time_s + t.tv_nsec

-- For a time of day whose nanoseconds make up less than a second, and which is not within two
-- seconds of the end of the range of `time_t`, the assertion holds, the result is one and a half
-- seconds later, and its nanoseconds make up less than a second, as `pthread_cond_timedwait`
-- demands.
pub abs_wait_timeout_lem :
    (now : Timespec)
    → now.tv_nsec < time_s
    → now.tv_sec + 2 < 2 ^ 63
    → (t : Timespec) × (abs_wait_timeout now ≡ returns t)
      × (t.tv_nsec < time_s)
      × (nanos t ≡ nanos now + 1500 * time_ms)
unfolding abs_wait_timeout
abs_wait_timeout_lem now n s = elim (dec_lt now.tv_nsec (500 * time_ms)) [
  | yes early ↦ (
    record { tv_sec = now.tv_sec + 1; tv_nsec = now.tv_nsec + 500 * time_ms },
    ground arith,
    omega arith,
    omega arith,
  )
  | no late ↦ (
    record { tv_sec = now.tv_sec + 2; tv_nsec = now.tv_nsec - 500 * time_ms },
    ground arith,
    omega arith,
    omega arith,
  )
]

-- On Mach the result is later than the time of day, by a second at most.
pub abs_wait_timeout_mach_lem :
    (now : Timespec)
    → now.tv_nsec < time_s
    → now.tv_sec + 2 < 2 ^ 63
    → (nanos now < nanos (abs_wait_timeout_mach now.tv_sec))
      × (nanos (abs_wait_timeout_mach now.tv_sec) ≤ nanos now + time_s)
unfolding abs_wait_timeout_mach
abs_wait_timeout_mach_lem now n s = (omega arith, omega arith)
