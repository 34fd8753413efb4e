-- ===== src/Acquisition.antt =====
-- daemon/daemon.c, `ni_thread_main`: the timestamps of the blocks that it publishes.
pub mod Device
pub mod Dummy
use pm_lab_tools.Prelude.{ℕ, ◌+◌, ◌*◌, ◌/◌, ◌%◌, ◌^◌, ◌≤◌, ◌<◌, ◌≡◌, List, [], ◌∷◌, arith, length}
use native.Mathlib.Nat.{div-add-mod', mod-lt}
use pm_lab_tools.Sync.Timeout.{time_s}

-- `timestamp += TIME_S * points_pc / SAMPLING_RATE`, on `uint64_t`.
unfoldable pub next_timestamp : ℕ → ℕ → ℕ → ℕ
next_timestamp sampling_rate timestamp points_pc =
    (timestamp + time_s * points_pc % 2 ^ 64 / sampling_rate) % 2 ^ 64

-- The timestamp after blocks of so many points per channel, the latest block first.
pub timestamp_after : ℕ → List ℕ → ℕ
timestamp_after sampling_rate [] = 0
timestamp_after sampling_rate (points_pc ∷ earlier) =
    next_timestamp sampling_rate (timestamp_after sampling_rate earlier) points_pc

-- How many points were read for each channel.
abbrev pub points_read : List ℕ → ℕ
points_read [] = 0
points_read (points_pc ∷ earlier) = points_pc + points_read earlier

le-mul : (a b : ℕ) → 0 < b → a ≤ a * b
le-mul a b h = grind arith

-- For a positive sampling rate, and below 2^64 nanoseconds of points, a timestamp is never ahead of
-- the time that the points read so far take at the sampling rate, and behind it by at most a
-- nanosecond for each block.
pub timestamp_after-points_read :
    (sampling_rate : ℕ) (blocks : List ℕ)
    → 0 < sampling_rate
    → time_s * points_read blocks < 2 ^ 64
    → let t = timestamp_after sampling_rate blocks in
      (t * sampling_rate ≤ time_s * points_read blocks)
      × (time_s * points_read blocks ≤ (t + length blocks) * sampling_rate)
unfolding timestamp_after next_timestamp
timestamp_after-points_read rate [] some_there h = (omega arith, omega arith)
timestamp_after-points_read rate (p ∷ earlier) some_there h =
    let (low, high) = timestamp_after-points_read rate earlier some_there (omega arith) in
    let t = timestamp_after rate earlier in
    let fits : time_s * p % 2 ^ 64 ≡ time_s * p = omega arith in
    let q = time_s * p / rate in
    let parts : q * rate + time_s * p % rate ≡ time_s * p = div-add-mod' (time_s * p) rate in
    let less : time_s * p % rate < rate = mod-lt (time_s * p) some_there in
    let grows : t + q ≤ (t + q) * rate = le-mul (t + q) rate some_there in
    let no_wrap : (t + q) % 2 ^ 64 ≡ t + q = omega (arith, parts, less, grows, low) in
    rw (fits, no_wrap)
      (omega (arith, parts, less, low, high), omega (arith, parts, less, low, high))
