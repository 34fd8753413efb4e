-- ===== src/Acquisition/Dummy.antt =====
-- daemon/daemon.c, `read_dummy` and `read_ni` as they are built without the device. The table of recorded
-- samples is a parameter; the wait for the next second is left out.
use pm_lab_tools.Prelude.{
  ℕ, zero, suc, ◌*◌, ◌/◌, ◌%◌, ◌^◌, ◌<◌, ◌≡◌, refl, sym, ap, ◌∙◌, Bool, true, false, Option, none,
  some, List, [], ◌∷◌, ◌++◌, append-nil, arith, leb, ◌==◌, if◌then◌else◌, length, drop, replicate,
}
use pm_lab_tools.Sync.{Outcome, returns, assert, ◌>>◌}
use pm_lab_tools.Sync.Timeout.{time_s}
use pm_lab_tools.Acquisition.{next_timestamp, timestamp_after}

-- `DAQmx_Val_GroupByChannel`
abbrev pub group_by_channel : ℕ
group_by_channel = 0

-- `BUFFER_SAMPLES_PER_CHANNEL` for each of the eight channels.
abbrev pub data_size : ℕ
data_size = 30_000 * 8

drop-whole {ℓ} : {A : Type ℓ} (xs : List A) → drop (length xs) xs ≡ []
drop-whole [] = refl
drop-whole (x ∷ xs) = drop-whole xs

module _ {Double : Type 0} (test_analog_data : List Double) where
  -- `read_dummy`: the points for each channel, and the buffer, into which the table is copied.
  unfoldable pub read_dummy : Bool → ℕ → ℕ → List Double → ℕ → Outcome (ℕ × List Double)
  read_dummy no_handle sampling_rate format buffer size =
      assert no_handle
      >> (assert (30_000 == sampling_rate)
          >> (assert (group_by_channel == format)
              >> (assert (leb (length test_analog_data) size)
                  >> returns (
                    length test_analog_data / 8 % 2 ^ 32,
                    test_analog_data ++ drop (length test_analog_data) buffer,
                  ))))

  -- `read_ni`; none stands for EIO.
  unfoldable pub read_ni_dummy : Bool → ℕ → List Double → Outcome (Option (ℕ × List Double))
  read_ni_dummy failed sampling_rate buffer =
      if failed
      then returns none
      else elim (read_dummy true sampling_rate group_by_channel buffer data_size) [
        | returns read ↦ returns (some read)
        | Outcome.aborts ↦ Outcome.aborts
      ]

  -- With the sampling rate that build.sh sets, and a table of a second, no assertion fails, and the
  -- buffer holds the table.
  pub read_ni_dummy-second :
      (buffer : List Double)
      → length test_analog_data ≡ data_size
      → length buffer ≡ data_size
      → read_ni_dummy false 30_000 buffer ≡ returns (some (30_000, test_analog_data))
  unfolding read_ni_dummy read_dummy
  read_ni_dummy-second buffer size whole =
      let rest : drop (length test_analog_data) buffer ≡ [] =
        ap (λ n. drop n buffer) (size ∙ sym whole) ∙ drop-whole buffer in
      rw (rest, append-nil test_analog_data, size) refl

-- The timestamps are then whole seconds, up to the range of 64 bits.
pub timestamp_after-seconds :
    (blocks : ℕ)
    → time_s * (blocks * 30_000) < 2 ^ 64
    → timestamp_after 30_000 (replicate blocks 30_000) ≡ blocks * time_s
unfolding timestamp_after next_timestamp
timestamp_after-seconds zero h = omega arith
timestamp_after-seconds (suc blocks) h =
    let earlier = timestamp_after-seconds blocks (omega arith) in rw earlier (omega arith)
