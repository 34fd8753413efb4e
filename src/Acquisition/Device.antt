-- ===== src/Acquisition/Device.antt =====
-- daemon/daemon.c, `init_ni`, `read_ni`, `finish_ni` and `ni_thread_main`, as they are built for the
-- device (WITH_NI). The functions of NI-DAQmx are calls that answer with an `int32`, which is an error
-- if it is negative; what they did is the list of calls made so far, the latest first.
pub mod Calls
pub mod Timestamps
use pm_lab_tools.Prelude.{
  ℕ, Bool, true, false, Option, none, some, List, [], ◌∷◌, if◌then◌else◌, ◌&&◌,
}
use pm_lab_tools.Prelude.Int.{ℤ, pos, negsuc}
use pm_lab_tools.Acquisition.{next_timestamp}

pub data Call : Type 0 where
  create_task create_channel configure_timing start_task : Call
  read_samples : Call
  error_info stop_task clear_task : Call

-- `data_acq_info_t`, with `*opaque_error` and the calls.
pub record DataAcqInfo : Type 0 where
  pub failed : Bool
  pub error : ℤ
  pub calls : List Call

-- `DAQmxFailed`
abbrev pub is_failed : ℤ → Bool
is_failed (pos n) = false
is_failed (negsuc n) = true

-- `CHK`: a call of `init_ni`, which goes to `err` if it fails.
abbrev pub chk : Call → ℤ → DataAcqInfo → (DataAcqInfo → DataAcqInfo) → DataAcqInfo
chk call code dai next =
    if is_failed code
    then record { failed = true; error = code; calls = call ∷ dai.calls }
    else next (record { failed = dai.failed; error = code; calls = call ∷ dai.calls })

-- `init_ni`, with the answers of its four calls; `*opaque_error` is set by the first.
unfoldable pub init_ni : ℤ → ℤ → ℤ → ℤ → DataAcqInfo
init_ni created channel timing started =
    chk create_task created (record { failed = false; error = pos 0; calls = [] })
      λ dai₁.
        chk create_channel channel dai₁
          λ dai₂. chk configure_timing timing dai₂ λ dai₃. chk start_task started dai₃ λ dai₄. dai₄

-- `read_ni`, with the answer of its call and the number of points read: that number, or none for EIO.
unfoldable pub read_ni : ℤ → ℕ → DataAcqInfo → Option ℕ × DataAcqInfo
read_ni code points_pc dai =
    if dai.failed
    then (none, dai)
    else if is_failed code
    then (none, record { failed = true; error = code; calls = read_samples ∷ dai.calls })
    else (
      some points_pc,
      record { failed = dai.failed; error = code; calls = read_samples ∷ dai.calls },
    )

-- `finish_ni`
unfoldable pub finish_ni : DataAcqInfo → DataAcqInfo
finish_ni dai = record dai {
  calls =
      clear_task ∷ stop_task ∷ (if is_failed dai.error then error_info ∷ dai.calls else dai.calls);
}

-- One round of the loop: `running` at its test and behind the barrier, and what the read answers.
pub record Round : Type 0 where
  pub on : Bool
  pub still_on : Bool
  pub code : ℤ
  pub points_pc : ℕ

-- The end of the loop: the blocks published, each as its timestamp and its points per channel, the
-- oldest first, and whether a failed read has cleared `running`.
pub record Acquired : Type 0 where
  pub dai : DataAcqInfo
  pub published : List (ℕ × ℕ)
  pub stops : Bool

-- The loop of `ni_thread_main`; the daemon is stopped when the rounds are used up.
unfoldable pub acquire : ℕ → List Round → ℕ → DataAcqInfo → Acquired
acquire sampling_rate [] timestamp dai = record { dai = dai; published = []; stops = false }
acquire sampling_rate (round ∷ rest) timestamp dai =
    if round.on && round.still_on
    then (let read = read_ni round.code round.points_pc dai in
        elim read.0 [
          | none ↦ record { dai = read.1; published = []; stops = true }
          | some points_pc ↦
              let later = next_timestamp sampling_rate timestamp points_pc in
              let more = acquire sampling_rate rest later read.1 in
              record {
                dai = more.dai;
                published = (later, points_pc) ∷ more.published;
                stops = more.stops;
              }
        ])
    else record { dai = dai; published = []; stops = false }

-- `ni_thread_main`
unfoldable pub ni_thread_main : ℕ → ℤ → ℤ → ℤ → ℤ → List Round → Acquired
ni_thread_main sampling_rate created channel timing started rounds =
    let end = acquire sampling_rate rounds 0 (init_ni created channel timing started) in
    record { dai = finish_ni end.dai; published = end.published; stops = end.stops }
