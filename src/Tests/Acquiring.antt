-- ===== src/Tests/Acquiring.antt =====
-- Two blocks at a sampling rate that does not divide a second, and a device whose second read fails.
use pm_lab_tools.Prelude.{◌+◌, ◌*◌, ◌≤◌, ◌≡◌, refl, true, List, [], ◌∷◌, arith, length}
use pm_lab_tools.Prelude.Int.{pos, negsuc}
use pm_lab_tools.Sync.Timeout.{time_s}
use pm_lab_tools.Acquisition.{next_timestamp}
use pm_lab_tools.Acquisition.Device.{
  create_task, create_channel, configure_timing, start_task, read_samples, error_info, stop_task,
  clear_task, Round, Acquired, init_ni, read_ni, finish_ni, acquire, ni_thread_main,
}
use pm_lab_tools.Acquisition.Device.Calls.{ni_thread_main-calls}
use pm_lab_tools.Acquisition.Device.Timestamps.{ni_thread_main-timestamps}

after_a_second : next_timestamp 18_000 0 18_000 ≡ 1_000_000_000
unfolding next_timestamp
after_a_second = refl

abbrev failing : List Round
failing =
    record { on = true; still_on = true; code = pos 0; points_pc = 18_000 }
    ∷ record { on = true; still_on = true; code = negsuc 7; points_pc = 0 }
    ∷ []

abbrev failed_read : Acquired
failed_read = ni_thread_main 18_000 (pos 0) (pos 0) (pos 0) (pos 0) failing

abbrev no_channel : Acquired
no_channel = ni_thread_main 18_000 (pos 0) (negsuc 3) (pos 0) (pos 0) failing

failed_read_calls :
    failed_read.dai.calls
    ≡ clear_task ∷ stop_task ∷ error_info ∷ read_samples ∷ read_samples ∷ start_task
      ∷ configure_timing ∷ create_channel ∷ create_task ∷ []
unfolding ni_thread_main init_ni acquire read_ni finish_ni next_timestamp
failed_read_calls = refl

failed_read_published : failed_read.published ≡ (1_000_000_000, 18_000) ∷ []
unfolding ni_thread_main init_ni acquire read_ni finish_ni next_timestamp
failed_read_published = refl

no_channel_calls :
    no_channel.dai.calls ≡ clear_task ∷ stop_task ∷ error_info ∷ create_channel ∷ create_task ∷ []
unfolding ni_thread_main init_ni acquire read_ni finish_ni
no_channel_calls = refl

ni_thread_main-calls_example :
    (failed_read.dai.calls
      ≡ clear_task ∷ stop_task ∷ error_info ∷ read_samples ∷ read_samples ∷ start_task
        ∷ configure_timing ∷ create_channel ∷ create_task ∷ [])
    × (length failed_read.published ≡ 1)
unfolding ni_thread_main init_ni acquire read_ni finish_ni
ni_thread_main-calls_example = ni_thread_main-calls 18_000 (pos 0) (pos 0) (pos 0) (pos 0) failing

ni_thread_main-timestamps_example :
    (1_000_000_000 * 18_000 ≤ time_s * 18_000) × (time_s * 18_000 ≤ (1_000_000_000 + 1) * 18_000)
unfolding ni_thread_main init_ni acquire read_ni finish_ni next_timestamp
ni_thread_main-timestamps_example =
    ni_thread_main-timestamps 18_000 (pos 0) (pos 0) (pos 0) (pos 0) failing 0
      (1_000_000_000, 18_000) (omega arith) refl (omega arith)
