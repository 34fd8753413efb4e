-- ===== src/Tests/Endings.antt =====
-- A stop while a client is served, and what a wait prints that times out.
use pm_lab_tools.Prelude.{ℕ, ◌*◌, ◌+◌, ◌≤◌, ◌≡◌, refl, ◌⊎◌, false, List, [], ◌∷◌}
use pm_lab_tools.Sync.{returns}
use pm_lab_tools.Sync.Debug.{behind_wait, timed_out, debug_sets, debug_set, debug_loop}
use pm_lab_tools.System.Memory.Places.{IsCancelled}
use pm_lab_tools.System.{System, HandlerStep, ReaderStep, handler_step, Crash, r_end, go, leaving}
use pm_lab_tools.System.Report.{sheet, Lists, AreInStep, behind_wait-sheet}
use pm_lab_tools.System.Shutdown.{
  UsesSets, Passage, stay, go_on, reader_steps, handler_steps, launches,
}
use pm_lab_tools.System.Shutdown.Ends.{stop-ends}
use pm_lab_tools.Tests.ListSets.{list_sets}
use pm_lab_tools.Tests.Runs.{waiting, stopped}

behind_wait-sheet_example :
    (alive : List ℕ) × (dead : List ℕ) × (active : List ℕ) × (done : List ℕ) × (pending : List ℕ)
    × (behind_wait list_sets "wait_read_barrier (TIMEOUT!)" timed_out waiting.last.sync
        ≡ returns (sheet "wait_read_barrier (TIMEOUT!)" alive dead active done pending))
    × Lists list_sets waiting.last.sync alive dead active done pending
    × AreInStep alive dead active done pending
behind_wait-sheet_example =
    behind_wait-sheet list_sets ℕ "wait_read_barrier (TIMEOUT!)" waiting.reach

printed_while_waiting :
    behind_wait list_sets "wait_read_barrier (TIMEOUT!)" timed_out waiting.last.sync
    ≡ returns (sheet "wait_read_barrier (TIMEOUT!)" (7 ∷ []) [] (7 ∷ []) [] (7 ∷ []))
unfolding waiting behind_wait debug_sets debug_set debug_loop
printed_while_waiting = refl

abbrev Daemon : Type 0
Daemon = System list_sets ℕ

-- The handler that has registered sees the stop.
abbrev off : Daemon
off = go list_sets ℕ 7 leaving stopped.last

abbrev to_leave : Passage list_sets ℕ stopped.last off
unfolding stopped
to_leave = go_on stay (handler_step 7 HandlerStep.loop_off)

stop-ends_example :
    (off.sync.running ≡ false)
    × (reader_steps list_sets ℕ to_leave ≤ 6)
    × (handler_steps list_sets ℕ 7 to_leave ≤ 8 + 8 * launches list_sets ℕ 7 to_leave)
    × ((off.reader ≡ r_end)
        ⊎ (((v : Daemon) × ReaderStep list_sets ℕ off off.reader v) ⊎ Crash list_sets ℕ off))
    × (IsCancelled off.main_thread
        ⊎ ((¬ UsesSets (off.handler 7))
            ⊎ ((v : Daemon) × HandlerStep list_sets ℕ off 7 (off.handler 7) v)))
unfolding stopped
stop-ends_example = stop-ends list_sets ℕ 7 stopped.reach refl to_leave
