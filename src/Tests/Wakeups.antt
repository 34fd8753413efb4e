-- ===== src/Tests/Wakeups.antt =====
-- The last handler of a round wakes the reading thread.
use pm_lab_tools.Prelude.{ℕ, refl}
use pm_lab_tools.Sync.{set_ready, read_barrier_turn}
use pm_lab_tools.System.{HandlerStep, handler_step}
use pm_lab_tools.System.Wakeups.{IsWoken, read_barrier, Step-wakes}
use pm_lab_tools.Tests.ListSets.{list_sets}
use pm_lab_tools.Tests.Runs.{copied, reported}

Step-wakes_example : IsWoken list_sets ℕ read_barrier copied.last reported.last
unfolding copied reported set_ready read_barrier_turn
Step-wakes_example =
    Step-wakes list_sets ℕ read_barrier copied.last reported.last
      (handler_step 7 (HandlerStep.report refl)) refl refl refl
