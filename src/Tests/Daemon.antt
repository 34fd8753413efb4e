-- ===== src/Tests/Daemon.antt =====
-- The theorems on the threads of the daemon, at the runs with one client.
use pm_lab_tools.Prelude.{
  ℕ, false, ◌↔◌, ◌&&◌, ◌||◌, ◌≡◌, refl, ◌≢◌, inl, some, none, [], ◌∷◌, arith, is_some,
}
use pm_lab_tools.Sync.Handles.{Handle}
use pm_lab_tools.Sync.Phase.{Phases, Shows, cell}
use pm_lab_tools.Sync.{leave_loop, read_barrier_turn, data_available_turn}
use pm_lab_tools.System.{Crash, ReadsFreed, at_copy, copying, r_wait}
use pm_lab_tools.System.Delivery.Blocks.{IsSegment, latest}
use pm_lab_tools.System.Delivery.{copied-IsSegment, done-latest}
use pm_lab_tools.System.View.{view-IsContr}
use pm_lab_tools.System.Safety.{no_race, sets_partition, Crash-iff, barrier_waits_for, IsAtWork}
use pm_lab_tools.Tests.ListSets.{list_sets}
use pm_lab_tools.Tests.Runs.{waiting, stopped, served, reading, too_late}

abbrev client : Handle
client = record { addr = 100; thread = 7 }

no_race_example : reading.last.handler 7 ≢ copying
unfolding reading
no_race_example = no_race list_sets ℕ reading.reach (inl refl) 7

sets_partition_example :
    let c = cell list_sets served.last.sync 7 in
    ((is_some c.in_done || is_some c.in_pending) ≡ is_some c.in_active)
    × ((is_some c.in_done && is_some c.in_pending) ≡ false)
    × ((is_some c.in_active && is_some c.in_alive) ≡ is_some c.in_active)
    × ((is_some c.in_alive && is_some c.in_dead) ≡ false)
sets_partition_example = sets_partition list_sets ℕ served.reach 7

Crash-iff_example : Crash list_sets ℕ stopped.last ↔ (
    (stopped.last.reader ≡ r_wait)
    × (stopped.last.sync.running ≡ false)
    × (list_sets.size stopped.last.sync.pending_set ≢ 0))
Crash-iff_example = Crash-iff list_sets ℕ stopped.reach

-- The daemon that is stopped in its first wait with a client pending runs into the assertion.
stopped_crashes : Crash list_sets ℕ stopped.last
unfolding stopped
stopped_crashes = Crash-iff_example.1 (refl, refl, λ e. ground arith)

barrier_waits_for_example :
    (t : ℕ) × (h : Handle) × (list_sets.get_element waiting.last.sync.pending_set t ≡ some h)
    × (data_available_turn list_sets t waiting.last.sync ≡ leave_loop)
    × IsAtWork (waiting.last.handler t)
unfolding waiting read_barrier_turn
barrier_waits_for_example = barrier_waits_for list_sets ℕ waiting.reach refl

copied-IsSegment_example : IsSegment served.last.published (served.last.copied 7)
copied-IsSegment_example = copied-IsSegment list_sets ℕ served.reach 7

-- Behind Ctrl+C the reading thread frees the arrays, while the handler is about to copy from them.
freed_while_copying : ReadsFreed list_sets ℕ too_late.last
unfolding too_late
freed_while_copying = at_copy 7 refl refl refl

copied_by_client : served.last.copied 7 ≡ 41 ∷ []
unfolding served
copied_by_client = refl

done-latest_example :
    (latest (served.last.copied 7) ≡ latest served.last.published)
    × (latest (served.last.copied 7) ≢ none)
unfolding served
done-latest_example = done-latest list_sets ℕ served.reach 7 client refl (λ e. ground arith)

view-IsContr_example :
    (view : (ph : Phases) × Shows list_sets served.last.sync ph) × ((other : (ph : Phases) × Shows
          list_sets served.last.sync ph)
      → view ≡ other)
view-IsContr_example = view-IsContr list_sets ℕ served.reach
