-- ===== src/Tests/Rounds.antt =====
-- A round: the client copies a block while the reading thread waits, and reports.
use pm_lab_tools.Prelude.{ℕ, ◌+◌, ◌*◌, ◌≤◌, ◌≡◌, refl, ◌⊎◌, false, is_some}
use pm_lab_tools.Sync.{data_available_turn, data_available_exit, set_ready, read_barrier_turn}
use pm_lab_tools.System.Memory.Places.{IsCancelled}
use pm_lab_tools.System.{System, ReaderStep, HandlerStep, reader_step, handler_step}
use pm_lab_tools.System.Shutdown.{UsesSets, Passage, stay, go_on}
use pm_lab_tools.System.Rounds.{pending_steps, rounds}
use pm_lab_tools.System.Rounds.Ends.{round-ends}
use pm_lab_tools.Tests.ListSets.{list_sets}
use pm_lab_tools.Tests.Runs.{waiting}

abbrev Daemon : Type 0
Daemon = System list_sets ℕ

record Way : Type 0 where
  last : Daemon
  path : Passage list_sets ℕ waiting.last last

abbrev handler :
    (w : Way) {u : Daemon} → HandlerStep list_sets ℕ w.last 7 (w.last.handler 7) u → Way
handler w {u} st = record { last = u; path = go_on w.path (handler_step 7 st) }

abbrev reader : (w : Way) {u : Daemon} → ReaderStep list_sets ℕ w.last w.last.reader u → Way
reader w {u} st = record { last = u; path = go_on w.path (reader_step st) }

unfoldable round : Way
unfolding waiting data_available_turn data_available_exit set_ready read_barrier_turn
round =
    let w₀ : Way = record { last = waiting.last; path = stay } in
    let w₁ = handler w₀ (HandlerStep.loop_on refl) in
    let w₂ = reader w₁ (ReaderStep.barrier_wait refl) in
    let w₃ = handler w₂ (HandlerStep.data_there refl refl) in
    let w₄ = handler w₃ (HandlerStep.check_on refl) in
    let w₅ = handler w₄ (HandlerStep.copy 41 refl) in handler w₅ (HandlerStep.report refl)

steps_of_round : pending_steps list_sets ℕ 7 round.path ≡ 5
unfolding round waiting
steps_of_round = refl

round-ends_example :
    (pending_steps list_sets ℕ 7 round.path ≤ 7 + 7 * rounds list_sets ℕ round.path)
    × (IsCancelled round.last.main_thread
        ⊎ ((is_some (list_sets.get_element round.last.sync.pending_set 7) ≡ false)
            ⊎ ((¬ UsesSets (round.last.handler 7))
                ⊎ ((v : Daemon) × HandlerStep list_sets ℕ round.last 7 (round.last.handler 7) v))))
round-ends_example = round-ends list_sets ℕ 7 waiting.reach round.path
