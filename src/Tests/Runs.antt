-- ===== src/Tests/Runs.antt =====
-- Reachable states of the daemon, a step at a time: one client, one block of samples.
use pm_lab_tools.Prelude.{ℕ, refl}
use pm_lab_tools.Sync.{
  notify_read_barrier, read_barrier_turn, read_barrier_exit, data_available_turn,
  data_available_exit, init_sync, inc_available_handlers, reset_ready_handlers,
  notify_data_available, set_ready, sig_hnd,
}
use pm_lab_tools.System.{
  System, ReaderStep, HandlerStep, MainStep, Reach, init, start, next, reader_step, handler_step,
  main_step, signal,
}
use pm_lab_tools.Tests.ListSets.{list_sets}

abbrev Daemon : Type 0
Daemon = System list_sets ℕ

pub record Run : Type 0 where
  pub last : Daemon
  pub reach : Reach list_sets ℕ last

abbrev reader : (r : Run) {u : Daemon} → ReaderStep list_sets ℕ r.last r.last.reader u → Run
reader r {u} st = record { last = u; reach = next r.reach (reader_step st) }

abbrev pub handler :
    (r : Run) (t : ℕ) {u : Daemon} → HandlerStep list_sets ℕ r.last t (r.last.handler t) u → Run
handler r t {u} st = record { last = u; reach = next r.reach (handler_step t st) }

abbrev pub main : (r : Run) {u : Daemon} → MainStep list_sets ℕ r.last r.last.main_thread u → Run
main r {u} st = record { last = u; reach = next r.reach (main_step st) }

-- A client has connected, and the reading thread has passed the empty barrier.
unfoldable pub registered : Run
unfolding init init_sync inc_available_handlers notify_read_barrier read_barrier_turn
    read_barrier_exit
registered =
    let r₀ : Run = record { last = _; reach = start } in
    let r₁ = main r₀ (MainStep.launch 7 refl) in
    let r₂ = handler r₁ 7 HandlerStep.accept in
    let r₃ = handler r₂ 7 (HandlerStep.register 100 refl) in
    let r₄ = handler r₃ 7 HandlerStep.inc_notified in handler r₄ 7 HandlerStep.welcomed

-- The first block is published, and its round has begun.
unfoldable pub published : Run
unfolding registered reset_ready_handlers notify_data_available
published =
    let r₁ = reader registered (ReaderStep.loop_on refl) in
    let r₂ = reader r₁ (ReaderStep.barrier_open refl refl) in
    let r₃ = reader r₂ (ReaderStep.check_on refl) in
    let r₄ = reader r₃ (ReaderStep.read_ok 41) in
    let r₅ = reader r₄ (ReaderStep.publish 41 refl) in
    let r₆ = reader r₅ ReaderStep.reset in reader r₆ ReaderStep.notify

-- The reading thread waits for the handler.
unfoldable pub waiting : Run
unfolding published
waiting = reader published (ReaderStep.loop_on refl)

-- Ctrl+C while it does.
unfoldable pub stopped : Run
unfolding waiting sig_hnd
stopped = record { last = _; reach = next waiting.reach signal }

-- Ctrl+C when the handler has seen that the daemon runs: the reading thread leaves its loop.
unfoldable pub too_late : Run
unfolding published data_available_turn data_available_exit sig_hnd
too_late =
    let r₁ = handler published 7 (HandlerStep.loop_on refl) in
    let r₂ = handler r₁ 7 (HandlerStep.data_there refl refl) in
    let r₃ = handler r₂ 7 (HandlerStep.check_on refl) in
    let r₄ : Run = record { last = _; reach = next r₃.reach signal } in
    let r₅ = reader r₄ (ReaderStep.loop_off refl) in reader r₅ ReaderStep.free_arrays

-- The handler has copied the block.
unfoldable pub copied : Run
unfolding waiting data_available_turn data_available_exit
copied =
    let r₁ = handler waiting 7 (HandlerStep.loop_on refl) in
    let r₂ = handler r₁ 7 (HandlerStep.data_there refl refl) in
    let r₃ = handler r₂ 7 (HandlerStep.check_on refl) in handler r₃ 7 (HandlerStep.copy 41 refl)

-- It has reported, and woken the reading thread.
unfoldable pub reported : Run
unfolding copied set_ready
reported = handler copied 7 (HandlerStep.report refl)

unfoldable pub served : Run
unfolding reported notify_read_barrier
served = handler reported 7 HandlerStep.ready_notified

-- The reading thread reads the next block.
unfoldable pub reading : Run
unfolding served read_barrier_turn read_barrier_exit
reading =
    let r₁ = reader served (ReaderStep.barrier_open refl refl) in
    reader r₁ (ReaderStep.check_on refl)
