-- ===== src/System/Wakeups.antt =====
-- daemon/sync.c: the broadcasts that wake the threads in its three wait loops.
mod Calls
pub use Calls.{Loop, read_barrier, data_available, dead_handler, cond_of, turn, Broadcasts, Owes}
use Calls.{set_ready-turn, dec-turn, collect-turn, inc-turn, read-turn, notify-turn}
use pm_lab_tools.Prelude.{
  ℕ, true, ==_refl, ◌≡◌, refl, ap, ◌∙◌, Option-cases, inl, inr, List, [], ◌∷◌, ◌++◌, arith,
}
use pm_lab_tools.Sync.Handles.{Handle}
use pm_lab_tools.Sync.Sets.{PblSets}
use pm_lab_tools.Sync.{
  sig_hnd, Sync, Cond, Wait, cond_read, cond_data, cond_dead_handler, wait_again, leave_loop,
  returns, read_barrier_turn, data_available_turn, dead_handler_turn, set_ready,
  dec_available_handlers, inc_available_handlers, reset_ready_handlers, notify_data_available,
  notify_read_barrier, dead_handler_exit,
}
use pm_lab_tools.System.{
  System, Step, ReaderStep, HandlerStep, CollectorStep, MainStep, ReaderPc, HandlerPc, CollectorPc,
  MainPc, r_notify, inc_notify, ready_notify, dec_notify, reader_step, handler_step, collector_step,
  main_step, signal,
}

module _ (lib : PblSets) (Block : Type 0) where
  -- The loop is woken: its variable has been broadcast, or the next step of the reading thread or of
  -- a handler is to broadcast it.
  pub data IsWoken (w : Loop) (s u : System lib Block) : Type 0 where
    broadcast_made : Broadcasts lib (cond_of w) s.sync u.sync → IsWoken w s u
    reader_next :
        (v : System lib Block)
        → u.reader ≡ r_notify
        → ReaderStep lib Block u r_notify v
        → Broadcasts lib (cond_of w) u.sync v.sync
        → IsWoken w s u
    handler_next :
        (t : ℕ) (pc : HandlerPc) (v : System lib Block)
        → u.handler t ≡ pc
        → HandlerStep lib Block u t pc v
        → Broadcasts lib (cond_of w) u.sync v.sync
        → IsWoken w s u

  -- What is owed to the reading thread comes in the next step of the handler.
  owed :
      (w : Loop) (s u : System lib Block) (t : ℕ) (pc : HandlerPc) (v : System lib Block)
      → Owes lib w s.sync u.sync
      → u.handler t ≡ pc
      → HandlerStep lib Block u t pc v
      → v.sync ≡ notify_read_barrier lib u.sync
      → IsWoken w s u
  unfolding notify_read_barrier
  owed read_barrier s u t pc v o at st same =
      handler_next t pc v at st ([], [], ap (λ x. x.sent) same)
  owed (data_available k) s u t pc v o at st same = broadcast_made o
  owed dead_handler s u t pc v o at st same = broadcast_made o

  reset-turn :
      (w : Loop) (s : System lib Block)
      → let u : System lib Block = record s {
        reader = r_notify;
        sync = reset_ready_handlers lib s.sync;
      } in
        turn lib w s.sync ≡ wait_again → turn lib w u.sync ≡ leave_loop → IsWoken w s u
  unfolding reset_ready_handlers notify_data_available read_barrier_turn dead_handler_turn
  reset-turn read_barrier s waits leaves = broadcast_made ([], [], refl)
  reset-turn (data_available t) s waits leaves = reader_next _ refl ReaderStep.notify ([], [], refl)
  reset-turn dead_handler s waits leaves = absurd (ground arith)

  reader-wakes :
      (w : Loop) (s : System lib Block) {pc : ReaderPc} {u : System lib Block}
      → ReaderStep lib Block s pc u
      → u.sync.running ≡ true
      → turn lib w s.sync ≡ wait_again
      → turn lib w u.sync ≡ leave_loop
      → IsWoken w s u
  unfolding sig_hnd
  reader-wakes w s ReaderStep.reset on waits leaves = reset-turn w s waits leaves
  reader-wakes w s ReaderStep.notify on waits leaves =
      absurd (notify-turn lib w s.sync waits leaves)
  reader-wakes w s ReaderStep.read_failed on waits leaves = absurd (ground arith)
  reader-wakes w s _ on waits leaves = absurd (ground (arith, waits, leaves))

  handler-wakes :
      (w : Loop) (s : System lib Block) (t : ℕ) {pc : HandlerPc} {u : System lib Block}
      → HandlerStep lib Block s t pc u
      → turn lib w s.sync ≡ wait_again
      → turn lib w u.sync ≡ leave_loop
      → IsWoken w s u
  handler-wakes w s t (HandlerStep.register addr new) waits leaves =
      owed w s _ t inc_notify _ (inc-turn lib w addr t s.sync waits leaves) (rw (==_refl t) refl)
        HandlerStep.inc_notified refl
  handler-wakes w s t (HandlerStep.report {sync'} e) waits leaves =
      owed w s _ t ready_notify _ (set_ready-turn lib w t s.sync sync' e waits leaves)
        (rw (==_refl t) refl) HandlerStep.ready_notified refl
  handler-wakes w s t (HandlerStep.leave {sync'} e) waits leaves =
      owed w s _ t dec_notify _ (dec-turn lib w t s.sync sync' e waits leaves) (rw (==_refl t) refl)
        HandlerStep.dec_notified refl
  handler-wakes w s t HandlerStep.inc_notified waits leaves =
      absurd (read-turn lib w s.sync waits leaves)
  handler-wakes w s t HandlerStep.ready_notified waits leaves =
      absurd (read-turn lib w s.sync waits leaves)
  handler-wakes w s t HandlerStep.dec_notified waits leaves =
      absurd (read-turn lib w s.sync waits leaves)
  handler-wakes w s t _ waits leaves = absurd (ground (arith, waits, leaves))

  collector-wakes :
      (w : Loop) (s : System lib Block) {pc : CollectorPc} {u : System lib Block}
      → CollectorStep lib Block s pc u
      → turn lib w s.sync ≡ wait_again
      → turn lib w u.sync ≡ leave_loop
      → ⊥
  collector-wakes w s (CollectorStep.collect {h} {sync'} there e) waits leaves =
      collect-turn lib w s.sync sync' h there e waits leaves
  collector-wakes w s _ waits leaves = ground (arith, waits, leaves)

  main-wakes :
      (w : Loop) (s : System lib Block) {pc : MainPc} {u : System lib Block}
      → MainStep lib Block s pc u
      → turn lib w s.sync ≡ wait_again
      → turn lib w u.sync ≡ leave_loop
      → ⊥
  main-wakes w s (MainStep.launch t new) waits leaves = ground (arith, waits, leaves)
  main-wakes w s _ waits leaves = ground (arith, waits, leaves)

  -- Where a step of the daemon, which runs on behind it, ends the wait of a loop of daemon/sync.c (the
  -- loop has to wait before the step, and may go on after it), the step has broadcast the variable
  -- that the loop waits for, or the reading thread or a handler broadcasts it in its next step: no
  -- change of the sets comes behind the broadcast that is to tell of it.
  pub Step-wakes :
      (w : Loop) (s u : System lib Block)
      → Step lib Block s u
      → u.sync.running ≡ true
      → turn lib w s.sync ≡ wait_again
      → turn lib w u.sync ≡ leave_loop
      → IsWoken w s u
  unfolding sig_hnd
  Step-wakes w s u (reader_step st) on waits leaves = reader-wakes w s st on waits leaves
  Step-wakes w s u (handler_step t st) on waits leaves = handler-wakes w s t st waits leaves
  Step-wakes w s u (collector_step st) on waits leaves =
      absurd (collector-wakes w s st waits leaves)
  Step-wakes w s u (main_step st) on waits leaves = absurd (main-wakes w s st waits leaves)
  Step-wakes w s _ signal on waits leaves = absurd (ground arith)
