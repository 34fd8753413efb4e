-- ===== src/System/Steps.antt =====
-- Every step of the daemon keeps the invariant. Beside the state go the phases of the handlers:
-- how a step moves them is the abstract view of the step.
mod Reader
mod Handler
mod Collector
use pm_lab_tools.Prelude.{
  ℕ, Bool, true, false, ◌≡◌, refl, sym, ◌≢◌, ◌⊎◌, inl, inr, Option, none, some, arith, ◌==◌,
  if◌then◌else◌,
}
use pm_lab_tools.Sync.Handles.{Handle}
use pm_lab_tools.Sync.Sets.{PblSets}
use pm_lab_tools.Sync.Phase.{
  Phase, Phases, absent, idle, pending, finished, dead, update, renew, complete, bury, registered,
  holding_up, Shows,
}
use pm_lab_tools.Sync.Refine.{
  init_sync-Shows, inc-Shows, reset-Shows, set_ready-Shows, dec-Shows, dead_handler_exit-Shows,
  pending-empty_iff, after_ready, after_dec, after_collect,
}
use pm_lab_tools.Sync.{
  Sync, Outcome, returns, inc_available_handlers, read_barrier_exit, set_ready,
  dec_available_handlers, dead_handler_exit, dead_handler_turn, reset_ready_handlers,
  data_available_turn, data_available_exit, leave_loop, notify_data_available,
}
use pm_lab_tools.System.{
  System, ReaderPc, HandlerPc, CollectorPc, MainPc, ReaderStep, HandlerStep, CollectorStep,
  MainStep, Step, Reach, init, start, next, reader_step, handler_step, collector_step, main_step,
  signal, unborn, handshake, refused, registering, welcome, h_test, h_wait, h_check, copying, ready,
  leaving, ending, ended, c_join, c_wait,
}
use pm_lab_tools.System.Invariant.{
  Fits, Quiet, Collecting, Inv, Fits-renew, Collecting-renew, sig_hnd-Inv, update_both,
  update_first, update_second, Quiet-update, Collecting-update, Collecting-move, Collecting-end,
}
use pm_lab_tools.System.Phases.{
  InvOf, reader_phases, handler_phases, collector_phases, step_phases, at_pc, reach_phases,
}
use Reader.{ReaderStep-Inv}
use Handler.{HandlerStep-Inv}
use Collector.{CollectorStep-Inv, MainStep-Inv}

module _ (lib : PblSets) (Block : Type 0) where
  pub Step-Inv :
      {s : System lib Block} {u : System lib Block} {ph : Phases} (st : Step lib Block s u)
      → InvOf lib Block s ph
      → InvOf lib Block u (step_phases lib Block st ph)
  Step-Inv (reader_step st) v = ReaderStep-Inv lib Block st v
  Step-Inv (handler_step t st) v = HandlerStep-Inv lib Block st refl v
  Step-Inv (collector_step st) v = CollectorStep-Inv lib Block st v
  Step-Inv (main_step st) v = MainStep-Inv lib Block st v
  Step-Inv {s = s} {ph = ph} signal v = sig_hnd-Inv lib s.sync s.reader s.handler s.collector ph v

  pub Reach-Inv :
      {s : System lib Block} (r : Reach lib Block s) → InvOf lib Block s (reach_phases lib Block r)
  unfolding reach_phases init
  Reach-Inv start = record {
    shows = init_sync-Shows lib;
    fits = λ t. refl;
    quiet = tt;
    collecting = tt;
  }
  Reach-Inv (next r st) = Step-Inv st (Reach-Inv r)
