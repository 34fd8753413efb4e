-- ===== src/System/Rounds.antt =====
-- daemon/sync.c and daemon/handler.c: how long a handler holds up the round of the reading thread.
pub mod Weights
pub mod Ends
use pm_lab_tools.Prelude.{
  ℕ, ◌+◌, ◌*◌, ◌≤◌, ◌≡◌, refl, ◌⊎◌, inl, inr, Bool, true, false, ◌&&◌, none, some, arith, ◌==◌,
  ==_iff, if◌then◌else◌, is_some, Bool-cases,
}
use pm_lab_tools.Sync.Handles.{Handle}
use pm_lab_tools.Sync.Sets.{PblSets}
use pm_lab_tools.Sync.Phase.{
  Phase, Phases, absent, idle, pending, finished, dead, update, renew, complete, bury, registered,
  holding_up, Shows,
}
use pm_lab_tools.Sync.{
  Sync, returns, wait_again, leave_loop, data_available_turn, data_available_exit,
}
use pm_lab_tools.Sync.Refine.{set_ready-Shows, dec-Shows}
use pm_lab_tools.System.{
  inc_notify, ready_notify, System, Reach, next, HandlerPc, unborn, handshake, refused, registering,
  welcome, h_test, h_wait, h_check, copying, ready, leaving, ending, ended, ReaderPc, CollectorPc,
  MainPc, ReaderStep, HandlerStep, CollectorStep, MainStep, Step, reader_step, handler_step,
  collector_step, main_step, signal,
}
use pm_lab_tools.System.Invariant.{Fits}
use pm_lab_tools.System.Phases.{
  reader_phases, handler_phases, collector_phases, step_phases, reach_phases,
}
use pm_lab_tools.System.Steps.{Reach-Inv}
use pm_lab_tools.System.Shutdown.{Passage, stay, go_on}

-- How many steps a pending handler has at most up to the one that reports, or leaves.
abbrev pub round_rank : HandlerPc → ℕ
round_rank inc_notify = 7
round_rank welcome = 6
round_rank ready_notify = 6
round_rank h_test = 5
round_rank h_wait = 4
round_rank h_check = 3
round_rank copying = 2
round_rank ready = 1
round_rank leaving = 1
round_rank _ = 0

abbrev pub weight : HandlerPc → Phase → ℕ
weight pc (pending h) = round_rank pc
weight pc p = 0

abbrev pub is_pending : Phase → Bool
is_pending p = is_some (holding_up p)

module _ (lib : PblSets) (Block : Type 0) where
  -- The steps of a handler thread while it is in the pending set, and those that begin a round.
  abbrev pub by_pending : ℕ → {s u : System lib Block} → Step lib Block s u → ℕ
  by_pending t {s} (handler_step t' st) =
      if t' == t && is_some (lib.get_element s.sync.pending_set t) then 1 else 0
  by_pending t _ = 0

  abbrev pub begins_by :
      {s : System lib Block} {pc : ReaderPc} {u : System lib Block}
      → ReaderStep lib Block s pc u
      → ℕ
  begins_by ReaderStep.reset = 1
  begins_by _ = 0

  abbrev pub beginning : {s u : System lib Block} → Step lib Block s u → ℕ
  beginning (reader_step st) = begins_by st
  beginning _ = 0

  abbrev pub pending_steps : ℕ → {s u : System lib Block} → Passage lib Block s u → ℕ
  pending_steps t stay = 0
  pending_steps t (go_on p st) = pending_steps t p + by_pending t st

  abbrev pub rounds : {s u : System lib Block} → Passage lib Block s u → ℕ
  rounds stay = 0
  rounds (go_on p st) = rounds p + beginning st
