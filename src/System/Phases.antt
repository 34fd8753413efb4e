-- ===== src/System/Phases.antt =====
-- How the steps of the daemon move the phases of its handlers, and the invariant beside them.
use pm_lab_tools.Prelude.{ℕ, ◌≡◌}
use pm_lab_tools.Sync.Sets.{PblSets}
use pm_lab_tools.Sync.Phase.{Phases, absent, idle, update, renew, complete, bury}
use pm_lab_tools.Sync.{Sync}
use pm_lab_tools.System.{
  System, ReaderPc, HandlerPc, CollectorPc, ReaderStep, HandlerStep, CollectorStep, Step, Reach,
  start, next, reader_step, handler_step, collector_step, main_step, signal,
}
use pm_lab_tools.System.Invariant.{Fits, Inv}

module _ (lib : PblSets) (Block : Type 0) where
  abbrev pub reader_phases :
      {s u : System lib Block} {pc : ReaderPc} → ReaderStep lib Block s pc u → Phases → Phases
  reader_phases ReaderStep.reset ph = λ k. renew (ph k)
  reader_phases _ ph = ph

  abbrev pub handler_phases :
      {s : System lib Block} {t : ℕ} {pc : HandlerPc} {u : System lib Block}
      → HandlerStep lib Block s t pc u
      → Phases
      → Phases
  handler_phases {t = t} (HandlerStep.register addr free) ph =
      update ph t (idle (record { addr = addr; thread = t }))
  handler_phases {t = t} (HandlerStep.report done) ph = update ph t (complete (ph t))
  handler_phases {t = t} (HandlerStep.leave done) ph = update ph t (bury (ph t))
  handler_phases _ ph = ph

  abbrev pub collector_phases :
      {s u : System lib Block} {pc : CollectorPc} → CollectorStep lib Block s pc u → Phases → Phases
  collector_phases (CollectorStep.collect {h} turn done) ph = update ph h.thread absent
  collector_phases _ ph = ph

  abbrev pub step_phases : {s u : System lib Block} → Step lib Block s u → Phases → Phases
  step_phases (reader_step st) ph = reader_phases st ph
  step_phases (handler_step t st) ph = handler_phases st ph
  step_phases (collector_step st) ph = collector_phases st ph
  step_phases (main_step st) ph = ph
  step_phases signal ph = ph

  abbrev pub InvOf : System lib Block → Phases → Type 0
  InvOf s ph = Inv lib s.sync s.reader s.handler s.collector ph

  -- What holds at the thread that makes the step.
  pub at_pc :
      {sync : Sync lib} {r : ReaderPc} {hs : ℕ → HandlerPc} {c : CollectorPc} {ph : Phases} (t : ℕ)
      {pc : HandlerPc}
      → hs t ≡ pc
      → Inv lib sync r hs c ph
      → Fits sync.running pc (ph t)
  at_pc t e v = rw e at (v.fits t)

  -- The phases at the end of a run.
  unfoldable pub reach_phases : {s : System lib Block} → Reach lib Block s → Phases
  reach_phases start = λ _. absent
  reach_phases (next r st) = step_phases st (reach_phases r)
