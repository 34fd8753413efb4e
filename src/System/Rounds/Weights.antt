-- ===== src/System/Rounds/Weights.antt =====
-- Each step of a pending handler takes one off the steps that it has left in its round.
use pm_lab_tools.Prelude.{
  ℕ, ◌+◌, ◌*◌, ◌≤◌, ◌≡◌, refl, ◌⊎◌, inl, inr, false, ◌&&◌, arith, ◌==◌, ==_iff, if◌then◌else◌,
  is_some, Bool-cases,
}
use pm_lab_tools.Sync.Handles.{Handle}
use pm_lab_tools.Sync.Sets.{PblSets}
use pm_lab_tools.Sync.Phase.{Phase, Phases, absent, pending, renew, Shows}
use pm_lab_tools.Sync.{data_available_turn}
use pm_lab_tools.System.{
  inc_notify, System, Reach, next, HandlerPc, welcome, h_test, ReaderPc, CollectorPc, MainPc,
  ReaderStep, HandlerStep, CollectorStep, MainStep, Step, reader_step, handler_step, collector_step,
  main_step, signal,
}
use pm_lab_tools.System.Invariant.{Fits}
use pm_lab_tools.System.Phases.{reader_phases, handler_phases, collector_phases, reach_phases}
use pm_lab_tools.System.Steps.{Reach-Inv}
use pm_lab_tools.System.Shutdown.{Passage, stay, go_on}
use pm_lab_tools.System.Rounds.{
  round_rank, weight, is_pending, by_pending, begins_by, beginning, pending_steps, rounds,
}

pub weight-le : (pc : HandlerPc) (p : Phase) → weight pc p ≤ 7
weight-le inc_notify p = ground arith
weight-le welcome p = ground arith
weight-le h_test p = ground arith
weight-le _ p = ground arith

pub pending_cases : (p : Phase) → (is_pending p ≡ false) ⊎ ((h : Handle) × (p ≡ pending h))
pending_cases (pending h) = inr (h, refl)
pending_cases absent = inl refl
pending_cases _ = inl refl

module _ (lib : PblSets) (Block : Type 0) where
  -- A pending handler makes a step.
  own-weight :
      {s : System lib Block} {t : ℕ} {pc : HandlerPc} {u : System lib Block} (ph : Phases)
      (h : Handle) (st : HandlerStep lib Block s t pc u)
      → Shows lib s.sync ph
      → Fits s.sync.running pc (ph t)
      → ph t ≡ pending h
      → weight (u.handler t) (handler_phases lib Block st ph t) + 1 ≤ round_rank pc
  unfolding data_available_turn
  own-weight ph h HandlerStep.refuse v f e = absurd (ground arith)
  own-weight ph h HandlerStep.accept v f e = absurd (ground arith)
  own-weight ph h (HandlerStep.register addr free) v f e = absurd (ground arith)
  own-weight {t = t} ph h (HandlerStep.data_wait w) v f e = absurd (ground (arith, v t))
  own-weight ph h HandlerStep.finish v f e = absurd (ground arith)
  own-weight ph h (HandlerStep.report done) v f e = ground arith
  own-weight ph h (HandlerStep.leave done) v f e = ground arith
  own-weight ph h _ v f e = ground arith

  -- One that is not pending does not become so by a step of a handler.
  own-idle :
      {s : System lib Block} {t : ℕ} {pc : HandlerPc} {u : System lib Block} (ph : Phases)
      (st : HandlerStep lib Block s t pc u)
      → is_pending (ph t) ≡ false
      → weight (u.handler t) (handler_phases lib Block st ph t) ≡ 0
  own-idle ph HandlerStep.refuse e = ground arith
  own-idle ph (HandlerStep.register addr free) e = ground arith
  own-idle ph (HandlerStep.report done) e = ground arith
  own-idle ph (HandlerStep.leave done) e = ground arith
  own-idle ph _ e = ground arith

  -- The steps of other threads.
  other-weight :
      {s : System lib Block} {t' : ℕ} {pc : HandlerPc} {u : System lib Block} (t : ℕ) (ph : Phases)
      (st : HandlerStep lib Block s t' pc u)
      → (t' == t) ≡ false
      → weight (u.handler t) (handler_phases lib Block st ph t) ≡ weight (s.handler t) (ph t)
  other-weight t ph HandlerStep.refuse e = rw e
  other-weight t ph (HandlerStep.register addr free) e = rw e
  other-weight t ph (HandlerStep.report done) e = rw e
  other-weight t ph (HandlerStep.leave done) e = rw e
  other-weight t ph _ e = rw e

  reader-weight :
      {s : System lib Block} {pc : ReaderPc} {u : System lib Block} (t : ℕ) (ph : Phases)
      (st : ReaderStep lib Block s pc u)
      → weight (u.handler t) (reader_phases lib Block st ph t)
        ≤ weight (s.handler t) (ph t) + 7 * begins_by lib Block st
  reader-weight {s = s} t ph ReaderStep.reset =
      omega (arith, weight-le (s.handler t) (renew (ph t)))
  reader-weight t ph (ReaderStep.loop_on on) = omega arith
  reader-weight t ph _ = omega arith

  collector-weight :
      {s : System lib Block} {pc : CollectorPc} {u : System lib Block} (t : ℕ) (ph : Phases)
      (st : CollectorStep lib Block s pc u)
      → weight (u.handler t) (collector_phases lib Block st ph t) ≤ weight (s.handler t) (ph t)
  collector-weight t ph (CollectorStep.collect turn done) = ground arith
  collector-weight t ph (CollectorStep.join at) = ground arith
  collector-weight t ph (CollectorStep.running_on on) = omega arith
  collector-weight t ph _ = omega arith

  main-weight :
      {s : System lib Block} {pc : MainPc} {u : System lib Block} (t : ℕ) (p : Phase)
      → MainStep lib Block s pc u
      → weight (u.handler t) p ≤ weight (s.handler t) p
  main-weight t p (MainStep.launch t' new) = ground arith
  main-weight t p (MainStep.no_more off) = omega arith
  main-weight t p _ = omega arith

  handler-weight :
      {s u : System lib Block} (t t' : ℕ) (ph : Phases)
      (st : HandlerStep lib Block s t' (s.handler t') u)
      → Shows lib s.sync ph
      → Fits s.sync.running (s.handler t') (ph t')
      → (if t' == t && is_some (lib.get_element s.sync.pending_set t) then 1 else 0)
          + weight (u.handler t) (handler_phases lib Block st ph t)
        ≤ weight (s.handler t) (ph t)
  handler-weight {s} t t' ph st v f = elim (Bool-cases (t' == t)) [
    | inr away ↦ rw (away, other-weight t ph st away) (omega arith)
    | inl mine ↦
        let same : t' ≡ t = (==_iff t' t).0 mine in
        rw (mine, ← same)
          (elim (pending_cases (ph t')) [
            | inl out ↦ rw (own-idle ph st out) (ground (arith, v t'))
            | inr (h, e) ↦ ground (arith, v t', own-weight ph h st v f e)
          ])
  ]

  Step-weight :
      {s u : System lib Block} (t : ℕ) (r : Reach lib Block s) (st : Step lib Block s u)
      → by_pending lib Block t st + weight (u.handler t) (reach_phases lib Block (next r st) t)
        ≤ weight (s.handler t) (reach_phases lib Block r t) + 7 * beginning lib Block st
  unfolding reach_phases
  Step-weight t r (reader_step st) = omega (arith, reader-weight t (reach_phases lib Block r) st)
  Step-weight t r (handler_step t' st) =
      let v = Reach-Inv lib Block r in
      omega (arith, handler-weight t t' (reach_phases lib Block r) st v.shows (v.fits t'))
  Step-weight t r (collector_step st) =
      omega (arith, collector-weight t (reach_phases lib Block r) st)
  Step-weight t r (main_step st) = omega (arith, main-weight t (reach_phases lib Block r t) st)
  Step-weight t r signal = omega arith

  -- The state at the end of a run is within reach, and the weight of a handler has fallen.
  pub Passage-weight :
      {s u : System lib Block} (t : ℕ) (r : Reach lib Block s) (p : Passage lib Block s u)
      → (r' : Reach lib Block u) × (pending_steps lib Block t p
            + weight (u.handler t) (reach_phases lib Block r' t)
          ≤ weight (s.handler t) (reach_phases lib Block r t) + 7 * rounds lib Block p)
  Passage-weight t r stay = (r, omega arith)
  Passage-weight t r (go_on p st) =
      let (r', less) = Passage-weight t r p in (next r' st, omega (arith, Step-weight t r' st))
