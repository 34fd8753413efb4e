-- ===== src/System/Shutdown/Ends.antt =====
-- Once the daemon is stopped, its reading thread and its handlers come to their ends.
use pm_lab_tools.Prelude.{ℕ, ◌+◌, ◌*◌, ◌≤◌, ◌≡◌, refl, ◌⊎◌, inl, inr, false, Option, some, arith}
use pm_lab_tools.Sync.Sets.{PblSets}
use pm_lab_tools.Sync.Phase.{Phases, Shows}
use pm_lab_tools.Sync.{
  Outcome, returns, aborts, read_barrier_turn, read_barrier_exit, data_available_turn,
  data_available_exit,
}
use pm_lab_tools.Sync.Refine.{set_ready-Shows, dec-Shows}
use pm_lab_tools.System.Memory.Places.{IsCancelled}
use pm_lab_tools.System.{
  System, init, Reach, start, next, ReaderPc, r_test, r_wait, r_check, r_read, r_publish, r_reset,
  r_notify, r_free, r_end, HandlerPc, unborn, handshake, h_wait, ready, leaving, CollectorPc,
  MainPc, ReaderStep, HandlerStep, CollectorStep, MainStep, reader_step, handler_step,
  collector_step, main_step, signal, Crash, at_read_barrier,
}
use pm_lab_tools.System.Invariant.{Fits}
use pm_lab_tools.System.Phases.{reach_phases}
use pm_lab_tools.System.Steps.{Reach-Inv}
use pm_lab_tools.System.Shutdown.{
  UsesSets, reader_rank, handler_rank, Passage, stay, go_on, reader_steps, handler_steps, launches,
}
use pm_lab_tools.System.Shutdown.Ranks.{Passage-stopped}

reader_rank-le : (pc : ReaderPc) → reader_rank pc ≤ 6
reader_rank-le r_test = omega arith
reader_rank-le r_wait = omega arith
reader_rank-le _ = omega arith

handler_rank-le : (pc : HandlerPc) → handler_rank pc ≤ 8
handler_rank-le unborn = omega arith
handler_rank-le handshake = omega arith
handler_rank-le _ = omega arith

module _ (lib : PblSets) (Block : Type 0) where
  -- What the reading thread publishes is there.
  abbrev Filled : ReaderPc → Option Block → Type 0
  Filled r_publish samples = (b : Block) × (samples ≡ some b)
  Filled _ samples = Unit

  reader-Filled :
      {s : System lib Block} {pc : ReaderPc} {u : System lib Block}
      → ReaderStep lib Block s pc u
      → Filled u.reader u.samples
  reader-Filled (ReaderStep.read_ok b) = (b, refl)
  reader-Filled (ReaderStep.loop_on e) = tt
  reader-Filled _ = tt

  handler-keeps :
      {s : System lib Block} {t : ℕ} {pc : HandlerPc} {u : System lib Block}
      → HandlerStep lib Block s t pc u
      → (u.reader ≡ s.reader) × (u.samples ≡ s.samples)
  handler-keeps HandlerStep.refuse = (refl, refl)
  handler-keeps _ = (refl, refl)

  collector-keeps :
      {s : System lib Block} {pc : CollectorPc} {u : System lib Block}
      → CollectorStep lib Block s pc u
      → (u.reader ≡ s.reader) × (u.samples ≡ s.samples)
  collector-keeps (CollectorStep.running_on e) = (refl, refl)
  collector-keeps _ = (refl, refl)

  main-keeps :
      {s : System lib Block} {pc : MainPc} {u : System lib Block}
      → MainStep lib Block s pc u
      → (u.reader ≡ s.reader) × (u.samples ≡ s.samples)
  main-keeps (MainStep.no_more e) = (refl, refl)
  main-keeps _ = (refl, refl)

  Reach-Filled : {s : System lib Block} → Reach lib Block s → Filled s.reader s.samples
  unfolding init
  Reach-Filled start = tt
  Reach-Filled (next r (reader_step st)) = reader-Filled st
  Reach-Filled (next r (handler_step t st)) =
      let (same, held) = handler-keeps st in rw (same, held) (Reach-Filled r)
  Reach-Filled (next r (collector_step st)) =
      let (same, held) = collector-keeps st in rw (same, held) (Reach-Filled r)
  Reach-Filled (next r (main_step st)) =
      let (same, held) = main-keeps st in rw (same, held) (Reach-Filled r)
  Reach-Filled (next r signal) = Reach-Filled r

  -- The rest of a run is within reach.
  Passage-Reach :
      {s u : System lib Block} → Reach lib Block s → Passage lib Block s u → Reach lib Block u
  Passage-Reach r stay = r
  Passage-Reach r (go_on p st) = next (Passage-Reach r p) st

  outcome : (o : Outcome (Unit {0})) → (o ≡ returns tt) ⊎ (o ≡ aborts)
  outcome (returns tt) = inl refl
  outcome aborts = inr refl

  -- The reading thread has returned, or has a next step, or its assertion fails.
  reader-moves :
      {s : System lib Block} (pc : ReaderPc)
      → s.sync.running ≡ false
      → s.reader ≡ pc
      → Filled pc s.samples
      → (pc ≡ r_end) ⊎ (((u : System lib Block) × ReaderStep lib Block s pc u) ⊎ Crash lib Block s)
  unfolding read_barrier_turn
  reader-moves r_test off at f = inr (inl (_, ReaderStep.loop_off off))
  reader-moves {s} r_wait off at f = elim (outcome (read_barrier_exit lib s.sync)) [
    | inl opens ↦ inr (inl (_, ReaderStep.barrier_open (ground arith) opens))
    | inr shut ↦ inr (inr (at_read_barrier at (ground arith) shut))
  ]
  reader-moves r_check off at f = inr (inl (_, ReaderStep.check_off off))
  reader-moves r_read off at f = inr (inl (_, ReaderStep.read_failed))
  reader-moves r_publish off at (b, there) = inr (inl (_, ReaderStep.publish b there))
  reader-moves r_reset off at f = inr (inl (_, ReaderStep.reset))
  reader-moves r_notify off at f = inr (inl (_, ReaderStep.notify))
  reader-moves r_free off at f = inr (inl (_, ReaderStep.free_arrays))
  reader-moves r_end off at f = inl refl

  -- A handler at a call that uses the sets has a next step.
  handler-moves :
      {s : System lib Block} (t : ℕ) (ph : Phases) (pc : HandlerPc)
      → s.sync.running ≡ false
      → Shows lib s.sync ph
      → Fits false pc (ph t)
      → (¬ UsesSets pc) ⊎ ((u : System lib Block) × HandlerStep lib Block s t pc u)
  unfolding data_available_turn data_available_exit
  handler-moves t ph h_wait off v f = inr (_, HandlerStep.data_there (ground arith) (ground arith))
  handler-moves {s} t ph ready off v f =
      inr (_, HandlerStep.report (set_ready-Shows lib s.sync ph t f.0 v f.1).0)
  handler-moves {s} t ph leaving off v f =
      inr (_, HandlerStep.leave (dec-Shows lib s.sync ph t f.0 v f.1).0)
  handler-moves t ph unborn off v f = inl (λ h. h)
  handler-moves t ph _ off v f = inl (λ h. h)

  -- From a reachable state in which the daemon is stopped, in any run: it stays stopped, the reading
  -- thread makes at most six steps, and a handler thread at most eight, and eight more for each time that
  -- it is launched in the run. At the end of the run the reading thread has returned, or has a next
  -- step, or the next assertion on the sets fails; and, unless `main` has cancelled the collector, a
  -- handler in `wait_data_available` or before `set_ready` or `dec_available_handlers` has a next
  -- step there, which with these bounds is no further turn of the wait.
  pub stop-ends :
      {s u : System lib Block} (t : ℕ)
      → Reach lib Block s
      → s.sync.running ≡ false
      → (p : Passage lib Block s u)
      → (u.sync.running ≡ false)
        × (reader_steps lib Block p ≤ 6)
        × (handler_steps lib Block t p ≤ 8 + 8 * launches lib Block t p)
        × ((u.reader ≡ r_end)
            ⊎ (((v : System lib Block) × ReaderStep lib Block u u.reader v) ⊎ Crash lib Block u))
        × (IsCancelled u.main_thread
            ⊎ ((¬ UsesSets (u.handler t))
                ⊎ ((v : System lib Block) × HandlerStep lib Block u t (u.handler t) v)))
  stop-ends {s} {u} t r off p =
      let r' : Reach lib Block u = Passage-Reach r p in
      let v = Reach-Inv lib Block r' in
      let (still, reader, handler) = Passage-stopped lib Block t p off in
      (
        still,
        omega (arith, reader_rank-le s.reader),
        omega (arith, handler_rank-le (s.handler t)),
        reader-moves {s = u} u.reader still refl (Reach-Filled r'),
        inr (
            handler-moves {s = u} t (reach_phases lib Block r') (u.handler t) still v.shows
              (rw still at (v.fits t))),
      )
