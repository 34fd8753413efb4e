-- ===== src/System/Rounds/Ends.antt =====
-- How many steps a handler makes while it is pending.
use pm_lab_tools.Prelude.{ℕ, ◌+◌, ◌*◌, ◌≤◌, ◌≡◌, ◌⊎◌, inl, inr, false, arith, is_some}
use pm_lab_tools.Sync.Handles.{Handle}
use pm_lab_tools.Sync.Sets.{PblSets}
use pm_lab_tools.Sync.Phase.{Phases, pending, Shows}
use pm_lab_tools.Sync.{data_available_turn, data_available_exit}
use pm_lab_tools.Sync.Refine.{set_ready-Shows, dec-Shows}
use pm_lab_tools.System.Memory.Places.{IsCancelled}
use pm_lab_tools.System.{System, Reach, HandlerPc, unborn, h_wait, ready, leaving, HandlerStep}
use pm_lab_tools.System.Invariant.{Fits}
use pm_lab_tools.System.Phases.{reach_phases}
use pm_lab_tools.System.Steps.{Reach-Inv}
use pm_lab_tools.System.Shutdown.{Passage, UsesSets}
use pm_lab_tools.System.Rounds.{pending_steps, rounds}
use pm_lab_tools.System.Rounds.Weights.{weight-le, pending_cases, Passage-weight}

module _ (lib : PblSets) (Block : Type 0) where
  -- A pending handler at a call that uses the sets has a next step.
  pending-moves :
      {s : System lib Block} (t : ℕ) (ph : Phases) (pc : HandlerPc) (h : Handle)
      → Shows lib s.sync ph
      → Fits s.sync.running pc (ph t)
      → ph t ≡ pending h
      → (¬ UsesSets pc) ⊎ ((u : System lib Block) × HandlerStep lib Block s t pc u)
  unfolding data_available_turn data_available_exit
  pending-moves t ph h_wait h v f e =
      inr (_, HandlerStep.data_there (ground (arith, v t)) (ground (arith, v t)))
  pending-moves {s} t ph ready h v f e =
      inr (_, HandlerStep.report (set_ready-Shows lib s.sync ph t f.0 v f.1).0)
  pending-moves {s} t ph leaving h v f e =
      inr (_, HandlerStep.leave (dec-Shows lib s.sync ph t f.0 v f.1).0)
  pending-moves t ph unborn h v f e = inl (λ x. x)
  pending-moves t ph _ h v f e = inl (λ x. x)

  -- From a reachable state, in any run: a handler thread makes at most seven steps while it is in the
  -- pending set, and seven more for each round that the reading thread begins in the run. At the end of
  -- the run, unless `main` has cancelled the collector, a handler that is pending and is in
  -- `wait_data_available` or before `set_ready` or `dec_available_handlers` has a next step there.
  pub round-ends :
      {s u : System lib Block} (t : ℕ)
      → Reach lib Block s
      → (p : Passage lib Block s u)
      → (pending_steps lib Block t p ≤ 7 + 7 * rounds lib Block p)
        × (IsCancelled u.main_thread
            ⊎ ((is_some (lib.get_element u.sync.pending_set t) ≡ false)
                ⊎ ((¬ UsesSets (u.handler t))
                    ⊎ ((v : System lib Block) × HandlerStep lib Block u t (u.handler t) v))))
  round-ends {s} {u} t r p =
      let (r', less) = Passage-weight lib Block t r p in
      let v = Reach-Inv lib Block r' in
      let ph = reach_phases lib Block r' in
      (
        omega (arith, weight-le (s.handler t) (reach_phases lib Block r t)),
        inr (elim (pending_cases (ph t)) [
          | inl out ↦ inl (ground (arith, v.shows t))
          | inr (h, e) ↦ inr (pending-moves {s = u} t ph (u.handler t) h v.shows (v.fits t) e)
        ]),
      )
