-- ===== src/System/Memory/Moves.antt =====
-- Every step of the daemon keeps its handles in their places.
use pm_lab_tools.Prelude.{ℕ, ◌≡◌, refl, arith}
use pm_lab_tools.Sync.Sets.{PblSets}
use pm_lab_tools.Sync.Phase.{Phases, update, renew, complete, bury}
use pm_lab_tools.Sync.Refine.{dead_handler_exit-Shows}
use pm_lab_tools.System.{
  System, ReaderPc, HandlerPc, CollectorPc, MainPc, ReaderStep, HandlerStep, CollectorStep,
  MainStep, Step, Reach, init, start, next, reader_step, handler_step, collector_step, main_step,
  signal,
}
use pm_lab_tools.System.Invariant.{Inv}
use pm_lab_tools.System.Phases.{
  InvOf, reader_phases, handler_phases, collector_phases, step_phases, at_pc, reach_phases,
}
use pm_lab_tools.System.Steps.{Reach-Inv}
use pm_lab_tools.System.Memory.Places.{
  Place, unused, held_by, at_collector, Kept, lose, held-renew, held-complete, held-bury,
  same_handles-Kept, same_out-Kept, same_main-Kept, register-Kept, collect-Kept, free-Kept,
  cancel-Kept,
}

module _ (lib : PblSets) (Block : Type 0) where
  abbrev Daemon : Type 0
  Daemon = System lib Block

  abbrev KeptOf : Daemon → (ℕ → Place) → Phases → Type 0
  KeptOf s places ph = Kept s.allocated places ph s.collector s.main_thread

  abbrev handler_places :
      {s : Daemon} {t : ℕ} {pc : HandlerPc} {u : Daemon}
      → HandlerStep lib Block s t pc u
      → (ℕ → Place)
      → ℕ
      → Place
  handler_places {t = t} (HandlerStep.register addr free) places = update places addr (held_by t)
  handler_places _ places = places

  abbrev collector_places :
      {s u : Daemon} {pc : CollectorPc} → CollectorStep lib Block s pc u → (ℕ → Place) → ℕ → Place
  collector_places (CollectorStep.collect {h} turn done) places = update places h.addr at_collector
  collector_places (CollectorStep.free {h}) places = update places h.addr unused
  collector_places _ places = places

  abbrev main_places :
      {s u : Daemon} {pc : MainPc} → MainStep lib Block s pc u → (ℕ → Place) → ℕ → Place
  main_places {s} (MainStep.cancel c) places = lose s.collector places
  main_places _ places = places

  abbrev step_places : {s u : Daemon} → Step lib Block s u → (ℕ → Place) → ℕ → Place
  step_places (handler_step t st) places = handler_places st places
  step_places (collector_step st) places = collector_places st places
  step_places (main_step st) places = main_places st places
  step_places _ places = places

  ReaderStep-Kept :
      {s u : Daemon} {pc : ReaderPc} {places : ℕ → Place} {ph : Phases}
      (st : ReaderStep lib Block s pc u)
      → KeptOf s places ph
      → KeptOf u places (reader_phases lib Block st ph)
  ReaderStep-Kept {ph = ph} ReaderStep.reset v =
      same_handles-Kept v (λ k. renew (ph k)) (λ k. held-renew (ph k))
  ReaderStep-Kept (ReaderStep.loop_on on) v = v
  ReaderStep-Kept _ v = v

  HandlerStep-Kept :
      {s : Daemon} {t : ℕ} {pc : HandlerPc} {u : Daemon} {places : ℕ → Place} {ph : Phases}
      (st : HandlerStep lib Block s t pc u)
      → s.handler t ≡ pc
      → InvOf lib Block s ph
      → KeptOf s places ph
      → KeptOf u (handler_places st places) (handler_phases lib Block st ph)
  HandlerStep-Kept {t = t} (HandlerStep.register addr free) e i v =
      register-Kept v t addr free (at_pc lib Block t e i)
  HandlerStep-Kept {t = t} {ph = ph} (HandlerStep.report done) e i v =
      same_handles-Kept v (update ph t (complete (ph t)))
        (λ k. ground (arith, held-complete (ph t)))
  HandlerStep-Kept {t = t} {ph = ph} (HandlerStep.leave done) e i v =
      same_handles-Kept v (update ph t (bury (ph t))) (λ k. ground (arith, held-bury (ph t)))
  HandlerStep-Kept HandlerStep.refuse e i v = v
  HandlerStep-Kept _ e i v = v

  CollectorStep-Kept :
      {s : Daemon} {pc : CollectorPc} {u : Daemon} {places : ℕ → Place} {ph : Phases}
      (st : CollectorStep lib Block s pc u)
      → Inv lib s.sync s.reader s.handler pc ph
      → Kept s.allocated places ph pc s.main_thread
      → KeptOf u (collector_places st places) (collector_phases lib Block st ph)
  CollectorStep-Kept {s = s} {ph = ph} (CollectorStep.collect {h} turn done) i v =
      let (d, dead, ran, _) = dead_handler_exit-Shows lib s.sync ph i.shows turn in
      let same : d ≡ h = ground arith in collect-Kept v h refl (ground arith)
  CollectorStep-Kept (CollectorStep.free {h}) i v = free-Kept v h refl
  CollectorStep-Kept (CollectorStep.running_on on) i v = same_out-Kept v _ refl
  CollectorStep-Kept (CollectorStep.running_off off) i v = same_out-Kept v _ refl
  CollectorStep-Kept (CollectorStep.some_alive a) i v = same_out-Kept v _ refl
  CollectorStep-Kept (CollectorStep.none_alive a) i v = same_out-Kept v _ refl
  CollectorStep-Kept (CollectorStep.dead_wait w) i v = v
  CollectorStep-Kept (CollectorStep.join e) i v = same_out-Kept v _ refl

  MainStep-Kept :
      {s : Daemon} {pc : MainPc} {u : Daemon} {places : ℕ → Place} {ph : Phases}
      (st : MainStep lib Block s pc u)
      → s.main_thread ≡ pc
      → Kept s.allocated places ph s.collector pc
      → KeptOf u (main_places st places) ph
  MainStep-Kept (MainStep.launch t f) e v = same_main-Kept v _ (λ x. absurd x)
  MainStep-Kept (MainStep.no_more off) e v = same_main-Kept v _ (λ x. absurd x)
  MainStep-Kept (MainStep.join_reader x) e v = same_main-Kept v _ (λ x. absurd x)
  MainStep-Kept (MainStep.cancel c) e v = cancel-Kept v
  MainStep-Kept MainStep.finish_sync e v = same_main-Kept v _ (λ x. tt)

  Step-Kept :
      {s u : Daemon} {places : ℕ → Place} {ph : Phases} (st : Step lib Block s u)
      → InvOf lib Block s ph
      → KeptOf s places ph
      → KeptOf u (step_places st places) (step_phases lib Block st ph)
  Step-Kept (reader_step st) i v = ReaderStep-Kept st v
  Step-Kept (handler_step t st) i v = HandlerStep-Kept st refl i v
  Step-Kept (collector_step st) i v = CollectorStep-Kept st i v
  Step-Kept (main_step st) i v = MainStep-Kept st refl v
  Step-Kept signal i v = v

  -- The places at the end of a run.
  unfoldable pub reach_places : {s : Daemon} → Reach lib Block s → ℕ → Place
  reach_places start = λ _. unused
  reach_places (next r st) = step_places st (reach_places r)

  pub Reach-Kept :
      {s : Daemon} (r : Reach lib Block s)
      → Kept s.allocated (reach_places r) (reach_phases lib Block r) s.collector s.main_thread
  unfolding reach_places reach_phases init
  Reach-Kept start = record {
    counted = λ a. refl;
    of_set = λ t h e. ground arith;
    in_set = λ a t e. ground arith;
    of_out = λ h e. ground arith;
    is_out = λ a e. ground arith;
    is_lost = λ a e. ground arith;
  }
  Reach-Kept (next r st) = Step-Kept st (Reach-Inv lib Block r) (Reach-Kept r)
