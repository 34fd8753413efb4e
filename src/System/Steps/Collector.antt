-- ===== src/System/Steps/Collector.antt =====
-- `dead_handler_thread_main` and `main` keep the invariant.
use pm_lab_tools.Prelude.{ℕ, Bool, true, ◌≡◌, refl, arith}
use pm_lab_tools.Sync.Handles.{Handle}
use pm_lab_tools.Sync.Sets.{PblSets}
use pm_lab_tools.Sync.Phase.{Phase, Phases, absent, dead, update}
use pm_lab_tools.Sync.Refine.{dead_handler_exit-Shows, after_collect}
use pm_lab_tools.Sync.{Sync, returns, dead_handler_exit, dead_handler_turn, leave_loop}
use pm_lab_tools.System.{
  System, ReaderPc, HandlerPc, CollectorPc, MainPc, CollectorStep, MainStep, unborn, handshake,
  dec_notify, ending, ended, c_join, c_wait,
}
use pm_lab_tools.System.Invariant.{
  at_end, Fits, Collecting, Inv, update_first, update_second, Quiet-update,
}
use pm_lab_tools.System.Phases.{InvOf, collector_phases, at_pc}
use pm_lab_tools.System.Steps.Handler.{move}

module _ (lib : PblSets) (Block : Type 0) where
  with_collector :
      {sync : Sync lib} {r : ReaderPc} {hs : ℕ → HandlerPc} {c c' : CollectorPc} {ph : Phases}
      → Inv lib sync r hs c ph
      → Collecting c' hs ph
      → Inv lib sync r hs c' ph
  with_collector v q = record { shows = v.shows; fits = v.fits; quiet = v.quiet; collecting = q }

  -- A thread that is among the dead is at its end.
  dead-ending :
      (run : Bool) (pc : HandlerPc) (p : Phase) (h : Handle)
      → Fits run pc p
      → p ≡ dead h
      → at_end pc ≡ true
  dead-ending run dec_notify p h f e = refl
  dead-ending run ending p h f e = refl
  dead-ending run ended p h f e = refl
  dead-ending run _ p h f e = ground arith

  gone-Fits : (run : Bool) (pc : HandlerPc) → at_end pc ≡ true → Fits run pc absent
  gone-Fits run dec_notify e = refl
  gone-Fits run ending e = refl
  gone-Fits run ended e = refl
  gone-Fits run _ e = absurd (ground arith)

  collect-Inv :
      (s : System lib Block) (sync' : Sync lib) (ph : Phases) (h : Handle)
      → Inv lib s.sync s.reader s.handler c_wait ph
      → dead_handler_turn lib s.sync ≡ leave_loop
      → dead_handler_exit lib s.sync ≡ returns (h, sync')
      → Inv lib sync' s.reader s.handler (c_join h) (update ph h.thread absent)
  collect-Inv s sync' ph h v turn done =
      let (d, phase, ran, shown) = dead_handler_exit-Shows lib s.sync ph v.shows turn in
      let same_h : d ≡ h = ground arith in
      let same : after_collect lib d s.sync ≡ sync' = ground arith in
      let gone =
        dead-ending s.sync.running (s.handler d.thread) (ph d.thread) d (v.fits d.thread) phase in
      rw (← same_h, ← same)
        record {
          shows = shown;
          fits =
              update_second (Fits s.sync.running) s.handler ph d.thread absent v.fits
                (gone-Fits s.sync.running (s.handler d.thread) gone);
          quiet = Quiet-update s.reader ph d.thread absent refl v.quiet;
          collecting = (ground arith, gone);
        }

  pub CollectorStep-Inv :
      {s : System lib Block} {pc : CollectorPc} {u : System lib Block} {ph : Phases}
      (st : CollectorStep lib Block s pc u)
      → Inv lib s.sync s.reader s.handler pc ph
      → InvOf lib Block u (collector_phases lib Block st ph)
  CollectorStep-Inv (CollectorStep.running_on on) v = with_collector v tt
  CollectorStep-Inv (CollectorStep.running_off off) v = with_collector v tt
  CollectorStep-Inv (CollectorStep.some_alive a) v = with_collector v tt
  CollectorStep-Inv (CollectorStep.none_alive a) v = with_collector v tt
  CollectorStep-Inv (CollectorStep.dead_wait w) v = with_collector v tt
  CollectorStep-Inv {s = s} {ph = ph} (CollectorStep.collect {h} {sync'} turn done) v =
      collect-Inv s sync' ph h v turn done
  CollectorStep-Inv {s = s} {ph = ph} (CollectorStep.join {h} e) v = record {
    shows = v.shows;
    fits = update_first (Fits s.sync.running) s.handler ph h.thread unborn v.fits v.collecting.0;
    quiet = v.quiet;
    collecting = tt;
  }
  CollectorStep-Inv CollectorStep.free v = with_collector v tt

  pub MainStep-Inv :
      {s : System lib Block} {pc : MainPc} {u : System lib Block} {ph : Phases}
      → MainStep lib Block s pc u
      → InvOf lib Block s ph
      → InvOf lib Block u ph
  MainStep-Inv (MainStep.launch t e) v =
      move lib Block t handshake v (ground arith) (at_pc lib Block t e v)
  MainStep-Inv (MainStep.no_more off) v = v
  MainStep-Inv (MainStep.join_reader e) v = v
  MainStep-Inv (MainStep.cancel c) v = with_collector v tt
  MainStep-Inv MainStep.finish_sync v = v
