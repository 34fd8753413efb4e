-- ===== src/System/Steps/Handler.antt =====
-- `handler_thread_main` keeps the invariant.
use pm_lab_tools.Prelude.{true, false, ℕ, ◌≡◌, refl, none, some, arith}
use pm_lab_tools.Sync.Handles.{Handle}
use pm_lab_tools.Sync.Sets.{PblSets}
use pm_lab_tools.Sync.Phase.{
  Phase, Phases, pending, finished, dead, update, complete, bury, registered, holding_up, Shows,
}
use pm_lab_tools.Sync.Refine.{inc-Shows, set_ready-Shows, dec-Shows, after_ready, after_dec}
use pm_lab_tools.Sync.{
  Sync, returns, inc_available_handlers, set_ready, dec_available_handlers, data_available_exit,
  notify_read_barrier,
}
use pm_lab_tools.System.{
  System, ReaderPc, HandlerPc, CollectorPc, HandlerStep, refused, registering, inc_notify, welcome,
  h_test, h_wait, h_check, copying, ready, ready_notify, leaving, dec_notify, ending, ended,
}
use pm_lab_tools.System.Invariant.{
  at_end, Fits, Inv, update_both, update_first, Quiet-update, Collecting-update, Collecting-move,
  Collecting-end,
}
use pm_lab_tools.System.Phases.{InvOf, handler_phases, at_pc}

module _ (lib : PblSets) (Block : Type 0) where
  -- A thread that is not at its end goes on to `pc'`; the sets stay as they are.
  pub move :
      {sync : Sync lib} {r : ReaderPc} {hs : ℕ → HandlerPc} {c : CollectorPc} {ph : Phases} (t : ℕ)
      (pc' : HandlerPc)
      → Inv lib sync r hs c ph
      → at_end (hs t) ≡ false
      → Fits sync.running pc' (ph t)
      → Inv lib sync r (update hs t pc') c ph
  move {sync} {r} {hs} {c} {ph} t pc' v n f = record {
    shows = v.shows;
    fits = update_first (Fits sync.running) hs ph t pc' v.fits f;
    quiet = v.quiet;
    collecting = Collecting-move c hs ph t pc' n v.collecting;
  }

  -- A thread that has left the sets goes on to its end.
  end :
      {sync : Sync lib} {r : ReaderPc} {hs : ℕ → HandlerPc} {c : CollectorPc} {ph : Phases} (t : ℕ)
      (pc' : HandlerPc)
      → Inv lib sync r hs c ph
      → at_end pc' ≡ true
      → Fits sync.running pc' (ph t)
      → Inv lib sync r (update hs t pc') c ph
  end {sync} {r} {hs} {c} {ph} t pc' v e f = record {
    shows = v.shows;
    fits = update_first (Fits sync.running) hs ph t pc' v.fits f;
    quiet = v.quiet;
    collecting = Collecting-end c hs ph t pc' e v.collecting;
  }

  -- A broadcast changes nothing of it.
  notified :
      (s : System lib Block) {r : ReaderPc} {hs : ℕ → HandlerPc} {c : CollectorPc} {ph : Phases}
      → Inv lib s.sync r hs c ph
      → Inv lib (notify_read_barrier lib s.sync) r hs c ph
  unfolding notify_read_barrier
  notified s v = record {
    shows = v.shows;
    fits = v.fits;
    quiet = v.quiet;
    collecting = v.collecting;
  }

  -- The same as `move`, with a change of the sets that `p` shows.
  change :
      {sync : Sync lib} {r : ReaderPc} {hs : ℕ → HandlerPc} {c : CollectorPc} {ph : Phases}
      (sync' : Sync lib) (t : ℕ) (pc' : HandlerPc) (p : Phase)
      → Inv lib sync r hs c ph
      → at_end (hs t) ≡ false
      → sync'.running ≡ sync.running
      → Shows lib sync' (update ph t p)
      → holding_up p ≡ none
      → Fits sync.running pc' p
      → Inv lib sync' r (update hs t pc') c (update ph t p)
  change {sync} {r} {hs} {c} {ph} sync' t pc' p v n same shown quiet f = record {
    shows = shown;
    fits = rw same (update_both (Fits sync.running) hs ph t pc' p v.fits f);
    quiet = Quiet-update r ph t p quiet v.quiet;
    collecting = Collecting-update c hs ph t pc' p n v.collecting;
  }

  report-Inv :
      (s : System lib Block) (t : ℕ) (sync' : Sync lib) (ph : Phases) (h : Handle)
      → s.handler t ≡ ready
      → InvOf lib Block s ph
      → ph t ≡ pending h
      → set_ready lib t s.sync ≡ returns sync'
      → Inv lib sync' s.reader
          (update s.handler t ready_notify)
          s.collector
          (update ph t (complete (ph t)))
  report-Inv s t sync' ph h e v p done =
      let (ran, shown) = set_ready-Shows lib s.sync ph t h v.shows p in
      let same : after_ready lib h s.sync ≡ sync' = cc in
      let moved : complete (ph t) ≡ finished h = ground arith in
      rw (moved, ← same)
        (change (after_ready lib h s.sync) t ready_notify (finished h) v (ground arith) refl shown
          refl (h, refl))

  leave-Inv :
      (s : System lib Block) (t : ℕ) (sync' : Sync lib) (ph : Phases) (h : Handle)
      → s.handler t ≡ leaving
      → InvOf lib Block s ph
      → registered (ph t) ≡ some h
      → dec_available_handlers lib t s.sync ≡ returns sync'
      → Inv lib sync' s.reader
          (update s.handler t dec_notify)
          s.collector
          (update ph t (bury (ph t)))
  leave-Inv s t sync' ph h e v p done =
      let (ran, shown) = dec-Shows lib s.sync ph t h v.shows p in
      let same : after_dec lib h s.sync ≡ sync' = cc in
      let moved : bury (ph t) ≡ dead h = ground arith in
      rw (moved, ← same)
        (change (after_dec lib h s.sync) t dec_notify (dead h) v (ground arith) refl shown refl
          refl)

  -- A handler that has left the wait loop is pending, or the daemon stops.
  there-Fits :
      (s : System lib Block) (t : ℕ) (ph : Phases) (h : Handle)
      → InvOf lib Block s ph
      → registered (ph t) ≡ some h
      → data_available_exit lib t s.sync ≡ returns tt
      → Fits s.sync.running h_check (ph t)
  unfolding data_available_exit
  there-Fits s t ph h v p x = (h, p, λ on. ground (arith, v.shows t))

  pub HandlerStep-Inv :
      {s : System lib Block} {t : ℕ} {pc : HandlerPc} {u : System lib Block} {ph : Phases}
      (st : HandlerStep lib Block s t pc u)
      → s.handler t ≡ pc
      → InvOf lib Block s ph
      → InvOf lib Block u (handler_phases lib Block st ph)
  unfolding inc_available_handlers
  HandlerStep-Inv {t = t} HandlerStep.refuse e v =
      move t refused v (ground arith) (at_pc lib Block t e v)
  HandlerStep-Inv {t = t} HandlerStep.accept e v =
      move t registering v (ground arith) (at_pc lib Block t e v)
  HandlerStep-Inv {s = s} {t = t} {ph = ph} (HandlerStep.register addr free) e v =
      change (inc_available_handlers lib addr t s.sync) t inc_notify _ v (ground arith) refl
        (inc-Shows lib s.sync ph addr t v.shows (at_pc lib Block t e v)) refl (_, refl)
  HandlerStep-Inv {s = s} {t = t} HandlerStep.inc_notified e v =
      notified s (move t welcome v (ground arith) (at_pc lib Block t e v))
  HandlerStep-Inv {s = s} {t = t} HandlerStep.ready_notified e v =
      notified s (move t h_test v (ground arith) (at_pc lib Block t e v))
  HandlerStep-Inv {s = s} {t = t} HandlerStep.dec_notified e v =
      notified s (end t ending v refl (at_pc lib Block t e v))
  HandlerStep-Inv {t = t} HandlerStep.welcomed e v =
      move t h_test v (ground arith) (at_pc lib Block t e v)
  HandlerStep-Inv {t = t} (HandlerStep.loop_on on) e v =
      move t h_wait v (ground arith) (at_pc lib Block t e v)
  HandlerStep-Inv {t = t} HandlerStep.loop_off e v =
      move t leaving v (ground arith) (at_pc lib Block t e v)
  HandlerStep-Inv {t = t} (HandlerStep.data_wait w) e v =
      move t h_wait v (ground arith) (at_pc lib Block t e v)
  HandlerStep-Inv {s = s} {t = t} {ph = ph} (HandlerStep.data_there w x) e v =
      move t h_check v (ground arith)
        (let (h, f) = at_pc lib Block t e v in there-Fits s t ph h v f x)
  HandlerStep-Inv {t = t} (HandlerStep.check_on on) e v =
      move t copying v (ground arith) (let (h, _, f) = at_pc lib Block t e v in (h, f on))
  HandlerStep-Inv {t = t} (HandlerStep.check_off off) e v =
      move t leaving v (ground arith) (let (h, f, _) = at_pc lib Block t e v in (h, f))
  HandlerStep-Inv {t = t} (HandlerStep.copy b f) e v =
      move t ready v (ground arith) (at_pc lib Block t e v)
  HandlerStep-Inv {t = t} HandlerStep.no_space e v =
      move t leaving v (ground arith) (let (h, f) = at_pc lib Block t e v in (h, ground arith))
  HandlerStep-Inv {s = s} {t = t} {ph = ph} (HandlerStep.report {sync'} done) e v =
      let (h, f) = at_pc lib Block t e v in report-Inv s t sync' ph h e v f done
  HandlerStep-Inv {s = s} {t = t} {ph = ph} (HandlerStep.leave {sync'} done) e v =
      let (h, f) = at_pc lib Block t e v in leave-Inv s t sync' ph h e v f done
  HandlerStep-Inv {t = t} HandlerStep.finish e v = end t ended v refl (at_pc lib Block t e v)
