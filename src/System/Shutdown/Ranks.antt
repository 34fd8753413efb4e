-- ===== src/System/Shutdown/Ranks.antt =====
-- Each step takes one off the steps that its thread has left.
use pm_lab_tools.Prelude.{
  ℕ, ◌+◌, ◌*◌, ◌≤◌, ◌≡◌, refl, false, arith, ◌∙◌, ◌==◌, ==_iff, if◌then◌else◌, Bool-cases, inl, inr,
}
use pm_lab_tools.Sync.Handles.{Handle}
use pm_lab_tools.Sync.Sets.{PblSets}
use pm_lab_tools.Sync.Phase.{update}
use pm_lab_tools.Sync.{
  notify_read_barrier, Sync, returns, read_barrier_turn, data_available_turn, sig_hnd,
  inc_available_handlers, dec_available_handlers, set_ready, reset_ready_handlers,
  notify_data_available, dead_handler_exit,
}
use pm_lab_tools.System.{
  inc_notify, ready_notify, dec_notify, System, ReaderPc, HandlerPc, refused, registering, welcome,
  h_test, h_check, ready, leaving, ending, ended, CollectorPc, MainPc, ReaderStep, HandlerStep,
  CollectorStep, MainStep, Step, reader_step, handler_step, collector_step, main_step, signal,
}
use pm_lab_tools.System.Shutdown.{
  reader_rank, handler_rank, Passage, stay, go_on, by_reader, by_handler, launched_by, launching,
  reader_steps, handler_steps, launches,
}

module _ (lib : PblSets) (Block : Type 0) where
  set_ready_running :
      (t : ℕ) (s s' : Sync lib) → set_ready lib t s ≡ returns s' → s'.running ≡ s.running
  unfolding set_ready
  set_ready_running t s s' e = ground arith

  dec_running :
      (t : ℕ) (s s' : Sync lib)
      → dec_available_handlers lib t s ≡ returns s'
      → s'.running ≡ s.running
  unfolding dec_available_handlers
  dec_running t s s' e = ground arith

  dead_running :
      (s s' : Sync lib) (h : Handle)
      → dead_handler_exit lib s ≡ returns (h, s')
      → s'.running ≡ s.running
  unfolding dead_handler_exit
  dead_running s s' h e = ground arith

  -- The reading thread, once the daemon is stopped.
  reader-stopped :
      {s : System lib Block} {pc : ReaderPc} {u : System lib Block}
      → ReaderStep lib Block s pc u
      → s.sync.running ≡ false
      → (u.sync.running ≡ false)
        × (reader_rank u.reader + 1 ≤ reader_rank pc)
        × ((t : ℕ) → u.handler t ≡ s.handler t)
  unfolding read_barrier_turn sig_hnd reset_ready_handlers notify_data_available
  reader-stopped (ReaderStep.loop_on on) off = absurd (ground arith)
  reader-stopped (ReaderStep.loop_off e) off = (off, omega arith, λ t. refl)
  reader-stopped (ReaderStep.barrier_wait w) off = absurd (ground arith)
  reader-stopped (ReaderStep.barrier_open l x) off = (off, omega arith, λ t. refl)
  reader-stopped (ReaderStep.check_on on) off = absurd (ground arith)
  reader-stopped (ReaderStep.check_off e) off = (off, omega arith, λ t. refl)
  reader-stopped (ReaderStep.read_ok b) off = (off, omega arith, λ t. refl)
  reader-stopped ReaderStep.read_failed off = (refl, omega arith, λ t. refl)
  reader-stopped (ReaderStep.publish b there) off = (off, omega arith, λ t. refl)
  reader-stopped ReaderStep.reset off = (off, omega arith, λ t. refl)
  reader-stopped ReaderStep.notify off = (off, omega arith, λ t. refl)
  reader-stopped ReaderStep.free_arrays off = (off, omega arith, λ t. refl)

  -- What the step of a handler thread does to the ranks, at its own place and elsewhere.
  abbrev Falls : System lib Block → System lib Block → ℕ → HandlerPc → Type 0
  Falls s u t pc =
      (next : HandlerPc) × (u.sync.running ≡ false)
      × (handler_rank next + 1 ≤ handler_rank pc)
      × (u.handler ≡ update s.handler t next)
      × (u.reader ≡ s.reader)

  handler-stopped :
      {s : System lib Block} {t : ℕ} {pc : HandlerPc} {u : System lib Block}
      → HandlerStep lib Block s t pc u
      → s.sync.running ≡ false
      → Falls s u t pc
  unfolding inc_available_handlers data_available_turn notify_read_barrier
  handler-stopped HandlerStep.refuse off = (refused, off, omega arith, refl, refl)
  handler-stopped HandlerStep.accept off = (registering, off, omega arith, refl, refl)
  handler-stopped (HandlerStep.register addr free) off = (inc_notify, off, omega arith, refl, refl)
  handler-stopped HandlerStep.inc_notified off = (welcome, off, omega arith, refl, refl)
  handler-stopped HandlerStep.ready_notified off = (h_test, off, omega arith, refl, refl)
  handler-stopped HandlerStep.dec_notified off = (ending, off, omega arith, refl, refl)
  handler-stopped HandlerStep.welcomed off = (h_test, off, omega arith, refl, refl)
  handler-stopped (HandlerStep.loop_on on) off = absurd (ground arith)
  handler-stopped HandlerStep.loop_off off = (leaving, off, omega arith, refl, refl)
  handler-stopped (HandlerStep.data_wait w) off = absurd (ground arith)
  handler-stopped (HandlerStep.data_there l x) off = (h_check, off, omega arith, refl, refl)
  handler-stopped (HandlerStep.check_on on) off = absurd (ground arith)
  handler-stopped (HandlerStep.check_off e) off = (leaving, off, omega arith, refl, refl)
  handler-stopped (HandlerStep.copy b there) off = (ready, off, omega arith, refl, refl)
  handler-stopped HandlerStep.no_space off = (leaving, off, omega arith, refl, refl)
  handler-stopped {s = s} {t = t} (HandlerStep.report {sync'} done) off =
      (ready_notify, set_ready_running t s.sync sync' done ∙ off, omega arith, refl, refl)
  handler-stopped {s = s} {t = t} (HandlerStep.leave {sync'} done) off =
      (dec_notify, dec_running t s.sync sync' done ∙ off, omega arith, refl, refl)
  handler-stopped HandlerStep.finish off = (ended, off, omega arith, refl, refl)

  -- The other threads leave the ranks alone, but for a launch.
  collector-stopped :
      {s : System lib Block} {pc : CollectorPc} {u : System lib Block} (t : ℕ)
      → CollectorStep lib Block s pc u
      → s.sync.running ≡ false
      → (u.sync.running ≡ false)
        × (handler_rank (u.handler t) ≤ handler_rank (s.handler t))
        × (u.reader ≡ s.reader)
  collector-stopped t (CollectorStep.running_on on) off = (off, omega arith, refl)
  collector-stopped t (CollectorStep.running_off e) off = (off, omega arith, refl)
  collector-stopped t (CollectorStep.some_alive e) off = (off, omega arith, refl)
  collector-stopped t (CollectorStep.none_alive e) off = (off, omega arith, refl)
  collector-stopped t (CollectorStep.dead_wait e) off = (off, omega arith, refl)
  collector-stopped {s = s} t (CollectorStep.collect {h} {sync'} e x) off =
      (dead_running s.sync sync' h x ∙ off, omega arith, refl)
  collector-stopped {s = s} t (CollectorStep.join {h} at) off = (off, ground arith, refl)
  collector-stopped t CollectorStep.free off = (off, omega arith, refl)

  main-stopped :
      {s : System lib Block} {pc : MainPc} {u : System lib Block} (t : ℕ)
      (st : MainStep lib Block s pc u)
      → s.sync.running ≡ false
      → (u.sync.running ≡ false)
        × (handler_rank (u.handler t) ≤ handler_rank (s.handler t) + 8 * launched_by lib Block t st)
        × (u.reader ≡ s.reader)
  main-stopped t (MainStep.launch t' new) off = (off, ground arith, refl)
  main-stopped t (MainStep.no_more e) off = (off, omega arith, refl)
  main-stopped t (MainStep.join_reader e) off = (off, omega arith, refl)
  main-stopped t (MainStep.cancel e) off = (off, omega arith, refl)
  main-stopped t MainStep.finish_sync off = (off, omega arith, refl)

  handler-elsewhere :
      (t t' : ℕ) (hs : ℕ → HandlerPc) (next : HandlerPc)
      → handler_rank next + 1 ≤ handler_rank (hs t')
      → (if t' == t then 1 else 0) + handler_rank (update hs t' next t) ≤ handler_rank (hs t)
  handler-elsewhere t t' hs next less = elim (Bool-cases (t' == t)) [
    | inl here ↦
        let same : t' ≡ t = (==_iff t' t).0 here in
        let less' : handler_rank next + 1 ≤ handler_rank (hs t) = rw same at less in
        rw here (omega arith)
    | inr away ↦ rw away (omega arith)
  ]

  -- Each step takes one off the rank of its thread.
  Step-stopped :
      {s u : System lib Block} (t : ℕ) (st : Step lib Block s u)
      → s.sync.running ≡ false
      → (u.sync.running ≡ false)
        × (by_reader lib Block st + reader_rank u.reader ≤ reader_rank s.reader)
        × (by_handler lib Block t st + handler_rank (u.handler t)
            ≤ handler_rank (s.handler t) + 8 * launching lib Block t st)
  unfolding sig_hnd
  Step-stopped t (reader_step st) off =
      let (still, falls, same) = reader-stopped st off in
      (still, omega arith, rw (same t) (omega arith))
  Step-stopped {s = s} t (handler_step t' st) off =
      let (next, still, falls, goes, reader) = handler-stopped st off in
      (
        still,
        rw reader (omega arith),
        rw goes (omega (arith, handler-elsewhere t t' s.handler next falls)),
      )
  Step-stopped t (collector_step st) off =
      let (still, falls, reader) = collector-stopped t st off in
      (still, rw reader (omega arith), omega arith)
  Step-stopped t (main_step st) off =
      let (still, falls, reader) = main-stopped t st off in
      (still, rw reader (omega arith), omega arith)
  Step-stopped t signal off = (refl, omega arith, omega arith)

  pub Passage-stopped :
      {s u : System lib Block} (t : ℕ) (p : Passage lib Block s u)
      → s.sync.running ≡ false
      → (u.sync.running ≡ false)
        × (reader_steps lib Block p + reader_rank u.reader ≤ reader_rank s.reader)
        × (handler_steps lib Block t p + handler_rank (u.handler t)
            ≤ handler_rank (s.handler t) + 8 * launches lib Block t p)
  Passage-stopped t stay off = (off, omega arith, omega arith)
  Passage-stopped t (go_on p st) off =
      let (still, reader, handler) = Passage-stopped t p off in
      let (still', reader', handler') = Step-stopped t st still in
      (still', omega arith, omega arith)
