-- ===== src/System/Safety.antt =====
-- What holds in every reachable state of the daemon: exclusion on the sample buffer, the assertions
-- of daemon/sync.c, and the barrier.
use pm_lab_tools.Prelude.{
  ℕ, Bool, true, false, ◌&&◌, ◌||◌, ◌≡◌, ◌≢◌, ◌↔◌, ◌⊎◌, inl, inr, none, some, arith, is_some,
}
use pm_lab_tools.Sync.Handles.{Handle}
use pm_lab_tools.Sync.Sets.{PblSets}
use pm_lab_tools.Sync.Phase.{Phase, pending, holding_up, cell}
use pm_lab_tools.Sync.Refine.{
  set_ready-Shows, dec-Shows, dead_handler_exit-Shows, pending-empty_iff, equals_sets_iff,
}
use pm_lab_tools.Sync.{
  aborts, leave_loop, wait_again, read_barrier_turn, read_barrier_exit, data_available_turn,
  data_available_exit,
}
use pm_lab_tools.System.{
  System, Reach, Crash, HandlerPc, at_read_barrier, at_wait_data, at_set_ready, at_dec,
  at_dead_handler, r_read, r_publish, r_wait, copying, unborn, handshake, refused, registering,
  dec_notify, ending, ended, ReaderPc,
}
use pm_lab_tools.System.Invariant.{Fits, Quiet}
use pm_lab_tools.System.Phases.{at_pc, reach_phases}
use pm_lab_tools.System.Steps.{Reach-Inv}

-- The thread runs between `inc_available_handlers` and `dec_available_handlers`.
abbrev pub IsAtWork : HandlerPc → Type 0
IsAtWork unborn = ⊥
IsAtWork handshake = ⊥
IsAtWork refused = ⊥
IsAtWork registering = ⊥
IsAtWork dec_notify = ⊥
IsAtWork ending = ⊥
IsAtWork ended = ⊥
IsAtWork _ = Unit

at-work :
    (run : Bool) (pc : HandlerPc) (p : Phase) (h : Handle)
    → Fits run pc p
    → p ≡ pending h
    → IsAtWork pc
at-work run unborn p h f e = ground arith
at-work run handshake p h f e = ground arith
at-work run refused p h f e = ground arith
at-work run registering p h f e = ground arith
at-work run dec_notify p h f e = ground arith
at-work run ending p h f e = ground arith
at-work run ended p h f e = ground arith
at-work run _ p h f e = tt

module _ (lib : PblSets) (Block : Type 0) where
  -- The invariant of a reachable state, at a thread.
  reader-Quiet :
      {s : System lib Block} (r : Reach lib Block s) {pc : ReaderPc}
      → s.reader ≡ pc
      → Quiet pc (reach_phases lib Block r)
  reader-Quiet r e = rw e at (Reach-Inv lib Block r).quiet

  handler-Fits :
      {s : System lib Block} (r : Reach lib Block s) (t : ℕ) {pc : HandlerPc}
      → s.handler t ≡ pc
      → Fits s.sync.running pc (reach_phases lib Block r t)
  handler-Fits r t e = at_pc lib Block t e (Reach-Inv lib Block r)

  -- In every reachable state of the daemon, whatever the order in which the threads ran, no
  -- handler copies from the sample buffer while the reading thread reads from the device into it
  -- or publishes what it has read.
  pub no_race :
      {s : System lib Block}
      → Reach lib Block s
      → (s.reader ≡ r_read) ⊎ (s.reader ≡ r_publish)
      → (t : ℕ) → s.handler t ≢ copying
  no_race r (inl w) t e = ground (arith, reader-Quiet r w t, handler-Fits r t e)
  no_race r (inr w) t e = ground (arith, reader-Quiet r w t, handler-Fits r t e)

  -- In every reachable state, for every thread, the done and the pending handlers are disjoint and
  -- together the active ones, the active ones are alive, and none is both alive and dead.
  pub sets_partition :
      {s : System lib Block}
      → Reach lib Block s
      → (k : ℕ)
      → let c = cell lib s.sync k in
        ((is_some c.in_done || is_some c.in_pending) ≡ is_some c.in_active)
        × ((is_some c.in_done && is_some c.in_pending) ≡ false)
        × ((is_some c.in_active && is_some c.in_alive) ≡ is_some c.in_active)
        × ((is_some c.in_alive && is_some c.in_dead) ≡ false)
  sets_partition {s} r k = ground (arith, (Reach-Inv lib Block r).shows k)

  -- An assertion of `wait_read_barrier` that fails finds the daemon stopped and a handler pending.
  barrier_crash :
      {s : System lib Block}
      → Reach lib Block s
      → read_barrier_turn lib s.sync ≡ leave_loop
      → read_barrier_exit lib s.sync ≡ aborts
      → (s.sync.running ≡ false) × (lib.size s.sync.pending_set ≢ 0)
  unfolding read_barrier_turn read_barrier_exit
  barrier_crash {s} r turn x = (
    ground (arith, empty_iff, same_iff),
    λ none_left. ground (arith, same_iff.1 (empty_iff.0 none_left)),
  )
    where
      empty_iff :
          (lib.size s.sync.pending_set ≡ 0)
          ↔ ((k : ℕ) → holding_up (reach_phases lib Block r k) ≡ none)
      empty_iff = pending-empty_iff lib s.sync _ (Reach-Inv lib Block r).shows

      same_iff :
          (lib.equals s.sync.done_set s.sync.active_set ≡ true)
          ↔ ((k : ℕ) → holding_up (reach_phases lib Block r k) ≡ none)
      same_iff = equals_sets_iff lib s.sync _ (Reach-Inv lib Block r).shows

  -- An assertion on the sets that fails is that of `wait_read_barrier`.
  Crash-cases :
      {s : System lib Block}
      → Reach lib Block s
      → Crash lib Block s
      → (s.reader ≡ r_wait) × (s.sync.running ≡ false) × (lib.size s.sync.pending_set ≢ 0)
  unfolding data_available_turn data_available_exit
  Crash-cases r (at_read_barrier e turn x) =
      let (off, some_left) = barrier_crash r turn x in (e, off, some_left)
  Crash-cases r (at_wait_data t e turn x) = ground arith
  Crash-cases {s} r (at_set_ready t e x) =
      let (h, p) = handler-Fits r t e in
      let ran = (set_ready-Shows lib s.sync _ t h (Reach-Inv lib Block r).shows p).0 in cc
  Crash-cases {s} r (at_dec t e x) =
      let (h, p) = handler-Fits r t e in
      let ran = (dec-Shows lib s.sync _ t h (Reach-Inv lib Block r).shows p).0 in cc
  Crash-cases {s} r (at_dead_handler e turn x) =
      let (h, p, ran, v) =
        dead_handler_exit-Shows lib s.sync _ (Reach-Inv lib Block r).shows turn in
      cc

  -- Once the daemon is stopped, a pending handler makes the assertion of `wait_read_barrier` fail.
  stop_crashes :
      (s : System lib Block)
      → s.reader ≡ r_wait
      → s.sync.running ≡ false
      → lib.size s.sync.pending_set ≢ 0
      → Crash lib Block s
  unfolding read_barrier_turn read_barrier_exit
  stop_crashes s e off some_left =
      at_read_barrier e (ground arith) (ground (arith, lib.size_zero_iff s.sync.pending_set))

  -- Of the assertions of daemon/sync.c on the sets (those of `wait_read_barrier`,
  -- `wait_data_available`, `set_ready`, `dec_available_handlers` and `wait_dead_handler`), one that
  -- fails is the next thing that a thread of a reachable state runs exactly if the daemon is stopped
  -- while the reading thread is in `wait_read_barrier` and a handler is pending.
  pub Crash-iff :
      {s : System lib Block}
      → Reach lib Block s
      → (Crash lib Block s
          ↔ ((s.reader ≡ r_wait) × (s.sync.running ≡ false) × (lib.size s.sync.pending_set ≢ 0)))
  Crash-iff {s} r =
      (Crash-cases r, λ c. let (e, off, some_left) = c in stop_crashes s e off some_left)

  -- No deadlock at the barrier: in a reachable state in which the reading thread has to wait, there
  -- is a handler that is pending, is registered and does not have to wait for data.
  pub barrier_waits_for :
      {s : System lib Block}
      → Reach lib Block s
      → read_barrier_turn lib s.sync ≡ wait_again
      → (t : ℕ) × (h : Handle) × (lib.get_element s.sync.pending_set t ≡ some h)
        × (data_available_turn lib t s.sync ≡ leave_loop)
        × IsAtWork (s.handler t)
  unfolding read_barrier_turn data_available_turn
  barrier_waits_for {s} r w =
      let v = Reach-Inv lib Block r in
      let empty_iff = pending-empty_iff lib s.sync _ v.shows in
      let same_iff = equals_sets_iff lib s.sync _ v.shows in
      let (h, first, found) =
        lib.get_first s.sync.pending_set (λ z. ground (arith, same_iff.1 (empty_iff.0 z))) in
      (
        h.thread,
        h,
        found,
        ground arith,
        at-work s.sync.running (s.handler h.thread) (reach_phases lib Block r h.thread) h
            (v.fits h.thread) (ground (arith, v.shows h.thread)),
      )
