-- ===== src/Sync/Refine.antt =====
-- daemon/sync.c implements the phases: each function makes the move of the abstract view, and its
-- assertions hold.
use pm_lab_tools.Prelude.{ℕ, ◌≡◌, ◌↔◌, none, some, true, ◌∷◌, arith}
use pm_lab_tools.Sync.Handles.{Handle}
use pm_lab_tools.Sync.Sets.{PblSets}
use pm_lab_tools.Sync.Phase.{
  absent, idle, pending, finished, dead, Phases, update, renew, registered, holding_up, Shows,
}
use pm_lab_tools.Sync.{
  Sync, returns, leave_loop, cond_dead_handler, init_sync, set_ready, inc_available_handlers,
  dec_available_handlers, reset_ready_handlers, dead_handler_turn, dead_handler_exit,
}

module _ (lib : PblSets) where
  open lib use {
    get_element, get_element-new, get_element-thread, get_element-add, removed, get_element-remove,
    get_element-add_all, get_element-clear,
  }

  pub init_sync-Shows : Shows lib (init_sync lib) (λ _. absent)
  unfolding init_sync
  init_sync-Shows k = ground (arith, get_element-new k)

  pub inc-Shows :
      (s : Sync lib) (ph : Phases) (addr self : ℕ)
      → Shows lib s ph
      → ph self ≡ absent
      → Shows lib
          (inc_available_handlers lib addr self s)
          (update ph self (idle (record { addr = addr; thread = self })))
  unfolding inc_available_handlers
  inc-Shows s ph addr self v e k =
      ground (arith, v k, get_element-add s.alive_set (record { addr = addr; thread = self }) k)

  -- Where the sets show the phases of the handlers, `reset_ready_handlers` makes every registered
  -- handler pending, also one that joined during the round before, and no other.
  pub reset-Shows :
      (s : Sync lib) (ph : Phases)
      → Shows lib s ph
      → Shows lib (reset_ready_handlers lib s) (λ k. renew (ph k))
  unfolding reset_ready_handlers
  reset-Shows s ph v k = ground (
    arith,
    v k,
    get_element-add_all s.active_set s.alive_set k,
    get_element-add_all s.pending_set (lib.add_all s.active_set s.alive_set) k,
    get_element-clear s.done_set k,
  )

  -- The state that `set_ready` leaves, for the handle that it finds.
  abbrev pub after_ready : Handle → Sync lib → Sync lib
  after_ready h s = record s {
    done_set = lib.add s.done_set h;
    pending_set = (lib.remove_element s.pending_set h.thread).1;
  }

  -- Where the sets show the phases of the handlers and the calling handler is pending, `set_ready`
  -- returns, and the sets then show it finished and the others as they were.
  pub set_ready-Shows :
      (s : Sync lib) (ph : Phases) (self : ℕ) (h : Handle)
      → Shows lib s ph
      → ph self ≡ pending h
      → (set_ready lib self s ≡ returns (after_ready h s))
        × Shows lib (after_ready h s) (update ph self (finished h))
  unfolding set_ready
  set_ready-Shows s ph self h v e = (
    ground (arith, v self, get_element-thread s.active_set self h, removed s.pending_set h.thread),
    λ k. ground (
      arith,
      v self,
      v k,
      get_element-thread s.active_set self h,
      get_element-add s.done_set h k,
      get_element-remove s.pending_set h.thread k,
    ),
  )

  -- The state that `dec_available_handlers` leaves.
  abbrev pub after_dec : Handle → Sync lib → Sync lib
  after_dec h s = record s {
    alive_set = (lib.remove_element s.alive_set h.thread).1;
    pending_set = (lib.remove_element s.pending_set h.thread).1;
    done_set = (lib.remove_element s.done_set h.thread).1;
    active_set = (lib.remove_element s.active_set h.thread).1;
    dead_set = lib.add s.dead_set h;
    sent = cond_dead_handler ∷ s.sent;
  }

  -- Where the sets show the phases of the handlers and the calling handler is registered,
  -- `dec_available_handlers` returns, its assertions hold, and the sets then show it dead and the
  -- others as they were.
  pub dec-Shows :
      (s : Sync lib) (ph : Phases) (self : ℕ) (h : Handle)
      → Shows lib s ph
      → registered (ph self) ≡ some h
      → (dec_available_handlers lib self s ≡ returns (after_dec h s))
        × Shows lib (after_dec h s) (update ph self (dead h))
  unfolding dec_available_handlers
  dec-Shows s ph self h v e = (
    ground (arith, v self, get_element-thread s.alive_set self h, removed s.alive_set h.thread),
    λ k. ground (
      arith,
      v self,
      v k,
      get_element-thread s.alive_set self h,
      get_element-add s.dead_set h k,
      get_element-remove s.alive_set h.thread k,
      get_element-remove s.pending_set h.thread k,
      get_element-remove s.done_set h.thread k,
      get_element-remove s.active_set h.thread k,
    ),
  )

  -- The state that `wait_dead_handler` leaves.
  abbrev pub after_collect : Handle → Sync lib → Sync lib
  after_collect h s = record s { dead_set = (lib.remove_element s.dead_set h.thread).1 }

  -- Where the sets show the phases of the handlers and `wait_dead_handler` does not wait, it
  -- returns the handle of a dead handler, and the sets then show that handler absent and the
  -- others as they were.
  pub dead_handler_exit-Shows :
      (s : Sync lib) (ph : Phases)
      → Shows lib s ph
      → dead_handler_turn lib s ≡ leave_loop
      → (h : Handle) × (ph h.thread ≡ dead h)
        × (dead_handler_exit lib s ≡ returns (h, after_collect h s))
        × Shows lib (after_collect h s) (update ph h.thread absent)
  unfolding dead_handler_turn dead_handler_exit
  dead_handler_exit-Shows s ph v e =
      let (h, first, found) = lib.get_first s.dead_set (ground arith) in
      (
        h,
        ground (arith, v h.thread, found),
        ground (arith, first, found, removed s.dead_set h.thread),
        λ k. ground (arith, v k, v h.thread, found, get_element-remove s.dead_set h.thread k),
      )

  -- Where the sets show the phases of the handlers, the done set equals the active set exactly if
  -- no handler is pending.
  pub equals_sets_iff :
      (s : Sync lib) (ph : Phases)
      → Shows lib s ph
      → (lib.equals s.done_set s.active_set ≡ true) ↔ ((k : ℕ) → holding_up (ph k) ≡ none)
  equals_sets_iff s ph v = (
    λ same k. ground (arith, v k, (lib.equals_iff s.done_set s.active_set).0 same k),
    λ none_left. (lib.equals_iff s.done_set s.active_set).1 λ k. ground (arith, v k, none_left k),
  )

  pub pending-empty_iff :
      (s : Sync lib) (ph : Phases)
      → Shows lib s ph
      → (lib.size s.pending_set ≡ 0) ↔ ((k : ℕ) → holding_up (ph k) ≡ none)
  pending-empty_iff s ph v = (
    λ empty k. ground (arith, v k, (lib.size_zero_iff s.pending_set).0 empty k),
    λ none_left. (lib.size_zero_iff s.pending_set).1 λ k. ground (arith, v k, none_left k),
  )
