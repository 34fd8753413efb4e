-- ===== src/System/Wakeups/Calls.antt =====
-- The wait loops of daemon/sync.c, and which of its functions end a wait.
use pm_lab_tools.Prelude.{ℕ, ◌≡◌, ap, ◌∙◌, Option-cases, inl, inr, List, [], ◌∷◌, ◌++◌, arith}
use pm_lab_tools.Sync.Handles.{Handle}
use pm_lab_tools.Sync.Sets.{PblSets}
use pm_lab_tools.Sync.{
  Sync, Cond, Wait, cond_read, cond_data, cond_dead_handler, wait_again, leave_loop, returns,
  read_barrier_turn, data_available_turn, dead_handler_turn, set_ready, dec_available_handlers,
  inc_available_handlers, notify_data_available, notify_read_barrier, dead_handler_exit,
}

-- The loops: of `wait_read_barrier`, of `wait_data_available` in a thread, of `wait_dead_handler`.
pub data Loop : Type 0 where
  read_barrier : Loop
  data_available : ℕ → Loop
  dead_handler : Loop

-- The variable that a loop waits for.
abbrev pub cond_of : Loop → Cond
cond_of read_barrier = cond_read
cond_of (data_available t) = cond_data
cond_of dead_handler = cond_dead_handler

module _ (lib : PblSets) where
  -- The test of a loop.
  abbrev pub turn : Loop → Sync lib → Wait
  turn read_barrier s = read_barrier_turn lib s
  turn (data_available t) s = data_available_turn lib t s
  turn dead_handler s = dead_handler_turn lib s

  -- Between the two states the variable has been broadcast.
  abbrev pub Broadcasts : Cond → Sync lib → Sync lib → Type 0
  Broadcasts c s u = (after before : List Cond) × (u.sent ≡ after ++ (c ∷ (before ++ s.sent)))

  -- A removal from the pending set wakes no handler.
  removed-turn :
      (t key : ℕ) (s u : Sync lib)
      → u.pending_set ≡ (lib.remove_element s.pending_set key).1
      → u.running ≡ s.running
      → data_available_turn lib t s ≡ wait_again
      → data_available_turn lib t u ≡ leave_loop
      → ⊥
  unfolding data_available_turn
  removed-turn t key s u same on waits leaves =
      let without =
        ap (λ p. lib.get_element p t) same ∙ lib.get_element-remove s.pending_set key t in
      ground (arith, without)

  set_ready-pending :
      (self : ℕ) (s u : Sync lib)
      → set_ready lib self s ≡ returns u
      → (key : ℕ) × (u.pending_set ≡ (lib.remove_element s.pending_set key).1)
        × (u.running ≡ s.running)
  unfolding set_ready
  set_ready-pending self s u e = elim (Option-cases (lib.get_element s.active_set self)) [
    | inl nothing ↦ absurd (ground arith)
    | inr (h, found) ↦ (h.thread, ground arith, ground arith)
  ]

  dec-pending :
      (self : ℕ) (s u : Sync lib)
      → dec_available_handlers lib self s ≡ returns u
      → (key : ℕ) × (u.pending_set ≡ (lib.remove_element s.pending_set key).1)
        × (u.running ≡ s.running)
  unfolding dec_available_handlers
  dec-pending self s u e = elim (Option-cases (lib.get_element s.alive_set self)) [
    | inl nothing ↦ absurd (ground arith)
    | inr (h, found) ↦ (h.thread, ground arith, ground arith)
  ]

  -- Such a change of the sets ends no wait but that of the reading thread, and a broadcast of
  -- `cond_read` is to come; `dec_available_handlers` broadcasts for the collecting thread itself.
  abbrev pub Owes : Loop → Sync lib → Sync lib → Type 0
  Owes read_barrier s u = Unit
  Owes w s u = Broadcasts (cond_of w) s u

  pub set_ready-turn :
      (w : Loop) (self : ℕ) (s u : Sync lib)
      → set_ready lib self s ≡ returns u
      → turn w s ≡ wait_again
      → turn w u ≡ leave_loop
      → Owes w s u
  unfolding set_ready data_available_turn dead_handler_turn
  set_ready-turn read_barrier self s u e waits leaves = tt
  set_ready-turn (data_available t) self s u e waits leaves =
      let (key, same, on) = set_ready-pending self s u e in
      absurd (removed-turn t key s u same on waits leaves)
  set_ready-turn dead_handler self s u e waits leaves = absurd (ground arith)

  pub dec-turn :
      (w : Loop) (self : ℕ) (s u : Sync lib)
      → dec_available_handlers lib self s ≡ returns u
      → turn w s ≡ wait_again
      → turn w u ≡ leave_loop
      → Owes w s u
  unfolding dec_available_handlers data_available_turn dead_handler_turn
  dec-turn read_barrier self s u e waits leaves = tt
  dec-turn (data_available t) self s u e waits leaves =
      let (key, same, on) = dec-pending self s u e in
      absurd (removed-turn t key s u same on waits leaves)
  dec-turn dead_handler self s u e waits leaves = ([], [], ground arith)

  -- The turn of a loop under what does not change what it looks at.
  pub collect-turn :
      (w : Loop) (s u : Sync lib) (h : Handle)
      → dead_handler_turn lib s ≡ leave_loop
      → dead_handler_exit lib s ≡ returns (h, u)
      → turn w s ≡ wait_again
      → turn w u ≡ leave_loop
      → ⊥
  unfolding dead_handler_exit read_barrier_turn data_available_turn dead_handler_turn
  collect-turn read_barrier s u h there e waits leaves = ground arith
  collect-turn (data_available t) s u h there e waits leaves = ground arith
  collect-turn dead_handler s u h there e waits leaves = ground arith

  pub inc-turn :
      (w : Loop) (addr self : ℕ) (s : Sync lib)
      → turn w s ≡ wait_again
      → turn w (inc_available_handlers lib addr self s) ≡ leave_loop
      → Owes w s (inc_available_handlers lib addr self s)
  unfolding inc_available_handlers data_available_turn dead_handler_turn
  inc-turn read_barrier addr self s waits leaves = tt
  inc-turn (data_available t) addr self s waits leaves = absurd (ground arith)
  inc-turn dead_handler addr self s waits leaves = absurd (ground arith)

  pub read-turn :
      (w : Loop) (s : Sync lib)
      → turn w s ≡ wait_again
      → turn w (notify_read_barrier lib s) ≡ leave_loop
      → ⊥
  unfolding notify_read_barrier read_barrier_turn data_available_turn dead_handler_turn
  read-turn read_barrier s waits leaves = ground arith
  read-turn (data_available t) s waits leaves = ground arith
  read-turn dead_handler s waits leaves = ground arith

  pub notify-turn :
      (w : Loop) (s : Sync lib)
      → turn w s ≡ wait_again
      → turn w (notify_data_available lib s) ≡ leave_loop
      → ⊥
  unfolding notify_data_available read_barrier_turn data_available_turn dead_handler_turn
  notify-turn read_barrier s waits leaves = ground arith
  notify-turn (data_available t) s waits leaves = ground arith
  notify-turn dead_handler s waits leaves = ground arith
