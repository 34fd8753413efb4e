-- ===== src/Sync/Operations.antt =====
-- daemon/sync.c against its abstract view: the functions that change the sets, as operations, and the
-- moves of the phases that they stand for.
use pm_lab_tools.Prelude.{ℕ, ◌≡◌, refl, some, arith}
use pm_lab_tools.Sync.Handles.{Handle}
use pm_lab_tools.Sync.Sets.{PblSets}
use pm_lab_tools.Sync.Phase.{
  Phases, absent, idle, pending, finished, dead, update, renew, registered, Shows,
}
use pm_lab_tools.Sync.{
  Sync, Outcome, returns, leave_loop, ◌>>=◌, set_ready, inc_available_handlers,
  dec_available_handlers, reset_ready_handlers, dead_handler_turn, dead_handler_exit,
}
use pm_lab_tools.Sync.Refine.{
  inc-Shows, reset-Shows, set_ready-Shows, after_ready, dec-Shows, after_dec,
  dead_handler_exit-Shows, after_collect,
}

pub data Operation : Type 0 where
  -- `inc_available_handlers`, with the address of its handle, and the calling thread
  register : ℕ → ℕ → Operation
  -- `set_ready`, and `dec_available_handlers`
  report leave : ℕ → Operation
  -- `reset_ready_handlers`
  begin_round : Operation
  -- `wait_dead_handler`, behind its loop
  collect : Operation

-- Where the callers may call it.
abbrev pub Enabled : Operation → Phases → Type 0
Enabled (register addr self) ph = ph self ≡ absent
Enabled (report self) ph = (h : Handle) × (ph self ≡ pending h)
Enabled (leave self) ph = (h : Handle) × (registered (ph self) ≡ some h)
Enabled begin_round ph = Unit
Enabled collect ph = (k : ℕ) × (h : Handle) × (ph k ≡ dead h)

-- The move that it stands for: the phases before and after it. `collect` is free to choose among the
-- dead handlers.
abbrev pub Moves : Operation → Phases → Phases → Type 0
Moves (register addr self) ph ph' =
    ph' ≡ update ph self (idle (record { addr = addr; thread = self }))
Moves (report self) ph ph' =
    (h : Handle) × (ph self ≡ pending h) × (ph' ≡ update ph self (finished h))
Moves (leave self) ph ph' =
    (h : Handle) × (registered (ph self) ≡ some h) × (ph' ≡ update ph self (dead h))
Moves begin_round ph ph' = ph' ≡ (λ k. renew (ph k))
Moves collect ph ph' = (h : Handle) × (ph h.thread ≡ dead h) × (ph' ≡ update ph h.thread absent)

module _ (lib : PblSets) where
  unfoldable pub perform : Operation → Sync lib → Outcome (Sync lib)
  perform (register addr self) s = returns (inc_available_handlers lib addr self s)
  perform (report self) s = set_ready lib self s
  perform (leave self) s = dec_available_handlers lib self s
  perform begin_round s = returns (reset_ready_handlers lib s)
  perform collect s = do (h, s') ← dead_handler_exit lib s; returns s'

  -- A handler is dead, so the loop of `wait_dead_handler` ends.
  dead_there :
      (s : Sync lib) (ph : Phases) (k : ℕ) (h : Handle)
      → Shows lib s ph
      → ph k ≡ dead h
      → dead_handler_turn lib s ≡ leave_loop
  unfolding dead_handler_turn
  dead_there s ph k h v e =
      ground (arith, v k, λ (z : lib.size s.dead_set ≡ 0). (lib.size_zero_iff s.dead_set).0 z k)

  -- Where the sets show the phases of the handlers, and the operation is enabled there, its function
  -- returns without a failed assertion, and the sets then show the phases behind the move that it
  -- stands for, those of the other handlers being as they were.
  pub perform_refines :
      (operation : Operation) (s : Sync lib) (ph : Phases)
      → Shows lib s ph
      → Enabled operation ph
      → (s' : Sync lib) × (ph' : Phases) × (perform operation s ≡ returns s')
        × Moves operation ph ph'
        × Shows lib s' ph'
  unfolding perform
  perform_refines (register addr self) s ph v e =
      (_, _, refl, refl, inc-Shows lib s ph addr self v e)
  perform_refines (report self) s ph v (h, e) =
      let (ran, shown) = set_ready-Shows lib s ph self h v e in
      (after_ready lib h s, _, ran, (h, e, refl), shown)
  perform_refines (leave self) s ph v (h, e) =
      let (ran, shown) = dec-Shows lib s ph self h v e in
      (after_dec lib h s, _, ran, (h, e, refl), shown)
  perform_refines begin_round s ph v e = (_, _, refl, refl, reset-Shows lib s ph v)
  perform_refines collect s ph v (k, d, e) =
      let (h, was, ran, shown) = dead_handler_exit-Shows lib s ph v (dead_there s ph k d v e) in
      (after_collect lib h s, _, rw ran refl, (h, was, refl), shown)
