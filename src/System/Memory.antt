-- ===== src/System/Memory.antt =====
-- daemon/sync.c and daemon/daemon.c: the handles that `inc_available_handlers` allocates and
-- `dead_handler_thread_main` frees.
pub mod Places
mod Moves
use pm_lab_tools.Prelude.{
  ℕ, Bool, true, ◌≡◌, refl, sym, subst, ◌≢◌, ◌⊎◌, inl, inr, Option, none, some, arith, Option-cases,
}
use pm_lab_tools.Sync.Handles.{Handle}
use pm_lab_tools.Sync.Sets.{PblSets}
use pm_lab_tools.Sync.Phase.{Phase, absent, idle, pending, finished, dead, Cell, cell_of, cell}
use pm_lab_tools.System.{System, Reach, CollectorPc}
use pm_lab_tools.System.Phases.{reach_phases}
use pm_lab_tools.System.Steps.{Reach-Inv}
use Places.{Place, unused, held_by, at_collector, lost, held, address, taken_out, IsCancelled, Kept}
use Moves.{reach_places, Reach-Kept}

-- One of the five sets has the handle, for the thread.
abbrev pub HasHandle : Cell → Handle → Type 0
HasHandle c h =
    (c.in_done ≡ some h)
    ⊎ (c.in_pending ≡ some h)
    ⊎ (c.in_active ≡ some h)
    ⊎ (c.in_alive ≡ some h)
    ⊎ (c.in_dead ≡ some h)

HasHandle-held : (p : Phase) (h : Handle) → HasHandle (cell_of p) h → held p ≡ some h
HasHandle-held p h e = ground arith

held-HasHandle : (p : Phase) (h : Handle) → held p ≡ some h → HasHandle (cell_of p) h
held-HasHandle (idle k) h e = inr (inr (inr (inl e)))
held-HasHandle (pending k) h e = inr (inl e)
held-HasHandle (finished k) h e = inl e
held-HasHandle (dead k) h e = inr (inr (inr (inr e)))
held-HasHandle absent h e = ground arith

module _ (lib : PblSets) (Block : Type 0) where
  in_set :
      {s : System lib Block} (r : Reach lib Block s) (t : ℕ) (h : Handle)
      → HasHandle (cell lib s.sync t) h
      → (reach_places lib Block r h.addr ≡ held_by t) × (h.thread ≡ t)
  in_set r t h e = (Reach-Kept lib Block r).of_set t h (
      HasHandle-held (reach_phases lib Block r t) h
        (subst (λ c. HasHandle c h) ((Reach-Inv lib Block r).shows t) e))

  -- In a reachable state a handle that one of the five sets has is the handle of the thread that it
  -- stands for, and its memory is allocated.
  pub no_dangling :
      {s : System lib Block}
      → Reach lib Block s
      → (t : ℕ) (h : Handle) → HasHandle (cell lib s.sync t) h
      → (h.thread ≡ t) × (s.allocated h.addr ≡ true)
  no_dangling r t h e =
      let (place, own) = in_set r t h e in
      (own, ground (arith, (Reach-Kept lib Block r).counted h.addr))

  -- In a reachable state the handle that the collecting thread joins and then frees is allocated, and
  -- is at another address than the handles in the sets: it is freed once, and not used afterwards.
  pub freed_once :
      {s : System lib Block}
      → Reach lib Block s
      → (h : Handle) (t : ℕ) (k : Handle) → taken_out s.collector ≡ some h
      → HasHandle (cell lib s.sync t) k
      → (s.allocated h.addr ≡ true) × (k.addr ≢ h.addr)
  freed_once r h t k e f =
      let place = (Reach-Kept lib Block r).of_out h e in
      (
        ground (arith, (Reach-Kept lib Block r).counted h.addr),
        λ same. ground (arith, in_set r t k f),
      )

  -- In a reachable state every allocated handle is in a set or with the collecting thread, unless
  -- `main` has cancelled that thread: no handle leaks before the daemon ends.
  pub no_leak :
      {s : System lib Block}
      → Reach lib Block s
      → (a : ℕ) → s.allocated a ≡ true
      → ((t : ℕ) × (h : Handle) × HasHandle (cell lib s.sync t) h × (h.addr ≡ a))
        ⊎ ((h : Handle) × (taken_out s.collector ≡ some h) × (h.addr ≡ a))
        ⊎ IsCancelled s.main_thread
  no_leak {s} r a e = at_place (reach_places lib Block r a) refl
    where
      v :
          Kept s.allocated
            (reach_places lib Block r)
            (reach_phases lib Block r)
            s.collector
            s.main_thread
      v = Reach-Kept lib Block r

      at_place :
          (p : Place)
          → reach_places lib Block r a ≡ p
          → ((t : ℕ) × (h : Handle) × HasHandle (cell lib s.sync t) h × (h.addr ≡ a))
            ⊎ ((h : Handle) × (taken_out s.collector ≡ some h) × (h.addr ≡ a))
            ⊎ IsCancelled s.main_thread
      at_place unused f = ground (arith, v.counted a)
      at_place (held_by t) f = elim (Option-cases (held (reach_phases lib Block r t))) [
        | inl empty ↦ ground (arith, v.in_set a t f)
        | inr (h, there) ↦ inl (
          t,
          h,
          subst (λ c. HasHandle c h) (sym ((Reach-Inv lib Block r).shows t))
              (held-HasHandle _ h there),
          ground (arith, v.in_set a t f),
        )
      ]
      at_place at_collector f = elim (Option-cases (taken_out s.collector)) [
        | inl empty ↦ ground (arith, v.is_out a f)
        | inr (h, there) ↦ inr (inl (h, there, ground (arith, v.is_out a f)))
      ]
      at_place lost f = inr (inr (v.is_lost a f))
