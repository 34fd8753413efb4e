-- ===== src/Sync/Phase.antt =====
-- The abstract view of daemon/sync.c: the phase that each handler thread is in. The five sets of a
-- consistent state say no more than this; the comment above `pthread_hash` ("done + pending =
-- active, active in alive") is part of it.
use pm_lab_tools.Prelude.{ℕ, ◌≡◌, Option, none, some, ◌==◌, if◌then◌else◌}
use pm_lab_tools.Sync.Handles.{Handle}
use pm_lab_tools.Sync.Sets.{PblSets}
use pm_lab_tools.Sync.{Sync}

pub data Phase : Type 0 where
  -- not registered
  absent : Phase
  -- registered after the current data was published: has no part in the round
  idle : Handle → Phase
  -- has yet to copy the current data
  pending : Handle → Phase
  -- has copied it
  finished : Handle → Phase
  -- has left, and is not yet collected
  dead : Handle → Phase

-- What the five sets hold for one thread.
pub record Cell : Type 0 where
  pub in_done : Option Handle
  pub in_pending : Option Handle
  pub in_active : Option Handle
  pub in_alive : Option Handle
  pub in_dead : Option Handle

abbrev pub cell_of : Phase → Cell
cell_of absent = record {
  in_done = none;
  in_pending = none;
  in_active = none;
  in_alive = none;
  in_dead = none;
}
cell_of (idle h) = record {
  in_done = none;
  in_pending = none;
  in_active = none;
  in_alive = some h;
  in_dead = none;
}
cell_of (pending h) = record {
  in_done = none;
  in_pending = some h;
  in_active = some h;
  in_alive = some h;
  in_dead = none;
}
cell_of (finished h) = record {
  in_done = some h;
  in_pending = none;
  in_active = some h;
  in_alive = some h;
  in_dead = none;
}
cell_of (dead h) = record {
  in_done = none;
  in_pending = none;
  in_active = none;
  in_alive = none;
  in_dead = some h;
}

abbrev pub Phases : Type 0
Phases = ℕ → Phase

abbrev pub update {ℓ} : {A : Type ℓ} → (ℕ → A) → ℕ → A → ℕ → A
update f i a k = if i == k then a else f k

-- A new round: every registered handler has to copy.
abbrev pub renew : Phase → Phase
renew (idle h) = pending h
renew (finished h) = pending h
renew p = p

-- The move of a handler that has copied the current data.
abbrev pub complete : Phase → Phase
complete (pending h) = finished h
complete p = p

-- The move of a handler that leaves.
abbrev pub bury : Phase → Phase
bury (idle h) = dead h
bury (pending h) = dead h
bury (finished h) = dead h
bury p = p

-- The handle of a registered thread.
abbrev pub registered : Phase → Option Handle
registered (idle h) = some h
registered (pending h) = some h
registered (finished h) = some h
registered p = none

-- The handle of a thread that holds up the reading thread.
abbrev pub holding_up : Phase → Option Handle
holding_up (pending h) = some h
holding_up p = none

module _ (lib : PblSets) where
  open lib use {get_element}

  abbrev pub cell : Sync lib → ℕ → Cell
  cell s k = record {
    in_done = get_element s.done_set k;
    in_pending = get_element s.pending_set k;
    in_active = get_element s.active_set k;
    in_alive = get_element s.alive_set k;
    in_dead = get_element s.dead_set k;
  }

  -- The sets hold what the phases say, for every thread.
  abbrev pub Shows : Sync lib → Phases → Type 0
  Shows s ph = (k : ℕ) → cell s k ≡ cell_of (ph k)
