-- ===== src/Sync.antt =====
-- daemon/sync.c: the sets of handler threads, under one mutex, and the barrier between the thread
-- that reads the measuring device and the handlers that copy what it has read.
-- A section under the mutex is one step on the state; `set_ready`, `inc_available_handlers` and
-- `dec_available_handlers` have two, of which `notify_read_barrier` is the second. A loop round
-- `pthread_cond_timedwait` lets go of the mutex while it waits, and may wake at any time (by its
-- timeout); it is given as what the thread does each time that it has the mutex.
pub mod Handles
pub mod Sets
pub mod Phase
pub mod Refine
pub mod Operations
pub mod Timeout
pub mod View
pub mod Debug
use pm_lab_tools.Prelude.{
  ℕ, Bool, true, false, not, ◌&&◌, Option, none, some, List, [], ◌∷◌, ◌==◌, if◌then◌else◌, is_some,
}
use Handles.{Handle}
use Sets.{PblSets}

-- The condition variables.
pub data Cond : Type 0 where
  cond_read cond_data cond_dead_handler : Cond

-- The end of a function: it returns, or one of its assertions stops the whole process.
pub data Outcome {ℓ} (A : Type ℓ) : Type ℓ where
  returns : A → Outcome A
  aborts : Outcome A

infixl 5 ◌>>=◌ ◌>>◌
abbrev pub ◌>>=◌ {ℓ κ} : {A : Type ℓ} {B : Type κ} → Outcome A → (A → Outcome B) → Outcome B
returns a >>= f = f a
aborts >>= f = aborts

abbrev pub ◌>>◌ {ℓ} : {B : Type ℓ} → Outcome (Unit {0}) → Outcome B → Outcome B
m >> k = m >>= λ _. k

-- `assert(b)`
abbrev pub assert : Bool → Outcome (Unit {0})
assert true = returns tt
assert false = aborts

-- `assert(NULL != p)`, with the pointer.
abbrev pub assert_some {ℓ} : {A : Type ℓ} → Option A → Outcome A
assert_some (some a) = returns a
assert_some none = aborts

-- `assert(NULL == p || q == p)` for two pointers to thread ids.
abbrev pub null_or_same : Option Handle → Handle → Bool
null_or_same none q = true
null_or_same (some p) q = q.addr == p.addr

-- What a wait loop does when it has the mutex: wait once more, or go on.
pub data Wait : Type 0 where
  wait_again leave_loop : Wait

module _ (lib : PblSets) where
  open lib use {
    PblSet, new_hash_set, get_element, add, remove_element, add_all, clear, equals, size, get,
  }

  -- The static variables of sync.c, with `running` of daemon.c, and the broadcasts made so far,
  -- the latest first.
  pub record Sync : Type 0 where
    pub running : Bool
    pub done_set : PblSet
    pub pending_set : PblSet
    pub active_set : PblSet
    pub alive_set : PblSet
    pub dead_set : PblSet
    pub sent : List Cond

  -- `init_sync`, with `running` as daemon.c starts it.
  unfoldable pub init_sync : Sync
  init_sync = record {
    running = true;
    done_set = new_hash_set;
    pending_set = new_hash_set;
    active_set = new_hash_set;
    alive_set = new_hash_set;
    dead_set = new_hash_set;
    sent = [];
  }

  -- `finish_sync`: the sets that it frees.
  pub finish_sync : Sync → List PblSet
  finish_sync s = s.pending_set ∷ s.done_set ∷ s.active_set ∷ s.alive_set ∷ s.dead_set ∷ []

  -- `pthread_cond_broadcast`
  abbrev pub broadcast : Cond → Sync → Sync
  broadcast c s = record s { sent = c ∷ s.sent }

  -- `sig_hnd` of daemon.c
  unfoldable pub sig_hnd : Sync → Sync
  sig_hnd s = record s { running = false }

  -- `notify_read_barrier`
  unfoldable pub notify_read_barrier : Sync → Sync
  notify_read_barrier = broadcast cond_read

  -- `notify_data_available`
  unfoldable pub notify_data_available : Sync → Sync
  notify_data_available = broadcast cond_data

  -- The test of the loop in `wait_read_barrier`.
  unfoldable pub read_barrier_turn : Sync → Wait
  read_barrier_turn s =
      if s.running && not (equals s.done_set s.active_set) then wait_again else leave_loop

  -- The rest of `wait_read_barrier`, after its loop and before the mutex is released.
  unfoldable pub read_barrier_exit : Sync → Outcome (Unit {0})
  read_barrier_exit s = do assert (size s.pending_set == 0); assert (equals s.done_set s.active_set)

  -- The test of the loop in `wait_data_available`.
  unfoldable pub data_available_turn : ℕ → Sync → Wait
  data_available_turn self s =
      if s.running && not (is_some (get_element s.pending_set self)) then wait_again else leave_loop

  -- The rest of `wait_data_available`.
  unfoldable pub data_available_exit : ℕ → Sync → Outcome (Unit {0})
  data_available_exit self s =
      if s.running then assert (is_some (get_element s.pending_set self)) else returns tt

  -- `set_ready`, up to the call of `notify_read_barrier`, which takes the mutex anew.
  unfoldable pub set_ready : ℕ → Sync → Outcome Sync
  set_ready self s = do
    persistent_self ← assert_some (get_element s.active_set self)
    let removal = remove_element s.pending_set persistent_self.thread
    assert removal.0
    returns (record s { done_set = add s.done_set persistent_self; pending_set = removal.1 })

  -- `inc_available_handlers`, up to that call: `addr` is where `malloc` has put the thread's id.
  unfoldable pub inc_available_handlers : ℕ → ℕ → Sync → Sync
  inc_available_handlers addr self s = record s {
    alive_set = add s.alive_set (record { addr = addr; thread = self });
  }

  -- `dec_available_handlers`, up to that call. The lookups through `persistent_self` come before the
  -- assertion that it is no NULL pointer; a NULL key finds nothing.
  unfoldable pub dec_available_handlers : ℕ → Sync → Outcome Sync
  dec_available_handlers self s = do
    persistent_self ← assert_some (get_element s.alive_set self)
    let key = persistent_self.thread
    assert (null_or_same (get_element s.pending_set key) persistent_self)
    assert (null_or_same (get_element s.done_set key) persistent_self)
    assert (null_or_same (get_element s.active_set key) persistent_self)
    let removal = remove_element s.alive_set key
    assert removal.0
    returns (
        broadcast cond_dead_handler (record s {
          alive_set = removal.1;
          pending_set = (remove_element s.pending_set key).1;
          done_set = (remove_element s.done_set key).1;
          active_set = (remove_element s.active_set key).1;
          dead_set = add s.dead_set persistent_self;
        }))

  -- `reset_ready_handlers`. It broadcasts the variable that the reading thread waits for.
  unfoldable pub reset_ready_handlers : Sync → Sync
  reset_ready_handlers s =
      let active = add_all s.active_set s.alive_set in
      broadcast cond_read (record s {
        active_set = active;
        pending_set = add_all s.pending_set active;
        done_set = clear s.done_set;
      })

  -- The test of the loop in `wait_dead_handler`.
  unfoldable pub dead_handler_turn : Sync → Wait
  dead_handler_turn s = if size s.dead_set == 0 then wait_again else leave_loop

  -- The rest of `wait_dead_handler`.
  unfoldable pub dead_handler_exit : Sync → Outcome (Handle × Sync)
  dead_handler_exit s = do
    dead_thread ← assert_some (get s.dead_set 0)
    let removal = remove_element s.dead_set dead_thread.thread
    assert removal.0
    returns (dead_thread, record s { dead_set = removal.1 })

  -- `have_alive_threads`
  unfoldable pub have_alive_threads : Sync → Bool
  have_alive_threads s = not (size s.alive_set == 0)
