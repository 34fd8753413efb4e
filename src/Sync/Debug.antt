-- ===== src/Sync/Debug.antt =====
-- daemon/sync.c, `debug_set` and `debug_sets`: what they print, and the end of a wait with a timeout,
-- which calls them.
pub mod Sheet
use Prim.Native.String.{String}
use pm_lab_tools.Prelude.{
  ℕ, zero, suc, Bool, true, false, ◌||◌, Option, none, some, List, [], ◌∷◌, ◌++◌, ◌==◌,
  if◌then◌else◌,
}
use pm_lab_tools.Sync.Sets.{PblSets}
use pm_lab_tools.Sync.{Sync, Outcome, returns, aborts, assert_some, ◌>>=◌, ◌>>◌}

-- A call of `printf`: of a text, or of "%lu, " with a thread id.
pub data Printed : Type 0 where
  text : String → Printed
  thread_id : ℕ → Printed

-- What `pthread_cond_timedwait` returns.
pub data Waited : Type 0 where
  woken timed_out wait_error : Waited

-- `if(NULL != debug_str)`
abbrev pub heading : Option String → List Printed
heading none = []
heading (some debug_str) = text debug_str ∷ text "\n" ∷ []

abbrev pub rule : Printed
rule = text "---------------------------------------------------------\n"

module _ (lib : PblSets) where
  open lib use {PblSet, size, get}

  -- The loop of `debug_set`, from a position on.
  unfoldable pub debug_loop : PblSet → ℕ → ℕ → Outcome (List Printed)
  debug_loop set i zero = returns []
  debug_loop set i (suc left) = do
    e ← assert_some (get set i)
    rest ← debug_loop set (suc i) left
    returns (thread_id e.thread ∷ rest)

  -- `debug_set`
  unfoldable pub debug_set : PblSet → Outcome (List Printed)
  debug_set set =
      if size set == 0 then returns (text "<empty>" ∷ []) else debug_loop set 0 (size set)

  -- `debug_sets`
  unfoldable pub debug_sets : Option String → Sync lib → Outcome (List Printed)
  debug_sets debug_str s = do
    alive ← debug_set s.alive_set
    dead ← debug_set s.dead_set
    active ← debug_set s.active_set
    done ← debug_set s.done_set
    pending ← debug_set s.pending_set
    returns (
        heading debug_str
        ++ rule
          ∷ text "ALIVE SET:   "
          ∷ (alive
              ++ text "\n"
                ∷ text "DEAD SET:   "
                ∷ (dead
                    ++ text "\n"
                      ∷ text "ACTIVE SET:  "
                      ∷ (active
                          ++ text "\n"
                            ∷ text "DONE SET:    "
                            ∷ (done
                                ++ text "\n"
                                  ∷ text "PENDING SET: "
                                  ∷ (pending ++ text "\n" ∷ rule ∷ []))))))

  -- What `wait_read_barrier` and `wait_data_available` do behind `pthread_cond_timedwait`, before
  -- they test their loop once more.
  unfoldable pub behind_wait : String → Waited → Sync lib → Outcome (List Printed)
  behind_wait debug_str woken s = returns []
  behind_wait debug_str timed_out s = debug_sets (some debug_str) s
  behind_wait debug_str wait_error s = aborts
