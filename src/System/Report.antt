-- ===== src/System/Report.antt =====
-- daemon/sync.c, what a wait prints behind a timeout, in a reachable state of the daemon.
use Prim.Native.String.{String}
use pm_lab_tools.Prelude.{ℕ, ◌≡◌, refl, ◌&&◌, ◌||◌, false, List, [], ◌∷◌, ◌++◌, is_some}
use pm_lab_tools.Sync.Sets.{PblSets}
use pm_lab_tools.Sync.Phase.{cell}
use pm_lab_tools.Sync.{Sync, returns}
use pm_lab_tools.Sync.Debug.{Printed, text, rule, debug_sets, behind_wait, timed_out}
use pm_lab_tools.Sync.Debug.Sheet.{line, contains, debug_set_lem}
use pm_lab_tools.System.{System, Reach}
use pm_lab_tools.System.Safety.{sets_partition}

-- A line for each set, between two rules.
abbrev pub sheet : String → List ℕ → List ℕ → List ℕ → List ℕ → List ℕ → List Printed
sheet debug_str alive dead active done pending =
    text debug_str
    ∷ text "\n"
    ∷ rule
    ∷ text "ALIVE SET:   "
    ∷ (line alive
        ++ text "\n"
          ∷ text "DEAD SET:   "
          ∷ (line dead
              ++ text "\n"
                ∷ text "ACTIVE SET:  "
                ∷ (line active
                    ++ text "\n"
                      ∷ text "DONE SET:    "
                      ∷ (line done
                          ++ text "\n"
                            ∷ text "PENDING SET: "
                            ∷ (line pending ++ text "\n" ∷ rule ∷ [])))))

-- Five lists of ids, for each thread: the done and the pending ones make up the active ones, none is
-- both done and pending, the active ones are alive, and none is both alive and dead.
abbrev pub AreInStep : List ℕ → List ℕ → List ℕ → List ℕ → List ℕ → Type 0
AreInStep alive dead active done pending =
    (k : ℕ)
    → ((contains done k || contains pending k) ≡ contains active k)
      × ((contains done k && contains pending k) ≡ false)
      × ((contains active k && contains alive k) ≡ contains active k)
      × ((contains alive k && contains dead k) ≡ false)

-- The lists hold the ids of the threads that the sets have.
abbrev pub Lists : (lib : PblSets) → Sync lib → List ℕ → List ℕ → List ℕ → List ℕ → List ℕ → Type 0
Lists lib s alive dead active done pending =
    (k : ℕ)
    → let c = cell lib s k in
      (contains alive k ≡ is_some c.in_alive)
      × (contains dead k ≡ is_some c.in_dead)
      × (contains active k ≡ is_some c.in_active)
      × (contains done k ≡ is_some c.in_done)
      × (contains pending k ≡ is_some c.in_pending)

-- In every reachable state, a wait that has timed out prints the five sets and does not fail an
-- assertion: a line for each set between two rules, with the ids of the threads in it, and no
-- others, or "<empty>" if there are none. The ids on the lines show that the done and the pending handlers are disjoint and together the active
-- ones, that the active ones are alive, and that none is both alive and dead.
pub behind_wait-sheet :
    (lib : PblSets) (Block : Type 0) (debug_str : String) {s : System lib Block}
    → Reach lib Block s
    → (alive : List ℕ) × (dead : List ℕ) × (active : List ℕ) × (done : List ℕ) × (pending : List ℕ)
      × (behind_wait lib debug_str timed_out s.sync
          ≡ returns (sheet debug_str alive dead active done pending))
      × Lists lib s.sync alive dead active done pending
      × AreInStep alive dead active done pending
unfolding behind_wait debug_sets
behind_wait-sheet lib Block debug_str {s} r =
    let (alive, p₁, m₁) = debug_set_lem lib s.sync.alive_set in
    let (dead, p₂, m₂) = debug_set_lem lib s.sync.dead_set in
    let (active, p₃, m₃) = debug_set_lem lib s.sync.active_set in
    let (done, p₄, m₄) = debug_set_lem lib s.sync.done_set in
    let (pending, p₅, m₅) = debug_set_lem lib s.sync.pending_set in
    (
      alive,
      dead,
      active,
      done,
      pending,
      rw (p₁, p₂, p₃, p₄, p₅) refl,
      λ k. (m₁ k, m₂ k, m₃ k, m₄ k, m₅ k),
      λ k. rw (m₁ k, m₂ k, m₃ k, m₄ k, m₅ k) (sets_partition lib Block r k),
    )
