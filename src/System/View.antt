-- ===== src/System/View.antt =====
-- The abstract view of a reachable state of the daemon.
use pm_lab_tools.Prelude.{◌≡◌}
use pm_lab_tools.Sync.Sets.{PblSets}
use pm_lab_tools.Sync.Phase.{Phases, Shows}
use pm_lab_tools.Sync.View.{view-IsProp}
use pm_lab_tools.System.{System, Reach}
use pm_lab_tools.System.Phases.{reach_phases}
use pm_lab_tools.System.Steps.{Reach-Inv}

-- In a reachable state there is exactly one way to give each thread a phase so that the five sets of
-- daemon/sync.c hold what the phases say: the type of these ways is contractible.
pub view-IsContr :
    (lib : PblSets) (Block : Type 0) {s : System lib Block}
    → Reach lib Block s
    → (view : (ph : Phases) × Shows lib s.sync ph) × ((other : (ph : Phases) × Shows lib s.sync ph)
        → view ≡ other)
view-IsContr lib Block {s} r =
    let view : (ph : Phases) × Shows lib s.sync ph =
      (reach_phases lib Block r, (Reach-Inv lib Block r).shows) in
    (view, view-IsProp lib s.sync view)
