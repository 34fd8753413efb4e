-- ===== src/Sync/View.antt =====
-- The abstract view of daemon/sync.c is determined by the five sets.
use mathlib.Core.Path.{fun_ext}
use std.HLevel.{Σ_prop_path}
use pm_lab_tools.Prelude.{◌≡◌, sym, ◌∙◌, arith, ℕ_discrete}
use pm_lab_tools.Sync.Sets.{PblSets}
use pm_lab_tools.Sync.{Sync}
use pm_lab_tools.Sync.Phase.{Phase, Phases, Cell, cell_of, Shows}

Cell-IsSet : IsSet Cell
Cell-IsSet = hlevel ℕ_discrete

cell_of-injective : (p q : Phase) → cell_of p ≡ cell_of q → p ≡ q
cell_of-injective p q e = ground arith

-- The view is a proposition: the sets show at most one assignment of phases to the threads, in one way.
pub view-IsProp : (lib : PblSets) (s : Sync lib) → IsProp ((ph : Phases) × Shows lib s ph)
view-IsProp lib s a b =
    Σ_prop_path (λ ph. hlevel Cell-IsSet)
      (fun_ext λ k. cell_of-injective (a.0 k) (b.0 k) (sym (a.1 k) ∙ b.1 k))
