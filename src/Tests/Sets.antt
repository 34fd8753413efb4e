-- ===== src/Tests/Sets.antt =====
-- The operations on the sets of handlers, with one handler.
use pm_lab_tools.Prelude.{◌≡◌, refl}
use pm_lab_tools.Sync.Handles.{Handle}
use pm_lab_tools.Sync.Phase.{absent, idle, dead, Phases, update, renew, Shows}
use pm_lab_tools.Sync.{Sync, returns, init_sync, inc_available_handlers, reset_ready_handlers}
use pm_lab_tools.Sync.Operations.{leave, collect, perform, Moves, perform_refines}
use pm_lab_tools.Sync.Refine.{init_sync-Shows, inc-Shows, reset-Shows, dec-Shows, after_dec}
use pm_lab_tools.Tests.ListSets.{list_sets}

abbrev client : Handle
client = record { addr = 100; thread = 7 }

abbrev none_there : Phases
none_there = λ _. absent

abbrev joined : Phases
joined = update none_there 7 (idle client)

abbrev in_round : Phases
in_round = λ k. renew (joined k)

abbrev gone : Phases
gone = update in_round 7 (dead client)

unfoldable s_joined : Sync list_sets
s_joined = inc_available_handlers list_sets 100 7 (init_sync list_sets)

unfoldable s_round : Sync list_sets
s_round = reset_ready_handlers list_sets s_joined

unfoldable s_gone : Sync list_sets
s_gone = after_dec list_sets client s_round

joined-Shows : Shows list_sets s_joined joined
unfolding s_joined
joined-Shows =
    inc-Shows list_sets (init_sync list_sets) none_there 100 7 (init_sync-Shows list_sets) refl

round-Shows : Shows list_sets s_round in_round
unfolding s_round
round-Shows = reset-Shows list_sets s_joined joined joined-Shows

gone-Shows : Shows list_sets s_gone gone
unfolding s_gone
gone-Shows = (dec-Shows list_sets s_round in_round 7 client round-Shows refl).1

perform_refines_example :
    (s' : Sync list_sets) × (ph' : Phases) × (perform list_sets (leave 7) s_round ≡ returns s')
    × Moves (leave 7) in_round ph'
    × Shows list_sets s' ph'
perform_refines_example =
    perform_refines list_sets (leave 7) s_round in_round round-Shows (client, refl)

-- The handler that has left is collected.
collected :
    (s' : Sync list_sets) × (ph' : Phases) × (perform list_sets collect s_gone ≡ returns s')
    × Moves collect gone ph'
    × Shows list_sets s' ph'
collected = perform_refines list_sets collect s_gone gone gone-Shows (7, client, refl)
