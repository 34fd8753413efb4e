-- ===== src/Tests/Handles.antt =====
-- The memory of handles, at runs with one client.
use pm_lab_tools.Prelude.{ℕ, true, ◌≡◌, refl, ◌≢◌, ◌⊎◌, inl, inr, some}
use pm_lab_tools.Sync.Handles.{Handle}
use pm_lab_tools.Sync.Phase.{cell}
use pm_lab_tools.Sync.{dec_available_handlers, dead_handler_turn, dead_handler_exit}
use pm_lab_tools.System.{System, HandlerStep, CollectorStep, MainStep, next, collector_step}
use pm_lab_tools.System.Memory.{HasHandle, no_dangling, freed_once, no_leak}
use pm_lab_tools.System.Memory.Places.{taken_out, IsCancelled}
use pm_lab_tools.Tests.ListSets.{list_sets}
use pm_lab_tools.Tests.Runs.{Run, handler, main, served}

abbrev client : Handle
client = record { addr = 100; thread = 7 }

abbrev client_2 : Handle
client_2 = record { addr = 200; thread = 9 }

abbrev collector :
    (r : Run) {u : System list_sets ℕ} → CollectorStep list_sets ℕ r.last r.last.collector u → Run
collector r {u} st = record { last = u; reach = next r.reach (collector_step st) }

-- The client leaves, the collecting thread takes its handle out, and another client registers.
unfoldable changed : Run
unfolding served dec_available_handlers dead_handler_turn dead_handler_exit
changed =
    let r₁ = handler served 7 HandlerStep.loop_off in
    let r₂ = handler r₁ 7 (HandlerStep.leave refl) in
    let r₃ = collector r₂ (CollectorStep.running_on refl) in
    let r₄ = collector r₃ (CollectorStep.collect refl refl) in
    let r₅ = main r₄ (MainStep.launch 9 refl) in
    let r₆ = handler r₅ 9 HandlerStep.accept in handler r₆ 9 (HandlerStep.register 200 refl)

no_dangling_example : (client.thread ≡ 7) × (served.last.allocated 100 ≡ true)
unfolding served
no_dangling_example = no_dangling list_sets ℕ served.reach 7 client (inl refl)

freed_once_example : (changed.last.allocated 100 ≡ true) × (client_2.addr ≢ 100)
unfolding changed
freed_once_example =
    freed_once list_sets ℕ changed.reach client 9 client_2 refl (inr (inr (inr (inl refl))))

no_leak_example :
    ((t : ℕ) × (h : Handle) × HasHandle (cell list_sets served.last.sync t) h × (h.addr ≡ 100))
    ⊎ ((h : Handle) × (taken_out served.last.collector ≡ some h) × (h.addr ≡ 100))
    ⊎ IsCancelled served.last.main_thread
unfolding served
no_leak_example = no_leak list_sets ℕ served.reach 100 refl
