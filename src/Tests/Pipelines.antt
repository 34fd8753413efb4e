-- ===== src/Tests/Pipelines.antt =====
-- A block of samples on its way from the device to the sender of a client.
use pm_lab_tools.Prelude.{ℕ, ◌≡◌, refl, Option, some, List, [], ◌∷◌, ◌++◌}
use mathlib.Core.List.{reverse}
use pm_lab_tools.Sync.{
  notify_read_barrier, read_barrier_turn, read_barrier_exit, data_available_turn,
  data_available_exit, init_sync, inc_available_handlers, reset_ready_handlers,
  notify_data_available,
}
use pm_lab_tools.Handler.Buffer.{
  InputData, init_buffer, copy_to_buffer, copy_loop, copy_input, take_element,
}
use pm_lab_tools.Handler.History.{copies}
use pm_lab_tools.System.{ReaderStep, HandlerStep, init}
use pm_lab_tools.System.Pipeline.{
  Pipeline, PipelineStep, PipelineReach, start, next, empty_pipeline, launch, copy, take,
  reader_alone, handler_alone,
}
use pm_lab_tools.System.Pipeline.Delivered.{taken-published}
use pm_lab_tools.Tests.ListSets.{list_sets}
use pm_lab_tools.Tests.RoundTrip.{analog, digital}

-- Two channels of two samples.
abbrev pub block : InputData ℕ
block = record {
  timestamp_nanos = 9;
  points_per_channel = 2;
  num_channels = 2;
  analog_data = analog;
  digital_data = digital;
}

pub record Run : Type 0 where
  pub last : Pipeline list_sets ℕ
  pub reach : PipelineReach list_sets ℕ last

abbrev step : (r : Run) {q : Pipeline list_sets ℕ} → PipelineStep list_sets ℕ r.last q → Run
step r {q} st = record { last = q; reach = next r.reach st }

unfoldable pub taken_once : Run
unfolding init init_sync inc_available_handlers notify_read_barrier read_barrier_turn
    read_barrier_exit reset_ready_handlers notify_data_available data_available_turn
    data_available_exit empty_pipeline init_buffer copy_to_buffer copy_loop copy_input take_element
taken_once =
    let r₀ : Run = record { last = _; reach = start } in
    let r₁ = step r₀ (launch 7 refl refl) in
    let r₂ = step r₁ (handler_alone 7 refl HandlerStep.accept tt) in
    let r₃ = step r₂ (handler_alone 7 refl (HandlerStep.register 100 refl) tt) in
    let r₃' = step r₃ (handler_alone 7 refl HandlerStep.inc_notified tt) in
    let r₄ = step r₃' (handler_alone 7 refl HandlerStep.welcomed tt) in
    let r₅ = step r₄ (reader_alone (ReaderStep.loop_on refl)) in
    let r₆ = step r₅ (reader_alone (ReaderStep.barrier_open refl refl)) in
    let r₇ = step r₆ (reader_alone (ReaderStep.check_on refl)) in
    let r₈ = step r₇ (reader_alone (ReaderStep.read_ok block)) in
    let r₉ = step r₈ (reader_alone (ReaderStep.publish block refl)) in
    let r₁₀ = step r₉ (reader_alone ReaderStep.reset) in
    let r₁₁ = step r₁₀ (handler_alone 7 refl (HandlerStep.loop_on refl) tt) in
    let r₁₂ = step r₁₁ (handler_alone 7 refl (HandlerStep.data_there refl refl) tt) in
    let r₁₃ = step r₁₂ (handler_alone 7 refl (HandlerStep.check_on refl) tt) in
    let r₁₄ = step r₁₃ (copy 7 block _ refl refl refl) in step r₁₄ (take 7 (some block) _ tt refl)

taken-published_example :
    (before after : List (Option (InputData ℕ))) × (copies ℕ
        (reverse taken_once.last.daemon.published)
      ≡ before ++ (taken_once.last.taken 7 ++ after))
taken-published_example = taken-published list_sets ℕ taken_once.reach 7

taken_block : taken_once.last.taken 7 ≡ some block ∷ []
unfolding taken_once
taken_block = refl
