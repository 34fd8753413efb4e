-- ===== src/Tests/Journey.antt =====
-- A block of samples from the device to the output of a client.
use pm_lab_tools.Prelude.{ℕ, ◌≡◌, refl, List, [], ◌∷◌, ◌++◌, arith}
use mathlib.Core.List.{reverse}
use pm_lab_tools.Protocol.{codes}
use pm_lab_tools.Handler.Buffer.{InputData, copy_input}
use pm_lab_tools.Client.Connect.{pm_samplingrate}
use pm_lab_tools.Client.Main.{finished, main}
use pm_lab_tools.System.Pipeline.Printed.{rows_of_blocks, main-published}
use pm_lab_tools.Tests.ListSets.{list_sets}
use pm_lab_tools.Tests.Codec.{list_codec}
use pm_lab_tools.Tests.RoundTrip.{channel_ids}
use pm_lab_tools.Tests.Pipelines.{taken_once}
use pm_lab_tools.Tests.Client.{
  resolve, stop, delivery, io, held_before, our_handle, outcome_lem, parsed_lem, is_served,
}

main-published_example :
    (before blocks after : List (InputData ℕ)) × (reverse taken_once.last.daemon.published
      ≡ before ++ (blocks ++ after))
    × (main list_codec
          (codes "pmlabclient" ∷ codes "s" ∷ codes "p" ∷ codes "ai1" ∷ codes "ai0" ∷ [])
          resolve
          io
          (delivery.turn ∷ stop ∷ [])
          (7 ∷ 7 ∷ [])
          held_before
        ≡ record {
          rows = rows_of_blocks 18_000 channel_ids blocks;
          exit = finished;
          resources = held_before;
        })
unfolding taken_once copy_input pm_samplingrate
main-published_example =
    main-published list_sets list_codec taken_once.reach 7 2 channel_ids (codes "pmlabclient")
      (codes "s") (codes "p") (codes "ai1") (codes "ai0" ∷ []) resolve io _ (delivery ∷ []) stop []
      [] (7 ∷ 7 ∷ []) held_before our_handle (refl, omega arith, tt) refl (omega arith) parsed_lem
      refl outcome_lem (is_served, tt) refl
