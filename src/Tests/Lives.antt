-- ===== src/Tests/Lives.antt =====
-- A handler whose client asks for channels 2 and 0 of a device with three, and leaves in the third round.
use pm_lab_tools.Prelude.{ℕ, ◌≤◌, ◌≡◌, refl, Bool, true, false, List, [], ◌∷◌, arith}
use pm_lab_tools.Utils.{full_read, full_read_loop}
use pm_lab_tools.Protocol.Words.{ntohl, from_words}
use pm_lab_tools.Protocol.Connection.{read_request}
use pm_lab_tools.Handler.Life.{Answered, HandlerRound, returns_null, handler_thread_main}
use pm_lab_tools.Handler.Life.Ended.{whole_life, handler_thread_main-life}
use pm_lab_tools.Tests.Buffers.{input, worn, worn-IsValid}
use pm_lab_tools.Tests.Connecting.{in_four, in_eight, in_seventeen}

abbrev request : List ℕ
request = 0 ∷ 0 ∷ 0 ∷ 2 ∷ 0 ∷ 0 ∷ 0 ∷ 2 ∷ 0 ∷ 0 ∷ 0 ∷ 0 ∷ []

abbrev closing : Answered
closing = record { creates = true; closes = true; joins = true }

abbrev round : Bool → HandlerRound ℕ
round on = record {
  running = true;
  handler_running = on;
  still_running = true;
  buffer = worn;
  data_info = input 4;
}

handler_thread_main-life_example :
    (k : ℕ) × (handler_thread_main 3 18_000 request in_four in_eight in_seventeen in_four closing
        (round true ∷ round true ∷ round false ∷ [])
      ≡ record { effects = whole_life true k; finish = returns_null })
    × (k ≤ 3)
unfolding read_request full_read full_read_loop ntohl from_words
handler_thread_main-life_example =
    handler_thread_main-life 3 18_000 request in_four in_eight in_seventeen in_four closing
      (round true ∷ round true ∷ round false ∷ []) true refl (omega arith) (omega arith)
      (omega arith) refl refl refl (worn-IsValid, (worn-IsValid, (worn-IsValid, tt))) refl
