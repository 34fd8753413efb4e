-- ===== src/Tests/Serving.antt =====
-- A sender takes a block from a buffer and writes it.
use pm_lab_tools.Prelude.{ℕ, ◌≡◌, refl, true, false, some, none, List, [], ◌∷◌, ◌++◌, arith}
use pm_lab_tools.Utils.{Answer, moved, interrupted, full_write_loop, full_write}
use pm_lab_tools.Sync.{returns}
use pm_lab_tools.Protocol.{magic_data_set}
use pm_lab_tools.Protocol.Words.{htonl}
use pm_lab_tools.Handler.Buffer.{
  InputData, BufferDesc, init_buffer, copy_to_buffer, copy_loop, copy_input, take_element,
  write_buf_turn,
}
use pm_lab_tools.Handler.History.{copies}
use pm_lab_tools.Handler.Sender.Loop.{SenderRound, copy_all, handler_sender_main}
use pm_lab_tools.Handler.Sender.Loop.Blocks.{stream}
use pm_lab_tools.Handler.Sender.Loop.Stream.{handler_sender_main-stream}
use pm_lab_tools.Handler.Fifo.{IsValid, contents}
use pm_lab_tools.Handler.Dataset.{encode_datapoints, data_set, write_dataset}
use pm_lab_tools.Handler.Sending.{framed}
use pm_lab_tools.Handler.Sender.{
  element_set, write_buf_element, sender_turn, goes_round, write_buf_element-turn,
}
use pm_lab_tools.Tests.Codec.{list_codec}

-- Two channels of one sample.
abbrev input : InputData ℕ
input = record {
  timestamp_nanos = 5;
  points_per_channel = 1;
  num_channels = 2;
  analog_data = 10 ∷ 20 ∷ [];
  digital_data = 1 ∷ 0 ∷ [];
}

abbrev holding : BufferDesc ℕ
holding = record { slots = some input ∷ none ∷ none ∷ []; max_elems = 3; start = 0; count = 1 }

abbrev out₁ : List Answer
out₁ = moved 21 ∷ []

abbrev out₂ : List Answer
out₂ = moved 4 ∷ []

abbrev out₃ : List Answer
out₃ = moved 2 ∷ interrupted ∷ moved 4 ∷ []

write_buf_element-turn_example :
    let w = write_dataset list_codec (1 ∷ []) 1 5 (10 ∷ 20 ∷ []) (1 ∷ 0 ∷ []) out₁ out₂ out₃ in
    (new : BufferDesc ℕ) × (write_buf_element list_codec true (1 ∷ []) out₁ out₂ out₃ holding
      ≡ returns (w, new))
    × IsValid new
    × (contents new ≡ [])
    × (w.sent ≡ framed list_codec (element_set (1 ∷ []) input))
    × (sender_turn false w.ending ≡ goes_round)
unfolding write_dataset data_set encode_datapoints full_write full_write_loop htonl magic_data_set
write_buf_element-turn_example =
    write_buf_element-turn list_codec (1 ∷ []) out₁ out₂ out₃ input [] 31 false
      (record { whole = refl; within = omega arith }) refl (omega arith) refl

-- A block is sent; another is in the buffer when the handler stops.
abbrev sender_rounds : List (SenderRound ℕ)
sender_rounds =
    record {
      inputs = input ∷ [];
      handler_running = true;
      running = true;
      still_running = true;
      out₁ = out₁;
      out₂ = out₂;
      out₃ = out₃;
    }
    ∷ record {
      inputs = input ∷ [];
      handler_running = false;
      running = true;
      still_running = true;
      out₁ = [];
      out₂ = [];
      out₃ = [];
    }
    ∷ []

accepted_two :
    (handler_sender_main list_codec (1 ∷ []) init_buffer sender_rounds).accepted
    ≡ input ∷ input ∷ []
unfolding handler_sender_main copy_all copy_to_buffer copy_loop copy_input init_buffer
    write_buf_element write_buf_turn take_element write_dataset data_set encode_datapoints
    full_write full_write_loop htonl magic_data_set sender_turn
accepted_two = refl

handler_sender_main-stream_example :
    let s = handler_sender_main list_codec (1 ∷ []) init_buffer sender_rounds in
    (taken : List (InputData ℕ)) × (left : List (InputData ℕ)) × (s.accepted ≡ taken ++ left)
    × (contents s.buffer ≡ copies ℕ left)
    × (s.sent ≡ stream list_codec (1 ∷ []) taken)
unfolding handler_sender_main copy_all copy_to_buffer copy_loop copy_input init_buffer
    write_buf_element write_buf_turn take_element write_dataset data_set encode_datapoints
    full_write full_write_loop htonl magic_data_set sender_turn
handler_sender_main-stream_example =
    handler_sender_main-stream list_codec (1 ∷ []) sender_rounds
      ((omega arith, tt), ((omega arith, tt), tt)) refl
