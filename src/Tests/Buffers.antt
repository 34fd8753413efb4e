-- ===== src/Tests/Buffers.antt =====
-- The buffer of a handler, at concrete inputs.
use pm_lab_tools.Prelude.{ℕ, ◌≡◌, refl, arith, some, [], ◌∷◌, ◌++◌}
use pm_lab_tools.Sync.{returns}
use pm_lab_tools.Handler.Buffer.{
  InputData, BufferDesc, Status, init_buffer, copy_input, copy_loop, copy_to_buffer, take_element,
  free_buffer,
}
use pm_lab_tools.Handler.Fifo.{IsValid, contents, enqueue, init-IsValid, copy_to_buffer_refines}
use pm_lab_tools.Handler.History.{
  History, begin, accepted, took, copies, accepted-eq-taken-append-freed,
}

-- Two channels of one sample.
abbrev pub input : ℕ → InputData ℕ
input t = record {
  timestamp_nanos = t;
  points_per_channel = 1;
  num_channels = 2;
  analog_data = t ∷ 20 ∷ [];
  digital_data = 1 ∷ 0 ∷ [];
}

copy_to_buffer_refines_example :
    (status : Status) × (new : BufferDesc ℕ) × (copy_to_buffer init_buffer (input 1)
      ≡ returns (some (status, new)))
    × IsValid new
    × ((status, contents new) ≡ enqueue 8 (contents (init_buffer {Double = ℕ})) (input 1))
    × (new.max_elems ≡ 8)
unfolding init_buffer
copy_to_buffer_refines_example = copy_to_buffer_refines (input 1) init-IsValid.0

-- A buffer whose first slot has been used before.
abbrev pub worn : BufferDesc ℕ
worn = record {
  slots = some (input 1) ∷ some (input 2) ∷ some (input 3) ∷ some (input 1) ∷ [];
  max_elems = 4;
  start = 1;
  count = 2;
}

pub worn-IsValid : IsValid worn
worn-IsValid = record { whole = refl; within = omega arith }

-- Two copies, and one element taken.
two_and_one : (buf : BufferDesc ℕ) × History ℕ (input 1 ∷ input 2 ∷ []) (some (input 1) ∷ []) buf
unfolding init_buffer copy_to_buffer copy_loop copy_input take_element
two_and_one =
    (_, took (some (input 1)) (accepted (input 2) (accepted (input 1) begin refl) refl) refl)

accepted-eq-taken-append-freed_example :
    copies ℕ (input 1 ∷ input 2 ∷ []) ≡ (some (input 1) ∷ []) ++ free_buffer two_and_one.0
accepted-eq-taken-append-freed_example = accepted-eq-taken-append-freed ℕ two_and_one.1
