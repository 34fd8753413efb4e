-- ===== src/Handler/Buffer.antt =====
-- daemon/handler.c, the buffer between a handler and its sender: a block of `max_elems` slots, of
-- which `count` from `start` on are in use. Pointers are offsets from `buffer`.
use pm_lab_tools.Prelude.{
  ℕ, zero, suc, ◌+◌, ◌-◌, ◌*◌, ◌%◌, ◌^◌, Bool, Option, none, some, List, ◌++◌, ltb, leb, ◌==◌,
  if◌then◌else◌, take, drop, get_elem?, set, replicate, not, ◌&&◌,
}
use pm_lab_tools.Sync.{Outcome, returns, assert, ◌>>◌, Wait, wait_again, leave_loop}

-- `input_data_t`, with the samples that its pointers lead to, for a type of `double`.
pub record InputData (Double : Type 0) : Type 0 where
  pub timestamp_nanos : ℕ
  pub points_per_channel : ℕ
  pub num_channels : ℕ
  pub analog_data : List Double
  pub digital_data : List ℕ

abbrev pub buf_size : ℕ
buf_size = 8

-- What `copy_to_buffer` returns: 0 or ENOBUFS.
pub data Status : Type 0 where
  ok enobufs : Status

-- `buffer_desc_t`; a slot that was never written is `none`.
pub record BufferDesc (Double : Type 0) : Type 0 where
  pub slots : List (Option (InputData Double))
  pub max_elems : ℕ
  pub start : ℕ
  pub count : ℕ

module _ {Double : Type 0} where
  -- The descriptor that `handler_thread_main` sets up.
  unfoldable pub init_buffer : BufferDesc Double
  init_buffer = record {
    slots = replicate buf_size none;
    max_elems = buf_size;
    start = 0;
    count = 0;
  }

  -- `memmove(buffer, start, count elements)`
  abbrev pub move_to_front : BufferDesc Double → BufferDesc Double
  move_to_front buf = record buf {
    slots = take buf.count (drop buf.start buf.slots) ++ drop buf.count buf.slots;
    start = 0;
  }

  -- The element that is stored: the fields, and copies of the first `samples` values of the two
  -- arrays (`samples` is an `unsigned int`).
  unfoldable pub copy_input : InputData Double → InputData Double
  copy_input input =
      let samples = (input.num_channels * input.points_per_channel) % 2 ^ 32 in
      record input {
        analog_data = take samples input.analog_data;
        digital_data = take samples input.digital_data;
      }

  -- The loop of `copy_to_buffer`; `none` means that the fuel ran out.
  unfoldable pub copy_loop :
      ℕ → BufferDesc Double → InputData Double → Outcome (Option (Status × BufferDesc Double))
  copy_loop zero buf input = returns none
  copy_loop (suc fuel) buf input =
      let again = copy_loop fuel (move_to_front buf) input in
      assert (leb buf.count buf.max_elems)
      >> (assert (leb buf.start buf.max_elems)
          >> (if ltb (buf.start + buf.count + 1) buf.max_elems
              then returns (
                  some (
                    ok,
                    record buf {
                      slots = set buf.slots (buf.start + buf.count) (some (copy_input input));
                      count = buf.count + 1;
                    },
                  ))
              else if not (buf.start == 0)
              then again
              else returns (some (enobufs, buf))))

  -- `copy_to_buffer`: the loop goes round at most twice.
  unfoldable pub copy_to_buffer :
      BufferDesc Double → InputData Double → Outcome (Option (Status × BufferDesc Double))
  copy_to_buffer buf input = copy_loop 2 buf input

  -- The test of the loop in `write_buf_element`.
  unfoldable pub write_buf_turn : Bool → BufferDesc Double → Wait
  write_buf_turn running buf = if (buf.count == 0) && running then wait_again else leave_loop

  -- What `write_buf_element` does behind its loop, up to the release of the lock: nothing if the
  -- daemon has stopped, and otherwise it takes the first element off the buffer.
  unfoldable pub take_element :
      Bool → BufferDesc Double → Outcome (Option (Option (InputData Double)) × BufferDesc Double)
  take_element running buf =
      if not running
      then returns (none, buf)
      else assert (ltb 0 buf.count)
        >> returns (
          get_elem? buf.slots buf.start,
          record buf { count = buf.count - 1; start = buf.start + 1 },
        )

  -- `free_buffer`: the elements whose arrays it frees.
  unfoldable pub free_buffer : BufferDesc Double → List (Option (InputData Double))
  free_buffer buf = take buf.count (drop buf.start buf.slots)
