-- ===== src/Handler/Sender.antt =====
-- daemon/handler.c, `write_buf_element` behind its wait loop, and the loop of `handler_sender_main`.
pub mod Loop
use pm_lab_tools.Prelude.{
  ℕ, ◌^◌, ◌<◌, ◌≡◌, Bool, true, false, Option, none, some, List, [], ◌∷◌, arith, ◌==◌,
  if◌then◌else◌,
}
use pm_lab_tools.Prelude.Int.{pos, negsuc}
use pm_lab_tools.Utils.{Answer, Ending, returned, aborted, blocked, Written}
use pm_lab_tools.Sync.{Outcome, returns, ◌>>=◌, assert_some}
use pm_lab_tools.Protocol.{DataSet, Protobuf}
use pm_lab_tools.Handler.Buffer.{InputData, BufferDesc, take_element}
use pm_lab_tools.Handler.Fifo.{IsValid, contents, take_element_refines}
use pm_lab_tools.Handler.Dataset.{data_set, write_dataset}
use pm_lab_tools.Handler.Sending.{framed, length-framed, write_dataset-framed}

-- What the loop of `handler_sender_main` does with a result: go round, leave the loop, stop the
-- process by an assertion; or the write is still going on.
pub data Turn : Type 0 where
  goes_round leaves stops still_writes : Turn

-- The loop's tests on the result, with `running` as it is then.
unfoldable pub sender_turn : Bool → Ending → Turn
sender_turn running (returned (pos err)) =
    if err == 0 then (if running then stops else goes_round) else goes_round
sender_turn running (returned (negsuc n)) = leaves
sender_turn running aborted = stops
sender_turn running blocked = still_writes

module _ {Double : Type 0} where
  -- The data set of an element.
  abbrev pub element_set : List ℕ → InputData Double → DataSet Double
  element_set ids input =
      data_set ids input.points_per_channel input.timestamp_nanos input.analog_data
        input.digital_data

  -- `write_buf_element` behind its loop, with the answers of the system to its writes. A slot that
  -- was never written counts as a failed assertion.
  unfoldable pub write_buf_element :
      Protobuf Double
      → Bool
      → List ℕ
      → List Answer
      → List Answer
      → List Answer
      → BufferDesc Double
      → Outcome (Written × BufferDesc Double)
  write_buf_element pb running ids out₁ out₂ out₃ buf = take_element running buf >>= λ taken.
      elim taken.0 [
        | none ↦ returns (record { sent = []; ending = returned (pos 0) }, taken.1)
        | some slot ↦ assert_some slot >>= λ input. returns (
          write_dataset pb ids input.points_per_channel input.timestamp_nanos input.analog_data
              input.digital_data out₁ out₂ out₃,
          taken.1,
        )
      ]

  -- A result of `write_dataset` that is not negative is not 0 either.
  write_dataset-turn :
      (pb : Protobuf Double) (ids : List ℕ) (input : InputData Double)
      (out₁ out₂ out₃ : List Answer) (n : ℕ) (running : Bool)
      → let w =
          write_dataset pb ids input.points_per_channel input.timestamp_nanos input.analog_data
            input.digital_data out₁ out₂ out₃ in
        pb.get_packed_size (element_set ids input) < 2 ^ 32
        → w.ending ≡ returned (pos n)
        → sender_turn running w.ending ≡ goes_round
  unfolding sender_turn
  write_dataset-turn pb ids input out₁ out₂ out₃ n running small e =
      let (sent, count, int) =
        write_dataset-framed pb ids input.points_per_channel input.timestamp_nanos input.analog_data
          input.digital_data out₁ out₂ out₃ n small e in
      let size = length-framed pb (element_set ids input) in
      let some_sent : (n == 0) ≡ false = ground (arith, count, size, int) in rw (e, some_sent)

  -- On a valid buffer that holds an element, while the daemon runs, `write_buf_element` writes the
  -- data set of the oldest element and leaves the others. Where its message takes less than 2^32
  -- bytes and the result is not negative, the framed message is sent, whole, and the loop of
  -- `handler_sender_main` goes round without a failed assertion, whether or not the daemon is still
  -- running then.
  pub write_buf_element-turn :
      (pb : Protobuf Double) (ids : List ℕ) (out₁ out₂ out₃ : List Answer) {buf : BufferDesc Double}
      (input : InputData Double) (rest : List (Option (InputData Double))) (n : ℕ) (running : Bool)
      → let w =
          write_dataset pb ids input.points_per_channel input.timestamp_nanos input.analog_data
            input.digital_data out₁ out₂ out₃ in
        IsValid buf
        → contents buf ≡ some input ∷ rest
        → pb.get_packed_size (element_set ids input) < 2 ^ 32
        → w.ending ≡ returned (pos n)
        → (new : BufferDesc Double) × (write_buf_element pb true ids out₁ out₂ out₃ buf
            ≡ returns (w, new))
          × IsValid new
          × (contents new ≡ rest)
          × (w.sent ≡ framed pb (element_set ids input))
          × (sender_turn running w.ending ≡ goes_round)
  unfolding write_buf_element
  write_buf_element-turn pb ids out₁ out₂ out₃ {buf} input rest n running v e small done =
      let (new, took, valid, left) = take_element_refines (some input) rest v e in
      let sent =
        write_dataset-framed pb ids input.points_per_channel input.timestamp_nanos input.analog_data
          input.digital_data out₁ out₂ out₃ n small done in
      (
        new,
        rw took,
        valid,
        left,
        sent.0,
        write_dataset-turn pb ids input out₁ out₂ out₃ n running small done,
      )
