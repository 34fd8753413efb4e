-- ===== src/Handler/Sender/Loop.antt =====
-- daemon/handler.c, `handler_sender_main` from its start to its end, on the buffer that it shares with
-- its handler.
pub mod Blocks
pub mod Stream
use pm_lab_tools.Prelude.{ℕ, Bool, true, false, Option, none, some, List, [], ◌∷◌, ◌++◌}
use pm_lab_tools.Utils.{Answer, Written}
use pm_lab_tools.Sync.{Outcome, returns, aborts, Wait, wait_again, leave_loop}
use pm_lab_tools.Protocol.{Protobuf}
use pm_lab_tools.Handler.Buffer.{
  InputData, BufferDesc, Status, ok, enobufs, copy_to_buffer, write_buf_turn,
}
use pm_lab_tools.Handler.Sender.{
  Turn, goes_round, leaves, stops, still_writes, sender_turn, write_buf_element,
}

-- The end: it was told to stop, a write failed, an assertion failed, a write is still going on, it
-- still waits for a block in `write_buf_element`, or none in the rounds that are looked at.
pub data SenderFinish : Type 0 where
  told_to_stop write_failed asserts writing waiting goes_on : SenderFinish

-- A round of the loop: the blocks that the handler copies up to the end of the wait, `handler_running` at the test of
-- the loop, `running` behind the wait of `write_buf_element` and at the assertion, and the answers of
-- the system to the writes.
pub record SenderRound (Double : Type 0) : Type 0 where
  pub inputs : List (InputData Double)
  pub handler_running : Bool
  pub running : Bool
  pub still_running : Bool
  pub out₁ : List Answer
  pub out₂ : List Answer
  pub out₃ : List Answer

-- What has gone out, the blocks that `copy_to_buffer` has accepted, the buffer, and the end.
pub record Service (Double : Type 0) : Type 0 where
  pub sent : List ℕ
  pub accepted : List (InputData Double)
  pub buffer : BufferDesc Double
  pub finish : SenderFinish

module _ {Double : Type 0} where
  abbrev pub ends : BufferDesc Double → SenderFinish → Service Double
  ends buf finish = record { sent = []; accepted = []; buffer = buf; finish = finish }

  abbrev pub with_accepted : List (InputData Double) → Service Double → Service Double
  with_accepted inputs s = record s { accepted = inputs ++ s.accepted }

  abbrev pub with_sent : List ℕ → Service Double → Service Double
  with_sent bytes s = record s { sent = bytes ++ s.sent }

  -- The handler copies a block, and whatever comes behind.
  abbrev pub behind_copy :
      BufferDesc Double
      → InputData Double
      → Outcome (Option (Status × BufferDesc Double))
      → (BufferDesc Double → Service Double)
      → Service Double
  behind_copy buf input (returns (some (ok, new))) more = with_accepted (input ∷ []) (more new)
  behind_copy buf input (returns (some (enobufs, new))) more = more new
  behind_copy buf input (returns none) more = ends buf goes_on
  behind_copy buf input aborts more = ends buf asserts

  unfoldable pub copy_all :
      BufferDesc Double
      → List (InputData Double)
      → (BufferDesc Double → Service Double)
      → Service Double
  copy_all buf [] more = more buf
  copy_all buf (input ∷ rest) more =
      behind_copy buf input (copy_to_buffer buf input) (λ new. copy_all new rest more)

  -- What the loop does with a result.
  abbrev pub behind_turn : Turn → BufferDesc Double → List ℕ → Service Double → Service Double
  behind_turn goes_round new bytes more = with_sent bytes more
  behind_turn leaves new bytes more = with_sent bytes (ends new write_failed)
  behind_turn stops new bytes more = with_sent bytes (ends new asserts)
  behind_turn still_writes new bytes more = with_sent bytes (ends new writing)

  abbrev pub behind_write :
      BufferDesc Double
      → Bool
      → Outcome (Written × BufferDesc Double)
      → (BufferDesc Double → Service Double)
      → Service Double
  behind_write buf still (returns (w, new)) more =
      behind_turn (sender_turn still w.ending) new w.sent (more new)
  behind_write buf still aborts more = ends buf asserts

  -- The test of the loop, and its body.
  abbrev pub serve_one : Bool → BufferDesc Double → Service Double → Service Double
  serve_one true buf more = more
  serve_one false buf more = ends buf told_to_stop

  -- The wait loop of `write_buf_element`, and what comes behind it.
  abbrev pub behind_buf_wait : Wait → BufferDesc Double → Service Double → Service Double
  behind_buf_wait wait_again buf more = ends buf waiting
  behind_buf_wait leave_loop buf more = more

  -- `handler_sender_main`
  unfoldable pub handler_sender_main :
      Protobuf Double → List ℕ → BufferDesc Double → List (SenderRound Double) → Service Double
  handler_sender_main pb ids buf [] = ends buf goes_on
  handler_sender_main pb ids buf (r ∷ rest) = copy_all buf r.inputs λ now.
      serve_one r.handler_running now (
        behind_buf_wait (write_buf_turn r.running now) now (
          behind_write now r.still_running
            (write_buf_element pb r.running ids r.out₁ r.out₂ r.out₃ now)
            λ new. handler_sender_main pb ids new rest))
