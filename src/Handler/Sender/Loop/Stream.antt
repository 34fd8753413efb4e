-- ===== src/Handler/Sender/Loop/Stream.antt =====
-- What a sender writes to its client: the data sets of the blocks that the handler has copied, in order.
use pm_lab_tools.Prelude.{ℕ, ◌≡◌, refl, ap, Bool, true, false, some, List, [], ◌∷◌, ◌++◌, arith}
use pm_lab_tools.Prelude.Int.{pos, negsuc}
use pm_lab_tools.Utils.{Ending, returned, aborted, blocked, Written}
use pm_lab_tools.Sync.{Wait, wait_again, leave_loop}
use pm_lab_tools.Protocol.{Protobuf}
use pm_lab_tools.Handler.Buffer.{
  InputData, BufferDesc, copy_input, take_element, write_buf_turn, init_buffer,
}
use pm_lab_tools.Handler.Fifo.{
  IsValid, contents, init-IsValid, take_element_refines, take_element-empty,
}
use pm_lab_tools.Handler.History.{copies}
use pm_lab_tools.Handler.Dataset.{write_dataset}
use pm_lab_tools.Handler.Sending.{framed}
use pm_lab_tools.Handler.Sender.{
  goes_round, element_set, sender_turn, write_buf_element, write_buf_element-turn,
}
use pm_lab_tools.Handler.Sender.Loop.{
  told_to_stop, waiting, goes_on, SenderRound, Service, behind_buf_wait, behind_turn, behind_write,
  serve_one, handler_sender_main,
}
use pm_lab_tools.Handler.Sender.Loop.Blocks.{
  is_fine, AreSmall, AllSmall, stream, Delivers, Goes, stay-Delivers, copy_all-Goes,
}

module _ {Double : Type 0} (pb : Protobuf Double) (ids : List ℕ) where
  -- The oldest block of the buffer is written.
  turn-Delivers :
      (still : Bool) (input : InputData Double) (queue : List (InputData Double))
      (new : BufferDesc Double) (w : Written) (more : BufferDesc Double → Service Double)
      → Goes pb ids more
      → IsValid new
      → contents new ≡ copies Double queue
      → AreSmall pb ids queue
      → ((n : ℕ)
          → w.ending ≡ returned (pos n)
          → (w.sent ≡ framed pb (element_set ids (copy_input input)))
            × (sender_turn still w.ending ≡ goes_round))
      → (e : Ending) → w.ending ≡ e
      → is_fine (behind_turn (sender_turn still w.ending) new w.sent (more new)).finish ≡ true
      → Delivers pb ids
          (input ∷ queue)
          (behind_turn (sender_turn still w.ending) new w.sent (more new))
  unfolding sender_turn
  turn-Delivers still input queue new w more goes v held small done (returned (pos n)) e fine =
      let (sent, round) = done n e in
      let (taken, left, split, kept, rest) = goes new queue v held small (rw round at fine) in
      rw round (input ∷ taken, left, ap (λ l. input ∷ l) split, kept, rw (sent, rest) refl)
  turn-Delivers still input queue new w more goes v held small done (returned (negsuc n)) e fine =
      absurd (let bad = rw e at fine in ground arith)
  turn-Delivers still input queue new w more goes v held small done aborted e fine =
      absurd (let bad = rw e at fine in ground arith)
  turn-Delivers still input queue new w more goes v held small done blocked e fine =
      absurd (let bad = rw e at fine in ground arith)

  -- `write_buf_element` on a buffer with an element, while the daemon runs.
  write-Delivers :
      (buf : BufferDesc Double) (r : SenderRound Double) (queue : List (InputData Double))
      (more : BufferDesc Double → Service Double)
      → Goes pb ids more
      → IsValid buf
      → contents buf ≡ copies Double queue
      → AreSmall pb ids queue
      → let out = write_buf_element pb true ids r.out₁ r.out₂ r.out₃ buf in
        is_fine (behind_write buf r.still_running out more).finish ≡ true
        → Delivers pb ids queue (behind_write buf r.still_running out more)
  unfolding write_buf_element
  write-Delivers buf r [] more goes v e small fine =
      let bad = rw (take_element-empty v e) at fine in absurd (ground arith)
  write-Delivers buf r (input ∷ queue) more goes v e small fine =
      let (new, took, valid, held) =
        take_element_refines (some (copy_input input)) (copies Double queue) v e in
      let c = copy_input input in
      let w =
        write_dataset pb ids c.points_per_channel c.timestamp_nanos c.analog_data c.digital_data
          r.out₁ r.out₂ r.out₃ in
      rw took (
        turn-Delivers r.still_running input queue new w more goes valid held small.1
          (λ n done.
            let (_, _, _, _, sent, round) =
              write_buf_element-turn pb ids r.out₁ r.out₂ r.out₃ c (copies Double queue) n
                r.still_running v e small.0 done in
            (sent, round))
          w.ending refl (rw took at fine))

  -- It does nothing once the daemon is stopped.
  stopped-Delivers :
      (buf : BufferDesc Double) (r : SenderRound Double) (queue : List (InputData Double))
      (still : Bool) (more : BufferDesc Double → Service Double)
      → Goes pb ids more
      → IsValid buf
      → contents buf ≡ copies Double queue
      → AreSmall pb ids queue
      → let out = write_buf_element pb false ids r.out₁ r.out₂ r.out₃ buf in
        is_fine (behind_write buf still out more).finish ≡ true
        → Delivers pb ids queue (behind_write buf still out more)
  unfolding write_buf_element take_element sender_turn
  stopped-Delivers buf r queue true more goes v e small fine = absurd (ground arith)
  stopped-Delivers buf r queue false more goes v e small fine = goes buf queue v e small fine

  wait-Delivers :
      (turn : Wait) (buf : BufferDesc Double) (queue : List (InputData Double)) (s : Service Double)
      → contents buf ≡ copies Double queue
      → (is_fine s.finish ≡ true → Delivers pb ids queue s)
      → is_fine (behind_buf_wait turn buf s).finish ≡ true
      → Delivers pb ids queue (behind_buf_wait turn buf s)
  wait-Delivers wait_again buf queue s e goes fine = stay-Delivers pb ids queue buf waiting e
  wait-Delivers leave_loop buf queue s e goes fine = goes fine

  round-Delivers :
      (flag running : Bool) (r : SenderRound Double) (more : BufferDesc Double → Service Double)
      → Goes pb ids more
      → Goes pb ids (λ now. serve_one flag now (
          behind_buf_wait (write_buf_turn running now) now (
            behind_write now r.still_running
              (write_buf_element pb running ids r.out₁ r.out₂ r.out₃ now)
              more)))
  round-Delivers true true r more goes buf queue v e small fine =
      wait-Delivers (write_buf_turn true buf) buf queue _ e
        (write-Delivers buf r queue more goes v e small) fine
  round-Delivers true false r more goes buf queue v e small fine =
      wait-Delivers (write_buf_turn false buf) buf queue _ e
        (stopped-Delivers buf r queue r.still_running more goes v e small) fine
  round-Delivers false running r more goes buf queue v e small fine =
      stay-Delivers pb ids queue buf told_to_stop e

  loop-Goes :
      (rounds : List (SenderRound Double))
      → AllSmall pb ids rounds
      → Goes pb ids (λ buf. handler_sender_main pb ids buf rounds)
  unfolding handler_sender_main
  loop-Goes [] s = λ buf queue v e small fine. stay-Delivers pb ids queue buf goes_on e
  loop-Goes (r ∷ rest) s =
      copy_all-Goes pb ids r.inputs _
        (round-Delivers r.handler_running r.running r (λ new. handler_sender_main pb ids new rest)
          (loop-Goes rest s.1))
        s.0

  -- A sender that starts with the empty buffer, whatever its handler copies into the buffer between
  -- its rounds, where the packed message of each block is shorter than 2^32 bytes: as long as no write
  -- fails and none is going on, what it has written are the framed data sets of blocks that
  -- `copy_to_buffer` has accepted, whole and in order, from the first one on, and the buffer holds
  -- copies of all the others that it has accepted, in order.
  pub handler_sender_main-stream :
      (rounds : List (SenderRound Double))
      → AllSmall pb ids rounds
      → let s = handler_sender_main pb ids init_buffer rounds in
        is_fine s.finish ≡ true
        → (taken : List (InputData Double)) × (left : List (InputData Double)) × (s.accepted
            ≡ taken ++ left)
          × (contents s.buffer ≡ copies Double left)
          × (s.sent ≡ stream pb ids taken)
  handler_sender_main-stream rounds small fine =
      loop-Goes rounds small init_buffer [] init-IsValid.0 init-IsValid.1 tt fine
