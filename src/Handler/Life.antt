-- ===== src/Handler/Life.antt =====
-- daemon/handler.c, `handler_thread_main` from its start to its end, with all that it sets up and has to
-- take down again. What other threads do in between, and what the system answers, are arguments.
pub mod Ended
use pm_lab_tools.Prelude.{
  ℕ, zero, suc, Bool, true, false, ◌&&◌, Option, none, some, List, [], ◌∷◌, ◌++◌,
}
use pm_lab_tools.Sync.{Outcome, returns, aborts}
use pm_lab_tools.Utils.{Answer, Ending, returned, aborted, blocked}
use pm_lab_tools.Protocol.Connection.{
  Request, accepted, refused, waits_for_request, read_request, write_welcome,
}
use pm_lab_tools.Handler.Buffer.{InputData, BufferDesc, Status, ok, enobufs, copy_to_buffer}

-- What the thread does, but for its reads and writes.
pub data Effect : Type 0 where
  -- `pthread_create` of the sender, and `inc_available_handlers`
  create_sender : Effect
  register : Effect
  -- a block copied into the buffer, and `set_ready`
  copied : Effect
  report : Effect
  -- `dec_available_handlers`
  unregister : Effect
  -- `handler_running = false`
  stop_sender : Effect
  close_connection : Effect
  -- `pthread_join` of the sender
  join_sender : Effect
  -- `free_buffer(&buffer_desc)` and `free(opaque_info)`
  release_buffer : Effect
  release_info : Effect

-- The end: the return, a failed assertion, a wait for the client, or none in the rounds that are looked
-- at, or in the fuel of `copy_to_buffer`.
pub data Finish : Type 0 where
  returns_null : Finish
  asserts : Finish
  waits : Finish
  goes_on : Finish

pub record Life : Type 0 where
  pub effects : List Effect
  pub finish : Finish

abbrev pub behind : List Effect → Life → Life
behind effects life = record { effects = effects ++ life.effects; finish = life.finish }

-- Whether `pthread_create` succeeds, and `close`, and `pthread_join` or with EINVAL.
pub record Answered : Type 0 where
  pub creates : Bool
  pub closes : Bool
  pub joins : Bool

-- `finally`, behind `close`.
abbrev pub release : Life
release = record { effects = release_buffer ∷ release_info ∷ []; finish = returns_null }

abbrev pub join_and_release : Bool → Bool → Life
join_and_release false joins = release
join_and_release true true = behind (join_sender ∷ []) release
join_and_release true false = record { effects = []; finish = asserts }

abbrev pub close_and_release : Bool → Bool → Bool → Life
close_and_release true joins sender = behind (close_connection ∷ []) (join_and_release sender joins)
close_and_release false joins sender = record { effects = []; finish = asserts }

-- `finally`, given `handler_registered_alive` and whether there is a sender.
abbrev pub finally : Answered → Bool → Bool → Life
finally c true sender =
    behind (unregister ∷ stop_sender ∷ []) (close_and_release c.closes c.joins sender)
finally c false sender = behind (stop_sender ∷ []) (close_and_release c.closes c.joins sender)

-- A round of the loop: `running && handler_running` at its test, `running` behind
-- `wait_data_available`, the buffer as the sender has left it, and the data.
pub record HandlerRound (Double : Type 0) : Type 0 where
  pub running : Bool
  pub handler_running : Bool
  pub still_running : Bool
  pub buffer : BufferDesc Double
  pub data_info : InputData Double

-- From the welcome message on.
abbrev pub behind_welcome : Ending → Life → Life
behind_welcome (returned z) more = more
behind_welcome aborted more = record { effects = []; finish = asserts }
behind_welcome blocked more = record { effects = []; finish = waits }

-- From the creation of the sender on.
abbrev pub behind_create : Bool → Life → Life
behind_create true more = behind (create_sender ∷ register ∷ []) more
behind_create false more = record { effects = []; finish = asserts }

-- From the request of the client on.
abbrev pub behind_request : Answered → Ending → Life → Request → Life
behind_request c welcomed more (accepted channels) =
    behind_create c.creates (behind_welcome welcomed more)
behind_request c welcomed more refused = finally c false false
behind_request c welcomed more waits_for_request = record { effects = []; finish = waits }

module _ {Double : Type 0} where
  -- The body of the loop, given the two tests, the result of `copy_to_buffer` and the rounds behind.
  abbrev pub serve_round :
      Answered → Bool → Bool → Outcome (Option (Status × BufferDesc Double)) → Life → Life
  serve_round c false still result more = finally c true true
  serve_round c true false result more = finally c true true
  serve_round c true true (returns (some (ok, new))) more = behind (copied ∷ report ∷ []) more
  serve_round c true true (returns (some (enobufs, new))) more = finally c true true
  serve_round c true true (returns none) more = record { effects = []; finish = goes_on }
  serve_round c true true aborts more = record { effects = []; finish = asserts }

  -- The loop.
  unfoldable pub serve : Answered → List (HandlerRound Double) → Life
  serve c [] = record { effects = []; finish = goes_on }
  serve c (round ∷ rest) =
      serve_round c (round.running && round.handler_running) round.still_running
        (copy_to_buffer round.buffer round.data_info) (serve c rest)

  -- `handler_thread_main`, on a device of so many channels with a sampling rate.
  unfoldable pub handler_thread_main :
      ℕ
      → ℕ
      → List ℕ
      → List Answer
      → List Answer
      → List Answer
      → List Answer
      → Answered
      → List (HandlerRound Double)
      → Life
  handler_thread_main device sampling_rate stream in₁ in₂ out₁ out₂ c rounds =
      behind_request c (write_welcome sampling_rate out₁ out₂).ending (serve c rounds)
        (read_request device stream in₁ in₂)
