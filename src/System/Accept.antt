-- ===== src/System/Accept.antt =====
-- daemon/daemon.c, `launch_handler_thread`, `wait_for_connections` and `main`: what the main thread does,
-- in order. What the system answers, and `running` at its tests, are arguments.
pub mod Accepted
use pm_lab_tools.Prelude.{Bool, true, false, List, [], ◌∷◌, ◌++◌}
use pm_lab_tools.Prelude.Int.{ℤ, pos, negsuc}

-- What the main thread does, but for the calls of the server socket that only set it up.
pub data Action : Type 0 where
  catch_sigint : Action
  ignore_sigpipe : Action
  init_sync_done : Action
  start_reader : Action
  start_collector : Action
  open_server : Action
  close_server : Action
  -- `launch_handler_thread`, with what `accept` has returned
  launch : ℤ → Action
  join_reader : Action
  cancel_collector : Action
  join_collector : Action
  finish_sync_done : Action

-- The end: the return of a function, `exit` with a failure, a failed assertion, or none in the rounds that
-- are looked at.
pub data Stage : Type 0 where
  returns_here : Stage
  exits : Stage
  asserts : Stage
  goes_on : Stage

pub record Course : Type 0 where
  pub actions : List Action
  pub stage : Stage

-- One action, and then the rest.
abbrev pub act : Action → Course → Course
act a rest = record { actions = a ∷ rest.actions; stage = rest.stage }

-- A call whose result is asserted.
abbrev pub must : Bool → Course → Course
must true rest = rest
must false rest = record { actions = []; stage = asserts }

-- The rest behind a function that returns.
abbrev pub then_do : Stage → List Action → Course → Course
then_do returns_here actions rest = record { actions = actions ++ rest.actions; stage = rest.stage }
then_do stage actions rest = record { actions = actions; stage = stage }

-- What `ppoll` answers: a connection, nothing in time or an interruption, or another error.
pub data Polled : Type 0 where
  ready_to_accept : Polled
  nothing_yet : Polled
  poll_error : Polled

-- A round of the loop: `running` at its test, and the answers of `ppoll`, `accept` and the
-- `pthread_create` of `launch_handler_thread`.
pub record Call : Type 0 where
  pub running : Bool
  pub polled : Polled
  pub conn : ℤ
  pub created : Bool

-- The answers to the calls that set up the server socket: `socket`, the two of `setsockopt`, `bind`,
-- `listen`, and to the last `close`.
pub record Server : Type 0 where
  pub opens : Bool
  pub reuses : Bool
  pub no_delay : Bool
  pub binds : Bool
  pub listens : Bool
  pub closes : Bool

abbrev pub launch_handler_thread : ℤ → Bool → Course → Course
launch_handler_thread conn created rest = must created (act (launch conn) rest)

-- The body of the loop.
abbrev pub accept_round : Bool → Polled → ℤ → Bool → Course → Course → Course
accept_round false polled conn created rest after = after
accept_round true nothing_yet conn created rest after = rest
accept_round true poll_error conn created rest after = record { actions = []; stage = asserts }
accept_round true ready_to_accept conn created rest after = launch_handler_thread conn created rest

-- The loop, and what comes behind it.
unfoldable pub accept_loop : List Call → Course → Course
accept_loop [] after = record { actions = []; stage = goes_on }
accept_loop (call ∷ calls) after =
    accept_round call.running call.polled call.conn call.created (accept_loop calls after) after

-- `wait_for_connections` behind `bind`, which fails with -1.
abbrev pub behind_bind : Bool → Bool → Course → Course
behind_bind true listens rest = must listens rest
behind_bind false listens rest = act close_server (record { actions = []; stage = exits })

abbrev pub behind_accept : Bool → Course
behind_accept closes =
    must closes (act close_server (record { actions = []; stage = returns_here }))

unfoldable pub wait_for_connections : Server → List Call → Course
wait_for_connections server calls = must server.opens (
    act open_server (
      must server.reuses (
        must server.no_delay (
          behind_bind server.binds server.listens
            (accept_loop calls (behind_accept server.closes))))))

-- The answers to the calls that `main` makes of threads: two of `pthread_create`, two of `pthread_join`,
-- and `pthread_cancel`.
pub record Threads : Type 0 where
  pub reader_created : Bool
  pub collector_created : Bool
  pub reader_joined : Bool
  pub collector_cancelled : Bool
  pub collector_joined : Bool

-- `main` behind `wait_for_connections`.
abbrev pub shutdown : Threads → Course
shutdown threads = must threads.reader_joined (
    act join_reader (
      must threads.collector_cancelled (
        act cancel_collector (
          must threads.collector_joined (
            act join_collector
              (act finish_sync_done (record { actions = []; stage = returns_here })))))))

unfoldable pub main : Threads → Server → List Call → Course
main threads server calls =
    let w = wait_for_connections server calls in
    act catch_sigint (
      act ignore_sigpipe (
        act init_sync_done (
          must threads.reader_created (
            act start_reader (
              must threads.collector_created
                (act start_collector (then_do w.stage w.actions (shutdown threads))))))))
