-- ===== src/System/Accept/Accepted.antt =====
-- Every connection is handed to a handler, and the daemon takes down what it has set up.
use pm_lab_tools.Prelude.{
  ◌≡◌, refl, ap, Bool, true, false, ◌||◌, not, List, [], ◌∷◌, ◌++◌, arith, map, append_assoc,
  Bool-cases, inl, inr,
}
use pm_lab_tools.Prelude.Int.{ℤ}
use pm_lab_tools.System.Accept.{
  Action, catch_sigint, ignore_sigpipe, init_sync_done, start_reader, start_collector, open_server,
  close_server, launch, join_reader, cancel_collector, join_collector, finish_sync_done, Course,
  returns_here, exits, Call, Server, Threads, Polled, ready_to_accept, nothing_yet, poll_error,
  accept_loop, accept_round, act, behind_accept, wait_for_connections, main,
}

-- The connections that come in before the daemon is stopped, in their order.
abbrev connection : Polled → ℤ → List ℤ → List ℤ
connection ready_to_accept conn later = conn ∷ later
connection _ conn later = later

abbrev until_stop : Bool → List ℤ → List ℤ
until_stop true connections = connections
until_stop false connections = []

unfoldable pub connections : List Call → List ℤ
connections [] = []
connections (call ∷ calls) =
    until_stop call.running (connection call.polled call.conn (connections calls))

-- The daemon is stopped in one of the rounds.
abbrev pub is_stopped : List Call → Bool
is_stopped [] = false
is_stopped (call ∷ calls) = not call.running || is_stopped calls

-- `ppoll` has no other error than an interruption, and a thread can be made.
abbrev pub IsFine : Polled → Bool → Type 0
IsFine ready_to_accept created = created ≡ true
IsFine nothing_yet created = Unit
IsFine poll_error created = ⊥

abbrev pub AreFine : List Call → Type 0
AreFine [] = Unit
AreFine (call ∷ calls) = IsFine call.polled call.created × AreFine calls

abbrev behind : List Action → Course → Course
behind actions rest = record { actions = actions ++ rest.actions; stage = rest.stage }

accept_round-fine :
    (running : Bool) (polled : Polled) (conn : ℤ) (created stopped : Bool) (later : List ℤ)
    (rest after : Course)
    → IsFine polled created
    → (not running || stopped) ≡ true
    → (stopped ≡ true → rest ≡ behind (map launch later) after)
    → accept_round running polled conn created rest after
      ≡ behind (map launch (until_stop running (connection polled conn later))) after
accept_round-fine false polled conn created stopped later rest after fine stops ih = refl
accept_round-fine true nothing_yet conn created stopped later rest after fine stops ih = ih stops
accept_round-fine true ready_to_accept conn true stopped later rest after fine stops ih =
    ap (behind (launch conn ∷ [])) (ih stops)
accept_round-fine true ready_to_accept conn false stopped later rest after fine stops ih =
    absurd (ground arith)
accept_round-fine true poll_error conn created stopped later rest after fine stops ih =
    elim fine [ ]

accept_loop-fine :
    (calls : List Call) (after : Course)
    → AreFine calls
    → is_stopped calls ≡ true
    → accept_loop calls after ≡ behind (map launch (connections calls)) after
unfolding accept_loop connections
accept_loop-fine [] after fine stops = absurd (ground arith)
accept_loop-fine (call ∷ calls) after fine stops =
    accept_round-fine call.running call.polled call.conn call.created (is_stopped calls)
      (connections calls) (accept_loop calls after) after fine.0 stops
      (accept_loop-fine calls after fine.1)

-- The calls with a result that is asserted succeed, but for `bind`, which may fail.
pub record AreAnswered (threads : Threads) (server : Server) : Type 0 where
  pub reader_created : threads.reader_created ≡ true
  pub collector_created : threads.collector_created ≡ true
  pub reader_joined : threads.reader_joined ≡ true
  pub collector_cancelled : threads.collector_cancelled ≡ true
  pub collector_joined : threads.collector_joined ≡ true
  pub opens : server.opens ≡ true
  pub reuses : server.reuses ≡ true
  pub no_delay : server.no_delay ≡ true
  pub listens : server.listens ≡ true
  pub closes : server.closes ≡ true

-- The course of `main` on a server socket that can be bound or not.
abbrev pub whole_course : Bool → List ℤ → Course
whole_course true conns = record {
  actions =
      catch_sigint
      ∷ ignore_sigpipe
      ∷ init_sync_done
      ∷ start_reader
      ∷ start_collector
      ∷ open_server
      ∷ (map launch conns
          ++ (close_server ∷ join_reader ∷ cancel_collector ∷ join_collector ∷ finish_sync_done
              ∷ []));
  stage = returns_here;
}
whole_course false conns = record {
  actions =
      catch_sigint ∷ ignore_sigpipe ∷ init_sync_done ∷ start_reader ∷ start_collector ∷ open_server
      ∷ close_server ∷ [];
  stage = exits;
}

wait_for_connections-bound :
    (threads : Threads) (server : Server) (calls : List Call)
    → AreAnswered threads server
    → AreFine calls
    → is_stopped calls ≡ true
    → server.binds ≡ true
    → wait_for_connections server calls ≡ record {
      actions = open_server ∷ (map launch (connections calls) ++ close_server ∷ []);
      stage = returns_here;
    }
unfolding wait_for_connections
wait_for_connections-bound threads server calls a fine stops binds =
    rw (a.opens, a.reuses, a.no_delay, binds, a.listens, a.closes)
      (ap (act open_server) (accept_loop-fine calls (behind_accept true) fine stops))

wait_for_connections-unbound :
    (threads : Threads) (server : Server) (calls : List Call)
    → AreAnswered threads server
    → server.binds ≡ false
    → wait_for_connections server calls
      ≡ record { actions = open_server ∷ close_server ∷ []; stage = exits }
unfolding wait_for_connections
wait_for_connections-unbound threads server calls a fails =
    rw (a.opens, a.reuses, a.no_delay, fails) refl

-- The life of the main thread, where the calls whose results are asserted succeed, `ppoll` has no other
-- error than an interruption, and the daemon is stopped in some round. If `bind` fails, it closes the
-- socket and exits. Else it hands to a handler each connection that `accept` returned before the daemon
-- was stopped, once and in their order, what `accept` gives for an error like any other, and then closes
-- the server socket, waits for the reading thread, cancels and joins the collecting thread, and only
-- then frees the sets.
pub main-course :
    (threads : Threads) (server : Server) (calls : List Call)
    → AreAnswered threads server
    → AreFine calls
    → is_stopped calls ≡ true
    → main threads server calls ≡ whole_course server.binds (connections calls)
unfolding main
main-course threads server calls a fine stops = elim (Bool-cases server.binds) [
  | inl binds ↦
      let waited = wait_for_connections-bound threads server calls a fine stops binds in
      rw
        (
          a.reader_created, a.collector_created, waited, binds, a.reader_joined,
          a.collector_cancelled, a.collector_joined,
        )
        (ap
          (λ l. record {
            actions =
                catch_sigint ∷ ignore_sigpipe ∷ init_sync_done ∷ start_reader ∷ start_collector
                ∷ open_server ∷ l;
            stage = returns_here;
          })
          (append_assoc (map launch (connections calls)) (close_server ∷ []) _))
  | inr fails ↦
      let waited = wait_for_connections-unbound threads server calls a fails in
      rw (a.reader_created, a.collector_created, waited, fails) refl
]
