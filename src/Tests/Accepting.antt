-- ===== src/Tests/Accepting.antt =====
-- The main thread with one connection, one time out and one failed `accept` before it is stopped.
use pm_lab_tools.Prelude.{◌≡◌, refl, true, false, List, [], ◌∷◌}
use pm_lab_tools.Prelude.Int.{pos, negsuc}
use pm_lab_tools.System.Accept.{
  catch_sigint, ignore_sigpipe, init_sync_done, start_reader, start_collector, open_server, launch,
  close_server, join_reader, cancel_collector, join_collector, finish_sync_done, Call, Server,
  Threads, ready_to_accept, nothing_yet, returns_here, main,
}
use pm_lab_tools.System.Accept.Accepted.{AreAnswered, connections, main-course}

abbrev calls : List Call
calls =
    record { running = true; polled = ready_to_accept; conn = pos 7; created = true }
    ∷ record { running = true; polled = nothing_yet; conn = pos 0; created = true }
    ∷ record { running = true; polled = ready_to_accept; conn = negsuc 0; created = true }
    ∷ record { running = false; polled = ready_to_accept; conn = pos 9; created = true }
    ∷ []

abbrev server : Server
server = record {
  opens = true;
  reuses = true;
  no_delay = true;
  binds = true;
  listens = true;
  closes = true;
}

abbrev threads : Threads
threads = record {
  reader_created = true;
  collector_created = true;
  reader_joined = true;
  collector_cancelled = true;
  collector_joined = true;
}

answered : AreAnswered threads server
answered = record {
  reader_created = refl;
  collector_created = refl;
  reader_joined = refl;
  collector_cancelled = refl;
  collector_joined = refl;
  opens = refl;
  reuses = refl;
  no_delay = refl;
  listens = refl;
  closes = refl;
}

main-course_example : main threads server calls ≡ record {
  actions =
      catch_sigint
      ∷ ignore_sigpipe
      ∷ init_sync_done
      ∷ start_reader
      ∷ start_collector
      ∷ open_server
      ∷ launch (pos 7)
      ∷ launch (negsuc 0)
      ∷ close_server
      ∷ join_reader
      ∷ cancel_collector
      ∷ join_collector
      ∷ finish_sync_done
      ∷ [];
  stage = returns_here;
}
unfolding connections
main-course_example =
    main-course threads server calls answered (refl, (tt, (refl, (refl, tt)))) refl
