-- ===== src/System.antt =====
-- daemon/daemon.c and daemon/handler.c: the threads of the daemon over the state of daemon/sync.c,
-- interleaved in any order. A step is a section under the mutex, or the code between two such.
-- Where the code waits for a peer, a client, the device or the sender of a handler, both outcomes
-- are steps.
mod Places
pub mod Invariant
pub mod Phases
pub mod Steps
pub mod Safety
pub mod Delivery
pub mod Memory
pub mod Pipeline
pub mod Wakeups
pub mod Accept
pub mod View
pub mod Report
pub mod Shutdown
pub mod Rounds
pub use Places.*
use pm_lab_tools.Prelude.{ℕ, Bool, true, false, ◌≡◌, Option, none, some, List, [], ◌∷◌}
use pm_lab_tools.Sync.Handles.{Handle}
use pm_lab_tools.Sync.Sets.{PblSets}
use pm_lab_tools.Sync.Phase.{update}
use pm_lab_tools.Sync.{
  Sync, returns, aborts, wait_again, leave_loop, init_sync, sig_hnd, notify_data_available,
  notify_read_barrier, read_barrier_turn, read_barrier_exit, data_available_turn,
  data_available_exit, set_ready, inc_available_handlers, dec_available_handlers,
  reset_ready_handlers, dead_handler_turn, dead_handler_exit, have_alive_threads,
}

module _ (lib : PblSets) (Block : Type 0) where
  pub record System : Type 0 where
    pub sync : Sync lib
    pub reader : ReaderPc
    pub handler : ℕ → HandlerPc
    pub collector : CollectorPc
    pub main_thread : MainPc
    -- the blocks of `malloc` that hold a `pthread_t`, by address
    pub allocated : ℕ → Bool
    -- what the arrays of the samples hold, none before the first read and once they are freed; what
    -- was published in them, and what each handler has copied from them, the latest first
    pub samples : Option Block
    pub published : List Block
    pub copied : ℕ → List Block

  unfoldable pub init : System
  init = record {
    sync = init_sync lib;
    reader = r_test;
    handler = λ _. unborn;
    collector = c_test;
    main_thread = m_accept;
    allocated = λ _. false;
    samples = none;
    published = [];
    copied = λ _. [];
  }

  -- Thread `t` goes on to `pc`.
  abbrev pub go : ℕ → HandlerPc → System → System
  go t pc s = record s { handler = update s.handler t pc }

  -- One step of `ni_thread_main`.
  pub data ReaderStep (s : System) : ReaderPc → System → Type 0 where
    loop_on : s.sync.running ≡ true → ReaderStep s r_test (record s { reader = r_wait })
    loop_off : s.sync.running ≡ false → ReaderStep s r_test (record s { reader = r_free })
    barrier_wait :
        read_barrier_turn lib s.sync ≡ wait_again
        → ReaderStep s r_wait (record s { reader = r_wait })
    barrier_open :
        read_barrier_turn lib s.sync ≡ leave_loop
        → read_barrier_exit lib s.sync ≡ returns tt
        → ReaderStep s r_wait (record s { reader = r_check })
    check_on : s.sync.running ≡ true → ReaderStep s r_check (record s { reader = r_read })
    check_off : s.sync.running ≡ false → ReaderStep s r_check (record s { reader = r_free })
    read_ok : (b : Block) → ReaderStep s r_read (record s { reader = r_publish; samples = some b })
    read_failed : ReaderStep s r_read (record s { reader = r_free; sync = sig_hnd lib s.sync })
    publish :
        (b : Block)
        → s.samples ≡ some b
        → ReaderStep s r_publish (record s { reader = r_reset; published = b ∷ s.published })
    reset :
        ReaderStep s r_reset
          (record s { reader = r_notify; sync = reset_ready_handlers lib s.sync })
    notify :
        ReaderStep s r_notify
          (record s { reader = r_test; sync = notify_data_available lib s.sync })
    -- `finish_ni`, `free(analog_data)` and `free(digital_data)`; a handler may be copying
    free_arrays : ReaderStep s r_free (record s { reader = r_end; samples = none })

  -- One step of `handler_thread_main` in the thread `t`.
  pub data HandlerStep (s : System) (t : ℕ) : HandlerPc → System → Type 0 where
    refuse : HandlerStep s t handshake (go t refused s)
    accept : HandlerStep s t handshake (go t registering s)
    register :
        (addr : ℕ)
        → s.allocated addr ≡ false
        → HandlerStep s t registering (record (go t inc_notify s) {
          sync = inc_available_handlers lib addr t s.sync;
          allocated = update s.allocated addr true;
        })
    inc_notified :
        HandlerStep s t inc_notify
          (record (go t welcome s) { sync = notify_read_barrier lib s.sync })
    welcomed : HandlerStep s t welcome (go t h_test s)
    loop_on : s.sync.running ≡ true → HandlerStep s t h_test (go t h_wait s)
    -- `running` or `handler_running` is false; the sender, which clears the latter, the writes to
    -- the client and the room in the buffer are no part of this state, so that `loop_off`,
    -- `welcomed` and `no_space` are steps in every state
    loop_off : HandlerStep s t h_test (go t leaving s)
    data_wait :
        data_available_turn lib t s.sync ≡ wait_again → HandlerStep s t h_wait (go t h_wait s)
    data_there :
        data_available_turn lib t s.sync ≡ leave_loop
        → data_available_exit lib t s.sync ≡ returns tt
        → HandlerStep s t h_wait (go t h_check s)
    check_on : s.sync.running ≡ true → HandlerStep s t h_check (go t copying s)
    check_off : s.sync.running ≡ false → HandlerStep s t h_check (go t leaving s)
    -- a copy takes what the arrays hold: reading them after `free` is no step (`ReadsFreed`)
    copy :
        (b : Block)
        → s.samples ≡ some b
        → HandlerStep s t copying
            (record (go t ready s) { copied = update s.copied t (b ∷ s.copied t) })
    -- `copy_to_buffer` returns ENOBUFS
    no_space : HandlerStep s t copying (go t leaving s)
    report :
        {sync' : Sync lib}
        → set_ready lib t s.sync ≡ returns sync'
        → HandlerStep s t ready (record (go t ready_notify s) { sync = sync' })
    ready_notified :
        HandlerStep s t ready_notify
          (record (go t h_test s) { sync = notify_read_barrier lib s.sync })
    leave :
        {sync' : Sync lib}
        → dec_available_handlers lib t s.sync ≡ returns sync'
        → HandlerStep s t leaving (record (go t dec_notify s) { sync = sync' })
    dec_notified :
        HandlerStep s t dec_notify
          (record (go t ending s) { sync = notify_read_barrier lib s.sync })
    finish : HandlerStep s t ending (go t ended s)

  -- One step of `dead_handler_thread_main`.
  pub data CollectorStep (s : System) : CollectorPc → System → Type 0 where
    running_on : s.sync.running ≡ true → CollectorStep s c_test (record s { collector = c_wait })
    running_off : s.sync.running ≡ false → CollectorStep s c_test (record s { collector = c_alive })
    some_alive :
        have_alive_threads lib s.sync ≡ true
        → CollectorStep s c_alive (record s { collector = c_wait })
    none_alive :
        have_alive_threads lib s.sync ≡ false
        → CollectorStep s c_alive (record s { collector = c_end })
    dead_wait :
        dead_handler_turn lib s.sync ≡ wait_again
        → CollectorStep s c_wait (record s { collector = c_wait })
    collect :
        {h : Handle} {sync' : Sync lib}
        → dead_handler_turn lib s.sync ≡ leave_loop
        → dead_handler_exit lib s.sync ≡ returns (h, sync')
        → CollectorStep s c_wait (record s { collector = c_join h; sync = sync' })
    -- once joined, the id may be given to a new thread
    join :
        {h : Handle}
        → s.handler h.thread ≡ ended
        → CollectorStep s (c_join h) (record (go h.thread unborn s) { collector = c_free h })
    free :
        {h : Handle}
        → CollectorStep s
            (c_free h)
            (record s { collector = c_test; allocated = update s.allocated h.addr false })

  -- One step of `main`.
  pub data MainStep (s : System) : MainPc → System → Type 0 where
    -- `launch_handler_thread`
    launch :
        (t : ℕ)
        → s.handler t ≡ unborn
        → MainStep s m_accept (record (go t handshake s) { copied = update s.copied t [] })
    no_more :
        s.sync.running ≡ false → MainStep s m_accept (record s { main_thread = m_join_reader })
    join_reader : s.reader ≡ r_end → MainStep s m_join_reader (record s { main_thread = m_cancel })
    -- a collector that is cancelled in `pthread_cond_wait` ends with the mutex locked; the steps
    -- let the other threads go on all the same
    cancel :
        at_cancellation_point s.collector ≡ true
        → MainStep s m_cancel (record s { main_thread = m_finish; collector = c_end })
    -- the sets are freed; the steps of threads that still run see them as they were
    finish_sync : MainStep s m_finish (record s { main_thread = m_end })

  pub data Step (s : System) : System → Type 0 where
    reader_step : {u : System} → ReaderStep s s.reader u → Step s u
    handler_step : (t : ℕ) {u : System} → HandlerStep s t (s.handler t) u → Step s u
    collector_step : {u : System} → CollectorStep s s.collector u → Step s u
    main_step : {u : System} → MainStep s s.main_thread u → Step s u
    -- SIGINT
    signal : Step s (record s { sync = sig_hnd lib s.sync })

  pub data Reach : System → Type 0 where
    start : Reach init
    next : {s u : System} → Reach s → Step s u → Reach u

  -- A handler copies from the arrays of the samples after `ni_thread_main` has freed them.
  pub data ReadsFreed (s : System) : Type 0 where
    at_copy : (t : ℕ) → s.handler t ≡ copying → s.reader ≡ r_end → s.samples ≡ none → ReadsFreed s

  -- The next thing some thread runs is an assertion of daemon/sync.c on the sets, and it fails.
  pub data Crash (s : System) : Type 0 where
    at_read_barrier :
        s.reader ≡ r_wait
        → read_barrier_turn lib s.sync ≡ leave_loop
        → read_barrier_exit lib s.sync ≡ aborts
        → Crash s
    at_wait_data :
        (t : ℕ)
        → s.handler t ≡ h_wait
        → data_available_turn lib t s.sync ≡ leave_loop
        → data_available_exit lib t s.sync ≡ aborts
        → Crash s
    at_set_ready : (t : ℕ) → s.handler t ≡ ready → set_ready lib t s.sync ≡ aborts → Crash s
    at_dec :
        (t : ℕ) → s.handler t ≡ leaving → dec_available_handlers lib t s.sync ≡ aborts → Crash s
    at_dead_handler :
        s.collector ≡ c_wait
        → dead_handler_turn lib s.sync ≡ leave_loop
        → dead_handler_exit lib s.sync ≡ aborts
        → Crash s
