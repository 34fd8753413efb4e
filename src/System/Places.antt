-- ===== src/System/Places.antt =====
-- daemon/daemon.c and daemon/handler.c: where each thread of the daemon stands between two steps.
use pm_lab_tools.Prelude.{Bool, true, false}
use pm_lab_tools.Sync.Handles.{Handle}

-- Where `ni_thread_main` stands.
pub data ReaderPc : Type 0 where
  r_test : ReaderPc  -- `while(running)`
  r_wait : ReaderPc  -- in `wait_read_barrier`
  r_check : ReaderPc  -- `if(!running)`
  r_read : ReaderPc  -- in `read_ni`, which writes the sample buffer
  r_publish : ReaderPc  -- the assignments to `*info`
  r_reset : ReaderPc  -- before `reset_ready_handlers`
  r_notify : ReaderPc  -- before `notify_data_available`
  r_free : ReaderPc  -- after the loop: `finish_ni` and the two calls of `free`
  r_end : ReaderPc  -- has returned: the arrays of the samples are freed

-- Where `handler_thread_main` stands, for one thread id.
pub data HandlerPc : Type 0 where
  unborn : HandlerPc  -- no such thread
  handshake : HandlerPc  -- reads and checks the channels
  refused : HandlerPc  -- at `finally` without having registered
  registering : HandlerPc  -- before `inc_available_handlers`
  inc_notify : HandlerPc  -- in `inc_available_handlers`, before `notify_read_barrier`
  welcome : HandlerPc  -- writes the welcome message and the sampling rate
  h_test : HandlerPc  -- `while(running && handler_running)`
  h_wait : HandlerPc  -- in `wait_data_available`
  h_check : HandlerPc  -- `if(!running)`
  copying : HandlerPc  -- in `copy_to_buffer`, which reads the sample buffer
  ready : HandlerPc  -- before `set_ready`
  ready_notify : HandlerPc  -- in `set_ready`, before `notify_read_barrier`
  leaving : HandlerPc  -- at `finally`, before `dec_available_handlers`
  dec_notify : HandlerPc  -- in `dec_available_handlers`, before `notify_read_barrier`
  ending : HandlerPc  -- the rest of `finally`
  ended : HandlerPc  -- has returned, and can be joined

-- Where `dead_handler_thread_main` stands.
pub data CollectorPc : Type 0 where
  c_test : CollectorPc  -- `running || ...`
  c_alive : CollectorPc  -- `... have_alive_threads()`
  c_wait : CollectorPc  -- in `wait_dead_handler`
  c_join : Handle → CollectorPc  -- in `pthread_join`
  c_free : Handle → CollectorPc  -- before `free`
  c_end : CollectorPc

-- `pthread_cond_wait` and `pthread_join` are where a cancelled thread ends.
abbrev pub at_cancellation_point : CollectorPc → Bool
at_cancellation_point c_wait = true
at_cancellation_point (c_join h) = true
at_cancellation_point c_end = true
at_cancellation_point _ = false

-- Where `main` stands, from the call of `wait_for_connections` on.
pub data MainPc : Type 0 where
  m_accept : MainPc  -- in `wait_for_connections`
  m_join_reader : MainPc
  m_cancel : MainPc  -- `pthread_cancel` and `pthread_join` of the collector
  m_finish : MainPc  -- before `finish_sync`
  m_end : MainPc  -- the sets are freed
