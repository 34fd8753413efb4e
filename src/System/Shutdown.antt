-- ===== src/System/Shutdown.antt =====
-- daemon/daemon.c and daemon/handler.c: how the threads come to an end once the daemon is stopped.
pub mod Ranks
pub mod Ends
use pm_lab_tools.Prelude.{
  ℕ, zero, suc, ◌+◌, ◌*◌, ◌≤◌, ◌<◌, ◌≡◌, refl, true, false, arith, ◌∙◌, ◌==◌, ==_iff, if◌then◌else◌,
  Bool-cases, inl, inr,
}
use pm_lab_tools.Sync.Handles.{Handle}
use pm_lab_tools.Sync.Sets.{PblSets}
use pm_lab_tools.Sync.Phase.{update}
use pm_lab_tools.Sync.{
  Sync, returns, wait_again, read_barrier_turn, data_available_turn, sig_hnd, init_sync,
  inc_available_handlers, dec_available_handlers, set_ready, reset_ready_handlers,
  notify_data_available, notify_read_barrier, dead_handler_exit,
}
use pm_lab_tools.System.{
  inc_notify, ready_notify, dec_notify, System, ReaderPc, r_test, r_wait, r_check, r_read,
  r_publish, r_reset, r_notify, r_free, r_end, HandlerPc, unborn, handshake, refused, registering,
  welcome, h_test, h_wait, h_check, copying, ready, leaving, ending, ended, CollectorPc, MainPc,
  ReaderStep, HandlerStep, CollectorStep, MainStep, Step, reader_step, handler_step, collector_step,
  main_step, signal,
}

-- How many steps the reading thread has left at most.
abbrev pub reader_rank : ReaderPc → ℕ
reader_rank r_end = 0
reader_rank r_free = 1
reader_rank r_test = 2
reader_rank r_check = 2
reader_rank r_wait = 3
reader_rank r_notify = 3
reader_rank r_reset = 4
reader_rank r_publish = 5
reader_rank r_read = 6

-- The handler is in `wait_data_available`, or before `set_ready` or `dec_available_handlers`.
abbrev pub UsesSets : HandlerPc → Type 0
UsesSets h_wait = Unit
UsesSets ready = Unit
UsesSets leaving = Unit
UsesSets _ = ⊥

-- How many steps a handler thread has left at most.
abbrev pub handler_rank : HandlerPc → ℕ
handler_rank unborn = 0
handler_rank refused = 0
handler_rank ended = 0
handler_rank ending = 1
handler_rank dec_notify = 2
handler_rank leaving = 3
handler_rank h_test = 4
handler_rank h_check = 4
handler_rank h_wait = 5
handler_rank ready_notify = 5
handler_rank welcome = 5
handler_rank ready = 6
handler_rank inc_notify = 6
handler_rank copying = 7
handler_rank registering = 7
handler_rank handshake = 8

module _ (lib : PblSets) (Block : Type 0) where
  -- A run of the daemon from a state on.
  pub data Passage (s : System lib Block) : System lib Block → Type 0 where
    stay : Passage s s
    go_on : {u v : System lib Block} → Passage s u → Step lib Block u v → Passage s v

  -- Whether a step is one of the reading thread, or of a handler thread, or launches this thread.
  abbrev pub by_reader : {s u : System lib Block} → Step lib Block s u → ℕ
  by_reader (reader_step st) = 1
  by_reader _ = 0

  abbrev pub by_handler : ℕ → {s u : System lib Block} → Step lib Block s u → ℕ
  by_handler t (handler_step t' st) = if t' == t then 1 else 0
  by_handler t _ = 0

  abbrev pub launched_by :
      ℕ
      → {s : System lib Block} {pc : MainPc} {u : System lib Block} → MainStep lib Block s pc u
      → ℕ
  launched_by t (MainStep.launch t' new) = if t' == t then 1 else 0
  launched_by t _ = 0

  abbrev pub launching : ℕ → {s u : System lib Block} → Step lib Block s u → ℕ
  launching t (main_step st) = launched_by t st
  launching t _ = 0

  -- The number of these steps in a run.
  abbrev pub reader_steps : {s u : System lib Block} → Passage s u → ℕ
  reader_steps stay = 0
  reader_steps (go_on p st) = reader_steps p + by_reader st

  abbrev pub handler_steps : ℕ → {s u : System lib Block} → Passage s u → ℕ
  handler_steps t stay = 0
  handler_steps t (go_on p st) = handler_steps t p + by_handler t st

  abbrev pub launches : ℕ → {s u : System lib Block} → Passage s u → ℕ
  launches t stay = 0
  launches t (go_on p st) = launches t p + launching t st
