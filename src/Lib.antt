-- ===== src/Lib.antt =====
-- pm-lab-tools: a daemon that reads samples from a measuring device and hands them to the clients
-- that are connected to it, and the library that a client reads them with.
--
-- The daemon has a thread that reads blocks of samples (`ni_thread_main`, daemon/daemon.c), two
-- threads for each client (`handler_thread_main` and `handler_sender_main`, daemon/handler.c), a
-- thread that collects dead handlers and the main thread. The reading thread and the handlers share
-- one sample buffer; daemon/sync.c keeps them apart with five sets of handlers and a barrier. A
-- handler copies each block to a bounded buffer of its own, from which its sender writes data sets to
-- the client, which `pm_read` (client/libpmlab.c) reads.
--
-- Which file models what:
--   Prelude    native numbers, lists, Boolean tests, integers; lemmas on them
--   Utils      common/utils.c: `full_write` and `full_read`. The system calls' answers are a
--              list; a loop that uses the list up is blocked in the next call
--   Sync       daemon/sync.c: each section under the mutex is one function on the state `Sync`; a
--              wait loop is its test (`..._turn`) and what comes behind it
--              (`..._exit`). Sync/Handles: the thread ids, `pthread_hash` and
--              `pthread_compare`. Sync/Sets: the set library PBL, a parameter. Sync/Phase: the
--              abstract view; Sync/Operations: the moves that the functions make there.
--              Sync/Timeout: `abs_wait_timeout`. Sync/Debug: what `debug_sets` prints
--   System     daemon/daemon.c and `handler_thread_main` of daemon/handler.c: threads as step
--              relations over `Sync`, in any interleaving, with SIGINT at any time.
--              System/Memory: the handles that are allocated. System/Pipeline: the same threads
--              with the buffer of each handler, and what its sender takes;
--              System/Pipeline/Printed puts it together with a client. System/Accept:
--              `wait_for_connections` and `main`, as the list of what the main thread does.
--              System/Shutdown: runs behind a stop. System/Rounds: the steps of a handler in
--              a round. System/Wakeups: the broadcasts that end the waits. System/Report: what
--              a wait prints that times out
--   Acquisition  daemon/daemon.c, the timestamps of `ni_thread_main`. Acquisition/Device:
--              `ni_thread_main` with its calls of the device library, whose answers are
--              arguments. Acquisition/Dummy: `read_dummy`, which stands in for the device
--   Handler    daemon/handler.c: Handler/Buffer the buffer of a handler, Handler/Dataset the
--              writing of a data set, Handler/Sender the sender and its loop, Handler/Life
--              `handler_thread_main` from its start to its end
--   Protocol   common/common.h, protos/measured-data.proto and the words in network order; the
--              code that protobuf-c generates is a parameter. Protocol/Connection: the request
--              of `pm_connect` (client/libpmlab.c) and the answer of `handler_thread_main`
--   Client     client/libpmlab.c: Client/Read `pm_read`, into arrays that are lists, Client/Untrusted
--              the same for any data set;
--              Client/Connect `pm_connect`, `pm_samplingrate` and `pm_close`, with the sockets,
--              address lists and handles that they take and give back. client/pmlabclient.c:
--              Client/Choice `parse_channels`; Client/Main `main`, with the rows that it prints
--   Tests      values for the parameters, and runs at concrete inputs
--
-- A C function that may fail an assertion has a result with an end for that. `unsigned int`,
-- `uint32_t`, `size_t` and `time_t` keep their wrap-around where the code computes with them. The
-- loop of `copy_to_buffer` has fuel for two turns; its theorem shows that this is enough.
-- `malloc` always gives memory.
--
-- Not modelled: the sample data, messages for the log but for the sets and the rows of the client,
-- and the addresses of the arrays of samples, which are values here; that `ni_thread_main` frees
-- its arrays at its end is a step, and a copy from them behind it is none (`ReadsFreed`). In the
-- step relations, where a handler waits for its client or looks at its sender, each may go either
-- way. A block of samples is one value there, read and published in one step each. A thread in a
-- wait loop may look at its condition again at any time; the broadcasts are only recorded. A
-- collector that is cancelled in `pthread_cond_wait` ends with the mutex locked, and `finish_sync`
-- frees the sets; the steps let the threads that still run go on with both.
pub mod Prelude
pub mod Utils
pub mod Sync
pub mod Protocol
pub mod Handler
pub mod Client
pub mod Acquisition
pub mod System
pub mod Tests
