-- ===== src/System/Steps/Reader.antt =====
-- `ni_thread_main` keeps the invariant.
use pm_lab_tools.Prelude.{ℕ, arith}
use pm_lab_tools.Sync.Sets.{PblSets}
use pm_lab_tools.Sync.Phase.{Phases}
use pm_lab_tools.Sync.Refine.{reset-Shows, pending-empty_iff}
use pm_lab_tools.Sync.{Sync, read_barrier_exit, reset_ready_handlers, notify_data_available}
use pm_lab_tools.System.{System, ReaderPc, HandlerPc, CollectorPc, ReaderStep}
use pm_lab_tools.System.Invariant.{Quiet, Inv, Fits-renew, Collecting-renew, sig_hnd-Inv}
use pm_lab_tools.System.Phases.{InvOf, reader_phases}

module _ (lib : PblSets) (Block : Type 0) where
  with_reader :
      {sync : Sync lib} {r r' : ReaderPc} {hs : ℕ → HandlerPc} {c : CollectorPc} {ph : Phases}
      → Inv lib sync r hs c ph
      → Quiet r' ph
      → Inv lib sync r' hs c ph
  with_reader v q = record { shows = v.shows; fits = v.fits; quiet = q; collecting = v.collecting }

  pub ReaderStep-Inv :
      {s u : System lib Block} {pc : ReaderPc} {ph : Phases} (st : ReaderStep lib Block s pc u)
      → Inv lib s.sync pc s.handler s.collector ph
      → InvOf lib Block u (reader_phases lib Block st ph)
  unfolding read_barrier_exit notify_data_available reset_ready_handlers
  ReaderStep-Inv (ReaderStep.loop_on on) v = with_reader v tt
  ReaderStep-Inv (ReaderStep.loop_off off) v = with_reader v tt
  ReaderStep-Inv (ReaderStep.barrier_wait w) v = with_reader v tt
  ReaderStep-Inv {s = s} {ph = ph} (ReaderStep.barrier_open w x) v =
      with_reader v ((pending-empty_iff lib s.sync ph v.shows).0 (ground arith))
  ReaderStep-Inv (ReaderStep.check_on on) v = with_reader v v.quiet
  ReaderStep-Inv (ReaderStep.check_off off) v = with_reader v tt
  ReaderStep-Inv (ReaderStep.read_ok b) v = with_reader v v.quiet
  ReaderStep-Inv {s = s} {ph = ph} ReaderStep.read_failed v =
      with_reader (sig_hnd-Inv lib s.sync _ s.handler s.collector ph v) tt
  ReaderStep-Inv (ReaderStep.publish b f) v = with_reader v v.quiet
  ReaderStep-Inv {s = s} {ph = ph} ReaderStep.reset v = record {
    shows = reset-Shows lib s.sync ph v.shows;
    fits = λ t. Fits-renew s.sync.running (s.handler t) (ph t) (v.fits t);
    quiet = tt;
    collecting = Collecting-renew s.collector s.handler ph v.collecting;
  }
  ReaderStep-Inv ReaderStep.notify v = record {
    shows = v.shows;
    fits = v.fits;
    quiet = tt;
    collecting = v.collecting;
  }
  ReaderStep-Inv ReaderStep.free_arrays v = with_reader v tt
