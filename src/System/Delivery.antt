-- ===== src/System/Delivery.antt =====
-- What the handlers copy: consecutive blocks, each once, in the order of publication.
pub mod Blocks
use pm_lab_tools.Prelude.{
  ℕ, Bool, true, false, ◌≡◌, refl, ◌≢◌, Option, none, some, List, [], arith, ==_refl, by_index,
}
use pm_lab_tools.Sync.Handles.{Handle}
use pm_lab_tools.Sync.Sets.{PblSets}
use pm_lab_tools.Sync.Phase.{
  Phase, Phases, absent, idle, finished, dead, update, renew, complete, bury, registered,
  holding_up,
}
use pm_lab_tools.System.{
  inc_notify, ready_notify, dec_notify, System, ReaderPc, HandlerPc, CollectorPc, MainPc,
  ReaderStep, HandlerStep, CollectorStep, MainStep, Step, Reach, init, start, next, reader_step,
  handler_step, collector_step, main_step, signal, r_publish, r_reset, unborn, handshake, refused,
  registering, welcome, h_test, h_wait, h_check, copying, ready, leaving, ending, ended,
}
use pm_lab_tools.System.Invariant.{Fits, Quiet, Inv, update_second}
use pm_lab_tools.System.Phases.{
  InvOf, reader_phases, handler_phases, collector_phases, step_phases, at_pc, reach_phases,
}
use pm_lab_tools.System.Steps.{Reach-Inv, Step-Inv}
use Blocks.{
  latest, IsSegment, UpToDate, OneBehind, Delivered, Holds, nothing-IsSegment, cons-IsSegment,
  Delivered-IsSegment, Delivered-publish, Delivered-renew, copy-Delivered, report-Delivered,
  bury-Delivered, is_late, is_ready, is_new, not-ready, busy-Holds, end-old,
}

module _ (lib : PblSets) (Block : Type 0) where
  pub record Feed (r : ReaderPc) (hs : ℕ → HandlerPc) (ph : Phases) (samples : Option Block)
      (published : List Block) (copied : ℕ → List Block) : Type 0 where
    pub holds : Holds r samples published
    pub delivered :
        (t : ℕ)
        → Delivered (is_late r) (is_ready (hs t)) (is_new (hs t)) (ph t) published (copied t)

  abbrev pub FeedOf : System lib Block → Phases → Type 0
  FeedOf s ph = Feed s.reader s.handler ph s.samples s.published s.copied

  ReaderStep-Feed :
      {s u : System lib Block} {pc : ReaderPc} {ph : Phases} (st : ReaderStep lib Block s pc u)
      → Inv lib s.sync pc s.handler s.collector ph
      → Feed pc s.handler ph s.samples s.published s.copied
      → FeedOf u (reader_phases lib Block st ph)
  ReaderStep-Feed (ReaderStep.publish b got) v f = record {
    holds = (b, _, got, refl);
    delivered = λ t. Delivered-publish _ _ _ b _ _ (v.quiet t) (f.delivered t);
  }
  ReaderStep-Feed {s = s} {ph = ph} ReaderStep.reset v f =
      let (b, rest, held, top) = f.holds in
      record {
        holds = rw (held, top);
        delivered = λ t.
            let done = not-ready s.sync.running (s.handler t) (ph t) (v.fits t) (v.quiet t) in
            rw done
              (Delivered-renew _ _ _ _ (b, rest, top) (v.quiet t) (rw done at (f.delivered t)));
      }
  ReaderStep-Feed (ReaderStep.read_ok b) v f = record { holds = tt; delivered = f.delivered }
  ReaderStep-Feed ReaderStep.free_arrays v f = record { holds = refl; delivered = f.delivered }
  ReaderStep-Feed _ v f = record { holds = f.holds; delivered = f.delivered }

  module _ {r : ReaderPc} {hs : ℕ → HandlerPc} {ph : Phases} {samples : Option Block}
      {published : List Block} {copied : ℕ → List Block} (f : Feed r hs ph samples published copied)
      (t : ℕ) where
    -- What thread `t` has copied, by where it stands.
    at_thread :
        {pc : HandlerPc}
        → hs t ≡ pc
        → Delivered (is_late r) (is_ready pc) (is_new pc) (ph t) published (copied t)
    at_thread e = rw e at (f.delivered t)

    go_on :
        (pc' : HandlerPc)
        → Delivered (is_late r) (is_ready pc') (is_new pc') (ph t) published (copied t)
        → Feed r (update hs t pc') ph samples published copied
    go_on pc' d = record {
      holds = f.holds;
      delivered = by_index _ t (rw (==_refl t) d) (λ k away. rw away (f.delivered k));
    }

    go_in :
        (pc' : HandlerPc) (p : Phase)
        → Delivered (is_late r) (is_ready pc') (is_new pc') p published (copied t)
        → Feed r (update hs t pc') (update ph t p) samples published copied
    go_in pc' p d = record {
      holds = f.holds;
      delivered = by_index _ t (rw (==_refl t) d) (λ k away. rw away (f.delivered k));
    }

    go_with :
        (pc' : HandlerPc) (got : List Block)
        → Delivered (is_late r) (is_ready pc') (is_new pc') (ph t) published got
        → Feed r (update hs t pc') ph samples published (update copied t got)
    go_with pc' got d = record {
      holds = f.holds;
      delivered = by_index _ t (rw (==_refl t) d) (λ k away. rw away (f.delivered k));
    }

  HandlerStep-Feed :
      {s : System lib Block} {t : ℕ} {pc : HandlerPc} {u : System lib Block} {ph : Phases}
      (st : HandlerStep lib Block s t pc u)
      → s.handler t ≡ pc
      → InvOf lib Block s ph
      → FeedOf s ph
      → FeedOf u (handler_phases lib Block st ph)
  HandlerStep-Feed {t = t} HandlerStep.refuse e v f = go_on f t refused (at_thread f t e)
  HandlerStep-Feed {t = t} HandlerStep.accept e v f = go_on f t registering (at_thread f t e)
  HandlerStep-Feed {t = t} (HandlerStep.register addr free) e v f =
      go_in f t inc_notify _ (rw (at_pc lib Block t e v) at (at_thread f t e))
  HandlerStep-Feed {t = t} HandlerStep.inc_notified e v f = go_on f t welcome (at_thread f t e)
  HandlerStep-Feed {t = t} HandlerStep.ready_notified e v f = go_on f t h_test (at_thread f t e)
  HandlerStep-Feed {t = t} HandlerStep.dec_notified e v f = go_on f t ending (at_thread f t e)
  HandlerStep-Feed {t = t} HandlerStep.welcomed e v f = go_on f t h_test (at_thread f t e)
  HandlerStep-Feed {t = t} (HandlerStep.loop_on on) e v f = go_on f t h_wait (at_thread f t e)
  HandlerStep-Feed {t = t} HandlerStep.loop_off e v f = go_on f t leaving (at_thread f t e)
  HandlerStep-Feed {t = t} (HandlerStep.data_wait w) e v f = go_on f t h_wait (at_thread f t e)
  HandlerStep-Feed {t = t} (HandlerStep.data_there w x) e v f = go_on f t h_check (at_thread f t e)
  HandlerStep-Feed {t = t} (HandlerStep.check_on on) e v f = go_on f t copying (at_thread f t e)
  HandlerStep-Feed {t = t} (HandlerStep.check_off off) e v f = go_on f t leaving (at_thread f t e)
  HandlerStep-Feed {s = s} {t = t} {ph = ph} (HandlerStep.copy b found) e v f =
      let (h, p) = at_pc lib Block t e v in
      let (_, held) = busy-Holds s.reader ph t h s.samples s.published p v.quiet f.holds in
      go_with f t ready _ (
        copy-Delivered (is_late s.reader) false (ph t) h s.samples b s.published (s.copied t) p held
          found (at_thread f t e))
  HandlerStep-Feed {t = t} HandlerStep.no_space e v f = go_on f t leaving (at_thread f t e)
  HandlerStep-Feed {s = s} {t = t} {ph = ph} (HandlerStep.report done) e v f =
      let (h, p) = at_pc lib Block t e v in
      let (early, _) = busy-Holds s.reader ph t h s.samples s.published p v.quiet f.holds in
      go_in f t ready_notify _ (
        report-Delivered (is_late s.reader) false (ph t) h s.published (s.copied t) p early
          (at_thread f t e))
  HandlerStep-Feed {s = s} {t = t} {ph = ph} (HandlerStep.leave done) e v f =
      let (h, p) = at_pc lib Block t e v in
      go_in f t dec_notify _
        (bury-Delivered _ (ph t) h _ _ p (Delivered-IsSegment _ _ _ (ph t) _ _ (f.delivered t)))
  HandlerStep-Feed {t = t} HandlerStep.finish e v f = go_on f t ended (at_thread f t e)

  CollectorStep-Feed :
      {s : System lib Block} {pc : CollectorPc} {u : System lib Block} {ph : Phases}
      (st : CollectorStep lib Block s pc u)
      → InvOf lib Block u (collector_phases lib Block st ph)
      → FeedOf s ph
      → FeedOf u (collector_phases lib Block st ph)
  CollectorStep-Feed {s = s} {ph = ph} (CollectorStep.collect {h} turn done) v f = record {
    holds = f.holds;
    delivered =
        update_second
          (λ k p.
            Delivered (is_late s.reader) (is_ready (s.handler k)) (is_new (s.handler k)) p
              s.published (s.copied k))
          (λ k. k) ph h.thread absent f.delivered
          (rw (end-old (s.handler h.thread) v.collecting.1)
            (Delivered-IsSegment _ _ _ (ph h.thread) _ _ (f.delivered h.thread)));
  }
  CollectorStep-Feed {s = s} (CollectorStep.join {h} e) v f =
      go_on f h.thread unborn (at_thread f h.thread e)
  CollectorStep-Feed _ v f = f

  MainStep-Feed :
      {s : System lib Block} {pc : MainPc} {u : System lib Block} {ph : Phases}
      → MainStep lib Block s pc u
      → InvOf lib Block s ph
      → FeedOf s ph
      → FeedOf u ph
  MainStep-Feed (MainStep.launch t e) v f =
      go_with f t handshake [] (rw (at_pc lib Block t e v) refl)
  MainStep-Feed _ v f = record { holds = f.holds; delivered = f.delivered }

  Step-Feed :
      {s : System lib Block} {u : System lib Block} {ph : Phases} (st : Step lib Block s u)
      → InvOf lib Block s ph
      → FeedOf s ph
      → FeedOf u (step_phases lib Block st ph)
  Step-Feed (reader_step st) v f = ReaderStep-Feed st v f
  Step-Feed (handler_step t st) v f = HandlerStep-Feed st refl v f
  Step-Feed (collector_step st) v f =
      CollectorStep-Feed st (Step-Inv lib Block (collector_step st) v) f
  Step-Feed (main_step st) v f = MainStep-Feed st v f
  Step-Feed signal v f = f

  pub Reach-Feed :
      {s : System lib Block} (r : Reach lib Block s) → FeedOf s (reach_phases lib Block r)
  unfolding reach_phases init
  Reach-Feed start = record { holds = refl; delivered = λ t. ([], [], refl) }
  Reach-Feed (next r st) = Step-Feed st (Reach-Inv lib Block r) (Reach-Feed r)

  -- In every reachable state, the blocks that a connected handler has copied while the arrays of the
  -- samples were not freed are blocks that were published one right after the other, in that order:
  -- none left out, none twice. A copy from freed arrays (`ReadsFreed`) is no step.
  pub copied-IsSegment :
      {s : System lib Block} → Reach lib Block s → (t : ℕ) → IsSegment s.published (s.copied t)
  copied-IsSegment {s} r t =
      Delivered-IsSegment _ _ _ (reach_phases lib Block r t) _ _ ((Reach-Feed r).delivered t)

  finished-latest :
      (late took new : Bool) (p : Phase) (h : Handle) (published got : List Block)
      → p ≡ finished h
      → late ≡ false
      → Delivered late took new p published got
      → (latest got ≡ latest published) × (latest got ≢ none)
  finished-latest false took new (finished _) h published got e l (b, old, rest, g, top) =
      (rw (g, top), λ n. ground arith)
  finished-latest true took new _ h published got e l d = absurd (ground arith)
  finished-latest false took new _ h published got e l d = absurd (ground arith)

  early-Late : (r : ReaderPc) → r ≢ r_reset → is_late r ≡ false
  early-Late r_reset n = absurd (n refl)
  early-Late _ n = refl

  -- In a reachable state a handler that is in the done set has copied the latest published block,
  -- but for the moment between a publication and the start of its round, if no copy was one from
  -- freed arrays (`ReadsFreed`), which is no step.
  pub done-latest :
      {s : System lib Block}
      → Reach lib Block s
      → (t : ℕ) (h : Handle) → lib.get_element s.sync.done_set t ≡ some h
      → s.reader ≢ r_reset
      → (latest (s.copied t) ≡ latest s.published) × (latest (s.copied t) ≢ none)
  done-latest {s} r t h e n =
      finished-latest _ _ _ (reach_phases lib Block r t) h _ _
        (ground (arith, (Reach-Inv lib Block r).shows t)) (early-Late s.reader n)
        ((Reach-Feed r).delivered t)
