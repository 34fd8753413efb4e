-- ===== src/System/Pipeline.antt =====
-- daemon/handler.c and daemon/daemon.c together: the threads of the daemon with the buffer that each
-- handler shares with its sender. The steps are those of the daemon; where a handler copies, it
-- copies into its buffer, and its sender takes elements off.
pub mod Delivered
pub mod Printed
use pm_lab_tools.Prelude.{ℕ, true, ◌≡◌, Option, some, List, [], ◌∷◌, ◌++◌}
use pm_lab_tools.Sync.Sets.{PblSets}
use pm_lab_tools.Sync.Phase.{update}
use pm_lab_tools.Sync.{returns, sig_hnd}
use pm_lab_tools.Handler.Buffer.{
  InputData, BufferDesc, ok, enobufs, init_buffer, copy_to_buffer, take_element,
}
use pm_lab_tools.System.{
  System, HandlerPc, unborn, handshake, refused, ended, copying, ready, leaving, m_accept, init, go,
  ReaderStep, HandlerStep, CollectorStep, MainPc, MainStep,
}

-- From the creation of the sender to the end of `finally`, where it is joined.
abbrev pub HasSender : HandlerPc → Type 0
HasSender unborn = ⊥
HasSender handshake = ⊥
HasSender refused = ⊥
HasSender ended = ⊥
HasSender _ = Unit

module _ (lib : PblSets) (Double : Type 0) where
  abbrev pub Daemon : Type 0
  Daemon = System lib (InputData Double)

  -- The steps that have nothing to do with a buffer.
  abbrev pub IsApart :
      {s : Daemon} {t : ℕ} {pc : HandlerPc} {u : Daemon}
      → HandlerStep lib (InputData Double) s t pc u
      → Type 0
  IsApart (HandlerStep.copy b there) = ⊥
  IsApart HandlerStep.no_space = ⊥
  IsApart _ = Unit

  abbrev pub IsNoLaunch :
      {s : Daemon} {pc : MainPc} {u : Daemon} → MainStep lib (InputData Double) s pc u → Type 0
  IsNoLaunch (MainStep.launch t new) = ⊥
  IsNoLaunch _ = Unit

  -- `taken` is what each sender has taken off its buffer, the oldest element first.
  pub record Pipeline : Type 0 where
    pub daemon : Daemon
    pub buffer : ℕ → BufferDesc Double
    pub taken : ℕ → List (Option (InputData Double))

  unfoldable pub empty_pipeline : Pipeline
  empty_pipeline = record {
    daemon = init lib (InputData Double);
    buffer = λ _. init_buffer;
    taken = λ _. [];
  }

  pub data PipelineStep (p : Pipeline) : Pipeline → Type 0 where
    -- a handler thread starts, with a buffer of its own
    launch :
        (t : ℕ)
        → p.daemon.main_thread ≡ m_accept
        → p.daemon.handler t ≡ unborn
        → PipelineStep p (record {
          daemon = record (go lib (InputData Double) t handshake p.daemon) {
            copied = update p.daemon.copied t [];
          };
          buffer = update p.buffer t init_buffer;
          taken = update p.taken t [];
        })
    copy :
        (t : ℕ) (b : InputData Double) (new : BufferDesc Double)
        → p.daemon.handler t ≡ copying
        → p.daemon.samples ≡ some b
        → copy_to_buffer (p.buffer t) b ≡ returns (some (ok, new))
        → PipelineStep p (record p {
          daemon = record (go lib (InputData Double) t ready p.daemon) {
            copied = update p.daemon.copied t (b ∷ p.daemon.copied t);
          };
          buffer = update p.buffer t new;
        })
    no_space :
        (t : ℕ) (b : InputData Double) (new : BufferDesc Double)
        → p.daemon.handler t ≡ copying
        → p.daemon.samples ≡ some b
        → copy_to_buffer (p.buffer t) b ≡ returns (some (enobufs, new))
        → PipelineStep p (record p {
          daemon = go lib (InputData Double) t leaving p.daemon;
          buffer = update p.buffer t new;
        })
    take :
        (t : ℕ) (x : Option (InputData Double)) (new : BufferDesc Double)
        → HasSender (p.daemon.handler t)
        → take_element p.daemon.sync.running (p.buffer t) ≡ returns (some x, new)
        → PipelineStep p (record p {
          buffer = update p.buffer t new;
          taken = update p.taken t (p.taken t ++ x ∷ []);
        })
    reader_alone :
        {u : Daemon}
        → ReaderStep lib (InputData Double) p.daemon p.daemon.reader u
        → PipelineStep p (record p { daemon = u })
    handler_alone :
        (t : ℕ) {pc : HandlerPc} {u : Daemon}
        → p.daemon.handler t ≡ pc
        → (st : HandlerStep lib (InputData Double) p.daemon t pc u) → IsApart st
        → PipelineStep p (record p { daemon = u })
    collector_alone :
        {u : Daemon}
        → CollectorStep lib (InputData Double) p.daemon p.daemon.collector u
        → PipelineStep p (record p { daemon = u })
    main_alone :
        {pc : MainPc} {u : Daemon}
        → p.daemon.main_thread ≡ pc
        → (st : MainStep lib (InputData Double) p.daemon pc u) → IsNoLaunch st
        → PipelineStep p (record p { daemon = u })
    stop :
        PipelineStep p (record p { daemon = record p.daemon { sync = sig_hnd lib p.daemon.sync } })

  pub data PipelineReach : Pipeline → Type 0 where
    start : PipelineReach empty_pipeline
    next : {p q : Pipeline} → PipelineReach p → PipelineStep p q → PipelineReach q
