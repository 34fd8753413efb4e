-- ===== src/System/Pipeline/Delivered.antt =====
-- What reaches the senders.
use pm_lab_tools.Prelude.{
  ℕ, Bool, true, false, ◌≡◌, refl, sym, ap, ◌∙◌, subst, ◌⊎◌, inl, inr, Option, some, List, ◌∷◌,
  ◌++◌, arith, append_assoc, Bool-cases, ◌==◌, ==_iff,
}
use mathlib.Core.List.{reverse, reverse-cons, reverse-append, map-append}
use pm_lab_tools.Sync.Sets.{PblSets}
use pm_lab_tools.Sync.{returns}
use pm_lab_tools.Handler.Buffer.{InputData, BufferDesc, take_element, free_buffer}
use pm_lab_tools.Handler.History.{
  History, begin, accepted, refused, took, copies, accepted-eq-taken-append-freed,
}
use pm_lab_tools.System.{
  ReaderPc, CollectorPc, HandlerPc, HandlerStep, MainPc, MainStep, ReaderStep, CollectorStep, Step,
  Reach, start, next, reader_step, handler_step, collector_step, main_step, signal, init,
}
use pm_lab_tools.System.Delivery.{copied-IsSegment}
use pm_lab_tools.System.Pipeline.{
  Daemon, IsApart, IsNoLaunch, Pipeline, empty_pipeline, PipelineStep, PipelineReach,
}

module _ (lib : PblSets) (Double : Type 0) where
  handler_move :
      {s u : Daemon lib Double} (t : ℕ) {pc : HandlerPc}
      → s.handler t ≡ pc
      → HandlerStep lib (InputData Double) s t pc u
      → Step lib (InputData Double) s u
  handler_move {s} {u} t e st =
      handler_step t (subst (λ pc. HandlerStep lib (InputData Double) s t pc u) (sym e) st)

  main_move :
      {s u : Daemon lib Double} {pc : MainPc}
      → s.main_thread ≡ pc
      → MainStep lib (InputData Double) s pc u
      → Step lib (InputData Double) s u
  main_move {s} {u} e st =
      main_step (subst (λ pc. MainStep lib (InputData Double) s pc u) (sym e) st)

  -- A step with buffers is a step of the daemon, or of a sender alone.
  project :
      {p q : Pipeline lib Double}
      → PipelineStep lib Double p q
      → Step lib (InputData Double) p.daemon q.daemon ⊎ (p.daemon ≡ q.daemon)
  project (PipelineStep.launch t m e) = inl (main_move m (MainStep.launch t e))
  project (PipelineStep.copy t b new at there put) =
      inl (handler_move t at (HandlerStep.copy b there))
  project (PipelineStep.no_space t b new at there put) =
      inl (handler_move t at HandlerStep.no_space)
  project (PipelineStep.take t x new has got) = inr refl
  project (PipelineStep.reader_alone st) = inl (reader_step st)
  project (PipelineStep.handler_alone t e st apart) = inl (handler_move t e st)
  project (PipelineStep.collector_alone st) = inl (collector_step st)
  project (PipelineStep.main_alone e st no_launch) = inl (main_move e st)
  project PipelineStep.stop = inl signal

  -- The daemon with buffers, without them, is the daemon.
  pub PipelineReach-Reach :
      {p : Pipeline lib Double} → PipelineReach lib Double p → Reach lib (InputData Double) p.daemon
  unfolding empty_pipeline
  PipelineReach-Reach PipelineReach.start = start
  PipelineReach-Reach (PipelineReach.next r st) = elim (project st) [
    | inl move ↦ next (PipelineReach-Reach r) move
    | inr same ↦ subst (λ d. Reach lib (InputData Double) d) same (PipelineReach-Reach r)
  ]

  reader-copied :
      {s u : Daemon lib Double} {pc : ReaderPc}
      → ReaderStep lib (InputData Double) s pc u
      → s.copied ≡ u.copied
  reader-copied (ReaderStep.loop_on on) = refl
  reader-copied _ = refl

  handler-copied :
      {s : Daemon lib Double} {t : ℕ} {pc : HandlerPc} {u : Daemon lib Double}
      (st : HandlerStep lib (InputData Double) s t pc u)
      → IsApart lib Double st
      → s.copied ≡ u.copied
  handler-copied HandlerStep.refuse a = refl
  handler-copied (HandlerStep.copy b there) a = absurd a
  handler-copied _ a = refl

  collector-copied :
      {s u : Daemon lib Double} {pc : CollectorPc}
      → CollectorStep lib (InputData Double) s pc u
      → s.copied ≡ u.copied
  collector-copied (CollectorStep.running_on on) = refl
  collector-copied _ = refl

  main-copied :
      {s u : Daemon lib Double} {pc : MainPc} (st : MainStep lib (InputData Double) s pc u)
      → IsNoLaunch lib Double st
      → s.copied ≡ u.copied
  main-copied (MainStep.launch t e) a = absurd a
  main-copied _ a = refl

  -- Each thread's copies, the elements that its sender has taken, and its buffer, make up a run of
  -- that buffer.
  abbrev Histories :
      (ℕ → List (InputData Double))
      → (ℕ → List (Option (InputData Double)))
      → (ℕ → BufferDesc Double)
      → Type 0
  Histories copied taken buffer = (t : ℕ) → History Double (reverse (copied t)) (taken t) (buffer t)

  abbrev HistoriesOf : Pipeline lib Double → Type 0
  HistoriesOf p = Histories p.daemon.copied p.taken p.buffer

  take_running :
      (running : Bool) (buf new : BufferDesc Double) (x : Option (InputData Double))
      → take_element running buf ≡ returns (some x, new)
      → take_element true buf ≡ returns (some x, new)
  unfolding take_element
  take_running true buf new x e = e
  take_running false buf new x e = ground arith

  PipelineStep-Histories :
      {p q : Pipeline lib Double} → PipelineStep lib Double p q → HistoriesOf p → HistoriesOf q
  PipelineStep-Histories (PipelineStep.launch t m e) h =
      λ u. elim (Bool-cases (t == u)) [ inl here ↦ rw here begin | inr away ↦ rw away (h u) ]
  PipelineStep-Histories {p} (PipelineStep.copy t b new at there put) h = λ u.
      elim (Bool-cases (t == u)) [
        | inl here ↦
            let same : t ≡ u = (==_iff t u).0 here in
            let grown : History Double (reverse (b ∷ p.daemon.copied t)) (p.taken t) new =
              subst (λ l. History Double l (p.taken t) new)
                (sym (reverse-cons b (p.daemon.copied t))) (accepted b (h t) put) in
            rw here (rw (← same) grown)
        | inr away ↦ rw away (h u)
      ]
  PipelineStep-Histories (PipelineStep.no_space t b new at there put) h = λ u.
      elim (Bool-cases (t == u)) [
        | inl here ↦
            let same : t ≡ u = (==_iff t u).0 here in rw here (rw (← same) (refused b (h t) put))
        | inr away ↦ rw away (h u)
      ]
  PipelineStep-Histories {p} (PipelineStep.take t x new has got) h = λ u.
      elim (Bool-cases (t == u)) [
        | inl here ↦
            let same : t ≡ u = (==_iff t u).0 here in
            rw here (
              rw (← same)
                (took x (h t) (take_running p.daemon.sync.running (p.buffer t) new x got)))
        | inr away ↦ rw away (h u)
      ]
  PipelineStep-Histories {p} (PipelineStep.reader_alone st) h =
      subst (λ c. Histories c p.taken p.buffer) (reader-copied st) h
  PipelineStep-Histories {p} (PipelineStep.handler_alone t e st apart) h =
      subst (λ c. Histories c p.taken p.buffer) (handler-copied st apart) h
  PipelineStep-Histories {p} (PipelineStep.collector_alone st) h =
      subst (λ c. Histories c p.taken p.buffer) (collector-copied st) h
  PipelineStep-Histories {p} (PipelineStep.main_alone e st no_launch) h =
      subst (λ c. Histories c p.taken p.buffer) (main-copied st no_launch) h
  PipelineStep-Histories PipelineStep.stop h = h

  PipelineReach-Histories : {p : Pipeline lib Double} → PipelineReach lib Double p → HistoriesOf p
  unfolding empty_pipeline init
  PipelineReach-Histories PipelineReach.start = λ t. begin
  PipelineReach-Histories (PipelineReach.next r st) =
      PipelineStep-Histories st (PipelineReach-Histories r)

  copies-split :
      (newer c older : List (InputData Double)) (taken left : List (Option (InputData Double)))
      → copies Double (reverse c) ≡ taken ++ left
      → copies Double (reverse (newer ++ (c ++ older)))
        ≡ copies Double (reverse older) ++ (taken ++ (left ++ copies Double (reverse newer)))
  copies-split newer c older taken left e =
      simp (reverse-append, map-append, append_assoc)
        (ap (λ l. copies Double (reverse older) ++ (l ++ copies Double (reverse newer))) e
          ∙ ap (◌++◌ (copies Double (reverse older)))
              (append_assoc taken left (copies Double (reverse newer))))

  -- From the device to the senders: in a reachable state, the elements that the sender of a handler
  -- has taken off its buffer are copies of consecutive published blocks, in the order of publication,
  -- with none left out and none twice (`published` has the latest block first).
  pub taken-published :
      {p : Pipeline lib Double}
      → PipelineReach lib Double p
      → (t : ℕ)
      → (before after : List (Option (InputData Double))) × (copies Double
            (reverse p.daemon.published)
          ≡ before ++ (p.taken t ++ after))
  taken-published {p} r t =
      let (newer, older, split) =
        copied-IsSegment lib (InputData Double) (PipelineReach-Reach r) t in
      let all = accepted-eq-taken-append-freed Double (PipelineReach-Histories r t) in
      (
        copies Double (reverse older),
        free_buffer (p.buffer t) ++ copies Double (reverse newer),
        ap (λ l. copies Double (reverse l)) split
            ∙ copies-split newer (p.daemon.copied t) older (p.taken t) (free_buffer (p.buffer t))
                all,
      )
