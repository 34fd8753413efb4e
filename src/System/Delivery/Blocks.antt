-- ===== src/System/Delivery/Blocks.antt =====
-- What a handler has copied, compared with what was published: daemon/handler.c's copies of the
-- shared sample buffer of daemon/daemon.c, thread by thread.
use pm_lab_tools.Prelude.{
  ℕ, Bool, true, false, ◌≡◌, refl, ◌⊎◌, inl, inr, Option, none, some, List, [], ◌∷◌, ◌++◌, arith,
  ap, ◌∙◌,
}
use pm_lab_tools.Sync.Handles.{Handle}
use pm_lab_tools.Sync.Phase.{
  Phase, Phases, absent, idle, pending, finished, dead, renew, complete, bury, registered,
  holding_up,
}
use pm_lab_tools.System.{
  ReaderPc, HandlerPc, r_publish, r_reset, r_end, handshake, refused, registering, ready,
}
use pm_lab_tools.System.Invariant.{at_end, Fits, Quiet}

module _ {Block : Type 0} where
  -- The latest block.
  abbrev pub latest : List Block → Option Block
  latest [] = none
  latest (b ∷ bs) = some b

  -- `got` is a run of consecutive blocks of `published`.
  abbrev pub IsSegment : List Block → List Block → Type 0
  IsSegment published got =
      (newer : List Block) × (rest : List Block) × (published ≡ newer ++ (got ++ rest))

  -- `got` ends with the latest block.
  abbrev pub UpToDate : List Block → List Block → Type 0
  UpToDate published got =
      (b : Block) × (old : List Block) × (rest : List Block) × (got ≡ b ∷ old)
      × (published ≡ b ∷ (old ++ rest))

  -- `got` ends with the block before the latest.
  abbrev pub OneBehind : List Block → List Block → Type 0
  OneBehind published got = (b : Block) × (rest : List Block) × (published ≡ b ∷ (got ++ rest))

  -- What a handler has copied, by its phase: `late` is whether a block is published whose round is
  -- yet to begin, `is_ready` whether the handler has copied and not yet reported, and `is_new`
  -- whether it has yet to register.
  abbrev pub Delivered : Bool → Bool → Bool → Phase → List Block → List Block → Type 0
  Delivered late is_ready true absent published got = got ≡ []
  Delivered late is_ready false absent published got = IsSegment published got
  Delivered late is_ready is_new (idle h) published got = got ≡ []
  Delivered late true is_new (pending h) published got = UpToDate published got
  Delivered late false is_new (pending h) published got = OneBehind published got
  Delivered true is_ready is_new (finished h) published got = OneBehind published got
  Delivered false is_ready is_new (finished h) published got = UpToDate published got
  Delivered late is_ready is_new (dead h) published got = IsSegment published got

  -- The arrays hold the latest published block, but for the time between `read_ni` and the
  -- publication, until they are freed; before a new round there is such a block.
  abbrev pub Holds : ReaderPc → Option Block → List Block → Type 0
  Holds r_publish samples published = Unit
  Holds r_reset samples published =
      (b : Block) × (rest : List Block) × (samples ≡ some b) × (published ≡ b ∷ rest)
  Holds r_end samples published = samples ≡ none
  Holds _ samples published = samples ≡ latest published

  pub nothing-IsSegment :
      (published : List Block) {got : List Block} → got ≡ [] → IsSegment published got
  nothing-IsSegment published e = ([], published, rw e)

  pub cons-IsSegment :
      (b : Block) (published got : List Block)
      → IsSegment published got
      → IsSegment (b ∷ published) got
  cons-IsSegment b published got (newer, rest, e) = (b ∷ newer, rest, ap (◌∷◌ b) e)

  pub Delivered-IsSegment :
      (late is_ready is_new : Bool) (p : Phase) (published got : List Block)
      → Delivered late is_ready is_new p published got
      → IsSegment published got
  Delivered-IsSegment late is_ready true absent published got d = nothing-IsSegment published d
  Delivered-IsSegment late is_ready false absent published got d = d
  Delivered-IsSegment late is_ready is_new (idle h) published got d = nothing-IsSegment published d
  Delivered-IsSegment late true is_new (pending h) published got (b, old, rest, g, e) =
      ([], rest, rw g e)
  Delivered-IsSegment late false is_new (pending h) published got (b, rest, e) = (b ∷ [], rest, e)
  Delivered-IsSegment true is_ready is_new (finished h) published got (b, rest, e) =
      (b ∷ [], rest, e)
  Delivered-IsSegment false is_ready is_new (finished h) published got (b, old, rest, g, e) =
      ([], rest, rw g e)
  Delivered-IsSegment late is_ready is_new (dead h) published got d = d

  -- A publication, while no handler is pending.
  pub Delivered-publish :
      (is_ready is_new : Bool) (p : Phase) (b : Block) (published got : List Block)
      → holding_up p ≡ none
      → Delivered false is_ready is_new p published got
      → Delivered true is_ready is_new p (b ∷ published) got
  Delivered-publish is_ready true absent b published got q d = d
  Delivered-publish is_ready false absent b published got q d = cons-IsSegment b published got d
  Delivered-publish is_ready is_new (idle h) b published got q d = d
  Delivered-publish is_ready is_new (pending h) b published got q d = absurd (ground arith)
  Delivered-publish is_ready is_new (finished h) b published got q (c, old, rest, g, e) =
      (b, rest, rw g (ap (◌∷◌ b) e))
  Delivered-publish is_ready is_new (dead h) b published got q d = cons-IsSegment b published got d

  -- A new round, with a block to copy.
  pub Delivered-renew :
      (is_new : Bool) (p : Phase) (published got : List Block)
      → (b : Block) × (rest : List Block) × (published ≡ b ∷ rest)
      → holding_up p ≡ none
      → Delivered true false is_new p published got
      → Delivered false false is_new (renew p) published got
  Delivered-renew true absent published got top q d = d
  Delivered-renew false absent published got top q d = d
  Delivered-renew is_new (idle h) published got (b, rest, e) q d = (b, rest, rw d e)
  Delivered-renew is_new (pending h) published got top q d = absurd (ground arith)
  Delivered-renew is_new (finished h) published got top q d = d
  Delivered-renew is_new (dead h) published got top q d = d

-- The flags of `Delivered`.
abbrev pub is_late : ReaderPc → Bool
is_late r_reset = true
is_late _ = false

abbrev pub is_ready : HandlerPc → Bool
is_ready ready = true
is_ready _ = false

abbrev pub is_new : HandlerPc → Bool
is_new handshake = true
is_new refused = true
is_new registering = true
is_new _ = false

pub not-ready :
    (run : Bool) (pc : HandlerPc) (p : Phase)
    → Fits run pc p
    → holding_up p ≡ none
    → is_ready pc ≡ false
not-ready run ready p f q = ground arith
not-ready run _ p f q = refl

module _ {Block : Type 0} where
  -- A handler that copies takes the latest block, which is the next for it.
  pub copy-Delivered :
      {r : ReaderPc} (late new : Bool) (p : Phase) (h : Handle) (samples : Option Block) (b : Block)
      (published got : List Block)
      → p ≡ pending h
      → (samples ≡ latest published) ⊎ ((r ≡ r_end) × (samples ≡ none))
      → samples ≡ some b
      → Delivered late false new p published got
      → Delivered late true new p published (b ∷ got)
  copy-Delivered late new (pending _) h samples b published got e (inl held) found (c, rest, top) =
      let now : samples ≡ some c = held ∙ ap latest top in
      let same : c ≡ b = ground arith in (b, got, rest, refl, rw (← same) top)
  copy-Delivered late new (pending _) h samples b published got e (inr (_, gone)) found d =
      absurd (ground arith)
  copy-Delivered late new _ h samples b published got e held found d = absurd (ground arith)

  pub report-Delivered :
      (late new : Bool) (p : Phase) (h : Handle) (published got : List Block)
      → p ≡ pending h
      → late ≡ false
      → Delivered late true new p published got
      → Delivered late false new (complete p) published got
  report-Delivered false new (pending _) h published got e l d = d
  report-Delivered _ new _ h published got e l d = absurd (ground arith)

  pub bury-Delivered :
      (late : Bool) (p : Phase) (h : Handle) (published got : List Block)
      → registered p ≡ some h
      → IsSegment published got
      → Delivered late false false (bury p) published got
  bury-Delivered late absent h published got e d = d
  bury-Delivered late (idle _) h published got e d = d
  bury-Delivered late (pending _) h published got e d = d
  bury-Delivered late (finished _) h published got e d = d
  bury-Delivered late (dead _) h published got e d = d

-- While a handler is pending no round is being prepared, and the arrays hold the latest block
-- unless they are freed.
pub busy-Holds :
    {Block : Type 0} (r : ReaderPc) (ph : Phases) (t : ℕ) (h : Handle) (samples : Option Block)
    (published : List Block)
    → ph t ≡ pending h
    → Quiet r ph
    → Holds r samples published
    → (is_late r ≡ false) × ((samples ≡ latest published) ⊎ ((r ≡ r_end) × (samples ≡ none)))
busy-Holds r_publish ph t h samples published e q f = absurd (ground (arith, q t))
busy-Holds r_reset ph t h samples published e q f = absurd (ground (arith, q t))
busy-Holds r_end ph t h samples published e q f = (refl, inr (refl, f))
busy-Holds _ ph t h samples published e q f = (refl, inl f)

-- A thread at its end is no new one.
pub end-old : (pc : HandlerPc) → at_end pc ≡ true → is_new pc ≡ false
end-old handshake e = absurd (ground arith)
end-old refused e = absurd (ground arith)
end-old registering e = absurd (ground arith)
end-old _ e = refl
