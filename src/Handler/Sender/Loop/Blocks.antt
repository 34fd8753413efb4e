-- ===== src/Handler/Sender/Loop/Blocks.antt =====
-- The blocks that a handler copies for its sender, and what has become of them.
use pm_lab_tools.Prelude.{
  ℕ, ◌^◌, ◌<◌, ◌≡◌, refl, sym, ap, ◌∙◌, Bool, true, false, some, List, [], ◌∷◌, ◌++◌, append_assoc,
  append-nil,
}
use pm_lab_tools.Sync.{returns}
use pm_lab_tools.Protocol.{Protobuf}
use pm_lab_tools.Handler.Buffer.{InputData, BufferDesc, Status, ok, enobufs, copy_input}
use pm_lab_tools.Handler.Fifo.{
  IsValid, contents, enqueue, copy_to_buffer_refines, enqueue-ok, enqueue-full,
}
use pm_lab_tools.Handler.History.{copies}
use pm_lab_tools.Handler.Sending.{framed}
use pm_lab_tools.Handler.Sender.{element_set}
use pm_lab_tools.Handler.Sender.Loop.{
  SenderFinish, told_to_stop, waiting, goes_on, SenderRound, Service, ends, behind_copy, copy_all,
}

-- The sender still goes round, or waits for a block, or has been told to stop: no write has failed or is going on.
abbrev pub is_fine : SenderFinish → Bool
is_fine goes_on = true
is_fine told_to_stop = true
is_fine waiting = true
is_fine _ = false

module _ {Double : Type 0} (pb : Protobuf Double) (ids : List ℕ) where
  -- The packed message of a block is shorter than 2^32 bytes.
  abbrev pub IsSmall : InputData Double → Type 0
  IsSmall input = pb.get_packed_size (element_set ids (copy_input input)) < 2 ^ 32

  abbrev pub AreSmall : List (InputData Double) → Type 0
  AreSmall [] = Unit
  AreSmall (input ∷ rest) = IsSmall input × AreSmall rest

  abbrev pub AllSmall : List (SenderRound Double) → Type 0
  AllSmall [] = Unit
  AllSmall (r ∷ rest) = AreSmall r.inputs × AllSmall rest

  -- The framed data sets of some blocks, one behind the other.
  abbrev pub stream : List (InputData Double) → List ℕ
  stream [] = []
  stream (input ∷ rest) = framed pb (element_set ids (copy_input input)) ++ stream rest

  -- Of the blocks in the buffer, and those accepted, the first are sent and the others in the buffer.
  abbrev pub Delivers : List (InputData Double) → Service Double → Type 0
  Delivers queue s =
      (taken : List (InputData Double)) × (left : List (InputData Double)) × (queue ++ s.accepted
        ≡ taken ++ left)
      × (contents s.buffer ≡ copies Double left)
      × (s.sent ≡ stream taken)

  -- So for every buffer that holds the copies of some blocks.
  abbrev pub Goes : (BufferDesc Double → Service Double) → Type 0
  Goes more =
      (buf : BufferDesc Double) (queue : List (InputData Double))
      → IsValid buf
      → contents buf ≡ copies Double queue
      → AreSmall queue
      → is_fine (more buf).finish ≡ true
      → Delivers queue (more buf)

  AreSmall-append :
      (xs : List (InputData Double)) (input : InputData Double)
      → AreSmall xs
      → IsSmall input
      → AreSmall (xs ++ input ∷ [])
  AreSmall-append [] input s small = (small, tt)
  AreSmall-append (x ∷ xs) input s small = (s.0, AreSmall-append xs input s.1 small)

  copies-append :
      (xs : List (InputData Double)) (input : InputData Double)
      → copies Double xs ++ some (copy_input input) ∷ [] ≡ copies Double (xs ++ input ∷ [])
  copies-append [] input = refl
  copies-append (x ∷ xs) input = ap (λ l. some (copy_input x) ∷ l) (copies-append xs input)

  pub stay-Delivers :
      (queue : List (InputData Double)) (buf : BufferDesc Double) (finish : SenderFinish)
      → contents buf ≡ copies Double queue
      → Delivers queue (ends buf finish)
  stay-Delivers queue buf finish e = ([], queue, append-nil queue, e, refl)

  -- One more block is copied, or there is no room for it.
  copy-Delivers :
      (buf new : BufferDesc Double) (queue : List (InputData Double)) (input : InputData Double)
      (slots : ℕ) (status : Status) (more : BufferDesc Double → Service Double)
      → Goes more
      → IsValid new
      → contents buf ≡ copies Double queue
      → (status, contents new) ≡ enqueue slots (contents buf) input
      → AreSmall queue
      → IsSmall input
      → is_fine (behind_copy buf input (returns (some (status, new))) more).finish ≡ true
      → Delivers queue (behind_copy buf input (returns (some (status, new))) more)
  copy-Delivers buf new queue input slots ok more goes v e spec small this fine =
      let grown = enqueue-ok slots (contents buf) (contents new) input spec in
      let (taken, left, split, held, sent) =
        goes new (queue ++ input ∷ []) v
          (grown ∙ ap (λ l. l ++ some (copy_input input) ∷ []) e ∙ copies-append queue input)
          (AreSmall-append queue input small this) fine in
      (taken, left, sym (append_assoc queue (input ∷ []) (more new).accepted) ∙ split, held, sent)
  copy-Delivers buf new queue input slots enobufs more goes v e spec small this fine =
      goes new queue v (enqueue-full slots (contents buf) (contents new) input spec ∙ e) small fine

  pub copy_all-Goes :
      (inputs : List (InputData Double)) (more : BufferDesc Double → Service Double)
      → Goes more
      → AreSmall inputs
      → Goes (λ buf. copy_all buf inputs more)
  unfolding copy_all
  copy_all-Goes [] more goes s buf queue v e small fine = goes buf queue v e small fine
  copy_all-Goes (input ∷ rest) more goes s buf queue v e small fine =
      let (status, new, ran, valid, spec, _) = copy_to_buffer_refines input v in
      let fine' = rw ran at fine in
      rw ran (
        copy-Delivers buf new queue input buf.max_elems status (λ now. copy_all now rest more)
          (copy_all-Goes rest more goes s.1) valid e spec small s.0 fine')
