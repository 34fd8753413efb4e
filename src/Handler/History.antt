-- ===== src/Handler/History.antt =====
-- The life of a handler's buffer: the handler copies into it, its sender takes from it, and
-- `free_buffer` clears it in the end.
use pm_lab_tools.Prelude.{
  ◌≡◌, refl, sym, ap, ◌∙◌, true, Option, some, List, [], ◌∷◌, ◌++◌, arith, map, append_assoc,
}
use mathlib.Core.List.{map-append}
use pm_lab_tools.Sync.{returns}
use pm_lab_tools.Handler.Buffer.{
  InputData, BufferDesc, ok, enobufs, init_buffer, copy_input, copy_to_buffer, take_element,
  free_buffer,
}
use pm_lab_tools.Handler.Fifo.{
  IsValid, contents, enqueue-ok, enqueue-full, init-IsValid, copy_to_buffer_refines,
  take_element_refines, take_element-empty,
}

module _ (Double : Type 0) where
  -- A run of the buffer: the inputs that were accepted and the elements that were taken, the oldest
  -- first, and the buffer that is left.
  pub data History
      : List (InputData Double)
        → List (Option (InputData Double))
        → BufferDesc Double
        → Type 0 where
    begin : History [] [] init_buffer
    accepted :
        {inputs : List (InputData Double)} {taken : List (Option (InputData Double))}
        {buf new : BufferDesc Double} (input : InputData Double)
        → History inputs taken buf
        → copy_to_buffer buf input ≡ returns (some (ok, new))
        → History (inputs ++ input ∷ []) taken new
    refused :
        {inputs : List (InputData Double)} {taken : List (Option (InputData Double))}
        {buf new : BufferDesc Double} (input : InputData Double)
        → History inputs taken buf
        → copy_to_buffer buf input ≡ returns (some (enobufs, new))
        → History inputs taken new
    took :
        {inputs : List (InputData Double)} {taken : List (Option (InputData Double))}
        {buf new : BufferDesc Double} (x : Option (InputData Double))
        → History inputs taken buf
        → take_element true buf ≡ returns (some x, new)
        → History inputs (taken ++ x ∷ []) new

  -- The copies of some inputs.
  abbrev pub copies : List (InputData Double) → List (Option (InputData Double))
  copies = map (λ input. some (copy_input input))

  accepted-step :
      (inputs : List (InputData Double)) (taken : List (Option (InputData Double)))
      (buf new : BufferDesc Double) (input : InputData Double)
      → IsValid buf
      → copies inputs ≡ taken ++ contents buf
      → copy_to_buffer buf input ≡ returns (some (ok, new))
      → IsValid new × (copies (inputs ++ input ∷ []) ≡ taken ++ contents new)
  accepted-step inputs taken buf new input v e r =
      let (status, after, ran, valid, spec, _) = copy_to_buffer_refines input v in
      let same : after ≡ new = ground arith in
      let is_ok : status ≡ ok = ground arith in
      let grown =
        enqueue-ok buf.max_elems (contents buf) (contents after) input (rw is_ok at spec) in
      (
        rw (← same) valid,
        map-append (λ i. some (copy_input i)) inputs (input ∷ [])
            ∙ ap (λ l. l ++ some (copy_input input) ∷ []) e
            ∙ append_assoc taken (contents buf) (some (copy_input input) ∷ [])
            ∙ ap (◌++◌ taken) (sym grown ∙ ap contents same),
      )

  refused-step :
      (inputs : List (InputData Double)) (taken : List (Option (InputData Double)))
      (buf new : BufferDesc Double) (input : InputData Double)
      → IsValid buf
      → copies inputs ≡ taken ++ contents buf
      → copy_to_buffer buf input ≡ returns (some (enobufs, new))
      → IsValid new × (copies inputs ≡ taken ++ contents new)
  refused-step inputs taken buf new input v e r =
      let (status, after, ran, valid, spec, _) = copy_to_buffer_refines input v in
      let same : after ≡ new = ground arith in
      let is_full : status ≡ enobufs = ground arith in
      let kept =
        enqueue-full buf.max_elems (contents buf) (contents after) input (rw is_full at spec) in
      (rw (← same) valid, e ∙ ap (◌++◌ taken) (sym kept ∙ ap contents same))

  took-step :
      (inputs : List (InputData Double)) (taken : List (Option (InputData Double)))
      (buf new : BufferDesc Double) (x : Option (InputData Double))
      → IsValid buf
      → copies inputs ≡ taken ++ contents buf
      → take_element true buf ≡ returns (some x, new)
      → (queue : List (Option (InputData Double))) → contents buf ≡ queue
      → IsValid new × (copies inputs ≡ (taken ++ x ∷ []) ++ contents new)
  took-step inputs taken buf new x v e r [] empty =
      absurd (ground (arith, take_element-empty v empty))
  took-step inputs taken buf new x v e r (y ∷ rest) split =
      let (after, ran, valid, left) = take_element_refines y rest v split in
      let same : after ≡ new = ground arith in
      let first : y ≡ x = ground arith in
      (
        rw (← same) valid,
        e
            ∙ ap (◌++◌ taken) (split ∙ ap (λ z. z ∷ rest) first)
            ∙ sym (append_assoc taken (x ∷ []) rest)
            ∙ ap (◌++◌ (taken ++ x ∷ [])) (sym left ∙ ap contents same),
      )

  History-step :
      {inputs : List (InputData Double)} {taken : List (Option (InputData Double))}
      {buf : BufferDesc Double}
      → History inputs taken buf
      → IsValid buf × (copies inputs ≡ taken ++ contents buf)
  History-step begin = (init-IsValid.0, sym init-IsValid.1)
  History-step (accepted input h r) =
      let (v, e) = History-step h in accepted-step _ _ _ _ input v e r
  History-step (refused input h r) = let (v, e) = History-step h in refused-step _ _ _ _ input v e r
  History-step (took x h r) = let (v, e) = History-step h in took-step _ _ _ _ x v e r _ refl

  -- After any run of copies and takes the copies of the accepted inputs are, in order, the elements
  -- that the sender has taken and then those whose arrays `free_buffer` frees: none is lost, made
  -- up, sent twice or freed twice, and none out of order.
  pub accepted-eq-taken-append-freed :
      {inputs : List (InputData Double)} {taken : List (Option (InputData Double))}
      {buf : BufferDesc Double}
      → History inputs taken buf
      → copies inputs ≡ taken ++ free_buffer buf
  unfolding free_buffer
  accepted-eq-taken-append-freed h = (History-step h).1
