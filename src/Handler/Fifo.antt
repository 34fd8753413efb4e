-- ===== src/Handler/Fifo.antt =====
-- The buffer of a handler is a first-in first-out queue of bounded length.
use pm_lab_tools.Prelude.{
  ℕ, suc, ◌+◌, ◌-◌, ◌<◌, ◌≡◌, refl, ◌≢◌, sym, ap, ◌∙◌, true, Option, some, List, [], ◌∷◌, ◌++◌,
  arith, ltb, if◌then◌else◌, length, take, drop, set, take-set, drop-set, drop-cons, length-take,
  length-drop, length-set, length-append, take-append, dec_lt, ℕ_discrete, get_elem?-in, take-cons,
}
use pm_lab_tools.Sync.{returns, aborts}
use pm_lab_tools.Handler.Buffer.{
  InputData, BufferDesc, Status, ok, enobufs, init_buffer, move_to_front, copy_input, copy_loop,
  copy_to_buffer, take_element,
}

module _ {Double : Type 0} where
  -- The elements in use, the oldest first.
  abbrev pub contents : BufferDesc Double → List (Option (InputData Double))
  contents buf = take buf.count (drop buf.start buf.slots)

  pub record IsValid (buf : BufferDesc Double) : Type 0 where
    pub whole : length buf.slots ≡ buf.max_elems
    pub within : buf.start + buf.count < buf.max_elems

  -- The queue that the buffer is: it has room for one element less than there are slots.
  pub enqueue :
      ℕ
      → List (Option (InputData Double))
      → InputData Double
      → Status × List (Option (InputData Double))
  enqueue slots queue input =
      if ltb (length queue + 1) slots
      then (ok, queue ++ some (copy_input input) ∷ [])
      else (enobufs, queue)

  pub init-IsValid :
      IsValid (init_buffer {Double = Double}) × (contents (init_buffer {Double = Double}) ≡ [])
  unfolding init_buffer
  init-IsValid = (omega arith, refl)

  length-contents : {buf : BufferDesc Double} → IsValid buf → length (contents buf) ≡ buf.count
  length-contents {buf} v =
      omega
        (arith, length-take buf.count (drop buf.start buf.slots), length-drop buf.start buf.slots)

  -- A move to the front keeps the contents, and makes all the room there is.
  move-IsValid :
      {buf : BufferDesc Double}
      → IsValid buf
      → IsValid (move_to_front buf) × (contents (move_to_front buf) ≡ contents buf)
  move-IsValid {buf} v = (
    record {
      whole = omega (
        arith,
        length-append front (drop buf.count buf.slots),
        length-contents v,
        length-drop buf.count buf.slots,
        v.whole,
      );
      within = omega arith;
    },
    ap (λ k. take k (front ++ drop buf.count buf.slots)) (sym (length-contents v))
        ∙ take-append front (drop buf.count buf.slots),
  )
    where
      front : List (Option (InputData Double))
      front = contents buf

  -- The state after a copy that found room.
  abbrev put : BufferDesc Double → InputData Double → BufferDesc Double
  put buf input = record buf {
    slots = set buf.slots (buf.start + buf.count) (some (copy_input input));
    count = buf.count + 1;
  }

  -- Room behind the elements: the new element is put there.
  put-IsValid :
      {buf : BufferDesc Double} (input : InputData Double)
      → IsValid buf
      → buf.start + buf.count + 1 < buf.max_elems
      → let new = record buf {
        slots = set buf.slots (buf.start + buf.count) (some (copy_input input));
        count = buf.count + 1;
      } in
        IsValid new × (contents new ≡ contents buf ++ some (copy_input input) ∷ [])
  put-IsValid {buf} input v room = (
    record {
      whole = length-set buf.slots (buf.start + buf.count) (some (copy_input input)) ∙ v.whole;
      within = omega arith;
    },
    let next : buf.count + 1 ≡ suc buf.count = omega arith in
        rw (next, drop-set buf.start buf.count buf.slots (some (copy_input input)))
          (take-set buf.count (drop buf.start buf.slots) (some (copy_input input))
            (omega (arith, length-drop buf.start buf.slots, v.whole))),
  )

  -- The three ways through one turn of the loop.
  copy_loop-put :
      {buf : BufferDesc Double} (fuel : ℕ) (input : InputData Double)
      → IsValid buf
      → buf.start + buf.count + 1 < buf.max_elems
      → copy_loop (suc fuel) buf input ≡ returns (some (ok, put buf input))
  unfolding copy_loop
  copy_loop-put fuel input v room = ground arith

  copy_loop-move :
      {buf : BufferDesc Double} (fuel : ℕ) (input : InputData Double)
      → IsValid buf
      → ¬ (buf.start + buf.count + 1 < buf.max_elems)
      → buf.start ≢ 0
      → copy_loop (suc fuel) buf input ≡ copy_loop fuel (move_to_front buf) input
  unfolding copy_loop
  copy_loop-move fuel input v full moved = ground arith

  copy_loop-full :
      {buf : BufferDesc Double} (fuel : ℕ) (input : InputData Double)
      → IsValid buf
      → ¬ (buf.start + buf.count + 1 < buf.max_elems)
      → buf.start ≡ 0
      → copy_loop (suc fuel) buf input ≡ returns (some (enobufs, buf))
  unfolding copy_loop
  copy_loop-full fuel input v full front = ground arith

  -- On a valid buffer `copy_to_buffer` ends within two turns and without a failed assertion, keeps
  -- the buffer valid, and is the enqueue of a queue with room for one element less than there are
  -- slots: ENOBUFS exactly when the queue is full.
  pub copy_to_buffer_refines :
      {buf : BufferDesc Double} (input : InputData Double)
      → IsValid buf
      → (status : Status) × (new : BufferDesc Double) × (copy_to_buffer buf input
          ≡ returns (some (status, new)))
        × IsValid new
        × ((status, contents new) ≡ enqueue buf.max_elems (contents buf) input)
        × (new.max_elems ≡ buf.max_elems)
  unfolding copy_to_buffer enqueue
  copy_to_buffer_refines {buf} input v = elim (dec_lt (buf.start + buf.count + 1) buf.max_elems) [
    | yes room ↦
        let (valid, same) = put-IsValid input v room in
        (
          ok,
          put buf input,
          copy_loop-put 1 input v room,
          valid,
          rw same (ground (arith, length-contents v)),
          refl,
        )
    | no full ↦ elim (ℕ_discrete buf.start 0) [
      | yes front ↦ (
        enobufs,
        buf,
        copy_loop-full 1 input v full front,
        v,
        ground (arith, length-contents v),
        refl,
      )
      | no off ↦
          let (moved, kept) = move-IsValid v in
          let (valid, same) = put-IsValid input moved (omega (arith, v.within)) in
          (
            ok,
            put (move_to_front buf) input,
            copy_loop-move 1 input v full off
                ∙ copy_loop-put 0 input moved (omega (arith, v.within)),
            valid,
            rw (same, kept) (ground (arith, length-contents v, v.within)),
            refl,
          )
    ]
  ]

  -- On a valid buffer that holds an element, while the daemon runs, `write_buf_element` takes off
  -- the oldest element without a failed assertion, keeps the buffer valid, and leaves the others
  -- in their order.
  pub take_element_refines :
      {buf : BufferDesc Double} (x : Option (InputData Double))
      (rest : List (Option (InputData Double)))
      → IsValid buf
      → contents buf ≡ x ∷ rest
      → (new : BufferDesc Double) × (take_element true buf ≡ returns (some x, new))
        × IsValid new
        × (contents new ≡ rest)
  unfolding take_element
  take_element_refines {buf} x rest v e =
      let some_there : buf.count ≢ 0 = λ z. ground (arith, z, e, length-contents v) in
      let (y, there) = get_elem?-in buf.slots buf.start (omega (arith, v.within, v.whole)) in
      let front = drop-cons buf.start buf.slots y there in
      let split = take-cons buf.count y (drop (suc buf.start) buf.slots) some_there in
      let next : buf.start + 1 ≡ suc buf.start = omega arith in
      let parts : y ∷ take (buf.count - 1) (drop (suc buf.start) buf.slots) ≡ x ∷ rest =
        sym split ∙ ap (take buf.count) (sym front) ∙ e in
      (
        record buf { count = buf.count - 1; start = buf.start + 1 },
        ground (arith, there, parts, some_there),
        record { whole = v.whole; within = omega (arith, v.within, some_there) },
        rw next (ground (arith, parts)),
      )

  -- With no element the assertion behind the wait loop stops the process.
  pub take_element-empty :
      {buf : BufferDesc Double} → IsValid buf → contents buf ≡ [] → take_element true buf ≡ aborts
  unfolding take_element
  take_element-empty v e = ground (arith, length-contents v, e)

  pub enqueue-ok :
      (slots : ℕ) (queue after : List (Option (InputData Double))) (input : InputData Double)
      → (ok, after) ≡ enqueue slots queue input
      → after ≡ queue ++ some (copy_input input) ∷ []
  unfolding enqueue
  enqueue-ok slots queue after input e = ground arith

  pub enqueue-full :
      (slots : ℕ) (queue after : List (Option (InputData Double))) (input : InputData Double)
      → (enobufs, after) ≡ enqueue slots queue input
      → after ≡ queue
  unfolding enqueue
  enqueue-full slots queue after input e = ground arith
