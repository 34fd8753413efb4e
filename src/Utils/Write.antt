-- ===== src/Utils/Write.antt =====
-- `full_write`: what has been sent when it ends, on every path, and that it ends.
use pm_lab_tools.Prelude.{
  ℕ, ◌+◌, ◌-◌, ◌≤◌, ◌<◌, ◌≡◌, refl, inl, inr, sym, ◌∙◌, ap, true, ◌&&◌, List, [], ◌∷◌, ◌++◌, arith,
  ltb, leb, ◌==◌, length, take, drop, take-append-drop, length-drop, append_assoc, append-nil,
  Bool-cases,
}
use pm_lab_tools.Prelude.Int.{pos}
use pm_lab_tools.Utils.{
  Answer, moved, interrupted, failed, returned, Written, send, full_write_loop, full_write,
}

-- What the loop has sent is the start of what it was given, and all of that if it returns the count.
pub record Sends (count : ℕ) (buf : List ℕ) (w : Written) : Type 0 where
  pub unsent : List ℕ
  pub splits : buf ≡ w.sent ++ unsent
  pub complete : (n : ℕ) → w.ending ≡ returned (pos n) → (unsent ≡ []) × (n ≡ count)

Sends-send :
    (count res : ℕ) (buf : List ℕ) (w : Written)
    → Sends count (drop res buf) w
    → Sends count buf (send (take res buf) w)
Sends-send count res buf w s = record {
  unsent = s.unsent;
  splits =
      sym (take-append-drop res buf)
      ∙ ap (◌++◌ (take res buf)) s.splits
      ∙ sym (append_assoc (take res buf) w.sent s.unsent);
  complete = s.complete;
}

full_write_loop-Sends :
    (count : ℕ) (buf : List ℕ) (answers : List Answer)
    → Sends count buf (full_write_loop count buf answers)
unfolding full_write_loop
full_write_loop-Sends count [] answers = record {
  unsent = [];
  splits = refl;
  complete = λ n e. (refl, ground arith);
}
full_write_loop-Sends count (b ∷ rest) [] = record {
  unsent = b ∷ rest;
  splits = refl;
  complete = λ n e. absurd (ground arith);
}
full_write_loop-Sends count (b ∷ rest) (interrupted ∷ answers) =
    full_write_loop-Sends count (b ∷ rest) answers
full_write_loop-Sends count (b ∷ rest) (failed ∷ answers) = record {
  unsent = b ∷ rest;
  splits = refl;
  complete = λ n e. absurd (ground arith);
}
full_write_loop-Sends count (b ∷ rest) (moved res ∷ answers) =
    elim (Bool-cases (res == length (b ∷ rest))) [
      | inl all ↦ rw all record {
        unsent = [];
        splits = sym (append-nil (b ∷ rest));
        complete = λ n e. (refl, ground arith);
      }
      | inr part ↦ elim (Bool-cases (ltb 0 res && leb res (length (b ∷ rest)))) [
        | inl fair ↦
            rw (part, fair)
              (Sends-send count res (b ∷ rest) _
                (full_write_loop-Sends count (drop res (b ∷ rest)) answers))
        | inr bad ↦
            rw (part, bad)
              record { unsent = b ∷ rest; splits = refl; complete = λ n e. absurd (ground arith) }
      ]
    ]

-- Whatever the system calls answer, the bytes that `full_write` has sent are the first ones of the
-- buffer, in order; and where it returns a count, that is the buffer's length and all is sent.
pub full_write-Sends :
    (buf : List ℕ) (answers : List Answer) → Sends (length buf) buf (full_write buf answers)
unfolding full_write
full_write-Sends buf answers = full_write_loop-Sends (length buf) buf answers

-- `write` moves at least one byte and at most as many as it is given, and does not fail.
abbrev pub IsFair : ℕ → List Answer → Type 0
IsFair size [] = Unit
IsFair size (moved n ∷ answers) = (0 < n) × (n ≤ size) × IsFair (size - n) answers
IsFair size (interrupted ∷ answers) = IsFair size answers
IsFair size (failed ∷ answers) = ⊥

-- How many bytes the calls move.
abbrev pub total : List Answer → ℕ
total [] = 0
total (moved n ∷ answers) = n + total answers
total (_ ∷ answers) = total answers

-- The calls of `write` move `size` bytes, a part at a time.
abbrev pub Departs : ℕ → List Answer → Type 0
Departs size answers = IsFair size answers × (size ≤ total answers)

full_write_loop-total :
    (count : ℕ) (buf : List ℕ) (answers : List Answer)
    → IsFair (length buf) answers
    → length buf ≤ total answers
    → (full_write_loop count buf answers).ending ≡ returned (pos count)
unfolding full_write_loop
full_write_loop-total count [] answers f m = refl
full_write_loop-total count (b ∷ rest) [] f m = absurd (omega arith)
full_write_loop-total count (b ∷ rest) (interrupted ∷ answers) f m =
    full_write_loop-total count (b ∷ rest) answers f m
full_write_loop-total count (b ∷ rest) (failed ∷ answers) f m = absurd f
full_write_loop-total count (b ∷ rest) (moved res ∷ answers) f m =
    elim (Bool-cases (res == length (b ∷ rest))) [
      | inl all ↦ rw all refl
      | inr part ↦
          let fair : (ltb 0 res && leb res (length (b ∷ rest))) ≡ true = ground arith in
          rw (part, fair)
            (full_write_loop-total count (drop res (b ∷ rest)) answers
              (rw (length-drop res (b ∷ rest)) f.2) (omega (arith, length-drop res (b ∷ rest))))
    ]

-- Where `write` moves at least one byte and at most what it is given, and does not fail, however
-- often it is interrupted or moves only a part, `full_write` returns the buffer's length once the
-- calls have moved so many bytes, and no assertion fails.
pub full_write-total :
    (buf : List ℕ) (answers : List Answer)
    → IsFair (length buf) answers
    → length buf ≤ total answers
    → (full_write buf answers).ending ≡ returned (pos (length buf))
unfolding full_write
full_write-total buf answers f m = full_write_loop-total (length buf) buf answers f m

-- A `full_write` that returns a count has sent all.
pub full_write-all :
    (buf : List ℕ) (answers : List Answer) (k : ℕ)
    → (full_write buf answers).ending ≡ returned (pos k)
    → full_write buf answers ≡ record { sent = buf; ending = returned (pos (length buf)) }
full_write-all buf answers k e =
    let s = full_write-Sends buf answers in
    let (none_left, is_count) = s.complete k e in
    let sent : (full_write buf answers).sent ≡ buf =
      sym (s.splits ∙ rw none_left (append-nil (full_write buf answers).sent)) in
    λ i. record { sent = sent i; ending = (e ∙ ap (λ j. returned (pos j)) is_count) i }
