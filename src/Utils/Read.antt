-- ===== src/Utils/Read.antt =====
-- `full_read`: which bytes are in the buffer when it ends, and that it ends; and `full_read` behind
-- `full_write`, at the two ends of a connection.
use pm_lab_tools.Prelude.{
  ℕ, zero, suc, ◌+◌, ◌-◌, ◌^◌, ◌≤◌, ◌<◌, ◌≡◌, refl, inl, inr, sym, ◌∙◌, ap, List, [], ◌∷◌, ◌++◌,
  arith, ◌==◌, length, take, drop, take-append-drop, length-drop, append_assoc, append-nil,
  Bool-cases, take-append, drop-append, take-add, drop-add,
}
use pm_lab_tools.Prelude.Int.{pos}
use pm_lab_tools.Utils.{
  Answer, moved, interrupted, failed, returned, sub_size, full_read_loop, full_read, full_write,
}
use pm_lab_tools.Utils.Write.{total, full_write-Sends}

-- `read` gives at least one byte, at most as many as it is asked for, and none that the peer has
-- not sent; it does not fail.
abbrev pub IsFair : ℕ → ℕ → List Answer → Type 0
IsFair size there [] = Unit
IsFair size there (moved n ∷ answers) =
    (0 < n) × (n ≤ size) × (n ≤ there) × IsFair (size - n) (there - n) answers
IsFair size there (interrupted ∷ answers) = IsFair size there answers
IsFair size there (failed ∷ answers) = ⊥

-- The calls of `read` give `size` bytes, a part at a time, out of so many that there are.
abbrev pub Arrives : ℕ → ℕ → List Answer → Type 0
Arrives size there answers = IsFair size there answers × (size ≤ total answers)

-- Whatever `read` answers, the buffer and what is left of the stream make up the stream.
pub full_read-splits :
    (count size : ℕ) (stream : List ℕ) (answers : List Answer)
    → let r = full_read_loop count size stream answers in r.buffer ++ r.left ≡ stream
unfolding full_read_loop
full_read-splits count zero stream answers = refl
full_read-splits count (suc s) stream [] = refl
full_read-splits count (suc s) stream (interrupted ∷ answers) =
    full_read-splits count (suc s) stream answers
full_read-splits count (suc s) stream (failed ∷ answers) = refl
full_read-splits count (suc s) stream (moved zero ∷ answers) = refl
full_read-splits count (suc s) stream (moved (suc r) ∷ answers) =
    elim (Bool-cases (suc r == suc s)) [
      | inl all ↦ rw all (take-append-drop (suc r) stream)
      | inr part ↦ rw part (
          append_assoc (take (suc r) stream) _ _
          ∙ ap (◌++◌ (take (suc r) stream))
              (full_read-splits count (sub_size (suc s) (suc r)) (drop (suc r) stream) answers)
          ∙ take-append-drop (suc r) stream)
    ]

full_read_loop-total :
    (count size : ℕ) (stream : List ℕ) (answers : List Answer)
    → size < 2 ^ 64
    → IsFair size (length stream) answers
    → size ≤ total answers
    → full_read_loop count size stream answers
      ≡ record { buffer = take size stream; left = drop size stream; ending = returned (pos count) }
unfolding full_read_loop
full_read_loop-total count zero stream answers w f m = refl
full_read_loop-total count (suc s) stream [] w f m = absurd (omega arith)
full_read_loop-total count (suc s) stream (interrupted ∷ answers) w f m =
    full_read_loop-total count (suc s) stream answers w f m
full_read_loop-total count (suc s) stream (failed ∷ answers) w f m = absurd f
full_read_loop-total count (suc s) stream (moved zero ∷ answers) w f m = absurd (omega arith)
full_read_loop-total count (suc s) stream (moved (suc r) ∷ answers) w f m =
    elim (Bool-cases (suc r == suc s)) [
      | inl all ↦ let same : suc r ≡ suc s = ground arith in rw all (rw same)
      | inr part ↦
          let less : sub_size (suc s) (suc r) ≡ suc s - suc r = omega arith in
          let whole : suc r + (suc s - suc r) ≡ suc s = omega arith in
          let ih =
            full_read_loop-total count (suc s - suc r) (drop (suc r) stream) answers (omega arith)
              (rw (length-drop (suc r) stream) f.3) (omega arith) in
          rw (part, less, ih)
            (λ i. record {
              buffer = (take-add (suc r) (suc s - suc r) stream ∙ ap (λ k. take k stream) whole) i;
              left = (drop-add (suc r) (suc s - suc r) stream ∙ ap (λ k. drop k stream) whole) i;
              ending = returned (pos count);
            })
    ]

-- Where `read` gives at least one byte each time, no more than it is asked for or than the peer has
-- sent, and does not fail, `full_read` returns the count once the calls have given so many bytes:
-- the buffer then holds the first `count` bytes of the stream, and the others are left in it.
pub full_read-total :
    (count : ℕ) (stream : List ℕ) (answers : List Answer)
    → count < 2 ^ 64
    → IsFair count (length stream) answers
    → count ≤ total answers
    → full_read count stream answers ≡ record {
      buffer = take count stream;
      left = drop count stream;
      ending = returned (pos count);
    }
unfolding full_read
full_read-total count stream answers w f m = full_read_loop-total count count stream answers w f m

-- `full_read` behind a `full_write` of a message of less than 2^64 bytes that returned its length
-- gives the message and leaves what came behind it, however the two ends cut the bytes into calls,
-- where the calls of `read` give at least one byte each, no more than there are, do not fail, and
-- give so many bytes in all.
pub full_read-full_write :
    (message behind : List ℕ) (out into : List Answer)
    → let w = full_write message out in
      let stream = w.sent ++ behind in
      w.ending ≡ returned (pos (length message))
      → length message < 2 ^ 64
      → IsFair (length message) (length stream) into
      → length message ≤ total into
      → full_read (length message) stream into
        ≡ record { buffer = message; left = behind; ending = returned (pos (length message)) }
full_read-full_write message behind out into done small f m =
    let s = full_write-Sends message out in
    let all : (full_write message out).sent ≡ message =
      sym (s.splits ∙ rw (s.complete _ done).0 (append-nil _)) in
    rw all (
      rw (full_read-total (length message) (message ++ behind) into small (rw all at f) m)
        (rw (take-append message behind, drop-append message behind)))
