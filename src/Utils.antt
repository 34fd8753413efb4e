-- ===== src/Utils.antt =====
-- common/utils.c: `full_write` and `full_read`, the loops round `write` and `read`. The answers of
-- the system calls are a list, one for each call, and a loop recurs on it: where the list ends, the
-- thread is still blocked in the next call.
pub mod Write
pub mod Read
use pm_lab_tools.Prelude.{
  ℕ, zero, suc, ◌+◌, ◌-◌, ◌%◌, ◌^◌, Bool, true, false, ◌&&◌, List, [], ◌∷◌, ◌++◌, ltb, leb, ◌==◌,
  if◌then◌else◌, length, take, drop,
}
use pm_lab_tools.Prelude.Int.{ℤ, pos, negsuc}

-- One call of `write` or `read`: it moves so many bytes (none is the end of file of `read`), it is
-- interrupted (-1 with EINTR), or it fails (-1 with another error).
pub data Answer : Type 0 where
  moved : ℕ → Answer
  interrupted : Answer
  failed : Answer

-- The end of a loop: its `ssize_t` result, a failed assertion, or none yet.
pub data Ending : Type 0 where
  returned : ℤ → Ending
  aborted : Ending
  blocked : Ending

-- What has gone out to the file descriptor, and how the loop ends.
pub record Written : Type 0 where
  pub sent : List ℕ
  pub ending : Ending

-- The bytes of one call, before those of the rest.
abbrev pub send : List ℕ → Written → Written
send bytes w = record { sent = bytes ++ w.sent; ending = w.ending }

-- The loop of `full_write`; `rest` are the `size` bytes at `buf`.
unfoldable pub full_write_loop : ℕ → List ℕ → List Answer → Written
full_write_loop count [] answers = record { sent = []; ending = returned (pos count) }
full_write_loop count (b ∷ rest) [] = record { sent = []; ending = blocked }
full_write_loop count (b ∷ rest) (interrupted ∷ answers) = full_write_loop count (b ∷ rest) answers
full_write_loop count (b ∷ rest) (failed ∷ answers) = record {
  sent = [];
  ending = returned (negsuc 0);
}
full_write_loop count (b ∷ rest) (moved res ∷ answers) =
    let size = length (b ∷ rest) in
    let more = full_write_loop count (drop res (b ∷ rest)) answers in
    if res == size
    then record { sent = b ∷ rest; ending = returned (pos count) }
    else if ltb 0 res && leb res size
    then send (take res (b ∷ rest)) more
    else record { sent = []; ending = aborted }

-- `full_write`
unfoldable pub full_write : List ℕ → List Answer → Written
full_write buf answers = full_write_loop (length buf) buf answers

-- What is in the buffer, what is left of the stream, and how the loop ends.
pub record ReadBack : Type 0 where
  pub buffer : List ℕ
  pub left : List ℕ
  pub ending : Ending

abbrev pub receive : List ℕ → ReadBack → ReadBack
receive bytes r = record { buffer = bytes ++ r.buffer; left = r.left; ending = r.ending }

-- `size -= res` on `size_t`
abbrev pub sub_size : ℕ → ℕ → ℕ
sub_size size res = (size + 2 ^ 64 - res) % 2 ^ 64

-- The loop of `full_read`, with the bytes that the peer sends.
unfoldable pub full_read_loop : ℕ → ℕ → List ℕ → List Answer → ReadBack
full_read_loop count zero stream answers = record {
  buffer = [];
  left = stream;
  ending = returned (pos count);
}
full_read_loop count (suc s) stream [] = record { buffer = []; left = stream; ending = blocked }
full_read_loop count (suc s) stream (interrupted ∷ answers) =
    full_read_loop count (suc s) stream answers
full_read_loop count (suc s) stream (failed ∷ answers) = record {
  buffer = [];
  left = stream;
  ending = returned (negsuc 0);
}
full_read_loop count (suc s) stream (moved zero ∷ answers) = record {
  buffer = [];
  left = stream;
  ending = returned (pos 0);
}
full_read_loop count (suc s) stream (moved (suc r) ∷ answers) =
    let res = suc r in
    let more = full_read_loop count (sub_size (suc s) res) (drop res stream) answers in
    if res == suc s
    then record { buffer = take res stream; left = drop res stream; ending = returned (pos count) }
    else receive (take res stream) more

-- `full_read`
unfoldable pub full_read : ℕ → List ℕ → List Answer → ReadBack
full_read count stream answers = full_read_loop count count stream answers
