-- ===== src/Tests/Io.antt =====
-- The loops round the system calls, and the words and messages that go through them, at concrete
-- inputs.
use pm_lab_tools.Prelude.{ℕ, ◌+◌, ◌*◌, ◌<◌, ◌≡◌, refl, List, [], ◌∷◌, ◌++◌, arith}
use pm_lab_tools.Prelude.Int.{pos}
use pm_lab_tools.Utils.{
  Answer, moved, interrupted, returned, full_write_loop, full_write, full_read,
}
use pm_lab_tools.Utils.Write.{Sends, full_write-Sends, full_write-total}
use pm_lab_tools.Utils.Read.{full_read-full_write}
use pm_lab_tools.Protocol.Words.{htonl, ntohl, ntohl-htonl}
use pm_lab_tools.Sync.{returns}
use pm_lab_tools.Sync.Timeout.{
  Timespec, abs_wait_timeout, abs_wait_timeout_lem, nanos, time_s, time_ms,
}

abbrev message : List ℕ
message = 10 ∷ 11 ∷ 12 ∷ []

-- A part, an interruption, and the rest.
abbrev in_parts : List Answer
in_parts = moved 2 ∷ interrupted ∷ moved 1 ∷ []

full_write-Sends_example : Sends 3 message (full_write message in_parts)
full_write-Sends_example = full_write-Sends message in_parts

full_write-total_example : (full_write message in_parts).ending ≡ returned (pos 3)
full_write-total_example = full_write-total message in_parts (omega arith) (omega arith)

full_read-full_write_example :
    full_read 3 ((full_write message in_parts).sent ++ 7 ∷ []) (moved 1 ∷ moved 2 ∷ [])
    ≡ record { buffer = message; left = 7 ∷ []; ending = returned (pos 3) }
unfolding full_write full_write_loop
full_read-full_write_example =
    full_read-full_write message (7 ∷ []) in_parts (moved 1 ∷ moved 2 ∷ []) refl (omega arith)
      (omega arith) (omega arith)

ntohl-htonl_example : ntohl (htonl 305_419_896) ≡ 305_419_896
ntohl-htonl_example = ntohl-htonl 305_419_896 (omega arith)

abs_wait_timeout_lem_example :
    let now : Timespec = record { tv_sec = 10; tv_nsec = 700_000_000 } in
    (t : Timespec) × (abs_wait_timeout now ≡ returns t)
    × (t.tv_nsec < time_s)
    × (nanos t ≡ nanos now + 1500 * time_ms)
abs_wait_timeout_lem_example =
    abs_wait_timeout_lem (record { tv_sec = 10; tv_nsec = 700_000_000 }) (omega arith) (omega arith)

-- Two channels of two samples, sent in parts.
abbrev analog : List ℕ
analog = 1 ∷ 2 ∷ 3 ∷ 4 ∷ []

abbrev digital : List ℕ
digital = 1 ∷ 0 ∷ 0 ∷ 1 ∷ []

abbrev channel_ids : List ℕ
channel_ids = 1 ∷ 0 ∷ []

abbrev answers₁ : List Answer
answers₁ = moved 20 ∷ moved 1 ∷ []

abbrev answers₂ : List Answer
answers₂ = moved 4 ∷ []

abbrev answers₃ : List Answer
answers₃ = interrupted ∷ moved 14 ∷ []
