-- ===== src/Protocol/Connection.antt =====
-- The start of a connection: the request of `pm_connect` (client/libpmlab.c), behind the calls that
-- make the socket, and the answer of `handler_thread_main` (daemon/handler.c).
pub mod Agreement
use pm_lab_tools.Prelude.{
  ℕ, ◌*◌, ◌%◌, ◌^◌, Bool, true, ◌&&◌, List, [], ◌∷◌, ltb, leb, ◌==◌, if◌then◌else◌, length,
}
use pm_lab_tools.Prelude.Int.{pos, negsuc}
use pm_lab_tools.Utils.{
  Answer, Ending, returned, aborted, blocked, Written, send, full_write, ReadBack, full_read,
}
use pm_lab_tools.Handler.Dataset.{to_int}
use pm_lab_tools.Client.Read.{equal_bytes}
use pm_lab_tools.Protocol.{welcome_msg}
use pm_lab_tools.Protocol.Words.{htonl, ntohl, words, from_words}

-- A `full_write` of `size` bytes, with the assertion that it has written them all.
abbrev pub must_write : ℕ → Written → Written → Written
must_write size w next = elim w.ending [
  | returned z ↦ elim (to_int z) [
    | pos err ↦ if size == err then send w.sent next else record { sent = w.sent; ending = aborted }
    | negsuc n ↦ record { sent = w.sent; ending = aborted }
  ]
  | aborted ↦ w
  | blocked ↦ w
]

-- A `full_read` of `size` bytes: the next step where it got them all, and else `short`. It has no
-- assertion that could fail.
abbrev pub exactly {ℓ} : {A : Type ℓ} → A → A → ℕ → ReadBack → (ReadBack → A) → A
exactly short waits size r next = elim r.ending [
  | returned z ↦ elim (to_int z) [
    | pos err ↦ if size == err then next r else short
    | negsuc n ↦ short
  ]
  | aborted ↦ short
  | blocked ↦ waits
]

-- What `pm_connect` sends. Its second `full_write` has a result that nothing looks at.
unfoldable pub send_request : List ℕ → List Answer → List Answer → Written
send_request channels out₁ out₂ =
    must_write 4 (full_write (htonl (length channels % 2 ^ 32)) out₁) (
      let w = full_write (words channels) out₂ in
      elim w.ending [
        | returned z ↦ record { sent = w.sent; ending = returned (pos 0) }
        | aborted ↦ w
        | blocked ↦ w
      ])

-- What becomes of a request: its channels are accepted, it is refused, or more of it has to come.
pub data Request : Type 0 where
  accepted : List ℕ → Request
  refused : Request
  waits_for_request : Request

abbrev pub max_channels : ℕ
max_channels = 8

-- The loop over the channels: each is a channel of the device.
abbrev pub all_below : ℕ → List ℕ → Bool
all_below num_channels [] = true
all_below num_channels (c ∷ rest) = ltb c num_channels && all_below num_channels rest

-- The start of `handler_thread_main`, up to the creation of the sender, on a device of so many
-- channels.
unfoldable pub read_request : ℕ → List ℕ → List Answer → List Answer → Request
read_request device stream in₁ in₂ =
    exactly refused waits_for_request 4 (full_read 4 stream in₁) λ r₁.
      let num_channels = ntohl r₁.buffer in
      if ltb max_channels num_channels
      then refused
      else (exactly refused waits_for_request (4 * num_channels)
          (full_read (4 * num_channels) r₁.left in₂)
          λ r₂.
            let channels = from_words r₂.buffer in
            if all_below device channels then accepted channels else refused)

-- The answer to an accepted request, with the sampling rate that the daemon is built for.
unfoldable pub write_welcome : ℕ → List Answer → List Answer → Written
write_welcome sampling_rate out₁ out₂ =
    must_write (length welcome_msg) (full_write welcome_msg out₁) (
      must_write 4 (full_write (htonl (sampling_rate % 2 ^ 32)) out₂)
        (record { sent = []; ending = returned (pos 0) }))

-- What `pm_connect` returns: NULL, a handle with the sampling rate, and then what it has left of the
-- stream; or its assertion fails, or it has to wait.
pub data Connected : Type 0 where
  no_handle : Connected
  handle : ℕ → List ℕ → Connected
  crashed : Connected
  waits_for_answer : Connected

-- The rest of `pm_connect`.
unfoldable pub read_answer : List ℕ → List Answer → List Answer → Connected
read_answer stream in₁ in₂ =
    exactly no_handle waits_for_answer (length welcome_msg)
      (full_read (length welcome_msg) stream in₁)
      λ r₁.
        if equal_bytes welcome_msg r₁.buffer
        then (exactly no_handle waits_for_answer 4 (full_read 4 r₁.left in₂)
            λ r₂. handle (ntohl r₂.buffer) r₂.left)
        else crashed
