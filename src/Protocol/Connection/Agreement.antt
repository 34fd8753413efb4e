-- ===== src/Protocol/Connection/Agreement.antt =====
-- The two ends of a connection agree on the request and on the answer.
use pm_lab_tools.Prelude.{
  ℕ, ◌%◌, ◌^◌, ◌<◌, ◌≡◌, refl, sym, ap, ◌∙◌, List, [], ◌++◌, arith, if◌then◌else◌, length, take,
  drop, take-append, drop-append, append_assoc, append-nil,
}
use pm_lab_tools.Prelude.Int.{pos}
use pm_lab_tools.Utils.{Answer, returned, Written, send, full_write, ReadBack, full_read}
use pm_lab_tools.Utils.Write.{full_write-all, full_write-total, Departs}
use pm_lab_tools.Utils.Read.{full_read-total, Arrives}
use pm_lab_tools.Client.Read.{equal_bytes}
use pm_lab_tools.Protocol.{welcome_msg}
use pm_lab_tools.Protocol.Words.{htonl, ntohl, length-htonl, ntohl-htonl, words}
use pm_lab_tools.Protocol.Connection.{
  must_write, exactly, send_request, write_welcome, handle, crashed, no_handle, waits_for_answer,
  read_answer,
}

exactly-Arrives {ℓ} :
    {A : Type ℓ} (short waits : A) (size : ℕ) (bytes more : List ℕ) (answers : List Answer)
    (next : ReadBack → A)
    → length bytes ≡ size
    → size < 2 ^ 31
    → Arrives size (length (bytes ++ more)) answers
    → exactly short waits size (full_read size (bytes ++ more) answers) next
      ≡ next (record { buffer = bytes; left = more; ending = returned (pos size) })
exactly-Arrives short waits size bytes more answers next e small a =
    let first : take size (bytes ++ more) ≡ bytes =
      ap (λ k. take k (bytes ++ more)) (sym e) ∙ take-append bytes more in
    let others : drop size (bytes ++ more) ≡ more =
      ap (λ k. drop k (bytes ++ more)) (sym e) ∙ drop-append bytes more in
    rw (full_read-total size (bytes ++ more) answers (omega arith) a.0 a.1, first, others)
      (ground arith)

must_write-Departs :
    (size : ℕ) (buf : List ℕ) (out : List Answer) (next : Written)
    → length buf ≡ size
    → size < 2 ^ 31
    → Departs (length buf) out
    → must_write size (full_write buf out) next ≡ send buf next
must_write-Departs size buf out next e small d =
    let all = full_write-all buf out (length buf) (full_write-total buf out d.0 d.1) in
    rw (all, e) (ground arith)

pub send_request-Departs :
    (channels : List ℕ) (out₁ out₂ : List Answer)
    → length channels < 2 ^ 32
    → Departs 4 out₁
    → Departs (length (words channels)) out₂
    → send_request channels out₁ out₂
      ≡ record { sent = htonl (length channels) ++ words channels; ending = returned (pos 0) }
unfolding send_request
send_request-Departs channels out₁ out₂ small d₁ d₂ =
    let n = length channels in
    let fits : n % 2 ^ 32 ≡ n = omega arith in
    let all =
      full_write-all (words channels) out₂ (length (words channels))
        (full_write-total (words channels) out₂ d₂.0 d₂.1) in
    rw (fits, all)
      (must_write-Departs 4 (htonl n) out₁ _ (length-htonl n) (omega arith) (rw (length-htonl n) d₁)
        ∙ ap (λ w. record { sent = htonl n ++ w.sent; ending = returned (pos 0) }) all)

write_welcome-Departs :
    (sampling_rate : ℕ) (out₁ out₂ : List Answer)
    → sampling_rate < 2 ^ 32
    → Departs 17 out₁
    → Departs 4 out₂
    → write_welcome sampling_rate out₁ out₂
      ≡ record { sent = welcome_msg ++ (htonl sampling_rate ++ []); ending = returned (pos 0) }
unfolding write_welcome welcome_msg
write_welcome-Departs rate out₁ out₂ small d₁ d₂ =
    let fits : rate % 2 ^ 32 ≡ rate = omega arith in
    rw fits (
      must_write-Departs 17 welcome_msg out₁ _ refl (omega arith) d₁
      ∙ ap (send welcome_msg) (
          must_write-Departs 4 (htonl rate) out₂ _ (length-htonl rate) (omega arith)
            (rw (length-htonl rate) d₂)))

pub write_welcome-ending :
    (sampling_rate : ℕ) (out₁ out₂ : List Answer)
    → sampling_rate < 2 ^ 32
    → Departs 17 out₁
    → Departs 4 out₂
    → (write_welcome sampling_rate out₁ out₂).ending ≡ returned (pos 0)
write_welcome-ending rate out₁ out₂ small d₁ d₂ =
    ap (λ w. w.ending) (write_welcome-Departs rate out₁ out₂ small d₁ d₂)

-- The answer to an accepted request, where the calls of `write` and `read` move the bytes, a part at
-- a time: no assertion fails at either end, and `pm_connect` returns a handle with the sampling rate
-- that the daemon was built for, which is a 32 bit word; what comes behind the answer is left in the
-- stream.
pub read_answer-write_welcome :
    (sampling_rate : ℕ) (behind : List ℕ) (out₁ out₂ in₁ in₂ : List Answer)
    → sampling_rate < 2 ^ 32
    → Departs 17 out₁
    → Departs 4 out₂
    → Arrives 17 (length (welcome_msg ++ (htonl sampling_rate ++ behind))) in₁
    → Arrives 4 (length (htonl sampling_rate ++ behind)) in₂
    → let w = write_welcome sampling_rate out₁ out₂ in
      (w.ending ≡ returned (pos 0))
      × (read_answer (w.sent ++ behind) in₁ in₂ ≡ handle sampling_rate behind)
unfolding write_welcome read_answer welcome_msg
read_answer-write_welcome rate behind out₁ out₂ in₁ in₂ small d₁ d₂ a₁ a₂ =
    let sent = write_welcome-Departs rate out₁ out₂ small d₁ d₂ in
    let wire : (welcome_msg ++ (htonl rate ++ [])) ++ behind
        ≡ welcome_msg ++ (htonl rate ++ behind) =
      append_assoc welcome_msg (htonl rate ++ []) behind
      ∙ ap (λ r. welcome_msg ++ (r ++ behind)) (append-nil (htonl rate)) in
    let answered : read_answer (welcome_msg ++ (htonl rate ++ behind)) in₁ in₂
        ≡ handle (ntohl (htonl rate)) behind =
      exactly-Arrives no_handle waits_for_answer 17 welcome_msg (htonl rate ++ behind) in₁
        (λ r₁.
          if equal_bytes welcome_msg r₁.buffer
          then (exactly no_handle waits_for_answer 4 (full_read 4 r₁.left in₂)
              λ r₂. handle (ntohl r₂.buffer) r₂.left)
          else crashed)
        refl (omega arith) a₁
      ∙ exactly-Arrives no_handle waits_for_answer 4 (htonl rate) behind in₂
          (λ r. handle (ntohl r.buffer) r.left) (length-htonl rate) (omega arith) a₂ in
    (
      ap (λ s. s.ending) sent,
      ap (λ s. read_answer (s.sent ++ behind) in₁ in₂) sent
          ∙ ap (λ s. read_answer s in₁ in₂) wire
          ∙ answered
          ∙ ap (λ n. handle n behind) (ntohl-htonl rate small),
    )
