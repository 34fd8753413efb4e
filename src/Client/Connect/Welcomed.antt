-- ===== src/Client/Connect/Welcomed.antt =====
-- `pm_connect` at the other end of a connection from `handler_thread_main`.
use pm_lab_tools.Prelude.{ℕ, ◌^◌, ◌<◌, ◌≡◌, refl, ap, ◌∙◌, Option, some, List, ◌∷◌, ◌++◌, length}
use pm_lab_tools.Prelude.Int.{pos}
use pm_lab_tools.Utils.{Answer, returned}
use pm_lab_tools.Utils.Write.{Departs}
use pm_lab_tools.Utils.Read.{Arrives}
use pm_lab_tools.Protocol.{welcome_msg}
use pm_lab_tools.Protocol.Words.{htonl, words}
use pm_lab_tools.Protocol.Connection.{write_welcome, read_answer}
use pm_lab_tools.Protocol.Connection.Agreement.{send_request-Departs, read_answer-write_welcome}
use pm_lab_tools.Client.Connect.{
  PmHandle, pm_handle_magic_number, Resources, Address, opened, Answers, conclude, talk, connect_to,
  pm_connect, pm_samplingrate,
}
use pm_lab_tools.Client.Connect.Held.{first_connected, connect_to-some}

-- A client whose pointers are not NULL, for which an address is found that has a socket that connects,
-- to a daemon that answers with its sampling rate, a 32 bit word, and where the calls of `write` and
-- `read` move the bytes of the request, of fewer than 2^32 channels, and of the answer, a part at a
-- time: `pm_connect` returns a handle of the first such socket, with what follows the answer left in
-- the stream, and `pm_samplingrate` of the handle is the rate of the daemon.
pub pm_connect-write_welcome :
    (server port channels : List ℕ) (getaddrinfo : List ℕ → List ℕ → Option (List Address))
    (result : List Address) (sockfd : ℕ) (sampling_rate : ℕ) (behind : List ℕ) (r : Resources)
    (out₁ out₂ in₁ in₂ to₁ to₂ : List Answer)
    → getaddrinfo server port ≡ some result
    → first_connected result ≡ some sockfd
    → length channels < 2 ^ 32
    → sampling_rate < 2 ^ 32
    → Departs 4 out₁
    → Departs (length (words channels)) out₂
    → Departs 17 to₁
    → Departs 4 to₂
    → Arrives 17 (length (welcome_msg ++ (htonl sampling_rate ++ behind))) in₁
    → Arrives 4 (length (htonl sampling_rate ++ behind)) in₂
    → let io : Answers = record {
      out₁ = out₁;
      out₂ = out₂;
      stream = (write_welcome sampling_rate to₁ to₂).sent ++ behind;
      in₁ = in₁;
      in₂ = in₂;
    } in
      (h : PmHandle) × ((pm_connect
          (some server)
          (some port)
          (some channels)
          getaddrinfo
          io
          r).outcome
        ≡ opened h behind)
      × (h.sockfd ≡ sockfd)
      × (pm_samplingrate h ≡ sampling_rate)
unfolding pm_connect pm_samplingrate talk
pm_connect-write_welcome server port channels getaddrinfo result sockfd rate behind r out₁ out₂ in₁
      in₂ to₁ to₂ found first few small d₁ d₂ w₁ w₂ a₁ a₂ =
    let io : Answers = record {
      out₁ = out₁;
      out₂ = out₂;
      stream = (write_welcome rate to₁ to₂).sent ++ behind;
      in₁ = in₁;
      in₂ = in₂;
    } in
    let h : PmHandle = record {
      magic_number = pm_handle_magic_number;
      sockfd = sockfd;
      sampling_rate = rate;
    } in
    let more : Resources = record r { sockets = sockfd ∷ r.sockets } in
    let sent = ap (λ w. w.ending) (send_request-Departs channels out₁ out₂ few d₁ d₂) in
    let (_, answer) = read_answer-write_welcome rate behind to₁ to₂ in₁ in₂ small w₁ w₂ a₁ a₂ in
    let ends : (talk sockfd channels io more).outcome ≡ opened h behind =
      ap (λ e. (conclude sockfd more e (read_answer io.stream in₁ in₂)).outcome) sent
      ∙ ap (λ a. (conclude sockfd more (returned (pos 0)) a).outcome) answer in
    (
      h,
      ap (λ a. (connect_to a channels io r).outcome) found
          ∙ ap (λ o. o.outcome) (connect_to-some result channels io r sockfd first)
          ∙ ends,
      refl,
      refl,
    )
