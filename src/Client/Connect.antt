-- ===== src/Client/Connect.antt =====
-- client/libpmlab.c, `pm_connect`, `pm_samplingrate` and `pm_close`, with what they hold of the system.
-- What comes behind the call of `connect` that succeeds is in Protocol/Connection.
pub mod Held
pub mod Welcomed
use mathlib.Core.Option
use pm_lab_tools.Prelude.{
  ℕ, ◌+◌, ◌-◌, Bool, true, false, Option, none, some, List, [], ◌∷◌, ◌==◌, if◌then◌else◌,
}
use pm_lab_tools.Utils.{Answer, Ending, returned, aborted, blocked}
use pm_lab_tools.Protocol.Connection.{
  send_request, Connected, no_handle, handle, crashed, waits_for_answer, read_answer,
}

-- `pm_handle`; its magic number is seen as an unsigned number.
pub record PmHandle : Type 0 where
  pub magic_number : ℕ
  pub sockfd : ℕ
  pub sampling_rate : ℕ

abbrev pub pm_handle_magic_number : ℕ
pm_handle_magic_number = 3_221_338_814

-- What a process holds: its open sockets, the lists of `getaddrinfo` and the handles that are not
-- freed.
pub record Resources : Type 0 where
  pub sockets : List ℕ
  pub address_lists : ℕ
  pub handles : ℕ

-- An address of the list of `getaddrinfo`: the socket that `socket` makes for it, if any, and whether
-- `connect` succeeds with it.
pub record Address : Type 0 where
  pub socket : Option ℕ
  pub connects : Bool

-- `close`, which fails for what is not open.
abbrev pub close_socket : ℕ → List ℕ → Option (List ℕ)
close_socket fd [] = none
close_socket fd (s ∷ rest) =
    let others = close_socket fd rest in
    if fd == s then some rest else Option.map (λ o. s ∷ o) others

-- The loop over the addresses. It does not look at the result of `close`.
unfoldable pub connect_loop : List Address → List ℕ → Option ℕ × List ℕ
connect_loop [] sockets = (none, sockets)
connect_loop (rp ∷ rest) sockets = elim rp.socket [
  | none ↦ connect_loop rest sockets
  | some sockfd ↦ elim rp.connects [
    | true ↦ (some sockfd, sockfd ∷ sockets)
    | false ↦ elim (close_socket sockfd (sockfd ∷ sockets)) [
      | none ↦ connect_loop rest (sockfd ∷ sockets)
      | some closed ↦ connect_loop rest closed
    ]
  ]
]

-- What `pm_connect` returns: NULL, or a handle and what is left of the stream; or an assertion
-- fails, or it has to wait.
pub data Opened : Type 0 where
  null : Opened
  opened : PmHandle → List ℕ → Opened
  asserts : Opened
  waits : Opened

-- The end of a call of `pm_connect`.
pub record Opening : Type 0 where
  pub outcome : Opened
  pub resources : Resources

-- What the system answers to `pm_connect` behind the loop: to its writes and its reads, and the bytes
-- that the daemon sends.
pub record Answers : Type 0 where
  pub out₁ : List Answer
  pub out₂ : List Answer
  pub stream : List ℕ
  pub in₁ : List Answer
  pub in₂ : List Answer

-- The end of `pm_connect`, from how the request and the answer end.
abbrev pub conclude : ℕ → Resources → Ending → Connected → Opening
conclude sockfd r (returned z) (handle sampling_rate left) = record {
  outcome =
      opened
        (record {
          magic_number = pm_handle_magic_number;
          sockfd = sockfd;
          sampling_rate = sampling_rate;
        })
        left;
  resources = record r { handles = r.handles + 1 };
}
conclude sockfd r (returned z) no_handle = record { outcome = null; resources = r }
conclude sockfd r (returned z) crashed = record { outcome = asserts; resources = r }
conclude sockfd r (returned z) waits_for_answer = record { outcome = waits; resources = r }
conclude sockfd r aborted answer = record { outcome = asserts; resources = r }
conclude sockfd r blocked answer = record { outcome = waits; resources = r }

-- `pm_connect` on a socket that is connected.
unfoldable pub talk : ℕ → List ℕ → Answers → Resources → Opening
talk sockfd channels io r =
    conclude sockfd r (send_request channels io.out₁ io.out₂).ending
      (read_answer io.stream io.in₁ io.in₂)

-- `pm_connect` behind the loop, which gives the socket that is connected, if any, and the open ones.
abbrev pub behind_loop : List ℕ → Answers → Resources → Option ℕ × List ℕ → Opening
behind_loop channels io r (none, sockets) = record {
  outcome = null;
  resources = record r { sockets = sockets; address_lists = r.address_lists + 1 };
}
behind_loop channels io r (some sockfd, sockets) =
    talk sockfd channels io
      (record r { sockets = sockets; address_lists = r.address_lists + 1 - 1 })

-- `pm_connect` behind `getaddrinfo`, which gives the addresses, or none for an error.
unfoldable pub connect_to : Option (List Address) → List ℕ → Answers → Resources → Opening
connect_to none channels io r = record { outcome = null; resources = r }
connect_to (some result) channels io r = behind_loop channels io r (connect_loop result r.sockets)

-- `pm_connect`; an argument that is none is NULL.
unfoldable pub pm_connect :
    Option (List ℕ)
    → Option (List ℕ)
    → Option (List ℕ)
    → (List ℕ → List ℕ → Option (List Address))
    → Answers
    → Resources
    → Opening
pm_connect (some server) (some port) (some channels) getaddrinfo io r =
    connect_to (getaddrinfo server port) channels io r
pm_connect _ _ _ getaddrinfo io r = record { outcome = null; resources = r }

unfoldable pub pm_samplingrate : PmHandle → ℕ
pm_samplingrate h = h.sampling_rate

-- `pm_close`; none is a failed assertion.
unfoldable pub pm_close : PmHandle → Resources → Option Resources
pm_close h r =
    if pm_handle_magic_number == h.magic_number
    then (elim (close_socket h.sockfd r.sockets) [
      | none ↦ none
      | some sockets ↦ some (record r { sockets = sockets; handles = r.handles - 1 })
    ])
    else none
