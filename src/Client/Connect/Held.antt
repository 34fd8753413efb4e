-- ===== src/Client/Connect/Held.antt =====
-- What `pm_connect` holds of the system when it returns, and that `pm_close` gives it back.
use pm_lab_tools.Prelude.{
  ℕ, ◌+◌, ◌-◌, ◌≡◌, refl, sym, ap, ◌∙◌, inl, inr, Bool, true, false, Option, none, some, List, [],
  ◌∷◌, arith, ==_refl, if◌then◌else◌, Option-cases, Bool-cases,
}
use pm_lab_tools.Utils.{Ending, returned, aborted, blocked}
use pm_lab_tools.Protocol.Connection.{Connected, no_handle, handle, crashed, waits_for_answer}
use pm_lab_tools.Client.Connect.{
  PmHandle, pm_handle_magic_number, Resources, Address, connect_loop, Opened, null, opened, Answers,
  conclude, talk, behind_loop, connect_to, pm_connect, pm_close,
}

-- The socket of the first address that has one that connects.
unfoldable pub first_connected : List Address → Option ℕ
first_connected [] = none
first_connected (rp ∷ rest) =
    let later = first_connected rest in
    elim rp.socket [ none ↦ later | some sockfd ↦ if rp.connects then some sockfd else later ]

abbrev pub is_opened : Opened → Bool
is_opened (opened h left) = true
is_opened _ = false

-- The open sockets, with the one that is connected, if any.
abbrev with_socket : Option ℕ → List ℕ → List ℕ
with_socket none sockets = sockets
with_socket (some sockfd) sockets = sockfd ∷ sockets

-- What is held behind the loop, from the socket that is connected, if any, and whether there is a
-- handle.
abbrev pub held_by : Option ℕ → Bool → Resources → Resources
held_by none succeeds r = record r { address_lists = r.address_lists + 1 }
held_by (some sockfd) succeeds r = record r {
  sockets = sockfd ∷ r.sockets;
  handles = r.handles + (if succeeds then 1 else 0);
}

-- What is held behind `pm_connect`, from the addresses that were found, if any.
abbrev pub held : Option (List Address) → Bool → Resources → Resources
held none succeeds r = r
held (some result) succeeds r = held_by (first_connected result) succeeds r

connect_loop-first_connected :
    (result : List Address) (sockets : List ℕ)
    → connect_loop result sockets
      ≡ (first_connected result, with_socket (first_connected result) sockets)
unfolding connect_loop first_connected
connect_loop-first_connected [] sockets = refl
connect_loop-first_connected (rp ∷ rest) sockets =
    let later = connect_loop-first_connected rest sockets in
    elim (Option-cases rp.socket) [
      | inl no_socket ↦ simp (no_socket, later)
      | inr (sockfd, made) ↦ elim (Bool-cases rp.connects) [
        | inl connects ↦ simp (made, connects)
        | inr fails ↦ simp (made, fails, ==_refl sockfd, later)
      ]
    ]

conclude-resources :
    (sockfd : ℕ) (r : Resources) (sent : Ending) (answer : Connected)
    → let o = conclude sockfd r sent answer in
      o.resources ≡ record r { handles = r.handles + (if is_opened o.outcome then 1 else 0) }
conclude-resources sockfd r (returned z) no_handle =
    ap (λ n. record r { handles = n }) (omega arith)
conclude-resources sockfd r (returned z) (handle sampling_rate left) = refl
conclude-resources sockfd r (returned z) crashed = ap (λ n. record r { handles = n }) (omega arith)
conclude-resources sockfd r (returned z) waits_for_answer =
    ap (λ n. record r { handles = n }) (omega arith)
conclude-resources sockfd r aborted answer = ap (λ n. record r { handles = n }) (omega arith)
conclude-resources sockfd r blocked answer = ap (λ n. record r { handles = n }) (omega arith)

conclude-opened :
    (sockfd : ℕ) (r : Resources) (sent : Ending) (answer : Connected) (h : PmHandle) (left : List ℕ)
    → (conclude sockfd r sent answer).outcome ≡ opened h left
    → (h.magic_number ≡ pm_handle_magic_number) × (h.sockfd ≡ sockfd)
conclude-opened sockfd r (returned z) no_handle h left e = ground arith
conclude-opened sockfd r (returned z) (handle sampling_rate more) h left e = ground arith
conclude-opened sockfd r (returned z) crashed h left e = ground arith
conclude-opened sockfd r (returned z) waits_for_answer h left e = ground arith
conclude-opened sockfd r aborted answer h left e = ground arith
conclude-opened sockfd r blocked answer h left e = ground arith

module _ (result : List Address) (channels : List ℕ) (io : Answers) (r : Resources) where
  connect_to-none :
      first_connected result ≡ none
      → connect_to (some result) channels io r
        ≡ record { outcome = null; resources = record r { address_lists = r.address_lists + 1 } }
  unfolding connect_to
  connect_to-none e =
      ap (behind_loop channels io r)
        (connect_loop-first_connected result r.sockets ∙ ap (λ o. (o, with_socket o r.sockets)) e)

  pub connect_to-some :
      (sockfd : ℕ)
      → first_connected result ≡ some sockfd
      → connect_to (some result) channels io r
        ≡ talk sockfd channels io (record r { sockets = sockfd ∷ r.sockets })
  unfolding connect_to
  connect_to-some sockfd e =
      let same : r.address_lists + 1 - 1 ≡ r.address_lists = omega arith in
      ap (behind_loop channels io r)
        (connect_loop-first_connected result r.sockets ∙ ap (λ o. (o, with_socket o r.sockets)) e)
      ∙ ap
          (λ n.
            talk sockfd channels io (record r { sockets = sockfd ∷ r.sockets; address_lists = n }))
          same

connect_to-resources :
    (result : Option (List Address)) (channels : List ℕ) (io : Answers) (r : Resources)
    → let o = connect_to result channels io r in o.resources ≡ held result (is_opened o.outcome) r
unfolding talk connect_to
connect_to-resources none channels io r = refl
connect_to-resources (some result) channels io r = elim (Option-cases (first_connected result)) [
  | inl e ↦ rw (connect_to-none result channels io r e) (ap (λ o. held_by o false r) (sym e))
  | inr (sockfd, e) ↦
      let more : Resources = record r { sockets = sockfd ∷ r.sockets } in
      rw (connect_to-some result channels io r sockfd e) (
        conclude-resources sockfd more _ _
        ∙ ap (λ o. held_by o (is_opened (talk sockfd channels io more).outcome) r) (sym e))
]

-- What a call of `pm_connect` with pointers that are not NULL leaves behind: nothing if no address is
-- found; the list of the addresses if none of them has a socket that connects; and else the socket of
-- the first that has, and one handle if it returns a handle. Every other socket is closed.
pub pm_connect-resources :
    (server port channels : List ℕ) (getaddrinfo : List ℕ → List ℕ → Option (List Address))
    (io : Answers) (r : Resources)
    → let o = pm_connect (some server) (some port) (some channels) getaddrinfo io r in
      o.resources ≡ held (getaddrinfo server port) (is_opened o.outcome) r
unfolding pm_connect
pm_connect-resources server port channels getaddrinfo io r =
    connect_to-resources (getaddrinfo server port) channels io r

opened-connect_to :
    (result : Option (List Address)) (channels : List ℕ) (io : Answers) (r : Resources)
    (h : PmHandle) (left : List ℕ)
    → (connect_to result channels io r).outcome ≡ opened h left
    → (h.magic_number ≡ pm_handle_magic_number)
      × (held result true r ≡ record r { sockets = h.sockfd ∷ r.sockets; handles = r.handles + 1 })
unfolding talk connect_to
opened-connect_to none channels io r h left e = ground arith
opened-connect_to (some result) channels io r h left opens =
    elim (Option-cases (first_connected result)) [
      | inl e ↦ absurd (ground (arith, rw (connect_to-none result channels io r e) at opens))
      | inr (sockfd, e) ↦
          let more : Resources = record r { sockets = sockfd ∷ r.sockets } in
          let (magic, same) =
            conclude-opened sockfd more _ _ h left
              (rw (connect_to-some result channels io r sockfd e) at opens) in
          (magic, ap (λ o. held_by o true r) (e ∙ ap some (sym same)))
    ]

-- Where `pm_connect` has returned a handle, `pm_close` of it succeeds, and gives back all that the
-- call has taken: the process holds what it held before.
pub pm_close-pm_connect :
    (server port channels : List ℕ) (getaddrinfo : List ℕ → List ℕ → Option (List Address))
    (io : Answers) (r : Resources) (h : PmHandle) (left : List ℕ)
    → let o = pm_connect (some server) (some port) (some channels) getaddrinfo io r in
      o.outcome ≡ opened h left → pm_close h o.resources ≡ some r
unfolding pm_connect pm_close
pm_close-pm_connect server port channels getaddrinfo io r h left opens =
    let result = getaddrinfo server port in
    let (magic, all) = opened-connect_to result channels io r h left opens in
    let kept =
      connect_to-resources result channels io r
      ∙ ap (λ o. held result (is_opened o) r) opens
      ∙ all in
    let same : r.handles + 1 - 1 ≡ r.handles = omega arith in
    ap (pm_close h) kept ∙ rw (magic, ==_refl h.sockfd, same) refl

pub pm_connect-magic :
    (server port channels : List ℕ) (getaddrinfo : List ℕ → List ℕ → Option (List Address))
    (io : Answers) (r : Resources) (h : PmHandle) (left : List ℕ)
    → (pm_connect (some server) (some port) (some channels) getaddrinfo io r).outcome
      ≡ opened h left
    → h.magic_number ≡ pm_handle_magic_number
unfolding pm_connect
pm_connect-magic server port channels getaddrinfo io r h left opens =
    (opened-connect_to (getaddrinfo server port) channels io r h left opens).0
