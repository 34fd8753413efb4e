-- ===== src/Handler/Life/Ended.antt =====
-- A handler thread takes down what it has set up.
use pm_lab_tools.Prelude.{
  ℕ, zero, suc, ◌≤◌, ◌<◌, ◌^◌, ◌≡◌, refl, ap, ◌∙◌, Bool, true, false, ◌&&◌, ◌||◌, not, Option, none,
  some, List, [], ◌∷◌, ◌++◌, arith, length,
}
use pm_lab_tools.Prelude.Int.{pos}
use pm_lab_tools.Sync.{returns}
use pm_lab_tools.Utils.{Answer, returned}
use pm_lab_tools.Utils.Write.{Departs}
use pm_lab_tools.Protocol.Connection.{Request, accepted, refused, waits_for_request, read_request}
use pm_lab_tools.Protocol.Connection.Agreement.{write_welcome-ending}
use pm_lab_tools.Handler.Buffer.{BufferDesc, Status, ok, enobufs}
use pm_lab_tools.Handler.Fifo.{IsValid, copy_to_buffer_refines}
use pm_lab_tools.Handler.Life.{
  Effect, create_sender, register, copied, report, unregister, stop_sender, close_connection,
  join_sender, release_buffer, release_info, Life, returns_null, behind, Answered, finally,
  behind_request, HandlerRound, serve_round, serve, handler_thread_main,
}

-- A round that copies a block, so many times.
abbrev pub copies_of : ℕ → List Effect
copies_of zero = []
copies_of (suc k) = copied ∷ report ∷ copies_of k

-- The life of a handler whose request is accepted or not, and which copies so many blocks.
abbrev pub whole_life : Bool → ℕ → List Effect
whole_life true k =
    create_sender
    ∷ register
    ∷ (copies_of k
        ++ (unregister ∷ stop_sender ∷ close_connection ∷ join_sender ∷ release_buffer
            ∷ release_info ∷ []))
whole_life false k = stop_sender ∷ close_connection ∷ release_buffer ∷ release_info ∷ []

-- Whether a request is accepted, once it is there.
abbrev pub decision : Request → Option Bool
decision (accepted channels) = some true
decision refused = some false
decision waits_for_request = none

-- The loop has come to `finally`, behind at most so many rounds that have copied a block.
abbrev IsEnding : Answered → ℕ → Life → Type 0
IsEnding c n life = (k : ℕ) × (life ≡ behind (copies_of k) (finally c true true)) × (k ≤ n)

finally-served :
    (c : Answered)
    → c.closes ≡ true
    → c.joins ≡ true
    → (finally c true true ≡ record {
      effects =
          unregister ∷ stop_sender ∷ close_connection ∷ join_sender ∷ release_buffer ∷ release_info
          ∷ [];
      finish = returns_null;
    })
      × (finally c false false ≡ record {
        effects = stop_sender ∷ close_connection ∷ release_buffer ∷ release_info ∷ [];
        finish = returns_null;
      })
finally-served c closes joins = (rw (closes, joins) refl, rw closes refl)

behind_request-life :
    (c : Answered) (more : Life) (request : Request) (accepts : Bool) (k : ℕ)
    → c.creates ≡ true
    → decision request ≡ some accepts
    → more ≡ record {
      effects =
          copies_of k
          ++ (unregister ∷ stop_sender ∷ close_connection ∷ join_sender ∷ release_buffer
              ∷ release_info ∷ []);
      finish = returns_null;
    }
    → finally c false false ≡ record {
      effects = stop_sender ∷ close_connection ∷ release_buffer ∷ release_info ∷ [];
      finish = returns_null;
    }
    → behind_request c (returned (pos 0)) more request
      ≡ record { effects = whole_life accepts k; finish = returns_null }
behind_request-life c more (accepted channels) true k creates e served closed =
    rw creates (ap (behind (create_sender ∷ register ∷ [])) served)
behind_request-life c more (accepted channels) false k creates e served closed =
    absurd (ground arith)
behind_request-life c more refused true k creates e served closed = absurd (ground arith)
behind_request-life c more refused false k creates e served closed = closed
behind_request-life c more waits_for_request accepts k creates e served closed =
    absurd (ground arith)

module _ {Double : Type 0} where
  abbrev pub AreValid : List (HandlerRound Double) → Type 0
  AreValid [] = Unit
  AreValid (round ∷ rest) = IsValid round.buffer × AreValid rest

  -- In some round the daemon or the sender has stopped.
  abbrev pub stops : List (HandlerRound Double) → Bool
  stops [] = false
  stops (round ∷ rest) =
      not ((round.running && round.handler_running) && round.still_running) || stops rest

  serve_round-ends :
      (c : Answered) (on still later : Bool) (status : Status) (new : BufferDesc Double)
      (more : Life) (n : ℕ)
      → (not (on && still) || later) ≡ true
      → (later ≡ true → IsEnding c n more)
      → IsEnding c (suc n) (serve_round c on still (returns (some (status, new))) more)
  serve_round-ends c false still later status new more n e h = (0, refl, omega arith)
  serve_round-ends c true false later status new more n e h = (0, refl, omega arith)
  serve_round-ends c true true later enobufs new more n e h = (0, refl, omega arith)
  serve_round-ends c true true later ok new more n e h =
      let (k, same, few) = h e in
      (suc k, ap (behind (copied ∷ report ∷ [])) same, omega (arith, few))

  serve-ends :
      (c : Answered) (rounds : List (HandlerRound Double))
      → AreValid rounds
      → stops rounds ≡ true
      → IsEnding c (length rounds) (serve c rounds)
  unfolding serve
  serve-ends c [] v e = absurd (ground arith)
  serve-ends c (round ∷ rest) v e =
      let (status, new, copy, _, _, _) = copy_to_buffer_refines round.data_info v.0 in
      rw copy (
        serve_round-ends c (round.running && round.handler_running) round.still_running (stops rest)
          status new (serve c rest) (length rest) e (serve-ends c rest v.1))

  -- The life of a handler whose client has sent a request, where the calls of `write` send the welcome
  -- message and the sampling rate (a 32 bit word), `pthread_create`, `close` and `pthread_join`
  -- succeed, the buffer is valid in every round, and in some round the daemon or the sender has
  -- stopped: the thread returns. If it has accepted the request it has created its sender, registered,
  -- copied at most as many blocks as there are rounds and reported each, unregistered, told its sender
  -- to stop, closed the connection, joined the sender, and released the buffer and its arguments, each
  -- once and in this order; if it has refused, it has closed the connection and released the buffer
  -- and its arguments.
  pub handler_thread_main-life :
      (device sampling_rate : ℕ) (stream : List ℕ) (in₁ in₂ out₁ out₂ : List Answer) (c : Answered)
      (rounds : List (HandlerRound Double)) (accepts : Bool)
      → decision (read_request device stream in₁ in₂) ≡ some accepts
      → sampling_rate < 2 ^ 32
      → Departs 17 out₁
      → Departs 4 out₂
      → c.creates ≡ true
      → c.closes ≡ true
      → c.joins ≡ true
      → AreValid rounds
      → stops rounds ≡ true
      → (k : ℕ) × (handler_thread_main device sampling_rate stream in₁ in₂ out₁ out₂ c rounds
          ≡ record { effects = whole_life accepts k; finish = returns_null })
        × (k ≤ length rounds)
  unfolding handler_thread_main
  handler_thread_main-life device rate stream in₁ in₂ out₁ out₂ c rounds accepts decided small d₁ d₂
        creates closes joins v e =
      let (k, served, few) = serve-ends c rounds v e in
      let welcomed = write_welcome-ending rate out₁ out₂ small d₁ d₂ in
      let life = ap (behind (copies_of k)) (finally-served c closes joins).0 in
      let rest = served ∙ life in
      (
        k,
        rw welcomed (
            behind_request-life c (serve c rounds) (read_request device stream in₁ in₂) accepts k
              creates decided rest (finally-served c closes joins).1),
        few,
      )
