-- ===== src/Acquisition/Device/Calls.antt =====
-- Which calls `ni_thread_main` makes of the device, from what the device answers.
use pm_lab_tools.Prelude.{
  ℕ, suc, ◌≡◌, refl, ap, ◌∙◌, inl, inr, Bool, true, false, ◌&&◌, none, some, List, [], ◌∷◌, ◌++◌,
  arith, length, if◌then◌else◌, Bool-cases,
}
use pm_lab_tools.Prelude.Int.{ℤ, pos, negsuc}
use pm_lab_tools.Acquisition.{next_timestamp}
use pm_lab_tools.Acquisition.Device.{
  Call, create_task, create_channel, configure_timing, start_task, read_samples, error_info,
  stop_task, clear_task, DataAcqInfo, is_failed, init_ni, read_ni, finish_ni, Round, Acquired,
  acquire, ni_thread_main,
}

-- A call and what the device answers to it.
pub record Answer : Type 0 where
  pub call : Call
  pub code : ℤ

abbrev answer : Call → ℤ → Answer
answer call code = record { call = call; code = code }

-- The reads that the rounds ask for: one for each round, as long as the daemon runs.
abbrev pub reads_of : List Round → List Answer
reads_of [] = []
reads_of (round ∷ rest) =
    if round.on && round.still_on then answer read_samples round.code ∷ reads_of rest else []

-- All that may be asked: the calls of `init_ni`, then the reads.
abbrev pub asked : ℤ → ℤ → ℤ → ℤ → List Round → List Answer
asked created channel timing started rounds =
    answer create_task created
    ∷ answer create_channel channel
    ∷ answer configure_timing timing
    ∷ answer start_task started
    ∷ reads_of rounds

-- The answers up to the first that is an error, which is one of them.
abbrev pub until_failed : List Answer → List Answer
until_failed [] = []
until_failed (a ∷ rest) = a ∷ (if is_failed a.code then [] else until_failed rest)

abbrev pub any_failed : List Answer → Bool
any_failed [] = false
any_failed (a ∷ rest) = if is_failed a.code then true else any_failed rest

-- The calls, the latest first, on top of earlier ones.
abbrev pub onto : List Answer → List Call → List Call
onto [] calls = calls
onto (a ∷ rest) calls = onto rest (a.call ∷ calls)

-- How many reads were answered without an error.
abbrev is_read : Call → Bool
is_read read_samples = true
is_read _ = false

abbrev pub reads_done : List Answer → ℕ
reads_done [] = 0
reads_done (a ∷ rest) =
    if is_read a.call
    then (if is_failed a.code then reads_done rest else suc (reads_done rest))
    else reads_done rest

-- The question about an error.
abbrev pub error_calls : Bool → List Call
error_calls failed = if failed then error_info ∷ [] else []

acquire-failed :
    (sampling_rate : ℕ) (rounds : List Round) (timestamp : ℕ) (dai : DataAcqInfo)
    → dai.failed ≡ true
    → ((acquire sampling_rate rounds timestamp dai).published ≡ [])
      × ((acquire sampling_rate rounds timestamp dai).dai ≡ dai)
unfolding acquire read_ni
acquire-failed sampling_rate [] timestamp dai e = (refl, refl)
acquire-failed sampling_rate (round ∷ rest) timestamp dai e = (ground arith, ground arith)

module _ (dai : DataAcqInfo) (sound : dai.failed ≡ false) where
  abbrev read_by : ℤ → Bool → DataAcqInfo
  read_by code failed = record { failed = failed; error = code; calls = read_samples ∷ dai.calls }

  read_ni-bad :
      (code : ℤ) (points_pc : ℕ)
      → is_failed code ≡ true
      → read_ni code points_pc dai ≡ (none, read_by code true)
  unfolding read_ni
  read_ni-bad code points_pc bad = rw (sound, bad) refl

  read_ni-good :
      (code : ℤ) (points_pc : ℕ)
      → is_failed code ≡ false
      → read_ni code points_pc dai ≡ (some points_pc, read_by code false)
  unfolding read_ni
  read_ni-good code points_pc good = simp (sound, good)

  module _ (sampling_rate : ℕ) (round : Round) (rest : List Round) (timestamp : ℕ) where
    acquire-off :
        (round.on && round.still_on) ≡ false
        → let after : Acquired = record { dai = dai; published = []; stops = false } in
          acquire sampling_rate (round ∷ rest) timestamp dai ≡ after
    unfolding acquire
    acquire-off off = rw off refl

    acquire-bad :
        (round.on && round.still_on) ≡ true
        → is_failed round.code ≡ true
        → let after : Acquired = record {
          dai = read_by round.code true;
          published = [];
          stops = true;
        } in
          acquire sampling_rate (round ∷ rest) timestamp dai ≡ after
    unfolding acquire
    acquire-bad on bad = simp (on, read_ni-bad round.code round.points_pc bad)

    acquire-good :
        (round.on && round.still_on) ≡ true
        → is_failed round.code ≡ false
        → let later = next_timestamp sampling_rate timestamp round.points_pc in
          let more = acquire sampling_rate rest later (read_by round.code false) in
          let after : Acquired = record {
            dai = more.dai;
            published = (later, round.points_pc) ∷ more.published;
            stops = more.stops;
          } in
          acquire sampling_rate (round ∷ rest) timestamp dai ≡ after
    unfolding acquire
    acquire-good on good = simp (on, read_ni-good round.code round.points_pc good)

-- What the loop has done: its calls, whether its error is one, how much it has published.
abbrev Asks : Acquired → List Answer → List Call → Type 0
Asks a made calls =
    (a.dai.calls ≡ onto made calls)
    × (is_failed a.dai.error ≡ any_failed made)
    × (length a.published ≡ reads_done made)

acquire-Asks :
    (sampling_rate : ℕ) (rounds : List Round) (timestamp : ℕ) (dai : DataAcqInfo)
    → dai.failed ≡ false
    → is_failed dai.error ≡ false
    → Asks (acquire sampling_rate rounds timestamp dai) (until_failed (reads_of rounds)) dai.calls
unfolding acquire
acquire-Asks sampling_rate [] timestamp dai e fine = (refl, fine, refl)
acquire-Asks sampling_rate (round ∷ rest) timestamp dai e fine =
    elim (Bool-cases (round.on && round.still_on)) [
      | inl on ↦ elim (Bool-cases (is_failed round.code)) [
        | inl bad ↦
            rw (acquire-bad dai e sampling_rate round rest timestamp on bad, on, bad)
              (refl, refl, refl)
        | inr good ↦
            let later = next_timestamp sampling_rate timestamp round.points_pc in
            let dai₁ = read_by dai e round.code false in
            let (calls, error, count) = acquire-Asks sampling_rate rest later dai₁ refl good in
            rw (acquire-good dai e sampling_rate round rest timestamp on good, on, good)
              (calls, error, ap suc count)
      ]
      | inr off ↦
          rw (acquire-off dai e sampling_rate round rest timestamp off, off) (refl, fine, refl)
    ]

-- Behind a failed `init_ni` the loop asks for nothing.
failed-Asks :
    (sampling_rate : ℕ) (rounds : List Round) (n : ℕ) (calls : List Call)
    → let dai : DataAcqInfo = record { failed = true; error = negsuc n; calls = calls } in
      let a = acquire sampling_rate rounds 0 dai in
      (a.dai.calls ≡ calls) × (is_failed a.dai.error ≡ true) × (length a.published ≡ 0)
failed-Asks sampling_rate rounds n calls =
    let dai : DataAcqInfo = record { failed = true; error = negsuc n; calls = calls } in
    let (empty, same) = acquire-failed sampling_rate rounds 0 dai refl in
    rw (empty, same) (refl, refl, refl)

start-Asks :
    (sampling_rate : ℕ) (created channel timing started : ℤ) (rounds : List Round)
    → Asks
        (acquire sampling_rate rounds 0 (init_ni created channel timing started))
        (until_failed (asked created channel timing started rounds))
        []
unfolding init_ni
start-Asks rate (pos a) (pos b) (pos c) (pos d) rounds = acquire-Asks rate rounds 0 _ refl refl
start-Asks rate (negsuc a) channel timing started rounds =
    failed-Asks rate rounds a (create_task ∷ [])
start-Asks rate (pos a) (negsuc b) timing started rounds =
    failed-Asks rate rounds b (create_channel ∷ create_task ∷ [])
start-Asks rate (pos a) (pos b) (negsuc c) started rounds =
    failed-Asks rate rounds c (configure_timing ∷ create_channel ∷ create_task ∷ [])
start-Asks rate (pos a) (pos b) (pos c) (negsuc d) rounds =
    failed-Asks rate rounds d (start_task ∷ configure_timing ∷ create_channel ∷ create_task ∷ [])

error_calls-lem :
    (error : ℤ) (calls : List Call)
    → (if is_failed error then error_info ∷ calls else calls)
      ≡ error_calls (is_failed error) ++ calls
error_calls-lem (pos n) calls = refl
error_calls-lem (negsuc n) calls = refl

-- The calls of the thread, from the answers of the device and the rounds in which the daemon runs:
-- the four of `init_ni` and one read for each such round, in this order, up to the first that is
-- answered by an error, and no further; then a question about the error, if there was one; then the
-- task is stopped and cleared, once each. One block is published for each read without an error.
pub ni_thread_main-calls :
    (sampling_rate : ℕ) (created channel timing started : ℤ) (rounds : List Round)
    → let made = until_failed (asked created channel timing started rounds) in
      let end = ni_thread_main sampling_rate created channel timing started rounds in
      (end.dai.calls ≡ clear_task ∷ stop_task ∷ (error_calls (any_failed made) ++ onto made []))
      × (length end.published ≡ reads_done made)
unfolding ni_thread_main finish_ni
ni_thread_main-calls sampling_rate created channel timing started rounds =
    let end = acquire sampling_rate rounds 0 (init_ni created channel timing started) in
    let (calls, error, count) = start-Asks sampling_rate created channel timing started rounds in
    (
      ap (λ c. clear_task ∷ stop_task ∷ c)
          (error_calls-lem end.dai.error end.dai.calls ∙ rw (error, calls) refl),
      count,
    )
