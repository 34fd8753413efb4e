-- ===== src/Acquisition/Device/Timestamps.antt =====
-- The timestamps of the blocks that `ni_thread_main` publishes.
use pm_lab_tools.Prelude.{
  ℕ, zero, suc, ◌+◌, ◌*◌, ◌^◌, ◌≤◌, ◌<◌, ◌≡◌, refl, sym, ap, subst, ◌∙◌, inl, inr, ◌&&◌, some, List,
  [], ◌∷◌, arith, length, get_elem?, take, map, Bool-cases, Option-cases,
}
use pm_lab_tools.Prelude.Int.{ℤ}
use pm_lab_tools.Sync.Timeout.{time_s}
use pm_lab_tools.Acquisition.{timestamp_after, points_read, timestamp_after-points_read}
use pm_lab_tools.Acquisition.Device.{DataAcqInfo, init_ni, read_ni, Round, acquire, ni_thread_main}

-- The points of the blocks that are published first, the latest first, on those of earlier blocks.
abbrev points_to : List (ℕ × ℕ) → List ℕ → List ℕ
points_to [] earlier = earlier
points_to (block ∷ later) earlier = points_to later (block.1 ∷ earlier)

points_read-points_to :
    (blocks : List (ℕ × ℕ)) (earlier : List ℕ)
    → points_read (points_to blocks earlier)
      ≡ points_read (map (λ b. b.1) blocks) + points_read earlier
points_read-points_to [] earlier = omega arith
points_read-points_to (block ∷ later) earlier =
    omega (arith, points_read-points_to later (block.1 ∷ earlier))

length-points_to :
    (blocks : List (ℕ × ℕ)) (earlier : List ℕ)
    → length (points_to blocks earlier) ≡ length blocks + length earlier
length-points_to [] earlier = omega arith
length-points_to (block ∷ later) earlier = omega (arith, length-points_to later (block.1 ∷ earlier))

-- Blocks with the timestamps that they have after so many points of earlier blocks.
stamped : ℕ → List ℕ → List ℕ → List (ℕ × ℕ)
stamped sampling_rate earlier [] = []
stamped sampling_rate earlier (points_pc ∷ later) =
    (timestamp_after sampling_rate (points_pc ∷ earlier), points_pc)
    ∷ stamped sampling_rate (points_pc ∷ earlier) later

stamped-timestamp :
    (sampling_rate : ℕ) (points earlier : List ℕ) (k : ℕ) (block : ℕ × ℕ)
    → get_elem? (stamped sampling_rate earlier points) k ≡ some block
    → let before = take (suc k) (stamped sampling_rate earlier points) in
      (block.0 ≡ timestamp_after sampling_rate (points_to before earlier)) × (length before ≡ suc k)
unfolding stamped
stamped-timestamp rate [] earlier k block e = ground arith
stamped-timestamp rate (p ∷ later) earlier zero block e = (ground arith, refl)
stamped-timestamp rate (p ∷ later) earlier (suc k) block e =
    let (t, n) = stamped-timestamp rate later (p ∷ earlier) k block e in (t, ap suc n)

acquire-stamped :
    (sampling_rate : ℕ) (rounds : List Round) (earlier : List ℕ) (dai : DataAcqInfo)
    → (points : List ℕ) × ((acquire sampling_rate rounds
          (timestamp_after sampling_rate earlier)
          dai).published
        ≡ stamped sampling_rate earlier points)
unfolding acquire stamped timestamp_after
acquire-stamped rate [] earlier dai = ([], refl)
acquire-stamped rate (round ∷ rest) earlier dai = elim (Bool-cases (round.on && round.still_on)) [
  | inl on ↦ elim (Option-cases (read_ni round.code round.points_pc dai).0) [
    | inl bad ↦ ([], simp (on, bad))
    | inr (p, good) ↦
        let (points, e) =
          acquire-stamped rate rest (p ∷ earlier) (read_ni round.code round.points_pc dai).1 in
        (p ∷ points, rw (on, good) (ap (◌∷◌ (timestamp_after rate (p ∷ earlier), p)) e))
  ]
  | inr off ↦ ([], simp off)
]

stamped-bounds :
    (sampling_rate : ℕ) (points : List ℕ) (k : ℕ) (block : ℕ × ℕ)
    → 0 < sampling_rate
    → get_elem? (stamped sampling_rate [] points) k ≡ some block
    → let total = points_read (map (λ b. b.1) (take (suc k) (stamped sampling_rate [] points))) in
      time_s * total < 2 ^ 64
      → (block.0 * sampling_rate ≤ time_s * total)
        × (time_s * total ≤ (block.0 + suc k) * sampling_rate)
stamped-bounds rate points k block positive e fits =
    let before = take (suc k) (stamped rate [] points) in
    let (t, n) = stamped-timestamp rate points [] k block e in
    let total : points_read (points_to before []) ≡ points_read (map (λ b. b.1) before) =
      points_read-points_to before [] ∙ omega arith in
    let many : length (points_to before []) ≡ suc k =
      omega (arith, length-points_to before [], n) in
    let (low, high) =
      timestamp_after-points_read rate (points_to before []) positive (rw total fits) in
    let t' = timestamp_after rate (points_to before []) in
    let near =
      subst (λ n. time_s * points_read (points_to before []) ≤ (t' + n) * rate) many high in
    rw⁻¹ total (rw t (low, near))

-- The timestamp of a published block is not ahead of the time that its points and those of the blocks
-- before it take at the sampling rate, and behind it by at most a nanosecond for each of these blocks,
-- for a positive sampling rate and as long as these points take less than 2^64 nanoseconds.
pub ni_thread_main-timestamps :
    (sampling_rate : ℕ) (created channel timing started : ℤ) (rounds : List Round) (k : ℕ)
    (block : ℕ × ℕ)
    → let published =
        (ni_thread_main sampling_rate created channel timing started rounds).published in
      let points = points_read (map (λ b. b.1) (take (suc k) published)) in
      0 < sampling_rate
      → get_elem? published k ≡ some block
      → time_s * points < 2 ^ 64
      → (block.0 * sampling_rate ≤ time_s * points)
        × (time_s * points ≤ (block.0 + suc k) * sampling_rate)
unfolding ni_thread_main timestamp_after
ni_thread_main-timestamps rate created channel timing started rounds k block positive e fits =
    let (points, stamps) =
      acquire-stamped rate rounds [] (init_ni created channel timing started) in
    subst
      (λ published.
        let total = points_read (map (λ b. b.1) (take (suc k) published)) in
        get_elem? published k ≡ some block
        → time_s * total < 2 ^ 64
        → (block.0 * rate ≤ time_s * total) × (time_s * total ≤ (block.0 + suc k) * rate))
      (sym stamps) (λ at_k fits. stamped-bounds rate points k block positive at_k fits) e fits
