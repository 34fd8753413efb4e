-- ===== src/Client/Main/Printed.antt =====
-- What the client prints of the blocks that the daemon sends.
use pm_lab_tools.Prelude.{
  ℕ, zero, suc, ◌+◌, ◌*◌, ◌<◌, ◌≤◌, ◌≡◌, refl, sym, ap, ◌∙◌, List, [], ◌∷◌, ◌++◌, arith, length,
  get_elem?, take, drop, map, length-append, append_assoc, get_elem?-left, get_elem?-right,
  get_elem?-take, get_elem?-drop,
}
use pm_lab_tools.Client.Channels.{gather, AreBelow, length-slice}
use pm_lab_tools.Client.Main.{Row, row_values, rows_from}

-- The rows of a block: row i has for each channel its sample i, out of an array with `len` samples for
-- each channel of the device.
module _ {Double : Type 0} (len timestamp rate : ℕ) (analog : List Double) (ids : List ℕ) where
  abbrev pub device_row : ℕ → Row Double
  device_row i = record {
    sample = i;
    timestamp = timestamp;
    sampling_rate = rate;
    values = map (λ id. get_elem? analog (id * len + i)) ids;
  }

  unfoldable pub device_rows : ℕ → ℕ → List (Row Double)
  device_rows i zero = []
  device_rows i (suc left) = device_row i ∷ device_rows (suc i) left

module _ {Double : Type 0} (num_channels len : ℕ) (analog : List Double)
    (whole : num_channels * len ≤ length analog) (i : ℕ) (inside : i < len) where
  -- The columns from j on, where those before fill up the front.
  row_values-gather :
      (ids : List ℕ) (front rest : List Double) (j : ℕ)
      → AreBelow num_channels ids
      → length front ≡ j * len
      → row_values (front ++ (gather len analog ids ++ rest)) len i j (length ids)
        ≡ map (λ id. get_elem? analog (id * len + i)) ids
  unfolding row_values
  row_values-gather [] front rest j b size = refl
  row_values-gather (id ∷ ids) front rest j b size =
      let slice = take len (drop (id * len) analog) in
      let others = gather len analog ids in
      let full = length-slice analog id num_channels len b.0 whole in
      let place : i + j * len ≡ length front + i = omega arith in
      let cut : (slice ++ others) ++ rest ≡ slice ++ (others ++ rest) =
        append_assoc slice others rest in
      let here : get_elem? (front ++ ((slice ++ others) ++ rest)) (i + j * len)
          ≡ get_elem? analog (id * len + i) =
        ap (get_elem? (front ++ ((slice ++ others) ++ rest))) place
        ∙ get_elem?-right front ((slice ++ others) ++ rest) i
        ∙ ap (λ l. get_elem? l i) cut
        ∙ get_elem?-left slice (others ++ rest) i (omega (arith, full))
        ∙ get_elem?-take len (drop (id * len) analog) i inside
        ∙ get_elem?-drop (id * len) analog i in
      let wider : length (front ++ slice) ≡ suc j * len =
        omega (arith, length-append front slice, full) in
      let moved : front ++ ((slice ++ others) ++ rest) ≡ (front ++ slice) ++ (others ++ rest) =
        ap (λ l. front ++ l) cut ∙ sym (append_assoc front slice (others ++ rest)) in
      let later =
        ap (λ l. row_values l len i (suc j) (length ids)) moved
        ∙ row_values-gather ids (front ++ slice) rest (suc j) b.1 wider in
      λ k. here k ∷ later k

  row_values-filled :
      (ids : List ℕ) (rest : List Double)
      → AreBelow num_channels ids
      → row_values (gather len analog ids ++ rest) len i 0 (length ids)
        ≡ map (λ id. get_elem? analog (id * len + i)) ids
  row_values-filled ids rest b = row_values-gather ids [] rest 0 b (omega arith)

-- The rows that are printed of an array that begins with the samples of the channels.
pub rows_from-filled :
    {Double : Type 0} (num_channels len timestamp rate : ℕ) (analog rest : List Double)
    (ids : List ℕ) (i left : ℕ)
    → num_channels * len ≤ length analog
    → AreBelow num_channels ids
    → i + left ≤ len
    → rows_from (gather len analog ids ++ rest) timestamp rate (length ids) len i left
      ≡ device_rows len timestamp rate analog ids i left
unfolding rows_from device_rows
rows_from-filled m len timestamp rate analog rest ids i zero whole b h = refl
rows_from-filled m len timestamp rate analog rest ids i (suc left) whole b h =
    let values = row_values-filled m len analog whole i (omega arith) ids rest b in
    let later =
      rows_from-filled m len timestamp rate analog rest ids (suc i) left whole b (omega arith) in
    λ k.
      record { sample = i; timestamp = timestamp; sampling_rate = rate; values = values k }
      ∷ later k
