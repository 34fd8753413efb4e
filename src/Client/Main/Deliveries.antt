-- ===== src/Client/Main/Deliveries.antt =====
-- The data sets that a client gets, and the rows that it has to print of them.
use pm_lab_tools.Prelude.{
  ℕ, suc, ◌-◌, ◌*◌, ◌^◌, ◌<◌, ◌≤◌, ◌≡◌, refl, ap, true, none, some, List, [], ◌∷◌, ◌++◌, arith,
  ◌==◌, if◌then◌else◌, length, Bool-cases, inl, inr,
}
use pm_lab_tools.Prelude.Int.{pos}
use pm_lab_tools.Utils.{Answer, returned}
use pm_lab_tools.Utils.Read.{Arrives}
use pm_lab_tools.Protocol.{magic_data_set, DataSet, Protobuf}
use pm_lab_tools.Protocol.Words.{htonl}
use pm_lab_tools.Handler.Dataset.{data_set, write_dataset}
use pm_lab_tools.Handler.Sending.{length-framed, write_dataset-framed}
use pm_lab_tools.Client.Read.{Block}
use pm_lab_tools.Client.Channels.{filled, AreBelow}
use pm_lab_tools.Client.RoundTrip.{received, pm_read-write_dataset}
use pm_lab_tools.Client.Connect.{PmHandle, pm_handle_magic_number}
use pm_lab_tools.Client.Main.{
  Row, rows_from, Output, Turn, buffer_sizes, goes_on, behind_block, behind_read, read_block,
}
use pm_lab_tools.Client.Main.Printed.{device_rows, rows_from-filled}

-- A data set: what `write_dataset` is given, what the system answers to its calls of `write`, and the
-- number that it returns; and the round of the client that reads it.
pub record Delivery (Double : Type 0) : Type 0 where
  pub len : ℕ
  pub timestamp : ℕ
  pub analog : List Double
  pub digital : List ℕ
  pub out₁ : List Answer
  pub out₂ : List Answer
  pub out₃ : List Answer
  pub count : ℕ
  pub turn : Turn

-- An output with rows in front of it.
abbrev pub behind_rows : {Double : Type 0} → List (Row Double) → Output Double → Output Double
behind_rows rows o = record { rows = rows ++ o.rows; exit = o.exit; resources = o.resources }

module _ {Double : Type 0} (pb : Protobuf Double) (ids : List ℕ) where
  abbrev pub message : Delivery Double → DataSet Double
  message d = data_set ids d.len d.timestamp d.analog d.digital

  -- The bytes of the data sets.
  abbrev pub wire : List (Delivery Double) → List ℕ
  wire [] = []
  wire (d ∷ later) =
      (write_dataset pb ids d.len d.timestamp d.analog d.digital d.out₁ d.out₂ d.out₃).sent
      ++ wire later

  -- The rows that are to be printed of a data set: one for each of its samples, if there are channels.
  abbrev pub rows_of : ℕ → Delivery Double → List (Row Double)
  rows_of rate d =
      device_rows d.len d.timestamp rate d.analog ids 0 (if length ids == 0 then 0 else d.len)

  abbrev pub printed : ℕ → List (Delivery Double) → List (Row Double)
  printed rate [] = []
  printed rate (d ∷ later) = rows_of rate d ++ printed rate later

  module _ (num_channels : ℕ) where
    -- A data set fits into its types and the buffers, is sent whole, and its bytes, which have others
    -- behind them, come in.
    pub record IsServed (d : Delivery Double) (behind : List ℕ) : Type 0 where
      pub below : AreBelow num_channels ids
      pub analog_whole : num_channels * d.len ≤ length d.analog
      pub digital_whole : num_channels * d.len ≤ length d.digital
      pub small : num_channels * d.len < 2 ^ 32
      pub room : length ids * d.len ≤ buffer_sizes
      pub in_time : d.timestamp < 2 ^ 64
      pub some_there : 0 < pb.get_packed_size (message d)
      pub packed_small : pb.get_packed_size (message d) < 2 ^ 32
      pub sent :
          (write_dataset pb ids d.len d.timestamp d.analog d.digital d.out₁ d.out₂ d.out₃).ending
          ≡ returned (pos d.count)
      pub runs : d.turn.running ≡ true
      pub magic_in :
          Arrives 21
            (length (
              magic_data_set
              ++ (htonl (pb.get_packed_size (message d)) ++ (pb.pack (message d) ++ behind))))
            d.turn.in₁
      pub size_in :
          Arrives 4
            (length (htonl (pb.get_packed_size (message d)) ++ (pb.pack (message d) ++ behind)))
            d.turn.in₂
      pub body_in :
          Arrives
            (pb.get_packed_size (message d))
            (length (pb.pack (message d) ++ behind))
            d.turn.in₃

    abbrev pub AreServed : List (Delivery Double) → List ℕ → Type 0
    AreServed [] behind = Unit
    AreServed (d ∷ later) behind = IsServed d (wire later ++ behind) × AreServed later behind

    -- A data set that is sent has a positive number of bytes.
    pub count-suc :
        (d : Delivery Double) (behind : List ℕ) → IsServed d behind → (m : ℕ) × (d.count ≡ suc m)
    count-suc d behind s =
        let (sent, count, int) =
          write_dataset-framed pb ids d.len d.timestamp d.analog d.digital d.out₁ d.out₂ d.out₃
            d.count s.packed_small s.sent in
        let size = length-framed pb (message d) in
        let positive : 0 < d.count = ground (arith, count, int, size) in
        (d.count - 1, omega (arith, positive))

    -- A read of a data set.
    pub read_block-served :
        (h : PmHandle) (d : Delivery Double) (behind : List ℕ) (buffer : List Double)
        → h.magic_number ≡ pm_handle_magic_number
        → IsServed d behind
        → let w = write_dataset pb ids d.len d.timestamp d.analog d.digital d.out₁ d.out₂ d.out₃ in
          behind_read (read_block pb h buffer (w.sent ++ behind) d.turn)
          ≡ goes_on (filled d.len d.analog ids buffer) (
              received
                (pos d.count)
                d.len
                ids
                d.timestamp
                d.analog
                d.digital
                (some buffer)
                none
                behind)
    read_block-served h d behind buffer magic s =
        let read =
          pm_read-write_dataset (some buffer) none pb num_channels buffer_sizes ids d.len
            d.timestamp d.analog d.digital d.out₁ d.out₂ d.out₃ d.turn.in₁ d.turn.in₂ d.turn.in₃
            behind d.count s.below s.analog_whole s.digital_whole s.small s.room
            (ground (arith, s.room)) s.in_time s.some_there s.packed_small s.sent s.magic_in
            s.size_in s.body_in in
        let (m, positive) = count-suc d behind s in
        let got = filled d.len d.analog ids buffer in
        let block_of : ℕ → Block Double = λ n.
          received (pos n) d.len ids d.timestamp d.analog d.digital (some buffer) none behind in
        rw (magic, read) (ap (λ n. behind_block (pos n) (some got) (block_of d.count)) positive)

    pub rows_of-filled :
        (rate : ℕ) (d : Delivery Double) (behind : List ℕ) (buffer : List Double)
        → IsServed d behind
        → let n = if length ids == 0 then 0 else d.len in
          rows_from (filled d.len d.analog ids buffer) d.timestamp rate (length ids) n 0 n
          ≡ rows_of rate d
    unfolding rows_from device_rows
    rows_of-filled rate d behind buffer s = elim (Bool-cases (length ids == 0)) [
      | inl nothing ↦ rw nothing refl
      | inr some_there ↦ rw some_there (
          rows_from-filled num_channels d.len d.timestamp rate d.analog _ ids 0 d.len s.analog_whole
            s.below (omega arith))
    ]
