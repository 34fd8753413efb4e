-- ===== src/Client/Main.antt =====
-- client/pmlabclient.c, `main`. What it prints is a list of rows, and the messages of its ends are the
-- ends themselves.
pub mod Printed
pub mod Deliveries
pub mod Session
use mathlib.Core.Option
use pm_lab_tools.Prelude.{
  ℕ, zero, suc, ◌+◌, ◌-◌, ◌*◌, Bool, true, false, Option, none, some, List, [], ◌∷◌, ◌++◌, ◌==◌,
  leb, if◌then◌else◌, length, get_elem?, take, drop,
}
use pm_lab_tools.Prelude.Int.{ℤ, pos, negsuc}
use pm_lab_tools.Utils.{Answer}
use pm_lab_tools.Protocol.{Protobuf}
use pm_lab_tools.Client.Read.{Block, Reading, closed, block, crashed, waits, pm_read}
use pm_lab_tools.Client.Connect.{
  PmHandle, pm_handle_magic_number, Resources, Address, Opened, null, opened, asserts, Opening,
  Answers, pm_connect, pm_samplingrate, pm_close,
}
use pm_lab_tools.Client.Choice.{parse_channels, all_channels}

-- A line of the output: the number of its sample, the timestamp of the block and the sampling rate, out
-- of which `printf` makes a `double`, and the values. A value out of the array is none.
pub record Row (Double : Type 0) : Type 0 where
  pub sample : ℕ
  pub timestamp : ℕ
  pub sampling_rate : ℕ
  pub values : List (Option Double)

module _ {Double : Type 0} where
  -- The inner loop, from column j on, with `left` columns to go.
  unfoldable pub row_values : List Double → ℕ → ℕ → ℕ → ℕ → List (Option Double)
  row_values analog_data sample_count i j zero = []
  row_values analog_data sample_count i j (suc left) =
      get_elem? analog_data (i + j * sample_count)
      ∷ row_values analog_data sample_count i (suc j) left

  -- The loop over the samples, from sample i on, with `left` samples to go.
  unfoldable pub rows_from : List Double → ℕ → ℕ → ℕ → ℕ → ℕ → ℕ → List (Row Double)
  rows_from analog_data timestamp rate num_channels sample_count i zero = []
  rows_from analog_data timestamp rate num_channels sample_count i (suc left) =
      record {
        sample = i;
        timestamp = timestamp;
        sampling_rate = rate;
        values = row_values analog_data sample_count i 0 num_channels;
      }
      ∷ rows_from analog_data timestamp rate num_channels sample_count (suc i) left

-- How `main` ends: by `exit` with a failure, or by its return; or an assertion fails, or it waits for
-- the daemon. The wait for a block is also the end of the rounds that are looked at.
pub data Exit : Type 0 where
  usage : Exit
  connect_failed : Exit
  server_closed : Exit
  read_error : Exit
  finished : Exit
  aborts : Exit
  waiting : Exit

pub record Output (Double : Type 0) : Type 0 where
  pub rows : List (Row Double)
  pub exit : Exit
  pub resources : Resources

-- One round of the loop: `running` at its test, and what the system answers to the reads.
pub record Turn : Type 0 where
  pub running : Bool
  pub in₁ : List Answer
  pub in₂ : List Answer
  pub in₃ : List Answer

-- `pm_close` and then the given end.
abbrev pub behind_close : {Double : Type 0} → Resources → Exit → Option Resources → Output Double
behind_close r exit none = record { rows = []; exit = aborts; resources = r }
behind_close r exit (some resources) = record { rows = []; exit = exit; resources = resources }

abbrev pub close_and : {Double : Type 0} → PmHandle → Resources → Exit → Output Double
close_and h r exit = behind_close r exit (pm_close h r)

-- What `main` does behind a `pm_read`: it prints a block, or closes the connection and exits, or does
-- not get there.
pub data Next (Double : Type 0) : Type 0 where
  goes_on : List Double → Block Double → Next Double
  closes : Exit → Next Double
  stops : Exit → Next Double

-- The tests of the result of `pm_read`, and the array that it was given.
abbrev pub behind_block : {Double : Type 0} → ℤ → Option (List Double) → Block Double → Next Double
behind_block (pos zero) analog b = closes server_closed
behind_block (pos (suc n)) (some analog) b = goes_on analog b
behind_block (pos (suc n)) none b = stops aborts
behind_block (negsuc n) analog b = closes read_error

abbrev pub behind_read : {Double : Type 0} → Reading Double → Next Double
behind_read closed = closes server_closed
behind_read (block b) = behind_block b.result b.analog b
behind_read crashed = stops aborts
behind_read waits = stops waiting

-- `chosen_channels` before `parse_channels`.
abbrev pub no_channels : List ℕ
no_channels = 0 ∷ 0 ∷ 0 ∷ 0 ∷ 0 ∷ 0 ∷ 0 ∷ 0 ∷ []

-- `BUFFER_SIZES`
abbrev pub buffer_sizes : ℕ
buffer_sizes = 400_000

module _ {Double : Type 0} (pb : Protobuf Double) where
  -- `pm_read` on a handle, with NULL for the digital data.
  abbrev pub read_block : PmHandle → List Double → List ℕ → Turn → Reading Double
  read_block h analog_data stream turn =
      if pm_handle_magic_number == h.magic_number
      then pm_read pb buffer_sizes (some analog_data) none stream turn.in₁ turn.in₂ turn.in₃
      else crashed

  -- The loop of `main`, on the bytes that the daemon sends.
  unfoldable pub read_forever :
      PmHandle → ℕ → List Turn → List ℕ → List Double → Resources → Output Double
  read_forever h num_channels [] stream analog_data r = record {
    rows = [];
    exit = waiting;
    resources = r;
  }
  read_forever h num_channels (turn ∷ turns) stream analog_data r = elim turn.running [
    | false ↦ close_and h r finished
    | true ↦ elim (behind_read (read_block h analog_data stream turn)) [
      | closes exit ↦ close_and h r exit
      | stops exit ↦ record { rows = []; exit = exit; resources = r }
      | goes_on analog b ↦
          let more = read_forever h num_channels turns b.left analog r in
          record {
            rows =
                rows_from analog b.timestamp_nanos (pm_samplingrate h) num_channels b.samples_read 0
                  b.samples_read
                ++ more.rows;
            exit = more.exit;
            resources = more.resources;
          }
    ]
  ]

  -- `main` behind `pm_connect`.
  abbrev pub behind_connect : ℕ → List Turn → List Double → Resources → Opened → Output Double
  behind_connect num_channels turns analog_data r null = record {
    rows = [];
    exit = connect_failed;
    resources = r;
  }
  behind_connect num_channels turns analog_data r (opened h left) =
      read_forever h num_channels turns left analog_data r
  behind_connect num_channels turns analog_data r asserts = record {
    rows = [];
    exit = aborts;
    resources = r;
  }
  behind_connect num_channels turns analog_data r Opened.waits = record {
    rows = [];
    exit = waiting;
    resources = r;
  }

  -- `main` behind `parse_channels`, which gives the number of the channels and the array of them; a
  -- ninth channel is stored behind the array, and is the end here.
  abbrev pub behind_parse :
      List ℕ
      → List ℕ
      → (List ℕ → List ℕ → Option (List Address))
      → Answers
      → List Turn
      → List Double
      → Resources
      → Option (ℕ × List ℕ)
      → Output Double
  behind_parse server port getaddrinfo io turns analog_data r none = record {
    rows = [];
    exit = aborts;
    resources = r;
  }
  behind_parse server port getaddrinfo io turns analog_data r (some (num_channels, chosen)) =
      let o =
        pm_connect (some server) (some port) (some (take num_channels chosen)) getaddrinfo io r in
      behind_connect num_channels turns analog_data o.resources o.outcome

  -- `main`, with the name of the program and its arguments. The array `analog_data` starts with the
  -- given values.
  unfoldable pub main :
      List (List ℕ)
      → (List ℕ → List ℕ → Option (List Address))
      → Answers
      → List Turn
      → List Double
      → Resources
      → Output Double
  main (program ∷ server ∷ port ∷ channel ∷ more) getaddrinfo io turns analog_data r =
      behind_parse server port getaddrinfo io turns analog_data r
        (parse_channels (channel ∷ more) 8 all_channels no_channels)
  main _ getaddrinfo io turns analog_data r = record { rows = []; exit = usage; resources = r }
