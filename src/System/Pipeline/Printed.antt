-- ===== src/System/Pipeline/Printed.antt =====
-- From the device to the output of a client: the daemon with the buffers of its handlers, and a client
-- that gets the data sets of the elements that a sender has taken.
use mathlib.Core.Option
use mathlib.Core.List.{reverse}
use pm_lab_tools.Prelude.{
  ℕ, zero, suc, ◌+◌, ◌*◌, ◌%◌, ◌^◌, ◌<◌, ◌≤◌, ◌≡◌, refl, sym, ap, subst, ◌∙◌, false, Option, some,
  List, [], ◌∷◌, ◌++◌, arith, ◌==◌, if◌then◌else◌, length, take, map, get_elem?, get_elem?-take,
}
use pm_lab_tools.Sync.Sets.{PblSets}
use pm_lab_tools.Protocol.{Protobuf}
use pm_lab_tools.Handler.Buffer.{InputData, copy_input}
use pm_lab_tools.Handler.History.{copies}
use pm_lab_tools.Client.Channels.{AreBelow}
use pm_lab_tools.Client.Choice.{parse_channels, all_channels}
use pm_lab_tools.Client.Connect.{
  PmHandle, Resources, Address, opened, Answers, pm_connect, pm_samplingrate,
}
use pm_lab_tools.Client.Main.{Row, Turn, finished, no_channels, main}
use pm_lab_tools.Client.Main.Printed.{device_rows}
use pm_lab_tools.Client.Main.Deliveries.{Delivery, wire, AreServed, rows_of, printed}
use pm_lab_tools.Client.Main.Session.{main-prints}
use pm_lab_tools.System.Pipeline.{Pipeline, PipelineReach}
use pm_lab_tools.System.Pipeline.Delivered.{taken-published}

-- A list that a function makes in three parts is made of three parts.
map-append_split {ℓ κ} :
    {A : Type ℓ} {B : Type κ} (f : A → B) (xs : List A) (front rest : List B)
    → map f xs ≡ front ++ rest
    → (first others : List A) × (xs ≡ first ++ others)
      × (map f first ≡ front)
      × (map f others ≡ rest)
map-append_split f xs [] rest e = ([], xs, refl, refl, e)
map-append_split f [] (b ∷ front) rest e = absurd (ground arith)
map-append_split f (x ∷ xs) (b ∷ front) rest e =
    let (first, others, split, made, left) = map-append_split f xs front rest (ground arith) in
    let head : f x ≡ b = ground arith in
    (x ∷ first, others, ap (◌∷◌ x) split, (λ i. head i ∷ made i), left)

module _ {Double : Type 0} where
  -- The rows of a block, as the device has measured it.
  abbrev pub block_rows : ℕ → List ℕ → InputData Double → List (Row Double)
  block_rows rate ids b =
      device_rows b.points_per_channel b.timestamp_nanos rate b.analog_data ids 0
        (if length ids == 0 then 0 else b.points_per_channel)

  abbrev pub rows_of_blocks : ℕ → List ℕ → List (InputData Double) → List (Row Double)
  rows_of_blocks rate ids [] = []
  rows_of_blocks rate ids (b ∷ later) = block_rows rate ids b ++ rows_of_blocks rate ids later

  -- The blocks have so many channels, and a number of samples that fits into an `unsigned int`.
  abbrev pub AreMeasured : ℕ → List (InputData Double) → Type 0
  AreMeasured num_channels [] = Unit
  AreMeasured num_channels (b ∷ later) =
      (b.num_channels ≡ num_channels)
      × (num_channels * b.points_per_channel < 2 ^ 32)
      × AreMeasured num_channels later

  AreMeasured-middle :
      (num_channels : ℕ) (before blocks after : List (InputData Double))
      → AreMeasured num_channels (before ++ (blocks ++ after))
      → AreMeasured num_channels blocks
  AreMeasured-middle n [] [] after m = tt
  AreMeasured-middle n [] (b ∷ blocks) after (size, fits, m) =
      (size, fits, AreMeasured-middle n [] blocks after m)
  AreMeasured-middle n (b ∷ before) blocks after (size, fits, m) =
      AreMeasured-middle n before blocks after m

  -- What of an element is sent, and what a data set is made of.
  abbrev pub sent_of : InputData Double → ℕ × ℕ × List Double × List ℕ
  sent_of b = (b.points_per_channel, b.timestamp_nanos, b.analog_data, b.digital_data)

  abbrev pub carried : Delivery Double → ℕ × ℕ × List Double × List ℕ
  carried d = (d.len, d.timestamp, d.analog, d.digital)

  -- Only the samples of the device matter for a row.
  values-take :
      (num_channels len i : ℕ) (analog : List Double) (ids : List ℕ)
      → AreBelow num_channels ids
      → i < len
      → map (λ id. get_elem? (take (num_channels * len) analog) (id * len + i)) ids
        ≡ map (λ id. get_elem? analog (id * len + i)) ids
  values-take n len i analog [] b h = refl
  values-take n len i analog (id ∷ ids) b h =
      let inside : id * len + i < n * len = grind arith in
      let here = get_elem?-take (n * len) analog (id * len + i) inside in
      let later = values-take n len i analog ids b.1 h in λ k. here k ∷ later k

  device_rows-take :
      (num_channels len timestamp rate : ℕ) (analog : List Double) (ids : List ℕ) (i left : ℕ)
      → AreBelow num_channels ids
      → i + left ≤ len
      → device_rows len timestamp rate (take (num_channels * len) analog) ids i left
        ≡ device_rows len timestamp rate analog ids i left
  unfolding device_rows
  device_rows-take n len timestamp rate analog ids i zero b h = refl
  device_rows-take n len timestamp rate analog ids i (suc left) b h =
      let here = values-take n len i analog ids b (omega arith) in
      let later = device_rows-take n len timestamp rate analog ids (suc i) left b (omega arith) in
      λ k.
        record { sample = i; timestamp = timestamp; sampling_rate = rate; values = here k }
        ∷ later k

  block_rows-carried :
      (pb : Protobuf Double) (num_channels rate : ℕ) (ids : List ℕ) (d : Delivery Double)
      (b : InputData Double)
      → AreBelow num_channels ids
      → b.num_channels ≡ num_channels
      → num_channels * b.points_per_channel < 2 ^ 32
      → some (carried d) ≡ Option.map sent_of (some (copy_input b))
      → rows_of pb ids rate d ≡ block_rows rate ids b
  unfolding copy_input
  block_rows-carried pb n rate ids d b below channels fits e =
      let n_samples = if length ids == 0 then 0 else b.points_per_channel in
      let same : carried d ≡ sent_of (copy_input b) = ground arith in
      let len : d.len ≡ b.points_per_channel = ground arith in
      let time : d.timestamp ≡ b.timestamp_nanos = ground arith in
      let whole : b.num_channels * b.points_per_channel % 2 ^ 32 ≡ n * b.points_per_channel =
        rw channels (omega arith) in
      let analog : d.analog ≡ take (n * b.points_per_channel) b.analog_data =
        ap (λ z. z.2) same ∙ ap (λ k. take k b.analog_data) whole in
      (λ i.
        device_rows (len i) (time i) rate (analog i) ids 0 (if length ids == 0 then 0 else len i))
      ∙ device_rows-take n b.points_per_channel b.timestamp_nanos rate b.analog_data ids 0 n_samples
          below (ground arith)

  printed-carried :
      (pb : Protobuf Double) (num_channels rate : ℕ) (ids : List ℕ) (all : List (Delivery Double))
      (blocks : List (InputData Double))
      → AreBelow num_channels ids
      → AreMeasured num_channels blocks
      → map (λ d. some (carried d)) all ≡ map (Option.map sent_of) (copies Double blocks)
      → printed pb ids rate all ≡ rows_of_blocks rate ids blocks
  printed-carried pb n rate ids [] [] below m e = refl
  printed-carried pb n rate ids [] (b ∷ blocks) below m e = absurd (ground arith)
  printed-carried pb n rate ids (d ∷ all) [] below m e = absurd (ground arith)
  printed-carried pb n rate ids (d ∷ all) (b ∷ blocks) below m e =
      let head : some (carried d) ≡ Option.map sent_of (some (copy_input b)) = ground arith in
      let tail : map (λ d. some (carried d)) all ≡ map (Option.map sent_of) (copies Double blocks) =
        ground arith in
      let (channels, fits, measured) = m in
      let here = block_rows-carried pb n rate ids d b below channels fits head in
      let later = printed-carried pb n rate ids all blocks below measured tail in
      λ i. here i ++ later i

  -- From the device to the output. In a reachable state of the daemon with the buffers of its handlers,
  -- every published block of which has `num_channels` channels and fewer than 2^32 samples, a client
  -- gets the data sets of the elements that the sender of a handler has taken. The client is started
  -- with a server, a port and at least one more argument, the channels that `parse_channels` finds are
  -- `ids`, channels of the device, and `pm_connect` returns a handle; each data set fits into its types
  -- and the buffers and was sent whole; behind them the client is stopped. Then there are blocks,
  -- published one right after the other, so that the client has printed exactly their rows in their
  -- order, and of each the samples of the channels that it was asked for, as the device has measured
  -- them; it returns, and holds what it held before.
  pub main-published :
      (lib : PblSets) (pb : Protobuf Double) {p : Pipeline lib Double}
      → PipelineReach lib Double p
      → (t num_channels : ℕ) (ids : List ℕ) (program server port channel : List ℕ)
        (more : List (List ℕ)) (getaddrinfo : List ℕ → List ℕ → Option (List Address))
        (io : Answers) (chosen : List ℕ) (all : List (Delivery Double)) (stop : Turn)
        (turns : List Turn) (behind : List ℕ) (buffer : List Double) (r : Resources) (h : PmHandle)
      → AreMeasured num_channels (reverse p.daemon.published)
      → map (λ d. some (carried d)) all ≡ map (Option.map sent_of) (p.taken t)
      → AreBelow num_channels ids
      → parse_channels (channel ∷ more) 8 all_channels no_channels ≡ some (length ids, chosen)
      → take (length ids) chosen ≡ ids
      → (pm_connect (some server) (some port) (some ids) getaddrinfo io r).outcome
        ≡ opened h (wire pb ids all ++ behind)
      → AreServed pb ids num_channels all behind
      → stop.running ≡ false
      → (before blocks after : List (InputData Double)) × (reverse p.daemon.published
          ≡ before ++ (blocks ++ after))
        × (main pb
              (program ∷ server ∷ port ∷ channel ∷ more)
              getaddrinfo
              io
              (map (λ d. d.turn) all ++ (stop ∷ turns))
              buffer
              r
            ≡ record {
              rows = rows_of_blocks (pm_samplingrate h) ids blocks;
              exit = finished;
              resources = r;
            })
  main-published lib pb {p} reach t n ids program server port channel more getaddrinfo io chosen all
        stop turns behind buffer r h measured same below parsed take_ids opens served stops =
      let (front, rest, e) = taken-published lib Double reach t in
      let (before, others, split, _, left) =
        map-append_split (λ input. some (copy_input input)) (reverse p.daemon.published) front
          (p.taken t ++ rest) e in
      let (blocks, after, cut, made, _) =
        map-append_split (λ input. some (copy_input input)) others (p.taken t) rest left in
      let whole = split ∙ ap (λ l. before ++ l) cut in
      let fits = AreMeasured-middle n before blocks after (subst (AreMeasured n) whole measured) in
      let rows =
        printed-carried pb n (pm_samplingrate h) ids all blocks below fits
          (same ∙ ap (map (Option.map sent_of)) (sym made)) in
      (
        before,
        blocks,
        after,
        whole,
        main-prints pb ids n program server port channel more getaddrinfo io chosen all stop turns
              behind buffer r h parsed take_ids opens served stops
            ∙ ap (λ l. record { rows = l; exit = finished; resources = r }) rows,
      )
