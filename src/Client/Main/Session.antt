-- ===== src/Client/Main/Session.antt =====
-- A whole run of the client, on the data sets that `write_dataset` sends.
use pm_lab_tools.Prelude.{
  ℕ, ◌≡◌, refl, sym, ap, ◌∙◌, false, Option, some, List, [], ◌∷◌, ◌++◌, length, map, take,
  append_assoc, append-nil,
}
use pm_lab_tools.Protocol.{Protobuf}
use pm_lab_tools.Handler.Dataset.{write_dataset}
use pm_lab_tools.Client.Channels.{filled}
use pm_lab_tools.Client.Connect.{
  PmHandle, pm_handle_magic_number, Resources, Address, opened, Answers, pm_connect,
  pm_samplingrate, pm_close,
}
use pm_lab_tools.Client.Main.{
  Turn, finished, behind_close, close_and, behind_parse, behind_connect, no_channels, read_forever,
  main,
}
use pm_lab_tools.Client.Choice.{parse_channels, all_channels}
use pm_lab_tools.Client.Connect.Held.{pm_close-pm_connect, pm_connect-magic}
use pm_lab_tools.Client.Main.Deliveries.{
  Delivery, wire, IsServed, AreServed, rows_of, printed, behind_rows, read_block-served,
  rows_of-filled,
}

module _ {Double : Type 0} (pb : Protobuf Double) (ids : List ℕ) (num_channels : ℕ) where
  read_forever-served :
      (h : PmHandle) (d : Delivery Double) (turns : List Turn) (behind : List ℕ)
      (buffer : List Double) (r : Resources)
      → h.magic_number ≡ pm_handle_magic_number
      → IsServed pb ids num_channels d behind
      → let w = write_dataset pb ids d.len d.timestamp d.analog d.digital d.out₁ d.out₂ d.out₃ in
        let more =
          read_forever pb h (length ids) turns behind (filled d.len d.analog ids buffer) r in
        read_forever pb h (length ids) (d.turn ∷ turns) (w.sent ++ behind) buffer r
        ≡ behind_rows (rows_of pb ids (pm_samplingrate h) d) more
  unfolding read_forever
  read_forever-served h d turns behind buffer r magic s =
      let read = read_block-served pb ids num_channels h d behind buffer magic s in
      let rows = rows_of-filled pb ids num_channels (pm_samplingrate h) d behind buffer s in
      let more = read_forever pb h (length ids) turns behind (filled d.len d.analog ids buffer) r in
      rw (s.runs, read) (λ i. behind_rows (rows i) more)

  -- Where the data sets come in, the client prints their rows, and goes on behind them.
  read_forever-all :
      (h : PmHandle) (all : List (Delivery Double)) (turns : List Turn) (behind : List ℕ)
      (buffer : List Double) (r : Resources)
      → h.magic_number ≡ pm_handle_magic_number
      → AreServed pb ids num_channels all behind
      → (last : List Double) × (read_forever pb h
            (length ids)
            (map (λ d. d.turn) all ++ turns)
            (wire pb ids all ++ behind)
            buffer
            r
          ≡ behind_rows
              (printed pb ids (pm_samplingrate h) all)
              (read_forever pb h (length ids) turns behind last r))
  read_forever-all h [] turns behind buffer r magic s = (buffer, refl)
  read_forever-all h (d ∷ later) turns behind buffer r magic s =
      let got = filled d.len d.analog ids buffer in
      let rest = map (λ d. d.turn) later ++ turns in
      let (last, all) = read_forever-all h later turns behind got r magic s.1 in
      let w = write_dataset pb ids d.len d.timestamp d.analog d.digital d.out₁ d.out₂ d.out₃ in
      let first = rows_of pb ids (pm_samplingrate h) d in
      let more = read_forever pb h (length ids) turns behind last r in
      (
        last,
        ap (λ bytes. read_forever pb h (length ids) (d.turn ∷ rest) bytes buffer r)
              (append_assoc w.sent (wire pb ids later) behind)
            ∙ read_forever-served h d rest (wire pb ids later ++ behind) buffer r magic s.0
            ∙ ap (behind_rows first) all
            ∙ ap (λ rows. record { rows = rows; exit = more.exit; resources = more.resources })
                (sym (append_assoc first (printed pb ids (pm_samplingrate h) later) more.rows)),
      )

  stopped :
      (h : PmHandle) (stop : Turn) (turns : List Turn) (stream : List ℕ) (buffer : List Double)
      (r : Resources)
      → stop.running ≡ false
      → read_forever pb h (length ids) (stop ∷ turns) stream buffer r ≡ close_and h r finished
  unfolding read_forever
  stopped h stop turns stream buffer r e = rw e refl

  -- A run of the client. It is started with a server, a port and at least one more argument, the
  -- channels that `parse_channels` finds are `ids`, and `pm_connect` returns a handle. Data sets for
  -- these channels come in, one after the other, each of which fits into its types and the buffers and
  -- was sent whole; behind them the client is stopped. Then it has printed exactly their rows, in their
  -- order: row i of a data set has sample i of each of the channels, in the order of the command line,
  -- with the timestamp of the data set and the sampling rate of the handle. It returns, and holds what
  -- it held before.
  pub main-prints :
      (program server port channel : List ℕ) (more : List (List ℕ))
      (getaddrinfo : List ℕ → List ℕ → Option (List Address)) (io : Answers) (chosen : List ℕ)
      (all : List (Delivery Double)) (stop : Turn) (turns : List Turn) (behind : List ℕ)
      (buffer : List Double) (r : Resources) (h : PmHandle)
      → parse_channels (channel ∷ more) 8 all_channels no_channels ≡ some (length ids, chosen)
      → take (length ids) chosen ≡ ids
      → (pm_connect (some server) (some port) (some ids) getaddrinfo io r).outcome
        ≡ opened h (wire pb ids all ++ behind)
      → AreServed pb ids num_channels all behind
      → stop.running ≡ false
      → main pb
          (program ∷ server ∷ port ∷ channel ∷ more)
          getaddrinfo
          io
          (map (λ d. d.turn) all ++ (stop ∷ turns))
          buffer
          r
        ≡ record { rows = printed pb ids (pm_samplingrate h) all; exit = finished; resources = r }
  unfolding main
  main-prints program server port channel more getaddrinfo io chosen all stop turns behind buffer r
        h parsed same opens served stops =
      let o = pm_connect (some server) (some port) (some ids) getaddrinfo io r in
      let rounds = map (λ d. d.turn) all ++ (stop ∷ turns) in
      let magic = pm_connect-magic server port ids getaddrinfo io r h _ opens in
      let (last, run) =
        read_forever-all h all (stop ∷ turns) behind buffer o.resources magic served in
      let closes : pm_close h o.resources ≡ some r =
        pm_close-pm_connect server port ids getaddrinfo io r h (wire pb ids all ++ behind) opens in
      let rows = printed pb ids (pm_samplingrate h) all in
      ap (behind_parse pb server port getaddrinfo io rounds buffer r) parsed
      ∙ ap
          (λ c.
            let at = pm_connect (some server) (some port) (some c) getaddrinfo io r in
            behind_connect pb (length ids) rounds buffer at.resources at.outcome)
          same
      ∙ ap (behind_connect pb (length ids) rounds buffer o.resources) opens
      ∙ run
      ∙ ap (behind_rows rows) (
          stopped h stop turns behind last o.resources stops
          ∙ ap (behind_close o.resources finished) closes)
      ∙ ap (λ l. record { rows = l; exit = finished; resources = r }) (append-nil rows)
