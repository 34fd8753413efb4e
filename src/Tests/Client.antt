-- ===== src/Tests/Client.antt =====
-- The client from its connection to its end: it asks for channels 1 and 0, and gets one data set.
use pm_lab_tools.Prelude.{ℕ, ◌≡◌, refl, true, false, Option, none, some, List, [], ◌∷◌, ◌++◌, arith}
use pm_lab_tools.Utils.{full_write, full_write_loop, full_read, full_read_loop}
use pm_lab_tools.Protocol.{codes, magic_data_set, welcome_msg}
use pm_lab_tools.Protocol.Words.{htonl, ntohl, words}
use pm_lab_tools.Protocol.Connection.{write_welcome, send_request, read_answer}
use pm_lab_tools.Handler.Dataset.{encode_datapoints, data_set, write_dataset}
use pm_lab_tools.Client.Choice.{all_channels, parse_channels, parse_loop, channel_of, is_all}
use pm_lab_tools.Client.Connect.{
  PmHandle, pm_handle_magic_number, Resources, Address, opened, Answers, Opening, connect_loop,
  connect_to, talk, pm_connect, pm_close, pm_samplingrate,
}
use pm_lab_tools.Client.Connect.Held.{
  held, is_opened, first_connected, pm_connect-resources, pm_close-pm_connect,
}
use pm_lab_tools.Client.Connect.Welcomed.{pm_connect-write_welcome}
use pm_lab_tools.Client.Main.{Turn, Output, no_channels, main, finished}
use pm_lab_tools.Client.Main.Deliveries.{Delivery, wire, IsServed}
use pm_lab_tools.Client.Main.Printed.{device_rows}
use pm_lab_tools.Client.Main.Session.{main-prints}
use pm_lab_tools.Tests.Codec.{list_codec}
use pm_lab_tools.Tests.Connecting.{in_four, in_eight, in_seventeen}
use pm_lab_tools.Tests.RoundTrip.{analog, digital, channel_ids, out₁, out₂, out₃, in₁, in₂, in₃}

-- The first address has no socket, the second refuses.
abbrev addresses : List Address
addresses =
    record { socket = none; connects = true }
    ∷ record { socket = some 5; connects = false }
    ∷ record { socket = some 6; connects = true }
    ∷ []

abbrev pub resolve : List ℕ → List ℕ → Option (List Address)
resolve server port = some addresses

abbrev pub stop : Turn
stop = record { running = false; in₁ = []; in₂ = []; in₃ = [] }

abbrev pub delivery : Delivery ℕ
delivery = record {
  len = 2;
  timestamp = 9;
  analog = analog;
  digital = digital;
  out₁ = out₁;
  out₂ = out₂;
  out₃ = out₃;
  count = 39;
  turn = record { running = true; in₁ = in₁; in₂ = in₂; in₃ = in₃ };
}

abbrev pub io : Answers
io = record {
  out₁ = in_four;
  out₂ = in_eight;
  stream =
      (write_welcome 18_000 in_seventeen in_four).sent
      ++ (wire list_codec channel_ids (delivery ∷ []) ++ []);
  in₁ = in_seventeen;
  in₂ = in_four;
}

abbrev pub held_before : Resources
held_before = record { sockets = 3 ∷ []; address_lists = 0; handles = 0 }

abbrev held_after : Resources
held_after = record { sockets = 6 ∷ 3 ∷ []; address_lists = 0; handles = 1 }

abbrev pub our_handle : PmHandle
our_handle = record { magic_number = pm_handle_magic_number; sockfd = 6; sampling_rate = 18_000 }

abbrev opening : Opening
opening = pm_connect (some (codes "s")) (some (codes "p")) (some channel_ids) resolve io held_before

the_first : first_connected addresses ≡ some 6
unfolding first_connected
the_first = refl

resources_lem : opening.resources ≡ held_after
unfolding pm_connect connect_to connect_loop talk send_request full_write full_write_loop htonl
    words read_answer full_read full_read_loop write_welcome welcome_msg ntohl
resources_lem = refl

pub outcome_lem :
    opening.outcome ≡ opened our_handle (wire list_codec channel_ids (delivery ∷ []) ++ [])
unfolding pm_connect connect_to connect_loop talk send_request full_write full_write_loop htonl
    words read_answer full_read full_read_loop write_welcome welcome_msg ntohl
outcome_lem = refl

pub parsed_lem :
    parse_channels (codes "ai1" ∷ codes "ai0" ∷ []) 8 all_channels no_channels
    ≡ some (2, 1 ∷ 0 ∷ 0 ∷ 0 ∷ 0 ∷ 0 ∷ 0 ∷ 0 ∷ [])
unfolding parse_channels parse_loop channel_of is_all
parsed_lem = refl

pm_connect-resources_example :
    opening.resources ≡ held (some addresses) (is_opened opening.outcome) held_before
pm_connect-resources_example =
    pm_connect-resources (codes "s") (codes "p") channel_ids resolve io held_before

pm_close-pm_connect_example : pm_close our_handle opening.resources ≡ some held_before
pm_close-pm_connect_example =
    pm_close-pm_connect (codes "s") (codes "p") channel_ids resolve io held_before our_handle _
      outcome_lem

pm_connect-write_welcome_example :
    (h : PmHandle) × (opening.outcome
      ≡ opened h (wire list_codec channel_ids (delivery ∷ []) ++ []))
    × (h.sockfd ≡ 6)
    × (pm_samplingrate h ≡ 18_000)
unfolding welcome_msg htonl words write_dataset data_set encode_datapoints full_write
    full_write_loop magic_data_set
pm_connect-write_welcome_example =
    pm_connect-write_welcome (codes "s") (codes "p") channel_ids resolve addresses 6 18_000
      (wire list_codec channel_ids (delivery ∷ []) ++ []) held_before in_four in_eight in_seventeen
      in_four in_seventeen in_four refl the_first (omega arith) (omega arith) (omega arith)
      (omega arith) (omega arith) (omega arith) (omega arith) (omega arith)

pub is_served : IsServed list_codec channel_ids 2 delivery ([] ++ [])
unfolding write_dataset data_set encode_datapoints full_write full_write_loop htonl magic_data_set
is_served = record {
  below = omega arith;
  analog_whole = omega arith;
  digital_whole = omega arith;
  small = omega arith;
  room = omega arith;
  in_time = omega arith;
  some_there = omega arith;
  packed_small = omega arith;
  sent = refl;
  runs = refl;
  magic_in = omega arith;
  size_in = omega arith;
  body_in = omega arith;
}

-- The samples of channel 1 are 3 and 4, those of channel 0 are 1 and 2.
abbrev expected : Output ℕ
expected = record {
  rows =
      record { sample = 0; timestamp = 9; sampling_rate = 18_000; values = some 3 ∷ some 1 ∷ [] }
      ∷ record { sample = 1; timestamp = 9; sampling_rate = 18_000; values = some 4 ∷ some 2 ∷ [] }
      ∷ [];
  exit = finished;
  resources = held_before;
}

main-prints_example :
    main list_codec
      (codes "pmlabclient" ∷ codes "s" ∷ codes "p" ∷ codes "ai1" ∷ codes "ai0" ∷ [])
      resolve
      io
      (delivery.turn ∷ stop ∷ [])
      (7 ∷ 7 ∷ [])
      held_before
    ≡ expected
unfolding pm_samplingrate device_rows
main-prints_example =
    main-prints list_codec channel_ids 2 (codes "pmlabclient") (codes "s") (codes "p") (codes "ai1")
      (codes "ai0" ∷ []) resolve io _ (delivery ∷ []) stop [] [] (7 ∷ 7 ∷ []) held_before our_handle
      parsed_lem refl outcome_lem (is_served, tt) refl
