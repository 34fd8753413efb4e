-- ===== src/Tests/Untrusted.antt =====
-- A data set of two channels in the bytes that a client has read, into arrays of six elements.
use pm_lab_tools.Prelude.{ℕ, ◌≤◌, ◌≡◌, refl, some, List, [], ◌∷◌, arith, length}
use pm_lab_tools.Prelude.Int.{pos}
use pm_lab_tools.Utils.{ReadBack, returned}
use pm_lab_tools.Protocol.{DataSet}
use pm_lab_tools.Client.Read.{Block, copy_channels, unpack_block}
use pm_lab_tools.Client.Untrusted.{over, analog_samples, digital_samples, unpack_block-over}
use pm_lab_tools.Tests.Codec.{list_codec}

abbrev bytes : ReadBack
bytes = record {
  buffer = 9 ∷ 2 ∷ 2 ∷ 2 ∷ 10 ∷ 20 ∷ 1 ∷ 0 ∷ 2 ∷ 2 ∷ 30 ∷ 40 ∷ 0 ∷ 1 ∷ [];
  left = 7 ∷ [];
  ending = returned (pos 14);
}

abbrev sent : DataSet ℕ
sent = record {
  timestamp_nanos = 9;
  channel_data =
      record { analog_data = 10 ∷ 20 ∷ []; digital_data = 1 ∷ 0 ∷ [] }
      ∷ record { analog_data = 30 ∷ 40 ∷ []; digital_data = 0 ∷ 1 ∷ [] }
      ∷ [];
}

abbrev zeros : List ℕ
zeros = 0 ∷ 0 ∷ 0 ∷ 0 ∷ 0 ∷ 0 ∷ []

abbrev got : Block ℕ
got = record {
  result = pos 39;
  analog = some (10 ∷ 20 ∷ 30 ∷ 40 ∷ 0 ∷ 0 ∷ []);
  digital = some (1 ∷ 0 ∷ 0 ∷ 1 ∷ 0 ∷ 0 ∷ []);
  samples_read = 2;
  timestamp_nanos = 9;
  left = 7 ∷ [];
}

unpack_block-over_example :
    let samples = analog_samples sent.channel_data in
    let digits = digital_samples sent.channel_data in
    (length samples ≤ 5)
    × (length digits ≡ length samples)
    × (got.analog ≡ some (over samples zeros))
    × (got.digital ≡ some (over digits zeros))
    × (length (over samples zeros) ≡ length zeros)
    × (length (over digits zeros) ≡ length zeros)
    × (got.timestamp_nanos ≡ sent.timestamp_nanos)
    × (got.left ≡ bytes.left)
unfolding copy_channels unpack_block
unpack_block-over_example =
    unpack_block-over list_codec 5 zeros zeros 39 bytes sent got refl (omega arith) (omega arith)
      (omega arith) refl
