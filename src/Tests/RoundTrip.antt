-- ===== src/Tests/RoundTrip.antt =====
-- One data set from the daemon to a client.
use pm_lab_tools.Prelude.{ℕ, some, ◌≡◌, refl, List, [], ◌∷◌, ◌++◌, arith}
use pm_lab_tools.Prelude.Int.{pos}
use pm_lab_tools.Utils.{Answer, moved, interrupted, full_write_loop, full_write}
use pm_lab_tools.Protocol.{magic_data_set}
use pm_lab_tools.Protocol.Words.{htonl}
use pm_lab_tools.Handler.Dataset.{encode_datapoints, data_set, write_dataset}
use pm_lab_tools.Client.Read.{block, pm_read}
use pm_lab_tools.Client.RoundTrip.{pm_read-write_dataset}
use pm_lab_tools.Tests.Codec.{list_codec}

-- Two channels of two samples.
abbrev pub analog : List ℕ
analog = 1 ∷ 2 ∷ 3 ∷ 4 ∷ []

abbrev pub digital : List ℕ
digital = 5 ∷ 0 ∷ 0 ∷ 1 ∷ []

abbrev pub channel_ids : List ℕ
channel_ids = 1 ∷ 0 ∷ []

abbrev pub out₁ : List Answer
out₁ = moved 20 ∷ moved 1 ∷ []

abbrev pub out₂ : List Answer
out₂ = moved 4 ∷ []

abbrev pub out₃ : List Answer
out₃ = interrupted ∷ moved 14 ∷ []

abbrev pub in₁ : List Answer
in₁ = moved 1 ∷ interrupted ∷ moved 20 ∷ []

abbrev pub in₂ : List Answer
in₂ = moved 3 ∷ moved 1 ∷ []

abbrev pub in₃ : List Answer
in₃ = moved 14 ∷ []

-- The 5 of channel 0 arrives as 1.
pm_read-write_dataset_example :
    pm_read list_codec 5
      (some (7 ∷ 7 ∷ 7 ∷ 7 ∷ 7 ∷ []))
      (some (8 ∷ 8 ∷ 8 ∷ 8 ∷ 8 ∷ []))
      ((write_dataset list_codec channel_ids 2 9 analog digital out₁ out₂ out₃).sent ++ 84 ∷ [])
      in₁
      in₂
      in₃
    ≡ block (record {
      result = pos 39;
      analog = some (3 ∷ 4 ∷ 1 ∷ 2 ∷ 7 ∷ []);
      digital = some (0 ∷ 1 ∷ 1 ∷ 0 ∷ 8 ∷ []);
      samples_read = 2;
      timestamp_nanos = 9;
      left = 84 ∷ [];
    })
unfolding write_dataset data_set encode_datapoints full_write full_write_loop htonl magic_data_set
pm_read-write_dataset_example =
    pm_read-write_dataset (some (7 ∷ 7 ∷ 7 ∷ 7 ∷ 7 ∷ [])) (some (8 ∷ 8 ∷ 8 ∷ 8 ∷ 8 ∷ [])) list_codec
      2 5 channel_ids 2 9 analog digital out₁ out₂ out₃ in₁ in₂ in₃ (84 ∷ []) 39 (omega arith)
      (omega arith) (omega arith) (omega arith) (omega arith) (omega arith) (omega arith)
      (omega arith) (omega arith) refl (omega arith) (omega arith) (omega arith)
