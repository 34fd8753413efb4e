-- ===== src/Handler/Dataset.antt =====
-- daemon/handler.c, `encode_datapoints` and `write_dataset`: a block of samples on its way to a
-- client.
use pm_lab_tools.Prelude.{
  ℕ, ◌+◌, ◌*◌, ◌%◌, ◌^◌, List, [], ◌==◌, if◌then◌else◌, length, map, take, drop,
}
use pm_lab_tools.Prelude.Int.{ℤ, pos, negsuc, to_int32}
use pm_lab_tools.Utils.{Answer, returned, aborted, blocked, Written, send, full_write}
use pm_lab_tools.Protocol.{magic_data_set, DataPoints, DataSet, Protobuf}
use pm_lab_tools.Protocol.Words.{htonl}

-- A `ssize_t` assigned to an `int`. The system calls give no negative value but -1.
abbrev pub to_int : ℤ → ℤ
to_int (pos n) = to_int32 n
to_int (negsuc n) = negsuc n

-- `err = full_write(...)`, for `size` bytes: `goto finally` for a negative `err`, an assertion that
-- it is the size, and then the rest.
abbrev pub checked : ℕ → Written → (ℕ → Written) → Written
checked size w next = elim w.ending [
  | returned z ↦ elim (to_int z) [
    | pos err ↦
        if size == err then send w.sent (next err) else record { sent = w.sent; ending = aborted }
    | negsuc n ↦ record { sent = w.sent; ending = returned (negsuc n) }
  ]
  | aborted ↦ w
  | blocked ↦ w
]

module _ {Double : Type 0} where
  -- `encode_datapoints`, for the arrays from their first value on.
  unfoldable pub encode_datapoints : ℕ → List Double → List ℕ → DataPoints Double
  encode_datapoints len analog_data digital_data = record {
    analog_data = take len analog_data;
    digital_data = take len digital_data;
  }

  -- The message that `write_dataset` packs; an offset is an `unsigned int`.
  unfoldable pub data_set : List ℕ → ℕ → ℕ → List Double → List ℕ → DataSet Double
  unfolding encode_datapoints
  data_set channel_ids len timestamp analog_data digital_data = record {
    timestamp_nanos = timestamp;
    channel_data =
        map
          (λ id.
            let offset = id * len % 2 ^ 32 in
            encode_datapoints len (drop offset analog_data) (drop offset digital_data))
          channel_ids;
  }

  -- `write_dataset`, with the answers that each of its three `full_write`s gets from the system.
  unfoldable pub write_dataset :
      Protobuf Double
      → List ℕ
      → ℕ
      → ℕ
      → List Double
      → List ℕ
      → List Answer
      → List Answer
      → List Answer
      → Written
  write_dataset pb channel_ids len timestamp analog_data digital_data out₁ out₂ out₃ =
      let msg = data_set channel_ids len timestamp analog_data digital_data in
      let msg_len = pb.get_packed_size msg % 2 ^ 32 in
      checked (length magic_data_set) (full_write magic_data_set out₁) λ err₁.
        checked 4 (full_write (htonl msg_len) out₂) λ err₂.
          checked msg_len (full_write (take msg_len (pb.pack msg)) out₃)
            λ err₃. record { sent = []; ending = returned (to_int32 (err₁ + err₂ + err₃)) }
