-- ===== src/Client/Read.antt =====
-- client/libpmlab.c, `pm_read`: one block of samples from the network into the caller's buffers.
use mathlib.Core.Option
use pm_lab_tools.Prelude.{
  ℕ, ◌+◌, ◌-◌, suc, ◌%◌, ◌^◌, Bool, true, false, ◌&&◌, ◌||◌, Option, none, some, List, [], ◌∷◌,
  ◌++◌, ◌==◌, leb, if◌then◌else◌, length, take, drop,
}
use pm_lab_tools.Prelude.Int.{ℤ, pos, negsuc, to_int32}
use pm_lab_tools.Utils.{Answer, returned, aborted, blocked, ReadBack, full_read}
use pm_lab_tools.Protocol.{magic_data_set, DataPoints, Protobuf}
use pm_lab_tools.Protocol.Words.{ntohl}
use pm_lab_tools.Handler.Dataset.{to_int}

-- The state of the loop over the channels: the caller's two arrays, where he gave any, `offset` and
-- `samples_read`.
pub record Copied (Double : Type 0) : Type 0 where
  pub analog : Option (List Double)
  pub digital : Option (List ℕ)
  pub offset : ℕ
  pub samples_read : ℕ

-- What a call that gets a block returns, the caller's arrays and variables after it, and what it
-- leaves of the stream.
pub record Block (Double : Type 0) : Type 0 where
  pub result : ℤ
  pub analog : Option (List Double)
  pub digital : Option (List ℕ)
  pub samples_read : ℕ
  pub timestamp_nanos : ℕ
  pub left : List ℕ

-- The end of `pm_read`: 0 for a connection that is closed, a block, a failed assertion (or a NULL
-- pointer that is followed), or none yet.
pub data Reading (Double : Type 0) : Type 0 where
  closed : Reading Double
  block : Block Double → Reading Double
  crashed : Reading Double
  waits : Reading Double

-- `full_read` of `size` bytes into `err`, an `int`, which is 0 at the end of the file and else has to
-- be the size, compared as an unsigned number.
abbrev pub after_read :
    {Double : Type 0} → ℕ → ReadBack → (ReadBack → Reading Double) → Reading Double
after_read size r next = elim r.ending [
  | returned z ↦ elim (to_int z) [
    | pos err ↦ if err == 0 then closed else if size == err then next r else crashed
    | negsuc n ↦ if size == 2 ^ 32 - suc n then next r else crashed
  ]
  | aborted ↦ crashed
  | blocked ↦ waits
]

-- `memcpy(buffer + offset, values, ...)` of all the values; the buffer is long enough, which is up
-- to the assertion on `buffer_sizes` and the caller.
abbrev pub write_at {ℓ} : {A : Type ℓ} → ℕ → List A → List A → List A
write_at offset values buffer =
    take offset buffer ++ (values ++ drop (offset + length values) buffer)

abbrev pub equal_bytes : List ℕ → List ℕ → Bool
equal_bytes [] [] = true
equal_bytes (a ∷ rest) (b ∷ others) = (a == b) && equal_bytes rest others
equal_bytes _ _ = false

module _ {Double : Type 0} where
  -- The loop over `msg_ds->channel_data`; `none` is a failed assertion. `offset` is an
  -- `unsigned int`.
  unfoldable pub copy_channels :
      ℕ → List (DataPoints Double) → Copied Double → Option (Copied Double)
  copy_channels buffer_sizes [] c = some c
  copy_channels buffer_sizes (points ∷ rest) c =
      let n_samples = length points.analog_data in
      let more = copy_channels buffer_sizes rest (record {
        analog = Option.map (write_at c.offset points.analog_data) c.analog;
        digital = Option.map (write_at c.offset (take n_samples points.digital_data)) c.digital;
        offset = (c.offset + n_samples) % 2 ^ 32;
        samples_read = n_samples;
      }) in
      if (n_samples == length points.digital_data)
        && leb ((c.offset + n_samples) % 2 ^ 32) buffer_sizes
        && (c.samples_read == 0 || n_samples == c.samples_read)
      then more
      else none

  -- The part of `pm_read` behind the reads, of which `r` is the last.
  unfoldable pub unpack_block :
      Protobuf Double → ℕ → Option (List Double) → Option (List ℕ) → ℕ → ReadBack → Reading Double
  unpack_block pb buffer_sizes analog_data digital_data ret r = elim (pb.unpack r.buffer) [
    | none ↦ crashed
    | some msg_ds ↦
        elim (copy_channels buffer_sizes msg_ds.channel_data
          (record { analog = analog_data; digital = digital_data; offset = 0; samples_read = 0 })) [
            | none ↦ crashed
            | some c ↦ block (record {
              result = to_int32 ret;
              analog = c.analog;
              digital = c.digital;
              samples_read = c.samples_read;
              timestamp_nanos = msg_ds.timestamp_nanos;
              left = r.left;
            })
          ]
  ]

  -- `pm_read` into two arrays, each of which may be NULL, given the bytes that the daemon sends and the answers that each of its three
  -- `full_read`s gets from the system.
  unfoldable pub pm_read :
      Protobuf Double
      → ℕ
      → Option (List Double)
      → Option (List ℕ)
      → List ℕ
      → List Answer
      → List Answer
      → List Answer
      → Reading Double
  unfolding unpack_block
  pm_read pb buffer_sizes analog_data digital_data stream in₁ in₂ in₃ =
      after_read (length magic_data_set) (full_read (length magic_data_set) stream in₁) λ r₁.
        if equal_bytes magic_data_set r₁.buffer
        then (after_read 4 (full_read 4 r₁.left in₂) λ r₂.
            let msg_len = ntohl r₂.buffer in
            after_read msg_len (full_read msg_len r₂.left in₃) λ r₃.
              unpack_block pb buffer_sizes analog_data digital_data
                (length magic_data_set + 4 + msg_len) r₃)
        else crashed
