-- ===== src/Client/RoundTrip.antt =====
-- `pm_read` at the other end of a connection from `write_dataset`.
use mathlib.Core.Option
use pm_lab_tools.Prelude.{
  ℕ, ◌+◌, ◌*◌, ◌^◌, ◌≤◌, ◌<◌, ◌≡◌, refl, sym, ap, ◌∙◌, inl, Option, some, List, ◌++◌, arith, ◌==◌,
  if◌then◌else◌, length, map, take, drop, append_assoc, take-append, drop-append,
}
use pm_lab_tools.Prelude.Int.{ℤ, pos, to_int32}
use pm_lab_tools.Utils.{Answer, Ending, returned, ReadBack, full_read}
use pm_lab_tools.Utils.Read.{Arrives, full_read-total}
use pm_lab_tools.Protocol.{magic_data_set, DataSet, as_bool, Protobuf}
use pm_lab_tools.Protocol.Words.{htonl, ntohl, length-htonl, ntohl-htonl}
use pm_lab_tools.Handler.Dataset.{data_set, write_dataset}
use pm_lab_tools.Handler.Sending.{framed, length-framed, write_dataset-framed}
use pm_lab_tools.Client.Channels.{filled, AreBelow, copy_channels-data_set, after_channels-filled}
use pm_lab_tools.Client.Read.{
  Copied, Block, Reading, block, crashed, after_read, equal_bytes, copy_channels, unpack_block,
  pm_read,
}

module _ {Double : Type 0} where
  -- What `pm_read` gives the caller of a data set for the channels `ids`.
  abbrev pub received :
      ℤ
      → ℕ
      → List ℕ
      → ℕ
      → List Double
      → List ℕ
      → Option (List Double)
      → Option (List ℕ)
      → List ℕ
      → Block Double
  received result len channel_ids timestamp analog digital analog_data digital_data left = record {
    result = result;
    analog = Option.map (filled len analog channel_ids) analog_data;
    digital = Option.map (filled len (map as_bool digital) channel_ids) digital_data;
    samples_read = if length channel_ids == 0 then 0 else len;
    timestamp_nanos = timestamp;
    left = left;
  }

  -- A `full_read` that gets its bytes goes on with them.
  after_read-Arrives :
      (size : ℕ) (bytes more : List ℕ) (answers : List Answer) (next : ReadBack → Reading Double)
      → length bytes ≡ size
      → 0 < size
      → size < 2 ^ 31
      → Arrives size (length (bytes ++ more)) answers
      → after_read size (full_read size (bytes ++ more) answers) next
        ≡ next (record { buffer = bytes; left = more; ending = returned (pos size) })
  after_read-Arrives size bytes more answers next e some_there small a =
      let first : take size (bytes ++ more) ≡ bytes =
        ap (λ k. take k (bytes ++ more)) (sym e) ∙ take-append bytes more in
      let others : drop size (bytes ++ more) ≡ more =
        ap (λ k. drop k (bytes ++ more)) (sym e) ∙ drop-append bytes more in
      rw (full_read-total size (bytes ++ more) answers (omega arith) a.0 a.1, first, others)
        (ground arith)

-- The caller's arrays.
module _ {Double : Type 0} (analog_data : Option (List Double))
    (digital_data : Option (List ℕ)) where
  unpack_block-some :
      (pb : Protobuf Double) (buffer_sizes ret : ℕ) (r : ReadBack) (msg : DataSet Double)
      (c : Copied Double)
      → pb.unpack r.buffer ≡ some msg
      → copy_channels buffer_sizes msg.channel_data
          (record { analog = analog_data; digital = digital_data; offset = 0; samples_read = 0 })
        ≡ some c
      → unpack_block pb buffer_sizes analog_data digital_data ret r
        ≡ block (record {
          result = to_int32 ret;
          analog = c.analog;
          digital = c.digital;
          samples_read = c.samples_read;
          timestamp_nanos = msg.timestamp_nanos;
          left = r.left;
        })
  unfolding unpack_block
  unpack_block-some pb buffer_sizes ret r msg c e f = ground (arith, e, f)

  unpack_block-data_set :
      (pb : Protobuf Double) (num_channels buffer_sizes ret : ℕ) (channel_ids : List ℕ)
      (len timestamp : ℕ) (analog : List Double) (digital left : List ℕ) (z : ℤ) (ending : Ending)
      → AreBelow num_channels channel_ids
      → num_channels * len ≤ length analog
      → num_channels * len ≤ length digital
      → num_channels * len < 2 ^ 32
      → length channel_ids * len ≤ buffer_sizes
      → length channel_ids * len < 2 ^ 32
      → timestamp < 2 ^ 64
      → to_int32 ret ≡ z
      → unpack_block pb buffer_sizes analog_data digital_data ret (record {
        buffer = pb.pack (data_set channel_ids len timestamp analog digital);
        left = left;
        ending = ending;
      })
        ≡ block (received z len channel_ids timestamp analog digital analog_data digital_data left)
  unfolding data_set
  unpack_block-data_set pb num_channels buffer_sizes ret channel_ids len timestamp analog digital
        left z ending b la ld w room fit t result =
      let start : Copied Double = record {
        analog = analog_data;
        digital = digital_data;
        offset = 0;
        samples_read = 0;
      } in
      let all =
        copy_channels-data_set num_channels buffer_sizes len analog digital channel_ids start b la
          ld w (omega arith) (omega arith) (inl refl) in
      let (a, d, count) =
        after_channels-filled num_channels len analog digital channel_ids analog_data digital_data b
          la ld in
      unpack_block-some pb buffer_sizes ret _ _ _
        (pb.unpack-pack (data_set channel_ids len timestamp analog digital) t) all
      ∙ (λ i. block (record {
        result = result i;
        analog = a i;
        digital = d i;
        samples_read = count i;
        timestamp_nanos = timestamp;
        left = left;
      }))

  -- The three reads of `pm_read` from a framed message.
  pm_read-framed :
      (pb : Protobuf Double) (buffer_sizes : ℕ) (msg : DataSet Double) (behind : List ℕ)
      (in₁ in₂ in₃ : List Answer)
      → let size = pb.get_packed_size msg in
        let body = pb.pack msg ++ behind in
        0 < size
        → size < 2 ^ 31
        → Arrives 21 (length (magic_data_set ++ (htonl size ++ body))) in₁
        → Arrives 4 (length (htonl size ++ body)) in₂
        → Arrives size (length body) in₃
        → pm_read pb buffer_sizes analog_data digital_data (framed pb msg ++ behind) in₁ in₂ in₃
          ≡ unpack_block pb buffer_sizes analog_data digital_data
              (21 + 4 + size)
              (record { buffer = pb.pack msg; left = behind; ending = returned (pos size) })
  unfolding pm_read framed magic_data_set
  pm_read-framed pb buffer_sizes msg behind in₁ in₂ in₃ some_there small a₁ a₂ a₃ =
      let size = pb.get_packed_size msg in
      let body = pb.pack msg ++ behind in
      let cut : framed pb msg ++ behind ≡ magic_data_set ++ (htonl size ++ body) =
        append_assoc magic_data_set _ behind
        ∙ ap (◌++◌ magic_data_set) (append_assoc (htonl size) (pb.pack msg) behind) in
      let unpacked : ReadBack → Reading Double =
        λ r₃. unpack_block pb buffer_sizes analog_data digital_data (21 + 4 + size) r₃ in
      let sized : ReadBack → Reading Double = λ r₂.
        let msg_len = ntohl r₂.buffer in
        after_read msg_len (full_read msg_len r₂.left in₃)
          λ r₃. unpack_block pb buffer_sizes analog_data digital_data (21 + 4 + msg_len) r₃ in
      let tested : ReadBack → Reading Double = λ r₁.
        if equal_bytes magic_data_set r₁.buffer
        then after_read 4 (full_read 4 r₁.left in₂) sized
        else crashed in
      let got : List ℕ → List ℕ → ℕ → ReadBack =
        λ bytes more n. record { buffer = bytes; left = more; ending = returned (pos n) } in
      let second : tested (got magic_data_set (htonl size ++ body) 21)
          ≡ sized (got (htonl size) body 4) =
        after_read-Arrives 4 (htonl size) body in₂ sized (length-htonl size) (omega arith)
          (omega arith) a₂ in
      let third : sized (got (htonl size) body 4) ≡ unpacked (got (pb.pack msg) behind size) =
        rw (ntohl-htonl size (omega arith)) (
          after_read-Arrives size (pb.pack msg) behind in₃ unpacked (pb.length-pack msg) some_there
            small a₃) in
      ap (λ stream. pm_read pb buffer_sizes analog_data digital_data stream in₁ in₂ in₃) cut
      ∙ after_read-Arrives 21 magic_data_set (htonl size ++ body) in₁ tested refl (omega arith)
          (omega arith) a₁
      ∙ second
      ∙ third

  -- A client reads what `write_dataset` has sent it. The client asked for channels of the device and
  -- has room for their samples; the arrays of the daemon hold all samples of the device, in numbers
  -- that fit into an `unsigned int`, as does the number of samples asked for; the timestamp fits into
  -- 64 bits; `write_dataset` returned a number n that is not negative, the packed message takes from
  -- 1 to 2^32 - 1 bytes, and the calls of `read` give the bytes of the message, a part at a time.
  -- Then `pm_read` returns n; the caller's arrays begin with the samples of the channels, in the
  -- order in which they were asked for, each digital value as 0 or 1, and are otherwise as they were;
  -- and the caller gets the number of samples for each channel (0 if there is no channel) and the
  -- timestamp; an array that is NULL stays so. What comes behind the message is left in the stream.
  -- No assertion fails.
  pub pm_read-write_dataset :
      (pb : Protobuf Double) (num_channels buffer_sizes : ℕ) (channel_ids : List ℕ)
      (len timestamp : ℕ) (analog : List Double) (digital : List ℕ)
      (out₁ out₂ out₃ in₁ in₂ in₃ : List Answer) (behind : List ℕ) (n : ℕ)
      → let w = write_dataset pb channel_ids len timestamp analog digital out₁ out₂ out₃ in
        let msg = data_set channel_ids len timestamp analog digital in
        let size = pb.get_packed_size msg in
        let body = pb.pack msg ++ behind in
        AreBelow num_channels channel_ids
        → num_channels * len ≤ length analog
        → num_channels * len ≤ length digital
        → num_channels * len < 2 ^ 32
        → length channel_ids * len ≤ buffer_sizes
        → length channel_ids * len < 2 ^ 32
        → timestamp < 2 ^ 64
        → 0 < size
        → size < 2 ^ 32
        → w.ending ≡ returned (pos n)
        → Arrives 21 (length (magic_data_set ++ (htonl size ++ body))) in₁
        → Arrives 4 (length (htonl size ++ body)) in₂
        → Arrives size (length body) in₃
        → pm_read pb buffer_sizes analog_data digital_data (w.sent ++ behind) in₁ in₂ in₃
          ≡ block (
              received
                (pos n)
                len
                channel_ids
                timestamp
                analog
                digital
                analog_data
                digital_data
                behind)
  pm_read-write_dataset pb num_channels buffer_sizes channel_ids len timestamp analog digital out₁
        out₂ out₃ in₁ in₂ in₃ behind n b la ld w room fit t some_there small done a₁ a₂ a₃ =
      let msg = data_set channel_ids len timestamp analog digital in
      let (sent, count, int) =
        write_dataset-framed pb channel_ids len timestamp analog digital out₁ out₂ out₃ n small
          done in
      ap (λ bytes. pm_read pb buffer_sizes analog_data digital_data (bytes ++ behind) in₁ in₂ in₃)
        sent
      ∙ pm_read-framed pb buffer_sizes msg behind in₁ in₂ in₃ some_there int a₁ a₂ a₃
      ∙ unpack_block-data_set pb num_channels buffer_sizes (21 + 4 + pb.get_packed_size msg)
          channel_ids len timestamp analog digital behind (pos n) _ b la ld w room fit t
          (ap to_int32 (sym (length-framed pb msg)) ∙ sym count)
