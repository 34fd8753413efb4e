-- ===== src/Client/Untrusted.antt =====
-- client/libpmlab.c, `pm_read` behind the reads, for whatever data set it has been sent.
use mathlib.Core.Option
use pm_lab_tools.Prelude.{
  drop-add, length-append, length-drop, ℕ, ◌+◌, ◌%◌, ◌^◌, ◌≤◌, ◌<◌, ◌≡◌, refl, sym, ap, ◌∙◌, ◌⊎◌,
  Bool, true, false, ◌&&◌, ◌||◌, Option, none, some, List, [], ◌∷◌, ◌++◌, arith, ◌==◌,
  if◌then◌else◌, leb, length, take, drop, append_assoc, inl, inr,
}
use pm_lab_tools.Utils.{ReadBack}
use pm_lab_tools.Protocol.{DataPoints, DataSet, Protobuf}
use pm_lab_tools.Client.Read.{write_at, Copied, copy_channels, Block, block, unpack_block}
use pm_lab_tools.Client.Channels.{write_at-append, take-whole}

-- The array of the caller behind the loop.
abbrev pub over {ℓ} : {A : Type ℓ} → List A → List A → List A
over values array = values ++ drop (length values) array

length-over {ℓ} :
    {A : Type ℓ} (values array : List A)
    → length values ≤ length array
    → length (over values array) ≡ length array
length-over values array room =
    omega
      (arith, length-append values (drop (length values) array), length-drop (length values) array)

over-append {ℓ} :
    {A : Type ℓ} (done values more array : List A)
    → (done ++ values) ++ over more (drop (length values) array)
      ≡ done ++ over (values ++ more) array
over-append done values more array =
    append_assoc done values (over more (drop (length values) array))
    ∙ ap (◌++◌ done) (
        rw (drop-add (length values) (length more) array, length-append values more)
          (sym (append_assoc values more (drop (length values + length more) array))))

module _ {Double : Type 0} where
  -- The samples of all channels of a message, one channel after the other.
  abbrev pub analog_samples : List (DataPoints Double) → List Double
  analog_samples [] = []
  analog_samples (points ∷ rest) = points.analog_data ++ analog_samples rest

  abbrev pub digital_samples : List (DataPoints Double) → List ℕ
  digital_samples [] = []
  digital_samples (points ∷ rest) = points.digital_data ++ digital_samples rest

  -- The state of the loop behind some samples.
  abbrev at_offset : List Double → List Double → List ℕ → List ℕ → ℕ → Copied Double
  at_offset done array digital digital_array n = record {
    analog = some (done ++ array);
    digital = some (digital ++ digital_array);
    offset = length done;
    samples_read = n;
  }

  -- The tests on a channel, and the state behind it.
  abbrev passes : ℕ → DataPoints Double → Copied Double → Bool
  passes size points c =
      (length points.analog_data == length points.digital_data)
      && leb ((c.offset + length points.analog_data) % 2 ^ 32) size
      && (c.samples_read == 0 || length points.analog_data == c.samples_read)

  abbrev behind : DataPoints Double → Copied Double → Copied Double
  behind points c = record {
    analog = Option.map (write_at c.offset points.analog_data) c.analog;
    digital =
        Option.map (write_at c.offset (take (length points.analog_data) points.digital_data))
          c.digital;
    offset = (c.offset + length points.analog_data) % 2 ^ 32;
    samples_read = length points.analog_data;
  }

  -- One channel.
  next_offset :
      (points : DataPoints Double) (done array : List Double) (digital digital_array : List ℕ)
      (n : ℕ)
      → length digital ≡ length done
      → length points.digital_data ≡ length points.analog_data
      → length done + length points.analog_data < 2 ^ 32
      → behind points (at_offset done array digital digital_array n)
        ≡ at_offset
            (done ++ points.analog_data)
            (drop (length points.analog_data) array)
            (digital ++ points.digital_data)
            (drop (length points.analog_data) digital_array)
            (length points.analog_data)
  next_offset points done array digital digital_array n same even small =
      let len = length points.analog_data in
      let whole = take-whole len points.digital_data even in
      let offset : (length done + len) % 2 ^ 32 ≡ length (done ++ points.analog_data) =
        omega (arith, length-append done points.analog_data) in
      let analog = write_at-append done points.analog_data array in
      let written = write_at-append digital points.digital_data digital_array in
      let here : write_at (length done) (take len points.digital_data) (digital ++ digital_array)
          ≡ (digital ++ points.digital_data) ++ drop len digital_array =
        rw whole (rw same at written)
        ∙ ap (λ k. (digital ++ points.digital_data) ++ drop k digital_array) even in
      λ i. record {
        analog = some (analog i);
        digital = some (here i);
        offset = offset i;
        samples_read = len;
      }

  if_some :
      {c : Copied Double} (b : Bool) (o : Option (Copied Double))
      → (if b then o else none) ≡ some c
      → (b ≡ true) × (o ≡ some c)
  if_some true o e = (refl, e)
  if_some false o e = absurd (ground arith)

  copy_channels-over :
      (size : ℕ) (channels : List (DataPoints Double)) (done array : List Double)
      (digital digital_array : List ℕ) (n : ℕ) (c : Copied Double)
      → length digital ≡ length done
      → length done ≤ size
      → length done + length (analog_samples channels) < 2 ^ 32
      → copy_channels size channels (at_offset done array digital digital_array n) ≡ some c
      → (length done + length (analog_samples channels) ≤ size)
        × (c.analog ≡ some (done ++ over (analog_samples channels) array))
        × (c.digital ≡ some (digital ++ over (digital_samples channels) digital_array))
        × (length (digital_samples channels) ≡ length (analog_samples channels))
  unfolding copy_channels
  copy_channels-over size [] done array digital digital_array n c same fits small e =
      (omega arith, ground arith, ground arith, refl)
  copy_channels-over size (points ∷ rest) done array digital digital_array n c same fits small e =
      let len = length points.analog_data in
      let total = length-append points.analog_data (analog_samples rest) in
      let now = at_offset done array digital digital_array n in
      let (passed, rest_e) =
        if_some (passes size points now) (copy_channels size rest (behind points now)) e in
      let even : length points.digital_data ≡ len = ground arith in
      let room : length done + len ≤ size = ground (arith, total) in
      let step = next_offset points done array digital digital_array n same even (omega arith) in
      let grown = length-append done points.analog_data in
      let grown' = length-append digital points.digital_data in
      let (fits', analog, digits, counts) =
        copy_channels-over size rest (done ++ points.analog_data) (drop len array)
          (digital ++ points.digital_data) (drop len digital_array) len c (omega arith)
          (omega arith) (omega arith) (rw step at rest_e) in
      (
        omega arith,
        analog ∙ ap some (over-append done points.analog_data (analog_samples rest) array),
        digits
            ∙ ap
                (λ k. some (
                  (digital ++ points.digital_data)
                  ++ over (digital_samples rest) (drop k digital_array)))
                (sym even)
            ∙ ap some
                (over-append digital points.digital_data (digital_samples rest) digital_array),
        omega (arith, total, length-append points.digital_data (digital_samples rest)),
      )

  some_cases : (o : Option (Copied Double)) → (o ≡ none) ⊎ ((c : Copied Double) × (o ≡ some c))
  some_cases none = inl refl
  some_cases (some c) = inr (c, refl)

  -- Whatever data set of fewer than 2^32 samples the bytes hold: where `pm_read`, behind its reads, returns a block into
  -- two arrays of at least `buffer_sizes` elements, the data set has at most `buffer_sizes` samples,
  -- as many digital ones, the arrays begin with the samples of all its channels, one channel behind
  -- the other, and are as they were behind these, the timestamp is that of the data set, and the rest
  -- of the stream is left.
  pub unpack_block-over :
      (pb : Protobuf Double) (size : ℕ) (array : List Double) (digital_array : List ℕ) (ret : ℕ)
      (r : ReadBack) (msg : DataSet Double) (b : Block Double)
      → pb.unpack r.buffer ≡ some msg
      → length (analog_samples msg.channel_data) < 2 ^ 32
      → size ≤ length array
      → size ≤ length digital_array
      → unpack_block pb size (some array) (some digital_array) ret r ≡ block b
      → let samples = analog_samples msg.channel_data in
        let digits = digital_samples msg.channel_data in
        (length samples ≤ size)
        × (length digits ≡ length samples)
        × (b.analog ≡ some (over samples array))
        × (b.digital ≡ some (over digits digital_array))
        × (length (over samples array) ≡ length array)
        × (length (over digits digital_array) ≡ length digital_array)
        × (b.timestamp_nanos ≡ msg.timestamp_nanos)
        × (b.left ≡ r.left)
  unfolding unpack_block
  unpack_block-over pb size array digital_array ret r msg b unpacked small room room' e =
      elim (some_cases
        (copy_channels size msg.channel_data (at_offset [] array [] digital_array 0))) [
          | inl failed ↦ absurd (ground arith)
          | inr (c, copied) ↦
              let (fits, analog, digits, counts) =
                copy_channels-over size msg.channel_data [] array [] digital_array 0 c refl
                  (omega arith) (omega arith) copied in
              (
                omega arith,
                counts,
                ground arith,
                ground arith,
                length-over (analog_samples msg.channel_data) array (omega arith),
                length-over (digital_samples msg.channel_data) digital_array (omega arith),
                ground arith,
                ground arith,
              )
        ]
