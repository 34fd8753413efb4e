-- ===== src/Client/Channels.antt =====
-- The loop over the channels in `pm_read`, on the channels of a message that `write_dataset` made.
use mathlib.Core.Option
use pm_lab_tools.Prelude.{
  take-map, drop-map, drop-add, drop-append, length-append, ℕ, ◌+◌, ◌*◌, ◌%◌, ◌^◌, ◌≤◌, ◌<◌, ◌≡◌,
  refl, sym, ap, ◌∙◌, ◌⊎◌, inr, true, ◌&&◌, Option, none, some, List, [], ◌∷◌, ◌++◌, arith, ◌==◌,
  if◌then◌else◌, leb, ◌||◌, length, map, take, drop, length-take, length-drop, length-map,
  append_assoc, append-nil, take-append,
}
use pm_lab_tools.Protocol.{as_bool, points_arrive}
use pm_lab_tools.Handler.Dataset.{encode_datapoints, data_set}
use pm_lab_tools.Client.Read.{write_at, Copied, copy_channels}

-- The values of the given channels, one channel after the other, out of an array with `len` values
-- for each channel.
abbrev pub gather {ℓ} : {A : Type ℓ} → ℕ → List A → List ℕ → List A
gather len values [] = []
gather len values (id ∷ ids) = take len (drop (id * len) values) ++ gather len values ids

-- What is in a caller's array behind the loop: the samples of the channels, then what was there.
abbrev pub filled {ℓ} : {A : Type ℓ} → ℕ → List A → List ℕ → List A → List A
filled len values ids buffer = gather len values ids ++ drop (length ids * len) buffer

-- All are channels of the device.
abbrev pub AreBelow : ℕ → List ℕ → Type 0
AreBelow num_channels [] = Unit
AreBelow num_channels (id ∷ ids) = (id < num_channels) × AreBelow num_channels ids

pub length-slice {ℓ} :
    {A : Type ℓ} (values : List A) (id num_channels len : ℕ)
    → id < num_channels
    → num_channels * len ≤ length values
    → length (take len (drop (id * len) values)) ≡ len
length-slice values id num_channels len below h =
    let inside : id * len + len ≤ num_channels * len = grind arith in
    omega (arith, length-take len (drop (id * len) values), length-drop (id * len) values, inside)

pub take-whole {ℓ} :
    {A : Type ℓ} (n : ℕ) (values : List A) → length values ≡ n → take n values ≡ values
take-whole n values e =
    rw (← e) (ap (take (length values)) (sym (append-nil values)) ∙ take-append values [])

slice-map {ℓ κ} :
    {A : Type ℓ} {B : Type κ} (f : A → B) (m n : ℕ) (values : List A)
    → map f (take n (drop m values)) ≡ take n (drop m (map f values))
slice-map f m n values = take-map f n (drop m values) ∙ ap (take n) (sym (drop-map f m values))

pub write_at-append {ℓ} :
    {A : Type ℓ} (done values rest : List A)
    → write_at (length done) values (done ++ rest) ≡ (done ++ values) ++ drop (length values) rest
write_at-append done values rest =
    rw
      (
        take-append done rest,
        ← drop-add (length done) (length values) (done ++ rest),
        drop-append done rest,
      )
      (sym (append_assoc done values (drop (length values) rest)))

-- The slices of the channels, written one behind the other from an offset on.
abbrev fill {ℓ} : {A : Type ℓ} → ℕ → List A → List ℕ → ℕ → List A → List A
fill len values [] offset buffer = buffer
fill len values (id ∷ ids) offset buffer =
    fill len values ids (offset + len) (write_at offset (take len (drop (id * len) values)) buffer)

fill-append {ℓ} :
    {A : Type ℓ} (num_channels len : ℕ) (values : List A) (ids : List ℕ) (done rest : List A)
    → AreBelow num_channels ids
    → num_channels * len ≤ length values
    → fill len values ids (length done) (done ++ rest)
      ≡ (done ++ gather len values ids) ++ drop (length ids * len) rest
fill-append num_channels len values [] done rest b h =
    let nothing : 0 * len ≡ 0 = omega arith in
    rw nothing (ap (λ l. l ++ rest) (sym (append-nil done)))
fill-append num_channels len values (id ∷ ids) done rest b h =
    let slice = take len (drop (id * len) values) in
    let size = length-slice values id num_channels len b.0 h in
    let next : length done + len ≡ length (done ++ slice) =
      omega (arith, length-append done slice) in
    let all : len + length ids * len ≡ length (id ∷ ids) * len = omega arith in
    rw (write_at-append done slice rest, next, size)
      (fill-append num_channels len values ids (done ++ slice) (drop len rest) b.1 h
        ∙ ap (◌++◌ ((done ++ slice) ++ gather len values ids))
            (drop-add len (length ids * len) rest ∙ ap (λ k. drop k rest) all)
        ∙ ap (λ l. l ++ drop (length (id ∷ ids) * len) rest) (append_assoc done slice _))

map_same {ℓ} : {A : Type ℓ} (o : Option A) → o ≡ Option.map (λ a. a) o
map_same none = refl
map_same (some a) = refl

map_cong {ℓ} :
    {A : Type ℓ} {f g : A → A}
    → ((a : A) → f a ≡ g a)
    → (o : Option A) → Option.map f o ≡ Option.map g o
map_cong same none = refl
map_cong same (some a) = ap some (same a)

module _ {Double : Type 0} where
  -- The state behind the loop for the channels `ids`.
  abbrev pub after_channels : ℕ → List Double → List ℕ → List ℕ → Copied Double → Copied Double
  after_channels len analog digital [] c = c
  after_channels len analog digital (id ∷ ids) c = after_channels len analog digital ids (record {
    analog = Option.map (write_at c.offset (take len (drop (id * len) analog))) c.analog;
    digital =
        Option.map (write_at c.offset (take len (drop (id * len) (map as_bool digital)))) c.digital;
    offset = c.offset + len;
    samples_read = len;
  })

  pub copy_channels-data_set :
      (num_channels buffer_sizes len : ℕ) (analog : List Double) (digital channel_ids : List ℕ)
      (c : Copied Double)
      → AreBelow num_channels channel_ids
      → num_channels * len ≤ length analog
      → num_channels * len ≤ length digital
      → num_channels * len < 2 ^ 32
      → c.offset + length channel_ids * len ≤ buffer_sizes
      → c.offset + length channel_ids * len < 2 ^ 32
      → (c.samples_read ≡ 0) ⊎ (c.samples_read ≡ len)
      → copy_channels buffer_sizes
          (map points_arrive (data_set channel_ids len 0 analog digital).channel_data)
          c
        ≡ some (after_channels len analog digital channel_ids c)
  unfolding copy_channels data_set encode_datapoints
  copy_channels-data_set num_channels buffer_sizes len analog digital [] c b la ld w room fit seen =
      refl
  copy_channels-data_set num_channels buffer_sizes len analog digital (id ∷ ids) c b la ld w room
        fit seen =
      let inside : id * len + len ≤ num_channels * len = grind arith in
      let at : id * len % 2 ^ 32 ≡ id * len = omega (arith, inside) in
      let a = length-slice analog id num_channels len b.0 la in
      let d =
        length-slice (map as_bool digital) id num_channels len b.0
          (rw (length-map digital as_bool) ld) in
      let bools = slice-map as_bool (id * len) len digital in
      let whole = take-whole len (take len (drop (id * len) (map as_bool digital))) d in
      let next : (c.offset + len) % 2 ^ 32 ≡ c.offset + len = omega arith in
      let ih =
        copy_channels-data_set num_channels buffer_sizes len analog digital ids
          (record {
            analog = Option.map (write_at c.offset (take len (drop (id * len) analog))) c.analog;
            digital =
                Option.map (write_at c.offset (take len (drop (id * len) (map as_bool digital))))
                  c.digital;
            offset = c.offset + len;
            samples_read = len;
          })
          b.1 la ld w (omega arith) (omega arith) (inr refl) in
      let test : ((len == len)
            && leb (c.offset + len) buffer_sizes
            && (c.samples_read == 0 || len == c.samples_read))
          ≡ true =
        ground arith in
      rw (at, bools, a, d, whole, next, test) ih

  after_channels-fill :
      (len : ℕ) (analog : List Double) (digital channel_ids : List ℕ) (c : Copied Double)
      → ((after_channels len analog digital channel_ids c).analog
          ≡ Option.map (fill len analog channel_ids c.offset) c.analog)
        × ((after_channels len analog digital channel_ids c).digital
            ≡ Option.map (fill len (map as_bool digital) channel_ids c.offset) c.digital)
  after_channels-fill len analog digital [] c = (map_same c.analog, map_same c.digital)
  after_channels-fill len analog digital (id ∷ ids) c =
      let (a, d) = after_channels-fill len analog digital ids _ in
      (a ∙ Option.map-map _ _ c.analog, d ∙ Option.map-map _ _ c.digital)

  after_channels-samples_read :
      (len : ℕ) (analog : List Double) (digital channel_ids : List ℕ) (c : Copied Double)
      → c.samples_read ≡ len
      → (after_channels len analog digital channel_ids c).samples_read ≡ len
  after_channels-samples_read len analog digital [] c e = e
  after_channels-samples_read len analog digital (id ∷ ids) c e =
      after_channels-samples_read len analog digital ids _ refl

  samples_read-start :
      (len : ℕ) (analog : List Double) (digital channel_ids : List ℕ) (c : Copied Double)
      → c.samples_read ≡ 0
      → (after_channels len analog digital channel_ids c).samples_read
        ≡ (if length channel_ids == 0 then 0 else len)
  samples_read-start len analog digital [] c e = e
  samples_read-start len analog digital (id ∷ ids) c e =
      after_channels-samples_read len analog digital ids _ refl ∙ ground arith

  pub after_channels-filled :
      (num_channels len : ℕ) (analog : List Double) (digital channel_ids : List ℕ)
      (analog_data : Option (List Double)) (digital_data : Option (List ℕ))
      → AreBelow num_channels channel_ids
      → num_channels * len ≤ length analog
      → num_channels * len ≤ length digital
      → let c =
          after_channels len analog digital channel_ids (record {
            analog = analog_data;
            digital = digital_data;
            offset = 0;
            samples_read = 0;
          }) in
        (c.analog ≡ Option.map (filled len analog channel_ids) analog_data)
        × (c.digital ≡ Option.map (filled len (map as_bool digital) channel_ids) digital_data)
        × (c.samples_read ≡ (if length channel_ids == 0 then 0 else len))
  after_channels-filled num_channels len analog digital ids analog_data digital_data b la ld =
      let (a, d) = after_channels-fill len analog digital ids _ in
      (
        a ∙ map_cong (λ there. fill-append num_channels len analog ids [] there b la) analog_data,
        d
            ∙ map_cong
                (λ there.
                  fill-append num_channels len (map as_bool digital) ids [] there b
                    (rw (length-map digital as_bool) ld))
                digital_data,
        samples_read-start len analog digital ids _ refl,
      )
