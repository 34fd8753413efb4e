-- ===== src/Tests/Codec.antt =====
-- A wire format for data sets whose values are numbers: a value of the parameter `Protobuf`, for
-- the tests. A list is preceded by its length.
use pm_lab_tools.Prelude.{
  ℕ, suc, ◌≡◌, refl, ap, Option, none, some, List, [], ◌∷◌, ◌++◌, length, map, take, drop,
  take-append, drop-append, append_assoc,
}
use pm_lab_tools.Protocol.{DataPoints, DataSet, as_bool, points_arrive, Protobuf}

abbrev pack_points : DataPoints ℕ → List ℕ
pack_points p = length p.analog_data ∷ length p.digital_data ∷ (p.analog_data ++ p.digital_data)

abbrev pack_channels : List (DataPoints ℕ) → List ℕ
pack_channels [] = []
pack_channels (p ∷ rest) = pack_points p ++ pack_channels rest

abbrev pack : DataSet ℕ → List ℕ
pack m = m.timestamp_nanos ∷ length m.channel_data ∷ pack_channels m.channel_data

abbrev unpack_channels : ℕ → List ℕ → List (DataPoints ℕ)
unpack_channels (suc n) (a ∷ d ∷ rest) =
    record { analog_data = take a rest; digital_data = map as_bool (take d (drop a rest)) }
    ∷ unpack_channels n (drop d (drop a rest))
unpack_channels _ _ = []

abbrev unpack : List ℕ → Option (DataSet ℕ)
unpack (t ∷ n ∷ rest) = some (record { timestamp_nanos = t; channel_data = unpack_channels n rest })
unpack _ = none

pub unpack_channels-pack :
    (ps : List (DataPoints ℕ))
    → unpack_channels (length ps) (pack_channels ps) ≡ map points_arrive ps
unpack_channels-pack [] = refl
unpack_channels-pack (p ∷ rest) = rw (
  append_assoc p.analog_data p.digital_data (pack_channels rest),
  take-append p.analog_data (p.digital_data ++ pack_channels rest),
  drop-append p.analog_data (p.digital_data ++ pack_channels rest),
  take-append p.digital_data (pack_channels rest),
  drop-append p.digital_data (pack_channels rest),
  unpack_channels-pack rest,
)

abbrev pub list_codec : Protobuf ℕ
list_codec = record {
  get_packed_size = λ m. length (pack m);
  pack = pack;
  unpack = unpack;
  length-pack = λ m. refl;
  unpack-pack = λ m h.
      ap (λ c. some (record { timestamp_nanos = m.timestamp_nanos; channel_data = c }))
        (unpack_channels-pack m.channel_data);
}
