-- ===== src/Protocol.antt =====
-- What the daemon and its clients share: common/common.h, protos/measured-data.proto, and the
-- integers in network order. The code that protobuf-c generates is a parameter.
pub mod Words
pub mod Connection
use Prim.Native.Char.{code}
use Prim.Native.String.{String}
use pm_lab_tools.Prelude.{
  ℕ, ◌<◌, ◌^◌, ◌≡◌, Option, some, List, [], ◌∷◌, ◌++◌, ◌==◌, if◌then◌else◌, length, map,
}

abbrev pub codes : String → List ℕ
codes String.[] = []
codes (String.◌∷◌ c s) = code c ∷ codes s

-- A string constant with the NUL that ends it; its length is the `sizeof`.
abbrev c_string : String → List ℕ
c_string s = codes s ++ 0 ∷ []

unfoldable pub magic_data_set : List ℕ
magic_data_set = c_string "THE MATRIX HAS YOU!!"

unfoldable pub welcome_msg : List ℕ
welcome_msg = c_string "WELCOME HOME NEO"

-- `DataPoints` and `DataSet`, for a type of `double`; a `bool` is the `int` behind it.
pub record DataPoints (Double : Type 0) : Type 0 where
  pub analog_data : List Double
  pub digital_data : List ℕ

pub record DataSet (Double : Type 0) : Type 0 where
  pub timestamp_nanos : ℕ
  pub channel_data : List (DataPoints Double)

-- A `bool` arrives as 0 or 1.
abbrev pub as_bool : ℕ → ℕ
as_bool d = if d == 0 then 0 else 1

module _ {Double : Type 0} where
  abbrev pub points_arrive : DataPoints Double → DataPoints Double
  points_arrive p = record p { digital_data = map as_bool p.digital_data }

  abbrev pub set_arrives : DataSet Double → DataSet Double
  set_arrives m = record m { channel_data = map points_arrive m.channel_data }

-- `data_set__get_packed_size`, `data_set__pack` and `data_set__unpack`: what is packed takes up the
-- packed size, and unpacks to the same message. An `unpack` of other bytes may give NULL.
pub record Protobuf (Double : Type 0) : Type 0 where
  pub get_packed_size : DataSet Double → ℕ
  pub pack : DataSet Double → List ℕ
  pub unpack : List ℕ → Option (DataSet Double)
  pub length-pack : (m : DataSet Double) → length (pack m) ≡ get_packed_size m
  pub unpack-pack :
      (m : DataSet Double) → m.timestamp_nanos < 2 ^ 64 → unpack (pack m) ≡ some (set_arrives m)
