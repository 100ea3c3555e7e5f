-- ===== src/Json.antt =====
-- What the program uses of the JSON library (nlohmann::json), which is not part of the repository: a
-- parameter of the model. A value of `Json` stands for a JSON value up to the library's tag of a
-- non-negative integer as signed or unsigned, which no function here tells apart.
use objectlink_core_cpp.Prelude.{
  ℕ, ◌^◌, ◌<◌, ◌≡◌, ◌≢◌, Bool, true, List, [], ◌∷◌, Option, some, Str, length, get_elem?,
}
use objectlink_core_cpp.Exec.{Result, ok, throw, json_error, std_error}
use objectlink_core_cpp.Types.{ℤ, pos, negsuc, MessageFormat}

pub record JsonLib : Type 1 where
  pub Json : Type 0
  -- json()
  pub null : Json
  -- the conversions of `int`, `unsigned int` and `std::string` to a value
  pub of_int : ℤ → Json
  pub of_uint : ℕ → Json
  pub of_string : Str → Json
  -- json::array({ ... })
  pub array : List Json → Json
  pub is_array : Json → Bool
  pub is_number : Json → Bool
  pub is_number_integer : Json → Bool
  pub is_string : Json → Bool
  -- j.size() and j[i] of an array
  pub size : Json → ℕ
  pub at : Json → ℕ → Json
  -- a value written as a list of keys and values
  pub object : List (Str × Json) → Json
  -- j[i] of any constant value, nothing where that is undefined: past the end of an array
  pub index : Json → ℕ → Option (Result Json)
  -- j[key], for a key that is there, and j.contains(key) of any constant value
  pub field : Json → Str → Result Json
  pub contains : Json → Str → Bool
  -- j.get<int>(), j.get<unsigned int>(), j.get<std::string>()
  pub get_int : Json → Result ℤ
  pub get_uint : Json → Result ℕ
  pub get_string : Json → Result Str
  -- j.dump()
  pub dump : Json → Result Str
  -- the text of a value in a format: dump, to_bson, to_msgpack, to_cbor
  pub encode : MessageFormat → Json → Result Str
  -- the value of a text: parse, from_bson, from_msgpack, from_cbor, called so that an error of the
  -- text gives a discarded value
  pub decode : MessageFormat → Str → Result Json
  pub is_discarded : Json → Bool

-- `int` has 32 bits.
abbrev pub IsInt : ℤ → Type 0
IsInt (pos n) = n < 2 ^ 31
IsInt (negsuc n) = n < 2 ^ 31

-- The documented behaviour of values that are built and read.
pub record ValueLaws (J : JsonLib) : Type 0 where
  pub is_array-array : (xs : List J.Json) → J.is_array (J.array xs) ≡ true
  pub size-array : (xs : List J.Json) → J.size (J.array xs) ≡ length xs
  pub at-array :
      (xs : List J.Json) (i : ℕ) (x : J.Json) → get_elem? xs i ≡ some x → J.at (J.array xs) i ≡ x
  pub is_integer-of_int : (z : ℤ) → J.is_number_integer (J.of_int z) ≡ true
  pub get_int-of_int : (z : ℤ) → IsInt z → J.get_int (J.of_int z) ≡ ok z
  pub is_number-of_uint : (n : ℕ) → J.is_number (J.of_uint n) ≡ true
  pub get_uint-of_uint : (n : ℕ) → n < 2 ^ 32 → J.get_uint (J.of_uint n) ≡ ok n
  pub is_string-of_string : (s : Str) → J.is_string (J.of_string s) ≡ true
  pub get_string-of_string : (s : Str) → J.get_string (J.of_string s) ≡ ok s

-- The same for objects, and for arrays that are read as any value may be.
pub record ObjectLaws (J : JsonLib) : Type 0 where
  pub index-array :
      (xs : List J.Json) (i : ℕ) (x : J.Json)
      → get_elem? xs i ≡ some x
      → J.index (J.array xs) i ≡ some (ok x)
  pub contains-object : (k : Str) (x : J.Json) → J.contains (J.object ((k, x) ∷ [])) k ≡ true
  pub field-object : (k : Str) (x : J.Json) → J.field (J.object ((k, x) ∷ [])) k ≡ ok x

-- A getter does not throw at a value of its type.
pub record GetLaws (J : JsonLib) : Type 0 where
  pub get_int-ok : (j : J.Json) → J.is_number_integer j ≡ true → (z : ℤ) × (J.get_int j ≡ ok z)
  pub get_uint-ok : (j : J.Json) → J.is_number j ≡ true → (n : ℕ) × (J.get_uint j ≡ ok n)
  -- `dump` throws a JSON error only (a text that is not UTF-8)
  pub dump-throws : (j : J.Json) (e : Str) → J.dump j ≢ throw (std_error e)
  pub get_string-ok : (j : J.Json) → J.is_string j ≡ true → (s : Str) × (J.get_string j ≡ ok s)

-- BSON has objects only at the top: an array is refused with an exception.
pub record BsonLaws (J : JsonLib) : Type 0 where
  pub encode_bson-array :
      (xs : List J.Json)
      → (e : Str) × (J.encode MessageFormat.bson (J.array xs) ≡ throw (json_error e))
