-- ===== src/Tests/Toy.antt =====
-- A small JSON library that has the documented behaviour: its values are null, integers, texts,
-- arrays and objects, and its texts are written in prefix order.
use objectlink_core_cpp.Prelude.{
  ℕ, zero, suc, ◌-◌, ◌%◌, ◌^◌, ◌<◌, ◌≡◌, refl, Bool, true, false, List, [], ◌∷◌, ◌++◌, Option, none,
  some, Str, text, arith, length, get_elem?, ap, str_beq, str_beq_iff, if◌then◌else◌,
}
use objectlink_core_cpp.Exec.{Result, ok, throw, json_error}
use objectlink_core_cpp.Types.{ℤ, pos, negsuc, MessageFormat, bson}
use objectlink_core_cpp.Json.{JsonLib, ValueLaws, ObjectLaws, GetLaws, BsonLaws}

pub data Value : Type 0 where
  null discarded nil empty : Value
  number : ℤ → Value
  str : Str → Value
  cons : Value → Value → Value
  entry : Str → Value → Value → Value

abbrev pub array : List Value → Value
array [] = nil
array (x ∷ xs) = cons x (array xs)

abbrev object : List (Str × Value) → Value
object [] = empty
object ((k, x) ∷ l) = entry k x (object l)

abbrev is_array : Value → Bool
is_array nil = true
is_array (cons x xs) = true
is_array _ = false

abbrev is_number : Value → Bool
is_number (number n) = true
is_number _ = false

abbrev is_string : Value → Bool
is_string (str s) = true
is_string _ = false

abbrev is_discarded : Value → Bool
is_discarded discarded = true
is_discarded _ = false

abbrev size : Value → ℕ
size (cons x xs) = suc (size xs)
size _ = 0

abbrev at : Value → ℕ → Value
at (cons x xs) zero = x
at (cons x xs) (suc i) = at xs i
at _ i = null

abbrev type_error : {A : Type 0} → Result A
type_error = throw (json_error (text "type error"))

abbrev index : Value → ℕ → Option (Result Value)
index (cons x xs) zero = some (ok x)
index (cons x xs) (suc i) = index xs i
index nil i = none
index _ i = some type_error

abbrev field : Value → Str → Result Value
field (entry k x l) j = if str_beq k j then ok x else field l j
field empty j = ok null
field _ j = type_error

abbrev contains : Value → Str → Bool
contains (entry k x l) j = if str_beq k j then true else contains l j
contains _ j = false

abbrev get_int : Value → Result ℤ
get_int (number n) = ok n
get_int _ = type_error

abbrev get_uint : Value → Result ℕ
get_uint (number (pos n)) = ok (n % 2 ^ 32)
get_uint (number (negsuc n)) = ok (2 ^ 32 - 1 - n % 2 ^ 32)
get_uint _ = type_error

abbrev get_string : Value → Result Str
get_string (str s) = ok s
get_string _ = type_error

abbrev pub print : Value → Str
print (cons x xs) = 0 ∷ print x ++ print xs
print (str s) = 1 ∷ length s ∷ s
print (number (pos n)) = 2 ∷ n ∷ []
print (number (negsuc n)) = 3 ∷ n ∷ []
print nil = 4 ∷ []
print null = 5 ∷ []
print discarded = 6 ∷ []
print empty = 7 ∷ []
print (entry k x l) = 8 ∷ length k ∷ k ++ print x ++ print l

abbrev split_at : ℕ → Str → Str × Str
split_at zero s = ([], s)
split_at (suc n) [] = ([], [])
split_at (suc n) (x ∷ s) = let (a, b) = split_at n s in (x ∷ a, b)

-- A value and what is left of the text, on fuel.
abbrev pub parse : ℕ → Str → Value × Str
parse zero s = (discarded, s)
parse (suc n) (zero ∷ s) = let (x, t) = parse n s in let (xs, u) = parse n t in (cons x xs, u)
parse (suc n) (suc zero ∷ k ∷ s) = let (a, b) = split_at k s in (str a, b)
parse (suc n) (suc (suc zero) ∷ k ∷ s) = (number (pos k), s)
parse (suc n) (suc (suc (suc zero)) ∷ k ∷ s) = (number (negsuc k), s)
parse (suc n) (suc (suc (suc (suc zero))) ∷ s) = (nil, s)
parse (suc n) (suc (suc (suc (suc (suc zero)))) ∷ s) = (null, s)
parse (suc n) (suc (suc (suc (suc (suc (suc (suc zero)))))) ∷ s) = (empty, s)
parse (suc n) (suc (suc (suc (suc (suc (suc (suc (suc zero))))))) ∷ k ∷ s) =
    let (a, b) = split_at k s in
    let (x, t) = parse n b in let (l, u) = parse n t in (entry a x l, u)
parse (suc n) s = (discarded, s)

abbrev encode : MessageFormat → Value → Result Str
encode bson nil = type_error
encode bson (cons x xs) = type_error
encode f v = ok (print v)

abbrev pub lib : JsonLib
lib = record {
  Json = Value;
  null = null;
  of_int = number;
  of_uint = λ n. number (pos n);
  of_string = str;
  array = array;
  is_array = is_array;
  is_number = is_number;
  is_number_integer = is_number;
  is_string = is_string;
  size = size;
  at = at;
  object = object;
  index = index;
  field = field;
  contains = contains;
  get_int = get_int;
  get_uint = get_uint;
  get_string = get_string;
  dump = λ v. ok (print v);
  encode = encode;
  decode = λ f s. ok (parse (length s) s).0;
  is_discarded = is_discarded;
}

at-array : (xs : List Value) (i : ℕ) (x : Value) → get_elem? xs i ≡ some x → at (array xs) i ≡ x
at-array [] i x e = absurd cc
at-array (y ∷ xs) zero x e = cc
at-array (y ∷ xs) (suc i) x e = at-array xs i x e

size-array : (xs : List Value) → size (array xs) ≡ length xs
size-array [] = refl
size-array (x ∷ xs) = ap suc (size-array xs)

is_array-array : (xs : List Value) → is_array (array xs) ≡ true
is_array-array [] = refl
is_array-array (x ∷ xs) = refl

below-mod : (n : ℕ) → n < 2 ^ 32 → n % 2 ^ 32 ≡ n
below-mod n h = omega arith

pub values : ValueLaws lib
values = record {
  is_array-array = is_array-array;
  size-array = size-array;
  at-array = at-array;
  is_integer-of_int = λ z. refl;
  get_int-of_int = λ z h. refl;
  is_number-of_uint = λ n. refl;
  get_uint-of_uint = λ n h. ap ok (below-mod n h);
  is_string-of_string = λ s. refl;
  get_string-of_string = λ s. refl;
}

number-int : (v : Value) → is_number v ≡ true → (z : ℤ) × (get_int v ≡ ok z)
number-int (number z) h = (z, refl)
number-int null h = absurd cc
number-int discarded h = absurd cc
number-int nil h = absurd cc
number-int (str s) h = absurd cc
number-int (cons x xs) h = absurd cc
number-int empty h = absurd cc
number-int (entry k x l) h = absurd cc

number-uint : (v : Value) → is_number v ≡ true → (n : ℕ) × (get_uint v ≡ ok n)
number-uint (number (pos n)) h = (n % 2 ^ 32, refl)
number-uint (number (negsuc n)) h = (2 ^ 32 - 1 - n % 2 ^ 32, refl)
number-uint null h = absurd cc
number-uint discarded h = absurd cc
number-uint nil h = absurd cc
number-uint (str s) h = absurd cc
number-uint (cons x xs) h = absurd cc
number-uint empty h = absurd cc
number-uint (entry k x l) h = absurd cc

string-str : (v : Value) → is_string v ≡ true → (s : Str) × (get_string v ≡ ok s)
string-str (str s) h = (s, refl)
string-str null h = absurd cc
string-str discarded h = absurd cc
string-str nil h = absurd cc
string-str (number n) h = absurd cc
string-str (cons x xs) h = absurd cc
string-str empty h = absurd cc
string-str (entry k x l) h = absurd cc

pub gets : GetLaws lib
gets = record {
  get_int-ok = number-int;
  get_uint-ok = number-uint;
  dump-throws = λ j e h. absurd cc;
  get_string-ok = string-str;
}

array-bson : (xs : List Value) → (e : Str) × (encode bson (array xs) ≡ throw (json_error e))
array-bson [] = (text "type error", refl)
array-bson (x ∷ xs) = (text "type error", refl)

pub bsons : BsonLaws lib
bsons = record { encode_bson-array = array-bson }

index-array :
    (xs : List Value) (i : ℕ) (x : Value)
    → get_elem? xs i ≡ some x
    → index (array xs) i ≡ some (ok x)
index-array [] i x e = absurd cc
index-array (y ∷ xs) zero x e = cc
index-array (y ∷ xs) (suc i) x e = index-array xs i x e

contains-entry : (k : Str) (x : Value) → contains (object ((k, x) ∷ [])) k ≡ true
contains-entry k x = simp ((str_beq_iff k k).1 refl)

field-entry : (k : Str) (x : Value) → field (object ((k, x) ∷ [])) k ≡ ok x
field-entry k x = simp ((str_beq_iff k k).1 refl)

pub objects : ObjectLaws lib
objects = record {
  index-array = index-array;
  contains-object = contains-entry;
  field-object = field-entry;
}
