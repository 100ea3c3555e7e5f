-- ===== src/Map.antt =====
-- `std::map` and `std::unordered_map`: an association list that `insert` keeps ordered by key, so
-- that a walk over it meets the keys in the order of `std::map`. Where the source walks an
-- `unordered_map`, its result does not depend on the order (see Storage).
use objectlink_core_cpp.Prelude.{
  ℕ, ◌≡◌, ◌↔◌, Bool, true, false, List, [], ◌∷◌, Option, none, some, Str, str_beq, str_less,
  str_beq_iff, less_trans, less_irrefl, less_total, ◌==◌, ==_iff, ltb, length, map, if◌then◌else◌,
  arith,
}
pub mod Laws
pub mod Sorted

-- What a key type offers: equality and a strict total order.
pub record Key (K : Type 0) : Type 0 where
  pub beq : K → K → Bool
  pub beq_iff : (a b : K) → (beq a b ≡ true) ↔ (a ≡ b)
  pub less : K → K → Bool
  pub less_irrefl : (a : K) → less a a ≡ false
  pub less_trans : (a b c : K) → less a b ≡ true → less b c ≡ true → less a c ≡ true
  pub less_total : (a b : K) → beq a b ≡ false → less a b ≡ false → less b a ≡ true

pub ltb_irrefl : (a : ℕ) → ltb a a ≡ false
ltb_irrefl a = ground arith

pub ltb_trans : (a b c : ℕ) → ltb a b ≡ true → ltb b c ≡ true → ltb a c ≡ true
ltb_trans a b c h k = ground arith

pub ltb_total : (a b : ℕ) → (a == b) ≡ false → ltb a b ≡ false → ltb b a ≡ true
ltb_total a b h k = ground arith

instance abbrev pub nat_key : Key ℕ
nat_key = record {
  beq = ◌==◌;
  beq_iff = ==_iff;
  less = ltb;
  less_irrefl = ltb_irrefl;
  less_trans = ltb_trans;
  less_total = ltb_total;
}

instance abbrev pub str_key : Key Str
str_key = record {
  beq = str_beq;
  beq_iff = str_beq_iff;
  less = str_less;
  less_irrefl = less_irrefl;
  less_trans = less_trans;
  less_total = less_total;
}

abbrev pub Map : Type 0 → Type 0 → Type 0
Map K V = List (K × V)

module _ {K V : Type 0} ⦃key : Key K⦄ where
  -- m.find(k)
  unfoldable pub find : K → Map K V → Option V
  find k [] = none
  find k ((j, v) ∷ m) = if key.beq j k then some v else find k m

  -- m.find(k) != m.end()
  unfoldable pub contains : K → Map K V → Bool
  contains k [] = false
  contains k ((j, v) ∷ m) = if key.beq j k then true else contains k m

  -- m[k] = v
  unfoldable pub insert : K → V → Map K V → Map K V
  insert k v [] = (k, v) ∷ []
  insert k v ((j, w) ∷ m) =
      if key.beq j k
      then (k, v) ∷ m
      else if key.less k j
      then (k, v) ∷ (j, w) ∷ m
      else (j, w) ∷ insert k v m

  -- m.erase(k)
  unfoldable pub erase : K → Map K V → Map K V
  erase k [] = []
  erase k ((j, v) ∷ m) = let rest = erase k m in if key.beq j k then rest else (j, v) ∷ rest

module _ {K V : Type 0} where
  abbrev pub size : Map K V → ℕ
  size = length

  -- A loop `for (auto& entry : m)` that writes each entry's value.
  abbrev pub map_values : (V → V) → Map K V → Map K V
  map_values f = map (λ e. (e.0, f e.1))

module _ {K V : Type 0} where
  -- The loop `for (auto& entry : m) if (p(entry.second)) ids.push_back(entry.first)`.
  unfoldable pub keys_where : (V → Bool) → Map K V → List K
  keys_where p [] = []
  keys_where p ((k, v) ∷ m) = let rest = keys_where p m in if p v then k ∷ rest else rest

-- Whether a list holds a key.
unfoldable pub elem : {K : Type 0} ⦃key : Key K⦄ → K → List K → Bool
elem k [] = false
elem ⦃key⦄ k (j ∷ js) = if key.beq j k then true else elem k js
