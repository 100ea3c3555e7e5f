-- ===== src/Map/Sorted.antt =====
-- The keys stay strictly ordered, so that each key stands in a map once.
use objectlink_core_cpp.Prelude.{
  ◌≡◌, refl, Bool, true, false, [], ◌∷◌, Option, none, some, arith, All,
}
use objectlink_core_cpp.Map.{Key, Map, find, insert, erase, map_values, keys_where, elem}

-- A test of an optional value, which fails where there is none.
abbrev pub matches : {V : Type 0} → (V → Bool) → Option V → Bool
matches p none = false
matches p (some v) = p v

module _ {K V : Type 0} ⦃key : Key K⦄ where
  -- `k` comes before every key of the map.
  abbrev pub Before : K → Map K V → Type 0
  Before k = All (λ e. key.less k e.0 ≡ true)

  abbrev pub IsSorted : Map K V → Type 0
  IsSorted [] = Unit {0}
  IsSorted ((k, v) ∷ m) = Before k m × IsSorted m

  Before-trans : (j k : K) (m : Map K V) → key.less j k ≡ true → Before k m → Before j m
  Before-trans j k [] h b = tt
  Before-trans j k ((i, v) ∷ m) h b = (key.less_trans j k i h b.0, Before-trans j k m h b.1)

  Before-insert :
      (j k : K) (v : V) (m : Map K V) → key.less j k ≡ true → Before j m → Before j (insert k v m)
  unfolding insert
  Before-insert j k v [] h b = (h, tt)
  Before-insert j k v ((i, w) ∷ m) h b = ground (arith, Before-insert j k v m h b.1)

  pub insert-IsSorted : (k : K) (v : V) (m : Map K V) → IsSorted m → IsSorted (insert k v m)
  unfolding insert
  insert-IsSorted k v [] s = (tt, tt)
  insert-IsSorted k v ((i, w) ∷ m) s = ground (
    arith,
    key.beq_iff i k,
    insert-IsSorted k v m s.1,
    key.less_total k i,
    key.beq_iff k i,
    Before-trans k i m,
    Before-insert i k v m,
  )

  Before-erase : (j k : K) (m : Map K V) → Before j m → Before j (erase k m)
  unfolding erase
  Before-erase j k [] b = tt
  Before-erase j k ((i, w) ∷ m) b = ground (arith, Before-erase j k m b.1)

  pub erase-IsSorted : (k : K) (m : Map K V) → IsSorted m → IsSorted (erase k m)
  unfolding erase
  erase-IsSorted k [] s = tt
  erase-IsSorted k ((i, w) ∷ m) s = ground (arith, erase-IsSorted k m s.1, Before-erase i k m s.0)

  Before-map_values : (f : V → V) (j : K) (m : Map K V) → Before j m → Before j (map_values f m)
  Before-map_values f j [] b = tt
  Before-map_values f j ((i, w) ∷ m) b = (b.0, Before-map_values f j m b.1)

  pub map_values-IsSorted : (f : V → V) (m : Map K V) → IsSorted m → IsSorted (map_values f m)
  map_values-IsSorted f [] s = tt
  map_values-IsSorted f ((i, w) ∷ m) s = (Before-map_values f i m s.0, map_values-IsSorted f m s.1)

  -- A key that comes before all others is not among them.
  pub find-Before : (k : K) (m : Map K V) → Before k m → find k m ≡ none
  unfolding find
  find-Before k [] b = refl
  find-Before k ((i, w) ∷ m) b =
      ground (arith, key.beq_iff i k, key.less_irrefl k, find-Before k m b.1)

  -- A walk with a test collects exactly the keys whose value passes it.
  pub elem-keys_where :
      (p : V → Bool) (k : K) (m : Map K V)
      → IsSorted m
      → elem k (keys_where p m) ≡ matches p (find k m)
  unfolding find keys_where elem
  elem-keys_where p k [] s = refl
  elem-keys_where p k ((i, w) ∷ m) s =
      ground (arith, key.beq_iff i k, elem-keys_where p k m s.1, find-Before i m s.0)
