-- ===== src/Map/Laws.antt =====
-- What a map holds after each operation, in `if` form.
use objectlink_core_cpp.Prelude.{
  ℕ, zero, suc, ◌+◌, ◌≤◌, ◌<◌, ◌≡◌, refl, true, false, inl, inr, Bool-cases, [], ◌∷◌, none, some,
  if◌then◌else◌, arith,
}
use objectlink_core_cpp.Map.{Key, nat_key, Map, find, contains, insert, erase, size, map_values}
use mathlib.Core.Option

pub beq_refl : {K : Type 0} ⦃key : Key K⦄ (k : K) → key.beq k k ≡ true
beq_refl ⦃key⦄ k = (key.beq_iff k k).1 refl

module _ {K V : Type 0} ⦃key : Key K⦄ where
  pub find-insert :
      (k j : K) (v : V) (m : Map K V)
      → find j (insert k v m) ≡ (if key.beq k j then some v else find j m)
  unfolding find insert
  find-insert k j v [] = refl
  find-insert k j v ((i, w) ∷ m) =
      ground (arith, key.beq_iff k j, key.beq_iff i k, key.beq_iff i j, find-insert k j v m)

  pub find-erase :
      (k j : K) (m : Map K V) → find j (erase k m) ≡ (if key.beq k j then none else find j m)
  unfolding find erase
  find-erase k j [] = ground arith
  find-erase k j ((i, v) ∷ m) =
      ground (arith, key.beq_iff k j, key.beq_iff i k, key.beq_iff i j, find-erase k j m)

  pub find-map_values :
      (f : V → V) (k : K) (m : Map K V) → find k (map_values f m) ≡ Option.map f (find k m)
  unfolding find
  find-map_values f k [] = refl
  find-map_values f k ((i, v) ∷ m) = ground (arith, find-map_values f k m)

  pub size-insert-le : (k : K) (v : V) (m : Map K V) → size (insert k v m) ≤ size m + 1
  unfolding insert
  size-insert-le k v [] = omega arith
  size-insert-le k v ((i, w) ∷ m) = ground (arith, size-insert-le k v m)

  pub size-erase-le : (k : K) (m : Map K V) → size (erase k m) ≤ size m
  unfolding erase
  size-erase-le k [] = omega arith
  size-erase-le k ((i, w) ∷ m) = ground (arith, size-erase-le k m)

  pub size-erase : (k : K) (m : Map K V) (v : V) → find k m ≡ some v → size (erase k m) + 1 ≤ size m
  unfolding find erase
  size-erase k [] v h = cc
  size-erase k ((i, w) ∷ m) v h = ground (arith, size-erase k m v, size-erase-le k m)

  -- `contains` is `find` with its value forgotten.
  pub contains_of_find : (k : K) (m : Map K V) (v : V) → find k m ≡ some v → contains k m ≡ true
  unfolding find contains
  contains_of_find k [] v h = cc
  contains_of_find k ((i, w) ∷ m) v h = ground (arith, contains_of_find k m v)

  pub find_of_contains : (k : K) (m : Map K V) → contains k m ≡ true → (v : V) × (find k m ≡ some v)
  unfolding find contains
  find_of_contains k [] h = cc
  find_of_contains k ((i, w) ∷ m) h = elim (Bool-cases (key.beq i k)) [
    | inl e ↦ (w, rw e)
    | inr e ↦ rw (e, find) (find_of_contains k m (rw e at h))
  ]

  pub find_of_not-contains : (k : K) (m : Map K V) → contains k m ≡ false → find k m ≡ none
  unfolding find contains
  find_of_not-contains k [] h = refl
  find_of_not-contains k ((i, w) ∷ m) h = ground (arith, find_of_not-contains k m)

-- The pigeonhole principle: a map that holds every key below `n` has at least `n` entries.
pub size_of_all_below :
    {V : Type 0} (n : ℕ) (m : Map ℕ V)
    → ((i : ℕ) → i < n → (v : V) × (find i m ≡ some v))
    → n ≤ size m
size_of_all_below zero m h = omega arith
size_of_all_below (suc n) m h = omega (
  arith,
  size-erase n m (h n (omega arith)).0 (h n (omega arith)).1,
  size_of_all_below n (erase n m)
      λ i lt. let (v, e) = h i (omega arith) in (v, ground (arith, find-erase n i m)),
)
