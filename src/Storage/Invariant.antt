-- ===== src/Storage/Invariant.antt =====
-- The well-formedness of `UniqueIdObjectStorage`, and the lemmas that carry it through the
-- operations.
use objectlink_core_cpp.Prelude.{
  ℕ, ◌<◌, ◌≤◌, ◌≡◌, refl, ◌≢◌, Bool, true, false, [], ◌∷◌, Option, none, some, ◌==◌, ==_iff,
  if◌then◌else◌, arith,
}
use objectlink_core_cpp.Map.{nat_key, Map, find, erase, size}
use objectlink_core_cpp.Map.Laws.{find-erase, size-erase-le}
use objectlink_core_cpp.Map.Sorted.{Before, IsSorted, erase-IsSorted, find-Before}
use objectlink_core_cpp.Storage.{
  WeakPtr, Storage, invalid_id, expired, purge, get, purge_expired, remove, init, find_object,
}

pub record IsValid (s : Storage) : Type 0 where
  pub sorted : IsSorted s.objects
  pub bounded : size s.objects ≤ s.max_count
  -- no id is the invalid one
  pub fits : s.max_count ≤ invalid_id
  pub counter_lt : 0 < s.max_count → s.counter < s.max_count
  pub below : (id : ℕ) (w : WeakPtr) → find id s.objects ≡ some w → id < s.max_count
  pub fresh :
      s.overflowed ≡ false → (id : ℕ) (w : WeakPtr) → find id s.objects ≡ some w → id < s.counter
  -- no object has two ids
  pub distinct :
      (i j o : ℕ) → find i s.objects ≡ some (some o) → find j s.objects ≡ some (some o) → i ≡ j

pub init-IsValid : (max_count : ℕ) → max_count ≤ invalid_id → IsValid (init max_count)
unfolding init find
init-IsValid max_count h = record {
  sorted = tt;
  bounded = omega arith;
  fits = h;
  counter_lt = λ p. p;
  below = λ id w e. cc;
  fresh = λ _ id w e. cc;
  distinct = λ i j o e f. cc;
}

-- Entries of another map of the same ids.
abbrev Keeps : Map ℕ WeakPtr → Map ℕ WeakPtr → Type 0
Keeps m m' = (id : ℕ) (w : WeakPtr) → find id m' ≡ some w → find id m ≡ some w

-- Removing entries keeps a storage valid.
pub shrink-IsValid :
    (s : Storage) (m : Map ℕ WeakPtr)
    → IsValid s
    → IsSorted m
    → size m ≤ size s.objects
    → Keeps s.objects m
    → IsValid (record s { objects = m })
shrink-IsValid s m v sorted smaller keeps = record {
  sorted = sorted;
  bounded = omega (arith, v.bounded);
  fits = v.fits;
  counter_lt = v.counter_lt;
  below = λ id w e. v.below id w (keeps id w e);
  fresh = λ f id w e. v.fresh f id w (keeps id w e);
  distinct = λ i j o e f. v.distinct i j o (keeps i (some o) e) (keeps j (some o) f);
}

pub remove-IsValid : (id : ℕ) (s : Storage) → IsValid s → IsValid (remove id s)
unfolding remove
remove-IsValid id s v =
    shrink-IsValid s (erase id s.objects) v (erase-IsSorted id s.objects v.sorted)
      (size-erase-le id s.objects) (λ j w e. ground (arith, find-erase id j s.objects))

-- A removed id leads nowhere, and the others lead where they did.
pub get-remove :
    (id j : ℕ) (s : Storage) → get j (remove id s) ≡ (if id == j then none else get j s)
unfolding get remove
get-remove id j s = ground (arith, find-erase id j s.objects)

module _ (live : ℕ → Bool) where
  Before-purge : (k : ℕ) (m : Map ℕ WeakPtr) → Before k m → Before k (purge live m)
  unfolding purge
  Before-purge k [] b = tt
  Before-purge k ((i, w) ∷ m) b = ground (arith, Before-purge k m b.1)

  purge-IsSorted : (m : Map ℕ WeakPtr) → IsSorted m → IsSorted (purge live m)
  unfolding purge
  purge-IsSorted [] s = tt
  purge-IsSorted ((i, w) ∷ m) s = ground (arith, purge-IsSorted m s.1, Before-purge i m s.0)

  pub size-purge-le : (m : Map ℕ WeakPtr) → size (purge live m) ≤ size m
  unfolding purge
  size-purge-le [] = omega arith
  size-purge-le ((i, w) ∷ m) = ground (arith, size-purge-le m)

  -- An optional entry, if it is not expired.
  abbrev pub unless_expired : Option WeakPtr → Option WeakPtr
  unless_expired none = none
  unless_expired (some w) = if expired live w then none else some w

  pub find-purge :
      (id : ℕ) (m : Map ℕ WeakPtr)
      → IsSorted m
      → find id (purge live m) ≡ unless_expired (find id m)
  unfolding find purge
  find-purge id [] s = refl
  find-purge id ((i, w) ∷ m) s =
      ground (arith, find-purge id m s.1, ==_iff i id, find-Before i m s.0)

  pub purge_expired-IsValid : (s : Storage) → IsValid s → IsValid (purge_expired live s)
  unfolding purge_expired
  purge_expired-IsValid s v =
      shrink-IsValid s (purge live s.objects) v (purge-IsSorted s.objects v.sorted)
        (size-purge-le s.objects) (λ j w e. ground (arith, find-purge j s.objects v.sorted))

  -- A stored id that `find_object` gives leads to the object.
  pub find_object-eq-some :
      (o i : ℕ) (m : Map ℕ WeakPtr)
      → IsSorted m
      → find_object live o m ≡ some i
      → find i m ≡ some (some o)
  unfolding find find_object
  find_object-eq-some o i [] s h = cc
  find_object-eq-some o i ((j, none) ∷ m) s h =
      ground (arith, find_object-eq-some o i m s.1, ==_iff j i, find-Before j m s.0)
  find_object-eq-some o i ((j, some p) ∷ m) s h =
      ground (arith, find_object-eq-some o i m s.1, ==_iff j i, ==_iff p o, find-Before j m s.0)

  -- It fails only for an object that is not stored.
  pub find_object-eq-none :
      (o i : ℕ) (m : Map ℕ WeakPtr)
      → live o ≡ true
      → find_object live o m ≡ none
      → find i m ≢ some (some o)
  unfolding find find_object
  find_object-eq-none o i [] l h e = cc
  find_object-eq-none o i ((j, none) ∷ m) l h e = ground (arith, find_object-eq-none o i m l)
  find_object-eq-none o i ((j, some p) ∷ m) l h e =
      ground (arith, find_object-eq-none o i m l, ==_iff p o)
