-- ===== src/Storage/Ids.antt =====
-- The ids that `UniqueIdObjectStorage` gives (getUniqueIdLocked), and what it stores under them.
use objectlink_core_cpp.Prelude.{
  ℕ, ◌+◌, ◌<◌, ◌≡◌, refl, ◌≢◌, inl, inr, true, false, none, some, ◌==◌, ==_iff, if◌then◌else◌,
  Bool-cases, Option-cases, arith,
}
use objectlink_core_cpp.Map.{nat_key, find, insert, size}
use objectlink_core_cpp.Map.Laws.{find-insert, size-insert-le, find_of_not-contains}
use objectlink_core_cpp.Map.Sorted.{insert-IsSorted}
use objectlink_core_cpp.Storage.{WeakPtr, Storage, bump, next_counter, get_unique_id}
use objectlink_core_cpp.Storage.Search.{bump-eq-add_one, next_counter-lt, search_unused-Finds}
use objectlink_core_cpp.Storage.Invariant.{IsValid}

-- `id` is new to `s`, and `s'` is `s` with its counter moved on.
pub record Fresh (s : Storage) (id : ℕ) (s' : Storage) : Type 0 where
  pub id_lt : id < s.max_count
  pub unused : find id s.objects ≡ none
  pub objects_eq : s'.objects ≡ s.objects
  pub max_eq : s'.max_count ≡ s.max_count
  pub counter_lt : s'.counter < s.max_count
  pub first_round :
      s'.overflowed ≡ false
      → (s.overflowed ≡ false) × (id ≡ s.counter) × (s'.counter ≡ s.counter + 1)

module _ (s : Storage) (v : IsValid s) (room : size s.objects < s.max_count) where
  unused_counter : s.overflowed ≡ false → find s.counter s.objects ≡ none
  unused_counter f = elim (Option-cases (find s.counter s.objects)) [
    | inl e ↦ e
    | inr (w, e) ↦ absurd (omega (arith, v.fresh f s.counter w e))
  ]

  counting-Fresh :
      s.overflowed ≡ false
      → (id : ℕ) × (s' : Storage) × (get_unique_id s ≡ some (id, s')) × Fresh s id s'
  unfolding get_unique_id
  counting-Fresh f = elim (Bool-cases (bump s.counter == s.max_count)) [
    | inl last ↦ (
      s.counter,
      record s { counter = 0; overflowed = true },
      rw (f, last),
      record {
        id_lt = lt;
        unused = unused_counter f;
        objects_eq = refl;
        max_eq = refl;
        counter_lt = omega arith;
        first_round = λ e. cc;
      },
    )
    | inr more ↦ (
      s.counter,
      record s { counter = bump s.counter },
      rw (f, more),
      record {
        id_lt = lt;
        unused = unused_counter f;
        objects_eq = refl;
        max_eq = refl;
        counter_lt = ground (arith, bump-eq-add_one s.counter, v.fits);
        first_round = λ e. (f, refl, ground (arith, bump-eq-add_one s.counter, v.fits));
      },
    )
  ]
    where
      lt : s.counter < s.max_count
      lt = v.counter_lt (omega arith)

  searching-Fresh :
      s.overflowed ≡ true
      → (id : ℕ) × (s' : Storage) × (get_unique_id s ≡ some (id, s')) × Fresh s id s'
  unfolding get_unique_id
  searching-Fresh f =
      let (id, e, lt, free) =
        search_unused-Finds s.objects s.max_count s.counter (omega (arith, v.fits))
          (v.counter_lt (omega arith)) room in
      (
        id,
        record s { counter = next_counter s.max_count id },
        ground (arith, e),
        record {
          id_lt = lt;
          unused = find_of_not-contains id s.objects free;
          objects_eq = refl;
          max_eq = refl;
          counter_lt = next_counter-lt s.max_count id (omega (arith, v.fits)) lt;
          first_round = λ e. cc;
        },
      )

  -- With room left in a valid storage, `getUniqueIdLocked` ends with an id in range that no entry
  -- has, and leaves the entries.
  pub get_unique_id-Fresh :
      (id : ℕ) × (s' : Storage) × (get_unique_id s ≡ some (id, s')) × Fresh s id s'
  get_unique_id-Fresh = elim (Bool-cases s.overflowed) [
    | inl f ↦ searching-Fresh f
    | inr f ↦ counting-Fresh f
  ]

  -- Storing a new object under a new id keeps the storage valid.
  pub store-IsValid :
      (id o : ℕ) (s' : Storage)
      → Fresh s id s'
      → ((i : ℕ) → find i s.objects ≢ some (some o))
      → IsValid (record s' { objects = insert id (some o) s'.objects })
  store-IsValid id o s' f absent = record {
    sorted = rw (f.objects_eq) (insert-IsSorted id (some o) s.objects v.sorted);
    bounded = rw (f.objects_eq) (omega (arith, f.max_eq, size-insert-le id (some o) s.objects));
    fits = omega (arith, f.max_eq, v.fits);
    counter_lt = λ p. omega (arith, f.counter_lt, f.max_eq);
    below = λ j w e. ground (arith, stored j w e, ==_iff id j, v.below j w, f.id_lt, f.max_eq);
    fresh = λ n j w e.
        ground (arith, stored j w e, ==_iff id j, v.fresh (f.first_round n).0 j w, f.first_round n);
    distinct = λ i j p e e'. ground (
      arith,
      stored i (some p) e,
      stored j (some p) e',
      ==_iff id i,
      ==_iff id j,
      v.distinct i j p,
      absent i,
      absent j,
    );
  }
    where
      stored :
          (j : ℕ) (w : WeakPtr)
          → find j (insert id (some o) s'.objects) ≡ some w
          → (if id == j then some (some o) else find j s.objects) ≡ some w
      stored j w e = ground (arith, e, f.objects_eq, find-insert id j (some o) s.objects)
