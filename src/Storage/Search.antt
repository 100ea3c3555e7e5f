-- ===== src/Storage/Search.antt =====
-- The search for an unused id after the overflow (getUniqueIdLocked).
use objectlink_core_cpp.Prelude.{
  ℕ, zero, suc, ◌+◌, ◌-◌, ◌<◌, ◌≡◌, inl, inr, true, false, Option, some, arith, ltb, ◌==◌, ==_iff,
  if◌then◌else◌, Bool-cases,
}
use objectlink_core_cpp.Map.{nat_key, Map, contains, size}
use objectlink_core_cpp.Map.Laws.{size_of_all_below, find_of_contains}
use objectlink_core_cpp.Storage.{WeakPtr, ulong_mod, bump, next_counter, search_unused}

-- The counter `k` steps after zero, for `k` below twice `max_count`.
abbrev wrap : ℕ → ℕ → ℕ
wrap max_count k = if ltb k max_count then k else k - max_count

pub bump-eq-add_one : (c : ℕ) → c + 1 < ulong_mod → bump c ≡ c + 1
unfolding bump
bump-eq-add_one c h = omega arith

pub next_counter-lt :
    (max_count c : ℕ) → max_count < ulong_mod → c < max_count → next_counter max_count c < max_count
unfolding next_counter
next_counter-lt max_count c h k = ground (arith, bump-eq-add_one c)

next_counter-wrap :
    (max_count start d : ℕ)
    → max_count < ulong_mod
    → start < max_count
    → d < max_count
    → next_counter max_count (wrap max_count (start + d)) ≡ wrap max_count (start + suc d)
unfolding next_counter
next_counter-wrap max_count start d h k l =
    ground (arith, bump-eq-add_one (wrap max_count (start + d)))

module _ (objects : Map ℕ WeakPtr) (max_count start : ℕ) (fits : max_count < ulong_mod)
    (starts : start < max_count) (room : size objects < max_count) where
  -- The first `d` counters from `start` on are in use.
  abbrev Visited : ℕ → Type 0
  Visited d = (i : ℕ) → i < d → contains (wrap max_count (start + i)) objects ≡ true

  Visited-suc :
      (d : ℕ) → Visited d → contains (wrap max_count (start + d)) objects ≡ true → Visited (suc d)
  Visited-suc d v h i lt = elim (Bool-cases (i == d)) [
    | inl e ↦ rw ((==_iff i d).0 e) h
    | inr e ↦ v i (ground arith)
  ]

  -- They cannot all be.
  not-Visited_max : ¬ Visited max_count
  not-Visited_max v =
      omega
        (arith, size_of_all_below max_count objects λ i lt. find_of_contains i objects (used i lt))
    where
      used : (i : ℕ) → i < max_count → contains i objects ≡ true
      used i lt = elim (Bool-cases (ltb i start)) [
        | inl before ↦
            let e : wrap max_count (start + (i + max_count - start)) ≡ i = ground arith in
            rw e at (v (i + max_count - start) (ground arith))
        | inr after ↦
            let e : wrap max_count (start + (i - start)) ≡ i = ground arith in
            rw e at (v (i - start) (ground arith))
      ]

  abbrev Finds : Option (ℕ × ℕ) → Type 0
  Finds r =
      (id : ℕ) × (r ≡ some (id, next_counter max_count id))
      × (id < max_count)
      × (contains id objects ≡ false)

  -- The walk is not back at its start, and goes on.
  not_round :
      (c d fuel : ℕ)
      → d + suc fuel ≡ max_count
      → contains c objects ≡ true
      → next_counter max_count c ≡ wrap max_count (start + suc d)
      → Visited (suc d)
      → Finds (search_unused fuel objects max_count start (next_counter max_count c))
      → Finds (search_unused (suc fuel) objects max_count start c)
  unfolding search_unused
  not_round c d fuel e used en seen (id, er, lt, free) =
      (id, rw (used, not_full, not_start, er), lt, free)
    where
      not_full : (size objects == max_count) ≡ false
      not_full = ground arith

      not_start : (next_counter max_count c == start) ≡ false
      not_start = elim (Bool-cases (next_counter max_count c == start)) [
        | inl back ↦
            let last : suc d ≡ max_count = ground (arith, back) in
            absurd (not-Visited_max (rw last at seen))
        | inr other ↦ other
      ]

  search_unused-Finds_from :
      (fuel d c : ℕ)
      → d + fuel ≡ max_count
      → c ≡ wrap max_count (start + d)
      → Visited d
      → Finds (search_unused fuel objects max_count start c)
  unfolding search_unused
  search_unused-Finds_from zero d c e ec v =
      let e' : d ≡ max_count = omega arith in absurd (not-Visited_max (rw e' at v))
  search_unused-Finds_from (suc fuel) d c e ec v = elim (Bool-cases (contains c objects)) [
    | inl used ↦
        let seen : Visited (suc d) = Visited-suc d v (rw ec at used) in
        let en : next_counter max_count c ≡ wrap max_count (start + suc d) =
          rw ec (next_counter-wrap max_count start d fits starts (omega arith)) in
        let rest =
          search_unused-Finds_from fuel (suc d) (next_counter max_count c) (omega arith) en seen in
        not_round c d fuel e used en seen rest
    | inr free ↦ (c, rw free, ground arith, free)
  ]

  -- From any counter, with fewer entries than ids, the search ends with an id that is not in use.
  pub search_unused-Finds : Finds (search_unused max_count objects max_count start start)
  search_unused-Finds =
      search_unused-Finds_from max_count 0 start (omega arith) (ground arith) (λ i h. elim h [ ])
