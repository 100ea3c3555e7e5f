-- ===== src/Storage/Rounds.antt =====
-- The ids that the calls on a `UniqueIdObjectStorage` give before its counter wraps.
use objectlink_core_cpp.Prelude.{
  ℕ, ◌+◌, ◌≤◌, ◌≡◌, Bool, true, false, List, [], ◌∷◌, ◌++◌, Option, none, some, ◌==◌, if◌then◌else◌,
  sym, ◌∙◌, Bool-cases, inl, inr, ◌⊎◌, arith,
}
use objectlink_core_cpp.Map.{nat_key, find}
use objectlink_core_cpp.Storage.{
  WeakPtr, Storage, invalid_id, lock, get, purge_expired, add, remove,
}
use objectlink_core_cpp.Storage.Invariant.{IsValid}
use objectlink_core_cpp.Storage.Contract.{Outcome, full, known, stored, make_room, add-Outcome}
use objectlink_core_cpp.Storage.Guarantees.{
  Call, adds, removes, purges, step, run, find-make_room, run-IsValid,
}

same : WeakPtr → WeakPtr → Bool
same (some p) (some o) = p == o
same _ _ = false

-- The id that `add` returned, unless it is the invalid one, or led to the object already.
given : Storage → WeakPtr → Option (ℕ × Storage) → List ℕ
unfolding same
given s w none = []
given s w (some (id, s')) =
    if id == invalid_id then [] else if same (get id s) w then [] else id ∷ []

unfoldable pub ids_given : Storage → Call → List ℕ
unfolding given
ids_given s (adds live w) = given s w (add live w s)
ids_given s (removes id) = []
ids_given s (purges live) = []

-- The ids that a run of calls gives, in order.
unfoldable pub run_given : Storage → List Call → List ℕ
unfolding ids_given
run_given s [] = []
run_given s (c ∷ cs) = ids_given s c ++ run_given (step s c) cs

-- The numbers rise strictly, from `a` on and below `b`.
unfoldable pub IsRising : ℕ → ℕ → List ℕ → Type 0
IsRising a b [] = a ≤ b
IsRising a b (i ∷ is) = (a ≤ i) × IsRising (i + 1) b is

IsRising-append :
    (a b c : ℕ) (is js : List ℕ) → IsRising a b is → IsRising b c js → IsRising a c (is ++ js)
unfolding IsRising
IsRising-append a b c [] js h k = lower js k
  where
    lower : (js : List ℕ) → IsRising b c js → IsRising a c js
    lower [] k = omega (arith, h, k)
    lower (j ∷ js) k = (omega (arith, h, k.0), k.1)
IsRising-append a b c (i ∷ is) js h k = (h.0, IsRising-append (i + 1) b c is js h.1 k)

-- What a call that keeps the storage in its first round gives, and the counters before and after.
abbrev IsRound : Storage → Storage → List ℕ → Type 0
IsRound s t ids = (s.overflowed ≡ false) × IsRising s.counter t.counter ids

given-full :
    (o : ℕ) (s : Storage) (id : ℕ) (t : Storage)
    → id ≡ invalid_id
    → given s (some o) (some (id, t)) ≡ []
unfolding given
given-full o s id t e = ground (arith, e)

module _ (live : ℕ → Bool) (o : ℕ) (alive : live o ≡ true) (s : Storage) (v : IsValid s) where
  counter-make_room :
      ((make_room live s).counter ≡ s.counter) × ((make_room live s).overflowed ≡ s.overflowed)
  unfolding purge_expired
  counter-make_room = (ground arith, ground arith)

  given-known :
      (id : ℕ) (t : Storage)
      → same (get id s) (some o) ≡ true
      → given s (some o) (some (id, t)) ≡ []
  unfolding given
  given-known id t e = ground (arith, e)

  given-IsRising :
      (id : ℕ) (t : Storage) (a b : ℕ)
      → a ≤ id
      → id + 1 ≤ b
      → IsRising a b (given s (some o) (some (id, t)))
  unfolding given IsRising
  given-IsRising id t a b h k = elim (Bool-cases (id == invalid_id)) [
    | inl e ↦ rw e (omega (arith, h, k))
    | inr e ↦ elim (Bool-cases (same (get id s) (some o))) [
      | inl f ↦ rw (e, f) (omega (arith, h, k))
      | inr f ↦ rw (e, f) (h, k)
    ]
  ]

  lock-same : (w : WeakPtr) → lock live w ≡ some o → same w (some o) ≡ true
  unfolding lock same
  lock-same none h = absurd cc
  lock-same (some p) h = ground (arith, h)

  known-same :
      (id : ℕ)
      → find id (make_room live s).objects ≡ some (some o)
      → same (get id s) (some o) ≡ true
  unfolding get lock
  known-same id k =
      lock-same (get id s) (sym (find-make_room live s id v) ∙ ground (arith, k, alive))

  Outcome-IsRound :
      (id : ℕ) (t : Storage)
      → Outcome o (make_room live s) id t
      → t.overflowed ≡ false
      → IsRound s t (given s (some o) (some (id, t)))
  unfolding IsRising
  Outcome-IsRound id t (full _ i e) f =
      let (c, d) = counter-make_room in
      (ground (arith, d, e, f), rw (given-full o s id t i) (ground (arith, c, e)))
  Outcome-IsRound id t (known _ k e) f =
      let (c, d) = counter-make_room in
      (ground (arith, d, e, f), rw (given-known id t (known-same id k)) (ground (arith, c, e)))
  Outcome-IsRound id t (stored c _ g _ e) f =
      let (a, d) = counter-make_room in
      let (x, y, z) = g.first_round (ground (arith, e, f)) in
      (
        ground (arith, d, x),
        given-IsRising id t s.counter t.counter (ground (arith, y, a)) (ground (arith, y, z, e, a)),
      )

  add-IsRound :
      (step s (adds live (some o))).overflowed ≡ false
      → IsRound s (step s (adds live (some o))) (ids_given s (adds live (some o)))
  unfolding step ids_given
  add-IsRound f =
      let (id, t, e, out) = add-Outcome live o alive s v in
      rw e (Outcome-IsRound id t out (rw e at f))

refused :
    (live : ℕ → Bool) (o : ℕ) (s : Storage)
    → live o ≡ false
    → add live (some o) s ≡ some (invalid_id, s)
unfolding add lock
refused live o s dead = ground (arith, dead)

step-IsRound :
    (s : Storage) (c : Call)
    → IsValid s
    → (step s c).overflowed ≡ false
    → IsRound s (step s c) (ids_given s c)
unfolding step ids_given IsRising remove purge_expired
step-IsRound s (removes id) v f = (f, omega arith)
step-IsRound s (purges live) v f = (f, omega arith)
step-IsRound s (adds live none) v f = unfold add lock given in (f, omega arith)
step-IsRound s (adds live (some o)) v f = elim (Bool-cases (live o)) [
  | inl alive ↦ add-IsRound live o alive s v f
  | inr dead ↦ let e = refused live o s dead in (rw (e, step) at f, rw e (omega arith))
]

step-IsValid : (s : Storage) (c : Call) → IsValid s → IsValid (step s c)
unfolding run
step-IsValid s c v = run-IsValid s (c ∷ []) v

run-IsRound :
    (s : Storage) (cs : List Call)
    → IsValid s
    → (run s cs).overflowed ≡ false
    → IsRound s (run s cs) (run_given s cs)
unfolding run run_given IsRising
run-IsRound s [] v f = (f, omega arith)
run-IsRound s (c ∷ cs) v f =
    let (g, rest) = run-IsRound (step s c) cs (step-IsValid s c v) f in
    let (h, one) = step-IsRound s c v g in
    (h, IsRising-append s.counter (step s c).counter _ (ids_given s c) _ one rest)

-- Whatever calls of add, remove and purgeExpired are made on a valid storage, in whatever order, it
-- stays valid; and unless its counter has wrapped at the end, the ids that were given to objects
-- that did not have them rise strictly, from the counter at the start on and below the counter at
-- the end. So none of them is given twice, removed ones included.
pub first_round :
    (s : Storage) (cs : List Call)
    → IsValid s
    → IsValid (run s cs)
      × (((run s cs).overflowed ≡ true) ⊎ IsRising s.counter (run s cs).counter (run_given s cs))
first_round s cs v = (
  run-IsValid s cs v,
  elim (Bool-cases (run s cs).overflowed) [ inl e ↦ inl e | inr e ↦ inr (run-IsRound s cs v e).1 ],
)
