-- ===== src/Storage/Guarantees.antt =====
-- What a user of `UniqueIdObjectStorage` may rely on.
use objectlink_core_cpp.Prelude.{
  ℕ, ◌<◌, ◌≡◌, refl, ◌≢◌, ◌↔◌, inl, inr, Bool, true, [], ◌∷◌, Option, none, some, ◌==◌, ==_iff,
  if◌then◌else◌, Bool-cases, arith, List, subst₂, sym, ◌∙◌,
}
use objectlink_core_cpp.Map.{nat_key, find, size}
use objectlink_core_cpp.Map.Laws.{find-insert}
use objectlink_core_cpp.Storage.{
  WeakPtr, Storage, invalid_id, lock, expired, get, purge_expired, add, remove,
}
use objectlink_core_cpp.Storage.Invariant.{
  IsValid, remove-IsValid, purge_expired-IsValid, find-purge,
}
use objectlink_core_cpp.Storage.Ids.{store-IsValid}
use objectlink_core_cpp.Storage.Contract.{
  Outcome, full, known, stored, make_room, make_room-IsValid, add-Outcome,
}

-- A method call, with the objects that have an owner when it is made.
pub data Call : Type 0 where
  adds : (ℕ → Bool) → WeakPtr → Call
  removes : ℕ → Call
  purges : (ℕ → Bool) → Call

abbrev pub kept : Storage → Option (ℕ × Storage) → Storage
kept s none = s
kept s (some (id, s')) = s'

unfoldable pub step : Storage → Call → Storage
step s (adds live w) = kept s (add live w s)
step s (removes id) = remove id s
step s (purges live) = purge_expired live s

unfoldable pub run : Storage → List Call → Storage
unfolding step
run s [] = s
run s (c ∷ cs) = run (step s c) cs

module _ {o id : ℕ} {s s' : Storage} where
  max-Outcome : Outcome o s id s' → s'.max_count ≡ s.max_count
  max-Outcome (full _ _ e) = rw e
  max-Outcome (known _ _ e) = rw e
  max-Outcome (stored c _ f _ e) = rw e f.max_eq

  pub Outcome-IsValid : Outcome o s id s' → IsValid s → IsValid s'
  Outcome-IsValid (full _ _ e) v = rw e v
  Outcome-IsValid (known _ _ e) v = rw e v
  Outcome-IsValid (stored c room f absent e) v = rw e (store-IsValid s v room id o c f absent)

  -- Only the returned id is written.
  pub find-Outcome :
      Outcome o s id s'
      → IsValid s
      → id ≢ invalid_id
      → (id < s.max_count)
        × ((j : ℕ) → find j s'.objects ≡ (if id == j then some (some o) else find j s.objects))
  find-Outcome (full _ i _) v h = absurd (h i)
  find-Outcome (known room f e) v h =
      (v.below id (some o) f, λ j. ground (arith, e, f, ==_iff id j))
  find-Outcome (stored c room f absent e) v h =
      (f.id_lt, λ j. ground (arith, e, f.objects_eq, find-insert id j (some o) s.objects))

  -- The call fails only at a full storage.
  failed-Outcome :
      Outcome o s id s' → IsValid s → (id ≡ invalid_id) ↔ (size s.objects ≡ s.max_count)
  failed-Outcome (full h i e) v = (λ _. h, λ _. i)
  failed-Outcome (known room f e) v =
      (λ i. absurd (omega (arith, v.below id (some o) f, v.fits)), λ h. absurd (omega arith))
  failed-Outcome (stored c room f absent e) v =
      (λ i. absurd (omega (arith, f.id_lt, v.fits)), λ h. absurd (omega arith))

module _ (live : ℕ → Bool) where
  pub max-make_room : (s : Storage) → (make_room live s).max_count ≡ s.max_count
  unfolding purge_expired
  max-make_room s = ground arith

  pub find-make_room :
      (s : Storage) (j : ℕ) → IsValid s → lock live (get j (make_room live s)) ≡ lock live (get j s)
  unfolding purge_expired get lock expired
  find-make_room s j v = ground (arith, find-purge live j s.objects v.sorted)

  pub outcome :
      (o id : ℕ) (s s' : Storage)
      → IsValid s
      → live o ≡ true
      → add live (some o) s ≡ some (id, s')
      → Outcome o (make_room live s) id s'
  outcome o id s s' v alive e =
      let (i, t, eu, out) = add-Outcome live o alive s v in
      let same : ◌≡◌ {A = Option (ℕ × Storage)} (some (i, t)) (some (id, s')) = sym eu ∙ e in
      let ei : i ≡ id = cc in
      let et : t ≡ s' = cc in subst₂ (λ i t. Outcome o (make_room live s) i t) ei et out

-- In a valid storage `add` always returns, for any weak pointer, and leaves the storage valid: the
-- search for an id ends.
pub add_total :
    (live : ℕ → Bool) (w : WeakPtr) (s : Storage)
    → IsValid s
    → (id : ℕ) × (s' : Storage) × (add live w s ≡ some (id, s')) × IsValid s'
unfolding lock add
add_total live none s v = (invalid_id, s, refl, v)
add_total live (some o) s v = elim (Bool-cases (live o)) [
  | inr dead ↦ (invalid_id, s, ground (arith, dead), v)
  | inl alive ↦
      let (id, s', e, out) = add-Outcome live o alive s v in
      (id, s', e, Outcome-IsValid out (make_room-IsValid live o alive s v))
]

module _ (live : ℕ → Bool) (o id : ℕ) (s s' : Storage) (v : IsValid s) (alive : live o ≡ true)
    (added : add live (some o) s ≡ some (id, s')) where
  room-IsValid : IsValid (make_room live s)
  room-IsValid = make_room-IsValid live o alive s v

  -- A live object is refused by a valid storage exactly when the storage is full and a purge frees
  -- no place.
  pub add_fails_iff : (id ≡ invalid_id) ↔ (size (make_room live s).objects ≡ s.max_count)
  add_fails_iff =
      let (to, from) = failed-Outcome (outcome live o id s s' v alive added) room-IsValid in
      (
        λ e. omega (arith, to e, max-make_room live s),
        λ e. from (omega (arith, max-make_room live s)),
      )

  -- An id that `add` grants to a live object in a valid storage is below the maximum count and
  -- leads to the object, and every other id leads to the live object it led to.
  pub get-add :
      id ≢ invalid_id
      → (id < s.max_count)
        × (get id s' ≡ some o)
        × ((j : ℕ) → j ≢ id → lock live (get j s') ≡ lock live (get j s))
  unfolding get
  get-add ok =
      let (lt, finds) = find-Outcome (outcome live o id s s' v alive added) room-IsValid ok in
      (
        omega (arith, max-make_room live s),
        ground (arith, finds id, ==_iff id id),
        λ j ne. ground (arith, finds j, ==_iff id j, find-make_room live s j v),
      )

-- Two different live objects that are added one after the other to a valid storage never share an
-- id, also after the counter has wrapped.
pub add_distinct :
    (live : ℕ → Bool) (o p i j : ℕ) (s t u : Storage)
    → IsValid s
    → live o ≡ true
    → live p ≡ true
    → o ≢ p
    → add live (some o) s ≡ some (i, t)
    → add live (some p) t ≡ some (j, u)
    → i ≢ invalid_id
    → j ≢ invalid_id
    → i ≢ j
unfolding get lock
add_distinct live o p i j s t u v ao ap ne eo ep io jo e =
    let vt = Outcome-IsValid (outcome live o i s t v ao eo) (make_room-IsValid live o ao s v) in
    separate (outcome live p j t u vt ap ep) (get-add live o i s t v ao eo io).1 vt
  where
    separate : Outcome p (make_room live t) j u → get i t ≡ some o → IsValid t → ⊥
    separate (full _ bad _) g vt = jo bad
    separate (known _ f _) g vt = ground (arith, find-make_room live t i vt)
    separate (stored c _ f _ _) g vt = ground (arith, find-make_room live t i vt, f.unused)

-- Calls of add, remove and purgeExpired keep a storage valid.
pub run-IsValid : (s : Storage) (calls : List Call) → IsValid s → IsValid (run s calls)
unfolding run step
run-IsValid s [] v = v
run-IsValid s (adds live w ∷ cs) v =
    let (id, s', e, v') = add_total live w s v in
    run-IsValid (step s (adds live w)) cs (rw (e, step) v')
run-IsValid s (removes id ∷ cs) v = run-IsValid (remove id s) cs (remove-IsValid id s v)
run-IsValid s (purges live ∷ cs) v =
    run-IsValid (purge_expired live s) cs (purge_expired-IsValid live s v)
