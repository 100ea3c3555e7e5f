-- ===== src/Storage/Repeats.antt =====
-- What becomes of an object of `UniqueIdObjectStorage` that is added again.
use objectlink_core_cpp.Prelude.{ℕ, ◌<◌, ◌≡◌, ◌≢◌, Bool, true, some, ==_iff, arith}
use objectlink_core_cpp.Map.{nat_key, find, size}
use objectlink_core_cpp.Storage.{Storage, invalid_id, lock, get, add}
use objectlink_core_cpp.Storage.Invariant.{IsValid}
use objectlink_core_cpp.Storage.Contract.{
  Outcome, full, known, stored, make_room, make_room-IsValid, add-Outcome,
}
use objectlink_core_cpp.Storage.Guarantees.{
  Outcome-IsValid, find-Outcome, max-make_room, find-make_room, outcome,
}

-- Adding a live object again, which a valid storage gave an id, gives its id again and changes
-- nothing, while there is room.
pub add_again :
    (live : ℕ → Bool) (o id : ℕ) (s s' : Storage)
    → IsValid s
    → live o ≡ true
    → add live (some o) s ≡ some (id, s')
    → id ≢ invalid_id
    → size s'.objects < s'.max_count
    → add live (some o) s' ≡ some (id, s')
add_again live o id s s' v alive e ok room =
    let out = outcome live o id s s' v alive e in
    let v' = Outcome-IsValid out (make_room-IsValid live o alive s v) in
    let there = (find-Outcome out (make_room-IsValid live o alive s v) ok).1 id in
    let (i, t, et, again) = add-Outcome live o alive s' v' in
    let same : (i ≡ id) × (t ≡ s') =
      settled v' (ground (arith, there, ==_iff id id)) (rw (has_room room) at again) in
    ground (arith, et, same)
  where
    has_room : size s'.objects < s'.max_count → make_room live s' ≡ s'
    has_room h = ground arith

    settled :
        {i : ℕ} {t : Storage}
        → IsValid s'
        → find id s'.objects ≡ some (some o)
        → Outcome o s' i t
        → (i ≡ id) × (t ≡ s')
    settled v' f (full h _ _) = absurd (omega arith)
    settled {i} v' f (known _ g et) = (v'.distinct i id o g f, et)
    settled v' f (stored c _ _ absent _) = absurd (absent id f)

-- A valid storage that is full of live objects refuses also an object that it holds already: `add`
-- returns the invalid id, although the object is still stored under its id.
pub add_full :
    (live : ℕ → Bool) (o id : ℕ) (s : Storage)
    → IsValid s
    → live o ≡ true
    → get id s ≡ some o
    → size (make_room live s).objects ≡ s.max_count
    → (s' : Storage) × (add live (some o) s ≡ some (invalid_id, s'))
      × (lock live (get id s') ≡ some o)
unfolding lock
add_full live o id s v alive held fullness =
    let (i, t, e, out) = add-Outcome live o alive s v in refused i t e out
  where
    refused :
        (i : ℕ) (t : Storage)
        → add live (some o) s ≡ some (i, t)
        → Outcome o (make_room live s) i t
        → (s' : Storage) × (add live (some o) s ≡ some (invalid_id, s'))
          × (lock live (get id s') ≡ some o)
    refused i t e (full _ bad et) =
        (t, ground (arith, e, bad), ground (arith, et, find-make_room live s id v))
    refused i t e (known room _ _) = absurd (omega (arith, max-make_room live s))
    refused i t e (stored c room _ _ _) = absurd (omega (arith, max-make_room live s))
