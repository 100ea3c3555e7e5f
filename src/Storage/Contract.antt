-- ===== src/Storage/Contract.antt =====
-- What `UniqueIdObjectStorage::add` promises: its three outcomes, and that it always has one.
use objectlink_core_cpp.Prelude.{
  ℕ, ◌<◌, ◌≡◌, refl, ◌≢◌, inl, inr, Bool, true, some, ◌==◌, if◌then◌else◌, Bool-cases, Option-cases,
  arith,
}
use objectlink_core_cpp.Map.{nat_key, find, insert, size}
use objectlink_core_cpp.Storage.{
  Storage, invalid_id, lock, find_object, purge_expired, add_unless_stored, add,
}
use objectlink_core_cpp.Storage.Invariant.{
  IsValid, find_object-eq-some, find_object-eq-none, purge_expired-IsValid,
}
use objectlink_core_cpp.Storage.Ids.{Fresh, get_unique_id-Fresh}

-- The storage that `add` works on: a full one is purged first.
abbrev pub make_room : (ℕ → Bool) → Storage → Storage
make_room live s = if size s.objects == s.max_count then purge_expired live s else s

-- `s` is the storage with room made, `id` what `add` returns for the object `o`, `s'` what it leaves.
pub data Outcome (o : ℕ) (s : Storage) (id : ℕ) (s' : Storage) : Type 0 where
  full : size s.objects ≡ s.max_count → id ≡ invalid_id → s' ≡ s → Outcome o s id s'
  known :
      size s.objects < s.max_count → find id s.objects ≡ some (some o) → s' ≡ s → Outcome o s id s'
  stored :
      (c : Storage)
      → size s.objects < s.max_count
      → Fresh s id c
      → ((i : ℕ) → find i s.objects ≢ some (some o))
      → s' ≡ record c { objects = insert id (some o) c.objects }
      → Outcome o s id s'

module _ (live : ℕ → Bool) (o : ℕ) (alive : live o ≡ true) where
  pub make_room-IsValid : (s : Storage) → IsValid s → IsValid (make_room live s)
  make_room-IsValid s v = elim (Bool-cases (size s.objects == s.max_count)) [
    | inl e ↦ rw e (purge_expired-IsValid live s v)
    | inr e ↦ rw e v
  ]

  add_unless_stored-Outcome :
      (s : Storage)
      → IsValid s
      → size s.objects < s.max_count
      → (id : ℕ) × (s' : Storage) × (add_unless_stored live o s ≡ some (id, s')) × Outcome o s id s'
  unfolding add_unless_stored
  add_unless_stored-Outcome s v room = elim (Option-cases (find_object live o s.objects)) [
    | inr (i, e) ↦ (
      i,
      s,
      rw (e, add_unless_stored),
      known room (find_object-eq-some live o i s.objects v.sorted e) refl,
    )
    | inl e ↦
        let (id, c, eu, f) = get_unique_id-Fresh s v room in
        (
          id,
          record c { objects = insert id (some o) c.objects },
          ground (arith, e, eu, f.id_lt, v.fits),
          stored c room f (λ i. find_object-eq-none live o i s.objects alive e) refl,
        )
  ]

  add-make_room :
      (s : Storage)
      → add live (some o) s ≡ (
          if size (make_room live s).objects == s.max_count
          then some (invalid_id, make_room live s)
          else add_unless_stored live o (make_room live s))
  unfolding add lock add_unless_stored purge_expired
  add-make_room s = ground arith

  max-make_room : (s : Storage) → (make_room live s).max_count ≡ s.max_count
  unfolding purge_expired
  max-make_room s = ground arith

  -- `add` of a live object ends in one of the three ways, whatever the storage holds.
  pub add-Outcome :
      (s : Storage)
      → IsValid s
      → (id : ℕ) × (s' : Storage) × (add live (some o) s ≡ some (id, s'))
        × Outcome o (make_room live s) id s'
  add-Outcome s v = elim (Bool-cases (size (make_room live s).objects == s.max_count)) [
    | inl e ↦ (
      invalid_id,
      make_room live s,
      ground (arith, add-make_room s, e),
      full (ground (arith, e, max-make_room s)) refl refl,
    )
    | inr e ↦
        let w = make_room-IsValid s v in
        let (id, s', eu, out) =
          add_unless_stored-Outcome (make_room live s) w
            (ground (arith, e, max-make_room s, w.bounded)) in
        (id, s', ground (arith, add-make_room s, e, eu), out)
  ]
