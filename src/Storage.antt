-- ===== src/Storage.antt =====
-- src/olink/core/uniqueidobjectstorage.h: `UniqueIdObjectStorage`, which keeps weak pointers and
-- gives each object an id. Every public method holds the one mutex throughout, so that a method is
-- one step. An object is known by a number, its control block, which is not used again while a weak
-- pointer to it is left; `live` says which objects still have an owner at the time of the call.
-- `unsigned long` has 64 bits.
use objectlink_core_cpp.Prelude.{
  ℕ, zero, suc, ◌+◌, ◌%◌, ◌^◌, Bool, true, false, not, ◌&&◌, [], ◌∷◌, Option, none, some, ◌==◌,
  if◌then◌else◌,
}
use objectlink_core_cpp.Map.{Key, nat_key, Map, find, contains, insert, erase, size}
pub mod Search
pub mod Invariant
pub mod Ids
pub mod Contract
pub mod Guarantees
pub mod Repeats
pub mod Rounds
pub mod Deadlock

-- A `std::weak_ptr`: empty, or a reference to an object.
abbrev pub WeakPtr : Type 0
WeakPtr = Option ℕ

-- w.expired(), where `live` tells the objects that have an owner
unfoldable pub expired : (ℕ → Bool) → WeakPtr → Bool
expired live none = true
expired live (some o) = not (live o)

-- w.lock(): the object, if it is not expired
unfoldable pub lock : (ℕ → Bool) → WeakPtr → Option ℕ
lock live none = none
lock live (some o) = if live o then some o else none

abbrev pub ulong_mod : ℕ
ulong_mod = 2 ^ 64

abbrev pub invalid_id : ℕ
invalid_id = 0xFFFFFFFF

pub record Storage : Type 0 where
  pub max_count : ℕ
  pub objects : Map ℕ WeakPtr
  pub counter : ℕ
  pub overflowed : Bool

unfoldable pub init : ℕ → Storage
init max_count = record { max_count = max_count; objects = []; counter = 0; overflowed = false }

unfoldable pub purge : (ℕ → Bool) → Map ℕ WeakPtr → Map ℕ WeakPtr
purge live [] = []
purge live ((i, w) ∷ m) = let rest = purge live m in if expired live w then rest else (i, w) ∷ rest

-- purgeExpired, purgeExpiredLocked
unfoldable pub purge_expired : (ℕ → Bool) → Storage → Storage
unfolding purge
purge_expired live s = record s { objects = purge live s.objects }

unfoldable pub remove : ℕ → Storage → Storage
remove id s = record s { objects = erase id s.objects }

unfoldable pub get : ℕ → Storage → WeakPtr
get id s = elim (find id s.objects) [ none ↦ none | some w ↦ w ]

unfoldable pub bump : ℕ → ℕ
bump c = (c + 1) % ulong_mod

-- `m_counter += 1; if (m_counter == m_maxCount) m_counter = 0;`
unfoldable pub next_counter : ℕ → ℕ → ℕ
unfolding bump
next_counter max_count c = if bump c == max_count then 0 else bump c

-- The search for an unused id after the overflow: the id found or `invalid_id`, and the counter.
-- `none` means that the fuel ran out.
unfoldable pub search_unused : ℕ → Map ℕ WeakPtr → ℕ → ℕ → ℕ → Option (ℕ × ℕ)
unfolding next_counter
search_unused zero objects max_count start c = none
search_unused (suc fuel) objects max_count start c =
    let rest = search_unused fuel objects max_count start (next_counter max_count c) in
    if contains c objects
    then if size objects == max_count
      then some (invalid_id, bump c)
      else if next_counter max_count c == start
      then some (invalid_id, next_counter max_count c)
      else rest
    else some (c, next_counter max_count c)

-- getUniqueIdLocked. The search visits each counter below `max_count` once at most, so this is fuel
-- enough.
unfoldable pub get_unique_id : Storage → Option (ℕ × Storage)
unfolding search_unused
get_unique_id s =
    if not s.overflowed
    then if bump s.counter == s.max_count
      then some (s.counter, record s { counter = 0; overflowed = true })
      else some (s.counter, record s { counter = bump s.counter })
    else elim (search_unused s.max_count s.objects s.max_count s.counter s.counter) [
      | none ↦ none
      | some (id, c) ↦ some (id, record s { counter = c })
    ]

-- The `std::find_if` of `add`: the id under which a live object is stored.
unfoldable pub find_object : (ℕ → Bool) → ℕ → Map ℕ WeakPtr → Option ℕ
find_object live o [] = none
find_object live o ((i, none) ∷ m) = find_object live o m
find_object live o ((i, some p) ∷ m) = if live p && (p == o) then some i else find_object live o m

store_new : ℕ → Option (ℕ × Storage) → Option (ℕ × Storage)
store_new o none = none
store_new o (some (id, s)) =
    if id == invalid_id
    then some (invalid_id, s)
    else some (id, record s { objects = insert id (some o) s.objects })

-- The part of `add` behind the test of the size.
unfoldable pub add_unless_stored : (ℕ → Bool) → ℕ → Storage → Option (ℕ × Storage)
unfolding store_new
add_unless_stored live o s = elim (find_object live o s.objects) [
  | some id ↦ some (id, s)
  | none ↦ store_new o (get_unique_id s)
]

add_locked : (ℕ → Bool) → ℕ → Storage → Option (ℕ × Storage)
add_locked live o s =
    let purged = purge_expired live s in
    if size s.objects == s.max_count
    then if size purged.objects == s.max_count
      then some (invalid_id, purged)
      else add_unless_stored live o purged
    else add_unless_stored live o s

-- The id given, and the storage; `none` only if the search ran out of fuel.
unfoldable pub add : (ℕ → Bool) → WeakPtr → Storage → Option (ℕ × Storage)
unfolding add_locked
add live w s = elim (lock live w) [ none ↦ some (invalid_id, s) | some o ↦ add_locked live o s ]
