-- ===== src/Name.antt =====
-- src/olink/core/types.h and types.cpp: class `Name`, which joins an object id and a member name to a
-- member id, and takes a member id apart. A position that `std::string` gives as `npos` is `none`.
use objectlink_core_cpp.Prelude.{
  ℕ, zero, suc, ◌+◌, Bool, true, false, ◌&&◌, [], ◌∷◌, ◌++◌, Option, none, some, Str, text, ◌==◌,
  if◌then◌else◌,
}
pub mod Laws

abbrev pub slash : ℕ
slash = b'/'

-- s.find(c), s.find_first_of(c)
unfoldable pub find_first_of : ℕ → Str → Option ℕ
find_first_of c [] = none
find_first_of c (x ∷ s) =
    if x == c then some 0 else elim (find_first_of c s) [ none ↦ none | some i ↦ some (suc i) ]

-- s.find_last_of(c)
unfoldable pub find_last_of : ℕ → Str → Option ℕ
find_last_of c [] = none
find_last_of c (x ∷ s) = elim (find_last_of c s) [
  | none ↦ if x == c then some 0 else none
  | some i ↦ some (suc i)
]

unfoldable pub drop : ℕ → Str → Str
drop zero s = s
drop (suc n) [] = []
drop (suc n) (x ∷ s) = drop n s

-- s.substr(0, n): the whole text where `n` is `npos`
unfoldable pub take_to : Option ℕ → Str → Str
take_to none s = s
take_to (some zero) s = []
take_to (some (suc n)) [] = []
take_to (some (suc n)) (x ∷ s) = x ∷ take_to (some n) s

same_position : Option ℕ → Option ℕ → Bool
same_position none none = true
same_position (some i) (some j) = i == j
same_position _ _ = false

found : Option ℕ → Bool
found none = false
found (some i) = true

-- find_last_of(c) + 1; `npos + 1` wraps to zero
after : Option ℕ → ℕ
after none = 0
after (some i) = suc i

unfoldable pub get_object_id : Str → Str
unfolding take_to find_first_of
get_object_id member_id = take_to (find_first_of slash member_id) member_id

unfoldable pub is_member_id : Str → Bool
unfolding find_first_of find_last_of same_position found
is_member_id id =
    found (find_first_of slash id) && same_position (find_first_of slash id) (find_last_of slash id)

unfoldable pub get_member_name : Str → Str
unfolding is_member_id find_last_of drop after
get_member_name member_id =
    if is_member_id member_id then drop (after (find_last_of slash member_id)) member_id else []

unfoldable pub create_member_id : Str → Str → Str
create_member_id object_id member_name = object_id ++ text "/" ++ member_name
