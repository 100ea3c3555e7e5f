-- ===== src/Tests/Storages.antt =====
-- `UniqueIdObjectStorage` and `Name` on concrete values.
use objectlink_core_cpp.Prelude.{
  ℕ, ◌<◌, ◌≡◌, refl, ◌≢◌, ◌↔◌, Bool, true, false, List, [], ◌∷◌, ◌⊎◌, Option, some, text, arith,
  sym, ◌∙◌, subst,
}
use objectlink_core_cpp.Map.{nat_key, find, insert, erase, size}
use objectlink_core_cpp.Storage.{
  WeakPtr, Storage, invalid_id, lock, get, add, add_unless_stored, find_object, purge, expired,
  purge_expired, remove, init, get_unique_id,
}
use objectlink_core_cpp.Storage.Invariant.{IsValid, init-IsValid}
use objectlink_core_cpp.Storage.Contract.{make_room}
use objectlink_core_cpp.Storage.Guarantees.{
  Call, adds, removes, purges, step, run, add_total, add_fails_iff, get-add, add_distinct,
}
use objectlink_core_cpp.Storage.Repeats.{add_full}
use objectlink_core_cpp.Storage.Rounds.{IsRising, ids_given, run_given, first_round}
use objectlink_core_cpp.Name.{is_member_id, get_object_id}
use objectlink_core_cpp.Name.Laws.{get_object_id_cuts}

abbrev all_live : ℕ → Bool
all_live o = true

-- a storage for two objects with none, one and two of them
abbrev empty : Storage
empty = record { max_count = 2; objects = []; counter = 0; overflowed = false }

abbrev with_one : Storage
with_one = record { max_count = 2; objects = (0, some 7) ∷ []; counter = 1; overflowed = false }

abbrev with_two : Storage
with_two = record {
  max_count = 2;
  objects = (0, some 7) ∷ (1, some 8) ∷ [];
  counter = 0;
  overflowed = true;
}

empty-IsValid : IsValid empty
unfolding init
empty-IsValid = init-IsValid 2 (omega arith)

first_added : add all_live (some 7) empty ≡ some (0, with_one)
unfolding add lock add_unless_stored find_object get_unique_id insert
first_added = refl

second_added : add all_live (some 8) with_one ≡ some (1, with_two)
unfolding add lock add_unless_stored find_object get_unique_id insert
second_added = refl

added-IsValid :
    (w : WeakPtr) (id : ℕ) (s s' : Storage)
    → IsValid s
    → add all_live w s ≡ some (id, s')
    → IsValid s'
added-IsValid w id s s' v e =
    let (i, t, e', vt) = add_total all_live w s v in
    let same : ◌≡◌ {A = Option (ℕ × Storage)} (some (i, t)) (some (id, s')) = sym e' ∙ e in
    let et : t ≡ s' = cc in subst IsValid et vt

with_one-IsValid : IsValid with_one
with_one-IsValid = added-IsValid (some 7) 0 empty with_one empty-IsValid first_added

with_two-IsValid : IsValid with_two
with_two-IsValid = added-IsValid (some 8) 1 with_one with_two with_one-IsValid second_added

abbrev storage_calls : List Call
storage_calls = adds all_live (some 7) ∷ removes 0 ∷ purges all_live ∷ []

first_round_example :
    IsValid (run empty storage_calls)
    × (((run empty storage_calls).overflowed ≡ true)
        ⊎ IsRising 0 (run empty storage_calls).counter (run_given empty storage_calls))
first_round_example = first_round empty storage_calls empty-IsValid

-- what the calls give: the removed id is not given again
given_twice :
    run_given empty (adds all_live (some 7) ∷ removes 0 ∷ adds all_live (some 8) ∷ []) ≡ 0 ∷ 1 ∷ []
unfolding run_given ids_given step add lock add_unless_stored find_object get_unique_id insert get
    find erase remove
given_twice = refl

get-add_example :
    (0 < 2)
    × (get 0 with_one ≡ some 7)
    × ((j : ℕ) → j ≢ 0 → lock all_live (get j with_one) ≡ lock all_live (get j empty))
get-add_example = get-add all_live 7 0 empty with_one empty-IsValid refl first_added (omega arith)

add_distinct_example : ◌≢◌ {A = ℕ} 0 1
add_distinct_example =
    add_distinct all_live 7 8 0 1 empty with_one with_two empty-IsValid refl refl (omega arith)
      first_added second_added (omega arith) (omega arith)

add_fails_iff_example : (0 ≡ invalid_id) ↔ (size (make_room all_live empty).objects ≡ 2)
add_fails_iff_example = add_fails_iff all_live 7 0 empty with_one empty-IsValid refl first_added

two_full : size (make_room all_live with_two).objects ≡ 2
unfolding purge_expired purge expired
two_full = refl

seven_held : get 0 with_two ≡ some 7
unfolding get find
seven_held = refl

add_full_example :
    (s' : Storage) × (add all_live (some 7) with_two ≡ some (invalid_id, s'))
    × (lock all_live (get 0 s') ≡ some 7)
add_full_example = add_full all_live 7 0 with_two with_two-IsValid refl seven_held two_full

add_total_example :
    (id : ℕ) × (s' : Storage) × (add all_live (some 9) with_two ≡ some (id, s')) × IsValid s'
add_total_example = add_total all_live (some 9) with_two with_two-IsValid

get_object_id_cuts_example :
    (is_member_id (text "a/b/c") ≡ false) × (get_object_id (text "a/b/c") ≢ text "a/b/c")
get_object_id_cuts_example = get_object_id_cuts (text "a/b/c") (omega arith)
