-- ===== src/Tests/Deadlocks.antt =====
-- A thread in `add` that becomes the last owner of the object that it looks at.
use objectlink_core_cpp.Prelude.{refl, [], ◌∷◌, some, arith, ◌==◌, if◌then◌else◌}
use objectlink_core_cpp.Storage.Deadlock.{Search, searching, Reach, IsStuck, add_can_hang}

-- thread 1 looks for the object 7 in a storage with the object 8, which has one owner
abbrev looking : Search
looking = record {
  position = searching 7 ((0, some 8) ∷ []);
  mutex = some 1;
  owners = λ p. if p == 8 then 1 else 2;
}

add_can_hang_example : (t : Search) × Reach 1 looking t × IsStuck 1 t
add_can_hang_example =
    add_can_hang 1 7 0 8 [] looking refl refl (λ e. absurd (omega (arith, e))) refl
