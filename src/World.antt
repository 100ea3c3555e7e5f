-- ===== src/World.antt =====
-- What a method works on: the object of the method (`N`), the registry that nodes share (`R`), which
-- objects have an owner, and the calls of user functions so far, in order. The functions that a user
-- sets for logs and for messages are known by numbers.
use objectlink_core_cpp.Prelude.{ℕ, Bool, List, [], ◌∷◌, ◌++◌, Str}
use objectlink_core_cpp.Exec.{Exec, modify}
use objectlink_core_cpp.Types.{LogLevel}
pub mod Writes

pub data Event : Type 0 where
  -- the log function with a level and a message
  logged : ℕ → LogLevel → Str → Event
  -- the write function with a message
  wrote : ℕ → Str → Event
  -- a mark that user code leaves
  marked : ℕ → Str → Event

pub record World (N R : Type 0) : Type 0 where
  pub node : N
  pub registry : R
  pub live : ℕ → Bool
  pub trace : List Event

module _ {N R : Type 0} where
  abbrev pub emit : Event → Exec (World N R) Unit
  emit e = modify (λ w. record w { trace = w.trace ++ e ∷ [] })

  abbrev pub set_registry : R → Exec (World N R) Unit
  set_registry r = modify (λ w. record w { registry = r })
