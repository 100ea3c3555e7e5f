-- ===== src/Lifetimes.antt =====
-- Node objects of a registry that several threads use, from their creation to the end of their
-- destructors (src/olink/remotenode.cpp and clientnode.cpp), with their ids in the registry's storage,
-- and the threads that are about to write a node id into an entry. `E` is what the registry keeps for
-- an object id.
use objectlink_core_cpp.Prelude.{ℕ, Bool, true, false, List, ◌==◌, Str, if◌then◌else◌}
use objectlink_core_cpp.Map.{Map}
use objectlink_core_cpp.Storage.{Storage, WeakPtr}
pub mod Owners
pub mod Destruction
pub mod Creation
pub mod Tasks

-- A node object: not created yet; in use, with its id; in its destructor, before the first and the
-- second locked section of `unregisterNode`; destroyed.
pub data Lifecycle : Type 0 where
  absent : Lifecycle
  alive clearing freeing gone : ℕ → Lifecycle

abbrev pub is_alive : Lifecycle → Bool
is_alive (alive id) = true
is_alive _ = false

-- A thread in `addNodeForSource` or `setNode` with a node id and an object id.
pub data Task : Type 0 where
  -- it has the weak pointer that the storage gave
  looked : ℕ → Str → WeakPtr → Task
  -- it holds the node, and has not yet written the entry
  holds : ℕ → Str → ℕ → Task
  -- it found no node, and writes the entry all the same
  lacks : ℕ → Str → Task

abbrev pub is_held : ℕ → Task → Bool
is_held n (holds id o m) = n == m
is_held n _ = false

pub record System (E : Type 0) : Type 0 where
  pub entries : Map Str E
  pub nodes_by_id : Storage
  pub nodes : ℕ → Lifecycle
  pub running : List Task

abbrev pub set : ℕ → Lifecycle → (ℕ → Lifecycle) → ℕ → Lifecycle
set n x nodes m = if n == m then x else nodes m

abbrev pub with_entries : {E : Type 0} → Map Str E → System E → System E
with_entries m s = record s { entries = m }
