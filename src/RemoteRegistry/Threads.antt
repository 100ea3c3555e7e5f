-- ===== src/RemoteRegistry/Threads.antt =====
-- The remote registry that several threads use (`m_entriesMutex` of RemoteRegistry, and the mutex of
-- its storage), while nodes are created and destroyed: a step is a locked section of
-- `addNodeForSource`, `removeNodeFromSource`, `addSource`, `removeSource`, `registerNode` or
-- `unregisterNode`, or what a thread does outside of one, in any order. `unregisterNode` is
-- called by the destructors of nodes only.
use objectlink_core_cpp.Prelude.{
  ℕ, ◌<◌, ◌≡◌, Bool, true, false, ◌||◌, List, [], ◌∷◌, ◌++◌, Option, none, some, Str, All, ◌==◌,
  if◌then◌else◌,
}
use objectlink_core_cpp.Map.{str_key, nat_key, Map, find, erase, map_values, size}
use objectlink_core_cpp.Storage
use objectlink_core_cpp.Storage.{Storage, WeakPtr, lock}
use objectlink_core_cpp.RemoteRegistry.{
  SourceToNodesEntry, add_once, erase_first, assign_source, assign_nodes,
}
use objectlink_core_cpp.Lifetimes as Lifetimes
use objectlink_core_cpp.Lifetimes.{
  Lifecycle, absent, alive, clearing, freeing, gone, is_alive, Task, looked, holds, is_held, set,
  with_entries,
}
pub mod Listing
pub mod Safety

abbrev pub System : Type 0
System = Lifetimes.System SourceToNodesEntry

abbrev pub erase_node : ℕ → SourceToNodesEntry → SourceToNodesEntry
erase_node id e = record e { nodes = erase_first id e.nodes }

pub data Step (s : System) : System → Type 0 where
  -- `createRemoteNode`, while the storage is not full
  create :
      (n id : ℕ) (st : Storage)
      → s.nodes n ≡ Lifecycle.absent
      → size s.nodes_by_id.objects < s.nodes_by_id.max_count
      → Storage.add (λ m. is_alive (set n (alive id) s.nodes m)) (some n) s.nodes_by_id
        ≡ some (id, st)
      → Step s (record s { nodes_by_id = st; nodes = set n (alive id) s.nodes })
  -- `addNodeForSource`: m_remoteNodesById.get(nodeId)
  look :
      (id : ℕ) (o : Str)
      → Step s (record s { running = looked id o (Storage.get id s.nodes_by_id) ∷ s.running })
  -- … .lock(), which gives the node or null
  hold :
      (id : ℕ) (o : Str) (w : WeakPtr) (n : ℕ) (before after : List Task)
      → s.running ≡ before ++ looked id o w ∷ after
      → lock (λ m. is_alive (s.nodes m)) w ≡ some n
      → Step s (record s { running = before ++ holds id o n ∷ after })
  refuse :
      (id : ℕ) (o : Str) (w : WeakPtr) (before after : List Task)
      → s.running ≡ before ++ looked id o w ∷ after
      → lock (λ m. is_alive (s.nodes m)) w ≡ none
      → Step s (record s { running = before ++ after })
  -- the locked section, after which the node is let go
  list_node :
      (id : ℕ) (o : Str) (n : ℕ) (before after : List Task)
      → s.running ≡ before ++ holds id o n ∷ after
      → Step s (record s {
        entries = assign_nodes (add_once id) o (find o s.entries) s.entries;
        running = before ++ after;
      })
  -- `removeNodeFromSource`, `addSource` and `removeSource`
  unlist_node :
      (id : ℕ) (o : Str)
      → Step s (with_entries (assign_nodes (erase_first id) o (find o s.entries) s.entries) s)
  give_source :
      (source : ℕ) (o : Str)
      → Step s (with_entries (assign_source source o (find o s.entries) s.entries) s)
  drop_source : (o : Str) → Step s (with_entries (erase o s.entries) s)
  -- the last owner lets a node go that no thread holds
  die :
      (n id : ℕ)
      → s.nodes n ≡ alive id
      → All (λ a. is_held n a ≡ false) s.running
      → Step s (record s { nodes = set n (clearing id) s.nodes })
  -- `unregisterNode` in the destructor: its loop over the entries, and the removal of the id
  clear :
      (n id : ℕ)
      → s.nodes n ≡ clearing id
      → Step s (record s {
        entries = map_values (erase_node id) s.entries;
        nodes = set n (freeing id) s.nodes;
      })
  free :
      (n id : ℕ)
      → s.nodes n ≡ freeing id
      → Step s (record s {
        nodes_by_id = Storage.remove id s.nodes_by_id;
        nodes = set n (gone id) s.nodes;
      })

pub data Reach (s : System) : System → Type 0 where
  here : Reach s s
  next : {t u : System} → Reach s t → Step t u → Reach s u
