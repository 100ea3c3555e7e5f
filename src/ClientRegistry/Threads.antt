-- ===== src/ClientRegistry/Threads.antt =====
-- The client registry that several threads use (`m_entriesMutex` of ClientRegistry, and the mutex of
-- its storage), while nodes are created and destroyed: a step is a locked section of `setNode`,
-- `unsetNode`, `addSink`, `removeSink`, `registerNode` or `unregisterNode`, or what a thread does
-- outside of one, in any order. `unregisterNode` is called by the destructors of nodes only.
use objectlink_core_cpp.Prelude.{
  ℕ, ◌<◌, ◌≡◌, Bool, true, false, List, [], ◌∷◌, ◌++◌, Option, none, some, Str, All, ◌==◌,
  if◌then◌else◌,
}
use objectlink_core_cpp.Map.{str_key, nat_key, find, erase, map_values, size, elem}
use objectlink_core_cpp.Storage
use objectlink_core_cpp.Storage.{Storage, WeakPtr, invalid_id, lock}
use objectlink_core_cpp.ClientRegistry.{
  SinkToClientEntry, assign_node, assign_sink, clear_node, cleared,
}
use objectlink_core_cpp.Lifetimes as Lifetimes
use objectlink_core_cpp.Lifetimes.{
  Lifecycle, absent, alive, clearing, freeing, gone, is_alive, Task, looked, holds, lacks, is_held,
  set, with_entries,
}
pub mod Listing
pub mod Safety

abbrev pub System : Type 0
System = Lifetimes.System SinkToClientEntry

-- `if (entry.second.nodeId == id) { entry.second.nodeId = … }`
abbrev pub clear_if : ℕ → SinkToClientEntry → SinkToClientEntry
clear_if id e = if e.node_id == id then clear_node e else e

-- A step, with the ids that it sets although their nodes were gone.
pub data Step (s : System) : List ℕ → System → Type 0 where
  -- `ClientNode::create`, while the storage is not full
  create :
      (n id : ℕ) (st : Storage)
      → s.nodes n ≡ Lifecycle.absent
      → size s.nodes_by_id.objects < s.nodes_by_id.max_count
      → Storage.add (λ m. is_alive (set n (alive id) s.nodes m)) (some n) s.nodes_by_id
        ≡ some (id, st)
      → Step s [] (record s { nodes_by_id = st; nodes = set n (alive id) s.nodes })
  -- `setNode`: m_clientNodesById.get(id)
  look :
      (id : ℕ) (o : Str)
      → Step s [] (record s { running = looked id o (Storage.get id s.nodes_by_id) ∷ s.running })
  -- … .lock(), which gives the node or null
  hold :
      (id : ℕ) (o : Str) (w : WeakPtr) (n : ℕ) (before after : List Task)
      → s.running ≡ before ++ looked id o w ∷ after
      → lock (λ m. is_alive (s.nodes m)) w ≡ some n
      → Step s [] (record s { running = before ++ holds id o n ∷ after })
  miss :
      (id : ℕ) (o : Str) (w : WeakPtr) (before after : List Task)
      → s.running ≡ before ++ looked id o w ∷ after
      → lock (λ m. is_alive (s.nodes m)) w ≡ none
      → Step s [] (record s { running = before ++ lacks id o ∷ after })
  -- the locked section, after which the node is let go, and the same when there is none
  set_held :
      (id : ℕ) (o : Str) (n : ℕ) (before after : List Task)
      → s.running ≡ before ++ holds id o n ∷ after
      → Step s [] (record s {
        entries = assign_node id o (find o s.entries) s.entries;
        running = before ++ after;
      })
  set_missed :
      (id : ℕ) (o : Str) (before after : List Task)
      → s.running ≡ before ++ lacks id o ∷ after
      → Step s (id ∷ []) (record s {
        entries = assign_node id o (find o s.entries) s.entries;
        running = before ++ after;
      })
  -- `unsetNode`; `addSink`, with the objects that have an owner then; `removeSink`
  unset : (o : Str) → Step s [] (with_entries (cleared o (find o s.entries) s.entries) s)
  give_sink :
      (live : ℕ → Bool) (sink : ℕ) (o : Str)
      → Step s [] (with_entries (assign_sink live sink o (find o s.entries) s.entries) s)
  drop_sink : (o : Str) → Step s [] (with_entries (erase o s.entries) s)
  -- the last owner lets a node go that no thread holds
  die :
      (n id : ℕ)
      → s.nodes n ≡ alive id
      → All (λ a. is_held n a ≡ false) s.running
      → Step s [] (record s { nodes = set n (clearing id) s.nodes })
  -- `unregisterNode` in the destructor: its loop over the entries, and the removal of the id
  clear :
      (n id : ℕ)
      → s.nodes n ≡ clearing id
      → Step s [] (record s {
        entries = map_values (clear_if id) s.entries;
        nodes = set n (freeing id) s.nodes;
      })
  free :
      (n id : ℕ)
      → s.nodes n ≡ freeing id
      → Step s [] (record s {
        nodes_by_id = Storage.remove id s.nodes_by_id;
        nodes = set n (gone id) s.nodes;
      })

pub data Reach (s : System) : List ℕ → System → Type 0 where
  here : Reach s [] s
  next :
      {missed ids : List ℕ} {t u : System}
      → Reach s missed t
      → Step t ids u
      → Reach s (ids ++ missed) u
