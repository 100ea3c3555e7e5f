-- ===== src/RemoteRegistry/Linking.antt =====
-- Which nodes and sources `RemoteRegistry` has after the calls about them.
use objectlink_core_cpp.Prelude.{
  ℕ, ◌≡◌, ◌≢◌, refl, Bool, true, false, List, Option, none, some, Str, str_beq_iff, ◌==◌, arith,
  if◌then◌else◌,
}
use objectlink_core_cpp.Map.{str_key, nat_key, find, keys_where, elem}
use objectlink_core_cpp.Map.Sorted.{elem-keys_where, matches}
use objectlink_core_cpp.Exec.{ok}
use objectlink_core_cpp.Storage
use objectlink_core_cpp.Storage.{WeakPtr, Storage, invalid_id, lock, expired}
use objectlink_core_cpp.Storage.Invariant.{get-remove}
use objectlink_core_cpp.World.{World}
use objectlink_core_cpp.RemoteRegistry.{RemoteRegistry, SourceToNodesEntry, get_object_ids}
use objectlink_core_cpp.RemoteRegistry.NodeIds.{listed, unlisted, elem-unlisted, elem-listed}
use objectlink_core_cpp.RemoteRegistry.Calls.{unregister_node_lem, unregistered}
use objectlink_core_cpp.RemoteRegistry.Entries.{
  adds_node, removes_node, unregisters, step, entry_after, find-step_remote, with_nodes,
}
use objectlink_core_cpp.RemoteRegistry.Invariant.{IsValid, HasNodup}

-- Whether the entry of an object lists a node.
abbrev pub lists : ℕ → Option SourceToNodesEntry → Bool
lists id e = matches (λ (e : SourceToNodesEntry). elem id e.nodes) e

-- The ids that `getObjectIds` of a valid remote registry gives are those of the objects whose entry
-- lists the node.
pub elem-get_object_ids_remote :
    {N : Type 0} (id : ℕ) (o : Str) (w : World N RemoteRegistry)
    → IsValid w.registry
    → (ids : List Str) × (get_object_ids id w ≡ (ok ids, w))
      × (elem o ids ≡ lists id (find o w.registry.entries))
unfolding get_object_ids
elem-get_object_ids_remote id o w v =
    (keys_where (λ e. elem id e.nodes) w.registry.entries, refl, elem-keys_where _ o _ v.sorted)

lists-erased :
    (id : ℕ) (e : Option SourceToNodesEntry)
    → HasNodup e
    → lists id (with_nodes (unlisted id) e) ≡ false
unfolding with_nodes
lists-erased id none h = refl
lists-erased id (some e) h = ground (arith, elem-unlisted id id e.nodes h)

lists-added :
    (id j : ℕ) (e : SourceToNodesEntry)
    → lists j (with_nodes (listed id) (some e)) ≡ (if id == j then true else lists j (some e))
unfolding with_nodes
lists-added id j e = elem-listed id j e.nodes

unregistered-gone :
    (id : ℕ) (r : RemoteRegistry)
    → id ≢ invalid_id
    → Storage.get id (unregistered id r).nodes_by_id ≡ none
unfolding unregistered
unregistered-gone id r ne = ground (arith, get-remove id id r.nodes_by_id)

-- After a node with a valid id is unregistered from a valid remote registry no object lists its id,
-- and the id leads to no node.
pub unregister_node_unlists :
    (object_name : ℕ → Str) {N : Type 0} (id : ℕ) (w : World N RemoteRegistry)
    → IsValid w.registry
    → id ≢ invalid_id
    → let w' = step object_name (unregisters id) w in
      ((o : Str) → lists id (find o w'.registry.entries) ≡ false)
      × (Storage.get id w'.registry.nodes_by_id ≡ none)
unfolding step entry_after
unregister_node_unlists object_name id w v ne = (
  λ o. rw find-step_remote (ground (arith, lists-erased id (find o w.registry.entries) (v.once o))),
  rw (step, unregister_node_lem) (unregistered-gone id w.registry ne),
)

-- A node that is there is listed once it is added for an object that has an entry, and the entries
-- of other objects stay.
pub add_node_lists :
    (object_name : ℕ → Str) {N : Type 0} (id n : ℕ) (o : Str) (e : SourceToNodesEntry)
    (w : World N RemoteRegistry)
    → lock w.live (Storage.get id w.registry.nodes_by_id) ≡ some n
    → find o w.registry.entries ≡ some e
    → let w' = step object_name (adds_node id o) w in
      (lists id (find o w'.registry.entries) ≡ true)
      × ((j : Str) → o ≢ j → find j w'.registry.entries ≡ find j w.registry.entries)
unfolding entry_after with_nodes
add_node_lists object_name id n o e w there has = (
  rw find-step_remote (ground (arith, there, has, str_beq_iff o o, elem-listed id id e.nodes)),
  λ j ne. rw find-step_remote (ground (arith, there, str_beq_iff o j)),
)

-- A node that no object lists twice is not listed any more once it is removed from an object, and
-- the entries of other objects stay.
pub remove_node_unlists :
    (object_name : ℕ → Str) {N : Type 0} (id : ℕ) (o : Str) (w : World N RemoteRegistry)
    → HasNodup (find o w.registry.entries)
    → let w' = step object_name (removes_node id o) w in
      (lists id (find o w'.registry.entries) ≡ false)
      × ((j : Str) → o ≢ j → find j w'.registry.entries ≡ find j w.registry.entries)
unfolding entry_after
remove_node_unlists object_name id o w once = (
  rw find-step_remote
      (ground (arith, str_beq_iff o o, lists-erased id (find o w.registry.entries) once)),
  λ j ne. rw find-step_remote (ground (arith, str_beq_iff o j)),
)
