-- ===== src/RemoteRegistry/Entries.antt =====
-- `RemoteRegistry` as a function from object ids to entries: what each call does to it.
use objectlink_core_cpp.Prelude.{
  ℕ, ◌≡◌, refl, Bool, Option, none, some, Str, str_beq, str_beq_iff, List, [], ◌==◌, arith,
  if◌then◌else◌, ap, ◌∙◌,
}
use mathlib.Core.Option
use objectlink_core_cpp.Map.{str_key, Map, find}
use objectlink_core_cpp.Map.Laws.{find-insert, find-erase, find-map_values}
use objectlink_core_cpp.Storage
use objectlink_core_cpp.Storage.{WeakPtr, Storage, invalid_id, lock}
use objectlink_core_cpp.World.{World}
use objectlink_core_cpp.RemoteRegistry.{
  RemoteRegistry, SourceToNodesEntry, add_once, erase_first, assign_source, assign_nodes,
  add_source, remove_source, add_node_for_source, remove_node_from_source, register_node,
  unregister_node,
}
use objectlink_core_cpp.RemoteRegistry.NodeIds.{
  listed, unlisted, add_once-listed, erase_first-unlisted,
}
use objectlink_core_cpp.RemoteRegistry.Calls.{
  add_source_lem, remove_source_lem, add_node_for_source_lem, remove_node_from_source_lem,
  register_node_lem, unregister_node_lem, source_entries, node_entries, unregistered,
}

pub data Call : Type 0 where
  adds_source registers : WeakPtr → Call
  removes_source : Str → Call
  adds_node removes_node : ℕ → Str → Call
  unregisters : ℕ → Call

module _ (object_name : ℕ → Str) {N : Type 0} where
  unfoldable pub step : Call → World N RemoteRegistry → World N RemoteRegistry
  step (adds_source s) w = (add_source object_name s w).1
  step (removes_source o) w = (remove_source o w).1
  step (adds_node id o) w = (add_node_for_source id o w).1
  step (removes_node id o) w = (remove_node_from_source id o w).1
  step (registers n) w = (register_node n w).1
  step (unregisters id) w = (unregister_node id w).1

-- What a call does to the entry of the object `j`.
unfoldable pub given_source : ℕ → Option SourceToNodesEntry → Option SourceToNodesEntry
given_source s none = some (record { source = some s; nodes = [] })
given_source s (some e) = some e

unfoldable pub with_nodes :
    (List ℕ → List ℕ) → Option SourceToNodesEntry → Option SourceToNodesEntry
with_nodes f none = none
with_nodes f (some e) = some (record e { nodes = f e.nodes })

unfoldable pub entry_after :
    (ℕ → Str)
    → (ℕ → Bool)
    → Storage
    → Call
    → Str
    → Option SourceToNodesEntry
    → Option SourceToNodesEntry
unfolding given_source with_nodes
entry_after name live ids (adds_source s) j e = elim (lock live s) [
  | none ↦ e
  | some o ↦ if str_beq (name o) j then given_source o e else e
]
entry_after name live ids (removes_source o) j e = if str_beq o j then none else e
entry_after name live ids (adds_node id o) j e = elim (lock live (Storage.get id ids)) [
  | none ↦ e
  | some n ↦ if str_beq o j then with_nodes (listed id) e else e
]
entry_after name live ids (removes_node id o) j e =
    if str_beq o j then with_nodes (unlisted id) e else e
entry_after name live ids (registers n) j e = e
entry_after name live ids (unregisters id) j e =
    if id == invalid_id then e else with_nodes (unlisted id) e

module _ (o j : Str) (m : Map Str SourceToNodesEntry) where
  pub find-assign_source :
      (s : ℕ) (e : Option SourceToNodesEntry)
      → find o m ≡ e
      → find j (assign_source s o e m)
        ≡ (if str_beq o j then given_source s (find j m) else find j m)
  unfolding assign_source given_source
  find-assign_source s none h =
      ground (arith, str_beq_iff o j, find-insert o j (record { source = some s; nodes = [] }) m)
  find-assign_source s (some e) h = ground (arith, str_beq_iff o j)

  pub find-assign_nodes :
      (f : List ℕ → List ℕ) (e : Option SourceToNodesEntry)
      → find o m ≡ e
      → find j (assign_nodes f o e m) ≡ (if str_beq o j then with_nodes f (find j m) else find j m)
  unfolding assign_nodes with_nodes
  find-assign_nodes f none h = ground (arith, str_beq_iff o j)
  find-assign_nodes f (some e) h =
      ground (arith, str_beq_iff o j, find-insert o j (record e { nodes = f e.nodes }) m)

module _ (o j : Str) (m : Map Str SourceToNodesEntry) where
  -- The same with the abstract change of the list of nodes.
  find-changed_nodes :
      (f g : List ℕ → List ℕ)
      → ((ns : List ℕ) → f ns ≡ g ns)
      → (e : Option SourceToNodesEntry) → find o m ≡ e
      → find j (assign_nodes f o e m) ≡ (if str_beq o j then with_nodes g (find j m) else find j m)
  unfolding with_nodes
  find-changed_nodes f g h e eq =
      find-assign_nodes o j m f e eq
      ∙ ap (λ x. if str_beq o j then x else find j m) (changed (find j m))
    where
      changed : (e : Option SourceToNodesEntry) → with_nodes f e ≡ with_nodes g e
      changed none = refl
      changed (some e) = ap (λ ns. some (record e { nodes = ns })) (h e.nodes)

abbrev erase_id : ℕ → SourceToNodesEntry → SourceToNodesEntry
erase_id id e = record e { nodes = erase_first id e.nodes }

find-unregistered :
    (id : ℕ) (j : Str) (r : RemoteRegistry)
    → find j (unregistered id r).entries
      ≡ (if id == invalid_id then find j r.entries else with_nodes (unlisted id) (find j r.entries))
unfolding unregistered with_nodes
find-unregistered id j r =
    ground (arith, find-map_values (erase_id id) j r.entries, map-erase_id (find j r.entries))
  where
    map-erase_id :
        (o : Option SourceToNodesEntry) → Option.map (erase_id id) o ≡ with_nodes (unlisted id) o
    map-erase_id none = refl
    map-erase_id (some e) =
        ap (λ ns. some (record e { nodes = ns })) (erase_first-unlisted id e.nodes)

module _ (object_name : ℕ → Str) {N : Type 0} (w : World N RemoteRegistry) where
  find-source_entries :
      (l : Option ℕ) (j : Str)
      → find j (source_entries w object_name l) ≡ elim l [
        | none ↦ find j w.registry.entries
        | some o ↦
            if str_beq (object_name o) j
            then given_source o (find j w.registry.entries)
            else find j w.registry.entries
      ]
  unfolding source_entries
  find-source_entries none j = refl
  find-source_entries (some o) j = find-assign_source (object_name o) j w.registry.entries o _ refl

  find-node_entries :
      (l : Option ℕ) (id : ℕ) (o j : Str)
      → find j (node_entries w l id o) ≡ elim l [
        | none ↦ find j w.registry.entries
        | some n ↦
            if str_beq o j
            then with_nodes (listed id) (find j w.registry.entries)
            else find j w.registry.entries
      ]
  unfolding node_entries
  find-node_entries none id o j = refl
  find-node_entries (some n) id o j =
      find-changed_nodes o j w.registry.entries (add_once id) (listed id) (add_once-listed id) _
        refl

  -- Every call on the remote registry changes the entry of every object id exactly as the abstract
  -- `entry_after` says, whatever the registry holds: in particular a node id that is added is put
  -- at the end of the list unless it is in it, and one that is removed loses its first occurrence.
  pub find-step_remote :
      (c : Call) (j : Str)
      → find j (step object_name c w).registry.entries
        ≡ entry_after object_name w.live w.registry.nodes_by_id c j (find j w.registry.entries)
  unfolding step entry_after
  find-step_remote (adds_source s) j =
      rw (step, add_source_lem) (find-source_entries (lock w.live s) j)
  find-step_remote (removes_source o) j =
      rw (step, remove_source_lem) (find-erase o j w.registry.entries)
  find-step_remote (adds_node id o) j =
      rw (step, add_node_for_source_lem)
        (find-node_entries (lock w.live (Storage.get id w.registry.nodes_by_id)) id o j)
  find-step_remote (removes_node id o) j =
      rw (step, remove_node_from_source_lem)
        (find-changed_nodes o j w.registry.entries (erase_first id) (unlisted id)
          (erase_first-unlisted id) _ refl)
  find-step_remote (registers n) j = rw (step, register_node_lem)
  find-step_remote (unregisters id) j =
      rw (step, unregister_node_lem) (find-unregistered id j w.registry)
