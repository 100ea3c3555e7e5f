-- ===== src/RemoteRegistry/Invariant.antt =====
-- The well-formedness of `RemoteRegistry`, which every call keeps.
use objectlink_core_cpp.Prelude.{
  ℕ, Bool, true, false, List, [], ◌∷◌, Option, none, some, Str, str_beq, ◌==◌, arith, Bool-cases,
  inl, inr, if◌then◌else◌,
}
use objectlink_core_cpp.Map.{str_key, nat_key, Map, find}
use objectlink_core_cpp.Map.Sorted.{IsSorted, insert-IsSorted, erase-IsSorted, map_values-IsSorted}
use objectlink_core_cpp.Storage
use objectlink_core_cpp.Storage.{WeakPtr, Storage, invalid_id, lock, expired}
use objectlink_core_cpp.Storage.Invariant
use objectlink_core_cpp.Storage.Invariant.{init-IsValid, remove-IsValid, get-remove}
use objectlink_core_cpp.Storage.Guarantees.{add_total}
use objectlink_core_cpp.World.{World}
use objectlink_core_cpp.RemoteRegistry.{
  RemoteRegistry, SourceToNodesEntry, init, assign_source, assign_nodes, add_once, erase_first,
}
use objectlink_core_cpp.RemoteRegistry.NodeIds.{IsNodup, listed-IsNodup, unlisted-IsNodup}
use objectlink_core_cpp.RemoteRegistry.Calls.{
  add_source_lem, remove_source_lem, add_node_for_source_lem, remove_node_from_source_lem,
  register_node_lem, unregister_node_lem, source_entries, node_entries, unregistered, registered,
}
use objectlink_core_cpp.RemoteRegistry.Entries.{
  Call, adds_source, removes_source, adds_node, removes_node, registers, unregisters, step,
  entry_after, find-step_remote, given_source, with_nodes,
}

abbrev pub HasNodup : Option SourceToNodesEntry → Type 0
HasNodup none = Unit
HasNodup (some e) = IsNodup e.nodes

pub record IsValid (r : RemoteRegistry) : Type 0 where
  pub sorted : IsSorted r.entries
  pub once : (o : Str) → HasNodup (find o r.entries)
  pub nodes : Storage.Invariant.IsValid r.nodes_by_id

pub init-IsValid_lem : IsValid init
unfolding init find
init-IsValid_lem = record {
  sorted = tt;
  once = λ o. tt;
  nodes = init-IsValid 0xFFFFFFFF (omega arith);
}

pub given_source-HasNodup :
    (s : ℕ) (e : Option SourceToNodesEntry) → HasNodup e → HasNodup (given_source s e)
unfolding given_source
given_source-HasNodup s none h = tt
given_source-HasNodup s (some e) h = h

pub with_nodes-HasNodup :
    (f : List ℕ → List ℕ) (e : Option SourceToNodesEntry)
    → ((ns : List ℕ) → IsNodup ns → IsNodup (f ns))
    → HasNodup e
    → HasNodup (with_nodes f e)
unfolding with_nodes
with_nodes-HasNodup f none keep h = tt
with_nodes-HasNodup f (some e) keep h = keep e.nodes h

pub if-HasNodup :
    (b : Bool) (e f : Option SourceToNodesEntry)
    → HasNodup e
    → HasNodup f
    → HasNodup (if b then e else f)
if-HasNodup true e f h k = h
if-HasNodup false e f h k = k

optional-HasNodup :
    (l : Option ℕ) (e : Option SourceToNodesEntry) (f : ℕ → Option SourceToNodesEntry)
    → HasNodup e
    → ((o : ℕ) → HasNodup (f o))
    → HasNodup (elim l [ none ↦ e | some o ↦ f o ])
optional-HasNodup none e f h k = h
optional-HasNodup (some o) e f h k = k o

entry_after-HasNodup :
    (name : ℕ → Str) (live : ℕ → Bool) (ids : Storage) (c : Call) (j : Str)
    (e : Option SourceToNodesEntry)
    → HasNodup e
    → HasNodup (entry_after name live ids c j e)
unfolding entry_after
entry_after-HasNodup name live ids (adds_source s) j e h =
    optional-HasNodup (lock live s) e _ h
      λ o. if-HasNodup (str_beq (name o) j) _ _ (given_source-HasNodup o e h) h
entry_after-HasNodup name live ids (removes_source o) j e h = if-HasNodup (str_beq o j) none e tt h
entry_after-HasNodup name live ids (adds_node id o) j e h =
    optional-HasNodup (lock live (Storage.get id ids)) e _ h
      λ p. if-HasNodup (str_beq o j) _ _ (with_nodes-HasNodup _ e (listed-IsNodup id) h) h
entry_after-HasNodup name live ids (removes_node id o) j e h =
    if-HasNodup (str_beq o j) _ _ (with_nodes-HasNodup _ e (unlisted-IsNodup id) h) h
entry_after-HasNodup name live ids (registers n) j e h = h
entry_after-HasNodup name live ids (unregisters id) j e h =
    if-HasNodup (id == invalid_id) _ _ h (with_nodes-HasNodup _ e (unlisted-IsNodup id) h)

assign_source-IsSorted :
    (s : ℕ) (o : Str) (e : Option SourceToNodesEntry) (m : Map Str SourceToNodesEntry)
    → IsSorted m
    → IsSorted (assign_source s o e m)
unfolding assign_source
assign_source-IsSorted s o none m h = insert-IsSorted o _ m h
assign_source-IsSorted s o (some e) m h = h

assign_nodes-IsSorted :
    (f : List ℕ → List ℕ) (o : Str) (e : Option SourceToNodesEntry) (m : Map Str SourceToNodesEntry)
    → IsSorted m
    → IsSorted (assign_nodes f o e m)
unfolding assign_nodes
assign_nodes-IsSorted f o none m h = h
assign_nodes-IsSorted f o (some e) m h = insert-IsSorted o _ m h

module _ (object_name : ℕ → Str) {N : Type 0} (w : World N RemoteRegistry) where
  source_entries-IsSorted :
      (l : Option ℕ) → IsSorted w.registry.entries → IsSorted (source_entries w object_name l)
  unfolding source_entries
  source_entries-IsSorted none s = s
  source_entries-IsSorted (some o) s = assign_source-IsSorted o (object_name o) _ _ s

  node_entries-IsSorted :
      (l : Option ℕ) (id : ℕ) (o : Str)
      → IsSorted w.registry.entries
      → IsSorted (node_entries w l id o)
  unfolding node_entries
  node_entries-IsSorted none id o s = s
  node_entries-IsSorted (some n) id o s = assign_nodes-IsSorted (add_once id) o _ _ s

  unregistered-IsSorted :
      (id : ℕ) → IsSorted w.registry.entries → IsSorted (unregistered id w.registry).entries
  unfolding unregistered
  unregistered-IsSorted id s = elim (Bool-cases (id == invalid_id)) [
    | inl e ↦ rw e s
    | inr e ↦ rw e (map_values-IsSorted _ w.registry.entries s)
  ]

  step-IsSorted :
      (c : Call) → IsSorted w.registry.entries → IsSorted (step object_name c w).registry.entries
  unfolding step
  step-IsSorted (adds_source s) h =
      rw (step, add_source_lem) (source_entries-IsSorted (lock w.live s) h)
  step-IsSorted (removes_source o) h = rw (step, remove_source_lem) (erase-IsSorted o _ h)
  step-IsSorted (adds_node id o) h =
      rw (step, add_node_for_source_lem) (node_entries-IsSorted _ id o h)
  step-IsSorted (removes_node id o) h =
      rw (step, remove_node_from_source_lem) (assign_nodes-IsSorted (erase_first id) o _ _ h)
  step-IsSorted (registers n) h = rw (step, register_node_lem) h
  step-IsSorted (unregisters id) h = rw (step, unregister_node_lem) (unregistered-IsSorted id h)

  registered-IsValid :
      (l : Option ℕ)
      → Storage.Invariant.IsValid w.registry.nodes_by_id
      → Storage.Invariant.IsValid (registered w l).1
  unfolding registered
  registered-IsValid none v = v
  registered-IsValid (some o) v =
      let (id, s', e, v') = add_total w.live (some o) w.registry.nodes_by_id v in rw e v'

  unregistered-nodes :
      (id : ℕ)
      → Storage.Invariant.IsValid w.registry.nodes_by_id
      → Storage.Invariant.IsValid (unregistered id w.registry).nodes_by_id
  unfolding unregistered
  unregistered-nodes id v = elim (Bool-cases (id == invalid_id)) [
    | inl e ↦ rw e v
    | inr e ↦ rw e (remove-IsValid id w.registry.nodes_by_id v)
  ]

  step-nodes :
      (c : Call)
      → Storage.Invariant.IsValid w.registry.nodes_by_id
      → Storage.Invariant.IsValid (step object_name c w).registry.nodes_by_id
  unfolding step
  step-nodes (adds_source s) v = rw (step, add_source_lem) v
  step-nodes (removes_source o) v = rw (step, remove_source_lem) v
  step-nodes (adds_node id o) v = rw (step, add_node_for_source_lem) v
  step-nodes (removes_node id o) v = rw (step, remove_node_from_source_lem) v
  step-nodes (registers n) v = rw (step, register_node_lem) (registered-IsValid (lock w.live n) v)
  step-nodes (unregisters id) v = rw (step, unregister_node_lem) (unregistered-nodes id v)

  -- Every call keeps the registry valid.
  pub step-IsValid_remote :
      (c : Call) → IsValid w.registry → IsValid (step object_name c w).registry
  step-IsValid_remote c v = record {
    sorted = step-IsSorted c v.sorted;
    once = λ o.
        rw find-step_remote
          (entry_after-HasNodup object_name w.live w.registry.nodes_by_id c o _ (v.once o));
    nodes = step-nodes c v.nodes;
  }

module _ (object_name : ℕ → Str) {N : Type 0} where
  unfoldable pub run : List Call → World N RemoteRegistry → World N RemoteRegistry
  run [] w = w
  run (c ∷ cs) w = run cs (step object_name c w)

  -- Whatever calls are made on a valid remote registry, it stays valid: one entry per object id, no
  -- node listed twice for an object, and a valid storage of nodes.
  pub run-IsValid_remote :
      (cs : List Call) (w : World N RemoteRegistry)
      → IsValid w.registry
      → IsValid (run cs w).registry
  unfolding run
  run-IsValid_remote [] w v = v
  run-IsValid_remote (c ∷ cs) w v =
      run-IsValid_remote cs (step object_name c w) (step-IsValid_remote object_name w c v)
