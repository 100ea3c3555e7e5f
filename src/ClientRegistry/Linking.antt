-- ===== src/ClientRegistry/Linking.antt =====
-- The well-formedness of `ClientRegistry`, and what holds of a node id after the calls about it.
use objectlink_core_cpp.Prelude.{
  ℕ, ◌≡◌, ◌≢◌, refl, Bool, false, List, [], ◌∷◌, Option, none, some, Str, ◌==◌, arith, Bool-cases,
  inl, inr,
}
use objectlink_core_cpp.Map.{str_key, nat_key, Map, find, keys_where, elem}
use objectlink_core_cpp.Map.Sorted.{
  IsSorted, insert-IsSorted, erase-IsSorted, map_values-IsSorted, elem-keys_where, matches,
}
use objectlink_core_cpp.Exec.{ok}
use objectlink_core_cpp.Storage
use objectlink_core_cpp.Storage.{WeakPtr, Storage, invalid_id, lock}
use objectlink_core_cpp.Storage.Invariant
use objectlink_core_cpp.Storage.Invariant.{init-IsValid, remove-IsValid, get-remove}
use objectlink_core_cpp.Storage.Guarantees.{add_total}
use objectlink_core_cpp.World.{World}
use objectlink_core_cpp.ClientRegistry.{
  ClientRegistry, SinkToClientEntry, clear_node, init, assign_node, assign_sink, cleared,
  get_object_ids,
}
use objectlink_core_cpp.ClientRegistry.Calls.{
  set_node_lem, unset_node_lem, add_sink_lem, remove_sink_lem, register_node_lem,
  unregister_node_lem, sink_entries, unregistered, registered,
}
use objectlink_core_cpp.ClientRegistry.Entries.{
  Call, sets_node, unsets_node, adds_sink, removes_sink, registers, unregisters, step, entry_after,
  find-step_client, without_id,
}

pub record IsValid (r : ClientRegistry) : Type 0 where
  pub sorted : IsSorted r.entries
  pub nodes : Storage.Invariant.IsValid r.nodes_by_id

pub init-IsValid_lem : IsValid init
unfolding init
init-IsValid_lem = record { sorted = tt; nodes = init-IsValid 0xFFFFFFFF (omega arith) }

assign_node-IsSorted :
    (id : ℕ) (o : Str) (e : Option SinkToClientEntry) (m : Map Str SinkToClientEntry)
    → IsSorted m
    → IsSorted (assign_node id o e m)
unfolding assign_node
assign_node-IsSorted id o none m s = insert-IsSorted o _ m s
assign_node-IsSorted id o (some e) m s =
    ground (arith, insert-IsSorted o (record e { node_id = id }) m s)

cleared-IsSorted :
    (o : Str) (e : Option SinkToClientEntry) (m : Map Str SinkToClientEntry)
    → IsSorted m
    → IsSorted (cleared o e m)
unfolding cleared
cleared-IsSorted o none m s = s
cleared-IsSorted o (some e) m s = insert-IsSorted o (clear_node e) m s

assign_sink-IsSorted :
    (live : ℕ → Bool) (k : ℕ) (o : Str) (e : Option SinkToClientEntry)
    (m : Map Str SinkToClientEntry)
    → IsSorted m
    → IsSorted (assign_sink live k o e m)
unfolding assign_sink
assign_sink-IsSorted live k o none m s = insert-IsSorted o _ m s
assign_sink-IsSorted live k o (some e) m s =
    ground (arith, insert-IsSorted o (record e { sink = some k }) m s)

unregistered-IsValid : (id : ℕ) (r : ClientRegistry) → IsValid r → IsValid (unregistered id r)
unfolding unregistered
unregistered-IsValid id r v = elim (Bool-cases (id == invalid_id)) [
  | inl e ↦ rw e v
  | inr e ↦ rw e (record {
    sorted = map_values-IsSorted _ r.entries v.sorted;
    nodes = remove-IsValid id r.nodes_by_id v.nodes;
  })
]

module _ (object_name : ℕ → Str) {N : Type 0} where
  sink_entries-IsSorted :
      (w : World N ClientRegistry) (l : Option ℕ)
      → IsSorted w.registry.entries
      → IsSorted (sink_entries w object_name l)
  unfolding sink_entries
  sink_entries-IsSorted w none s = s
  sink_entries-IsSorted w (some o) s = assign_sink-IsSorted w.live o (object_name o) _ _ s

  registered-IsValid :
      (w : World N ClientRegistry) (l : Option ℕ)
      → Storage.Invariant.IsValid w.registry.nodes_by_id
      → Storage.Invariant.IsValid (registered w l).1
  unfolding registered
  registered-IsValid w none v = v
  registered-IsValid w (some o) v =
      let (id, s', e, v') = add_total w.live (some o) w.registry.nodes_by_id v in rw e v'

  -- Every call keeps the registry valid.
  pub step-IsValid_client :
      (c : Call) (w : World N ClientRegistry)
      → IsValid w.registry
      → IsValid (step object_name c w).registry
  unfolding step
  step-IsValid_client (sets_node id o) w v =
      rw (step, set_node_lem)
        (record { sorted = assign_node-IsSorted id o _ _ v.sorted; nodes = v.nodes })
  step-IsValid_client (unsets_node o) w v =
      rw (step, unset_node_lem)
        (record { sorted = cleared-IsSorted o _ _ v.sorted; nodes = v.nodes })
  step-IsValid_client (removes_sink o) w v =
      rw (step, remove_sink_lem) (record { sorted = erase-IsSorted o _ v.sorted; nodes = v.nodes })
  step-IsValid_client (adds_sink s) w v =
      rw (step, add_sink_lem)
        (record { sorted = sink_entries-IsSorted w (lock w.live s) v.sorted; nodes = v.nodes })
  step-IsValid_client (registers n) w v =
      rw (step, register_node_lem)
        (record { sorted = v.sorted; nodes = registered-IsValid w (lock w.live n) v.nodes })
  step-IsValid_client (unregisters id) w v =
      rw (step, unregister_node_lem) (unregistered-IsValid id w.registry v)

  unfoldable pub run : List Call → World N ClientRegistry → World N ClientRegistry
  unfolding step
  run [] w = w
  run (c ∷ cs) w = run cs (step object_name c w)

  -- Calls keep a registry valid: one entry per object id and a valid storage of nodes.
  pub run-IsValid_client :
      (cs : List Call) (w : World N ClientRegistry)
      → IsValid w.registry
      → IsValid (run cs w).registry
  unfolding run
  run-IsValid_client [] w v = v
  run-IsValid_client (c ∷ cs) w v =
      run-IsValid_client cs (step object_name c w) (step-IsValid_client c w v)

-- The ids that `getObjectIds` of a valid client registry gives are those of the objects whose entry
-- has the node.
pub elem-get_object_ids_client :
    {N : Type 0} (id : ℕ) (o : Str) (w : World N ClientRegistry)
    → IsValid w.registry
    → (ids : List Str) × (get_object_ids id w ≡ (ok ids, w))
      × (elem o ids
          ≡ matches (λ (e : SinkToClientEntry). e.node_id == id) (find o w.registry.entries))
unfolding get_object_ids
elem-get_object_ids_client id o w v =
    (keys_where (λ e. e.node_id == id) w.registry.entries, refl, elem-keys_where _ o _ v.sorted)

without_id-matches :
    (id : ℕ) (e : Option SinkToClientEntry)
    → id ≢ invalid_id
    → matches (λ (e : SinkToClientEntry). e.node_id == id) (without_id id e) ≡ false
unfolding without_id
without_id-matches id none ne = refl
without_id-matches id (some e) ne = ground arith

unregistered-gone :
    (id : ℕ) (r : ClientRegistry)
    → id ≢ invalid_id
    → Storage.get id (unregistered id r).nodes_by_id ≡ none
unfolding unregistered
unregistered-gone id r ne = ground (arith, get-remove id id r.nodes_by_id)

-- After a node with a valid id is unregistered from the client registry no object uses its id, and
-- the id leads to no node.
pub unregister_node_clears :
    (object_name : ℕ → Str) {N : Type 0} (id : ℕ) (w : World N ClientRegistry)
    → id ≢ invalid_id
    → let w' = step object_name (unregisters id) w in
      ((o : Str)
        → matches (λ (e : SinkToClientEntry). e.node_id == id) (find o w'.registry.entries) ≡ false)
      × (Storage.get id w'.registry.nodes_by_id ≡ none)
unfolding step entry_after
unregister_node_clears object_name id w ne = (
  λ o. rw find-step_client (ground (arith, without_id-matches id (find o w.registry.entries) ne)),
  rw (step, unregister_node_lem) (unregistered-gone id w.registry ne),
)
