-- ===== src/ClientRegistry/Entries.antt =====
-- `ClientRegistry` as a function from object ids to entries: what each call does to it.
use objectlink_core_cpp.Prelude.{
  ℕ, ◌≡◌, refl, Bool, Option, none, some, Str, str_beq, str_beq_iff, ◌==◌, arith, if◌then◌else◌,
}
use mathlib.Core.Option
use objectlink_core_cpp.Map.{str_key, Map, find}
use objectlink_core_cpp.Map.Laws.{find-insert, find-erase, find-map_values}
use objectlink_core_cpp.Storage.{WeakPtr, invalid_id, lock, expired}
use objectlink_core_cpp.World.{World}
use objectlink_core_cpp.ClientRegistry.{
  ClientRegistry, SinkToClientEntry, clear_node, set_node, unset_node, add_sink, remove_sink,
  register_node, unregister_node, assign_node, assign_sink, cleared,
}
use objectlink_core_cpp.ClientRegistry.Calls.{
  set_node_lem, unset_node_lem, add_sink_lem, remove_sink_lem, register_node_lem,
  unregister_node_lem, sink_entries, unregistered,
}

pub data Call : Type 0 where
  sets_node : ℕ → Str → Call
  unsets_node removes_sink : Str → Call
  adds_sink registers : WeakPtr → Call
  unregisters : ℕ → Call

module _ (object_name : ℕ → Str) {N : Type 0} where
  unfoldable pub step : Call → World N ClientRegistry → World N ClientRegistry
  step (sets_node id o) w = (set_node id o w).1
  step (unsets_node o) w = (unset_node o w).1
  step (adds_sink s) w = (add_sink object_name s w).1
  step (removes_sink o) w = (remove_sink o w).1
  step (registers n) w = (register_node n w).1
  step (unregisters id) w = (unregister_node id w).1

-- What a call does to the entry of the object `j`.
unfoldable pub given_node : ℕ → Option SinkToClientEntry → Option SinkToClientEntry
given_node id none = some (record { sink = none; node_id = id })
given_node id (some e) = some (if e.node_id == invalid_id then record e { node_id = id } else e)

unfoldable pub without_node : Option SinkToClientEntry → Option SinkToClientEntry
without_node none = none
without_node (some e) = some (record { sink = e.sink; node_id = invalid_id })

unfoldable pub given_sink : (ℕ → Bool) → ℕ → Option SinkToClientEntry → Option SinkToClientEntry
given_sink live s none = some (record { sink = some s; node_id = invalid_id })
given_sink live s (some e) = some (if expired live e.sink then record e { sink = some s } else e)

unfoldable pub without_id : ℕ → Option SinkToClientEntry → Option SinkToClientEntry
without_id id none = none
without_id id (some e) =
    some (if e.node_id == id then record { sink = e.sink; node_id = invalid_id } else e)

unfoldable pub entry_after :
    (ℕ → Str) → (ℕ → Bool) → Call → Str → Option SinkToClientEntry → Option SinkToClientEntry
unfolding given_node without_node given_sink without_id
entry_after name live (sets_node id o) j e = if str_beq o j then given_node id e else e
entry_after name live (unsets_node o) j e = if str_beq o j then without_node e else e
entry_after name live (removes_sink o) j e = if str_beq o j then none else e
entry_after name live (adds_sink s) j e = elim (lock live s) [
  | none ↦ e
  | some o ↦ if str_beq (name o) j then given_sink live o e else e
]
entry_after name live (registers n) j e = e
entry_after name live (unregisters id) j e = if id == invalid_id then e else without_id id e

module _ (o j : Str) (m : Map Str SinkToClientEntry) where
  pub find-assign_node :
      (id : ℕ) (e : Option SinkToClientEntry)
      → find o m ≡ e
      → find j (assign_node id o e m) ≡ (if str_beq o j then given_node id (find j m) else find j m)
  unfolding assign_node given_node
  find-assign_node id none h =
      ground (arith, str_beq_iff o j, find-insert o j (record { sink = none; node_id = id }) m)
  find-assign_node id (some e) h =
      ground (arith, str_beq_iff o j, find-insert o j (record e { node_id = id }) m)

  pub find-cleared :
      (e : Option SinkToClientEntry)
      → find o m ≡ e
      → find j (cleared o e m) ≡ (if str_beq o j then without_node (find j m) else find j m)
  unfolding cleared without_node
  find-cleared none h = ground (arith, str_beq_iff o j)
  find-cleared (some e) h = ground (arith, str_beq_iff o j, find-insert o j (clear_node e) m)

  pub find-assign_sink :
      (live : ℕ → Bool) (s : ℕ) (e : Option SinkToClientEntry)
      → find o m ≡ e
      → find j (assign_sink live s o e m)
        ≡ (if str_beq o j then given_sink live s (find j m) else find j m)
  unfolding assign_sink given_sink
  find-assign_sink live s none h =
      ground
        (arith, str_beq_iff o j, find-insert o j (record { sink = some s; node_id = invalid_id }) m)
  find-assign_sink live s (some e) h =
      ground (arith, str_beq_iff o j, find-insert o j (record e { sink = some s }) m)

abbrev unset_if : ℕ → SinkToClientEntry → SinkToClientEntry
unset_if id e = if e.node_id == id then clear_node e else e

pub find-unregistered :
    (id : ℕ) (j : Str) (r : ClientRegistry)
    → find j (unregistered id r).entries
      ≡ (if id == invalid_id then find j r.entries else without_id id (find j r.entries))
unfolding unregistered without_id
find-unregistered id j r =
    ground (arith, find-map_values (unset_if id) j r.entries, map-unset_if (find j r.entries))
  where
    map-unset_if : (o : Option SinkToClientEntry) → Option.map (unset_if id) o ≡ without_id id o
    map-unset_if none = refl
    map-unset_if (some e) = refl

module _ (object_name : ℕ → Str) {N : Type 0} (w : World N ClientRegistry) where
  find-sink_entries :
      (s : WeakPtr) (j : Str)
      → find j (sink_entries w object_name (lock w.live s))
        ≡ entry_after object_name w.live (adds_sink s) j (find j w.registry.entries)
  unfolding entry_after
  find-sink_entries s j = locked (lock w.live s)
    where
      locked :
          (l : Option ℕ)
          → find j (sink_entries w object_name l) ≡ elim l [
            | none ↦ find j w.registry.entries
            | some o ↦
                if str_beq (object_name o) j
                then given_sink w.live o (find j w.registry.entries)
                else find j w.registry.entries
          ]
      locked none = unfold sink_entries in refl
      locked (some o) =
          unfold sink_entries in
          find-assign_sink (object_name o) j w.registry.entries w.live o _ refl

  -- Every call on the client registry changes the entry of every object id exactly as the abstract
  -- `entry_after` says, whatever the registry holds: in particular `unsetNode` and `unregisterNode`
  -- leave the sink and reset the node to the invalid id.
  pub find-step_client :
      (c : Call) (j : Str)
      → find j (step object_name c w).registry.entries
        ≡ entry_after object_name w.live c j (find j w.registry.entries)
  unfolding step entry_after
  find-step_client (sets_node id o) j =
      rw (step, set_node_lem) (find-assign_node o j w.registry.entries id _ refl)
  find-step_client (unsets_node o) j =
      rw (step, unset_node_lem) (find-cleared o j w.registry.entries _ refl)
  find-step_client (removes_sink o) j =
      rw (step, remove_sink_lem) (find-erase o j w.registry.entries)
  find-step_client (adds_sink s) j = rw (step, add_sink_lem) (find-sink_entries s j)
  find-step_client (registers n) j = rw (step, register_node_lem)
  find-step_client (unregisters id) j =
      rw (step, unregister_node_lem) (find-unregistered id j w.registry)
