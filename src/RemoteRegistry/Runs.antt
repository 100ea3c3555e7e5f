-- ===== src/RemoteRegistry/Runs.antt =====
-- Runs of calls on `RemoteRegistry` against their replay on the entry of each object.
use objectlink_core_cpp.Prelude.{
  ℕ, ◌≡◌, refl, ap, ◌∙◌, Bool, false, List, [], ◌∷◌, Option, none, some, Str, ◌==◌, map, Bool-cases,
  inl, inr, if◌then◌else◌,
}
use objectlink_core_cpp.Map.{str_key, nat_key, find, elem, keys_where}
use objectlink_core_cpp.Map.Sorted.{matches, elem-keys_where}
use objectlink_core_cpp.Exec.{ok}
use objectlink_core_cpp.Storage
use objectlink_core_cpp.Storage.{Storage, WeakPtr, invalid_id, lock}
use objectlink_core_cpp.World.{World}
use objectlink_core_cpp.RemoteRegistry.{
  RemoteRegistry, SourceToNodesEntry, added, get_source, get_nodes, get_object_ids, source_of,
  nodes_of,
}
use objectlink_core_cpp.RemoteRegistry.Calls.{
  add_source_lem, remove_source_lem, add_node_for_source_lem, remove_node_from_source_lem,
  register_node_lem, unregister_node_lem, get_source_lem, get_nodes_lem, registered, unregistered,
}
use objectlink_core_cpp.RemoteRegistry.Entries.{
  Call, adds_source, removes_source, adds_node, removes_node, registers, unregisters, step,
  entry_after, find-step_remote,
}
use objectlink_core_cpp.RemoteRegistry.Invariant.{IsValid, run, run-IsValid_remote}
use objectlink_core_cpp.RemoteRegistry.LiveNodes.{owned, live_nodes-owned}

-- What a call does to the storage of the nodes.
unfoldable pub ids_after : (ℕ → Bool) → Call → Storage → Storage
ids_after live (registers n) ids = elim (lock live n) [
  | none ↦ ids
  | some o ↦ (added ids (Storage.add live (some o) ids)).1
]
ids_after live (unregisters id) ids = if id == invalid_id then ids else Storage.remove id ids
ids_after live _ ids = ids

-- What calls make of the storage and of the entry of one object.
unfoldable pub replay :
    (ℕ → Str)
    → (ℕ → Bool)
    → List Call
    → Str
    → Storage
    → Option SourceToNodesEntry
    → Storage × Option SourceToNodesEntry
replay name live [] j ids e = (ids, e)
replay name live (c ∷ cs) j ids e =
    replay name live cs j (ids_after live c ids) (entry_after name live ids c j e)

-- The source of an entry, its nodes that have an owner, and whether it lists a node.
unfoldable pub shown_source : Option SourceToNodesEntry → WeakPtr
shown_source none = none
shown_source (some e) = e.source

unfoldable pub shown_nodes : (ℕ → Bool) → Storage × Option SourceToNodesEntry → List WeakPtr
shown_nodes live (ids, none) = []
shown_nodes live (ids, some e) = map some (owned live ids e.nodes)

unfoldable pub uses : ℕ → Option SourceToNodesEntry → Bool
uses id none = false
uses id (some e) = elem id e.nodes

module _ (object_name : ℕ → Str) {N : Type 0} where
  live-step : (c : Call) (w : World N RemoteRegistry) → (step object_name c w).live ≡ w.live
  unfolding step
  live-step (adds_source s) w = rw (step, add_source_lem)
  live-step (removes_source o) w = rw (step, remove_source_lem)
  live-step (adds_node id o) w = rw (step, add_node_for_source_lem)
  live-step (removes_node id o) w = rw (step, remove_node_from_source_lem)
  live-step (registers n) w = rw (step, register_node_lem)
  live-step (unregisters id) w = rw (step, unregister_node_lem)

  nodes-step :
      (c : Call) (w : World N RemoteRegistry)
      → (step object_name c w).registry.nodes_by_id ≡ ids_after w.live c w.registry.nodes_by_id
  unfolding step ids_after
  nodes-step (adds_source s) w = rw (step, add_source_lem)
  nodes-step (removes_source o) w = rw (step, remove_source_lem)
  nodes-step (adds_node id o) w = rw (step, add_node_for_source_lem)
  nodes-step (removes_node id o) w = rw (step, remove_node_from_source_lem)
  nodes-step (registers n) w = rw (step, register_node_lem) (of_lock (lock w.live n))
    where
      of_lock :
          (l : Option ℕ)
          → (registered w l).1 ≡ elim l [
            | none ↦ w.registry.nodes_by_id
            | some o ↦
                (added w.registry.nodes_by_id
                  (Storage.add w.live (some o) w.registry.nodes_by_id)).1
          ]
      of_lock none = unfold registered in refl
      of_lock (some o) = unfold registered in refl
  nodes-step (unregisters id) w = rw (step, unregister_node_lem) (kept w.registry)
    where
      kept :
          (r : RemoteRegistry)
          → (unregistered id r).nodes_by_id
            ≡ (if id == invalid_id then r.nodes_by_id else Storage.remove id r.nodes_by_id)
      kept r =
          unfold unregistered in
          elim (Bool-cases (id == invalid_id)) [ inl e ↦ rw e | inr e ↦ rw e ]

  -- The storage and the entry of an object.
  abbrev view : Str → World N RemoteRegistry → Storage × Option SourceToNodesEntry
  view j w = (w.registry.nodes_by_id, find j w.registry.entries)

  abbrev pub replayed :
      List Call → Str → World N RemoteRegistry → Storage × Option SourceToNodesEntry
  replayed cs j w =
      replay object_name w.live cs j w.registry.nodes_by_id (find j w.registry.entries)

  live-run : (cs : List Call) (w : World N RemoteRegistry) → (run object_name cs w).live ≡ w.live
  unfolding run
  live-run [] w = refl
  live-run (c ∷ cs) w = live-run cs (step object_name c w) ∙ live-step c w

  view-run :
      (cs : List Call) (j : Str) (w : World N RemoteRegistry)
      → view j (run object_name cs w) ≡ replayed cs j w
  unfolding run replay
  view-run [] j w = refl
  view-run (c ∷ cs) j w =
      let w1 = step object_name c w in
      view-run cs j w1
      ∙ ap
          (λ live.
            replay object_name live cs j w1.registry.nodes_by_id (find j w1.registry.entries))
          (live-step c w)
      ∙ ap (λ ids. replay object_name w.live cs j ids (find j w1.registry.entries)) (nodes-step c w)
      ∙ ap (replay object_name w.live cs j (ids_after w.live c w.registry.nodes_by_id))
          (find-step_remote object_name w c j)

  -- Whatever calls are made on a valid remote registry, in whatever order, while objects neither
  -- lose nor get an owner, it answers as the replay of the calls on its storage and on the entry of
  -- each object says: `getSource` gives the source of that entry, `getNodes` the nodes of its
  -- listed ids that have an owner, in order, and `getObjectIds` the objects whose entry lists the
  -- node.
  pub run_refines_remote :
      (cs : List Call) (w : World N RemoteRegistry)
      → IsValid w.registry
      → let w' = run object_name cs w in
        ((o : Str) → (get_source o w').0 ≡ ok (shown_source (replayed cs o w).1))
        × ((o : Str) → (get_nodes o w').0 ≡ ok (shown_nodes w.live (replayed cs o w)))
        × ((id : ℕ)
            → (ids : List Str) × (get_object_ids id w' ≡ (ok ids, w'))
              × ((o : Str) → elem o ids ≡ uses id (replayed cs o w).1))
  unfolding source_of nodes_of shown_source shown_nodes uses get_object_ids
  run_refines_remote cs w v =
      let w' = run object_name cs w in
      let v' = run-IsValid_remote object_name cs w v in
      (
        λ o.
            ap (λ r. r.0) (get_source_lem w' o)
            ∙ ap ok (sources (find o w'.registry.entries))
            ∙ ap (λ x. ok (shown_source x.1)) (view-run cs o w),
        λ o.
            ap (λ r. r.0) (get_nodes_lem w' o)
            ∙ ap ok (nodes w'.live w'.registry.nodes_by_id (find o w'.registry.entries))
            ∙ ap (λ live. ok (shown_nodes live (view o w'))) (live-run cs w)
            ∙ ap (λ x. ok (shown_nodes w.live x)) (view-run cs o w),
        λ id. (
          keys_where (λ e. elem id e.nodes) w'.registry.entries,
          refl,
          λ o.
              elem-keys_where (λ e. elem id e.nodes) o w'.registry.entries v'.sorted
              ∙ matches-uses id (find o w'.registry.entries)
              ∙ ap (λ x. uses id x.1) (view-run cs o w),
        ),
      )
    where
      sources : (e : Option SourceToNodesEntry) → source_of e ≡ shown_source e
      sources none = refl
      sources (some e) = refl

      nodes :
          (live : ℕ → Bool) (ids : Storage) (e : Option SourceToNodesEntry)
          → nodes_of live ids e ≡ shown_nodes live (ids, e)
      nodes live ids none = refl
      nodes live ids (some e) = live_nodes-owned live ids e.nodes

      matches-uses :
          (id : ℕ) (e : Option SourceToNodesEntry)
          → matches (λ (e : SourceToNodesEntry). elem id e.nodes) e ≡ uses id e
      matches-uses id none = refl
      matches-uses id (some e) = refl
