-- ===== src/ClientRegistry/Runs.antt =====
-- Runs of calls on `ClientRegistry` against their replay on the entry of each object.
use objectlink_core_cpp.Prelude.{
  ℕ, ◌≡◌, refl, ap, ◌∙◌, Bool, false, List, [], ◌∷◌, Option, none, some, Str, ◌==◌,
}
use objectlink_core_cpp.Map.{str_key, nat_key, find, elem, keys_where}
use objectlink_core_cpp.Map.Sorted.{matches, elem-keys_where}
use objectlink_core_cpp.Exec.{ok}
use objectlink_core_cpp.Storage.{WeakPtr}
use objectlink_core_cpp.World.{World}
use objectlink_core_cpp.ClientRegistry.{
  ClientRegistry, SinkToClientEntry, get_sink, get_object_ids, sink_of,
}
use objectlink_core_cpp.ClientRegistry.Calls.{
  set_node_lem, unset_node_lem, add_sink_lem, remove_sink_lem, register_node_lem,
  unregister_node_lem, get_sink_lem,
}
use objectlink_core_cpp.ClientRegistry.Entries.{
  Call, sets_node, unsets_node, adds_sink, removes_sink, registers, unregisters, step, entry_after,
  find-step_client,
}
use objectlink_core_cpp.ClientRegistry.Linking.{IsValid, run, run-IsValid_client}

-- What calls make of the entry of one object.
unfoldable pub replay :
    (ℕ → Str) → (ℕ → Bool) → List Call → Str → Option SinkToClientEntry → Option SinkToClientEntry
replay name live [] j e = e
replay name live (c ∷ cs) j e = replay name live cs j (entry_after name live c j e)

-- The sink of an entry, and whether its node is this one.
unfoldable pub shown_sink : Option SinkToClientEntry → WeakPtr
shown_sink none = none
shown_sink (some e) = e.sink

unfoldable pub uses : ℕ → Option SinkToClientEntry → Bool
uses id none = false
uses id (some e) = e.node_id == id

module _ (object_name : ℕ → Str) {N : Type 0} where
  live-step : (c : Call) (w : World N ClientRegistry) → (step object_name c w).live ≡ w.live
  unfolding step
  live-step (sets_node id o) w = rw (step, set_node_lem)
  live-step (unsets_node o) w = rw (step, unset_node_lem)
  live-step (removes_sink o) w = rw (step, remove_sink_lem)
  live-step (adds_sink s) w = rw (step, add_sink_lem)
  live-step (registers n) w = rw (step, register_node_lem)
  live-step (unregisters id) w = rw (step, unregister_node_lem)

  find-run :
      (cs : List Call) (j : Str) (w : World N ClientRegistry)
      → find j (run object_name cs w).registry.entries
        ≡ replay object_name w.live cs j (find j w.registry.entries)
  unfolding run replay
  find-run [] j w = refl
  find-run (c ∷ cs) j w =
      find-run cs j (step object_name c w)
      ∙ ap (λ live. replay object_name live cs j (find j (step object_name c w).registry.entries))
          (live-step c w)
      ∙ ap (replay object_name w.live cs j) (find-step_client object_name w c j)

  -- Whatever calls are made on a valid client registry, in whatever order, while objects neither
  -- lose nor get an owner, it stays valid, and answers as the replay of the calls on the entry of
  -- each object says: `getSink` gives the sink of that entry, and `getObjectIds` the objects whose
  -- entry uses the node.
  pub run_refines_client :
      (cs : List Call) (w : World N ClientRegistry)
      → IsValid w.registry
      → let w' = run object_name cs w in
        IsValid w'.registry
        × ((o : Str)
            → (get_sink o w').0
              ≡ ok (shown_sink (replay object_name w.live cs o (find o w.registry.entries))))
        × ((id : ℕ)
            → (ids : List Str) × (get_object_ids id w' ≡ (ok ids, w'))
              × ((o : Str)
                  → elem o ids
                    ≡ uses id (replay object_name w.live cs o (find o w.registry.entries))))
  unfolding sink_of shown_sink uses get_object_ids
  run_refines_client cs w v =
      let w' = run object_name cs w in
      let v' = run-IsValid_client object_name cs w v in
      (
        v',
        λ o.
            ap (λ r. r.0) (get_sink_lem w' o)
            ∙ ap ok (sink_of-shown (find o w'.registry.entries))
            ∙ ap (λ e. ok (shown_sink e)) (find-run cs o w),
        λ id. (
          keys_where (λ e. e.node_id == id) w'.registry.entries,
          refl,
          λ o.
              elem-keys_where (λ e. e.node_id == id) o w'.registry.entries v'.sorted
              ∙ matches-uses id (find o w'.registry.entries)
              ∙ ap (uses id) (find-run cs o w),
        ),
      )
    where
      sink_of-shown : (e : Option SinkToClientEntry) → sink_of e ≡ shown_sink e
      sink_of-shown none = refl
      sink_of-shown (some e) = refl

      matches-uses :
          (id : ℕ) (e : Option SinkToClientEntry)
          → matches (λ (e : SinkToClientEntry). e.node_id == id) e ≡ uses id e
      matches-uses id none = refl
      matches-uses id (some e) = refl
