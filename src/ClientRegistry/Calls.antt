-- ===== src/ClientRegistry/Calls.antt =====
-- What each method of `ClientRegistry` leaves: it returns, and writes the entries or the storage, and
-- the trace.
use objectlink_core_cpp.Prelude.{
  ℕ, ◌≡◌, refl, ap, sym, Bool, true, false, List, [], ◌++◌, Option, none, some, Str, ◌==◌,
  Bool-cases, inl, inr, if◌then◌else◌,
}
use mathlib.Core.List.{append-nil}
use objectlink_core_cpp.Exec.{ok}
use objectlink_core_cpp.Types.{LogLevel}
use objectlink_core_cpp.Map.{str_key, Map, find, erase, map_values}
use objectlink_core_cpp.Storage
use objectlink_core_cpp.Storage.{WeakPtr, Storage, invalid_id, lock}
use objectlink_core_cpp.Logger.Levels.{log_events, emit_log_lem}
use objectlink_core_cpp.World.{World, Event}
use objectlink_core_cpp.ClientRegistry.{
  ClientRegistry, SinkToClientEntry, clear_node, added, log, log_if, set_node, unset_node, add_sink,
  remove_sink, get_sink, add_locked_sink, register_locked, register_node, unregister_node,
  assign_node, assign_sink, sink_of, cleared,
}

module _ {N : Type 0} where
  pub log_lem :
      (level : LogLevel) (params : List Str) (w : World N ClientRegistry)
      → log level params w
        ≡ (ok tt, record w { trace = w.trace ++ log_events w.registry.logger level params })
  unfolding log
  log_lem level params w = emit_log_lem level params w w.registry.logger

  pub log_if_lem :
      (b : Bool) (level : LogLevel) (params : List Str) (w : World N ClientRegistry)
      → log_if b level params w ≡ (
        ok tt,
        record w {
          trace = w.trace ++ (if b then log_events w.registry.logger level params else []);
        },
      )
  unfolding log_if
  log_if_lem true level params w = log_lem level params w
  log_if_lem false level params w =
      ap (λ (t : List Event). (ok tt, record w { trace = t })) (sym (append-nil w.trace))

ruleset logs = (log_lem, log_if_lem)

module _ {N : Type 0} (w : World N ClientRegistry) where
  open w use {registry}

  pub set_node_lem :
      (id : ℕ) (o : Str)
      → set_node id o w ≡ (
        ok tt,
        record w {
          registry = record registry {
            entries = assign_node id o (find o registry.entries) registry.entries;
          };
          trace = (set_node id o w).1.trace;
        },
      )
  unfolding set_node
  set_node_lem id o = simp logs

  pub unset_node_lem :
      (o : Str)
      → unset_node o w ≡ (
        ok tt,
        record w {
          registry = record registry {
            entries = cleared o (find o registry.entries) registry.entries;
          };
          trace = (unset_node o w).1.trace;
        },
      )
  unfolding unset_node cleared
  unset_node_lem o = simp logs

  pub remove_sink_lem :
      (o : Str)
      → remove_sink o w ≡ (
        ok tt,
        record w {
          registry = record registry { entries = erase o registry.entries };
          trace = (remove_sink o w).1.trace;
        },
      )
  unfolding remove_sink
  remove_sink_lem o = simp logs

  pub get_sink_lem :
      (o : Str)
      → get_sink o w
        ≡ (ok (sink_of (find o registry.entries)), record w { trace = (get_sink o w).1.trace })
  unfolding get_sink
  get_sink_lem o = simp logs

  unfoldable pub sink_entries : (ℕ → Str) → Option ℕ → Map Str SinkToClientEntry
  sink_entries name none = registry.entries
  sink_entries name (some o) =
      assign_sink w.live o (name o) (find (name o) registry.entries) registry.entries

  add_locked_sink_lem :
      (name : ℕ → Str) (s : Option ℕ)
      → add_locked_sink name s w ≡ (
        ok tt,
        record w {
          registry = record registry { entries = sink_entries name s };
          trace = (add_locked_sink name s w).1.trace;
        },
      )
  unfolding add_locked_sink sink_entries
  add_locked_sink_lem name none = simp logs
  add_locked_sink_lem name (some o) = simp logs

  pub add_sink_lem :
      (name : ℕ → Str) (s : WeakPtr)
      → add_sink name s w ≡ (
        ok tt,
        record w {
          registry = record registry { entries = sink_entries name (lock w.live s) };
          trace = (add_sink name s w).1.trace;
        },
      )
  unfolding add_sink
  add_sink_lem name s = add_locked_sink_lem name (lock w.live s)

  -- The id and the storage of a registration.
  unfoldable pub registered : Option ℕ → ℕ × Storage
  registered none = (invalid_id, registry.nodes_by_id)
  registered (some o) =
      added registry.nodes_by_id (Storage.add w.live (some o) registry.nodes_by_id)

  register_locked_lem :
      (n : Option ℕ)
      → register_locked n w ≡ (
        ok (registered n).0,
        record w {
          registry = record registry { nodes_by_id = (registered n).1 };
          trace = (register_locked n w).1.trace;
        },
      )
  unfolding register_locked registered
  register_locked_lem none = simp logs
  register_locked_lem (some o) = refl

  pub register_node_lem :
      (n : WeakPtr)
      → register_node n w ≡ (
        ok (registered (lock w.live n)).0,
        record w {
          registry = record registry { nodes_by_id = (registered (lock w.live n)).1 };
          trace = (register_node n w).1.trace;
        },
      )
  unfolding register_node
  register_node_lem n = register_locked_lem (lock w.live n)

-- What `unregisterNode` makes of a registry.
unfoldable pub unregistered : ℕ → ClientRegistry → ClientRegistry
unregistered id r = if id == invalid_id then r else record r {
  entries = map_values (λ e. if e.node_id == id then clear_node e else e) r.entries;
  nodes_by_id = Storage.remove id r.nodes_by_id;
}

pub unregister_node_lem :
    {N : Type 0} (w : World N ClientRegistry) (id : ℕ)
    → unregister_node id w ≡ (ok tt, record w { registry = unregistered id w.registry })
unfolding unregister_node unregistered
unregister_node_lem w id = elim (Bool-cases (id == invalid_id)) [ inl e ↦ rw e | inr e ↦ rw e ]
