-- ===== src/RemoteRegistry/Calls.antt =====
-- What each method of `RemoteRegistry` leaves: it returns, and writes the entries or the storage, and
-- the trace.
use objectlink_core_cpp.Prelude.{
  ℕ, ◌≡◌, refl, ap, sym, Bool, true, false, List, [], ◌++◌, Option, none, some, Str, ◌==◌,
  Bool-cases, inl, inr, if◌then◌else◌,
}
use mathlib.Core.List.{append-nil}
use objectlink_core_cpp.Exec.{ok}
use objectlink_core_cpp.Types.{LogLevel}
use objectlink_core_cpp.Map.{str_key, Map, find, erase, map_values}
use objectlink_core_cpp.Storage
use objectlink_core_cpp.Storage.{WeakPtr, Storage, invalid_id, lock}
use objectlink_core_cpp.Logger.Levels.{log_events, emit_log_lem}
use objectlink_core_cpp.World.{World, Event}
use objectlink_core_cpp.RemoteRegistry.{
  RemoteRegistry, SourceToNodesEntry, added, add_once, erase_first, source_of, nodes_of,
  assign_source, assign_nodes, log, log_if, set_entries, add_source, add_locked_source,
  remove_source, get_source, get_nodes, add_node_for_source, add_locked_node,
  remove_node_from_source, register_locked, register_node, unregister_node,
}

module _ {N : Type 0} where
  pub log_lem :
      (level : LogLevel) (params : List Str) (w : World N RemoteRegistry)
      → log level params w
        ≡ (ok tt, record w { trace = w.trace ++ log_events w.registry.logger level params })
  unfolding log
  log_lem level params w = emit_log_lem level params w w.registry.logger

  pub log_if_lem :
      (b : Bool) (level : LogLevel) (params : List Str) (w : World N RemoteRegistry)
      → log_if b level params w ≡ (
        ok tt,
        record w {
          trace = w.trace ++ (if b then log_events w.registry.logger level params else []);
        },
      )
  unfolding log_if
  log_if_lem true level params w = log_lem level params w
  log_if_lem false level params w =
      ap (λ (t : List Event). (ok tt, record w { trace = t })) (sym (append-nil w.trace))

ruleset logs = (log_lem, log_if_lem)

module _ {N : Type 0} (w : World N RemoteRegistry) where
  open w use {registry}

  unfoldable pub source_entries : (ℕ → Str) → Option ℕ → Map Str SourceToNodesEntry
  source_entries name none = registry.entries
  source_entries name (some o) =
      assign_source o (name o) (find (name o) registry.entries) registry.entries

  add_locked_source_lem :
      (name : ℕ → Str) (s : Option ℕ)
      → add_locked_source name s w ≡ (
        ok tt,
        record w {
          registry = record registry { entries = source_entries name s };
          trace = (add_locked_source name s w).1.trace;
        },
      )
  unfolding add_locked_source source_entries set_entries
  add_locked_source_lem name none = simp logs
  add_locked_source_lem name (some o) = simp logs

  pub add_source_lem :
      (name : ℕ → Str) (s : WeakPtr)
      → add_source name s w ≡ (
        ok tt,
        record w {
          registry = record registry { entries = source_entries name (lock w.live s) };
          trace = (add_source name s w).1.trace;
        },
      )
  unfolding add_source
  add_source_lem name s = add_locked_source_lem name (lock w.live s)

  pub remove_source_lem :
      (o : Str)
      → remove_source o w ≡ (
        ok tt,
        record w {
          registry = record registry { entries = erase o registry.entries };
          trace = (remove_source o w).1.trace;
        },
      )
  unfolding remove_source set_entries
  remove_source_lem o = simp logs

  pub get_source_lem :
      (o : Str)
      → get_source o w
        ≡ (ok (source_of (find o registry.entries)), record w { trace = (get_source o w).1.trace })
  unfolding get_source
  get_source_lem o = simp logs

  pub get_nodes_lem :
      (o : Str)
      → get_nodes o w ≡ (
        ok (nodes_of w.live registry.nodes_by_id (find o registry.entries)),
        record w { trace = (get_nodes o w).1.trace },
      )
  unfolding get_nodes
  get_nodes_lem o = simp logs

  -- The entries with a node added to those of an object, if the node is still there.
  unfoldable pub node_entries : Option ℕ → ℕ → Str → Map Str SourceToNodesEntry
  node_entries none id o = registry.entries
  node_entries (some n) id o =
      assign_nodes (add_once id) o (find o registry.entries) registry.entries

  add_locked_node_lem :
      (n : Option ℕ) (id : ℕ) (o : Str)
      → add_locked_node n id o w ≡ (
        ok tt,
        record w {
          registry = record registry { entries = node_entries n id o };
          trace = (add_locked_node n id o w).1.trace;
        },
      )
  unfolding add_locked_node node_entries set_entries
  add_locked_node_lem none id o = simp logs
  add_locked_node_lem (some n) id o = simp logs

  pub add_node_for_source_lem :
      (id : ℕ) (o : Str)
      → add_node_for_source id o w ≡ (
        ok tt,
        record w {
          registry = record registry {
            entries = node_entries (lock w.live (Storage.get id registry.nodes_by_id)) id o;
          };
          trace = (add_node_for_source id o w).1.trace;
        },
      )
  unfolding add_node_for_source
  add_node_for_source_lem id o =
      add_locked_node_lem (lock w.live (Storage.get id registry.nodes_by_id)) id o

  pub remove_node_from_source_lem :
      (id : ℕ) (o : Str)
      → remove_node_from_source id o w ≡ (
        ok tt,
        record w {
          registry = record registry {
            entries = assign_nodes (erase_first id) o (find o registry.entries) registry.entries;
          };
          trace = (remove_node_from_source id o w).1.trace;
        },
      )
  unfolding remove_node_from_source set_entries
  remove_node_from_source_lem id o = simp logs

  -- The id and the storage of a registration.
  unfoldable pub registered : Option ℕ → ℕ × Storage
  registered none = (invalid_id, registry.nodes_by_id)
  registered (some o) =
      added registry.nodes_by_id (Storage.add w.live (some o) registry.nodes_by_id)

  register_locked_lem :
      (n : Option ℕ)
      → register_locked n w ≡ (
        ok (registered n).0,
        record w {
          registry = record registry { nodes_by_id = (registered n).1 };
          trace = (register_locked n w).1.trace;
        },
      )
  unfolding register_locked registered
  register_locked_lem none = simp logs
  register_locked_lem (some o) = refl

  pub register_node_lem :
      (n : WeakPtr)
      → register_node n w ≡ (
        ok (registered (lock w.live n)).0,
        record w {
          registry = record registry { nodes_by_id = (registered (lock w.live n)).1 };
          trace = (register_node n w).1.trace;
        },
      )
  unfolding register_node
  register_node_lem n = register_locked_lem (lock w.live n)

-- What `unregisterNode` makes of a registry.
unfoldable pub unregistered : ℕ → RemoteRegistry → RemoteRegistry
unregistered id r = if id == invalid_id then r else record r {
  entries = map_values (λ e. record e { nodes = erase_first id e.nodes }) r.entries;
  nodes_by_id = Storage.remove id r.nodes_by_id;
}

pub unregister_node_lem :
    {N : Type 0} (w : World N RemoteRegistry) (id : ℕ)
    → unregister_node id w ≡ (ok tt, record w { registry = unregistered id w.registry })
unfolding unregister_node unregistered
unregister_node_lem w id = elim (Bool-cases (id == invalid_id)) [ inl e ↦ rw e | inr e ↦ rw e ]
