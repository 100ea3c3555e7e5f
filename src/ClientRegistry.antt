-- ===== src/ClientRegistry.antt =====
-- src/olink/clientregistry.h and clientregistry.cpp: `ClientRegistry`, which keeps for each object id
-- the sink that was added for it and the id of the client node that it uses. The methods work on a
-- world whose registry this is; the object of the calling method (`N`) is not touched.
use objectlink_core_cpp.Prelude.{
  ℕ, Bool, true, false, not, List, [], ◌∷◌, Option, none, some, Str, text, ◌==◌, if◌then◌else◌,
}
use objectlink_core_cpp.Exec.{Exec, pure, gets, when, ◌>>=◌, ◌>>◌}
use objectlink_core_cpp.Types.{LogLevel}
use objectlink_core_cpp.Map.{str_key, Map, find, insert, erase, map_values, keys_where}
use objectlink_core_cpp.Storage
use objectlink_core_cpp.Storage.{WeakPtr, Storage, invalid_id, lock, expired}
use objectlink_core_cpp.Logger
use objectlink_core_cpp.Logger.{Logger, emit_log}
use objectlink_core_cpp.World.{World, set_registry}
pub mod Calls
pub mod Entries
pub mod Linking
pub mod Runs
pub mod Threads

pub record SinkToClientEntry : Type 0 where
  pub sink : WeakPtr
  pub node_id : ℕ

pub record ClientRegistry : Type 0 where
  pub logger : Logger
  pub entries : Map Str SinkToClientEntry
  pub nodes_by_id : Storage

unfoldable pub init : ClientRegistry
unfolding Storage.init
init = record { logger = Logger.init; entries = []; nodes_by_id = Storage.init 0xFFFFFFFF }

-- What `add` returned. It always returns (Storage.Guarantees), so that the first clause is not met.
abbrev pub added : Storage → Option (ℕ × Storage) → ℕ × Storage
added s none = (invalid_id, s)
added s (some r) = r

-- The entries behind the critical section of `setNode`.
unfoldable pub assign_node :
    ℕ → Str → Option SinkToClientEntry → Map Str SinkToClientEntry → Map Str SinkToClientEntry
assign_node id object_id none entries =
    insert object_id (record { sink = none; node_id = id }) entries
assign_node id object_id (some e) entries =
    if e.node_id == invalid_id
    then insert object_id (record e { node_id = id }) entries
    else entries

has_other_node : ℕ → Option SinkToClientEntry → Bool
has_other_node id none = false
has_other_node id (some e) = if e.node_id == invalid_id then false else not (e.node_id == id)

-- The entries behind the critical section of `addSink`, for a live sink.
unfoldable pub assign_sink :
    (ℕ → Bool)
    → ℕ
    → Str
    → Option SinkToClientEntry
    → Map Str SinkToClientEntry
    → Map Str SinkToClientEntry
assign_sink live sink object_id none entries =
    insert object_id (record { sink = some sink; node_id = invalid_id }) entries
assign_sink live sink object_id (some e) entries =
    if expired live e.sink
    then insert object_id (record e { sink = some sink }) entries
    else entries

same_object : WeakPtr → ℕ → Bool
same_object none o = false
same_object (some p) o = p == o

has_other_sink : (ℕ → Bool) → ℕ → Option SinkToClientEntry → Bool
has_other_sink live sink none = false
has_other_sink live sink (some e) =
    if expired live e.sink then false else not (same_object e.sink sink)

abbrev pub clear_node : SinkToClientEntry → SinkToClientEntry
clear_node e = record e { node_id = invalid_id }

unfoldable pub cleared :
    Str → Option SinkToClientEntry → Map Str SinkToClientEntry → Map Str SinkToClientEntry
cleared object_id none entries = entries
cleared object_id (some e) entries = insert object_id (clear_node e) entries

unfoldable pub sink_of : Option SinkToClientEntry → WeakPtr
sink_of none = none
sink_of (some e) = e.sink

node_of : Storage → Option SinkToClientEntry → WeakPtr
node_of nodes none = none
node_of nodes (some e) = Storage.get e.node_id nodes

module _ {N : Type 0} where
  unfoldable pub log : LogLevel → List Str → Exec (World N ClientRegistry) Unit
  log level params w = emit_log w.registry.logger level params w

  unfoldable pub log_if : Bool → LogLevel → List Str → Exec (World N ClientRegistry) Unit
  log_if b level params = when b (log level params)

  unfoldable pub set_node : ℕ → Str → Exec (World N ClientRegistry) Unit
  unfolding has_other_node
  set_node id object_id = do
    locked_node ← gets (λ w. lock w.live (Storage.get id w.registry.nodes_by_id))
    log_if (elim locked_node [ none ↦ true | some o ↦ false ]) LogLevel.warning
        (text "Trying to add node, but it is already gone. Node NOT added." ∷ [])
    log LogLevel.info (text "ClientRegistry.setNode: " ∷ object_id ∷ [])
    r ← gets (λ w. w.registry)
    let entry = find object_id r.entries
    set_registry (record r { entries = assign_node id object_id entry r.entries })
    log_if (has_other_node id entry) LogLevel.warning (
        text "Trying to set a client node for "
        ∷ object_id
        ∷ text " but other node is already set. Node was NOT changed."
        ∷ [])

  unfoldable pub unset_node : Str → Exec (World N ClientRegistry) Unit
  unset_node object_id = do
    log LogLevel.info (text "ClientRegistry.unsetNode: " ∷ object_id ∷ [])
    r ← gets (λ w. w.registry)
    set_registry (record r { entries = cleared object_id (find object_id r.entries) r.entries })

  -- `object_name` is olinkObjectName of the sinks.
  add_locked_sink : (ℕ → Str) → Option ℕ → Exec (World N ClientRegistry) Unit
  unfolding has_other_sink same_object
  add_locked_sink object_name none =
      log LogLevel.warning
        (text "Trying to add sink object, but it is already gone. New object NOT added." ∷ [])
  add_locked_sink object_name (some sink) = do
    let object_id = object_name sink
    log LogLevel.info (text "ClientRegistry.addSink: " ∷ object_id ∷ [])
    live ← gets (λ w. w.live)
    r ← gets (λ w. w.registry)
    let entry = find object_id r.entries
    set_registry (record r { entries = assign_sink live sink object_id entry r.entries })
    log_if (has_other_sink live sink entry) LogLevel.warning (
        text "Trying to add object for "
        ∷ object_id
        ∷ text " but object for this id is already registered. New object NOT added."
        ∷ [])

  unfoldable pub add_sink : (ℕ → Str) → WeakPtr → Exec (World N ClientRegistry) Unit
  unfolding add_locked_sink
  add_sink object_name sink = do
    locked_sink ← gets (λ w. lock w.live sink)
    add_locked_sink object_name locked_sink

  unfoldable pub remove_sink : Str → Exec (World N ClientRegistry) Unit
  remove_sink object_id = do
    log LogLevel.info (text "ClientRegistry.removeSink: " ∷ object_id ∷ [])
    r ← gets (λ w. w.registry)
    set_registry (record r { entries = erase object_id r.entries })

  unfoldable pub get_sink : Str → Exec (World N ClientRegistry) WeakPtr
  unfolding sink_of
  get_sink object_id = do
    log LogLevel.info (text "ClientRegistry.getSink: " ∷ object_id ∷ [])
    gets (λ w. sink_of (find object_id w.registry.entries))

  unfoldable pub get_object_ids : ℕ → Exec (World N ClientRegistry) (List Str)
  get_object_ids node_id = gets (λ w. keys_where (λ e. e.node_id == node_id) w.registry.entries)

  unfoldable pub get_node : Str → Exec (World N ClientRegistry) WeakPtr
  unfolding node_of
  get_node object_id = do
    log LogLevel.info (text "ClientRegistry.getNode: " ∷ object_id ∷ [])
    gets (λ w. node_of w.registry.nodes_by_id (find object_id w.registry.entries))

  register_locked : Option ℕ → Exec (World N ClientRegistry) ℕ
  register_locked none = do
    log LogLevel.warning (text "Trying to get node, but it is already gone." ∷ [])
    pure invalid_id
  register_locked (some node) = do
    live ← gets (λ w. w.live)
    r ← gets (λ w. w.registry)
    let (id, nodes) = added r.nodes_by_id (Storage.add live (some node) r.nodes_by_id)
    set_registry (record r { nodes_by_id = nodes })
    pure id

  unfoldable pub register_node : WeakPtr → Exec (World N ClientRegistry) ℕ
  unfolding register_locked
  register_node node = do locked_node ← gets (λ w. lock w.live node); register_locked locked_node

  unfoldable pub unregister_node : ℕ → Exec (World N ClientRegistry) Unit
  unregister_node id = when (not (id == invalid_id)) do
    r ← gets (λ w. w.registry)
    set_registry (record r {
      entries = map_values (λ e. if e.node_id == id then clear_node e else e) r.entries;
      nodes_by_id = Storage.remove id r.nodes_by_id;
    })
