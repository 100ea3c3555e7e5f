-- ===== src/RemoteRegistry.antt =====
-- src/olink/remoteregistry.h and remoteregistry.cpp: `RemoteRegistry`, which keeps for each object id
-- the source that was added for it and the ids of the remote nodes that are linked to it. The methods
-- work on a world whose registry this is; the object of the calling method (`N`) is not touched.
use objectlink_core_cpp.Prelude.{
  ℕ, Bool, true, false, not, ◌&&◌, List, [], ◌∷◌, ◌++◌, Option, none, some, Str, text, ◌==◌,
  if◌then◌else◌,
}
use objectlink_core_cpp.Exec.{Exec, pure, gets, when, ◌>>=◌, ◌>>◌}
use objectlink_core_cpp.Types.{LogLevel}
use objectlink_core_cpp.Map.{
  nat_key, str_key, Map, find, insert, erase, map_values, keys_where, elem,
}
use objectlink_core_cpp.Storage
use objectlink_core_cpp.Storage.{WeakPtr, Storage, invalid_id, lock, expired}
use objectlink_core_cpp.Logger
use objectlink_core_cpp.Logger.{Logger, emit_log}
use objectlink_core_cpp.World.{World, set_registry}
pub mod Calls
pub mod NodeIds
pub mod Entries
pub mod Invariant
pub mod Linking
pub mod Threads
pub mod LiveNodes
pub mod Runs

pub record SourceToNodesEntry : Type 0 where
  pub source : WeakPtr
  pub nodes : List ℕ

pub record RemoteRegistry : Type 0 where
  pub logger : Logger
  pub entries : Map Str SourceToNodesEntry
  pub nodes_by_id : Storage

unfoldable pub init : RemoteRegistry
unfolding Storage.init
init = record { logger = Logger.init; entries = []; nodes_by_id = Storage.init 0xFFFFFFFF }

-- What `add` returned. It always returns (Storage.Guarantees), so that the first clause is not met.
abbrev pub added : Storage → Option (ℕ × Storage) → ℕ × Storage
added s none = (invalid_id, s)
added s (some r) = r

-- The entries behind the critical section of `addSource`: an entry that is there stays as it is.
unfoldable pub assign_source :
    ℕ → Str → Option SourceToNodesEntry → Map Str SourceToNodesEntry → Map Str SourceToNodesEntry
assign_source source object_id none entries =
    insert object_id (record { source = some source; nodes = [] }) entries
assign_source source object_id (some e) entries = entries

same_object : WeakPtr → ℕ → Bool
same_object none o = false
same_object (some p) o = p == o

-- `anyAdded && !alreadyAdded`
has_other_source : (ℕ → Bool) → ℕ → Option SourceToNodesEntry → Bool
has_other_source live source none = false
has_other_source live source (some e) =
    not (expired live e.source) && not (same_object e.source source)

unfoldable pub add_once : ℕ → List ℕ → List ℕ
add_once id nodes = if elem id nodes then nodes else nodes ++ id ∷ []

-- nodes.erase(std::find_if(...)): the first one
unfoldable pub erase_first : ℕ → List ℕ → List ℕ
erase_first id [] = []
erase_first id (n ∷ nodes) = if id == n then nodes else n ∷ erase_first id nodes

-- A change of the nodes of an entry, if it is there.
unfoldable pub assign_nodes :
    (List ℕ → List ℕ)
    → Str
    → Option SourceToNodesEntry
    → Map Str SourceToNodesEntry
    → Map Str SourceToNodesEntry
assign_nodes f object_id none entries = entries
assign_nodes f object_id (some e) entries =
    insert object_id (record e { nodes = f e.nodes }) entries

unfoldable pub source_of : Option SourceToNodesEntry → WeakPtr
source_of none = none
source_of (some e) = e.source

-- The loop of `getNodes`: the nodes that are not expired.
unfoldable pub live_nodes : (ℕ → Bool) → Storage → List ℕ → List WeakPtr
live_nodes live nodes_by_id [] = []
live_nodes live nodes_by_id (id ∷ ids) =
    let rest = live_nodes live nodes_by_id ids in
    if expired live (Storage.get id nodes_by_id) then rest else Storage.get id nodes_by_id ∷ rest

unfoldable pub nodes_of : (ℕ → Bool) → Storage → Option SourceToNodesEntry → List WeakPtr
nodes_of live nodes_by_id none = []
nodes_of live nodes_by_id (some e) = live_nodes live nodes_by_id e.nodes

module _ {N : Type 0} where
  unfoldable pub log : LogLevel → List Str → Exec (World N RemoteRegistry) Unit
  log level params w = emit_log w.registry.logger level params w

  unfoldable pub log_if : Bool → LogLevel → List Str → Exec (World N RemoteRegistry) Unit
  log_if b level params = when b (log level params)

  unfoldable pub set_entries : Map Str SourceToNodesEntry → Exec (World N RemoteRegistry) Unit
  set_entries entries w = set_registry (record w.registry { entries = entries }) w

  -- `object_name` is olinkObjectName of the sources.
  add_locked_source : (ℕ → Str) → Option ℕ → Exec (World N RemoteRegistry) Unit
  unfolding has_other_source same_object
  add_locked_source object_name none =
      log LogLevel.warning
        (text "Trying to add source to registry, but source already expired" ∷ [])
  add_locked_source object_name (some source) = do
    let object_id = object_name source
    log LogLevel.info (text "RemoteRegistry.addObjectSource: " ∷ object_id ∷ [])
    live ← gets (λ w. w.live)
    entries ← gets (λ w. w.registry.entries)
    let entry = find object_id entries
    set_entries (assign_source source object_id entry entries)
    log_if (has_other_source live source entry) LogLevel.info (
        object_id
        ∷ text
            " has already a source, source object not changed. Please remove first the existing source. Have in mind, that all associated nodes will also be removed and must be added again."
        ∷ [])

  unfoldable pub add_source : (ℕ → Str) → WeakPtr → Exec (World N RemoteRegistry) Unit
  unfolding add_locked_source
  add_source object_name source = do
    locked_source ← gets (λ w. lock w.live source)
    add_locked_source object_name locked_source

  unfoldable pub remove_entry : Str → Exec (World N RemoteRegistry) Unit
  remove_entry object_id = do
    entries ← gets (λ w. w.registry.entries)
    set_entries (erase object_id entries)

  unfoldable pub remove_source : Str → Exec (World N RemoteRegistry) Unit
  unfolding remove_entry
  remove_source object_id = do
    log LogLevel.info (text "RemoteRegistry.removeObjectSource: " ∷ object_id ∷ [])
    remove_entry object_id

  unfoldable pub get_source : Str → Exec (World N RemoteRegistry) WeakPtr
  unfolding source_of
  get_source object_id = do
    log LogLevel.info (text "RemoteRegistry.getObjectSource: " ∷ object_id ∷ [])
    gets (λ w. source_of (find object_id w.registry.entries))

  unfoldable pub get_nodes : Str → Exec (World N RemoteRegistry) (List WeakPtr)
  unfolding nodes_of
  get_nodes object_id = do
    log LogLevel.info (text "RemoteRegistry.getRemoteNodes: " ∷ object_id ∷ [])
    gets (λ w. nodes_of w.live w.registry.nodes_by_id (find object_id w.registry.entries))

  unfoldable pub get_object_ids : ℕ → Exec (World N RemoteRegistry) (List Str)
  get_object_ids node_id = gets (λ w. keys_where (λ e. elem node_id e.nodes) w.registry.entries)

  update_nodes : (List ℕ → List ℕ) → Str → Exec (World N RemoteRegistry) Unit
  update_nodes f object_id = do
    entries ← gets (λ w. w.registry.entries)
    set_entries (assign_nodes f object_id (find object_id entries) entries)

  add_locked_node : Option ℕ → ℕ → Str → Exec (World N RemoteRegistry) Unit
  unfolding update_nodes
  add_locked_node none node_id object_id =
      log LogLevel.warning (text "Trying to add node, but it is already gone. Node NOT added." ∷ [])
  add_locked_node (some node) node_id object_id = do
    log LogLevel.info (text "RemoteRegistry.linkRemoteNode: " ∷ object_id ∷ [])
    update_nodes (add_once node_id) object_id

  unfoldable pub add_node_for_source : ℕ → Str → Exec (World N RemoteRegistry) Unit
  unfolding add_locked_node
  add_node_for_source node_id object_id = do
    locked_node ← gets (λ w. lock w.live (Storage.get node_id w.registry.nodes_by_id))
    add_locked_node locked_node node_id object_id

  unfoldable pub remove_node_from_source : ℕ → Str → Exec (World N RemoteRegistry) Unit
  unfolding update_nodes
  remove_node_from_source node_id object_id = do
    log LogLevel.info (text "RemoteRegistry.removeNodeFromSource: " ∷ object_id ∷ [])
    update_nodes (erase_first node_id) object_id

  register_locked : Option ℕ → Exec (World N RemoteRegistry) ℕ
  register_locked none = do
    log LogLevel.warning (text "Trying to add node, but it is already gone. Node NOT added." ∷ [])
    pure invalid_id
  register_locked (some node) = do
    live ← gets (λ w. w.live)
    r ← gets (λ w. w.registry)
    let (id, nodes) = added r.nodes_by_id (Storage.add live (some node) r.nodes_by_id)
    set_registry (record r { nodes_by_id = nodes })
    pure id

  unfoldable pub register_node : WeakPtr → Exec (World N RemoteRegistry) ℕ
  unfolding register_locked
  register_node node = do locked_node ← gets (λ w. lock w.live node); register_locked locked_node

  unfoldable pub unregister_node : ℕ → Exec (World N RemoteRegistry) Unit
  unregister_node id = when (not (id == invalid_id)) do
    r ← gets (λ w. w.registry)
    set_registry (record r {
      entries = map_values (λ e. record e { nodes = erase_first id e.nodes }) r.entries;
      nodes_by_id = Storage.remove id r.nodes_by_id;
    })
