-- ===== src/Tests/Registries.antt =====
-- The registries on concrete values.
use objectlink_core_cpp.Prelude.{
  ℕ, map, ◌↔◌, ◌≡◌, refl, Bool, true, false, List, [], ◌∷◌, none, some, Str, text, arith, str_beq,
  if◌then◌else◌,
}
use objectlink_core_cpp.Exec.{ok}
use objectlink_core_cpp.Map.{str_key, nat_key, find, elem}
use objectlink_core_cpp.Logger
use objectlink_core_cpp.World.{World}
use objectlink_core_cpp.Storage
use objectlink_core_cpp.Storage.{Storage, lock, WeakPtr}
use objectlink_core_cpp.Storage.Invariant as Ids
use objectlink_core_cpp.ClientRegistry
use objectlink_core_cpp.ClientRegistry.{ClientRegistry, get_sink}
use objectlink_core_cpp.ClientRegistry.Runs.{replay, shown_sink, uses, run_refines_client}
use objectlink_core_cpp.ClientRegistry.Entries as Clients
use objectlink_core_cpp.ClientRegistry.Entries.{find-step_client}
use objectlink_core_cpp.ClientRegistry.Linking as Linking
use objectlink_core_cpp.ClientRegistry.Linking.{elem-get_object_ids_client, unregister_node_clears}
use objectlink_core_cpp.RemoteRegistry
use objectlink_core_cpp.RemoteRegistry.{RemoteRegistry, SourceToNodesEntry}
use objectlink_core_cpp.RemoteRegistry.Entries as Remotes
use objectlink_core_cpp.RemoteRegistry.Entries.{find-step_remote}
use objectlink_core_cpp.RemoteRegistry.Invariant as Invariant
use objectlink_core_cpp.RemoteRegistry.Invariant.{run-IsValid_remote}
use objectlink_core_cpp.RemoteRegistry.Runs as Runs
use objectlink_core_cpp.RemoteRegistry.Runs.{
  shown_source, shown_nodes, replayed, run_refines_remote,
}
use objectlink_core_cpp.RemoteRegistry.LiveNodes.{among, owned, IsNodeOf, get_nodes_gives}
use objectlink_core_cpp.RemoteRegistry.Linking.{lists, unregister_node_unlists}

-- the object id of every sink and source
abbrev name : ℕ → Str
name o = text "demo"

abbrev all_live : ℕ → Bool
all_live o = true

abbrev node_three : Storage
node_three = record { max_count = 9; objects = (3, some 30) ∷ []; counter = 4; overflowed = false }

-- a client registry in which the node 3 has the object
abbrev clients : World Unit ClientRegistry
clients = record {
  node = tt;
  registry = record {
    logger = Logger.init;
    entries = (text "demo", record { sink = some 7; node_id = 3 }) ∷ [];
    nodes_by_id = node_three;
  };
  live = all_live;
  trace = [];
}

node_three-IsValid : Ids.IsValid node_three
unfolding find
node_three-IsValid = record {
  sorted = (tt, tt);
  bounded = omega arith;
  fits = omega arith;
  counter_lt = λ p. omega arith;
  below = λ id w e. ground (arith, e);
  fresh = λ _ id w e. ground (arith, e);
  distinct = λ i j o e f. ground (arith, e, f);
}

clients-IsValid : Linking.IsValid clients.registry
clients-IsValid = record { sorted = (tt, tt); nodes = node_three-IsValid }

find-step_client_example :
    find
      (text "demo")
      (Clients.step name (Clients.unsets_node (text "demo")) clients).registry.entries
    ≡ Clients.entry_after name all_live
        (Clients.unsets_node (text "demo"))
        (text "demo")
        (find (text "demo") clients.registry.entries)
find-step_client_example =
    find-step_client name clients (Clients.unsets_node (text "demo")) (text "demo")

abbrev client_calls : List Clients.Call
client_calls =
    Clients.adds_sink (some 8) ∷ Clients.sets_node 3 (text "x") ∷ Clients.unregisters 3 ∷ []

run_refines_client_example :
    let w' = Linking.run name client_calls clients in
    Linking.IsValid w'.registry
    × ((o : Str)
        → (get_sink o w').0
          ≡ ok (shown_sink (replay name all_live client_calls o (find o clients.registry.entries))))
    × ((id : ℕ)
        → (ids : List Str) × (ClientRegistry.get_object_ids id w' ≡ (ok ids, w'))
          × ((o : Str)
              → elem o ids
                ≡ uses id (replay name all_live client_calls o (find o clients.registry.entries))))
run_refines_client_example = run_refines_client name client_calls clients clients-IsValid

-- a remote registry in which the node 3 uses the object
abbrev remotes : World Unit RemoteRegistry
remotes = record {
  node = tt;
  registry = record {
    logger = Logger.init;
    entries = (text "demo", record { source = some 7; nodes = 3 ∷ [] }) ∷ [];
    nodes_by_id = node_three;
  };
  live = all_live;
  trace = [];
}

abbrev entry : SourceToNodesEntry
entry = record { source = some 7; nodes = 3 ∷ [] }

entry-HasNodup : (b : Bool) → Invariant.HasNodup (if b then some entry else none)
unfolding elem
entry-HasNodup true = (refl, tt)
entry-HasNodup false = tt

remotes-HasNodup : (o : Str) → Invariant.HasNodup (find o remotes.registry.entries)
unfolding find
remotes-HasNodup o = entry-HasNodup (str_beq (text "demo") o)

remotes-IsValid : Invariant.IsValid remotes.registry
remotes-IsValid = record { sorted = (tt, tt); once = remotes-HasNodup; nodes = node_three-IsValid }

find-step_remote_example :
    find
      (text "demo")
      (Remotes.step name (Remotes.removes_node 3 (text "demo")) remotes).registry.entries
    ≡ Remotes.entry_after name all_live node_three
        (Remotes.removes_node 3 (text "demo"))
        (text "demo")
        (find (text "demo") remotes.registry.entries)
find-step_remote_example =
    find-step_remote name remotes (Remotes.removes_node 3 (text "demo")) (text "demo")

abbrev remote_calls : List Remotes.Call
remote_calls =
    Remotes.adds_source (some 8) ∷ Remotes.adds_node 3 (text "demo") ∷ Remotes.unregisters 3 ∷ []

run-IsValid_remote_example : Invariant.IsValid (Invariant.run name remote_calls remotes).registry
run-IsValid_remote_example = run-IsValid_remote name remote_calls remotes remotes-IsValid

run_refines_remote_example :
    let w' = Invariant.run name remote_calls remotes in
    ((o : Str)
      → (RemoteRegistry.get_source o w').0
        ≡ ok (shown_source (replayed name remote_calls o remotes).1))
    × ((o : Str)
        → (RemoteRegistry.get_nodes o w').0
          ≡ ok (shown_nodes all_live (replayed name remote_calls o remotes)))
    × ((id : ℕ)
        → (ids : List Str) × (RemoteRegistry.get_object_ids id w' ≡ (ok ids, w'))
          × ((o : Str) → elem o ids ≡ Runs.uses id (replayed name remote_calls o remotes).1))
run_refines_remote_example = run_refines_remote name remote_calls remotes remotes-IsValid

unregister_node_unlists_example :
    let w' = Remotes.step name (Remotes.unregisters 3) remotes in
    ((o : Str) → lists 3 (find o w'.registry.entries) ≡ false)
    × (Storage.get 3 w'.registry.nodes_by_id ≡ none)
unregister_node_unlists_example =
    unregister_node_unlists name 3 remotes remotes-IsValid (omega arith)

node_there : lock all_live (Storage.get 3 node_three) ≡ some 30
unfolding lock Storage.get find
node_there = refl

entry_there : find (text "demo") remotes.registry.entries ≡ some entry
unfolding find str_beq
entry_there = refl

get_nodes_gives_example :
    (ns : List WeakPtr) × ((RemoteRegistry.get_nodes (text "demo") remotes).0 ≡ ok ns)
    × (ns ≡ map some (owned all_live node_three (3 ∷ [])))
    × ((n : ℕ) → (among n ns ≡ true) ↔ IsNodeOf all_live node_three n (3 ∷ []))
get_nodes_gives_example = get_nodes_gives (text "demo") entry remotes entry_there
