-- ===== src/RemoteRegistry/Threads/Safety.antt =====
-- Whatever threads do, an id is listed for its node only.
use objectlink_core_cpp.Prelude.{ℕ, ◌≡◌, ◌≤◌, arith, ap, [], some, Str, true, ◌⊎◌}
use objectlink_core_cpp.Map.{str_key, find}
use objectlink_core_cpp.Storage
use objectlink_core_cpp.Storage.Invariant.{init-IsValid}
use objectlink_core_cpp.RemoteRegistry.Linking.{lists}
use objectlink_core_cpp.RemoteRegistry.Threads.{
  System, Step, create, look, hold, refuse, list_node, unlist_node, give_source, drop_source, die,
  clear, free, Reach, here, next,
}
use objectlink_core_cpp.Lifetimes.Owners.{stored_id, listable-cases}
use objectlink_core_cpp.Lifetimes.{absent, alive, clearing}
use objectlink_core_cpp.Lifetimes.Destruction.{die-IsOwned, free-IsOwned}
use objectlink_core_cpp.Lifetimes.Tasks.{look-IsOwned, hold-IsOwned, drop-IsOwned}
use objectlink_core_cpp.RemoteRegistry.Threads.Listing.{
  IsOwnedRemote, clear-IsOwnedRemote, list_node-IsOwned, unlist_node-IsOwned, give_source-IsOwned,
  drop_source-IsOwned,
}
use objectlink_core_cpp.Lifetimes.Creation.{create-IsOwned}

Step-IsOwned : {s t : System} → Step s t → IsOwnedRemote s → IsOwnedRemote t
Step-IsOwned (create n id st h room e) v = create-IsOwned v n id st h room e
Step-IsOwned (look id o) v = look-IsOwned v id o
Step-IsOwned (hold id o w n before after e h) v = hold-IsOwned v id o w n before after e h
Step-IsOwned (refuse id o w before after e h) v = drop-IsOwned v _ before after e
Step-IsOwned (list_node id o n before after e) v = list_node-IsOwned v id o n before after e
Step-IsOwned (unlist_node id o) v = unlist_node-IsOwned v id o
Step-IsOwned (give_source source o) v = give_source-IsOwned v source o
Step-IsOwned (drop_source o) v = drop_source-IsOwned v o
Step-IsOwned (die n id h k) v = die-IsOwned v n id h k
Step-IsOwned (clear n id h) v = clear-IsOwnedRemote v n id h
Step-IsOwned (free n id h) v = free-IsOwned v n id h

-- The registry as it is made: no entries, no nodes.
abbrev pub new : ℕ → System
new max_count = record {
  entries = [];
  nodes_by_id = Storage.init max_count;
  nodes = λ n. absent;
  running = [];
}

new-IsOwned : (max_count : ℕ) → max_count ≤ Storage.invalid_id → IsOwnedRemote (new max_count)
unfolding find Storage.get Storage.init
new-IsOwned max_count fits = record {
  valid = init-IsValid max_count fits;
  good = λ o. tt;
  has_id = λ n id. (λ h. absurd cc, λ h. absurd cc);
  listed = λ o id h. absurd cc;
  adding = tt;
}

Reach-IsOwned :
    {max_count : ℕ} {t : System}
    → max_count ≤ Storage.invalid_id
    → Reach (new max_count) t
    → IsOwnedRemote t
Reach-IsOwned fits here = new-IsOwned _ fits
Reach-IsOwned fits (next r step) = Step-IsOwned step (Reach-IsOwned fits r)

-- Whatever threads do on a new remote registry, in whatever order their locked sections run, while
-- the storage is not full when a node is created: an id that is listed for an object leads to a
-- node, which is in use under that id, or whose destructor has not yet cleared the entries.
pub listed_owner :
    {max_count : ℕ} {t : System}
    → max_count ≤ Storage.invalid_id
    → Reach (new max_count) t
    → (o : Str) (id : ℕ) → lists id (find o t.entries) ≡ true
    → (n : ℕ) × (Storage.get id t.nodes_by_id ≡ some n)
      × ((t.nodes n ≡ alive id) ⊎ (t.nodes n ≡ clearing id))
listed_owner {t = t} fits r o id h =
    let v = Reach-IsOwned fits r in
    let (n, get, can) = v.listed o id h in
    (n, get, listable-cases (t.nodes n) id ((v.has_id n id).1 get) can)

-- Whatever threads do on a new remote registry, while the storage is not full when a node is
-- created: a node in use is found under its id, which no other node has, nor one whose destructor
-- has not ended.
pub alive_found :
    {max_count : ℕ} {t : System}
    → max_count ≤ Storage.invalid_id
    → Reach (new max_count) t
    → (n id : ℕ) → t.nodes n ≡ alive id
    → (Storage.get id t.nodes_by_id ≡ some n) × ((m : ℕ) → stored_id (t.nodes m) ≡ some id → m ≡ n)
alive_found fits r n id h =
    let v = Reach-IsOwned fits r in
    let at = (v.has_id n id).0 (ap stored_id h) in
    (at, λ m e. ground (arith, (v.has_id m id).0 e, at))
