-- ===== src/ClientRegistry/Threads/Safety.antt =====
-- Whatever threads do, an object uses the id of a node that is there, or one that was set when its
-- node was gone.
use objectlink_core_cpp.Prelude.{
  ℕ, ◌≡◌, ◌≢◌, ◌≤◌, arith, false, [], List, ◌++◌, some, Str, ◌⊎◌, ==_iff,
}
use objectlink_core_cpp.Map.{str_key, nat_key, find, elem}
use objectlink_core_cpp.Storage
use objectlink_core_cpp.Storage.Invariant.{init-IsValid}
use objectlink_core_cpp.ClientRegistry.{SinkToClientEntry}
use objectlink_core_cpp.Lifetimes.{alive, clearing, absent}
use objectlink_core_cpp.Lifetimes.Owners.{IsOwned, listable-cases}
use objectlink_core_cpp.Lifetimes.Creation.{create-IsOwned}
use objectlink_core_cpp.Lifetimes.Destruction.{die-IsOwned, free-IsOwned}
use objectlink_core_cpp.Lifetimes.Tasks.{look-IsOwned, hold-IsOwned, lack-IsOwned}
use objectlink_core_cpp.ClientRegistry.Threads.{
  System, Step, create, look, hold, miss, set_held, set_missed, unset, give_sink, drop_sink, die,
  clear, free, Reach, here, next,
}
use objectlink_core_cpp.ClientRegistry.Threads.Listing.{
  uses, IsAny, set_held-IsOwned, set_missed-IsOwned, unset-IsOwned, give_sink-IsOwned,
  drop_sink-IsOwned, clear-IsOwnedClient,
}

abbrev IsOwnedClient : List ℕ → System → Type 0
IsOwnedClient missed = IsOwned (uses missed) IsAny

Step-IsOwnedClient :
    (missed : List ℕ) {s t : System} {ids : List ℕ}
    → Step s ids t
    → IsOwnedClient missed s
    → IsOwnedClient (ids ++ missed) t
Step-IsOwnedClient missed (create n id st h room e) v = create-IsOwned v n id st h room e
Step-IsOwnedClient missed (look id o) v = look-IsOwned v id o
Step-IsOwnedClient missed (hold id o w n before after e h) v =
    hold-IsOwned v id o w n before after e h
Step-IsOwnedClient missed (miss id o w before after e h) v = lack-IsOwned v id o w before after e
Step-IsOwnedClient missed (set_held id o n before after e) v =
    set_held-IsOwned missed v id o n before after e
Step-IsOwnedClient missed (set_missed id o before after e) v =
    set_missed-IsOwned missed v id o before after e
Step-IsOwnedClient missed (unset o) v = unset-IsOwned missed v o
Step-IsOwnedClient missed (give_sink live sink o) v = give_sink-IsOwned missed v live sink o
Step-IsOwnedClient missed (drop_sink o) v = drop_sink-IsOwned missed v o
Step-IsOwnedClient missed (die n id h k) v = die-IsOwned v n id h k
Step-IsOwnedClient missed (clear n id h) v = clear-IsOwnedClient missed v n id h
Step-IsOwnedClient missed (free n id h) v = free-IsOwned v n id h

-- The registry as it is made: no entries, no nodes.
abbrev pub new : ℕ → System
new max_count = record {
  entries = [];
  nodes_by_id = Storage.init max_count;
  nodes = λ n. absent;
  running = [];
}

new-IsOwnedClient :
    (max_count : ℕ) → max_count ≤ Storage.invalid_id → IsOwnedClient [] (new max_count)
unfolding find Storage.get Storage.init
new-IsOwnedClient max_count fits = record {
  valid = init-IsValid max_count fits;
  good = λ o. tt;
  has_id = λ n id. (λ h. absurd cc, λ h. absurd cc);
  listed = λ o id h. absurd cc;
  adding = tt;
}

Reach-IsOwnedClient :
    {max_count : ℕ} {missed : List ℕ} {t : System}
    → max_count ≤ Storage.invalid_id
    → Reach (new max_count) missed t
    → IsOwnedClient missed t
Reach-IsOwnedClient fits here = new-IsOwnedClient _ fits
Reach-IsOwnedClient fits (next r step) = Step-IsOwnedClient _ step (Reach-IsOwnedClient fits r)

-- Whatever threads do on a new client registry, in whatever order their locked sections run, while
-- the storage is not full when a node is created: a valid node id that an object uses leads to a
-- node, which is in use under that id, or whose destructor has not yet cleared the entries, unless
-- `setNode` has found the node of the id gone and has set the id all the same.
pub used_owner :
    {max_count : ℕ} {missed : List ℕ} {t : System}
    → max_count ≤ Storage.invalid_id
    → Reach (new max_count) missed t
    → (o : Str) (e : SinkToClientEntry) → find o t.entries ≡ some e
    → e.node_id ≢ Storage.invalid_id
    → elem e.node_id missed ≡ false
    → (n : ℕ) × (Storage.get e.node_id t.nodes_by_id ≡ some n)
      × ((t.nodes n ≡ alive e.node_id) ⊎ (t.nodes n ≡ clearing e.node_id))
used_owner {missed = missed} {t = t} fits r o e f valid found =
    let v = Reach-IsOwnedClient fits r in
    let (n, get, can) = v.listed o e.node_id (
      rw f (
        ground (
          arith,
          valid,
          found,
          ==_iff e.node_id Storage.invalid_id,
          ==_iff e.node_id e.node_id,
        ))) in
    (n, get, listable-cases (t.nodes n) e.node_id ((v.has_id n e.node_id).1 get) can)
