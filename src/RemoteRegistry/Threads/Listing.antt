-- ===== src/RemoteRegistry/Threads/Listing.antt =====
-- The steps that write entries keep what `IsOwned` says.
use objectlink_core_cpp.Prelude.{
  ℕ, ◌≡◌, refl, subst, true, false, List, ◌∷◌, ◌++◌, Option, none, some, Str, str_beq, All,
  All-middle, arith, ◌==◌, ==_iff, if◌then◌else◌, inl, inr, ◌⊎◌,
}
use mathlib.Core.Option
use objectlink_core_cpp.Map.{str_key, nat_key, find, elem, erase, map_values}
use objectlink_core_cpp.RemoteRegistry.{
  SourceToNodesEntry, add_once, erase_first, assign_source, assign_nodes,
}
use objectlink_core_cpp.RemoteRegistry.NodeIds.{
  elem-add_once, elem-erase_first, add_once-IsNodup, erase_first-IsNodup, IsNodup,
}
use objectlink_core_cpp.RemoteRegistry.Entries.{
  with_nodes, given_source, find-assign_source, find-assign_nodes,
}
use objectlink_core_cpp.RemoteRegistry.Invariant.{
  HasNodup, given_source-HasNodup, with_nodes-HasNodup, if-HasNodup,
}
use objectlink_core_cpp.RemoteRegistry.Linking.{lists}
use objectlink_core_cpp.Map.Laws.{find-erase, find-map_values}
use objectlink_core_cpp.Lifetimes.{clearing, freeing, Task, holds, set, with_entries}
use objectlink_core_cpp.RemoteRegistry.Threads.{System, erase_node}
use objectlink_core_cpp.Lifetimes.Owners.{IsSound, HasOwner, IsOwned}
use objectlink_core_cpp.Lifetimes.Destruction as Destruction
use objectlink_core_cpp.Lifetimes.Tasks.{entries-IsOwned, owner_of, one_entry}

-- What `Lifetimes` says of the entries of a remote registry.
abbrev pub IsOwnedRemote : System → Type 0
IsOwnedRemote = IsOwned lists HasNodup

module _ {s : System} (v : IsOwned lists HasNodup s) where
  open s use {entries, nodes_by_id, nodes, running}

  lists-added :
      (id j : ℕ) (e : Option SourceToNodesEntry)
      → lists j (with_nodes (add_once id) e) ≡ true
      → ((id == j) ≡ true) ⊎ (lists j e ≡ true)
  unfolding with_nodes
  lists-added id j none h = absurd cc
  lists-added id j (some e) h = ground (arith, elem-add_once id j e.nodes)

  lists-erased :
      (id j : ℕ) (e : Option SourceToNodesEntry)
      → HasNodup e
      → lists j (with_nodes (erase_first id) e) ≡ true
      → lists j e ≡ true
  unfolding with_nodes
  lists-erased id j none d h = absurd cc
  lists-erased id j (some e) d h = ground (arith, elem-erase_first id j e.nodes d)

  -- A change of the nodes of one entry.
  nodes-HasNodup :
      (f : List ℕ → List ℕ) (o j : Str)
      → ((ns : List ℕ) → IsNodup ns → IsNodup (f ns))
      → HasNodup (find j (assign_nodes f o (find o entries) entries))
  nodes-HasNodup f o j keep =
      rw (find-assign_nodes o j entries f (find o entries) refl)
        (if-HasNodup (str_beq o j) _ _ (with_nodes-HasNodup f _ keep (v.good j)) (v.good j))

  pub list_node-IsOwned :
      (id : ℕ) (o : Str) (n : ℕ) (before after : List Task)
      → running ≡ before ++ holds id o n ∷ after
      → IsOwned lists HasNodup (record s {
        entries = assign_nodes (add_once id) o (find o entries) entries;
        running = before ++ after;
      })
  list_node-IsOwned id o n before after e =
      let (held, rest) =
        All-middle (IsSound nodes) before (holds id o n) after
          (subst (All (IsSound nodes)) e v.adding) in
      entries-IsOwned v _ (before ++ after)
        (λ j. nodes-HasNodup (add_once id) o j (add_once-IsNodup id))
        (λ j i h.
          elim (one_entry v i o j _ _
            (find-assign_nodes o j entries (add_once id) (find o entries) refl) h) [
              | inl new ↦ elim (lists-added id i (find j entries) new) [
                | inl same ↦ subst (HasOwner s) ((==_iff id i).0 same) (owner_of v id n held)
                | inr old ↦ v.listed j i old
              ]
              | inr old ↦ v.listed j i old
            ])
        rest

  pub unlist_node-IsOwned :
      (id : ℕ) (o : Str)
      → IsOwned lists HasNodup
          (with_entries (assign_nodes (erase_first id) o (find o entries) entries) s)
  unlist_node-IsOwned id o =
      entries-IsOwned v _ running
        (λ j. nodes-HasNodup (erase_first id) o j (erase_first-IsNodup id))
        (λ j i h.
          elim (one_entry v i o j _ _
            (find-assign_nodes o j entries (erase_first id) (find o entries) refl) h) [
              | inl new ↦ v.listed j i (lists-erased id i (find j entries) (v.good j) new)
              | inr old ↦ v.listed j i old
            ])
        v.adding

  lists-given :
      (source i : ℕ) (e : Option SourceToNodesEntry)
      → lists i (given_source source e) ≡ true
      → lists i e ≡ true
  unfolding given_source elem
  lists-given source i none h = h
  lists-given source i (some e) h = h

  pub give_source-IsOwned :
      (source : ℕ) (o : Str)
      → IsOwned lists HasNodup (with_entries (assign_source source o (find o entries) entries) s)
  give_source-IsOwned source o =
      entries-IsOwned v _ running
        (λ j.
          rw (find-assign_source o j entries source (find o entries) refl)
            (if-HasNodup (str_beq o j) _ _ (given_source-HasNodup source _ (v.good j)) (v.good j)))
        (λ j i h.
          elim (one_entry v i o j _ _ (find-assign_source o j entries source (find o entries) refl)
            h) [
              | inl new ↦ v.listed j i (lists-given source i (find j entries) new)
              | inr old ↦ v.listed j i old
            ])
        v.adding

  pub drop_source-IsOwned : (o : Str) → IsOwned lists HasNodup (with_entries (erase o entries) s)
  drop_source-IsOwned o =
      entries-IsOwned v _ running
        (λ j. rw (find-erase o j entries) (if-HasNodup (str_beq o j) none _ tt (v.good j)))
        (λ j i h. elim (one_entry v i o j _ none (find-erase o j entries) h) [
          | inl new ↦ absurd cc
          | inr old ↦ v.listed j i old
        ])
        v.adding

  -- What the loop of `unregisterNode` leaves of an entry.
  lists-cleared :
      (id j : ℕ) (o : Str)
      → lists j (find o (map_values (erase_node id) entries))
        ≡ (if id == j then false else lists j (find o entries))
  lists-cleared id j o = rw find-map_values (cleared (find o entries) (v.good o))
    where
      cleared :
          (e : Option SourceToNodesEntry)
          → HasNodup e
          → lists j (Option.map (erase_node id) e) ≡ (if id == j then false else lists j e)
      cleared none d = ground arith
      cleared (some e) d = elem-erase_first id j e.nodes d

  nodup :
      (id : ℕ) (e : Option SourceToNodesEntry)
      → HasNodup e
      → HasNodup (Option.map (erase_node id) e)
  nodup id none h = tt
  nodup id (some e) h = erase_first-IsNodup id e.nodes h

  pub clear-IsOwnedRemote :
      (n id : ℕ)
      → nodes n ≡ clearing id
      → IsOwned lists HasNodup (record s {
        entries = map_values (erase_node id) entries;
        nodes = set n (freeing id) nodes;
      })
  clear-IsOwnedRemote n id h =
      Destruction.clear-IsOwned v n id (map_values (erase_node id) entries) h
        (λ o. rw find-map_values (nodup id (find o entries) (v.good o)))
        (λ o j. lists-cleared id j o)
