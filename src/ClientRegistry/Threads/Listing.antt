-- ===== src/ClientRegistry/Threads/Listing.antt =====
-- The steps that write the entries of a client registry keep what `Lifetimes` says.
use objectlink_core_cpp.Prelude.{
  ℕ, ◌≡◌, refl, subst, Bool, true, false, not, ◌&&◌, ◌||◌, List, ◌∷◌, ◌++◌, Option, none, some, Str,
  All, All-middle, arith, ◌==◌, ==_iff, if◌then◌else◌, inl, inr, ◌⊎◌,
}
use mathlib.Core.Option
use objectlink_core_cpp.Map.{str_key, nat_key, find, erase, map_values, elem}
use objectlink_core_cpp.Map.Laws.{find-erase, find-map_values}
use objectlink_core_cpp.Storage.{invalid_id}
use objectlink_core_cpp.ClientRegistry.{SinkToClientEntry, assign_node, assign_sink, cleared}
use objectlink_core_cpp.ClientRegistry.Entries.{
  given_node, without_node, given_sink, find-assign_node, find-cleared, find-assign_sink,
}
use objectlink_core_cpp.Lifetimes.{clearing, freeing, Task, holds, lacks, set, with_entries}
use objectlink_core_cpp.Lifetimes.Owners.{IsSound, HasOwner, IsOwned}
use objectlink_core_cpp.Lifetimes.Destruction as Destruction
use objectlink_core_cpp.Lifetimes.Tasks.{entries-IsOwned, owner_of, one_entry}
use objectlink_core_cpp.ClientRegistry.Threads.{System, clear_if}

-- Whether the entry of an object uses a node id that was not set for a node that was gone.
abbrev pub uses : List ℕ → ℕ → Option SinkToClientEntry → Bool
uses missed id none = false
uses missed id (some e) = e.node_id == id && not (id == invalid_id || elem id missed)

abbrev pub IsAny : Option SinkToClientEntry → Type 0
IsAny e = Unit

uses-given :
    (missed : List ℕ) (id i : ℕ) (e : Option SinkToClientEntry)
    → uses missed i (given_node id e) ≡ true
    → ((id == i) ≡ true) ⊎ (uses missed i e ≡ true)
unfolding given_node
uses-given missed id i none h = ground arith
uses-given missed id i (some e) h = ground arith

uses-without :
    (missed : List ℕ) (i : ℕ) (e : Option SinkToClientEntry)
    → uses missed i (without_node e) ≡ false
unfolding without_node
uses-without missed i none = refl
uses-without missed i (some e) = ground (arith, ==_iff invalid_id i)

uses-given_sink :
    (missed : List ℕ) (live : ℕ → Bool) (sink i : ℕ) (e : Option SinkToClientEntry)
    → uses missed i (given_sink live sink e) ≡ true
    → uses missed i e ≡ true
unfolding given_sink
uses-given_sink missed live sink i none h = absurd (ground (arith, ==_iff invalid_id i))
uses-given_sink missed live sink i (some e) h = ground arith

uses-cleared :
    (missed : List ℕ) (id i : ℕ) (e : Option SinkToClientEntry)
    → uses missed i (Option.map (clear_if id) e) ≡ (if id == i then false else uses missed i e)
uses-cleared missed id i none = ground arith
uses-cleared missed id i (some e) =
    ground (arith, ==_iff invalid_id i, ==_iff id i, ==_iff e.node_id id, ==_iff e.node_id i)

uses-more :
    (missed : List ℕ) (id i : ℕ) (e : Option SinkToClientEntry)
    → uses (id ∷ missed) i e ≡ true
    → ((id == i) ≡ false) × (uses missed i e ≡ true)
unfolding elem
uses-more missed id i none h = absurd cc
uses-more missed id i (some e) h = ground arith

module _ (missed : List ℕ) {s : System} (v : IsOwned (uses missed) IsAny s) where
  open s use {entries, nodes_by_id, nodes, running}

  pub set_held-IsOwned :
      (id : ℕ) (o : Str) (n : ℕ) (before after : List Task)
      → running ≡ before ++ holds id o n ∷ after
      → IsOwned (uses missed) IsAny (record s {
        entries = assign_node id o (find o entries) entries;
        running = before ++ after;
      })
  set_held-IsOwned id o n before after e =
      let (held, rest) =
        All-middle (IsSound nodes) before (holds id o n) after
          (subst (All (IsSound nodes)) e v.adding) in
      entries-IsOwned v _ (before ++ after) (λ _. tt)
        (λ j i h.
          elim (one_entry v i o j _ _ (find-assign_node o j entries id (find o entries) refl) h) [
            | inl new ↦ elim (uses-given missed id i (find j entries) new) [
              | inl same ↦ subst (HasOwner s) ((==_iff id i).0 same) (owner_of v id n held)
              | inr old ↦ v.listed j i old
            ]
            | inr old ↦ v.listed j i old
          ])
        rest

  -- The ids that were set without a node are left out.
  more-IsOwned : (id : ℕ) → IsOwned (uses (id ∷ missed)) IsAny s
  more-IsOwned id = record {
    valid = v.valid;
    good = v.good;
    has_id = v.has_id;
    listed = λ o i h. v.listed o i (uses-more missed id i (find o entries) h).1;
    adding = v.adding;
  }

  pub set_missed-IsOwned :
      (id : ℕ) (o : Str) (before after : List Task)
      → running ≡ before ++ lacks id o ∷ after
      → IsOwned (uses (id ∷ missed)) IsAny (record s {
        entries = assign_node id o (find o entries) entries;
        running = before ++ after;
      })
  set_missed-IsOwned id o before after e =
      let (_, rest) =
        All-middle (IsSound nodes) before (lacks id o) after
          (subst (All (IsSound nodes)) e v.adding) in
      let w = more-IsOwned id in
      entries-IsOwned w _ (before ++ after) (λ _. tt)
        (λ j i h.
          elim (one_entry w i o j _ _ (find-assign_node o j entries id (find o entries) refl) h) [
            | inl new ↦ elim (uses-given (id ∷ missed) id i (find j entries) new) [
              | inl same ↦ absurd (not_missed id i _ same h)
              | inr old ↦ w.listed j i old
            ]
            | inr old ↦ w.listed j i old
          ])
        rest
    where
      not_missed :
          (id i : ℕ) (f : Option SinkToClientEntry)
          → (id == i) ≡ true
          → uses (id ∷ missed) i f ≡ true
          → ⊥
      not_missed id i f same h = let (ne, _) = uses-more missed id i f h in cc

  pub unset-IsOwned :
      (o : Str) → IsOwned (uses missed) IsAny (with_entries (cleared o (find o entries) entries) s)
  unset-IsOwned o =
      entries-IsOwned v _ running (λ _. tt)
        (λ j i h. elim (one_entry v i o j _ _ (find-cleared o j entries (find o entries) refl) h) [
          | inl new ↦ let e = uses-without missed i (find j entries) in absurd cc
          | inr old ↦ v.listed j i old
        ])
        v.adding

  pub give_sink-IsOwned :
      (live : ℕ → Bool) (sink : ℕ) (o : Str)
      → IsOwned
          (uses missed)
          IsAny
          (with_entries (assign_sink live sink o (find o entries) entries) s)
  give_sink-IsOwned live sink o =
      entries-IsOwned v _ running (λ _. tt)
        (λ j i h.
          elim (one_entry v i o j _ _ (find-assign_sink o j entries live sink (find o entries) refl)
            h) [
              | inl new ↦ v.listed j i (uses-given_sink missed live sink i (find j entries) new)
              | inr old ↦ v.listed j i old
            ])
        v.adding

  pub drop_sink-IsOwned : (o : Str) → IsOwned (uses missed) IsAny (with_entries (erase o entries) s)
  drop_sink-IsOwned o =
      entries-IsOwned v _ running (λ _. tt)
        (λ j i h. elim (one_entry v i o j _ none (find-erase o j entries) h) [
          | inl new ↦ absurd cc
          | inr old ↦ v.listed j i old
        ])
        v.adding

  pub clear-IsOwnedClient :
      (n id : ℕ)
      → nodes n ≡ clearing id
      → IsOwned (uses missed) IsAny (record s {
        entries = map_values (clear_if id) entries;
        nodes = set n (freeing id) nodes;
      })
  clear-IsOwnedClient n id h =
      Destruction.clear-IsOwned v n id (map_values (clear_if id) entries) h (λ _. tt)
        (λ o j. rw find-map_values (uses-cleared missed id j (find o entries)))
