-- ===== src/Tests/ClientThreads.antt =====
-- Threads on a client registry: `setNode` looks for a node that is destroyed before it is locked, and
-- sets its id all the same; then another node is created and set for another object.
use objectlink_core_cpp.Prelude.{
  ℕ, ◌≡◌, refl, false, [], ◌∷◌, some, none, text, arith, ◌⊎◌, str_beq, str_less,
}
use objectlink_core_cpp.Map.{str_key, nat_key, find, insert, erase, elem}
use objectlink_core_cpp.Storage
use objectlink_core_cpp.Storage.{Storage, WeakPtr, invalid_id, lock}
use objectlink_core_cpp.ClientRegistry.{SinkToClientEntry, assign_node}
use objectlink_core_cpp.Lifetimes.{
  absent, alive, clearing, freeing, gone, set, looked, holds, lacks,
}
use objectlink_core_cpp.ClientRegistry.Threads.{
  System, Step, create, look, hold, miss, set_held, set_missed, die, clear, free, Reach, here, next,
}
use objectlink_core_cpp.ClientRegistry.Threads.Safety.{new, used_owner}

abbrev storage : ℕ → ℕ → ℕ → Storage
storage id n counter = record {
  max_count = 9;
  objects = (id, some n) ∷ [];
  counter = counter;
  overflowed = false;
}

abbrev entry : ℕ → SinkToClientEntry
entry id = record { sink = none; node_id = id }

abbrev made : System
made = record (new 9) { nodes_by_id = storage 0 30 1; nodes = set 30 (alive 0) (λ n. absent) }

makes : Step (new 9) [] made
unfolding Storage.init Storage.add lock Storage.add_unless_stored Storage.find_object
    Storage.get_unique_id insert
makes = create 30 0 (storage 0 30 1) refl (omega arith) refl

abbrev looking : System
looking = record made { running = looked 0 (text "old") (some 30) ∷ [] }

looks : Step made [] looking
unfolding Storage.get find
looks = look 0 (text "old")

abbrev dying : System
dying = record looking { nodes = set 30 (clearing 0) made.nodes }

abbrev cleared : System
cleared = record dying { nodes = set 30 (freeing 0) dying.nodes }

abbrev freed : System
freed = record cleared {
  nodes_by_id = record { max_count = 9; objects = []; counter = 1; overflowed = false };
  nodes = set 30 (gone 0) cleared.nodes;
}

frees : Step cleared [] freed
unfolding Storage.remove erase
frees = free 30 0 refl

abbrev missing : System
missing = record freed { running = lacks 0 (text "old") ∷ [] }

misses : Step freed [] missing
unfolding lock
misses = miss 0 (text "old") (some 30) [] [] refl refl

abbrev missed : System
missed = record freed { entries = (text "old", entry 0) ∷ []; running = [] }

sets_missed : Step missing (0 ∷ []) missed
unfolding assign_node find insert
sets_missed = set_missed 0 (text "old") [] [] refl

abbrev remade : System
remade = record missed { nodes_by_id = storage 1 31 2; nodes = set 31 (alive 1) missed.nodes }

remakes : Step missed [] remade
unfolding Storage.add lock Storage.add_unless_stored Storage.find_object Storage.get_unique_id
    insert
remakes = create 31 1 (storage 1 31 2) refl (omega arith) refl

abbrev holding : System
holding = record remade { running = holds 1 (text "demo") 31 ∷ [] }

looks_again : Step remade [] (record remade { running = looked 1 (text "demo") (some 31) ∷ [] })
unfolding Storage.get find
looks_again = look 1 (text "demo")

held : Step (record remade { running = looked 1 (text "demo") (some 31) ∷ [] }) [] holding
unfolding lock
held = hold 1 (text "demo") (some 31) 31 [] [] refl refl

abbrev in_use : System
in_use = record remade { entries = (text "demo", entry 1) ∷ (text "old", entry 0) ∷ [] }

sets : Step holding [] in_use
unfolding assign_node find insert str_beq str_less
sets = set_held 1 (text "demo") 31 [] [] refl

reached : Reach (new 9) (0 ∷ []) in_use
reached =
    next
      (next
        (next
          (next
            (next
              (next
                (next
                  (next (next (next (next here makes) looks) (die 30 0 refl (refl, tt)))
                    (clear 30 0 refl))
                  frees)
                misses)
              sets_missed)
            remakes)
          looks_again)
        held)
      sets

demo_there : find (text "demo") in_use.entries ≡ some (entry 1)
unfolding find str_beq
demo_there = refl

not_missed : elem {K = ℕ} 1 (0 ∷ []) ≡ false
unfolding elem
not_missed = refl

used_owner_example :
    (n : ℕ) × (Storage.get 1 in_use.nodes_by_id ≡ some n)
    × ((in_use.nodes n ≡ alive 1) ⊎ (in_use.nodes n ≡ clearing 1))
used_owner_example =
    used_owner (omega arith) reached (text "demo") (entry 1) demo_there
      (λ e. absurd (omega (arith, e))) not_missed
