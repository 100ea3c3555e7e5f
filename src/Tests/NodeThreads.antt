-- ===== src/Tests/NodeThreads.antt =====
-- Threads on a remote registry: a node is created and listed, and then its destructor starts.
use objectlink_core_cpp.Prelude.{
  ℕ, ◌≡◌, refl, true, false, [], ◌∷◌, some, text, arith, ◌⊎◌, str_beq,
}
use objectlink_core_cpp.Map.{str_key, nat_key, find, insert, elem}
use objectlink_core_cpp.Storage
use objectlink_core_cpp.Storage.{Storage, lock}
use objectlink_core_cpp.RemoteRegistry.{add_once, assign_source, assign_nodes}
use objectlink_core_cpp.RemoteRegistry.Linking.{lists}
use objectlink_core_cpp.Lifetimes.{absent, alive, clearing, set, looked, holds}
use objectlink_core_cpp.RemoteRegistry.Threads.{
  System, Step, create, look, hold, list_node, give_source, die, Reach, here, next,
}
use objectlink_core_cpp.RemoteRegistry.Threads.Safety.{new, listed_owner}

abbrev one_node : Storage
one_node = record { max_count = 9; objects = (0, some 30) ∷ []; counter = 1; overflowed = false }

abbrev made : System
made = record (new 9) { nodes_by_id = one_node; nodes = set 30 (alive 0) (λ n. absent) }

makes : Step (new 9) made
unfolding Storage.init Storage.add lock Storage.add_unless_stored Storage.find_object
    Storage.get_unique_id insert
makes = create 30 0 one_node refl (omega arith) refl

abbrev served : System
served = record made { entries = (text "demo", record { source = some 7; nodes = [] }) ∷ [] }

serves : Step made served
unfolding assign_source find insert
serves = give_source 7 (text "demo")

abbrev looking : System
looking = record served { running = looked 0 (text "demo") (some 30) ∷ [] }

looks : Step served looking
unfolding Storage.get find
looks = look 0 (text "demo")

abbrev holding : System
holding = record served { running = holds 0 (text "demo") 30 ∷ [] }

abbrev listed : System
listed = record made { entries = (text "demo", record { source = some 7; nodes = 0 ∷ [] }) ∷ [] }

held : Step looking holding
unfolding lock
held = hold 0 (text "demo") (some 30) 30 [] [] refl refl

lists_node : Step holding listed
unfolding assign_nodes find insert add_once str_beq elem
lists_node = list_node 0 (text "demo") 30 [] [] refl

abbrev dying : System
dying = record listed { nodes = set 30 (clearing 0) listed.nodes }

dies : Step listed dying
dies = die 30 0 refl tt

linked : Reach (new 9) listed
linked = next (next (next (next (next here makes) serves) looks) held) lists_node

demo_listed : lists 0 (find (text "demo") dying.entries) ≡ true
unfolding find elem str_beq
demo_listed = refl

listed_owner_example :
    (n : ℕ) × (Storage.get 0 dying.nodes_by_id ≡ some n)
    × ((dying.nodes n ≡ alive 0) ⊎ (dying.nodes n ≡ clearing 0))
listed_owner_example = listed_owner (omega arith) (next linked dies) (text "demo") 0 demo_listed
