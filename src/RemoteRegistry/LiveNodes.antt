-- ===== src/RemoteRegistry/LiveNodes.antt =====
-- What `RemoteRegistry::getNodes` gives.
use objectlink_core_cpp.Prelude.{
  ℕ, ◌≡◌, refl, ◌↔◌, Bool, true, false, ◌||◌, List, [], ◌∷◌, none, some, Option-cases, Bool-cases,
  inl, inr, Str, ◌==◌, ==_iff, arith, ap, ◌∙◌, Option, map, if◌then◌else◌,
}
use objectlink_core_cpp.Map.{str_key, nat_key, find, elem}
use objectlink_core_cpp.Exec.{ok}
use objectlink_core_cpp.Storage
use objectlink_core_cpp.Storage.{WeakPtr, Storage, expired, lock}
use objectlink_core_cpp.World.{World}
use objectlink_core_cpp.RemoteRegistry.{
  RemoteRegistry, SourceToNodesEntry, live_nodes, get_nodes, nodes_of,
}
use objectlink_core_cpp.RemoteRegistry.Calls.{get_nodes_lem}

-- Whether a pointer to the object is in the list.
unfoldable pub among : ℕ → List WeakPtr → Bool
among o [] = false
among o (none ∷ ws) = among o ws
among o (some p ∷ ws) = p == o || among o ws

-- The node of an id, if it has an owner, before others.
with_node : Option ℕ → List ℕ → List ℕ
with_node none rest = rest
with_node (some o) rest = o ∷ rest

-- The nodes of the ids that have an owner, in the order of the ids, one for each such id.
unfoldable pub owned : (ℕ → Bool) → Storage → List ℕ → List ℕ
unfolding with_node
owned live ids [] = []
owned live ids (id ∷ ns) = with_node (lock live (Storage.get id ids)) (owned live ids ns)

-- The object has an owner and is the node of one of the ids.
abbrev pub IsNodeOf : (ℕ → Bool) → Storage → ℕ → List ℕ → Type 0
IsNodeOf live ids o ns =
    (id : ℕ) × (elem id ns ≡ true) × (Storage.get id ids ≡ some o) × (live o ≡ true)

module _ (live : ℕ → Bool) (ids : Storage) (o : ℕ) where
  later : (n : ℕ) (ns : List ℕ) → IsNodeOf live ids o ns → IsNodeOf live ids o (n ∷ ns)
  unfolding elem
  later n ns (id, e, g, l) = (id, ground (arith, e), g, l)

  among-live_nodes :
      (ns : List ℕ) → among o (live_nodes live ids ns) ≡ true → IsNodeOf live ids o ns
  unfolding among live_nodes expired elem
  among-live_nodes [] h = absurd cc
  among-live_nodes (n ∷ ns) h = elim (Option-cases (Storage.get n ids)) [
    | inl g ↦ later n ns (among-live_nodes ns (ground (arith, g, h)))
    | inr (p, g) ↦ elim (Bool-cases (live p)) [
      | inr dead ↦ later n ns (among-live_nodes ns (ground (arith, g, h, dead)))
      | inl alive ↦ elim (Bool-cases (p == o)) [
        | inr ne ↦ later n ns (among-live_nodes ns (ground (arith, g, h, alive, ne)))
        | inl eq ↦ (n, ground arith, ground (arith, g, eq), ground (arith, alive, eq))
      ]
    ]
  ]

  among-kept :
      (w : WeakPtr) (ws : List WeakPtr)
      → among o ws ≡ true
      → among o (if expired live w then ws else w ∷ ws) ≡ true
  unfolding among expired
  among-kept none ws h = ground (arith, h)
  among-kept (some p) ws h = ground (arith, h)

  live_nodes-among :
      (ns : List ℕ) (id : ℕ)
      → elem id ns ≡ true
      → Storage.get id ids ≡ some o
      → live o ≡ true
      → among o (live_nodes live ids ns) ≡ true
  unfolding among live_nodes expired elem
  live_nodes-among [] id e g l = absurd cc
  live_nodes-among (n ∷ ns) id e g l = elim (Bool-cases (n == id)) [
    | inl eq ↦ ground (arith, eq, ==_iff n id, g, l)
    | inr ne ↦
        among-kept (Storage.get n ids) (live_nodes live ids ns)
          (live_nodes-among ns id (ground (arith, e, ne)) g l)
  ]

-- The loop keeps a pointer exactly if it can be locked.
pub live_nodes-owned :
    (live : ℕ → Bool) (ids : Storage) (ns : List ℕ)
    → live_nodes live ids ns ≡ map some (owned live ids ns)
unfolding live_nodes owned with_node expired lock
live_nodes-owned live ids [] = refl
live_nodes-owned live ids (n ∷ ns) = kept (Storage.get n ids) (live_nodes-owned live ids ns)
  where
    kept :
        (w : WeakPtr)
        → live_nodes live ids ns ≡ map some (owned live ids ns)
        → (if expired live w then live_nodes live ids ns else w ∷ live_nodes live ids ns)
          ≡ map some (with_node (lock live w) (owned live ids ns))
    kept none rest = rest
    kept (some o) rest = elim (Bool-cases (live o)) [
      | inl e ↦ ground (arith, e, rest)
      | inr e ↦ ground (arith, e, rest)
    ]

-- `getNodes` of an object that has an entry gives one pointer for each listed id whose node has an
-- owner, in the order of the ids, and no other pointer, empty or not; so a node is among them
-- exactly if it has an owner and is the node of a listed id.
pub get_nodes_gives :
    {N : Type 0} (o : Str) (e : SourceToNodesEntry) (w : World N RemoteRegistry)
    → find o w.registry.entries ≡ some e
    → (ns : List WeakPtr) × ((get_nodes o w).0 ≡ ok ns)
      × (ns ≡ map some (owned w.live w.registry.nodes_by_id e.nodes))
      × ((n : ℕ) → (among n ns ≡ true) ↔ IsNodeOf w.live w.registry.nodes_by_id n e.nodes)
unfolding nodes_of
get_nodes_gives o e w h = (
  live_nodes w.live w.registry.nodes_by_id e.nodes,
  ap (λ r. r.0) (get_nodes_lem w o) ∙ ap (λ f. ok (nodes_of w.live w.registry.nodes_by_id f)) h,
  live_nodes-owned w.live w.registry.nodes_by_id e.nodes,
  λ n. (
    among-live_nodes w.live w.registry.nodes_by_id n e.nodes,
    λ (id, l, g, a). live_nodes-among w.live w.registry.nodes_by_id n e.nodes id l g a,
  ),
)
