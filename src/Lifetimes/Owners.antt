-- ===== src/Lifetimes/Owners.antt =====
-- An id that is listed for an object belongs to a node that its destructor has not cleared yet.
use objectlink_core_cpp.Prelude.{
  ℕ, ◌≡◌, ◌↔◌, ap, ◌∙◌, Bool, true, false, List, [], ◌∷◌, Option, none, some, Str, All, arith, ◌==◌,
  ==_iff, Bool-cases, inl, inr, ◌⊎◌,
}
use objectlink_core_cpp.Map.{str_key, nat_key, find}
use objectlink_core_cpp.Storage
use objectlink_core_cpp.Storage.{Storage, WeakPtr, lock, invalid_id}
use objectlink_core_cpp.Storage.Invariant as StorageInvariant
use objectlink_core_cpp.Storage.Invariant.{get-remove, remove-IsValid}
use objectlink_core_cpp.Lifetimes.{
  Lifecycle, absent, alive, clearing, freeing, gone, Task, looked, holds, lacks, is_held, System,
  set,
}

-- The id that a node has in the storage, and the one that it was given.
abbrev pub stored_id : Lifecycle → Option ℕ
stored_id absent = none
stored_id (alive id) = some id
stored_id (clearing id) = some id
stored_id (freeing id) = some id
stored_id (gone id) = none

abbrev pub given_id : Lifecycle → Option ℕ
given_id (gone id) = some id
given_id x = stored_id x

-- The node may stand in an entry.
abbrev pub is_listable : Lifecycle → Bool
is_listable (alive id) = true
is_listable (clearing id) = true
is_listable _ = false

abbrev pub IsSound : (ℕ → Lifecycle) → Task → Type 0
IsSound nodes (looked id o none) = Unit
IsSound nodes (looked id o (some n)) = given_id (nodes n) ≡ some id
IsSound nodes (holds id o n) = nodes n ≡ alive id
IsSound nodes (lacks id o) = Unit

-- The node of an id that is listed.
abbrev pub HasOwner : {E : Type 0} → System E → ℕ → Type 0
HasOwner s id = (n : ℕ) × (Storage.get id s.nodes_by_id ≡ some n) × (is_listable (s.nodes n) ≡ true)

-- An id that an entry lists has an owner, and entries are as the registry keeps them.
pub record IsOwned {E : Type 0} (lists : ℕ → Option E → Bool) (IsGood : Option E → Type 0)
    (s : System E) : Type 0 where
  pub valid : StorageInvariant.IsValid s.nodes_by_id
  pub good : (o : Str) → IsGood (find o s.entries)
  pub has_id :
      (n id : ℕ) → (stored_id (s.nodes n) ≡ some id) ↔ (Storage.get id s.nodes_by_id ≡ some n)
  pub listed : (o : Str) (id : ℕ) → lists id (find o s.entries) ≡ true → HasOwner s id
  pub adding : All (IsSound s.nodes) s.running

pub stored-given : (x : Lifecycle) (id : ℕ) → stored_id x ≡ some id → given_id x ≡ some id
stored-given absent id h = absurd cc
stored-given (alive i) id h = h
stored-given (clearing i) id h = h
stored-given (freeing i) id h = h
stored-given (gone i) id h = absurd cc

pub listable-cases :
    (x : Lifecycle) (id : ℕ)
    → stored_id x ≡ some id
    → is_listable x ≡ true
    → (x ≡ alive id) ⊎ (x ≡ clearing id)
listable-cases absent id e c = absurd cc
listable-cases (alive i) id e c = inl cc
listable-cases (clearing i) id e c = inr cc
listable-cases (freeing i) id e c = absurd cc
listable-cases (gone i) id e c = absurd cc

-- A change of a node that no thread holds, or that is not in use, and that keeps its given id.
set-IsSound :
    (n : ℕ) (x : Lifecycle) (nodes : ℕ → Lifecycle) (a : Task)
    → ((id : ℕ) → given_id (nodes n) ≡ some id → given_id x ≡ some id)
    → ((id : ℕ) → nodes n ≡ alive id → is_held n a ≡ false)
    → IsSound nodes a
    → IsSound (set n x nodes) a
set-IsSound n x nodes (looked id o none) g k h = tt
set-IsSound n x nodes (looked id o (some m)) g k h = elim (Bool-cases (n == m)) [
  | inl e ↦ rw e (g id (ap (λ i. given_id (nodes i)) ((==_iff n m).0 e) ∙ h))
  | inr e ↦ rw e h
]
set-IsSound n x nodes (holds id o m) g k h = elim (Bool-cases (n == m)) [
  | inl e ↦ absurd (ground (arith, e, k id (ap nodes ((==_iff n m).0 e) ∙ h)))
  | inr e ↦ rw e h
]
set-IsSound n x nodes (lacks id o) g k h = tt

module _ {E : Type 0} {lists : ℕ → Option E → Bool} {IsGood : Option E → Type 0} {s : System E}
    (v : IsOwned lists IsGood s) where
  open s use {entries, nodes_by_id, nodes, running}

  abbrev pub IsFree : ℕ → Task → Type 0
  IsFree n a = (id : ℕ) → nodes n ≡ alive id → is_held n a ≡ false

  -- A step of a node's life.
  pub set-adding :
      (n : ℕ) (x : Lifecycle)
      → ((id : ℕ) → given_id (nodes n) ≡ some id → given_id x ≡ some id)
      → All (IsFree n) running
      → All (IsSound (set n x nodes)) running
  set-adding n x g k = lives running k v.adding
    where
      lives :
          (l : List Task)
          → All (IsFree n) l
          → All (IsSound nodes) l
          → All (IsSound (set n x nodes)) l
      lives [] k h = tt
      lives (a ∷ l) k h = (set-IsSound n x nodes a g k.0 h.0, lives l k.1 h.1)

  pub set-ap :
      {B : Type 0} (f : Lifecycle → B) (n m : ℕ) (x : Lifecycle)
      → f x ≡ f (nodes n)
      → f (set n x nodes m) ≡ f (nodes m)
  set-ap f n m x h = elim (Bool-cases (n == m)) [
    | inl e ↦ rw e (h ∙ ap (λ i. f (nodes i)) ((==_iff n m).0 e))
    | inr e ↦ rw e
  ]
