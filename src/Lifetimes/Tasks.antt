-- ===== src/Lifetimes/Tasks.antt =====
-- The steps of a thread that is about to write an entry keep what `IsOwned` says.
use objectlink_core_cpp.Prelude.{
  ℕ, ◌≡◌, refl, sym, ap, ◌∙◌, subst, Bool, true, false, List, ◌∷◌, ◌++◌, Option, none, some, Str,
  All, All-middle, All-insert, arith, str_beq, if◌then◌else◌, Bool-cases, inl, inr, ◌⊎◌,
}
use objectlink_core_cpp.Map.{str_key, Map, find}
use objectlink_core_cpp.Storage
use objectlink_core_cpp.Storage.{WeakPtr, lock}
use objectlink_core_cpp.Lifetimes.{
  Lifecycle, absent, alive, clearing, freeing, gone, is_alive, Task, looked, holds, lacks, System,
}
use objectlink_core_cpp.Lifetimes.Owners.{
  stored_id, given_id, is_listable, IsSound, HasOwner, IsOwned, stored-given,
}

alive_given : (x : Lifecycle) (id : ℕ) → is_alive x ≡ true → given_id x ≡ some id → x ≡ alive id
alive_given absent id a h = absurd cc
alive_given (alive i) id a h = cc
alive_given (clearing i) id a h = absurd cc
alive_given (freeing i) id a h = absurd cc
alive_given (gone i) id a h = absurd cc

module _ {E : Type 0} {lists : ℕ → Option E → Bool} {IsGood : Option E → Type 0} {s : System E}
    (v : IsOwned lists IsGood s) where
  open s use {entries, nodes_by_id, nodes, running}

  -- New entries list nothing that has no owner.
  pub entries-IsOwned :
      (m : Map Str E) (l : List Task)
      → ((o : Str) → IsGood (find o m))
      → ((o : Str) (id : ℕ) → lists id (find o m) ≡ true → HasOwner s id)
      → All (IsSound nodes) l
      → IsOwned lists IsGood (record s { entries = m; running = l })
  entries-IsOwned m l good listed adding = record {
    valid = v.valid;
    good = good;
    has_id = v.has_id;
    listed = listed;
    adding = adding;
  }

  running-IsOwned :
      (l : List Task) → All (IsSound nodes) l → IsOwned lists IsGood (record s { running = l })
  running-IsOwned l = entries-IsOwned entries l v.good v.listed

  pub look-IsOwned :
      (id : ℕ) (o : Str)
      → IsOwned lists IsGood
          (record s { running = looked id o (Storage.get id nodes_by_id) ∷ running })
  look-IsOwned id o = running-IsOwned _ (sound (Storage.get id nodes_by_id) refl, v.adding)
    where
      sound : (w : WeakPtr) → Storage.get id nodes_by_id ≡ w → IsSound nodes (looked id o w)
      sound none e = tt
      sound (some n) e = stored-given (nodes n) id ((v.has_id n id).1 e)

  held_alive :
      (id : ℕ) (o : Str) (w : WeakPtr) (n : ℕ)
      → IsSound nodes (looked id o w)
      → lock (λ m. is_alive (nodes m)) w ≡ some n
      → nodes n ≡ alive id
  unfolding lock
  held_alive id o none n h e = absurd cc
  held_alive id o (some m) n h e = elim (Bool-cases (is_alive (nodes m))) [
    | inl a ↦ ground (arith, e, a, alive_given (nodes m) id a h)
    | inr a ↦ absurd (ground (arith, e, a))
  ]

  pub hold-IsOwned :
      (id : ℕ) (o : Str) (w : WeakPtr) (n : ℕ) (before after : List Task)
      → running ≡ before ++ looked id o w ∷ after
      → lock (λ m. is_alive (nodes m)) w ≡ some n
      → IsOwned lists IsGood (record s { running = before ++ holds id o n ∷ after })
  hold-IsOwned id o w n before after e h =
      let (a, rest) =
        All-middle (IsSound nodes) before (looked id o w) after
          (subst (All (IsSound nodes)) e v.adding) in
      running-IsOwned _
        (All-insert (IsSound nodes) before (holds id o n) after (held_alive id o w n a h) rest)

  pub lack-IsOwned :
      (id : ℕ) (o : Str) (w : WeakPtr) (before after : List Task)
      → running ≡ before ++ looked id o w ∷ after
      → IsOwned lists IsGood (record s { running = before ++ lacks id o ∷ after })
  lack-IsOwned id o w before after e =
      let (_, rest) =
        All-middle (IsSound nodes) before (looked id o w) after
          (subst (All (IsSound nodes)) e v.adding) in
      running-IsOwned _ (All-insert (IsSound nodes) before (lacks id o) after tt rest)

  pub drop-IsOwned :
      (a : Task) (before after : List Task)
      → running ≡ before ++ a ∷ after
      → IsOwned lists IsGood (record s { running = before ++ after })
  drop-IsOwned a before after e =
      running-IsOwned _
        (All-middle (IsSound nodes) before a after (subst (All (IsSound nodes)) e v.adding)).1

  -- A thread that lists a node holds it.
  pub owner_of : (id : ℕ) (n : ℕ) → nodes n ≡ alive id → HasOwner s id
  owner_of id n h = (n, (v.has_id n id).0 (ap stored_id h), ap is_listable h)

  -- An id that is listed after one entry was changed is listed in the new entry or was before.
  pub one_entry :
      (i : ℕ) (o j : Str) (m : Map Str E) (x : Option E)
      → find j m ≡ (if str_beq o j then x else find j entries)
      → lists i (find j m) ≡ true
      → (lists i x ≡ true) ⊎ (lists i (find j entries) ≡ true)
  one_entry i o j m x f h = split (str_beq o j) (sym (ap (lists i) f) ∙ h)
    where
      split :
          (b : Bool)
          → lists i (if b then x else find j entries) ≡ true
          → (lists i x ≡ true) ⊎ (lists i (find j entries) ≡ true)
      split true h = inl h
      split false h = inr h
