-- ===== src/Lifetimes/Destruction.antt =====
-- The steps of a destructor keep what `IsOwned` says.
use objectlink_core_cpp.Prelude.{
  ℕ, ◌≡◌, refl, sym, ap, ◌∙◌, Bool, true, false, Option, some, Str, All, All-every, All-map, arith,
  ◌==◌, ==_iff, if◌then◌else◌, Bool-cases, inl, inr,
}
use objectlink_core_cpp.Map.{str_key, nat_key, Map, find}
use objectlink_core_cpp.Storage
use objectlink_core_cpp.Storage.{Storage, WeakPtr, lock, invalid_id}
use objectlink_core_cpp.Storage.Invariant.{get-remove, remove-IsValid}
use objectlink_core_cpp.Lifetimes.{alive, clearing, freeing, gone, is_held, System, set}
use objectlink_core_cpp.Lifetimes.Owners.{
  stored_id, given_id, is_listable, IsOwned, IsFree, set-adding, set-ap,
}

kept_if : (b c : Bool) → (if b then false else c) ≡ true → (b ≡ false) × (c ≡ true)
kept_if true c h = absurd cc
kept_if false c h = (refl, h)

module _ {E : Type 0} {lists : ℕ → Option E → Bool} {IsGood : Option E → Type 0} {s : System E}
    (v : IsOwned lists IsGood s) where
  open s use {entries, nodes_by_id, nodes, running}

  pub die-IsOwned :
      (n id : ℕ)
      → nodes n ≡ alive id
      → All (λ a. is_held n a ≡ false) running
      → IsOwned lists IsGood (record s { nodes = set n (clearing id) nodes })
  die-IsOwned n id h k = record {
    valid = v.valid;
    good = v.good;
    has_id = λ m j. rw (set-ap v stored_id n m (clearing id) (sym (ap stored_id h))) (v.has_id m j);
    listed = λ o j e.
        let (m, get, can) = v.listed o j e in
        (m, get, set-ap v is_listable n m (clearing id) (sym (ap is_listable h)) ∙ can);
    adding =
        set-adding v n (clearing id) (λ j e. sym (ap given_id h) ∙ e)
          (All-map (λ a. is_held n a ≡ false) (IsFree v n) running (λ a e j _. e) k);
  }

  -- The node of an id that is not this node's is another node.
  other_node :
      (n m id j : ℕ)
      → stored_id (nodes n) ≡ some id
      → Storage.get j nodes_by_id ≡ some m
      → (id == j) ≡ false
      → (n == m) ≡ false
  other_node n m id j h k e =
      ground (arith, (v.has_id n id).0 h, (v.has_id m j).1 k, (v.has_id n j).1, h, e, ==_iff n m)

  -- The entries after the loop of `unregisterNode` list what they did, but the node's id.
  pub clear-IsOwned :
      (n id : ℕ) (m : Map Str E)
      → nodes n ≡ clearing id
      → ((o : Str) → IsGood (find o m))
      → ((o : Str) (j : ℕ)
          → lists j (find o m) ≡ (if id == j then false else lists j (find o entries)))
      → IsOwned lists IsGood (record s { entries = m; nodes = set n (freeing id) nodes })
  clear-IsOwned n id m h good cleared = record {
    valid = v.valid;
    good = good;
    has_id = λ k j. rw (set-ap v stored_id n k (freeing id) (sym (ap stored_id h))) (v.has_id k j);
    listed = λ o j e.
        let (ne, was) = kept_if (id == j) (lists j (find o entries)) (sym (cleared o j) ∙ e) in
        let (k, get, can) = v.listed o j was in
        (k, get, rw (other_node n k id j (ap stored_id h) get ne) can);
    adding =
        set-adding v n (freeing id) (λ j e. sym (ap given_id h) ∙ e)
          (All-every (IsFree v n) running (λ a j e. absurd (cc)));
  }

  -- An id that is listed is not about to be freed.
  not_freeing :
      (n m id j : ℕ)
      → nodes n ≡ freeing id
      → Storage.get j nodes_by_id ≡ some m
      → is_listable (nodes m) ≡ true
      → (id == j) ≡ false
  not_freeing n m id j h k can =
      ground (arith, (v.has_id n id).0 (ap stored_id h), k, can, ap is_listable h, ==_iff id j)

  pub free-IsOwned :
      (n id : ℕ)
      → nodes n ≡ freeing id
      → IsOwned lists IsGood
          (record s { nodes_by_id = Storage.remove id nodes_by_id; nodes = set n (gone id) nodes })
  free-IsOwned n id h = record {
    valid = remove-IsValid id nodes_by_id v.valid;
    good = v.good;
    has_id = λ m j. elim (Bool-cases (n == m)) [
      | inl e ↦ ground (
        arith,
        e,
        get-remove id j nodes_by_id,
        ==_iff n m,
        ==_iff id j,
        v.has_id m j,
        v.has_id n j,
        ap stored_id h,
      )
      | inr e ↦ ground (
        arith,
        e,
        get-remove id j nodes_by_id,
        ==_iff n m,
        ==_iff id j,
        v.has_id m j,
        v.has_id n j,
        v.has_id m id,
        v.has_id n id,
        ap stored_id h,
      )
    ];
    listed = λ o j e.
        let (m, get, can) = v.listed o j e in
        let ne = not_freeing n m id j h get can in
        let nm = other_node n m id j (ap stored_id h) get ne in
        (m, get-remove id j nodes_by_id ∙ rw ne get, rw nm can);
    adding =
        set-adding v n (gone id) (λ j e. sym (ap given_id h) ∙ e)
          (All-every (IsFree v n) running (λ a j e. absurd (cc)));
  }
