-- ===== src/Lifetimes/Creation.antt =====
-- The creation of a node keeps what `IsOwned` says.
use objectlink_core_cpp.Prelude.{
  ℕ, Option, ◌<◌, ◌≡◌, ap, ◌∙◌, subst, Bool, true, false, none, some, All-every, arith, ◌==◌,
  ==_iff, if◌then◌else◌, Bool-cases, inl, inr,
}
use objectlink_core_cpp.Map.{str_key, nat_key, size}
use objectlink_core_cpp.Storage
use objectlink_core_cpp.Storage.{Storage, WeakPtr, lock, invalid_id}
use objectlink_core_cpp.Storage.Invariant as StorageInvariant
use objectlink_core_cpp.Storage.Invariant.{get-remove, remove-IsValid}
use objectlink_core_cpp.Storage.Contract.{Outcome, full, known, stored, make_room}
use objectlink_core_cpp.Storage.Guarantees.{outcome, find-Outcome, Outcome-IsValid}
use objectlink_core_cpp.Lifetimes.{absent, alive, is_alive, System, set}
use objectlink_core_cpp.Lifetimes.Owners.{
  stored_id, given_id, is_listable, IsOwned, IsFree, set-adding,
}

module _ {E : Type 0} {lists : ℕ → Option E → Bool} {IsGood : Option E → Type 0} {s : System E}
    (v : IsOwned lists IsGood s) where
  open s use {entries, nodes_by_id, nodes, running}

  -- A new node gets an id that led to nothing, and the other ids lead where they did.
  record Created (n id : ℕ) (st : Storage) : Type 0 where
    valid : StorageInvariant.IsValid st
    unused : Storage.get id nodes_by_id ≡ none
    gets : (j : ℕ) → Storage.get j st ≡ (if id == j then some n else Storage.get j nodes_by_id)

  from_outcome :
      (n id : ℕ) (st : Storage)
      → nodes n ≡ absent
      → size nodes_by_id.objects < nodes_by_id.max_count
      → Outcome n nodes_by_id id st
      → Created n id st
  unfolding Storage.get
  from_outcome n id st h room (full f i e) = absurd (omega arith)
  from_outcome n id st h room (known r f e) =
      absurd (ground (arith, ap stored_id h, (v.has_id n id).1 (rw (Storage.get, f))))
  from_outcome n id st h room (stored c r fr other e) =
      let finds =
        (find-Outcome (stored c r fr other e) v.valid
          (λ q. omega (arith, fr.id_lt, v.valid.fits, q))).1 in
      record {
        valid = Outcome-IsValid (stored c r fr other e) v.valid;
        unused = rw (Storage.get, fr.unused);
        gets = λ j. ground (arith, finds j);
      }

  create_lem :
      (n id : ℕ) (st : Storage)
      → nodes n ≡ absent
      → size nodes_by_id.objects < nodes_by_id.max_count
      → Storage.add (λ m. is_alive (set n (alive id) nodes m)) (some n) nodes_by_id ≡ some (id, st)
      → Created n id st
  create_lem n id st h room e =
      let live = λ (m : ℕ). is_alive (set n (alive id) nodes m) in
      from_outcome n id st h room (
        subst (λ r. Outcome n r id st) (has_room live)
          (outcome live n id nodes_by_id st v.valid (ground (arith, ==_iff n n)) e))
    where
      has_room : (live : ℕ → Bool) → make_room live nodes_by_id ≡ nodes_by_id
      has_room live = ground arith

  other_id :
      (id j m : ℕ)
      → Storage.get id nodes_by_id ≡ none
      → Storage.get j nodes_by_id ≡ some m
      → (id == j) ≡ false
  other_id id j m h k = ground (arith, h, k, ==_iff id j)

  other_node : (n m : ℕ) → nodes n ≡ absent → is_listable (nodes m) ≡ true → (n == m) ≡ false
  other_node n m h can = ground (arith, ap is_listable h, can, ==_iff n m)

  pub create-IsOwned :
      (n id : ℕ) (st : Storage)
      → nodes n ≡ absent
      → size nodes_by_id.objects < nodes_by_id.max_count
      → Storage.add (λ m. is_alive (set n (alive id) nodes m)) (some n) nodes_by_id ≡ some (id, st)
      → IsOwned lists IsGood (record s { nodes_by_id = st; nodes = set n (alive id) nodes })
  create-IsOwned n id st h room e =
      let c = create_lem n id st h room e in
      record {
        valid = c.valid;
        good = v.good;
        has_id = λ m j. elim (Bool-cases (n == m)) [
          | inl q ↦ ground (
            arith,
            q,
            c.gets j,
            c.unused,
            v.has_id m j,
            v.has_id n j,
            ==_iff n m,
            ==_iff id j,
            ap stored_id h,
          )
          | inr q ↦
              ground
                (arith, q, c.gets j, c.unused, v.has_id m j, v.has_id m id, ==_iff n m, ==_iff id j)
        ];
        listed = λ o j l.
            let (m, get, can) = v.listed o j l in
            (m, c.gets j ∙ rw (other_id id j m c.unused get) get, rw (other_node n m h can) can);
        adding =
            set-adding v n (alive id) (λ j f. absurd (ground (arith, ap given_id h, f)))
              (All-every (IsFree v n) running (λ a j f. absurd cc));
      }
