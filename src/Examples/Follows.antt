-- ===== src/Examples/Follows.antt =====
-- A sink of the calculator gets notices: examples/app/calcsink.cpp.
use objectlink_core_cpp.Prelude.{
  ℕ, ◌≡◌, refl, sym, ap, ◌∙◌, Bool, true, false, List, [], ◌∷◌, ◌++◌, text, arith, str_beq, All,
  All-append, if◌then◌else◌, Bool-cases, inl, inr,
}
use mathlib.Core.List.{append-nil, append_assoc}
use objectlink_core_cpp.Types.{ℤ, pos}
use objectlink_core_cpp.Int.{◌+ℤ◌, ◌-ℤ◌, eq_ℤ, eq_ℤ_iff, leb_ℤ, in_int, in_int-IsInt}
use objectlink_core_cpp.Json.{JsonLib, ValueLaws, IsInt}
use objectlink_core_cpp.Name
use objectlink_core_cpp.Examples.Outcome.{Run, done, pure, after, after-done, ◌>>◌}
use objectlink_core_cpp.Examples.CalcSource.{Notice}
use objectlink_core_cpp.Examples.CalcSink
use objectlink_core_cpp.Examples.CalcSink.{CalcSink, Output, total_changed}
use objectlink_core_cpp.Examples.Requests.{
  Request, adds, subs, sets, clears, HasInt, asked_total, deliver, notices, changed, hit,
}

module _ (J : JsonLib) where
  abbrev pub deliver_all : List (ℕ × Notice J) → Run (CalcSink J) Unit
  deliver_all [] = pure tt
  deliver_all ((n, x) ∷ ns) = deliver J x >> deliver_all ns

  -- A `totalChanged`, the only output of a sink that is told about the service.
  abbrev pub IsTotal : Output J → Type 0
  IsTotal (total_changed t) = Unit
  IsTotal _ = ⊥

  -- The sink shows the total, and put out nothing but changes of the total.
  pub record Follows (t : ℤ) (k k' : CalcSink J) : Type 0 where
    pub total : k'.total ≡ t
    pub outputs : List (Output J)
    pub added : k'.outputs ≡ k.outputs ++ outputs
    pub totals : All IsTotal outputs

  pub deliver_all-append :
      (xs ys : List (ℕ × Notice J)) (k k' : CalcSink J)
      → deliver_all xs k ≡ done tt k'
      → deliver_all (xs ++ ys) k ≡ deliver_all ys k'
  deliver_all-append [] ys k k' h = ap (λ o. after o (λ _. deliver_all ys)) h
  deliver_all-append ((n, x) ∷ xs) ys k k' h =
      let (u, t, d, rest) = after-done (deliver J x k) (λ _. deliver_all xs) tt k' h in
      ap (λ o. after o (λ _. deliver_all (xs ++ ys))) d ∙ deliver_all-append xs ys t k' rest

  pub Follows-trans :
      (t u : ℤ) (k k' k'' : CalcSink J) → Follows t k k' → Follows u k' k'' → Follows u k k''
  Follows-trans t u k k' k'' f g = record {
    total = g.total;
    outputs = f.outputs ++ g.outputs;
    added = rw (g.added, f.added) (append_assoc k.outputs f.outputs g.outputs);
    totals = All-append IsTotal f.outputs g.outputs f.totals g.totals;
  }

  pub receive_total-Follows :
      (t : ℤ) (k : CalcSink J)
      → (k' : CalcSink J) × (CalcSink.receive_total J t k ≡ done tt k')
        × Follows t k k'
        × (k'.node ≡ k.node)
  unfolding CalcSink.receive_total
  receive_total-Follows t k = elim (Bool-cases (eq_ℤ k.total t)) [
    | inl e ↦ (
      k,
      simp e,
      record {
        total = (eq_ℤ_iff k.total t).0 e;
        outputs = [];
        added = sym (append-nil k.outputs);
        totals = tt;
      },
      refl,
    )
    | inr e ↦ (
      record k { total = t; outputs = k.outputs ++ total_changed t ∷ [] },
      simp e,
      record { total = refl; outputs = total_changed t ∷ []; added = refl; totals = (tt, tt) },
      refl,
    )
  ]

  module _ (L : ValueLaws J) where
    deliver-changed :
        (n : ℕ) (t : ℤ) (k : CalcSink J)
        → IsInt t
        → (k' : CalcSink J) × (deliver J (changed J n t).1 k ≡ done tt k') × Follows t k k'
    unfolding CalcSink.olink_on_property_changed Name.get_member_name str_beq
    deliver-changed n t k h =
        let (k', e, f, _) = receive_total-Follows t k in (k', simp (L.get_int-of_int t h) e, f)

    hits_ignored :
        (b : Bool) (n : ℕ) (v : ℤ) (k : CalcSink J)
        → (deliver_all (if b then hit J n (text "demo.Calc/hitUpper") v ∷ [] else []) k ≡ done tt k)
          × (deliver_all (if b then hit J n (text "demo.Calc/hitLower") v ∷ [] else []) k
              ≡ done tt k)
    unfolding CalcSink.olink_on_signal Name.get_member_name str_beq
    hits_ignored true n v k = (refl, refl)
    hits_ignored false n v k = (refl, refl)

    -- A change of the total, and what leaves a sink as it is.
    deliver_changed_and :
        (n : ℕ) (t : ℤ) (rest : List (ℕ × Notice J)) (k : CalcSink J)
        → IsInt t
        → ((k : CalcSink J) → deliver_all rest k ≡ done tt k)
        → (k' : CalcSink J) × (deliver_all (changed J n t ∷ rest) k ≡ done tt k') × Follows t k k'
    deliver_changed_and n t rest k h ignored =
        let (k', d, f) = deliver-changed n t k h in
        (k', ap (λ o. after o (λ _. deliver_all rest)) d ∙ ignored k', f)

    pub deliver_notices :
        (n : ℕ) (r : Request) (t : ℤ) (k : CalcSink J)
        → k.total ≡ t
        → HasInt r
        → in_int (asked_total r t) ≡ true
        → (k' : CalcSink J) × (deliver_all (notices J n r t) k ≡ done tt k')
          × Follows (asked_total r t) k k'
    deliver_notices n (adds a) t k h i fits =
        deliver_changed_and n (t +ℤ a) _ k (in_int-IsInt (t +ℤ a) fits)
          (λ k. (hits_ignored (leb_ℤ (pos 10) (t +ℤ a)) n (pos 10) k).0)
    deliver_notices n (subs a) t k h i fits =
        deliver_changed_and n (t -ℤ a) _ k (in_int-IsInt (t -ℤ a) fits)
          (λ k. (hits_ignored (leb_ℤ (t -ℤ a) (pos 0)) n (pos 0) k).1)
    deliver_notices n (sets v) t k h i fits = elim (Bool-cases (eq_ℤ t v)) [
      | inl e ↦ (
        k,
        simp e,
        record {
          total = h ∙ (eq_ℤ_iff t v).0 e;
          outputs = [];
          added = sym (append-nil k.outputs);
          totals = tt;
        },
      )
      | inr e ↦ rw e (deliver_changed_and n v [] k i (λ k. refl))
    ]
    deliver_notices n clears t k h i fits =
        deliver_changed_and n (pos 0) [] k (omega arith) (λ k. refl)
