-- ===== src/ClientNode/Threads/Accounts.antt =====
-- Every call is accounted for, whatever the threads do.
use objectlink_core_cpp.Prelude.{
  ℕ, ◌+◌, ◌^◌, ◌≤◌, ◌<◌, ◌≡◌, refl, sym, ap, ◌∙◌, subst, true, false, ◌⊎◌, inl, inr, List, [], ◌∷◌,
  ◌++◌, Option, none, some, arith, ◌==◌, ==_iff, if◌then◌else◌, Bool-cases,
}
use objectlink_core_cpp.Exec.{ok, ok_injective}
use objectlink_core_cpp.Map.{nat_key, Map, find, insert, erase}
use objectlink_core_cpp.Map.Laws.{find-insert, find-erase}
use objectlink_core_cpp.ClientNode.{Client, ClientWorld, enter_invoke, take_invoke, take_found}
use objectlink_core_cpp.ClientNode.Invokes.{IsBounded, entered, enter_invoke_lem}
use objectlink_core_cpp.ClientNode.Threads.{
  Activity, sends, answers, System, Step, enter, take, send, answer, other, Reach, here, next,
  IsFresh, KeepsCalls, noted, bit, times, uses, is_due, due, waits, IsAccounted,
}

pub times-le-uses : (id f : ℕ) (l : List (ℕ × ℕ)) → times id f l ≤ uses id l
unfolding times uses
times-le-uses id f [] = omega arith
times-le-uses id f ((i, g) ∷ l) = ground (arith, times-le-uses id f l)

due-append :
    (id f : ℕ) (a : Activity) (xs ys : List Activity)
    → due id f (xs ++ a ∷ ys) ≡ is_due id f a + due id f (xs ++ ys)
unfolding due
due-append id f a [] ys = refl
due-append id f a (x ∷ xs) ys = omega (arith, due-append id f a xs ys)

times-noted :
    (id f i : ℕ) (func : Option ℕ) (l : List (ℕ × ℕ))
    → times id f (noted i func l) ≡ is_due id f (answers i func) + times id f l
unfolding times
times-noted id f i none l = omega arith
times-noted id f i (some g) l = refl

uses-noted :
    (id i : ℕ) (func : Option ℕ) (l : List (ℕ × ℕ))
    → uses id (noted i func l) ≤ bit (i == id) + uses id l
unfolding uses
uses-noted id i none l = omega arith
uses-noted id i (some g) l = omega arith

is_due-other : (id f i : ℕ) (func : Option ℕ) → (i == id) ≡ false → is_due id f (answers i func) ≡ 0
is_due-other id f i none h = refl
is_due-other id f i (some g) h = ground arith

is_due-waits :
    (id f i : ℕ) (func : Option ℕ)
    → (i == id) ≡ true
    → waits f (some func) ≡ is_due id f (answers i func)
is_due-waits id f i none h = refl
is_due-waits id f i (some g) h = ground arith

waits-insert :
    (id f i : ℕ) (func : Option ℕ) (m : Map ℕ (Option ℕ))
    → waits f (find id (insert i func m))
      ≡ (if i == id then is_due id f (answers i func) else waits f (find id m))
waits-insert id f i func m = elim (Bool-cases (i == id)) [
  | inl e ↦ rw (find-insert, e) (is_due-waits id f i func e)
  | inr e ↦ rw (find-insert, e)
]

waits-erase :
    (id f i : ℕ) (m : Map ℕ (Option ℕ))
    → waits f (find id (erase i m)) ≡ (if i == id then 0 else waits f (find id m))
waits-erase id f i m = elim (Bool-cases (i == id)) [
  | inl e ↦ rw (find-erase, e)
  | inr e ↦ rw (find-erase, e)
]

-- What a locked section leaves of the pending calls.
enter_invoke-derived :
    (func : Option ℕ) (id : ℕ) (w w' : ClientWorld)
    → IsBounded w.node.derived
    → w.node.derived.next_request_id + 1 < 2 ^ 32
    → enter_invoke func w ≡ (ok id, w')
    → (id ≡ w.node.derived.next_request_id + 1) × (w'.node.derived ≡ entered func w.node.derived)
enter_invoke-derived func id w w' b h e =
    let same = sym (enter_invoke_lem func w (b, h)) ∙ e in
    (sym (ok_injective (ap (λ r. r.0) same)), ap (λ r. r.1.node.derived) (sym same))

-- What `take_invoke` finds.
abbrev Taken : ℕ → Option ℕ → ClientWorld → ClientWorld → Type 0
Taken id func w w' =
    ((find id w.node.derived.invokes_pending ≡ some func)
      × (w'.node.derived.next_request_id ≡ w.node.derived.next_request_id)
      × (w'.node.derived.invokes_pending ≡ erase id w.node.derived.invokes_pending))
    ⊎ ((func ≡ none) × (w'.node.derived ≡ w.node.derived))

take_invoke-Taken :
    (id : ℕ) (func : Option ℕ) (w w' : ClientWorld)
    → take_invoke id w ≡ (ok func, w')
    → Taken id func w w'
unfolding take_invoke take_found
take_invoke-Taken id func w w' e = found (find id w.node.derived.invokes_pending) refl e
  where
    found :
        (r : Option (Option ℕ))
        → find id w.node.derived.invokes_pending ≡ r
        → take_found id r w ≡ (ok func, w')
        → Taken id func w w'
    found none h t = inr (sym (ok_injective (ap (λ r. r.0) t)), ap (λ r. r.1.node.derived) (sym t))
    found (some g) h t = inl (
      h ∙ ap some (ok_injective (ap (λ r. r.0) t)),
      ap (λ r. r.1.node.derived.next_request_id) (sym t),
      ap (λ r. r.1.node.derived.invokes_pending) (sym t),
    )

module _ {s : System} (v : IsAccounted s) where
  open s use {world, running}

  -- Steps that leave the pending calls: what is still due goes from the threads to the history.
  kept-IsAccounted :
      (a : Activity) (func : Option ℕ) (i : ℕ) (before after : List Activity) (w : ClientWorld)
      → running ≡ before ++ a ∷ after
      → KeepsCalls world w
      → ((id f : ℕ) → is_due id f a ≡ is_due id f (answers i func))
      → IsAccounted
          (record s { world = w; running = before ++ after; called = noted i func s.called })
  kept-IsAccounted a func i before after w e k same = record {
    balance = λ id f. omega (
      arith,
      v.balance id f,
      ap (λ c. waits f (find id c.invokes_pending)) k,
      ap (due id f) e,
      due-append id f a before after,
      same id f,
      times-noted id f i func s.called,
    );
    once = v.once;
    given = λ id lt. v.given id (rw k at lt);
    bounded = subst IsBounded (sym k) v.bounded;
  }

  pub enter-IsAccounted :
      (func : Option ℕ) (id : ℕ) (w : ClientWorld)
      → (id ≡ world.node.derived.next_request_id + 1)
      → (w.node.derived ≡ entered func world.node.derived)
      → IsAccounted (record {
        world = w;
        running = sends id ∷ running;
        entered = noted id func s.entered;
        called = s.called;
      })
  unfolding due
  enter-IsAccounted func id w ei ew = record {
    balance = λ j f. ground (
      arith,
      ap (λ c. waits f (find j c.invokes_pending)) ew,
      ei,
      waits-insert j f (world.node.derived.next_request_id + 1) func
          world.node.derived.invokes_pending,
      is_due-other j f id func,
      times-noted j f id func s.entered,
      times-le-uses j f s.entered,
      v.balance j f,
      v.given j,
      ==_iff id j,
    );
    once =
        λ j. ground (arith, uses-noted j id func s.entered, v.once j, v.given j, ei, ==_iff id j);
    given = λ j lt. ground (
      arith,
      uses-noted j id func s.entered,
      v.given j,
      ei,
      ap Client.next_request_id ew,
      ==_iff id j,
    );
    bounded = subst IsBounded (sym ew) (λ j f h. ground (
      arith,
      find-insert (world.node.derived.next_request_id + 1) j func
          world.node.derived.invokes_pending,
      ==_iff (world.node.derived.next_request_id + 1) j,
      v.bounded j f,
      h,
    ));
  }

  pub take-IsAccounted :
      (id : ℕ) (func : Option ℕ) (w : ClientWorld)
      → Taken id func world w
      → IsAccounted (record s { world = w; running = answers id func ∷ running })
  unfolding due
  take-IsAccounted id func w (inr (n, e)) = record {
    balance = λ j f. omega (
      arith,
      v.balance j f,
      ap (λ c. waits f (find j c.invokes_pending)) e,
      ap (λ r. is_due j f (answers id r)) n,
    );
    once = v.once;
    given = λ j lt. v.given j (rw e at lt);
    bounded = subst IsBounded (sym e) v.bounded;
  }
  take-IsAccounted id func w (inl (h, en, ep)) = record {
    balance = λ j f. ground (
      arith,
      v.balance j f,
      ap (λ m. waits f (find j m)) ep,
      waits-erase j f id world.node.derived.invokes_pending,
      is_due-other j f id func,
      is_due-waits j f id func,
      ap (waits f) h,
      ==_iff id j,
    );
    once = v.once;
    given = λ j lt. v.given j (rw en at lt);
    bounded = λ j f g. ground (
      arith,
      ap (find j) ep,
      find-erase id j world.node.derived.invokes_pending,
      v.bounded j f,
      g,
      en,
    );
  }

pub Step-IsAccounted : {s t : System} → Step s t → IsAccounted s → IsAccounted t
Step-IsAccounted {s} (enter func id w left e) v =
    let (ei, ew) = enter_invoke-derived func id s.world w v.bounded left e in
    enter-IsAccounted v func id w ei ew
Step-IsAccounted {s} (take id func w e) v =
    take-IsAccounted v id func w (take_invoke-Taken id func s.world w e)
Step-IsAccounted (send id before after w e k) v =
    kept-IsAccounted v (sends id) none id before after w e k (λ j f. refl)
Step-IsAccounted (answer id func before after w e k) v =
    kept-IsAccounted v (answers id func) func id before after w e k (λ j f. refl)
Step-IsAccounted (other w k) v = record {
  balance = λ id f. omega (arith, v.balance id f, ap (λ c. waits f (find id c.invokes_pending)) k);
  once = v.once;
  given = λ id lt. v.given id (rw k at lt);
  bounded = subst IsBounded (sym k) v.bounded;
}

fresh-IsAccounted : (s : System) → IsFresh s → IsAccounted s
unfolding times uses due find
fresh-IsAccounted s (ep, er, ee, ec) = record {
  balance = λ id f. rw (ep, er, ee, ec) (omega arith);
  once = λ id. rw ee (omega arith);
  given = λ id lt. rw ee;
  bounded = λ id func h. absurd (not_pending id func (rw ep at h));
}
  where
    not_pending : (id : ℕ) (func : Option ℕ) → find {K = ℕ} {V = Option ℕ} id [] ≡ some func → ⊥
    not_pending id func h = cc

-- Whatever threads do on a client node that starts with no calls, in whatever order their locked
-- sections run, while request ids are left: every call that was entered is pending, about to be
-- answered by one thread, or answered; no id is used twice; and no pending id is above the last one
-- given.
pub Reach-IsAccounted : {s t : System} → IsFresh s → Reach s t → IsAccounted t
Reach-IsAccounted {s} f here = fresh-IsAccounted s f
Reach-IsAccounted f (next r st) = Step-IsAccounted st (Reach-IsAccounted f r)
