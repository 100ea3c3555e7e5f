-- ===== src/ClientNode/Threads/Fate.antt =====
-- What becomes of a call that several threads may answer.
use objectlink_core_cpp.Prelude.{
  ℕ, ◌+◌, ◌≤◌, ◌<◌, ◌≡◌, refl, ap, ◌∙◌, ◌⊎◌, inl, inr, List, [], ◌∷◌, ◌++◌, Option, none, some,
  arith, ==_iff,
}
use objectlink_core_cpp.Map.{nat_key, find}
use objectlink_core_cpp.ClientNode.Invokes.{forget, take_invoke-some}
use objectlink_core_cpp.ClientNode.Threads.{
  Activity, sends, answers, System, take, answer, Reach, here, next, IsFresh, times, is_due, due,
  waits,
}
use objectlink_core_cpp.ClientNode.Threads.Accounts.{Reach-IsAccounted, times-le-uses}

-- Whatever threads do on a client node that starts with no calls, while request ids are left, a
-- reply function is called for an id as often as it was entered with the id at most, which is once
-- at most.
pub called_once :
    {s t : System}
    → IsFresh s
    → Reach s t
    → (id f : ℕ) → (times id f t.called ≤ times id f t.entered) × (times id f t.entered ≤ 1)
called_once {t = t} fresh r id f =
    let v = Reach-IsAccounted fresh r in
    (omega (arith, v.balance id f), omega (arith, v.once id, times-le-uses id f t.entered))

waiting : (f : ℕ) (m : Option (Option ℕ)) → waits f m ≡ 1 → m ≡ some (some f)
waiting f none h = absurd (omega arith)
waiting f (some none) h = absurd (omega arith)
waiting f (some (some g)) h = ground (arith, ==_iff g f)

first_due : (id f : ℕ) (a : Activity) → (a ≡ answers id (some f)) ⊎ (is_due id f a ≡ 0)
first_due id f (sends i) = inr refl
first_due id f (answers i none) = inr refl
first_due id f (answers i (some g)) = ground (arith, ==_iff i id, ==_iff g f)

-- A thread that is about to call the function of a request.
due_split :
    (id f : ℕ) (l : List Activity)
    → 0 < due id f l
    → (before : List Activity) × (after : List Activity) × (l
        ≡ before ++ answers id (some f) ∷ after)
unfolding due
due_split id f [] h = absurd (omega arith)
due_split id f (a ∷ l) h = elim (first_due id f a) [
  | inl e ↦ ([], l, rw e)
  | inr e ↦
      let (before, after, el) = due_split id f l (omega (arith, e)) in
      (a ∷ before, after, ap (λ l. a ∷ l) el)
]

abbrev answered : System → ℕ → ℕ → List Activity → System
answered t id f l = record t { running = l; called = (id, f) ∷ t.called }

-- From a state in which a thread is about to call the function, or the call is pending.
answer_due :
    (t : System) (id f : ℕ) (l : List Activity)
    → t.running ≡ l
    → 0 < due id f l
    → (u : System) × Reach t u × (times id f u.called ≡ times id f t.called + 1)
unfolding times
answer_due t id f l e h =
    let (before, after, el) = due_split id f l h in
    (
      answered t id f (before ++ after),
      next here (answer id (some f) before after t.world (e ∙ el) refl),
      ground (arith, ==_iff id id, ==_iff f f),
    )

answer_pending :
    (t : System) (id f : ℕ)
    → find id t.world.node.derived.invokes_pending ≡ some (some f)
    → (u : System) × Reach t u × (times id f u.called ≡ times id f t.called + 1)
unfolding times
answer_pending t id f h =
    let w = forget id t.world in
    let taken : System = record t { world = w; running = answers id (some f) ∷ t.running } in
    (
      answered taken id f t.running,
      next (next here (take id (some f) w (take_invoke-some id (some f) t.world h)))
          (answer id (some f) [] t.running w refl refl),
      ground (arith, ==_iff id id, ==_iff f f),
    )

-- Whatever threads did on a client node that started with no calls, while request ids were left, a
-- call that was entered with a reply function can still be answered: steps lead to a state in which
-- the function was called for its id once.
pub can_be_answered :
    {s t : System}
    → IsFresh s
    → Reach s t
    → (id f : ℕ) → times id f t.entered ≡ 1
    → (u : System) × Reach t u × (times id f u.called ≡ 1)
can_be_answered {t = t} fresh r id f one =
    let v = Reach-IsAccounted fresh r in
    let m = find id t.world.node.derived.invokes_pending in
    elim (fate (waits f m) (due id f t.running) (times id f t.called) (v.balance id f ∙ one)) [
      | inl done ↦ (t, here, done)
      | inr (inl (d, none_yet)) ↦
          let (u, ru, e) = answer_due t id f t.running refl d in (u, ru, omega arith)
      | inr (inr (w, none_yet)) ↦
          let (u, ru, e) = answer_pending t id f (waiting f m w) in (u, ru, omega arith)
    ]
  where
    fate : (a b c : ℕ) → a + b + c ≡ 1 → (c ≡ 1) ⊎ (((0 < b) × (c ≡ 0)) ⊎ ((a ≡ 1) × (c ≡ 0)))
    fate a b c h = omega arith
