-- ===== src/World/Writes.antt =====
-- Code that returns, leaves the node as it is and writes texts.
use objectlink_core_cpp.Prelude.{
  ℕ, ◌≡◌, refl, sym, ap, ◌∙◌, List, [], ◌∷◌, ◌++◌, Str, ◌==◌, if◌then◌else◌, arith,
}
use mathlib.Core.List.{append-nil, append_assoc}
use objectlink_core_cpp.Exec.{Exec, ok, gets, continue, ◌>>=◌}
use objectlink_core_cpp.World.{World, Event, wrote, logged, marked, set_registry}

-- The texts that the write function got, in order.
unfoldable pub texts : ℕ → List Event → List Str
texts func [] = []
texts func (wrote f s ∷ events) =
    let rest = texts func events in if f == func then s ∷ rest else rest
texts func (logged f level s ∷ events) = texts func events
texts func (marked o s ∷ events) = texts func events

pub texts-append :
    (func : ℕ) (xs ys : List Event) → texts func (xs ++ ys) ≡ texts func xs ++ texts func ys
unfolding texts
texts-append func [] ys = refl
texts-append func (wrote f s ∷ xs) ys = ground (arith, texts-append func xs ys)
texts-append func (logged f level s ∷ xs) ys = texts-append func xs ys
texts-append func (marked o s ∷ xs) ys = texts-append func xs ys

module _ {N R : Type 0} (func : ℕ) where
  -- The code returns the result, the node stays, and the texts are written.
  pub record Writes {A : Type 0} (m : Exec (World N R) A) (w : World N R) (ss : List Str)
      : Type 0 where
    pub result : A
    pub after : World N R
    pub returns : m w ≡ (ok result, after)
    pub node : after.node ≡ w.node
    pub writes : texts func after.trace ≡ texts func w.trace ++ ss

  pub gets-Writes : {A : Type 0} (f : World N R → A) (w : World N R) → Writes (gets f) w []
  gets-Writes f w = record {
    result = f w;
    after = w;
    returns = refl;
    node = refl;
    writes = sym (append-nil (texts func w.trace));
  }

  pub update_registry-Writes :
      (f : R → R) (w : World N R) → Writes (gets (λ v. v.registry) >>= λ r. set_registry (f r)) w []
  update_registry-Writes f w = record {
    result = tt;
    after = record w { registry = f w.registry };
    returns = refl;
    node = refl;
    writes = sym (append-nil (texts func w.trace));
  }

  -- Events that are no texts of the function.
  pub trace-Writes :
      (m : Exec (World N R) Unit) (w : World N R) (es : List Event) (ss : List Str)
      → m w ≡ (ok tt, record w { trace = w.trace ++ es })
      → texts func es ≡ ss
      → Writes m w ss
  trace-Writes m w es ss e h = record {
    result = tt;
    after = record w { trace = w.trace ++ es };
    returns = e;
    node = refl;
    writes = texts-append func w.trace es ∙ ap (λ l. texts func w.trace ++ l) h;
  }

  pub bind-Writes :
      {A B : Type 0} (m : Exec (World N R) A) (f : A → Exec (World N R) B) (w : World N R)
      (xs ys : List Str)
      → Writes m w xs
      → ((a : A) (v : World N R) → v.node ≡ w.node → Writes (f a) v ys)
      → Writes (m >>= f) w (xs ++ ys)
  bind-Writes m f w xs ys h k =
      let next = k h.result h.after h.node in
      record {
        result = next.result;
        after = next.after;
        returns = ap (λ r. continue r.0 f r.1) h.returns ∙ next.returns;
        node = next.node ∙ h.node;
        writes = next.writes ∙ ap (λ l. l ++ ys) h.writes ∙ append_assoc (texts func w.trace) xs ys;
      }
