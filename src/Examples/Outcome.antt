-- ===== src/Examples/Outcome.antt =====
-- Code that may also run into what C++ leaves undefined: a failed `assert`, a sum of `int` that does
-- not fit.
use objectlink_core_cpp.Prelude.{◌≡◌, refl, Bool, Option, none, some, if◌then◌else◌}
use objectlink_core_cpp.Types.{ℤ}
use objectlink_core_cpp.Int.{in_int}
use objectlink_core_cpp.Exec.{Result, ok, throw, Exception}

pub data Outcome (S A : Type 0) : Type 0 where
  done : A → S → Outcome S A
  thrown : Exception → S → Outcome S A
  undefined : Outcome S A

abbrev pub Run : Type 0 → Type 0 → Type 0
Run S A = S → Outcome S A

module _ {S : Type 0} where
  abbrev pub pure : {A : Type 0} → A → Run S A
  pure a s = done a s

  abbrev pub gets : {A : Type 0} → (S → A) → Run S A
  gets f s = done (f s) s

  abbrev pub modify : (S → S) → Run S Unit
  modify f s = done tt (f s)

  abbrev pub lift : {A : Type 0} → Result A → Run S A
  lift (ok a) s = done a s
  lift (throw e) s = thrown e s

  -- A result that may be undefined.
  abbrev pub defined : {A : Type 0} → Option (Result A) → Run S A
  defined none s = undefined
  defined (some r) s = lift r s

  -- A pointer that is asserted not to be null.
  abbrev pub asserted : {A : Type 0} → Option A → Run S A
  asserted none s = undefined
  asserted (some a) s = done a s

  -- A sum of `int`.
  abbrev pub int : ℤ → Run S ℤ
  int z s = if in_int z then done z s else undefined

  abbrev pub after : {A B : Type 0} → Outcome S A → (A → Run S B) → Outcome S B
  after (done a s) f = f a s
  after (thrown e s) f = thrown e s
  after undefined f = undefined

  infixl 5 ◌>>=◌ ◌>>◌
  abbrev pub ◌>>=◌ : {A B : Type 0} → Run S A → (A → Run S B) → Run S B
  ◌>>=◌ m f s = after (m s) f

  abbrev pub ◌>>◌ : {A B : Type 0} → Run S A → Run S B → Run S B
  m >> n = m >>= λ _. n

-- What ends without an exception has ended each of its parts so.
pub after-done :
    {S A B : Type 0} (o : Outcome S A) (f : A → Run S B) (b : B) (s : S)
    → after o f ≡ done b s
    → (a : A) × (t : S) × (o ≡ done a t) × (f a t ≡ done b s)
after-done (done a t) f b s h = (a, t, refl, h)
after-done (thrown e t) f b s h = absurd (cc)
after-done undefined f b s h = absurd (cc)

abbrev pub when : {S : Type 0} → Bool → Run S Unit → Run S Unit
when b m = if b then m else pure tt
