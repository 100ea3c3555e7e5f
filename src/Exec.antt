-- ===== src/Exec.antt =====
-- Code that changes a state and may throw. What was written before a throw stays written.
use objectlink_core_cpp.Prelude.{Str, ap, ◌∙◌, ◌≡◌, Bool, if◌then◌else◌}

-- What the code catches: `nlohmann::json::exception`, and any other `std::exception`.
pub data Exception : Type 0 where
  json_error : Str → Exception
  std_error : Str → Exception

-- e.what()
abbrev pub what : Exception → Str
what (json_error s) = s
what (std_error s) = s

pub data Result {ℓ} (A : Type ℓ) : Type ℓ where
  ok : A → Result A
  throw : Exception → Result A

pub ok_injective : {A : Type 0} {a b : A} → ok a ≡ ok b → a ≡ b
ok_injective e = cc

abbrev pub Exec : Type 0 → Type 0 → Type 0
Exec S A = S → Result A × S

module _ {S A : Type 0} where
  abbrev pub pure : A → Exec S A
  pure a s = (ok a, s)

  abbrev pub lift : Result A → Exec S A
  lift r s = (r, s)

  abbrev pub gets : (S → A) → Exec S A
  gets f s = (ok (f s), s)

abbrev pub modify : {S : Type 0} → (S → S) → Exec S Unit
modify f s = (ok tt, f s)

module _ {S A B : Type 0} where
  abbrev pub continue : Result A → (A → Exec S B) → Exec S B
  continue (ok a) f s = f a s
  continue (throw e) f s = (throw e, s)

  infixl 5 ◌>>=◌ ◌>>◌
  abbrev pub ◌>>=◌ : Exec S A → (A → Exec S B) → Exec S B
  ◌>>=◌ m f s = let (r, s') = m s in continue r f s'

  abbrev pub ◌>>◌ : Exec S A → Exec S B → Exec S B
  m >> n = m >>= λ _. n

-- `if (b) { m }`
abbrev pub when : {S : Type 0} → Bool → Exec S Unit → Exec S Unit
when b m = if b then m else pure tt

module _ {S A : Type 0} where
  abbrev handled_json : Result A → (Str → Exec S A) → Exec S A
  handled_json (ok a) h s = (ok a, s)
  handled_json (throw (json_error e)) h s = h e s
  handled_json (throw (std_error e)) h s = (throw (std_error e), s)

  -- try { m } catch (const nlohmann::json::exception& e) { h }
  abbrev pub catch_json : Exec S A → (Str → Exec S A) → Exec S A
  catch_json m h s = let (r, s') = m s in handled_json r h s'

  abbrev handled : Result A → (Exception → Exec S A) → Exec S A
  handled (ok a) h s = (ok a, s)
  handled (throw e) h s = h e s

  -- The same, with a handler for each kind of exception.
  abbrev pub catch_all : Exec S A → (Exception → Exec S A) → Exec S A
  catch_all m h s = let (r, s') = m s in handled r h s'

-- The code returns from every state.
pub record IsTotal {S A : Type 0} (m : Exec S A) : Type 0 where
  pub returns : (s : S) → (a : A) × (s' : S) × (m s ≡ (ok a, s'))

pub bind-IsTotal :
    {S A B : Type 0} (m : Exec S A) (f : A → Exec S B)
    → IsTotal m
    → ((a : A) → IsTotal (f a))
    → IsTotal (m >>= f)
bind-IsTotal m f h k = record {
  returns = λ s.
      let (a, s1, e) = h.returns s in
      let (b, s2, d) = (k a).returns s1 in (b, s2, ap (λ r. continue r.0 f r.1) e ∙ d);
}

pub lift-IsTotal : {S A : Type 0} (r : Result A) → (a : A) × (r ≡ ok a) → IsTotal (lift {S = S} r)
lift-IsTotal r (a, e) = record { returns = λ s. (a, s, ap (λ x. (x, s)) e) }

-- Code that returns throws nothing to catch.
pub catch_json-ok :
    {S A : Type 0} (m : Exec S A) (h : Str → Exec S A) (s s' : S) (a : A)
    → m s ≡ (ok a, s')
    → catch_json m h s ≡ (ok a, s')
catch_json-ok m h s s' a e = ap (λ r. handled_json r.0 h r.1) e
