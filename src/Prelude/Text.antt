-- ===== src/Prelude/Text.antt =====
-- `std::string` as the list of its bytes, with `==` and the lexicographic `<` of its keys.
use Prim.Native.Nat.{ℕ}
use Prim.Native.Char.{code}
use Prim.Native.String.{String}
use mathlib.Core.Path.{◌≡◌, refl}
use mathlib.Core.Logic.{◌↔◌}
use mathlib.Core.Bool.{Bool, true, false, ◌&&◌}
use mathlib.Core.List.{List, [], ◌∷◌}
use native.Mathlib.Omega.{arith}
use objectlink_core_cpp.Prelude.Tests.{ltb, ◌==◌, if◌then◌else◌}

abbrev pub Str : Type 0
Str = List ℕ

-- A literal of the source.
abbrev pub text : String → Str
text String.[] = []
text (String.◌∷◌ c s) = code c ∷ text s

unfoldable pub str_beq : Str → Str → Bool
str_beq [] [] = true
str_beq [] (y ∷ ys) = false
str_beq (x ∷ xs) [] = false
str_beq (x ∷ xs) (y ∷ ys) = (x == y) && str_beq xs ys

unfoldable pub str_less : Str → Str → Bool
str_less xs [] = false
str_less [] (y ∷ ys) = true
str_less (x ∷ xs) (y ∷ ys) = if x == y then str_less xs ys else ltb x y

pub str_beq_iff : (s t : Str) → (str_beq s t ≡ true) ↔ (s ≡ t)
unfolding str_beq
str_beq_iff [] [] = ground arith
str_beq_iff [] (y ∷ ys) = ground arith
str_beq_iff (x ∷ xs) [] = ground arith
str_beq_iff (x ∷ xs) (y ∷ ys) = ground (arith, str_beq_iff xs ys)

pub less_irrefl : (s : Str) → str_less s s ≡ false
unfolding str_less
less_irrefl [] = refl
less_irrefl (x ∷ xs) = ground (arith, less_irrefl xs)

pub less_trans : (s t u : Str) → str_less s t ≡ true → str_less t u ≡ true → str_less s u ≡ true
unfolding str_less
less_trans [] [] u h k = cc
less_trans (x ∷ xs) [] u h k = cc
less_trans s (y ∷ ys) [] h k = cc
less_trans [] (y ∷ ys) (z ∷ zs) h k = refl
less_trans (x ∷ xs) (y ∷ ys) (z ∷ zs) h k = ground (arith, less_trans xs ys zs)

pub less_total : (s t : Str) → str_beq s t ≡ false → str_less s t ≡ false → str_less t s ≡ true
unfolding str_beq str_less
less_total [] [] e h = cc
less_total [] (y ∷ ys) e h = cc
less_total (x ∷ xs) [] e h = refl
less_total (x ∷ xs) (y ∷ ys) e h = ground (arith, less_total xs ys)
