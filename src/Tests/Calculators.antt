-- ===== src/Tests/Calculators.antt =====
-- The calculator of the examples on concrete values.
use objectlink_core_cpp.Prelude.{ℕ, ◌≡◌, ◌↔◌, refl, false, List, [], ◌∷◌, ◌++◌, some, text, arith}
use objectlink_core_cpp.Types.{pos, negsuc}
use objectlink_core_cpp.Int.{◌+ℤ◌, ◌-ℤ◌, in_int}
use objectlink_core_cpp.Examples.Outcome.{done, undefined}
use objectlink_core_cpp.Examples.CalcSource
use objectlink_core_cpp.Examples.CalcSource.{CalcSource, Notice}
use objectlink_core_cpp.Examples.CalcSink
use objectlink_core_cpp.Examples.CalcSink.{CalcSink}
use objectlink_core_cpp.Examples.Requests.{
  Request, adds, subs, sets, clears, NumberTexts, output, serve, ask, serve-undefined,
}
use objectlink_core_cpp.Examples.Follows.{Follows, deliver_all}
use objectlink_core_cpp.Examples.Mirror.{IsServable, serve_all, linked_client-Follows}
use objectlink_core_cpp.Tests.Toy.{lib, values, objects, print}

texts : NumberTexts lib
texts = record {
  dump-of_int = λ z. (print (lib.of_int z), refl);
  dump-array = λ z. (print (lib.array (lib.of_int z ∷ [])), refl);
  dump-null = (print lib.null, refl);
}

-- a source that node 2 links, and a sink that shows another total
abbrev source : CalcSource lib
source = record { node = some 2; total = pos 1; sent = [] }

abbrev sink : CalcSink lib
sink = CalcSink.init lib (pos 77) false

-- an addition past the upper bound, a subtraction past the lower one, and a set total
abbrev requests : List Request
requests = adds (pos 12) ∷ subs (pos 20) ∷ sets (pos 4) ∷ clears ∷ adds (negsuc 4) ∷ []

requests-IsServable : IsServable requests (pos 1)
unfolding ◌+ℤ◌ ◌-ℤ◌
requests-IsServable = (
  omega arith,
  refl,
  (omega arith, refl, (omega arith, refl, (tt, refl, (omega arith, refl, tt)))),
)

linked_client-Follows_example :
    (props : lib.Json) × (first last : CalcSink lib) × (ns : List (ℕ × Notice lib))
    × (CalcSource.olink_collect_properties lib source ≡ done props source)
    × (CalcSink.olink_on_init lib (text "demo.Calc") props 5 sink ≡ done tt first)
    × ((r : Request)
        → ask lib r first
          ≡ done tt (record first { outputs = first.outputs ++ output lib 5 r ∷ [] }))
    × (serve_all lib 5 requests source ≡ done tt (record source { total = negsuc 4; sent = ns }))
    × (deliver_all lib ns first ≡ done tt last)
    × Follows lib (negsuc 4) sink last
unfolding ◌+ℤ◌ ◌-ℤ◌
linked_client-Follows_example =
    linked_client-Follows lib values objects texts 2 5 (text "demo.Calc") requests source sink refl
      (omega arith) requests-IsServable

-- the largest `int`
abbrev full : CalcSource lib
full = record source { total = pos 2147483647 }

serve-undefined_example :
    (serve lib (output lib 5 (adds (pos 1))) full ≡ undefined)
    ↔ (in_int (pos 2147483647 +ℤ pos 1) ≡ false)
serve-undefined_example =
    serve-undefined lib values objects texts 2 full refl 5 (adds (pos 1)) (omega arith)
