-- ===== src/Examples/SinkNode.antt =====
-- What the methods of a linked `CalcSink` (examples/app/calcsink.cpp) send by the client node that it
-- has, a `ClientNode`.
use objectlink_core_cpp.Prelude.{ℕ, ◌+◌, List, [], ◌∷◌, none, Str, text}
use objectlink_core_cpp.Exec.{Exec, pure, ◌>>◌}
use objectlink_core_cpp.Json.{JsonLib}
use objectlink_core_cpp.ClientNode.Interface.{IClientNode}
use objectlink_core_cpp.Examples.Outcome.{Run, done, after}
use objectlink_core_cpp.Examples.CalcSink.{CalcSink, Output, invoke_remote, set_remote_property}
use objectlink_core_cpp.Examples.Requests.{Request, adds, subs, sets, clears, ask}

module _ {J : JsonLib} {S : Type 0} (N : IClientNode J S) where
  -- What a sink puts out, done: a call is one of the node, with no reply function; a Qt signal is
  -- none.
  abbrev pub perform : Output J → Exec S Unit
  perform (invoke_remote n m args) = N.invoke_remote m args none
  perform (set_remote_property n p value) = N.set_remote_property p value
  perform _ = pure tt

  abbrev pub perform_all : List (Output J) → Exec S Unit
  perform_all [] = pure tt
  perform_all (o ∷ os) = do perform o; perform_all os

-- The last request id after a method.
abbrev pub last_after : ℕ → Request → ℕ
last_after id (sets v) = id
last_after id _ = id + 1

module _ (J : JsonLib) (IsCall : ℕ → Str → J.Json → Str → Type 0)
    (IsAssignment : Str → J.Json → Str → Type 0) where
  -- The text of a method of the sink; the first number is the request id of a call.
  abbrev pub IsText : ℕ → Request → Str → Type 0
  IsText id (adds a) t = IsCall id (text "demo.Calc/add") (J.array (J.of_int a ∷ [])) t
  IsText id (subs a) t = IsCall id (text "demo.Calc/sub") (J.array (J.of_int a ∷ [])) t
  IsText id (sets v) t = IsAssignment (text "demo.Calc/total") (J.of_int v) t
  IsText id clears t = IsCall id (text "demo.Calc/clear") J.null t

  -- One text for each method, where the first number is the last request id before.
  abbrev pub AreTexts : ℕ → List Request → List Str → Type 0
  AreTexts id [] [] = Unit
  AreTexts id (r ∷ rs) (t ∷ ts) = IsText (id + 1) r t × AreTexts (last_after id r) rs ts
  AreTexts id _ _ = ⊥

-- The methods of the sink, one after the other.
abbrev pub ask_all : (J : JsonLib) → List Request → Run (CalcSink J) Unit
ask_all J [] k = done tt k
ask_all J (r ∷ rs) k = after (ask J r k) (λ _. ask_all J rs)
