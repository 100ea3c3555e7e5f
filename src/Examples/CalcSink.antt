-- ===== src/Examples/CalcSink.antt =====
-- examples/app/calcsink.h and calcsink.cpp: `CalcSink`, the client side of a calculator. Qt signals
-- and calls of the client node are events. The constructor leaves `m_total` and `m_ready` unset, so
-- they are arguments of `init`.
use objectlink_core_cpp.Prelude.{
  ℕ, Bool, true, false, List, [], ◌∷◌, ◌++◌, Option, none, some, Str, text, str_beq, not,
  if◌then◌else◌,
}
use objectlink_core_cpp.Types.{ℤ}
use objectlink_core_cpp.Int.{eq_ℤ}
use objectlink_core_cpp.Json.{JsonLib}
use objectlink_core_cpp.Name
use objectlink_core_cpp.Exec.{Exec}
use objectlink_core_cpp.World.{World}
use objectlink_core_cpp.ClientRegistry
use objectlink_core_cpp.Examples.Outcome.{
  Run, pure, gets, modify, lift, defined, asserted, when, ◌>>=◌, ◌>>◌,
}

-- Qt signals, and calls of methods of `IClientNode`.
pub data Output (J : JsonLib) : Type 0 where
  total_changed max_reached min_reached : ℤ → Output J
  invoke_remote : ℕ → Str → J.Json → Output J
  set_remote_property : ℕ → Str → J.Json → Output J

pub record CalcSink (J : JsonLib) : Type 0 where
  pub total : ℤ
  pub ready : Bool
  pub name : Str
  pub node : Option ℕ
  pub outputs : List (Output J)

module _ (J : JsonLib) where
  unfoldable pub init : ℤ → Bool → CalcSink J
  init total ready = record { total = total; ready = ready; name = []; node = none; outputs = [] }

  abbrev put : Output J → Run (CalcSink J) Unit
  put o = modify (λ s. record s { outputs = s.outputs ++ o ∷ [] })

  -- assert(m_node); m_node->invokeRemote(…)
  unfoldable pub invoke : Str → J.Json → Run (CalcSink J) Unit
  invoke method_id args = do
    c ← gets (λ (s : CalcSink J). s.node)
    node ← asserted c
    put (invoke_remote node method_id args)

  unfoldable pub add : ℤ → Run (CalcSink J) Unit
  unfolding invoke
  add a = invoke (text "demo.Calc/add") (J.array (J.of_int a ∷ []))

  unfoldable pub sub : ℤ → Run (CalcSink J) Unit
  unfolding invoke
  sub a = invoke (text "demo.Calc/sub") (J.array (J.of_int a ∷ []))

  unfoldable pub clear : Run (CalcSink J) Unit
  unfolding invoke
  clear = invoke (text "demo.Calc/clear") J.null

  unfoldable pub set_total : ℤ → Run (CalcSink J) Unit
  set_total total = do
    c ← gets (λ (s : CalcSink J). s.node)
    node ← asserted c
    put (set_remote_property node (text "demo.Calc/total") (J.of_int total))

  abbrev pub object_name : Str
  object_name = text "demo.Calc"

  -- args[0].get<int>()
  abbrev first_int : J.Json → Run (CalcSink J) ℤ
  first_int args = do a ← defined (J.index args 0); lift (J.get_int a)

  unfoldable pub olink_on_signal : Str → J.Json → Run (CalcSink J) Unit
  olink_on_signal name args = do
    let path = Name.get_member_name name
    if str_beq path (text "maxReached")
        then (do value ← first_int args; put (max_reached value))
        else if str_beq path (text "minReached")
        then (do value ← first_int args; put (min_reached value))
        else pure tt

  -- if (m_total != total) { m_total = total; emit totalChanged(total); }
  unfoldable pub receive_total : ℤ → Run (CalcSink J) Unit
  receive_total total = do
    old ← gets (λ (s : CalcSink J). s.total)
    when (not (eq_ℤ old total))
        do modify (λ s. record s { total = total }); put (total_changed total)

  unfoldable pub olink_on_property_changed : Str → J.Json → Run (CalcSink J) Unit
  unfolding receive_total
  olink_on_property_changed name value =
      when (str_beq (Name.get_member_name name) (text "total"))
        do total ← lift (J.get_int value); receive_total total

  -- `m_node` is set to the node that is given, which is not null: the assert holds.
  unfoldable pub olink_on_init : Str → J.Json → ℕ → Run (CalcSink J) Unit
  unfolding receive_total
  olink_on_init name props node = do
    modify (λ s. record s { name = name; ready = true; node = some node })
    when (J.contains props (text "total")) do
      value ← lift (J.field props (text "total"))
      total ← lift (J.get_int value)
      receive_total total

  unfoldable pub olink_on_release : Run (CalcSink J) Unit
  olink_on_release = modify (λ s. record s { ready = false; node = none })

  -- What the destructor does to the registry.
  unfoldable pub destroy : {N : Type 0} → Exec (World N ClientRegistry.ClientRegistry) Unit
  destroy = ClientRegistry.remove_sink object_name
