-- ===== src/Examples/CalcSource.antt =====
-- examples/server/calcsource.h and calcsource.cpp: `CalcSource`, the service side of a calculator.
-- What it prints is left out, but not that `dump` may throw.
use objectlink_core_cpp.Prelude.{
  ℕ, List, [], ◌∷◌, ◌++◌, Option, none, some, Str, text, str_beq, not, if◌then◌else◌,
}
use objectlink_core_cpp.Types.{ℤ, pos}
use objectlink_core_cpp.Int.{◌+ℤ◌, ◌-ℤ◌, eq_ℤ, leb_ℤ}
use objectlink_core_cpp.Json.{JsonLib}
use objectlink_core_cpp.Name
use objectlink_core_cpp.Examples.Outcome.{
  Run, pure, gets, modify, lift, defined, asserted, int, when, ◌>>=◌, ◌>>◌,
}

-- A call of a method of `IRemoteNode`.
pub data Notice (J : JsonLib) : Type 0 where
  property_change : Str → J.Json → Notice J
  signal : Str → J.Json → Notice J

-- The members, with the calls of nodes so far, each with its node.
pub record CalcSource (J : JsonLib) : Type 0 where
  pub node : Option ℕ
  pub total : ℤ
  pub sent : List (ℕ × Notice J)

module _ (J : JsonLib) where
  unfoldable pub init : CalcSource J
  init = record { node = none; total = pos 1; sent = [] }

  unfoldable pub notify : Notice J → Run (CalcSource J) Unit
  notify n = do
    c ← gets (λ (s : CalcSource J). s.node)
    node ← asserted c
    modify (λ s. record s { sent = s.sent ++ (node, n) ∷ [] })

  abbrev set_total : ℤ → Run (CalcSource J) Unit
  set_total total = modify (λ s. record s { total = total })

  abbrev total_changed : ℤ → Notice J
  total_changed total = property_change (text "demo.Calc/total") (J.of_int total)

  unfoldable pub add : ℤ → Run (CalcSource J) ℤ
  unfolding notify
  add value = do
    old ← gets (λ (s : CalcSource J). s.total)
    total ← int (old +ℤ value)
    set_total total
    notify (total_changed total)
    when (leb_ℤ (pos 10) total)
        (notify (signal (text "demo.Calc/hitUpper") (J.array (J.of_int (pos 10) ∷ []))))
    pure total

  unfoldable pub sub : ℤ → Run (CalcSource J) ℤ
  unfolding notify
  sub value = do
    old ← gets (λ (s : CalcSource J). s.total)
    total ← int (old -ℤ value)
    set_total total
    notify (total_changed total)
    when (leb_ℤ total (pos 0))
        (notify (signal (text "demo.Calc/hitLower") (J.array (J.of_int (pos 0) ∷ []))))
    pure total

  unfoldable pub clear : Run (CalcSource J) Unit
  unfolding notify
  clear = do set_total (pos 0); notify (total_changed (pos 0))

  unfoldable pub notify_shutdown : ℤ → Run (CalcSource J) Unit
  unfolding notify
  notify_shutdown timeout =
      notify (signal (text "demo.Calc/timeout") (J.array (J.of_int timeout ∷ [])))

  abbrev pub object_name : Str
  object_name = text "demo.Calc"

  -- args[0].get<int>()
  abbrev first_int : J.Json → Run (CalcSource J) ℤ
  first_int args = do a ← defined (J.index args 0); lift (J.get_int a)

  unfoldable pub olink_invoke : Str → J.Json → Run (CalcSource J) J.Json
  unfolding add sub clear
  olink_invoke name args = do
    lift (J.dump args)
    let path = Name.get_member_name name
    if str_beq path (text "add")
        then (do a ← first_int args; result ← add a; pure (J.of_int result))
        else if str_beq path (text "sub")
        then (do a ← first_int args; result ← sub a; pure (J.of_int result))
        else if str_beq path (text "clear")
        then (do clear; pure J.null)
        else pure J.null

  unfoldable pub olink_set_property : Str → J.Json → Run (CalcSource J) Unit
  unfolding notify
  olink_set_property name value = do
    lift (J.dump value)
    when (str_beq (Name.get_member_name name) (text "total")) do
      total ← lift (J.get_int value)
      old ← gets (λ (s : CalcSource J). s.total)
      when (not (eq_ℤ old total)) do set_total total; notify (property_change name (J.of_int total))

  unfoldable pub olink_linked : Str → ℕ → Run (CalcSource J) Unit
  olink_linked name node = modify (λ s. record s { node = some node })

  unfoldable pub olink_unlinked : Str → Run (CalcSource J) Unit
  olink_unlinked name = modify (λ s. record s { node = none })

  unfoldable pub olink_collect_properties : Run (CalcSource J) J.Json
  olink_collect_properties = gets (λ s. J.object ((text "total", J.of_int s.total) ∷ []))
