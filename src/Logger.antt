-- ===== src/Logger.antt =====
-- src/olink/core/types.h and types.cpp: `LoggerBase`, a log function with the level from which on it
-- is called.
use objectlink_core_cpp.Prelude.{
  ℕ, zero, suc, ◌+◌, ◌/◌, ◌%◌, Bool, true, false, not, ◌||◌, List, [], ◌∷◌, ◌++◌, Option, none,
  some, Str, ltb, if◌then◌else◌,
}
use objectlink_core_cpp.Exec.{Exec, pure, lift, ◌>>=◌, ◌>>◌}
use objectlink_core_cpp.Types.{LogLevel, level_less, ℤ, pos, negsuc}
use objectlink_core_cpp.Json.{JsonLib}
use objectlink_core_cpp.World.{World, emit, logged}
pub mod Levels

pub record Logger : Type 0 where
  pub log_func : Option ℕ
  pub log_level : LogLevel

abbrev pub init : Logger
init = record { log_func = none; log_level = LogLevel.warning }

unfoldable pub on_log : Option ℕ → Logger → Logger
on_log func l = record l { log_func = func }

unfoldable pub set_log_level : LogLevel → Logger → Logger
set_log_level level l = record l { log_level = level }

-- full_message += element
unfoldable pub join : List Str → Str
join [] = []
join (s ∷ params) = s ++ join params

digits_fuel : ℕ → ℕ → Str
digits_fuel zero n = []
digits_fuel (suc fuel) n =
    let rest = digits_fuel fuel (n / 10) in
    if ltb n 10 then (b'0' + n) ∷ [] else rest ++ (b'0' + n % 10) ∷ []

-- std::to_string; a number has fewer digits than its successor counts.
unfoldable pub decimal : ℕ → Str
unfolding digits_fuel
decimal n = digits_fuel (suc n) n

unfoldable pub decimal_ℤ : ℤ → Str
decimal_ℤ (pos n) = decimal n
decimal_ℤ (negsuc n) = b'-' ∷ decimal (suc n)

-- The log function, if it is set and the level is not below the logger's.
unfoldable pub log_target : Logger → LogLevel → Option ℕ
log_target l level = if level_less level l.log_level then none else l.log_func

module _ {N R : Type 0} where
  unfoldable pub emit_to : Option ℕ → LogLevel → List Str → Exec (World N R) Unit
  emit_to none level params = pure tt
  emit_to (some func) level params = emit (logged func level (join params))

  unfoldable pub emit_log : Logger → LogLevel → List Str → Exec (World N R) Unit
  unfolding emit_to log_target
  emit_log l level params = emit_to (log_target l level) level params

  write_payload :
      Option ℕ → Logger → (J : JsonLib) → LogLevel → J.Json → List Str → Exec (World N R) Unit
  write_payload none l J level payload params = pure tt
  write_payload (some func) l J level payload params = do
    dumped ← lift (J.dump payload)
    emit_log l level (params ++ dumped ∷ [])

  unfoldable pub emit_log_with_payload :
      Logger → (J : JsonLib) → LogLevel → J.Json → List Str → Exec (World N R) Unit
  unfolding write_payload log_target
  emit_log_with_payload l J level payload params =
      write_payload (log_target l level) l J level payload params
