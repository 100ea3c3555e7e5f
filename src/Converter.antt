-- ===== src/Converter.antt =====
-- src/olink/core/types.h and types.cpp: `MessageConverter`, between values and the texts that go over
-- the network.
use objectlink_core_cpp.Prelude.{ℕ, ◌*◌, Str, ltb, length, if◌then◌else◌}
use objectlink_core_cpp.Exec.{Result, ok, throw}
use objectlink_core_cpp.Types.{MessageFormat}
use objectlink_core_cpp.Json.{JsonLib}

pub record MessageConverter : Type 0 where
  pub format : MessageFormat
  pub max_message_size : ℕ

unfoldable pub init : MessageFormat → MessageConverter
init format = record { format = format; max_message_size = 64 * 1024 * 1024 }

unfoldable pub set_message_format : MessageFormat → MessageConverter → MessageConverter
set_message_format format c = record c { format = format }

unfoldable pub set_max_message_size : ℕ → MessageConverter → MessageConverter
set_max_message_size size c = record c { max_message_size = size }

module _ (J : JsonLib) where
  unfoldable pub unless_discarded : Result J.Json → Result J.Json
  unless_discarded (throw e) = throw e
  unless_discarded (ok j) = ok (if J.is_discarded j then J.null else j)

  unfoldable pub from_string : MessageConverter → Str → Result J.Json
  unfolding unless_discarded
  from_string c message =
      if ltb c.max_message_size (length message)
      then ok J.null
      else unless_discarded (J.decode c.format message)

  unfoldable pub to_string : MessageConverter → J.Json → Result Str
  to_string c j = J.encode c.format j
