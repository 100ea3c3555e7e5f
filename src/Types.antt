-- ===== src/Types.antt =====
-- src/olink/core/types.h and types.cpp: the enumerations, and the names of the message types.
use objectlink_core_cpp.Prelude.{ℕ, Bool, false, [], ◌∷◌, none, some, Str, text, ◌==◌, ltb}
use objectlink_core_cpp.Map.{nat_key, Map, find}

pub data MsgType : Type 0 where
  link init unlink set_property property_change invoke invoke_reply signal error : MsgType

-- The numbers of the protocol.
abbrev pub code : MsgType → ℕ
code link = 10
code init = 11
code unlink = 12
code set_property = 20
code property_change = 21
code invoke = 30
code invoke_reply = 31
code signal = 40
code error = 99

-- A signed integer; `negsuc n` is -(n + 1).
pub data ℤ : Type 0 where
  pos : ℕ → ℤ
  negsuc : ℕ → ℤ

-- `case int(MsgType::…)`
abbrev pub is_code : ℤ → MsgType → Bool
is_code (pos n) t = n == code t
is_code (negsuc n) t = false

abbrev type_names : Map ℕ Str
type_names =
    (code link, text "link")
    ∷ (code init, text "init")
    ∷ (code unlink, text "unlink")
    ∷ (code set_property, text "property_change")
    ∷ (code property_change, text "signal_property_change")
    ∷ (code invoke, text "invoke")
    ∷ (code invoke_reply, text "invoke_reply")
    ∷ (code signal, text "signal")
    ∷ (code error, text "error")
    ∷ []

-- toString, at the number of the type: an `enum class` may hold a number that it does not name.
unfoldable pub to_string : ℕ → Str
to_string n = elim (find n type_names) [ none ↦ text "unknown" | some name ↦ name ]

pub data MessageFormat : Type 0 where
  json bson msgpack cbor : MessageFormat

pub data LogLevel : Type 0 where
  info debug warning error : LogLevel

abbrev pub rank : LogLevel → ℕ
rank LogLevel.info = 0
rank LogLevel.debug = 1
rank LogLevel.warning = 2
rank LogLevel.error = 3

-- `a < b`
abbrev pub level_less : LogLevel → LogLevel → Bool
level_less a b = ltb (rank a) (rank b)
