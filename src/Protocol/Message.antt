-- ===== src/Protocol/Message.antt =====
-- The messages of the protocol as data, what a listener is told of each, and which values carry one.
use objectlink_core_cpp.Prelude.{ℕ, ◌^◌, ◌≤◌, ◌<◌, ◌≡◌, true, Str}
use objectlink_core_cpp.Exec.{Exec, ok}
use objectlink_core_cpp.Types.{ℤ, pos, MsgType, code}
use objectlink_core_cpp.Json.{JsonLib, IsInt}
use objectlink_core_cpp.Protocol.{
  Listener, link_message, unlink_message, init_message, set_property_message,
  property_change_message, invoke_message, invoke_reply_message, signal_message, error_message,
}

-- `T` is the type of a message type inside an error message: a sender names one, a receiver reads a
-- number.
pub data Message (J : JsonLib) (T : Type 0) : Type 0 where
  link unlink : Str → Message J T
  init set_property property_change signal : Str → J.Json → Message J T
  invoke invoke_reply : ℕ → Str → J.Json → Message J T
  error : T → ℤ → Str → Message J T

module _ (J : JsonLib) where
  -- The value that the program composes for a message.
  abbrev pub compose : Message J MsgType → J.Json
  compose (link o) = link_message J o
  compose (unlink o) = unlink_message J o
  compose (init o props) = init_message J o props
  compose (set_property p v) = set_property_message J p v
  compose (property_change p v) = property_change_message J p v
  compose (signal g args) = signal_message J g args
  compose (invoke n m args) = invoke_message J n m args
  compose (invoke_reply n m v) = invoke_reply_message J n m v
  compose (error t n e) = error_message J t n e

  -- Request ids fit in their C++ types.
  abbrev pub InRange : Message J MsgType → Type 0
  InRange (invoke n m args) = n < 2 ^ 32
  InRange (invoke_reply n m v) = n < 2 ^ 32
  InRange (error t n e) = IsInt n
  InRange _ = Unit

  -- The message as its receiver reads it.
  abbrev pub received : Message J MsgType → Message J ℤ
  received (link o) = link o
  received (unlink o) = unlink o
  received (init o props) = init o props
  received (set_property p v) = set_property p v
  received (property_change p v) = property_change p v
  received (signal g args) = signal g args
  received (invoke n m args) = invoke n m args
  received (invoke_reply n m v) = invoke_reply n m v
  received (error t n e) = error (pos (code t)) n e

  -- A text at a place of an array, a request id, an integer.
  abbrev pub HasText : J.Json → ℕ → Str → Type 0
  HasText j i s = (J.is_string (J.at j i) ≡ true) × (J.get_string (J.at j i) ≡ ok s)

  abbrev pub HasUint : J.Json → ℕ → ℕ → Type 0
  HasUint j i n = (J.is_number (J.at j i) ≡ true) × (J.get_uint (J.at j i) ≡ ok n)

  abbrev pub HasInt : J.Json → ℕ → ℤ → Type 0
  HasInt j i z = (J.is_number_integer (J.at j i) ≡ true) × (J.get_int (J.at j i) ≡ ok z)

  -- An array of at least `n` values that begins with the number of the type `t`.
  abbrev pub HasHead : J.Json → ℕ → MsgType → Type 0
  HasHead j n t = (J.is_array j ≡ true) × (n ≤ J.size j) × HasInt j 0 (pos (code t))

  -- What the protocol asks of a value that carries the message.
  abbrev pub Carries : J.Json → Message J ℤ → Type 0
  Carries j (link o) = HasHead j 2 MsgType.link × HasText j 1 o
  Carries j (unlink o) = HasHead j 2 MsgType.unlink × HasText j 1 o
  Carries j (init o v) = HasHead j 3 MsgType.init × HasText j 1 o × (J.at j 2 ≡ v)
  Carries j (set_property p v) = HasHead j 3 MsgType.set_property × HasText j 1 p × (J.at j 2 ≡ v)
  Carries j (property_change p v) =
      HasHead j 3 MsgType.property_change × HasText j 1 p × (J.at j 2 ≡ v)
  Carries j (signal g v) = HasHead j 3 MsgType.signal × HasText j 1 g × (J.at j 2 ≡ v)
  Carries j (invoke n m v) =
      HasHead j 4 MsgType.invoke × HasUint j 1 n × HasText j 2 m × (J.at j 3 ≡ v)
  Carries j (invoke_reply n m v) =
      HasHead j 4 MsgType.invoke_reply × HasUint j 1 n × HasText j 2 m × (J.at j 3 ≡ v)
  Carries j (error t n e) = HasHead j 4 MsgType.error × HasInt j 1 t × HasInt j 2 n × HasText j 3 e

module _ (J : JsonLib) {S : Type 0} (listener : Listener J S) where
  open listener use {
    handle_link, handle_unlink, handle_init, handle_set_property, handle_property_change,
    handle_invoke, handle_invoke_reply, handle_signal, handle_error,
  }

  -- The one handler that a message is for.
  abbrev pub deliver : Message J ℤ → Exec S Unit
  deliver (link o) = handle_link o
  deliver (unlink o) = handle_unlink o
  deliver (init o v) = handle_init o v
  deliver (set_property p v) = handle_set_property p v
  deliver (property_change p v) = handle_property_change p v
  deliver (signal g v) = handle_signal g v
  deliver (invoke n m v) = handle_invoke n m v
  deliver (invoke_reply n m v) = handle_invoke_reply n m v
  deliver (error t n e) = handle_error t n e
