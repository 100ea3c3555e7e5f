-- ===== src/BaseNode.antt =====
-- src/olink/core/basenode.h and basenode.cpp: `BaseNode`, which writes messages to the network and
-- handles those that come from it. `D` holds the members of the derived class.
-- The write function and the log function are user code that is taken to return: a call of one is an
-- event of the world's trace.
use objectlink_core_cpp.Prelude.{ℕ, List, [], ◌∷◌, ◌⊎◌, inl, inr, Option, none, some, Str, text}
use objectlink_core_cpp.Exec.{
  Exec, Result, ok, throw, Exception, json_error, std_error, what, pure, lift, gets, modify,
  catch_all, ◌>>=◌, ◌>>◌,
}
use objectlink_core_cpp.Types.{LogLevel, MessageFormat, ℤ}
use objectlink_core_cpp.Json.{JsonLib}
use objectlink_core_cpp.World.{World, emit, wrote}
use objectlink_core_cpp.Converter
use objectlink_core_cpp.Converter.{MessageConverter}
use objectlink_core_cpp.Logger
use objectlink_core_cpp.Logger.{Logger, emit_log, emit_log_with_payload, decimal, decimal_ℤ}
use objectlink_core_cpp.Protocol
use objectlink_core_cpp.Protocol.{Listener}
pub mod Incoming
pub mod Outgoing
pub mod Noexcept

pub record BaseNode : Type 0 where
  pub logger : Logger
  pub write_func : Option ℕ
  pub converter : MessageConverter
  -- m_protocol.m_lastError
  pub last_error : Str

unfoldable pub init : BaseNode
unfolding Converter.init
init = record {
  logger = Logger.init;
  write_func = none;
  converter = Converter.init MessageFormat.json;
  last_error = [];
}

unfoldable pub on_write : Option ℕ → BaseNode → BaseNode
on_write func b = record b { write_func = func }

unfoldable pub set_message_format : MessageFormat → BaseNode → BaseNode
unfolding Converter.set_message_format
set_message_format format b = record b {
  converter = Converter.set_message_format format b.converter;
}

unfoldable pub set_max_message_size : ℕ → BaseNode → BaseNode
unfolding Converter.set_max_message_size
set_max_message_size size b = record b {
  converter = Converter.set_max_message_size size b.converter;
}

pub record Node (D : Type 0) : Type 0 where
  pub base : BaseNode
  pub derived : D

module _ {D R : Type 0} where
  -- LoggerBase::emitLog of this node
  unfoldable pub log : LogLevel → List Str → Exec (World (Node D) R) Unit
  log level params w = emit_log w.node.base.logger level params w

  unfoldable pub log_payload :
      (J : JsonLib) → LogLevel → J.Json → List Str → Exec (World (Node D) R) Unit
  log_payload J level payload params w =
      emit_log_with_payload w.node.base.logger J level payload params w

  -- m_protocol.m_lastError = why
  unfoldable pub set_error : Str → World (Node D) R → World (Node D) R
  set_error why w = record w {
    node = record w.node { base = record w.node.base { last_error = why } };
  }

-- What is dispatched, or the text of the error. The code takes an exception for none if its text
-- is empty, and goes on with an empty value.
converted_message : (J : JsonLib) → Result J.Json → J.Json ⊎ Str
converted_message J (ok j) = inl j
converted_message J (throw e) = elim (what e) [ [] ↦ inl J.null | c ∷ s ↦ inr (c ∷ s) ]

abbrev not_implemented : Str
not_implemented = text "not implemented "

module _ {D R : Type 0} (J : JsonLib) where
  write_with : Option ℕ → J.Json → Exec (World (Node D) R) Unit
  write_with none msg =
      log LogLevel.warning (text "Messages are not sent if the write function is not set" ∷ [])
  write_with (some func) msg = do
    converter ← gets (λ w. w.node.base.converter)
    converted ← lift (Converter.to_string J converter msg)
    emit (wrote func converted)

  unfoldable pub emit_write : J.Json → Exec (World (Node D) R) Unit
  unfolding write_with
  emit_write msg = do
    log_payload J LogLevel.debug msg (text "writeMessage: " ∷ [])
    func ← gets (λ w. w.node.base.write_func)
    write_with func msg

  module _ (listener : Listener J (World (Node D) R)) where
    unfoldable pub log_exception : Exception → Exec (World (Node D) R) Unit
    log_exception (json_error e) =
        log LogLevel.error (text "handleMessage json exception: " ∷ e ∷ [])
    log_exception (std_error e) = log LogLevel.error (text "handleMessage exception: " ∷ e ∷ [])

    unfoldable pub dispatch : J.Json ⊎ Str → Exec (World (Node D) R) Unit
    unfolding log_exception
    dispatch (inr e) = log LogLevel.error (text "handleMessage exception: " ∷ e ∷ [])
    dispatch (inl parsed) =
        catch_all (do Protocol.handle_message J set_error listener parsed; pure tt) log_exception

    unfoldable pub handle_message : Str → Exec (World (Node D) R) Unit
    unfolding converted_message dispatch
    handle_message message = do
      converter ← gets (λ w. w.node.base.converter)
      dispatch (converted_message J (Converter.from_string J converter message))

  -- The handlers that only log.
  unfoldable pub handle_link : Str → Exec (World (Node D) R) Unit
  handle_link object_id =
      log LogLevel.warning (not_implemented ∷ text "handleLink" ∷ object_id ∷ [])

  unfoldable pub handle_unlink : Str → Exec (World (Node D) R) Unit
  handle_unlink object_id =
      log LogLevel.warning (not_implemented ∷ text "handleUnlink" ∷ object_id ∷ [])

  unfoldable pub handle_invoke : ℕ → Str → J.Json → Exec (World (Node D) R) Unit
  handle_invoke request_id method_id args =
      log_payload J LogLevel.warning args
        (not_implemented ∷ text "handleInvoke" ∷ method_id ∷ text " args " ∷ [])

  unfoldable pub handle_set_property : Str → J.Json → Exec (World (Node D) R) Unit
  handle_set_property property_id value =
      log_payload J LogLevel.warning value
        (not_implemented ∷ text "handleSetProperty" ∷ property_id ∷ text " value " ∷ [])

  unfoldable pub handle_init : Str → J.Json → Exec (World (Node D) R) Unit
  handle_init object_id props =
      log_payload J LogLevel.warning props
        (not_implemented ∷ text "handleInit" ∷ object_id ∷ text " props " ∷ [])

  log_reply : Option ℕ → ℕ → Str → J.Json → Exec (World (Node D) R) Unit
  log_reply none request_id method_id value = pure tt
  log_reply (some func) request_id method_id value = do
    shown ← lift (J.get_string value)
    log LogLevel.warning (
        not_implemented
        ∷ text "handleInvokeReply"
        ∷ method_id
        ∷ text " requestId "
        ∷ decimal request_id
        ∷ text " value "
        ∷ shown
        ∷ [])

  -- The value is converted to a text, which throws for any other value than a text; `emitLog` makes
  -- the conversion behind its test of the level.
  unfoldable pub handle_invoke_reply : ℕ → Str → J.Json → Exec (World (Node D) R) Unit
  unfolding log_reply
  handle_invoke_reply request_id method_id value = do
    logger ← gets (λ w. w.node.base.logger)
    log_reply (Logger.log_target logger LogLevel.warning) request_id method_id value

  unfoldable pub handle_signal : Str → J.Json → Exec (World (Node D) R) Unit
  handle_signal signal_id args =
      log_payload J LogLevel.warning args
        (not_implemented ∷ text "handleSignal" ∷ signal_id ∷ text " args " ∷ [])

  unfoldable pub handle_property_change : Str → J.Json → Exec (World (Node D) R) Unit
  handle_property_change property_id value =
      log_payload J LogLevel.warning value
        (not_implemented ∷ text "handlePropertyChange" ∷ property_id ∷ text " value " ∷ [])

  unfoldable pub handle_error : ℤ → ℤ → Str → Exec (World (Node D) R) Unit
  handle_error msg_type request_id error = log LogLevel.warning (
      not_implemented
      ∷ text "handleError"
      ∷ text " requestId "
      ∷ decimal_ℤ request_id
      ∷ text " error "
      ∷ error
      ∷ [])
