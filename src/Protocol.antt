-- ===== src/Protocol.antt =====
-- src/olink/core/protocol.h and protocol.cpp: the messages of the protocol, and their dispatch to the
-- handlers of a listener. `S` is the state that the handlers work on, with the member `m_lastError`,
-- which `set_error` writes. Built with exceptions (OLINK_HAS_EXCEPTIONS).
use objectlink_core_cpp.Prelude.{
  ℕ, Bool, true, false, not, [], ◌∷◌, ◌++◌, Str, text, ltb, if◌then◌else◌,
}
use objectlink_core_cpp.Exec.{Exec, pure, lift, modify, catch_json, ◌>>=◌, ◌>>◌}
use objectlink_core_cpp.Types.{
  ℤ, pos, MsgType, link, unlink, set_property, property_change, invoke, invoke_reply, signal, code,
  is_code,
}
use objectlink_core_cpp.Json.{JsonLib}
pub mod Message
pub mod RoundTrip
pub mod Cases
pub mod Dispatch
pub mod Noexcept

module _ (J : JsonLib) where
  open J use {Json, of_int, of_uint, of_string, array}

  abbrev pub type_code : MsgType → Json
  type_code t = of_int (pos (code t))

  unfoldable pub link_message : Str → Json
  link_message object_id = array (type_code link ∷ of_string object_id ∷ [])

  unfoldable pub unlink_message : Str → Json
  unlink_message object_id = array (type_code unlink ∷ of_string object_id ∷ [])

  unfoldable pub init_message : Str → Json → Json
  init_message object_id props = array (type_code MsgType.init ∷ of_string object_id ∷ props ∷ [])

  unfoldable pub set_property_message : Str → Json → Json
  set_property_message property_id value =
      array (type_code set_property ∷ of_string property_id ∷ value ∷ [])

  unfoldable pub property_change_message : Str → Json → Json
  property_change_message property_id value =
      array (type_code property_change ∷ of_string property_id ∷ value ∷ [])

  unfoldable pub invoke_message : ℕ → Str → Json → Json
  invoke_message request_id method_id args =
      array (type_code invoke ∷ of_uint request_id ∷ of_string method_id ∷ args ∷ [])

  unfoldable pub invoke_reply_message : ℕ → Str → Json → Json
  invoke_reply_message request_id method_id value =
      array (type_code invoke_reply ∷ of_uint request_id ∷ of_string method_id ∷ value ∷ [])

  unfoldable pub signal_message : Str → Json → Json
  signal_message signal_id args = array (type_code signal ∷ of_string signal_id ∷ args ∷ [])

  unfoldable pub error_message : MsgType → ℤ → Str → Json
  error_message msg_type request_id error =
      array
        (type_code MsgType.error ∷ type_code msg_type ∷ of_int request_id ∷ of_string error ∷ [])

-- IProtocolListener
pub record Listener (J : JsonLib) (S : Type 0) : Type 0 where
  pub handle_link : Str → Exec S Unit
  pub handle_unlink : Str → Exec S Unit
  pub handle_init : Str → J.Json → Exec S Unit
  pub handle_set_property : Str → J.Json → Exec S Unit
  pub handle_property_change : Str → J.Json → Exec S Unit
  pub handle_invoke : ℕ → Str → J.Json → Exec S Unit
  pub handle_invoke_reply : ℕ → Str → J.Json → Exec S Unit
  pub handle_signal : Str → J.Json → Exec S Unit
  pub handle_error : ℤ → ℤ → Str → Exec S Unit

module _ (J : JsonLib) {S : Type 0} (set_error : Str → S → S) (listener : Listener J S) where
  open J use {
    Json, is_array, is_number, is_number_integer, is_string, size, at, get_int, get_uint,
    get_string, dump,
  }
  open listener use {
    handle_link, handle_unlink, handle_init, handle_set_property, handle_property_change,
    handle_invoke, handle_invoke_reply, handle_signal, handle_error,
  }

  -- { m_lastError = why; return false; }
  abbrev pub refuse : Str → Exec S Bool
  refuse why = do modify (set_error why); pure false

  unfoldable pub link_case : Json → Exec S Bool
  link_case msg =
      if ltb (size msg) 2
      then refuse (text "truncated Link message")
      else if not (is_string (at msg 1))
      then refuse (text "Link: objectId must be string")
      else do object_id ← lift (get_string (at msg 1)); handle_link object_id; pure true

  unfoldable pub init_case : Json → Exec S Bool
  init_case msg =
      if ltb (size msg) 3
      then refuse (text "truncated Init message")
      else if not (is_string (at msg 1))
      then refuse (text "Init: objectId must be string")
      else do object_id ← lift (get_string (at msg 1)); handle_init object_id (at msg 2); pure true

  unfoldable pub unlink_case : Json → Exec S Bool
  unlink_case msg =
      if ltb (size msg) 2
      then refuse (text "truncated Unlink message")
      else if not (is_string (at msg 1))
      then refuse (text "Unlink: objectId must be string")
      else do object_id ← lift (get_string (at msg 1)); handle_unlink object_id; pure true

  unfoldable pub set_property_case : Json → Exec S Bool
  set_property_case msg =
      if ltb (size msg) 3
      then refuse (text "truncated SetProperty message")
      else if not (is_string (at msg 1))
      then refuse (text "SetProperty: propertyId must be string")
      else do
        property_id ← lift (get_string (at msg 1))
        handle_set_property property_id (at msg 2)
        pure true

  unfoldable pub property_change_case : Json → Exec S Bool
  property_change_case msg =
      if ltb (size msg) 3
      then refuse (text "truncated PropertyChange message")
      else if not (is_string (at msg 1))
      then refuse (text "PropertyChange: propertyId must be string")
      else do
        property_id ← lift (get_string (at msg 1))
        handle_property_change property_id (at msg 2)
        pure true

  unfoldable pub invoke_case : Json → Exec S Bool
  invoke_case msg =
      if ltb (size msg) 4
      then refuse (text "truncated Invoke message")
      else if not (is_number (at msg 1))
      then refuse (text "Invoke: requestId must be number")
      else if not (is_string (at msg 2))
      then refuse (text "Invoke: methodId must be string")
      else do
        id ← lift (get_uint (at msg 1))
        method_id ← lift (get_string (at msg 2))
        handle_invoke id method_id (at msg 3)
        pure true

  unfoldable pub invoke_reply_case : Json → Exec S Bool
  invoke_reply_case msg =
      if ltb (size msg) 4
      then refuse (text "truncated InvokeReply message")
      else if not (is_number (at msg 1))
      then refuse (text "InvokeReply: requestId must be number")
      else if not (is_string (at msg 2))
      then refuse (text "InvokeReply: methodId must be string")
      else do
        id ← lift (get_uint (at msg 1))
        method_id ← lift (get_string (at msg 2))
        handle_invoke_reply id method_id (at msg 3)
        pure true

  unfoldable pub signal_case : Json → Exec S Bool
  signal_case msg =
      if ltb (size msg) 3
      then refuse (text "truncated Signal message")
      else if not (is_string (at msg 1))
      then refuse (text "Signal: signalId must be string")
      else do
        signal_id ← lift (get_string (at msg 1))
        handle_signal signal_id (at msg 2)
        pure true

  unfoldable pub error_case : Json → Exec S Bool
  error_case msg =
      if ltb (size msg) 4
      then refuse (text "truncated Error message")
      else if not (is_number_integer (at msg 1))
      then refuse (text "Error: msgType must be integer")
      else if not (is_number_integer (at msg 2))
      then refuse (text "Error: requestId must be integer")
      else if not (is_string (at msg 3))
      then refuse (text "Error: error must be string")
      else do
        msg_type_err ← lift (get_int (at msg 1))
        request_id ← lift (get_int (at msg 2))
        error ← lift (get_string (at msg 3))
        handle_error msg_type_err request_id error
        pure true

  unsupported_case : Json → Exec S Bool
  unsupported_case msg = do
    dumped ← lift (dump msg)
    refuse (text "message not supported: " ++ dumped)

  -- switch (msgType)
  unfoldable pub switch : ℤ → Json → Exec S Bool
  unfolding unsupported_case
  switch msg_type msg =
      if is_code msg_type link
      then link_case msg
      else if is_code msg_type MsgType.init
      then init_case msg
      else if is_code msg_type unlink
      then unlink_case msg
      else if is_code msg_type set_property
      then set_property_case msg
      else if is_code msg_type property_change
      then property_change_case msg
      else if is_code msg_type invoke
      then invoke_case msg
      else if is_code msg_type invoke_reply
      then invoke_reply_case msg
      else if is_code msg_type signal
      then signal_case msg
      else if is_code msg_type MsgType.error
      then error_case msg
      else unsupported_case msg

  -- catch (const nlohmann::json::exception& e)
  abbrev pub parse_error : Str → Exec S Bool
  parse_error e = refuse (text "message parse error: " ++ e)

  -- the block behind the checks of the head
  typed : Json → Exec S Bool
  unfolding switch
  typed msg = catch_json (do msg_type ← lift (get_int (at msg 0)); switch msg_type msg) parse_error

  abbrev headed : Json → Exec S Bool
  headed msg =
      if not (is_number_integer (at msg 0))
      then refuse (text "message type must be integer")
      else typed msg

  sized : Json → Exec S Bool
  unfolding typed
  sized msg = if ltb (size msg) 1 then refuse (text "message array is empty") else headed msg

  checked : Json → Exec S Bool
  unfolding sized
  checked msg = if not (is_array msg) then refuse (text "message must be array") else sized msg

  unfoldable pub handle_message : Json → Exec S Bool
  unfolding checked
  handle_message msg = do modify (set_error []); checked msg
