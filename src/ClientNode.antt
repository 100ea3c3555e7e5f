-- ===== src/ClientNode.antt =====
-- src/olink/clientnode.h and clientnode.cpp: `ClientNode`, the client's end of a connection. Sinks
-- and reply functions are user code, which may do anything to the world, calls of this node
-- included, and may throw: they are parameters.
use objectlink_core_cpp.Prelude.{
  ℕ, ◌+◌, ◌-◌, ◌%◌, ◌^◌, Bool, true, false, ◌||◌, List, [], ◌∷◌, Option, none, some, Str, text,
  if◌then◌else◌,
}
use objectlink_core_cpp.Exec.{Exec, pure, gets, modify, when, ◌>>=◌, ◌>>◌}
use objectlink_core_cpp.Types.{LogLevel, ℤ, pos, negsuc, MsgType, is_code}
use objectlink_core_cpp.Map.{nat_key, Map, find, insert, erase}
use objectlink_core_cpp.Storage.{WeakPtr, invalid_id, lock}
use objectlink_core_cpp.Name
use objectlink_core_cpp.Json.{JsonLib}
use objectlink_core_cpp.Logger.{decimal, decimal_ℤ}
use objectlink_core_cpp.World.{World}
use objectlink_core_cpp.Protocol.{
  Listener, link_message, unlink_message, invoke_message, set_property_message,
}
use objectlink_core_cpp.BaseNode
use objectlink_core_cpp.BaseNode.{Node, log, log_payload, emit_write}
use objectlink_core_cpp.ClientRegistry
use objectlink_core_cpp.ClientRegistry.{ClientRegistry}
pub mod Invokes
pub mod Interface
pub mod Sinks
pub mod Threads
pub mod Shutdown

-- The members of `ClientNode` besides the registry. A reply function is known by a number; `none` is
-- `nullptr`.
pub record Client : Type 0 where
  pub node_id : ℕ
  pub next_request_id : ℕ
  pub invokes_pending : Map ℕ (Option ℕ)

abbrev pub ClientWorld : Type 0
ClientWorld = World (Node Client) ClientRegistry

-- IObjectSink and InvokeReplyFunc
pub record ClientUser (J : JsonLib) : Type 0 where
  pub on_init : ℕ → Str → J.Json → Exec ClientWorld Unit
  pub on_property_changed : ℕ → Str → J.Json → Exec ClientWorld Unit
  pub on_signal : ℕ → Str → J.Json → Exec ClientWorld Unit
  pub on_release : ℕ → Exec ClientWorld Unit
  -- the function, the method id and the value
  pub on_reply : ℕ → Str → J.Json → Exec ClientWorld Unit

-- ClientNode::create, with the number of the new node
unfoldable pub create : {N : Type 0} → ℕ → Exec (World N ClientRegistry) (Node Client)
create self = do
  id ← ClientRegistry.register_node (some self)
  pure (record {
    base = BaseNode.init;
    derived = record { node_id = id; next_request_id = 0; invokes_pending = [] };
  })

-- static_cast<unsigned int>
unfoldable pub to_uint : ℤ → ℕ
to_uint (pos n) = n % 2 ^ 32
to_uint (negsuc n) = 2 ^ 32 - 1 - n % 2 ^ 32

abbrev pub set_client : Client → Exec ClientWorld Unit
set_client c = modify (λ w. record w { node = record w.node { derived = c } })

unfoldable pub next_request_id : Exec ClientWorld ℕ
next_request_id = do
  c ← gets (λ w. w.node.derived)
  let id = (c.next_request_id + 1) % 2 ^ 32
  set_client (record c { next_request_id = id })
  pure id

-- The locked part of `invokeRemote`.
unfoldable pub enter_invoke : Option ℕ → Exec ClientWorld ℕ
unfolding next_request_id
enter_invoke func = do
  request_id ← next_request_id
  c ← gets (λ w. w.node.derived)
  set_client (record c { invokes_pending = insert request_id func c.invokes_pending })
  pure request_id

take_found : ℕ → Option (Option ℕ) → Exec ClientWorld (Option ℕ)
take_found request_id none = pure none
take_found request_id (some func) = do
  c ← gets (λ w. w.node.derived)
  set_client (record c { invokes_pending = erase request_id c.invokes_pending })
  pure func

-- The locked part of `handleInvokeReply` and `handleError`: the reply function, which is taken out.
unfoldable pub take_invoke : ℕ → Exec ClientWorld (Option ℕ)
unfolding take_found
take_invoke request_id = do
  found ← gets (λ w. find request_id w.node.derived.invokes_pending)
  take_found request_id found

module _ (J : JsonLib) (user : ClientUser J) where
  open user use {on_init, on_property_changed, on_signal, on_release, on_reply}

  unfoldable pub link_remote : Str → Exec ClientWorld Unit
  link_remote object_id = do
    log LogLevel.info (text "ClientNode.linkRemote: " ∷ object_id ∷ [])
    emit_write J (link_message J object_id)
    ClientRegistry.unset_node object_id
    id ← gets (λ w. w.node.derived.node_id)
    ClientRegistry.set_node id object_id

  -- m_registry.getSink(objectId).lock()
  unfoldable pub find_sink : Str → Exec ClientWorld (Option ℕ)
  find_sink object_id = do sink ← ClientRegistry.get_sink object_id; gets (λ w. lock w.live sink)

  release : Option ℕ → Exec ClientWorld Unit
  release none = pure tt
  release (some sink) = on_release sink

  unfoldable pub unlink_remote : Str → Exec ClientWorld Unit
  unfolding find_sink release
  unlink_remote object_id = do
    log LogLevel.info (text "ClientNode.unlinkRemote: " ∷ object_id ∷ [])
    sink ← find_sink object_id
    release sink
    emit_write J (unlink_message J object_id)
    ClientRegistry.unset_node object_id

  unfoldable pub invoke_remote : Str → J.Json → Option ℕ → Exec ClientWorld Unit
  invoke_remote method_id args func = do
    log LogLevel.info (text "ClientNode.invokeRemote: " ∷ method_id ∷ [])
    request_id ← enter_invoke func
    emit_write J (invoke_message J request_id method_id args)

  unfoldable pub set_remote_property : Str → J.Json → Exec ClientWorld Unit
  set_remote_property property_id value = do
    log LogLevel.info (text "ClientNode.setRemoteProperty: " ∷ property_id ∷ [])
    emit_write J (set_property_message J property_id value)

  unlink_each : List Str → Exec ClientWorld Unit
  unfolding unlink_remote
  unlink_each [] = pure tt
  unlink_each (id ∷ ids) = do unlink_remote id; unlink_each ids

  -- ~ClientNode
  unfoldable pub destroy : Exec ClientWorld Unit
  unfolding unlink_each
  destroy = do
    id ← gets (λ w. w.node.derived.node_id)
    ids ← ClientRegistry.get_object_ids id
    unlink_each ids
    ClientRegistry.unregister_node id

  no_sink : Str → Str → Exec ClientWorld Unit
  no_sink message object_id = log LogLevel.warning (message ∷ object_id ∷ [])

  with_sink : Option ℕ → (ℕ → Exec ClientWorld Unit) → Str → Str → Exec ClientWorld Unit
  unfolding no_sink
  with_sink none call message object_id = no_sink message object_id
  with_sink (some sink) call message object_id = call sink

  unfoldable pub handle_init : Str → J.Json → Exec ClientWorld Unit
  unfolding with_sink find_sink
  handle_init object_id props = do
    log_payload J LogLevel.info props (text "ClientNode.handleInit: " ∷ object_id ∷ [])
    sink ← find_sink object_id
    with_sink sink (λ s. on_init s object_id props) (text "No sink found for id ") object_id

  unfoldable pub handle_property_change : Str → J.Json → Exec ClientWorld Unit
  unfolding with_sink find_sink
  handle_property_change property_id value = do
    log_payload J LogLevel.info value (text "ClientNode.handlePropertyChange: " ∷ property_id ∷ [])
    sink ← find_sink (Name.get_object_id property_id)
    with_sink sink (λ s. on_property_changed s property_id value) (text "No sink found for id ")
        (Name.get_object_id property_id)

  unfoldable pub handle_signal : Str → J.Json → Exec ClientWorld Unit
  unfolding with_sink find_sink
  handle_signal signal_id args = do
    log LogLevel.info (text "ClientNode.handleSignal: " ∷ signal_id ∷ [])
    sink ← find_sink (Name.get_object_id signal_id)
    with_sink sink (λ s. on_signal s signal_id args) (text "No sink found for id")
        (Name.get_object_id signal_id)

  reply_or_warn : Option ℕ → ℕ → Str → J.Json → Exec ClientWorld Unit
  reply_or_warn none request_id method_id value =
      log LogLevel.warning (text "no pending invoke " ∷ method_id ∷ decimal request_id ∷ [])
  reply_or_warn (some func) request_id method_id value = on_reply func method_id value

  unfoldable pub handle_invoke_reply : ℕ → Str → J.Json → Exec ClientWorld Unit
  unfolding reply_or_warn
  handle_invoke_reply request_id method_id value = do
    log_payload J LogLevel.info value (text "ClientNode.handleInvokeReply: " ∷ method_id ∷ [])
    callback ← take_invoke request_id
    reply_or_warn callback request_id method_id value

  reply_empty : Option ℕ → Exec ClientWorld Unit
  reply_empty none = pure tt
  reply_empty (some func) = on_reply func [] J.null

  unfoldable pub handle_error : ℤ → ℤ → Str → Exec ClientWorld Unit
  unfolding reply_empty
  handle_error msg_type request_id error = do
    log LogLevel.info
        (text "ClientNode.handleError: " ∷ decimal_ℤ msg_type ∷ decimal_ℤ request_id ∷ error ∷ [])
    when (is_code msg_type MsgType.invoke || is_code msg_type MsgType.invoke_reply)
        do callback ← take_invoke (to_uint request_id); reply_empty callback

  -- The handlers of a client node; those for the messages to a server are `BaseNode`'s.
  abbrev pub listener : Listener J ClientWorld
  listener = record {
    handle_link = BaseNode.handle_link J;
    handle_unlink = BaseNode.handle_unlink J;
    handle_init = handle_init;
    handle_set_property = BaseNode.handle_set_property J;
    handle_property_change = handle_property_change;
    handle_invoke = BaseNode.handle_invoke J;
    handle_invoke_reply = handle_invoke_reply;
    handle_signal = handle_signal;
    handle_error = handle_error;
  }

  unfoldable pub handle_message : Str → Exec ClientWorld Unit
  handle_message = BaseNode.handle_message J listener
