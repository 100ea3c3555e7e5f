-- ===== src/RemoteNode.antt =====
-- src/olink/remotenode.h and remotenode.cpp: `RemoteNode`, the server's end of a connection. Sources
-- are user code, which may do anything to the world and may throw: they are parameters.
use objectlink_core_cpp.Prelude.{ℕ, [], ◌∷◌, Option, none, some, Str, text}
use objectlink_core_cpp.Exec.{Exec, pure, gets, ◌>>=◌, ◌>>◌}
use objectlink_core_cpp.Types.{LogLevel}
use objectlink_core_cpp.Storage.{lock}
use objectlink_core_cpp.Name
use objectlink_core_cpp.Json.{JsonLib}
use objectlink_core_cpp.World.{World}
use objectlink_core_cpp.Protocol.{
  Listener, init_message, invoke_reply_message, property_change_message, signal_message,
}
use objectlink_core_cpp.BaseNode
use objectlink_core_cpp.BaseNode.{Node, log, emit_write}
use objectlink_core_cpp.RemoteRegistry
use objectlink_core_cpp.RemoteRegistry.{RemoteRegistry}
pub mod Sources

-- The members of `RemoteNode` besides the registry.
pub record Remote : Type 0 where
  pub node_id : ℕ

abbrev pub RemoteWorld : Type 0
RemoteWorld = World (Node Remote) RemoteRegistry

-- IObjectSource
pub record RemoteUser (J : JsonLib) : Type 0 where
  pub on_invoke : ℕ → Str → J.Json → Exec RemoteWorld J.Json
  pub on_set_property : ℕ → Str → J.Json → Exec RemoteWorld Unit
  pub on_linked : ℕ → Str → Exec RemoteWorld Unit
  pub on_unlinked : ℕ → Str → Exec RemoteWorld Unit
  pub collect_properties : ℕ → Exec RemoteWorld J.Json

-- RemoteNode::createRemoteNode, with the number of the new node
unfoldable pub create_remote_node : {N : Type 0} → ℕ → Exec (World N RemoteRegistry) (Node Remote)
create_remote_node self = do
  id ← RemoteRegistry.register_node (some self)
  pure (record { base = BaseNode.init; derived = record { node_id = id } })

-- ~RemoteNode
unfoldable pub destroy : Exec RemoteWorld Unit
destroy = do id ← gets (λ w. w.node.derived.node_id); RemoteRegistry.unregister_node id

-- m_registry.getSource(objectId).lock()
unfoldable pub find_source : Str → Exec RemoteWorld (Option ℕ)
find_source object_id = do
  source ← RemoteRegistry.get_source object_id
  gets (λ w. lock w.live source)

module _ (J : JsonLib) (user : RemoteUser J) where
  open user use {on_invoke, on_set_property, on_linked, on_unlinked, collect_properties}

  link_source : Option ℕ → Str → Exec RemoteWorld Unit
  link_source none object_id = log LogLevel.warning (text "no source to link: " ∷ object_id ∷ [])
  link_source (some source) object_id = do
    id ← gets (λ w. w.node.derived.node_id)
    RemoteRegistry.add_node_for_source id object_id
    on_linked source object_id
    props ← collect_properties source
    emit_write J (init_message J object_id props)

  unfoldable pub handle_link : Str → Exec RemoteWorld Unit
  unfolding link_source find_source
  handle_link object_id = do
    log LogLevel.info (text "handleLink name: " ∷ object_id ∷ [])
    source ← find_source object_id
    link_source source object_id

  unlink_source : Option ℕ → Str → Exec RemoteWorld Unit
  unlink_source none object_id = pure tt
  unlink_source (some source) object_id = do
    on_unlinked source object_id
    id ← gets (λ w. w.node.derived.node_id)
    RemoteRegistry.remove_node_from_source id object_id

  unfoldable pub handle_unlink : Str → Exec RemoteWorld Unit
  unfolding unlink_source find_source
  handle_unlink object_id = do source ← find_source object_id; unlink_source source object_id

  set_source_property : Option ℕ → Str → J.Json → Exec RemoteWorld Unit
  set_source_property none property_id value = pure tt
  set_source_property (some source) property_id value = on_set_property source property_id value

  unfoldable pub handle_set_property : Str → J.Json → Exec RemoteWorld Unit
  unfolding set_source_property find_source
  handle_set_property property_id value = do
    source ← find_source (Name.get_object_id property_id)
    set_source_property source property_id value

  invoke_source : Option ℕ → ℕ → Str → J.Json → Exec RemoteWorld Unit
  invoke_source none request_id method_id args = pure tt
  invoke_source (some source) request_id method_id args = do
    value ← on_invoke source method_id args
    emit_write J (invoke_reply_message J request_id method_id value)

  unfoldable pub handle_invoke : ℕ → Str → J.Json → Exec RemoteWorld Unit
  unfolding invoke_source find_source
  handle_invoke request_id method_id args = do
    source ← find_source (Name.get_object_id method_id)
    invoke_source source request_id method_id args

  unfoldable pub notify_property_change : Str → J.Json → Exec RemoteWorld Unit
  notify_property_change property_id value =
      emit_write J (property_change_message J property_id value)

  unfoldable pub notify_signal : Str → J.Json → Exec RemoteWorld Unit
  notify_signal signal_id args = emit_write J (signal_message J signal_id args)

  -- The handlers of a remote node; those for the messages to a client are `BaseNode`'s.
  abbrev pub listener : Listener J RemoteWorld
  listener = record {
    handle_link = handle_link;
    handle_unlink = handle_unlink;
    handle_init = BaseNode.handle_init J;
    handle_set_property = handle_set_property;
    handle_property_change = BaseNode.handle_property_change J;
    handle_invoke = handle_invoke;
    handle_invoke_reply = BaseNode.handle_invoke_reply J;
    handle_signal = BaseNode.handle_signal J;
    handle_error = BaseNode.handle_error J;
  }

  unfoldable pub handle_message : Str → Exec RemoteWorld Unit
  handle_message = BaseNode.handle_message J listener
