-- ===== src/Session/Properties.antt =====
-- A client node sets a property of an object of a remote node, whose source tells what it is then:
-- src/olink/clientnode.cpp and remotenode.cpp together.
use objectlink_core_cpp.Prelude.{ℕ, ◌≡◌, ◌∙◌, [], ◌∷◌, ◌++◌, some, Str, text}
use objectlink_core_cpp.Exec.{ok}
use objectlink_core_cpp.Types.{LogLevel}
use objectlink_core_cpp.Name
use objectlink_core_cpp.Json.{JsonLib, ValueLaws}
use objectlink_core_cpp.World.{wrote}
use objectlink_core_cpp.Protocol.{set_property_message, property_change_message}
use objectlink_core_cpp.Protocol.Message.{set_property, property_change}
use objectlink_core_cpp.BaseNode.{set_error}
use objectlink_core_cpp.BaseNode.Incoming.{handle_message_receives}
use objectlink_core_cpp.BaseNode.Outgoing.{IsQuiet, emit_write_writes, log_quiet}
use objectlink_core_cpp.ClientNode
use objectlink_core_cpp.ClientNode.{ClientWorld, ClientUser, set_remote_property}
use objectlink_core_cpp.ClientNode.Sinks as Sinks
use objectlink_core_cpp.ClientNode.Sinks.{HasSink, handle_property_change_calls}
use objectlink_core_cpp.RemoteNode
use objectlink_core_cpp.RemoteNode.{RemoteWorld, RemoteUser, notify_property_change}
use objectlink_core_cpp.RemoteNode.Sources as Sources
use objectlink_core_cpp.RemoteNode.Sources.{HasSource, handle_set_property_calls}
use objectlink_core_cpp.Session.{Arrives, finish-delivered}

module _ (J : JsonLib) (L : ValueLaws J) (client_user : ClientUser J)
    (remote_user : RemoteUser J) where
  abbrev pub after_set : ℕ → Str → ClientWorld → ClientWorld
  after_set func q c = record c { trace = c.trace ++ wrote func q ∷ [] }

  -- A property set and told: when the texts arrive as they were written, and nothing is logged,
  -- `setRemoteProperty` writes one text; the remote node that gets it hands the value to the live
  -- source of the object, and if that tells what the property is then, writes that; and the client
  -- that gets this next hands it to the live sink.
  pub property_returns :
      (p : Str) (value now : J.Json) (source sink cf rf : ℕ) (q a : Str) (c c' : ClientWorld)
      (r r' : RemoteWorld)
      → Sinks.IsSilent c
      → IsQuiet LogLevel.debug c
      → c.node.base.write_func ≡ some cf
      → J.encode c.node.base.converter.format (set_property_message J p value) ≡ ok q
      → Arrives J r.node.base.converter (set_property_message J p value) q
      → Sources.IsSilent r
      → HasSource (Name.get_object_id p) source r
      → remote_user.on_set_property source p value (set_error [] r)
        ≡ notify_property_change J remote_user p now r'
      → IsQuiet LogLevel.debug r'
      → r'.node.base.write_func ≡ some rf
      → J.encode r'.node.base.converter.format (property_change_message J p now) ≡ ok a
      → Arrives J c.node.base.converter (property_change_message J p now) a
      → HasSink (Name.get_object_id p) sink c
      → client_user.on_property_changed sink p now (set_error [] (after_set cf q c)) ≡ (ok tt, c')
      → (set_remote_property J client_user p value c ≡ (ok tt, after_set cf q c))
        × (RemoteNode.handle_message J remote_user q r
            ≡ (ok tt, record r' { trace = r'.trace ++ wrote rf a ∷ [] }))
        × (ClientNode.handle_message J client_user a (after_set cf q c) ≡ (ok tt, c'))
  unfolding set_remote_property RemoteNode.handle_message ClientNode.handle_message
      notify_property_change set_error
  property_returns p value now source sink cf rf q a c c' r r' sc qd wc ec there sr has_source tells
        qr wr er back has_sink shown =
      (
        simp (log_quiet LogLevel.info (text "ClientNode.setRemoteProperty: " ∷ p ∷ []) c sc.node)
            (emit_write_writes J (set_property_message J p value) cf q c qd wc ec),
        handle_message_receives J (RemoteNode.listener J remote_user) L q (set_property p value) r
              tt there.short there.decoded there.kept
            ∙ finish-delivered J (RemoteNode.listener J remote_user) (set_property p value) r _ (
                handle_set_property_calls J remote_user p value source (set_error [] r)
                  (record { node = sr.node; registry = sr.registry }) has_source
                ∙ tells
                ∙ emit_write_writes J (property_change_message J p now) rf a r' qr wr er),
        handle_message_receives J (ClientNode.listener J client_user) L a (property_change p now)
              (after_set cf q c) tt back.short back.decoded back.kept
            ∙ finish-delivered J (ClientNode.listener J client_user) (property_change p now)
                (after_set cf q c) _
                (handle_property_change_calls J client_user p now sink
                    (set_error [] (after_set cf q c))
                    (record { node = sc.node; registry = sc.registry }) has_sink
                  ∙ shown),
      )
