-- ===== src/Session/Signals.antt =====
-- A remote node tells a client node of a signal: src/olink/remotenode.cpp and clientnode.cpp together.
use objectlink_core_cpp.Prelude.{ℕ, ◌≡◌, ◌∙◌, [], ◌∷◌, ◌++◌, some, Str}
use objectlink_core_cpp.Exec.{ok}
use objectlink_core_cpp.Types.{LogLevel}
use objectlink_core_cpp.Name
use objectlink_core_cpp.Json.{JsonLib, ValueLaws}
use objectlink_core_cpp.World.{wrote}
use objectlink_core_cpp.Protocol.{signal_message}
use objectlink_core_cpp.Protocol.Message.{signal}
use objectlink_core_cpp.BaseNode.{set_error}
use objectlink_core_cpp.BaseNode.Incoming.{handle_message_receives}
use objectlink_core_cpp.BaseNode.Outgoing.{IsQuiet, emit_write_writes}
use objectlink_core_cpp.ClientNode
use objectlink_core_cpp.ClientNode.{ClientWorld, ClientUser}
use objectlink_core_cpp.ClientNode.Sinks.{IsSilent, HasSink, handle_signal_calls}
use objectlink_core_cpp.RemoteNode.{RemoteWorld, RemoteUser, notify_signal}
use objectlink_core_cpp.Session.{Arrives, finish-delivered}

module _ (J : JsonLib) (L : ValueLaws J) (client_user : ClientUser J)
    (remote_user : RemoteUser J) where
  -- A signal: when its text arrives as it was written and nothing is logged, `notifySignal` writes
  -- one text, and the client that gets it hands the signal with its arguments to the live sink of
  -- the object that the name begins with.
  pub signal_reaches :
      (g : Str) (args : J.Json) (sink rf : ℕ) (a : Str) (c c' : ClientWorld) (r : RemoteWorld)
      → IsQuiet LogLevel.debug r
      → r.node.base.write_func ≡ some rf
      → J.encode r.node.base.converter.format (signal_message J g args) ≡ ok a
      → Arrives J c.node.base.converter (signal_message J g args) a
      → IsSilent c
      → HasSink (Name.get_object_id g) sink c
      → client_user.on_signal sink g args (set_error [] c) ≡ (ok tt, c')
      → (notify_signal J remote_user g args r
          ≡ (ok tt, record r { trace = r.trace ++ wrote rf a ∷ [] }))
        × (ClientNode.handle_message J client_user a c ≡ (ok tt, c'))
  unfolding ClientNode.handle_message notify_signal set_error
  signal_reaches g args sink rf a c c' r quiet writes encoded t silent has_sink shown = (
    emit_write_writes J (signal_message J g args) rf a r quiet writes encoded,
    handle_message_receives J (ClientNode.listener J client_user) L a (signal g args) c tt t.short
          t.decoded t.kept
        ∙ finish-delivered J (ClientNode.listener J client_user) (signal g args) c _ (
            handle_signal_calls J client_user g args sink (set_error [] c)
              (record { node = silent.node; registry = silent.registry }) has_sink
            ∙ shown),
  )
