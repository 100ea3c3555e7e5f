-- ===== src/Tests/Properties.antt =====
-- A property that is set, and told, on concrete values.
use objectlink_core_cpp.Prelude.{◌≡◌, refl, ◌++◌, [], ◌∷◌, Str, text, arith, str_beq}
use objectlink_core_cpp.Exec.{ok, ◌>>◌}
use objectlink_core_cpp.Types.{pos, LogLevel, MessageFormat}
use objectlink_core_cpp.Map.{str_key, find}
use objectlink_core_cpp.Name
use objectlink_core_cpp.Storage.{lock}
use objectlink_core_cpp.Logger.{log_target}
use objectlink_core_cpp.World.{wrote, marked, emit}
use objectlink_core_cpp.Protocol.{set_property_message, property_change_message}
use objectlink_core_cpp.BaseNode.{set_error}
use objectlink_core_cpp.BaseNode.Outgoing.{IsQuiet}
use objectlink_core_cpp.ClientRegistry.{sink_of}
use objectlink_core_cpp.ClientNode
use objectlink_core_cpp.ClientNode.{ClientWorld, set_remote_property}
use objectlink_core_cpp.ClientNode.Sinks.{HasSink}
use objectlink_core_cpp.RemoteNode
use objectlink_core_cpp.RemoteNode.{RemoteWorld, RemoteUser, notify_property_change}
use objectlink_core_cpp.Session.{Arrives}
use objectlink_core_cpp.Session.Properties.{after_set, property_returns}
use objectlink_core_cpp.Tests.Toy.{lib, values, print}
use objectlink_core_cpp.Tests.Clients.{client, client_user, client-IsQuiet_debug, client-IsSilent}
use objectlink_core_cpp.Tests.Remotes.{remote, remote_user, remote-IsSilent, has_member_source}

-- A source that marks a set property and tells that it is 5.
abbrev telling_user : RemoteUser lib
telling_user = record remote_user {
  on_set_property =
      λ s p v. emit (marked s p) >> notify_property_change lib remote_user p (lib.of_int (pos 5));
}

abbrev set_text : Str
set_text = print (set_property_message lib (text "demo/inc") (lib.of_int (pos 9)))

abbrev change_text : Str
change_text = print (property_change_message lib (text "demo/inc") (lib.of_int (pos 5)))

set-Arrives :
    Arrives lib remote.node.base.converter
      (set_property_message lib (text "demo/inc") (lib.of_int (pos 9)))
      set_text
unfolding set_property_message
set-Arrives = record { decoded = refl; kept = refl; short = omega arith }

change-Arrives :
    Arrives lib client.node.base.converter
      (property_change_message lib (text "demo/inc") (lib.of_int (pos 5)))
      change_text
unfolding property_change_message
change-Arrives = record { decoded = refl; kept = refl; short = omega arith }

set_encoded :
    lib.encode MessageFormat.json (set_property_message lib (text "demo/inc") (lib.of_int (pos 9)))
    ≡ ok set_text
unfolding set_property_message
set_encoded = refl

change_encoded :
    lib.encode MessageFormat.json
      (property_change_message lib (text "demo/inc") (lib.of_int (pos 5)))
    ≡ ok change_text
unfolding property_change_message
change_encoded = refl

-- the remote node when the source got the value
abbrev marked_remote : RemoteWorld
marked_remote = record remote { trace = marked 7 (text "demo/inc") ∷ [] }

marked_remote-IsQuiet : IsQuiet LogLevel.debug marked_remote
unfolding log_target
marked_remote-IsQuiet = refl

source_tells :
    telling_user.on_set_property 7 (text "demo/inc") (lib.of_int (pos 9)) (set_error [] remote)
    ≡ notify_property_change lib telling_user (text "demo/inc") (lib.of_int (pos 5)) marked_remote
unfolding notify_property_change set_error
source_tells = refl

has_sink : HasSink (Name.get_object_id (text "demo/inc")) 7 client
unfolding lock sink_of find str_beq Name.get_object_id
has_sink = refl

abbrev waiting : ClientWorld
waiting = after_set lib values client_user telling_user 4 set_text client

-- the client when the sink was told
abbrev shown : ClientWorld
shown =
    let w = set_error [] waiting in record w { trace = w.trace ++ marked 7 (text "demo/inc") ∷ [] }

property_returns_example :
    (set_remote_property lib client_user (text "demo/inc") (lib.of_int (pos 9)) client
      ≡ (ok tt, waiting))
    × (RemoteNode.handle_message lib telling_user set_text remote
        ≡ (ok tt, record marked_remote { trace = marked_remote.trace ++ wrote 4 change_text ∷ [] }))
    × (ClientNode.handle_message lib client_user change_text waiting ≡ (ok tt, shown))
property_returns_example =
    property_returns lib values client_user telling_user (text "demo/inc") (lib.of_int (pos 9))
      (lib.of_int (pos 5)) 7 7 4 4 set_text change_text client shown remote marked_remote
      client-IsSilent client-IsQuiet_debug refl set_encoded set-Arrives remote-IsSilent
      has_member_source source_tells marked_remote-IsQuiet refl change_encoded change-Arrives
      has_sink refl
