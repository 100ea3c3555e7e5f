-- ===== src/Tests/Unlinks.antt =====
-- An unlink and a signal on concrete values.
use objectlink_core_cpp.Prelude.{◌≡◌, refl, false, ◌++◌, [], ◌∷◌, some, Str, text, arith, str_beq}
use objectlink_core_cpp.Exec.{ok}
use objectlink_core_cpp.Types.{LogLevel, MessageFormat}
use objectlink_core_cpp.Map.{str_key, nat_key, find, elem}
use objectlink_core_cpp.Storage.{lock}
use objectlink_core_cpp.Name
use objectlink_core_cpp.Logger.{log_target}
use objectlink_core_cpp.World.{wrote, marked}
use objectlink_core_cpp.Protocol.{unlink_message, signal_message}
use objectlink_core_cpp.BaseNode.{set_error}
use objectlink_core_cpp.BaseNode.Outgoing.{IsQuiet}
use objectlink_core_cpp.ClientRegistry.{sink_of}
use objectlink_core_cpp.ClientRegistry.Entries.{without_node}
use objectlink_core_cpp.ClientNode
use objectlink_core_cpp.ClientNode.{ClientWorld, unlink_remote}
use objectlink_core_cpp.ClientNode.Sinks.{HasSink}
use objectlink_core_cpp.RemoteRegistry.{source_of}
use objectlink_core_cpp.RemoteRegistry.Invariant.{HasNodup}
use objectlink_core_cpp.RemoteRegistry.Linking.{lists}
use objectlink_core_cpp.RemoteNode
use objectlink_core_cpp.RemoteNode.{RemoteWorld, notify_signal}
use objectlink_core_cpp.RemoteNode.Sources as Sources
use objectlink_core_cpp.RemoteNode.Sources.{HasSource}
use objectlink_core_cpp.Session.{Arrives}
use objectlink_core_cpp.Session.Signals.{signal_reaches}
use objectlink_core_cpp.Session.Unlinking.{after_unlink, after_unlisting, unlink_unlists}
use objectlink_core_cpp.Tests.Toy.{lib, null, values, print}
use objectlink_core_cpp.Tests.Clients.{client, client_user, client-IsSilent}
use objectlink_core_cpp.Tests.Remotes.{remote, remote_user}

-- the remote node with the object linked
abbrev linked : RemoteWorld
linked = record remote {
  registry = record remote.registry {
    entries = (text "demo", record { source = some 7; nodes = 3 ∷ [] }) ∷ [];
  };
}

linked-IsSilent : Sources.IsSilent linked
unfolding log_target
linked-IsSilent = record { node = refl; registry = refl }

linked-HasSource : HasSource (text "demo") 7 linked
unfolding lock source_of find str_beq
linked-HasSource = refl

client-HasSink : HasSink (text "demo") 7 client
unfolding lock sink_of find str_beq
client-HasSink = refl

abbrev unlink_text : Str
unlink_text = print (unlink_message lib (text "demo"))

unlink_encoded : lib.encode MessageFormat.json (unlink_message lib (text "demo")) ≡ ok unlink_text
unfolding unlink_message
unlink_encoded = refl

unlink-Arrives :
    Arrives lib linked.node.base.converter (unlink_message lib (text "demo")) unlink_text
unfolding unlink_message
unlink-Arrives = record { decoded = refl; kept = refl; short = omega arith }

-- the client when the sink was released
abbrev released : ClientWorld
released = record client { trace = marked 7 [] ∷ [] }

released-IsQuiet : IsQuiet LogLevel.debug released
unfolding log_target
released-IsQuiet = refl

-- the remote node when the source was told
abbrev told : RemoteWorld
told = let w = set_error [] linked in record w { trace = marked 7 (text "demo") ∷ [] }

listed_once : HasNodup (find (text "demo") told.registry.entries)
unfolding find str_beq set_error elem
listed_once = (refl, tt)

source_told : remote_user.on_unlinked 7 (text "demo") (set_error [] linked) ≡ (ok tt, told)
unfolding set_error
source_told = refl

unlink_unlists_example :
    (unlink_remote lib client_user (text "demo") client ≡ (
      ok tt,
      after_unlink lib values client_user remote_user (text "demo") 4 unlink_text released,
    ))
    × (find
          (text "demo")
          (after_unlink lib values client_user remote_user
            (text "demo")
            4
            unlink_text
            released).registry.entries
        ≡ without_node (find (text "demo") released.registry.entries))
    × (RemoteNode.handle_message lib remote_user unlink_text linked
        ≡ (ok tt, after_unlisting lib values client_user remote_user (text "demo") told))
    × (lists told.node.derived.node_id (
          find
            (text "demo")
            (after_unlisting lib values client_user remote_user
              (text "demo")
              told).registry.entries)
        ≡ false)
unlink_unlists_example =
    unlink_unlists lib values client_user remote_user (text "demo") 7 7 4 unlink_text client
      released linked told client-IsSilent client-HasSink refl released-IsQuiet refl unlink_encoded
      unlink-Arrives linked-IsSilent linked-HasSource source_told listed_once

abbrev signal_text : Str
signal_text = print (signal_message lib (text "demo/hit") null)

signal_encoded :
    lib.encode MessageFormat.json (signal_message lib (text "demo/hit") null) ≡ ok signal_text
unfolding signal_message
signal_encoded = refl

signal-Arrives :
    Arrives lib client.node.base.converter (signal_message lib (text "demo/hit") null) signal_text
unfolding signal_message
signal-Arrives = record { decoded = refl; kept = refl; short = omega arith }

remote-IsQuiet : IsQuiet LogLevel.debug remote
unfolding log_target
remote-IsQuiet = refl

member-HasSink : HasSink (Name.get_object_id (text "demo/hit")) 7 client
unfolding lock sink_of find str_beq Name.get_object_id
member-HasSink = refl

-- the client when the sink was told
abbrev shown : ClientWorld
shown = let w = set_error [] client in record w { trace = marked 7 (text "demo/hit") ∷ [] }

sink_shown : client_user.on_signal 7 (text "demo/hit") null (set_error [] client) ≡ (ok tt, shown)
unfolding set_error
sink_shown = refl

signal_reaches_example :
    (notify_signal lib remote_user (text "demo/hit") null remote
      ≡ (ok tt, record remote { trace = remote.trace ++ wrote 4 signal_text ∷ [] }))
    × (ClientNode.handle_message lib client_user signal_text client ≡ (
      ok tt,
      let w = set_error [] client in record w { trace = marked 7 (text "demo/hit") ∷ [] },
    ))
signal_reaches_example =
    signal_reaches lib values client_user remote_user (text "demo/hit") null 7 4 signal_text client
      _ remote remote-IsQuiet refl signal_encoded signal-Arrives client-IsSilent member-HasSink
      sink_shown
