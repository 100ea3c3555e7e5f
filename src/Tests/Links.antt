-- ===== src/Tests/Links.antt =====
-- A link of an object on concrete values.
use objectlink_core_cpp.Prelude.{
  ap, ◌≡◌, refl, true, ◌++◌, [], ◌∷◌, some, Str, text, arith, str_beq,
}
use objectlink_core_cpp.Exec.{ok}
use objectlink_core_cpp.Types.{LogLevel}
use objectlink_core_cpp.Map.{str_key, nat_key, find}
use objectlink_core_cpp.Storage.{lock}
use objectlink_core_cpp.Logger.{log_target}
use objectlink_core_cpp.World.{wrote, marked}
use objectlink_core_cpp.Protocol.{link_message, init_message}
use objectlink_core_cpp.BaseNode.{set_error}
use objectlink_core_cpp.BaseNode.Outgoing.{IsQuiet}
use objectlink_core_cpp.ClientRegistry.{sink_of}
use objectlink_core_cpp.ClientNode
use objectlink_core_cpp.ClientNode.{ClientWorld, link_remote}
use objectlink_core_cpp.ClientNode.Sinks.{HasSink, linked}
use objectlink_core_cpp.RemoteRegistry.Linking.{lists}
use objectlink_core_cpp.RemoteRegistry.Calls.{add_node_for_source_lem}
use objectlink_core_cpp.RemoteNode
use objectlink_core_cpp.RemoteNode.{RemoteWorld}
use objectlink_core_cpp.Session.{Arrives}
use objectlink_core_cpp.Session.Linking.{after_link, after_listing, link_inits}
use objectlink_core_cpp.Tests.Toy.{lib, null, values, print}
use objectlink_core_cpp.Tests.Clients.{
  client, client_user, client-IsSilent, client-IsQuiet_debug, link_text, link_encoded,
}
use objectlink_core_cpp.Tests.Remotes.{
  remote, remote_user, remote-IsSilent, has_source, entry, entry_there, node_there,
}

has_sink : HasSink (text "demo") 7 client
unfolding lock sink_of find str_beq
has_sink = refl

link-Arrives : Arrives lib remote.node.base.converter (link_message lib (text "demo")) link_text
unfolding link_message
link-Arrives = record { decoded = refl; kept = refl; short = omega arith }

abbrev init_text : Str
init_text = print (init_message lib (text "demo") null)

init-Arrives :
    Arrives lib client.node.base.converter (init_message lib (text "demo") null) init_text
unfolding init_message
init-Arrives = record { decoded = refl; kept = refl; short = omega arith }

abbrev linking : ClientWorld
linking = after_link lib values client_user remote_user (text "demo") 4 link_text client

abbrev listing : RemoteWorld
listing = after_listing lib values client_user remote_user (text "demo") remote

-- the remote node when the source was told
abbrev told : RemoteWorld
told = record listing { trace = listing.trace ++ marked 7 (text "demo") ∷ [] }

-- the client when the sink was told
abbrev shown : ClientWorld
shown = let w = set_error [] linking in record w { trace = w.trace ++ marked 7 (text "demo") ∷ [] }

told_node : told.node ≡ (set_error [] remote).node
told_node = ap (λ r. r.1.node) (add_node_for_source_lem (set_error [] remote) 3 (text "demo"))

told-IsQuiet : IsQuiet LogLevel.debug told
unfolding log_target set_error
told-IsQuiet = ap (λ n. log_target n.base.logger LogLevel.debug) told_node

told_writes : told.node.base.write_func ≡ some 4
unfolding set_error
told_writes = ap (λ n. n.base.write_func) told_node

told_encoded :
    lib.encode told.node.base.converter.format (init_message lib (text "demo") null) ≡ ok init_text
unfolding set_error init_message
told_encoded =
    ap (λ n. lib.encode n.base.converter.format (init_message lib (text "demo") null)) told_node

link_inits_example :
    (link_remote lib client_user (text "demo") client ≡ (ok tt, linking))
    × (find (text "demo") linking.registry.entries
        ≡ linked lib client_user 3 (find (text "demo") client.registry.entries))
    × (lists 3 (find (text "demo") listing.registry.entries) ≡ true)
    × (RemoteNode.handle_message lib remote_user link_text remote
        ≡ (ok tt, record told { trace = told.trace ++ wrote 4 init_text ∷ [] }))
    × (ClientNode.handle_message lib client_user init_text linking ≡ (ok tt, shown))
link_inits_example =
    link_inits lib values client_user remote_user (text "demo") 7 7 30 4 4 null link_text init_text
      entry client shown remote told client-IsSilent client-IsQuiet_debug has_sink refl link_encoded
      link-Arrives remote-IsSilent has_source entry_there node_there refl told-IsQuiet told_writes
      told_encoded init-Arrives refl
