-- ===== src/Session/Unlinking.antt =====
-- A client node unlinks an object of a remote node: src/olink/clientnode.cpp and remotenode.cpp
-- together.
use objectlink_core_cpp.Prelude.{ℕ, ◌≡◌, ◌∙◌, false, [], some, Str, str_beq_iff, arith}
use objectlink_core_cpp.Exec.{ok}
use objectlink_core_cpp.Types.{LogLevel}
use objectlink_core_cpp.Map.{str_key, find}
use objectlink_core_cpp.Json.{JsonLib, ValueLaws}
use objectlink_core_cpp.Protocol.{unlink_message}
use objectlink_core_cpp.Protocol.Message.{unlink}
use objectlink_core_cpp.BaseNode.{set_error}
use objectlink_core_cpp.BaseNode.Incoming.{handle_message_receives}
use objectlink_core_cpp.BaseNode.Outgoing.{IsQuiet}
use objectlink_core_cpp.ClientRegistry
use objectlink_core_cpp.ClientRegistry.Entries as Entries
use objectlink_core_cpp.ClientRegistry.Entries.{without_node, find-step_client}
use objectlink_core_cpp.ClientNode.{ClientWorld, ClientUser, unlink_remote}
use objectlink_core_cpp.ClientNode.Sinks as Sinks
use objectlink_core_cpp.ClientNode.Sinks.{HasSink, wrote_link, unlink_remote_lem}
use objectlink_core_cpp.RemoteRegistry.{remove_node_from_source}
use objectlink_core_cpp.RemoteRegistry.Entries.{step}
use objectlink_core_cpp.RemoteRegistry.Invariant.{HasNodup}
use objectlink_core_cpp.RemoteRegistry.Linking.{lists, remove_node_unlists}
use objectlink_core_cpp.RemoteNode
use objectlink_core_cpp.RemoteNode.{RemoteWorld, RemoteUser}
use objectlink_core_cpp.RemoteNode.Sources as Sources
use objectlink_core_cpp.RemoteNode.Sources.{HasSource, handle_unlink_lem}
use objectlink_core_cpp.Session.{Arrives, finish-delivered}

module _ (J : JsonLib) (L : ValueLaws J) (client_user : ClientUser J)
    (remote_user : RemoteUser J) where
  -- The client after it unlinked an object whose sink left the world so.
  abbrev pub after_unlink : Str → ℕ → Str → ClientWorld → ClientWorld
  after_unlink o func q c = (ClientRegistry.unset_node o (wrote_link J client_user func q c)).1

  -- The remote node after it took itself off the list of an object whose source left the world so.
  abbrev pub after_unlisting : Str → RemoteWorld → RemoteWorld
  after_unlisting o r = (remove_node_from_source r.node.derived.node_id o r).1

  -- An unlink: when its text arrives as it was written, nothing is logged and the user code
  -- returns, `unlinkRemote` releases the live sink, then writes one text and then clears the node
  -- of the object; and the remote node that gets the text tells the live source, and after that
  -- does not list itself for the object, if the entry that the source leaves lists no node twice.
  pub unlink_unlists :
      (o : Str) (sink source cf : ℕ) (q : Str) (c c' : ClientWorld) (r r' : RemoteWorld)
      → Sinks.IsSilent c
      → HasSink o sink c
      → client_user.on_release sink c ≡ (ok tt, c')
      → IsQuiet LogLevel.debug c'
      → c'.node.base.write_func ≡ some cf
      → J.encode c'.node.base.converter.format (unlink_message J o) ≡ ok q
      → Arrives J r.node.base.converter (unlink_message J o) q
      → Sources.IsSilent r
      → HasSource o source r
      → remote_user.on_unlinked source o (set_error [] r) ≡ (ok tt, r')
      → HasNodup (find o r'.registry.entries)
      → (unlink_remote J client_user o c ≡ (ok tt, after_unlink o cf q c'))
        × (find o (after_unlink o cf q c').registry.entries
            ≡ without_node (find o c'.registry.entries))
        × (RemoteNode.handle_message J remote_user q r ≡ (ok tt, after_unlisting o r'))
        × (lists r'.node.derived.node_id (find o (after_unlisting o r').registry.entries) ≡ false)
  unfolding RemoteNode.handle_message set_error Entries.step step
  unlink_unlists o sink source cf q c c' r r' sc has_sink released qd wc ec there sr has_source told
        once =
      (
        unlink_remote_lem J client_user o sink cf q c c' sc has_sink released qd wc ec,
        find-step_client (λ _. []) (wrote_link J client_user cf q c') (Entries.unsets_node o) o
            ∙ unfold Entries.entry_after in ground (arith, str_beq_iff o o),
        handle_message_receives J (RemoteNode.listener J remote_user) L q (unlink o) r tt
              there.short there.decoded there.kept
            ∙ finish-delivered J (RemoteNode.listener J remote_user) (unlink o) r _ (
                handle_unlink_lem J remote_user o source (set_error [] r) r'
                  (record { node = sr.node; registry = sr.registry }) has_source told),
        (remove_node_unlists (λ _. []) r'.node.derived.node_id o r' once).0,
      )
