-- ===== src/Session/Linking.antt =====
-- A client node links an object of a remote node: src/olink/clientnode.cpp and remotenode.cpp together.
use objectlink_core_cpp.Prelude.{
  subst, none, Option, ℕ, ◌≡◌, refl, sym, ap, ◌∙◌, true, [], ◌∷◌, ◌++◌, some, Str, str_beq,
  str_beq_iff,
}
use objectlink_core_cpp.Exec.{Exec, Result, ok, throw, continue, ◌>>=◌, ◌>>◌}
use objectlink_core_cpp.Types.{LogLevel}
use objectlink_core_cpp.Map.{str_key, find}
use objectlink_core_cpp.Storage
use objectlink_core_cpp.Storage.{lock}
use objectlink_core_cpp.Json.{JsonLib, ValueLaws}
use objectlink_core_cpp.Logger.{log_target}
use objectlink_core_cpp.World.{wrote}
use objectlink_core_cpp.Protocol.{link_message, init_message}
use objectlink_core_cpp.Protocol.Message.{link, init}
use objectlink_core_cpp.BaseNode.{set_error, emit_write}
use objectlink_core_cpp.BaseNode.Incoming.{handle_message_receives}
use objectlink_core_cpp.BaseNode.Outgoing.{IsQuiet, emit_write_writes}
use objectlink_core_cpp.ClientRegistry.{SinkToClientEntry, sink_of}
use objectlink_core_cpp.ClientNode
use objectlink_core_cpp.ClientNode.{ClientWorld, ClientUser, link_remote}
use objectlink_core_cpp.ClientNode.Sinks as Sinks
use objectlink_core_cpp.ClientNode.Sinks.{
  HasSink, linked, relink, relink-keeps, wrote_link, link_remote_lem, find-relink,
  handle_init_calls,
}
use objectlink_core_cpp.RemoteRegistry.{SourceToNodesEntry, add_node_for_source}
use objectlink_core_cpp.RemoteRegistry.Linking.{lists, add_node_lists}
use objectlink_core_cpp.RemoteRegistry.Entries.{step}
use objectlink_core_cpp.RemoteNode
use objectlink_core_cpp.RemoteNode.{RemoteWorld, RemoteUser}
use objectlink_core_cpp.RemoteNode.Sources as Sources
use objectlink_core_cpp.RemoteNode.Sources.{HasSource, handle_link_lem, handle_link_links}
use objectlink_core_cpp.Session.{Arrives, finish-delivered}

module _ (J : JsonLib) (L : ValueLaws J) (client_user : ClientUser J)
    (remote_user : RemoteUser J) where
  -- The client after it linked an object with a message that is written.
  abbrev pub after_link : Str → ℕ → Str → ClientWorld → ClientWorld
  after_link o func q c =
      relink J client_user c.node.derived.node_id o (wrote_link J client_user func q c)

  str_beq-same : (o : Str) → str_beq o o ≡ true
  str_beq-same o = (str_beq_iff o o).1 refl

  sink_of-linked :
      (id : ℕ) (e : Option SinkToClientEntry) → sink_of (linked J client_user id e) ≡ sink_of e
  unfolding sink_of
  sink_of-linked id none = refl
  sink_of-linked id (some e) = refl

  -- The sink stays in place, and so does the log.
  after_link-HasSink :
      (o : Str) (sink func : ℕ) (q : Str) (c : ClientWorld)
      → HasSink o sink c
      → HasSink o sink (after_link o func q c)
  after_link-HasSink o sink func q c h =
      let id = c.node.derived.node_id in
      let w = wrote_link J client_user func q c in
      ap (λ live. lock live (sink_of (find o (after_link o func q c).registry.entries)))
        (relink-keeps J client_user id o w).1
      ∙ ap (λ e. lock c.live (sink_of e)) (find-relink J client_user id o o w)
      ∙ rw (str_beq-same o) (ap (lock c.live) (sink_of-linked id (find o c.registry.entries)) ∙ h)

  after_link-IsSilent :
      (o : Str) (func : ℕ) (q : Str) (c : ClientWorld)
      → Sinks.IsSilent c
      → Sinks.IsSilent (after_link o func q c)
  after_link-IsSilent o func q c s =
      let keeps =
        relink-keeps J client_user c.node.derived.node_id o (wrote_link J client_user func q c) in
      record {
        node = ap (λ n. log_target n.base.logger LogLevel.info) keeps.0 ∙ s.node;
        registry = ap (λ l. log_target l LogLevel.info) keeps.2 ∙ s.registry;
      }

  -- The remote node after it listed the client, before the source is told.
  abbrev pub after_listing : Str → RemoteWorld → RemoteWorld
  after_listing o r = (add_node_for_source r.node.derived.node_id o (set_error [] r)).1

  bind_assoc :
      {A : Type 0} (m : Exec RemoteWorld Unit) (f : Exec RemoteWorld A)
      (g : A → Exec RemoteWorld Unit) (w : RemoteWorld)
      → (m >> (f >>= g)) w ≡ ((m >> f) >>= g) w
  bind_assoc m f g w = settled (m w)
    where
      settled :
          (x : Result Unit × RemoteWorld)
          → continue x.0 (λ _. f >>= g) x.1
            ≡ continue (continue x.0 (λ _. f) x.1).0 g (continue x.0 (λ _. f) x.1).1
      settled (ok a, v) = refl
      settled (throw e, v) = refl

  -- A remote node that gets the text of a link lists the node, tells the source and sends the
  -- properties.
  remote_links :
      (o : Str) (source rf : ℕ) (props : J.Json) (q a : Str) (r r' : RemoteWorld)
      → Arrives J r.node.base.converter (link_message J o) q
      → Sources.IsSilent r
      → HasSource o source r
      → (remote_user.on_linked source o >> remote_user.collect_properties source)
          (after_listing o r)
        ≡ (ok props, r')
      → IsQuiet LogLevel.debug r'
      → r'.node.base.write_func ≡ some rf
      → J.encode r'.node.base.converter.format (init_message J o props) ≡ ok a
      → RemoteNode.handle_message J remote_user q r
        ≡ (ok tt, record r' { trace = r'.trace ++ wrote rf a ∷ [] })
  unfolding RemoteNode.handle_message set_error
  remote_links o source rf props q a r r' t silent has told qr wr er =
      handle_message_receives J (RemoteNode.listener J remote_user) L q (link o) r tt t.short
        t.decoded t.kept
      ∙ finish-delivered J (RemoteNode.listener J remote_user) (link o) r _ (
          handle_link_lem J remote_user o source (set_error [] r)
            (record { node = silent.node; registry = silent.registry }) has
          ∙ bind_assoc (remote_user.on_linked source o) (remote_user.collect_properties source)
              (λ v. emit_write J (init_message J o v)) (after_listing o r)
          ∙ ap (λ x. continue x.0 (λ v. emit_write J (init_message J o v)) x.1) told
          ∙ emit_write_writes J (init_message J o props) rf a r' qr wr er)

  -- A client that gets the text of the properties tells the sink.
  client_inits :
      (o : Str) (sink : ℕ) (props : J.Json) (a : Str) (c c' : ClientWorld)
      → Sinks.IsSilent c
      → HasSink o sink c
      → Arrives J c.node.base.converter (init_message J o props) a
      → client_user.on_init sink o props (set_error [] c) ≡ (ok tt, c')
      → ClientNode.handle_message J client_user a c ≡ (ok tt, c')
  unfolding ClientNode.handle_message set_error
  client_inits o sink props a c c' silent has t e =
      handle_message_receives J (ClientNode.listener J client_user) L a (init o props) c tt t.short
        t.decoded t.kept
      ∙ finish-delivered J (ClientNode.listener J client_user) (init o props) c _ (
          handle_init_calls J client_user o props sink (set_error [] c)
            (record { node = silent.node; registry = silent.registry }) has
          ∙ e)

  -- A link there and back: when the texts of the link and of the properties arrive as they were
  -- written, and nothing is logged, `linkRemote` writes one text and sets the node of the object;
  -- the remote node that gets the text lists itself for the object, tells the live source and sends
  -- the properties that the source has then; and the client that gets them next tells the live
  -- sink.
  pub link_inits :
      (o : Str) (sink source n cf rf : ℕ) (props : J.Json) (q a : Str) (entry : SourceToNodesEntry)
      (c c' : ClientWorld) (r r' : RemoteWorld)
      → Sinks.IsSilent c
      → IsQuiet LogLevel.debug c
      → HasSink o sink c
      → c.node.base.write_func ≡ some cf
      → J.encode c.node.base.converter.format (link_message J o) ≡ ok q
      → Arrives J r.node.base.converter (link_message J o) q
      → Sources.IsSilent r
      → HasSource o source r
      → find o r.registry.entries ≡ some entry
      → lock r.live (Storage.get r.node.derived.node_id r.registry.nodes_by_id) ≡ some n
      → (remote_user.on_linked source o >> remote_user.collect_properties source)
          (after_listing o r)
        ≡ (ok props, r')
      → IsQuiet LogLevel.debug r'
      → r'.node.base.write_func ≡ some rf
      → J.encode r'.node.base.converter.format (init_message J o props) ≡ ok a
      → Arrives J c.node.base.converter (init_message J o props) a
      → client_user.on_init sink o props (set_error [] (after_link o cf q c)) ≡ (ok tt, c')
      → (link_remote J client_user o c ≡ (ok tt, after_link o cf q c))
        × (find o (after_link o cf q c).registry.entries
            ≡ linked J client_user c.node.derived.node_id (find o c.registry.entries))
        × (lists r.node.derived.node_id (find o (after_listing o r).registry.entries) ≡ true)
        × (RemoteNode.handle_message J remote_user q r
            ≡ (ok tt, record r' { trace = r'.trace ++ wrote rf a ∷ [] }))
        × (ClientNode.handle_message J client_user a (after_link o cf q c) ≡ (ok tt, c'))
  unfolding set_error step
  link_inits o sink source n cf rf props q a entry c c' r r' sc qd has_sink wc ec there sr
        has_source has_entry has_node told qr wr er back init_done =
      (
        link_remote_lem J client_user o cf q c sc.node qd wc ec,
        find-relink J client_user c.node.derived.node_id o o (wrote_link J client_user cf q c)
            ∙ rw (str_beq-same o),
        (add_node_lists (λ _. []) r.node.derived.node_id n o entry (set_error [] r) has_node
            has_entry).0,
        remote_links o source rf props q a r r' there sr has_source told qr wr er,
        client_inits o sink props a (after_link o cf q c) c' (after_link-IsSilent o cf q c sc)
            (after_link-HasSink o sink cf q c has_sink)
            (subst (λ m. Arrives J m.base.converter (init_message J o props) a)
              (sym
                (relink-keeps J client_user c.node.derived.node_id o
                  (wrote_link J client_user cf q c)).0)
              back)
            init_done,
      )
