-- ===== src/ClientNode/Shutdown.antt =====
-- src/olink/clientnode.cpp: what the destructor of a client node sends and leaves.
use objectlink_core_cpp.Prelude.{
  ℕ, ◌≡◌, ◌≢◌, refl, sym, ap, ◌∙◌, subst, false, List, [], ◌∷◌, ◌++◌, map, Option, none, some, Str,
  arith, ◌==◌,
}
use objectlink_core_cpp.Exec.{ok, gets, continue}
use objectlink_core_cpp.Types.{LogLevel}
use objectlink_core_cpp.Map.{str_key, find, keys_where}
use objectlink_core_cpp.Map.Sorted.{matches}
use objectlink_core_cpp.Storage
use objectlink_core_cpp.Storage.{WeakPtr, invalid_id, lock}
use objectlink_core_cpp.Json.{JsonLib}
use objectlink_core_cpp.Logger.{log_target}
use objectlink_core_cpp.Logger.Levels.{log-Writes}
use objectlink_core_cpp.World.{wrote}
use objectlink_core_cpp.World.Writes.{
  texts, Writes, gets-Writes, update_registry-Writes, trace-Writes, bind-Writes,
}
use objectlink_core_cpp.Protocol.{unlink_message}
use objectlink_core_cpp.BaseNode
use objectlink_core_cpp.BaseNode.{Node, emit_write}
use objectlink_core_cpp.BaseNode.Outgoing.{emit_write_writes}
use objectlink_core_cpp.ClientRegistry
use objectlink_core_cpp.ClientRegistry.{SinkToClientEntry, sink_of, get_sink, cleared, unset_node}
use objectlink_core_cpp.ClientRegistry.Calls.{unregister_node_lem}
use objectlink_core_cpp.ClientRegistry.Entries.{step}
use objectlink_core_cpp.ClientRegistry.Linking.{unregister_node_clears}
use objectlink_core_cpp.ClientNode.{
  Client, ClientWorld, ClientUser, find_sink, release, unlink_remote, unlink_each, destroy,
}

module _ (J : JsonLib) (user : ClientUser J) (func : ℕ) (text_of : Str → Str) where
  -- The node writes by the function and logs no debug messages, its format has a text for each
  -- unlink message, and a sink that is released returns, leaves the node itself as it is and writes
  -- nothing.
  pub record CanUnlink (node : Node Client) : Type 0 where
    pub quiet : log_target node.base.logger LogLevel.debug ≡ none
    pub write_func : node.base.write_func ≡ some func
    pub encoded :
        (o : Str) → J.encode node.base.converter.format (unlink_message J o) ≡ ok (text_of o)
    pub releases :
        (sink : ℕ) (w : ClientWorld) → w.node ≡ node → Writes func (user.on_release sink) w []

  log_registry-Writes :
      (level : LogLevel) (params : List Str) (w : ClientWorld)
      → Writes func (ClientRegistry.log level params) w []
  unfolding ClientRegistry.log
  log_registry-Writes level params w = log-Writes func (λ v. v.registry.logger) level params w

  log_node-Writes :
      (level : LogLevel) (params : List Str) (w : ClientWorld)
      → Writes func (BaseNode.log level params) w []
  unfolding BaseNode.log
  log_node-Writes level params w = log-Writes func (λ v. v.node.base.logger) level params w

  unset_node-Writes : (o : Str) (w : ClientWorld) → Writes func (unset_node o) w []
  unfolding unset_node
  unset_node-Writes o w = bind-Writes func _ _ w [] [] (log_registry-Writes _ _ w) (λ _ v n.
      update_registry-Writes func
        (λ r. record r { entries = cleared o (find o r.entries) r.entries }) v)

  find_sink-Writes : (o : Str) (w : ClientWorld) → Writes func (find_sink J user o) w []
  unfolding find_sink get_sink
  find_sink-Writes o w =
      bind-Writes func _ (λ s. gets (λ v. lock v.live s)) w [] []
        (bind-Writes func _ (λ _. gets (λ v. sink_of (find o v.registry.entries))) w [] []
          (log_registry-Writes _ _ w) (λ _ v n. gets-Writes func _ v))
        (λ s v n. gets-Writes func _ v)

  release-Writes :
      (sink : Option ℕ) (w : ClientWorld)
      → CanUnlink w.node
      → Writes func (release J user sink) w []
  unfolding release
  release-Writes none w c = gets-Writes func (λ _. tt) w
  release-Writes (some sink) w c = c.releases sink w refl

  emit_write-Writes :
      (o : Str) (w : ClientWorld)
      → CanUnlink w.node
      → Writes func (emit_write J (unlink_message J o)) w (text_of o ∷ [])
  unfolding texts
  emit_write-Writes o w c =
      trace-Writes func _ w (wrote func (text_of o) ∷ []) (text_of o ∷ [])
        (emit_write_writes J (unlink_message J o) func (text_of o) w c.quiet c.write_func
          (c.encoded o))
        (ground arith)

  unlink_remote-Writes :
      (o : Str) (w : ClientWorld)
      → CanUnlink w.node
      → Writes func (unlink_remote J user o) w (text_of o ∷ [])
  unfolding unlink_remote
  unlink_remote-Writes o w c =
      bind-Writes func _ _ w [] (text_of o ∷ []) (log_node-Writes _ _ w) (λ _ w1 n1.
        bind-Writes func (find_sink J user o) _ w1 [] (text_of o ∷ []) (find_sink-Writes o w1)
          (λ sink w2 n2.
            bind-Writes func (release J user sink) _ w2 [] (text_of o ∷ [])
              (release-Writes sink w2 (subst CanUnlink (sym (n2 ∙ n1)) c))
              (λ _ w3 n3.
                bind-Writes func (emit_write J (unlink_message J o)) (λ _. unset_node o) w3
                  (text_of o ∷ []) []
                  (emit_write-Writes o w3 (subst CanUnlink (sym (n3 ∙ n2 ∙ n1)) c))
                  (λ _ w4 n4. unset_node-Writes o w4))))

  unlink_each-Writes :
      (ids : List Str) (w : ClientWorld)
      → CanUnlink w.node
      → Writes func (unlink_each J user ids) w (map text_of ids)
  unfolding unlink_each
  unlink_each-Writes [] w c = gets-Writes func (λ _. tt) w
  unlink_each-Writes (o ∷ ids) w c =
      bind-Writes func _ _ w (text_of o ∷ []) (map text_of ids) (unlink_remote-Writes o w c)
        (λ _ v n. unlink_each-Writes ids v (subst CanUnlink (sym n) c))

  -- The destructor of a client node with a valid id returns if the node logs no debug messages, has
  -- a write function and a text for each unlink message, and each sink that is released returns,
  -- writes nothing and leaves the node: it writes one unlink message for each object that
  -- `getObjectIds` gives for the node, in order, and nothing else, and then no object uses the id
  -- of the node, and the id leads to no node.
  pub destroy_unlinks :
      (w : ClientWorld)
      → CanUnlink w.node
      → w.node.derived.node_id ≢ invalid_id
      → let id = w.node.derived.node_id in
        (ids : List Str) × (w' : ClientWorld) × (ClientRegistry.get_object_ids id w ≡ (ok ids, w))
        × (destroy J user w ≡ (ok tt, w'))
        × (texts func w'.trace ≡ texts func w.trace ++ map text_of ids)
        × ((o : Str)
            → matches (λ (e : SinkToClientEntry). e.node_id == id) (find o w'.registry.entries)
              ≡ false)
        × (Storage.get id w'.registry.nodes_by_id ≡ none)
  unfolding destroy ClientRegistry.get_object_ids step
  destroy_unlinks w c valid =
      let id = w.node.derived.node_id in
      let ids = keys_where (λ e. e.node_id == id) w.registry.entries in
      let sent = unlink_each-Writes ids w c in
      let v = sent.after in
      let (unlisted, gone) = unregister_node_clears (λ _. []) id v valid in
      let w' = (ClientRegistry.unregister_node id v).1 in
      (
        ids,
        w',
        refl,
        ap (λ r. continue r.0 (λ _. ClientRegistry.unregister_node id) r.1) sent.returns
            ∙ ap (λ r. (r.0, w')) (unregister_node_lem v id),
        ap (λ r. texts func r.1.trace) (unregister_node_lem v id) ∙ sent.writes,
        unlisted,
        gone,
      )
