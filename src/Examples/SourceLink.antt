-- ===== src/Examples/SourceLink.antt =====
-- examples/qtolink/olinkclient.cpp: `linkObjectSource` of `OLinkClient`, without what it prints.
use objectlink_core_cpp.Prelude.{
  sym, [], ◌≡◌, refl, ap, ◌∙◌, some, none, Option, ℕ, Str, str_beq, if◌then◌else◌, arith,
}
use objectlink_core_cpp.Exec.{Exec, ok, gets, continue, ◌>>=◌, ◌>>◌}
use objectlink_core_cpp.Types.{LogLevel}
use objectlink_core_cpp.Map.{str_key, find}
use objectlink_core_cpp.Json.{JsonLib}
use objectlink_core_cpp.Protocol.{link_message}
use objectlink_core_cpp.BaseNode.Outgoing.{IsQuiet}
use objectlink_core_cpp.ClientRegistry
use objectlink_core_cpp.ClientRegistry.{SinkToClientEntry, assign_node}
use objectlink_core_cpp.ClientRegistry.Calls.{set_node_lem}
use objectlink_core_cpp.ClientRegistry.Entries.{
  sets_node, step, entry_after, find-step_client, given_node,
}
use objectlink_core_cpp.ClientNode.{ClientWorld, ClientUser, link_remote}
use objectlink_core_cpp.ClientNode.Sinks.{linked, link_remote_links}

module _ (J : JsonLib) (user : ClientUser J) where
  unfoldable pub link_object_source : Str → Exec ClientWorld Unit
  link_object_source name = do
    id ← gets (λ (w : ClientWorld). w.node.derived.node_id)
    ClientRegistry.set_node id name
    link_remote J user name

  linked-given :
      (id : ℕ) (e : Option SinkToClientEntry)
      → linked J user id (given_node id e) ≡ linked J user id e
  unfolding given_node
  linked-given id none = refl
  linked-given id (some e) = ground arith

  -- The entry of the object that is linked.
  linked-set_node :
      (id : ℕ) (o j : Str) (w : ClientWorld)
      → (if str_beq o j
          then linked J user id (find j (ClientRegistry.set_node id o w).1.registry.entries)
          else find j (ClientRegistry.set_node id o w).1.registry.entries)
        ≡ (if str_beq o j
            then linked J user id (find j w.registry.entries)
            else find j w.registry.entries)
  unfolding step
  linked-set_node id o j w =
      ap (λ e. if str_beq o j then linked J user id e else e)
        (find-step_client (λ _. []) w (sets_node id o) j)
      ∙ unfold entry_after in ground (arith, linked-given id (find j w.registry.entries))

  -- For a node that logs no info and debug messages, linking an object with a message that can be
  -- written leaves the registry as `linkRemote` does, whatever node the object had.
  pub link_object_source_links :
      (o : Str) (func : ℕ) (s : Str) (w : ClientWorld)
      → IsQuiet LogLevel.info w
      → IsQuiet LogLevel.debug w
      → w.node.base.write_func ≡ some func
      → J.encode w.node.base.converter.format (link_message J o) ≡ ok s
      → (link_object_source o w).0 ≡ ok tt
        × ((j : Str)
            → find j (link_object_source o w).1.registry.entries ≡ (
                if str_beq o j
                then linked J user w.node.derived.node_id (find j w.registry.entries)
                else find j w.registry.entries))
  unfolding link_object_source
  link_object_source_links o func s w qi qd f e =
      let id = w.node.derived.node_id in
      let set = set_node_lem w id o in
      let w1 = record w {
        registry = record w.registry {
          entries = assign_node id o (find o w.registry.entries) w.registry.entries;
        };
        trace = (ClientRegistry.set_node id o w).1.trace;
      } in
      let (returns, entries) = link_remote_links J user o func s w1 qi qd f e in
      rw (ap (λ r. continue r.0 (λ _. link_remote J user o) r.1) set) (
        returns,
        λ j.
            entries j
            ∙ ap (λ m. if str_beq o j then linked J user id (find j m) else find j m)
                (sym (ap (λ r. r.1.registry.entries) set))
            ∙ linked-set_node id o j w,
      )
