-- ===== src/RemoteNode/Sources.antt =====
-- Which source of the user a message from a client reaches, and what the client is answered.
use objectlink_core_cpp.Prelude.{ℕ, ◌≡◌, ap, ◌∙◌, true, [], ◌∷◌, ◌++◌, Option, none, some, Str}
use objectlink_core_cpp.Exec.{Exec, Exception, ok, throw, gets, continue, ◌>>=◌, ◌>>◌}
use objectlink_core_cpp.Types.{LogLevel}
use objectlink_core_cpp.Map.{str_key, find}
use objectlink_core_cpp.Storage
use objectlink_core_cpp.Storage.{invalid_id, lock}
use objectlink_core_cpp.Name
use objectlink_core_cpp.Json.{JsonLib}
use objectlink_core_cpp.Logger.{log_target, emit_log, emit_to}
use objectlink_core_cpp.World.{wrote}
use objectlink_core_cpp.Protocol.{init_message, invoke_reply_message}
use objectlink_core_cpp.BaseNode.{emit_write}
use objectlink_core_cpp.BaseNode.Outgoing.{IsQuiet, log_quiet, emit_write_writes}
use objectlink_core_cpp.RemoteRegistry
use objectlink_core_cpp.RemoteRegistry.{
  RemoteRegistry, SourceToNodesEntry, source_of, get_source, add_node_for_source,
  remove_node_from_source,
}
use objectlink_core_cpp.RemoteRegistry.Calls.{add_node_for_source_lem, remove_node_from_source_lem}
use objectlink_core_cpp.RemoteRegistry.Linking.{lists, add_node_lists}
use objectlink_core_cpp.RemoteRegistry.Entries.{step}
use objectlink_core_cpp.RemoteNode.{
  RemoteWorld, RemoteUser, find_source, link_source, handle_link, unlink_source, handle_unlink,
  invoke_source, handle_invoke, set_source_property, handle_set_property,
}

-- Neither the node nor the registry logs messages of level info.
pub record IsSilent (w : RemoteWorld) : Type 0 where
  pub node : IsQuiet LogLevel.info w
  pub registry : log_target w.registry.logger LogLevel.info ≡ none

-- The object has a source that is there.
abbrev pub HasSource : Str → ℕ → RemoteWorld → Type 0
HasSource o source w = lock w.live (source_of (find o w.registry.entries)) ≡ some source

find_source_lem :
    (o : Str) (w : RemoteWorld)
    → IsSilent w
    → find_source o w ≡ (ok (lock w.live (source_of (find o w.registry.entries))), w)
unfolding find_source get_source RemoteRegistry.log emit_log emit_to
find_source_lem o w q = rw q.registry

module _ (J : JsonLib) (user : RemoteUser J) where
  with_source :
      {A : Type 0} (o : Str) (source : ℕ) (call : Option ℕ → Exec RemoteWorld A) (w : RemoteWorld)
      → IsSilent w
      → HasSource o source w
      → (find_source o >>= call) w ≡ call (some source) w
  with_source o source call w q h =
      ap (λ r. continue r.0 call r.1) (find_source_lem o w q ∙ ap (λ s. (ok s, w)) h)

  -- A set property goes to the live source of the object that the property name begins with.
  pub handle_set_property_calls :
      (p : Str) (value : J.Json) (source : ℕ) (w : RemoteWorld)
      → IsSilent w
      → HasSource (Name.get_object_id p) source w
      → handle_set_property J user p value w ≡ user.on_set_property source p value w
  unfolding handle_set_property set_source_property
  handle_set_property_calls p value source w q h =
      with_source (Name.get_object_id p) source (λ s. set_source_property J user s p value) w q h

  -- What a source does and sends when it is linked.
  abbrev pub answer_link : ℕ → Str → Exec RemoteWorld Unit
  answer_link source o =
      user.on_linked source o
      >> (user.collect_properties source >>= λ props. emit_write J (init_message J o props))

  pub handle_link_lem :
      (o : Str) (source : ℕ) (w : RemoteWorld)
      → IsSilent w
      → HasSource o source w
      → handle_link J user o w
        ≡ answer_link source o (add_node_for_source w.node.derived.node_id o w).1
  unfolding handle_link link_source
  handle_link_lem o source w q h =
      let id = w.node.derived.node_id in
      simp (log_quiet LogLevel.info _ w q.node) (
        with_source o source (λ s. link_source J user s o) w q h
        ∙ ap (λ r. continue r (λ _. answer_link source o) (add_node_for_source id o w).1)
            (ap (λ r. r.0) (add_node_for_source_lem w id o)))

  -- When neither node nor registry logs info messages, a link of an object with a live source by a
  -- registered node lists the node for the object, then tells the source, and then sends the
  -- properties that the source has after that.
  pub handle_link_links :
      (o : Str) (source n : ℕ) (e : SourceToNodesEntry) (w : RemoteWorld)
      → IsSilent w
      → HasSource o source w
      → find o w.registry.entries ≡ some e
      → lock w.live (Storage.get w.node.derived.node_id w.registry.nodes_by_id) ≡ some n
      → (w' : RemoteWorld) × (handle_link J user o w
          ≡ (user.on_linked source o
                >> (user.collect_properties source >>= λ props.
                    emit_write J (init_message J o props)))
              w')
        × (w'.node ≡ w.node)
        × (lists w.node.derived.node_id (find o w'.registry.entries) ≡ true)
  handle_link_links o source n e w q h f l =
      let id = w.node.derived.node_id in
      (
        (add_node_for_source id o w).1,
        handle_link_lem o source w q h,
        ap (λ r. r.1.node) (add_node_for_source_lem w id o),
        unfold step in (add_node_lists (λ _. []) id n o e w l f).0,
      )

  -- An unlink tells the live source of the object and then takes the node off its list.
  pub handle_unlink_lem :
      (o : Str) (source : ℕ) (w w' : RemoteWorld)
      → IsSilent w
      → HasSource o source w
      → user.on_unlinked source o w ≡ (ok tt, w')
      → handle_unlink J user o w ≡ (ok tt, (remove_node_from_source w'.node.derived.node_id o w').1)
  unfolding handle_unlink unlink_source
  handle_unlink_lem o source w w' q h told =
      with_source o source (λ s. unlink_source J user s o) w q h
      ∙ ap
          (λ r.
            continue r.0
              (λ _. gets (λ v. v.node.derived.node_id) >>= λ id. remove_node_from_source id o) r.1)
          told
      ∙ ap (λ r. (r.0, (remove_node_from_source w'.node.derived.node_id o w').1))
          (remove_node_from_source_lem w' w'.node.derived.node_id o)

  -- When no info messages are logged, and debug messages are not logged after the call, the value
  -- that the live source of a called method returns is written with the id of the request, if there
  -- is a write function and the value has a text.
  pub handle_invoke_replies :
      (id : ℕ) (m : Str) (args value : J.Json) (source func : ℕ) (s : Str) (w w' : RemoteWorld)
      → IsSilent w
      → HasSource (Name.get_object_id m) source w
      → user.on_invoke source m args w ≡ (ok value, w')
      → IsQuiet LogLevel.debug w'
      → w'.node.base.write_func ≡ some func
      → J.encode w'.node.base.converter.format (invoke_reply_message J id m value) ≡ ok s
      → handle_invoke J user id m args w
        ≡ (ok tt, record w' { trace = w'.trace ++ wrote func s ∷ [] })
  unfolding handle_invoke invoke_source
  handle_invoke_replies id m args value source func s w w' q h i qd f e =
      with_source (Name.get_object_id m) source (λ o. invoke_source J user o id m args) w q h
      ∙ ap (λ r. continue r.0 (λ v. emit_write J (invoke_reply_message J id m v)) r.1) i
      ∙ emit_write_writes J _ func s w' qd f e

  -- When no info messages are logged, a method of a live source that throws is not answered: the
  -- exception leaves the handler.
  pub handle_invoke_throws :
      (id : ℕ) (m : Str) (args : J.Json) (source : ℕ) (x : Exception) (w w' : RemoteWorld)
      → IsSilent w
      → HasSource (Name.get_object_id m) source w
      → user.on_invoke source m args w ≡ (throw x, w')
      → handle_invoke J user id m args w ≡ (throw x, w')
  unfolding handle_invoke invoke_source
  handle_invoke_throws id m args source x w w' q h i =
      with_source (Name.get_object_id m) source (λ o. invoke_source J user o id m args) w q h
      ∙ ap (λ r. continue r.0 (λ v. emit_write J (invoke_reply_message J id m v)) r.1) i

  -- A call of a method of an object that has no source that is there changes nothing and is not answered.
  pub handle_invoke_unknown :
      (id : ℕ) (m : Str) (args : J.Json) (w : RemoteWorld)
      → IsSilent w
      → lock w.live (source_of (find (Name.get_object_id m) w.registry.entries)) ≡ none
      → handle_invoke J user id m args w ≡ (ok tt, w)
  unfolding handle_invoke invoke_source
  handle_invoke_unknown id m args w q h =
      ap (λ r. continue r.0 (λ o. invoke_source J user o id m args) r.1)
        (find_source_lem (Name.get_object_id m) w q ∙ ap (λ s. (ok s, w)) h)
