-- ===== src/ClientNode/Sinks.antt =====
-- Which sink of the user a message from the server reaches, and what linking an object leaves.
use objectlink_core_cpp.Prelude.{
  ℕ, ◌≡◌, refl, ap, ◌∙◌, [], ◌∷◌, ◌++◌, Option, none, some, Str, text, arith, str_beq,
  if◌then◌else◌,
}
use objectlink_core_cpp.Exec.{Exec, ok, continue, ◌>>=◌, ◌>>◌}
use objectlink_core_cpp.Types.{LogLevel}
use objectlink_core_cpp.Map.{str_key, find}
use objectlink_core_cpp.Storage.{lock}
use objectlink_core_cpp.Name
use objectlink_core_cpp.Json.{JsonLib}
use objectlink_core_cpp.Logger.{log_target, emit_log, emit_to}
use objectlink_core_cpp.World.{wrote}
use objectlink_core_cpp.Protocol.{link_message, unlink_message}
use objectlink_core_cpp.BaseNode.{emit_write}
use objectlink_core_cpp.BaseNode.Outgoing.{IsQuiet, log_quiet, log_payload_quiet, emit_write_writes}
use objectlink_core_cpp.ClientRegistry
use objectlink_core_cpp.ClientRegistry.{SinkToClientEntry, sink_of, get_sink, clear_node}
use objectlink_core_cpp.ClientRegistry.Calls.{unset_node_lem, set_node_lem}
use objectlink_core_cpp.ClientRegistry.Entries.{
  sets_node, unsets_node, step, entry_after, find-step_client, given_node, without_node,
}
use objectlink_core_cpp.ClientNode.{
  ClientWorld, ClientUser, link_remote, unlink_remote, release, find_sink, with_sink, handle_init,
  handle_property_change, handle_signal,
}

-- Neither the node nor the registry logs messages of level info.
pub record IsSilent (w : ClientWorld) : Type 0 where
  pub node : IsQuiet LogLevel.info w
  pub registry : log_target w.registry.logger LogLevel.info ≡ none

-- The object is in use by a sink that is there.
abbrev pub HasSink : Str → ℕ → ClientWorld → Type 0
HasSink o sink w = lock w.live (sink_of (find o w.registry.entries)) ≡ some sink

module _ (J : JsonLib) (user : ClientUser J) where
  find_sink-some :
      (o : Str) (sink : ℕ) (w : ClientWorld)
      → IsSilent w
      → HasSink o sink w
      → find_sink J user o w ≡ (ok (some sink), w)
  unfolding find_sink get_sink ClientRegistry.log emit_log emit_to
  find_sink-some o sink w q h = rw q.registry (ap (λ s. (ok s, w)) h)

  call_sink :
      (o : Str) (sink : ℕ) (call : ℕ → Exec ClientWorld Unit) (message : Str) (w : ClientWorld)
      → IsSilent w
      → HasSink o sink w
      → (find_sink J user o >>= λ s. with_sink J user s call message o) w ≡ call sink w
  unfolding with_sink
  call_sink o sink call message w q h =
      ap (λ r. continue r.0 (λ s. with_sink J user s call message o) r.1)
        (find_sink-some o sink w q h)

  -- When neither node nor registry logs info messages, the initial properties of an object go to
  -- the live sink of the object, as they came.
  pub handle_init_calls :
      (object_id : Str) (props : J.Json) (sink : ℕ) (w : ClientWorld)
      → IsSilent w
      → HasSink object_id sink w
      → handle_init J user object_id props w ≡ user.on_init sink object_id props w
  unfolding handle_init
  handle_init_calls o props sink w q h =
      simp
        (log_payload_quiet J LogLevel.info props (text "ClientNode.handleInit: " ∷ o ∷ []) w q.node)
        (call_sink o sink (λ s. user.on_init s o props) _ w q h)

  -- When neither node nor registry logs info messages, a property change goes to the live sink of
  -- the object that the property name begins with.
  pub handle_property_change_calls :
      (property_id : Str) (value : J.Json) (sink : ℕ) (w : ClientWorld)
      → IsSilent w
      → HasSink (Name.get_object_id property_id) sink w
      → handle_property_change J user property_id value w
        ≡ user.on_property_changed sink property_id value w
  unfolding handle_property_change
  handle_property_change_calls p value sink w q h =
      simp
        (log_payload_quiet J LogLevel.info value (text "ClientNode.handlePropertyChange: " ∷ p ∷ [])
          w q.node)
        (call_sink (Name.get_object_id p) sink (λ s. user.on_property_changed s p value) _ w q h)

  -- A signal goes to the sink of the object that the signal's name begins with.
  pub handle_signal_calls :
      (signal_id : Str) (args : J.Json) (sink : ℕ) (w : ClientWorld)
      → IsSilent w
      → HasSink (Name.get_object_id signal_id) sink w
      → handle_signal J user signal_id args w ≡ user.on_signal sink signal_id args w
  unfolding handle_signal
  handle_signal_calls g args sink w q h =
      simp (log_quiet LogLevel.info (text "ClientNode.handleSignal: " ∷ g ∷ []) w q.node)
        (call_sink (Name.get_object_id g) sink (λ s. user.on_signal s g args) _ w q h)

  -- The entry of an object that the node with the id has linked.
  abbrev pub linked : ℕ → Option SinkToClientEntry → Option SinkToClientEntry
  linked id none = some (record { sink = none; node_id = id })
  linked id (some e) = some (record e { node_id = id })

  relinked : (id : ℕ) (e : Option SinkToClientEntry) → given_node id (without_node e) ≡ linked id e
  unfolding given_node without_node
  relinked id none = refl
  relinked id (some e) = ground arith

  -- The world with a message written.
  abbrev pub wrote_link : ℕ → Str → ClientWorld → ClientWorld
  wrote_link func s w = record w { trace = w.trace ++ wrote func s ∷ [] }

  -- The world after the node of an object is cleared and set to the id.
  abbrev pub relink : ℕ → Str → ClientWorld → ClientWorld
  relink id o w = (ClientRegistry.set_node id o (ClientRegistry.unset_node o w).1).1

  after_ok :
      {A B : Type 0} (m : Exec ClientWorld A) (f : A → Exec ClientWorld B) (a : A) (w : ClientWorld)
      → (m w).0 ≡ ok a
      → (m >>= f) w ≡ f a (m w).1
  after_ok m f a w h = ap (λ r. continue r f (m w).1) h

  pub find-relink :
      (id : ℕ) (o j : Str) (w : ClientWorld)
      → find j (relink id o w).registry.entries
        ≡ (if str_beq o j then linked id (find j w.registry.entries) else find j w.registry.entries)
  unfolding step
  find-relink id o j w =
      find-step_client (λ _. []) (ClientRegistry.unset_node o w).1 (sets_node id o) j
      ∙ ap (entry_after (λ _. []) (ClientRegistry.unset_node o w).1.live (sets_node id o) j)
          (find-step_client (λ _. []) w (unsets_node o) j)
      ∙ unfold entry_after in ground (arith, relinked id (find j w.registry.entries))

  -- Clearing and setting a node leaves the node itself, which objects have an owner, and the logger.
  pub relink-keeps :
      (id : ℕ) (o : Str) (w : ClientWorld)
      → ((relink id o w).node ≡ w.node)
        × ((relink id o w).live ≡ w.live)
        × ((relink id o w).registry.logger ≡ w.registry.logger)
  relink-keeps id o w =
      let set = set_node_lem (ClientRegistry.unset_node o w).1 id o in
      let unset = unset_node_lem w o in
      (
        ap (λ r. r.1.node) set ∙ ap (λ r. r.1.node) unset,
        ap (λ r. r.1.live) set ∙ ap (λ r. r.1.live) unset,
        ap (λ r. r.1.registry.logger) set ∙ ap (λ r. r.1.registry.logger) unset,
      )

  pub link_remote_lem :
      (o : Str) (func : ℕ) (s : Str) (w : ClientWorld)
      → IsQuiet LogLevel.info w
      → IsQuiet LogLevel.debug w
      → w.node.base.write_func ≡ some func
      → J.encode w.node.base.converter.format (link_message J o) ≡ ok s
      → link_remote J user o w ≡ (ok tt, relink w.node.derived.node_id o (wrote_link func s w))
  unfolding link_remote
  link_remote_lem o func s w qi qd f e =
      let w1 = wrote_link func s w in
      let w2 = (ClientRegistry.unset_node o w1).1 in
      simp (log_quiet LogLevel.info _ w qi, emit_write_writes J _ func s w qd f e)
        (after_ok (ClientRegistry.unset_node o)
            (λ _ v. ClientRegistry.set_node v.node.derived.node_id o v) tt w1
            (ap (λ r. r.0) (unset_node_lem w1 o))
          ∙ ap (λ r. ClientRegistry.set_node r.1.node.derived.node_id o w2) (unset_node_lem w1 o)
          ∙ ap (λ r. (r.0, (ClientRegistry.set_node w.node.derived.node_id o w2).1))
              (set_node_lem w2 w.node.derived.node_id o))

  -- For a node that logs no info and debug messages, linking an object with a message that can be
  -- written makes this node the node of the object, whatever node it had; its sink and the entries
  -- of other objects stay.
  pub link_remote_links :
      (o : Str) (func : ℕ) (s : Str) (w : ClientWorld)
      → IsQuiet LogLevel.info w
      → IsQuiet LogLevel.debug w
      → w.node.base.write_func ≡ some func
      → J.encode w.node.base.converter.format (link_message J o) ≡ ok s
      → (link_remote J user o w).0 ≡ ok tt
        × ((j : Str)
            → find j (link_remote J user o w).1.registry.entries ≡ (
                if str_beq o j
                then linked w.node.derived.node_id (find j w.registry.entries)
                else find j w.registry.entries))
  link_remote_links o func s w qi qd f e =
      rw (link_remote_lem o func s w qi qd f e) (refl, λ j. find-relink _ o j _)

  -- Unlinking an object with a live sink releases the sink, then writes the message, and then clears
  -- the node of the object.
  pub unlink_remote_lem :
      (o : Str) (sink func : ℕ) (s : Str) (w w' : ClientWorld)
      → IsSilent w
      → HasSink o sink w
      → user.on_release sink w ≡ (ok tt, w')
      → IsQuiet LogLevel.debug w'
      → w'.node.base.write_func ≡ some func
      → J.encode w'.node.base.converter.format (unlink_message J o) ≡ ok s
      → unlink_remote J user o w ≡ (ok tt, (ClientRegistry.unset_node o (wrote_link func s w')).1)
  unfolding unlink_remote release
  unlink_remote_lem o sink func s w w' q h released qd f e =
      let clear = ClientRegistry.unset_node o in
      let w1 = wrote_link func s w' in
      simp (log_quiet LogLevel.info _ w q.node) (
        after_ok (find_sink J user o) _ (some sink) w (ap (λ r. r.0) (find_sink-some o sink w q h))
        ∙ ap (λ r. (user.on_release sink >> (emit_write J (unlink_message J o) >> clear)) r.1)
            (find_sink-some o sink w q h)
        ∙ ap (λ r. continue r.0 (λ _. emit_write J (unlink_message J o) >> clear) r.1) released
        ∙ ap (λ r. continue r.0 (λ _. clear) r.1) (emit_write_writes J _ func s w' qd f e)
        ∙ ap (λ r. (r.0, (clear w1).1)) (unset_node_lem w1 o))
