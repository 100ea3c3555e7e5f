-- ===== src/ClientNode/Interface.antt =====
-- src/olink/iclientnode.h: `IClientNode`, what sinks and applications use of a client node, on a state
-- `S`; and `ClientNode` as one.
use objectlink_core_cpp.Prelude.{
  ℕ, suc, ◌+◌, ◌^◌, ◌<◌, ◌≡◌, refl, ap, ◌∙◌, List, [], ◌∷◌, ◌++◌, Option, some, Str, text, arith,
  ==_iff,
}
use objectlink_core_cpp.Exec.{Exec, ok}
use objectlink_core_cpp.Types.{LogLevel, MessageFormat}
use objectlink_core_cpp.Map.{nat_key}
use objectlink_core_cpp.Map.Laws.{find-insert}
use objectlink_core_cpp.Json.{JsonLib}
use objectlink_core_cpp.World.{Event, wrote}
use objectlink_core_cpp.World.Writes.{texts, texts-append}
use objectlink_core_cpp.Protocol.{invoke_message, set_property_message}
use objectlink_core_cpp.BaseNode.Outgoing.{IsQuiet, log_quiet, emit_write_writes}
use objectlink_core_cpp.ClientNode.{
  Client, ClientWorld, ClientUser, link_remote, unlink_remote, invoke_remote, set_remote_property,
}
use objectlink_core_cpp.ClientNode.Invokes.{IsBounded, entered, invoke_remote_sends}

pub record IClientNode (J : JsonLib) (S : Type 0) : Type 0 where
  pub link_remote : Str → Exec S Unit
  pub unlink_remote : Str → Exec S Unit
  pub invoke_remote : Str → J.Json → Option ℕ → Exec S Unit
  pub set_remote_property : Str → J.Json → Exec S Unit

-- What a node promises: while calls are left, each call and each property to set is sent as one text,
-- after those sent before; a call takes the next request id. `sent` are the texts so far, `last` is
-- the last request id.
pub record IsSender {J : JsonLib} {S : Type 0} (N : IClientNode J S) (Ready : ℕ → S → Type 0)
    (sent : S → List Str) (last : S → ℕ) (IsCall : ℕ → Str → J.Json → Str → Type 0)
    (IsAssignment : Str → J.Json → Str → Type 0) : Type 0 where
  pub calls :
      (k : ℕ) (m : Str) (args : J.Json) (func : Option ℕ) (s : S)
      → Ready (suc k) s
      → (t : Str) × (s' : S) × (N.invoke_remote m args func s ≡ (ok tt, s'))
        × IsCall (last s + 1) m args t
        × Ready k s'
        × (last s' ≡ last s + 1)
        × (sent s' ≡ sent s ++ t ∷ [])
  pub sets :
      (k : ℕ) (p : Str) (value : J.Json) (s : S)
      → Ready (suc k) s
      → (t : Str) × (s' : S) × (N.set_remote_property p value s ≡ (ok tt, s'))
        × IsAssignment p value t
        × Ready k s'
        × (last s' ≡ last s)
        × (sent s' ≡ sent s ++ t ∷ [])

abbrev pub client_node : (J : JsonLib) → ClientUser J → IClientNode J ClientWorld
client_node J user = record {
  link_remote = link_remote J user;
  unlink_remote = unlink_remote J user;
  invoke_remote = invoke_remote J user;
  set_remote_property = set_remote_property J user;
}

module _ (J : JsonLib) (user : ClientUser J) (format : MessageFormat) (func : ℕ) where
  -- A node that logs nothing, writes, and has ids for a number of calls.
  pub record HasCalls (k : ℕ) (w : ClientWorld) : Type 0 where
    pub info : IsQuiet LogLevel.info w
    pub debug : IsQuiet LogLevel.debug w
    pub writes : w.node.base.write_func ≡ some func
    pub formats : w.node.base.converter.format ≡ format
    pub bounded : IsBounded w.node.derived
    pub left : w.node.derived.next_request_id + k < 2 ^ 32

  abbrev pub IsInvoke : ℕ → Str → J.Json → Str → Type 0
  IsInvoke id m args t = J.encode format (invoke_message J id m args) ≡ ok t

  abbrev pub IsSetProperty : Str → J.Json → Str → Type 0
  IsSetProperty p value t = J.encode format (set_property_message J p value) ≡ ok t

  -- The format has texts for what a client sends.
  pub record HasTexts : Type 0 where
    pub invoke_text :
        (id : ℕ) (m : Str) (args : J.Json)
        → (t : Str) × (J.encode format (invoke_message J id m args) ≡ ok t)
    pub set_text :
        (p : Str) (value : J.Json)
        → (t : Str) × (J.encode format (set_property_message J p value) ≡ ok t)

  entered-IsBounded : (f : Option ℕ) (c : Client) → IsBounded c → IsBounded (entered f c)
  entered-IsBounded f c b id g e = ground (
    arith,
    find-insert (c.next_request_id + 1) id f c.invokes_pending,
    b id g,
    ==_iff (c.next_request_id + 1) id,
  )

  text-wrote : (t : Str) → texts func (wrote func t ∷ []) ≡ t ∷ []
  unfolding texts
  text-wrote t = ground arith

  sent_text :
      (t : Str) (es : List Event) → texts func (es ++ wrote func t ∷ []) ≡ texts func es ++ t ∷ []
  sent_text t es =
      texts-append func es (wrote func t ∷ []) ∙ ap (λ l. texts func es ++ l) (text-wrote t)

  set_remote_property_lem :
      (p : Str) (value : J.Json) (t : Str) (w : ClientWorld)
      → IsQuiet LogLevel.info w
      → IsQuiet LogLevel.debug w
      → w.node.base.write_func ≡ some func
      → J.encode w.node.base.converter.format (set_property_message J p value) ≡ ok t
      → set_remote_property J user p value w
        ≡ (ok tt, record w { trace = w.trace ++ wrote func t ∷ [] })
  unfolding set_remote_property
  set_remote_property_lem p value t w qi qd wf e =
      simp (log_quiet LogLevel.info (text "ClientNode.setRemoteProperty: " ∷ p ∷ []) w qi)
        (emit_write_writes J (set_property_message J p value) func t w qd wf e)

  pub client_node-IsSender :
      HasTexts
      → IsSender
          (client_node J user)
          HasCalls
          (λ w. texts func w.trace)
          (λ w. w.node.derived.next_request_id)
          IsInvoke
          IsSetProperty
  client_node-IsSender T = record {
    calls = λ k m args reply w h.
        let id = w.node.derived.next_request_id + 1 in
        let (t, e) = T.invoke_text id m args in
        (
          t,
          _,
          invoke_remote_sends J user m args reply func t w
              (h.bounded, (let l = h.left in omega arith)) h.info h.debug h.writes
              (ap (λ x. J.encode x (invoke_message J id m args)) h.formats ∙ e),
          e,
          record {
            info = h.info;
            debug = h.debug;
            writes = h.writes;
            formats = h.formats;
            bounded = entered-IsBounded reply w.node.derived h.bounded;
            left = (let l = h.left in omega arith);
          },
          refl,
          sent_text t w.trace,
        );
    sets = λ k p value w h.
        let (t, e) = T.set_text p value in
        (
          t,
          _,
          set_remote_property_lem p value t w h.info h.debug h.writes
              (ap (λ x. J.encode x (set_property_message J p value)) h.formats ∙ e),
          e,
          record {
            info = h.info;
            debug = h.debug;
            writes = h.writes;
            formats = h.formats;
            bounded = h.bounded;
            left = (let l = h.left in omega arith);
          },
          refl,
          sent_text t w.trace,
        );
  }
