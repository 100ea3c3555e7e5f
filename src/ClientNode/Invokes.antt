-- ===== src/ClientNode/Invokes.antt =====
-- The pending calls of a client: ids, replies and errors.
use objectlink_core_cpp.Prelude.{
  ℕ, ◌+◌, ◌%◌, ◌^◌, ◌<◌, ◌≤◌, ◌≡◌, ap, [], ◌∷◌, ◌++◌, Option, none, some, Option-cases, inl, inr,
  Str, text, arith, ==_iff,
}
use objectlink_core_cpp.Exec.{ok, continue}
use objectlink_core_cpp.Types.{LogLevel}
use objectlink_core_cpp.Map.{nat_key, find, insert, erase}
use objectlink_core_cpp.Map.Laws.{find-insert}
use objectlink_core_cpp.Json.{JsonLib}
use objectlink_core_cpp.World.{wrote}
use objectlink_core_cpp.Protocol.{invoke_message}
use objectlink_core_cpp.BaseNode.Outgoing.{IsQuiet, log_quiet, log_payload_quiet, emit_write_writes}
use objectlink_core_cpp.ClientNode.{
  Client, ClientWorld, ClientUser, next_request_id, enter_invoke, take_invoke, take_found,
  invoke_remote, handle_invoke_reply, reply_or_warn,
}

-- Every pending call has an id that was given.
abbrev pub IsBounded : Client → Type 0
IsBounded c =
    (id : ℕ) (func : Option ℕ) → find id c.invokes_pending ≡ some func → id ≤ c.next_request_id

-- The same, and ids are left.
abbrev pub HasIds : Client → Type 0
HasIds c = IsBounded c × (c.next_request_id + 1 < 2 ^ 32)

-- The client with a call entered under its next id.
abbrev pub entered : Option ℕ → Client → Client
entered func c = record c {
  next_request_id = c.next_request_id + 1;
  invokes_pending = insert (c.next_request_id + 1) func c.invokes_pending;
}

-- The world with a pending call taken out.
abbrev pub forget : ℕ → ClientWorld → ClientWorld
forget id w = record w {
  node = record w.node {
    derived = record w.node.derived { invokes_pending = erase id w.node.derived.invokes_pending };
  };
}

below-mod : (n : ℕ) → n < 2 ^ 32 → n % 2 ^ 32 ≡ n
below-mod n h = omega arith

pub enter_invoke_lem :
    (func : Option ℕ) (w : ClientWorld)
    → HasIds w.node.derived
    → enter_invoke func w ≡ (
      ok (w.node.derived.next_request_id + 1),
      record w { node = record w.node { derived = entered func w.node.derived } },
    )
unfolding enter_invoke next_request_id
enter_invoke_lem func w (p, h) = rw (below-mod (w.node.derived.next_request_id + 1) h)

-- While ids are left and no pending id is above the last one given, a call is entered under an id
-- that no pending call has, and every other pending call keeps its reply function.
pub enter_invoke_fresh :
    (func : Option ℕ) (w : ClientWorld)
    → HasIds w.node.derived
    → (id : ℕ) × (w' : ClientWorld) × (enter_invoke func w ≡ (ok id, w'))
      × (find id w.node.derived.invokes_pending ≡ none)
      × (find id w'.node.derived.invokes_pending ≡ some func)
      × ((j : ℕ) (f : Option ℕ)
          → find j w.node.derived.invokes_pending ≡ some f
          → find j w'.node.derived.invokes_pending ≡ some f)
enter_invoke_fresh func w (p, h) =
    let c = w.node.derived in
    let n = c.next_request_id + 1 in
    (
      n,
      record w { node = record w.node { derived = entered func c } },
      enter_invoke_lem func w (p, h),
      elim (Option-cases (find n c.invokes_pending)) [
        | inl e ↦ e
        | inr (f, e) ↦ let le = p n f e in absurd (omega arith)
      ],
      ground (arith, find-insert n n func c.invokes_pending),
      λ j f e.
          let le = p j f e in ground (arith, find-insert n j func c.invokes_pending, ==_iff n j),
    )

pub take_invoke-some :
    (id : ℕ) (func : Option ℕ) (w : ClientWorld)
    → find id w.node.derived.invokes_pending ≡ some func
    → take_invoke id w ≡ (ok func, forget id w)
unfolding take_invoke take_found
take_invoke-some id func w f = ap (λ found. take_found id found w) f

module _ (J : JsonLib) (user : ClientUser J) where
  -- A reply calls the function that is pending under its request id, and the call is no longer
  -- pending when the function runs, for a node that logs no info messages.
  pub handle_invoke_reply_calls :
      (request_id : ℕ) (method_id : Str) (value : J.Json) (func : ℕ) (w : ClientWorld)
      → IsQuiet LogLevel.info w
      → find request_id w.node.derived.invokes_pending ≡ some (some func)
      → handle_invoke_reply J user request_id method_id value w
        ≡ user.on_reply func method_id value (forget request_id w)
  unfolding handle_invoke_reply reply_or_warn
  handle_invoke_reply_calls request_id method_id value func w q f =
      simp
        (log_payload_quiet J LogLevel.info value
          (text "ClientNode.handleInvokeReply: " ∷ method_id ∷ []) w q)
        (ap (λ r. continue r.0 (λ c. reply_or_warn J user c request_id method_id value) r.1)
          (take_invoke-some request_id (some func) w f))

  -- While ids are left, for a node with a write function that logs no info and debug messages,
  -- `invokeRemote` writes one message, if it has a text, with the id that its reply function waits
  -- under, and changes nothing else.
  pub invoke_remote_sends :
      (method_id : Str) (args : J.Json) (reply : Option ℕ) (func : ℕ) (s : Str) (w : ClientWorld)
      → HasIds w.node.derived
      → IsQuiet LogLevel.info w
      → IsQuiet LogLevel.debug w
      → w.node.base.write_func ≡ some func
      → J.encode w.node.base.converter.format
          (invoke_message J (w.node.derived.next_request_id + 1) method_id args)
        ≡ ok s
      → invoke_remote J user method_id args reply w ≡ (
        ok tt,
        record w {
          node = record w.node { derived = entered reply w.node.derived };
          trace = w.trace ++ wrote func s ∷ [];
        },
      )
  unfolding invoke_remote
  invoke_remote_sends method_id args reply func s w h qi qd f e =
      simp (log_quiet LogLevel.info _ w qi, enter_invoke_lem reply w h)
        (emit_write_writes J _ func s
          (record w { node = record w.node { derived = entered reply w.node.derived } }) qd f e)
