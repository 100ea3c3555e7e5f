-- ===== src/Session/Pipeline/Moves.antt =====
-- What a call and each delivery do, between nodes that are ready and calls whose texts arrive.
use objectlink_core_cpp.Prelude.{
  ℕ, ◌+◌, ◌≤◌, ◌≡◌, ap, ◌∙◌, sym, subst, List, [], ◌∷◌, ◌++◌, Option, some, Str, length,
}
use objectlink_core_cpp.Exec.{ok}
use objectlink_core_cpp.Types.{LogLevel}
use objectlink_core_cpp.Map.{nat_key, Map}
use objectlink_core_cpp.Json.{JsonLib, ValueLaws}
use objectlink_core_cpp.World.{Event, wrote, marked}
use objectlink_core_cpp.Converter.{MessageConverter}
use objectlink_core_cpp.BaseNode.{set_error}
use objectlink_core_cpp.BaseNode.Outgoing.{IsQuiet}
use objectlink_core_cpp.ClientNode
use objectlink_core_cpp.ClientNode.{ClientWorld, ClientUser, invoke_remote}
use objectlink_core_cpp.ClientNode.Invokes.{invoke_remote_sends}
use objectlink_core_cpp.RemoteNode
use objectlink_core_cpp.RemoteNode.{RemoteWorld, RemoteUser}
use objectlink_core_cpp.RemoteNode.Sources.{IsSilent}
use objectlink_core_cpp.Session.{Arrives, remote_answers, client_receives}
use objectlink_core_cpp.Session.Pipeline.{Call, marks}
use objectlink_core_cpp.Session.Pipeline.Serial.{
  Service, IsService, written, request, reply, value, pending, Travels,
}
use objectlink_core_cpp.Session.Pipeline.Numbering.{
  insert-pending, find-pending, find-pending_first, erase-pending_first,
}

-- Nodes that log nothing and write, with the same converter.
pub record IsReady (conv : MessageConverter) (cf rf : ℕ) (c : ClientWorld) (r : RemoteWorld)
    : Type 0 where
  pub client_info : IsQuiet LogLevel.info c
  pub client_debug : IsQuiet LogLevel.debug c
  pub client_writes : c.node.base.write_func ≡ some cf
  pub client_conv : c.node.base.converter ≡ conv
  pub remote_silent : IsSilent r
  pub remote_debug : IsQuiet LogLevel.debug r
  pub remote_writes : r.node.base.write_func ≡ some rf
  pub remote_conv : r.node.base.converter ≡ conv

-- The client with another last error, number of calls, pending calls and trace.
abbrev pub client_at : ClientWorld → Str → ℕ → Map ℕ (Option ℕ) → List Event → ClientWorld
client_at c e n calls t = record c {
  node = record c.node {
    base = record c.node.base { last_error = e };
    derived = record c.node.derived { next_request_id = n; invokes_pending = calls };
  };
  trace = t;
}

abbrev pub remote_at : RemoteWorld → Str → List Event → RemoteWorld
remote_at r e t = record r {
  node = record r.node { base = record r.node.base { last_error = e } };
  trace = t;
}

module _ (J : JsonLib) (L : ValueLaws J) (client_user : ClientUser J) (remote_user : RemoteUser J)
    (S : Service J) (serves : IsService J S client_user remote_user) (conv : MessageConverter)
    (cf rf : ℕ) (c0 : ClientWorld) (r0 : RemoteWorld) (ready : IsReady conv cf rf c0 r0) where
  pub call-moves :
      (e : Str) (k n : ℕ) (out : List (Call J)) (t : List Event) (h : List (ℕ × Str)) (c : Call J)
      → n ≡ k + length out
      → Travels J S conv r0 n h c
      → invoke_remote J client_user c.method c.args
          (some c.func)
          (client_at c0 e n (pending J S conv k out) t)
        ≡ (
          ok tt,
          client_at c0 e
              (n + 1)
              (pending J S conv k (out ++ c ∷ []))
              (t ++ wrote cf (written J S conv (request J S conv n c)) ∷ []),
        )
  call-moves e k n out t h c i v =
      invoke_remote_sends J client_user c.method c.args (some c.func) cf
        (written J S conv (request J S conv n c)) (client_at c0 e n (pending J S conv k out) t)
        ((λ id f g. subst (λ m. id ≤ m) (sym i) (find-pending J S conv k id out f g)), v.numbered)
        ready.client_info ready.client_debug ready.client_writes
        (ap (λ v. J.encode v.format (request J S conv n c)) ready.client_conv ∙ v.asked.encoded)
      ∙ ap
          (λ calls. (
            ok tt,
            client_at c0 e (n + 1) calls
                (t ++ wrote cf (written J S conv (request J S conv n c)) ∷ []),
          ))
          (insert-pending J S conv k n out c i)

  pub serve-moves :
      (e : Str) (n : ℕ) (t : List Event) (c : Call J)
      → Travels J S conv r0 n (marks t) c
      → RemoteNode.handle_message J remote_user
          (written J S conv (request J S conv n c))
          (remote_at r0 e t)
        ≡ (
          ok tt,
          remote_at r0 [] (
              (t ++ marked (S.owner c.method) (S.heard c.method c.args) ∷ [])
              ++ wrote rf (written J S conv (reply J S conv n (marks t) c)) ∷ []),
        )
  unfolding set_error
  serve-moves e n t c v =
      remote_answers J L client_user remote_user (n + 1) c.method c.args
        (value J S conv (marks t) c) (S.owner c.method) rf (written J S conv (request J S conv n c))
        (written J S conv (reply J S conv n (marks t) c)) (remote_at r0 e t)
        (remote_at r0 [] (t ++ marked (S.owner c.method) (S.heard c.method c.args) ∷ [])) v.numbered
        (record { node = ready.remote_silent.node; registry = ready.remote_silent.registry })
        v.owned
        (subst (λ x. Arrives J x (request J S conv n c) (written J S conv (request J S conv n c)))
          (sym ready.remote_conv) v.asked.arrives)
        (serves.invoked c.method c.args (remote_at r0 [] t)) ready.remote_debug ready.remote_writes
        (ap (λ x. J.encode x.format (reply J S conv n (marks t) c)) ready.remote_conv
          ∙ v.answered.encoded)

  pub receive-moves :
      (e : Str) (k n : ℕ) (out : List (Call J)) (t : List Event) (h : List (ℕ × Str)) (c : Call J)
      → Travels J S conv r0 k h c
      → ClientNode.handle_message J client_user
          (written J S conv (reply J S conv k h c))
          (client_at c0 e n (pending J S conv k (c ∷ out)) t)
        ≡ (
          ok tt,
          client_at c0 [] n
              (pending J S conv (k + 1) out)
              (t ++ marked c.func (S.told c.method (value J S conv h c)) ∷ []),
        )
  unfolding set_error
  receive-moves e k n out t h c v =
      client_receives J L client_user remote_user (k + 1) c.method (value J S conv h c) c.func
        (written J S conv (reply J S conv k h c))
        (client_at c0 e n (pending J S conv k (c ∷ out)) t) _ v.numbered ready.client_info
        (find-pending_first J S conv k c out)
        (subst (λ x. Arrives J x (reply J S conv k h c) (written J S conv (reply J S conv k h c)))
          (sym ready.client_conv) v.answered.arrives)
        (serves.replied c.func c.method (value J S conv h c) _)
      ∙ ap
          (λ calls. (
            ok tt,
            client_at c0 [] n calls
                (t ++ marked c.func (S.told c.method (value J S conv h c)) ∷ []),
          ))
          (erase-pending_first J S conv k c out)
