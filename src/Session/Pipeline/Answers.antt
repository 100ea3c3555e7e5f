-- ===== src/Session/Pipeline/Answers.antt =====
-- Every call is answered, in order, by what its source would answer if the calls were made one after
-- the other.
use mathlib.Core.List.{append_assoc, append-nil}
use objectlink_core_cpp.Prelude.{
  ℕ, zero, suc, ◌+◌, ◌≡◌, refl, ap, ◌∙◌, sym, subst, List, [], ◌∷◌, ◌++◌, Str, length, arith,
}
use objectlink_core_cpp.Map.{nat_key}
use objectlink_core_cpp.Json.{JsonLib, ValueLaws}
use objectlink_core_cpp.Converter.{MessageConverter}
use objectlink_core_cpp.ClientNode.{ClientWorld, ClientUser}
use objectlink_core_cpp.RemoteNode.{RemoteWorld, RemoteUser}
use objectlink_core_cpp.Session.Pipeline.{Call, Pipe, Runs, serves, receives, marks}
use objectlink_core_cpp.Session.Pipeline.Serial.{Service, IsService, serial, pending, AllTravel}
use objectlink_core_cpp.Session.Pipeline.Numbering.{history}
use objectlink_core_cpp.Session.Pipeline.Moves.{IsReady}
use objectlink_core_cpp.Session.Pipeline.Splits.{
  load, Delivers, none, to_remote, to_client, Runs-Splits, load-Splits, Delivers-Splits, at_rest,
  is_empty,
}

module _ (J : JsonLib) (L : ValueLaws J) (client_user : ClientUser J) (remote_user : RemoteUser J)
    (S : Service J) (is_service : IsService J S client_user remote_user) (conv : MessageConverter)
    (cf rf : ℕ) (c0 : ClientWorld) (r0 : RemoteWorld) (ready : IsReady conv cf rf c0 r0)
    (idle : c0.node.derived.invokes_pending ≡ []) where
  -- Between a client node with no pending call and a remote node, which log nothing, write and have
  -- one converter, over a transport that hands over each text once and in order, when the texts of
  -- the calls and replies arrive as they were written, ids and the sources of the calls are there,
  -- sources note each call and answer by what they noted, and reply functions note the value: at
  -- any time the calls that were answered are the first ones made, each with its own value, and the
  -- others are exactly those that are pending, under consecutive ids.
  pub answers_in_order :
      {cs : List (Call J)} {p : Pipe}
      → Runs J client_user remote_user (at_rest c0 r0) cs p
      → AllTravel J S conv r0 c0.node.derived.next_request_id (marks r0.trace) cs
      → (done rest : List (Call J)) × (cs ≡ done ++ rest)
        × (marks p.client.trace ≡ marks c0.trace ++ serial J S conv (marks r0.trace) done)
        × (p.client.node.derived.invokes_pending
            ≡ pending J S conv (c0.node.derived.next_request_id + length done) rest)
  answers_in_order r fits =
      let s =
        Runs-Splits J L client_user remote_user S is_service conv cf rf c0 r0 ready idle r fits in
      (
        s.done,
        s.flying ++ s.waiting,
        s.are ∙ append_assoc s.done s.flying s.waiting,
        ap (λ c. marks c.trace) s.holds.client ∙ s.holds.told,
        ap (λ c. c.node.derived.invokes_pending) s.holds.client,
      )

  delivered :
      {cs : List (Call J)} {p t : Pipe} {n : ℕ}
      → Runs J client_user remote_user (at_rest c0 r0) cs p
      → AllTravel J S conv r0 c0.node.derived.next_request_id (marks r0.trace) cs
      → Delivers J client_user remote_user p n t
      → n + load t ≡ load p
  delivered {cs = cs} r fits d =
      (Delivers-Splits J L client_user remote_user S is_service conv cf rf c0 r0 ready idle cs fits
        (Runs-Splits J L client_user remote_user S is_service conv cf rf c0 r0 ready idle r fits)
        d).1

  -- A state with a text under way has a delivery.
  can_deliver :
      {p t : Pipe} {n k : ℕ}
      → Delivers J client_user remote_user p n t
      → load t ≡ suc k
      → (u : Pipe) × Delivers J client_user remote_user p (suc n) u
  can_deliver {p = p} {t = t} {n = n} {k = k} d e = first t.requests t.replies refl refl
    where
      first :
          (requests replies : List Str)
          → t.requests ≡ requests
          → t.replies ≡ replies
          → (u : Pipe) × Delivers J client_user remote_user p (suc n) u
      first (q ∷ rest) replies f g = (_, to_remote q rest d f)
      first [] (a ∷ rest) f g = (_, to_client a rest d g)
      first [] [] f g = absurd (omega (arith, ap length f, ap length g))

  deliver_all :
      {cs : List (Call J)} {p : Pipe} (k : ℕ) {t : Pipe} {n : ℕ}
      → Runs J client_user remote_user (at_rest c0 r0) cs p
      → AllTravel J S conv r0 c0.node.derived.next_request_id (marks r0.trace) cs
      → Delivers J client_user remote_user p n t
      → load t ≡ k
      → (u : Pipe) × Delivers J client_user remote_user p (load p) u × (load u ≡ 0)
  deliver_all {p = p} zero {t = t} r fits d e = (
    t,
    subst (λ m. Delivers J client_user remote_user p m t) (omega (arith, delivered r fits d)) d,
    e,
  )
  deliver_all (suc k) r fits d e =
      let (u, d') = can_deliver d e in
      deliver_all k r fits d' (omega (arith, delivered r fits d, delivered r fits d'))

  Delivers-Runs :
      {cs : List (Call J)} {p t : Pipe} {n : ℕ}
      → Runs J client_user remote_user (at_rest c0 r0) cs p
      → Delivers J client_user remote_user p n t
      → Runs J client_user remote_user (at_rest c0 r0) cs t
  Delivers-Runs r none = r
  Delivers-Runs r (to_remote q rest d e) = serves q rest (Delivers-Runs r d) e
  Delivers-Runs r (to_client a rest d e) = receives a rest (Delivers-Runs r d) e

  -- Between a client node with no pending call and a remote node, which log nothing, write and have
  -- one converter, over a transport that hands over each text once and in order, when the texts of
  -- the calls and replies arrive as they were written, ids and the sources of the calls are there,
  -- sources note each call and answer by what they noted, and reply functions note the value: each
  -- delivery lowers the number of deliveries that are left by one, two being left for each call
  -- that waits and one for each reply under way; and there is always a way to deliver all that is
  -- left.
  pub settles :
      {cs : List (Call J)} {p t : Pipe} {n : ℕ}
      → Runs J client_user remote_user (at_rest c0 r0) cs p
      → AllTravel J S conv r0 c0.node.derived.next_request_id (marks r0.trace) cs
      → Delivers J client_user remote_user p n t
      → (n + load t ≡ load p)
        × ((u : Pipe) × Delivers J client_user remote_user t (load t) u × (load u ≡ 0))
  settles {t = t} r fits d =
      (delivered r fits d, deliver_all (load t) (Delivers-Runs r d) fits none refl)

  -- Between a client node with no pending call and a remote node, which log nothing, write and have
  -- one converter, over a transport that hands over each text once and in order, when the texts of
  -- the calls and replies arrive as they were written, ids and the sources of the calls are there,
  -- sources note each call and answer by what they noted, and reply functions note the value:
  -- whatever calls were made and in whatever order they were served and answered, once no text is
  -- under way, the reply functions noted exactly what they would note if each call were served and
  -- answered before the next is made, the sources heard the calls in order, and no call is pending.
  pub all_answered :
      {cs : List (Call J)} {p : Pipe}
      → Runs J client_user remote_user (at_rest c0 r0) cs p
      → AllTravel J S conv r0 c0.node.derived.next_request_id (marks r0.trace) cs
      → load p ≡ 0
      → (marks p.client.trace ≡ marks c0.trace ++ serial J S conv (marks r0.trace) cs)
        × (marks p.remote.trace ≡ history J S conv (marks r0.trace) cs)
        × (p.client.node.derived.invokes_pending ≡ [])
  all_answered {cs = cs} {p = p} r fits z =
      let s =
        Runs-Splits J L client_user remote_user S is_service conv cf rf c0 r0 ready idle r fits in
      let none_waits = is_empty s.waiting (
        omega (
          arith,
          load-Splits J L client_user remote_user S is_service conv cf rf c0 r0 ready idle cs p s,
        )) in
      let none_flies = is_empty s.flying (
        omega (
          arith,
          load-Splits J L client_user remote_user S is_service conv cf rf c0 r0 ready idle cs p s,
        )) in
      let all_done =
        s.are
        ∙ ap (λ l. s.done ++ s.flying ++ l) none_waits
        ∙ append-nil (s.done ++ s.flying)
        ∙ ap (λ l. s.done ++ l) none_flies
        ∙ append-nil s.done in
      (
        ap (λ c. marks c.trace) s.holds.client
            ∙ s.holds.told
            ∙ ap (λ l. marks c0.trace ++ serial J S conv (marks r0.trace) l) (sym all_done),
        ap (λ w. marks w.trace) s.holds.remote
            ∙ s.holds.heard
            ∙ ap (history J S conv (marks r0.trace))
                (ap (λ l. s.done ++ l) none_flies ∙ append-nil s.done ∙ sym all_done),
        ap (λ c. c.node.derived.invokes_pending) s.holds.client
            ∙ ap (pending J S conv (c0.node.derived.next_request_id + length s.done))
                (ap (λ l. l ++ s.waiting) none_flies ∙ none_waits),
      )
