-- ===== src/Session/Pipeline/Splits.antt =====
-- After calls and deliveries the calls come in three parts: those done, those whose replies are under
-- way, and those that wait to be served; each delivery moves one.
use mathlib.Core.List.{append_assoc, append-nil}
use objectlink_core_cpp.Prelude.{
  ℕ, suc, ◌+◌, ◌*◌, ◌≡◌, refl, ap, ◌∙◌, sym, subst, List, [], ◌∷◌, ◌++◌, Str, length, arith,
  length-append,
}
use objectlink_core_cpp.Map.{nat_key}
use objectlink_core_cpp.Json.{JsonLib, ValueLaws}
use objectlink_core_cpp.Converter.{MessageConverter}
use objectlink_core_cpp.ClientNode.{ClientWorld, ClientUser}
use objectlink_core_cpp.RemoteNode.{RemoteWorld, RemoteUser}
use objectlink_core_cpp.Session.Pipeline.{
  Call, Pipe, Runs, start, calls, serves, receives, marks, make_call, serve, receive,
}
use objectlink_core_cpp.Session.Pipeline.Serial.{Service, IsService, AllTravel}
use objectlink_core_cpp.Session.Pipeline.Numbering.{
  history, length-request_texts, length-reply_texts, AllTravel-prefix, AllTravel-at,
}
use objectlink_core_cpp.Session.Pipeline.Moves.{IsReady, client_at}
use objectlink_core_cpp.Session.Pipeline.Invariant.{Holds, call-Holds, serve-Holds, receive-Holds}

-- The deliveries that are left: two for a call that waits, one for a reply under way.
abbrev pub load : Pipe → ℕ
load p = 2 * length p.requests + length p.replies

module _ (J : JsonLib) (client_user : ClientUser J) (remote_user : RemoteUser J) where
  -- What can come of a state by a number of deliveries.
  pub data Delivers (p : Pipe) : ℕ → Pipe → Type 0 where
    none : Delivers p 0 p
    to_remote :
        {n : ℕ} {t : Pipe} (q : Str) (rest : List Str)
        → Delivers p n t
        → t.requests ≡ q ∷ rest
        → Delivers p (suc n) (serve J client_user remote_user q rest t)
    to_client :
        {n : ℕ} {t : Pipe} (a : Str) (rest : List Str)
        → Delivers p n t
        → t.replies ≡ a ∷ rest
        → Delivers p (suc n) (receive J client_user remote_user a rest t)

pub is_empty : {A : Type 0} (xs : List A) → length xs ≡ 0 → xs ≡ []
is_empty [] e = refl
is_empty (x ∷ xs) e = absurd (omega arith)

-- The start: nothing is under way.
abbrev pub at_rest : ClientWorld → RemoteWorld → Pipe
at_rest c r = record { client = c; remote = r; requests = []; replies = [] }

module _ (J : JsonLib) (L : ValueLaws J) (client_user : ClientUser J) (remote_user : RemoteUser J)
    (S : Service J) (is_service : IsService J S client_user remote_user) (conv : MessageConverter)
    (cf rf : ℕ) (c0 : ClientWorld) (r0 : RemoteWorld) (ready : IsReady conv cf rf c0 r0)
    (idle : c0.node.derived.invokes_pending ≡ []) where
  -- Calls in three parts.
  pub record Splits (cs : List (Call J)) (p : Pipe) : Type 0 where
    pub done : List (Call J)
    pub flying : List (Call J)
    pub waiting : List (Call J)
    pub are : cs ≡ done ++ flying ++ waiting
    pub holds :
        Holds J L client_user remote_user S is_service conv cf rf c0 r0 ready done flying waiting p

  abbrev pub Fits : List (Call J) → Type 0
  Fits cs = AllTravel J S conv r0 c0.node.derived.next_request_id (marks r0.trace) cs

  start-Splits : Splits [] (at_rest c0 r0)
  start-Splits = record {
    done = [];
    flying = [];
    waiting = [];
    are = refl;
    holds = record {
      client_error = c0.node.base.last_error;
      client_trace = c0.trace;
      remote_error = r0.node.base.last_error;
      remote_trace = r0.trace;
      client =
          ap (λ m. client_at c0 c0.node.base.last_error c0.node.derived.next_request_id m c0.trace)
            idle
          ∙ ap (λ n. client_at c0 c0.node.base.last_error n [] c0.trace) (omega arith);
      remote = refl;
      requests = refl;
      replies = refl;
      told = sym (append-nil (marks c0.trace));
      heard = refl;
    };
  }

  call-Splits :
      (cs : List (Call J)) (c : Call J) (p : Pipe)
      → Fits (cs ++ c ∷ [])
      → Splits cs p
      → Splits (cs ++ c ∷ []) (make_call J client_user remote_user c p)
  call-Splits cs c p fits s = record {
    done = s.done;
    flying = s.flying;
    waiting = s.waiting ++ c ∷ [];
    are = ap (λ l. l ++ c ∷ []) s.are ∙ append_assoc (s.done ++ s.flying) s.waiting (c ∷ []);
    holds =
        call-Holds J L client_user remote_user S is_service conv cf rf c0 r0 ready s.done s.flying
          s.waiting c p s.holds
          (AllTravel-at J S conv r0 c0.node.derived.next_request_id _ (marks r0.trace)
            (s.done ++ s.flying ++ s.waiting) c []
            (omega
              (arith, length-append s.done s.flying, length-append (s.done ++ s.flying) s.waiting))
            (subst (λ l. Fits (l ++ c ∷ [])) s.are fits));
  }

  serve-Splits :
      (cs : List (Call J)) (q : Str) (rest : List Str) (p : Pipe)
      → Fits cs
      → p.requests ≡ q ∷ rest
      → (s : Splits cs p)
      → (t : Splits cs (serve J client_user remote_user q rest p)) × (length s.waiting
          ≡ length t.waiting + 1)
        × (length t.flying ≡ length s.flying + 1)
  serve-Splits cs q rest p fits d s = first s.waiting s.are s.holds
    where
      first :
          (waiting : List (Call J))
          → cs ≡ s.done ++ s.flying ++ waiting
          → Holds J L client_user remote_user S is_service conv cf rf c0 r0 ready s.done s.flying
              waiting p
          → (t : Splits cs (serve J client_user remote_user q rest p)) × (length waiting
              ≡ length t.waiting + 1)
            × (length t.flying ≡ length s.flying + 1)
      first [] e h = let k = h.requests in absurd cc
      first (c ∷ waiting) e h = (
        record {
          done = s.done;
          flying = s.flying ++ c ∷ [];
          waiting = waiting;
          are =
              e
              ∙ sym (append_assoc (s.done ++ s.flying) (c ∷ []) waiting)
              ∙ ap (λ l. l ++ waiting) (append_assoc s.done s.flying (c ∷ []));
          holds =
              serve-Holds J L client_user remote_user S is_service conv cf rf c0 r0 ready s.done
                s.flying waiting c q rest p h d
                (AllTravel-at J S conv r0 c0.node.derived.next_request_id _ (marks r0.trace)
                  (s.done ++ s.flying) c waiting (omega (arith, length-append s.done s.flying))
                  (subst Fits e fits));
        },
        omega arith,
        omega (arith, length-append s.flying (c ∷ [])),
      )

  receive-Splits :
      (cs : List (Call J)) (a : Str) (rest : List Str) (p : Pipe)
      → Fits cs
      → p.replies ≡ a ∷ rest
      → (s : Splits cs p)
      → (t : Splits cs (receive J client_user remote_user a rest p)) × (length t.waiting
          ≡ length s.waiting)
        × (length s.flying ≡ length t.flying + 1)
  receive-Splits cs a rest p fits d s = first s.flying s.are s.holds
    where
      first :
          (flying : List (Call J))
          → cs ≡ s.done ++ flying ++ s.waiting
          → Holds J L client_user remote_user S is_service conv cf rf c0 r0 ready s.done flying
              s.waiting p
          → (t : Splits cs (receive J client_user remote_user a rest p)) × (length t.waiting
              ≡ length s.waiting)
            × (length flying ≡ length t.flying + 1)
      first [] e h = let k = h.replies in absurd cc
      first (c ∷ flying) e h = (
        record {
          done = s.done ++ c ∷ [];
          flying = flying;
          waiting = s.waiting;
          are = e ∙ ap (λ l. l ++ s.waiting) (sym (append_assoc s.done (c ∷ []) flying));
          holds =
              receive-Holds J L client_user remote_user S is_service conv cf rf c0 r0 ready s.done
                flying s.waiting c a rest p h d
                (AllTravel-at J S conv r0 c0.node.derived.next_request_id _ (marks r0.trace) s.done
                  c (flying ++ s.waiting) refl
                  (subst Fits (e ∙ append_assoc s.done (c ∷ flying) s.waiting) fits));
        },
        refl,
        omega arith,
      )

  pub Runs-Splits :
      {cs : List (Call J)} {p : Pipe}
      → Runs J client_user remote_user (at_rest c0 r0) cs p
      → Fits cs
      → Splits cs p
  Runs-Splits start fits = start-Splits
  Runs-Splits (calls {cs = cs} {p = p} c r) fits = call-Splits cs c p fits (
      Runs-Splits r (
        AllTravel-prefix J S conv r0 c0.node.derived.next_request_id (marks r0.trace) cs (c ∷ [])
          fits))
  Runs-Splits (serves {cs = cs} {p = p} q rest r d) fits =
      (serve-Splits cs q rest p fits d (Runs-Splits r fits)).0
  Runs-Splits (receives {cs = cs} {p = p} a rest r d) fits =
      (receive-Splits cs a rest p fits d (Runs-Splits r fits)).0

  pub load-Splits :
      (cs : List (Call J)) (p : Pipe) (s : Splits cs p)
      → load p ≡ 2 * length s.waiting + length s.flying
  load-Splits cs p s = omega (
    arith,
    ap length s.holds.requests,
    ap length s.holds.replies,
    length-request_texts J S conv
        (c0.node.derived.next_request_id + length s.done + length s.flying) s.waiting,
    length-reply_texts J S conv (c0.node.derived.next_request_id + length s.done)
        (history J S conv (marks r0.trace) s.done) s.flying,
  )

  pub Delivers-Splits :
      (cs : List (Call J)) {p p' : Pipe} {n : ℕ}
      → Fits cs
      → Splits cs p
      → Delivers J client_user remote_user p n p'
      → Splits cs p' × (n + load p' ≡ load p)
  Delivers-Splits cs fits s none = (s, omega arith)
  Delivers-Splits cs fits s (to_remote {t = t} q rest r d) =
      let (u, e) = Delivers-Splits cs fits s r in
      let (v, f, g) = serve-Splits cs q rest t fits d u in
      (v, omega (arith, e, f, g, load-Splits cs _ u, load-Splits cs _ v))
  Delivers-Splits cs fits s (to_client {t = t} a rest r d) =
      let (u, e) = Delivers-Splits cs fits s r in
      let (v, f, g) = receive-Splits cs a rest t fits d u in
      (v, omega (arith, e, f, g, load-Splits cs _ u, load-Splits cs _ v))
