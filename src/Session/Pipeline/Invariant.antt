-- ===== src/Session/Pipeline/Invariant.antt =====
-- What holds between calls and deliveries: which calls are done, under way and waiting, and what the
-- nodes hold then.
use mathlib.Core.List.{append_assoc, append-nil}
use objectlink_core_cpp.Prelude.{
  ℕ, ◌+◌, ◌≡◌, refl, ap, ◌∙◌, sym, subst, List, [], ◌∷◌, ◌++◌, some, Str, length, arith,
  length-append,
}
use objectlink_core_cpp.Map.{nat_key}
use objectlink_core_cpp.Json.{JsonLib, ValueLaws}
use objectlink_core_cpp.World.{Event, wrote, marked}
use objectlink_core_cpp.Converter.{MessageConverter}
use objectlink_core_cpp.ClientNode
use objectlink_core_cpp.ClientNode.{ClientWorld, ClientUser, invoke_remote}
use objectlink_core_cpp.RemoteNode
use objectlink_core_cpp.RemoteNode.{RemoteWorld, RemoteUser}
use objectlink_core_cpp.Session.Pipeline.{
  Call, Pipe, marks, texts, skip, skip-append, marks-append, make_call, serve, receive,
}
use objectlink_core_cpp.Session.Pipeline.Serial.{
  Service, IsService, mark, written, request, reply, serial, value, request_texts, reply_texts,
  pending, Travels,
}
use objectlink_core_cpp.Session.Pipeline.Numbering.{
  history, history-append, request_texts-snoc, reply_texts-snoc, serial-snoc,
}
use objectlink_core_cpp.Session.Pipeline.Moves.{
  IsReady, client_at, remote_at, call-moves, serve-moves, receive-moves,
}

module _ (J : JsonLib) (L : ValueLaws J) (client_user : ClientUser J) (remote_user : RemoteUser J)
    (S : Service J) (is_service : IsService J S client_user remote_user) (conv : MessageConverter)
    (cf rf : ℕ) (c0 : ClientWorld) (r0 : RemoteWorld) (ready : IsReady conv cf rf c0 r0) where
  abbrev pub n0 : ℕ
  n0 = c0.node.derived.next_request_id

  abbrev pub h0 : List (ℕ × Str)
  h0 = marks r0.trace

  abbrev pub past : List (Call J) → List (ℕ × Str)
  past cs = history J S conv h0 cs

  -- The nodes when calls are done, served with their replies under way, and waiting to be served.
  pub record Holds (done flying waiting : List (Call J)) (p : Pipe) : Type 0 where
    pub client_error : Str
    pub client_trace : List Event
    pub remote_error : Str
    pub remote_trace : List Event
    pub client :
        p.client
        ≡ client_at c0 client_error
            (n0 + length done + length flying + length waiting)
            (pending J S conv (n0 + length done) (flying ++ waiting))
            client_trace
    pub remote : p.remote ≡ remote_at r0 remote_error remote_trace
    pub requests : p.requests ≡ request_texts J S conv (n0 + length done + length flying) waiting
    pub replies : p.replies ≡ reply_texts J S conv (n0 + length done) (past done) flying
    pub told : marks client_trace ≡ marks c0.trace ++ serial J S conv h0 done
    pub heard : marks remote_trace ≡ past (done ++ flying)

  abbrev head : List Str → Str
  head [] = []
  head (x ∷ xs) = x

  abbrev tail : List Str → List Str
  tail [] = []
  tail (x ∷ xs) = xs

  wrote_since :
      (t : List Event) (func : ℕ) (s : Str)
      → texts (skip (length t) (t ++ wrote func s ∷ [])) ≡ s ∷ []
  wrote_since t func s = ap texts (skip-append t (wrote func s ∷ []))

  marked_since :
      (t : List Event) (who func : ℕ) (s a : Str)
      → texts (skip (length t) ((t ++ marked who s ∷ []) ++ wrote func a ∷ [])) ≡ a ∷ []
  marked_since t who func s a =
      ap (λ es. texts (skip (length t) es)) (append_assoc t (marked who s ∷ []) (wrote func a ∷ []))
      ∙ ap texts (skip-append t (marked who s ∷ wrote func a ∷ []))

  past-snoc :
      (done flying : List (Call J)) (c : Call J)
      → past (done ++ flying) ++ mark J S conv c ∷ [] ≡ past (done ++ (flying ++ c ∷ []))
  past-snoc done flying c =
      sym (history-append J S conv h0 (done ++ flying) (c ∷ []))
      ∙ ap past (append_assoc done flying (c ∷ []))

  marks-wrote : (t : List Event) (func : ℕ) (s : Str) → marks (t ++ wrote func s ∷ []) ≡ marks t
  marks-wrote t func s = marks-append t (wrote func s ∷ []) ∙ append-nil (marks t)

  same_client :
      (e : Str) (t : List Event) {n n' k k' : ℕ} {xs ys : List (Call J)}
      → n ≡ n'
      → k ≡ k'
      → xs ≡ ys
      → client_at c0 e n (pending J S conv k xs) t ≡ client_at c0 e n' (pending J S conv k' ys) t
  same_client e t p q r = cc

  pub call-Holds :
      (done flying waiting : List (Call J)) (c : Call J) (p : Pipe)
      → Holds done flying waiting p
      → Travels J S conv r0
          (n0 + length done + length flying + length waiting)
          (past (done ++ flying ++ waiting))
          c
      → Holds done flying (waiting ++ c ∷ []) (make_call J client_user remote_user c p)
  call-Holds done flying waiting c p h v =
      let n = n0 + length done + length flying + length waiting in
      let s = written J S conv (request J S conv n c) in
      let moved =
        ap (λ w. (invoke_remote J client_user c.method c.args (some c.func) w).1) h.client
        ∙ ap (λ r. r.1)
            (call-moves J L client_user remote_user S is_service conv cf rf c0 r0 ready
              h.client_error (n0 + length done) n (flying ++ waiting) h.client_trace _ c
              (omega (arith, length-append flying waiting)) v) in
      record {
        client_error = h.client_error;
        client_trace = h.client_trace ++ wrote cf s ∷ [];
        remote_error = h.remote_error;
        remote_trace = h.remote_trace;
        client =
            moved
            ∙ same_client h.client_error _ (omega (arith, length-append waiting (c ∷ []))) refl
                (append_assoc flying waiting (c ∷ []));
        remote = h.remote;
        requests =
            rw (moved, h.client, h.requests, wrote_since h.client_trace cf s)
              (sym
                (request_texts-snoc J S conv (n0 + length done + length flying) n waiting c refl));
        replies = h.replies;
        told = marks-wrote h.client_trace cf s ∙ h.told;
        heard = h.heard;
      }

  pub serve-Holds :
      (done flying waiting : List (Call J)) (c : Call J) (q : Str) (rest : List Str) (p : Pipe)
      → Holds done flying (c ∷ waiting) p
      → p.requests ≡ q ∷ rest
      → Travels J S conv r0 (n0 + length done + length flying) (past (done ++ flying)) c
      → Holds done (flying ++ c ∷ []) waiting (serve J client_user remote_user q rest p)
  serve-Holds done flying waiting c q rest p h d v =
      let n = n0 + length done + length flying in
      let s = written J S conv (request J S conv n c) in
      let a = written J S conv (reply J S conv n (marks h.remote_trace) c) in
      let t = h.remote_trace ++ marked (S.owner c.method) (S.heard c.method c.args) ∷ [] in
      let first = sym d ∙ h.requests in
      let moved =
        ap (λ x. (RemoteNode.handle_message J remote_user x p.remote).1) (ap head first)
        ∙ ap (λ w. (RemoteNode.handle_message J remote_user s w).1) h.remote
        ∙ ap (λ r. r.1)
            (serve-moves J L client_user remote_user S is_service conv cf rf c0 r0 ready
              h.remote_error n h.remote_trace c
              (subst (λ x. Travels J S conv r0 n x c) (sym h.heard) v)) in
      record {
        client_error = h.client_error;
        client_trace = h.client_trace;
        remote_error = [];
        remote_trace = t ++ wrote rf a ∷ [];
        client =
            h.client
            ∙ same_client h.client_error h.client_trace
                (omega (arith, length-append flying (c ∷ []))) refl
                (sym (append_assoc flying (c ∷ []) waiting));
        remote = moved;
        requests =
            ap tail first
            ∙ ap (λ k. request_texts J S conv k waiting)
                (omega (arith, length-append flying (c ∷ [])));
        replies =
            rw (moved, h.remote, h.replies, marked_since h.remote_trace (S.owner c.method) rf _ a)
              (ap
                  (λ x.
                    reply_texts J S conv (n0 + length done) (past done) flying
                    ++ written J S conv (reply J S conv n x c) ∷ [])
                  (h.heard ∙ history-append J S conv h0 done flying)
                ∙ sym (reply_texts-snoc J S conv (n0 + length done) n (past done) flying c refl));
        told = h.told;
        heard =
            marks-wrote t rf a
            ∙ marks-append h.remote_trace (marked (S.owner c.method) (S.heard c.method c.args) ∷ [])
            ∙ ap (λ l. l ++ mark J S conv c ∷ []) h.heard
            ∙ past-snoc done flying c;
      }

  pub receive-Holds :
      (done flying waiting : List (Call J)) (c : Call J) (a : Str) (rest : List Str) (p : Pipe)
      → Holds done (c ∷ flying) waiting p
      → p.replies ≡ a ∷ rest
      → Travels J S conv r0 (n0 + length done) (past done) c
      → Holds (done ++ c ∷ []) flying waiting (receive J client_user remote_user a rest p)
  receive-Holds done flying waiting c a rest p h d v =
      let n = n0 + length done in
      let first = sym d ∙ h.replies in
      let moved =
        ap (λ x. (ClientNode.handle_message J client_user x p.client).1) (ap head first)
        ∙ ap
            (λ w.
              (ClientNode.handle_message J client_user
                (written J S conv (reply J S conv n (past done) c)) w).1)
            h.client
        ∙ ap (λ r. r.1)
            (receive-moves J L client_user remote_user S is_service conv cf rf c0 r0 ready
              h.client_error n (n + length (c ∷ flying) + length waiting) (flying ++ waiting)
              h.client_trace (past done) c v) in
      record {
        client_error = [];
        client_trace =
            h.client_trace ++ marked c.func (S.told c.method (value J S conv (past done) c)) ∷ [];
        remote_error = h.remote_error;
        remote_trace = h.remote_trace;
        client =
            moved
            ∙ same_client [] _ (omega (arith, length-append done (c ∷ [])))
                (omega (arith, length-append done (c ∷ []))) refl;
        remote = h.remote;
        requests =
            rw
              (
                moved,
                h.client,
                h.requests,
                skip-append h.client_trace
                    (marked c.func (S.told c.method (value J S conv (past done) c)) ∷ []),
              )
              (append-nil _
                ∙ ap (λ k. request_texts J S conv k waiting)
                    (omega (arith, length-append done (c ∷ []))));
        replies =
            ap tail first
            ∙ ap (λ k. reply_texts J S conv k (past done ++ mark J S conv c ∷ []) flying)
                (omega (arith, length-append done (c ∷ [])))
            ∙ ap (λ x. reply_texts J S conv (n0 + length (done ++ c ∷ [])) x flying)
                (sym (history-append J S conv h0 done (c ∷ [])));
        told =
            marks-append h.client_trace
              (marked c.func (S.told c.method (value J S conv (past done) c)) ∷ [])
            ∙ ap (λ l. l ++ (c.func, S.told c.method (value J S conv (past done) c)) ∷ []) h.told
            ∙ append_assoc (marks c0.trace) _ _
            ∙ ap (λ l. marks c0.trace ++ l) (sym (serial-snoc J S conv h0 done c));
        heard = h.heard ∙ ap past (sym (append_assoc done (c ∷ []) flying));
      }
