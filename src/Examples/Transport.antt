-- ===== src/Examples/Transport.antt =====
-- examples/qtolink/olinkclient.h and .cpp, olinkremote.h and .cpp: how messages get to a Qt web
-- socket. The socket is what it is asked to send, and whether its state is ConnectedState, which Qt
-- changes; the texts of Qt and their conversions are parameters.
use objectlink_core_cpp.Prelude.{
  ◌≡◌, refl, sym, ap, ◌∙◌, Bool, true, false, List, [], ◌∷◌, ◌++◌, Str, if◌then◌else◌, Bool-cases,
  inl, inr,
}
use mathlib.Core.List.{map, append-nil, append_assoc, map-append}

-- The members of `OLinkClient` that its messages go through, and the calls of sendTextMessage.
pub record OLinkClient (Q : Type 0) : Type 0 where
  pub connected : Bool
  pub queue : List Str
  pub sent : List Q

-- What happens to a client: its node writes a message, Qt tells that the socket is connected, having
-- changed the state, or that it is disconnected, or has changed the state otherwise (as when it opens
-- or closes the connection), and any call of processMessages.
pub data Input : Type 0 where
  writes : Str → Input
  connects disconnects leaves processes : Input

module _ {Q : Type 0} (from_std_string : Str → Q) where
  -- while(!m_queue.isEmpty()) { … m_queue.dequeue() … }
  unfoldable pub send_each : List Str → List Q → List Q
  send_each [] sent = sent
  send_each (m ∷ queue) sent = send_each queue (sent ++ from_std_string m ∷ [])

  unfoldable pub process_messages : OLinkClient Q → OLinkClient Q
  process_messages c =
      if c.connected then record c { queue = []; sent = send_each c.queue c.sent } else c

  -- The function that the constructor gives to `onWrite`.
  unfoldable pub write : Str → OLinkClient Q → OLinkClient Q
  write msg c = process_messages (record c { queue = c.queue ++ msg ∷ [] })

  unfoldable pub on_connected : OLinkClient Q → OLinkClient Q
  on_connected c = process_messages c

  unfoldable pub on_disconnected : OLinkClient Q → OLinkClient Q
  on_disconnected c = c

  -- `OLinkRemote::writeMessage`, whose socket is never null.
  unfoldable pub write_message : Str → List Q → List Q
  write_message msg sent = sent ++ from_std_string msg ∷ []

  abbrev pub happen : Input → OLinkClient Q → OLinkClient Q
  happen (writes msg) c = write msg c
  happen connects c = on_connected (record c { connected = true })
  happen disconnects c = on_disconnected (record c { connected = false })
  happen leaves c = record c { connected = false }
  happen processes c = process_messages c

  abbrev pub happen_all : List Input → OLinkClient Q → OLinkClient Q
  happen_all [] c = c
  happen_all (i ∷ is) c = happen_all is (happen i c)

  -- The messages that are written, in order.
  abbrev pub written : List Input → List Str
  written [] = []
  written (writes msg ∷ is) = msg ∷ written is
  written (_ ∷ is) = written is

  -- Nothing waits while the socket is connected.
  abbrev pub IsSettled : OLinkClient Q → Type 0
  IsSettled c = c.connected ≡ true → c.queue ≡ []

  -- What a client sent and will send.
  abbrev stream : OLinkClient Q → List Q
  stream c = c.sent ++ map from_std_string c.queue

  send_each_lem :
      (queue : List Str) (sent : List Q) → send_each queue sent ≡ sent ++ map from_std_string queue
  unfolding send_each
  send_each_lem [] sent = sym (append-nil sent)
  send_each_lem (m ∷ queue) sent =
      send_each_lem queue (sent ++ from_std_string m ∷ [])
      ∙ append_assoc sent (from_std_string m ∷ []) (map from_std_string queue)

  process_messages-keeps :
      (c : OLinkClient Q)
      → (stream (process_messages c) ≡ stream c)
        × IsSettled (process_messages c)
        × ((process_messages c).connected ≡ c.connected)
  unfolding process_messages
  process_messages-keeps c = elim (Bool-cases c.connected) [
    | inl e ↦ simp e (append-nil _ ∙ send_each_lem c.queue c.sent, (λ _. refl), refl)
    | inr e ↦ simp e (refl, (λ h. absurd cc), refl)
  ]

  -- A message that waits or is sent, and what leaves the queue alone.
  process_messages-stream : (c : OLinkClient Q) → stream (process_messages c) ≡ stream c ++ []
  process_messages-stream c = (process_messages-keeps c).0 ∙ sym (append-nil (stream c))

  stream-write :
      (msg : Str) (c : OLinkClient Q) → stream (write msg c) ≡ stream c ++ from_std_string msg ∷ []
  unfolding write
  stream-write msg c =
      (process_messages-keeps (record c { queue = c.queue ++ msg ∷ [] })).0
      ∙ ap (λ l. c.sent ++ l) (map-append from_std_string c.queue (msg ∷ []))
      ∙ sym (append_assoc c.sent (map from_std_string c.queue) (from_std_string msg ∷ []))

  happen-keeps :
      (i : Input) (c : OLinkClient Q)
      → IsSettled c
      → (stream (happen i c) ≡ stream c ++ map from_std_string (written (i ∷ [])))
        × IsSettled (happen i c)
  unfolding write on_connected on_disconnected
  happen-keeps (writes msg) c h =
      (stream-write msg c, (process_messages-keeps (record c { queue = c.queue ++ msg ∷ [] })).1)
  happen-keeps connects c h = (
    process_messages-stream (record c { connected = true }),
    (process_messages-keeps (record c { connected = true })).1,
  )
  happen-keeps disconnects c h = (sym (append-nil (stream c)), λ e. absurd cc)
  happen-keeps leaves c h = (sym (append-nil (stream c)), λ e. absurd cc)
  happen-keeps processes c h = (process_messages-stream c, (process_messages-keeps c).1)

  written-cons : (i : Input) (is : List Input) → written (i ∷ is) ≡ written (i ∷ []) ++ written is
  written-cons (writes msg) is = refl
  written-cons connects is = refl
  written-cons disconnects is = refl
  written-cons leaves is = refl
  written-cons processes is = refl

  happen_all-keeps :
      (is : List Input) (c : OLinkClient Q)
      → IsSettled c
      → (stream (happen_all is c) ≡ stream c ++ map from_std_string (written is))
        × IsSettled (happen_all is c)
  happen_all-keeps [] c h = (sym (append-nil (stream c)), h)
  happen_all-keeps (i ∷ is) c h =
      let (one, settled) = happen-keeps i c h in
      let (rest, kept) = happen_all-keeps is (happen i c) settled in
      let f = from_std_string in
      (
        rest
            ∙ ap (λ l. l ++ map f (written is)) one
            ∙ append_assoc (stream c) (map f (written (i ∷ []))) (map f (written is))
            ∙ ap (λ l. stream c ++ l)
                (sym (map-append f (written (i ∷ [])) (written is))
                  ∙ ap (map f) (sym (written-cons i is))),
        kept,
      )

  -- The queue of the Qt client: whatever happens to the socket, what a new client is asked to write
  -- was sent or still waits, in order, nothing being lost or sent twice, and all of it was sent
  -- when the socket is connected.
  pub all_sent :
      (is : List Input) (c : OLinkClient Q)
      → c.queue ≡ []
      → c.sent ≡ []
      → let c' = happen_all is c in
        (c'.sent ++ map from_std_string c'.queue ≡ map from_std_string (written is))
        × (c'.connected ≡ true → c'.sent ≡ map from_std_string (written is))
  all_sent is c q e =
      let (flow, settled) = happen_all-keeps is c (λ h. q) in
      let all =
        flow
        ∙ ap (λ l. l ++ map from_std_string (written is))
            (ap (λ l. l ++ map from_std_string c.queue) e ∙ ap (map from_std_string) q) in
      (
        all,
        λ h.
            sym (append-nil _)
            ∙ ap (λ l. (happen_all is c).sent ++ map from_std_string l) (sym (settled h))
            ∙ all,
      )
