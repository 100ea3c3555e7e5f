-- ===== src/Session/Pipeline/Serial.antt =====
-- Calls one after the other: what a source that keeps a history answers them, which texts and
-- pending calls belong to them.
use objectlink_core_cpp.Prelude.{ℕ, ◌+◌, ◌<◌, ◌^◌, ◌≡◌, List, [], ◌∷◌, ◌++◌, Option, some, Str}
use objectlink_core_cpp.Exec.{Result, ok, throw}
use objectlink_core_cpp.Name
use objectlink_core_cpp.Map.{nat_key, Map}
use objectlink_core_cpp.Json.{JsonLib}
use objectlink_core_cpp.World.{marked}
use objectlink_core_cpp.Converter.{MessageConverter}
use objectlink_core_cpp.Protocol.{invoke_message, invoke_reply_message}
use objectlink_core_cpp.ClientNode.{ClientWorld, ClientUser}
use objectlink_core_cpp.RemoteNode.{RemoteWorld, RemoteUser}
use objectlink_core_cpp.RemoteNode.Sources.{HasSource}
use objectlink_core_cpp.Session.{Arrives}
use objectlink_core_cpp.Session.Pipeline.{Call, marks}

-- Sources that leave a mark of each call and answer by the marks so far, and reply functions that
-- leave a mark of the value.
pub record Service (J : JsonLib) : Type 0 where
  -- the source of a method
  pub owner : Str → ℕ
  pub heard : Str → J.Json → Str
  pub answer : List (ℕ × Str) → Str → J.Json → J.Json
  pub told : Str → J.Json → Str

pub record IsService (J : JsonLib) (S : Service J) (client_user : ClientUser J)
    (remote_user : RemoteUser J) : Type 0 where
  pub invoked :
      (m : Str) (args : J.Json) (r : RemoteWorld)
      → remote_user.on_invoke (S.owner m) m args r ≡ (
        ok (S.answer (marks r.trace) m args),
        record r { trace = r.trace ++ marked (S.owner m) (S.heard m args) ∷ [] },
      )
  pub replied :
      (func : ℕ) (m : Str) (value : J.Json) (c : ClientWorld)
      → client_user.on_reply func m value c
        ≡ (ok tt, record c { trace = c.trace ++ marked func (S.told m value) ∷ [] })

-- The text of a value.
abbrev text_of : Result Str → Str
text_of (ok s) = s
text_of (throw e) = []

module _ (J : JsonLib) (S : Service J) (conv : MessageConverter) where
  abbrev pub written : J.Json → Str
  written j = text_of (J.encode conv.format j)

  -- A value has a text, which a receiver reads as the value.
  pub record IsCarried (j : J.Json) : Type 0 where
    pub encoded : J.encode conv.format j ≡ ok (written j)
    pub arrives : Arrives J conv j (written j)

  abbrev pub mark : Call J → ℕ × Str
  mark c = (S.owner c.method, S.heard c.method c.args)

  abbrev pub value : List (ℕ × Str) → Call J → J.Json
  value h c = S.answer h c.method c.args

  -- Calls made one after the other, each with the mark that its value leaves.
  abbrev pub serial : List (ℕ × Str) → List (Call J) → List (ℕ × Str)
  serial h [] = []
  serial h (c ∷ cs) = (c.func, S.told c.method (value h c)) ∷ serial (h ++ mark c ∷ []) cs

  -- The texts of calls when `n` were made before, and of their replies.
  abbrev pub request : ℕ → Call J → J.Json
  request n c = invoke_message J (n + 1) c.method c.args

  abbrev pub reply : ℕ → List (ℕ × Str) → Call J → J.Json
  reply n h c = invoke_reply_message J (n + 1) c.method (value h c)

  abbrev pub request_texts : ℕ → List (Call J) → List Str
  request_texts n [] = []
  request_texts n (c ∷ cs) = written (request n c) ∷ request_texts (n + 1) cs

  abbrev pub reply_texts : ℕ → List (ℕ × Str) → List (Call J) → List Str
  reply_texts n h [] = []
  reply_texts n h (c ∷ cs) = written (reply n h c) ∷ reply_texts (n + 1) (h ++ mark c ∷ []) cs

  abbrev pub pending : ℕ → List (Call J) → Map ℕ (Option ℕ)
  pending n [] = []
  pending n (c ∷ cs) = (n + 1, some c.func) ∷ pending (n + 1) cs

  -- A call that has an id left, a source that is there, and texts that arrive.
  pub record Travels (r : RemoteWorld) (n : ℕ) (h : List (ℕ × Str)) (c : Call J) : Type 0 where
    pub numbered : n + 1 < 2 ^ 32
    pub owned : HasSource (Name.get_object_id c.method) (S.owner c.method) r
    pub asked : IsCarried (request n c)
    pub answered : IsCarried (reply n h c)

  abbrev pub AllTravel : RemoteWorld → ℕ → List (ℕ × Str) → List (Call J) → Type 0
  AllTravel r n h [] = Unit
  AllTravel r n h (c ∷ cs) = Travels r n h c × AllTravel r (n + 1) (h ++ mark c ∷ []) cs
