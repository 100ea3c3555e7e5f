-- ===== src/Session/Pipeline.antt =====
-- A client node and a remote node with a transport between them that hands each what the other
-- writes, once and in order: calls of `invokeRemote`, and deliveries of texts to `handleMessage`, in
-- any order, with any number of texts under way.
use objectlink_core_cpp.Prelude.{
  ℕ, zero, suc, ◌≡◌, refl, ap, List, [], ◌∷◌, ◌++◌, some, Str, length,
}
use objectlink_core_cpp.Json.{JsonLib}
use objectlink_core_cpp.World.{World, Event, logged, wrote, marked}
use objectlink_core_cpp.ClientNode
use objectlink_core_cpp.ClientNode.{ClientWorld, ClientUser, invoke_remote}
use objectlink_core_cpp.RemoteNode
use objectlink_core_cpp.RemoteNode.{RemoteWorld, RemoteUser}
pub mod Serial
pub mod Numbering
pub mod Moves
pub mod Invariant
pub mod Splits
pub mod Answers

-- The texts that a trace gives to the write function.
abbrev pub texts : List Event → List Str
texts [] = []
texts (wrote func s ∷ es) = s ∷ texts es
texts (logged func level s ∷ es) = texts es
texts (marked who s ∷ es) = texts es

-- The marks that user code leaves in a trace.
abbrev pub marks : List Event → List (ℕ × Str)
marks [] = []
marks (wrote func s ∷ es) = marks es
marks (logged func level s ∷ es) = marks es
marks (marked who s ∷ es) = (who, s) ∷ marks es

abbrev pub skip : {A : Type 0} → ℕ → List A → List A
skip zero xs = xs
skip (suc n) [] = []
skip (suc n) (x ∷ xs) = skip n xs

-- What was written between two states of a node.
abbrev pub written_since : {N R : Type 0} → World N R → World N R → List Str
written_since w w' = texts (skip (length w.trace) w'.trace)

pub skip-append : {A : Type 0} (xs ys : List A) → skip (length xs) (xs ++ ys) ≡ ys
skip-append [] ys = refl
skip-append (x ∷ xs) ys = skip-append xs ys

pub marks-append : (xs ys : List Event) → marks (xs ++ ys) ≡ marks xs ++ marks ys
marks-append [] ys = refl
marks-append (wrote func s ∷ xs) ys = marks-append xs ys
marks-append (logged func level s ∷ xs) ys = marks-append xs ys
marks-append (marked who s ∷ xs) ys = ap (λ l. (who, s) ∷ l) (marks-append xs ys)

-- The two nodes, and what each wrote that the other has not yet got.
pub record Pipe : Type 0 where
  pub client : ClientWorld
  pub remote : RemoteWorld
  pub requests : List Str
  pub replies : List Str

abbrev pub client_becomes : ClientWorld → Pipe → Pipe
client_becomes c p = record p { client = c; requests = p.requests ++ written_since p.client c }

abbrev pub remote_becomes : RemoteWorld → Pipe → Pipe
remote_becomes r p = record p { remote = r; replies = p.replies ++ written_since p.remote r }

-- A call: its method id, its arguments and its reply function.
pub record Call (J : JsonLib) : Type 0 where
  pub method : Str
  pub args : J.Json
  pub func : ℕ

module _ (J : JsonLib) (client_user : ClientUser J) (remote_user : RemoteUser J) where
  abbrev pub make_call : Call J → Pipe → Pipe
  make_call c p =
      client_becomes (invoke_remote J client_user c.method c.args (some c.func) p.client).1 p

  -- The remote node gets the first text; the texts after it wait.
  abbrev pub serve : Str → List Str → Pipe → Pipe
  serve q rest p =
      remote_becomes (RemoteNode.handle_message J remote_user q p.remote).1
        (record p { requests = rest })

  abbrev pub receive : Str → List Str → Pipe → Pipe
  receive a rest p =
      client_becomes (ClientNode.handle_message J client_user a p.client).1
        (record p { replies = rest })

  -- What can come of a start by calls, in their order, and deliveries.
  pub data Runs (p0 : Pipe) : List (Call J) → Pipe → Type 0 where
    start : Runs p0 [] p0
    calls :
        {cs : List (Call J)} {p : Pipe} (c : Call J)
        → Runs p0 cs p
        → Runs p0 (cs ++ c ∷ []) (make_call c p)
    serves :
        {cs : List (Call J)} {p : Pipe} (q : Str) (rest : List Str)
        → Runs p0 cs p
        → p.requests ≡ q ∷ rest
        → Runs p0 cs (serve q rest p)
    receives :
        {cs : List (Call J)} {p : Pipe} (a : Str) (rest : List Str)
        → Runs p0 cs p
        → p.replies ≡ a ∷ rest
        → Runs p0 cs (receive a rest p)
