-- ===== src/ClientNode/Threads.antt =====
-- The pending calls of a client that several threads use (`m_pendingInvokesMutex` of ClientNode): a
-- step is a locked section of `invokeRemote`, `handleInvokeReply` or `handleError`, or what a thread
-- does outside of one, in any order.
use objectlink_core_cpp.Prelude.{
  ℕ, ◌+◌, ◌^◌, ◌≤◌, ◌<◌, ◌≡◌, refl, Bool, true, false, ◌&&◌, List, [], ◌∷◌, ◌++◌, Option, none,
  some, arith, ◌==◌, if◌then◌else◌,
}
use objectlink_core_cpp.Exec.{ok}
use objectlink_core_cpp.Map.{nat_key, find}
use objectlink_core_cpp.ClientNode.{ClientWorld, enter_invoke, take_invoke}
use objectlink_core_cpp.ClientNode.Invokes.{IsBounded}
pub mod Accounts
pub mod Fate

-- What a thread has yet to do after it left a locked section.
pub data Activity : Type 0 where
  -- to write the message of a call with its request id
  sends : ℕ → Activity
  -- to call the reply function that was taken out for a request id, or to warn
  answers : ℕ → Option ℕ → Activity

-- The node, what its threads have yet to do, and two histories: the calls with a reply function that
-- were entered, and those whose reply function was called, by request id and function.
pub record System : Type 0 where
  pub world : ClientWorld
  pub running : List Activity
  pub entered : List (ℕ × ℕ)
  pub called : List (ℕ × ℕ)

abbrev pub noted : ℕ → Option ℕ → List (ℕ × ℕ) → List (ℕ × ℕ)
noted id none l = l
noted id (some f) l = (id, f) ∷ l

-- What leaves the pending calls alone: writing, logging, user code.
abbrev pub KeepsCalls : ClientWorld → ClientWorld → Type 0
KeepsCalls w w' = w'.node.derived ≡ w.node.derived

pub data Step (s : System) : System → Type 0 where
  -- the locked section of `invokeRemote`, while request ids are left
  enter :
      (func : Option ℕ) (id : ℕ) (w : ClientWorld)
      → s.world.node.derived.next_request_id + 1 < 2 ^ 32
      → enter_invoke func s.world ≡ (ok id, w)
      → Step s (record {
        world = w;
        running = sends id ∷ s.running;
        entered = noted id func s.entered;
        called = s.called;
      })
  -- the locked section of `handleInvokeReply` and `handleError`
  take :
      (id : ℕ) (func : Option ℕ) (w : ClientWorld)
      → take_invoke id s.world ≡ (ok func, w)
      → Step s (record s { world = w; running = answers id func ∷ s.running })
  -- a thread writes its message, or fails to
  send :
      (id : ℕ) (before after : List Activity) (w : ClientWorld)
      → s.running ≡ before ++ sends id ∷ after
      → KeepsCalls s.world w
      → Step s (record s { world = w; running = before ++ after })
  -- a thread calls the reply function; calls that it makes are steps of their own
  answer :
      (id : ℕ) (func : Option ℕ) (before after : List Activity) (w : ClientWorld)
      → s.running ≡ before ++ answers id func ∷ after
      → KeepsCalls s.world w
      → Step s (record s { world = w; running = before ++ after; called = noted id func s.called })
  -- anything else that a thread does
  other : (w : ClientWorld) → KeepsCalls s.world w → Step s (record s { world = w })

-- The start: no call was made.
abbrev pub IsFresh : System → Type 0
IsFresh s =
    (s.world.node.derived.invokes_pending ≡ [])
    × (s.running ≡ [])
    × (s.entered ≡ [])
    × (s.called ≡ [])

pub data Reach (s : System) : System → Type 0 where
  here : Reach s s
  next : {t u : System} → Reach s t → Step t u → Reach s u

abbrev pub bit : Bool → ℕ
bit b = if b then 1 else 0

-- How often a call stands in a history, and how often an id does.
unfoldable pub times : ℕ → ℕ → List (ℕ × ℕ) → ℕ
times id f [] = 0
times id f ((i, g) ∷ l) = bit (i == id && g == f) + times id f l

unfoldable pub uses : ℕ → List (ℕ × ℕ) → ℕ
uses id [] = 0
uses id ((i, g) ∷ l) = bit (i == id) + uses id l

-- How many threads are about to call the function for the id.
abbrev pub is_due : ℕ → ℕ → Activity → ℕ
is_due id f (sends i) = 0
is_due id f (answers i none) = 0
is_due id f (answers i (some g)) = bit (i == id && g == f)

unfoldable pub due : ℕ → ℕ → List Activity → ℕ
due id f [] = 0
due id f (a ∷ l) = is_due id f a + due id f l

-- One while the call is pending.
abbrev pub waits : ℕ → Option (Option ℕ) → ℕ
waits f none = 0
waits f (some none) = 0
waits f (some (some g)) = bit (g == f)

pub record IsAccounted (s : System) : Type 0 where
  -- a call that was entered is pending, about to be answered, or answered
  pub balance :
      (id f : ℕ)
      → waits f (find id s.world.node.derived.invokes_pending)
          + due id f s.running
          + times id f s.called
        ≡ times id f s.entered
  pub once : (id : ℕ) → uses id s.entered ≤ 1
  pub given : (id : ℕ) → s.world.node.derived.next_request_id < id → uses id s.entered ≡ 0
  pub bounded : IsBounded s.world.node.derived
