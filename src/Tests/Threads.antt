-- ===== src/Tests/Threads.antt =====
-- Two threads on a client node: one enters a call, another takes out its reply function.
use objectlink_core_cpp.Prelude.{◌≤◌, ◌≡◌, refl, [], ◌∷◌, some, arith}
use objectlink_core_cpp.Map.{nat_key, find, insert}
use objectlink_core_cpp.ClientNode.{ClientWorld, enter_invoke}
use objectlink_core_cpp.ClientNode.Invokes.{forget, take_invoke-some}
use objectlink_core_cpp.ClientNode.Threads.{
  System, Step, enter, take, Reach, here, next, IsFresh, sends, answers, answer, times, IsAccounted,
}
use objectlink_core_cpp.ClientNode.Threads.Accounts.{Reach-IsAccounted}
use objectlink_core_cpp.ClientNode.Threads.Fate.{called_once, can_be_answered}
use objectlink_core_cpp.Tests.Clients.{client}

abbrev idle : ClientWorld
idle = record client {
  node = record client.node { derived = record client.node.derived { invokes_pending = [] } };
}

abbrev start : System
start = record { world = idle; running = []; entered = []; called = [] }

start-IsFresh : IsFresh start
start-IsFresh = (refl, refl, refl, refl)

abbrev calling : ClientWorld
calling = (enter_invoke (some 60) idle).1

abbrev after_enter : System
after_enter = record {
  world = calling;
  running = sends 6 ∷ [];
  entered = (6, 60) ∷ [];
  called = [];
}

enters : Step start after_enter
unfolding enter_invoke
enters = enter (some 60) 6 calling (omega arith) refl

abbrev taken : ClientWorld
taken = forget 6 calling

-- The other thread takes the function out before the first has written its message.
abbrev after_take : System
after_take = record after_enter { world = taken; running = answers 6 (some 60) ∷ sends 6 ∷ [] }

takes : Step after_enter after_take
unfolding find enter_invoke insert
takes = take 6 (some 60) taken (take_invoke-some 6 (some 60) calling refl)

abbrev after_answer : System
after_answer = record after_take { running = sends 6 ∷ []; called = (6, 60) ∷ [] }

answered : Step after_take after_answer
answered = answer 6 (some 60) [] (sends 6 ∷ []) taken refl refl

reached : Reach start after_answer
reached = next (next (next here enters) takes) answered

entered_once : times 6 60 after_enter.entered ≡ 1
unfolding times
entered_once = refl

Reach-IsAccounted_example : IsAccounted after_answer
Reach-IsAccounted_example = Reach-IsAccounted start-IsFresh reached

called_once_example :
    (times 6 60 after_answer.called ≤ times 6 60 after_answer.entered)
    × (times 6 60 after_answer.entered ≤ 1)
called_once_example = called_once start-IsFresh reached 6 60

can_be_answered_example : (u : System) × Reach after_enter u × (times 6 60 u.called ≡ 1)
can_be_answered_example = can_be_answered start-IsFresh (next here enters) 6 60 entered_once
