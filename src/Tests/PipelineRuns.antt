-- ===== src/Tests/PipelineRuns.antt =====
-- Two calls at once, on concrete values: the second is made before the first is served.
use objectlink_core_cpp.Prelude.{◌+◌, ◌≡◌, refl, ap, List, [], ◌∷◌, ◌++◌, text, arith, length}
use objectlink_core_cpp.Types.{pos}
use objectlink_core_cpp.Map.{str_key}
use objectlink_core_cpp.Protocol.{invoke_message, invoke_reply_message}
use objectlink_core_cpp.Session.Pipeline.{
  Call, Pipe, Runs, start, calls, serves, receives, marks, make_call, serve, receive,
}
use objectlink_core_cpp.Session.Pipeline.Serial.{AllTravel, serial, pending}
use objectlink_core_cpp.Session.Pipeline.Splits.{load, Delivers, none, to_client, at_rest}
use objectlink_core_cpp.Session.Pipeline.Invariant.{call-Holds, serve-Holds, receive-Holds}
use objectlink_core_cpp.Session.Pipeline.Answers.{answers_in_order, all_answered, settles}
use objectlink_core_cpp.Tests.Toy.{number, null, lib, values, print}
use objectlink_core_cpp.Tests.Remotes.{remote}
use objectlink_core_cpp.Tests.Pipelines.{
  counter, client_user, remote_user, counter-IsService, client, converter, nodes-IsReady,
  first_call, second_call, first-Travels, second-Travels, Between, request_of, reply_of,
}

-- both calls made
abbrev called : Pipe
called =
    make_call lib client_user remote_user second_call
      (make_call lib client_user remote_user first_call (at_rest client remote))

called-Holds : Between [] [] (first_call ∷ second_call ∷ []) called
called-Holds =
    call-Holds lib values client_user remote_user counter counter-IsService converter 4 4 client
      remote nodes-IsReady [] [] (first_call ∷ []) second_call _
      (call-Holds lib values client_user remote_user counter counter-IsService converter 4 4 client
        remote nodes-IsReady [] [] [] first_call (at_rest client remote)
        (record {
          client_error = [];
          client_trace = [];
          remote_error = [];
          remote_trace = [];
          client = refl;
          remote = refl;
          requests = refl;
          replies = refl;
          told = refl;
          heard = refl;
        })
        first-Travels)
      second-Travels

abbrev called_runs :
    Runs lib client_user remote_user (at_rest client remote) (first_call ∷ second_call ∷ []) called
called_runs = calls second_call (calls first_call start)

-- the first call served, the second still waiting
abbrev served : Pipe
served =
    serve lib client_user remote_user (request_of 1 null) (request_of 2 (number (pos 2)) ∷ [])
      called

called_requests : called.requests ≡ request_of 1 null ∷ request_of 2 (number (pos 2)) ∷ []
unfolding invoke_message
called_requests = called-Holds.requests

served-Holds : Between [] (first_call ∷ []) (second_call ∷ []) served
served-Holds =
    serve-Holds lib values client_user remote_user counter counter-IsService converter 4 4 client
      remote nodes-IsReady [] [] (second_call ∷ []) first_call _ _ called called-Holds
      called_requests first-Travels

served_runs :
    Runs lib client_user remote_user (at_rest client remote) (first_call ∷ second_call ∷ []) served
served_runs = serves _ _ called_runs called_requests

served_replies : served.replies ≡ reply_of 1 (number (pos 0)) ∷ []
unfolding invoke_reply_message
served_replies = served-Holds.replies

-- the first call answered
abbrev answered : Pipe
answered = receive lib client_user remote_user (reply_of 1 (number (pos 0))) [] served

answered-Holds : Between (first_call ∷ []) [] (second_call ∷ []) answered
answered-Holds =
    receive-Holds lib values client_user remote_user counter counter-IsService converter 4 4 client
      remote nodes-IsReady [] [] (second_call ∷ []) first_call _ _ served served-Holds
      served_replies first-Travels

answered_runs :
    Runs lib client_user remote_user
      (at_rest client remote)
      (first_call ∷ second_call ∷ [])
      answered
answered_runs = receives _ _ served_runs served_replies

answered_requests : answered.requests ≡ request_of 2 (number (pos 2)) ∷ []
unfolding invoke_message
answered_requests = answered-Holds.requests

abbrev served_again : Pipe
served_again = serve lib client_user remote_user (request_of 2 (number (pos 2))) [] answered

served_again-Holds : Between (first_call ∷ []) (second_call ∷ []) [] served_again
served_again-Holds =
    serve-Holds lib values client_user remote_user counter counter-IsService converter 4 4 client
      remote nodes-IsReady (first_call ∷ []) [] [] second_call _ _ answered answered-Holds
      answered_requests second-Travels

served_again_replies : served_again.replies ≡ reply_of 2 (number (pos 1)) ∷ []
unfolding invoke_reply_message
served_again_replies = served_again-Holds.replies

abbrev settled : Pipe
settled = receive lib client_user remote_user (reply_of 2 (number (pos 1))) [] served_again

settled-Holds : Between (first_call ∷ second_call ∷ []) [] [] settled
settled-Holds =
    receive-Holds lib values client_user remote_user counter counter-IsService converter 4 4 client
      remote nodes-IsReady (first_call ∷ []) [] [] second_call _ _ served_again served_again-Holds
      served_again_replies second-Travels

settled_runs :
    Runs lib client_user remote_user (at_rest client remote) (first_call ∷ second_call ∷ []) settled
settled_runs = receives _ _ (serves _ _ answered_runs answered_requests) served_again_replies

none_left : load settled ≡ 0
none_left = omega (arith, ap length settled-Holds.requests, ap length settled-Holds.replies)

calls_travel : AllTravel lib counter converter remote 0 [] (first_call ∷ second_call ∷ [])
calls_travel = (first-Travels, (second-Travels, tt))

-- the second call is made when the first is still to be answered
answers_in_order_example :
    (done rest : List (Call lib)) × (first_call ∷ second_call ∷ [] ≡ done ++ rest)
    × (marks answered.client.trace ≡ serial lib counter converter [] done)
    × (answered.client.node.derived.invokes_pending
        ≡ pending lib counter converter (0 + length done) rest)
answers_in_order_example =
    answers_in_order lib values client_user remote_user counter counter-IsService converter 4 4
      client remote nodes-IsReady refl answered_runs calls_travel

settles_example :
    (1 + load answered ≡ load served)
    × ((u : Pipe) × Delivers lib client_user remote_user answered (load answered) u × (load u ≡ 0))
settles_example =
    settles lib values client_user remote_user counter counter-IsService converter 4 4 client remote
      nodes-IsReady refl served_runs calls_travel (to_client _ _ none served_replies)

all_answered_example :
    (marks settled.client.trace
      ≡ (60, text "demo/inc" ++ print (number (pos 0)))
        ∷ (61, text "demo/inc" ++ print (number (pos 1)))
        ∷ [])
    × (marks settled.remote.trace ≡ (7, text "demo/inc") ∷ (7, text "demo/inc") ∷ [])
    × (settled.client.node.derived.invokes_pending ≡ [])
all_answered_example =
    all_answered lib values client_user remote_user counter counter-IsService converter 4 4 client
      remote nodes-IsReady refl settled_runs calls_travel none_left
