-- ===== src/Examples/Requests.antt =====
-- RESP requests of each family, and one from its parsing to the socket.
use momento_proxy.Base.{
  ◌++◌, ◌≤◌, concat_map, length, ◌+◌, ◌≡◌, true, false, some, List, [], ◌∷◌, map, Bytes, codes,
}
use momento_proxy.Metrics.Rpc
use momento_proxy.Context.{Context}
use momento_proxy.Resp.Answers.{response}
use momento_proxy.Frontend.Dispatch.{Request, list, pop, dispatch, dispatch_list}
use momento_proxy.Frontend.Dispatch.Elements.{list_answer, dispatch_list-answer}
use momento_proxy.Frontend.Dispatch.Observed.{ObservedOnce, dispatch-ObservedOnce}
use momento_proxy.Frontend.Dispatch.Names.{rpc_of}
use momento_proxy.Frontend.Socket.{Read, received}
use momento_proxy.Frontend.RespClient.{Round, Connection, Parsed, parsed, round, handle_resp_client}
use momento_proxy.Frontend.RespClient.Rounds.{
  HasSpoken, spoken, round-HasSpoken, answers, handle_resp_client-answers,
}
use momento_proxy.Metrics.Observations.{seen}
use momento_proxy.Frontend.RespClient.Watched.{asked, handle_resp_client-seen}
use momento_proxy.Examples.Service.{floats, service}

abbrev fresh : Context (List Bytes)
fresh = record {
  backend = codes "x" ∷ codes "y" ∷ [];
  events = [];
  response_buf = [];
  recorder = Rpc.new "";
}

dispatch-ObservedOnce_example :
    ObservedOnce
      (rpc_of {F = floats} (list (pop (codes "l") (some 3))))
      (dispatch service "cache" (list (pop (codes "l") (some 3))))
      fresh
dispatch-ObservedOnce_example =
    dispatch-ObservedOnce service "cache" (list (pop (codes "l") (some 3))) fresh

dispatch_list-answer_example :
    response (dispatch_list service "cache" (pop (codes "l") (some 3)) fresh)
    ≡ list_answer service "cache" (pop (codes "l") (some 3)) fresh
dispatch_list-answer_example = dispatch_list-answer service "cache" (pop (codes "l") (some 3)) fresh

-- A pop of three elements where there are two, with another request behind it in what a read brings.
abbrev popping : Request floats
popping = list (pop (codes "l") (some 3))

abbrev pops : Bytes → Parsed floats
pops b = parsed popping 9

abbrev two_requests : Read
two_requests = received (codes "LPOP l 3;LPOP l 3;")

abbrev conn : Connection (List Bytes)
conn = record { context = fresh; buf = []; sent = [] }

round-HasSpoken_example :
    HasSpoken service "cache" pops conn
      (spoken service "cache" pops two_requests conn)
      (round service "cache" pops (record { read = two_requests; write_ok = true }) conn)
round-HasSpoken_example = round-HasSpoken service "cache" pops two_requests conn

handle_resp_client-answers_example :
    ((handle_resp_client service "cache" pops
        (map (λ r. record { read = r; write_ok = true }) (two_requests ∷ []))
        conn).0.sent
      ≡ conn.sent ++ concat_map (λ b. b) (answers service "cache" pops (two_requests ∷ []) conn))
    × (length (answers service "cache" pops (two_requests ∷ []) conn) ≤ length (two_requests ∷ []))
handle_resp_client-answers_example =
    handle_resp_client-answers service "cache" pops (two_requests ∷ []) conn

abbrev rounds : List Round
rounds =
    record { read = two_requests; write_ok = true }
    ∷ record { read = two_requests; write_ok = false }
    ∷ []

handle_resp_client-seen_example :
    seen (handle_resp_client service "cache" pops rounds conn).0.context.events
    ≡ seen conn.context.events + asked service "cache" pops rounds conn
handle_resp_client-seen_example = handle_resp_client-seen service "cache" pops rounds conn
