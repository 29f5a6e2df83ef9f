-- ===== src/Examples/Remote.antt =====
-- The memory server and the TCP backend.
use distributed_uvm.Prelude.{
  ℕ, ◌^◌, ◌<◌, ◌≡◌, refl, true, none, some, List, [], ◌∷◌, ◌++◌, arith, replicate, length-replicate,
}
use distributed_uvm.Prelude.Outcome.{Outcome, ok}
use distributed_uvm.Prelude.HashMap.{contains_key, lookup}
use distributed_uvm.Common.Page.{PageBuffer, page_size, offset}
use distributed_uvm.Backends.Contract.{IsPage}
use distributed_uvm.Backends.Tcp.{
  TcpBackend, ConnState, Env, unreachable, new_tcp, with_stream, store_page, load_page, store_op,
}
use distributed_uvm.Backends.Tcp.Breaker.{Settled, with_stream-Settled}
use distributed_uvm.Backends.Tcp.Remote.{Wire, wire, idle, attached, remote_store_load}
use distributed_uvm.Memserver.{PageStore, new_store, store, handle_client}
use distributed_uvm.Memserver.Session.{
  Request, alloc_request, store_request, load_request, free_request, encode_all, answer_all,
  handle_client-encode,
}
use distributed_uvm.Memserver.Accept.{
  Connections, is_rejected, take, finish, finish_all, Reach, none_yet, taken as was_taken, finished,
  IsCounted, connections-IsCounted,
}
use distributed_uvm.Memserver.Bounded.{IsBounded, handle_client-IsBounded}

abbrev page : PageBuffer
page = replicate page_size 7

page-IsPage : IsPage page
page-IsPage = length-replicate {A = ℕ} page_size 7

abbrev server : PageStore
server = new_store 2

abbrev requests : List Request
requests =
    alloc_request ∷ store_request 0 page ∷ load_request 0 ∷ free_request 0 ∷ load_request 0 ∷ []

handle_client-encode_example :
    handle_client 6 server (encode_all requests) []
    ≡ some ((answer_all requests server).0, [] ++ (answer_all requests server).1, ok tt)
handle_client-encode_example =
    handle_client-encode requests server [] 6
      (tt, ((omega arith, page-IsPage), (omega arith, (omega arith, (omega arith, tt)))))
      (omega arith)

server-IsBounded : IsBounded server
server-IsBounded = record { distinct = tt; fits = omega arith }

handle_client-IsBounded_example :
    (s' : PageStore) × (output' : List ℕ) × (result : Outcome (Unit {0})) × (handle_client 4 server
        (4 ∷ 77 ∷ 1 ∷ [])
        []
      ≡ some (s', output', result))
    × IsBounded s'
handle_client-IsBounded_example =
    handle_client-IsBounded 4 server (4 ∷ 77 ∷ 1 ∷ []) [] server-IsBounded (omega arith)

abbrev offline : Env Wire
offline = record { now = 70; dial = unreachable; elapsed = 5 }

abbrev backend : TcpBackend Wire
backend = new_tcp 10

taken : (store server (offset 0) page).1 ≡ true
unfolding store contains_key lookup offset
taken = refl

remote_store_load_example :
    let b' : TcpBackend Wire × Outcome (Unit {0}) =
      store_page wire offline (attached backend server) 0 page in
    (b'.1 ≡ ok tt) × ((load_page wire offline b'.0 0).1 ≡ ok page)
remote_store_load_example =
    remote_store_load offline offline backend server 0 page page-IsPage taken

abbrev live : ConnState Wire
live = record { stream = some (idle server); consecutive_failures = 0; last_attempt = none }

with_stream-Settled_example : Settled (with_stream offline (store_op wire 0 page) live)
with_stream-Settled_example = with_stream-Settled offline (store_op wire 0 page) live refl

abbrev tripped : ConnState Wire
tripped = record { stream = none; consecutive_failures = 5; last_attempt = some 60 }

no_pages : backend.pages_used < 2 ^ 64
no_pages = unfold new_tcp in omega arith

-- A client comes and leaves, and another one comes.
abbrev nobody : Connections
nobody = record { active_conns = 0; threads = 0 }

abbrev one_client : Connections
one_client = take (finish_all 0 nobody)

one_comes : Reach 1 one_client
unfolding is_rejected
one_comes = was_taken 0 (omega arith) none_yet refl

next_comes : Reach 1 (take (finish_all 0 (finish one_client)))
unfolding is_rejected take finish finish_all
next_comes = was_taken 0 (omega arith) (finished (omega arith) one_comes) refl

connections-IsCounted_example : IsCounted 1 (take (finish_all 0 (finish one_client)))
connections-IsCounted_example =
    connections-IsCounted 1 (omega arith) (omega arith) (take (finish_all 0 (finish one_client)))
      next_comes
