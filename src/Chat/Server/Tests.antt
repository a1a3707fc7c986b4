-- ===== src/Chat/Server/Tests.antt =====
-- The theorems on the server and the client at a concrete table and concrete input.
use linux_learn_demo_code.Base.{
  ℕ, zero, suc, ◌<◌, true, false, none, some, List, [], ◌∷◌, ◌++◌, replicate, ◌==◌, Fresh, Distinct,
  ◌≡◌, ◌≢◌, ◌↔◌, refl, arith, ◌⊎◌, ◌↔◌,
}
use linux_learn_demo_code.Text.{c_string, chop}
use linux_learn_demo_code.Chat.Server.{
  Address, ClientInfo, Server, Net, ThreadArgs, add_loop, remove_loop, add_client, remove_client,
  new_connection, handle_read, leave, chat_line, client_of, no_client,
}
use linux_learn_demo_code.Chat.Client.{send_loop}
use linux_learn_demo_code.Chat.Server.Slots.{sockets, has_room}
use linux_learn_demo_code.Chat.Server.Table.{IsConsistent, add_client-IsConsistent}
use linux_learn_demo_code.Chat.Server.Threads.{goes_on, first_free, new_connection_client}
use linux_learn_demo_code.Chat.Server.Shutdown.{
  Process, Comes, here, after, sigint, IsOpen, sigint-ends,
}
use linux_learn_demo_code.Chat.Server.Race.{leave_all, add_and_point, add_and_point_lem}
use linux_learn_demo_code.Text.{same_text}
use linux_learn_demo_code.Chat.Client.{receive_step}
use linux_learn_demo_code.Chat.Conversation.{one_read, typed-shown}
use linux_learn_demo_code.Chat.Server.Reach.{
  empty, IsReached, start, connect, reads, leaves, IsServed, IsReached-IsServed,
}

abbrev net : Net
net = record {
  inet_ntop = λ a. a ∷ [];
  ntohs = λ p. p;
  show_int = λ n. n ∷ [];
  welcome = λ ip port. 1 ∷ ip;
  joined = λ ip port. 2 ∷ ip;
  left = λ ip port. 3 ∷ ip;
}

abbrev address : Address
address = record { sin_addr = 10; sin_port = 99 }

abbrev client : ℕ → ClientInfo
client fd = record { sockfd = fd; addr = address; ip = 10 ∷ []; port = 99 }

-- Three clients came, and the first of them left.
abbrev table : List ClientInfo
table = no_client ∷ client 5 ∷ client 6 ∷ replicate 27 no_client

abbrev server : Server
server = record { clients = table; client_count = 2 }

server-IsConsistent : IsConsistent server
server-IsConsistent = record {
  slots = refl;
  counted = refl;
  distinct = (((λ e. omega (arith, e)), tt), (tt, tt));
}

new : Fresh 7 (sockets table)
new = ((λ e. omega (arith, e)), ((λ e. omega (arith, e)), tt))

add_client-IsConsistent_example :
    IsConsistent (add_client net 7 address server)
    × (((has_room table ≡ true)
          × ((add_client net 7 address server).client_count ≡ 3)
          × (sockets (remove_client 7 (add_client net 7 address server)).clients ≡ 5 ∷ 6 ∷ [])
          × ((remove_client 7 (add_client net 7 address server)).client_count ≡ 2))
        ⊎ ((has_room table ≡ false) × (add_client net 7 address server ≡ server)))
add_client-IsConsistent_example =
    add_client-IsConsistent net 7 address server (λ e. omega (arith, e)) new server-IsConsistent

-- The thread of the new connection 7 is given slot 2, the client with socket 6.
new_connection_client_example :
    let t : ThreadArgs = record { sockfd = 7; client = 2 } in
    (new_connection net 7 address true server ≡ (add_client net 7 address server, some t, []))
    × (((client_of t (add_client net 7 address server)).sockfd ≡ 7)
        ↔ (server.client_count ≡ first_free table))
new_connection_client_example =
    new_connection_client net 7 address server (λ e. omega (arith, e)) new refl server-IsConsistent

abbrev crowd : ℕ → ℕ → List ClientInfo
crowd zero fd = []
crowd (suc n) fd = client fd ∷ crowd n (suc fd)

abbrev crowded : Server
crowded = record { clients = crowd 30 4; client_count = 30 }

not_zero : (n : ℕ) → (suc n == 0) ≡ false
not_zero n = ground arith

crowd-Fresh : (x n fd : ℕ) → x < suc fd → Fresh x (sockets (crowd n (suc fd)))
crowd-Fresh x zero fd lt = tt
crowd-Fresh x (suc n) fd lt =
    rw (not_zero fd) ((λ e. omega (arith, e, lt)), crowd-Fresh x n (suc fd) (omega (arith, lt)))

crowd-Distinct : (n fd : ℕ) → Distinct (sockets (crowd n (suc fd)))
crowd-Distinct zero fd = tt
crowd-Distinct (suc n) fd =
    rw (not_zero fd) (crowd-Fresh (suc fd) n (suc fd) (omega arith), crowd-Distinct n (suc fd))

crowded-IsConsistent : IsConsistent crowded
crowded-IsConsistent = record { slots = refl; counted = refl; distinct = crowd-Distinct 30 3 }

-- The client with the socket 5 comes, writes, and leaves.
abbrev arrived : Server
arrived = (new_connection net 5 address true empty).0

abbrev writer : ThreadArgs
writer = record { sockfd = 5; client = 0 }

arrived-IsReached : IsReached net arrived (writer ∷ [])
unfolding new_connection add_loop
arrived-IsReached = connect empty [] 5 address true start (λ e. omega (arith, e)) tt

IsReached-IsServed_example : IsServed (remove_client 5 arrived) []
unfolding handle_read new_connection c_string leave
IsReached-IsServed_example = IsReached-IsServed net (remove_client 5 arrived) [] (
    leaves arrived [] [] writer _ (reads arrived [] [] writer (b'a' ∷ []) _ arrived-IsReached refl)
      refl)

-- The client with the socket 5 types "ok".
abbrev ok_line : List ℕ
ok_line = b'o' ∷ b'k' ∷ []

typed-shown_example :
    let text = chat_line net (client 5) ok_line in
    ((send_loop ((ok_line ++ 10 ∷ [], true) ∷ [])).0 ≡ ok_line ∷ [])
    × (handle_read net (record { sockfd = 5; client = 1 }) (some ok_line) server
        ≡ some (goes_on server ((6, text) ∷ [])))
    × (receive_step (one_read text) ≡ (text, true))
unfolding chat_line send_loop c_string chop same_text
typed-shown_example =
    typed-shown net (record { sockfd = 5; client = 1 }) server (ok_line ++ 10 ∷ []) [] (λ e. cc)
      refl ((λ e. omega (arith, e)), tt) ((λ e. omega (arith, e)), tt) (omega arith)

-- SIGINT comes to thread 1 while it holds the mutex, and then to thread 2.
abbrev interrupted : Process
interrupted = record { server = server; holder = some 1; handlers = 1 ∷ []; closed = none }

abbrev again : Process
again = record interrupted { handlers = 2 ∷ 1 ∷ [] }

sigint-ends_example :
    (((r : Process) × Comes net interrupted r × (r.closed ≢ none)) ↔ IsOpen interrupted)
    × ((again.closed ≡ none) ⊎ (again.closed ≡ some (sockets server.clients)))
sigint-ends_example =
    sigint-ends net interrupted 1 refl refl again
      (after interrupted interrupted again (here interrupted) (sigint interrupted 2 refl refl))

-- The client with the socket 6 leaves before `main` reads the count.
add_and_point_lem_example :
    let r = add_and_point net 7 address (6 ∷ []) server in
    ((i : ℕ) × (r.0 ≡ some i) × (i < 30))
    ⊎ ((has_room table ≡ false) × (r.0 ≡ none) × (sockets r.1.clients ≡ []))
add_and_point_lem_example =
    add_and_point_lem net 7 address (6 ∷ []) server (λ e. omega (arith, e))
      ((λ e. omega (arith, e)), ((λ e. omega (arith, e)), tt)) ((λ e. omega (arith, e)), tt)
      ((λ e. omega (arith, e)), tt) server-IsConsistent

-- With a table of one slot, whose client leaves, the pointer is to the place before the table.
race_outside :
    (add_and_point net 7 address (5 ∷ []) (record { clients = client 5 ∷ []; client_count = 1 })).0
    ≡ none
unfolding add_and_point leave_all add_client remove_client remove_loop add_loop
race_outside = refl
