-- ===== src/Chat/Server.antt =====
-- select/chat-server/server.c.
pub mod Slots
pub mod Table
pub mod Threads
pub mod Reach
pub mod Start
pub mod Race
pub mod Shutdown
mod Tests
use linux_learn_demo_code.Base.{
  ℕ, zero, suc, ◌+◌, ◌-◌, ◌<◌, Bool, true, false, not, ◌&&◌, Option, none, some, List, [], ◌∷◌,
  ◌++◌, if◌then◌else◌, ltb, ◌==◌, take, get_or, length, replicate, ◌%◌,
}
use linux_learn_demo_code.Text.{c_string, chop}

abbrev pub max_clients : ℕ
max_clients = 30

abbrev pub buffer_size : ℕ
buffer_size = 1024

-- `struct sockaddr_in`.
pub record Address : Type 0 where
  pub sin_addr : ℕ
  pub sin_port : ℕ

-- `ClientInfo`; a slot whose `sockfd` is 0 is free.
pub record ClientInfo : Type 0 where
  pub sockfd : ℕ
  pub addr : Address
  pub ip : List ℕ
  pub port : ℕ

-- The globals. The mutex is held within each function that follows, so each is one step.
pub record Server : Type 0 where
  pub clients : List ClientInfo
  pub client_count : ℕ

-- `inet_ntop`, `ntohs`, and `snprintf`'s "%d", of the C library, and the program's texts for a
-- client that joins or leaves, made from its address.
pub record Net : Type 0 where
  pub inet_ntop : ℕ → List ℕ
  pub ntohs : ℕ → ℕ
  pub show_int : ℕ → List ℕ
  pub welcome : List ℕ → ℕ → List ℕ
  pub joined : List ℕ → ℕ → List ℕ
  pub left : List ℕ → ℕ → List ℕ

abbrev pub is_free : ClientInfo → Bool
is_free c = c.sockfd == 0

module _ (net : Net) where
  -- The slot that `add_client` writes.
  abbrev pub filled : ℕ → Address → ClientInfo
  filled fd a = record {
    sockfd = fd;
    addr = a;
    ip = net.inet_ntop a.sin_addr;
    port = net.ntohs a.sin_port;
  }

  -- The loop of `add_client`: the slots, and whether one was free.
  unfoldable pub add_loop : ℕ → Address → List ClientInfo → List ClientInfo × Bool
  add_loop fd a [] = ([], false)
  add_loop fd a (c ∷ cs) =
      let (rest, found) = add_loop fd a cs in
      if is_free c then (filled fd a ∷ cs, true) else (c ∷ rest, found)

  -- `add_client`.
  unfoldable pub add_client : ℕ → Address → Server → Server
  add_client fd a s =
      let (slots, found) = add_loop fd a s.clients in
      record {
        clients = slots;
        client_count = if found then s.client_count + 1 else s.client_count;
      }

-- A slot that `remove_client` has cleared: `addr` stays.
abbrev pub cleared : ClientInfo → ClientInfo
cleared c = record c { sockfd = 0; ip = replicate 16 0; port = 0 }

unfoldable pub remove_loop : ℕ → List ClientInfo → List ClientInfo × Bool
remove_loop fd [] = ([], false)
remove_loop fd (c ∷ cs) =
    let (rest, found) = remove_loop fd cs in
    if c.sockfd == fd then (cleared c ∷ cs, true) else (c ∷ rest, found)

-- `remove_client`.
unfoldable pub remove_client : ℕ → Server → Server
remove_client fd s =
    let (slots, found) = remove_loop fd s.clients in
    record { clients = slots; client_count = if found then s.client_count - 1 else s.client_count }

-- `broadcast_message`: the sockets and the text of the calls of `send`, in order.
unfoldable pub broadcast_message : List ℕ → ℕ → List ClientInfo → List (ℕ × List ℕ)
broadcast_message msg sender [] = []
broadcast_message msg sender (c ∷ cs) =
    let rest = broadcast_message msg sender cs in
    if ltb 0 c.sockfd && not (c.sockfd == sender) then (c.sockfd, msg) ∷ rest else rest

-- `cleanup`: the sockets that it closes.
unfoldable pub cleanup : List ClientInfo → List ℕ
cleanup [] = []
cleanup (c ∷ cs) = let rest = cleanup cs in if ltb 0 c.sockfd then c.sockfd ∷ rest else rest

-- The loop of `main` over the clients: the sockets that are added to `readfds`, and `max_sd`.
unfoldable pub watch : List ClientInfo → List ℕ → ℕ → List ℕ × ℕ
watch [] readfds max_sd = (readfds, max_sd)
watch (c ∷ cs) readfds max_sd =
    watch cs (if ltb 0 c.sockfd then c.sockfd ∷ readfds else readfds)
      (if ltb 0 c.sockfd && ltb max_sd c.sockfd then c.sockfd else max_sd)

-- `ThreadArgs`: the slot is the index of `client` in the table, `client_count - 1`.
pub record ThreadArgs : Type 0 where
  pub sockfd : ℕ
  pub client : ℕ

-- What `main` does with a connection that `accept` gave: the state, the arguments of the thread if
-- `pthread_create` succeeds, and the sockets that are closed.
unfoldable pub new_connection :
    Net → ℕ → Address → Bool → Server → Server × Option ThreadArgs × List ℕ
unfolding add_client
new_connection net fd a created s =
    let s' = add_client net fd a s in
    if created
    then (s', some (record { sockfd = fd; client = s'.client_count - 1 }), [])
    else (remove_client fd s', none, fd ∷ [])

-- What the thread does with the result of `read`: it sends, it goes on or ends, and it closes
-- sockets.
pub record Reaction : Type 0 where
  pub sends : List (ℕ × List ℕ)
  pub server : Server
  pub ended : Bool
  pub closed : List ℕ

-- The line "[%s:%d]: %s\n" in a buffer of BUFFER_SIZE + 50 bytes.
unfoldable pub chat_line : Net → ClientInfo → List ℕ → List ℕ
chat_line net c text =
    take (buffer_size + 49)
      (b'[' ∷ (c.ip ++ (b':' ∷ (net.show_int c.port ++ (b']' ∷ b':' ∷ b' ' ∷ (text ++ 10 ∷ []))))))

-- The slot that a thread's `client` points to, as it is now.
abbrev pub no_client : ClientInfo
no_client = record { sockfd = 0; addr = record { sin_addr = 0; sin_port = 0 }; ip = []; port = 0 }

abbrev pub client_of : ThreadArgs → Server → ClientInfo
client_of t s = get_or s.clients t.client no_client

-- The start of `handle_client`: the welcome, and the news to the others.
unfoldable pub greet : Net → ThreadArgs → Server → List (ℕ × List ℕ)
greet net t s =
    let c = client_of t s in
    (t.sockfd, take (buffer_size - 1) (net.welcome c.ip c.port))
    ∷ broadcast_message (take (buffer_size - 1) (net.joined c.ip c.port)) t.sockfd s.clients

-- A text that is not empty is passed on, up to its newline.
pass_on : Net → ThreadArgs → Server → List ℕ → List (ℕ × List ℕ)
pass_on net t s [] = []
pass_on net t s (b ∷ bs) =
    broadcast_message (chat_line net (client_of t s) (chop (b ∷ bs))) t.sockfd s.clients

-- The end of a thread, when `read` fails or finds the end.
unfoldable pub leave : Net → ThreadArgs → Server → Reaction
leave net t s =
    let c = client_of t s in
    record {
      sends = broadcast_message (take (buffer_size - 1) (net.left c.ip c.port)) t.sockfd s.clients;
      server = remove_client t.sockfd s;
      ended = true;
      closed = t.sockfd ∷ [];
    }

-- Whether the buffer, which was filled with 0 before, still holds a 0 after a `read` of these bytes.
abbrev pub has_end : List ℕ → Bool
has_end bytes = ltb (length (c_string bytes)) buffer_size

-- One round of the loop of `handle_client`; the bytes are at most as many as the buffer has. The whole is
-- `none` if `strlen` and `strcspn` read past the end of the buffer.
unfoldable pub handle_read : Net → ThreadArgs → Option (List ℕ) → Server → Option Reaction
unfolding leave pass_on
handle_read net t none s = some (leave net t s)
handle_read net t (some bytes) s =
    if has_end bytes
    then some (record {
      sends = pass_on net t s (c_string bytes);
      server = s;
      ended = false;
      closed = [];
    })
    else none
