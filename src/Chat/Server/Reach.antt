-- ===== src/Chat/Server/Reach.antt =====
-- The server as a whole: connections and the rounds of the threads, in any order.
use linux_learn_demo_code.Base.{
  ℕ, Bool, true, false, Option, none, some, List, [], ◌∷◌, ◌++◌, replicate, Fresh, Distinct, All,
  ◌≢◌, ◌≡◌, refl, sym, ap, subst, ℕ_discrete, Bool-cases, inl, inr,
}
use linux_learn_demo_code.Chat.Server.{
  Address, Server, Net, ThreadArgs, add_client, remove_client, new_connection, handle_read, leave,
  has_end, Reaction, no_client, max_clients,
}
use linux_learn_demo_code.Chat.Server.Slots.{sockets, Fresh-add_loop, Fresh-remove_loop}
use linux_learn_demo_code.Chat.Server.Table.{
  IsConsistent, add_client-IsConsistent, remove_client-IsConsistent,
}

-- The globals when the program starts.
abbrev pub empty : Server
empty = record { clients = replicate max_clients no_client; client_count = 0 }

-- The sockets of the threads.
abbrev pub served : List ThreadArgs → List ℕ
served [] = []
served (t ∷ ts) = t.sockfd ∷ served ts

-- The threads after one more was started, or was not.
abbrev pub with_thread : Option ThreadArgs → List ThreadArgs → List ThreadArgs
with_thread none ts = ts
with_thread (some t) ts = t ∷ ts

-- The states that the server can reach, with the threads that run. `accept` gives a descriptor that is
-- not in use, and not 0; a thread has the result of a `read` whenever it comes, and closes its socket
-- as it ends.
pub data IsReached (net : Net) : Server → List ThreadArgs → Type 0 where
  start : IsReached net empty []
  connect :
      (s : Server) (ts : List ThreadArgs) (fd : ℕ) (a : Address) (created : Bool)
      → IsReached net s ts
      → fd ≢ 0
      → Fresh fd (served ts)
      → IsReached net
          (new_connection net fd a created s).0
          (with_thread (new_connection net fd a created s).1 ts)
  reads :
      (s : Server) (before after : List ThreadArgs) (t : ThreadArgs) (bytes : List ℕ) (r : Reaction)
      → IsReached net s (before ++ t ∷ after)
      → handle_read net t (some bytes) s ≡ some r
      → IsReached net r.server (before ++ t ∷ after)
  leaves :
      (s : Server) (before after : List ThreadArgs) (t : ThreadArgs) (r : Reaction)
      → IsReached net s (before ++ t ∷ after)
      → handle_read net t none s ≡ some r
      → IsReached net r.server (before ++ after)

-- What holds in each of them.
pub record IsServed (s : Server) (ts : List ThreadArgs) : Type 0 where
  pub table : IsConsistent s
  pub open_sockets : All (λ fd. fd ≢ 0) (served ts)
  pub apart : Distinct (served ts)
  pub no_other : (fd : ℕ) → Fresh fd (served ts) → Fresh fd (sockets s.clients)

Fresh-middle :
    (y : ℕ) (before after : List ThreadArgs) (t : ThreadArgs)
    → t.sockfd ≢ y
    → Fresh y (served (before ++ after))
    → Fresh y (served (before ++ t ∷ after))
Fresh-middle y [] after t ne f = (ne, f)
Fresh-middle y (b ∷ before) after t ne f = (f.0, Fresh-middle y before after t ne f.1)

Fresh-without :
    (y : ℕ) (before after : List ThreadArgs) (t : ThreadArgs)
    → Fresh y (served (before ++ t ∷ after))
    → Fresh y (served (before ++ after))
Fresh-without y [] after t f = f.1
Fresh-without y (b ∷ before) after t f = (f.0, Fresh-without y before after t f.1)

All-middle :
    (before after : List ThreadArgs) (t : ThreadArgs)
    → All (λ fd. fd ≢ 0) (served (before ++ t ∷ after))
    → (t.sockfd ≢ 0) × All (λ fd. fd ≢ 0) (served (before ++ after))
All-middle [] after t a = a
All-middle (b ∷ before) after t a = let r = All-middle before after t a.1 in (r.0, (a.0, r.1))

Distinct-without :
    (before after : List ThreadArgs) (t : ThreadArgs)
    → Distinct (served (before ++ t ∷ after))
    → Distinct (served (before ++ after))
Distinct-without [] after t d = d.1
Distinct-without (b ∷ before) after t d =
    (Fresh-without b.sockfd before after t d.0, Distinct-without before after t d.1)

empty-IsServed : IsServed empty []
empty-IsServed = record {
  table = record { slots = refl; counted = refl; distinct = tt };
  open_sockets = tt;
  apart = tt;
  no_other = λ fd f. tt;
}

Fresh-added :
    (net : Net) (fd : ℕ) (a : Address) (y : ℕ) (s : Server)
    → fd ≢ y
    → Fresh y (sockets s.clients)
    → Fresh y (sockets (add_client net fd a s).clients)
unfolding add_client
Fresh-added net fd a y s ne f = Fresh-add_loop net fd a y s.clients ne f

Fresh-removed :
    (fd y : ℕ) (s : Server)
    → fd ≢ 0
    → Fresh y (sockets s.clients)
    → Fresh y (sockets (remove_client fd s).clients)
unfolding remove_client
Fresh-removed fd y s ne f = Fresh-remove_loop fd y s.clients ne f

leaves-IsServed :
    (s : Server) (before after : List ThreadArgs) (t : ThreadArgs)
    → IsServed s (before ++ t ∷ after)
    → IsServed (remove_client t.sockfd s) (before ++ after)
leaves-IsServed s before after t v =
    let opened = All-middle before after t v.open_sockets in
    let r = remove_client-IsConsistent t.sockfd s opened.0 v.table in
    record {
      table = r.0;
      open_sockets = opened.1;
      apart = Distinct-without before after t v.apart;
      no_other = λ y f. elim (ℕ_discrete t.sockfd y) [
        | yes e ↦ subst (λ z. Fresh z (sockets (remove_client t.sockfd s).clients)) e r.1
        | no ne ↦
            Fresh-removed t.sockfd y s opened.0 (v.no_other y (Fresh-middle y before after t ne f))
      ];
    }

connect-IsServed :
    (net : Net) (s : Server) (ts : List ThreadArgs) (fd : ℕ) (a : Address) (created : Bool)
    → IsServed s ts
    → fd ≢ 0
    → Fresh fd (served ts)
    → IsServed
        (new_connection net fd a created s).0
        (with_thread (new_connection net fd a created s).1 ts)
unfolding new_connection
connect-IsServed net s ts fd a true v ne f = record {
  table = (add_client-IsConsistent net fd a s ne (v.no_other fd f) v.table).0;
  open_sockets = (ne, v.open_sockets);
  apart = (f, v.apart);
  no_other = λ y g. Fresh-added net fd a y s g.0 (v.no_other y g.1);
}
connect-IsServed net s ts fd a false v ne f =
    let added = (add_client-IsConsistent net fd a s ne (v.no_other fd f) v.table).0 in
    let r = remove_client-IsConsistent fd (add_client net fd a s) ne added in
    record {
      table = r.0;
      open_sockets = v.open_sockets;
      apart = v.apart;
      no_other = λ y g. elim (ℕ_discrete fd y) [
        | yes e ↦
            subst (λ z. Fresh z (sockets (remove_client fd (add_client net fd a s)).clients)) e r.1
        | no other ↦
            Fresh-removed fd y (add_client net fd a s) ne
              (Fresh-added net fd a y s other (v.no_other y g))
      ];
    }

some-injective : {a b : Reaction} → some a ≡ some b → a ≡ b
some-injective e = cc e

none≢some : {a : Reaction} → none ≢ some a
none≢some e = cc

-- A round with a text leaves the table as it was, and the last round takes the client out of it.
text_kept :
    (net : Net) (t : ThreadArgs) (bytes : List ℕ) (s : Server) (r : Reaction)
    → handle_read net t (some bytes) s ≡ some r
    → r.server ≡ s
unfolding handle_read
text_kept net t bytes s r e = elim (Bool-cases (has_end bytes)) [
  | inl fits ↦ ap (λ (x : Reaction). x.server) (some-injective (sym (rw fits at e)))
  | inr over ↦ absurd (none≢some {a = r} (rw over at e))
]

left_out :
    (net : Net) (t : ThreadArgs) (s : Server) (r : Reaction)
    → handle_read net t none s ≡ some r
    → remove_client t.sockfd s ≡ r.server
unfolding handle_read leave
left_out net t s r e = ap (λ (x : Reaction). x.server) (some-injective e)

-- In every state that the server reaches, however connections, failures to start a thread, messages
-- and departures follow one another, the table is consistent, the threads have sockets of their own,
-- and each socket in the table is that of a thread that runs.
pub IsReached-IsServed :
    (net : Net) (s : Server) (ts : List ThreadArgs) → IsReached net s ts → IsServed s ts
IsReached-IsServed net _ _ start = empty-IsServed
IsReached-IsServed net _ _ (connect s ts fd a created r ne f) =
    connect-IsServed net s ts fd a created (IsReached-IsServed net s ts r) ne f
IsReached-IsServed net _ _ (reads s before after t bytes x r e) =
    subst (λ z. IsServed z (before ++ t ∷ after)) (sym (text_kept net t bytes s x e))
      (IsReached-IsServed net s (before ++ t ∷ after) r)
IsReached-IsServed net _ _ (leaves s before after t x r e) =
    subst (λ z. IsServed z (before ++ after)) (left_out net t s x e)
      (leaves-IsServed s before after t (IsReached-IsServed net s (before ++ t ∷ after) r))
