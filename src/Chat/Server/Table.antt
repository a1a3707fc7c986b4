-- ===== src/Chat/Server/Table.antt =====
-- The table of clients: what it holds, and how adding and removing change that.
use linux_learn_demo_code.Base.{
  ℕ, ◌+◌, true, false, if◌then◌else◌, length, Fresh, Distinct, ◌≡◌, ◌≢◌, ◌∙◌, arith, ◌⊎◌, inl, inr,
  Bool-cases,
}
use linux_learn_demo_code.Chat.Server.{
  Address, Server, Net, add_client, remove_loop, remove_client, max_clients,
}
use linux_learn_demo_code.Chat.Server.Slots.{
  Distinct-add_loop, Distinct-remove_loop, Fresh-remove_self, add_loop-full, found-add_loop,
  found-remove-add, has_room, length-add_loop, length-remove_loop, sockets, sockets-add_loop-length,
  sockets-remove-add, sockets-remove_loop-length,
}

pub added_count :
    (net : Net) (fd : ℕ) (a : Address) (s : Server)
    → has_room s.clients ≡ true
    → (add_client net fd a s).client_count ≡ s.client_count + 1
unfolding add_client
added_count net fd a s room = ground (arith, found-add_loop net fd a s.clients)

-- The table has its 30 slots, the count is right, and no socket is in two slots.
pub record IsConsistent (s : Server) : Type 0 where
  pub slots : length s.clients ≡ max_clients
  pub counted : s.client_count ≡ length (sockets s.clients)
  pub distinct : Distinct (sockets s.clients)

-- `add_client` keeps the table consistent, for a socket that is not 0 and not in the table. If a slot is
-- free there is one client more and the socket can be taken out again, which leaves the clients as
-- they were; if none is free the sockets and the count stay as they were.
pub add_client-IsConsistent :
    (net : Net) (fd : ℕ) (a : Address) (s : Server)
    → fd ≢ 0
    → Fresh fd (sockets s.clients)
    → IsConsistent s
    → IsConsistent (add_client net fd a s)
      × (((has_room s.clients ≡ true)
            × ((add_client net fd a s).client_count ≡ s.client_count + 1)
            × (sockets (remove_client fd (add_client net fd a s)).clients ≡ sockets s.clients)
            × ((remove_client fd (add_client net fd a s)).client_count ≡ s.client_count))
          ⊎ ((has_room s.clients ≡ false) × (add_client net fd a s ≡ s)))
unfolding add_client remove_client
add_client-IsConsistent net fd a s ne f v = (
  record {
    slots = length-add_loop net fd a s.clients ∙ v.slots;
    counted = ground (
      arith,
      found-add_loop net fd a s.clients,
      sockets-add_loop-length net fd a s.clients ne,
      v.counted,
    );
    distinct = Distinct-add_loop net fd a s.clients ne f v.distinct;
  },
  elim (Bool-cases (has_room s.clients)) [
    | inl room ↦ inl (
      room,
      ground (arith, found-add_loop net fd a s.clients),
      sockets-remove-add net fd a s.clients ne f room,
      ground (arith, found-add_loop net fd a s.clients, found-remove-add net fd a s.clients room),
    )
    | inr full ↦ inr (
      full,
      ground (arith, found-add_loop net fd a s.clients, add_loop-full net fd a s.clients full),
    )
  ],
)

-- `remove_client` keeps the table consistent, for a socket that is not 0, and leaves the socket in no
-- slot. There is one client less if the socket was found, and else as many as before.
pub remove_client-IsConsistent :
    (fd : ℕ) (s : Server)
    → fd ≢ 0
    → IsConsistent s
    → IsConsistent (remove_client fd s)
      × Fresh fd (sockets (remove_client fd s).clients)
      × ((remove_client fd s).client_count + (if (remove_loop fd s.clients).1 then 1 else 0)
          ≡ s.client_count)
unfolding remove_client
remove_client-IsConsistent fd s ne v = (
  record {
    slots = length-remove_loop fd s.clients ∙ v.slots;
    counted = ground (arith, sockets-remove_loop-length fd s.clients ne, v.counted);
    distinct = Distinct-remove_loop fd s.clients ne v.distinct;
  },
  Fresh-remove_self fd s.clients ne v.distinct,
  ground (arith, sockets-remove_loop-length fd s.clients ne, v.counted),
)
