-- ===== src/Chat/Server/Threads.antt =====
-- Which client a new thread is given, and what it sends.
use linux_learn_demo_code.Base.{
  ℕ, zero, suc, ◌+◌, ◌-◌, ◌≤◌, true, false, some, List, [], ◌∷◌, map, if◌then◌else◌, ltb, ◌==◌,
  get_or, Fresh, All, ◌≡◌, ◌≢◌, refl, sym, ◌∙◌, ap, arith, ◌⊎◌, ◌↔◌, inl, inr, Bool-cases,
  ℕ_discrete, onto, ==_iff, subst,
}
use linux_learn_demo_code.Chat.Server.{
  Address, ClientInfo, Server, Net, ThreadArgs, is_free, filled, add_loop, add_client,
  remove_client, new_connection, broadcast_message, Reaction, client_of, no_client, watch,
}
use linux_learn_demo_code.Chat.Server.Slots.{sockets, without, has_room, broadcast_message-map}
use linux_learn_demo_code.Chat.Server.Table.{IsConsistent, added_count, add_client-IsConsistent}

-- The number of slots before the first free one.
abbrev pub first_free : List ClientInfo → ℕ
first_free [] = 0
first_free (c ∷ cs) = if is_free c then 0 else suc (first_free cs)

module _ (net : Net) (fd : ℕ) (a : Address) where
  add_loop-first :
      (cs : List ClientInfo)
      → has_room cs ≡ true
      → get_or (add_loop net fd a cs).0 (first_free cs) no_client ≡ filled net fd a
  unfolding add_loop
  add_loop-first [] r = cc
  add_loop-first (c ∷ cs) r = elim (Bool-cases (is_free c)) [
    | inl free ↦ rw free
    | inr used ↦ rw used (add_loop-first cs (rw used at r))
  ]

  add_loop-other :
      (cs : List ClientInfo) (i : ℕ)
      → i ≢ first_free cs
      → get_or (add_loop net fd a cs).0 i no_client ≡ get_or cs i no_client
  unfolding add_loop
  add_loop-other [] i ne = refl
  add_loop-other (c ∷ cs) zero ne = elim (Bool-cases (is_free c)) [
    | inl free ↦ absurd (ne (rw free))
    | inr used ↦ rw used
  ]
  add_loop-other (c ∷ cs) (suc i) ne = elim (Bool-cases (is_free c)) [
    | inl free ↦ rw free
    | inr used ↦ rw used (add_loop-other cs i (λ e. ne (rw used (ap suc e))))
  ]

  not_mine :
      (cs : List ClientInfo) (i : ℕ)
      → fd ≢ 0
      → Fresh fd (sockets cs)
      → (get_or cs i no_client).sockfd ≢ fd
  not_mine [] i ne f = λ e. ne (sym e)
  not_mine (c ∷ cs) zero ne f = elim (Bool-cases (is_free c)) [
    | inl free ↦ λ e. ne (sym e ∙ (==_iff c.sockfd 0).0 free)
    | inr used ↦ let g : (c.sockfd ≢ fd) × Fresh fd (sockets cs) = rw used at f in g.0
  ]
  not_mine (c ∷ cs) (suc i) ne f = elim (Bool-cases (is_free c)) [
    | inl free ↦ not_mine cs i ne (rw free at f)
    | inr used ↦
        let g : (c.sockfd ≢ fd) × Fresh fd (sockets cs) = rw used at f in not_mine cs i ne g.1
  ]

abbrev args : ℕ → ℕ → ThreadArgs
args fd i = record { sockfd = fd; client = i }

-- With a free slot in a consistent table, the thread that is started for a connection is given the slot
-- numbered by the clients there were. That is the slot of its own connection exactly if no slot
-- before the others is free: after a client other than the last one has left it is the wrong one.
pub new_connection_client :
    (net : Net) (fd : ℕ) (a : Address) (s : Server)
    → fd ≢ 0
    → Fresh fd (sockets s.clients)
    → has_room s.clients ≡ true
    → IsConsistent s
    → let t : ThreadArgs = record { sockfd = fd; client = s.client_count } in
      (new_connection net fd a true s ≡ (add_client net fd a s, some t, []))
      × (((client_of t (add_client net fd a s)).sockfd ≡ fd)
          ↔ (s.client_count ≡ first_free s.clients))
unfolding new_connection add_client
new_connection_client net fd a s ne f room v = (started, (only_if, if_))
  where
    s' : Server
    s' = add_client net fd a s

    t : ThreadArgs
    t = record { sockfd = fd; client = s.client_count }

    count : s'.client_count ≡ s.client_count + 1
    count = added_count net fd a s room

    started : new_connection net fd a true s ≡ (s', some t, [])
    started = ap (λ n. (s', some (args fd n), [])) (omega (arith, count))

    only_if : (client_of t s').sockfd ≡ fd → s.client_count ≡ first_free s.clients
    only_if e = elim (ℕ_discrete s.client_count (first_free s.clients)) [
      | yes q ↦ q
      | no n ↦ absurd (
          not_mine net fd a s.clients s.client_count ne f (
            sym (
              ap (λ (c : ClientInfo). c.sockfd)
                (add_loop-other net fd a s.clients s.client_count n))
            ∙ e))
    ]

    if_ : s.client_count ≡ first_free s.clients → (client_of t s').sockfd ≡ fd
    if_ e =
        ap (λ i. (get_or (add_loop net fd a s.clients).0 i no_client).sockfd) e
        ∙ ap (λ (c : ClientInfo). c.sockfd) (add_loop-first net fd a s.clients room)

-- A consistent table with no free slot is left as it was, and a thread is started for the connection
-- nonetheless: it speaks in the name of a client whose socket is another, and no message of the
-- others is sent to it, as its socket is in no slot.
pub new_connection_full :
    (net : Net) (fd : ℕ) (a : Address) (s : Server) (msg : List ℕ) (sender : ℕ)
    → fd ≢ 0
    → Fresh fd (sockets s.clients)
    → has_room s.clients ≡ false
    → IsConsistent s
    → let t : ThreadArgs = record { sockfd = fd; client = s.client_count - 1 } in
      (new_connection net fd a true s ≡ (s, some t, []))
      × ((client_of t s).sockfd ≢ fd)
      × All {A = ℕ × List ℕ} (λ m. m.0 ≢ fd) (broadcast_message msg sender s.clients)
unfolding new_connection
new_connection_full net fd a s msg sender ne f full v = (
  ap (λ (u : Server). (u, some (args fd (u.client_count - 1)), []))
      (unchanged (add_client-IsConsistent net fd a s ne f v).1),
  not_mine net fd a s.clients (s.client_count - 1) ne f,
  subst (All {A = ℕ × List ℕ} (λ m. m.0 ≢ fd)) (sym (broadcast_message-map msg sender s.clients))
      (never (sockets s.clients) f),
)
  where
    unchanged :
        ((has_room s.clients ≡ true)
            × ((add_client net fd a s).client_count ≡ s.client_count + 1)
            × (sockets (remove_client fd (add_client net fd a s)).clients ≡ sockets s.clients)
            × ((remove_client fd (add_client net fd a s)).client_count ≡ s.client_count))
          ⊎ ((has_room s.clients ≡ false) × (add_client net fd a s ≡ s))
        → add_client net fd a s ≡ s
    unchanged (inl p) = cc (p.0, full)
    unchanged (inr p) = p.1

    never :
        (xs : List ℕ)
        → Fresh fd xs
        → All {A = ℕ × List ℕ} (λ m. m.0 ≢ fd) (map (λ f. (f, msg)) (without sender xs))
    never [] g = tt
    never (x ∷ xs) g = elim (Bool-cases (x == sender)) [
      | inl e ↦ rw e (never xs g.1)
      | inr e ↦ rw e (g.0, never xs g.1)
    ]

-- What the thread does with a text: it sends it on, and goes on.
abbrev pub goes_on : Server → List (ℕ × List ℕ) → Reaction
goes_on s sends = record { sends = sends; server = s; ended = false; closed = [] }

above : {m m' : ℕ} → m ≤ m' → (xs : List ℕ) → All (λ fd. fd ≤ m) xs → All (λ fd. fd ≤ m') xs
above le [] h = tt
above le (x ∷ xs) h = (omega (arith, le, h.0), above le xs h.1)

-- `select` is asked for the sockets it was asked for before and for that of every client, and its
-- bound reaches them all.
pub watch_lem :
    (cs : List ClientInfo) (readfds : List ℕ) (max_sd : ℕ)
    → All (λ fd. fd ≤ max_sd) readfds
    → ((watch cs readfds max_sd).0 ≡ onto (sockets cs) readfds)
      × All (λ fd. fd ≤ (watch cs readfds max_sd).1) (watch cs readfds max_sd).0
unfolding watch
watch_lem [] readfds m h = (refl, h)
watch_lem (c ∷ cs) readfds m h = elim (Bool-cases (is_free c)) [
  | inl free ↦
      let e : ltb 0 c.sockfd ≡ false = ground (arith, free) in
      rw free (rw (watch, e) (watch_lem cs readfds m h))
  | inr used ↦
      let e : ltb 0 c.sockfd ≡ true = ground (arith, used) in
      elim (Bool-cases (ltb m c.sockfd)) [
        | inl more ↦
            let le : m ≤ c.sockfd = ground (arith, more) in
            let here : c.sockfd ≤ c.sockfd = omega arith in
            rw used (
              rw (watch, e, more)
                (watch_lem cs (c.sockfd ∷ readfds) c.sockfd (here, above le readfds h)))
        | inr less ↦
            let le : c.sockfd ≤ m = ground (arith, less) in
            rw used (rw (watch, e, less) (watch_lem cs (c.sockfd ∷ readfds) m (le, h)))
      ]
]
