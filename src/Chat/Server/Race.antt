-- ===== src/Chat/Server/Race.antt =====
-- select/chat-server/server.c:132-143: `main` reads `client_count` without the mutex, after `add_client` has
-- given it back, so that clients may leave in between.
use linux_learn_demo_code.Base.{
  ℕ, zero, suc, ◌≤◌, ◌<◌, true, false, Option, none, some, List, [], ◌∷◌, length, Fresh, All, ◌==◌,
  ==_iff, ◌≡◌, ◌≢◌, refl, sym, ◌∙◌, ap, subst, ◌⊎◌, inl, inr, arith, Bool-cases,
}
use linux_learn_demo_code.Chat.Server.{
  Address, ClientInfo, Server, Net, is_free, add_loop, add_client, remove_loop, remove_client,
  max_clients,
}
use linux_learn_demo_code.Chat.Server.Slots.{sockets, has_room, ne→==}
use linux_learn_demo_code.Chat.Server.Table.{
  IsConsistent, add_client-IsConsistent, remove_client-IsConsistent,
}

-- The threads of some clients come to their ends.
unfoldable pub leave_all : List ℕ → Server → Server
leave_all [] s = s
leave_all (fd ∷ more) s = leave_all more (remove_client fd s)

-- The slot of `&clients[client_count - 1]`; `none` is the place before the table.
abbrev pub pointed : ℕ → Option ℕ
pointed zero = none
pointed (suc i) = some i

-- `main` from `accept` to the pointer, with the clients that leave in between.
unfoldable pub add_and_point : Net → ℕ → Address → List ℕ → Server → Option ℕ × Server
add_and_point net fd a leaving s =
    let u = leave_all leaving (add_client net fd a s) in (pointed u.client_count, u)

leave_all-IsConsistent :
    (leaving : List ℕ) (s : Server)
    → All (λ y. y ≢ 0) leaving
    → IsConsistent s
    → IsConsistent (leave_all leaving s)
unfolding leave_all
leave_all-IsConsistent [] s ne v = v
leave_all-IsConsistent (fd ∷ more) s ne v =
    leave_all-IsConsistent more (remove_client fd s) ne.1 (remove_client-IsConsistent fd s ne.0 v).0

-- A socket that is in no slot after another one was removed was in none before.
Fresh-unremoved :
    (y fd : ℕ) (cs : List ClientInfo)
    → y ≢ fd
    → Fresh fd (sockets (remove_loop y cs).0)
    → Fresh fd (sockets cs)
unfolding remove_loop
Fresh-unremoved y fd [] ne f = tt
Fresh-unremoved y fd (c ∷ cs) ne f = elim (Bool-cases (c.sockfd == y)) [
  | inl hit ↦ elim (Bool-cases (is_free c)) [
    | inl free ↦ rw free (rw hit at f)
    | inr used ↦ rw used ((λ e. ne (sym ((==_iff c.sockfd y).0 hit) ∙ e)), (rw hit at f))
  ]
  | inr miss ↦ elim (Bool-cases (is_free c)) [
    | inl free ↦ rw free (Fresh-unremoved y fd cs ne (rw (miss, free) at f))
    | inr used ↦
        let g : (c.sockfd ≢ fd) × Fresh fd (sockets (remove_loop y cs).0) = rw (miss, used) at f in
        rw used (g.0, Fresh-unremoved y fd cs ne g.1)
  ]
]

-- A socket that was added in a free slot is in one.
added-present :
    (net : Net) (fd : ℕ) (a : Address) (cs : List ClientInfo)
    → fd ≢ 0
    → has_room cs ≡ true
    → ¬ Fresh fd (sockets (add_loop net fd a cs).0)
unfolding add_loop
added-present net fd a [] ne room f = cc room
added-present net fd a (c ∷ cs) ne room f = elim (Bool-cases (is_free c)) [
  | inl free ↦ let g : (fd ≢ fd) × Fresh fd (sockets cs) = rw (free, ne→== fd 0 ne) at f in g.0 refl
  | inr used ↦
      let g : (c.sockfd ≢ fd) × Fresh fd (sockets (add_loop net fd a cs).0) =
        rw (used, used) at f in
      added-present net fd a cs ne (rw used at room) g.1
]

Fresh-stayed :
    (leaving : List ℕ) (fd : ℕ) (s : Server)
    → Fresh fd leaving
    → Fresh fd (sockets (leave_all leaving s).clients)
    → Fresh fd (sockets s.clients)
unfolding leave_all remove_client
Fresh-stayed [] fd s ne f = f
Fresh-stayed (y ∷ more) fd s ne f =
    Fresh-unremoved y fd s.clients ne.0 (Fresh-stayed more fd (remove_client y s) ne.1 f)

length-sockets : (cs : List ClientInfo) → length (sockets cs) ≤ length cs
length-sockets [] = omega arith
length-sockets (c ∷ cs) = ground (arith, length-sockets cs)

none_left : (xs : List ℕ) → 0 ≡ length xs → xs ≡ []
none_left [] e = refl
none_left (x ∷ xs) e = absurd (omega (arith, e))

-- A connection comes, and before `main` reads `client_count` some other clients leave. Then the pointer
-- that the new thread gets is into the table, or it is to the place before it: this happens only if the table
-- was full, so that the new client got no slot, and every client has left.
pub add_and_point_lem :
    (net : Net) (fd : ℕ) (a : Address) (leaving : List ℕ) (s : Server)
    → fd ≢ 0
    → Fresh fd (sockets s.clients)
    → All (λ y. y ≢ 0) leaving
    → Fresh fd leaving
    → IsConsistent s
    → let r = add_and_point net fd a leaving s in
      ((i : ℕ) × (r.0 ≡ some i) × (i < max_clients))
      ⊎ ((has_room s.clients ≡ false) × (r.0 ≡ none) × (sockets r.1.clients ≡ []))
unfolding add_and_point add_client
add_and_point_lem net fd a leaving s ne f nonzero stays v = decide u.client_count refl
  where
    u : Server
    u = leave_all leaving (add_client net fd a s)

    kept : IsConsistent u
    kept =
        leave_all-IsConsistent leaving (add_client net fd a s) nonzero
          (add_client-IsConsistent net fd a s ne f v).0

    full : sockets u.clients ≡ [] → has_room s.clients ≡ false
    full e = elim (Bool-cases (has_room s.clients)) [
      | inl room ↦ absurd (
          added-present net fd a s.clients ne room
            (Fresh-stayed leaving fd (add_client net fd a s) stays (subst (Fresh fd) (sym e) tt)))
      | inr no_room ↦ no_room
    ]

    decide :
        (n : ℕ)
        → u.client_count ≡ n
        → ((i : ℕ) × (pointed u.client_count ≡ some i) × (i < max_clients))
          ⊎ ((has_room s.clients ≡ false)
              × (pointed u.client_count ≡ none)
              × (sockets u.clients ≡ []))
    decide zero e =
        let empty = none_left (sockets u.clients) (sym e ∙ kept.counted) in
        inr (full empty, ap pointed e, empty)
    decide (suc i) e =
        inl (i, ap pointed e, omega (arith, e, kept.counted, kept.slots, length-sockets u.clients))
