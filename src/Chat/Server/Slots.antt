-- ===== src/Chat/Server/Slots.antt =====
-- The slots of the table of clients: what adding and removing do to them.
use linux_learn_demo_code.Base.{
  ℕ, ◌+◌, Bool, true, false, List, [], ◌∷◌, map, if◌then◌else◌, ◌==◌, length, Fresh, Distinct, ◌≡◌,
  ◌≢◌, refl, sym, ap, arith, inl, inr, Bool-cases, ==_refl, ==_iff, subst,
}
use linux_learn_demo_code.Chat.Server.{
  Address, ClientInfo, Net, is_free, add_loop, remove_loop, broadcast_message, cleanup,
}

-- The sockets of the clients, in the order of their slots.
abbrev pub sockets : List ClientInfo → List ℕ
sockets [] = []
sockets (c ∷ cs) = if is_free c then sockets cs else c.sockfd ∷ sockets cs

-- A list without one number.
abbrev pub without : ℕ → List ℕ → List ℕ
without n [] = []
without n (x ∷ xs) = if x == n then without n xs else x ∷ without n xs

-- Some slot is free.
abbrev pub has_room : List ClientInfo → Bool
has_room [] = false
has_room (c ∷ cs) = if is_free c then true else has_room cs

-- `broadcast_message` sends its text once to every client but the sender, in the order of the table.
pub broadcast_message-map :
    (msg : List ℕ) (sender : ℕ) (cs : List ClientInfo)
    → broadcast_message msg sender cs ≡ map (λ fd. (fd, msg)) (without sender (sockets cs))
unfolding broadcast_message
broadcast_message-map msg sender [] = refl
broadcast_message-map msg sender (c ∷ cs) = ground (arith, broadcast_message-map msg sender cs)

-- `cleanup` closes the socket of every client once, in the order of the table, and no other.
pub cleanup-sockets : (cs : List ClientInfo) → cleanup cs ≡ sockets cs
unfolding cleanup
cleanup-sockets [] = refl
cleanup-sockets (c ∷ cs) = ground (arith, cleanup-sockets cs)

pub ne→== : (x y : ℕ) → x ≢ y → (x == y) ≡ false
ne→== x y h = ground arith

module _ (net : Net) (fd : ℕ) (a : Address) where
  pub found-add_loop : (cs : List ClientInfo) → (add_loop net fd a cs).1 ≡ has_room cs
  unfolding add_loop
  found-add_loop [] = refl
  found-add_loop (c ∷ cs) = ground (arith, found-add_loop cs)

  pub length-add_loop : (cs : List ClientInfo) → length (add_loop net fd a cs).0 ≡ length cs
  unfolding add_loop
  length-add_loop [] = refl
  length-add_loop (c ∷ cs) = ground (arith, length-add_loop cs)

  pub sockets-add_loop-length :
      (cs : List ClientInfo)
      → fd ≢ 0
      → length (sockets (add_loop net fd a cs).0)
        ≡ (if has_room cs then length (sockets cs) + 1 else length (sockets cs))
  unfolding add_loop
  sockets-add_loop-length [] ne = refl
  sockets-add_loop-length (c ∷ cs) ne = ground (arith, sockets-add_loop-length cs ne)

  pub Fresh-add_loop :
      (y : ℕ) (cs : List ClientInfo)
      → fd ≢ y
      → Fresh y (sockets cs)
      → Fresh y (sockets (add_loop net fd a cs).0)
  unfolding add_loop
  Fresh-add_loop y [] ne f = tt
  Fresh-add_loop y (c ∷ cs) ne f = elim (Bool-cases (is_free c)) [
    | inl free ↦ rw free (elim (Bool-cases (fd == 0)) [
      | inl z ↦ rw z (rw free at f)
      | inr nz ↦ rw nz (ne, rw free at f)
    ])
    | inr used ↦
        let g : (c.sockfd ≢ y) × Fresh y (sockets cs) = rw used at f in
        rw (used, used) (g.0, Fresh-add_loop y cs ne g.1)
  ]

  pub Distinct-add_loop :
      (cs : List ClientInfo)
      → fd ≢ 0
      → Fresh fd (sockets cs)
      → Distinct (sockets cs)
      → Distinct (sockets (add_loop net fd a cs).0)
  unfolding add_loop
  Distinct-add_loop [] ne f d = tt
  Distinct-add_loop (c ∷ cs) ne f d = elim (Bool-cases (is_free c)) [
    | inl free ↦ rw (free, ne→== fd 0 ne) (rw free at f, rw free at d)
    | inr used ↦
        let g : (c.sockfd ≢ fd) × Fresh fd (sockets cs) = rw used at f in
        let e : Fresh c.sockfd (sockets cs) × Distinct (sockets cs) = rw used at d in
        rw (used, used)
          (Fresh-add_loop c.sockfd cs (λ q. g.0 (sym q)) e.0, Distinct-add_loop cs ne g.1 e.1)
  ]

  -- A socket that is added in a free slot and removed again leaves the sockets as they were.
  pub sockets-remove-add :
      (cs : List ClientInfo)
      → fd ≢ 0
      → Fresh fd (sockets cs)
      → has_room cs ≡ true
      → sockets (remove_loop fd (add_loop net fd a cs).0).0 ≡ sockets cs
  unfolding add_loop remove_loop
  sockets-remove-add [] ne f r = cc
  sockets-remove-add (c ∷ cs) ne f r = elim (Bool-cases (is_free c)) [
    | inl free ↦ rw (free, ==_refl fd)
    | inr used ↦
        let g : (c.sockfd ≢ fd) × Fresh fd (sockets cs) = rw used at f in
        rw (used, ne→== c.sockfd fd g.0, used)
          (ap (◌∷◌ c.sockfd) (sockets-remove-add cs ne g.1 (rw used at r)))
  ]

  pub add_loop-full : (cs : List ClientInfo) → has_room cs ≡ false → (add_loop net fd a cs).0 ≡ cs
  unfolding add_loop
  add_loop-full [] r = refl
  add_loop-full (c ∷ cs) r = ground (arith, add_loop-full cs)

  pub found-remove-add :
      (cs : List ClientInfo)
      → has_room cs ≡ true
      → (remove_loop fd (add_loop net fd a cs).0).1 ≡ true
  unfolding add_loop remove_loop
  found-remove-add [] r = r
  found-remove-add (c ∷ cs) r = elim (Bool-cases (is_free c)) [
    | inl free ↦ rw (free, ==_refl fd)
    | inr used ↦ let ih = found-remove-add cs (rw used at r) in rw used (ground (arith, ih))
  ]

module _ (fd : ℕ) where
  pub length-remove_loop : (cs : List ClientInfo) → length (remove_loop fd cs).0 ≡ length cs
  unfolding remove_loop
  length-remove_loop [] = refl
  length-remove_loop (c ∷ cs) = ground (arith, length-remove_loop cs)

  pub sockets-remove_loop-length :
      (cs : List ClientInfo)
      → fd ≢ 0
      → length (sockets (remove_loop fd cs).0) + (if (remove_loop fd cs).1 then 1 else 0)
        ≡ length (sockets cs)
  unfolding remove_loop
  sockets-remove_loop-length [] ne = refl
  sockets-remove_loop-length (c ∷ cs) ne = ground (arith, sockets-remove_loop-length cs ne)

  pub Fresh-remove_loop :
      (y : ℕ) (cs : List ClientInfo)
      → fd ≢ 0
      → Fresh y (sockets cs)
      → Fresh y (sockets (remove_loop fd cs).0)
  unfolding remove_loop
  Fresh-remove_loop y [] ne f = tt
  Fresh-remove_loop y (c ∷ cs) ne f = elim (Bool-cases (c.sockfd == fd)) [
    | inl hit ↦ rw hit (elim (Bool-cases (is_free c)) [
      | inl free ↦ rw free at f
      | inr used ↦ let g : (c.sockfd ≢ y) × Fresh y (sockets cs) = rw used at f in g.1
    ])
    | inr miss ↦ rw miss (elim (Bool-cases (is_free c)) [
      | inl free ↦ rw free (Fresh-remove_loop y cs ne (rw free at f))
      | inr used ↦
          let g : (c.sockfd ≢ y) × Fresh y (sockets cs) = rw used at f in
          rw used (g.0, Fresh-remove_loop y cs ne g.1)
    ])
  ]

  pub Distinct-remove_loop :
      (cs : List ClientInfo)
      → fd ≢ 0
      → Distinct (sockets cs)
      → Distinct (sockets (remove_loop fd cs).0)
  unfolding remove_loop
  Distinct-remove_loop [] ne d = tt
  Distinct-remove_loop (c ∷ cs) ne d = elim (Bool-cases (c.sockfd == fd)) [
    | inl hit ↦ rw hit (elim (Bool-cases (is_free c)) [
      | inl free ↦ rw free at d
      | inr used ↦ let e : Fresh c.sockfd (sockets cs) × Distinct (sockets cs) = rw used at d in e.1
    ])
    | inr miss ↦ rw miss (elim (Bool-cases (is_free c)) [
      | inl free ↦ rw free (Distinct-remove_loop cs ne (rw free at d))
      | inr used ↦
          let e : Fresh c.sockfd (sockets cs) × Distinct (sockets cs) = rw used at d in
          rw used (Fresh-remove_loop c.sockfd cs ne e.0, Distinct-remove_loop cs ne e.1)
    ])
  ]

  -- After the removal no slot of a table without doubles holds the socket.
  pub Fresh-remove_self :
      (cs : List ClientInfo)
      → fd ≢ 0
      → Distinct (sockets cs)
      → Fresh fd (sockets (remove_loop fd cs).0)
  unfolding remove_loop
  Fresh-remove_self [] ne d = tt
  Fresh-remove_self (c ∷ cs) ne d = elim (Bool-cases (c.sockfd == fd)) [
    | inl hit ↦ rw hit (elim (Bool-cases (is_free c)) [
      | inl free ↦ absurd (ne (ground arith))
      | inr used ↦
          let e : Fresh c.sockfd (sockets cs) × Distinct (sockets cs) = rw used at d in
          subst (λ y. Fresh y (sockets cs)) ((==_iff c.sockfd fd).0 hit) e.0
    ])
    | inr miss ↦ rw miss (elim (Bool-cases (is_free c)) [
      | inl free ↦ rw free (Fresh-remove_self cs ne (rw free at d))
      | inr used ↦
          let e : Fresh c.sockfd (sockets cs) × Distinct (sockets cs) = rw used at d in
          rw used ((λ q. ground arith), Fresh-remove_self cs ne e.1)
    ])
  ]
