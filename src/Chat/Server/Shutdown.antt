-- ===== src/Chat/Server/Shutdown.antt =====
-- select/chat-server/server.c:47-52, 244-254: the end of the server by SIGINT, which comes to one of the
-- threads while they work under `clients_mutex`.
use linux_learn_demo_code.Base.{
  ℕ, Bool, true, false, ◌||◌, ◌==◌, Option, none, some, List, [], ◌∷◌, ◌≡◌, ◌≢◌, refl, sym, ◌∙◌, ap,
  ◌⊎◌, ◌↔◌, inl, inr, Option-cases, Bool-cases,
}
use linux_learn_demo_code.Chat.Server.{Address, Net, Server, add_client, remove_client, cleanup}
use linux_learn_demo_code.Chat.Server.Slots.{sockets, cleanup-sockets}

-- The table, the thread that holds the mutex, the threads that run `sigint_handler`, and, once the
-- program has ended, the sockets that `cleanup` closed.
pub record Process : Type 0 where
  pub server : Server
  pub holder : Option ℕ
  pub handlers : List ℕ
  pub closed : Option (List ℕ)

-- Whether a thread runs the handler.
abbrev pub handles : ℕ → List ℕ → Bool
handles t [] = false
handles t (u ∷ us) = u == t || handles t us

-- A step of the program: a thread takes the mutex, changes the table under it by the body of
-- `add_client` or `remove_client`, or gives it back, as these and `broadcast_message` do; SIGINT comes to
-- a thread, which then does nothing but run the handler; or a handler takes the mutex in `cleanup` and
-- ends the program. SIGINT may come again, but not to a thread that handles one.
pub data Moves (net : Net) : Process → Process → Type 0 where
  locks :
      (p : Process) (t : ℕ)
      → p.closed ≡ none
      → p.holder ≡ none
      → handles t p.handlers ≡ false
      → Moves net p (record p { holder = some t })
  adds :
      (p : Process) (t fd : ℕ) (a : Address)
      → p.closed ≡ none
      → p.holder ≡ some t
      → handles t p.handlers ≡ false
      → Moves net p (record p { server = add_client net fd a p.server })
  removes :
      (p : Process) (t fd : ℕ)
      → p.closed ≡ none
      → p.holder ≡ some t
      → handles t p.handlers ≡ false
      → Moves net p (record p { server = remove_client fd p.server })
  unlocks :
      (p : Process) (t : ℕ)
      → p.closed ≡ none
      → p.holder ≡ some t
      → handles t p.handlers ≡ false
      → Moves net p (record p { holder = none })
  sigint :
      (p : Process) (t : ℕ)
      → p.closed ≡ none
      → handles t p.handlers ≡ false
      → Moves net p (record p { handlers = t ∷ p.handlers })
  exits :
      (p : Process) (t : ℕ)
      → p.closed ≡ none
      → handles t p.handlers ≡ true
      → p.holder ≡ none
      → Moves net p (record p { closed = some (cleanup p.server.clients) })

pub data Comes (net : Net) : Process → Process → Type 0 where
  here : (p : Process) → Comes net p p
  after : (p q r : Process) → Comes net p q → Moves net q r → Comes net p r

-- The mutex is free, or held by a thread that does not run the handler.
pub data IsOpen (p : Process) : Type 0 where
  unheld : p.holder ≡ none → IsOpen p
  held : (u : ℕ) → p.holder ≡ some u → handles u p.handlers ≡ false → IsOpen p

-- A handler waits for the mutex in the thread that holds it.
record IsStuck (t : ℕ) (p : Process) : Type 0 where
  holds : p.holder ≡ some t
  waits : handles t p.handlers ≡ true
  running : p.closed ≡ none

some-injective : {a b : ℕ} → some a ≡ some b → a ≡ b
some-injective e = cc e

none≢some : {a : ℕ} → none ≢ some a
none≢some e = cc

none≢some_list : {xs : List ℕ} → none ≢ some xs
none≢some_list e = cc

true≢false : true ≢ false
true≢false e = cc

or_true : (b : Bool) → (b || true) ≡ true
or_true true = refl
or_true false = refl

-- The thread that holds the mutex is in its handler, and so it takes no step itself.
not_me : (t u : ℕ) (p : Process) → IsStuck t p → p.holder ≡ some u → handles u p.handlers ≢ false
not_me t u p s h f =
    true≢false (sym s.waits ∙ ap (λ x. handles x p.handlers) (some-injective (sym s.holds ∙ h)) ∙ f)

module _ (net : Net) where
  Moves-IsStuck : (t : ℕ) (p q : Process) → IsStuck t p → Moves net p q → IsStuck t q
  Moves-IsStuck t _ _ s (locks p u c h f) = absurd (none≢some (sym h ∙ s.holds))
  Moves-IsStuck t _ _ s (adds p u fd a c h f) = absurd (not_me t u p s h f)
  Moves-IsStuck t _ _ s (removes p u fd c h f) = absurd (not_me t u p s h f)
  Moves-IsStuck t _ _ s (unlocks p u c h f) = absurd (not_me t u p s h f)
  Moves-IsStuck t _ _ s (sigint p u c f) = record {
    holds = s.holds;
    waits = rw s.waits (or_true (u == t));
    running = s.running;
  }
  Moves-IsStuck t _ _ s (exits p u c f h) = absurd (none≢some (sym h ∙ s.holds))

  Comes-IsStuck : (t : ℕ) (p q : Process) → IsStuck t p → Comes net p q → IsStuck t q
  Comes-IsStuck t _ _ s (here p) = s
  Comes-IsStuck t _ _ s (after p q r c m) = Moves-IsStuck t q r (Comes-IsStuck t p q s c) m

  -- What `cleanup` has closed is what the table holds.
  Moves-closed :
      (p q : Process)
      → Moves net p q
      → (q.closed ≡ none) ⊎ (q.closed ≡ some (sockets q.server.clients))
  Moves-closed _ _ (locks p t c h f) = inl c
  Moves-closed _ _ (adds p t fd a c h f) = inl c
  Moves-closed _ _ (removes p t fd c h f) = inl c
  Moves-closed _ _ (unlocks p t c h f) = inl c
  Moves-closed _ _ (sigint p t c f) = inl c
  Moves-closed _ _ (exits p t c f h) = inr (ap some (cleanup-sockets p.server.clients))

  Comes-closed :
      (p q : Process)
      → p.closed ≡ none
      → Comes net p q
      → (q.closed ≡ none) ⊎ (q.closed ≡ some (sockets q.server.clients))
  Comes-closed _ _ running (here p) = inl running
  Comes-closed _ _ running (after p q r c m) = Moves-closed q r m

  module _ (p : Process) (t : ℕ) (running : p.closed ≡ none)
      (caught : handles t p.handlers ≡ true) where
    abbrev Ends : Type 0
    Ends = (r : Process) × Comes net p r × (r.closed ≢ none)

    -- The mutex is given back if it is held, and then the handler takes it.
    can_end : IsOpen p → Ends
    can_end (unheld free) =
        (_, after p p _ (here p) (exits p t running caught free), λ e. none≢some_list (sym e))
    can_end (held u holds f) =
        let q : Process = record p { holder = none } in
        (
          _,
          after p q _ (after p p q (here p) (unlocks p u running holds f))
              (exits q t running caught refl),
          λ e. none≢some_list (sym e),
        )

    has_to_be_open : Ends → IsOpen p
    has_to_be_open (r, c, ended) = elim (Option-cases p.holder) [
      | inl free ↦ unheld free
      | inr (u, holds) ↦ elim (Bool-cases (handles u p.handlers)) [
        | inr f ↦ held u holds f
        | inl f ↦
            let s : IsStuck u r =
              Comes-IsStuck u p r (record { holds = holds; waits = f; running = running }) c in
            absurd (ended s.running)
      ]
    ]

    -- When SIGINT has come to a thread, the program can end exactly if the mutex is free or is held by a
    -- thread that does not run the handler: then that thread can give it back, and the handler in `cleanup`
    -- can take it. So if the handler runs in the thread that holds the mutex, which waits for itself then,
    -- the program never ends, whatever its threads do and whether or not SIGINT comes again. In every state
    -- that it comes to, it has not ended, or `cleanup` has closed the sockets of the clients that are in the
    -- table then, in the order of their slots, and nothing else.
    pub sigint-ends :
        (q : Process)
        → Comes net p q
        → (((r : Process) × Comes net p r × (r.closed ≢ none)) ↔ IsOpen p)
          × ((q.closed ≡ none) ⊎ (q.closed ≡ some (sockets q.server.clients)))
    sigint-ends q c = ((has_to_be_open, can_end), Comes-closed p q running c)
