-- ===== src/Dummy/Hardware.antt =====
-- linux-netdevice-driver-test/dummy-hw.c: the queue of frames and the thread that raises interrupts.
-- An skb is a number, its address.
use linux_learn_demo_code.Base.{
  ℕ, Bool, true, false, List, [], ◌∷◌, ◌++◌, map, Bool-cases, inl, inr, if◌then◌else◌, ◌≡◌, refl,
  sym, ◌∙◌, ap,
}

-- What became of an skb that left the queue: given to the driver's callback, or freed.
pub data Fate : Type 0 where
  given freed : Fate

-- The globals; `registered` says whether `dummy_drv_rx` is set, and `handled` holds the skbs that left
-- the queue, in order.
pub record Hardware : Type 0 where
  pub skb_tx_q : List ℕ
  pub registered : Bool
  pub handled : List (ℕ × Fate)

-- `skb_queue_purge`.
abbrev pub purge : Hardware → Hardware
purge h = record h { skb_tx_q = []; handled = h.handled ++ map (λ skb. (skb, freed)) h.skb_tx_q }

-- `dummy_hw_init`, when the thread starts.
abbrev pub hw_init : Hardware
hw_init = record { skb_tx_q = []; registered = false; handled = [] }

-- `dummy_hw_send_irq`.
unfoldable pub send_irq : Hardware → Hardware
send_irq h = elim h.skb_tx_q [
  | [] ↦ h
  | skb ∷ rest ↦ record h {
    skb_tx_q = rest;
    handled = h.handled ++ (skb, (if h.registered then given else freed)) ∷ [];
  }
]

-- The inner loop of `dummy_hw_thread`, while nothing else uses the queue: a round for each skb.
drain_loop : List ℕ → Hardware → Hardware
unfolding send_irq
drain_loop [] h = h
drain_loop (skb ∷ rest) h = drain_loop rest (send_irq h)

unfoldable pub drain : Hardware → Hardware
unfolding drain_loop
drain h = drain_loop h.skb_tx_q h

-- `lt_hw_tx`.
unfoldable pub lt_hw_tx : ℕ → Hardware → Hardware
lt_hw_tx skb h = record h { skb_tx_q = h.skb_tx_q ++ skb ∷ [] }

-- `lt_request_irq`.
unfoldable pub lt_request_irq : Bool → Hardware → Hardware
lt_request_irq mode h =
    if mode
    then (if h.registered then h else record h { registered = true })
    else (if h.registered then purge (record h { registered = false }) else h)

-- The steps of the drivers and of the thread, in any order. `sent` holds the skbs of the calls of
-- `lt_hw_tx`, in order.
pub data IsReached : List ℕ → Hardware → Type 0 where
  start : IsReached [] hw_init
  transmit :
      (sent : List ℕ) (h : Hardware) (skb : ℕ)
      → IsReached sent h
      → IsReached (sent ++ skb ∷ []) (lt_hw_tx skb h)
  raise_irq : (sent : List ℕ) (h : Hardware) → IsReached sent h → IsReached sent (send_irq h)
  request :
      (sent : List ℕ) (h : Hardware) (mode : Bool)
      → IsReached sent h
      → IsReached sent (lt_request_irq mode h)

-- `dummy_hw_exit`, once the thread has stopped.
unfoldable pub hw_exit : Hardware → Hardware
hw_exit h = purge h

append_assoc : (xs ys zs : List ℕ) → (xs ++ ys) ++ zs ≡ xs ++ (ys ++ zs)
append_assoc [] ys zs = refl
append_assoc (x ∷ xs) ys zs = ap (◌∷◌ x) (append_assoc xs ys zs)

names_append :
    (xs ys : List (ℕ × Fate)) → map (λ e. e.0) (xs ++ ys) ≡ map (λ e. e.0) xs ++ map (λ e. e.0) ys
names_append [] ys = refl
names_append (x ∷ xs) ys = ap (◌∷◌ x.0) (names_append xs ys)

names_freed : (xs : List ℕ) → map (λ (e : ℕ × Fate). e.0) (map (λ skb. (skb, freed)) xs) ≡ xs
names_freed [] = refl
names_freed (x ∷ xs) = ap (◌∷◌ x) (names_freed xs)

append_nil : (xs : List ℕ) → xs ++ [] ≡ xs
append_nil [] = refl
append_nil (x ∷ xs) = ap (◌∷◌ x) (append_nil xs)

nil_right : (xs : List (ℕ × Fate)) → xs ++ [] ≡ xs
nil_right [] = refl
nil_right (x ∷ xs) = ap (◌∷◌ x) (nil_right xs)

moved_over :
    (xs : List (ℕ × Fate)) (x : ℕ × Fate) (ys : List (ℕ × Fate))
    → (xs ++ x ∷ []) ++ ys ≡ xs ++ x ∷ ys
moved_over [] x ys = refl
moved_over (y ∷ xs) x ys = ap (◌∷◌ y) (moved_over xs x ys)

-- The skbs that left the queue, and then those in it.
abbrev pub all_skbs : Hardware → List ℕ
all_skbs h = map (λ e. e.0) h.handled ++ h.skb_tx_q

all_skbs-purge : (h : Hardware) → map (λ e. e.0) (purge h).handled ≡ all_skbs h
all_skbs-purge h =
    names_append h.handled (map (λ skb. (skb, freed)) h.skb_tx_q)
    ∙ ap (λ xs. map (λ e. e.0) h.handled ++ xs) (names_freed h.skb_tx_q)

all_skbs-send_irq :
    (q : List ℕ) (r : Bool) (done : List (ℕ × Fate))
    → let h : Hardware = record { skb_tx_q = q; registered = r; handled = done } in
      all_skbs (send_irq h) ≡ all_skbs h
unfolding send_irq
all_skbs-send_irq [] r done = refl
all_skbs-send_irq (x ∷ q) r done =
    ap (λ xs. xs ++ q) (names_append done ((x, (if r then given else freed)) ∷ []))
    ∙ append_assoc (map (λ e. e.0) done) (x ∷ []) q

all_skbs-request : (mode : Bool) (h : Hardware) → all_skbs (lt_request_irq mode h) ≡ all_skbs h
unfolding lt_request_irq
all_skbs-request true h = elim (Bool-cases h.registered) [ inl on ↦ rw on | inr off ↦ rw off ]
all_skbs-request false h = elim (Bool-cases h.registered) [
  | inl on ↦ rw on (append_nil _ ∙ all_skbs-purge h)
  | inr off ↦ rw off
]

-- In every order of transmissions, interrupts, registrations and deregistrations, the skbs that have
-- left the queue, given to the driver or freed, and then those in it, are the skbs sent, each
-- once and in the order they were sent; so the driver gets its frames in order, and when the
-- hardware module goes, all of them are handled.
pub all_skbs-sent :
    (sent : List ℕ) (h : Hardware)
    → IsReached sent h
    → (all_skbs h ≡ sent) × (map (λ e. e.0) (hw_exit h).handled ≡ sent)
unfolding hw_exit lt_hw_tx
all_skbs-sent sent h r = (so_far sent h r, all_skbs-purge h ∙ so_far sent h r)
  where
    so_far : (sent : List ℕ) (h : Hardware) → IsReached sent h → all_skbs h ≡ sent
    so_far _ _ start = refl
    so_far _ _ (transmit sent h skb r) =
        sym (append_assoc (map (λ e. e.0) h.handled) h.skb_tx_q (skb ∷ []))
        ∙ ap (λ xs. xs ++ skb ∷ []) (so_far sent h r)
    so_far _ _ (raise_irq sent h r) =
        all_skbs-send_irq h.skb_tx_q h.registered h.handled ∙ so_far sent h r
    so_far _ _ (request sent h mode r) = all_skbs-request mode h ∙ so_far sent h r

drained :
    (q : List ℕ) (r : Bool) (done : List (ℕ × Fate))
    → drain_loop q (record { skb_tx_q = q; registered = r; handled = done }) ≡ record {
      skb_tx_q = [];
      registered = r;
      handled = done ++ map (λ skb. (skb, (if r then given else freed))) q;
    }
unfolding drain_loop send_irq
drained [] r done =
    ap (λ d. record { skb_tx_q = []; registered = r; handled = d }) (sym (nil_right done))
drained (x ∷ q) r done =
    drained q r (done ++ (x, (if r then given else freed)) ∷ [])
    ∙ ap (λ d. record { skb_tx_q = []; registered = r; handled = d })
        (moved_over done (x, (if r then given else freed)) _)

-- A round of the thread that nothing else interrupts empties the queue: each skb of it is given to
-- the driver's callback if one is registered and freed otherwise, in order.
pub drain_lem :
    (h : Hardware)
    → ((drain h).skb_tx_q ≡ [])
      × ((drain h).registered ≡ h.registered)
      × ((drain h).handled
          ≡ h.handled ++ map (λ skb. (skb, (if h.registered then given else freed))) h.skb_tx_q)
unfolding drain
drain_lem h =
    let e = drained h.skb_tx_q h.registered h.handled in
    (
      ap (λ (u : Hardware). u.skb_tx_q) e,
      ap (λ (u : Hardware). u.registered) e,
      ap (λ (u : Hardware). u.handled) e,
    )
