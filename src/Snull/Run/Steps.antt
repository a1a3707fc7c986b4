-- ===== src/Snull/Run/Steps.antt =====
-- What a transmission and a poll do to what is said of a sound driver, part by part.
use linux_learn_demo_code.Base.{
  ℕ, ◌+◌, Bool, true, false, Option, some, List, [], ◌∷◌, ◌++◌, length, length-append, length-onto,
  ltb, ltb→lt, if◌then◌else◌, ◌≡◌, ◌≢◌, refl, sym, ◌∙◌, ap, ap₂, subst, ◌⊎◌, inl, inr, arith,
}
use linux_learn_demo_code.Snull.Types.{
  Dev, sn0, sn1, other, Packet, Outcome, ok, World, priv, log, napi_complete_done,
}
use linux_learn_demo_code.Snull.Chains.{Loc, pool, queue, Place, Chain, head}
use linux_learn_demo_code.Snull.Buffers.Refine.{Inv, Keeps-Inv}
use linux_learn_demo_code.Snull.Receive.{rx_ints}
use linux_learn_demo_code.Snull.Receive.Polled.{Polled}
use linux_learn_demo_code.Snull.Transmit.Napi.Calm.{IsCalm}
use linux_learn_demo_code.Snull.Transmit.Napi.Deferred.{lists_after}
use linux_learn_demo_code.Snull.Run.{IsSound}

pub ok-injective : {v w : World} → ok v ≡ ok w → v ≡ w
ok-injective {v} {w} e = cc e

-- A list is determined by where it starts.
pub Chain-unique :
    (h : ℕ → Packet) (q : Option ℕ) (xs ys : List ℕ) → Chain h q xs → Chain h q ys → xs ≡ ys
Chain-unique h q [] [] c c' = refl
Chain-unique h q [] (y ∷ ys) c c' = cc
Chain-unique h q (x ∷ xs) [] c c' = cc
Chain-unique h q (x ∷ xs) (y ∷ ys) c c' =
    let e : y ≡ x = cc (c.0, c'.0) in
    cc (e, Chain-unique h (h x).next xs ys c.1 (subst (λ z. Chain h (h z).next ys) e c'.1))

pub List-cases : (xs : List ℕ) → (xs ≡ []) ⊎ ((y : ℕ) × (ys : List ℕ) × (xs ≡ y ∷ ys))
List-cases [] = inl refl
List-cases (y ∷ ys) = inr (y, ys, refl)

-- A device whose queue is not stopped has a packet to send.
pub true≢false : true ≢ false
true≢false e = cc

pub has_packet :
    (total : Dev → ℕ) (d : Dev) (w : World) (s : IsSound total w)
    → (priv w d).stopped ≡ false
    → (x : ℕ) × (xs : List ℕ) × (s.lists (pool d) ≡ x ∷ xs)
has_packet total d w s running = elim (List-cases (s.lists (pool d))) [
  | inl e ↦
      let empty = subst (Chain w.packets (priv w d).ppool) e (s.inv.tracks (pool d)).0 in
      absurd (true≢false (sym ((s.calm d).stops empty) ∙ running))
  | inr r ↦ r
]

-- A packet that is sent moves from the sender's pool to the twin's queue.
pub kept-sent :
    (d : Dev) (x : ℕ) (xs : List ℕ) (lists : Loc → List ℕ) (total : Dev → ℕ)
    → lists (pool d) ≡ x ∷ xs
    → ((e : Dev) → length (lists (pool e)) + length (lists (queue (other e))) ≡ total e)
    → (e : Dev)
    → length (lists_after d x xs lists (pool e))
        + length (lists_after d x xs lists (queue (other e)))
      ≡ total e
kept-sent sn0 x xs lists total first kept sn0 = omega (arith, kept sn0, ap length first)
kept-sent sn0 x xs lists total first kept sn1 = kept sn1
kept-sent sn1 x xs lists total first kept sn0 = kept sn0
kept-sent sn1 x xs lists total first kept sn1 = omega (arith, kept sn1, ap length first)

-- The twin has something to poll, and so its interrupts are disabled.
pub polled-sent :
    (d : Dev) (x : ℕ) (xs : List ℕ) (lists : Loc → List ℕ) (w w' : World)
    → (priv w' (other d)).rx_int_enabled ≡ false
    → (priv w' d).rx_int_enabled ≡ (priv w d).rx_int_enabled
    → ((e : Dev) → (priv w e).rx_int_enabled ≡ true → lists (queue e) ≡ [])
    → (e : Dev) → (priv w' e).rx_int_enabled ≡ true
    → lists_after d x xs lists (queue e) ≡ []
polled-sent sn0 x xs lists w w' off same polled sn0 on = polled sn0 (sym same ∙ on)
polled-sent sn0 x xs lists w w' off same polled sn1 on = absurd (true≢false (sym on ∙ off))
polled-sent sn1 x xs lists w w' off same polled sn0 on = absurd (true≢false (sym on ∙ off))
polled-sent sn1 x xs lists w w' off same polled sn1 on = polled sn1 (sym same ∙ on)

nothing_left : (xs ys : List ℕ) → xs ++ ys ≡ [] → ys ≡ []
nothing_left [] ys e = e
nothing_left (x ∷ xs) ys e = cc

-- The end of a poll that has passed on `m` frames.
abbrev pub closed : Dev → ℕ → Bool → World → World
closed d m less u = if less then rx_ints d true (log (napi_complete_done d m) u) else u

pub closed-Inv :
    (d : Dev) (m : ℕ) (less : Bool) (u : World) (place : ℕ → Place) (lists : Loc → List ℕ)
    → Inv u place lists
    → Inv (closed d m less u) place lists
closed-Inv d m false u place lists inv = inv
closed-Inv d m true u place lists inv =
    Keeps-Inv u (closed d m true u) place lists
      (record { packets = same_packets d; heads = same_heads d; locks = same_locks d }) inv
  where
    same_packets : (d : Dev) → (closed d m true u).packets ≡ u.packets
    same_packets sn0 = refl
    same_packets sn1 = refl

    same_heads : (d : Dev) (l : Loc) → head (closed d m true u) l ≡ head u l
    same_heads sn0 (pool sn0) = refl
    same_heads sn1 (pool sn0) = refl
    same_heads sn0 (queue sn0) = refl
    same_heads sn1 (queue sn0) = refl
    same_heads _ _ = refl

    same_locks : (d e : Dev) → (priv (closed d m true u) e).locked ≡ (priv u e).locked
    same_locks sn0 sn0 = refl
    same_locks sn1 sn0 = refl
    same_locks _ _ = refl

pub closed-IsCalm :
    (d : Dev) (m : ℕ) (less : Bool) (u : World)
    → ((e : Dev) → IsCalm (priv u e))
    → (e : Dev) → IsCalm (priv (closed d m less u) e)
closed-IsCalm d m false u c e = c e
closed-IsCalm sn0 m true u c sn0 = record { idle = (c sn0).idle; stops = (c sn0).stops }
closed-IsCalm sn0 m true u c sn1 = c sn1
closed-IsCalm sn1 m true u c sn0 = c sn0
closed-IsCalm sn1 m true u c sn1 = record { idle = (c sn1).idle; stops = (c sn1).stops }

-- What was left on the queue of a device whose interrupts are enabled again is nothing.
pub closed-polled :
    (d : Dev) (m : ℕ) (less : Bool) (u : World) (lists : Loc → List ℕ)
    → (less ≡ true → lists (queue d) ≡ [])
    → ((e : Dev) → (priv u e).rx_int_enabled ≡ true → lists (queue e) ≡ [])
    → (e : Dev) → (priv (closed d m less u) e).rx_int_enabled ≡ true
    → lists (queue e) ≡ []
closed-polled d m false u lists emptied polled e on = polled e on
closed-polled sn0 m true u lists emptied polled sn0 on = emptied refl
closed-polled sn0 m true u lists emptied polled sn1 on = polled sn1 on
closed-polled sn1 m true u lists emptied polled sn0 on = polled sn0 on
closed-polled sn1 m true u lists emptied polled sn1 on = emptied refl

-- The packets of a poll go from the queue to the pool of their owner.
pub kept-Polled :
    (d : Dev) (budget n : ℕ) (w : World) (lists : Loc → List ℕ) (m : ℕ) (u : World)
    (lists' : Loc → List ℕ) (total : Dev → ℕ)
    → Polled d budget n w lists m u lists'
    → ((e : Dev) → length (lists (pool e)) + length (lists (queue (other e))) ≡ total e)
    → (e : Dev) → length (lists' (pool e)) + length (lists' (queue (other e))) ≡ total e
kept-Polled sn0 budget n w lists m u lists' total r kept sn0 =
    ap₂ (λ xs ys. length xs + length ys) r.pool_kept r.queue_kept ∙ kept sn0
kept-Polled sn0 budget n w lists m u lists' total r kept sn1 = omega (
  arith,
  kept sn1,
  ap length r.split,
  ap length r.returned,
  length-onto {0} r.taken (lists (pool sn1)),
  length-append {0} r.taken (lists' (queue sn0)),
)
kept-Polled sn1 budget n w lists m u lists' total r kept sn0 = omega (
  arith,
  kept sn0,
  ap length r.split,
  ap length r.returned,
  length-onto {0} r.taken (lists (pool sn0)),
  length-append {0} r.taken (lists' (queue sn1)),
)
kept-Polled sn1 budget n w lists m u lists' total r kept sn1 =
    ap₂ (λ xs ys. length xs + length ys) r.pool_kept r.queue_kept ∙ kept sn1

-- A queue that was empty is empty still.
pub queue-Polled :
    (d : Dev) (budget n : ℕ) (w : World) (lists : Loc → List ℕ) (m : ℕ) (u : World)
    (lists' : Loc → List ℕ)
    → Polled d budget n w lists m u lists'
    → ((e : Dev) → (priv w e).rx_int_enabled ≡ true → lists (queue e) ≡ [])
    → (e : Dev) → (priv u e).rx_int_enabled ≡ true
    → lists' (queue e) ≡ []
queue-Polled sn0 budget n w lists m u lists' r polled sn0 on =
    nothing_left r.taken (lists' (queue sn0))
      (sym r.split ∙ polled sn0 (sym (r.unharmed sn0).ints ∙ on))
queue-Polled sn0 budget n w lists m u lists' r polled sn1 on =
    r.queue_kept ∙ polled sn1 (sym (r.unharmed sn1).ints ∙ on)
queue-Polled sn1 budget n w lists m u lists' r polled sn0 on =
    r.queue_kept ∙ polled sn0 (sym (r.unharmed sn0).ints ∙ on)
queue-Polled sn1 budget n w lists m u lists' r polled sn1 on =
    nothing_left r.taken (lists' (queue sn1))
      (sym r.split ∙ polled sn1 (sym (r.unharmed sn1).ints ∙ on))

pub emptied_by :
    (m budget : ℕ) (xs : List ℕ) → (m ≡ budget) ⊎ (xs ≡ []) → ltb m budget ≡ true → xs ≡ []
emptied_by m budget xs (inl e) less = absurd (omega (arith, e, ltb→lt m budget less))
emptied_by m budget xs (inr e) less = e

pub result-injective :
    {a b : ℕ × World}
    → ◌≡◌ {A = Option (Outcome (ℕ × World))} (some (ok a)) (some (ok b))
    → a.1 ≡ b.1
result-injective {a} {b} e = cc e
