-- ===== src/Snull/Receive/Poll.antt =====
-- The poll loop: it ends, delivers at most its budget, and gives every packet it takes back to the
-- pool of the device that owns it.
use linux_learn_demo_code.Base.{
  ℕ, zero, suc, ◌+◌, ◌≤◌, ◌<◌, Bool, true, false, ◌&&◌, not, Option, some, List, [], ◌∷◌, length,
  ltb, ltb→lt, if◌then◌else◌, is_none, ==_refl, ◌≡◌, refl, ◌∙◌, ap, inl, inr, arith, Bool-cases,
}
use linux_learn_demo_code.Snull.Types.{
  Dev, sn0, sn1, other, ok, Outcome, World, priv, napi_complete_done, log,
}
use linux_learn_demo_code.Snull.Chains.{Loc, queue, Place, in_flight, updated, moved}
use linux_learn_demo_code.Snull.Buffers.Refine.{Inv, dequeue_buf_refines}
use linux_learn_demo_code.Snull.Buffers.States.{is_nil, is_none-Chain, dequeued, released}
use linux_learn_demo_code.Snull.Buffers.{dequeue_buf}
use linux_learn_demo_code.Snull.Receive.{deliver, poll_one, poll_loop, poll, rx_ints}
use linux_learn_demo_code.Snull.Receive.Polled.{Polled, round, round_lem, Polled-round, Polled-stop}
use linux_learn_demo_code.Snull.Receive.Passed.{round-received, round-scheduled}
use linux_learn_demo_code.Snull.Receive.Rounds.{
  calls-dequeued, calls-released, deliver-passed_on, passed_on, poll_one_lem, round-Unharmed,
}

-- The result of a loop that ends without a fault.
abbrev pub Ends : Dev → ℕ → ℕ → World → (Loc → List ℕ) → Option (Outcome (ℕ × World)) → Type 0
Ends d budget n w lists r =
    (m : ℕ) × (u : World) × (place' : ℕ → Place) × (lists' : Loc → List ℕ) × (r ≡ some (ok (m, u)))
    × Inv u place' lists'
    × Polled d budget n w lists m u lists'

poll_loop-stop :
    (fuel : ℕ) (d : Dev) (budget n : ℕ) (w : World)
    → (ltb n budget && not (is_none (priv w d).rx_queue)) ≡ false
    → poll_loop (suc fuel) d budget n w ≡ some (ok (n, w))
unfolding poll_loop
poll_loop-stop fuel d budget n w e = rw (poll_loop, e)

poll_loop-next :
    (fuel : ℕ) (d : Dev) (budget n : ℕ) (w : World) (p : ℕ) (w₁ : World) (b : Bool) (w₂ : World)
    → (ltb n budget && not (is_none (priv w d).rx_queue)) ≡ true
    → dequeue_buf d w ≡ ok (some p, w₁)
    → poll_one d p w₁ ≡ ok (b, w₂)
    → poll_loop (suc fuel) d budget n w ≡ poll_loop fuel d budget (if b then n + 1 else n) w₂
unfolding poll_loop
poll_loop-next fuel d budget n w p w₁ b w₂ e f g = rw (poll_loop, e, f, g)

-- The test of the loop, in terms of the queue.
test-eq :
    (d : Dev) (budget n : ℕ) (w : World) (place : ℕ → Place) (lists : Loc → List ℕ)
    → Inv w place lists
    → (ltb n budget && not (is_none (priv w d).rx_queue))
      ≡ (ltb n budget && not (is_nil (lists (queue d))))
test-eq d budget n w place lists inv =
    ap (λ b. ltb n budget && not b)
      (is_none-Chain w.packets (priv w d).rx_queue (lists (queue d)) (inv.tracks (queue d)).0)

and_false : (b : Bool) → (b && false) ≡ false
and_false true = refl
and_false false = refl

packets-dequeued : (d : Dev) (p : ℕ) (w : World) → (dequeued d p w).packets ≡ w.packets
packets-dequeued sn0 p w = refl
packets-dequeued sn1 p w = refl

-- One round counts what it delivers.
round_counted :
    (d : Dev) (x n : ℕ) (w : World)
    → passed_on d (released (other d) x (deliver d x (dequeued d x w)).1).calls + n
      ≡ passed_on d w.calls + (if (deliver d x (dequeued d x w)).0 then n + 1 else n)
round_counted d x n w =
    rw
      (
        calls-released (other d) x (deliver d x (dequeued d x w)).1,
        deliver-passed_on d x (dequeued d x w),
        calls-dequeued d x w,
      )
      (one (deliver d x (dequeued d x w)).0 (passed_on d w.calls))
  where
    one : (b : Bool) (c : ℕ) → (if b then suc c else c) + n ≡ c + (if b then n + 1 else n)
    one true c = omega arith
    one false c = omega arith

next_le : (b : Bool) (n budget : ℕ) → ltb n budget ≡ true → (if b then n + 1 else n) ≤ budget
next_le true n budget h = omega (arith, ltb→lt n budget h)
next_le false n budget h = omega (arith, ltb→lt n budget h)

pub poll_loop-Ends :
    (fuel : ℕ) (d : Dev) (budget n : ℕ) (w : World) (place : ℕ → Place) (lists : Loc → List ℕ)
    (xs : List ℕ)
    → Inv w place lists
    → lists (queue d) ≡ xs
    → length xs < fuel
    → n ≤ budget
    → Ends d budget n w lists (poll_loop fuel d budget n w)
poll_loop-Ends zero d budget n w place lists xs inv e lt le = absurd (omega arith)
poll_loop-Ends (suc fuel) d budget n w place lists [] inv e lt le = (
  n,
  w,
  place,
  lists,
  poll_loop-stop fuel d budget n w (
      test-eq d budget n w place lists inv
      ∙ ap (λ ys. ltb n budget && not (is_nil ys)) e
      ∙ and_false (ltb n budget)),
  inv,
  Polled-stop d budget n w lists le (inr e),
)
poll_loop-Ends (suc fuel) d budget n w place lists (x ∷ xs) inv e lt le =
    elim (Bool-cases (ltb n budget)) [
      | inl more ↦
          let got = dequeue_buf_refines d w place lists x xs inv e in
          let w₁ = dequeued d x w in
          let lists₁ = updated lists (queue d) xs in
          let given = (deliver d x w₁).0 in
          let w₂ = released (other d) x (deliver d x w₁).1 in
          let one =
            poll_one_lem d x w₁ (moved place x in_flight) lists₁ got.1 (rw ==_refl)
              (ap (λ h. (h x).dev) (packets-dequeued d x w) ∙ got.2) in
          let k = if given then n + 1 else n in
          let counted : passed_on d w₂.calls + n ≡ passed_on d w.calls + k =
            round_counted d x n w in
          let (m, u, place', lists', eq, inv', polled) =
            poll_loop-Ends fuel d budget k w₂ _ (round d x xs lists) xs one.1
              (round_lem d x xs lists).0 (omega arith) (next_le given n budget more) in
          (
            m,
            u,
            place',
            lists',
            poll_loop-next fuel d budget n w x w₁ given w₂
                  (test-eq d budget n w place lists inv
                    ∙ ap (λ ys. ltb n budget && not (is_nil ys)) e
                    ∙ ap (λ b. b && true) more)
                  got.0 one.0
                ∙ eq,
            inv',
            Polled-round d budget n w w₂ lists x xs k m u lists' e counted (round-received d x w)
                (round-Unharmed d x w) (round-scheduled d x w) polled,
          )
      | inr full ↦ (
        n,
        w,
        place,
        lists,
        poll_loop-stop fuel d budget n w (rw full),
        inv,
        Polled-stop d budget n w lists le (inl (ground arith)),
      )
    ]

-- `snull_poll` returns on every well-formed driver, whichever allocations fail, once the fuel exceeds
-- the length of the queue: without a fault, and with the lists well formed. It takes some packets
-- off the front of the queue and puts them back, one by one, into the pool of the device that owns
-- them; the other two lists keep theirs. Of their frames it passes those on, in the order of the
-- queue, for which an skb can be allocated, and it returns how many these are, at most its budget. It returns the budget, or it has emptied the queue; and exactly if it
-- returns less than the budget it completes the poll and enables receive interrupts again. Up to
-- then the interrupt flags of both devices stay, and so does it that a device with an empty pool has
-- a stopped transmit queue.
pub poll_lem :
    (fuel : ℕ) (d : Dev) (budget : ℕ) (w : World) (place : ℕ → Place) (lists : Loc → List ℕ)
    → Inv w place lists
    → length (lists (queue d)) < fuel
    → (m : ℕ) × (u : World) × (place' : ℕ → Place) × (lists' : Loc → List ℕ) × (poll fuel d budget w
        ≡ some
            (ok (m, if ltb m budget then rx_ints d true (log (napi_complete_done d m) u) else u)))
      × Inv u place' lists'
      × Polled d budget 0 w lists m u lists'
unfolding poll
poll_lem fuel d budget w place lists inv lt =
    let (m, u, place', lists', eq, inv', polled) =
      poll_loop-Ends fuel d budget 0 w place lists (lists (queue d)) inv refl lt (omega arith) in
    (m, u, place', lists', rw (poll, eq), inv', polled)
