-- ===== src/Snull/Run/Reversed.antt =====
-- Several transmissions of one device under NAPI before its twin is polled: what the poll hands over.
use linux_learn_demo_code.Base.{
  ℕ, suc, ◌≤◌, Bool, true, false, some, List, [], ◌∷◌, ◌++◌, map, onto, length, All, ltb,
  if◌then◌else◌, ◌≡◌, refl, sym, ◌∙◌, ap, ap₂, inl, inr, arith, length-append, length-onto,
}
use mathlib.Core.List.{append-nil}
use linux_learn_demo_code.Snull.Types.{
  Dev, sn0, sn1, other, ok, World, Env, Skb, priv, log, napi_complete_done,
}
use linux_learn_demo_code.Snull.Chains.{Loc, pool, queue, Place}
use linux_learn_demo_code.Snull.Buffers.Refine.{Inv}
use linux_learn_demo_code.Snull.Receive.{poll, rx_ints}
use linux_learn_demo_code.Snull.Receive.Passed.{frame_of, received, allocated}
use linux_learn_demo_code.Snull.Receive.Polled.{Polled}
use linux_learn_demo_code.Snull.Receive.Poll.{poll_lem}
use linux_learn_demo_code.Snull.Transmit.{eth_data_len}
use linux_learn_demo_code.Snull.Transmit.Napi.Calm.{IsCalm}
use linux_learn_demo_code.Snull.Run.Polls.{length-map, Polled-bound}
use linux_learn_demo_code.Snull.Run.Sends.{tx_all, sent_frame, waiting, tx_all-Sent}

no_more : (xs : List ℕ) → length xs ≡ 0 → xs ≡ []
no_more [] e = refl
no_more (x ∷ xs) e = absurd (omega (arith, e))

-- A poll whose budget is not below the length of the queue empties it.
received-Polled :
    (d : Dev) (budget : ℕ) (w : World) (lists : Loc → List ℕ) (m : ℕ) (u : World)
    (lists' : Loc → List ℕ)
    → length (lists (queue d)) ≤ budget
    → Polled d budget 0 w lists m u lists'
    → received d u.calls
      ≡ onto (allocated w.allocs (map (frame_of w) (lists (queue d)))) (received d w.calls)
received-Polled d budget w lists m u lists' le r =
    r.passed
    ∙ ap (λ xs. onto (allocated w.allocs (map (frame_of w) xs)) (received d w.calls))
        (sym (append-nil r.taken) ∙ ap (◌++◌ r.taken) (sym left) ∙ sym r.split)
  where
    left : lists' (queue d) ≡ []
    left = elim r.ended [
      | inl e ↦ no_more (lists' (queue d)) (
          omega (
            arith,
            e,
            Polled-bound d budget w lists m u lists' r,
            le,
            ap length r.split,
            length-append {0} r.taken (lists' (queue d)),
          ))
      | inr e ↦ e
    ]

-- The interrupts and the end of a poll are not frames.
closed-received :
    (d : Dev) (m : ℕ) (less : Bool) (u : World)
    → received d (if less then rx_ints d true (log (napi_complete_done d m) u) else u).calls
      ≡ received d u.calls
closed-received d m false u = refl
closed-received sn0 m true u = refl
closed-received sn1 m true u = refl

length-frames : (k : Env) (skbs : List Skb) → length (map (sent_frame k) skbs) ≡ length skbs
length-frames k [] = refl
length-frames k (skb ∷ more) = ap suc (length-frames k more)

-- Under NAPI and with no lockups, on a well-formed driver whose two devices are calm, the kernel
-- transmits some skbs of at most 1500 bytes on one device, no more than its pool has packets, while
-- nothing waits at its twin; then it polls the twin once with a budget of at least their number. All
-- calls return without a fault, and the upper layers get the frames of the skbs in the reverse order,
-- the one sent last first: each padded and with its addresses rewritten, if an skb can be allocated
-- for it.
pub poll-reverses :
    (k : Env) (d : Dev) (skbs : List Skb) (budget : ℕ) (w : World) (place : ℕ → Place)
    (lists : Loc → List ℕ)
    → k.use_napi ≡ true
    → k.lockup ≡ 0
    → Inv w place lists
    → ((e : Dev) → IsCalm (priv w e))
    → length skbs ≤ length (lists (pool d))
    → All (λ skb. length skb.bytes ≤ eth_data_len) skbs
    → lists (queue (other d)) ≡ []
    → length skbs ≤ budget
    → (w' : World) × (m : ℕ) × (u : World) × (tx_all k skbs d w ≡ ok w')
      × (poll (suc (length skbs)) (other d) budget w' ≡ some (ok (m, u)))
      × (received (other d) u.calls
          ≡ onto
              (allocated w.allocs (onto (map (sent_frame k) skbs) []))
              (received (other d) w.calls))
poll-reverses k d skbs budget w place lists napi steady inv calm enough small empty budgeted =
    let (w', place', lists', eq, s) =
      tx_all-Sent k d skbs w place lists napi steady inv calm enough small in
    let queued : waiting d w' lists' ≡ onto (map (sent_frame k) skbs) [] =
      s.queues ∙ ap (λ xs. onto (map (sent_frame k) skbs) (map (frame_of w) xs)) empty in
    let size : length (lists' (queue (other d))) ≡ length skbs = omega (
      arith,
      sym (length-map (frame_of w') (lists' (queue (other d)))),
      ap length queued,
      length-onto {0} (map (sent_frame k) skbs) [],
      length-frames k skbs,
    ) in
    let (m, u, place₁, lists₁, eq', inv', r) =
      poll_lem (suc (length skbs)) (other d) budget w' place' lists' s.inv (omega (arith, size)) in
    (
      w',
      m,
      _,
      eq,
      eq',
      closed-received (other d) m (ltb m budget) u
          ∙ received-Polled (other d) budget w' lists' m u lists₁ (omega (arith, size, budgeted)) r
          ∙ ap₂ (λ bs fs. onto (allocated bs fs) (received (other d) w'.calls)) s.allocs queued
          ∙ ap (onto (allocated w.allocs (onto (map (sent_frame k) skbs) [])))
              (s.unheard (other d)),
    )
