-- ===== src/Snull/Run/Sound.antt =====
-- Every order of calls keeps the driver sound, and the next call returns.
use linux_learn_demo_code.Base.{
  ℕ, suc, ◌≤◌, ◌<◌, true, false, some, List, [], length, ◌≡◌, refl, sym, ◌∙◌, ap, subst, ◌⊎◌, inl,
  inr, Bool-cases, arith,
}
use linux_learn_demo_code.Snull.Types.{Dev, other, ok, World, Env, Skb, priv}
use linux_learn_demo_code.Snull.Chains.{queue, Chain}
use linux_learn_demo_code.Snull.Buffers.Refine.{Inv}
use linux_learn_demo_code.Snull.Receive.{poll}
use linux_learn_demo_code.Snull.Receive.Passed.{scheduled}
use linux_learn_demo_code.Snull.Receive.Poll.{poll_lem}
use linux_learn_demo_code.Snull.Transmit.{tx, eth_data_len, rewrite_header, pad}
use linux_learn_demo_code.Snull.Transmit.Armed.{armed, armed-keeps}
use linux_learn_demo_code.Snull.Transmit.Napi.{IsReady}
use linux_learn_demo_code.Snull.Transmit.Napi.Calm.{IsCalm, queued-IsCalm, armed-IsCalm}
use linux_learn_demo_code.Snull.Transmit.Napi.Deferred.{lists_after, tx-queued, tx_defers}
use linux_learn_demo_code.Snull.Run.{IsReached, begin, transmits, polls, IsSound}
use linux_learn_demo_code.Snull.Run.Polls.{poll-IsPolled}
use linux_learn_demo_code.Snull.Run.Awaited.{awaited-sent}
use linux_learn_demo_code.Snull.Run.Steps.{
  Chain-unique, has_packet, kept-sent, ok-injective, polled-sent, result-injective,
}

module _ (k : Env) (napi : k.use_napi ≡ true) (steady : k.lockup ≡ 0) (total : Dev → ℕ) where
  IsSound-IsReady : (d : Dev) (w : World) → IsSound total w → IsReady k d w
  IsSound-IsReady d w s = record {
    napi = napi;
    steady = rw steady;
    idle = λ e. (s.calm e).idle;
    free = s.inv.free;
  }

  tx-IsSound :
      (skb : Skb) (d : Dev) (w w' : World)
      → IsSound total w
      → (priv w d).stopped ≡ false
      → length skb.bytes ≤ eth_data_len
      → tx k skb d w ≡ ok w'
      → IsSound total w'
  tx-IsSound skb d w w' s running small e =
      let r = IsSound-IsReady d w s in
      let (x, xs, first) = has_packet total d w s running in
      let (w₁, place', eq, inv', frame, calls, sent, stopped) =
        tx_defers k skb d w s.place s.lists x xs r s.inv first small in
      let left =
        queued-IsCalm d x (rewrite_header k.ip_fast_csum (pad skb.bytes)) (length (pad skb.bytes))
          (armed skb d w) (armed-IsCalm skb d w s.calm) in
      let q =
        ok-injective (sym (tx-queued k skb d w s.place s.lists x xs r s.inv first small) ∙ e) in
      let same =
        ap (λ (z : World). (priv z d).rx_int_enabled) (sym q)
        ∙ left.2
        ∙ armed-keeps skb d w (λ v. v.rx_int_enabled) (λ v s. refl) d in
      record {
        place = place';
        lists = lists_after d x xs s.lists;
        inv =
            subst (λ z. Inv z place' (lists_after d x xs s.lists)) (ok-injective (sym eq ∙ e)) inv';
        calm = λ e. subst (λ (z : World). IsCalm (priv z e)) q (left.0 e);
        kept = kept-sent d x xs s.lists total first s.kept;
        polled =
            polled-sent d x xs s.lists w w'
              (ap (λ (z : World). (priv z (other d)).rx_int_enabled) (sym q) ∙ left.1) same
              s.polled;
        awaited =
            awaited-sent d (some skb.id) w w'
              (ap (λ (z : World). z.calls) (sym (ok-injective (sym eq ∙ e))) ∙ calls) same
              s.awaited;
      }

  poll-IsSound :
      (fuel : ℕ) (d : Dev) (budget m : ℕ) (w u : World) (xs : List ℕ)
      → IsSound total w
      → Chain w.packets (priv w d).rx_queue xs
      → length xs < fuel
      → poll fuel d budget w ≡ some (ok (m, u))
      → IsSound total u
  poll-IsSound fuel d budget m w u xs s c enough e =
      let same =
        Chain-unique w.packets (priv w d).rx_queue (s.lists (queue d)) xs (s.inv.tracks (queue d)).0
          c in
      let (n, v, eq, s', r) =
        poll-IsPolled total fuel d budget w s (omega (arith, enough, ap length same)) in
      subst (IsSound total) (result-injective (sym eq ∙ e)) s'

  pub reached-IsSound : (from w : World) → IsSound total from → IsReached k from w → IsSound total w
  reached-IsSound from _ s begin = s
  reached-IsSound from _ s (transmits w w' skb d r running small e) =
      tx-IsSound skb d w w' (reached-IsSound from w s r) running small e
  reached-IsSound from _ s (polls w u fuel d budget m xs r c enough e) =
      poll-IsSound fuel d budget m w u xs (reached-IsSound from w s r) c enough e

  -- Under NAPI and with no lockups, the driver stays sound whatever the kernel calls, in any order:
  -- transmissions of frames of at most 1500 bytes on a device whose queue is not stopped, and polls
  -- with any budget, whichever allocations fail. So no packet is lost: those of a device are in its pool
  -- or wait at its twin, and a device with packets that wait is scheduled: `napi_schedule` has been called
  -- for it, and `napi_complete_done` not after that. In every state that it reaches a transmission returns if the device's queue is not stopped, and so does a poll, both without a
  -- fault.
  pub IsReached-IsSound :
      (from w : World) (skb : Skb) (d : Dev) (budget : ℕ)
      → IsSound total from
      → IsReached k from w
      → length skb.bytes ≤ eth_data_len
      → (s : IsSound total w) × ((s.lists (queue d) ≡ []) ⊎ (scheduled d w.calls ≡ true))
        × (((priv w d).stopped ≡ true) ⊎ ((w' : World) × (tx k skb d w ≡ ok w')))
        × (m : ℕ) × (u : World) × (poll (suc (length (s.lists (queue d)))) d budget w
            ≡ some (ok (m, u)))
  IsReached-IsSound from w skb d budget start r small =
      let s = reached-IsSound from w start r in
      let (m, u, place', lists', eq, inv', polled) =
        poll_lem (suc (length (s.lists (queue d)))) d budget w s.place s.lists s.inv
          (omega arith) in
      (
        s,
        elim (Bool-cases (priv w d).rx_int_enabled) [
          | inl on ↦ inl (s.polled d on)
          | inr off ↦ inr (s.awaited d off)
        ],
        elim (Bool-cases (priv w d).stopped) [
          | inl stopped ↦ inl stopped
          | inr running ↦
              let (x, xs, first) = has_packet total d w s running in
              let t =
                tx-queued k skb d w s.place s.lists x xs (IsSound-IsReady d w s) s.inv first
                  small in
              inr (_, t)
        ],
        m,
        _,
        eq,
      )
