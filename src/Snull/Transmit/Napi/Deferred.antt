-- ===== src/Snull/Transmit/Napi/Deferred.antt =====
-- What a transmission under the NAPI handler does to the four lists, and what it hands over.
use linux_learn_demo_code.Base.{
  ℕ, ◌≤◌, true, false, some, not, ◌&&◌, ◌==◌, ◌%◌, add_ulong, List, ◌∷◌, take, length,
  if◌then◌else◌, ◌≡◌, refl, sym, ◌∙◌, ap, arith, ==_refl,
}
use linux_learn_demo_code.Snull.Types.{
  Dev, sn0, sn1, other, ok, World, Env, Skb, priv, dev_kfree_skb, netif_trans_update, napi_schedule,
}
use linux_learn_demo_code.Snull.Chains.{
  Loc, pool, queue, Place, at, in_flight, head, moved, updated, store-Wf, front,
}
use linux_learn_demo_code.Snull.Buffers.Refine.{
  Inv, Keeps-Inv, get_tx_buffer_refines, enqueue_buf_refines,
}
use linux_learn_demo_code.Snull.Buffers.States.{got, enqueued, is_nil}
use linux_learn_demo_code.Snull.Transmit.{tx, rewrite_header, pad, eth_data_len}
use linux_learn_demo_code.Snull.Transmit.Frame.{length-rewrite_header, length-pad}
use linux_learn_demo_code.Snull.Transmit.Armed.{armed, len-pad, pad-le, armed-keeps, armed-Keeps}
use linux_learn_demo_code.Snull.Transmit.Regular.{filled}
use linux_learn_demo_code.Snull.Transmit.Napi.{
  IsReady, told-fields, queued, hw_tx-eq, queued-calls, queued-stopped, queued-frame, enqueued-twin,
}
use linux_learn_demo_code.Snull.Transmit.Told.{told, told-Keeps, ended-Keeps}

-- The lists after the transmission.
abbrev pub lists_after : Dev → ℕ → List ℕ → (Loc → List ℕ) → Loc → List ℕ
lists_after d x xs lists =
    updated (updated lists (pool d) xs) (queue (other d)) (x ∷ lists (queue (other d)))

lists_after_eq :
    (d : Dev) (x : ℕ) (xs : List ℕ) (lists : Loc → List ℕ)
    → updated
        (updated lists (pool d) xs)
        (queue (other d))
        (x ∷ updated lists (pool d) xs (queue (other d)))
      ≡ lists_after d x xs lists
lists_after_eq d x xs lists = refl

filled-Inv :
    (x : ℕ) (buf : List ℕ) (len : ℕ) (w : World) (place : ℕ → Place) (lists : Loc → List ℕ)
    → place x ≡ in_flight
    → Inv w place lists
    → Inv (filled x buf len w) (moved place x in_flight) lists
filled-Inv x buf len w place lists flying inv = record {
  tracks = store-Wf w.packets (head w) place lists x _ in_flight inv.tracks flying;
  free = filled_free;
}
  where
    filled_free : (e : Dev) → (priv (filled x buf len w) e).locked ≡ false
    filled_free sn0 = inv.free sn0
    filled_free sn1 = inv.free sn1

other-other : (d : Dev) → other (other d) ≡ d
other-other sn0 = refl
other-other sn1 = refl

got-dev :
    (d : Dev) (x : ℕ) (buf : List ℕ) (len : ℕ) (w : World)
    → ((filled x buf len (got d x w)).packets x).dev ≡ (w.packets x).dev
got-dev sn0 x buf len w = rw ==_refl
got-dev sn1 x buf len w = rw ==_refl

armed-calls :
    (skb : Skb) (d : Dev) (w : World)
    → dev_kfree_skb (priv (armed skb d w) d).skb
        ∷ (if (priv (armed skb d w) (other d)).rx_int_enabled
            then napi_schedule (other d) ∷ (armed skb d w).calls
            else (armed skb d w).calls)
      ≡ dev_kfree_skb (some skb.id)
        ∷ (if (priv w (other d)).rx_int_enabled
            then napi_schedule (other d) ∷ netif_trans_update d ∷ w.calls
            else netif_trans_update d ∷ w.calls)
armed-calls skb sn0 w = refl
armed-calls skb sn1 w = refl

got-skb :
    (skb : Skb) (d : Dev) (x : ℕ) (w : World) → (priv (got d x (armed skb d w)) d).skb ≡ some skb.id
got-skb skb sn0 x w = refl
got-skb skb sn1 x w = refl

module _ (k : Env) (d : Dev) (w : World) (place : ℕ → Place) (lists : Loc → List ℕ) (x : ℕ)
    (xs : List ℕ) (r : IsReady k d w) (inv : Inv w place lists)
    (first : lists (pool d) ≡ x ∷ xs) where
  pool_head : (priv w d).ppool ≡ some x
  pool_head = (front w.packets (head w) place lists (pool d) x xs inv.tracks first).0.0

  abbrev place_after : ℕ → Place
  place_after = moved (moved (moved place x in_flight) x in_flight) x (at (queue (other d)))

  queued-Inv :
      (buf : List ℕ) (len : ℕ)
      → Inv
          (queued d x (rewrite_header k.ip_fast_csum buf) len w)
          place_after
          (lists_after d x xs lists)
  queued-Inv buf len =
      let f = rewrite_header k.ip_fast_csum buf in
      let g = get_tx_buffer_refines d w place lists x xs inv first in
      let h =
        filled-Inv x f len (got d x w) (moved place x in_flight) (updated lists (pool d) xs)
          (rw ==_refl) g.1 in
      let q =
        enqueue_buf_refines (other d) (filled x f len (got d x w)) _ (updated lists (pool d) xs) x h
          (rw ==_refl) (got-dev d x f len w ∙ g.2 ∙ sym (other-other d)) in
      let u = enqueued (other d) x (filled x f len (got d x w)) in
      Keeps-Inv (told (other d) u) _ place_after (lists_after d x xs lists)
        (ended-Keeps d f len (told (other d) u) (told-fields k d w x buf len r pool_head).1)
        (Keeps-Inv u (told (other d) u) place_after (lists_after d x xs lists)
          (told-Keeps (other d) u (enqueued-twin d w x f len (r.idle (other d))).1) q.1)

armed-IsReady :
    (k : Env) (skb : Skb) (d : Dev) (w : World) → IsReady k d w → IsReady k d (armed skb d w)
armed-IsReady k skb d w r = record {
  napi = r.napi;
  steady =
      ap (λ s. not (k.lockup == 0) && (add_ulong s.tx_packets 1 % k.lockup == 0))
        (armed-keeps skb d w (λ v. v.stats) (λ v s. refl) d)
      ∙ r.steady;
  idle = λ e. armed-keeps skb d w (λ v. v.status) (λ v s. refl) e ∙ r.idle e;
  free = λ e. armed-keeps skb d w (λ v. v.locked) (λ v s. refl) e ∙ r.free e;
}

-- The state that the transmission leaves.
pub tx-queued :
    (k : Env) (skb : Skb) (d : Dev) (w : World) (place : ℕ → Place) (lists : Loc → List ℕ) (x : ℕ)
    (xs : List ℕ)
    → IsReady k d w
    → Inv w place lists
    → lists (pool d) ≡ x ∷ xs
    → length skb.bytes ≤ eth_data_len
    → tx k skb d w
      ≡ ok (
          queued d x
            (rewrite_header k.ip_fast_csum (pad skb.bytes))
            (length (pad skb.bytes))
            (armed skb d w))
unfolding tx
tx-queued k skb d w place lists x xs r inv first small =
    let a = armed skb d w in
    let keeps = armed-IsReady k skb d w r in
    let inv' = Keeps-Inv w a place lists (armed-Keeps skb d w) inv in
    let head' = pool_head k d a place lists x xs keeps inv' first in
    rw (len-pad skb.bytes) (
      hw_tx-eq k d a x (pad skb.bytes) (length (pad skb.bytes)) keeps head'
        (omega (arith, length-pad skb.bytes)) (pad-le skb.bytes small))

-- `snull_tx` under the NAPI handler, with no lockup due, no interrupt pending on either device and a
-- packet `x` in the pool before `xs`, for an skb of at most 1500 bytes: it returns, without a fault.
-- The packet has moved from the pool to the front of the twin's receive queue and holds the frame,
-- padded to 60 bytes and with its addresses rewritten; the other lists are as they were. The skb is
-- freed and stays in the driver's field; the twin's poll is scheduled if its receive interrupts were
-- enabled. The transmit queue is stopped if the pool is empty now, and is left as it was otherwise.
pub tx_defers :
    (k : Env) (skb : Skb) (d : Dev) (w : World) (place : ℕ → Place) (lists : Loc → List ℕ) (x : ℕ)
    (xs : List ℕ)
    → IsReady k d w
    → Inv w place lists
    → lists (pool d) ≡ x ∷ xs
    → length skb.bytes ≤ eth_data_len
    → (w' : World) × (place' : ℕ → Place) × (tx k skb d w ≡ ok w')
      × Inv w' place' (lists_after d x xs lists)
      × (take (w'.packets x).datalen (w'.packets x).payload
          ≡ rewrite_header k.ip_fast_csum (pad skb.bytes))
      × (w'.calls
          ≡ dev_kfree_skb (some skb.id)
            ∷ (if (priv w (other d)).rx_int_enabled
                then napi_schedule (other d) ∷ netif_trans_update d ∷ w.calls
                else netif_trans_update d ∷ w.calls))
      × ((priv w' d).skb ≡ some skb.id)
      × ((priv w' d).stopped ≡ (if is_nil xs then true else (priv w d).stopped))
tx_defers k skb d w place lists x xs r inv first small =
    let buf = pad skb.bytes in
    let f = rewrite_header k.ip_fast_csum buf in
    let a = armed skb d w in
    let inv' = Keeps-Inv w a place lists (armed-Keeps skb d w) inv in
    let keeps = armed-IsReady k skb d w r in
    let q = queued-stopped d x f (length buf) a in
    let g = get_tx_buffer_refines d a place lists x xs inv' first in
    (
      queued d x f (length buf) a,
      place_after k d a place lists x xs keeps inv' first,
      tx-queued k skb d w place lists x xs r inv first small,
      queued-Inv k d a place lists x xs keeps inv' first buf (length buf),
      queued-frame d x f (length buf) a (length-rewrite_header k.ip_fast_csum buf),
      queued-calls d x f (length buf) a ∙ armed-calls skb d w,
      q.1 ∙ got-skb skb d x w,
      q.0
          ∙ g.3
          ∙ ap (λ b. if is_nil xs then true else b)
              (armed-keeps skb d w (λ v. v.stopped) (λ v s. refl) d),
    )
