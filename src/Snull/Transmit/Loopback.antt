-- ===== src/Snull/Transmit/Loopback.antt =====
-- The driver under the regular handler as its users see it: a frame that is sent on one device is
-- received on its twin, and the driver is left as it was.
use linux_learn_demo_code.Base.{
  ℕ, ◌≤◌, true, false, none, some, List, [], ◌∷◌, length, if◌then◌else◌, ◌≡◌, refl, ◌∙◌, ap, arith,
  subst,
}
use linux_learn_demo_code.Snull.Types.{
  Dev, other, ok, World, Env, Skb, no_status, priv, dev_kfree_skb, netif_trans_update,
}
use linux_learn_demo_code.Snull.Chains.{Loc, pool, queue, Place, head, Chain, Held, front}
use linux_learn_demo_code.Snull.Chains.Changes.{Agree-Wf}
use linux_learn_demo_code.Snull.Buffers.Refine.{Inv}
use linux_learn_demo_code.Snull.Buffers.States.{is_nil, is_none-Chain}
use linux_learn_demo_code.Snull.Receive.Passed.{first_of, rest_of}
use linux_learn_demo_code.Snull.Receive.Interrupt.{handed}
use linux_learn_demo_code.Snull.Transmit.{tx, rewrite_header, pad, eth_data_len}
use linux_learn_demo_code.Snull.Transmit.Frame.{length-pad}
use linux_learn_demo_code.Snull.Transmit.Armed.{armed, len-pad, pad-le, armed-keeps, armed-packets}
use linux_learn_demo_code.Snull.Transmit.Regular.{IsReady, hw_tx-eq}
use linux_learn_demo_code.Snull.Transmit.Final.{
  Counted, final, final-Agree, final-Counted, final-allocs, final-awake, final-calls, final-free,
  final-head, final-idle, final-listens,
}

-- Between two calls of the kernel: the lists are well formed and no lock is held, no interrupt is
-- pending, no packet waits, receive interrupts are enabled, each pool has a packet left.
pub record IsQuiet (w : World) (place : ℕ → Place) (lists : Loc → List ℕ) : Type 0 where
  pub inv : Inv w place lists
  pub idle : (d : Dev) → (priv w d).status ≡ no_status
  pub listens : (d : Dev) → (priv w d).rx_int_enabled ≡ true
  pub drained : (d : Dev) → lists (queue d) ≡ []
  pub stocked : (d : Dev) → (x : ℕ) × (xs : List ℕ) × (lists (pool d) ≡ x ∷ xs)

module _ (k : Env) (w : World) (place : ℕ → Place) (lists : Loc → List ℕ)
    (regular : k.use_napi ≡ false) (steady : k.lockup ≡ 0) (quiet : IsQuiet w place lists) where
  armed-IsReady : (skb : Skb) (d : Dev) → IsReady d (armed skb d w) (quiet.stocked d).0
  armed-IsReady skb d = record {
    idle = λ e. armed-keeps skb d w (λ v. v.status) (λ v s. refl) e ∙ quiet.idle e;
    free = λ e. armed-keeps skb d w (λ v. v.locked) (λ v s. refl) e ∙ quiet.inv.free e;
    first = armed-keeps skb d w (λ v. v.ppool) (λ v s. refl) d ∙ pool_front.0.0;
    own = ap (λ h. (h (quiet.stocked d).0).dev) (armed-packets skb d w) ∙ pool_front.1.1;
    drained =
        armed-keeps skb d w (λ v. v.rx_queue) (λ v s. refl) (other d)
        ∙ subst (Chain w.packets (head w (queue (other d)))) (quiet.drained (other d))
            (quiet.inv.tracks (queue (other d))).0;
    listens =
        armed-keeps skb d w (λ v. v.rx_int_enabled) (λ v s. refl) (other d)
        ∙ quiet.listens (other d);
  }
    where
      pool_front :
          Chain w.packets (head w (pool d)) ((quiet.stocked d).0 ∷ (quiet.stocked d).1)
          × Held w.packets place (pool d) ((quiet.stocked d).0 ∷ (quiet.stocked d).1)
      pool_front =
          front w.packets (head w) place lists (pool d) (quiet.stocked d).0 (quiet.stocked d).1
            quiet.inv.tracks (quiet.stocked d).2

  tx-eq :
      (skb : Skb) (d : Dev)
      → length skb.bytes ≤ eth_data_len
      → tx k skb d w ≡ ok (final k skb d (quiet.stocked d).0 w)
  unfolding tx
  tx-eq skb d small = rw (len-pad skb.bytes) (
      hw_tx-eq k d (armed skb d w) (quiet.stocked d).0 (pad skb.bytes) (length (pad skb.bytes))
        regular (armed-IsReady skb d) (omega (arith, length-pad skb.bytes)) (pad-le skb.bytes small)
        (rw steady))

  final-IsQuiet : (skb : Skb) (d : Dev) → IsQuiet (final k skb d (quiet.stocked d).0 w) place lists
  final-IsQuiet skb d = record {
    inv = record {
      tracks =
          Agree-Wf w.packets (final k skb d x w).packets (head w) (head (final k skb d x w)) place
            lists (final-Agree k skb d x w) (final-head k skb d x w pool_head queue_head)
            quiet.inv.tracks;
      free = final-free k skb d x w;
    };
    idle = final-idle k skb d x w;
    listens = λ e. final-listens k skb d x w e ∙ quiet.listens e;
    drained = quiet.drained;
    stocked = quiet.stocked;
  }
    where
      x : ℕ
      x = (quiet.stocked d).0

      pool_head : head w (pool d) ≡ some x
      pool_head =
          (subst (Chain w.packets (head w (pool d))) (quiet.stocked d).2
            (quiet.inv.tracks (pool d)).0).0

      queue_head : head w (queue (other d)) ≡ none
      queue_head =
          subst (Chain w.packets (head w (queue (other d)))) (quiet.drained (other d))
            (quiet.inv.tracks (queue (other d))).0

  -- Under the regular handler with no lockup simulated, from a quiet driver and for an skb of at most
  -- 1500 bytes, `snull_tx` returns, without a null pointer, an overrun or a lock taken twice. If an skb can be
  -- allocated, the upper layers of the twin device get the frame, padded to 60 bytes and with its two
  -- addresses rewritten, and the twin counts a packet and the frame's length; otherwise they get
  -- nothing and it counts a drop. Either way the skb is freed, nothing else is called but the
  -- time stamp, and the sender counts a packet and the frame's length; the transmit
  -- queue is running if the pool held one packet and else is left as it was, and the driver is quiet
  -- again with every packet in the place where it was.
  pub tx_loops_back :
      (skb : Skb) (d : Dev)
      → length skb.bytes ≤ eth_data_len
      → (w' : World) × (tx k skb d w ≡ ok w')
        × IsQuiet w' place lists
        × (w'.allocs ≡ rest_of w.allocs)
        × (w'.calls
            ≡ dev_kfree_skb (some skb.id)
              ∷ handed
                  (first_of w.allocs)
                  (other d)
                  (rewrite_header k.ip_fast_csum (pad skb.bytes))
                  (netif_trans_update d ∷ w.calls))
        × Counted d (length (pad skb.bytes)) w w'
        × ((priv w' d).stopped ≡ (if is_nil (quiet.stocked d).1 then false else (priv w d).stopped))
  tx_loops_back skb d small = (
    final k skb d (quiet.stocked d).0 w,
    tx-eq skb d small,
    final-IsQuiet skb d,
    final-allocs k skb d (quiet.stocked d).0 w,
    final-calls k skb d (quiet.stocked d).0 w,
    final-Counted k skb d (quiet.stocked d).0 w,
    final-awake k skb d (quiet.stocked d).0 w
        ∙ ap (λ b. if b then false else (priv w d).stopped)
            (is_none-Chain w.packets _ (quiet.stocked d).1 chain),
  )
    where
      chain : Chain w.packets (w.packets (quiet.stocked d).0).next (quiet.stocked d).1
      chain =
          (subst (Chain w.packets (head w (pool d))) (quiet.stocked d).2
            (quiet.inv.tracks (pool d)).0).1
