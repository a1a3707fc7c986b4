-- ===== src/Snull/Transmit/Twice.antt =====
-- The timeout after a transmission that has emptied the pool.
use linux_learn_demo_code.Base.{ℕ, ◌≤◌, true, some, List, [], ◌∷◌, length, ◌≡◌, ◌∙◌, ap}
use linux_learn_demo_code.Snull.Types.{Dev, ok, World, Env, Skb, priv, Call, dev_kfree_skb}
use linux_learn_demo_code.Snull.Chains.{Loc, pool, Place}
use linux_learn_demo_code.Snull.Buffers.Refine.{Inv}
use linux_learn_demo_code.Snull.Transmit.{tx, tx_timeout, eth_data_len}
use linux_learn_demo_code.Snull.Transmit.Napi.{IsReady}
use linux_learn_demo_code.Snull.Transmit.Napi.Deferred.{tx_defers}
use linux_learn_demo_code.Snull.Transmit.Timeout.{tx_timeout_lem}

-- Under the NAPI handler a transmission that takes the last packet of the pool frees its skb and
-- stops the queue; if the watchdog finds the queue stopped before the twin is polled, the timeout
-- frees the same skb a second time.
pub tx_timeout_frees_twice :
    (k : Env) (skb : Skb) (d : Dev) (w : World) (place : ℕ → Place) (lists : Loc → List ℕ) (x : ℕ)
    → IsReady k d w
    → Inv w place lists
    → lists (pool d) ≡ x ∷ []
    → length skb.bytes ≤ eth_data_len
    → (w' w'' : World) × (earlier : List Call) × (tx k skb d w ≡ ok w')
      × ((priv w' d).stopped ≡ true)
      × (tx_timeout k d w' ≡ ok w'')
      × (w''.calls ≡ dev_kfree_skb (some skb.id) ∷ dev_kfree_skb (some skb.id) ∷ earlier)
tx_timeout_frees_twice k skb d w place lists x r inv last small =
    let (w', place', sent, inv', frame, calls, kept, stopped) =
      tx_defers k skb d w place lists x [] r inv last small in
    let (w'', timed, out) = tx_timeout_lem k d w' (inv'.free d) in
    (
      w',
      w'',
      _,
      sent,
      stopped,
      timed,
      out.calls
          ∙ ap (λ s. dev_kfree_skb s ∷ w'.calls) kept
          ∙ ap (◌∷◌ (dev_kfree_skb (some skb.id))) calls,
    )
