-- ===== src/Snull/Tests/Frames.antt =====
-- The theorems on transmissions under NAPI and on the timeout at a concrete state.
use linux_learn_demo_code.Base.{
  ℕ, true, false, none, some, List, [], ◌∷◌, replicate, take, length, length-replicate, ◌<◌, ◌≡◌,
  refl, arith,
}
use linux_learn_demo_code.Snull.Types.{
  sn0, sn1, null_deref, overrun, ok, fault, Skb, World, priv, Call, dev_kfree_skb,
  netif_trans_update, napi_schedule,
}
use linux_learn_demo_code.Snull.Chains.{Place, in_flight}
use linux_learn_demo_code.Snull.Transmit.{tx, tx_timeout, rewrite_header, pad}
use linux_learn_demo_code.Snull.Transmit.Napi.{IsReady}
use linux_learn_demo_code.Snull.Transmit.Napi.Deferred.{lists_after, tx_defers}
use linux_learn_demo_code.Snull.Transmit.Timeout.{
  TimedOut, tx_timeout_lem, tx-empty, tx-overrun, tx_timeout-tx,
}
use linux_learn_demo_code.Snull.Transmit.Twice.{tx_timeout_frees_twice}
use linux_learn_demo_code.Snull.Buffers.Refine.{Inv}
use linux_learn_demo_code.Snull.Tests.{
  busy, device, env, idle, lists, ping, place, quiet, quiet-Inv, quiet-free,
}

quiet-IsReady : IsReady (env true) sn1 quiet
quiet-IsReady = record { napi = refl; steady = refl; idle = idle; free = quiet-free }

tx_defers_example :
    (w' : World) × (place' : ℕ → Place) × (tx (env true) ping sn1 quiet ≡ ok w')
    × Inv w' place' (lists_after sn1 2 [] (lists []))
    × (take (w'.packets 2).datalen (w'.packets 2).payload
        ≡ rewrite_header (env true).ip_fast_csum (pad ping.bytes))
    × (w'.calls ≡ dev_kfree_skb (some 77) ∷ napi_schedule sn0 ∷ netif_trans_update sn1 ∷ [])
    × ((priv w' sn1).skb ≡ some 77)
    × ((priv w' sn1).stopped ≡ true)
tx_defers_example =
    tx_defers (env true) ping sn1 quiet (place in_flight) (lists []) 2 [] quiet-IsReady quiet-Inv
      refl (omega arith)

tx_timeout_frees_twice_example :
    (w' w'' : World) × (earlier : List Call) × (tx (env true) ping sn1 quiet ≡ ok w')
    × ((priv w' sn1).stopped ≡ true)
    × (tx_timeout (env true) sn1 w' ≡ ok w'')
    × (w''.calls ≡ dev_kfree_skb (some 77) ∷ dev_kfree_skb (some 77) ∷ earlier)
tx_timeout_frees_twice_example =
    tx_timeout_frees_twice (env true) ping sn1 quiet (place in_flight) (lists []) 2 quiet-IsReady
      quiet-Inv refl (omega arith)

tx_timeout_lem_example :
    (w' : World) × (tx_timeout (env false) sn0 busy ≡ ok w') × TimedOut sn0 busy w'
tx_timeout_lem_example = tx_timeout_lem (env false) sn0 busy refl

-- Device sn0 has used up its pool.
abbrev dry : World
dry = record quiet { dev0 = device none none }

tx_timeout-tx_example :
    (w' : World) × (tx_timeout (env true) sn0 dry ≡ ok w')
    × ((priv w' sn0).stopped ≡ false)
    × (tx (env true) ping sn0 w' ≡ fault null_deref)
tx_timeout-tx_example = tx_timeout-tx (env true) sn0 dry ping refl refl

tx-empty_example : tx (env true) ping sn0 dry ≡ fault null_deref
tx-empty_example = tx-empty (env true) ping sn0 dry refl refl

abbrev jumbo : Skb
jumbo = record { id = 78; bytes = replicate 1514 5 }

length-jumbo : 1500 < length jumbo.bytes
length-jumbo = rw (length-replicate {A = ℕ} 1514 5) (omega arith)

tx-overrun_example : tx (env true) jumbo sn1 quiet ≡ fault overrun
tx-overrun_example = tx-overrun (env true) jumbo sn1 quiet 2 refl refl length-jumbo
