-- ===== src/Snull/Tests/Drained.antt =====
-- The repeated polls of a device at a concrete state.
use linux_learn_demo_code.Base.{true, some, [], ◌∷◌, ◌≡◌, refl, arith}
use linux_learn_demo_code.Snull.Types.{sn0, sn1, ok, World, priv}
use linux_learn_demo_code.Snull.Chains.{Chain, queue, in_flight}
use linux_learn_demo_code.Snull.Transmit.Napi.Deferred.{tx_defers}
use linux_learn_demo_code.Snull.Run.Sound.{reached-IsSound}
use linux_learn_demo_code.Snull.Run.Loaded.{packets_of}
use linux_learn_demo_code.Snull.Run.Drained.{poll_each, IsDrained, poll_each-drains}
use linux_learn_demo_code.Snull.Tests.{env, lists, ping, place, quiet, quiet-Inv}
use linux_learn_demo_code.Snull.Tests.Runs.{quiet-IsSound, ready0, ping_sent, ping_sent-IsReached}

one_waits : Chain ping_sent.packets (priv ping_sent sn1).rx_queue (0 ∷ [])
one_waits =
    ((tx_defers (env true) ping sn0 quiet (place in_flight) (lists []) 0 (1 ∷ []) ready0 quiet-Inv
        refl (omega arith)).3.tracks
      (queue sn1)).0

poll_each-drains_example :
    (u : World) × (poll_each 2 sn1 (1 ∷ 1 ∷ []) ping_sent ≡ some (ok (true, u)))
    × IsDrained (packets_of (0 ∷ 1 ∷ []) (2 ∷ [])) sn1 u
poll_each-drains_example =
    poll_each-drains (packets_of (0 ∷ 1 ∷ []) (2 ∷ [])) 2 sn1 (1 ∷ 1 ∷ []) ping_sent (0 ∷ [])
      (reached-IsSound (env true) refl refl (packets_of (0 ∷ 1 ∷ []) (2 ∷ [])) quiet ping_sent
        quiet-IsSound ping_sent-IsReached)
      one_waits (omega arith, (omega arith, tt)) (omega arith) (omega arith)
