-- ===== src/Snull/Tests/Runs.antt =====
-- The theorems on loading, running and unloading the driver at a concrete state.
use linux_learn_demo_code.Base.{
  ℕ, suc, ◌+◌, true, false, Option, none, some, List, [], ◌∷◌, replicate, length, ◌<◌, ◌≡◌, ◌≢◌,
  sym, ◌∙◌, refl, arith, ◌⊎◌, Fresh,
}
use linux_learn_demo_code.Snull.Types.{Dev, sn0, sn1, other, ok, Skb, World, priv}
use linux_learn_demo_code.Snull.Chains.{Chain, Loc, pool, queue, in_flight, head, Wf}
use linux_learn_demo_code.Snull.Receive.{poll}
use linux_learn_demo_code.Snull.Transmit.{tx}
use linux_learn_demo_code.Snull.Transmit.Loopback.{IsQuiet}
use linux_learn_demo_code.Snull.Transmit.Napi.{IsReady}
use linux_learn_demo_code.Snull.Transmit.Napi.Deferred.{tx_defers}
use linux_learn_demo_code.Snull.Run.{IsReached, begin, transmits, IsSound}
use linux_learn_demo_code.Snull.Run.Sound.{IsReached-IsSound}
use linux_learn_demo_code.Snull.Run.Loaded.{loaded, packets_of, loaded-IsSound}
use linux_learn_demo_code.Base.{Distinct, All}
use linux_learn_demo_code.Snull.Receive.Passed.{received, scheduled}
use linux_learn_demo_code.Snull.Transmit.Napi.Calm.{IsCalm}
use linux_learn_demo_code.Snull.Run.Sends.{tx_all, sent_frame}
use linux_learn_demo_code.Snull.Run.Reversed.{poll-reverses}
use linux_learn_demo_code.Snull.Run.InOrder.{heard, freed, tx_each, tx_each-in_order}
use linux_learn_demo_code.Snull.Run.Unloaded.{free_pools, free_pools-leaks}
use linux_learn_demo_code.Snull.Tests.{quiet-Wf, listens, stocked}
use linux_learn_demo_code.Snull.Tests.{
  device, drained, env, idle, lists, packets, ping, place, quiet, quiet-Inv, quiet-free, stocked,
}

-- The second of three allocations fails: only packet 5 is in the pool.
abbrev blank : World
blank = record quiet { dev0 = device none none; dev1 = device none none }

blank-Wf : Wf packets (head blank) (λ p. in_flight) (λ l. [])
blank-Wf (pool sn0) = (refl, tt)
blank-Wf (pool sn1) = (refl, tt)
blank-Wf (queue sn0) = (refl, tt)
blank-Wf (queue sn1) = (refl, tt)

abbrev memory : List (Option ℕ)
memory = some 5 ∷ some 6 ∷ none ∷ some 7 ∷ []

pub quiet-IsSound : IsSound (packets_of (0 ∷ 1 ∷ []) (2 ∷ [])) quiet
quiet-IsSound = record {
  place = place in_flight;
  lists = lists [];
  inv = quiet-Inv;
  calm = λ d. record { idle = idle d; stops = stocked d };
  kept = all_there;
  polled = λ d e. drained d;
  awaited = λ d e. absurd (unheard (sym (listens d) ∙ e));
}
  where
    unheard : true ≢ false
    unheard e = cc

    stocked : (d : Dev) → (priv quiet d).ppool ≡ none → (priv quiet d).stopped ≡ true
    stocked sn0 e = cc
    stocked sn1 e = cc

    all_there :
        (d : Dev)
        → length (lists [] (pool d)) + length (lists [] (queue (other d)))
          ≡ packets_of (0 ∷ 1 ∷ []) (2 ∷ []) d
    all_there sn0 = refl
    all_there sn1 = refl

pub ready0 : IsReady (env true) sn0 quiet
ready0 = record { napi = refl; steady = refl; idle = idle; free = quiet-free }

-- The first device has sent a frame.
abbrev pub ping_sent : World
ping_sent =
    (tx_defers (env true) ping sn0 quiet (place in_flight) (lists []) 0 (1 ∷ []) ready0 quiet-Inv
      refl (omega arith)).0

pub ping_sent-IsReached : IsReached (env true) quiet ping_sent
ping_sent-IsReached =
    transmits quiet ping_sent ping sn0 begin refl (omega arith)
      (tx_defers (env true) ping sn0 quiet (place in_flight) (lists []) 0 (1 ∷ []) ready0 quiet-Inv
        refl (omega arith)).2

IsReached-IsSound_example :
    (s : IsSound (packets_of (0 ∷ 1 ∷ []) (2 ∷ [])) ping_sent) × ((s.lists (queue sn1) ≡ [])
      ⊎ (scheduled sn1 ping_sent.calls ≡ true))
    × (((priv ping_sent sn1).stopped ≡ true)
        ⊎ ((w' : World) × (tx (env true) ping sn1 ping_sent ≡ ok w')))
    × (m : ℕ) × (u : World) × (poll (suc (length (s.lists (queue sn1)))) sn1 2 ping_sent
        ≡ some (ok (m, u)))
IsReached-IsSound_example =
    IsReached-IsSound (env true) refl refl (packets_of (0 ∷ 1 ∷ []) (2 ∷ [])) quiet ping_sent ping
      sn1 2 quiet-IsSound ping_sent-IsReached (omega arith)

blank_heads : (l : Loc) → head blank l ≡ none
blank_heads (pool sn0) = refl
blank_heads (pool sn1) = refl
blank_heads (queue sn0) = refl
blank_heads (queue sn1) = refl

loaded-IsSound_example :
    IsSound
      (packets_of (5 ∷ 6 ∷ []) (9 ∷ []))
      (loaded (env true) 8 memory (some 9 ∷ none ∷ []) blank)
loaded-IsSound_example =
    loaded-IsSound 8 memory (some 9 ∷ none ∷ []) blank blank_heads
      (((λ e. omega (arith, e)), tt), (tt, tt)) (tt, tt)
      (((λ e. omega (arith, e)), ((λ e. omega (arith, e)), tt)), tt) (env true) (λ e. cc) (λ e. cc)

-- Two frames are sent on the first device, and then its twin is polled.
abbrev pong : Skb
pong = record { id = 79; bytes = replicate 50 6 }

calm : (d : Dev) → IsCalm (priv quiet d)
calm d = record { idle = idle d; stops = quiet-IsSound_stops d }
  where
    quiet-IsSound_stops : (d : Dev) → (priv quiet d).ppool ≡ none → (priv quiet d).stopped ≡ true
    quiet-IsSound_stops sn0 e = cc
    quiet-IsSound_stops sn1 e = cc

poll-reverses_example :
    (w' : World) × (m : ℕ) × (u : World) × (tx_all (env true) (ping ∷ pong ∷ []) sn0 quiet ≡ ok w')
    × (poll 3 sn1 8 w' ≡ some (ok (m, u)))
    × (received sn1 u.calls ≡ sent_frame (env true) pong ∷ [])
poll-reverses_example =
    poll-reverses (env true) sn0 (ping ∷ pong ∷ []) 8 quiet (place in_flight) (lists []) refl refl
      quiet-Inv calm (omega arith) ((omega arith), ((omega arith), tt)) refl (omega arith)

-- The first allocation fails, and the second does not.
abbrev roomy : World
roomy = record quiet { allocs = false ∷ true ∷ [] }

roomy-IsQuiet : IsQuiet roomy (place in_flight) (lists [])
roomy-IsQuiet = record {
  inv = record { tracks = quiet-Wf; free = quiet-free };
  idle = idle;
  listens = listens;
  drained = drained;
  stocked = stocked;
}

abbrev both_ways : List (Dev × Skb)
both_ways = (sn0, ping) ∷ (sn0, pong) ∷ (sn1, ping) ∷ []

tx_each-in_order_example :
    (w' : World) × (tx_each (env false) both_ways roomy ≡ ok w')
    × IsQuiet w' (place in_flight) (lists [])
    × (heard sn1 w'.calls ≡ sent_frame (env false) pong ∷ [])
    × (freed w'.calls ≡ some 77 ∷ some 79 ∷ some 77 ∷ [])
tx_each-in_order_example =
    tx_each-in_order (env false) both_ways roomy (place in_flight) (lists []) sn1 refl refl
      roomy-IsQuiet ((omega arith), ((omega arith), ((omega arith), tt)))

few : (d : Dev) → packets_of (0 ∷ 1 ∷ []) (2 ∷ []) d < 3
few sn0 = omega arith
few sn1 = omega arith

free_pools-leaks_example :
    (lists' : Loc → List ℕ) × (w' : World) × (free_pools 3 ping_sent
      ≡ some (lists' (pool sn0), lists' (pool sn1), w'))
    × ((d : Dev) → Chain ping_sent.packets (priv ping_sent d).rx_queue (lists' (queue d)))
    × ((d : Dev) → Distinct (lists' (pool d)))
    × ((d e : Dev) → All (λ p. Fresh p (lists' (pool d))) (lists' (queue e)))
    × ((d : Dev)
        → length (lists' (pool d)) + length (lists' (queue (other d)))
          ≡ packets_of (0 ∷ 1 ∷ []) (2 ∷ []) d)
    × ((d : Dev) → (priv w' d).rx_queue ≡ (priv ping_sent d).rx_queue)
free_pools-leaks_example =
    free_pools-leaks (env true) (packets_of (0 ∷ 1 ∷ []) (2 ∷ [])) quiet ping_sent 3 refl refl
      quiet-IsSound ping_sent-IsReached few
