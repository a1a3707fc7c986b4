-- ===== src/Snull/Tests.antt =====
-- The theorems on the driver at one concrete state.
mod Frames
mod Runs
mod Drained
use linux_learn_demo_code.Base.{
  ℕ, suc, ◌+◌, Bool, true, false, Option, none, some, List, [], ◌∷◌, replicate, take, length, ltb,
  length-replicate, ◌<◌, if◌then◌else◌, ◌==◌, get_or, ◌≡◌, refl, arith, ◌⊎◌, Fresh,
}
use linux_learn_demo_code.Snull.Types.{
  Dev, sn0, sn1, other, null_deref, overrun, ok, fault, Packet, Stats, NetDevice, Skb, World, Env,
  priv, log, Call, netif_rx, dev_kfree_skb, netif_trans_update, napi_schedule, napi_complete_done,
  no_status,
}
use linux_learn_demo_code.Snull.Registration.{
  init_module, cleanup, registrations, removals, releases, init_module-fails,
}
use linux_learn_demo_code.Snull.Chains.{
  Loc, pool, queue, Place, same_loc, at, in_flight, updated, moved, head, Wf,
}
use linux_learn_demo_code.Snull.Buffers.{get_tx_buffer, release_buffer, enqueue_buf, dequeue_buf}
use linux_learn_demo_code.Snull.Receive.{poll, rx_ints}
use linux_learn_demo_code.Snull.Receive.Poll.{poll_lem}
use linux_learn_demo_code.Snull.Receive.Polled.{Polled}
use linux_learn_demo_code.Snull.Transmit.{tx, tx_timeout, rewrite_header, pad}
use linux_learn_demo_code.Snull.Transmit.Frame.{rewrite_header_twice}
use linux_learn_demo_code.Snull.Transmit.Loopback.{IsQuiet, tx_loops_back}
use linux_learn_demo_code.Snull.Transmit.Final.{Counted}
use linux_learn_demo_code.Snull.Transmit.Napi.{IsReady}
use linux_learn_demo_code.Snull.Transmit.Napi.Deferred.{lists_after, tx_defers}
use linux_learn_demo_code.Snull.Transmit.Timeout.{
  TimedOut, tx_timeout_lem, tx-empty, tx-overrun, tx_timeout-tx,
}
use linux_learn_demo_code.Snull.Transmit.Twice.{tx_timeout_frees_twice}
use linux_learn_demo_code.Snull.Setup.{IfState, IfMap, setup_pool, teardown_pool}
use linux_learn_demo_code.Snull.Setup.Pools.{setup_pool-Wf, teardown_pool_lem}
use linux_learn_demo_code.Snull.Buffers.Refine.{
  Inv, get_tx_buffer_refines, release_buffer_refines, enqueue_buf_refines, dequeue_buf_refines,
}
use linux_learn_demo_code.Snull.Buffers.States.{is_nil, got, released, enqueued, dequeued}
use linux_learn_demo_code.Snull.Run.{IsReached, begin, transmits, IsSound}
use linux_learn_demo_code.Snull.Run.Sound.{IsReached-IsSound}
use linux_learn_demo_code.Snull.Run.Loaded.{loaded, packets_of, loaded-IsSound}

abbrev packets : ℕ → Packet
packets p = record {
  next = if p == 0 then some 1 else none;
  dev = if p == 2 then sn1 else sn0;
  datalen = 64;
  payload = replicate 1500 7;
}

abbrev no_stats : Stats
no_stats = record {
  rx_packets = 0;
  rx_bytes = 0;
  tx_packets = 0;
  tx_bytes = 0;
  tx_errors = 0;
  rx_dropped = 0;
}

abbrev device : Option ℕ → Option ℕ → NetDevice
device ppool rx_queue = record {
  stats = no_stats;
  status = no_status;
  ppool = ppool;
  rx_queue = rx_queue;
  rx_int_enabled = true;
  tx_packetlen = 0;
  tx_packetdata = [];
  skb = none;
  locked = false;
  stopped = false;
  dev_addr = [];
  mtu = 1500;
}

-- Packets 0 and 1 in the pool of sn0, packet 2 in that of sn1, and in the queue of sn1 packet 3 or
-- none.
abbrev state : Option ℕ → World
state waiting = record {
  packets = packets;
  dev0 = device (some 0) none;
  dev1 = device (some 2) waiting;
  allocs = true ∷ [];
  calls = [];
}

abbrev quiet : World
quiet = state none

abbrev busy : World
busy = state (some 3)

abbrev place : Place → ℕ → Place
place third p =
    if ltb p 2
    then at (pool sn0)
    else if p == 2
    then at (pool sn1)
    else if p == 3
    then third
    else in_flight

abbrev lists : List ℕ → Loc → List ℕ
lists waiting (pool sn0) = 0 ∷ 1 ∷ []
lists waiting (pool sn1) = 2 ∷ []
lists waiting (queue sn0) = []
lists waiting (queue sn1) = waiting

distinct : Fresh {A = ℕ} 0 (1 ∷ [])
distinct = ((λ e. omega (arith, e)), tt)

quiet-Wf : Wf packets (head quiet) (place in_flight) (lists [])
quiet-Wf (pool sn0) = ((refl, (refl, refl)), (refl, refl, distinct, (refl, refl, tt, tt)))
quiet-Wf (pool sn1) = ((refl, refl), (refl, refl, tt, tt))
quiet-Wf (queue sn0) = (refl, tt)
quiet-Wf (queue sn1) = (refl, tt)

quiet-free : (d : Dev) → (priv quiet d).locked ≡ false
quiet-free sn0 = refl
quiet-free sn1 = refl

pub quiet-Inv : Inv quiet (place in_flight) (lists [])
quiet-Inv = record { tracks = quiet-Wf; free = quiet-free }

busy-Wf : Wf packets (head busy) (place (at (queue sn1))) (lists (3 ∷ []))
busy-Wf (pool sn0) = ((refl, (refl, refl)), (refl, refl, distinct, (refl, refl, tt, tt)))
busy-Wf (pool sn1) = ((refl, refl), (refl, refl, tt, tt))
busy-Wf (queue sn0) = (refl, tt)
busy-Wf (queue sn1) = ((refl, refl), (refl, refl, tt, tt))

busy-free : (d : Dev) → (priv busy d).locked ≡ false
busy-free sn0 = refl
busy-free sn1 = refl

busy-Inv : Inv busy (place (at (queue sn1))) (lists (3 ∷ []))
busy-Inv = record { tracks = busy-Wf; free = busy-free }

get_tx_buffer_refines_example :
    (get_tx_buffer sn0 quiet ≡ ok (0, got sn0 0 quiet))
    × Inv
        (got sn0 0 quiet)
        (moved (place in_flight) 0 in_flight)
        (updated (lists []) (pool sn0) (1 ∷ []))
    × (sn0 ≡ sn0)
    × (false ≡ false)
get_tx_buffer_refines_example =
    get_tx_buffer_refines sn0 quiet (place in_flight) (lists []) 0 (1 ∷ []) quiet-Inv refl

release_buffer_refines_example :
    (release_buffer 4 quiet ≡ ok (released sn0 4 quiet))
    × Inv
        (released sn0 4 quiet)
        (moved (place in_flight) 4 (at (pool sn0)))
        (updated (lists []) (pool sn0) (4 ∷ 0 ∷ 1 ∷ []))
    × (false ≡ false)
release_buffer_refines_example =
    release_buffer_refines sn0 quiet (place in_flight) (lists []) 4 quiet-Inv refl refl

enqueue_buf_refines_example :
    (enqueue_buf sn1 4 busy ≡ ok (enqueued sn1 4 busy))
    × Inv
        (enqueued sn1 4 busy)
        (moved (place (at (queue sn1))) 4 (at (queue sn1)))
        (updated (lists (3 ∷ [])) (queue sn1) (4 ∷ 3 ∷ []))
enqueue_buf_refines_example =
    enqueue_buf_refines sn1 busy (place (at (queue sn1))) (lists (3 ∷ [])) 4 busy-Inv refl refl

dequeue_buf_refines_example :
    (dequeue_buf sn1 busy ≡ ok (some 3, dequeued sn1 3 busy))
    × Inv
        (dequeued sn1 3 busy)
        (moved (place (at (queue sn1))) 3 in_flight)
        (updated (lists (3 ∷ [])) (queue sn1) [])
    × (sn0 ≡ sn0)
dequeue_buf_refines_example =
    dequeue_buf_refines sn1 busy (place (at (queue sn1))) (lists (3 ∷ [])) 3 [] busy-Inv refl

-- One poll of sn1 with a budget of 8 takes the only packet of its queue.
poll_lem_example :
    (m : ℕ) × (u : World) × (place' : ℕ → Place) × (lists' : Loc → List ℕ) × (poll 2 sn1 8 busy
      ≡ some (ok (m, if ltb m 8 then rx_ints sn1 true (log (napi_complete_done sn1 m) u) else u)))
    × Inv u place' lists'
    × Polled sn1 8 0 busy (lists (3 ∷ [])) m u lists'
poll_lem_example =
    poll_lem 2 sn1 8 busy (place (at (queue sn1))) (lists (3 ∷ [])) busy-Inv (omega arith)

abbrev env : Bool → Env
env use_napi = record { lockup = 0; use_napi = use_napi; ip_fast_csum = λ header n. 1 ∷ 2 ∷ [] }

abbrev ping : Skb
ping = record { id = 77; bytes = replicate 42 5 }

idle : (d : Dev) → (priv quiet d).status ≡ no_status
idle sn0 = refl
idle sn1 = refl

listens : (d : Dev) → (priv quiet d).rx_int_enabled ≡ true
listens sn0 = refl
listens sn1 = refl

drained : (d : Dev) → lists [] (queue d) ≡ []
drained sn0 = refl
drained sn1 = refl

stocked : (d : Dev) → (x : ℕ) × (xs : List ℕ) × (lists [] (pool d) ≡ x ∷ xs)
stocked sn0 = (0, 1 ∷ [], refl)
stocked sn1 = (2, [], refl)

quiet-IsQuiet : IsQuiet quiet (place in_flight) (lists [])
quiet-IsQuiet = record {
  inv = quiet-Inv;
  idle = idle;
  listens = listens;
  drained = drained;
  stocked = stocked;
}

tx_loops_back_example :
    (w' : World) × (tx (env false) ping sn0 quiet ≡ ok w')
    × IsQuiet w' (place in_flight) (lists [])
    × (w'.allocs ≡ [])
    × (w'.calls
        ≡ dev_kfree_skb (some 77)
          ∷ netif_rx sn1 (rewrite_header (env false).ip_fast_csum (pad ping.bytes))
          ∷ netif_trans_update sn0
          ∷ [])
    × Counted sn0 (length (pad ping.bytes)) quiet w'
    × ((priv w' sn0).stopped ≡ (if is_nil (quiet-IsQuiet.stocked sn0).1 then false else false))
tx_loops_back_example =
    tx_loops_back (env false) quiet (place in_flight) (lists []) refl refl quiet-IsQuiet ping sn0
      (omega arith)
