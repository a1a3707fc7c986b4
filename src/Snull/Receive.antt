-- ===== src/Snull/Receive.antt =====
-- snull/snull.c:264-427: the receive routine, the two interrupt handlers and the poll loop.
pub mod Interrupt
pub mod Rounds
pub mod Passed
pub mod Polled
pub mod Poll
use linux_learn_demo_code.Base.{
  ℕ, zero, suc, ◌+◌, Bool, true, false, ◌&&◌, Option, none, some, [], ◌∷◌, if◌then◌else◌, is_none,
  take, ltb, not, add_ulong,
}
use linux_learn_demo_code.Snull.Types.{
  Dev, null_deref, Outcome, ok, fault, ◌>>=◌, no_status, World, Env, priv, put, log, spin_lock,
  spin_unlock, netif_rx, netif_receive_skb, dev_kfree_skb, napi_schedule, napi_complete_done,
}
use linux_learn_demo_code.Snull.Buffers.{release_buffer, dequeue_buf}

pub data IrqReturn : Type 0 where
  irq_none irq_handled : IrqReturn

-- `netdev_alloc_skb`: whether the next allocation gives an skb.
alloc_skb : World → Bool × World
alloc_skb w = elim w.allocs [ [] ↦ (false, w) | b ∷ rest ↦ (b, record w { allocs = rest }) ]

count_rx : Dev → ℕ → World → World
count_rx d n w =
    let v = priv w d in
    let s = v.stats in
    put d
      (record v {
        stats = record s {
          rx_packets = add_ulong s.rx_packets 1;
          rx_bytes = add_ulong s.rx_bytes n;
        };
      })
      w

count_dropped : Dev → World → World
count_dropped d w =
    let v = priv w d in
    let s = v.stats in
    put d (record v { stats = record s { rx_dropped = add_ulong s.rx_dropped 1 } }) w

-- `snull_rx`: the frame is the first `datalen` bytes of the packet.
unfoldable pub rx : Dev → ℕ → World → World
unfolding alloc_skb count_rx count_dropped
rx d p w =
    let (given, w₁) = alloc_skb w in
    let k = w₁.packets p in
    if given
    then log (netif_rx d (take k.datalen k.payload)) (count_rx d k.datalen w₁)
    else count_dropped d w₁

-- `snull_rx_ints`.
abbrev pub rx_ints : Dev → Bool → World → World
rx_ints d enable w = let v = priv w d in put d (record v { rx_int_enabled = enable }) w

-- The end of a transmission, as both handlers treat it.
unfoldable pub tx_done : Dev → World → World
tx_done d w =
    let v = priv w d in
    let s = v.stats in
    log (dev_kfree_skb v.skb) (
      put d
        (record v {
          stats = record s {
            tx_packets = add_ulong s.tx_packets 1;
            tx_bytes = add_ulong s.tx_bytes v.tx_packetlen;
          };
        })
        w)

-- The receive half of `snull_regular_interrupt`: one packet is taken off the queue.
rx_one : Dev → World → Option ℕ × World
unfolding rx
rx_one d w =
    let v = priv w d in
    elim v.rx_queue [
      | none ↦ (none, w)
      | some p ↦ (some p, rx d p (put d (record v { rx_queue = (w.packets p).next }) w))
    ]

release_found : Option ℕ → World → Outcome World
release_found none w = ok w
release_found (some p) w = release_buffer p w

clear_status : Dev → World → World
clear_status d w = let v = priv w d in put d (record v { status = no_status }) w

-- `snull_regular_interrupt`; `none` is the null device.
unfoldable pub regular_interrupt : Option Dev → World → Outcome (IrqReturn × World)
unfolding rx_one tx_done release_found clear_status
regular_interrupt none w = ok (irq_none, w)
regular_interrupt (some d) w = do
  w₁ ← spin_lock d w
  let word = (priv w₁ d).status
  let w₂ = clear_status d w₁
  let (pkt, w₃) = if word.rx_intr then rx_one d w₂ else (none, w₂)
  let w₄ = if word.tx_intr then tx_done d w₃ else w₃
  w₅ ← release_found pkt (spin_unlock d w₄)
  ok (irq_handled, w₅)

-- `snull_napi_interrupt`.
unfoldable pub napi_interrupt : Option Dev → World → Outcome (IrqReturn × World)
unfolding tx_done clear_status
napi_interrupt none w = ok (irq_none, w)
napi_interrupt (some d) w = do
  w₁ ← spin_lock d w
  let word = (priv w₁ d).status
  let w₂ = clear_status d w₁
  let w₃ = if word.rx_intr then log (napi_schedule d) (rx_ints d false w₂) else w₂
  let w₄ = if word.tx_intr then tx_done d w₃ else w₃
  ok (irq_handled, spin_unlock d w₄)

-- `snull_interrupt`, as `snull_init_module` sets it.
unfoldable pub interrupt : Env → Option Dev → World → Outcome (IrqReturn × World)
unfolding regular_interrupt napi_interrupt
interrupt k d w = if k.use_napi then napi_interrupt d w else regular_interrupt d w

-- One round of the loop of `snull_poll`, for a packet that was taken off the queue: whether it was
-- delivered, and the state before and after its release.
unfoldable pub deliver : Dev → ℕ → World → Bool × World
unfolding alloc_skb count_rx count_dropped
deliver d p w =
    let (given, w₁) = alloc_skb w in
    let k = w₁.packets p in
    if given
    then (true, count_rx d k.datalen (log (netif_receive_skb d (take k.datalen k.payload)) w₁))
    else (false, count_dropped d w₁)

unfoldable pub poll_one : Dev → ℕ → World → Outcome (Bool × World)
poll_one d p w = do let (given, w₁) = deliver d p w; w₂ ← release_buffer p w₁; ok (given, w₂)

-- The loop of `snull_poll`; `none` when the fuel runs out. A queue that is tested as not empty and
-- is then found empty would be read through a null pointer.
unfoldable pub poll_loop : ℕ → Dev → ℕ → ℕ → World → Option (Outcome (ℕ × World))
poll_loop zero d budget n w = none
poll_loop (suc fuel) d budget n w = elim (ltb n budget && not (is_none (priv w d).rx_queue)) [
  | false ↦ some (ok (n, w))
  | true ↦ elim (dequeue_buf d w) [
    | fault e ↦ some (fault e)
    | ok (none, w₁) ↦ some (fault null_deref)
    | ok (some p, w₁) ↦ elim (poll_one d p w₁) [
      | fault e ↦ some (fault e)
      | ok (given, w₂) ↦ poll_loop fuel d budget (if given then n + 1 else n) w₂
    ]
  ]
]

-- `snull_poll`: the number of packets delivered.
unfoldable pub poll : ℕ → Dev → ℕ → World → Option (Outcome (ℕ × World))
poll fuel d budget w = elim (poll_loop fuel d budget 0 w) [
  | none ↦ none
  | some (fault e) ↦ some (fault e)
  | some (ok (n, w₁)) ↦
      some (ok (n, if ltb n budget then rx_ints d true (log (napi_complete_done d n) w₁) else w₁))
]
