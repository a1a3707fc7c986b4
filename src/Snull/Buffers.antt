-- ===== src/Snull/Buffers.antt =====
-- snull/snull.c:135-192: the pool and the receive queue of a device, linked lists of packets.
pub mod States
pub mod Refine
use linux_learn_demo_code.Base.{
  ℕ, Bool, true, false, ◌&&◌, Option, none, some, if◌then◌else◌, is_none,
}
use linux_learn_demo_code.Snull.Types.{
  Dev, Fault, null_deref, Outcome, ok, fault, ◌>>=◌, World, priv, put, store, set_stopped,
  spin_lock, spin_unlock,
}

-- `snull_get_tx_buffer`: an empty pool is read through a null pointer.
unfoldable pub get_tx_buffer : Dev → World → Outcome (ℕ × World)
get_tx_buffer d w = do
  w₁ ← spin_lock d w
  elim (priv w₁ d).ppool [
    | none ↦ fault null_deref
    | some p ↦
        let rest = (w₁.packets p).next in
        let v = priv w₁ d in
        let w₂ = put d (record v { ppool = rest }) w₁ in
        let w₃ = if is_none rest then set_stopped d true w₂ else w₂ in ok (p, spin_unlock d w₃)
  ]

-- `snull_release_buffer`: the packet goes back to the pool of the device that owns it.
unfoldable pub release_buffer : ℕ → World → Outcome World
release_buffer p w = do
  let d = (w.packets p).dev
  w₁ ← spin_lock d w
  let v = priv w₁ d
  let k = w₁.packets p
  let w₂ = record w₁ { packets = store w₁.packets p (record k { next = v.ppool }) }
  let w₃ = spin_unlock d (put d (record v { ppool = some p }) w₂)
  let wake = (priv w₃ d).stopped && is_none ((w₃.packets p).next)
  ok (if wake then set_stopped d false w₃ else w₃)

-- `snull_enqueue_buf`.
unfoldable pub enqueue_buf : Dev → ℕ → World → Outcome World
enqueue_buf d p w = do
  w₁ ← spin_lock d w
  let v = priv w₁ d
  let k = w₁.packets p
  let w₂ = record w₁ { packets = store w₁.packets p (record k { next = v.rx_queue }) }
  ok (spin_unlock d (put d (record v { rx_queue = some p }) w₂))

-- `snull_dequeue_buf`: a null pointer when the queue is empty.
unfoldable pub dequeue_buf : Dev → World → Outcome (Option ℕ × World)
dequeue_buf d w = do
  w₁ ← spin_lock d w
  let v = priv w₁ d
  elim v.rx_queue [
    | none ↦ ok (none, spin_unlock d w₁)
    | some p ↦ ok (some p, spin_unlock d (put d (record v { rx_queue = (w₁.packets p).next }) w₁))
  ]
