-- ===== src/Snull/Run.antt =====
-- snull/snull.c under NAPI: transmissions on both devices and polls of both, in any order. Each is one
-- step, as on one processor.
pub mod Steps
pub mod Awaited
pub mod Polls
pub mod Sound
pub mod Drained
pub mod Loaded
pub mod InOrder
pub mod Unloaded
pub mod Sends
pub mod Reversed
use linux_learn_demo_code.Base.{
  ℕ, ◌+◌, ◌≤◌, ◌<◌, Bool, true, false, Option, none, some, List, [], ◌∷◌, length, ◌≡◌,
}
use linux_learn_demo_code.Snull.Types.{Dev, other, ok, World, Env, Skb, NetDevice, no_status, priv}
use linux_learn_demo_code.Snull.Chains.{Loc, pool, queue, Place, Chain}
use linux_learn_demo_code.Snull.Buffers.Refine.{Inv}
use linux_learn_demo_code.Snull.Receive.{poll}
use linux_learn_demo_code.Snull.Receive.Passed.{scheduled}
use linux_learn_demo_code.Snull.Transmit.Napi.Calm.{IsCalm}
use linux_learn_demo_code.Snull.Transmit.{tx, eth_data_len}

-- The states that the driver reaches from another: the kernel transmits on a device whose queue is
-- not stopped, and polls a device with fuel above the length of its receive queue.
pub data IsReached (k : Env) (from : World) : World → Type 0 where
  begin : IsReached k from from
  transmits :
      (w w' : World) (skb : Skb) (d : Dev)
      → IsReached k from w
      → (priv w d).stopped ≡ false
      → length skb.bytes ≤ eth_data_len
      → tx k skb d w ≡ ok w'
      → IsReached k from w'
  polls :
      (w u : World) (fuel : ℕ) (d : Dev) (budget m : ℕ) (xs : List ℕ)
      → IsReached k from w
      → Chain w.packets (priv w d).rx_queue xs
      → length xs < fuel
      → poll fuel d budget w ≡ some (ok (m, u))
      → IsReached k from u

-- The driver between two calls, with `total d` packets that belong to `d`: the four lists are well formed, each
-- packet of a device is in its pool or waits at its twin, both devices are calm, a device whose
-- receive interrupts are enabled has an empty queue, and one whose receive interrupts are disabled is
-- scheduled to be polled.
pub record IsSound (total : Dev → ℕ) (w : World) : Type 0 where
  pub place : ℕ → Place
  pub lists : Loc → List ℕ
  pub inv : Inv w place lists
  pub calm : (d : Dev) → IsCalm (priv w d)
  pub kept : (d : Dev) → length (lists (pool d)) + length (lists (queue (other d))) ≡ total d
  pub polled : (d : Dev) → (priv w d).rx_int_enabled ≡ true → lists (queue d) ≡ []
  pub awaited : (d : Dev) → (priv w d).rx_int_enabled ≡ false → scheduled d w.calls ≡ true
