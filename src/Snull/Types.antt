-- ===== src/Snull/Types.antt =====
-- snull/snull.c and snull.h: the structures, and the kernel state that the driver reads and writes.
-- A packet and an skb are named by a number, their address. A fault is an access that the C program
-- must never make, or a spin lock taken twice.
use linux_learn_demo_code.Base.{ℕ, Bool, true, false, Option, List, ◌∷◌, if◌then◌else◌, ◌==◌}

-- `snull_devs[0]` and `snull_devs[1]`.
pub data Dev : Type 0 where
  sn0 sn1 : Dev

-- The twin of a device.
abbrev pub other : Dev → Dev
other sn0 = sn1
other sn1 = sn0

pub data Fault : Type 0 where
  null_deref overrun deadlock : Fault

pub data Outcome {ℓ} (A : Type ℓ) : Type ℓ where
  ok : A → Outcome A
  fault : Fault → Outcome A

infixl 5 ◌>>=◌
abbrev pub ◌>>=◌ {ℓ κ} : {A : Type ℓ} {B : Type κ} → Outcome A → (A → Outcome B) → Outcome B
ok a >>= f = f a
fault e >>= f = fault e

-- `struct snull_packet`. The array `data` is the list `payload`.
pub record Packet : Type 0 where
  pub next : Option ℕ
  pub dev : Dev
  pub datalen : ℕ
  pub payload : List ℕ

-- The counters of `struct net_device_stats` that the driver writes.
pub record Stats : Type 0 where
  pub rx_packets : ℕ
  pub rx_bytes : ℕ
  pub tx_packets : ℕ
  pub tx_bytes : ℕ
  pub tx_errors : ℕ
  pub rx_dropped : ℕ

-- The flags SNULL_RX_INTR and SNULL_TX_INTR of the status word.
pub record Status : Type 0 where
  pub rx_intr : Bool
  pub tx_intr : Bool

abbrev pub no_status : Status
no_status = record { rx_intr = false; tx_intr = false }

-- `struct snull_priv` and the fields of its `struct net_device`. `locked` is the spin lock,
-- `stopped` the state of the transmit queue.
pub record NetDevice : Type 0 where
  pub stats : Stats
  pub status : Status
  pub ppool : Option ℕ
  pub rx_queue : Option ℕ
  pub rx_int_enabled : Bool
  pub tx_packetlen : ℕ
  pub tx_packetdata : List ℕ
  pub skb : Option ℕ
  pub locked : Bool
  pub stopped : Bool
  pub dev_addr : List ℕ
  pub mtu : ℕ

pub record Skb : Type 0 where
  pub id : ℕ
  pub bytes : List ℕ

-- The calls into the kernel that the driver makes.
pub data Call : Type 0 where
  netif_rx netif_receive_skb : Dev → List ℕ → Call
  dev_kfree_skb : Option ℕ → Call
  napi_enable napi_disable napi_schedule netif_trans_update : Dev → Call
  napi_complete_done : Dev → ℕ → Call

-- `allocs` holds the outcomes of the coming calls of `netdev_alloc_skb`, and `calls` the calls made,
-- the last one first.
pub record World : Type 0 where
  pub packets : ℕ → Packet
  pub dev0 : NetDevice
  pub dev1 : NetDevice
  pub allocs : List Bool
  pub calls : List Call

-- The module parameters, and `ip_fast_csum` of the kernel, which gives the two bytes of the
-- checksum as they lie in memory, from the header's bytes on and its length in words.
pub record Env : Type 0 where
  pub lockup : ℕ
  pub use_napi : Bool
  pub ip_fast_csum : List ℕ → ℕ → List ℕ

-- `netdev_priv`, and a write through it.
abbrev pub priv : World → Dev → NetDevice
priv w sn0 = w.dev0
priv w sn1 = w.dev1

abbrev pub put : Dev → NetDevice → World → World
put sn0 v w = record w { dev0 = v }
put sn1 v w = record w { dev1 = v }

-- A store to one packet.
abbrev pub store : (ℕ → Packet) → ℕ → Packet → ℕ → Packet
store h p v q = if p == q then v else h q

abbrev pub log : Call → World → World
log c w = record w { calls = c ∷ w.calls }

-- `netif_stop_queue`; `netif_wake_queue` and `netif_start_queue`.
abbrev pub set_stopped : Dev → Bool → World → World
set_stopped d b w = let v = priv w d in put d (record v { stopped = b }) w

-- `spin_lock` and `spin_lock_irqsave` on one processor: a lock that is held is never given.
abbrev pub spin_lock : Dev → World → Outcome World
spin_lock d w =
    let v = priv w d in
    if v.locked then fault deadlock else ok (put d (record v { locked = true }) w)

abbrev pub spin_unlock : Dev → World → World
spin_unlock d w = let v = priv w d in put d (record v { locked = false }) w
