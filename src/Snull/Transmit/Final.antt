-- ===== src/Snull/Transmit/Final.antt =====
-- The state after a transmission under the regular handler, part by part.
use linux_learn_demo_code.Base.{
  ℕ, Bool, true, false, none, some, ◌∷◌, length, if◌then◌else◌, ◌≡◌, refl, sym, arith, ==_refl,
  add_ulong, is_none, subst,
}
use linux_learn_demo_code.Snull.Types.{
  Dev, sn0, sn1, other, World, Stats, Env, Skb, no_status, priv, dev_kfree_skb, netif_trans_update,
}
use linux_learn_demo_code.Snull.Chains.{Loc, pool, queue, head}
use linux_learn_demo_code.Snull.Chains.Changes.{Agree}
use linux_learn_demo_code.Snull.Receive.Passed.{first_of, rest_of}
use linux_learn_demo_code.Snull.Receive.Interrupt.{handed, tallied}
use linux_learn_demo_code.Snull.Transmit.{rewrite_header, pad}
use linux_learn_demo_code.Snull.Transmit.Frame.{length-rewrite_header}
use linux_learn_demo_code.Snull.Transmit.Armed.{take-filled, armed}
use linux_learn_demo_code.Snull.Transmit.Regular.{over}

abbrev pub final : Env → Skb → Dev → ℕ → World → World
final k skb d x w =
    let buf = pad skb.bytes in
    over d x (rewrite_header k.ip_fast_csum buf) (length buf) (armed skb d w)

pub final-Agree :
    (k : Env) (skb : Skb) (d : Dev) (x : ℕ) (w : World)
    → Agree w.packets (final k skb d x w).packets
final-Agree k skb sn0 x w y = (ground (arith, ==_refl x), ground (arith, ==_refl x))
final-Agree k skb sn1 x w y = (ground (arith, ==_refl x), ground (arith, ==_refl x))

pub final-head :
    (k : Env) (skb : Skb) (d : Dev) (x : ℕ) (w : World)
    → head w (pool d) ≡ some x
    → head w (queue (other d)) ≡ none
    → (l : Loc) → head (final k skb d x w) l ≡ head w l
final-head k skb sn0 x w p q (pool sn0) = sym p
final-head k skb sn0 x w p q (pool sn1) = refl
final-head k skb sn0 x w p q (queue sn0) = refl
final-head k skb sn0 x w p q (queue sn1) = ground (arith, ==_refl x)
final-head k skb sn1 x w p q (pool sn0) = refl
final-head k skb sn1 x w p q (pool sn1) = sym p
final-head k skb sn1 x w p q (queue sn0) = ground (arith, ==_refl x)
final-head k skb sn1 x w p q (queue sn1) = refl

pub final-calls :
    (k : Env) (skb : Skb) (d : Dev) (x : ℕ) (w : World)
    → (final k skb d x w).calls
      ≡ dev_kfree_skb (some skb.id)
        ∷ handed
            (first_of w.allocs)
            (other d)
            (rewrite_header k.ip_fast_csum (pad skb.bytes))
            (netif_trans_update d ∷ w.calls)
final-calls k skb sn0 x w =
    let buf = pad skb.bytes in
    let frame = rewrite_header k.ip_fast_csum buf in
    ground (
      arith,
      ==_refl x,
      take-filled frame (w.packets x).payload (length buf)
          (length-rewrite_header k.ip_fast_csum buf),
    )
final-calls k skb sn1 x w =
    let buf = pad skb.bytes in
    let frame = rewrite_header k.ip_fast_csum buf in
    ground (
      arith,
      ==_refl x,
      take-filled frame (w.packets x).payload (length buf)
          (length-rewrite_header k.ip_fast_csum buf),
    )

pub final-idle :
    (k : Env) (skb : Skb) (d : Dev) (x : ℕ) (w : World) (e : Dev)
    → (priv (final k skb d x w) e).status ≡ no_status
final-idle k skb sn0 x w sn0 = refl
final-idle k skb sn1 x w sn0 = refl
final-idle k skb _ x w _ = refl

pub final-free :
    (k : Env) (skb : Skb) (d : Dev) (x : ℕ) (w : World) (e : Dev)
    → (priv (final k skb d x w) e).locked ≡ false
final-free k skb sn0 x w sn0 = refl
final-free k skb sn1 x w sn0 = refl
final-free k skb _ x w _ = refl

pub final-listens :
    (k : Env) (skb : Skb) (d : Dev) (x : ℕ) (w : World) (e : Dev)
    → (priv (final k skb d x w) e).rx_int_enabled ≡ (priv w e).rx_int_enabled
final-listens k skb sn0 x w sn0 = refl
final-listens k skb sn1 x w sn0 = refl
final-listens k skb _ x w _ = refl

-- A pool that runs empty stops the queue, and the release of the packet starts it again.
pub final-awake :
    (k : Env) (skb : Skb) (d : Dev) (x : ℕ) (w : World)
    → (priv (final k skb d x w) d).stopped
      ≡ (if is_none (w.packets x).next then false else (priv w d).stopped)
final-awake k skb sn0 x w = ground arith
final-awake k skb sn1 x w = ground arith

pub final-allocs :
    (k : Env) (skb : Skb) (d : Dev) (x : ℕ) (w : World)
    → (final k skb d x w).allocs ≡ rest_of w.allocs
final-allocs k skb sn0 x w = refl
final-allocs k skb sn1 x w = refl

-- The counters of a receiver before and after, by whether an skb was allocated.
abbrev pub Received : Bool → ℕ → Stats → Stats → Type 0
Received true n s s' =
    (s'.rx_packets ≡ add_ulong s.rx_packets 1)
    × (s'.rx_bytes ≡ add_ulong s.rx_bytes n)
    × (s'.rx_dropped ≡ s.rx_dropped)
Received false n s s' =
    (s'.rx_packets ≡ s.rx_packets)
    × (s'.rx_bytes ≡ s.rx_bytes)
    × (s'.rx_dropped ≡ add_ulong s.rx_dropped 1)

-- The counters of the sender and of the receiver.
abbrev pub Counted : Dev → ℕ → World → World → Type 0
Counted d n w w' =
    ((priv w' d).stats.tx_packets ≡ add_ulong (priv w d).stats.tx_packets 1)
    × ((priv w' d).stats.tx_bytes ≡ add_ulong (priv w d).stats.tx_bytes n)
    × (Received (first_of w.allocs) n (priv w (other d)).stats (priv w' (other d)).stats)

tallied-Received : (b : Bool) (n : ℕ) (s : Stats) → Received b n s (tallied b n s)
tallied-Received true n s = (refl, refl, refl)
tallied-Received false n s = (refl, refl, refl)

final-stats :
    (k : Env) (skb : Skb) (d : Dev) (x : ℕ) (w : World)
    → (priv (final k skb d x w) (other d)).stats
      ≡ tallied (first_of w.allocs) (length (pad skb.bytes)) (priv w (other d)).stats
final-stats k skb sn0 x w = rw ==_refl
final-stats k skb sn1 x w = rw ==_refl

final-sent :
    (k : Env) (skb : Skb) (d : Dev) (x : ℕ) (w : World)
    → ((priv (final k skb d x w) d).stats.tx_packets ≡ add_ulong (priv w d).stats.tx_packets 1)
      × ((priv (final k skb d x w) d).stats.tx_bytes
          ≡ add_ulong (priv w d).stats.tx_bytes (length (pad skb.bytes)))
final-sent k skb sn0 x w = (refl, refl)
final-sent k skb sn1 x w = (refl, refl)

pub final-Counted :
    (k : Env) (skb : Skb) (d : Dev) (x : ℕ) (w : World)
    → Counted d (length (pad skb.bytes)) w (final k skb d x w)
final-Counted k skb d x w = (
  (final-sent k skb d x w).0,
  (final-sent k skb d x w).1,
  subst (Received (first_of w.allocs) (length (pad skb.bytes)) (priv w (other d)).stats)
      (sym (final-stats k skb d x w))
      (tallied-Received (first_of w.allocs) (length (pad skb.bytes)) (priv w (other d)).stats),
)
