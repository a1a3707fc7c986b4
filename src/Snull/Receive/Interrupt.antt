-- ===== src/Snull/Receive/Interrupt.antt =====
-- The interrupt handlers: what each leaves, by the flags of the status word.
use linux_learn_demo_code.Base.{
  ℕ, Bool, true, false, some, List, [], ◌∷◌, refl, ◌⊎◌, inl, inr, take, ◌≡◌, arith, add_ulong,
}
use linux_learn_demo_code.Snull.Types.{
  Dev, sn0, sn1, other, ok, World, Status, Stats, Call, no_status, priv, put, log, netif_rx,
  dev_kfree_skb, napi_schedule,
}
use linux_learn_demo_code.Snull.Buffers.States.{released, release_buffer-eq}
use linux_learn_demo_code.Snull.Receive.Passed.{first_of, rest_of}
use linux_learn_demo_code.Snull.Receive.{irq_handled, regular_interrupt, napi_interrupt, rx}

abbrev pub rx_only : Status
rx_only = record { rx_intr = true; tx_intr = false }

abbrev pub tx_only : Status
tx_only = record { rx_intr = false; tx_intr = true }

-- The counters and the calls for a packet, by whether an skb was allocated for it.
abbrev pub tallied : Bool → ℕ → Stats → Stats
tallied true n s = record s {
  rx_packets = add_ulong s.rx_packets 1;
  rx_bytes = add_ulong s.rx_bytes n;
}
tallied false n s = record s { rx_dropped = add_ulong s.rx_dropped 1 }

abbrev pub handed : Bool → Dev → List ℕ → List Call → List Call
handed true d frame cs = netif_rx d frame ∷ cs
handed false d frame cs = cs

-- A packet passed to the upper layers or dropped, before it is released.
abbrev pub received : Dev → ℕ → World → World
received d p w =
    let v = priv w d in
    let q = w.packets p in
    let given = first_of w.allocs in
    record (put d
      (record v {
        status = no_status;
        rx_queue = q.next;
        locked = false;
        stats = tallied given q.datalen v.stats;
      })
      w) { allocs = rest_of w.allocs; calls = handed given d (take q.datalen q.payload) w.calls }

-- A transmission that is over.
abbrev pub sent : Dev → World → World
sent d w =
    let v = priv w d in
    let s = v.stats in
    log (dev_kfree_skb v.skb) (
      put d
        (record v {
          status = no_status;
          locked = false;
          stats = record s {
            tx_packets = add_ulong s.tx_packets 1;
            tx_bytes = add_ulong s.tx_bytes v.tx_packetlen;
          };
        })
        w)

-- The NAPI handler leaves the packet on the queue, for the poll.
abbrev pub scheduled : Dev → World → World
scheduled d w =
    let v = priv w d in
    log (napi_schedule d)
      (put d (record v { status = no_status; locked = false; rx_int_enabled = false }) w)

allocs-cases :
    (bs : List Bool)
    → (bs ≡ [])
      ⊎ ((rest : List Bool) × (bs ≡ true ∷ rest))
      ⊎ ((rest : List Bool) × (bs ≡ false ∷ rest))
allocs-cases [] = inl refl
allocs-cases (true ∷ rest) = inr (inl (rest, refl))
allocs-cases (false ∷ rest) = inr (inr (rest, refl))

pub regular-rx :
    (d : Dev) (w : World) (p : ℕ)
    → (priv w d).status ≡ rx_only
    → (priv w d).locked ≡ false
    → (priv w (other d)).locked ≡ false
    → (priv w d).rx_queue ≡ some p
    → (w.packets p).dev ≡ other d
    → regular_interrupt (some d) w ≡ ok (irq_handled, released (other d) p (received d p w))
unfolding regular_interrupt rx
regular-rx sn0 w p st l l' q own = elim (allocs-cases w.allocs) [
  | inl al ↦ ground (arith, release_buffer-eq sn1 (received sn0 p w) p own l')
  | inr (inl (rest, al)) ↦ ground (arith, release_buffer-eq sn1 (received sn0 p w) p own l')
  | inr (inr (rest, al)) ↦ ground (arith, release_buffer-eq sn1 (received sn0 p w) p own l')
]
regular-rx sn1 w p st l l' q own = elim (allocs-cases w.allocs) [
  | inl al ↦ ground (arith, release_buffer-eq sn0 (received sn1 p w) p own l')
  | inr (inl (rest, al)) ↦ ground (arith, release_buffer-eq sn0 (received sn1 p w) p own l')
  | inr (inr (rest, al)) ↦ ground (arith, release_buffer-eq sn0 (received sn1 p w) p own l')
]

pub regular-tx :
    (d : Dev) (w : World)
    → (priv w d).status ≡ tx_only
    → (priv w d).locked ≡ false
    → regular_interrupt (some d) w ≡ ok (irq_handled, sent d w)
unfolding regular_interrupt
regular-tx sn0 w st l = ground arith
regular-tx sn1 w st l = ground arith

pub napi-rx :
    (d : Dev) (w : World)
    → (priv w d).status ≡ rx_only
    → (priv w d).locked ≡ false
    → napi_interrupt (some d) w ≡ ok (irq_handled, scheduled d w)
unfolding napi_interrupt
napi-rx sn0 w st l = ground arith
napi-rx sn1 w st l = ground arith

pub napi-tx :
    (d : Dev) (w : World)
    → (priv w d).status ≡ tx_only
    → (priv w d).locked ≡ false
    → napi_interrupt (some d) w ≡ ok (irq_handled, sent d w)
unfolding napi_interrupt
napi-tx sn0 w st l = ground arith
napi-tx sn1 w st l = ground arith
