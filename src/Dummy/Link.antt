-- ===== src/Dummy/Link.antt =====
-- linux-netdevice-driver-test: the driver of dummy-eth.c on top of the hardware of dummy-hw.c. A frame
-- goes down by `dummy_xmit`, and comes back up by the interrupt of the thread and `dummy_eth_rx`.
pub mod Totals
pub mod Answers
use linux_learn_demo_code.Base.{
  ℕ, ◌+◌, ◌%◌, ◌^◌, ◌*◌, Bool, true, false, ◌&&◌, ◌||◌, not, Option, none, some, List, [], ◌∷◌,
  ◌++◌, if◌then◌else◌, ltb, ◌==◌, length, add_ulong, ◌≡◌, refl, sym, ◌∙◌, ap, Bool-cases, inl, inr,
  ◌⊎◌, arith,
}
use linux_learn_demo_code.Dummy.Hardware.{Hardware, hw_init, send_irq, lt_hw_tx, lt_request_irq}
use linux_learn_demo_code.Dummy.Ethernet.{
  Checksums, Dstats, Received, netif_rx, dev_kfree_skb, reply, arp_reply, icmp_reply, eth_rx,
  count_tx, ntohs_at,
}

-- The hardware, the counters of the device, and the frames that `netif_rx` got, in order.
pub record Link : Type 0 where
  pub hardware : Hardware
  pub dstats : Dstats
  pub stack : List (List ℕ)

-- The module is loaded and the device is registered, with counters that are 0.
abbrev pub no_stats : Dstats
no_stats = record { rx_packets = 0; rx_bytes = 0; tx_packets = 0; tx_bytes = 0 }

unfoldable pub loaded : Link
unfolding lt_request_irq
loaded = record { hardware = lt_request_irq true hw_init; dstats = no_stats; stack = [] }

-- What the callback does with a frame.
unfoldable pub received : Checksums → List ℕ → Link → Link
received k frame l =
    let (fate, stats) = eth_rx k true frame l.dstats in
    elim fate [
      | netif_rx f ↦ record l { dstats = stats; stack = l.stack ++ f ∷ [] }
      | dev_kfree_skb ↦ record l { dstats = stats }
    ]

module _ (k : Checksums) (frame_of : ℕ → List ℕ) where
  -- `dummy_xmit`: `lt_hw_tx` takes every skb.
  unfoldable pub xmit : ℕ → Link → Link
  unfolding count_tx
  xmit skb l = record l {
    hardware = lt_hw_tx skb l.hardware;
    dstats = count_tx (length (frame_of skb)) l.dstats;
  }

  -- `dummy_hw_send_irq` with the driver above it.
  unfoldable pub interrupt : Link → Link
  interrupt l = elim l.hardware.skb_tx_q [
    | [] ↦ l
    | skb ∷ rest ↦
        let l' : Link = record l { hardware = send_irq l.hardware } in
        if l.hardware.registered then received k (frame_of skb) l' else l'
  ]

  -- A round of `dummy_hw_thread` that nothing interrupts.
  unfoldable pub irq_loop : List ℕ → Link → Link
  irq_loop [] l = l
  irq_loop (skb ∷ rest) l = irq_loop rest (interrupt l)

-- The stack sends an skb, or the thread raises an interrupt.
pub data Step : Type 0 where
  sends : ℕ → Step
  raises : Step

module _ (k : Checksums) (frame_of : ℕ → List ℕ) where
  unfoldable pub steps : List Step → Link → Link
  unfolding xmit
  steps [] l = l
  steps (sends skb ∷ more) l = steps more (xmit k frame_of skb l)
  steps (raises ∷ more) l = steps more (interrupt k frame_of l)

-- The skbs of the steps.
abbrev pub sent : List Step → List ℕ
sent [] = []
sent (sends skb ∷ more) = skb ∷ sent more
sent (raises ∷ more) = sent more
