-- ===== src/Dummy/Link/Answers.antt =====
-- What comes back from the link: the replies to the frames that were sent.
use linux_learn_demo_code.Base.{
  ℕ, ◌+◌, ◌%◌, ◌^◌, true, Option, none, some, List, [], ◌∷◌, ◌++◌, ltb, length, add_ulong, ◌≡◌,
  refl, sym, ◌∙◌, ap, Bool-cases, Option-cases, inl, inr, arith,
}
use mathlib.Core.List.{append-nil, append_assoc}
use linux_learn_demo_code.Dummy.Hardware.{Hardware, send_irq, lt_hw_tx}
use linux_learn_demo_code.Dummy.Ethernet.{Checksums, Dstats, reply, eth_rx, count_tx}
use linux_learn_demo_code.Dummy.Link.{
  Link, loaded, xmit, received, interrupt, irq_loop, Step, sends, raises, steps, sent,
}
use linux_learn_demo_code.Dummy.Link.Totals.{
  answer_to, length-snoc, octets, queue-cases, short-reply, total, total-snoc,
}

module _ (k : Checksums) (frame_of : ℕ → List ℕ) where
  -- The replies to the frames of some skbs, in order.
  abbrev pub answers : List ℕ → List (List ℕ)
  answers [] = []
  answers (skb ∷ skbs) = answer_to (reply k (frame_of skb)) (answers skbs)

  answers-snoc :
      (skbs : List ℕ) (skb : ℕ)
      → answers (skbs ++ skb ∷ []) ≡ answers skbs ++ answer_to (reply k (frame_of skb)) []
  answers-snoc [] skb = refl
  answers-snoc (x ∷ skbs) skb = ground (arith, answers-snoc skbs skb)

  octets-snoc :
      (skbs : List ℕ) (skb : ℕ)
      → octets frame_of (skbs ++ skb ∷ []) ≡ octets frame_of skbs + length (frame_of skb)
  octets-snoc [] skb = refl
  octets-snoc (x ∷ skbs) skb = omega (arith, octets-snoc skbs skb)

  -- The link after the skbs `all` were sent.
  pub record IsCarried (all : List ℕ) (l : Link) : Type 0 where
    pub listens : l.hardware.registered ≡ true
    pub answered : l.stack ++ answers l.hardware.skb_tx_q ≡ answers all
    pub tx_packets : l.dstats.tx_packets ≡ length all % 2 ^ 64
    pub tx_bytes : l.dstats.tx_bytes ≡ octets frame_of all % 2 ^ 64
    pub rx_packets : l.dstats.rx_packets ≡ length l.stack % 2 ^ 64
    pub rx_bytes : l.dstats.rx_bytes ≡ total l.stack % 2 ^ 64

  loaded-IsCarried : IsCarried [] loaded
  unfolding loaded
  loaded-IsCarried = record {
    listens = refl;
    answered = refl;
    tx_packets = refl;
    tx_bytes = refl;
    rx_packets = refl;
    rx_bytes = refl;
  }

  xmit-IsCarried :
      (all : List ℕ) (skb : ℕ) (l : Link)
      → IsCarried all l
      → IsCarried (all ++ skb ∷ []) (xmit k frame_of skb l)
  unfolding xmit count_tx lt_hw_tx
  xmit-IsCarried all skb l v = record {
    listens = v.listens;
    answered =
        ap (λ fs. l.stack ++ fs) (answers-snoc l.hardware.skb_tx_q skb)
        ∙ sym (
            append_assoc l.stack (answers l.hardware.skb_tx_q)
              (answer_to (reply k (frame_of skb)) []))
        ∙ ap (λ fs. fs ++ answer_to (reply k (frame_of skb)) []) v.answered
        ∙ sym (answers-snoc all skb);
    tx_packets = omega (arith, v.tx_packets, length-snoc all skb);
    tx_bytes = omega (arith, v.tx_bytes, octets-snoc all skb);
    rx_packets = v.rx_packets;
    rx_bytes = v.rx_bytes;
  }

  -- What the callback leaves, by the reply to the frame.
  abbrev after : Option (List ℕ) → Link → Link
  after none l = l
  after (some f) l = record l {
    dstats = record l.dstats {
      rx_packets = add_ulong l.dstats.rx_packets 1;
      rx_bytes = add_ulong l.dstats.rx_bytes (length f);
    };
    stack = l.stack ++ f ∷ [];
  }

  received-reply : (frame : List ℕ) (l : Link) → received k frame l ≡ after (reply k frame) l
  unfolding received eth_rx
  received-reply frame l = elim (Bool-cases (ltb (length frame) 14)) [
    | inl short ↦ rw (received, eth_rx, short, short-reply k frame short, short)
    | inr enough ↦ elim (Option-cases (reply k frame)) [
      | inl e ↦ rw (received, eth_rx, enough, e, eth_rx, enough, e)
      | inr (f, e) ↦ rw (received, eth_rx, enough, e, eth_rx, enough, e)
    ]
  ]

  -- One frame of the queue is answered, or dropped.
  popped-IsCarried :
      (all : List ℕ) (o : Option (List ℕ)) (rest : List ℕ) (h : Hardware) (d : Dstats)
      (stack : List (List ℕ))
      → h.registered ≡ true
      → h.skb_tx_q ≡ rest
      → stack ++ answer_to o (answers rest) ≡ answers all
      → (d.tx_packets ≡ length all % 2 ^ 64) × (d.tx_bytes ≡ octets frame_of all % 2 ^ 64)
      → (d.rx_packets ≡ length stack % 2 ^ 64) × (d.rx_bytes ≡ total stack % 2 ^ 64)
      → IsCarried all (after o (record { hardware = h; dstats = d; stack = stack }))
  popped-IsCarried all none rest h d stack on q a t r = record {
    listens = on;
    answered = rw q a;
    tx_packets = t.0;
    tx_bytes = t.1;
    rx_packets = r.0;
    rx_bytes = r.1;
  }
  popped-IsCarried all (some f) rest h d stack on q a t r = record {
    listens = on;
    answered = rw q (append_assoc stack (f ∷ []) (answers rest) ∙ a);
    tx_packets = t.0;
    tx_bytes = t.1;
    rx_packets = omega (arith, r.0, length-snoc stack f);
    rx_bytes = omega (arith, r.1, total-snoc stack f);
  }

  irq_queue :
      (h : Hardware) (skb : ℕ) (rest : List ℕ)
      → h.skb_tx_q ≡ skb ∷ rest
      → ((send_irq h).skb_tx_q ≡ rest) × ((send_irq h).registered ≡ h.registered)
  unfolding send_irq
  irq_queue h skb rest e = rw e (refl, refl)

  interrupt-after :
      (l : Link) (skb : ℕ) (rest : List ℕ)
      → l.hardware.skb_tx_q ≡ skb ∷ rest
      → l.hardware.registered ≡ true
      → interrupt k frame_of l
        ≡ after (reply k (frame_of skb)) (record l { hardware = send_irq l.hardware })
  unfolding interrupt
  interrupt-after l skb rest e on = rw (e, on) (received-reply (frame_of skb) _)

  after-hardware : (o : Option (List ℕ)) (l : Link) → (after o l).hardware ≡ l.hardware
  after-hardware none l = refl
  after-hardware (some f) l = refl

  interrupt-IsCarried :
      (all : List ℕ) (l : Link) (skb : ℕ) (rest : List ℕ)
      → l.hardware.skb_tx_q ≡ skb ∷ rest
      → IsCarried all l
      → IsCarried all (interrupt k frame_of l) × ((interrupt k frame_of l).hardware.skb_tx_q ≡ rest)
  interrupt-IsCarried all l skb rest e v =
      let q = irq_queue l.hardware skb rest e in
      let o = reply k (frame_of skb) in
      rw (interrupt-after l skb rest e v.listens) (
        popped-IsCarried all o rest (send_irq l.hardware) l.dstats l.stack (q.1 ∙ v.listens) q.0
            (ap (λ xs. l.stack ++ answers xs) (sym e) ∙ v.answered) (v.tx_packets, v.tx_bytes)
            (v.rx_packets, v.rx_bytes),
        ap (λ (h : Hardware). h.skb_tx_q)
              (after-hardware o (record l { hardware = send_irq l.hardware }))
            ∙ q.0,
      )

  idle : (l : Link) → l.hardware.skb_tx_q ≡ [] → interrupt k frame_of l ≡ l
  unfolding interrupt
  idle l e = rw e

  steps-IsCarried :
      (ss : List Step) (all : List ℕ) (l : Link)
      → IsCarried all l
      → IsCarried (all ++ sent ss) (steps k frame_of ss l)
  unfolding steps
  steps-IsCarried [] all l v = rw (append-nil all) v
  steps-IsCarried (sends skb ∷ more) all l v =
      rw (sym (append_assoc all (skb ∷ []) (sent more))) (
        steps-IsCarried more (all ++ skb ∷ []) (xmit k frame_of skb l) (xmit-IsCarried all skb l v))
  steps-IsCarried (raises ∷ more) all l v = elim (queue-cases l.hardware.skb_tx_q) [
    | inl e ↦ rw (idle l e) (steps-IsCarried more all l v)
    | inr (skb, rest, e) ↦
        steps-IsCarried more all (interrupt k frame_of l) (interrupt-IsCarried all l skb rest e v).0
  ]

  irq_loop-IsCarried :
      (q all : List ℕ) (l : Link)
      → l.hardware.skb_tx_q ≡ q
      → IsCarried all l
      → IsCarried all (irq_loop k frame_of q l) × ((irq_loop k frame_of q l).hardware.skb_tx_q ≡ [])
  unfolding irq_loop
  irq_loop-IsCarried [] all l e v = (v, e)
  irq_loop-IsCarried (skb ∷ rest) all l e v =
      let r = interrupt-IsCarried all l skb rest e v in
      irq_loop-IsCarried rest all (interrupt k frame_of l) r.1 r.0

  -- A computer sends frames over the device, and the thread raises interrupts in between, in any order. The
  -- counters of transmission are those of the frames sent, and those of reception are those of the
  -- frames that the stack received, on 64 bits. What the stack received, and then the replies to the frames
  -- in the queue, are the replies to the frames sent, in order; after a round of the thread the queue
  -- is empty, and the stack has received the replies to all.
  pub steps_lem :
      (ss : List Step)
      → let l : Link = steps k frame_of ss loaded in
        let l' : Link = irq_loop k frame_of l.hardware.skb_tx_q l in
        IsCarried (sent ss) l
        × IsCarried (sent ss) l'
        × (l'.hardware.skb_tx_q ≡ [])
        × (l'.stack ≡ answers (sent ss))
  steps_lem ss =
      let v = steps-IsCarried ss [] loaded loaded-IsCarried in
      let l = steps k frame_of ss loaded in
      let r = irq_loop-IsCarried l.hardware.skb_tx_q (sent ss) l refl v in
      let l' : Link = irq_loop k frame_of l.hardware.skb_tx_q l in
      let all_up =
        sym (append-nil l'.stack) ∙ ap (λ q. l'.stack ++ answers q) (sym r.1) ∙ r.0.answered in
      (v, r.0, r.1, all_up)
