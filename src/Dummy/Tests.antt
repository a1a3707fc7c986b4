-- ===== src/Dummy/Tests.antt =====
-- The theorems on the dummy device and its hardware at concrete frames.
use linux_learn_demo_code.Base.{
  arith, ℕ, true, false, none, some, List, [], ◌∷◌, map, ◌++◌, if◌then◌else◌, ◌==◌, ◌≡◌, refl, ◌⊎◌,
}
use linux_learn_demo_code.Dummy.Hardware.{
  Hardware, freed, hw_init, send_irq, lt_hw_tx, lt_request_irq, hw_exit, IsReached, start, transmit,
  raise_irq, request, all_skbs, all_skbs-sent,
}
use linux_learn_demo_code.Dummy.Ethernet.{Checksums, get_stats64, arp_reply, icmp_reply}
use linux_learn_demo_code.Dummy.Link.{no_stats}
use linux_learn_demo_code.Dummy.Ethernet.Processors.{
  Traffic, sends, reflects, count_all, count_once, get_stats64-count_all,
}
use linux_learn_demo_code.Dummy.Ethernet.Reflect.{
  Mac, Ip4, Header, peer, arp_frame, ip_frame, icmp_packet, arp_reply_lem, icmp_reply_lem,
}
use linux_learn_demo_code.Base.Int.{pos, below}
use linux_learn_demo_code.Dummy.Link.{Link, sends, raises, steps, irq_loop}
use linux_learn_demo_code.Dummy.Link
use linux_learn_demo_code.Dummy.Link.Answers.{IsCarried, answers, steps_lem}
use linux_learn_demo_code.Dummy.Module.{
  Held, Answers, init_module, cleanup_module, fails, IsUnloaded, init-cleanup,
}

-- Two frames are sent with the driver registered, one raise_irq comes, and the driver goes.
abbrev used : Hardware
used = lt_request_irq false (send_irq (lt_hw_tx 2 (lt_hw_tx 1 (lt_request_irq true hw_init))))

used-IsReached : IsReached (1 ∷ 2 ∷ []) used
used-IsReached = request (1 ∷ 2 ∷ []) _ false (
    raise_irq (1 ∷ 2 ∷ []) _
      (transmit (1 ∷ []) _ 2 (transmit [] _ 1 (request [] hw_init true start))))

all_skbs-sent_example :
    (all_skbs used ≡ 1 ∷ 2 ∷ []) × (map (λ e. e.0) (hw_exit used).handled ≡ 1 ∷ 2 ∷ [])
all_skbs-sent_example = all_skbs-sent (1 ∷ 2 ∷ []) used used-IsReached

abbrev station : Mac
station = record { m0 = 2; m1 = 1; m2 = 1; m3 = 1; m4 = 1; m5 = 1 }

abbrev broadcast : Mac
broadcast = record { m0 = 255; m1 = 255; m2 = 255; m3 = 255; m4 = 255; m5 = 255 }

abbrev host : ℕ → Ip4
host n = record { i0 = 10; i1 = 0; i2 = 0; i3 = n }

arp_reply_lem_example :
    (arp_reply (arp_frame broadcast station (0, 1) 1 station (host 1) broadcast (host 2) [])
      ≡ some
          (arp_frame station (peer (host 2)) (0, 1) 2 (peer (host 2)) (host 2) station (host 1) []))
    × (arp_reply
          (arp_frame station (peer (host 2)) (0, 1) 2 (peer (host 2)) (host 2) station (host 1) [])
        ≡ none)
    × (arp_reply (arp_frame broadcast station (0, 1) 3 station (host 1) broadcast (host 2) [])
        ≡ none)
arp_reply_lem_example =
    arp_reply_lem broadcast station (0, 1) 3 station (host 1) broadcast (host 2) []
      (λ e. omega (arith, e))

abbrev sums : Checksums
sums = record {
  ip_fast_csum = λ bytes words. (1, 2);
  csum = λ bytes. (3, 4);
  csum_behind = λ frame i n. (5, 6);
}

abbrev ip_header : Header
ip_header = record { tos = 0; total = (0, 30); ident = (5, 6); frag = (0, 0); ttl = 64 }

icmp_reply_lem_example :
    let answer : List ℕ =
      ip_frame station
        (peer (host 2))
        (icmp_packet ip_header (1, 2) (host 2) (host 1) 0 0 (3, 4) (host 9) (7 ∷ 8 ∷ [])) in
    (icmp_reply sums (
        ip_frame
          (peer (host 2))
          station
          (icmp_packet ip_header (0, 0) (host 1) (host 2) 8 0 (0, 0) (host 9) (7 ∷ 8 ∷ [])))
      ≡ some answer)
    × (icmp_reply sums answer ≡ none)
icmp_reply_lem_example =
    icmp_reply_lem sums (peer (host 2)) station ip_header (0, 0) (host 1) (host 2) 0 (0, 0) (host 9)
      (7 ∷ 8 ∷ []) (omega arith) (omega arith) (omega arith) (omega arith)

-- The skb 1 holds an ARP request for another host, every other one bytes that are not answered.
abbrev frame_of : ℕ → List ℕ
frame_of skb =
    if skb == 1
    then arp_frame broadcast station (0, 1) 1 station (host 1) broadcast (host 2) []
    else 7 ∷ []

-- Both are sent, with an interrupt between them.
abbrev traffic : List Link.Step
traffic = sends 2 ∷ raises ∷ sends 1 ∷ []

steps_lem_example :
    let l : Link = steps sums frame_of traffic Link.loaded in
    let l' : Link = irq_loop sums frame_of l.hardware.skb_tx_q l in
    IsCarried sums frame_of (2 ∷ 1 ∷ []) l
    × IsCarried sums frame_of (2 ∷ 1 ∷ []) l'
    × (l'.hardware.skb_tx_q ≡ [])
    × (l'.stack ≡ answers sums frame_of (2 ∷ 1 ∷ []))
steps_lem_example = steps_lem sums frame_of traffic

abbrev before_loading : Held
before_loading = record {
  rtnl_locked = false;
  link_kind = false;
  allocated = false;
  registered = false;
  hardware = record { skb_tx_q = 4 ∷ []; registered = false; handled = [] };
}

abbrev willing : Answers
willing = record { link_register = pos 0; alloc_netdev = true; register_netdevice = pos 0 }

init-cleanup_example :
    let (err, m') = init_module willing before_loading in
    ((fails willing ≡ true) × (below err 0 ≡ true) × (m' ≡ before_loading))
    ⊎ ((fails willing ≡ false)
        × (err ≡ pos 0)
        × (m'.rtnl_locked ≡ false)
        × (m'.link_kind ≡ true)
        × (m'.allocated ≡ true)
        × (m'.registered ≡ true)
        × (m'.hardware.registered ≡ true)
        × IsUnloaded (cleanup_module m')
        × ((cleanup_module m').hardware.registered ≡ false)
        × ((cleanup_module m').hardware.skb_tx_q ≡ [])
        × ((cleanup_module m').hardware.handled
            ≡ m'.hardware.handled ++ map (λ skb. (skb, freed)) m'.hardware.skb_tx_q))
init-cleanup_example =
    init-cleanup willing before_loading
      (record { unlocked = refl; no_kind = refl; no_memory = refl; no_device = refl })

-- Two processors: the second sends 60 bytes, and the first answers nothing.
abbrev workload : List (ℕ × Traffic)
workload = (1, sends 60) ∷ (0, reflects true (1 ∷ [])) ∷ (1, sends 42) ∷ []

get_stats64-count_all_example :
    get_stats64 (count_all sums workload (no_stats ∷ no_stats ∷ [])) no_stats
    ≡ count_once sums workload (get_stats64 (no_stats ∷ no_stats ∷ []) no_stats)
get_stats64-count_all_example =
    get_stats64-count_all sums workload (no_stats ∷ no_stats ∷ []) no_stats
      (omega arith, (omega arith, (omega arith, tt)))
