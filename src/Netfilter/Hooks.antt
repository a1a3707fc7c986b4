-- ===== src/Netfilter/Hooks.antt =====
-- What the hooks decide, and what loading and unloading leave.
use linux_learn_demo_code.Base.{
  ℕ, ◌%◌, ◌^◌, Bool, false, not, Option, none, some, if◌then◌else◌, ◌==◌, ◌&&◌, ◌≡◌, refl, arith,
  ==_refl, Bool-cases, inl, inr, is_none,
}
use linux_learn_demo_code.Netfilter.{
  IpHeader, Skb, nf_drop, nf_accept, nf_queue_nr, unloaded, nf_ipaddr_show, nf_local_out_show,
  nf_blockpkt_handler, nf_queue_pkt, nf_blockpkt_init, nf_blockpkt_exit,
}

-- An IPv4 packet of ICMP.
abbrev pub is_icmp : Option Skb → Bool
is_icmp none = false
is_icmp (some skb) = elim skb.iph [
  | none ↦ false
  | some iph ↦ (iph.version == 4) && (iph.protocol == 1)
]

block_header :
    (ports : Option (ℕ × ℕ)) (i : Option IpHeader) (n : ℕ)
    → let s : Option Skb = some (record { iph = i; ports = ports }) in
      (nf_blockpkt_handler s ≡ (if is_icmp s then nf_drop else nf_accept))
      × (nf_queue_pkt n s ≡ (if is_icmp s then nf_queue_nr (n % 2 ^ 16) else nf_accept))
      × ((nf_ipaddr_show s).0 ≡ nf_accept)
      × ((nf_local_out_show s).0 ≡ nf_accept)
unfolding nf_blockpkt_handler nf_queue_pkt nf_ipaddr_show nf_local_out_show
block_header ports none n = (refl, refl, refl, refl)
block_header ports (some i) n = (ground arith, ground arith, ground arith, ground arith)

-- The hook of test3 drops the IPv4 packets of ICMP, and that of test4 gives them to its queue, by the
-- lower 16 bits of the number; they accept all others, a null skb and one without a header
-- included. The hooks of test1 and test2 accept every packet.
pub verdicts_lem :
    (s : Option Skb) (n : ℕ)
    → (nf_blockpkt_handler s ≡ (if is_icmp s then nf_drop else nf_accept))
      × (nf_queue_pkt n s ≡ (if is_icmp s then nf_queue_nr (n % 2 ^ 16) else nf_accept))
      × ((nf_ipaddr_show s).0 ≡ nf_accept)
      × ((nf_local_out_show s).0 ≡ nf_accept)
unfolding nf_blockpkt_handler nf_queue_pkt nf_ipaddr_show nf_local_out_show
verdicts_lem none n = (refl, refl, refl, refl)
verdicts_lem (some s) n = block_header s.ports s.iph n

-- Whatever the allocation and the registration give, unloading after loading leaves no hook, no memory
-- and no pointer behind, and loading succeeds exactly if it leaves the pointer set.
pub exit-init :
    (memory : Option ℕ) (ret : ℕ)
    → (nf_blockpkt_exit (nf_blockpkt_init memory ret unloaded).1 ≡ unloaded)
      × (((nf_blockpkt_init memory ret unloaded).0 == 0)
          ≡ not (is_none (nf_blockpkt_init memory ret unloaded).1.nf_blockpkt_ops))
unfolding nf_blockpkt_exit nf_blockpkt_init
exit-init none ret = (refl, refl)
exit-init (some p) ret = elim (Bool-cases (ret == 0)) [
  | inl good ↦ rw (good, ==_refl p) (refl, refl)
  | inr bad ↦ rw (bad, ==_refl p) (refl, bad)
]
