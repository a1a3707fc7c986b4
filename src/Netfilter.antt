-- ===== src/Netfilter.antt =====
-- netfilter: the hooks of test1 to test4, and the life of the operations that test3 allocates.
pub mod Hooks
pub mod Userspace
pub mod Modules
pub mod Path
mod Tests
use linux_learn_demo_code.Base.{
  ℕ, ◌%◌, ◌/◌, ◌^◌, Bool, true, false, not, Option, none, some, List, [], ◌∷◌, if◌then◌else◌, ◌==◌,
}

-- The fields of `struct iphdr` that the hooks read, in the byte order of the host.
pub record IpHeader : Type 0 where
  pub version : ℕ
  pub protocol : ℕ
  pub saddr : ℕ
  pub daddr : ℕ

-- An skb: its IP header, if there is one, and the two ports of its transport header, if there is one.
pub record Skb : Type 0 where
  pub iph : Option IpHeader
  pub ports : Option (ℕ × ℕ)

-- NF_DROP, NF_ACCEPT and NF_QUEUE_NR of a queue, which lie in one word: the number of the queue is cut
-- to its lower 16 bits.
pub data Verdict : Type 0 where
  nf_drop nf_accept : Verdict
  nf_queue_nr : ℕ → Verdict

-- NIPQUAD of an address in the byte order of the host, on a little endian machine.
unfoldable pub nipquad : ℕ → List ℕ
nipquad a = (a / 2 ^ 24 % 256) ∷ (a / 2 ^ 16 % 256) ∷ (a / 2 ^ 8 % 256) ∷ (a % 256) ∷ []

-- What a hook prints of a packet.
pub record Line : Type 0 where
  pub source : List ℕ
  pub sport : ℕ
  pub destination : List ℕ
  pub dport : ℕ
  pub proto : ℕ

-- `nf_ipaddr_show`: the verdict, and the addresses that are printed.
unfoldable pub nf_ipaddr_show : Option Skb → Verdict × Option (List ℕ × List ℕ)
unfolding nipquad
nf_ipaddr_show none = (nf_accept, none)
nf_ipaddr_show (some skb) = elim skb.iph [
  | none ↦ (nf_accept, none)
  | some iph ↦
      if not (iph.version == 4)
      then (nf_accept, none)
      else (nf_accept, some (nipquad iph.saddr, nipquad iph.daddr))
]

-- The ports of a TCP or UDP packet; IPPROTO_TCP is 6 and IPPROTO_UDP 17.
abbrev pub ports_of : ℕ → Skb → ℕ × ℕ
ports_of protocol skb =
    let found : ℕ × ℕ = elim skb.ports [ none ↦ (0, 0) | some p ↦ p ] in
    if protocol == 6 then found else if protocol == 17 then found else (0, 0)

-- `nf_local_out_show`.
unfoldable pub nf_local_out_show : Option Skb → Verdict × Option Line
unfolding nipquad
nf_local_out_show none = (nf_accept, none)
nf_local_out_show (some skb) = elim skb.iph [
  | none ↦ (nf_accept, none)
  | some iph ↦
      if not (iph.version == 4)
      then (nf_accept, none)
      else let ports = ports_of iph.protocol skb in
        (
          nf_accept,
          some (record {
            source = nipquad iph.saddr;
            sport = ports.0;
            destination = nipquad iph.daddr;
            dport = ports.1;
            proto = iph.protocol;
          }),
        )
]

-- `nf_blockpkt_handler`; IPPROTO_ICMP is 1.
unfoldable pub nf_blockpkt_handler : Option Skb → Verdict
nf_blockpkt_handler none = nf_accept
nf_blockpkt_handler (some skb) = elim skb.iph [
  | none ↦ nf_accept
  | some iph ↦
      if not (iph.version == 4)
      then nf_accept
      else if iph.protocol == 1
      then nf_drop
      else if iph.protocol == 17
      then nf_accept
      else if iph.protocol == 6
      then nf_accept
      else nf_accept
]

-- `nf_queue_pkt` with its parameter `queue_num`.
unfoldable pub nf_queue_pkt : ℕ → Option Skb → Verdict
nf_queue_pkt queue_num none = nf_accept
nf_queue_pkt queue_num (some skb) = elim skb.iph [
  | none ↦ nf_accept
  | some iph ↦
      if not (iph.version == 4)
      then nf_accept
      else if iph.protocol == 1
      then nf_queue_nr (queue_num % 2 ^ 16)
      else nf_accept
]

-- The state of test3: `nf_blockpkt_ops`, and what the kernel holds: the hooks that are registered and
-- the memory that was allocated and not freed.
pub record Module : Type 0 where
  pub nf_blockpkt_ops : Option ℕ
  pub hooks : List ℕ
  pub allocated : List ℕ

abbrev pub unloaded : Module
unloaded = record { nf_blockpkt_ops = none; hooks = []; allocated = [] }

-- The list without one address.
abbrev pub dropped : ℕ → List ℕ → List ℕ
dropped p [] = []
dropped p (q ∷ qs) = if q == p then dropped p qs else q ∷ dropped p qs

abbrev pub kfree : ℕ → Module → Module
kfree p m = record m { allocated = dropped p m.allocated }

-- `nf_blockpkt_init`, with the results of `kmalloc` and of `nf_register_net_hook`, 0 for success: the
-- error, 12 for ENOMEM.
unfoldable pub nf_blockpkt_init : Option ℕ → ℕ → Module → ℕ × Module
nf_blockpkt_init none ret m = (12, record m { nf_blockpkt_ops = none })
nf_blockpkt_init (some p) ret m =
    let m₁ = record m { nf_blockpkt_ops = some p; allocated = p ∷ m.allocated } in
    if not (ret == 0)
    then (ret, record (kfree p m₁) { nf_blockpkt_ops = none })
    else (0, record m₁ { hooks = p ∷ m₁.hooks })

-- `nf_blockpkt_exit`.
unfoldable pub nf_blockpkt_exit : Module → Module
nf_blockpkt_exit m = elim m.nf_blockpkt_ops [
  | none ↦ m
  | some p ↦ record (kfree p (record m { hooks = dropped p m.hooks })) { nf_blockpkt_ops = none }
]
