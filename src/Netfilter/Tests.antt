-- ===== src/Netfilter/Tests.antt =====
-- The theorems on the hooks at concrete packets.
use linux_learn_demo_code.Base.{
  ℕ, List, [], ◌∷◌, not, Option, none, some, ◌==◌, is_none, ◌≡◌, ◌≢◌, refl,
}
use linux_learn_demo_code.Netfilter.{
  Verdict, Skb, nf_drop, nf_accept, nf_queue_nr, unloaded, nf_blockpkt_init, nf_blockpkt_exit,
}
use linux_learn_demo_code.Netfilter.Userspace.{packet_cb, packet_cb_lem}
use linux_learn_demo_code.Netfilter.Hooks.{exit-init}
use linux_learn_demo_code.Netfilter.Path.{
  test1, test3, test4, HookOps, Kernel, incoming, outgoing, incoming_lem,
}

abbrev ping : Option Skb
ping = some (record {
  iph = some (record { version = 4; protocol = 1; saddr = 1; daddr = 2 });
  ports = none;
})

exit-init_example :
    (nf_blockpkt_exit (nf_blockpkt_init (some 9) 0 unloaded).1 ≡ unloaded)
    × (((nf_blockpkt_init (some 9) 0 unloaded).0 == 0)
        ≡ not (is_none (nf_blockpkt_init (some 9) 0 unloaded).1.nf_blockpkt_ops))
exit-init_example = exit-init (some 9) 0

-- An ICMP echo request with no options in its IPv4 header.
abbrev echo : List ℕ
echo =
    0x45 ∷ 0 ∷ 0 ∷ 28 ∷ 0 ∷ 0 ∷ 0 ∷ 0 ∷ 64 ∷ 1 ∷ 0 ∷ 0 ∷ 10 ∷ 0 ∷ 0 ∷ 1 ∷ 10 ∷ 0 ∷ 0 ∷ 2 ∷ 8 ∷ 0
    ∷ []

packet_cb_lem_example :
    (packet_cb (record { packet_id = some 5; payload = none })
      ≡ some (record { id = 5; verdict = nf_accept; shown = none }))
    × (packet_cb (record { packet_id = some 5; payload = some echo })
        ≡ some (record {
          id = 5;
          verdict = nf_accept;
          shown =
              some (record {
                type = 8;
                code = 0;
                src = 10 ∷ 0 ∷ 0 ∷ 1 ∷ [];
                dst = 10 ∷ 0 ∷ 0 ∷ 2 ∷ [];
              });
        }))
packet_cb_lem_example = packet_cb_lem (some 5) echo

-- A kernel that gives the first verdict that is not NF_ACCEPT.
abbrev first_verdict : List HookOps → Option Skb → Verdict
first_verdict [] s = nf_accept
first_verdict (h ∷ hs) s = elim (h.hook s) [
  | nf_drop ↦ nf_drop
  | nf_accept ↦ first_verdict hs s
  | nf_queue_nr n ↦ nf_queue_nr n
]

accepts :
    (h : HookOps) (hs : List HookOps) (s : Option Skb)
    → h.hook s ≡ nf_accept
    → first_verdict (h ∷ hs) s ≡ first_verdict hs s
accepts h hs s e = rw e

settles :
    (h : HookOps) (hs : List HookOps) (s : Option Skb)
    → h.hook s ≢ nf_accept
    → first_verdict (h ∷ hs) s ≡ h.hook s
settles h hs s ne = decide (h.hook s) refl
  where
    decide : (v : Verdict) → h.hook s ≡ v → first_verdict (h ∷ hs) s ≡ h.hook s
    decide nf_drop e = rw e refl
    decide nf_accept e = absurd (ne e)
    decide (nf_queue_nr n) e = rw e refl

abbrev kernel : Kernel
kernel = record { run = first_verdict; none_left = λ s. refl; goes_on = accepts; stops = settles }

-- A packet of ICMP meets test3 although test4 was loaded first.
incoming_lem_example :
    (incoming kernel 0 (test4 ∷ test1 ∷ test3 ∷ []) ping ≡ nf_drop)
    × (outgoing kernel 0 (test4 ∷ test1 ∷ test3 ∷ []) ping ≡ nf_accept)
incoming_lem_example = incoming_lem kernel 0 ping (test4 ∷ test1 ∷ test3 ∷ [])
