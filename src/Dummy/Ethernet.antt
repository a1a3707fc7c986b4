-- ===== src/Dummy/Ethernet.antt =====
-- linux-netdevice-driver-test/dummy-eth.c: the answers to ARP requests and ICMP echo requests, and the
-- counters.
pub mod Reflect
pub mod Processors
use linux_learn_demo_code.Base.{
  ℕ, ◌+◌, ◌-◌, ◌*◌, ◌%◌, ◌/◌, ◌^◌, Bool, true, false, ◌&&◌, ◌||◌, not, Option, none, some, List, [],
  ◌∷◌, ◌++◌, if◌then◌else◌, ltb, ◌==◌, take, drop, get_or, set, length, add_ulong,
}

-- `memcpy` from a place in a frame, and to one.
abbrev pub slice : ℕ → ℕ → List ℕ → List ℕ
slice i n bytes = take n (drop i bytes)

abbrev pub write : ℕ → List ℕ → List ℕ → List ℕ
write i xs bytes = take i bytes ++ (xs ++ drop (i + length xs) bytes)

-- Two bytes as they are read by `ntohs`.
abbrev pub ntohs_at : ℕ → List ℕ → ℕ
ntohs_at i bytes = get_or bytes i 0 * 256 + get_or bytes (i + 1) 0

-- `dummy_fake_mac`.
unfoldable pub fake_mac : List ℕ → List ℕ
fake_mac ip4 = 0x02 ∷ 0xde ∷ get_or ip4 0 0 ∷ get_or ip4 1 0 ∷ get_or ip4 2 0 ∷ get_or ip4 3 0 ∷ []

-- `dummy_arp_reply`: `none` is -EINVAL. `pskb_may_pull` succeeds on a frame that is long enough.
-- ETH_HLEN is 14, `struct arphdr` has 8 bytes, ARPOP_REQUEST is 1 and ARPOP_REPLY 2.
unfoldable pub arp_reply : List ℕ → Option (List ℕ)
unfolding fake_mac
arp_reply frame =
    if ltb (length frame) 42
    then none
    else if not (ntohs_at 20 frame == 1)
        || not (ntohs_at 16 frame == 0x0800)
        || not (get_or frame 18 0 == 6)
        || not (get_or frame 19 0 == 4)
    then none
    else let sha = slice 22 6 frame in
      let sip = slice 28 4 frame in
      let tip = slice 38 4 frame in
      let fake = fake_mac tip in
      let replied = write 20 (0 ∷ 2 ∷ []) frame in
      let with_sender = write 28 tip (write 22 fake replied) in
      let with_target = write 38 sip (write 32 sha with_sender) in
      some (write 6 fake (write 0 sha with_target))

-- `ip_fast_csum`, and `csum_fold` of `csum_partial`, of the kernel, over bytes, with the two bytes of
-- the sum as they lie in memory. `csum_behind` stands for the sum over a range, by its start and its
-- length, that does not lie within the frame: it depends on what memory holds there, and may be any.
pub record Checksums : Type 0 where
  pub ip_fast_csum : List ℕ → ℕ → ℕ × ℕ
  pub csum : List ℕ → ℕ × ℕ
  pub csum_behind : List ℕ → ℕ → ℕ → ℕ × ℕ

-- `dummy_icmp_reply`. The IP header starts at byte 14; IPPROTO_ICMP is 1, ICMP_ECHO 8 and ICMP_ECHOREPLY
-- 0. The length of the ICMP message is that of the IP header's field, on `unsigned int`.
unfoldable pub icmp_reply : Checksums → List ℕ → Option (List ℕ)
icmp_reply k frame =
    let ihl = get_or frame 14 0 % 16 * 4 in
    if ltb (length frame) 34
    then none
    else if not (get_or frame 23 0 == 1)
    then none
    else if ltb (length frame) (14 + ihl + 8)
    then none
    else if not (get_or frame (14 + ihl) 0 == 8)
    then none
    else let f₁ = write 6 (slice 0 6 frame) (write 0 (slice 6 6 frame) frame) in
      let f₂ = write 26 (slice 30 4 frame) (write 30 (slice 26 4 frame) f₁) in
      let f₃ = set f₂ (14 + ihl) 0 in
      let f₄ = write 24 (0 ∷ 0 ∷ []) f₃ in
      let header_sum = k.ip_fast_csum (drop 14 f₄) (get_or f₄ 14 0 % 16) in
      let f₅ = write 24 (header_sum.0 ∷ header_sum.1 ∷ []) f₄ in
      let icmp_len = (ntohs_at 16 f₅ + 2 ^ 32 - ihl) % 2 ^ 32 in
      let f₆ = write (14 + ihl + 2) (0 ∷ 0 ∷ []) f₅ in
      let message_sum =
        if ltb (length f₆) (14 + ihl + icmp_len)
        then k.csum_behind f₆ (14 + ihl) icmp_len
        else k.csum (slice (14 + ihl) icmp_len f₆) in
      some (write (14 + ihl + 2) (message_sum.0 ∷ message_sum.1 ∷ []) f₆)

-- `struct pcpu_dstats` of one processor.
pub record Dstats : Type 0 where
  pub rx_packets : ℕ
  pub rx_bytes : ℕ
  pub tx_packets : ℕ
  pub tx_bytes : ℕ

-- What `dummy_eth_rx` does with an skb: it is passed to `netif_rx` or freed, and the code returned is
-- 0 or -EINVAL.
pub data Received : Type 0 where
  netif_rx : List ℕ → Received
  dev_kfree_skb : Received

-- The reply to a frame by its type, ETH_P_ARP or ETH_P_IP.
unfoldable pub reply : Checksums → List ℕ → Option (List ℕ)
unfolding arp_reply icmp_reply
reply k frame =
    if ntohs_at 12 frame == 0x0806
    then arp_reply frame
    else if ntohs_at 12 frame == 0x0800
    then icmp_reply k frame
    else none

-- `dummy_eth_rx` for an skb that is not null; `has_dev` says whether its device is set.
unfoldable pub eth_rx : Checksums → Bool → List ℕ → Dstats → Received × Dstats
unfolding reply
eth_rx k has_dev frame s =
    if ltb (length frame) 14 then (dev_kfree_skb, s) else elim (reply k frame) [
      | none ↦ (dev_kfree_skb, s)
      | some f ↦ (
        netif_rx f,
        if has_dev
            then record s {
              rx_packets = add_ulong s.rx_packets 1;
              rx_bytes = add_ulong s.rx_bytes (length f);
            }
            else s,
      )
    ]

-- The counters of `dummy_xmit`.
unfoldable pub count_tx : ℕ → Dstats → Dstats
count_tx len s = record s {
  tx_packets = add_ulong s.tx_packets 1;
  tx_bytes = add_ulong s.tx_bytes len;
}

-- `dummy_get_stats64`: the sums over the processors, on top of what is there.
unfoldable pub get_stats64 : List Dstats → Dstats → Dstats
get_stats64 [] stats = stats
get_stats64 (s ∷ more) stats = get_stats64 more (record {
  rx_packets = add_ulong stats.rx_packets s.rx_packets;
  rx_bytes = add_ulong stats.rx_bytes s.rx_bytes;
  tx_packets = add_ulong stats.tx_packets s.tx_packets;
  tx_bytes = add_ulong stats.tx_bytes s.tx_bytes;
})
