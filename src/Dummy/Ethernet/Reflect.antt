-- ===== src/Dummy/Ethernet/Reflect.antt =====
-- The replies of the dummy ethernet device, on frames given by their fields.
use linux_learn_demo_code.Base.{
  ℕ, zero, suc, ◌*◌, ◌-◌, ◌%◌, ◌/◌, ◌==◌, ◌≢◌, ◌<◌, ◌^◌, take, ◌≤◌, le→ltb, ◌+◌, false, none, some,
  List, [], ◌∷◌, ◌++◌, ◌≡◌, arith, length, ltb,
}
use linux_learn_demo_code.Dummy.Ethernet.{Checksums, fake_mac, arp_reply, icmp_reply}

-- An Ethernet address, and an IPv4 address.
pub record Mac : Type 0 where
  pub m0 : ℕ
  pub m1 : ℕ
  pub m2 : ℕ
  pub m3 : ℕ
  pub m4 : ℕ
  pub m5 : ℕ

pub record Ip4 : Type 0 where
  pub i0 : ℕ
  pub i1 : ℕ
  pub i2 : ℕ
  pub i3 : ℕ

abbrev pub mac_bytes : Mac → List ℕ
mac_bytes m = m.m0 ∷ m.m1 ∷ m.m2 ∷ m.m3 ∷ m.m4 ∷ m.m5 ∷ []

abbrev pub ip_bytes : Ip4 → List ℕ
ip_bytes i = i.i0 ∷ i.i1 ∷ i.i2 ∷ i.i3 ∷ []

-- The address that stands for a peer.
abbrev pub peer : Ip4 → Mac
peer i = record { m0 = 0x02; m1 = 0xde; m2 = i.i0; m3 = i.i1; m4 = i.i2; m5 = i.i3 }

-- An ARP frame for IPv4 on a link of the type `h`, with the operation `op` and what follows it.
abbrev pub arp_frame : Mac → Mac → ℕ × ℕ → ℕ → Mac → Ip4 → Mac → Ip4 → List ℕ → List ℕ
arp_frame dst src h op sha sip tha tip rest =
    mac_bytes dst
    ++ (mac_bytes src
        ++ (0x08
            ∷ 0x06
            ∷ h.0
            ∷ h.1
            ∷ 0x08
            ∷ 0x00
            ∷ 6
            ∷ 4
            ∷ op / 256
            ∷ op % 256
            ∷ (mac_bytes sha ++ (ip_bytes sip ++ (mac_bytes tha ++ (ip_bytes tip ++ rest))))))

-- A number reached by counting up from another.
abbrev counted : ℕ → ℕ → ℕ
counted zero n = n
counted (suc k) n = suc (counted k n)

counted-le : (k n : ℕ) → k ≤ counted k n
counted-le zero n = omega arith
counted-le (suc k) n = omega (arith, counted-le k n)

long : (k n : ℕ) → ltb (counted k n) k ≡ false
long k n = le→ltb (counted k n) k (counted-le k n)

-- An ARP request for an IPv4 address is answered by a reply to the one who asked, from the address
-- that stands for the peer and in its name, with the rest of the frame as it was; a frame with any
-- other operation, the reply's own included, is refused.
pub arp_reply_lem :
    (dst src : Mac) (h : ℕ × ℕ) (op : ℕ) (sha : Mac) (sip : Ip4) (tha : Mac) (tip : Ip4)
    (rest : List ℕ)
    → op ≢ 1
    → (arp_reply (arp_frame dst src h 1 sha sip tha tip rest)
        ≡ some (arp_frame sha (peer tip) h 2 (peer tip) tip sha sip rest))
      × (arp_reply (arp_frame sha (peer tip) h 2 (peer tip) tip sha sip rest) ≡ none)
      × (arp_reply (arp_frame dst src h op sha sip tha tip rest) ≡ none)
unfolding arp_reply fake_mac
arp_reply_lem dst src h op sha sip tha tip rest ne =
    let other : (op / 256 * 256 + op % 256 == 1) ≡ false = ground (arith, ne) in
    (rw (long 42 (length rest)), rw (long 42 (length rest)), rw (long 42 (length rest), other))

-- The fields of an IPv4 header of 20 bytes that an echo leaves as they are.
pub record Header : Type 0 where
  pub tos : ℕ
  pub total : ℕ × ℕ
  pub ident : ℕ × ℕ
  pub frag : ℕ × ℕ
  pub ttl : ℕ

-- The IPv4 packet of an ICMP message: its header with the checksum and the addresses, then type, code,
-- checksum, the four bytes of the identifier and the sequence number, and the data.
abbrev pub icmp_packet : Header → ℕ × ℕ → Ip4 → Ip4 → ℕ → ℕ → ℕ × ℕ → Ip4 → List ℕ → List ℕ
icmp_packet h check saddr daddr type code sum ids bytes =
    0x45
    ∷ h.tos
    ∷ h.total.0
    ∷ h.total.1
    ∷ h.ident.0
    ∷ h.ident.1
    ∷ h.frag.0
    ∷ h.frag.1
    ∷ h.ttl
    ∷ 1
    ∷ check.0
    ∷ check.1
    ∷ (ip_bytes saddr
        ++ (ip_bytes daddr ++ (type ∷ code ∷ sum.0 ∷ sum.1 ∷ (ip_bytes ids ++ bytes))))

abbrev pub ip_frame : Mac → Mac → List ℕ → List ℕ
ip_frame dst src packet = mac_bytes dst ++ (mac_bytes src ++ (0x08 ∷ 0x00 ∷ packet))

-- The two checksums of the reply.
abbrev pub header_sum : Checksums → Header → Ip4 → Ip4 → ℕ → ℕ × ℕ → Ip4 → List ℕ → ℕ × ℕ
header_sum k h saddr daddr code sum ids bytes =
    k.ip_fast_csum (icmp_packet h (0, 0) daddr saddr 0 code sum ids bytes) 5

abbrev pub message_sum : Checksums → Header → ℕ → Ip4 → List ℕ → ℕ × ℕ
message_sum k h code ids bytes =
    k.csum (take (h.total.0 * 256 + h.total.1 - 20) (0 ∷ code ∷ 0 ∷ 0 ∷ (ip_bytes ids ++ bytes)))

-- An echo request in an IPv4 packet without options, whose total length covers its header and ends
-- within the frame, is answered by the same frame with both pairs of addresses exchanged, the type of an
-- echo reply, and the two checksums computed anew, that of the message over the bytes that the total
-- length gives it; the answer itself is refused.
pub icmp_reply_lem :
    (k : Checksums) (dst src : Mac) (h : Header) (check : ℕ × ℕ) (saddr daddr : Ip4) (code : ℕ)
    (sum : ℕ × ℕ) (ids : Ip4) (bytes : List ℕ)
    → h.total.0 < 256
    → h.total.1 < 256
    → 20 ≤ h.total.0 * 256 + h.total.1
    → h.total.0 * 256 + h.total.1 ≤ 28 + length bytes
    → let answer : List ℕ = ip_frame src dst (
        icmp_packet h
          (header_sum k h saddr daddr code sum ids bytes)
          daddr
          saddr
          0
          code
          (message_sum k h code ids bytes)
          ids
          bytes) in
      (icmp_reply k (ip_frame dst src (icmp_packet h check saddr daddr 8 code sum ids bytes))
        ≡ some answer)
      × (icmp_reply k answer ≡ none)
unfolding icmp_reply
icmp_reply_lem k dst src h check saddr daddr code sum ids bytes b0 b1 covers within =
    let n = h.total.0 * 256 + h.total.1 in
    let len : (n + 2 ^ 32 - 20) % 2 ^ 32 ≡ n - 20 = omega (arith, b0, b1, covers) in
    let fits : ltb (counted 42 (length bytes)) (34 + (n - 20)) ≡ false =
      le→ltb _ _ (omega (arith, covers, within)) in
    (
      rw (long 34 (counted 8 (length bytes)), long 42 (length bytes), len, fits),
      rw (long 34 (counted 8 (length bytes)), long 42 (length bytes)),
    )
