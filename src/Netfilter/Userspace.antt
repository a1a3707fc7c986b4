-- ===== src/Netfilter/Userspace.antt =====
-- netfilter/test4/nfqueue_userspace.c: the program that decides on the queued packets.
pub mod Program
use linux_learn_demo_code.Base.{
  ℕ, zero, suc, ◌+◌, ◌-◌, ◌*◌, ◌%◌, ◌^◌, Bool, true, false, not, ◌&&◌, Option, none, some, List, [],
  ◌∷◌, ◌++◌, if◌then◌else◌, ltb, ◌==◌, get_elem?, get_or, length, ◌≡◌, refl, arith,
}
use linux_learn_demo_code.Netfilter.{Verdict, nf_accept}

-- A packet as `nfq_get_msg_packet_hdr` and `nfq_get_payload` of the library give it: its number, and its
-- bytes, unless the calls fail.
pub record Queued : Type 0 where
  pub packet_id : Option ℕ
  pub payload : Option (List ℕ)

-- Of an ICMP packet the type and the code that are printed, and the addresses, as they lie in memory,
-- that are given to `inet_ntoa`; that function writes each text to the same buffer.
pub record Icmp : Type 0 where
  pub type : ℕ
  pub code : ℕ
  pub src : List ℕ
  pub dst : List ℕ

-- What the callback comes to: the number and the verdict that are given to `nfq_set_verdict`, and what
-- was printed.
pub record Decision : Type 0 where
  pub id : ℕ
  pub verdict : Verdict
  pub shown : Option Icmp

infixl 5 ◌>>=◌
abbrev ◌>>=◌ {ℓ κ} : {A : Type ℓ} {B : Type κ} → Option A → (A → Option B) → Option B
none >>= f = none
some a >>= f = f a

-- Four bytes of the payload.
abbrev four : List ℕ → ℕ → Option (List ℕ)
four bytes i = do
  a ← get_elem? bytes i
  b ← get_elem? bytes (i + 1)
  c ← get_elem? bytes (i + 2)
  d ← get_elem? bytes (i + 3)
  some (a ∷ b ∷ c ∷ d ∷ [])

-- The addresses, the type and the code of an ICMP packet whose header starts at a byte.
unfoldable pub read_fields : List ℕ → ℕ → Option Icmp
read_fields bytes at_icmp = do
  src ← four bytes 12
  dst ← four bytes 16
  type ← get_elem? bytes at_icmp
  code ← get_elem? bytes (at_icmp + 1)
  some (record { type = type; code = code; src = src; dst = dst })

-- The ICMP packet in the payload, if it is one; `none` is a read behind the end of the payload.
unfoldable pub read_icmp : List ℕ → Option (Option Icmp)
unfolding read_fields
read_icmp bytes = do
  protocol ← get_elem? bytes 9
  first ← get_elem? bytes 0
  elim (protocol == 1) [
    | false ↦ some none
    | true ↦ do icmp ← read_fields bytes (first % 16 * 4); some (some icmp)
  ]

-- `packet_cb`; -1 for a packet with no number is 2 ^ 32 - 1 as `nfq_set_verdict` takes it.
unfoldable pub packet_cb : Queued → Option Decision
unfolding read_icmp
packet_cb p =
    let id : ℕ = elim p.packet_id [ none ↦ 2 ^ 32 - 1 | some n ↦ n ] in
    elim p.payload [
      | none ↦ some (record { id = id; verdict = nf_accept; shown = none })
      | some bytes ↦ do
        shown ← read_icmp bytes
        some (record { id = id; verdict = nf_accept; shown = shown })
    ]

-- How many bytes of a payload the callback needs: those up to the protocol, and of an ICMP packet the
-- addresses, the type and the code.
abbrev pub needed : List ℕ → ℕ
needed bytes =
    if (get_or bytes 9 0 == 1) && ltb 9 (length bytes)
    then (let k = get_or bytes 0 0 % 16 * 4 + 2 in if ltb k 20 then 20 else k)
    else 10

get_elem?_lem :
    (bytes : List ℕ) (i : ℕ)
    → get_elem? bytes i ≡ (if ltb i (length bytes) then some (get_or bytes i 0) else none)
get_elem?_lem [] i = ground arith
get_elem?_lem (b ∷ bytes) zero = ground arith
get_elem?_lem (b ∷ bytes) (suc i) = ground (arith, get_elem?_lem bytes i)

four_lem :
    (bytes : List ℕ) (i : ℕ)
    → four bytes i ≡ (
        if ltb (i + 3) (length bytes)
        then some (
            get_or bytes i 0
            ∷ get_or bytes (i + 1) 0
            ∷ get_or bytes (i + 2) 0
            ∷ get_or bytes (i + 3) 0
            ∷ [])
        else none)
four_lem bytes i = ground (
  arith,
  get_elem?_lem bytes i,
  get_elem?_lem bytes (i + 1),
  get_elem?_lem bytes (i + 2),
  get_elem?_lem bytes (i + 3),
)

-- What is shown of an ICMP packet whose header starts at a byte.
abbrev pub icmp_at : List ℕ → ℕ → Icmp
icmp_at bytes k = record {
  type = get_or bytes k 0;
  code = get_or bytes (k + 1) 0;
  src =
      get_or bytes 12 0
      ∷ get_or bytes (12 + 1) 0
      ∷ get_or bytes (12 + 2) 0
      ∷ get_or bytes (12 + 3) 0
      ∷ [];
  dst =
      get_or bytes 16 0
      ∷ get_or bytes (16 + 1) 0
      ∷ get_or bytes (16 + 2) 0
      ∷ get_or bytes (16 + 3) 0
      ∷ [];
}

read_fields_lem :
    (bytes : List ℕ) (k : ℕ)
    → read_fields bytes k ≡ (
        if ltb (length bytes) (if ltb (k + 2) 20 then 20 else k + 2)
        then none
        else some (icmp_at bytes k))
unfolding read_fields
read_fields_lem bytes k = ground (
  arith,
  four_lem bytes 12,
  four_lem bytes 16,
  get_elem?_lem bytes k,
  get_elem?_lem bytes (k + 1),
)

read_icmp_lem :
    (bytes : List ℕ)
    → read_icmp bytes ≡ (
        if ltb (length bytes) (needed bytes)
        then none
        else some (
            if get_or bytes 9 0 == 1
            then some (icmp_at bytes (get_or bytes 0 0 % 16 * 4))
            else none))
unfolding read_icmp
read_icmp_lem bytes = ground (
  arith,
  get_elem?_lem bytes 9,
  get_elem?_lem bytes 0,
  read_fields_lem bytes (get_or bytes 0 0 % 16 * 4),
)

-- The number that is given to `nfq_set_verdict`.
abbrev pub id_of : Option ℕ → ℕ
id_of none = 2 ^ 32 - 1
id_of (some n) = n

-- The callback accepts every packet, whether or not `nfq_get_payload` gives its bytes, by the number it
-- came with, -1 if it came with none; of an ICMP packet it prints type and code and gives the
-- addresses to `inet_ntoa`, of any other packet and of one without a payload nothing. But it reads
-- outside the payload exactly if that has fewer bytes than it needs, which it does not check.
pub packet_cb_lem :
    (number : Option ℕ) (bytes : List ℕ)
    → (packet_cb (record { packet_id = number; payload = none })
        ≡ some (record { id = id_of number; verdict = nf_accept; shown = none }))
      × (packet_cb (record { packet_id = number; payload = some bytes }) ≡ (
          if ltb (length bytes) (needed bytes)
          then none
          else some (record {
            id = id_of number;
            verdict = nf_accept;
            shown =
                if get_or bytes 9 0 == 1
                then some (icmp_at bytes (get_or bytes 0 0 % 16 * 4))
                else none;
          })))
unfolding packet_cb
packet_cb_lem none bytes = (refl, ground (arith, read_icmp_lem bytes))
packet_cb_lem (some n) bytes = (refl, ground (arith, read_icmp_lem bytes))
