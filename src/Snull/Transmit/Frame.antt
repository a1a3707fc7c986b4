-- ===== src/Snull/Transmit/Frame.antt =====
-- What `snull_hw_tx` does to a frame: the third octets of the two addresses, and the checksum.
use linux_learn_demo_code.Base.{
  ℕ, zero, suc, if◌then◌else◌, false, ◌<◌, ◌≤◌, Bool, true, List, length, set, get_or, ◌==◌, ◌≡◌,
  ◌≢◌, refl, sym, ◌∙◌, ap, arith, length-set, get_or-set_self, get_or-set_ne, bit_xor, replicate,
  length-append, length-replicate, ◌-◌, ℕ_discrete,
}
use linux_learn_demo_code.Snull.Transmit.{flip, rewrite_header, pad, eth_zlen}

-- Whether two functions have the same values at the numbers below a bound.
same_values : (ℕ → ℕ) → (ℕ → ℕ) → ℕ → Bool
same_values f g zero = true
same_values f g (suc bound) =
    let rest = same_values f g bound in if f bound == g bound then rest else false

same_values_lem : (f g : ℕ → ℕ) (bound m : ℕ) → m < bound → same_values f g bound ≡ true → f m ≡ g m
unfolding same_values
same_values_lem f g zero m lt same = absurd (omega arith)
same_values_lem f g (suc bound) m lt same = elim (ℕ_discrete m bound) [
  | yes here ↦ ground (arith, here)
  | no below ↦ same_values_lem f g bound m (omega (arith, below)) (ground (arith, same))
]

-- Flipping the lowest bit of a byte twice gives the byte.
pub flip_twice : (x : ℕ) → x < 256 → bit_xor (bit_xor x 1) 1 ≡ x
unfolding same_values
flip_twice x h = same_values_lem (λ b. bit_xor (bit_xor b 1) 1) (λ b. b) 256 x h refl

pub length-rewrite_header :
    (csum : List ℕ → ℕ → List ℕ) (buf : List ℕ) → length (rewrite_header csum buf) ≡ length buf
unfolding rewrite_header
length-rewrite_header csum buf = simp length-set

-- The bytes that the rewriting touches.
abbrev pub IsHeld : ℕ → Type 0
IsHeld i = (i ≢ 24) × (i ≢ 25) × (i ≢ 28) × (i ≢ 32)

-- The writes of the checksum pass the other bytes on.
rewrite_header-flip :
    (csum : List ℕ → ℕ → List ℕ) (buf : List ℕ) (i : ℕ)
    → i ≢ 24
    → i ≢ 25
    → get_or (rewrite_header csum buf) i 0 ≡ get_or (flip 32 (flip 28 buf)) i 0
unfolding rewrite_header
rewrite_header-flip csum buf i n24 n25 =
    get_or-set_ne _ 25 i _ 0 (λ q. n25 (sym q))
    ∙ get_or-set_ne _ 24 i _ 0 (λ q. n24 (sym q))
    ∙ get_or-set_ne _ 25 i _ 0 (λ q. n25 (sym q))
    ∙ get_or-set_ne _ 24 i _ 0 (λ q. n24 (sym q))

-- Every byte but the two of the checksum and the two third octets stays as it was.
pub rewrite_header_keeps :
    (csum : List ℕ → ℕ → List ℕ) (buf : List ℕ) (i : ℕ)
    → IsHeld i
    → get_or (rewrite_header csum buf) i 0 ≡ get_or buf i 0
unfolding flip
rewrite_header_keeps csum buf i h =
    rewrite_header-flip csum buf i h.0 h.1
    ∙ get_or-set_ne _ 32 i _ 0 (λ q. h.3 (sym q))
    ∙ get_or-set_ne _ 28 i _ 0 (λ q. h.2 (sym q))

rewrite_header_octets :
    (csum : List ℕ → ℕ → List ℕ) (buf : List ℕ)
    → 34 ≤ length buf
    → (get_or (rewrite_header csum buf) 28 0 ≡ bit_xor (get_or buf 28 0) 1)
      × (get_or (rewrite_header csum buf) 32 0 ≡ bit_xor (get_or buf 32 0) 1)
unfolding flip
rewrite_header_octets csum buf h = (
  rewrite_header-flip csum buf 28 (omega arith) (omega arith)
      ∙ get_or-set_ne first 32 28 (bit_xor (get_or first 32 0) 1) 0 (omega arith)
      ∙ get_or-set_self buf 28 third 0 (omega arith),
  rewrite_header-flip csum buf 32 (omega arith) (omega arith)
      ∙ get_or-set_self first 32 (bit_xor (get_or first 32 0) 1) 0
          (omega (arith, length-set buf 28 third))
      ∙ ap (λ x. bit_xor x 1) (get_or-set_ne buf 28 32 third 0 (omega arith)),
)
  where
    third : ℕ
    third = bit_xor (get_or buf 28 0) 1

    first : List ℕ
    first = set buf 28 third

-- The way there and back: a frame of at least 34 bytes that is rewritten twice has its own
-- addresses again, and so it differs from what it was at most in the checksum.
pub rewrite_header_twice :
    (csum : List ℕ → ℕ → List ℕ) (buf : List ℕ) (i : ℕ)
    → 34 ≤ length buf
    → get_or buf 28 0 < 256
    → get_or buf 32 0 < 256
    → i ≢ 24
    → i ≢ 25
    → get_or (rewrite_header csum (rewrite_header csum buf)) i 0 ≡ get_or buf i 0
rewrite_header_twice csum buf i h b28 b32 n24 n25 = elim (ℕ_discrete i 28) [
  | yes e ↦ rw e (
      (rewrite_header_octets csum (rewrite_header csum buf) (rw length-rewrite_header h)).0
      ∙ ap (λ x. bit_xor x 1) (rewrite_header_octets csum buf h).0
      ∙ flip_twice (get_or buf 28 0) b28)
  | no n28 ↦ elim (ℕ_discrete i 32) [
    | yes e ↦ rw e (
        (rewrite_header_octets csum (rewrite_header csum buf) (rw length-rewrite_header h)).1
        ∙ ap (λ x. bit_xor x 1) (rewrite_header_octets csum buf h).1
        ∙ flip_twice (get_or buf 32 0) b32)
    | no n32 ↦
        rewrite_header_keeps csum _ i (n24, n25, n28, n32)
        ∙ rewrite_header_keeps csum buf i (n24, n25, n28, n32)
  ]
]

-- A frame that is handed to the device has at least 60 bytes, and a frame with that many is handed
-- over as it is.
pub length-pad : (bytes : List ℕ) → eth_zlen ≤ length (pad bytes)
unfolding pad
length-pad bytes = ground (
  arith,
  length-append bytes (replicate (eth_zlen - length bytes) 0),
  length-replicate {A = ℕ} (eth_zlen - length bytes) 0,
)
