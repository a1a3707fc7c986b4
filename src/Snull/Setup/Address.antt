-- ===== src/Snull/Setup/Address.antt =====
-- Hardware addresses and the limits of the configuration.
use linux_learn_demo_code.Base.{
  ℕ, ◌/◌, ◌%◌, ◌≤◌, ◌<◌, true, false, none, List, ◌∷◌, ◌++◌, ltb, ◌||◌, ◌==◌, ◌≡◌, ◌≢◌, refl, arith,
  ◌⊎◌, inl, inr, Bool-cases, ==_iff,
}
use linux_learn_demo_code.Base.Int.{ℤ, pos, negsuc}
use linux_learn_demo_code.Snull.Types.{Dev, sn0, sn1, other, World, priv, put}
use linux_learn_demo_code.Snull.Setup.{
  hw_addr, header, rebuild_header, config, change_mtu, IfState, IfMap, success, ebusy, eopnotsupp,
  einval,
}

-- A frame that a device heads with no address given carries its own address as the source and its
-- twin's address, as `snull_open` sets them, as the destination; the type follows, and the data.
pub header-other :
    (d : Dev) (type : ℕ) (bytes : List ℕ)
    → header (hw_addr d) type none none bytes
      ≡ hw_addr (other d) ++ (hw_addr d ++ ((type / 256 % 256) ∷ (type % 256) ∷ bytes))
unfolding header hw_addr
header-other sn0 type bytes = refl
header-other sn1 type bytes = refl

-- Building the header of such a frame anew changes nothing.
pub rebuild_header-header :
    (d : Dev) (type : ℕ) (bytes : List ℕ)
    → rebuild_header (hw_addr d) (header (hw_addr d) type none none bytes)
      ≡ header (hw_addr d) type none none bytes
unfolding header rebuild_header hw_addr
rebuild_header-header sn0 type bytes = refl
rebuild_header-header sn1 type bytes = refl

out_of_range : (n : ℕ) → (ltb n 68 || ltb 1500 n) ≡ true → (n < 68) ⊎ (1500 < n)
out_of_range n out = ground arith

-- The values that the driver refuses.
abbrev pub IsOutOfRange : ℤ → Type 0
IsOutOfRange (pos n) = (n < 68) ⊎ (1500 < n)
IsOutOfRange (negsuc n) = Unit

priv-mtu :
    (d : Dev) (n : ℕ) (w : World)
    → (let v = priv w d in priv (put d (record v { mtu = n }) w) d).mtu ≡ n
priv-mtu sn0 n w = refl
priv-mtu sn1 n w = refl

-- A change of the MTU is accepted exactly in the range from 68 to 1500; then the device has the new
-- MTU, and otherwise the driver is as it was.
pub change_mtu_lem :
    (d : Dev) (m : ℤ) (w : World)
    → ((n : ℕ) × (m ≡ pos n)
        × (68 ≤ n)
        × (n ≤ 1500)
        × ((change_mtu d m w).0 ≡ success)
        × ((priv (change_mtu d m w).1 d).mtu ≡ n))
      ⊎ (IsOutOfRange m × (change_mtu d m w ≡ (einval, w)))
unfolding change_mtu
change_mtu_lem d (negsuc n) w = inr (tt, refl)
change_mtu_lem d (pos n) w = elim (Bool-cases (ltb n 68 || ltb 1500 n)) [
  | inl out ↦ inr (out_of_range n out, rw (change_mtu, out))
  | inr fits ↦ inl (
    n,
    refl,
    ground arith,
    ground arith,
    rw (change_mtu, fits),
    rw (change_mtu, fits) (priv-mtu d n w),
  )
]

-- The interrupt line is set to the new one, and nothing else changes, exactly if the interface is down
-- and keeps its I/O address; a change that is refused leaves everything as it was.
pub config_lem :
    (s : IfState) (m : IfMap)
    → ((s.is_up ≡ false)
        × (m.base_addr ≡ s.base_addr)
        × (config s m ≡ (success, record s { irq = m.irq })))
      ⊎ (((s.is_up ≡ true) × (config s m ≡ (ebusy, s)))
          ⊎ ((s.is_up ≡ false) × (m.base_addr ≢ s.base_addr) × (config s m ≡ (eopnotsupp, s))))
unfolding config
config_lem s m = elim (Bool-cases s.is_up) [
  | inl up ↦ inr (inl (up, rw (config, up)))
  | inr down ↦ elim (Bool-cases (m.base_addr == s.base_addr)) [
    | inl same ↦ inl (down, (==_iff m.base_addr s.base_addr).0 same, ground arith)
    | inr moved ↦ inr (inr (down, ground arith, ground arith))
  ]
]
