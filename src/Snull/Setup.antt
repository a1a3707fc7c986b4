-- ===== src/Snull/Setup.antt =====
-- snull/snull.c:101-133, 204-262, 584-637: pools, opening and closing, configuration, headers.
pub mod Fields
pub mod Pools
pub mod Address
use linux_learn_demo_code.Base.{
  ℕ, zero, suc, ◌+◌, ◌/◌, ◌%◌, Bool, true, false, ◌||◌, not, Option, none, some, List, [], ◌∷◌,
  ◌++◌, set, get_or, drop, if◌then◌else◌, ◌==◌, bit_xor,
}
use linux_learn_demo_code.Base.Int.{ℤ, pos, negsuc, below, above}
use linux_learn_demo_code.Snull.Types.{
  Dev, sn0, sn1, Stats, NetDevice, no_status, World, Env, priv, put, store, log, set_stopped,
  napi_enable, napi_disable,
}

-- One packet of `snull_setup_pool`. The bytes that `kmalloc` gives are not initialised.
abbrev pub add_packet : Dev → ℕ → World → World
add_packet d p w =
    let v = priv w d in
    let k = w.packets p in
    put d (record v { ppool = some p })
      (record w { packets = store w.packets p (record k { dev = d; next = v.ppool }) })

-- The loop of `snull_setup_pool`, with the rounds left and the results of the calls of `kmalloc`,
-- `none` for a null pointer.
unfoldable pub setup_loop : ℕ → Dev → List (Option ℕ) → World → World
setup_loop zero d ps w = w
setup_loop (suc n) d [] w = w
setup_loop (suc n) d (none ∷ ps) w = w
setup_loop (suc n) d (some p ∷ ps) w = setup_loop n d ps (add_packet d p w)

-- `snull_setup_pool`.
unfoldable pub setup_pool : ℕ → Dev → List (Option ℕ) → World → World
setup_pool pool_size d ps w =
    let v = priv w d in setup_loop pool_size d ps (put d (record v { ppool = none }) w)

-- `snull_init`: the fields of the device that the driver uses, with the private ones cleared. `ether_setup`
-- of the kernel sets the MTU to 1500.
abbrev pub cleared : NetDevice → NetDevice
cleared v = record v {
  stats = record {
    rx_packets = 0;
    rx_bytes = 0;
    tx_packets = 0;
    tx_bytes = 0;
    tx_errors = 0;
    rx_dropped = 0;
  };
  status = no_status;
  ppool = none;
  rx_queue = none;
  rx_int_enabled = true;
  tx_packetlen = 0;
  tx_packetdata = [];
  skb = none;
  locked = false;
  mtu = 1500;
}

unfoldable pub init_dev : ℕ → Dev → List (Option ℕ) → World → World
init_dev pool_size d ps w = setup_pool pool_size d ps (put d (cleared (priv w d)) w)

-- `snull_teardown_pool`: the packets that are given to `kfree`, in order; `none` when the fuel runs
-- out.
unfoldable pub teardown_pool : ℕ → Dev → World → Option (List ℕ × World)
teardown_pool zero d w = none
teardown_pool (suc fuel) d w = elim (priv w d).ppool [
  | none ↦ some ([], w)
  | some p ↦
      let v = priv w d in
      elim (teardown_pool fuel d (put d (record v { ppool = (w.packets p).next }) w)) [
        | none ↦ none
        | some (freed, w') ↦ some (p ∷ freed, w')
      ]
]

-- The address "\0SNUL0", with its last byte one higher on the second device.
unfoldable pub hw_addr : Dev → List ℕ
hw_addr d =
    let addr = 0 ∷ b'S' ∷ b'N' ∷ b'U' ∷ b'L' ∷ b'0' ∷ [] in
    elim d [ sn0 ↦ addr | sn1 ↦ set addr 5 (get_or addr 5 0 + 1) ]

-- `snull_open`.
unfoldable pub open_dev : Env → Dev → World → World
open_dev k d w =
    let v = priv w d in
    let w₁ = put d (record v { dev_addr = hw_addr d }) w in
    set_stopped d false (if k.use_napi then log (napi_enable d) w₁ else w₁)

-- `snull_release`.
unfoldable pub release_dev : Env → Dev → World → World
release_dev k d w =
    let w₁ = set_stopped d true w in if k.use_napi then log (napi_disable d) w₁ else w₁

pub data Errno : Type 0 where
  success ebusy eopnotsupp einval : Errno

-- The fields of `struct net_device` that `snull_config` reads, and `struct ifmap`.
pub record IfState : Type 0 where
  pub is_up : Bool
  pub base_addr : ℕ
  pub irq : ℕ

pub record IfMap : Type 0 where
  pub base_addr : ℕ
  pub irq : ℕ

-- `snull_config`.
unfoldable pub config : IfState → IfMap → Errno × IfState
config s m =
    if s.is_up
    then (ebusy, s)
    else if not (m.base_addr == s.base_addr)
    then (eopnotsupp, s)
    else (success, if not (m.irq == s.irq) then record s { irq = m.irq } else s)

-- `snull_change_mtu`.
unfoldable pub change_mtu : Dev → ℤ → World → Errno × World
change_mtu d (pos n) w =
    let v = priv w d in
    if below (pos n) 68 || above (pos n) 1500
    then (einval, w)
    else (success, put d (record v { mtu = n }) w)
change_mtu d (negsuc n) w = (einval, w)

-- `snull_ioctl`.
unfoldable pub ioctl : Dev → World → Errno × World
ioctl d w = (success, w)

-- `snull_get_stats64`: `netdev_stats_to_stats64` of the kernel copies the counters.
unfoldable pub get_stats64 : Dev → World → Stats
get_stats64 d w = (priv w d).stats

-- `snull_header`: the 14 bytes in front of the data. `none` is a null address.
unfoldable pub header : List ℕ → ℕ → Option (List ℕ) → Option (List ℕ) → List ℕ → List ℕ
header dev_addr type daddr saddr bytes =
    let dest : List ℕ = elim daddr [ none ↦ dev_addr | some a ↦ a ] in
    let source : List ℕ = elim saddr [ none ↦ dev_addr | some a ↦ a ] in
    let proto = (type / 256 % 256) ∷ (type % 256) ∷ [] in
    set dest 5 (bit_xor (get_or dest 5 0) 1) ++ (source ++ (proto ++ bytes))

-- `snull_rebuild_header`: both addresses of a frame written anew.
unfoldable pub rebuild_header : List ℕ → List ℕ → List ℕ
rebuild_header dev_addr frame =
    set dev_addr 5 (bit_xor (get_or dev_addr 5 0) 1) ++ (dev_addr ++ drop 12 frame)
