-- ===== src/Snull/Registration.antt =====
-- snull/snull.c:704-760: loading and unloading, as the calls of the kernel that concern the two devices.
use linux_learn_demo_code.Base.{
  Bool, true, false, not, ◌&&◌, ◌||◌, List, [], ◌∷◌, ◌++◌, if◌then◌else◌, ◌≡◌, refl,
}
use linux_learn_demo_code.Snull.Types.{Dev, sn0, sn1}

-- A call for a device; the first two with their outcome. `pool_teardown` is `snull_teardown_pool`.
pub data Op : Type 0 where
  alloc_netdev register_netdev : Dev → Bool → Op
  netif_napi_del unregister_netdev pool_teardown free_netdev : Dev → Op

-- The body of the loop of `snull_cleanup`, for a device that may be a null pointer.
unfoldable pub cleanup_dev : Bool → Dev → Bool → List Op
cleanup_dev use_napi d present =
    if not present
    then []
    else (if use_napi then netif_napi_del d ∷ [] else [])
      ++ unregister_netdev d ∷ pool_teardown d ∷ free_netdev d ∷ []

-- `snull_cleanup`; the two tests are those for a null pointer.
unfoldable pub cleanup : Bool → Bool → Bool → List Op
unfolding cleanup_dev
cleanup use_napi dev0 dev1 = cleanup_dev use_napi sn0 dev0 ++ cleanup_dev use_napi sn1 dev1

-- `snull_init_module`, with whether the allocations and the registrations succeed: whether it returns
-- 0, and the calls.
unfoldable pub init_module : Bool → Bool → Bool → Bool → Bool → Bool × List Op
init_module use_napi dev0 dev1 reg0 reg1 =
    let allocated = alloc_netdev sn0 dev0 ∷ alloc_netdev sn1 dev1 ∷ [] in
    if not (dev0 && dev1)
    then (false, allocated ++ cleanup use_napi dev0 dev1)
    else let tried = allocated ++ register_netdev sn0 reg0 ∷ register_netdev sn1 reg1 ∷ [] in
      if reg0 || reg1 then (true, tried) else (false, tried ++ cleanup use_napi dev0 dev1)

-- The devices that a list of calls gives or takes back.
abbrev pub allocations : List Op → List Dev
allocations [] = []
allocations (alloc_netdev d true ∷ more) = d ∷ allocations more
allocations (op ∷ more) = allocations more

abbrev pub registrations : List Op → List Dev
registrations [] = []
registrations (register_netdev d true ∷ more) = d ∷ registrations more
registrations (op ∷ more) = registrations more

abbrev pub removals : List Op → List Dev
removals [] = []
removals (unregister_netdev d ∷ more) = d ∷ removals more
removals (op ∷ more) = removals more

abbrev pub releases : List Op → List Dev
releases [] = []
releases (free_netdev d ∷ more) = d ∷ releases more
releases (op ∷ more) = releases more

-- When loading fails no device is registered, and each device that was allocated is freed once, in
-- order; but each of them is also unregistered, though none was ever registered.
pub init_module-fails :
    (use_napi dev0 dev1 reg0 reg1 : Bool)
    → (init_module use_napi dev0 dev1 reg0 reg1).0 ≡ false
    → let ops = (init_module use_napi dev0 dev1 reg0 reg1).1 in
      (registrations ops ≡ []) × (releases ops ≡ allocations ops) × (removals ops ≡ allocations ops)
unfolding init_module cleanup
init_module-fails true false false reg0 reg1 e = (refl, refl, refl)
init_module-fails true false true reg0 reg1 e = (refl, refl, refl)
init_module-fails true true false reg0 reg1 e = (refl, refl, refl)
init_module-fails true true true true reg1 e = cc
init_module-fails true true true false true e = cc
init_module-fails true true true false false e = (refl, refl, refl)
init_module-fails false false false reg0 reg1 e = (refl, refl, refl)
init_module-fails false false true reg0 reg1 e = (refl, refl, refl)
init_module-fails false true false reg0 reg1 e = (refl, refl, refl)
init_module-fails false true true true reg1 e = cc
init_module-fails false true true false true e = cc
init_module-fails false true true false false e = (refl, refl, refl)

-- When loading succeeds, unloading frees each device that was allocated once, and unregisters both,
-- also one whose registration failed.
pub init_module-cleanup :
    (use_napi dev0 dev1 reg0 reg1 : Bool)
    → (init_module use_napi dev0 dev1 reg0 reg1).0 ≡ true
    → let ops = (init_module use_napi dev0 dev1 reg0 reg1).1 in
      (releases (cleanup use_napi dev0 dev1) ≡ allocations ops)
      × (removals (cleanup use_napi dev0 dev1) ≡ sn0 ∷ sn1 ∷ [])
      × (registrations ops ≡ ((if reg0 then sn0 ∷ [] else []) ++ (if reg1 then sn1 ∷ [] else [])))
unfolding init_module cleanup
init_module-cleanup use_napi false dev1 reg0 reg1 e = cc
init_module-cleanup use_napi true false reg0 reg1 e = cc
init_module-cleanup use_napi true true false false e = cc
init_module-cleanup true true true true true e = (refl, refl, refl)
init_module-cleanup true true true true false e = (refl, refl, refl)
init_module-cleanup true true true false true e = (refl, refl, refl)
init_module-cleanup false true true true true e = (refl, refl, refl)
init_module-cleanup false true true true false e = (refl, refl, refl)
init_module-cleanup false true true false true e = (refl, refl, refl)
