-- ===== src/Dummy/Module.antt =====
-- linux-netdevice-driver-test/dummy-eth.c: the life of the module, and the device's operations that
-- are not on the path of a frame.
use linux_learn_demo_code.Base.{
  Bool, true, false, not, ◌||◌, if◌then◌else◌, [], map, ◌++◌, ◌≡◌, refl, sym, ap, ◌∙◌, ◌⊎◌, inl,
  inr, Bool-cases, arith,
}
use linux_learn_demo_code.Base.Int.{ℤ, pos, negsuc, below}
use linux_learn_demo_code.Dummy.Hardware.{Hardware, freed, purge, lt_request_irq}

-- -ENOMEM is -12.
abbrev pub enomem : ℤ
enomem = negsuc 11

-- The device's flags, and whether it has its counters.
pub record Device : Type 0 where
  pub carrier : Bool
  pub queue_on : Bool
  pub has_dstats : Bool

-- `dummy_dev_init`, by what `netdev_alloc_pcpu_stats` gives, and `dummy_dev_uninit`.
unfoldable pub dev_init : Bool → Device → ℤ × Device
dev_init allocated d =
    if allocated
    then (pos 0, record d { has_dstats = true })
    else (enomem, record d { has_dstats = false })

unfoldable pub dev_uninit : Device → Device
dev_uninit d = record d { has_dstats = false }

-- `dummy_open` and `dummy_close`.
unfoldable pub dev_open : Device → Device
dev_open d = record d { carrier = true; queue_on = true }

unfoldable pub dev_close : Device → Device
dev_close d = record d { carrier = false; queue_on = false }

-- `dummy_change_carrier`.
unfoldable pub change_carrier : Bool → Device → Device
change_carrier new_carrier d =
    if new_carrier then record d { carrier = true } else record d { carrier = false }

-- What the module holds: the lock, the kind of link, the memory of the device and its registration,
-- and the hardware module's state.
pub record Held : Type 0 where
  pub rtnl_locked : Bool
  pub link_kind : Bool
  pub allocated : Bool
  pub registered : Bool
  pub hardware : Hardware

-- What the kernel answers.
pub record Answers : Type 0 where
  pub link_register : ℤ
  pub alloc_netdev : Bool
  pub register_netdevice : ℤ

-- `dummy_init_one`. `lt_request_irq` returns 0, so that only `register_netdevice` makes it give the
-- device back.
unfoldable pub init_one : Answers → Held → ℤ × Held
init_one k m =
    if not k.alloc_netdev
    then (enomem, m)
    else if below k.register_netdevice 0
    then (k.register_netdevice, m)
    else (
      pos 0,
      record m { allocated = true; registered = true; hardware = lt_request_irq true m.hardware },
    )

-- `dummy_init_module`.
unfoldable pub init_module : Answers → Held → ℤ × Held
unfolding init_one
init_module k m =
    if below k.link_register 0
    then (k.link_register, record m { rtnl_locked = false })
    else let (err, m') = init_one k (record m { rtnl_locked = true; link_kind = true }) in
      if below err 0
      then (err, record m' { link_kind = false; rtnl_locked = false })
      else (err, record m' { rtnl_locked = false })

-- `dummy_cleanup_module`: `rtnl_link_unregister` removes the devices of the kind, too.
unfoldable pub cleanup_module : Held → Held
cleanup_module m = record m {
  hardware = lt_request_irq false m.hardware;
  link_kind = false;
  allocated = false;
  registered = false;
}

-- The module is not loaded.
pub record IsUnloaded (m : Held) : Type 0 where
  pub unlocked : m.rtnl_locked ≡ false
  pub no_kind : m.link_kind ≡ false
  pub no_memory : m.allocated ≡ false
  pub no_device : m.registered ≡ false

-- Some call of the kernel fails.
abbrev pub fails : Answers → Bool
fails k = below k.link_register 0 || (not k.alloc_netdev || below k.register_netdevice 0)

abbrev with_link : Held → Held
with_link m = record m {
  rtnl_locked = false;
  link_kind = true;
  allocated = true;
  registered = true;
  hardware = lt_request_irq true m.hardware;
}

given_back : (m : Held) → IsUnloaded m → record m { rtnl_locked = false; link_kind = false } ≡ m
given_back m u = λ i. record m { rtnl_locked = sym u.unlocked i; link_kind = sym u.no_kind i }

unlocked-same : (m : Held) → IsUnloaded m → record m { rtnl_locked = false } ≡ m
unlocked-same m u = λ i. record m { rtnl_locked = sym u.unlocked i }

init-no_link :
    (k : Answers) (m : Held)
    → below k.link_register 0 ≡ true
    → init_module k m ≡ (k.link_register, record m { rtnl_locked = false })
unfolding init_module
init-no_link k m f = ground arith

init-no_device :
    (k : Answers) (m : Held)
    → below k.link_register 0 ≡ false
    → (not k.alloc_netdev || below k.register_netdevice 0) ≡ true
    → init_module k m ≡ (
      (if k.alloc_netdev then k.register_netdevice else enomem),
      record m { rtnl_locked = false; link_kind = false },
    )
unfolding init_module init_one
init-no_device k m link f = ground arith

init-fails :
    (k : Answers) (m : Held)
    → IsUnloaded m
    → fails k ≡ true
    → (fails k ≡ true) × (below (init_module k m).0 0 ≡ true) × ((init_module k m).1 ≡ m)
init-fails k m u f = elim (Bool-cases (below k.link_register 0)) [
  | inl no_link ↦ (
    f,
    ap (λ (r : ℤ × Held). below r.0 0) (init-no_link k m no_link) ∙ no_link,
    ap (λ (r : ℤ × Held). r.1) (init-no_link k m no_link) ∙ unlocked-same m u,
  )
  | inr link ↦
      let no_device : (not k.alloc_netdev || below k.register_netdevice 0) ≡ true = rw link at f in
      (
        f,
        ap (λ (r : ℤ × Held). below r.0 0) (init-no_device k m link no_device) ∙ ground arith,
        ap (λ (r : ℤ × Held). r.1) (init-no_device k m link no_device) ∙ given_back m u,
      )
]

init-succeeds : (k : Answers) (m : Held) → fails k ≡ false → init_module k m ≡ (pos 0, with_link m)
unfolding init_module init_one
init-succeeds k m f = ground arith

irq_on : (h : Hardware) → (lt_request_irq true h).registered ≡ true
unfolding lt_request_irq
irq_on h = ground arith

irq_off :
    (h : Hardware)
    → h.registered ≡ true
    → lt_request_irq false h ≡ purge (record h { registered = false })
unfolding lt_request_irq
irq_off h on = rw on

-- Loading the module fails, with a negative result, exactly when a call of the kernel does, and then
-- leaves everything as it was; or it succeeds with the result 0, the kind of link and the device are
-- registered, the hardware has a callback, and the lock is free. Unloading it then gives all of that
-- back, and frees the frames that the hardware had not handled yet.
pub init-cleanup :
    (k : Answers) (m : Held)
    → IsUnloaded m
    → let (err, m') = init_module k m in
      ((fails k ≡ true) × (below err 0 ≡ true) × (m' ≡ m))
      ⊎ ((fails k ≡ false)
          × (err ≡ pos 0)
          × (m'.rtnl_locked ≡ false)
          × (m'.link_kind ≡ true)
          × (m'.allocated ≡ true)
          × (m'.registered ≡ true)
          × (m'.hardware.registered ≡ true)
          × IsUnloaded (cleanup_module m')
          × ((cleanup_module m').hardware.registered ≡ false)
          × ((cleanup_module m').hardware.skb_tx_q ≡ [])
          × ((cleanup_module m').hardware.handled
              ≡ m'.hardware.handled ++ map (λ skb. (skb, freed)) m'.hardware.skb_tx_q))
unfolding cleanup_module
init-cleanup k m u = elim (Bool-cases (fails k)) [
  | inl f ↦ inl (init-fails k m u f)
  | inr f ↦ rw (init-succeeds k m f) (
      inr (
        let h = lt_request_irq true m.hardware in
        let off = irq_off h (irq_on m.hardware) in
        (
          f,
          refl,
          refl,
          refl,
          refl,
          refl,
          irq_on m.hardware,
          record { unlocked = refl; no_kind = refl; no_memory = refl; no_device = refl },
          ap (λ (u : Hardware). u.registered) off,
          ap (λ (u : Hardware). u.skb_tx_q) off,
          ap (λ (u : Hardware). u.handled) off,
        )))
]
