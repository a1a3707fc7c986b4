-- ===== src/Snull/Setup/Fields.antt =====
-- What `snull_init` and `snull_open` do to the fields of the devices.
use linux_learn_demo_code.Base.{
  ℕ, zero, suc, Bool, true, false, Option, none, some, List, [], ◌∷◌, ◌≡◌, refl, ◌∙◌, Bool-cases,
  inl, inr,
}
use linux_learn_demo_code.Snull.Types.{Dev, sn0, sn1, World, Env, NetDevice, no_status, priv}
use linux_learn_demo_code.Snull.Chains.{Loc, pool, queue, head}
use linux_learn_demo_code.Snull.Setup.{setup_loop, setup_pool, init_dev, hw_addr, open_dev}

-- The set-up of a pool leaves every other field.
setup_loop-keeps :
    {A : Type 0} (f : NetDevice → A)
    → ((v : NetDevice) (q : Option ℕ) → f (record v { ppool = q }) ≡ f v)
    → (n : ℕ) (d : Dev) (ps : List (Option ℕ)) (w : World) (e : Dev)
    → f (priv (setup_loop n d ps w) e) ≡ f (priv w e)
unfolding setup_loop
setup_loop-keeps {A} f same zero d ps w e = refl
setup_loop-keeps {A} f same (suc n) d [] w e = refl
setup_loop-keeps {A} f same (suc n) d (none ∷ ps) w e = refl
setup_loop-keeps {A} f same (suc n) sn0 (some p ∷ ps) w sn0 =
    setup_loop-keeps f same n sn0 ps _ sn0 ∙ same w.dev0 (some p)
setup_loop-keeps {A} f same (suc n) sn0 (some p ∷ ps) w sn1 = setup_loop-keeps f same n sn0 ps _ sn1
setup_loop-keeps {A} f same (suc n) sn1 (some p ∷ ps) w sn0 = setup_loop-keeps f same n sn1 ps _ sn0
setup_loop-keeps {A} f same (suc n) sn1 (some p ∷ ps) w sn1 =
    setup_loop-keeps f same n sn1 ps _ sn1 ∙ same w.dev1 (some p)

setup_pool-keeps :
    {A : Type 0} (f : NetDevice → A)
    → ((v : NetDevice) (q : Option ℕ) → f (record v { ppool = q }) ≡ f v)
    → (n : ℕ) (d : Dev) (ps : List (Option ℕ)) (w : World) (e : Dev)
    → f (priv (setup_pool n d ps w) e) ≡ f (priv w e)
unfolding setup_pool
setup_pool-keeps f same n sn0 ps w sn0 = setup_loop-keeps f same n sn0 ps _ sn0 ∙ same w.dev0 none
setup_pool-keeps f same n sn0 ps w sn1 = setup_loop-keeps f same n sn0 ps _ sn1
setup_pool-keeps f same n sn1 ps w sn0 = setup_loop-keeps f same n sn1 ps _ sn0
setup_pool-keeps f same n sn1 ps w sn1 = setup_loop-keeps f same n sn1 ps _ sn1 ∙ same w.dev1 none

-- A device as `snull_init` leaves it.
pub record IsNew (v : NetDevice) : Type 0 where
  pub idle : v.status ≡ no_status
  pub free : v.locked ≡ false
  pub listens : v.rx_int_enabled ≡ true

pub init_dev-IsNew :
    (n : ℕ) (d : Dev) (ps : List (Option ℕ)) (w : World) → IsNew (priv (init_dev n d ps w) d)
unfolding init_dev
init_dev-IsNew n sn0 ps w = record {
  idle = setup_pool-keeps (λ v. v.status) (λ v q. refl) n sn0 ps _ sn0;
  free = setup_pool-keeps (λ v. v.locked) (λ v q. refl) n sn0 ps _ sn0;
  listens = setup_pool-keeps (λ v. v.rx_int_enabled) (λ v q. refl) n sn0 ps _ sn0;
}
init_dev-IsNew n sn1 ps w = record {
  idle = setup_pool-keeps (λ v. v.status) (λ v q. refl) n sn1 ps _ sn1;
  free = setup_pool-keeps (λ v. v.locked) (λ v q. refl) n sn1 ps _ sn1;
  listens = setup_pool-keeps (λ v. v.rx_int_enabled) (λ v q. refl) n sn1 ps _ sn1;
}

-- The other device keeps what it had.
pub other-IsNew :
    (n : ℕ) (ps : List (Option ℕ)) (w : World)
    → IsNew w.dev0
    → IsNew (priv (init_dev n sn1 ps w) sn0)
unfolding init_dev
other-IsNew n ps w v = record {
  idle = setup_pool-keeps (λ v. v.status) (λ v q. refl) n sn1 ps _ sn0 ∙ v.idle;
  free = setup_pool-keeps (λ v. v.locked) (λ v q. refl) n sn1 ps _ sn0 ∙ v.free;
  listens = setup_pool-keeps (λ v. v.rx_int_enabled) (λ v q. refl) n sn1 ps _ sn0 ∙ v.listens;
}

-- Opening a device sets its address, starts its queue and enables its poll.
open_dev-keeps :
    {A : Type 0} (f : NetDevice → A)
    → ((v : NetDevice) (a : List ℕ) (b : Bool) → f (record v { dev_addr = a; stopped = b }) ≡ f v)
    → (k : Env) (d : Dev) (w : World) (e : Dev) → f (priv (open_dev k d w) e) ≡ f (priv w e)
unfolding open_dev
open_dev-keeps {A} f same k sn0 w sn0 = elim (Bool-cases k.use_napi) [
  | inl e ↦ rw e (same w.dev0 (hw_addr sn0) false)
  | inr e ↦ rw e (same w.dev0 (hw_addr sn0) false)
]
open_dev-keeps {A} f same k sn0 w sn1 = elim (Bool-cases k.use_napi) [ inl e ↦ rw e | inr e ↦ rw e ]
open_dev-keeps {A} f same k sn1 w sn0 = elim (Bool-cases k.use_napi) [ inl e ↦ rw e | inr e ↦ rw e ]
open_dev-keeps {A} f same k sn1 w sn1 = elim (Bool-cases k.use_napi) [
  | inl e ↦ rw e (same w.dev1 (hw_addr sn1) false)
  | inr e ↦ rw e (same w.dev1 (hw_addr sn1) false)
]

pub open_dev-packets : (k : Env) (d : Dev) (w : World) → (open_dev k d w).packets ≡ w.packets
unfolding open_dev
open_dev-packets k sn0 w = elim (Bool-cases k.use_napi) [ inl e ↦ rw e | inr e ↦ rw e ]
open_dev-packets k sn1 w = elim (Bool-cases k.use_napi) [ inl e ↦ rw e | inr e ↦ rw e ]

pub open_dev-heads : (k : Env) (d : Dev) (w : World) (l : Loc) → head (open_dev k d w) l ≡ head w l
open_dev-heads k d w (pool e) = open_dev-keeps (λ v. v.ppool) (λ v a b. refl) k d w e
open_dev-heads k d w (queue e) = open_dev-keeps (λ v. v.rx_queue) (λ v a b. refl) k d w e

pub open_dev-IsNew :
    (k : Env) (d : Dev) (w : World) (e : Dev) → IsNew (priv w e) → IsNew (priv (open_dev k d w) e)
open_dev-IsNew k d w e v = record {
  idle = open_dev-keeps (λ v. v.status) (λ v a b. refl) k d w e ∙ v.idle;
  free = open_dev-keeps (λ v. v.locked) (λ v a b. refl) k d w e ∙ v.free;
  listens = open_dev-keeps (λ v. v.rx_int_enabled) (λ v a b. refl) k d w e ∙ v.listens;
}
