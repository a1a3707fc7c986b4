-- ===== src/Snull/Transmit/Told.antt =====
-- How a transmission under the NAPI handler tells the twin, and how it ends.
use linux_learn_demo_code.Base.{ℕ, true, false, List, if◌then◌else◌, ◌≡◌, refl, sym, arith}
use linux_learn_demo_code.Snull.Types.{Dev, sn0, sn1, ok, World, Env, no_status, priv}
use linux_learn_demo_code.Snull.Chains.{Loc, pool, queue, head}
use linux_learn_demo_code.Snull.Buffers.Refine.{Keeps}
use linux_learn_demo_code.Snull.Receive.{interrupt}
use linux_learn_demo_code.Snull.Receive.Interrupt.{scheduled, sent, napi-rx}
use linux_learn_demo_code.Snull.Transmit.{notify, raise_rx}
use linux_learn_demo_code.Snull.Transmit.Regular.{begun}

-- The twin device is told, if it listens.
abbrev pub told : Dev → World → World
unfolding raise_rx
told e w = if (priv w e).rx_int_enabled then scheduled e (raise_rx e w) else w

pub notify-eq :
    (k : Env) (e : Dev) (w : World)
    → k.use_napi ≡ true
    → (priv w e).status ≡ no_status
    → (priv w e).locked ≡ false
    → notify k e w ≡ ok (told e w)
unfolding notify interrupt
notify-eq k sn0 w napi st l = ground (arith, napi-rx sn0 (raise_rx sn0 w))
notify-eq k sn1 w napi st l = ground (arith, napi-rx sn1 (raise_rx sn1 w))

told-heads : (e : Dev) (w : World) (l : Loc) → head (told e w) l ≡ head w l
unfolding raise_rx
told-heads sn0 w (pool sn0) = ground arith
told-heads sn1 w (pool sn0) = ground arith
told-heads sn0 w (queue sn0) = ground arith
told-heads sn1 w (queue sn0) = ground arith
told-heads _ w _ = ground arith

told-locks :
    (e : Dev) (w : World)
    → (priv w e).locked ≡ false
    → (d : Dev) → (priv (told e w) d).locked ≡ (priv w d).locked
unfolding raise_rx
told-locks sn0 w l sn0 = ground arith
told-locks sn1 w l sn0 = ground arith
told-locks _ w l _ = ground arith

pub told-packets : (e : Dev) (w : World) → (told e w).packets ≡ w.packets
unfolding raise_rx
told-packets sn0 w = ground arith
told-packets sn1 w = ground arith

pub told-Keeps : (e : Dev) (w : World) → (priv w e).locked ≡ false → Keeps w (told e w)
told-Keeps e w l = record {
  packets = told-packets e w;
  heads = told-heads e w;
  locks = told-locks e w l;
}

-- The end of the transmission.
abbrev pub ended : Dev → List ℕ → ℕ → World → World
ended d frame len w = sent d (begun d frame len w)

ended-heads :
    (d : Dev) (frame : List ℕ) (len : ℕ) (w : World) (l : Loc)
    → head (ended d frame len w) l ≡ head w l
ended-heads sn0 frame len w (pool sn0) = refl
ended-heads sn1 frame len w (pool sn0) = refl
ended-heads sn0 frame len w (queue sn0) = refl
ended-heads sn1 frame len w (queue sn0) = refl
ended-heads _ frame len w _ = refl

ended-locks :
    (d : Dev) (frame : List ℕ) (len : ℕ) (w : World)
    → (priv w d).locked ≡ false
    → (e : Dev) → (priv (ended d frame len w) e).locked ≡ (priv w e).locked
ended-locks sn0 frame len w l sn0 = sym l
ended-locks sn0 frame len w l sn1 = refl
ended-locks sn1 frame len w l sn0 = refl
ended-locks sn1 frame len w l sn1 = sym l

pub ended-packets :
    (d : Dev) (frame : List ℕ) (len : ℕ) (w : World) → (ended d frame len w).packets ≡ w.packets
ended-packets sn0 frame len w = refl
ended-packets sn1 frame len w = refl

pub ended-Keeps :
    (d : Dev) (frame : List ℕ) (len : ℕ) (w : World)
    → (priv w d).locked ≡ false
    → Keeps w (ended d frame len w)
ended-Keeps d frame len w l = record {
  packets = ended-packets d frame len w;
  heads = ended-heads d frame len w;
  locks = ended-locks d frame len w l;
}
