-- ===== src/Snull/Transmit/Napi/Calm.antt =====
-- What a transmission leaves of the two devices, for the calls that follow.
use linux_learn_demo_code.Base.{
  ℕ, Bool, true, false, Option, none, List, if◌then◌else◌, is_none, ◌≡◌, refl, sym, ◌∙◌, Bool-cases,
  inl, inr,
}
use linux_learn_demo_code.Snull.Types.{Dev, sn0, sn1, other, World, Skb, NetDevice, no_status, priv}
use linux_learn_demo_code.Snull.Transmit.{raise_rx}
use linux_learn_demo_code.Snull.Transmit.Armed.{armed, armed-keeps}
use linux_learn_demo_code.Snull.Transmit.Napi.{told-twin, queued}

-- A device between two calls: no interrupt is pending, and its transmit queue is stopped if its pool is
-- empty.
pub record IsCalm (v : NetDevice) : Type 0 where
  pub idle : v.status ≡ no_status
  pub stops : v.ppool ≡ none → v.stopped ≡ true

stops_when_empty :
    (rest : Option ℕ) (stopped : Bool)
    → rest ≡ none
    → (if is_none rest then true else stopped) ≡ true
stops_when_empty rest stopped e = rw e

-- The device that sends.
sender-IsCalm :
    (d : Dev) (x : ℕ) (buf : List ℕ) (len : ℕ) (w : World) → IsCalm (priv (queued d x buf len w) d)
sender-IsCalm sn0 x buf len w = record {
  idle = refl;
  stops = λ e.
      told-twin sn0 w x buf len (λ v. v.stopped)
      ∙ stops_when_empty (w.packets x).next w.dev0.stopped
          (sym (told-twin sn0 w x buf len (λ v. v.ppool)) ∙ e);
}
sender-IsCalm sn1 x buf len w = record {
  idle = refl;
  stops = λ e.
      told-twin sn1 w x buf len (λ v. v.stopped)
      ∙ stops_when_empty (w.packets x).next w.dev1.stopped
          (sym (told-twin sn1 w x buf len (λ v. v.ppool)) ∙ e);
}

-- Its twin, which gets the packet.
twin-IsCalm :
    (d : Dev) (x : ℕ) (buf : List ℕ) (len : ℕ) (w : World)
    → IsCalm (priv w (other d))
    → IsCalm (priv (queued d x buf len w) (other d))
      × ((priv (queued d x buf len w) (other d)).rx_int_enabled ≡ false)
unfolding raise_rx
twin-IsCalm sn0 x buf len w c = elim (Bool-cases w.dev1.rx_int_enabled) [
  | inl e ↦ rw e (record { idle = refl; stops = c.stops }, refl)
  | inr e ↦ rw e (record { idle = c.idle; stops = c.stops }, refl)
]
twin-IsCalm sn1 x buf len w c = elim (Bool-cases w.dev0.rx_int_enabled) [
  | inl e ↦ rw e (record { idle = refl; stops = c.stops }, refl)
  | inr e ↦ rw e (record { idle = c.idle; stops = c.stops }, refl)
]

sender-ints :
    (d : Dev) (x : ℕ) (buf : List ℕ) (len : ℕ) (w : World)
    → (priv (queued d x buf len w) d).rx_int_enabled ≡ (priv w d).rx_int_enabled
sender-ints sn0 x buf len w = told-twin sn0 w x buf len (λ v. v.rx_int_enabled)
sender-ints sn1 x buf len w = told-twin sn1 w x buf len (λ v. v.rx_int_enabled)

pub queued-IsCalm :
    (d : Dev) (x : ℕ) (buf : List ℕ) (len : ℕ) (w : World)
    → ((e : Dev) → IsCalm (priv w e))
    → ((e : Dev) → IsCalm (priv (queued d x buf len w) e))
      × ((priv (queued d x buf len w) (other d)).rx_int_enabled ≡ false)
      × ((priv (queued d x buf len w) d).rx_int_enabled ≡ (priv w d).rx_int_enabled)
queued-IsCalm d x buf len w c =
    (both d, (twin-IsCalm d x buf len w (c (other d))).1, sender-ints d x buf len w)
  where
    both : (d e : Dev) → IsCalm (priv (queued d x buf len w) e)
    both sn0 sn0 = sender-IsCalm sn0 x buf len w
    both sn0 sn1 = (twin-IsCalm sn0 x buf len w (c sn1)).0
    both sn1 sn0 = (twin-IsCalm sn1 x buf len w (c sn0)).0
    both sn1 sn1 = sender-IsCalm sn1 x buf len w

pub armed-IsCalm :
    (skb : Skb) (d : Dev) (w : World)
    → ((e : Dev) → IsCalm (priv w e))
    → (e : Dev) → IsCalm (priv (armed skb d w) e)
armed-IsCalm skb d w c e = record {
  idle = armed-keeps skb d w (λ v. v.status) (λ v s. refl) e ∙ (c e).idle;
  stops = λ h.
      armed-keeps skb d w (λ v. v.stopped) (λ v s. refl) e
      ∙ (c e).stops (sym (armed-keeps skb d w (λ v. v.ppool) (λ v s. refl) e) ∙ h);
}
