-- ===== src/Snull/Transmit/Napi/Others.antt =====
-- What a transmission under the NAPI handler leaves alone: the frames of the other packets, the
-- allocations, and what the upper layers have received.
use linux_learn_demo_code.Base.{
  take, Option, Bool, ℕ, true, false, List, ◌∷◌, if◌then◌else◌, ◌≡◌, ◌≢◌, refl, ◌∙◌, ap, arith,
}
use linux_learn_demo_code.Snull.Types.{
  Dev, sn0, sn1, other, World, Skb, priv, Call, dev_kfree_skb, napi_schedule,
}
use linux_learn_demo_code.Snull.Buffers.States.{got, enqueued}
use linux_learn_demo_code.Snull.Receive.Passed.{frame_of, received}
use linux_learn_demo_code.Snull.Transmit.{raise_rx}
use linux_learn_demo_code.Snull.Transmit.Armed.{armed, armed-packets, armed-allocs}
use linux_learn_demo_code.Snull.Transmit.Regular.{filled}
use linux_learn_demo_code.Snull.Transmit.Napi.{queued, queued-calls}
use linux_learn_demo_code.Snull.Transmit.Told.{told, told-packets, ended-packets}

waiting-others :
    (d : Dev) (x : ℕ) (buf : List ℕ) (len : ℕ) (w : World) (y : ℕ)
    → y ≢ x
    → frame_of (enqueued (other d) x (filled x buf len (got d x w))) y ≡ frame_of w y
waiting-others sn0 x buf len w y ne = ground (arith, ne)
waiting-others sn1 x buf len w y ne = ground (arith, ne)

told-allocs : (e : Dev) (w : World) → (told e w).allocs ≡ w.allocs
unfolding raise_rx
told-allocs sn0 w = ground arith
told-allocs sn1 w = ground arith

queued-allocs :
    (d : Dev) (x : ℕ) (buf : List ℕ) (len : ℕ) (w : World)
    → (queued d x buf len w).allocs ≡ w.allocs
queued-allocs sn0 x buf len w = told-allocs sn1 (enqueued sn1 x (filled x buf len (got sn0 x w)))
queued-allocs sn1 x buf len w = told-allocs sn0 (enqueued sn0 x (filled x buf len (got sn1 x w)))

told-received :
    (e f : Dev) (skb : Option ℕ) (listens : Bool) (cs : List Call)
    → received e (dev_kfree_skb skb ∷ (if listens then napi_schedule f ∷ cs else cs))
      ≡ received e cs
told-received sn0 f skb true cs = refl
told-received sn0 f skb false cs = refl
told-received sn1 f skb true cs = refl
told-received sn1 f skb false cs = refl

armed-received :
    (skb : Skb) (d : Dev) (w : World) (e : Dev)
    → received e (armed skb d w).calls ≡ received e w.calls
armed-received skb sn0 w sn0 = refl
armed-received skb sn0 w sn1 = refl
armed-received skb sn1 w sn0 = refl
armed-received skb sn1 w sn1 = refl

pub others-queued :
    (skb : Skb) (d : Dev) (x : ℕ) (buf : List ℕ) (len : ℕ) (w : World)
    → let u = queued d x buf len (armed skb d w) in
      ((y : ℕ) → y ≢ x → frame_of u y ≡ frame_of w y)
      × (u.allocs ≡ w.allocs)
      × ((e : Dev) → received e u.calls ≡ received e w.calls)
others-queued skb d x buf len w =
    let a = armed skb d w in
    let v = enqueued (other d) x (filled x buf len (got d x a)) in
    (
      λ y ne.
          ap (λ h. take (h y).datalen (h y).payload)
            (ended-packets d buf len (told (other d) v) ∙ told-packets (other d) v)
          ∙ waiting-others d x buf len a y ne
          ∙ ap (λ h. take (h y).datalen (h y).payload) (armed-packets skb d w),
      queued-allocs d x buf len a ∙ armed-allocs skb d w,
      λ e.
          ap (received e) (queued-calls d x buf len a)
          ∙ told-received e (other d) (priv a d).skb (priv a (other d)).rx_int_enabled a.calls
          ∙ armed-received skb d w e,
    )
