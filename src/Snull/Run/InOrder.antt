-- ===== src/Snull/Run/InOrder.antt =====
-- Any transmissions of the two devices under the regular handler: what each hands over.
use linux_learn_demo_code.Base.{
  ◌&&◌, if◌then◌else◌, ap₂, ℕ, ◌≤◌, Bool, true, false, Option, some, List, [], ◌∷◌, map, onto,
  length, All, ◌≡◌, refl, ◌∙◌, ap,
}
use linux_learn_demo_code.Snull.Types.{
  Outcome, ◌>>=◌, Dev, sn0, sn1, other, ok, World, Env, Skb, Call, netif_rx, dev_kfree_skb,
  netif_trans_update,
}
use linux_learn_demo_code.Snull.Chains.{same_dev, Loc, Place}
use linux_learn_demo_code.Snull.Receive.Passed.{rest_of, first_of}
use linux_learn_demo_code.Snull.Receive.Interrupt.{handed}
use linux_learn_demo_code.Snull.Transmit.{tx, eth_data_len}
use linux_learn_demo_code.Snull.Transmit.Loopback.{IsQuiet, tx_loops_back}
use linux_learn_demo_code.Snull.Run.Sends.{sent_frame}

-- The frames that the interrupt handler of a device has handed over, the latest first.
abbrev pub heard : Dev → List Call → List (List ℕ)
heard d [] = []
heard sn0 (netif_rx sn0 f ∷ cs) = f ∷ heard sn0 cs
heard sn1 (netif_rx sn1 f ∷ cs) = f ∷ heard sn1 cs
heard d (c ∷ cs) = heard d cs

-- The skbs that have been freed, the latest first.
abbrev pub freed : List Call → List (Option ℕ)
freed [] = []
freed (dev_kfree_skb s ∷ cs) = s ∷ freed cs
freed (c ∷ cs) = freed cs

one-heard :
    (given : Bool) (d e : Dev) (s : Option ℕ) (f : List ℕ) (cs : List Call)
    → heard e (dev_kfree_skb s ∷ handed given (other d) f (netif_trans_update d ∷ cs))
      ≡ (if given && same_dev (other d) e then f ∷ heard e cs else heard e cs)
one-heard true sn0 sn0 s f cs = refl
one-heard true sn0 sn1 s f cs = refl
one-heard true sn1 sn0 s f cs = refl
one-heard true sn1 sn1 s f cs = refl
one-heard false sn0 sn0 s f cs = refl
one-heard false sn0 sn1 s f cs = refl
one-heard false sn1 sn0 s f cs = refl
one-heard false sn1 sn1 s f cs = refl

one-freed :
    (given : Bool) (d : Dev) (s : Option ℕ) (f : List ℕ) (cs : List Call)
    → freed (dev_kfree_skb s ∷ handed given (other d) f (netif_trans_update d ∷ cs)) ≡ s ∷ freed cs
one-freed true d s f cs = refl
one-freed false d s f cs = refl

-- The kernel transmits some skbs, each on a device, one after the other.
unfoldable pub tx_each : Env → List (Dev × Skb) → World → Outcome World
tx_each k [] w = ok w
tx_each k ((d, skb) ∷ more) w = do w₁ ← tx k skb d w; tx_each k more w₁

-- The frames for a device: those that its twin sends, if an skb can be allocated.
abbrev pub frames_for : Env → Dev → List Bool → List (Dev × Skb) → List (List ℕ)
frames_for k e bs [] = []
frames_for k e bs ((d, skb) ∷ more) =
    let rest = frames_for k e (rest_of bs) more in
    if first_of bs && same_dev (other d) e then sent_frame k skb ∷ rest else rest

onto-if :
    (b : Bool) (f : List ℕ) (fs before : List (List ℕ))
    → onto fs (if b then f ∷ before else before) ≡ onto (if b then f ∷ fs else fs) before
onto-if true f fs before = refl
onto-if false f fs before = refl

-- Under the regular handler with no lockup simulated, from a quiet driver, some skbs of at most 1500
-- bytes are transmitted one after the other, each on one of the two devices. The calls return without a
-- fault, whichever allocations fail; each device hands the frames that its twin sent, and for which an skb
-- can be allocated, to the upper layers in the order in which they were sent, each padded and with its
-- addresses rewritten; each skb is freed once, in order; and the driver is quiet again, with
-- every packet in its place.
pub tx_each-in_order :
    (k : Env) (sends : List (Dev × Skb)) (w : World) (place : ℕ → Place) (lists : Loc → List ℕ)
    (e : Dev)
    → k.use_napi ≡ false
    → k.lockup ≡ 0
    → IsQuiet w place lists
    → All (λ s. length s.1.bytes ≤ eth_data_len) sends
    → (w' : World) × (tx_each k sends w ≡ ok w')
      × IsQuiet w' place lists
      × (heard e w'.calls ≡ onto (frames_for k e w.allocs sends) (heard e w.calls))
      × (freed w'.calls ≡ onto (map (λ s. some s.1.id) sends) (freed w.calls))
unfolding tx_each
tx_each-in_order k [] w place lists e regular steady quiet small = (w, refl, quiet, refl, refl)
tx_each-in_order k ((d, skb) ∷ more) w place lists e regular steady quiet small =
    let (w₁, eq, quiet₁, left, calls, counted, running) =
      tx_loops_back k w place lists regular steady quiet skb d small.0 in
    let (w', eq', quiet', frames, skbs') =
      tx_each-in_order k more w₁ place lists e regular steady quiet₁ small.1 in
    let f = sent_frame k skb in
    (
      w',
      rw (eq, eq'),
      quiet',
      frames
          ∙ ap₂ (λ bs cs. onto (frames_for k e bs more) cs) left
              (ap (heard e) calls ∙ one-heard (first_of w.allocs) d e (some skb.id) f w.calls)
          ∙ onto-if (first_of w.allocs && same_dev (other d) e) f
              (frames_for k e (rest_of w.allocs) more) (heard e w.calls),
      skbs'
          ∙ ap (onto (map (λ (s : Dev × Skb). some s.1.id) more))
              (ap freed calls ∙ one-freed (first_of w.allocs) d (some skb.id) f w.calls),
    )
