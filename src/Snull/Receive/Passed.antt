-- ===== src/Snull/Receive/Passed.antt =====
-- The frames that `snull_poll` hands to the upper layers, and in which order.
use linux_learn_demo_code.Base.{
  ℕ, Bool, true, false, List, [], ◌∷◌, map, length, ◌≤◌, take, if◌then◌else◌, ◌≡◌, refl, ◌∙◌, ap,
  ap₂, arith, onto,
}
use linux_learn_demo_code.Snull.Types.{
  Dev, sn0, sn1, other, World, Call, netif_receive_skb, napi_schedule, napi_complete_done,
}
use linux_learn_demo_code.Snull.Buffers.States.{dequeued, released}
use linux_learn_demo_code.Snull.Receive.{deliver}

-- The frame in a packet.
abbrev pub frame_of : World → ℕ → List ℕ
frame_of w p = take (w.packets p).datalen (w.packets p).payload

-- The frames that the polls of a device have handed over, the latest first.
abbrev pub received : Dev → List Call → List (List ℕ)
received d [] = []
received sn0 (netif_receive_skb sn0 f ∷ cs) = f ∷ received sn0 cs
received sn1 (netif_receive_skb sn1 f ∷ cs) = f ∷ received sn1 cs
received d (c ∷ cs) = received d cs

-- Whether the kernel is going to poll a device: `napi_schedule` has been called for it, and
-- `napi_complete_done` not after that.
abbrev pub scheduled : Dev → List Call → Bool
scheduled d [] = false
scheduled sn0 (napi_schedule sn0 ∷ cs) = true
scheduled sn1 (napi_schedule sn1 ∷ cs) = true
scheduled sn0 (napi_complete_done sn0 n ∷ cs) = false
scheduled sn1 (napi_complete_done sn1 n ∷ cs) = false
scheduled d (c ∷ cs) = scheduled d cs

-- Of some frames, those for which an skb can be allocated.
abbrev pub allocated : List Bool → List (List ℕ) → List (List ℕ)
allocated bs [] = []
allocated [] (f ∷ fs) = []
allocated (true ∷ bs) (f ∷ fs) = f ∷ allocated bs fs
allocated (false ∷ bs) (f ∷ fs) = allocated bs fs

pub length-allocated : (bs : List Bool) (fs : List (List ℕ)) → length (allocated bs fs) ≤ length fs
length-allocated bs [] = omega arith
length-allocated [] (f ∷ fs) = omega arith
length-allocated (true ∷ bs) (f ∷ fs) = omega (arith, length-allocated bs fs)
length-allocated (false ∷ bs) (f ∷ fs) = omega (arith, length-allocated bs fs)

-- The allocations after one of them.
abbrev pub rest_of : List Bool → List Bool
rest_of [] = []
rest_of (b ∷ bs) = bs

abbrev pub first_of : List Bool → Bool
first_of [] = false
first_of (b ∷ bs) = b

pub allocated-round :
    (bs : List Bool) (f : List ℕ) (fs before : List (List ℕ))
    → onto (allocated (rest_of bs) fs) (if first_of bs then f ∷ before else before)
      ≡ onto (allocated bs (f ∷ fs)) before
allocated-round [] f [] before = refl
allocated-round [] f (g ∷ fs) before = refl
allocated-round (true ∷ bs) f fs before = refl
allocated-round (false ∷ bs) f fs before = refl

deliver-received :
    (d : Dev) (p : ℕ) (w : World)
    → received d (deliver d p w).1.calls
      ≡ (if first_of w.allocs then frame_of w p ∷ received d w.calls else received d w.calls)
unfolding deliver
deliver-received sn0 p w = ground arith
deliver-received sn1 p w = ground arith

deliver-allocs : (d : Dev) (p : ℕ) (w : World) → (deliver d p w).1.allocs ≡ rest_of w.allocs
unfolding deliver
deliver-allocs sn0 p w = ground arith
deliver-allocs sn1 p w = ground arith

deliver-frames : (d : Dev) (p : ℕ) (w : World) (y : ℕ) → frame_of (deliver d p w).1 y ≡ frame_of w y
unfolding deliver
deliver-frames sn0 p w y = ground arith
deliver-frames sn1 p w y = ground arith

deliver-scheduled :
    (d : Dev) (p : ℕ) (w : World) (e : Dev)
    → scheduled e (deliver d p w).1.calls ≡ scheduled e w.calls
unfolding deliver
deliver-scheduled sn0 p w sn0 = ground arith
deliver-scheduled sn0 p w sn1 = ground arith
deliver-scheduled sn1 p w sn0 = ground arith
deliver-scheduled sn1 p w sn1 = ground arith

released-same :
    (d : Dev) (p : ℕ) (w : World)
    → ((released d p w).calls ≡ w.calls)
      × ((released d p w).allocs ≡ w.allocs)
      × ((y : ℕ) → frame_of (released d p w) y ≡ frame_of w y)
released-same sn0 p w = (refl, refl, λ y. ground arith)
released-same sn1 p w = (refl, refl, λ y. ground arith)

dequeued-same :
    (d : Dev) (p : ℕ) (w : World)
    → ((dequeued d p w).calls ≡ w.calls)
      × ((dequeued d p w).allocs ≡ w.allocs)
      × ((y : ℕ) → frame_of (dequeued d p w) y ≡ frame_of w y)
dequeued-same sn0 p w = (refl, refl, λ y. refl)
dequeued-same sn1 p w = (refl, refl, λ y. refl)

-- What one round of the loop hands over, and what it leaves of the other frames.
pub round-received :
    (d : Dev) (x : ℕ) (w : World)
    → let u = released (other d) x (deliver d x (dequeued d x w)).1 in
      (received d u.calls
        ≡ (if first_of w.allocs then frame_of w x ∷ received d w.calls else received d w.calls))
      × (u.allocs ≡ rest_of w.allocs)
      × ((y : ℕ) → frame_of u y ≡ frame_of w y)
round-received d x w =
    let v = dequeued d x w in
    let u = (deliver d x v).1 in
    let a = dequeued-same d x w in
    let b = released-same (other d) x u in
    (
      ap (received d) b.0
          ∙ deliver-received d x v
          ∙ ap (λ bs. if first_of bs then frame_of v x ∷ received d v.calls else received d v.calls)
              a.1
          ∙ ap₂ (λ f cs. if first_of w.allocs then f ∷ received d cs else received d cs) (a.2 x)
              a.0,
      b.1 ∙ deliver-allocs d x v ∙ ap rest_of a.1,
      λ y. b.2 y ∙ deliver-frames d x v y ∙ a.2 y,
    )

-- A round of the loop neither schedules a poll nor completes one.
pub round-scheduled :
    (d : Dev) (x : ℕ) (w : World) (e : Dev)
    → scheduled e (released (other d) x (deliver d x (dequeued d x w)).1).calls
      ≡ scheduled e w.calls
round-scheduled d x w e =
    ap (scheduled e) (released-same (other d) x (deliver d x (dequeued d x w)).1).0
    ∙ deliver-scheduled d x (dequeued d x w) e
    ∙ ap (scheduled e) (dequeued-same d x w).0

pub map-same :
    {A : Type 0} (f g : ℕ → A) (xs : List ℕ) → ((y : ℕ) → f y ≡ g y) → map f xs ≡ map g xs
map-same f g [] e = refl
map-same f g (x ∷ xs) e = ap₂ ◌∷◌ (e x) (map-same f g xs e)
