-- ===== src/Snull/Receive/Rounds.antt =====
-- One round of the poll loop: what it delivers, where its packet goes, and what it leaves of the devices.
use linux_learn_demo_code.Base.{
  length, ℕ, suc, true, false, ◌&&◌, none, List, ◌∷◌, if◌then◌else◌, ◌≡◌, refl, sym, ◌∙◌, ap, arith,
}
use linux_learn_demo_code.Snull.Types.{Dev, sn0, sn1, other, ok, World, NetDevice, priv, Call}
use linux_learn_demo_code.Snull.Chains.{
  Loc, pool, queue, Place, at, in_flight, head, updated, moved,
}
use linux_learn_demo_code.Snull.Buffers.Refine.{Inv, Keeps, Keeps-Inv, release_buffer_refines}
use linux_learn_demo_code.Snull.Buffers.States.{is_nil, dequeued, released}
use linux_learn_demo_code.Snull.Buffers.{release_buffer}
use linux_learn_demo_code.Snull.Receive.{deliver, poll_one}
use linux_learn_demo_code.Snull.Receive.Passed.{received}

-- How many frames the poll of a device has passed on.
abbrev pub passed_on : Dev → List Call → ℕ
passed_on d cs = length (received d cs)

deliver-packets : (d : Dev) (p : ℕ) (w : World) → (deliver d p w).1.packets ≡ w.packets
unfolding deliver
deliver-packets sn0 p w = ground arith
deliver-packets sn1 p w = ground arith

deliver-heads : (d : Dev) (p : ℕ) (w : World) (l : Loc) → head (deliver d p w).1 l ≡ head w l
unfolding deliver
deliver-heads sn0 p w (pool sn0) = ground arith
deliver-heads sn1 p w (pool sn0) = ground arith
deliver-heads sn0 p w (queue sn0) = ground arith
deliver-heads sn1 p w (queue sn0) = ground arith
deliver-heads _ p w _ = ground arith

deliver-locks :
    (d : Dev) (p : ℕ) (w : World) (e : Dev) → (priv (deliver d p w).1 e).locked ≡ (priv w e).locked
unfolding deliver
deliver-locks sn0 p w sn0 = ground arith
deliver-locks sn1 p w sn0 = ground arith
deliver-locks _ p w _ = ground arith

deliver-Keeps : (d : Dev) (p : ℕ) (w : World) → Keeps w (deliver d p w).1
deliver-Keeps d p w = record {
  packets = deliver-packets d p w;
  heads = deliver-heads d p w;
  locks = deliver-locks d p w;
}

-- A delivered packet is one call more, and a dropped one none.
pub deliver-passed_on :
    (d : Dev) (p : ℕ) (w : World)
    → passed_on d (deliver d p w).1.calls
      ≡ (if (deliver d p w).0 then suc (passed_on d w.calls) else passed_on d w.calls)
unfolding deliver
deliver-passed_on sn0 p w = ground arith
deliver-passed_on sn1 p w = ground arith

pub calls-released : (d : Dev) (p : ℕ) (w : World) → (released d p w).calls ≡ w.calls
calls-released sn0 p w = refl
calls-released sn1 p w = refl

pub calls-dequeued : (d : Dev) (p : ℕ) (w : World) → (dequeued d p w).calls ≡ w.calls
calls-dequeued sn0 p w = refl
calls-dequeued sn1 p w = refl

-- One round delivers or drops the packet, and puts it back into its owner's pool either way.
pub poll_one_lem :
    (d : Dev) (p : ℕ) (w : World) (place : ℕ → Place) (lists : Loc → List ℕ)
    → Inv w place lists
    → place p ≡ in_flight
    → (w.packets p).dev ≡ other d
    → let u = released (other d) p (deliver d p w).1 in
      (poll_one d p w ≡ ok ((deliver d p w).0, u))
      × Inv u
          (moved place p (at (pool (other d))))
          (updated lists (pool (other d)) (p ∷ lists (pool (other d))))
unfolding poll_one
poll_one_lem d p w place lists inv flying own = (rw r.0, r.1)
  where
    u : World
    u = (deliver d p w).1

    own' : (u.packets p).dev ≡ other d
    own' = ap (λ h. (h p).dev) (deliver-packets d p w) ∙ own

    r :
        (release_buffer p u ≡ ok (released (other d) p u))
        × Inv
            (released (other d) p u)
            (moved place p (at (pool (other d))))
            (updated lists (pool (other d)) (p ∷ lists (pool (other d))))
        × ((priv (released (other d) p u) (other d)).stopped ≡ (
            if (priv u (other d)).stopped && is_nil (lists (pool (other d)))
            then false
            else (priv u (other d)).stopped))
    r =
        release_buffer_refines (other d) u place lists p
          (Keeps-Inv w u place lists (deliver-Keeps d p w) inv) flying own'

-- What the rounds of a poll do to a device: its flags of interrupts are as they were, and if its
-- transmit queue was stopped with an empty pool, or its pool was not empty, one of the two holds still.
pub record Unharmed (v v' : NetDevice) : Type 0 where
  pub status : v'.status ≡ v.status
  pub ints : v'.rx_int_enabled ≡ v.rx_int_enabled
  pub stops : (v.ppool ≡ none → v.stopped ≡ true) → v'.ppool ≡ none → v'.stopped ≡ true

pub Unharmed-same : (v : NetDevice) → Unharmed v v
Unharmed-same v = record { status = refl; ints = refl; stops = λ h. h }

pub Unharmed-then : (v v' v'' : NetDevice) → Unharmed v v' → Unharmed v' v'' → Unharmed v v''
Unharmed-then v v' v'' a b = record {
  status = b.status ∙ a.status;
  ints = b.ints ∙ a.ints;
  stops = λ h. b.stops (a.stops h);
}

dequeued-Unharmed :
    (d : Dev) (p : ℕ) (w : World) (e : Dev) → Unharmed (priv w e) (priv (dequeued d p w) e)
dequeued-Unharmed sn0 p w sn0 = record { status = refl; ints = refl; stops = λ h. h }
dequeued-Unharmed sn0 p w sn1 = Unharmed-same w.dev1
dequeued-Unharmed sn1 p w sn0 = Unharmed-same w.dev0
dequeued-Unharmed sn1 p w sn1 = record { status = refl; ints = refl; stops = λ h. h }

released-Unharmed :
    (d : Dev) (p : ℕ) (w : World) (e : Dev) → Unharmed (priv w e) (priv (released d p w) e)
released-Unharmed sn0 p w sn0 = record { status = refl; ints = refl; stops = λ h e. cc }
released-Unharmed sn0 p w sn1 = Unharmed-same w.dev1
released-Unharmed sn1 p w sn0 = Unharmed-same w.dev0
released-Unharmed sn1 p w sn1 = record { status = refl; ints = refl; stops = λ h e. cc }

deliver-flags :
    (d : Dev) (p : ℕ) (w : World) (e : Dev)
    → ((priv (deliver d p w).1 e).status ≡ (priv w e).status)
      × ((priv (deliver d p w).1 e).rx_int_enabled ≡ (priv w e).rx_int_enabled)
unfolding deliver
deliver-flags sn0 p w sn0 = (ground arith, ground arith)
deliver-flags sn1 p w sn0 = (ground arith, ground arith)
deliver-flags _ p w _ = (ground arith, ground arith)

deliver-pool :
    (d : Dev) (p : ℕ) (w : World) (e : Dev)
    → ((priv (deliver d p w).1 e).ppool ≡ (priv w e).ppool)
      × ((priv (deliver d p w).1 e).stopped ≡ (priv w e).stopped)
unfolding deliver
deliver-pool sn0 p w sn0 = (ground arith, ground arith)
deliver-pool sn1 p w sn0 = (ground arith, ground arith)
deliver-pool _ p w _ = (ground arith, ground arith)

deliver-Unharmed :
    (d : Dev) (p : ℕ) (w : World) (e : Dev) → Unharmed (priv w e) (priv (deliver d p w).1 e)
deliver-Unharmed d p w e = record {
  status = (deliver-flags d p w e).0;
  ints = (deliver-flags d p w e).1;
  stops = λ h empty. (deliver-pool d p w e).1 ∙ h (sym (deliver-pool d p w e).0 ∙ empty);
}

-- One round of the loop.
pub round-Unharmed :
    (d : Dev) (x : ℕ) (w : World) (e : Dev)
    → Unharmed (priv w e) (priv (released (other d) x (deliver d x (dequeued d x w)).1) e)
round-Unharmed d x w e =
    let w₁ = dequeued d x w in
    let w₂ = (deliver d x w₁).1 in
    Unharmed-then (priv w e) (priv w₁ e) (priv (released (other d) x w₂) e)
      (dequeued-Unharmed d x w e)
      (Unharmed-then (priv w₁ e) (priv w₂ e) (priv (released (other d) x w₂) e)
        (deliver-Unharmed d x w₁ e) (released-Unharmed (other d) x w₂ e))
