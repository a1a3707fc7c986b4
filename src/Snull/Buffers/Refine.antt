-- ===== src/Snull/Buffers/Refine.antt =====
-- The buffer routines against the four lists: each succeeds, and does to the lists what its name says.
use linux_learn_demo_code.Base.{
  ℕ, true, false, ◌&&◌, some, List, ◌∷◌, if◌then◌else◌, ◌≡◌, refl, ◌∙◌,
}
use linux_learn_demo_code.Snull.Types.{Dev, other, ok, World, priv}
use linux_learn_demo_code.Snull.Chains.{
  Loc, pool, queue, Place, at, in_flight, head, updated, moved, Chain, Held, Wf, pop_Wf, push_Wf,
  heads_Wf, front,
}
use linux_learn_demo_code.Snull.Buffers.{get_tx_buffer, release_buffer, enqueue_buf, dequeue_buf}
use linux_learn_demo_code.Snull.Buffers.States.{
  dequeue_buf-eq, dequeued, enqueue_buf-eq, enqueued, get_tx_buffer-eq, got, head-dequeued,
  head-enqueued, head-got, head-released, is_nil, is_none-Chain, linked, linked-free, packets-put,
  priv-put, put-free, release_buffer-eq, released,
}

-- The lists are well formed, and no lock is held.
pub record Inv (w : World) (place : ℕ → Place) (lists : Loc → List ℕ) : Type 0 where
  pub tracks : Wf w.packets (head w) place lists
  pub free : (d : Dev) → (priv w d).locked ≡ false

module _ (d : Dev) (w : World) (place : ℕ → Place) (lists : Loc → List ℕ) where
  -- On a pool that holds `x` and then `xs`, `snull_get_tx_buffer` returns `x`, which the device owns
  -- and which is on no list afterwards, and leaves `xs` in the pool; the other lists keep their
  -- packets. The transmit queue is stopped if the pool is empty now, and is left as it was otherwise.
  pub get_tx_buffer_refines :
      (x : ℕ) (xs : List ℕ)
      → Inv w place lists
      → lists (pool d) ≡ x ∷ xs
      → (get_tx_buffer d w ≡ ok (x, got d x w))
        × Inv (got d x w) (moved place x in_flight) (updated lists (pool d) xs)
        × ((w.packets x).dev ≡ d)
        × ((priv (got d x w) d).stopped ≡ (if is_nil xs then true else (priv w d).stopped))
  get_tx_buffer_refines x xs inv e = (
    get_tx_buffer-eq d w x (inv.free d) f.0.0,
    record {
      tracks = rw packets-put (
          heads_Wf w.packets _ (head (got d x w)) (moved place x in_flight)
            (updated lists (pool d) xs) (head-got d w x)
            (pop_Wf w.packets (head w) place lists (pool d) x xs inv.tracks e));
      free = put-free d _ w refl inv.free;
    },
    f.1.1,
    rw (priv-put, is_none-Chain w.packets (w.packets x).next xs f.0.1) refl,
  )
    where
      f : Chain w.packets (head w (pool d)) (x ∷ xs) × Held w.packets place (pool d) (x ∷ xs)
      f = front w.packets (head w) place lists (pool d) x xs inv.tracks e

  -- `snull_release_buffer` puts a packet that is in flight in front of the pool of the device that
  -- owns it and changes no other list. It starts the transmit queue again if that was stopped and
  -- the pool was empty, and else leaves it as it was.
  pub release_buffer_refines :
      (p : ℕ)
      → Inv w place lists
      → place p ≡ in_flight
      → (w.packets p).dev ≡ d
      → (release_buffer p w ≡ ok (released d p w))
        × Inv
            (released d p w)
            (moved place p (at (pool d)))
            (updated lists (pool d) (p ∷ lists (pool d)))
        × ((priv (released d p w) d).stopped
            ≡ (if (priv w d).stopped && is_nil (lists (pool d)) then false else (priv w d).stopped))
  release_buffer_refines p inv flying own = (
    release_buffer-eq d w p own (inv.free d),
    record {
      tracks = rw packets-put (
          heads_Wf (linked p (priv w d).ppool w).packets _ (head (released d p w))
            (moved place p (at (pool d))) (updated lists (pool d) (p ∷ lists (pool d)))
            (head-released d w p)
            (push_Wf w.packets (head w) place lists (pool d) p _ inv.tracks flying own refl));
      free =
          put-free d _ (linked p (priv w d).ppool w) refl
            (linked-free w p (priv w d).ppool inv.free);
    },
    rw (priv-put, is_none-Chain w.packets (priv w d).ppool (lists (pool d)) (inv.tracks (pool d)).0)
        refl,
  )

  -- `snull_enqueue_buf` puts a packet of the twin device that is in flight in front of the receive
  -- queue, so that the queue is last in, first out, and changes no other list.
  pub enqueue_buf_refines :
      (p : ℕ)
      → Inv w place lists
      → place p ≡ in_flight
      → (w.packets p).dev ≡ other d
      → (enqueue_buf d p w ≡ ok (enqueued d p w))
        × Inv
            (enqueued d p w)
            (moved place p (at (queue d)))
            (updated lists (queue d) (p ∷ lists (queue d)))
  enqueue_buf_refines p inv flying own = (
    enqueue_buf-eq d w p (inv.free d),
    record {
      tracks = rw packets-put (
          heads_Wf (linked p (priv w d).rx_queue w).packets _ (head (enqueued d p w))
            (moved place p (at (queue d))) (updated lists (queue d) (p ∷ lists (queue d)))
            (head-enqueued d w p)
            (push_Wf w.packets (head w) place lists (queue d) p _ inv.tracks flying own refl));
      free =
          put-free d _ (linked p (priv w d).rx_queue w) refl
            (linked-free w p (priv w d).rx_queue inv.free);
    },
  )

  -- `snull_dequeue_buf` takes the first packet off a receive queue that is not empty; the packet
  -- belongs to the twin device and is on no list afterwards.
  pub dequeue_buf_refines :
      (x : ℕ) (xs : List ℕ)
      → Inv w place lists
      → lists (queue d) ≡ x ∷ xs
      → (dequeue_buf d w ≡ ok (some x, dequeued d x w))
        × Inv (dequeued d x w) (moved place x in_flight) (updated lists (queue d) xs)
        × ((w.packets x).dev ≡ other d)
  dequeue_buf_refines x xs inv e = (
    dequeue_buf-eq d w x (inv.free d) f.0.0,
    record {
      tracks = rw packets-put (
          heads_Wf w.packets _ (head (dequeued d x w)) (moved place x in_flight)
            (updated lists (queue d) xs) (head-dequeued d w x)
            (pop_Wf w.packets (head w) place lists (queue d) x xs inv.tracks e));
      free = put-free d _ w refl inv.free;
    },
    f.1.1,
  )
    where
      f : Chain w.packets (head w (queue d)) (x ∷ xs) × Held w.packets place (queue d) (x ∷ xs)
      f = front w.packets (head w) place lists (queue d) x xs inv.tracks e

-- A change of other fields keeps the lists.
pub record Keeps (w u : World) : Type 0 where
  pub packets : u.packets ≡ w.packets
  pub heads : (l : Loc) → head u l ≡ head w l
  pub locks : (e : Dev) → (priv u e).locked ≡ (priv w e).locked

pub Keeps-Inv :
    (w u : World) (place : ℕ → Place) (lists : Loc → List ℕ)
    → Keeps w u
    → Inv w place lists
    → Inv u place lists
Keeps-Inv w u place lists k inv = record {
  tracks = rw k.packets (heads_Wf w.packets (head w) (head u) place lists k.heads inv.tracks);
  free = λ e. k.locks e ∙ inv.free e;
}
