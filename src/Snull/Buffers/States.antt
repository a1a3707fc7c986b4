-- ===== src/Snull/Buffers/States.antt =====
-- The states that the buffer routines leave, by the heads of the lists.
use linux_learn_demo_code.Base.{
  ℕ, Bool, true, false, ◌&&◌, Option, none, some, List, [], ◌∷◌, if◌then◌else◌, is_none, ◌≡◌, refl,
  arith, ==_refl,
}
use linux_learn_demo_code.Snull.Types.{
  Dev, sn0, sn1, null_deref, ok, fault, World, priv, put, store, NetDevice, Packet,
}
use linux_learn_demo_code.Snull.Chains.{Loc, pool, queue, head, updated, Chain}
use linux_learn_demo_code.Snull.Buffers.{get_tx_buffer, release_buffer, enqueue_buf, dequeue_buf}

-- The states that the routines leave.
abbrev pub got : Dev → ℕ → World → World
got d x w =
    let v = priv w d in
    let rest = (w.packets x).next in
    put d
      (record v {
        ppool = rest;
        locked = false;
        stopped = if is_none rest then true else v.stopped;
      })
      w

abbrev pub linked : ℕ → Option ℕ → World → World
linked p q w =
    let k = w.packets p in record w { packets = store w.packets p (record k { next = q }) }

abbrev pub released : Dev → ℕ → World → World
released d p w =
    let v = priv w d in
    put d
      (record v {
        ppool = some p;
        locked = false;
        stopped = if v.stopped && is_none v.ppool then false else v.stopped;
      })
      (linked p v.ppool w)

abbrev pub enqueued : Dev → ℕ → World → World
enqueued d p w =
    let v = priv w d in
    put d (record v { rx_queue = some p; locked = false }) (linked p v.rx_queue w)

abbrev pub dequeued : Dev → ℕ → World → World
dequeued d p w =
    let v = priv w d in put d (record v { rx_queue = (w.packets p).next; locked = false }) w

pub get_tx_buffer-eq :
    (d : Dev) (w : World) (x : ℕ)
    → (priv w d).locked ≡ false
    → (priv w d).ppool ≡ some x
    → get_tx_buffer d w ≡ ok (x, got d x w)
unfolding get_tx_buffer
get_tx_buffer-eq sn0 w x l e = ground arith
get_tx_buffer-eq sn1 w x l e = ground arith

-- On an empty pool the routine reads through the null pointer.
pub get_tx_buffer-empty :
    (d : Dev) (w : World)
    → (priv w d).locked ≡ false
    → (priv w d).ppool ≡ none
    → get_tx_buffer d w ≡ fault null_deref
unfolding get_tx_buffer
get_tx_buffer-empty sn0 w l e = ground arith
get_tx_buffer-empty sn1 w l e = ground arith

pub release_buffer-eq :
    (d : Dev) (w : World) (p : ℕ)
    → (w.packets p).dev ≡ d
    → (priv w d).locked ≡ false
    → release_buffer p w ≡ ok (released d p w)
unfolding release_buffer
release_buffer-eq sn0 w p own l = ground (arith, ==_refl p)
release_buffer-eq sn1 w p own l = ground (arith, ==_refl p)

pub enqueue_buf-eq :
    (d : Dev) (w : World) (p : ℕ)
    → (priv w d).locked ≡ false
    → enqueue_buf d p w ≡ ok (enqueued d p w)
unfolding enqueue_buf
enqueue_buf-eq sn0 w p l = ground arith
enqueue_buf-eq sn1 w p l = ground arith

pub dequeue_buf-eq :
    (d : Dev) (w : World) (p : ℕ)
    → (priv w d).locked ≡ false
    → (priv w d).rx_queue ≡ some p
    → dequeue_buf d w ≡ ok (some p, dequeued d p w)
unfolding dequeue_buf
dequeue_buf-eq sn0 w p l e = ground arith
dequeue_buf-eq sn1 w p l e = ground arith

pub head-got :
    (d : Dev) (w : World) (x : ℕ) (m : Loc)
    → head (got d x w) m ≡ updated (head w) (pool d) (w.packets x).next m
head-got sn0 w x (pool sn0) = refl
head-got sn0 w x (queue sn0) = refl
head-got sn1 w x (pool sn0) = refl
head-got sn1 w x (queue sn0) = refl
head-got _ w x _ = refl

pub head-dequeued :
    (d : Dev) (w : World) (x : ℕ) (m : Loc)
    → head (dequeued d x w) m ≡ updated (head w) (queue d) (w.packets x).next m
head-dequeued sn0 w x (pool sn0) = refl
head-dequeued sn0 w x (queue sn0) = refl
head-dequeued sn1 w x (pool sn0) = refl
head-dequeued sn1 w x (queue sn0) = refl
head-dequeued _ w x _ = refl

pub head-released :
    (d : Dev) (w : World) (p : ℕ) (m : Loc)
    → head (released d p w) m ≡ updated (head w) (pool d) (some p) m
head-released sn0 w x (pool sn0) = refl
head-released sn0 w x (queue sn0) = refl
head-released sn1 w x (pool sn0) = refl
head-released sn1 w x (queue sn0) = refl
head-released _ w x _ = refl

pub head-enqueued :
    (d : Dev) (w : World) (p : ℕ) (m : Loc)
    → head (enqueued d p w) m ≡ updated (head w) (queue d) (some p) m
head-enqueued sn0 w x (pool sn0) = refl
head-enqueued sn0 w x (queue sn0) = refl
head-enqueued sn1 w x (pool sn0) = refl
head-enqueued sn1 w x (queue sn0) = refl
head-enqueued _ w x _ = refl

pub put-free :
    (d : Dev) (v : NetDevice) (w : World)
    → v.locked ≡ false
    → ((e : Dev) → (priv w e).locked ≡ false)
    → (e : Dev) → (priv (put d v w) e).locked ≡ false
put-free sn0 v w h free sn0 = h
put-free sn0 v w h free sn1 = free sn1
put-free sn1 v w h free sn0 = free sn0
put-free sn1 v w h free sn1 = h

pub linked-free :
    (w : World) (p : ℕ) (q : Option ℕ)
    → ((e : Dev) → (priv w e).locked ≡ false)
    → (e : Dev) → (priv (linked p q w) e).locked ≡ false
linked-free w p q free sn0 = free sn0
linked-free w p q free sn1 = free sn1

pub packets-put : (d : Dev) (v : NetDevice) (w : World) → (put d v w).packets ≡ w.packets
packets-put sn0 v w = refl
packets-put sn1 v w = refl

pub priv-put : (d : Dev) (v : NetDevice) (w : World) → priv (put d v w) d ≡ v
priv-put sn0 v w = refl
priv-put sn1 v w = refl

abbrev pub is_nil : List ℕ → Bool
is_nil [] = true
is_nil (x ∷ xs) = false

pub is_none-Chain :
    (h : ℕ → Packet) (q : Option ℕ) (xs : List ℕ) → Chain h q xs → is_none q ≡ is_nil xs
is_none-Chain h q [] c = rw c
is_none-Chain h q (x ∷ xs) c = rw c.0
