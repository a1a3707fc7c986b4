-- ===== src/Snull/Transmit/Regular.antt =====
-- One transmission under the regular handler, from the call of the kernel to the freed skb.
use linux_learn_demo_code.Base.{
  ℕ, ◌≤◌, true, false, none, some, List, ◌++◌, take, drop, ◌≡◌, refl, arith, ==_refl, le→ltb,
}
use linux_learn_demo_code.Snull.Types.{
  Dev, sn0, sn1, other, ok, World, Env, no_status, priv, put, store,
}
use linux_learn_demo_code.Snull.Buffers.States.{
  got, enqueued, released, get_tx_buffer-eq, enqueue_buf-eq,
}
use linux_learn_demo_code.Snull.Receive.{interrupt}
use linux_learn_demo_code.Snull.Receive.Interrupt.{received, sent, tx_only, regular-rx, regular-tx}
use linux_learn_demo_code.Snull.Transmit.{
  hw_tx, rewrite_header, notify, finish_tx, locks_up, min_len, eth_data_len,
}

-- What the driver relies on between two calls of the kernel, for a transmission on `d`.
pub record IsReady (d : Dev) (w : World) (x : ℕ) : Type 0 where
  pub idle : (e : Dev) → (priv w e).status ≡ no_status
  pub free : (e : Dev) → (priv w e).locked ≡ false
  pub first : (priv w d).ppool ≡ some x
  pub own : (w.packets x).dev ≡ d
  pub drained : (priv w (other d)).rx_queue ≡ none
  pub listens : (priv w (other d)).rx_int_enabled ≡ true

abbrev pub filled : ℕ → List ℕ → ℕ → World → World
filled x frame len w =
    let q = w.packets x in
    record w {
      packets =
          store w.packets x
            (record q { datalen = len; payload = take len frame ++ drop len q.payload });
    }

-- The frame waits at the twin device, and its interrupt is raised.
abbrev pub offered : Dev → ℕ → List ℕ → ℕ → World → World
offered d x frame len w =
    let e = other d in
    let u = enqueued e x (filled x frame len (got d x w)) in
    let v = priv u e in
    let s = v.status in put e (record v { status = record s { rx_intr = true } }) u

abbrev pub taken : Dev → ℕ → List ℕ → ℕ → World → World
taken d x frame len w = released d x (received (other d) x (offered d x frame len w))

abbrev pub begun : Dev → List ℕ → ℕ → World → World
begun d frame len w =
    let v = priv w d in
    let s = v.status in
    put d
      (record v { tx_packetlen = len; tx_packetdata = frame; status = record s { tx_intr = true } })
      w

abbrev pub over : Dev → ℕ → List ℕ → ℕ → World → World
over d x frame len w = sent d (begun d frame len (taken d x frame len w))

notify-eq :
    (k : Env) (d : Dev) (w : World) (x : ℕ) (frame : List ℕ) (len : ℕ)
    → k.use_napi ≡ false
    → IsReady d w x
    → notify k (other d) (enqueued (other d) x (filled x frame len (got d x w)))
      ≡ ok (taken d x frame len w)
unfolding notify interrupt
notify-eq k sn0 w x frame len reg r = ground (
  arith,
  regular-rx sn1 (offered sn0 x frame len w) x,
  r.idle sn1,
  r.free sn0,
  r.free sn1,
  r.own,
  r.listens,
  ==_refl x,
)
notify-eq k sn1 w x frame len reg r = ground (
  arith,
  regular-rx sn0 (offered sn1 x frame len w) x,
  r.idle sn0,
  r.free sn0,
  r.free sn1,
  r.own,
  r.listens,
  ==_refl x,
)

finish_tx-eq :
    (k : Env) (d : Dev) (w : World)
    → k.use_napi ≡ false
    → locks_up k d w ≡ false
    → (priv w d).status ≡ tx_only
    → (priv w d).locked ≡ false
    → finish_tx k d w ≡ ok (sent d w)
unfolding finish_tx interrupt
finish_tx-eq k d w reg up st l = rw (up, reg, regular-tx d w st l)

pub hw_tx-eq :
    (k : Env) (d : Dev) (w : World) (x : ℕ) (buf : List ℕ) (len : ℕ)
    → k.use_napi ≡ false
    → IsReady d w x
    → min_len ≤ len
    → len ≤ eth_data_len
    → locks_up k d w ≡ false
    → hw_tx k buf len d w ≡ ok (over d x (rewrite_header k.ip_fast_csum buf) len w)
unfolding hw_tx
hw_tx-eq k sn0 w x buf len reg r lo hi up =
    let frame = rewrite_header k.ip_fast_csum buf in
    rw
      (
        le→ltb len min_len lo,
        get_tx_buffer-eq sn0 w x (r.free sn0) r.first,
        le→ltb eth_data_len len hi,
        enqueue_buf-eq sn1 (filled x frame len (got sn0 x w)) x (r.free sn1),
        notify-eq k sn0 w x frame len reg r,
      )
      (finish_tx-eq k sn0 (begun sn0 frame len (taken sn0 x frame len w)) reg up (rw (r.idle sn0))
        refl)
hw_tx-eq k sn1 w x buf len reg r lo hi up =
    let frame = rewrite_header k.ip_fast_csum buf in
    rw
      (
        le→ltb len min_len lo,
        get_tx_buffer-eq sn1 w x (r.free sn1) r.first,
        le→ltb eth_data_len len hi,
        enqueue_buf-eq sn0 (filled x frame len (got sn1 x w)) x (r.free sn0),
        notify-eq k sn1 w x frame len reg r,
      )
      (finish_tx-eq k sn1 (begun sn1 frame len (taken sn1 x frame len w)) reg up (rw (r.idle sn1))
        refl)
