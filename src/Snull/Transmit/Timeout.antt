-- ===== src/Snull/Transmit/Timeout.antt =====
-- The transmit timeout, and the transmissions that fault.
use linux_learn_demo_code.Base.{
  ℕ, ◌≤◌, ◌<◌, false, none, some, List, ◌∷◌, length, ◌≡◌, refl, ◌∙◌, arith, le→ltb, lt→ltb,
  add_ulong, Bool-cases, inl, inr,
}
use linux_learn_demo_code.Snull.Types.{
  Dev, sn0, sn1, null_deref, overrun, ok, fault, World, Env, Skb, priv, set_stopped, dev_kfree_skb,
}
use linux_learn_demo_code.Snull.Buffers.States.{get_tx_buffer-eq, get_tx_buffer-empty}
use linux_learn_demo_code.Snull.Receive.{interrupt, irq_handled}
use linux_learn_demo_code.Snull.Receive.Interrupt.{sent, regular-tx, napi-tx}
use linux_learn_demo_code.Snull.Transmit.{
  tx, hw_tx, tx_timeout, pad, eth_data_len, min_len, timed_out, count_error,
}
use linux_learn_demo_code.Snull.Transmit.Armed.{armed, len-pad, armed-keeps}
use linux_learn_demo_code.Snull.Transmit.Frame.{length-pad}

hw_tx-empty :
    (k : Env) (buf : List ℕ) (len : ℕ) (d : Dev) (w : World)
    → min_len ≤ len
    → (priv w d).locked ≡ false
    → (priv w d).ppool ≡ none
    → hw_tx k buf len d w ≡ fault null_deref
unfolding hw_tx
hw_tx-empty k buf len d w lo l e = rw (le→ltb len min_len lo, get_tx_buffer-empty d w l e)

hw_tx-long :
    (k : Env) (buf : List ℕ) (len : ℕ) (d : Dev) (w : World) (x : ℕ)
    → min_len ≤ len
    → eth_data_len < len
    → (priv w d).locked ≡ false
    → (priv w d).ppool ≡ some x
    → hw_tx k buf len d w ≡ fault overrun
unfolding hw_tx
hw_tx-long k buf len d w x lo hi l e =
    rw (le→ltb len min_len lo, get_tx_buffer-eq d w x l e, lt→ltb eth_data_len len hi)

-- Whatever is sent, a transmission on a device whose pool is empty reads through a null pointer.
pub tx-empty :
    (k : Env) (skb : Skb) (d : Dev) (w : World)
    → (priv w d).locked ≡ false
    → (priv w d).ppool ≡ none
    → tx k skb d w ≡ fault null_deref
unfolding tx
tx-empty k skb d w l e = rw (len-pad skb.bytes) (
    hw_tx-empty k (pad skb.bytes) (length (pad skb.bytes)) d (armed skb d w)
      (omega (arith, length-pad skb.bytes))
      (armed-keeps skb d w (λ v. v.locked) (λ v s. refl) d ∙ l)
      (armed-keeps skb d w (λ v. v.ppool) (λ v s. refl) d ∙ e))

-- An skb of more than 1500 bytes, such as a frame of the largest MTU with its 14 bytes of header, is
-- copied past the end of the packet's buffer.
pub tx-overrun :
    (k : Env) (skb : Skb) (d : Dev) (w : World) (x : ℕ)
    → (priv w d).locked ≡ false
    → (priv w d).ppool ≡ some x
    → eth_data_len < length skb.bytes
    → tx k skb d w ≡ fault overrun
unfolding tx
tx-overrun k skb d w x l e big = rw (len-pad skb.bytes) (
    hw_tx-long k (pad skb.bytes) (length (pad skb.bytes)) d (armed skb d w) x
      (omega (arith, length-pad skb.bytes)) (ground (arith, len-pad skb.bytes))
      (armed-keeps skb d w (λ v. v.locked) (λ v s. refl) d ∙ l)
      (armed-keeps skb d w (λ v. v.ppool) (λ v s. refl) d ∙ e))

abbrev expired : Dev → World → World
unfolding timed_out count_error
expired d w = set_stopped d false (count_error d (sent d (timed_out d w)))

interrupt-tx :
    (k : Env) (d : Dev) (w : World)
    → (priv w d).locked ≡ false
    → interrupt k (some d) (timed_out d w) ≡ ok (irq_handled, sent d (timed_out d w))
unfolding interrupt timed_out
interrupt-tx k sn0 w l = elim (Bool-cases k.use_napi) [
  | inl e ↦ rw (e, napi-tx sn0 (timed_out sn0 w) refl l)
  | inr e ↦ rw (e, regular-tx sn0 (timed_out sn0 w) refl l)
]
interrupt-tx k sn1 w l = elim (Bool-cases k.use_napi) [
  | inl e ↦ rw (e, napi-tx sn1 (timed_out sn1 w) refl l)
  | inr e ↦ rw (e, regular-tx sn1 (timed_out sn1 w) refl l)
]

tx_timeout-eq :
    (k : Env) (d : Dev) (w : World)
    → (priv w d).locked ≡ false
    → tx_timeout k d w ≡ ok (expired d w)
unfolding tx_timeout
tx_timeout-eq k d w l = rw (interrupt-tx k d w l)

-- What the timeout does to its device and to the list of calls.
pub record TimedOut (d : Dev) (w w' : World) : Type 0 where
  pub awake : (priv w' d).stopped ≡ false
  pub free : (priv w' d).locked ≡ false
  pub pool_kept : (priv w' d).ppool ≡ (priv w d).ppool
  pub errors : (priv w' d).stats.tx_errors ≡ add_ulong (priv w d).stats.tx_errors 1
  pub packets : (priv w' d).stats.tx_packets ≡ add_ulong (priv w d).stats.tx_packets 1
  pub calls : w'.calls ≡ dev_kfree_skb (priv w d).skb ∷ w.calls

expired-TimedOut : (d : Dev) (w : World) → TimedOut d w (expired d w)
unfolding timed_out count_error
expired-TimedOut sn0 w = record {
  awake = refl;
  free = refl;
  pool_kept = refl;
  errors = refl;
  packets = refl;
  calls = refl;
}
expired-TimedOut sn1 w = record {
  awake = refl;
  free = refl;
  pool_kept = refl;
  errors = refl;
  packets = refl;
  calls = refl;
}

-- Under either handler `snull_tx_timeout` returns if the lock is free: it counts an error and a
-- transmitted packet, frees the skb that is remembered, starts the transmit queue again and leaves
-- the pool as it was.
pub tx_timeout_lem :
    (k : Env) (d : Dev) (w : World)
    → (priv w d).locked ≡ false
    → (w' : World) × (tx_timeout k d w ≡ ok w') × TimedOut d w w'
tx_timeout_lem k d w l = (expired d w, tx_timeout-eq k d w l, expired-TimedOut d w)

-- The timeout starts the queue of a device whose pool is empty, whatever stopped it, and the next
-- transmission on that device reads through a null pointer.
pub tx_timeout-tx :
    (k : Env) (d : Dev) (w : World) (skb : Skb)
    → (priv w d).locked ≡ false
    → (priv w d).ppool ≡ none
    → (w' : World) × (tx_timeout k d w ≡ ok w')
      × ((priv w' d).stopped ≡ false)
      × (tx k skb d w' ≡ fault null_deref)
tx_timeout-tx k d w skb l e =
    let t = expired-TimedOut d w in
    (
      expired d w,
      tx_timeout-eq k d w l,
      t.awake,
      tx-empty k skb d (expired d w) t.free (t.pool_kept ∙ e),
    )
