-- ===== src/Snull/Transmit/Napi.antt =====
-- Transmission under the NAPI handler: the frame waits at the twin device until it is polled.
pub mod Deferred
pub mod Others
pub mod Calm
use linux_learn_demo_code.Base.{
  ℕ, ◌+◌, ◌≤◌, Bool, true, false, not, ◌&&◌, Option, none, some, List, [], ◌∷◌, ◌++◌, take, drop,
  length, ltb, if◌then◌else◌, ◌≡◌, refl, sym, ◌∙◌, ap, ap₂, arith, ==_refl, le→ltb, is_none, ◌==◌,
  subst, inl, inr, Bool-cases, add_ulong, ◌%◌,
}
use linux_learn_demo_code.Snull.Types.{
  Dev, sn0, sn1, other, ok, Outcome, ◌>>=◌, World, Env, Skb, NetDevice, no_status, priv, put, log,
  Call, dev_kfree_skb, netif_trans_update, napi_schedule,
}
use linux_learn_demo_code.Snull.Chains.{
  Loc, pool, queue, Place, at, in_flight, head, moved, updated, store-Wf,
}
use linux_learn_demo_code.Snull.Buffers.Refine.{
  Inv, Keeps, Keeps-Inv, get_tx_buffer_refines, enqueue_buf_refines,
}
use linux_learn_demo_code.Snull.Buffers.States.{
  got, enqueued, is_nil, get_tx_buffer-eq, enqueue_buf-eq,
}
use linux_learn_demo_code.Snull.Receive.{interrupt}
use linux_learn_demo_code.Snull.Receive.Interrupt.{scheduled, sent, tx_only, napi-rx, napi-tx}
use linux_learn_demo_code.Snull.Transmit.{
  hw_tx, tx, notify, finish_tx, locks_up, rewrite_header, pad, remember, raise_rx, eth_data_len,
  min_len,
}
use linux_learn_demo_code.Snull.Transmit.Frame.{length-rewrite_header, length-pad}
use linux_learn_demo_code.Snull.Transmit.Armed.{
  take-filled, armed, len-pad, pad-le, armed-keeps, armed-packets, armed-Keeps,
}
use linux_learn_demo_code.Snull.Transmit.Regular.{filled, begun}
use linux_learn_demo_code.Snull.Transmit.Told.{ended, ended-packets, notify-eq, told, told-packets}

-- The whole transmission.
abbrev queued : Dev → ℕ → List ℕ → ℕ → World → World
queued d x frame len w =
    ended d frame len (told (other d) (enqueued (other d) x (filled x frame len (got d x w))))

finish_tx-eq :
    (k : Env) (d : Dev) (w : World)
    → k.use_napi ≡ true
    → locks_up k d w ≡ false
    → (priv w d).status ≡ tx_only
    → (priv w d).locked ≡ false
    → finish_tx k d w ≡ ok (sent d w)
unfolding finish_tx interrupt
finish_tx-eq k d w reg up st l = rw (up, reg, napi-tx d w st l)

-- What a transmission leaves in its way stays clear for its end.
told-twin :
    (d : Dev) (w : World) (x : ℕ) (frame : List ℕ) (len : ℕ) {A : Type 0} (f : NetDevice → A)
    → f (priv (told (other d) (enqueued (other d) x (filled x frame len (got d x w)))) d)
      ≡ f (priv (got d x w) d)
unfolding raise_rx
told-twin sn0 w x frame len f = elim (Bool-cases w.dev1.rx_int_enabled) [
  | inl e ↦ rw e
  | inr e ↦ rw e
]
told-twin sn1 w x frame len f = elim (Bool-cases w.dev0.rx_int_enabled) [
  | inl e ↦ rw e
  | inr e ↦ rw e
]

-- What the driver relies on for a transmission on `d` under NAPI.
pub record IsReady (k : Env) (d : Dev) (w : World) : Type 0 where
  pub napi : k.use_napi ≡ true
  pub steady : locks_up k d w ≡ false
  pub idle : (e : Dev) → (priv w e).status ≡ no_status
  pub free : (e : Dev) → (priv w e).locked ≡ false

twin_free :
    (d : Dev) (w : World) (x : ℕ) (frame : List ℕ) (len : ℕ) (f : NetDevice → Bool)
    → f (priv (filled x frame len (got d x w)) (other d)) ≡ f (priv w (other d))
twin_free sn0 w x frame len f = refl
twin_free sn1 w x frame len f = refl

enqueued-twin :
    (d : Dev) (w : World) (x : ℕ) (frame : List ℕ) (len : ℕ)
    → (priv w (other d)).status ≡ no_status
    → let u = enqueued (other d) x (filled x frame len (got d x w)) in
      ((priv u (other d)).status ≡ no_status) × ((priv u (other d)).locked ≡ false)
enqueued-twin sn0 w x frame len e = (e, refl)
enqueued-twin sn1 w x frame len e = (e, refl)

begun-fields :
    (d : Dev) (frame : List ℕ) (len : ℕ) (w : World)
    → (priv w d).status ≡ no_status
    → (priv w d).locked ≡ false
    → ((priv (begun d frame len w) d).status ≡ tx_only)
      × ((priv (begun d frame len w) d).locked ≡ false)
      × ((priv (begun d frame len w) d).stats ≡ (priv w d).stats)
begun-fields sn0 frame len w s l = (rw s, l, refl)
begun-fields sn1 frame len w s l = (rw s, l, refl)

got-fields :
    (d : Dev) (x : ℕ) (w : World)
    → ((priv (got d x w) d).status ≡ (priv w d).status)
      × ((priv (got d x w) d).locked ≡ false)
      × ((priv (got d x w) d).stats ≡ (priv w d).stats)
got-fields sn0 x w = (refl, refl, refl)
got-fields sn1 x w = (refl, refl, refl)

module _ (k : Env) (d : Dev) (w : World) (x : ℕ) (buf : List ℕ) (len : ℕ) (r : IsReady k d w)
    (first : (priv w d).ppool ≡ some x) where
  abbrev frame : List ℕ
  frame = rewrite_header k.ip_fast_csum buf

  abbrev waiting : World
  waiting = enqueued (other d) x (filled x frame len (got d x w))

  told-fields :
      ((priv (told (other d) waiting) d).status ≡ no_status)
      × ((priv (told (other d) waiting) d).locked ≡ false)
      × ((priv (told (other d) waiting) d).stats ≡ (priv w d).stats)
  told-fields = (
    told-twin d w x frame len (λ v. v.status) ∙ (got-fields d x w).0 ∙ r.idle d,
    told-twin d w x frame len (λ v. v.locked) ∙ (got-fields d x w).1,
    told-twin d w x frame len (λ v. v.stats) ∙ (got-fields d x w).2,
  )

  finish-eq :
      finish_tx k d (begun d frame len (told (other d) waiting)) ≡ ok (queued d x frame len w)
  finish-eq =
      let b = begun-fields d frame len (told (other d) waiting) told-fields.0 told-fields.1 in
      finish_tx-eq k d (begun d frame len (told (other d) waiting)) r.napi
        (ap (λ s. not (k.lockup == 0) && (add_ulong s.tx_packets 1 % k.lockup == 0))
            (b.2 ∙ told-fields.2)
          ∙ r.steady)
        b.0 b.1

  hw_tx-eq : min_len ≤ len → len ≤ eth_data_len → hw_tx k buf len d w ≡ ok (queued d x frame len w)
  unfolding hw_tx
  hw_tx-eq lo hi =
      rw
        (
          le→ltb len min_len lo,
          get_tx_buffer-eq d w x (r.free d) first,
          le→ltb eth_data_len len hi,
          enqueue_buf-eq (other d) (filled x frame len (got d x w)) x
              (twin_free d w x frame len (λ v. v.locked) ∙ r.free (other d)),
          notify-eq k (other d) waiting r.napi (enqueued-twin d w x frame len (r.idle (other d))).0
              (enqueued-twin d w x frame len (r.idle (other d))).1,
        )
        finish-eq

told-calls :
    (e : Dev) (w : World)
    → (told e w).calls ≡ (if (priv w e).rx_int_enabled then napi_schedule e ∷ w.calls else w.calls)
unfolding raise_rx
told-calls sn0 w = elim (Bool-cases w.dev0.rx_int_enabled) [ inl e ↦ rw e | inr e ↦ rw e ]
told-calls sn1 w = elim (Bool-cases w.dev1.rx_int_enabled) [ inl e ↦ rw e | inr e ↦ rw e ]

queued-calls :
    (d : Dev) (x : ℕ) (buf : List ℕ) (len : ℕ) (w : World)
    → (queued d x buf len w).calls
      ≡ dev_kfree_skb (priv w d).skb
        ∷ (if (priv w (other d)).rx_int_enabled then napi_schedule (other d) ∷ w.calls else w.calls)
queued-calls sn0 x buf len w =
    ap₂ (λ s cs. dev_kfree_skb s ∷ cs) (told-twin sn0 w x buf len (λ v. v.skb))
      (told-calls sn1 (enqueued sn1 x (filled x buf len (got sn0 x w))))
queued-calls sn1 x buf len w =
    ap₂ (λ s cs. dev_kfree_skb s ∷ cs) (told-twin sn1 w x buf len (λ v. v.skb))
      (told-calls sn0 (enqueued sn0 x (filled x buf len (got sn1 x w))))

ended-fields :
    (d : Dev) (buf : List ℕ) (len : ℕ) (u : World)
    → ((priv (ended d buf len u) d).stopped ≡ (priv u d).stopped)
      × ((priv (ended d buf len u) d).skb ≡ (priv u d).skb)
ended-fields sn0 buf len u = (refl, refl)
ended-fields sn1 buf len u = (refl, refl)

queued-stopped :
    (d : Dev) (x : ℕ) (buf : List ℕ) (len : ℕ) (w : World)
    → ((priv (queued d x buf len w) d).stopped ≡ (priv (got d x w) d).stopped)
      × ((priv (queued d x buf len w) d).skb ≡ (priv (got d x w) d).skb)
queued-stopped d x buf len w =
    let u = told (other d) (enqueued (other d) x (filled x buf len (got d x w))) in
    (
      (ended-fields d buf len u).0 ∙ told-twin d w x buf len (λ v. v.stopped),
      (ended-fields d buf len u).1 ∙ told-twin d w x buf len (λ v. v.skb),
    )

enqueued-frame :
    (d : Dev) (x : ℕ) (buf : List ℕ) (len : ℕ) (w : World)
    → length buf ≡ len
    → let p = (enqueued (other d) x (filled x buf len (got d x w))).packets x in
      take p.datalen p.payload ≡ buf
enqueued-frame sn0 x buf len w e =
    ground (arith, ==_refl x, take-filled buf (w.packets x).payload len e)
enqueued-frame sn1 x buf len w e =
    ground (arith, ==_refl x, take-filled buf (w.packets x).payload len e)

-- The packet on the queue holds the frame.
queued-frame :
    (d : Dev) (x : ℕ) (buf : List ℕ) (len : ℕ) (w : World)
    → length buf ≡ len
    → let p = (queued d x buf len w).packets x in take p.datalen p.payload ≡ buf
queued-frame d x buf len w e =
    let u = enqueued (other d) x (filled x buf len (got d x w)) in
    ap (λ h. take (h x).datalen (h x).payload)
      (ended-packets d buf len (told (other d) u) ∙ told-packets (other d) u)
    ∙ enqueued-frame d x buf len w e
