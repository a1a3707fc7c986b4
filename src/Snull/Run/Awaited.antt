-- ===== src/Snull/Run/Awaited.antt =====
-- A device whose receive interrupts are disabled is scheduled to be polled: after a transmission, and
-- after a poll.
use linux_learn_demo_code.Base.{
  ℕ, Bool, true, false, Option, List, ◌∷◌, if◌then◌else◌, ◌≡◌, refl, sym, ◌∙◌, ap,
}
use linux_learn_demo_code.Snull.Types.{
  Dev, sn0, sn1, other, World, priv, Call, napi_schedule, dev_kfree_skb, netif_trans_update,
}
use linux_learn_demo_code.Snull.Receive.Passed.{scheduled}
use linux_learn_demo_code.Snull.Run.Steps.{closed, true≢false}

-- The calls of a transmission, by whether the twin's receive interrupts were enabled.
abbrev pub sent_calls : Dev → Option ℕ → Bool → List Call → List Call
sent_calls d id listens cs =
    dev_kfree_skb id
    ∷ (if listens
        then napi_schedule (other d) ∷ netif_trans_update d ∷ cs
        else netif_trans_update d ∷ cs)

sender-scheduled :
    (d : Dev) (id : Option ℕ) (b : Bool) (cs : List Call)
    → scheduled d (sent_calls d id b cs) ≡ scheduled d cs
sender-scheduled sn0 id true cs = refl
sender-scheduled sn0 id false cs = refl
sender-scheduled sn1 id true cs = refl
sender-scheduled sn1 id false cs = refl

twin-scheduled :
    (d : Dev) (id : Option ℕ) (b : Bool) (cs : List Call)
    → (b ≡ false → scheduled (other d) cs ≡ true)
    → scheduled (other d) (sent_calls d id b cs) ≡ true
twin-scheduled sn0 id true cs h = refl
twin-scheduled sn0 id false cs h = h refl
twin-scheduled sn1 id true cs h = refl
twin-scheduled sn1 id false cs h = h refl

Dev-cases : (A : Dev → Type 0) (d : Dev) → A d → A (other d) → (e : Dev) → A e
Dev-cases A sn0 a b sn0 = a
Dev-cases A sn0 a b sn1 = b
Dev-cases A sn1 a b sn0 = b
Dev-cases A sn1 a b sn1 = a

pub awaited-sent :
    (d : Dev) (id : Option ℕ) (w w' : World)
    → w'.calls ≡ sent_calls d id (priv w (other d)).rx_int_enabled w.calls
    → (priv w' d).rx_int_enabled ≡ (priv w d).rx_int_enabled
    → ((e : Dev) → (priv w e).rx_int_enabled ≡ false → scheduled e w.calls ≡ true)
    → (e : Dev) → (priv w' e).rx_int_enabled ≡ false
    → scheduled e w'.calls ≡ true
awaited-sent d id w w' calls same awaited =
    let listens = (priv w (other d)).rx_int_enabled in
    Dev-cases (λ e. (priv w' e).rx_int_enabled ≡ false → scheduled e w'.calls ≡ true) d
      (λ off.
        ap (scheduled d) calls ∙ sender-scheduled d id listens w.calls ∙ awaited d (sym same ∙ off))
      (λ off.
        ap (scheduled (other d)) calls ∙ twin-scheduled d id listens w.calls (awaited (other d)))

-- A poll that is completed has enabled the receive interrupts.
pub closed-awaited :
    (d : Dev) (m : ℕ) (less : Bool) (u : World)
    → ((e : Dev) → (priv u e).rx_int_enabled ≡ false → scheduled e u.calls ≡ true)
    → (e : Dev) → (priv (closed d m less u) e).rx_int_enabled ≡ false
    → scheduled e (closed d m less u).calls ≡ true
closed-awaited d m false u awaited e off = awaited e off
closed-awaited sn0 m true u awaited sn0 off = absurd (true≢false off)
closed-awaited sn0 m true u awaited sn1 off = awaited sn1 off
closed-awaited sn1 m true u awaited sn0 off = awaited sn0 off
closed-awaited sn1 m true u awaited sn1 off = absurd (true≢false off)
