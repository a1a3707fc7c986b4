-- ===== src/Snull/Run/Sends.antt =====
-- Several transmissions of one device under NAPI before its twin is polled.
use linux_learn_demo_code.Base.{
  ℕ, ◌≤◌, true, List, [], ◌∷◌, map, onto, length, All, ◌≡◌, ◌≢◌, refl, sym, ◌∙◌, ap, ap₂, subst,
  inl, inr, arith,
}
use linux_learn_demo_code.Snull.Types.{
  Dev, sn0, sn1, other, Outcome, ok, ◌>>=◌, World, Env, Skb, priv,
}
use linux_learn_demo_code.Snull.Chains.{Loc, pool, queue, Place, at, head, Held, front}
use linux_learn_demo_code.Snull.Buffers.Refine.{Inv}
use linux_learn_demo_code.Snull.Receive.Passed.{frame_of, received}
use linux_learn_demo_code.Snull.Transmit.{tx, eth_data_len, rewrite_header, pad}
use linux_learn_demo_code.Snull.Transmit.Armed.{armed}
use linux_learn_demo_code.Snull.Transmit.Napi.{IsReady}
use linux_learn_demo_code.Snull.Transmit.Napi.Calm.{IsCalm, queued-IsCalm, armed-IsCalm}
use linux_learn_demo_code.Snull.Transmit.Napi.Deferred.{lists_after, tx-queued, tx_defers}
use linux_learn_demo_code.Snull.Transmit.Napi.Others.{others-queued}
use linux_learn_demo_code.Snull.Run.Steps.{List-cases, ok-injective}

-- The kernel hands over some skbs, one after the other.
unfoldable pub tx_all : Env → List Skb → Dev → World → Outcome World
tx_all k [] d w = ok w
tx_all k (skb ∷ more) d w = do w₁ ← tx k skb d w; tx_all k more d w₁

-- The frame that the driver makes of an skb.
abbrev pub sent_frame : Env → Skb → List ℕ
sent_frame k skb = rewrite_header k.ip_fast_csum (pad skb.bytes)

-- The frames that wait at the twin of `d`, the front of its queue first.
abbrev pub waiting : Dev → World → (Loc → List ℕ) → List (List ℕ)
waiting d w lists = map (frame_of w) (lists (queue (other d)))

-- The state after the transmissions of `d`, with what it leaves alone.
pub record Sent (k : Env) (d : Dev) (skbs : List Skb) (w : World) (lists : Loc → List ℕ)
    (w' : World) (place' : ℕ → Place) (lists' : Loc → List ℕ) : Type 0 where
  pub inv : Inv w' place' lists'
  pub calm : (e : Dev) → IsCalm (priv w' e)
  pub queues : waiting d w' lists' ≡ onto (map (sent_frame k) skbs) (waiting d w lists)
  pub allocs : w'.allocs ≡ w.allocs
  pub unheard : (e : Dev) → received e w'.calls ≡ received e w.calls

map-others :
    (w w' : World) (place : ℕ → Place) (l : Loc) (x : ℕ) (xs : List ℕ)
    → ((y : ℕ) → y ≢ x → frame_of w' y ≡ frame_of w y)
    → place x ≢ at l
    → Held w.packets place l xs
    → map (frame_of w') xs ≡ map (frame_of w) xs
map-others w w' place l x [] same ne held = refl
map-others w w' place l x (y ∷ ys) same ne held =
    ap₂ ◌∷◌ (same y (λ e. ne (ap place (sym e) ∙ held.0)))
      (map-others w w' place l x ys same ne held.3)

lists_after-queue :
    (d : Dev) (x : ℕ) (xs : List ℕ) (lists : Loc → List ℕ)
    → lists_after d x xs lists (queue (other d)) ≡ x ∷ lists (queue (other d))
lists_after-queue sn0 x xs lists = refl
lists_after-queue sn1 x xs lists = refl

lists_after-pool :
    (d : Dev) (x : ℕ) (xs : List ℕ) (lists : Loc → List ℕ) → lists_after d x xs lists (pool d) ≡ xs
lists_after-pool sn0 x xs lists = refl
lists_after-pool sn1 x xs lists = refl

apart : {d e : Dev} → at (pool d) ≢ at (queue e)
apart e = cc

-- One transmission.
Sent-one :
    (k : Env) (d : Dev) (skb : Skb) (w : World) (place : ℕ → Place) (lists : Loc → List ℕ) (x : ℕ)
    (xs : List ℕ)
    → k.use_napi ≡ true
    → k.lockup ≡ 0
    → Inv w place lists
    → ((e : Dev) → IsCalm (priv w e))
    → lists (pool d) ≡ x ∷ xs
    → length skb.bytes ≤ eth_data_len
    → (w' : World) × (place' : ℕ → Place) × (tx k skb d w ≡ ok w')
      × Sent k d (skb ∷ []) w lists w' place' (lists_after d x xs lists)
Sent-one k d skb w place lists x xs napi steady inv calm first small =
    let r : IsReady k d w = record {
      napi = napi;
      steady = rw steady;
      idle = λ e. (calm e).idle;
      free = inv.free;
    } in
    let (w₁, place', eq, inv', frame, _, _, _) =
      tx_defers k skb d w place lists x xs r inv first small in
    let left =
      queued-IsCalm d x (rewrite_header k.ip_fast_csum (pad skb.bytes)) (length (pad skb.bytes))
        (armed skb d w) (armed-IsCalm skb d w calm) in
    let f = front w.packets (head w) place lists (pool d) x xs inv.tracks first in
    let q = ok-injective (sym (tx-queued k skb d w place lists x xs r inv first small) ∙ eq) in
    let o = others-queued skb d x (sent_frame k skb) (length (pad skb.bytes)) w in
    (
      w₁,
      place',
      eq,
      record {
        inv = inv';
        calm = λ e. subst (λ (z : World). IsCalm (priv z e)) q (left.0 e);
        queues =
            ap (map (frame_of w₁)) (lists_after-queue d x xs lists)
            ∙ ap₂ ◌∷◌ frame (
                map-others w w₁ place (queue (other d)) x (lists (queue (other d)))
                  (subst (λ (z : World). (y : ℕ) → y ≢ x → frame_of z y ≡ frame_of w y) q o.0)
                  (λ e. apart (sym f.1.0 ∙ e)) (inv.tracks (queue (other d))).1);
        allocs = subst (λ (z : World). z.allocs ≡ w.allocs) q o.1;
        unheard = λ e. subst (λ (z : World). received e z.calls ≡ received e w.calls) q (o.2 e);
      },
    )

-- The transmissions one after the other.
pub tx_all-Sent :
    (k : Env) (d : Dev) (skbs : List Skb) (w : World) (place : ℕ → Place) (lists : Loc → List ℕ)
    → k.use_napi ≡ true
    → k.lockup ≡ 0
    → Inv w place lists
    → ((e : Dev) → IsCalm (priv w e))
    → length skbs ≤ length (lists (pool d))
    → All (λ skb. length skb.bytes ≤ eth_data_len) skbs
    → (w' : World) × (place' : ℕ → Place) × (lists' : Loc → List ℕ) × (tx_all k skbs d w ≡ ok w')
      × Sent k d skbs w lists w' place' lists'
unfolding tx_all
tx_all-Sent k d [] w place lists napi steady inv calm enough small = (
  w,
  place,
  lists,
  refl,
  record { inv = inv; calm = calm; queues = refl; allocs = refl; unheard = λ e. refl },
)
tx_all-Sent k d (skb ∷ more) w place lists napi steady inv calm enough small =
    elim (List-cases (lists (pool d))) [
      | inl e ↦ absurd (omega (arith, enough, ap length e))
      | inr (x, xs, first) ↦
          let (w₁, place₁, eq, s) =
            Sent-one k d skb w place lists x xs napi steady inv calm first small.0 in
          let (w', place', lists', eq', s') =
            tx_all-Sent k d more w₁ place₁ (lists_after d x xs lists) napi steady s.inv s.calm
              (omega (arith, enough, ap length first, ap length (lists_after-pool d x xs lists)))
              small.1 in
          (
            w',
            place',
            lists',
            rw (eq, eq'),
            record {
              inv = s'.inv;
              calm = s'.calm;
              queues = s'.queues ∙ ap (onto (map (sent_frame k) more)) s.queues;
              allocs = s'.allocs ∙ s.allocs;
              unheard = λ e. s'.unheard e ∙ s.unheard e;
            },
          )
    ]
