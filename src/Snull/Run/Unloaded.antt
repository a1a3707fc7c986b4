-- ===== src/Snull/Run/Unloaded.antt =====
-- Unloading a driver that has been used: what `snull_cleanup` gives back of the packets.
use linux_learn_demo_code.Base.{
  true, arith, ℕ, ◌+◌, ◌<◌, Option, none, some, List, [], ◌∷◌, length, All, Fresh, Distinct, ◌≡◌,
  ◌≢◌, sym, ◌∙◌, subst,
}
use linux_learn_demo_code.Snull.Types.{Dev, sn0, sn1, other, Packet, World, Env, priv}
use linux_learn_demo_code.Snull.Chains.{Loc, pool, queue, Place, at, Chain, Held, Held-Fresh}
use linux_learn_demo_code.Snull.Setup.{teardown_pool}
use linux_learn_demo_code.Snull.Setup.Pools.{teardown_pool_lem}
use linux_learn_demo_code.Snull.Run.{IsReached, IsSound}
use linux_learn_demo_code.Snull.Run.Sound.{reached-IsSound}

-- The loop of `snull_cleanup` on the packets: those that are freed of the first device, and those of the
-- second.
unfoldable pub free_pools : ℕ → World → Option (List ℕ × List ℕ × World)
free_pools fuel w = elim (teardown_pool fuel sn0 w) [
  | none ↦ none
  | some (freed0, w₁) ↦ elim (teardown_pool fuel sn1 w₁) [
    | none ↦ none
    | some (freed1, w₂) ↦ some (freed0, freed1, w₂)
  ]
]

Held-Distinct :
    (h : ℕ → Packet) (place : ℕ → Place) (l : Loc) (xs : List ℕ) → Held h place l xs → Distinct xs
Held-Distinct h place l [] held = tt
Held-Distinct h place l (x ∷ xs) held = (held.2, Held-Distinct h place l xs held.3)

-- What lies on a queue lies in no pool.
apart : (d e : Dev) → at (queue e) ≢ at (pool d)
apart d e q = cc

queue-Fresh :
    (h : ℕ → Packet) (place : ℕ → Place) (d e : Dev) (xs ys : List ℕ)
    → Held h place (pool d) xs
    → Held h place (queue e) ys
    → All (λ y. Fresh y xs) ys
queue-Fresh h place d e xs [] a b = tt
queue-Fresh h place d e xs (y ∷ ys) a b = (
  Held-Fresh h place (pool d) y xs a (λ q. apart d e (sym b.0 ∙ q)),
  queue-Fresh h place d e xs ys a b.3,
)

freed-IsSound :
    (total : Dev → ℕ) (w : World) (s : IsSound total w) (fuel : ℕ)
    → ((d : Dev) → length (s.lists (pool d)) < fuel)
    → (w' : World) × (free_pools fuel w ≡ some (s.lists (pool sn0), s.lists (pool sn1), w'))
      × ((d : Dev) → Distinct (s.lists (pool d)))
      × ((d e : Dev) → All (λ p. Fresh p (s.lists (pool d))) (s.lists (queue e)))
      × ((d : Dev) → length (s.lists (pool d)) + length (s.lists (queue (other d))) ≡ total d)
      × ((d : Dev) → (priv w' d).rx_queue ≡ (priv w d).rx_queue)
unfolding free_pools
freed-IsSound total w s fuel enough =
    let (w₁, eq₁, none₁, queues₁, links₁, others₁) =
      teardown_pool_lem fuel sn0 w (s.lists (pool sn0)) (s.inv.tracks (pool sn0)).0 (enough sn0) in
    let (w₂, eq₂, none₂, queues₂, links₂, others₂) =
      teardown_pool_lem fuel sn1 w₁ (s.lists (pool sn1))
        (subst (λ h. Chain h (priv w₁ sn1).ppool (s.lists (pool sn1))) (sym links₁)
          (subst (λ q. Chain w.packets q (s.lists (pool sn1))) (sym others₁)
            (s.inv.tracks (pool sn1)).0))
        (enough sn1) in
    (
      w₂,
      rw (free_pools, eq₁, eq₂),
      (λ d. Held-Distinct w.packets s.place (pool d) (s.lists (pool d)) (s.inv.tracks (pool d)).1),
      (λ d e.
          queue-Fresh w.packets s.place d e (s.lists (pool d)) (s.lists (queue e))
            (s.inv.tracks (pool d)).1 (s.inv.tracks (queue e)).1),
      s.kept,
      λ d. queues₂ d ∙ queues₁ d,
    )

-- Under NAPI and with no lockups, from a sound driver with `total d` packets for each device, in every
-- state that transmissions and polls lead to, in any order: with fuel above these numbers the loop of
-- `snull_cleanup` ends. It frees the packets of each pool, each of them once, and no packet that waits on a
-- receive queue; those of a device that wait at its twin are the ones that are missing from its
-- `total`, and the queues that lead to them are left as they were.
pub free_pools-leaks :
    (k : Env) (total : Dev → ℕ) (from w : World) (fuel : ℕ)
    → k.use_napi ≡ true
    → k.lockup ≡ 0
    → IsSound total from
    → IsReached k from w
    → ((d : Dev) → total d < fuel)
    → (lists : Loc → List ℕ) × (w' : World) × (free_pools fuel w
        ≡ some (lists (pool sn0), lists (pool sn1), w'))
      × ((d : Dev) → Chain w.packets (priv w d).rx_queue (lists (queue d)))
      × ((d : Dev) → Distinct (lists (pool d)))
      × ((d e : Dev) → All (λ p. Fresh p (lists (pool d))) (lists (queue e)))
      × ((d : Dev) → length (lists (pool d)) + length (lists (queue (other d))) ≡ total d)
      × ((d : Dev) → (priv w' d).rx_queue ≡ (priv w d).rx_queue)
free_pools-leaks k total from w fuel napi steady start r enough =
    let s = reached-IsSound k napi steady total from w start r in
    let (w', frees, once, spared, adds_up, left) =
      freed-IsSound total w s fuel (λ d. omega (arith, s.kept d, enough d)) in
    (s.lists, w', frees, (λ d. (s.inv.tracks (queue d)).0), once, spared, adds_up, left)
