-- ===== src/Snull/Setup/Pools.antt =====
-- The pool from its set-up to its teardown.
use linux_learn_demo_code.Base.{
  onto, false, ℕ, zero, suc, ◌<◌, Option, none, some, List, [], ◌∷◌, length, All, Fresh, Distinct,
  ◌≡◌, refl, ◌∙◌, sym, subst, ap, arith,
}
use linux_learn_demo_code.Snull.Types.{Dev, sn0, sn1, other, World, priv, put, store}
use linux_learn_demo_code.Snull.Chains.{
  Loc, pool, queue, Place, same_loc, at, in_flight, head, moved, updated, Chain, Wf, push_Wf,
  heads_Wf,
}
use linux_learn_demo_code.Snull.Setup.{add_packet, setup_loop, setup_pool, teardown_pool}

-- The packets that the loop gets: those before the first null pointer, at most `n`.
abbrev pub allocated : ℕ → List (Option ℕ) → List ℕ
allocated zero ps = []
allocated (suc n) [] = []
allocated (suc n) (none ∷ ps) = []
allocated (suc n) (some p ∷ ps) = p ∷ allocated n ps

head-add_packet :
    (d : Dev) (p : ℕ) (w : World) (l : Loc)
    → head (add_packet d p w) l ≡ updated (head w) (pool d) (some p) l
head-add_packet sn0 p w (pool sn0) = refl
head-add_packet sn0 p w (queue sn0) = refl
head-add_packet sn1 p w (pool sn0) = refl
head-add_packet sn1 p w (queue sn0) = refl
head-add_packet _ p w _ = refl

packets-add_packet :
    (d : Dev) (p : ℕ) (w : World)
    → (add_packet d p w).packets
      ≡ store w.packets p (record {
        next = (priv w d).ppool;
        dev = d;
        datalen = (w.packets p).datalen;
        payload = (w.packets p).payload;
      })
packets-add_packet sn0 p w = refl
packets-add_packet sn1 p w = refl

still_new :
    (place : ℕ → Place) (p : ℕ) (c : Place) (xs : List ℕ)
    → Fresh p xs
    → All (λ q. place q ≡ in_flight) xs
    → All (λ q. moved place p c q ≡ in_flight) xs
still_new place p c [] f a = tt
still_new place p c (x ∷ xs) f a = (ground (arith, f.0, a.0), still_new place p c xs f.1 a.1)

setup_loop-Wf :
    (n : ℕ) (d : Dev) (ps : List (Option ℕ)) (w : World) (place : ℕ → Place) (lists : Loc → List ℕ)
    → Wf w.packets (head w) place lists
    → All (λ q. place q ≡ in_flight) (allocated n ps)
    → Distinct (allocated n ps)
    → (place' : ℕ → Place) × (lists' : Loc → List ℕ) × Wf
        (setup_loop n d ps w).packets
        (head (setup_loop n d ps w))
        place'
        lists'
      × (lists' (pool d) ≡ onto (allocated n ps) (lists (pool d)))
      × ((q : ℕ) → Fresh q (allocated n ps) → place' q ≡ place q)
      × ((l : Loc) → same_loc (pool d) l ≡ false → lists' l ≡ lists l)
unfolding setup_loop
setup_loop-Wf zero d ps w place lists wf new dist =
    (place, lists, wf, refl, (λ q f. refl), (λ l o. refl))
setup_loop-Wf (suc n) d [] w place lists wf new dist =
    (place, lists, wf, refl, (λ q f. refl), (λ l o. refl))
setup_loop-Wf (suc n) d (none ∷ ps) w place lists wf new dist =
    (place, lists, wf, refl, (λ q f. refl), (λ l o. refl))
setup_loop-Wf (suc n) d (some p ∷ ps) w place lists wf new dist =
    let wf' =
      heads_Wf (add_packet d p w).packets _ (head (add_packet d p w)) (moved place p (at (pool d)))
        (updated lists (pool d) (p ∷ lists (pool d))) (head-add_packet d p w)
        (rw (packets-add_packet d p w)
          (push_Wf w.packets (head w) place lists (pool d) p _ wf new.0 refl refl)) in
    let (place', lists', wf'', e, others, rest) =
      setup_loop-Wf n d ps (add_packet d p w) _ _ wf'
        (still_new place p (at (pool d)) (allocated n ps) dist.0 new.1) dist.1 in
    (
      place',
      lists',
      wf'',
      e ∙ ap (onto (allocated n ps)) (here d p lists),
      (λ q f. others q f.1 ∙ ground (arith, f.0)),
      (λ l o. rest l o ∙ rw o),
    )
  where
    here :
        (d : Dev) (p : ℕ) (lists : Loc → List ℕ)
        → updated lists (pool d) (p ∷ lists (pool d)) (pool d) ≡ p ∷ lists (pool d)
    here sn0 p lists = refl
    here sn1 p lists = refl

abbrev cleared : Dev → World → World
cleared d w = let v = priv w d in put d (record v { ppool = none }) w

packets-cleared : (d : Dev) (w : World) → (cleared d w).packets ≡ w.packets
packets-cleared sn0 w = refl
packets-cleared sn1 w = refl

head-cleared :
    (d : Dev) (w : World) → head w (pool d) ≡ none → (l : Loc) → head (cleared d w) l ≡ head w l
head-cleared sn0 w e (pool sn0) = sym e
head-cleared sn0 w e (pool sn1) = refl
head-cleared sn1 w e (pool sn0) = refl
head-cleared sn1 w e (pool sn1) = sym e
head-cleared sn0 w e (queue sn0) = refl
head-cleared sn1 w e (queue sn0) = refl
head-cleared _ w e (queue d) = refl

abbrev popped : Dev → ℕ → World → World
popped d p w = let v = priv w d in put d (record v { ppool = (w.packets p).next }) w

popped-Chain :
    (d : Dev) (x : ℕ) (w : World) (xs : List ℕ)
    → Chain w.packets (w.packets x).next xs
    → Chain (popped d x w).packets (priv (popped d x w) d).ppool xs
popped-Chain sn0 x w xs c = c
popped-Chain sn1 x w xs c = c

popped_queue :
    (d : Dev) (x : ℕ) (w : World) (e : Dev) → (priv (popped d x w) e).rx_queue ≡ (priv w e).rx_queue
popped_queue sn0 x w sn0 = refl
popped_queue sn1 x w sn0 = refl
popped_queue _ x w _ = refl

popped_rest :
    (d : Dev) (x : ℕ) (w : World)
    → ((popped d x w).packets ≡ w.packets)
      × ((priv (popped d x w) (other d)).ppool ≡ (priv w (other d)).ppool)
popped_rest sn0 x w = (refl, refl)
popped_rest sn1 x w = (refl, refl)

-- With distinct new packets, and the four lists well formed and the device's pool empty, a pool that is
-- set up holds exactly the packets that `kmalloc` gave before its first null pointer, at most
-- `pool_size` of them, the last one first, and the lists are well formed. Every other packet is where it
-- was, and the other three lists hold what they held.
pub setup_pool-Wf :
    (pool_size : ℕ) (d : Dev) (ps : List (Option ℕ)) (w : World) (place : ℕ → Place)
    (lists : Loc → List ℕ)
    → Wf w.packets (head w) place lists
    → lists (pool d) ≡ []
    → All (λ q. place q ≡ in_flight) (allocated pool_size ps)
    → Distinct (allocated pool_size ps)
    → (place' : ℕ → Place) × (lists' : Loc → List ℕ) × Wf
        (setup_pool pool_size d ps w).packets
        (head (setup_pool pool_size d ps w))
        place'
        lists'
      × (lists' (pool d) ≡ onto (allocated pool_size ps) [])
      × ((q : ℕ) → Fresh q (allocated pool_size ps) → place' q ≡ place q)
      × ((l : Loc) → same_loc (pool d) l ≡ false → lists' l ≡ lists l)
unfolding setup_pool
setup_pool-Wf n d ps w place lists wf none_yet new dist =
    let (place', lists', wf', e, others, rest) =
      setup_loop-Wf n d ps (cleared d w) place lists
        (rw (packets-cleared d w) (
          heads_Wf w.packets (head w) (head (cleared d w)) place lists
            (head-cleared d w (subst (Chain w.packets (head w (pool d))) none_yet (wf (pool d)).0))
            wf))
        new dist in
    (place', lists', wf', e ∙ ap (onto (allocated n ps)) none_yet, others, rest)

-- `snull_teardown_pool` frees every packet of the pool once, in order, and leaves the pool empty. The
-- links of the packets, the other device's pool and the receive queues are as they were, so that what
-- waits there is not freed.
pub teardown_pool_lem :
    (fuel : ℕ) (d : Dev) (w : World) (xs : List ℕ)
    → Chain w.packets (priv w d).ppool xs
    → length xs < fuel
    → (w' : World) × (teardown_pool fuel d w ≡ some (xs, w'))
      × ((priv w' d).ppool ≡ none)
      × ((e : Dev) → (priv w' e).rx_queue ≡ (priv w e).rx_queue)
      × (w'.packets ≡ w.packets)
      × ((priv w' (other d)).ppool ≡ (priv w (other d)).ppool)
unfolding teardown_pool
teardown_pool_lem zero d w xs c lt = absurd (omega arith)
teardown_pool_lem (suc fuel) d w [] c lt = (w, rw (teardown_pool, c), c, (λ e. refl), refl, refl)
teardown_pool_lem (suc fuel) d w (x ∷ xs) c lt =
    let (w', eq, e, q, same, others) =
      teardown_pool_lem fuel d (popped d x w) xs (popped-Chain d x w xs c.1) (omega arith) in
    (
      w',
      rw (teardown_pool, c.0, eq),
      e,
      (λ e. q e ∙ popped_queue d x w e),
      same ∙ (popped_rest d x w).0,
      others ∙ (popped_rest d x w).1,
    )
