-- ===== src/Snull/Run/Loaded.antt =====
-- The driver after loading, with both devices open.
use linux_learn_demo_code.Base.{
  onto, ℕ, ◌+◌, true, false, Option, none, List, [], ◌∷◌, length, All, Fresh, Distinct, ◌≡◌, ◌≢◌,
  refl, sym, ◌∙◌, ap, subst, arith, length-onto,
}
use linux_learn_demo_code.Snull.Types.{Dev, sn0, sn1, other, World, Env, Packet, priv, put}
use linux_learn_demo_code.Snull.Chains.{
  Loc, pool, queue, Place, in_flight, Chain, Wf, head, heads_Wf, same_loc,
}
use linux_learn_demo_code.Snull.Setup.{init_dev, open_dev, cleared}
use linux_learn_demo_code.Snull.Setup.Pools.{allocated, setup_pool-Wf}
use linux_learn_demo_code.Snull.Run.{IsSound}
use linux_learn_demo_code.Snull.Setup.Fields.{
  IsNew, init_dev-IsNew, open_dev-IsNew, open_dev-heads, open_dev-packets, other-IsNew,
}

-- What loading and opening do, with the results of `kmalloc` for the two pools.
abbrev pub loaded : Env → ℕ → List (Option ℕ) → List (Option ℕ) → World → World
loaded k pool_size ps qs w =
    open_dev k sn1 (open_dev k sn0 (init_dev pool_size sn1 qs (init_dev pool_size sn0 ps w)))

still_free :
    (place : ℕ → Place) (taken qs : List ℕ)
    → ((q : ℕ) → Fresh q taken → place q ≡ in_flight)
    → All (λ q. Fresh q taken) qs
    → All (λ q. place q ≡ in_flight) qs
still_free place taken [] h a = tt
still_free place taken (q ∷ qs) h a = (h q a.0, still_free place taken qs h a.1)

heads-cleared :
    (u : World)
    → head u (pool sn1) ≡ none
    → head u (queue sn1) ≡ none
    → (l : Loc) → head (put sn1 (cleared u.dev1) u) l ≡ head u l
heads-cleared u p q (pool sn0) = refl
heads-cleared u p q (pool sn1) = sym p
heads-cleared u p q (queue sn0) = refl
heads-cleared u p q (queue sn1) = sym q

-- A list that is not empty does not start at a null pointer.
starts : (h : ℕ → Packet) (q : Option ℕ) (xs : List ℕ) → Chain h q xs → xs ≢ [] → q ≢ none
starts h q [] c ne e = ne refl
starts h q (x ∷ xs) c ne e = cc

onto-some : (xs : List ℕ) → xs ≢ [] → onto xs [] ≢ []
onto-some [] ne = λ e. ne refl
onto-some (x ∷ xs) ne = λ e. absurd (omega (arith, ap length e, length-onto {0} xs (x ∷ [])))

-- How many packets each device has, by what `kmalloc` gave for it.
abbrev pub packets_of : List ℕ → List ℕ → Dev → ℕ
packets_of ps qs sn0 = length ps
packets_of ps qs sn1 = length qs

-- The lists of the two devices after `snull_init` of both, in blank memory.
module _ (n : ℕ) (ps qs : List (Option ℕ)) (w : World) (blank : (l : Loc) → head w l ≡ none)
    (apart0 : Distinct (allocated n ps)) (apart1 : Distinct (allocated n qs))
    (other_ones : All (λ q. Fresh q (allocated n ps)) (allocated n qs)) where
  abbrev first : World
  first = init_dev n sn0 ps w

  abbrev second : World
  second = init_dev n sn1 qs first

  abbrev Placed : World → (Loc → List ℕ) → Type 0
  Placed u lists = (place : ℕ → Place) × Wf u.packets (head u) place lists

  first-Wf :
      (place : ℕ → Place) × (lists : Loc → List ℕ) × Wf first.packets (head first) place lists
      × (lists (pool sn0) ≡ onto (allocated n ps) [])
      × ((q : ℕ) → Fresh q (allocated n ps) → place q ≡ in_flight)
      × ((l : Loc) → same_loc (pool sn0) l ≡ false → lists l ≡ [])
  unfolding init_dev
  first-Wf =
      setup_pool-Wf n sn0 ps (put sn0 (cleared w.dev0) w) (λ q. in_flight) (λ l. [])
        (λ l. (empty l, tt)) refl (in_flight_all (allocated n ps)) apart0
    where
      empty : (l : Loc) → head (put sn0 (cleared w.dev0) w) l ≡ none
      empty (pool sn0) = refl
      empty (pool sn1) = blank (pool sn1)
      empty (queue sn0) = refl
      empty (queue sn1) = blank (queue sn1)

      in_flight_all : (xs : List ℕ) → All (λ q. ◌≡◌ {A = Place} in_flight in_flight) xs
      in_flight_all [] = tt
      in_flight_all (x ∷ xs) = (refl, in_flight_all xs)

  second-Wf :
      (place : ℕ → Place) × (lists : Loc → List ℕ) × Wf second.packets (head second) place lists
      × (lists (pool sn0) ≡ onto (allocated n ps) [])
      × (lists (pool sn1) ≡ onto (allocated n qs) [])
      × ((d : Dev) → lists (queue d) ≡ [])
  unfolding init_dev
  second-Wf =
      let (place, lists, wf, pool0, others, rest) = first-Wf in
      let none_of : (l : Loc) → lists l ≡ [] → head first l ≡ none =
        λ l e. subst (Chain first.packets (head first l)) e (wf l).0 in
      let heads =
        heads-cleared first (none_of (pool sn1) (rest (pool sn1) refl))
          (none_of (queue sn1) (rest (queue sn1) refl)) in
      let (place', lists', wf', pool1, others', rest') =
        setup_pool-Wf n sn1 qs (put sn1 (cleared first.dev1) first) place lists
          (heads_Wf first.packets (head first) (head (put sn1 (cleared first.dev1) first)) place
            lists heads wf)
          (rest (pool sn1) refl)
          (still_free place (allocated n ps) (allocated n qs) others other_ones) apart1 in
      (
        place',
        lists',
        wf',
        rest' (pool sn0) refl ∙ pool0,
        pool1,
        (λ d. rest' (queue d) refl ∙ rest (queue d) refl),
      )

  abbrev opened : Env → World
  opened k = open_dev k sn1 (open_dev k sn0 second)

  opened-heads : (k : Env) (l : Loc) → head (opened k) l ≡ head second l
  opened-heads k l = open_dev-heads k sn1 (open_dev k sn0 second) l ∙ open_dev-heads k sn0 second l

  opened-IsNew : (k : Env) (d : Dev) → IsNew (priv (opened k) d)
  opened-IsNew k d =
      open_dev-IsNew k sn1 (open_dev k sn0 second) d (open_dev-IsNew k sn0 second d (new d))
    where
      new : (d : Dev) → IsNew (priv second d)
      new sn0 = other-IsNew n qs first (init_dev-IsNew n sn0 ps w)
      new sn1 = init_dev-IsNew n sn1 qs first

  -- When `snull_init` of both devices, in memory that is cleared, got at least one packet for each pool,
  -- and both devices are opened, the driver is sound: each device has the packets that it got.
  pub loaded-IsSound :
      (k : Env)
      → allocated n ps ≢ []
      → allocated n qs ≢ []
      → IsSound (packets_of (allocated n ps) (allocated n qs)) (loaded k n ps qs w)
  loaded-IsSound k some0 some1 =
      let (place, lists, wf, pool0, pool1, queues) = second-Wf in
      record {
        place = place;
        lists = lists;
        inv = record { tracks = tracked place lists wf; free = λ d. (opened-IsNew k d).free };
        calm = λ d. record {
          idle = (opened-IsNew k d).idle;
          stops = λ e. absurd (stocked lists place wf pool0 pool1 d e);
        };
        kept = counted lists pool0 pool1 queues;
        polled = λ d on. queues d;
        awaited = λ d off. absurd (heard (sym (opened-IsNew k d).listens ∙ off));
      }
    where
      heard : true ≢ false
      heard e = cc

      tracked :
          (place : ℕ → Place) (lists : Loc → List ℕ)
          → Wf second.packets (head second) place lists
          → Wf (opened k).packets (head (opened k)) place lists
      tracked place lists wf =
          subst (λ h. Wf h (head (opened k)) place lists)
            (sym (open_dev-packets k sn1 (open_dev k sn0 second) ∙ open_dev-packets k sn0 second))
            (heads_Wf second.packets (head second) (head (opened k)) place lists (opened-heads k)
              wf)

      stocked :
          (lists : Loc → List ℕ) (place : ℕ → Place)
          → Wf second.packets (head second) place lists
          → lists (pool sn0) ≡ onto (allocated n ps) []
          → lists (pool sn1) ≡ onto (allocated n qs) []
          → (d : Dev) → (priv (opened k) d).ppool ≢ none
      stocked lists place wf pool0 pool1 sn0 e =
          starts second.packets second.dev0.ppool (lists (pool sn0)) (wf (pool sn0)).0
            (λ z. onto-some (allocated n ps) some0 (sym pool0 ∙ z))
            (sym (opened-heads k (pool sn0)) ∙ e)
      stocked lists place wf pool0 pool1 sn1 e =
          starts second.packets second.dev1.ppool (lists (pool sn1)) (wf (pool sn1)).0
            (λ z. onto-some (allocated n qs) some1 (sym pool1 ∙ z))
            (sym (opened-heads k (pool sn1)) ∙ e)

      counted :
          (lists : Loc → List ℕ)
          → lists (pool sn0) ≡ onto (allocated n ps) []
          → lists (pool sn1) ≡ onto (allocated n qs) []
          → ((d : Dev) → lists (queue d) ≡ [])
          → (d : Dev)
          → length (lists (pool d)) + length (lists (queue (other d)))
            ≡ packets_of (allocated n ps) (allocated n qs) d
      counted lists pool0 pool1 queues sn0 =
          omega
            (arith, ap length pool0, ap length (queues sn1), length-onto {0} (allocated n ps) [])
      counted lists pool0 pool1 queues sn1 =
          omega
            (arith, ap length pool1, ap length (queues sn0), length-onto {0} (allocated n qs) [])
