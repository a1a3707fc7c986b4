-- ===== src/Snull/Chains.antt =====
-- The four packet lists of the pair of devices, as linked lists that share no packet. `place` says
-- where each packet is, and `lists` what each of the four lists holds, its first packet first.
pub mod Changes
use linux_learn_demo_code.Base.{
  ℕ, Bool, true, false, Option, none, some, List, [], ◌∷◌, if◌then◌else◌, ◌==◌, ==_refl, ◌∙◌, ◌≡◌,
  ◌≢◌, refl, sym, inl, inr, subst, Bool-cases, Fresh, arith, ap,
}
use linux_learn_demo_code.Snull.Types.{Dev, sn0, sn1, other, Packet, World, priv, store}

-- The pool of a device, and its receive queue.
pub data Loc : Type 0 where
  pool queue : Dev → Loc

pub data Place : Type 0 where
  at : Loc → Place
  in_flight elsewhere : Place

-- The device that a packet on such a list belongs to: what is sent from a device waits at its twin.
abbrev pub owner : Loc → Dev
owner (pool d) = d
owner (queue d) = other d

abbrev pub head : World → Loc → Option ℕ
head w (pool d) = (priv w d).ppool
head w (queue d) = (priv w d).rx_queue

abbrev pub same_dev : Dev → Dev → Bool
same_dev sn0 sn0 = true
same_dev sn1 sn1 = true
same_dev _ _ = false

abbrev pub same_loc : Loc → Loc → Bool
same_loc (pool d) (pool e) = same_dev d e
same_loc (queue d) (queue e) = same_dev d e
same_loc _ _ = false

same_dev_lem : (d e : Dev) → same_dev d e ≡ true → d ≡ e
same_dev_lem sn0 sn0 h = refl
same_dev_lem sn0 sn1 h = cc
same_dev_lem sn1 sn0 h = cc
same_dev_lem sn1 sn1 h = refl

same_loc_lem : (l m : Loc) → same_loc l m ≡ true → l ≡ m
same_loc_lem (pool d) (pool e) h = ap pool (same_dev_lem d e h)
same_loc_lem (pool d) (queue e) h = cc
same_loc_lem (queue d) (pool e) h = cc
same_loc_lem (queue d) (queue e) h = ap queue (same_dev_lem d e h)

same_loc_refl : (l : Loc) → same_loc l l ≡ true
same_loc_refl (pool sn0) = refl
same_loc_refl (pool sn1) = refl
same_loc_refl (queue sn0) = refl
same_loc_refl (queue sn1) = refl

same_loc_ne : (l m : Loc) → same_loc l m ≡ false → l ≢ m
same_loc_ne l m h e = cc (h, same_loc_refl l, ap (same_loc l) e)

-- One entry of a function given anew.
abbrev pub updated {ℓ} : {A : Type ℓ} → (Loc → A) → Loc → A → Loc → A
updated f l v m = if same_loc l m then v else f m

abbrev pub moved : (ℕ → Place) → ℕ → Place → ℕ → Place
moved place p c q = if p == q then c else place q

-- The list that starts at `q` and runs through the fields `next` is `xs`.
abbrev pub Chain : (ℕ → Packet) → Option ℕ → List ℕ → Type 0
Chain h q [] = q ≡ none
Chain h q (x ∷ xs) = (q ≡ some x) × Chain h (h x).next xs

-- The packets of a list lie there, belong to its owner, and occur once.
abbrev pub Held : (ℕ → Packet) → (ℕ → Place) → Loc → List ℕ → Type 0
Held h place l [] = Unit
Held h place l (x ∷ xs) = (place x ≡ at l) × ((h x).dev ≡ owner l) × Fresh x xs × Held h place l xs

abbrev pub Wf : (ℕ → Packet) → (Loc → Option ℕ) → (ℕ → Place) → (Loc → List ℕ) → Type 0
Wf h heads place lists = (l : Loc) → Chain h (heads l) (lists l) × Held h place l (lists l)

pub Held-Fresh :
    (h : ℕ → Packet) (place : ℕ → Place) (l : Loc) (p : ℕ) (xs : List ℕ)
    → Held h place l xs
    → place p ≢ at l
    → Fresh p xs
Held-Fresh h place l p [] held ne = tt
Held-Fresh h place l p (x ∷ xs) held ne =
    (λ e. ne (subst (λ y. place y ≡ at l) e held.0), Held-Fresh h place l p xs held.3 ne)

Chain-store :
    (h : ℕ → Packet) (q : Option ℕ) (p : ℕ) (k : Packet) (xs : List ℕ)
    → Fresh p xs
    → Chain h q xs
    → Chain (store h p k) q xs
Chain-store h q p k [] f c = c
Chain-store h q p k (x ∷ xs) f c =
    (c.0, ground (arith, f.0, Chain-store h (h x).next p k xs f.1 c.1))

Held-store :
    (h : ℕ → Packet) (place : ℕ → Place) (l : Loc) (p : ℕ) (k : Packet) (c : Place) (xs : List ℕ)
    → Fresh p xs
    → Held h place l xs
    → Held (store h p k) (moved place p c) l xs
Held-store h place l p k c [] f held = tt
Held-store h place l p k c (x ∷ xs) f held = (
  ground (arith, f.0, held.0),
  ground (arith, f.0, held.1),
  held.2,
  Held-store h place l p k c xs f.1 held.3,
)

Held-moved :
    (h : ℕ → Packet) (place : ℕ → Place) (l : Loc) (p : ℕ) (c : Place) (xs : List ℕ)
    → Fresh p xs
    → Held h place l xs
    → Held h (moved place p c) l xs
Held-moved h place l p c [] f held = tt
Held-moved h place l p c (x ∷ xs) f held =
    (ground (arith, f.0, held.0), held.1, held.2, Held-moved h place l p c xs f.1 held.3)

-- What a list that begins with `x` tells of `x` and of the rest.
pub front :
    (h : ℕ → Packet) (heads : Loc → Option ℕ) (place : ℕ → Place) (lists : Loc → List ℕ) (l : Loc)
    (x : ℕ) (xs : List ℕ)
    → Wf h heads place lists
    → lists l ≡ x ∷ xs
    → Chain h (heads l) (x ∷ xs) × Held h place l (x ∷ xs)
front h heads place lists l x xs wf e =
    subst (λ ys. Chain h (heads l) ys × Held h place l ys) e (wf l)

-- Taking the first packet off a list leaves four well-formed lists, and the packet on none.
pub pop_Wf :
    (h : ℕ → Packet) (heads : Loc → Option ℕ) (place : ℕ → Place) (lists : Loc → List ℕ) (l : Loc)
    (x : ℕ) (xs : List ℕ)
    → Wf h heads place lists
    → lists l ≡ x ∷ xs
    → Wf h (updated heads l (h x).next) (moved place x in_flight) (updated lists l xs)
pop_Wf h heads place lists l x xs wf e m = elim (Bool-cases (same_loc l m)) [
  | inl hit ↦ rw hit (
    f.0.1,
    subst (λ n. Held h (moved place x in_flight) n xs) (same_loc_lem l m hit)
        (Held-moved h place l x in_flight xs f.1.2 f.1.3),
  )
  | inr miss ↦ rw miss (
    (wf m).0,
    Held-moved h place m x in_flight (lists m)
        (Held-Fresh h place m x (lists m) (wf m).1
          (λ q. same_loc_ne l m miss (at_inj (sym f.1.0 ∙ q))))
        (wf m).1,
  )
]
  where
    f : Chain h (heads l) (x ∷ xs) × Held h place l (x ∷ xs)
    f = front h heads place lists l x xs wf e

    at_inj : {a b : Loc} → at a ≡ at b → a ≡ b
    at_inj q = cc

-- A packet in flight can be written without touching the lists.
pub store-Wf :
    (h : ℕ → Packet) (heads : Loc → Option ℕ) (place : ℕ → Place) (lists : Loc → List ℕ) (p : ℕ)
    (k : Packet) (c : Place)
    → Wf h heads place lists
    → place p ≡ in_flight
    → Wf (store h p k) heads (moved place p c) lists
store-Wf h heads place lists p k c wf e m = (
  Chain-store h (heads m) p k (lists m) fresh (wf m).0,
  Held-store h place m p k c (lists m) fresh (wf m).1,
)
  where
    fresh : Fresh p (lists m)
    fresh = Held-Fresh h place m p (lists m) (wf m).1 (λ q. cc (sym e ∙ q))

-- Linking a packet in flight in front of a list of its owner leaves four well-formed lists.
pub push_Wf :
    (h : ℕ → Packet) (heads : Loc → Option ℕ) (place : ℕ → Place) (lists : Loc → List ℕ) (l : Loc)
    (p : ℕ) (k : Packet)
    → Wf h heads place lists
    → place p ≡ in_flight
    → k.dev ≡ owner l
    → k.next ≡ heads l
    → Wf
        (store h p k)
        (updated heads l (some p))
        (moved place p (at l))
        (updated lists l (p ∷ lists l))
push_Wf h heads place lists l p k wf flying own link m = elim (Bool-cases (same_loc l m)) [
  | inl hit ↦ rw hit (
      subst
        (λ n.
          Chain (store h p k) (some p) (p ∷ lists l)
          × Held (store h p k) (moved place p (at l)) n (p ∷ lists l))
        (same_loc_lem l m hit) pushed)
  | inr miss ↦ rw miss (store-Wf h heads place lists p k (at l) wf flying m)
]
  where
    rest :
        Chain (store h p k) (heads l) (lists l)
        × Held (store h p k) (moved place p (at l)) l (lists l)
    rest = store-Wf h heads place lists p k (at l) wf flying l

    fresh : Fresh p (lists l)
    fresh = Held-Fresh h place l p (lists l) (wf l).1 (λ q. cc (sym flying ∙ q))

    pushed :
        Chain (store h p k) (some p) (p ∷ lists l)
        × Held (store h p k) (moved place p (at l)) l (p ∷ lists l)
    pushed = rw ==_refl (
      (refl, subst (λ q. Chain (store h p k) q (lists l)) (sym link) rest.0),
      (refl, own, fresh, rest.1),
    )

pub heads_Wf :
    (h : ℕ → Packet) (heads heads' : Loc → Option ℕ) (place : ℕ → Place) (lists : Loc → List ℕ)
    → ((l : Loc) → heads' l ≡ heads l)
    → Wf h heads place lists
    → Wf h heads' place lists
heads_Wf h heads heads' place lists e wf m = rw (e m) (wf m)
