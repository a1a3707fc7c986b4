-- ===== src/Snull/Chains/Changes.antt =====
-- Changes of the packets that leave the lists alone.
use linux_learn_demo_code.Base.{ℕ, Option, List, [], ◌∷◌, ◌∙◌, ◌≡◌}
use linux_learn_demo_code.Snull.Types.{Packet}
use linux_learn_demo_code.Snull.Chains.{Chain, Held, Loc, Place, Wf}

-- The lists depend on the links and on the owners of the packets alone.
abbrev pub Agree : (ℕ → Packet) → (ℕ → Packet) → Type 0
Agree h h' = (y : ℕ) → ((h' y).next ≡ (h y).next) × ((h' y).dev ≡ (h y).dev)

Chain-Agree :
    (h h' : ℕ → Packet) (q : Option ℕ) (xs : List ℕ) → Agree h h' → Chain h q xs → Chain h' q xs
Chain-Agree h h' q [] a c = c
Chain-Agree h h' q (x ∷ xs) a c = (c.0, rw (a x).0 (Chain-Agree h h' (h x).next xs a c.1))

Held-Agree :
    (h h' : ℕ → Packet) (place : ℕ → Place) (l : Loc) (xs : List ℕ)
    → Agree h h'
    → Held h place l xs
    → Held h' place l xs
Held-Agree h h' place l [] a held = held
Held-Agree h h' place l (x ∷ xs) a held =
    (held.0, (a x).1 ∙ held.1, held.2, Held-Agree h h' place l xs a held.3)

pub Agree-Wf :
    (h h' : ℕ → Packet) (heads heads' : Loc → Option ℕ) (place : ℕ → Place) (lists : Loc → List ℕ)
    → Agree h h'
    → ((l : Loc) → heads' l ≡ heads l)
    → Wf h heads place lists
    → Wf h' heads' place lists
Agree-Wf h h' heads heads' place lists a e wf m =
    rw (e m) (
      Chain-Agree h h' (heads m) (lists m) a (wf m).0,
      Held-Agree h h' place m (lists m) a (wf m).1,
    )
