-- ===== src/Netlink/Monitor/Loop.antt =====
-- Which rounds of the monitor's loop are run, and what is printed in them.
use linux_learn_demo_code.Base.{
  ℕ, Bool, true, false, not, ◌||◌, Option, none, some, List, [], ◌∷◌, ◌++◌, if◌then◌else◌, All, ◌≡◌,
  refl, sym, ◌∙◌, ap,
}
use mathlib.Core.List.{append-nil, append_assoc}
use linux_learn_demo_code.Base.Int.{ℤ, pos}
use linux_learn_demo_code.Netlink.Monitor.{Line, Round, round, main_loop, main}

-- A round that ends the loop: a signal came before it, or it is left by `break`.
abbrev pub stops : (List ℕ → List ℕ) → Round → Bool
stops inet_ntop r = not r.running || (round inet_ntop r.selected).1

-- The lines of rounds that all run.
abbrev pub lines_of : (List ℕ → List ℕ) → List Round → List Line
lines_of inet_ntop [] = []
lines_of inet_ntop (r ∷ rs) = (round inet_ntop r.selected).0 ++ lines_of inet_ntop rs

goes_on :
    (running break : Bool) → (not running || break) ≡ false → (running ≡ true) × (break ≡ false)
goes_on true false h = (refl, refl)
goes_on true true h = cc
goes_on false break h = cc

last_round :
    (inet_ntop : List ℕ → List ℕ) (running break : Bool) (out : List Line) (more : List Line × Bool)
    → (not running || break) ≡ true
    → let result : List Line × Bool = ((if running then out else []), true) in
      (if not running then ([], true) else if break then (out, true) else (out ++ more.0, more.1))
      ≡ result
last_round inet_ntop true true out more h = refl
last_round inet_ntop true false out more h = cc
last_round inet_ntop false break out more h = refl

main_loop-before :
    (inet_ntop : List ℕ → List ℕ) (before rs : List Round)
    → All (λ r. stops inet_ntop r ≡ false) before
    → main_loop inet_ntop (before ++ rs)
      ≡ (lines_of inet_ntop before ++ (main_loop inet_ntop rs).0, (main_loop inet_ntop rs).1)
unfolding main_loop
main_loop-before inet_ntop [] rs h = refl
main_loop-before inet_ntop (r ∷ before) rs h =
    let g = goes_on r.running (round inet_ntop r.selected).1 h.0 in
    let e = main_loop-before inet_ntop before rs h.1 in
    rw (g.0, g.1)
      (ap (λ (p : List Line × Bool). ((round inet_ntop r.selected).0 ++ p.0, p.1)) e
        ∙ ap (λ out. (out, (main_loop inet_ntop rs).1))
            (sym (
              append_assoc (round inet_ntop r.selected).0 (lines_of inet_ntop before)
                (main_loop inet_ntop rs).0)))

main_loop-last :
    (inet_ntop : List ℕ → List ℕ) (last : Round) (after : List Round)
    → stops inet_ntop last ≡ true
    → main_loop inet_ntop (last ∷ after)
      ≡ ((if last.running then (round inet_ntop last.selected).0 else []), true)
unfolding main_loop
main_loop-last inet_ntop last after stop =
    last_round inet_ntop last.running (round inet_ntop last.selected).1
      (round inet_ntop last.selected).0 (main_loop inet_ntop after) stop

-- What `main` makes of the lines and the end of its loop.
abbrev closing : List Line × Bool → List Line × ℕ × Option ℤ
closing p = (p.0, (if p.1 then 1 else 0), (if p.1 then some (pos 0) else none))

-- The program runs the rounds up to the first that ends its loop and none after it, prints the lines
-- of each of them in order, of the last only if no signal came before it, and then closes its socket
-- and returns 0. As long as no round ends the loop it prints the lines of all, and has closed nothing.
pub main-prints :
    (inet_ntop : List ℕ → List ℕ) (before : List Round) (last : Round) (after : List Round)
    → All (λ r. stops inet_ntop r ≡ false) before
    → stops inet_ntop last ≡ true
    → (main inet_ntop true true (before ++ last ∷ after) ≡ (
      lines_of inet_ntop before ++ (if last.running then (round inet_ntop last.selected).0 else []),
      1,
      some (pos 0),
    ))
      × (main inet_ntop true true before ≡ (lines_of inet_ntop before, 0, none))
unfolding main main_loop
main-prints inet_ntop before last after go stop = (
  ap closing (
      main_loop-before inet_ntop before (last ∷ after) go
      ∙ ap (λ (p : List Line × Bool). (lines_of inet_ntop before ++ p.0, p.1))
          (main_loop-last inet_ntop last after stop)),
  ap closing (
      ap (main_loop inet_ntop) (sym (append-nil before))
      ∙ main_loop-before inet_ntop before [] go
      ∙ ended),
)
  where
    ended :
        (let out : List Line × Bool =
            (lines_of inet_ntop before ++ (main_loop inet_ntop []).0, (main_loop inet_ntop []).1) in
          out)
        ≡ (lines_of inet_ntop before, false)
    ended = ap (λ out. (out, false)) (append-nil (lines_of inet_ntop before))
