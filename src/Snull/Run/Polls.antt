-- ===== src/Snull/Run/Polls.antt =====
-- One poll of a sound driver.
use linux_learn_demo_code.Base.{
  ℕ, suc, ◌+◌, ◌≤◌, ◌<◌, Bool, true, false, some, List, [], ◌∷◌, length, length-append, length-onto,
  ltb, map, ◌≡◌, refl, sym, ◌∙◌, ap, arith,
}
use linux_learn_demo_code.Snull.Types.{Dev, sn0, sn1, ok, World, priv}
use linux_learn_demo_code.Snull.Chains.{Loc, queue}
use linux_learn_demo_code.Snull.Receive.{poll}
use linux_learn_demo_code.Snull.Receive.Passed.{frame_of, received, allocated, length-allocated}
use linux_learn_demo_code.Snull.Receive.Polled.{Polled}
use linux_learn_demo_code.Snull.Receive.Poll.{poll_lem}
use linux_learn_demo_code.Snull.Run.{IsSound}
use linux_learn_demo_code.Snull.Run.Awaited.{closed-awaited}
use linux_learn_demo_code.Snull.Run.Steps.{
  closed, closed-Inv, true≢false, closed-IsCalm, closed-polled, emptied_by, kept-Polled,
  queue-Polled,
}

pub length-map : {A : Type 0} (f : ℕ → A) (xs : List ℕ) → length (map f xs) ≡ length xs
length-map f [] = refl
length-map f (x ∷ xs) = ap suc (length-map f xs)

-- A poll delivers at most one frame for each packet that it takes.
pub Polled-bound :
    (d : Dev) (budget : ℕ) (w : World) (lists : Loc → List ℕ) (m : ℕ) (u : World)
    (lists' : Loc → List ℕ) (r : Polled d budget 0 w lists m u lists')
    → m ≤ length r.taken
Polled-bound d budget w lists m u lists' r = omega (
  arith,
  r.counted,
  ap length r.passed,
  length-onto {0} (allocated w.allocs (map (frame_of w) r.taken)) (received d w.calls),
  length-allocated w.allocs (map (frame_of w) r.taken),
  length-map (frame_of w) r.taken,
)

-- A poll that ends early enables the receive interrupts.
listening :
    (d : Dev) (m : ℕ) (less : Bool) (u : World)
    → less ≡ true
    → (priv (closed d m less u) d).rx_int_enabled ≡ true
listening d m false u e = absurd (true≢false (sym e))
listening sn0 m true u e = refl
listening sn1 m true u e = refl

-- What a poll leaves of a sound driver: it is sound, the queue is shorter by what was delivered at
-- least, and if less than the budget was delivered the queue is empty and the receive interrupts are
-- enabled.
pub record IsPolled (total : Dev → ℕ) (d : Dev) (budget : ℕ) (w : World) (s : IsSound total w)
    (m : ℕ) (u : World) (s' : IsSound total u) : Type 0 where
  pub shorter : length (s'.lists (queue d)) + m ≤ length (s.lists (queue d))
  pub finished :
      ltb m budget ≡ true → (s'.lists (queue d) ≡ []) × ((priv u d).rx_int_enabled ≡ true)
  pub within : m ≤ budget

pub poll-IsPolled :
    (total : Dev → ℕ) (fuel : ℕ) (d : Dev) (budget : ℕ) (w : World) (s : IsSound total w)
    → length (s.lists (queue d)) < fuel
    → (m : ℕ) × (u : World) × (poll fuel d budget w ≡ some (ok (m, u)))
      × (s' : IsSound total u) × IsPolled total d budget w s m u s'
poll-IsPolled total fuel d budget w s enough =
    let (n, v, place', lists', eq, inv', r) =
      poll_lem fuel d budget w s.place s.lists s.inv enough in
    let less = ltb n budget in
    let emptied = emptied_by n budget (lists' (queue d)) r.ended in
    (
      n,
      _,
      eq,
      record {
        place = place';
        lists = lists';
        inv = closed-Inv d n less v place' lists' inv';
        calm = closed-IsCalm d n less v (λ e'. record {
          idle = (r.unharmed e').status ∙ (s.calm e').idle;
          stops = (r.unharmed e').stops (s.calm e').stops;
        });
        kept = kept-Polled d budget 0 w s.lists n v lists' total r s.kept;
        polled =
            closed-polled d n less v lists' emptied
              (queue-Polled d budget 0 w s.lists n v lists' r s.polled);
        awaited =
            closed-awaited d n less v
              (λ e' off. r.pending e' ∙ s.awaited e' (sym (r.unharmed e').ints ∙ off));
      },
      record {
        shorter = omega (
          arith,
          Polled-bound d budget w s.lists n v lists' r,
          ap length r.split,
          length-append {0} r.taken (lists' (queue d)),
        );
        finished = λ e. (emptied e, listening d n less v e);
        within = r.within;
      },
    )
