-- ===== src/Snull/Run/Drained.antt =====
-- The polls of one device under NAPI, which the kernel repeats until one ends early.
use linux_learn_demo_code.Base.{
  ℕ, ◌≤◌, ◌<◌, Bool, true, false, Option, none, some, List, [], ◌∷◌, length, All, ltb, ◌≡◌, ◌∙◌, ap,
  inl, inr, Bool-cases, arith,
}
use linux_learn_demo_code.Snull.Types.{Dev, sn0, sn1, other, Outcome, ok, fault, World, priv}
use linux_learn_demo_code.Snull.Chains.{pool, queue, Chain}
use linux_learn_demo_code.Snull.Receive.{poll}
use linux_learn_demo_code.Snull.Run.{IsSound}
use linux_learn_demo_code.Snull.Run.Polls.{poll-IsPolled}
use linux_learn_demo_code.Snull.Run.Steps.{Chain-unique}

-- The polls of `d` with these budgets, one after the other, up to the first that delivers less than
-- its budget: that one has called `napi_complete_done`, and the kernel polls no more. The Boolean says
-- whether there was one.
unfoldable pub poll_each : ℕ → Dev → List ℕ → World → Option (Outcome (Bool × World))
poll_each fuel d [] w = some (ok (false, w))
poll_each fuel d (budget ∷ budgets) w = elim (poll fuel d budget w) [
  | none ↦ none
  | some (fault e) ↦ some (fault e)
  | some (ok (m, u)) ↦ elim (ltb m budget) [
    | true ↦ some (ok (true, u))
    | false ↦ poll_each fuel d budgets u
  ]
]

poll_each-early :
    (fuel : ℕ) (d : Dev) (budget : ℕ) (budgets : List ℕ) (w : World) (m : ℕ) (u : World)
    → poll fuel d budget w ≡ some (ok (m, u))
    → ltb m budget ≡ true
    → poll_each fuel d (budget ∷ budgets) w ≡ some (ok (true, u))
unfolding poll_each
poll_each-early fuel d budget budgets w m u e less = rw (poll_each, e, less)

poll_each-again :
    (fuel : ℕ) (d : Dev) (budget : ℕ) (budgets : List ℕ) (w : World) (m : ℕ) (u : World)
    → poll fuel d budget w ≡ some (ok (m, u))
    → ltb m budget ≡ false
    → poll_each fuel d (budget ∷ budgets) w ≡ poll_each fuel d budgets u
unfolding poll_each
poll_each-again fuel d budget budgets w m u e full = rw (poll_each, e, full)

all_home :
    (total : Dev → ℕ) (d : Dev) (u : World) (s : IsSound total u)
    → s.lists (queue d) ≡ []
    → length (s.lists (pool (other d))) ≡ total (other d)
all_home total sn0 u s e = omega (arith, s.kept sn1, ap length e)
all_home total sn1 u s e = omega (arith, s.kept sn0, ap length e)

-- A device with nothing queued, whose interrupts are enabled, and whose twin has all its packets.
pub record IsDrained (total : Dev → ℕ) (d : Dev) (u : World) : Type 0 where
  pub sound : IsSound total u
  pub nothing : sound.lists (queue d) ≡ []
  pub listens : (priv u d).rx_int_enabled ≡ true
  pub home : length (sound.lists (pool (other d))) ≡ total (other d)

drains :
    (total : Dev → ℕ) (fuel : ℕ) (d : Dev) (budgets : List ℕ) (w : World) (s : IsSound total w)
    → All (λ b. 1 ≤ b) budgets
    → length (s.lists (queue d)) < length budgets
    → length (s.lists (queue d)) < fuel
    → (u : World) × (poll_each fuel d budgets w ≡ some (ok (true, u))) × IsDrained total d u
drains total fuel d [] w s some_each enough fuelled = absurd (omega (arith, enough))
drains total fuel d (b ∷ bs) w s some_each enough fuelled =
    let (m, u, eq, s', r) = poll-IsPolled total fuel d b w s fuelled in
    elim (Bool-cases (ltb m b)) [
      | inl less ↦ (
        u,
        poll_each-early fuel d b bs w m u eq less,
        record {
          sound = s';
          nothing = (r.finished less).0;
          listens = (r.finished less).1;
          home = all_home total d u s' (r.finished less).0;
        },
      )
      | inr full ↦
          let ge : b ≤ m = ground arith in
          let shrunk : length (s'.lists (queue d)) < length (s.lists (queue d)) =
            omega (arith, r.shorter, some_each.0, ge) in
          let (v, eq', drained) =
            drains total fuel d bs u s' some_each.1 (omega (arith, shrunk, enough))
              (omega (arith, shrunk, fuelled)) in
          (v, poll_each-again fuel d b bs w m u eq full ∙ eq', drained)
    ]

-- Under NAPI, from a sound driver with some packets that wait at a device, the kernel polls the device
-- with budgets of at least 1 until a poll delivers less than its budget. It has to offer at most one
-- budget more than packets wait: then such a poll comes, none faults, whichever allocations fail, and
-- afterwards the driver is sound, nothing waits at the device, its receive interrupts are enabled
-- again, and all the packets of its twin are back in the twin's pool.
pub poll_each-drains :
    (total : Dev → ℕ) (fuel : ℕ) (d : Dev) (budgets : List ℕ) (w : World) (xs : List ℕ)
    → IsSound total w
    → Chain w.packets (priv w d).rx_queue xs
    → All (λ b. 1 ≤ b) budgets
    → length xs < length budgets
    → length xs < fuel
    → (u : World) × (poll_each fuel d budgets w ≡ some (ok (true, u))) × IsDrained total d u
poll_each-drains total fuel d budgets w xs s c some_each enough fuelled =
    let same = ap length (
      Chain-unique w.packets (priv w d).rx_queue (s.lists (queue d)) xs (s.inv.tracks (queue d)).0
        c) in
    drains total fuel d budgets w s some_each (omega (arith, same, enough))
      (omega (arith, same, fuelled))
