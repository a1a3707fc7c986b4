-- ===== src/Snull/Receive/Polled.antt =====
-- What `snull_poll` leaves: of the packet lists, of the devices, and with the upper layers.
use linux_learn_demo_code.Base.{
  onto, map, ℕ, ◌+◌, ◌≤◌, List, [], ◌∷◌, ◌++◌, if◌then◌else◌, ◌≡◌, refl, sym, ◌∙◌, ap, ap₂, ◌⊎◌,
  arith,
}
use linux_learn_demo_code.Snull.Types.{Dev, sn0, sn1, other, World, priv}
use linux_learn_demo_code.Snull.Chains.{Loc, pool, queue, updated}
use linux_learn_demo_code.Snull.Receive.Rounds.{Unharmed, Unharmed-same, Unharmed-then, passed_on}
use linux_learn_demo_code.Snull.Receive.Passed.{
  scheduled, frame_of, received, allocated, rest_of, first_of, allocated-round, map-same,
}

-- What a poll of `d` that had delivered `n` packets leaves of the lists, and how many it has
-- delivered then.
pub record Polled (d : Dev) (budget n : ℕ) (w : World) (lists : Loc → List ℕ) (m : ℕ) (u : World)
    (lists' : Loc → List ℕ) : Type 0 where
  pub taken : List ℕ
  pub split : lists (queue d) ≡ taken ++ lists' (queue d)
  pub returned : lists' (pool (other d)) ≡ onto taken (lists (pool (other d)))
  pub pool_kept : lists' (pool d) ≡ lists (pool d)
  pub queue_kept : lists' (queue (other d)) ≡ lists (queue (other d))
  pub counted : passed_on d u.calls + n ≡ passed_on d w.calls + m
  pub passed :
      received d u.calls ≡ onto (allocated w.allocs (map (frame_of w) taken)) (received d w.calls)
  pub within : m ≤ budget
  pub ended : (m ≡ budget) ⊎ (lists' (queue d) ≡ [])
  pub pending : (e : Dev) → scheduled e u.calls ≡ scheduled e w.calls
  pub unharmed : (e : Dev) → Unharmed (priv w e) (priv u e)

-- The lists after one round.
abbrev pub round : Dev → ℕ → List ℕ → (Loc → List ℕ) → Loc → List ℕ
round d x xs lists =
    updated (updated lists (queue d) xs) (pool (other d))
      (x ∷ updated lists (queue d) xs (pool (other d)))

pub round_lem :
    (d : Dev) (x : ℕ) (xs : List ℕ) (lists : Loc → List ℕ)
    → (round d x xs lists (queue d) ≡ xs)
      × (round d x xs lists (pool (other d)) ≡ x ∷ lists (pool (other d)))
      × (round d x xs lists (pool d) ≡ lists (pool d))
      × (round d x xs lists (queue (other d)) ≡ lists (queue (other d)))
round_lem sn0 x xs lists = (refl, refl, refl, refl)
round_lem sn1 x xs lists = (refl, refl, refl, refl)

-- A round in front of a poll.
pub Polled-round :
    (d : Dev) (budget n : ℕ) (w w₁ : World) (lists : Loc → List ℕ) (x : ℕ) (xs : List ℕ) (k m : ℕ)
    (u : World) (lists' : Loc → List ℕ)
    → lists (queue d) ≡ x ∷ xs
    → passed_on d w₁.calls + n ≡ passed_on d w.calls + k
    → (received d w₁.calls
        ≡ (if first_of w.allocs then frame_of w x ∷ received d w.calls else received d w.calls))
      × (w₁.allocs ≡ rest_of w.allocs)
      × ((y : ℕ) → frame_of w₁ y ≡ frame_of w y)
    → ((e : Dev) → Unharmed (priv w e) (priv w₁ e))
    → ((e : Dev) → scheduled e w₁.calls ≡ scheduled e w.calls)
    → Polled d budget k w₁ (round d x xs lists) m u lists'
    → Polled d budget n w lists m u lists'
Polled-round d budget n w w₁ lists x xs k m u lists' e step got spared same r = record {
  taken = x ∷ r.taken;
  split = e ∙ ap (◌∷◌ x) (sym (round_lem d x xs lists).0 ∙ r.split);
  returned = r.returned ∙ ap (onto r.taken) (round_lem d x xs lists).1;
  pool_kept = r.pool_kept ∙ (round_lem d x xs lists).2;
  queue_kept = r.queue_kept ∙ (round_lem d x xs lists).3;
  counted = omega (arith, step, r.counted);
  passed =
      r.passed
      ∙ ap₂ (λ bs cs. onto (allocated bs (map (frame_of w₁) r.taken)) cs) got.1 got.0
      ∙ ap
          (λ fs.
            onto (allocated (rest_of w.allocs) fs)
              (if first_of w.allocs then frame_of w x ∷ received d w.calls else received d w.calls))
          (map-same (frame_of w₁) (frame_of w) r.taken got.2)
      ∙ allocated-round w.allocs (frame_of w x) (map (frame_of w) r.taken) (received d w.calls);
  within = r.within;
  ended = r.ended;
  pending = λ d'. r.pending d' ∙ same d';
  unharmed = λ d'. Unharmed-then (priv w d') (priv w₁ d') (priv u d') (spared d') (r.unharmed d');
}

pub Polled-stop :
    (d : Dev) (budget n : ℕ) (w : World) (lists : Loc → List ℕ)
    → n ≤ budget
    → (n ≡ budget) ⊎ (lists (queue d) ≡ [])
    → Polled d budget n w lists n w lists
Polled-stop d budget n w lists le ended = record {
  taken = [];
  split = refl;
  returned = refl;
  pool_kept = refl;
  queue_kept = refl;
  counted = refl;
  passed = refl;
  within = le;
  ended = ended;
  pending = λ e. refl;
  unharmed = λ e. Unharmed-same (priv w e);
}
