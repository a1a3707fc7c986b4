-- ===== src/LinkMonitor/Statistics.antt =====
-- The statistics of the link monitor after any run.
use linux_learn_demo_code.Base.{
  ℕ, ◌+◌, ◌%◌, ◌^◌, ◌<◌, false, some, List, [], ◌∷◌, if◌then◌else◌, add_ulong, ◌≡◌, refl, sym, ◌∙◌,
  ap, arith, Bool-cases, inl, inr, subst,
}
use native.Mathlib.Nat.{mod-add-mod, mod-lt}
use linux_learn_demo_code.LinkMonitor.{
  Monitor, Signal, sigint, sigterm, sigusr1, sigusr2, other_signal, handle_signal,
}
use linux_learn_demo_code.LinkMonitor.Events.{
  Event, link, expired, signalled, is_reset, was_reset, since, began, links, expirations, signals,
  handle_events,
}

-- What a counter starts from.
abbrev pub base : List Event → ℕ → ℕ
base es v = if was_reset es then 0 else v

since-none : (es : List Event) → was_reset es ≡ false → since es ≡ es
since-none [] e = refl
since-none (signalled sigusr2 now ∷ es) e = cc
since-none (link ∷ es) e = rw e refl
since-none (expired n ∷ es) e = rw e refl
since-none (signalled sigint now ∷ es) e = rw e refl
since-none (signalled sigterm now ∷ es) e = rw e refl
since-none (signalled sigusr1 now ∷ es) e = rw e refl
since-none (signalled other_signal now ∷ es) e = rw e refl

-- An event that is no reset in front of others, for a count that gives it `n`.
count_front :
    (count : List Event → ℕ) (e : Event) (es : List Event) (n v : ℕ)
    → is_reset e ≡ false
    → count (e ∷ es) ≡ n + count es
    → (base es (add_ulong v n) + count (since es)) % 2 ^ 64
      ≡ (base (e ∷ es) v + count (since (e ∷ es))) % 2 ^ 64
count_front count e es n v plain one = elim (Bool-cases (was_reset es)) [
  | inl hit ↦ rw (plain, hit) refl
  | inr miss ↦
      rw (plain, miss, since-none es miss, one)
        (mod-add-mod (v + n) (2 ^ 64) (count es) ∙ ap (λ k. k % 2 ^ 64) (omega arith))
]

count_none :
    (count : List Event → ℕ) (e : Event) (es : List Event) (v : ℕ)
    → is_reset e ≡ false
    → count (e ∷ es) ≡ count es
    → (base es v + count (since es)) % 2 ^ 64 ≡ (base (e ∷ es) v + count (since (e ∷ es))) % 2 ^ 64
count_none count e es v plain one = elim (Bool-cases (was_reset es)) [
  | inl hit ↦ rw (plain, hit) refl
  | inr miss ↦ rw (plain, miss, since-none es miss, one) refl
]

-- A reset in front of others.
count_reset :
    (count : List Event → ℕ) (now : ℕ) (es : List Event) (v : ℕ)
    → (base es 0 + count (since es)) % 2 ^ 64
      ≡ (base (signalled sigusr2 now ∷ es) v + count (since (signalled sigusr2 now ∷ es))) % 2 ^ 64
count_reset count now es v = elim (Bool-cases (was_reset es)) [
  | inl hit ↦ rw hit refl
  | inr miss ↦ rw (miss, since-none es miss) refl
]

word_bound : (v n : ℕ) → add_ulong v n < 2 ^ 64
word_bound v n = mod-lt (v + n) (omega arith)

same_word : (v : ℕ) → v < 2 ^ 64 → v ≡ (v + 0) % 2 ^ 64
same_word v h = omega (arith, h)

-- A signal other than SIGUSR2 is counted, and leaves the other counters.
handle_signal-counts :
    (s : Signal) (now : ℕ) (m : Monitor)
    → is_reset (signalled s now) ≡ false
    → ((handle_signal now (some s) m).link_events ≡ m.link_events)
      × ((handle_signal now (some s) m).timer_ticks ≡ m.timer_ticks)
      × ((handle_signal now (some s) m).signal_count ≡ add_ulong m.signal_count 1)
      × ((handle_signal now (some s) m).start_time ≡ m.start_time)
unfolding handle_signal
handle_signal-counts sigint now m e = (refl, refl, refl, refl)
handle_signal-counts sigterm now m e = (refl, refl, refl, refl)
handle_signal-counts sigusr1 now m e = (refl, refl, refl, refl)
handle_signal-counts sigusr2 now m e = cc
handle_signal-counts other_signal now m e = (refl, refl, refl, refl)

-- What the statistics of a monitor say of events, if they were those of `m` before.
pub record Counts (es : List Event) (m m' : Monitor) : Type 0 where
  pub link_events : m'.link_events ≡ (base es m.link_events + links (since es)) % 2 ^ 64
  pub timer_ticks : m'.timer_ticks ≡ (base es m.timer_ticks + expirations (since es)) % 2 ^ 64
  pub signal_count : m'.signal_count ≡ (base es m.signal_count + signals (since es)) % 2 ^ 64
  pub start_time : m'.start_time ≡ began m.start_time es

-- The counters are machine words.
pub record IsWords (m : Monitor) : Type 0 where
  pub link_events : m.link_events < 2 ^ 64
  pub timer_ticks : m.timer_ticks < 2 ^ 64
  pub signal_count : m.signal_count < 2 ^ 64

plain_began :
    (s : Signal) (now start : ℕ) (es : List Event)
    → is_reset (signalled s now) ≡ false
    → began start es ≡ began start (signalled s now ∷ es)
plain_began sigint now start es e = refl
plain_began sigterm now start es e = refl
plain_began sigusr1 now start es e = refl
plain_began sigusr2 now start es e = cc
plain_began other_signal now start es e = refl

plain_signal :
    (s : Signal) (now : ℕ) (es : List Event) (m m' : Monitor)
    → is_reset (signalled s now) ≡ false
    → (IsWords (handle_signal now (some s) m) → Counts es (handle_signal now (some s) m) m')
    → IsWords m
    → Counts (signalled s now ∷ es) m m'
plain_signal s now es m m' plain rest w =
    let c = handle_signal-counts s now m plain in
    let r = rest (record {
      link_events = subst (λ v. v < 2 ^ 64) (sym c.0) w.link_events;
      timer_ticks = subst (λ v. v < 2 ^ 64) (sym c.1) w.timer_ticks;
      signal_count = subst (λ v. v < 2 ^ 64) (sym c.2) (word_bound m.signal_count 1);
    }) in
    record {
      link_events =
          r.link_events
          ∙ ap (λ v. (base es v + links (since es)) % 2 ^ 64) c.0
          ∙ count_none links (signalled s now) es m.link_events plain refl;
      timer_ticks =
          r.timer_ticks
          ∙ ap (λ v. (base es v + expirations (since es)) % 2 ^ 64) c.1
          ∙ count_none expirations (signalled s now) es m.timer_ticks plain refl;
      signal_count =
          r.signal_count
          ∙ ap (λ v. (base es v + signals (since es)) % 2 ^ 64) c.2
          ∙ count_front signals (signalled s now) es 1 m.signal_count plain refl;
      start_time =
          r.start_time ∙ ap (λ t. began t es) c.3 ∙ plain_began s now m.start_time es plain;
    }

pub handle_events-Counts :
    (es : List Event) (m : Monitor) → IsWords m → Counts es m (handle_events es m)
unfolding handle_events handle_signal
handle_events-Counts [] m w = record {
  link_events = same_word m.link_events w.link_events;
  timer_ticks = same_word m.timer_ticks w.timer_ticks;
  signal_count = same_word m.signal_count w.signal_count;
  start_time = refl;
}
handle_events-Counts (link ∷ es) m w =
    let r =
      handle_events-Counts es (record m { link_events = add_ulong m.link_events 1 })
        (record {
          link_events = word_bound m.link_events 1;
          timer_ticks = w.timer_ticks;
          signal_count = w.signal_count;
        }) in
    record {
      link_events = r.link_events ∙ count_front links link es 1 m.link_events refl refl;
      timer_ticks = r.timer_ticks ∙ count_none expirations link es m.timer_ticks refl refl;
      signal_count = r.signal_count ∙ count_none signals link es m.signal_count refl refl;
      start_time = r.start_time;
    }
handle_events-Counts (expired n ∷ es) m w =
    let r =
      handle_events-Counts es (record m { timer_ticks = add_ulong m.timer_ticks n })
        (record {
          link_events = w.link_events;
          timer_ticks = word_bound m.timer_ticks n;
          signal_count = w.signal_count;
        }) in
    record {
      link_events = r.link_events ∙ count_none links (expired n) es m.link_events refl refl;
      timer_ticks =
          r.timer_ticks ∙ count_front expirations (expired n) es n m.timer_ticks refl refl;
      signal_count = r.signal_count ∙ count_none signals (expired n) es m.signal_count refl refl;
      start_time = r.start_time;
    }
handle_events-Counts (signalled sigusr2 now ∷ es) m w =
    let r = handle_events-Counts es (handle_signal now (some sigusr2) m) (record {
      link_events = omega arith;
      timer_ticks = omega arith;
      signal_count = omega arith;
    }) in
    record {
      link_events = r.link_events ∙ count_reset links now es m.link_events;
      timer_ticks = r.timer_ticks ∙ count_reset expirations now es m.timer_ticks;
      signal_count = r.signal_count ∙ count_reset signals now es m.signal_count;
      start_time = r.start_time;
    }
handle_events-Counts (signalled sigint now ∷ es) m w =
    plain_signal sigint now es m _ refl
      (handle_events-Counts es (handle_signal now (some sigint) m)) w
handle_events-Counts (signalled sigterm now ∷ es) m w =
    plain_signal sigterm now es m _ refl
      (handle_events-Counts es (handle_signal now (some sigterm) m)) w
handle_events-Counts (signalled sigusr1 now ∷ es) m w =
    plain_signal sigusr1 now es m _ refl
      (handle_events-Counts es (handle_signal now (some sigusr1) m)) w
handle_events-Counts (signalled other_signal now ∷ es) m w =
    plain_signal other_signal now es m _ refl
      (handle_events-Counts es (handle_signal now (some other_signal) m)) w
