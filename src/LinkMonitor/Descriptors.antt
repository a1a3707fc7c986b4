-- ===== src/LinkMonitor/Descriptors.antt =====
-- Which descriptors `main` closes.
use linux_learn_demo_code.Base.{
  ℕ, Bool, true, false, Option, none, some, List, [], ◌∷◌, ◌++◌, if◌then◌else◌, ◌≡◌, refl, sym, ◌∙◌,
  ap, ◌&&◌, subst, if_both,
}
use mathlib.Core.List.{append-nil, append_assoc}
use linux_learn_demo_code.LinkMonitor.{
  Monitor, Answers, Round, failed, ready, Signal, sigint, sigterm, sigusr1, sigusr2, other_signal,
  initial, set_up, main, run_main_loop, handle_round, handle_link, handle_timer, handle_signal,
  cleanup_resources, is_set,
}
use linux_learn_demo_code.LinkMonitor.Links.{Report, Message}

-- The descriptors that the program holds, and those that it has closed.
abbrev pub descriptors : Monitor → Option ℕ × Option ℕ × Option ℕ × List ℕ
descriptors m = (m.netlink_fd, m.timer_fd, m.signal_fd, m.closed)

handle_signal-descriptors :
    (now : ℕ) (s : Option Signal) (m : Monitor)
    → descriptors (handle_signal now s m) ≡ descriptors m
unfolding handle_signal
handle_signal-descriptors now none m = refl
handle_signal-descriptors now (some sigint) m = refl
handle_signal-descriptors now (some sigterm) m = refl
handle_signal-descriptors now (some sigusr1) m = refl
handle_signal-descriptors now (some sigusr2) m = refl
handle_signal-descriptors now (some other_signal) m = refl

pub handle_timer-descriptors :
    (t : Option ℕ) (m : Monitor) → descriptors (handle_timer t m) ≡ descriptors m
unfolding handle_timer
handle_timer-descriptors none m = refl
handle_timer-descriptors (some n) m = refl

pub handle_link-descriptors :
    (r : Option (List Message)) (m : Monitor) → descriptors (handle_link r m).1 ≡ descriptors m
unfolding handle_link
handle_link-descriptors none m = refl
handle_link-descriptors (some ms) m = refl

-- A descriptor, if there is one.
abbrev pub to_list : Option ℕ → List ℕ
to_list none = []
to_list (some fd) = fd ∷ []

pub handle_round-descriptors :
    (isset : ℕ → Bool) (recv : Option (List Message)) (timer : Option ℕ) (sig : Option Signal)
    (now : ℕ) (m : Monitor)
    → descriptors (handle_round isset recv timer sig now m).1 ≡ descriptors m
unfolding handle_round
handle_round-descriptors isset recv timer sig now m = third ∙ second ∙ first
  where
    m₁ : Monitor
    m₁ = (if is_set isset m.netlink_fd then handle_link recv m else ([], m)).1

    m₂ : Monitor
    m₂ = if is_set isset m₁.timer_fd then handle_timer timer m₁ else m₁

    first : descriptors m₁ ≡ descriptors m
    first =
        if_both (λ (r : List Report × Monitor). descriptors r.1) (is_set isset m.netlink_fd)
          (handle_link-descriptors recv m) refl

    second : descriptors m₂ ≡ descriptors m₁
    second = if_both descriptors (is_set isset m₁.timer_fd) (handle_timer-descriptors timer m₁) refl

    third :
        descriptors (if is_set isset m₂.signal_fd then handle_signal now sig m₂ else m₂)
        ≡ descriptors m₂
    third =
        if_both descriptors (is_set isset m₂.signal_fd) (handle_signal-descriptors now sig m₂) refl

run_main_loop-descriptors :
    (rounds : List Round) (m : Monitor) → descriptors (run_main_loop rounds m) ≡ descriptors m
unfolding run_main_loop
run_main_loop-descriptors [] m = refl
run_main_loop-descriptors (failed i ∷ more) m =
    if_both descriptors m.running (if_both descriptors i (run_main_loop-descriptors more m) refl)
      refl
run_main_loop-descriptors (ready isset recv timer sig now ∷ more) m =
    if_both descriptors m.running
      (run_main_loop-descriptors more (handle_round isset recv timer sig now m).1
        ∙ handle_round-descriptors isset recv timer sig now m)
      refl

-- The descriptors that `cleanup_resources` closes.
abbrev held : Option ℕ × Option ℕ × Option ℕ × List ℕ → List ℕ
held (a, b, c, closed) = closed ++ (to_list a ++ (to_list b ++ to_list c))

closed_of :
    (a b c : Option ℕ) (m : Monitor)
    → (cleanup_resources (record m { netlink_fd = a; timer_fd = b; signal_fd = c })).closed
      ≡ held (a, b, c, m.closed)
unfolding cleanup_resources
closed_of none none none m = sym (append-nil m.closed)
closed_of (some x) none none m = refl
closed_of none (some y) none m = refl
closed_of none none (some z) m = refl
closed_of (some x) (some y) none m = append_assoc m.closed (x ∷ []) (y ∷ [])
closed_of (some x) none (some z) m = append_assoc m.closed (x ∷ []) (z ∷ [])
closed_of none (some y) (some z) m = append_assoc m.closed (y ∷ []) (z ∷ [])
closed_of (some x) (some y) (some z) m =
    append_assoc (m.closed ++ x ∷ []) (y ∷ []) (z ∷ [])
    ∙ append_assoc m.closed (x ∷ []) (y ∷ z ∷ [])

cleanup-closed : (m : Monitor) → (cleanup_resources m).closed ≡ held (descriptors m)
cleanup-closed m = closed_of m.netlink_fd m.timer_fd m.signal_fd m

main-closed :
    (now : ℕ) (a : Answers) (rounds : List Round)
    → (main now a rounds).closed ≡ held (descriptors (set_up a (initial now)).1)
unfolding main
main-closed now a rounds =
    let m = (set_up a (initial now)).1 in
    cleanup-closed (if (set_up a (initial now)).0 then run_main_loop rounds m else m)
    ∙ ap held
        (if_both descriptors (set_up a (initial now)).0 (run_main_loop-descriptors rounds m) refl)

-- The descriptors that the program gets from the kernel, in order.
abbrev pub obtained : Answers → List ℕ
obtained a = elim a.socket [
  | none ↦ []
  | some n ↦
      if a.setsockopt && a.bind
      then n ∷ (elim a.timerfd_create [
        | none ↦ []
        | some t ↦ t ∷ (if a.timerfd_settime && a.sigprocmask then to_list a.signalfd else [])
      ])
      else n ∷ []
]

set_up-held :
    (now : ℕ) (n : Option ℕ) (so bi : Bool) (t : Option ℕ) (sm : Bool) (sf : Option ℕ)
    → let a : Answers = record {
      socket = n;
      setsockopt = so;
      bind = bi;
      timerfd_create = t;
      timerfd_settime = true;
      sigprocmask = sm;
      signalfd = sf;
    } in
      held (descriptors (set_up a (initial now)).1) ≡ obtained a
unfolding set_up
set_up-held now none so bi t sm sf = refl
set_up-held now (some n) false bi t sm sf = refl
set_up-held now (some n) true false t sm sf = refl
set_up-held now (some n) true true none sm sf = refl
set_up-held now (some n) true true (some t) false sf = refl
set_up-held now (some n) true true (some t) true none = refl
set_up-held now (some n) true true (some t) true (some f) = refl

-- Unless the timer cannot be set, `main` closes each of its three descriptors that it gets, once and in
-- the order in which it gets them, whatever else fails and whatever the rounds of the loop bring.
pub main_lem :
    (now : ℕ) (a : Answers) (rounds : List Round)
    → a.timerfd_settime ≡ true
    → (main now a rounds).closed ≡ obtained a
main_lem now a rounds s =
    main-closed now a rounds
    ∙ subst (λ (b : Answers). held (descriptors (set_up b (initial now)).1) ≡ obtained b) (sym e)
        (set_up-held now a.socket a.setsockopt a.bind a.timerfd_create a.sigprocmask a.signalfd)
  where
    e : a ≡ record a { timerfd_settime = true }
    e = ap (λ b. record a { timerfd_settime = b }) s

-- If the timer cannot be set, `main` closes its descriptor twice, with the socket between, and
-- reaches no round.
pub main-settime :
    (now : ℕ) (a : Answers) (rounds : List Round) (n t : ℕ)
    → a.socket ≡ some n
    → a.setsockopt ≡ true
    → a.bind ≡ true
    → a.timerfd_create ≡ some t
    → a.timerfd_settime ≡ false
    → (main now a rounds).closed ≡ t ∷ n ∷ t ∷ []
unfolding set_up
main-settime now a rounds n t so opt ok ti se =
    main-closed now a rounds ∙ rw (set_up, so, opt, ok, ti, se)
