-- ===== src/LinkMonitor/Loop.antt =====
-- What ends the main loop.
use linux_learn_demo_code.Base.{
  none, suc, ◌≤◌, ◌<◌, All, arith, ltb, ℕ, Bool, true, false, Option, some, List, [], ◌∷◌, ◌++◌,
  if◌then◌else◌, ◌≡◌, refl, ◌∙◌, ap, if_both,
}
use linux_learn_demo_code.LinkMonitor.{
  asked, add_fd, Monitor, Round, failed, ready, Signal, sigint, sigterm, sigusr1, sigusr2,
  other_signal, run_main_loop, handle_round, handle_signal, handle_link, handle_timer, is_set,
}
use linux_learn_demo_code.LinkMonitor.Links.{Report, Message}
use linux_learn_demo_code.LinkMonitor.Descriptors.{
  to_list, handle_round-descriptors, handle_link-descriptors, handle_timer-descriptors,
}

-- The signals that end the program.
abbrev pub ends : Signal → Bool
ends sigint = true
ends sigterm = true
ends _ = false

handle_signal-ends :
    (now : ℕ) (s : Signal) (m : Monitor)
    → ends s ≡ true
    → (handle_signal now (some s) m).running ≡ false
unfolding handle_signal
handle_signal-ends now sigint m e = refl
handle_signal-ends now sigterm m e = refl
handle_signal-ends now sigusr1 m e = cc
handle_signal-ends now sigusr2 m e = cc
handle_signal-ends now other_signal m e = cc

handle_round-ends :
    (isset : ℕ → Bool) (recv : Option (List Message)) (timer : Option ℕ) (s : Signal) (now : ℕ)
    (m : Monitor)
    → is_set isset m.signal_fd ≡ true
    → ends s ≡ true
    → (handle_round isset recv timer (some s) now m).1.running ≡ false
unfolding handle_round
handle_round-ends isset recv timer s now m on e =
    ap (λ (b : Bool). (if b then handle_signal now (some s) m₂ else m₂).running)
      (ap (is_set isset) same ∙ on)
    ∙ handle_signal-ends now s m₂ e
  where
    m₁ : Monitor
    m₁ = (if is_set isset m.netlink_fd then handle_link recv m else ([], m)).1

    m₂ : Monitor
    m₂ = if is_set isset m₁.timer_fd then handle_timer timer m₁ else m₁

    same : m₂.signal_fd ≡ m.signal_fd
    same =
        if_both (λ (u : Monitor). u.signal_fd) (is_set isset m₁.timer_fd)
          (ap (λ d. d.2) (handle_timer-descriptors timer m₁)) refl
        ∙ if_both (λ (r : List Report × Monitor). r.1.signal_fd) (is_set isset m.netlink_fd)
            (ap (λ d. d.2) (handle_link-descriptors recv m)) refl

pub stopped : (rounds : List Round) (m : Monitor) → m.running ≡ false → run_main_loop rounds m ≡ m
unfolding run_main_loop
stopped [] m off = refl
stopped (failed i ∷ more) m off =
    ap (λ (b : Bool). if b then (if i then run_main_loop more m else m) else m) off
stopped (ready isset recv timer sig now ∷ more) m off =
    ap
      (λ (b : Bool).
        if b then run_main_loop more (handle_round isset recv timer sig now m).1 else m)
      off

-- A round in which the signal descriptor is ready and gives SIGINT or SIGTERM is the last one: what
-- comes after it is not looked at, whatever rounds came before.
pub run_main_loop-ends :
    (before after : List Round) (isset : ℕ → Bool) (recv : Option (List Message)) (timer : Option ℕ)
    (s : Signal) (now : ℕ) (m : Monitor)
    → is_set isset m.signal_fd ≡ true
    → ends s ≡ true
    → run_main_loop (before ++ ready isset recv timer (some s) now ∷ after) m
      ≡ run_main_loop (before ++ ready isset recv timer (some s) now ∷ []) m
unfolding run_main_loop
run_main_loop-ends [] after isset recv timer s now m on e =
    ap (λ u. if m.running then u else m)
      (stopped after _ (handle_round-ends isset recv timer s now m on e))
run_main_loop-ends (failed i ∷ before) after isset recv timer s now m on e =
    ap (λ u. if m.running then (if i then u else m) else m)
      (run_main_loop-ends before after isset recv timer s now m on e)
run_main_loop-ends (ready isset' recv' timer' sig' now' ∷ before) after isset recv timer s now m on
      e =
    ap (λ u. if m.running then u else m)
      (run_main_loop-ends before after isset recv timer s now
        (handle_round isset' recv' timer' sig' now' m).1
        (ap (λ d. is_set isset d.2) (handle_round-descriptors isset' recv' timer' sig' now' m) ∙ on)
        e)

under : (n m : ℕ) → n ≤ m → (xs : List ℕ) → All (λ fd. fd < n) xs → All (λ fd. fd < m) xs
under n m le [] h = tt
under n m le (x ∷ xs) h = (omega (arith, le, h.0), under n m le xs h.1)

bound :
    (fd k : ℕ)
    → (fd < (if ltb k (suc fd) then suc fd else k)) × (k ≤ (if ltb k (suc fd) then suc fd else k))
bound fd k = (ground arith, ground arith)

add_fd-under :
    (o : Option ℕ) (s : List ℕ × ℕ)
    → All (λ fd. fd < s.1) s.0
    → All (λ fd. fd < (add_fd o s).1) (add_fd o s).0
add_fd-under none s h = h
add_fd-under (some fd) s h =
    let b = bound fd s.1 in (b.0, under s.1 (if ltb s.1 (suc fd) then suc fd else s.1) b.1 s.0 h)

-- `select` is asked for exactly the descriptors that the program holds, the last one first, and its
-- bound is above each of them.
pub asked_lem :
    (m : Monitor)
    → ((asked m).0 ≡ to_list m.signal_fd ++ (to_list m.timer_fd ++ to_list m.netlink_fd))
      × All (λ fd. fd < (asked m).1) (asked m).0
unfolding asked
asked_lem m = (
  numbers m.signal_fd m.timer_fd m.netlink_fd,
  add_fd-under m.signal_fd _ (add_fd-under m.timer_fd _ (add_fd-under m.netlink_fd ([], 0) tt)),
)
  where
    numbers :
        (a b c : Option ℕ)
        → (add_fd a (add_fd b (add_fd c ([], 0)))).0 ≡ to_list a ++ (to_list b ++ to_list c)
    numbers none none none = refl
    numbers none none (some z) = refl
    numbers none (some y) none = refl
    numbers none (some y) (some z) = refl
    numbers (some x) none none = refl
    numbers (some x) none (some z) = refl
    numbers (some x) (some y) none = refl
    numbers (some x) (some y) (some z) = refl
