-- ===== src/LinkMonitor/History.antt =====
-- The main loop of the link monitor as the handling of the events that its rounds bring.
use linux_learn_demo_code.Base.{
  ℕ, Bool, true, false, ◌||◌, Option, none, some, List, [], ◌∷◌, ◌++◌, if◌then◌else◌, ◌≡◌, refl,
  sym, ◌∙◌, ap, ap₂, if_both,
}
use linux_learn_demo_code.LinkMonitor.{
  Monitor, Round, failed, ready, Signal, handle_signal, handle_timer, handle_link, handle_round,
  is_set,
}
use linux_learn_demo_code.LinkMonitor.Links.{Report, Message}
use linux_learn_demo_code.LinkMonitor.Descriptors.{
  descriptors, handle_link-descriptors, handle_timer-descriptors,
}
use linux_learn_demo_code.LinkMonitor.Loop.{ends}
use linux_learn_demo_code.LinkMonitor.Events.{Event, link, expired, signalled, handle_events}

-- What the reads of a round give.
abbrev link_event : Option (List Message) → List Event
link_event none = []
link_event (some ms) = link ∷ []

abbrev timer_event : Option ℕ → List Event
timer_event none = []
timer_event (some n) = expired n ∷ []

abbrev signal_event : ℕ → Option Signal → List Event
signal_event now none = []
signal_event now (some s) = signalled s now ∷ []

-- Three descriptors, for the link messages, the timer and the signals.
abbrev pub Fds : Type 0
Fds = Option ℕ × Option ℕ × Option ℕ

abbrev pub fds_of : Monitor → Fds
fds_of m = (m.netlink_fd, m.timer_fd, m.signal_fd)

abbrev pub round_events :
    Fds → (ℕ → Bool) → Option (List Message) → Option ℕ → Option Signal → ℕ → List Event
round_events fds isset recv timer sig now =
    (if is_set isset fds.0 then link_event recv else [])
    ++ ((if is_set isset fds.1 then timer_event timer else [])
        ++ (if is_set isset fds.2 then signal_event now sig else []))

-- An event ends the program.
abbrev pub ended : List Event → Bool
ended [] = false
ended (link ∷ es) = ended es
ended (expired n ∷ es) = ended es
ended (signalled s now ∷ es) = ends s || ended es

-- The events of a run: the reads that succeed on the descriptors that are ready, the link messages of a
-- round before its timer, and this before its signal, up to the round of the first SIGINT or SIGTERM
-- or the first failure of `select` that is not EINTR.
abbrev pub history : Fds → List Round → List Event
history fds [] = []
history fds (failed interrupted ∷ more) = if interrupted then history fds more else []
history fds (ready isset recv timer sig now ∷ more) =
    let es = round_events fds isset recv timer sig now in
    if ended es then es else es ++ history fds more

pub handle_events-append :
    (xs ys : List Event) (m : Monitor)
    → handle_events (xs ++ ys) m ≡ handle_events ys (handle_events xs m)
unfolding handle_events
handle_events-append [] ys m = refl
handle_events-append (link ∷ xs) ys m = handle_events-append xs ys _
handle_events-append (expired n ∷ xs) ys m = handle_events-append xs ys _
handle_events-append (signalled s now ∷ xs) ys m = handle_events-append xs ys _

-- Each handler handles the event of its read.
link_lem :
    (b : Bool) (recv : Option (List Message)) (m : Monitor)
    → (if b then handle_link recv m else ([], m)).1
      ≡ handle_events (if b then link_event recv else []) m
unfolding handle_events handle_link
link_lem true none m = refl
link_lem true (some ms) m = refl
link_lem false recv m = refl

timer_lem :
    (b : Bool) (timer : Option ℕ) (m : Monitor)
    → (if b then handle_timer timer m else m)
      ≡ handle_events (if b then timer_event timer else []) m
unfolding handle_events handle_timer
timer_lem true none m = refl
timer_lem true (some n) m = refl
timer_lem false timer m = refl

signal_lem :
    (b : Bool) (now : ℕ) (sig : Option Signal) (m : Monitor)
    → (if b then handle_signal now sig m else m)
      ≡ handle_events (if b then signal_event now sig else []) m
unfolding handle_events handle_signal
signal_lem true now none m = refl
signal_lem true now (some s) m = refl
signal_lem false now sig m = refl

pub round_lem :
    (isset : ℕ → Bool) (recv : Option (List Message)) (timer : Option ℕ) (sig : Option Signal)
    (now : ℕ) (m : Monitor)
    → (handle_round isset recv timer sig now m).1
      ≡ handle_events (round_events (fds_of m) isset recv timer sig now) m
unfolding handle_round
round_lem isset recv timer sig now m =
    let first : Option ℕ → List Event = λ fd. if is_set isset fd then link_event recv else [] in
    let second : Option ℕ → List Event = λ fd. if is_set isset fd then timer_event timer else [] in
    let third : Option ℕ → List Event =
      λ fd. if is_set isset fd then signal_event now sig else [] in
    let m₁ = (if is_set isset m.netlink_fd then handle_link recv m else ([], m)).1 in
    let m₂ = if is_set isset m₁.timer_fd then handle_timer timer m₁ else m₁ in
    let same₁ : descriptors m₁ ≡ descriptors m =
      if_both (λ (r : List Report × Monitor). descriptors r.1) (is_set isset m.netlink_fd)
        (handle_link-descriptors recv m) refl in
    let same₂ : descriptors m₂ ≡ descriptors m₁ =
      if_both descriptors (is_set isset m₁.timer_fd) (handle_timer-descriptors timer m₁) refl in
    signal_lem (is_set isset m₂.signal_fd) now sig m₂
    ∙ ap₂ (λ fd (u : Monitor). handle_events (third fd) u) (ap (λ d. d.2) (same₂ ∙ same₁))
        (timer_lem (is_set isset m₁.timer_fd) timer m₁
          ∙ ap₂ (λ fd (u : Monitor). handle_events (second fd) u) (ap (λ d. d.1) same₁)
              (link_lem (is_set isset m.netlink_fd) recv m))
    ∙ sym (
        handle_events-append (first m.netlink_fd) (second m.timer_fd ++ third m.signal_fd) m
        ∙ handle_events-append (second m.timer_fd) (third m.signal_fd) _)
