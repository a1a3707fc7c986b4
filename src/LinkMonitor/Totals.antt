-- ===== src/LinkMonitor/Totals.antt =====
-- The statistics with which the link monitor ends, from its start.
use linux_learn_demo_code.Base.{
  ℕ, Bool, true, false, not, ◌||◌, ◌+◌, Option, none, some, List, [], ◌∷◌, ◌++◌, if◌then◌else◌, ◌≡◌,
  refl, sym, ◌∙◌, ap, ap₂, arith, Bool-cases, inl, inr, if_both, ◌<◌, ◌^◌, ◌%◌, subst,
}
use linux_learn_demo_code.LinkMonitor.{
  Monitor, Answers, Round, failed, ready, Signal, sigint, sigterm, sigusr1, sigusr2, other_signal,
  handle_signal, handle_round, run_main_loop, main, initial, set_up, cleanup_resources,
  create_netlink_socket, init_netlink_socket, init_timerfd, init_signalfd, close_if,
}
use linux_learn_demo_code.LinkMonitor.Descriptors.{handle_round-descriptors}
use linux_learn_demo_code.LinkMonitor.Loop.{ends, stopped}
use linux_learn_demo_code.LinkMonitor.Events.{
  Event, link, expired, signalled, was_reset, since, began, links, expirations, signals,
  handle_events,
}
use linux_learn_demo_code.LinkMonitor.Statistics.{base, Counts, IsWords, handle_events-Counts}
use linux_learn_demo_code.LinkMonitor.History.{
  fds_of, round_events, ended, history, round_lem, handle_events-append,
}

handle_signal-running :
    (s : Signal) (now : ℕ) (m : Monitor)
    → (handle_signal now (some s) m).running ≡ (if ends s then false else m.running)
unfolding handle_signal
handle_signal-running sigint now m = refl
handle_signal-running sigterm now m = refl
handle_signal-running sigusr1 now m = refl
handle_signal-running sigusr2 now m = refl
handle_signal-running other_signal now m = refl

handle_events-running :
    (es : List Event) (m : Monitor)
    → (handle_events es m).running ≡ (if ended es then false else m.running)
unfolding handle_events
handle_events-running [] m = refl
handle_events-running (link ∷ es) m = handle_events-running es _
handle_events-running (expired n ∷ es) m = handle_events-running es _
handle_events-running (signalled s now ∷ es) m =
    handle_events-running es _
    ∙ ap (λ b. if ended es then false else b) (handle_signal-running s now m)
    ∙ both (ends s) (ended es) m.running
  where
    both :
        (a b r : Bool)
        → (if b then false else (if a then false else r)) ≡ (if a || b then false else r)
    both true true r = refl
    both true false r = refl
    both false b r = refl

-- The loop handles the events of its history.
run_main_loop-history :
    (rounds : List Round) (m : Monitor)
    → m.running ≡ true
    → run_main_loop rounds m ≡ handle_events (history (fds_of m) rounds) m
unfolding run_main_loop handle_events
run_main_loop-history [] m on = refl
run_main_loop-history (failed true ∷ more) m on =
    ap (λ (b : Bool). if b then run_main_loop more m else m) on ∙ run_main_loop-history more m on
run_main_loop-history (failed false ∷ more) m on = if_both (λ (u : Monitor). u) m.running refl refl
run_main_loop-history (ready isset recv timer sig now ∷ more) m on =
    let es = round_events (fds_of m) isset recv timer sig now in
    let u = (handle_round isset recv timer sig now m).1 in
    let done : u ≡ handle_events es m = round_lem isset recv timer sig now m in
    let goes : u.running ≡ (if ended es then false else m.running) =
      ap (λ (v : Monitor). v.running) done ∙ handle_events-running es m in
    ap (λ (b : Bool). if b then run_main_loop more u else m) on ∙ elim (Bool-cases (ended es)) [
      | inl over ↦
          stopped more u (goes ∙ ap (λ b. if b then false else m.running) over)
          ∙ done
          ∙ ap (λ (b : Bool). handle_events (if b then es else es ++ history (fds_of m) more) m)
              (sym over)
      | inr on' ↦
          run_main_loop-history more u (goes ∙ ap (λ b. if b then false else m.running) on' ∙ on)
          ∙ ap₂ (λ fds v. handle_events (history fds more) v)
              (ap (λ d. (d.0, d.1, d.2)) (handle_round-descriptors isset recv timer sig now m)) done
          ∙ sym (handle_events-append es (history (fds_of m) more) m)
          ∙ ap (λ (b : Bool). handle_events (if b then es else es ++ history (fds_of m) more) m)
              (sym on')
    ]

-- The statistics, and that the program goes on.
abbrev stats : Monitor → ℕ × ℕ × ℕ × ℕ × Bool
stats m = (m.link_events, m.timer_ticks, m.signal_count, m.start_time, m.running)

create_netlink_socket-stats :
    (a : Answers) (m : Monitor) → stats (create_netlink_socket a m).1 ≡ stats m
unfolding create_netlink_socket
create_netlink_socket-stats a m = ground arith

init_netlink_socket-stats :
    (a : Answers) (m : Monitor) → stats (init_netlink_socket a m).1 ≡ stats m
unfolding init_netlink_socket create_netlink_socket
init_netlink_socket-stats a m = ground arith

init_timerfd-stats : (a : Answers) (m : Monitor) → stats (init_timerfd a m).1 ≡ stats m
unfolding init_timerfd
init_timerfd-stats a m = ground arith

init_signalfd-stats : (a : Answers) (m : Monitor) → stats (init_signalfd a m).1 ≡ stats m
unfolding init_signalfd
init_signalfd-stats a m = ground arith

set_up-stats : (a : Answers) (m : Monitor) → stats (set_up a m).1 ≡ stats m
unfolding set_up
set_up-stats a m =
    let first = init_netlink_socket a m in
    let second = init_timerfd a first.1 in
    if_both (λ (r : Bool × Monitor). stats r.1) (not first.0) (init_netlink_socket-stats a m)
      (if_both (λ (r : Bool × Monitor). stats r.1) (not second.0)
        (init_timerfd-stats a first.1 ∙ init_netlink_socket-stats a m)
        (init_signalfd-stats a second.1
          ∙ init_timerfd-stats a first.1
          ∙ init_netlink_socket-stats a m))

close_if-stats : (fd : Option ℕ) (m : Monitor) → stats (close_if fd m) ≡ stats m
close_if-stats none m = refl
close_if-stats (some fd) m = refl

cleanup-stats : (m : Monitor) → stats (cleanup_resources m) ≡ stats m
unfolding cleanup_resources
cleanup-stats m =
    close_if-stats m.signal_fd _ ∙ close_if-stats m.timer_fd _ ∙ close_if-stats m.netlink_fd m

-- The events of a run of the program.
abbrev pub run_history : ℕ → Answers → List Round → List Event
run_history now a rounds =
    let m = (set_up a (initial now)).1 in
    if (set_up a (initial now)).0 then history (fds_of m) rounds else []

main-history :
    (now : ℕ) (a : Answers) (rounds : List Round)
    → stats (main now a rounds)
      ≡ stats (handle_events (run_history now a rounds) (set_up a (initial now)).1)
unfolding main handle_events
main-history now a rounds =
    let m = (set_up a (initial now)).1 in
    cleanup-stats (if (set_up a (initial now)).0 then run_main_loop rounds m else m)
    ∙ ap stats (goes (set_up a (initial now)).0 m (ap (λ s. s.4) (set_up-stats a (initial now))))
  where
    goes :
        (b : Bool) (m : Monitor)
        → m.running ≡ true
        → (if b then run_main_loop rounds m else m)
          ≡ handle_events (if b then history (fds_of m) rounds else []) m
    goes true m on = run_main_loop-history rounds m on
    goes false m on = refl

from_zero : (es : List Event) (n : ℕ) → (base es 0 + n) % 2 ^ 64 ≡ n % 2 ^ 64
from_zero es n =
    ap (λ b. (b + n) % 2 ^ 64) (if_both {A = ℕ} (λ v. v) (was_reset es) refl refl)
    ∙ ap (λ k. k % 2 ^ 64) (omega arith)

-- Whatever happens, the statistics with which `main` ends are those of the events it handled after the last
-- SIGUSR2, or all if there was none: how many buffers of link messages were received, how often
-- the timer expired and how many signals came, each modulo 2^64, and when the counting began. The
-- events are the reads that succeed on descriptors that are ready, in order, up to the round of the first
-- SIGINT or SIGTERM or the first failure of `select` other than EINTR; there are none if the set-up fails.
pub main-counts :
    (now : ℕ) (a : Answers) (rounds : List Round)
    → let es = run_history now a rounds in
      let m = main now a rounds in
      (m.link_events ≡ links (since es) % 2 ^ 64)
      × (m.timer_ticks ≡ expirations (since es) % 2 ^ 64)
      × (m.signal_count ≡ signals (since es) % 2 ^ 64)
      × (m.start_time ≡ began now es)
main-counts now a rounds =
    let es = run_history now a rounds in
    let u = (set_up a (initial now)).1 in
    let start = set_up-stats a (initial now) in
    let done = main-history now a rounds in
    let words : IsWords u = record {
      link_events = subst (λ v. v < 2 ^ 64) (sym (ap (λ s. s.0) start)) (omega arith);
      timer_ticks = subst (λ v. v < 2 ^ 64) (sym (ap (λ s. s.1) start)) (omega arith);
      signal_count = subst (λ v. v < 2 ^ 64) (sym (ap (λ s. s.2) start)) (omega arith);
    } in
    let r : Counts es u (handle_events es u) = handle_events-Counts es u words in
    (
      ap (λ s. s.0) done
          ∙ r.link_events
          ∙ ap (λ s. (base es s.0 + links (since es)) % 2 ^ 64) start
          ∙ from_zero es (links (since es)),
      ap (λ s. s.1) done
          ∙ r.timer_ticks
          ∙ ap (λ s. (base es s.1 + expirations (since es)) % 2 ^ 64) start
          ∙ from_zero es (expirations (since es)),
      ap (λ s. s.2) done
          ∙ r.signal_count
          ∙ ap (λ s. (base es s.2 + signals (since es)) % 2 ^ 64) start
          ∙ from_zero es (signals (since es)),
      ap (λ s. s.3) done ∙ r.start_time ∙ ap (λ s. began s.3 es) start,
    )
