-- ===== src/LinkMonitor/Tests.antt =====
-- The theorems on the link monitor at concrete answers.
use linux_learn_demo_code.Base.{
  ℕ, Bool, true, Option, none, some, List, [], ◌∷◌, ◌++◌, ◌==◌, ◌≡◌, refl,
}
use linux_learn_demo_code.LinkMonitor.{
  set_up, Monitor, Answers, Round, failed, ready, Signal, sigint, sigusr2, initial, main,
  run_main_loop,
}
use linux_learn_demo_code.LinkMonitor.Descriptors.{main_lem}
use linux_learn_demo_code.LinkMonitor.Totals.{main-counts}
use linux_learn_demo_code.LinkMonitor.Loop.{run_main_loop-ends}

-- Everything succeeds but perhaps the setting of the timer.
abbrev answers : Bool → Answers
answers settime = record {
  socket = some 3;
  setsockopt = true;
  bind = true;
  timerfd_create = some 4;
  timerfd_settime = settime;
  sigprocmask = true;
  signalfd = some 5;
}

-- A round in which a descriptor is ready.
abbrev round : ℕ → Option Signal → Round
round fd s = ready (λ n. n == fd) (some []) (some 1) s 1000

abbrev rounds : List Round
rounds = round 3 none ∷ failed true ∷ round 5 (some sigusr2) ∷ round 5 (some sigint) ∷ []

main_lem_example : (main 7 (answers true) rounds).closed ≡ 3 ∷ 4 ∷ 5 ∷ []
main_lem_example = main_lem 7 (answers true) rounds refl

abbrev watching : Monitor
watching = record (initial 7) { netlink_fd = some 3; timer_fd = some 4; signal_fd = some 5 }

run_main_loop-ends_example :
    run_main_loop (rounds ++ round 5 (some sigint) ∷ rounds) watching
    ≡ run_main_loop (rounds ++ round 5 (some sigint) ∷ []) watching
run_main_loop-ends_example =
    run_main_loop-ends rounds rounds (λ n. n == 5) (some []) (some 1) sigint 1000 watching refl refl

-- A reset comes after the first link message, and then the timer expires twice.
abbrev resetting : List Round
resetting = round 3 none ∷ round 5 (some sigusr2) ∷ round 4 none ∷ round 4 none ∷ []

main-counts_example :
    let m = main 7 (answers true) resetting in
    (m.link_events ≡ 0) × (m.timer_ticks ≡ 2) × (m.signal_count ≡ 0) × (m.start_time ≡ 1000)
unfolding set_up
main-counts_example = main-counts 7 (answers true) resetting
