-- ===== src/LinkMonitor.antt =====
-- select/link_monitor/link_monitor.c: the descriptors, the statistics and the main loop.
pub mod Links
pub mod Descriptors
pub mod Loop
pub mod Names
pub mod Statistics
pub mod Totals
pub mod History
pub mod Events
mod Tests
use linux_learn_demo_code.Base.{
  ℕ, zero, suc, ◌+◌, Bool, true, false, ◌&&◌, ◌||◌, not, Option, none, some, List, [], ◌∷◌, ◌++◌,
  if◌then◌else◌, ltb, ◌==◌, take, add_ulong,
}
use linux_learn_demo_code.LinkMonitor.Names.{Naming, get_interface_name}
use linux_learn_demo_code.LinkMonitor.Links.{Message, Report, reports_of}

-- The globals, with `none` for a descriptor that is negative, and which of the three descriptors were
-- closed, in order. The socket that the name of a link is asked for with is closed at once.
pub record Monitor : Type 0 where
  pub netlink_fd : Option ℕ
  pub timer_fd : Option ℕ
  pub signal_fd : Option ℕ
  pub running : Bool
  pub link_events : ℕ
  pub timer_ticks : ℕ
  pub signal_count : ℕ
  pub start_time : ℕ
  pub closed : List ℕ

-- The globals when the program starts, at a time.
abbrev pub initial : ℕ → Monitor
initial now = record {
  netlink_fd = none;
  timer_fd = none;
  signal_fd = none;
  running = true;
  link_events = 0;
  timer_ticks = 0;
  signal_count = 0;
  start_time = now;
  closed = [];
}

-- What the kernel answers while the program sets up: the descriptors, `none` when there is none, and
-- whether the other calls succeed.
pub record Answers : Type 0 where
  pub socket : Option ℕ
  pub setsockopt : Bool
  pub bind : Bool
  pub timerfd_create : Option ℕ
  pub timerfd_settime : Bool
  pub sigprocmask : Bool
  pub signalfd : Option ℕ

abbrev pub close : ℕ → Monitor → Monitor
close fd m = record m { closed = m.closed ++ fd ∷ [] }

-- `create_netlink_socket`.
unfoldable pub create_netlink_socket : Answers → Monitor → Option ℕ × Monitor
create_netlink_socket a m = elim a.socket [
  | none ↦ (none, m)
  | some fd ↦
      if not a.setsockopt
      then (none, close fd m)
      else if not a.bind
      then (none, close fd m)
      else (some fd, m)
]

-- `init_netlink_socket`.
unfoldable pub init_netlink_socket : Answers → Monitor → Bool × Monitor
unfolding create_netlink_socket
init_netlink_socket a m =
    let (fd, m₁) = create_netlink_socket a m in
    let m₂ = record m₁ { netlink_fd = fd } in elim fd [ none ↦ (false, m₂) | some n ↦ (true, m₂) ]

-- `init_timerfd`.
unfoldable pub init_timerfd : Answers → Monitor → Bool × Monitor
init_timerfd a m =
    let m₁ = record m { timer_fd = a.timerfd_create } in
    elim a.timerfd_create [
      | none ↦ (false, m₁)
      | some fd ↦ if not a.timerfd_settime then (false, close fd m₁) else (true, m₁)
    ]

-- `init_signalfd`.
unfoldable pub init_signalfd : Answers → Monitor → Bool × Monitor
init_signalfd a m =
    if not a.sigprocmask
    then (false, m)
    else let m₁ = record m { signal_fd = a.signalfd } in
      elim a.signalfd [ none ↦ (false, m₁) | some fd ↦ (true, m₁) ]

-- The set-up in `main`: whether the main loop is reached.
unfoldable pub set_up : Answers → Monitor → Bool × Monitor
unfolding init_netlink_socket init_timerfd init_signalfd
set_up a m =
    let (linked, m₁) = init_netlink_socket a m in
    if not linked
    then (false, m₁)
    else let (timed, m₂) = init_timerfd a m₁ in
      if not timed then (false, m₂) else init_signalfd a m₂

abbrev pub close_if : Option ℕ → Monitor → Monitor
close_if none m = m
close_if (some fd) m = close fd m

-- `cleanup_resources`.
unfoldable pub cleanup_resources : Monitor → Monitor
cleanup_resources m =
    let m₁ = record (close_if m.netlink_fd m) { netlink_fd = none } in
    let m₂ = record (close_if m.timer_fd m₁) { timer_fd = none } in
    record (close_if m.signal_fd m₂) { signal_fd = none }

-- `handle_netlink_link_message`, with what `recvfrom` gives, `none` when it fails.
unfoldable pub handle_link : Option (List Message) → Monitor → List Report × Monitor
handle_link none m = ([], m)
handle_link (some messages) m =
    (reports_of messages, record m { link_events = add_ulong m.link_events 1 })

-- `handle_timer_event`, with the number that `read` gives, `none` when it gives less than 8 bytes.
unfoldable pub handle_timer : Option ℕ → Monitor → Monitor
handle_timer none m = m
handle_timer (some expirations) m = record m { timer_ticks = add_ulong m.timer_ticks expirations }

pub data Signal : Type 0 where
  sigint sigterm sigusr1 sigusr2 other_signal : Signal

-- `handle_signal_event` at a time, with the signal that `read` gives.
unfoldable pub handle_signal : ℕ → Option Signal → Monitor → Monitor
handle_signal now none m = m
handle_signal now (some s) m =
    let m₁ = record m { signal_count = add_ulong m.signal_count 1 } in
    elim s [
      | sigint ↦ record m₁ { running = false }
      | sigterm ↦ record m₁ { running = false }
      | sigusr1 ↦ m₁
      | sigusr2 ↦ record m₁ { link_events = 0; timer_ticks = 0; signal_count = 0; start_time = now }
      | other_signal ↦ m₁
    ]

-- The descriptors that `select` is asked for, and its first argument, `max_fd + 1`.
abbrev pub add_fd : Option ℕ → List ℕ × ℕ → List ℕ × ℕ
add_fd none s = s
add_fd (some fd) s = (fd ∷ s.0, if ltb s.1 (suc fd) then suc fd else s.1)

unfoldable pub asked : Monitor → List ℕ × ℕ
asked m = add_fd m.signal_fd (add_fd m.timer_fd (add_fd m.netlink_fd ([], 0)))

-- A round of the main loop as the kernel answers it: `select` fails, with EINTR or without, or it
-- says which descriptors are ready and the reads give what they give.
pub data Round : Type 0 where
  failed : Bool → Round
  ready : (ℕ → Bool) → Option (List Message) → Option ℕ → Option Signal → ℕ → Round

abbrev pub is_set : (ℕ → Bool) → Option ℕ → Bool
is_set isset none = false
is_set isset (some fd) = isset fd

-- The three handlers of a round.
unfoldable pub handle_round :
    (ℕ → Bool)
    → Option (List Message)
    → Option ℕ
    → Option Signal
    → ℕ
    → Monitor
    → List Report × Monitor
unfolding handle_link handle_timer handle_signal
handle_round isset recv timer sig now m =
    let (out, m₁) = if is_set isset m.netlink_fd then handle_link recv m else ([], m) in
    let m₂ = if is_set isset m₁.timer_fd then handle_timer timer m₁ else m₁ in
    (out, if is_set isset m₂.signal_fd then handle_signal now sig m₂ else m₂)

-- `run_main_loop` over the rounds to come; it waits when there are no more.
unfoldable pub run_main_loop : List Round → Monitor → Monitor
run_main_loop [] m = m
run_main_loop (failed interrupted ∷ more) m =
    let rest = run_main_loop more m in if m.running then (if interrupted then rest else m) else m
run_main_loop (ready isset recv timer sig now ∷ more) m =
    let rest = run_main_loop more (handle_round isset recv timer sig now m).1 in
    if m.running then rest else m

-- `main`.
unfoldable pub main : ℕ → Answers → List Round → Monitor
unfolding set_up
main now a rounds =
    let (done, m) = set_up a (initial now) in
    cleanup_resources (if done then run_main_loop rounds m else m)
