-- ===== src/LinkMonitor/Events.antt =====
-- What the main loop of the link monitor handles, as a list of events, and the statistics that such a
-- list has.
use linux_learn_demo_code.Base.{
  ℕ, ◌+◌, Bool, true, false, ◌||◌, some, List, [], ◌∷◌, if◌then◌else◌, add_ulong,
}
use linux_learn_demo_code.LinkMonitor.{Monitor, Signal, sigusr2, handle_signal}

-- A buffer of link messages was received, the timer has expired some times, a signal has come at a time.
pub data Event : Type 0 where
  link : Event
  expired : ℕ → Event
  signalled : Signal → ℕ → Event

abbrev pub is_reset : Event → Bool
is_reset (signalled sigusr2 now) = true
is_reset _ = false

-- Some event resets the statistics.
abbrev pub was_reset : List Event → Bool
was_reset [] = false
was_reset (e ∷ es) = is_reset e || was_reset es

-- The events after the last reset.
abbrev pub since : List Event → List Event
since [] = []
since (e ∷ es) = if was_reset es then since es else (if is_reset e then es else e ∷ es)

-- When the statistics begin.
abbrev pub began : ℕ → List Event → ℕ
began start [] = start
began start (signalled sigusr2 now ∷ es) = began now es
began start (_ ∷ es) = began start es

-- How many buffers, expirations and signals there are.
abbrev pub links : List Event → ℕ
links [] = 0
links (link ∷ es) = 1 + links es
links (_ ∷ es) = links es

abbrev pub expirations : List Event → ℕ
expirations [] = 0
expirations (expired n ∷ es) = n + expirations es
expirations (_ ∷ es) = expirations es

abbrev pub signals : List Event → ℕ
signals [] = 0
signals (signalled s now ∷ es) = 1 + signals es
signals (_ ∷ es) = signals es

-- The handlers of a list of events.
unfoldable pub handle_events : List Event → Monitor → Monitor
handle_events [] m = m
handle_events (link ∷ es) m =
    handle_events es (record m { link_events = add_ulong m.link_events 1 })
handle_events (expired n ∷ es) m =
    handle_events es (record m { timer_ticks = add_ulong m.timer_ticks n })
handle_events (signalled s now ∷ es) m = handle_events es (handle_signal now (some s) m)
