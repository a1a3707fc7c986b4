-- ===== src/Netfilter/Userspace/Program.antt =====
-- netfilter/test4/nfqueue_userspace.c:71-141: the loop over what the queue gives, and `main`.
use linux_learn_demo_code.Base.{
  Bool, true, false, not, Option, none, some, List, [], ◌∷◌, ◌++◌, if◌then◌else◌,
}
use linux_learn_demo_code.Netfilter.Userspace.{Decision, Queued, packet_cb}

-- A round of the loop of `main`: whether no signal has come, and the packets that `nfq_handle_packet`
-- finds in what `recv` gives, `none` if it fails.
pub record Round : Type 0 where
  pub running : Bool
  pub recv : Option (List Queued)

-- How the loop stands: it waits, it has ended, or the program has read outside a payload.
pub data Ending : Type 0 where
  waits ended out_of_bounds : Ending

handle_packets : List Queued → List Decision × Bool
unfolding packet_cb
handle_packets [] = ([], true)
handle_packets (p ∷ ps) =
    let rest = handle_packets ps in
    elim (packet_cb p) [ none ↦ ([], false) | some d ↦ (d ∷ rest.0, rest.1) ]

unfoldable pub main_loop : List Round → List Decision × Ending
unfolding handle_packets
main_loop [] = ([], waits)
main_loop (r ∷ rs) =
    let rest = main_loop rs in
    if not r.running then ([], ended) else elim r.recv [
      | none ↦ ([], ended)
      | some ps ↦
          let (out, good) = handle_packets ps in
          if good then (out ++ rest.0, rest.1) else (out, out_of_bounds)
    ]

-- Whether the calls that set the queue up succeed.
pub record Calls : Type 0 where
  pub nfq_open : Bool
  pub nfq_bind_pf : Bool
  pub nfq_create_queue : Bool
  pub nfq_set_mode : Bool

-- What the program comes to: its decisions, whether it called `nfq_destroy_queue` and `nfq_close`, and
-- its end, with EXIT_FAILURE being `failure`.
pub data Code : Type 0 where
  failure success none_yet crashed : Code

pub record Run : Type 0 where
  pub decisions : List Decision
  pub closed : Bool
  pub code : Code

abbrev refused : Run
refused = record { decisions = []; closed = false; code = failure }

-- `main`.
unfoldable pub main : Calls → List Round → Run
unfolding main_loop
main c rounds =
    if not c.nfq_open
    then refused
    else if not c.nfq_bind_pf
    then refused
    else if not c.nfq_create_queue
    then refused
    else if not c.nfq_set_mode
    then refused
    else let (out, end) = main_loop rounds in
      elim end [
        | waits ↦ record { decisions = out; closed = false; code = none_yet }
        | ended ↦ record { decisions = out; closed = true; code = success }
        | out_of_bounds ↦ record { decisions = out; closed = false; code = crashed }
      ]
