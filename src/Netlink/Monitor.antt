-- ===== src/Netlink/Monitor.antt =====
-- netlink/route_monitor.c.
pub mod Lines
pub mod Loop
use linux_learn_demo_code.Base.{
  ℕ, Bool, true, false, not, ◌&&◌, ◌||◌, Option, none, some, List, [], ◌∷◌, ◌++◌, if◌then◌else◌,
  ◌==◌, is_none, ◌≡◌, ◌≢◌, refl, sym, ◌∙◌, ap, arith, Bool-cases, inl, inr,
}
use linux_learn_demo_code.Text.{same_text}
use linux_learn_demo_code.Base.Int.{ℤ, pos, negsuc}
use linux_learn_demo_code.Netlink.{
  Attribute, RtMsg, Message, nlmsg_error, nlmsg_done, rtm_newroute, rtm_delroute, rt_table_main,
  rta_dst, rta_gateway, rta_prefsrc, not_available, last_address,
}

-- The line that `print_route_info` prints, but for the time: the last three parts are printed only if
-- they are there.
pub record Line : Type 0 where
  pub added : Bool
  pub destination : List ℕ
  pub netmask : ℕ
  pub protocol : ℕ
  pub via : Option (List ℕ)
  pub src : Option (List ℕ)
  pub table : Option ℕ

-- The three texts of `print_route_info`.
pub record Texts : Type 0 where
  pub destination : List ℕ
  pub gateway : List ℕ
  pub source : List ℕ

-- The loop of `print_route_info`.
unfoldable pub attribute_loop : (List ℕ → List ℕ) → List Attribute → Texts → Texts
attribute_loop inet_ntop [] t = t
attribute_loop inet_ntop (a ∷ as') t = attribute_loop inet_ntop as' (
    if a.rta_type == rta_dst
    then record t { destination = inet_ntop a.bytes }
    else if a.rta_type == rta_gateway
    then record t { gateway = inet_ntop a.bytes }
    else if a.rta_type == rta_prefsrc
    then record t { source = inet_ntop a.bytes }
    else t)

abbrev given : List ℕ → Option (List ℕ)
given text = if not (same_text text not_available) then some text else none

-- `print_route_info`.
unfoldable pub print_route_info : (List ℕ → List ℕ) → RtMsg → Bool → Line
unfolding attribute_loop same_text
print_route_info inet_ntop r added =
    let t =
      attribute_loop inet_ntop r.attributes
        (record { destination = not_available; gateway = not_available; source = not_available }) in
    record {
      added = added;
      destination = t.destination;
      netmask = r.rtm_dst_len;
      protocol = r.rtm_protocol;
      via = given t.gateway;
      src = given t.source;
      table = if not (r.rtm_table == rt_table_main) then some r.rtm_table else none;
    }

-- The loop over the messages of `loop`.
unfoldable pub message_loop : (List ℕ → List ℕ) → List Message → List Line
unfolding print_route_info
message_loop inet_ntop [] = []
message_loop inet_ntop (m ∷ ms) =
    let rest = message_loop inet_ntop ms in
    if not (m.nlmsg_type == rtm_newroute) && not (m.nlmsg_type == rtm_delroute)
    then rest
    else if m.nlmsg_type == rtm_newroute
    then print_route_info inet_ntop m.as_rtmsg true ∷ rest
    else if m.nlmsg_type == rtm_delroute
    then print_route_info inet_ntop m.as_rtmsg false ∷ rest
    else rest

-- What `recv` gives: it fails, with EINTR or not, or it gives 0 bytes, or a first message and others.
pub data Received : Type 0 where
  failed : Bool → Received
  nothing : Received
  got : Message → List Message → Received

-- `loop`: the lines, and whether it returns -1.
unfoldable pub loop : (List ℕ → List ℕ) → Received → List Line × Bool
unfolding message_loop
loop inet_ntop (failed interrupted) = ([], not interrupted)
loop inet_ntop nothing = ([], false)
loop inet_ntop (got m ms) =
    if m.nlmsg_type == nlmsg_done
    then ([], false)
    else if m.nlmsg_type == nlmsg_error
    then ([], true)
    else (message_loop inet_ntop (m ∷ ms), false)

-- A round of the loop of `main`: whether a signal has cleared `running` before it, and what `select`
-- gives: a failure, with EINTR or not, the timeout, or data and what `recv` gives.
pub data Selected : Type 0 where
  select_failed : Bool → Selected
  timeout : Selected
  readable : Received → Selected

pub record Round : Type 0 where
  pub running : Bool
  pub selected : Selected

-- One round that runs: the lines, and whether the loop is left by `break`.
unfoldable pub round : (List ℕ → List ℕ) → Selected → List Line × Bool
unfolding loop
round inet_ntop (select_failed interrupted) = ([], not interrupted)
round inet_ntop timeout = ([], false)
round inet_ntop (readable r) = loop inet_ntop r

-- The loop of `main` over the rounds to come: the lines, and whether the loop was left.
unfoldable pub main_loop : (List ℕ → List ℕ) → List Round → List Line × Bool
unfolding round
main_loop inet_ntop [] = ([], false)
main_loop inet_ntop (r ∷ rs) =
    let (out, break) = round inet_ntop r.selected in
    let (more, left) = main_loop inet_ntop rs in
    if not r.running then ([], true) else if break then (out, true) else (out ++ more, left)

-- `main` with whether there is a socket and whether it can be bound: the lines, the sockets closed,
-- and the code, `none` while the loop runs.
unfoldable pub main : (List ℕ → List ℕ) → Bool → Bool → List Round → List Line × ℕ × Option ℤ
unfolding main_loop
main inet_ntop socket bind rounds =
    if not socket
    then ([], 0, some (negsuc 0))
    else if not bind
    then ([], 1, some (negsuc 0))
    else let (out, left) = main_loop inet_ntop rounds in
      (out, (if left then 1 else 0), if left then some (pos 0) else none)
