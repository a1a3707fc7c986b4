-- ===== src/Netlink/Show.antt =====
-- netlink/route_show.c.
pub mod Responses
pub mod Program
use linux_learn_demo_code.Base.{
  ℕ, Bool, true, false, not, ◌&&◌, ◌||◌, Option, none, some, List, [], ◌∷◌, ◌++◌, if◌then◌else◌,
  ◌==◌,
}
use linux_learn_demo_code.Text.{same_text}
use linux_learn_demo_code.Netlink.{
  Attribute, RtMsg, IfInfo, Message, nlmsg_error, nlmsg_done, rtm_newlink, rtm_newroute,
  rt_table_main, rta_dst, rta_gateway, not_available,
}

-- What the program prints.
pub data Printed : Type 0 where
  interface : ℕ → List ℕ → Printed
  mac_address mtu qdisc : List ℕ → Printed
  route : List ℕ → ℕ → ℕ → List ℕ → Printed
  netlink_error : ℕ → Printed
  unexpected : ℕ → ℕ → Printed

-- The body of the loop of `rtnl_print_link`: IFLA_IFNAME is 3, IFLA_ADDRESS 1, IFLA_MTU 4 and IFLA_QDISC
-- 6. Of an address every byte is printed.
unfoldable pub print_attribute : ℕ → Attribute → List Printed
print_attribute index a =
    if a.rta_type == 3
    then interface index a.bytes ∷ []
    else if a.rta_type == 1
    then mac_address a.bytes ∷ []
    else if a.rta_type == 4
    then mtu a.bytes ∷ []
    else if a.rta_type == 6
    then qdisc a.bytes ∷ []
    else []

link_loop : ℕ → List Attribute → List Printed
unfolding print_attribute
link_loop index [] = []
link_loop index (a ∷ as') = print_attribute index a ++ link_loop index as'

-- `rtnl_print_link`.
unfoldable pub print_link : IfInfo → List Printed
unfolding link_loop
print_link i = link_loop i.ifi_index i.attributes

-- The loop of `rtnl_print_route` with its two texts.
unfoldable pub route_loop : (List ℕ → List ℕ) → List Attribute → List ℕ → List ℕ → List ℕ × List ℕ
route_loop inet_ntop [] destination gateway = (destination, gateway)
route_loop inet_ntop (a ∷ as') destination gateway =
    route_loop inet_ntop as' (if a.rta_type == rta_dst then inet_ntop a.bytes else destination)
      (if a.rta_type == rta_gateway then inet_ntop a.bytes else gateway)

-- `rtnl_print_route`.
unfoldable pub print_route : (List ℕ → List ℕ) → RtMsg → List Printed
unfolding route_loop
print_route inet_ntop r =
    if not (r.rtm_table == rt_table_main)
    then []
    else let (destination, gateway) =
        route_loop inet_ntop r.attributes not_available not_available in
      route destination r.rtm_dst_len r.rtm_protocol gateway ∷ []

-- What `send_netlink_request` sends: NLMSG_LENGTH of one byte is 17, NLM_F_REQUEST and NLM_F_DUMP
-- together 0x301.
pub record Request : Type 0 where
  pub nlmsg_len : ℕ
  pub nlmsg_type : ℕ
  pub nlmsg_flags : ℕ
  pub nlmsg_seq : ℕ
  pub nlmsg_pid : ℕ
  pub rtgen_family : ℕ

unfoldable pub request : ℕ → ℕ → ℕ → Request
request pid msg_type family = record {
  nlmsg_len = 17;
  nlmsg_type = msg_type;
  nlmsg_flags = 0x301;
  nlmsg_seq = 1;
  nlmsg_pid = pid;
  rtgen_family = family;
}

-- What `recvmsg` gives: a failure, 0 bytes, or bytes with messages in them.
pub data Reply : Type 0 where
  failed nothing : Reply
  got : List Message → Reply

module _ (inet_ntop : List ℕ → List ℕ) (show_routes show_interfaces : Bool) where
  -- The switch of `process_netlink_responses`: what is printed, and whether `end` is set.
  unfoldable pub handle : Message → List Printed × Bool
  unfolding print_route print_link
  handle m =
      if m.nlmsg_type == nlmsg_done
      then ([], true)
      else if m.nlmsg_type == rtm_newroute
      then (if show_routes then print_route inet_ntop m.as_rtmsg else [], false)
      else if m.nlmsg_type == rtm_newlink
      then (if show_interfaces then print_link m.as_ifinfo else [], false)
      else if m.nlmsg_type == nlmsg_error
      then (netlink_error m.as_error ∷ [], true)
      else (
        if show_interfaces || show_routes then unexpected m.nlmsg_type m.nlmsg_len ∷ [] else [],
        false,
      )

  -- The loop over the messages of one buffer, with `end` before it.
  unfoldable pub handle_all : List Message → Bool → List Printed × Bool
  unfolding handle
  handle_all [] end = ([], end)
  handle_all (m ∷ ms) end =
      let (out, ends) = handle m in
      let (more, end') = handle_all ms (end || ends) in (out ++ more, end')

  -- `process_netlink_responses` over the replies to come: what is printed, and the replies that are
  -- left, `none` if the program waits for another.
  unfoldable pub process_responses : List Reply → List Printed × Option (List Reply)
  unfolding handle_all
  process_responses [] = ([], none)
  process_responses (failed ∷ rs) = ([], some rs)
  process_responses (nothing ∷ rs) = ([], some rs)
  process_responses (got ms ∷ rs) =
      let (out, end) = handle_all ms false in
      let (more, rest) = process_responses rs in if end then (out, some rs) else (out ++ more, rest)

-- What `main` reads off the arguments: what is to be shown, a request for help, or an unknown option.
pub data Arguments : Type 0 where
  show : Bool → Bool → Bool → Arguments
  help unknown : Arguments

-- The loop of `main` over the arguments; the options are given by their texts.
pub record OptionTexts : Type 0 where
  pub routes : List ℕ
  pub interfaces : List ℕ
  pub all : List ℕ
  pub help_text : List ℕ

abbrev pub short : OptionTexts
short = record {
  routes = b'-' ∷ b'r' ∷ [];
  interfaces = b'-' ∷ b'i' ∷ [];
  all = b'-' ∷ b'a' ∷ [];
  help_text = b'-' ∷ b'h' ∷ [];
}

abbrev pub long : OptionTexts
long = record {
  routes = b'-' ∷ b'-' ∷ b'r' ∷ b'o' ∷ b'u' ∷ b't' ∷ b'e' ∷ b's' ∷ [];
  interfaces =
      b'-' ∷ b'-' ∷ b'i' ∷ b'n' ∷ b't' ∷ b'e' ∷ b'r' ∷ b'f' ∷ b'a' ∷ b'c' ∷ b'e' ∷ b's' ∷ [];
  all = b'-' ∷ b'-' ∷ b'a' ∷ b'l' ∷ b'l' ∷ [];
  help_text = b'-' ∷ b'-' ∷ b'h' ∷ b'e' ∷ b'l' ∷ b'p' ∷ [];
}

abbrev pub is_option : (OptionTexts → List ℕ) → List ℕ → Bool
is_option o arg = same_text arg (o short) || same_text arg (o long)

unfoldable pub parse_loop : List (List ℕ) → Bool → Bool → Bool → Arguments
unfolding same_text
parse_loop [] r i a = show r i a
parse_loop (arg ∷ args) r i a =
    let rest = parse_loop args in
    if is_option (λ o. o.routes) arg
    then rest true i a
    else if is_option (λ o. o.interfaces) arg
    then rest r true a
    else if is_option (λ o. o.all) arg
    then rest r i true
    else if is_option (λ o. o.help_text) arg
    then help
    else unknown

-- Arguments by which nothing is to be shown show everything.
unfoldable pub parse : List (List ℕ) → Arguments
unfolding parse_loop
parse args = elim (parse_loop args false false false) [
  | show r i a ↦ if not r && not i && not a then show r i true else show r i a
  | help ↦ help
  | unknown ↦ unknown
]
