-- ===== src/Netlink.antt =====
-- netlink: the messages that route_show.c and route_monitor.c read, and the text of a route.
-- A message is taken as the macros of the kernel's headers find it in the buffer: NLMSG_OK and
-- NLMSG_NEXT give the messages, RTA_OK and RTA_NEXT the attributes.
pub mod Show
pub mod Monitor
pub mod Echo
mod Tests
use linux_learn_demo_code.Base.{ℕ, Bool, true, false, List, [], ◌∷◌, ◌++◌, if◌then◌else◌, ◌==◌}

-- `struct rtattr` with the bytes that RTA_DATA gives.
pub record Attribute : Type 0 where
  pub rta_type : ℕ
  pub bytes : List ℕ

-- `struct rtmsg` and its attributes.
pub record RtMsg : Type 0 where
  pub rtm_table : ℕ
  pub rtm_dst_len : ℕ
  pub rtm_protocol : ℕ
  pub attributes : List Attribute

-- `struct ifinfomsg` and its attributes.
pub record IfInfo : Type 0 where
  pub ifi_index : ℕ
  pub attributes : List Attribute

-- `struct nlmsghdr`, and what NLMSG_DATA gives, read as each of the structures that the programs read
-- it as. The error is that of `struct nlmsgerr`, negated.
pub record Message : Type 0 where
  pub nlmsg_type : ℕ
  pub nlmsg_len : ℕ
  pub as_rtmsg : RtMsg
  pub as_ifinfo : IfInfo
  pub as_error : ℕ

abbrev pub nlmsg_error : ℕ
nlmsg_error = 2

abbrev pub nlmsg_done : ℕ
nlmsg_done = 3

abbrev pub rtm_newlink : ℕ
rtm_newlink = 16

abbrev pub rtm_newroute : ℕ
rtm_newroute = 24

abbrev pub rtm_delroute : ℕ
rtm_delroute = 25

abbrev pub rt_table_main : ℕ
rt_table_main = 254

abbrev pub rta_dst : ℕ
rta_dst = 1

abbrev pub rta_gateway : ℕ
rta_gateway = 5

abbrev pub rta_prefsrc : ℕ
rta_prefsrc = 7

-- "N/A".
abbrev pub not_available : List ℕ
not_available = b'N' ∷ b'/' ∷ b'A' ∷ []

-- The address of the last attribute of a type, as `inet_ntop` of the C library writes it, or what is
-- there if no attribute has the type.
abbrev pub last_address : (List ℕ → List ℕ) → ℕ → List Attribute → List ℕ → List ℕ
last_address inet_ntop type [] text = text
last_address inet_ntop type (a ∷ as') text =
    last_address inet_ntop type as' (if a.rta_type == type then inet_ntop a.bytes else text)
