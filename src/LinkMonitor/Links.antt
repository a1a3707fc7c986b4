-- ===== src/LinkMonitor/Links.antt =====
-- select/link_monitor/link_monitor.c:145-154, 176-250: the messages on links, and what is reported of them.
use linux_learn_demo_code.Base.{ℕ, Bool, true, false, List, [], ◌∷◌, if◌then◌else◌, take}
use linux_learn_demo_code.LinkMonitor.Names.{Naming, get_interface_name}

-- `get_link_state`: IFF_RUNNING and IFF_UP of the flags.
pub data LinkState : Type 0 where
  up not_running down : LinkState

pub record Flags : Type 0 where
  pub iff_up : Bool
  pub iff_running : Bool

unfoldable pub get_link_state : Flags → LinkState
get_link_state f = if f.iff_running then up else if f.iff_up then not_running else down

-- An attribute of a link message with its bytes, and what is printed of it.
pub data Attribute : Type 0 where
  ifla_address ifla_mtu ifla_qdisc ifla_ifname : List ℕ → Attribute
  ifla_other : ℕ → Attribute

-- A netlink message, as the macros of the kernel's headers find it in the buffer: the index, the flags,
-- the type and the attributes of a link, and what the kernel answers when its name is asked for.
pub data Message : Type 0 where
  rtm_newlink rtm_dellink : ℕ → Flags → ℕ → List Attribute → Naming → Message
  rtm_other : ℕ → Message

-- What is reported of a message: whether the link is gone, its name, index, state and type, and the details.
pub record Report : Type 0 where
  pub deleted : Bool
  pub name : List ℕ
  pub index : ℕ
  pub state : LinkState
  pub kind : ℕ
  pub details : List Attribute

-- The attributes that are printed; of an address at most six bytes.
unfoldable pub details_of : List Attribute → List Attribute
details_of [] = []
details_of (ifla_address bytes ∷ more) = ifla_address (take 6 bytes) ∷ details_of more
details_of (ifla_mtu bytes ∷ more) = ifla_mtu bytes ∷ details_of more
details_of (ifla_qdisc bytes ∷ more) = ifla_qdisc bytes ∷ details_of more
details_of (ifla_ifname bytes ∷ more) = ifla_ifname bytes ∷ details_of more
details_of (ifla_other n ∷ more) = details_of more

-- `IFNAMSIZ`.
abbrev pub ifnamsiz : ℕ
ifnamsiz = 16

-- The loop over the messages of one buffer.
unfoldable pub reports_of : List Message → List Report
unfolding get_link_state details_of get_interface_name
reports_of [] = []
reports_of (rtm_newlink i f k as' naming ∷ more) =
    record {
      deleted = false;
      name = (get_interface_name naming i ifnamsiz).0;
      index = i;
      state = get_link_state f;
      kind = k;
      details = details_of as';
    }
    ∷ reports_of more
reports_of (rtm_dellink i f k as' naming ∷ more) =
    record {
      deleted = true;
      name = (get_interface_name naming i ifnamsiz).0;
      index = i;
      state = get_link_state f;
      kind = k;
      details = details_of as';
    }
    ∷ reports_of more
reports_of (rtm_other n ∷ more) = reports_of more
