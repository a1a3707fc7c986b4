-- ===== src/Netlink/Tests.antt =====
-- The theorems on the netlink programs at concrete messages.
use linux_learn_demo_code.Base.{ℕ, true, false, none, some, List, [], ◌∷◌, ◌++◌, ◌≡◌, refl}
use linux_learn_demo_code.Base.Int.{pos}
use linux_learn_demo_code.Text.{same_text}
use linux_learn_demo_code.Netlink.{RtMsg, IfInfo, Message, not_available}
use linux_learn_demo_code.Netlink.Show.{route, print_route, got, failed, process_responses}
use linux_learn_demo_code.Netlink.Show.Responses.{printed_of, process_responses_lem}
use linux_learn_demo_code.Netlink.Show.Program.{Answers}
use linux_learn_demo_code.Netlink.Monitor.{Line, print_route_info, Round, timeout, readable, round}
use linux_learn_demo_code.Netlink.Monitor
use linux_learn_demo_code.Netlink.Monitor.Lines.{print_route_info_lem}
use linux_learn_demo_code.Netlink.Monitor.Loop.{lines_of, main-prints}

-- Addresses are written with a dot in front.
abbrev dotted : List ℕ → List ℕ
dotted bytes = b'.' ∷ bytes

dotted-address : (bytes : List ℕ) → same_text (dotted bytes) not_available ≡ false
unfolding same_text
dotted-address bytes = refl

-- A route to 10 by the gateway 7.
abbrev by_gateway : RtMsg
by_gateway = record {
  rtm_table = 254;
  rtm_dst_len = 8;
  rtm_protocol = 3;
  attributes =
      record { rta_type = 1; bytes = 10 ∷ [] } ∷ record { rta_type = 5; bytes = 7 ∷ [] } ∷ [];
}

abbrev no_info : IfInfo
no_info = record { ifi_index = 0; attributes = [] }

abbrev message : ℕ → Message
message type = record {
  nlmsg_type = type;
  nlmsg_len = 60;
  as_rtmsg = by_gateway;
  as_ifinfo = no_info;
  as_error = 0;
}

print_route_info_lem_example :
    (print_route_info dotted by_gateway true ≡ record {
      added = true;
      destination = b'.' ∷ 10 ∷ [];
      netmask = 8;
      protocol = 3;
      via = some (b'.' ∷ 7 ∷ []);
      src = none;
      table = none;
    })
    × (print_route dotted by_gateway ≡ route (b'.' ∷ 10 ∷ []) 8 3 (b'.' ∷ 7 ∷ []) ∷ [])
unfolding print_route_info
print_route_info_lem_example = print_route_info_lem dotted dotted-address by_gateway true

process_responses_lem_example :
    process_responses dotted true false
      (got (message 24 ∷ []) ∷ got (message 3 ∷ message 24 ∷ []) ∷ failed ∷ [])
    ≡ (printed_of dotted true false (message 24 ∷ message 3 ∷ message 24 ∷ []), some (failed ∷ []))
unfolding process_responses
process_responses_lem_example =
    process_responses_lem dotted true false ((message 24 ∷ []) ∷ []) (message 3 ∷ message 24 ∷ [])
      (failed ∷ []) (refl, tt) refl

abbrev all_well : Answers
all_well = record { socket = true; bind = true; send_links = true; send_routes = true }

abbrev idle : Round
idle = record { running = true; selected = timeout }

abbrev told : Round
told = record { running = true; selected = readable (Monitor.got (message 24) []) }

abbrev signalled : Round
signalled = record { running = false; selected = timeout }

main-prints_example :
    (Monitor.main dotted true true (idle ∷ told ∷ signalled ∷ told ∷ [])
      ≡ (lines_of dotted (idle ∷ told ∷ []) ++ [], 1, some (pos 0)))
    × (Monitor.main dotted true true (idle ∷ told ∷ [])
        ≡ (lines_of dotted (idle ∷ told ∷ []), 0, none))
unfolding Monitor.round Monitor.loop
main-prints_example =
    main-prints dotted (idle ∷ told ∷ []) signalled (told ∷ []) (refl, (refl, tt)) refl
