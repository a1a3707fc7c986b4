-- ===== src/Netlink/Show/Responses.antt =====
-- What the program prints of the replies to a request, and of one route.
use linux_learn_demo_code.Base.{
  ℕ, Bool, true, false, ◌||◌, ◌&&◌, not, arith, some, List, [], ◌∷◌, ◌++◌, map, if◌then◌else◌, ◌==◌,
  All, Bool-cases, inl, inr, ◌≡◌, refl, sym, ◌∙◌, ap,
}
use mathlib.Core.List.{append_assoc, append-nil}
use linux_learn_demo_code.Netlink.{
  Attribute, RtMsg, Message, nlmsg_done, nlmsg_error, rtm_newroute, rtm_newlink, rt_table_main,
  rta_dst, rta_gateway, not_available, last_address,
}
use linux_learn_demo_code.Netlink.Show.{
  Printed, route, netlink_error, unexpected, print_link, route_loop, print_route, Reply, got,
  handle, handle_all, process_responses,
}

route_loop_lem :
    (inet_ntop : List ℕ → List ℕ) (as' : List Attribute) (d g : List ℕ)
    → route_loop inet_ntop as' d g
      ≡ (last_address inet_ntop rta_dst as' d, last_address inet_ntop rta_gateway as' g)
unfolding route_loop
route_loop_lem inet_ntop [] d g = refl
route_loop_lem inet_ntop (a ∷ as') d g = route_loop_lem inet_ntop as' _ _

-- Of a route of the main table one line is printed, with the last destination and the last gateway
-- among its attributes, "N/A" where there is none; of any other route nothing.
pub print_route_lem :
    (inet_ntop : List ℕ → List ℕ) (r : RtMsg)
    → print_route inet_ntop r ≡ (
        if r.rtm_table == rt_table_main
        then route
            (last_address inet_ntop rta_dst r.attributes not_available)
            r.rtm_dst_len
            r.rtm_protocol
            (last_address inet_ntop rta_gateway r.attributes not_available)
          ∷ []
        else [])
unfolding print_route
print_route_lem inet_ntop r = elim (Bool-cases (r.rtm_table == rt_table_main)) [
  | inl main ↦ rw main (
      ap (λ p. route p.0 r.rtm_dst_len r.rtm_protocol p.1 ∷ [])
        (route_loop_lem inet_ntop r.attributes not_available not_available))
  | inr else_where ↦ rw else_where
]

-- What is printed if a condition holds.
abbrev pub when : Bool → List Printed → List Printed
when c out = if c then out else []

-- The types of messages that the program knows.
abbrev pub is_known : ℕ → Bool
is_known type =
    type == nlmsg_done || type == nlmsg_error || type == rtm_newroute || type == rtm_newlink

-- Whether a message ends the dump: NLMSG_DONE or an error.
abbrev pub is_last : Message → Bool
is_last m = m.nlmsg_type == nlmsg_done || m.nlmsg_type == nlmsg_error

-- The line that is printed of a route: of the main table, with the last destination and the last gateway.
abbrev pub route_line : (List ℕ → List ℕ) → RtMsg → List Printed
route_line inet_ntop r = when (r.rtm_table == rt_table_main) (
    route (last_address inet_ntop rta_dst r.attributes not_available) r.rtm_dst_len r.rtm_protocol
      (last_address inet_ntop rta_gateway r.attributes not_available)
    ∷ [])

module _ (inet_ntop : List ℕ → List ℕ) (show_routes show_interfaces : Bool) where
  -- What is printed of a message of a type: an error's code; a route and an interface if they are to
  -- be shown; and a line on a type that the program does not know, if anything is to be shown.
  abbrev pub by_type : ℕ → List Printed → List Printed → List Printed → List Printed → List Printed
  by_type type routes links error others =
      when (type == nlmsg_error) error
      ++ (when (show_routes && (type == rtm_newroute)) routes
          ++ (when (show_interfaces && (type == rtm_newlink)) links
              ++ when ((show_routes || show_interfaces) && not (is_known type)) others))

  abbrev pub shown_of : Message → List Printed
  shown_of m =
      by_type m.nlmsg_type (route_line inet_ntop m.as_rtmsg) (print_link m.as_ifinfo)
        (netlink_error m.as_error ∷ []) (unexpected m.nlmsg_type m.nlmsg_len ∷ [])

  -- The switch, with what it prints in each of its cases.
  switch_lem :
      (type : ℕ) (routes links error others : List Printed)
      → let switch : List Printed × Bool =
          (if type == nlmsg_done
            then ([], true)
            else if type == rtm_newroute
            then (if show_routes then routes else [], false)
            else if type == rtm_newlink
            then (if show_interfaces then links else [], false)
            else if type == nlmsg_error
            then (error, true)
            else (if show_interfaces || show_routes then others else [], false)) in
        switch ≡ (by_type type routes links error others, type == nlmsg_done || type == nlmsg_error)
  switch_lem type routes links error others =
      ground (arith, append-nil {0} routes, append-nil {0} links, append-nil {0} error)

  handle_lem :
      (m : Message) → handle inet_ntop show_routes show_interfaces m ≡ (shown_of m, is_last m)
  unfolding handle
  handle_lem m =
      switch_lem m.nlmsg_type (print_route inet_ntop m.as_rtmsg) (print_link m.as_ifinfo)
        (netlink_error m.as_error ∷ []) (unexpected m.nlmsg_type m.nlmsg_len ∷ [])
      ∙ ap
          (λ line. (
            by_type m.nlmsg_type line (print_link m.as_ifinfo) (netlink_error m.as_error ∷ [])
                (unexpected m.nlmsg_type m.nlmsg_len ∷ []),
            is_last m,
          ))
          (print_route_lem inet_ntop m.as_rtmsg)

  -- What is printed of the messages, in order, and whether one of them ends the dump.
  abbrev pub printed_of : List Message → List Printed
  printed_of [] = []
  printed_of (m ∷ ms) = shown_of m ++ printed_of ms

  abbrev pub ends_in : List Message → Bool
  ends_in [] = false
  ends_in (m ∷ ms) = is_last m || ends_in ms

  abbrev pub joined : List (List Message) → List Message
  joined [] = []
  joined (ms ∷ more) = ms ++ joined more

  or_assoc : (a b c : Bool) → ((a || b) || c) ≡ (a || (b || c))
  or_assoc true b c = refl
  or_assoc false b c = refl

  or_false : (a : Bool) → (a || false) ≡ a
  or_false true = refl
  or_false false = refl

  handle_all_lem :
      (ms : List Message) (end : Bool)
      → handle_all inet_ntop show_routes show_interfaces ms end ≡ (printed_of ms, end || ends_in ms)
  unfolding handle_all
  handle_all_lem [] end = ap (λ b. ([], b)) (sym (or_false end))
  handle_all_lem (m ∷ ms) end =
      ap
        (λ h. (
          h.0 ++ (handle_all inet_ntop show_routes show_interfaces ms (end || h.1)).0,
          (handle_all inet_ntop show_routes show_interfaces ms (end || h.1)).1,
        ))
        (handle_lem m)
      ∙ ap (λ p. (shown_of m ++ p.0, p.1)) (handle_all_lem ms (end || is_last m))
      ∙ ap (λ b. (shown_of m ++ printed_of ms, b)) (or_assoc end (is_last m) (ends_in ms))

  printed_of-append :
      (xs ys : List Message) → printed_of (xs ++ ys) ≡ printed_of xs ++ printed_of ys
  printed_of-append [] ys = refl
  printed_of-append (m ∷ xs) ys =
      ap (λ out. shown_of m ++ out) (printed_of-append xs ys)
      ∙ sym (append_assoc (shown_of m) (printed_of xs) (printed_of ys))

  -- The replies are read up to the first one that holds NLMSG_DONE or an error, and no further. What
  -- is printed is what is printed of each of their messages, in order, those behind the end in the
  -- same reply included: an error's code; the line of a route of the main table and the attributes of
  -- an interface, each if it was asked for; and a line on a message of a type that is not known.
  pub process_responses_lem :
      (before : List (List Message)) (last : List Message) (rest : List Reply)
      → All (λ ms. ends_in ms ≡ false) before
      → ends_in last ≡ true
      → process_responses inet_ntop show_routes show_interfaces (map got before ++ got last ∷ rest)
        ≡ (printed_of (joined before ++ last), some rest)
  unfolding process_responses
  process_responses_lem [] last rest none_ends ends = rw (handle_all_lem last false, ends)
  process_responses_lem (ms ∷ before) last rest none_ends ends =
      rw (handle_all_lem ms false, none_ends.0)
        (rw (process_responses_lem before last rest none_ends.1 ends) (
          ap (λ out. (out, some rest))
            (sym (printed_of-append ms (joined before ++ last))
              ∙ ap printed_of (sym (append_assoc ms (joined before) last)))))
