-- ===== src/Netlink/Show/Program.antt =====
-- `main` of netlink/route_show.c.
use linux_learn_demo_code.Base.{
  ℕ, Bool, true, false, not, ◌&&◌, ◌||◌, Option, none, some, List, [], ◌∷◌, ◌++◌, if◌then◌else◌,
  is_none, Bool-cases, inl, inr, ◌≡◌, refl,
}
use linux_learn_demo_code.Base.Int.{ℤ, pos, negsuc}
use linux_learn_demo_code.Netlink.Show.{
  Printed, Request, request, Reply, process_responses, Arguments, show, help, unknown, parse,
}

-- What the system answers: whether there is a socket, whether it can be bound, and whether the two
-- requests can be sent.
pub record Answers : Type 0 where
  pub socket : Bool
  pub bind : Bool
  pub send_links : Bool
  pub send_routes : Bool

-- What the program has done: what was printed by the two parts, the requests, the sockets that it has
-- opened and closed, and the code returned, `none` while it waits for a reply.
pub record Run : Type 0 where
  pub printed : List Printed
  pub requests : List Request
  pub opened : ℕ
  pub closed : ℕ
  pub code : Option ℤ

abbrev ended : ℤ → Run
ended code = record { printed = []; requests = []; opened = 0; closed = 0; code = some code }

module _ (inet_ntop : List ℕ → List ℕ) (pid : ℕ) (a : Answers) where
  -- A part of `main`: a request, if it is wanted, and its replies if it could be sent.
  unfoldable pub part : Bool → Bool → Bool → Bool → List Reply → List Printed × Option (List Reply)
  part wanted sent routes interfaces replies =
      if wanted && sent
      then process_responses inet_ntop routes interfaces replies
      else ([], some replies)

  -- The part on the routing table, and the end of `main`, after the part on the interfaces.
  unfoldable pub finish : List Printed → List Request → Bool → Option (List Reply) → Run
  unfolding part
  finish out sent wanted none = record {
    printed = out;
    requests = sent;
    opened = 1;
    closed = 0;
    code = none;
  }
  finish out sent wanted (some replies) =
      let (more, rest) = part wanted a.send_routes true false replies in
      record {
        printed = out ++ more;
        requests = sent ++ (if wanted && a.send_routes then request pid 26 2 ∷ [] else []);
        opened = 1;
        closed = if is_none rest then 0 else 1;
        code = if is_none rest then none else some (pos 0);
      }

  -- `main` behind the loop over the arguments. RTM_GETLINK is 18 and RTM_GETROUTE 26, AF_UNSPEC 0 and
  -- AF_INET 2.
  unfoldable pub run : Arguments → List Reply → Run
  unfolding finish request
  run help replies = ended (pos 0)
  run unknown replies = ended (negsuc 0)
  run (show routes interfaces all) replies =
      if not a.socket
      then ended (negsuc 0)
      else if not a.bind
      then record (ended (negsuc 0)) { opened = 1; closed = 1 }
      else let (out, rest) = part (all || interfaces) a.send_links false true replies in
        finish out (if (all || interfaces) && a.send_links then request pid 18 0 ∷ [] else [])
          (all || routes) rest

  -- `main`, from the arguments behind the program's name.
  unfoldable pub main : List (List ℕ) → List Reply → Run
  unfolding parse run
  main args replies = run (parse args) replies

  finish-closed :
      (out : List Printed) (sent : List Request) (wanted : Bool) (rest : Option (List Reply))
      → (finish out sent wanted rest).closed ≡ (
          if is_none (finish out sent wanted rest).code
          then 0
          else (finish out sent wanted rest).opened)
  unfolding finish
  finish-closed out sent wanted none = refl
  finish-closed out sent wanted (some replies) =
      elim (Bool-cases (is_none (part wanted a.send_routes true false replies).1)) [
        | inl waits ↦ rw (finish, waits)
        | inr done ↦ rw (finish, done)
      ]

  run-closed :
      (p : Arguments) (replies : List Reply)
      → (run p replies).closed
        ≡ (if is_none (run p replies).code then 0 else (run p replies).opened)
  unfolding run
  run-closed help replies = refl
  run-closed unknown replies = refl
  run-closed (show routes interfaces all) replies = elim (Bool-cases a.socket) [
    | inr missing ↦ rw missing
    | inl there ↦ elim (Bool-cases a.bind) [
      | inr refused ↦ rw (there, refused)
      | inl bound ↦
          rw (there, bound)
            (finish-closed (part (all || interfaces) a.send_links false true replies).0 _
              (all || routes) (part (all || interfaces) a.send_links false true replies).1)
    ]
  ]

  -- Whatever the arguments, the answers and the replies are, the program has closed its socket when it
  -- returns, once, if it got one, and it has closed none while it waits.
  pub main-closed :
      (args : List (List ℕ)) (replies : List Reply)
      → (main args replies).closed
        ≡ (if is_none (main args replies).code then 0 else (main args replies).opened)
  unfolding main
  main-closed args replies = run-closed (parse args) replies
