-- ===== src/Chat/Conversation.antt =====
-- select/chat-server: a line that is typed at one client, passed on by the server, and shown by the
-- others. A `send` is read whole by one `read`, as when the other side is not behind.
use linux_learn_demo_code.Base.{
  ℕ, zero, suc, ◌+◌, ◌<◌, ◌≤◌, Bool, true, false, some, List, [], ◌∷◌, ◌++◌, map, take, length, All,
  ◌≡◌, ◌≢◌, refl, ap, ◌∙◌, arith, lt→ltb, length-append,
}
use linux_learn_demo_code.Text.{
  c_string, chop, same_text, chop-All, c_string-All, chop-same, c_string-nonzero, chop-nonzero,
  append-nonzero, take-nonzero,
}
use linux_learn_demo_code.Chat.Server.{
  Server, Net, ThreadArgs, handle_read, chat_line, client_of, buffer_size,
}
use linux_learn_demo_code.Chat.Server.Slots.{sockets, without, broadcast_message-map}
use linux_learn_demo_code.Chat.Server.Threads.{goes_on}
use linux_learn_demo_code.Chat.Client.{quit, send_loop, send_line, Read, bytes, receive_step}

-- The line that a client types into its buffer.
abbrev pub typed : List ℕ → List ℕ
typed buffer = chop (c_string buffer)

-- What one `read` of `receive_messages` finds of a text that was sent.
abbrev pub one_read : List ℕ → Read
one_read text = bytes (length (take buffer_size text)) (take buffer_size text)

take-all : (n : ℕ) (xs : List ℕ) → length xs ≤ n → take n xs ≡ xs
take-all zero [] h = refl
take-all zero (x ∷ xs) h = absurd (omega arith)
take-all (suc n) [] h = refl
take-all (suc n) (x ∷ xs) h = ap (◌∷◌ x) (take-all n xs (omega arith))

-- The text that the others are sent holds no 0.
chat_line-nonzero :
    (net : Net) (t : ThreadArgs) (s : Server) (line : List ℕ)
    → All (λ b. b ≢ 0) (client_of t s).ip
    → All (λ b. b ≢ 0) (net.show_int (client_of t s).port)
    → All (λ b. b ≢ 0) line
    → All (λ b. b ≢ 0) (chat_line net (client_of t s) line)
unfolding chat_line
chat_line-nonzero net t s line ip port l =
    let c = client_of t s in
    let end = append-nonzero line (10 ∷ []) l ((λ e. omega arith), tt) in
    let named =
      append-nonzero (net.show_int c.port) (b']' ∷ b':' ∷ b' ' ∷ (line ++ 10 ∷ [])) port
        ((λ e. omega arith), ((λ e. omega arith), ((λ e. omega arith), end))) in
    let rest = b':' ∷ (net.show_int c.port ++ (b']' ∷ b':' ∷ b' ' ∷ (line ++ 10 ∷ []))) in
    take-nonzero (buffer_size + 49) (b'[' ∷ (c.ip ++ rest))
      ((λ e. omega arith), append-nonzero c.ip rest ip ((λ e. omega arith), named))

chat_line-some :
    (net : Net) (t : ThreadArgs) (s : Server) (line : List ℕ)
    → chat_line net (client_of t s) line ≢ []
unfolding chat_line
chat_line-some net t s line = λ e. cc

passed_on :
    (net : Net) (t : ThreadArgs) (s : Server) (line : List ℕ)
    → line ≢ []
    → All (λ b. b ≢ 0) line
    → All (λ b. b ≢ 10) line
    → length line < buffer_size
    → handle_read net t (some line) s
      ≡ some (
          goes_on s (
            map
              (λ fd. (fd, chat_line net (client_of t s) line))
              (without t.sockfd (sockets s.clients))))
unfolding handle_read
passed_on net t s [] ne z l short = absurd (ne refl)
passed_on net t s (b ∷ bs) ne z l short =
    rw (c_string-All (b ∷ bs) z, lt→ltb (length (b ∷ bs)) buffer_size short, chop-same (b ∷ bs) l)
      (ap (λ sends. some (goes_on s sends)) (broadcast_message-map _ t.sockfd s.clients))

-- A line is shorter than the text that is made of it, if that was not cut.
not_cut : (n m : ℕ) (xs : List ℕ) → length (take n xs) < m → m ≤ n → length xs < m
not_cut zero m xs h le = absurd (omega (arith, h, le))
not_cut (suc n) m [] h le = h
not_cut (suc n) zero (x ∷ xs) h le = absurd (omega (arith, h))
not_cut (suc n) (suc m) (x ∷ xs) h le =
    let r = not_cut n m xs (omega (arith, h)) (omega (arith, le)) in omega (arith, r)

line_fits :
    (net : Net) (t : ThreadArgs) (s : Server) (line : List ℕ)
    → length (chat_line net (client_of t s) line) < buffer_size
    → length line < buffer_size
unfolding chat_line
line_fits net t s line h =
    let c = client_of t s in
    let tail = b']' ∷ b':' ∷ b' ' ∷ (line ++ 10 ∷ []) in
    omega (
      arith,
      not_cut (buffer_size + 49) buffer_size
          (b'[' ∷ (c.ip ++ (b':' ∷ (net.show_int c.port ++ tail)))) h (omega arith),
      length-append {0} c.ip (b':' ∷ (net.show_int c.port ++ tail)),
      length-append {0} (net.show_int c.port) tail,
      length-append {0} line (10 ∷ []),
    )

shown_whole :
    (text : List ℕ)
    → text ≢ []
    → All (λ b. b ≢ 0) text
    → length text < buffer_size
    → receive_step (one_read text) ≡ (text, true)
unfolding receive_step
shown_whole [] ne z fits = absurd (ne refl)
shown_whole (b ∷ bs) ne z fits =
    ap (λ (xs : List ℕ). receive_step (bytes (length xs) xs))
      (take-all buffer_size (b ∷ bs) (omega (arith, fits)))
    ∙ ap (λ (xs : List ℕ). (xs, true)) (c_string-All (b ∷ bs) z)

sent_first :
    (buffer : List ℕ) (more : List (List ℕ × Bool))
    → typed buffer ≢ []
    → same_text (typed buffer) quit ≡ false
    → (send_loop ((buffer, true) ∷ more)).0 ≡ typed buffer ∷ (send_loop more).0
unfolding send_loop
sent_first buffer more ne q = rw q (by_line (typed buffer) ne)
  where
    by_line :
        (line : List ℕ)
        → line ≢ []
        → (send_line line true (send_loop more)).0 ≡ line ∷ (send_loop more).0
    by_line [] ne = absurd (ne refl)
    by_line (b ∷ bs) ne = unfold send_line in refl

-- A line that a client types, and that is neither empty nor the word "quit", is sent before the lines
-- that follow it. The thread of that client sends it on with the name of its client in front, to every
-- other client once, and in the order of the table, and goes on with the table as it was; and a client
-- that reads it prints that text and goes on reading, if the text fits into the client's buffer with a 0 behind it and the printed address
-- and port hold no 0.
pub typed-shown :
    (net : Net) (t : ThreadArgs) (s : Server) (buffer : List ℕ) (more : List (List ℕ × Bool))
    → typed buffer ≢ []
    → same_text (typed buffer) quit ≡ false
    → All (λ b. b ≢ 0) (client_of t s).ip
    → All (λ b. b ≢ 0) (net.show_int (client_of t s).port)
    → length (chat_line net (client_of t s) (typed buffer)) < buffer_size
    → let text = chat_line net (client_of t s) (typed buffer) in
      ((send_loop ((buffer, true) ∷ more)).0 ≡ typed buffer ∷ (send_loop more).0)
      × (handle_read net t (some (typed buffer)) s
          ≡ some (goes_on s (map (λ fd. (fd, text)) (without t.sockfd (sockets s.clients)))))
      × (receive_step (one_read text) ≡ (text, true))
typed-shown net t s buffer more ne q ip port fits =
    let z = chop-nonzero (c_string buffer) (c_string-nonzero buffer) in
    (
      sent_first buffer more ne q,
      passed_on net t s (typed buffer) ne z (chop-All (c_string buffer))
          (line_fits net t s (typed buffer) fits),
      shown_whole _ (chat_line-some net t s (typed buffer))
          (chat_line-nonzero net t s (typed buffer) ip port z) fits,
    )
