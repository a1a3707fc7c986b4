-- ===== src/Netlink/Echo.antt =====
-- netlink/netlinkUser.c and netlinkKernel.c: one message from the program to the module, and back.
use linux_learn_demo_code.Base.{
  ℕ, zero, ==_refl, arith, ◌+◌, ◌-◌, Bool, true, false, not, ◌&&◌, Option, none, some, List, [],
  ◌∷◌, ◌++◌, if◌then◌else◌, ◌==◌, is_none, take, drop, length, replicate, ◌≡◌, refl,
}
use linux_learn_demo_code.Base.Int.{ℤ, pos, negsuc}
use linux_learn_demo_code.Text.{c_string}

-- "Hello from kernel" and "Hello from user space!".
abbrev pub hello_kernel : List ℕ
hello_kernel =
    b'H' ∷ b'e' ∷ b'l' ∷ b'l' ∷ b'o' ∷ b' ' ∷ b'f' ∷ b'r' ∷ b'o' ∷ b'm' ∷ b' ' ∷ b'k' ∷ b'e' ∷ b'r'
    ∷ b'n' ∷ b'e' ∷ b'l' ∷ []

abbrev pub hello_user : List ℕ
hello_user =
    b'H' ∷ b'e' ∷ b'l' ∷ b'l' ∷ b'o' ∷ b' ' ∷ b'f' ∷ b'r' ∷ b'o' ∷ b'm' ∷ b' ' ∷ b'u' ∷ b's' ∷ b'e'
    ∷ b'r' ∷ b' ' ∷ b's' ∷ b'p' ∷ b'a' ∷ b'c' ∷ b'e' ∷ b'!' ∷ []

-- What the module's answer to a message comes to: the text that is logged, the skb's allocated and freed, and
-- what is given to `nlmsg_unicast`, which takes the skb over: the port and the payload.
pub record Answer : Type 0 where
  pub logged : List ℕ
  pub allocated : ℕ
  pub freed : ℕ
  pub unicast : Option (ℕ × List ℕ)

-- `hello_nl_recv_msg` on a payload from a port, with whether `nlmsg_new` and `nlmsg_put` succeed.
unfoldable pub hello_nl_recv_msg : Bool → Bool → ℕ → List ℕ → Answer
hello_nl_recv_msg new put pid payload =
    let text = c_string payload in
    if not new
    then record { logged = text; allocated = 0; freed = 0; unicast = none }
    else if not put
    then record { logged = text; allocated = 1; freed = 1; unicast = none }
    else record {
      logged = text;
      allocated = 1;
      freed = 0;
      unicast = some (pid, hello_kernel ++ 0 ∷ []);
    }

-- `hello_init` with the socket that `netlink_kernel_create` gives: the error, 12 for ENOMEM, and
-- `nl_sk`.
unfoldable pub hello_init : Option ℕ → ℕ × Option ℕ
hello_init none = (12, none)
hello_init (some sk) = (0, some sk)

-- `hello_exit`: the sockets released, and `nl_sk`.
unfoldable pub hello_exit : Option ℕ → List ℕ × Option ℕ
hello_exit none = ([], none)
hello_exit (some sk) = (sk ∷ [], none)

-- What the calls of the user program give. Of what `recvmsg` writes over the buffer only the payload
-- is read; `recv_fails` is a failure, `silence` no message.
pub data Received : Type 0 where
  recv_fails silence : Received
  received : List ℕ → Received

pub record Calls : Type 0 where
  pub socket : Bool
  pub bind : Bool
  pub malloc : Bool
  pub sendmsg : Bool

-- What `main` has done: the texts printed after "Sending" and "Received", what it holds still, what it
-- sent, and its code, `none` while it waits.
pub record Run : Type 0 where
  pub sending : Option (List ℕ)
  pub receiving : Option (List ℕ)
  pub sockets : ℕ
  pub buffers : ℕ
  pub sent : Option (List ℕ)
  pub code : Option ℤ

abbrev pub max_payload : ℕ
max_payload = 1024

-- The payload of the buffer: it is cleared, and the text is copied to its start.
unfoldable pub payload : List ℕ
payload = hello_user ++ 0 ∷ replicate (max_payload - 23) 0

-- The payload after an answer has been written over its start.
abbrev pub overwritten : List ℕ → List ℕ
overwritten bytes = take max_payload bytes ++ drop (length (take max_payload bytes)) payload

abbrev failed : Run
failed = record {
  sending = none;
  receiving = none;
  sockets = 0;
  buffers = 0;
  sent = none;
  code = some (negsuc 0);
}

-- `main` from its `recvmsg` on.
unfoldable pub receive : Received → Run → Run
receive recv_fails r = record r { sockets = 0; buffers = 0; code = some (negsuc 0) }
receive silence r = record r { code = none }
receive (received bytes) r = record r {
  receiving = some (c_string (overwritten bytes));
  sockets = 0;
  buffers = 0;
  code = some (pos 0);
}

-- `main`.
unfoldable pub main : Calls → Received → Run
unfolding receive
main c r =
    if not c.socket
    then failed
    else if not c.bind
    then failed
    else if not c.malloc
    then failed
    else let text = some (c_string payload) in
      if not c.sendmsg
      then record failed { sending = text }
      else receive r (record {
        sending = text;
        receiving = none;
        sockets = 1;
        buffers = 1;
        sent = some payload;
        code = none;
      })

-- What the program receives of the module's answer: the message to its port, if it can be delivered.
unfoldable pub delivered : ℕ → Bool → Option (ℕ × List ℕ) → Received
delivered pid there none = silence
delivered pid there (some (to, bytes)) = if (to == pid) && there then received bytes else silence

-- The program and the module together: the message is handed over, and the answer delivered.
unfoldable pub converse : ℕ → Bool → Bool → Bool → Answer × Run
unfolding main hello_nl_recv_msg delivered
converse pid new put there =
    let answer = hello_nl_recv_msg new put pid payload in
    (
      answer,
      main (record { socket = true; bind = true; malloc = true; sendmsg = true })
          (delivered pid there answer.unicast),
    )

abbrev pub is_zero : Option ℤ → Bool
is_zero (some (pos zero)) = true
is_zero _ = false

-- Whichever calls fail, the program holds no socket and no buffer when it returns, and both while it
-- waits; it has printed an answer exactly if it returns 0.
pub main-closes :
    (c : Calls) (r : Received)
    → let run = main c r in
      (run.sockets ≡ (if is_none run.code then 1 else 0))
      × (run.buffers ≡ (if is_none run.code then 1 else 0))
      × (is_none run.receiving ≡ not (is_zero run.code))
unfolding main
main-closes c recv_fails = (ground arith, ground arith, ground arith)
main-closes c silence = (ground arith, ground arith, ground arith)
main-closes c (received bytes) = (ground arith, ground arith, ground arith)

-- Whatever port the program has: the module logs the text that the program sent, and frees the skb or
-- gives it away; if the module can build its answer and it is delivered, the program prints the
-- module's text and returns 0 with all released, and otherwise it waits without end.
pub converse_lem :
    (pid : ℕ) (new put there : Bool)
    → let (answer, run) = converse pid new put there in
      (answer.logged ≡ hello_user)
      × (answer.allocated ≡ answer.freed + (if is_none answer.unicast then 0 else 1))
      × (run.code ≡ (if new && (put && there) then some (pos 0) else none))
      × (run.receiving ≡ (if new && (put && there) then some hello_kernel else none))
unfolding converse c_string payload
converse_lem pid false put there = (refl, refl, refl, refl)
converse_lem pid true false there = (refl, refl, refl, refl)
converse_lem pid true true false = (refl, refl, rw ==_refl, rw ==_refl)
converse_lem pid true true true = (refl, refl, rw ==_refl, rw ==_refl)
