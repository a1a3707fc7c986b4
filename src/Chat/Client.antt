-- ===== src/Chat/Client.antt =====
-- select/chat-server/client.c: the loop that sends what is typed.
pub mod Program
use linux_learn_demo_code.Base.{
  ℕ, zero, suc, Bool, true, false, List, [], ◌∷◌, if◌then◌else◌, ◌++◌, replicate, All, ◌≡◌, ◌≢◌,
  refl, Bool-cases, inl, inr,
}
use linux_learn_demo_code.Text.{c_string, chop, same_text, chop-All}

abbrev pub quit : List ℕ
quit = b'q' ∷ b'u' ∷ b'i' ∷ b't' ∷ []

-- How the loop of `main` ends: by the word "quit", by a `send` that fails, or not yet.
pub data End : Type 0 where
  by_quit by_error waiting : End

-- What the loop does with one line that is not the word "quit", before the rest of its rounds.
unfoldable pub send_line : List ℕ → Bool → List (List ℕ) × End → List (List ℕ) × End
send_line [] sent next = next
send_line (b ∷ bs) true next = ((b ∷ bs) ∷ next.0, next.1)
send_line (b ∷ bs) false next = ((b ∷ bs) ∷ [], by_error)

-- The loop of `main` over what `fgets` puts into the buffer, `[]` at the end of the input, each with
-- the outcome of a `send` that it may lead to: the lines that were handed to `send`, and the end.
unfoldable pub send_loop : List (List ℕ × Bool) → List (List ℕ) × End
unfolding send_line
send_loop [] = ([], waiting)
send_loop ((buffer, sent) ∷ more) =
    let line = chop (c_string buffer) in
    let next = send_loop more in
    if same_text line quit then ([], by_quit) else send_line line sent next

-- One round of `receive_messages`: the text that is printed, and whether the loop goes on. A `read`
-- gives bytes, or fails; `interrupted` says whether it failed with EINTR.
pub data Read : Type 0 where
  bytes : ℕ → List ℕ → Read
  failed : Bool → Read

unfoldable pub receive_step : Read → List ℕ × Bool
receive_step (bytes zero bs) = ([], false)
receive_step (bytes (suc n) bs) = (c_string bs, true)
receive_step (failed interrupted) = ([], interrupted)

-- What may be handed to `send`: a text that is not empty, holds no newline and is not "quit".
abbrev pub IsLine : List ℕ → Type 0
IsLine l = (l ≢ []) × All (λ b. b ≢ 10) l × (same_text l quit ≡ false)

send_line-IsLine :
    (line : List ℕ) (sent : Bool) (next : List (List ℕ) × End)
    → All (λ b. b ≢ 10) line
    → same_text line quit ≡ false
    → All IsLine next.0
    → All IsLine (send_line line sent next).0
unfolding send_line
send_line-IsLine [] sent next a q h = h
send_line-IsLine (b ∷ bs) true next a q h = (((λ e. cc), a, q), h)
send_line-IsLine (b ∷ bs) false next a q h = (((λ e. cc), a, q), tt)

-- Whatever is typed and however the sending goes, only texts that are not empty, hold no newline and
-- are not "quit" are handed to `send`.
pub send_loop-IsLine : (input : List (List ℕ × Bool)) → All IsLine (send_loop input).0
unfolding send_loop
send_loop-IsLine [] = tt
send_loop-IsLine (x ∷ more) = elim (Bool-cases (same_text (chop (c_string x.0)) quit)) [
  | inl e ↦ rw e tt
  | inr e ↦
      rw (send_loop, e)
        (send_line-IsLine (chop (c_string x.0)) x.1 (send_loop more) (chop-All (c_string x.0)) e
          (send_loop-IsLine more))
]

-- The end of the input does not end the loop, however often it is read: it sends nothing, and turns
-- on.
pub send_loop-replicate :
    (n : ℕ) (more : List (List ℕ × Bool))
    → send_loop (replicate n ([], true) ++ more) ≡ send_loop more
unfolding send_loop c_string chop same_text
send_loop-replicate zero more = refl
send_loop-replicate (suc n) more = send_loop-replicate n more
