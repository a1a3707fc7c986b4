-- ===== src/Chat/Server/Start.antt =====
-- select/chat-server/server.c:55-93: `main` up to its loop.
use linux_learn_demo_code.Base.{
  zero, suc, Bool, true, false, not, if◌then◌else◌, ◌≡◌, refl, ◌↔◌, Bool-cases, inl, inr, arith,
}
use linux_learn_demo_code.Base.Int.{ℤ, pos, negsuc, below, above}

abbrev pub is_zero : ℤ → Bool
is_zero (pos zero) = true
is_zero (pos (suc n)) = false
is_zero (negsuc n) = false

-- What the calls of the C library give; the descriptor comes first.
pub record Calls : Type 0 where
  pub socket : ℤ
  pub setsockopt : ℤ → ℤ
  pub inet_pton : ℤ
  pub bind : ℤ → ℤ
  pub listen : ℤ → ℤ

-- The call whose failure ends the program, or the descriptor on which it listens.
pub data Started : Type 0 where
  no_socket no_option no_address no_bind no_listen : Started
  listens : ℤ → Started

unfoldable pub start : Calls → Started
start c =
    if is_zero c.socket
    then no_socket
    else if not (is_zero (c.setsockopt c.socket))
    then no_option
    else if not (above c.inet_pton 0)
    then no_address
    else if below (c.bind c.socket) 0
    then no_bind
    else if below (c.listen c.socket) 0
    then no_listen
    else listens c.socket

-- All five calls give what they give when they succeed, and the descriptor is not 0.
abbrev pub Succeeds : Calls → Type 0
Succeeds c =
    (below c.socket 0 ≡ false)
    × (is_zero c.socket ≡ false)
    × (is_zero (c.setsockopt c.socket) ≡ true)
    × (above c.inet_pton 0 ≡ true)
    × (below (c.bind c.socket) 0 ≡ false)
    × (below (c.listen c.socket) 0 ≡ false)

negative-is_zero : (z : ℤ) → below z 0 ≡ true → is_zero z ≡ false
negative-is_zero (pos zero) h = ground (arith, h)
negative-is_zero (pos (suc n)) h = refl
negative-is_zero (negsuc n) h = refl

-- The server listens exactly if all five calls succeed and the descriptor is not 0, and then on the
-- descriptor that `socket` gave, provided `setsockopt` fails on a negative descriptor. A failure of
-- `socket` is met only there: it ends the program as a failure of `setsockopt`.
pub start_lem :
    (c : Calls)
    → (below c.socket 0 ≡ true → is_zero (c.setsockopt c.socket) ≡ false)
    → (start c ≡ listens c.socket ↔ Succeeds c) × (below c.socket 0 ≡ true → start c ≡ no_option)
unfolding start
start_lem c fails = (
  (
    λ e. (
      elim (Bool-cases (below c.socket 0)) [
        | inl n ↦ ground (arith, e, negative-is_zero c.socket n, fails n)
        | inr p ↦ p
      ],
      ground (arith, e),
      ground (arith, e),
      ground (arith, e),
      ground (arith, e),
      ground (arith, e),
    ),
    λ h. ground (arith, h),
  ),
  λ neg. rw (negative-is_zero c.socket neg, fails neg) refl,
)
