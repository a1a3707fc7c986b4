-- ===== src/Chat/Client/Program.antt =====
-- select/chat-server/client.c:21-29, 58-119: the program and its signal handler.
use linux_learn_demo_code.Base.{
  ℕ, zero, suc, Bool, true, false, not, ◌||◌, Option, none, some, List, [], ◌∷◌, if◌then◌else◌, ◌≡◌,
  ◌≢◌, refl, ◌⊎◌, Bool-cases, inl, inr, arith,
}
use linux_learn_demo_code.Base.Int.{ℤ, pos, negsuc, below, above}
use linux_learn_demo_code.Chat.Client.{End, by_quit, by_error, waiting, send_loop}

-- What the calls of the C library give.
pub record Calls : Type 0 where
  pub socket : ℤ
  pub inet_pton : ℤ
  pub connect : ℤ
  pub pthread_create : ℤ

-- The value that `main` returns, `none` while it waits for input; the lines that are sent, and the
-- descriptors that are closed.
pub record Run : Type 0 where
  pub result : Option ℤ
  pub lines : List (List ℕ)
  pub closed : List ℤ

abbrev pub failed : List ℤ → Run
failed fds = record { result = some (negsuc 0); lines = []; closed = fds }

-- The end of `main`, after its loop.
unfoldable pub finish : ℤ → List (List ℕ) × End → Run
finish sock (lines, waiting) = record { result = none; lines = lines; closed = [] }
finish sock (lines, by_quit) = record { result = some (pos 0); lines = lines; closed = sock ∷ [] }
finish sock (lines, by_error) = record { result = some (pos 0); lines = lines; closed = sock ∷ [] }

-- `main`, on what is typed, as in `send_loop`.
unfoldable pub main : Calls → List (List ℕ × Bool) → Run
unfolding finish
main c input =
    if below c.socket 0
    then failed []
    else if not (above c.inet_pton 0)
    then failed []
    else if below c.connect 0
    then failed []
    else if above c.pthread_create 0 || below c.pthread_create 0
    then failed (c.socket ∷ [])
    else finish c.socket (send_loop input)

-- `sigint_handler`: the descriptors that it closes before the program exits with 0.
unfoldable pub sigint_handler : ℤ → List ℤ
sigint_handler sock = if above sock 0 then sock ∷ [] else []

-- All calls succeed.
abbrev pub IsConnected : Calls → Type 0
IsConnected c =
    (below c.socket 0 ≡ false)
    × (above c.inet_pton 0 ≡ true)
    × (below c.connect 0 ≡ false)
    × (c.pthread_create ≡ pos 0)

finish-End :
    (sock : ℤ) (r : List (List ℕ) × End)
    → ((finish sock r).lines ≡ r.0)
      × (((r.1 ≡ waiting) × ((finish sock r).result ≡ none) × ((finish sock r).closed ≡ []))
          ⊎ ((r.1 ≢ waiting)
              × ((finish sock r).result ≡ some (pos 0))
              × ((finish sock r).closed ≡ sock ∷ [])))
unfolding finish
finish-End sock (lines, waiting) = (refl, inl (refl, refl, refl))
finish-End sock (lines, by_quit) = (refl, inr ((λ e. cc), refl, refl))
finish-End sock (lines, by_error) = (refl, inr ((λ e. cc), refl, refl))

-- Some call before that of `pthread_create` fails.
abbrev pub too_early : Calls → Bool
too_early c = below c.socket 0 || (not (above c.inet_pton 0) || below c.connect 0)

zero-cases : (z : ℤ) → (z ≡ pos 0) ⊎ ((z ≢ pos 0) × ((above z 0 || below z 0) ≡ true))
zero-cases (pos zero) = inl refl
zero-cases (pos (suc n)) = inr ((λ e. cc), ground arith)
zero-cases (negsuc n) = inr ((λ e. cc), refl)

main-too_early :
    (c : Calls) (input : List (List ℕ × Bool)) → too_early c ≡ true → main c input ≡ failed []
unfolding main
main-too_early c input e = ground (arith, e)

main-connected :
    (c : Calls) (input : List (List ℕ × Bool))
    → too_early c ≡ false
    → (above c.pthread_create 0 || below c.pthread_create 0) ≡ false
    → main c input ≡ finish c.socket (send_loop input)
unfolding main
main-connected c input e t = ground (arith, e, t)

main-no_thread :
    (c : Calls) (input : List (List ℕ × Bool))
    → too_early c ≡ false
    → (above c.pthread_create 0 || below c.pthread_create 0) ≡ true
    → main c input ≡ failed (c.socket ∷ [])
unfolding main
main-no_thread c input e t = ground (arith, e, t)

-- If the calls of the C library succeed, the program sends the lines that the loop sends; it waits if the
-- loop does, and else it returns 0 with its socket closed, once. If one of them fails it returns -1
-- and sends nothing, and its socket is closed only if it was the thread that failed.
pub main-runs :
    (c : Calls) (input : List (List ℕ × Bool))
    → (IsConnected c
        × ((main c input).lines ≡ (send_loop input).0)
        × ((((send_loop input).1 ≡ waiting)
              × ((main c input).result ≡ none)
              × ((main c input).closed ≡ []))
            ⊎ (((send_loop input).1 ≢ waiting)
                × ((main c input).result ≡ some (pos 0))
                × ((main c input).closed ≡ c.socket ∷ []))))
      ⊎ ((¬ IsConnected c) × (main c input ≡ failed (if too_early c then [] else c.socket ∷ [])))
main-runs c input = elim (Bool-cases (too_early c)) [
  | inl e ↦ inr ((λ h. ground (arith, e, h.0, h.1, h.2)), rw e (main-too_early c input e))
  | inr e ↦ elim (zero-cases c.pthread_create) [
    | inl z ↦ inl (
      (ground (arith, e), ground (arith, e), ground (arith, e), z),
      rw (main-connected c input e (rw z refl)) (finish-End c.socket (send_loop input)).0,
      rw (main-connected c input e (rw z refl)) (finish-End c.socket (send_loop input)).1,
    )
    | inr (nz, t) ↦ inr ((λ h. nz h.3), rw e (main-no_thread c input e t))
  ]
]
