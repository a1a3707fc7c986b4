-- ===== src/LinkMonitor/Names.antt =====
-- select/link_monitor/link_monitor.c:156-173: the name of an interface.
use linux_learn_demo_code.Base.{
  ℕ, zero, suc, ◌+◌, ◌-◌, ◌/◌, ◌%◌, ◌<◌, ◌≤◌, Option, none, some, List, [], ◌∷◌, ◌++◌, take, length,
  if◌then◌else◌, ltb, All, ◌≡◌, ◌≢◌, refl, arith, Bool, true, not, ◌&&◌, ◌==◌, Bool-cases,
  Option-cases, inl, inr,
}
use linux_learn_demo_code.Text.{c_string, c_string-nonzero, append-nonzero, take-nonzero}

-- What the kernel answers: the socket, `none` when there is none, and the bytes of the name that
-- SIOCGIFNAME gives, `none` when it fails.
pub record Naming : Type 0 where
  pub socket : Option ℕ
  pub siocgifname : Option (List ℕ)

-- "%d" of a number that is not negative and has at most `fuel` digits.
unfoldable pub decimal : ℕ → ℕ → List ℕ
decimal zero n = []
decimal (suc fuel) n =
    let front = decimal fuel (n / 10) in
    if ltb n 10 then (48 + n) ∷ [] else front ++ (48 + n % 10) ∷ []

-- The texts of the two failures.
abbrev unknown : List ℕ
unknown = b'u' ∷ b'n' ∷ b'k' ∷ b'n' ∷ b'o' ∷ b'w' ∷ b'n' ∷ []

abbrev ifindex_dash : List ℕ
ifindex_dash = b'i' ∷ b'f' ∷ b'i' ∷ b'n' ∷ b'd' ∷ b'e' ∷ b'x' ∷ b'-' ∷ []

-- `snprintf` of a text.
abbrev pub snprintf : ℕ → List ℕ → List ℕ
snprintf size bytes = take (size - 1) bytes

-- `get_interface_name` for a buffer of a size: the name, and the descriptors that it closes. An index is
-- an `int`, and so has at most ten digits.
unfoldable pub get_interface_name : Naming → ℕ → ℕ → List ℕ × List ℕ
unfolding decimal
get_interface_name k ifindex size = elim k.socket [
  | none ↦ (snprintf size unknown, [])
  | some sock ↦ elim k.siocgifname [
    | some name ↦ (take (size - 1) (c_string name), sock ∷ [])
    | none ↦ (snprintf size (ifindex_dash ++ decimal 10 ifindex), sock ∷ [])
  ]
]

digit-nonzero : (n : ℕ) → (48 + n ≢ 0)
digit-nonzero n e = omega (arith, e)

decimal-nonzero : (fuel n : ℕ) → All (λ b. b ≢ 0) (decimal fuel n)
unfolding decimal
decimal-nonzero zero n = tt
decimal-nonzero (suc fuel) n = elim (Bool-cases (ltb n 10)) [
  | inl e ↦ rw e (digit-nonzero n, tt)
  | inr e ↦ rw e (
      append-nonzero (decimal fuel (n / 10)) _ (decimal-nonzero fuel (n / 10))
        (digit-nonzero (n % 10), tt))
]

length-take : (n : ℕ) (xs : List ℕ) → length (take n xs) ≤ n
length-take zero xs = omega arith
length-take (suc n) [] = omega arith
length-take (suc n) (x ∷ xs) = omega (arith, length-take n xs)

fits : (size : ℕ) (xs : List ℕ) → 0 < size → length (take (size - 1) xs) < size
fits size xs h = omega (arith, h, length-take (size - 1) xs)

abbrev has_no_zero : List ℕ → Bool
has_no_zero [] = true
has_no_zero (b ∷ bs) = not (b == 0) && has_no_zero bs

has_no_zero-All : (bs : List ℕ) → has_no_zero bs ≡ true → All (λ b. b ≢ 0) bs
has_no_zero-All [] e = tt
has_no_zero-All (b ∷ bs) e = ground (arith, has_no_zero-All bs)

ifindex-nonzero : (n : ℕ) → All (λ b. b ≢ 0) (ifindex_dash ++ decimal 10 n)
ifindex-nonzero n =
    append-nonzero ifindex_dash (decimal 10 n) (has_no_zero-All ifindex_dash refl)
      (decimal-nonzero 10 n)

-- For a buffer that is not empty, the name that `get_interface_name` writes leaves room for the 0 that ends it
-- and holds no 0, whatever the kernel answers; and the socket that was opened is closed.
pub get_interface_name_lem :
    (k : Naming) (ifindex size : ℕ)
    → 0 < size
    → let (name, closed) = get_interface_name k ifindex size in
      (length name < size)
      × All (λ b. b ≢ 0) name
      × (closed ≡ elim k.socket [ none ↦ [] | some sock ↦ sock ∷ [] ])
unfolding get_interface_name
get_interface_name_lem k ifindex size room = elim (Option-cases k.socket) [
  | inl e ↦
      rw e (
        fits size unknown room,
        take-nonzero (size - 1) unknown (has_no_zero-All unknown refl),
        refl,
      )
  | inr (sock, e) ↦ elim (Option-cases k.siocgifname) [
    | inl e' ↦
        rw (e, e')
          (
            fits size (ifindex_dash ++ decimal 10 ifindex) room,
            take-nonzero (size - 1) _ (ifindex-nonzero ifindex),
            refl,
          )
    | inr (name, e') ↦
        rw (e, e')
          (fits size (c_string name) room, take-nonzero (size - 1) _ (c_string-nonzero name), refl)
  ]
]
