-- ===== src/Text.antt =====
-- Byte strings as the C programs use them, without the byte 0 that ends them.
use linux_learn_demo_code.Base.{
  ℕ, zero, suc, Bool, true, false, ◌&&◌, List, [], ◌∷◌, ◌++◌, take, if◌then◌else◌, ◌==◌, ◌≡◌, refl,
  ◌≢◌, All, arith,
}

-- `strlen`: the bytes before the first 0.
unfoldable pub c_string : List ℕ → List ℕ
c_string [] = []
c_string (b ∷ bs) = if b == 0 then [] else b ∷ c_string bs

-- `buffer[strcspn(buffer, "\n")] = 0`.
unfoldable pub chop : List ℕ → List ℕ
chop [] = []
chop (b ∷ bs) = if b == 10 then [] else b ∷ chop bs

-- `strcmp(a, b) == 0`.
unfoldable pub same_text : List ℕ → List ℕ → Bool
same_text [] [] = true
same_text (a ∷ as') (b ∷ bs) = (a == b) && same_text as' bs
same_text _ _ = false

-- A chopped line holds no newline.
pub chop-All : (bs : List ℕ) → All (λ b. b ≢ 10) (chop bs)
unfolding chop
chop-All [] = tt
chop-All (b ∷ bs) = ground (arith, chop-All bs)

-- A text without a 0 is all of itself, and a line without a newline too.
pub c_string-All : (bs : List ℕ) → All (λ b. b ≢ 0) bs → c_string bs ≡ bs
unfolding c_string
c_string-All [] a = refl
c_string-All (b ∷ bs) a = ground (arith, c_string-All bs a.1)

pub chop-same : (bs : List ℕ) → All (λ b. b ≢ 10) bs → chop bs ≡ bs
unfolding chop
chop-same [] a = refl
chop-same (b ∷ bs) a = ground (arith, chop-same bs a.1)

pub c_string-nonzero : (bs : List ℕ) → All (λ b. b ≢ 0) (c_string bs)
unfolding c_string
c_string-nonzero [] = tt
c_string-nonzero (b ∷ bs) = ground (arith, c_string-nonzero bs)

pub chop-nonzero : (bs : List ℕ) → All (λ b. b ≢ 0) bs → All (λ b. b ≢ 0) (chop bs)
unfolding chop
chop-nonzero [] a = tt
chop-nonzero (b ∷ bs) a = ground (arith, chop-nonzero bs a.1)

pub append-nonzero :
    (xs ys : List ℕ) → All (λ b. b ≢ 0) xs → All (λ b. b ≢ 0) ys → All (λ b. b ≢ 0) (xs ++ ys)
append-nonzero [] ys a c = c
append-nonzero (x ∷ xs) ys a c = (a.0, append-nonzero xs ys a.1 c)

pub take-nonzero : (n : ℕ) (xs : List ℕ) → All (λ b. b ≢ 0) xs → All (λ b. b ≢ 0) (take n xs)
take-nonzero zero xs a = tt
take-nonzero (suc n) [] a = tt
take-nonzero (suc n) (x ∷ xs) a = (a.0, take-nonzero n xs a.1)
