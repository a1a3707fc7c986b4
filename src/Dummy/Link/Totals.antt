-- ===== src/Dummy/Link/Totals.antt =====
-- The lengths of some frames, added up.
use linux_learn_demo_code.Base.{
  ℕ, ◌+◌, true, Option, none, some, List, [], ◌∷◌, ◌++◌, ltb, length, ◌≡◌, refl, inl, inr, ◌⊎◌,
  arith,
}
use linux_learn_demo_code.Dummy.Ethernet.{Checksums, reply, arp_reply, icmp_reply}

-- The bytes of some frames.
abbrev pub total : List (List ℕ) → ℕ
total [] = 0
total (f ∷ fs) = total fs + length f

abbrev pub answer_to : Option (List ℕ) → List (List ℕ) → List (List ℕ)
answer_to none fs = fs
answer_to (some f) fs = f ∷ fs

-- The lengths of the frames of some skbs, added up.
abbrev pub octets : (ℕ → List ℕ) → List ℕ → ℕ
octets frame_of [] = 0
octets frame_of (skb ∷ skbs) = octets frame_of skbs + length (frame_of skb)

pub short-reply :
    (k : Checksums) (frame : List ℕ) → ltb (length frame) 14 ≡ true → reply k frame ≡ none
unfolding reply
short-reply k frame short =
    rw (short-arp frame (ground arith), short-icmp k frame (ground arith)) (ground arith)
  where
    short-arp : (frame : List ℕ) → ltb (length frame) 42 ≡ true → arp_reply frame ≡ none
    short-arp frame short = unfold arp_reply in rw short

    short-icmp :
        (k : Checksums) (frame : List ℕ) → ltb (length frame) 34 ≡ true → icmp_reply k frame ≡ none
    short-icmp k frame short = unfold icmp_reply in rw short

pub total-snoc : (fs : List (List ℕ)) (f : List ℕ) → total (fs ++ f ∷ []) ≡ total fs + length f
total-snoc [] f = refl
total-snoc (g ∷ fs) f = omega (arith, total-snoc fs f)

pub length-snoc : {A : Type 0} (xs : List A) (x : A) → length (xs ++ x ∷ []) ≡ length xs + 1
length-snoc {A} [] x = refl
length-snoc {A} (y ∷ xs) x = omega (arith, length-snoc xs x)

pub queue-cases : (q : List ℕ) → (q ≡ []) ⊎ ((skb : ℕ) × (rest : List ℕ) × (q ≡ skb ∷ rest))
queue-cases [] = inl refl
queue-cases (skb ∷ rest) = inr (skb, rest, refl)
