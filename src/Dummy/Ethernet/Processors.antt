-- ===== src/Dummy/Ethernet/Processors.antt =====
-- The counters of the ethernet device, one set for each processor: their sums are those of one set that
-- counts everything.
use linux_learn_demo_code.Base.{
  ℕ, zero, suc, ◌+◌, ◌%◌, ◌^◌, ◌<◌, Bool, List, [], ◌∷◌, length, ltb, add_ulong, All, ◌≡◌, refl,
  sym, ◌∙◌, ap, arith, Bool-cases, Option-cases, inl, inr, ◌⊎◌, subst,
}
use native.Mathlib.Nat.{mod-add-mod}
use linux_learn_demo_code.Dummy.Ethernet.{Dstats, Checksums, reply, eth_rx, count_tx, get_stats64}

-- What a processor counts: an skb of a length that is sent, or an answer to a frame, with whether its device is set.
pub data Traffic : Type 0 where
  sends : ℕ → Traffic
  reflects : Bool → List ℕ → Traffic

unfoldable pub count : Checksums → Traffic → Dstats → Dstats
count k (sends len) s = count_tx len s
count k (reflects has_dev frame) s = (eth_rx k has_dev frame s).1

-- The counters of a processor given anew.
abbrev pub on_cpu : (Dstats → Dstats) → ℕ → List Dstats → List Dstats
on_cpu f i [] = []
on_cpu f zero (s ∷ more) = f s ∷ more
on_cpu f (suc i) (s ∷ more) = s ∷ on_cpu f i more

-- Traffic on some processors.
unfoldable pub count_all : Checksums → List (ℕ × Traffic) → List Dstats → List Dstats
count_all k [] ds = ds
count_all k ((i, t) ∷ more) ds = count_all k more (on_cpu (count k t) i ds)

-- The same on one set of counters.
unfoldable pub count_once : Checksums → List (ℕ × Traffic) → Dstats → Dstats
count_once k [] s = s
count_once k ((i, t) ∷ more) s = count_once k more (count k t s)

-- The body of the loop of `dummy_get_stats64`.
abbrev plus : Dstats → Dstats → Dstats
plus z s = record {
  rx_packets = add_ulong z.rx_packets s.rx_packets;
  rx_bytes = add_ulong z.rx_bytes s.rx_bytes;
  tx_packets = add_ulong z.tx_packets s.tx_packets;
  tx_bytes = add_ulong z.tx_bytes s.tx_bytes;
}

-- Counting on either side of a sum counts on the sum.
record Additive (f : Dstats → Dstats) : Type 0 where
  left : (z s : Dstats) → plus (f z) s ≡ f (plus z s)
  right : (z s : Dstats) → plus z (f s) ≡ f (plus z s)

add_left : (a b n : ℕ) → add_ulong (add_ulong a n) b ≡ add_ulong (add_ulong a b) n
add_left a b n =
    mod-add-mod (a + n) (2 ^ 64) b
    ∙ ap (λ k. k % 2 ^ 64) (omega arith)
    ∙ sym (mod-add-mod (a + b) (2 ^ 64) n)

add_right : (a b n : ℕ) → add_ulong a (add_ulong b n) ≡ add_ulong (add_ulong a b) n
add_right a b n =
    ap (λ k. k % 2 ^ 64) (omega arith)
    ∙ mod-add-mod (b + n) (2 ^ 64) a
    ∙ ap (λ k. k % 2 ^ 64) (omega arith)
    ∙ sym (mod-add-mod (a + b) (2 ^ 64) n)

Dstats-eq :
    {a b c d a' b' c' d' : ℕ}
    → a ≡ a'
    → b ≡ b'
    → c ≡ c'
    → d ≡ d'
    → ◌≡◌ {A = Dstats}
        (record { rx_packets = a; rx_bytes = b; tx_packets = c; tx_bytes = d })
        (record { rx_packets = a'; rx_bytes = b'; tx_packets = c'; tx_bytes = d' })
Dstats-eq p q r s =
    λ i. record { rx_packets = p i; rx_bytes = q i; tx_packets = r i; tx_bytes = s i }

sends-Additive : (k : Checksums) (len : ℕ) → Additive (count k (sends len))
unfolding count count_tx
sends-Additive k len = record {
  left = λ z s.
      Dstats-eq refl refl (add_left z.tx_packets s.tx_packets 1)
        (add_left z.tx_bytes s.tx_bytes len);
  right = λ z s.
      Dstats-eq refl refl (add_right z.tx_packets s.tx_packets 1)
        (add_right z.tx_bytes s.tx_bytes len);
}

same-Additive : Additive (λ s. s)
same-Additive = record { left = λ z s. refl; right = λ z s. refl }

-- An answer adds to the counters of the receiver or leaves all of them.
adds : ℕ → Dstats → Dstats
adds len s = record s { rx_packets = add_ulong s.rx_packets 1; rx_bytes = add_ulong s.rx_bytes len }

adds-Additive : (len : ℕ) → Additive (adds len)
unfolding adds
adds-Additive len = record {
  left = λ z s.
      Dstats-eq (add_left z.rx_packets s.rx_packets 1) (add_left z.rx_bytes s.rx_bytes len) refl
        refl;
  right = λ z s.
      Dstats-eq (add_right z.rx_packets s.rx_packets 1) (add_right z.rx_bytes s.rx_bytes len) refl
        refl;
}

eth_rx-adds :
    (k : Checksums) (has_dev : Bool) (frame : List ℕ)
    → ((s : Dstats) → (eth_rx k has_dev frame s).1 ≡ s)
      ⊎ ((len : ℕ) × ((s : Dstats) → (eth_rx k has_dev frame s).1 ≡ adds len s))
unfolding eth_rx adds
eth_rx-adds k has_dev frame = elim (Bool-cases (ltb (length frame) 14)) [
  | inl short ↦ inl (λ s. rw (eth_rx, short) refl)
  | inr long ↦ elim (Option-cases (reply k frame)) [
    | inl e ↦ inl (λ s. rw (eth_rx, long, e) refl)
    | inr (f, e) ↦ elim (Bool-cases has_dev) [
      | inl on ↦ inr (length f, λ s. rw (eth_rx, long, e, on) refl)
      | inr off ↦ inl (λ s. rw (eth_rx, long, e, off) refl)
    ]
  ]
]

Additive-same : (f g : Dstats → Dstats) → Additive g → ((s : Dstats) → f s ≡ g s) → Additive f
Additive-same f g a e = subst Additive (λ i s. sym (e s) i) a

count-Additive : (k : Checksums) (t : Traffic) → Additive (count k t)
unfolding count
count-Additive k (sends len) = sends-Additive k len
count-Additive k (reflects has_dev frame) = elim (eth_rx-adds k has_dev frame) [
  | inl same ↦ Additive-same (count k (reflects has_dev frame)) (λ s. s) same-Additive same
  | inr (len, e) ↦ Additive-same (count k (reflects has_dev frame)) (adds len) (adds-Additive len) e
]

get_stats64-Additive :
    (f : Dstats → Dstats) (ds : List Dstats) (z : Dstats)
    → Additive f
    → get_stats64 ds (f z) ≡ f (get_stats64 ds z)
unfolding get_stats64
get_stats64-Additive f [] z a = refl
get_stats64-Additive f (s ∷ more) z a =
    ap (get_stats64 more) (a.left z s) ∙ get_stats64-Additive f more (plus z s) a

get_stats64-on_cpu :
    (f : Dstats → Dstats) (i : ℕ) (ds : List Dstats) (z : Dstats)
    → Additive f
    → i < length ds
    → get_stats64 (on_cpu f i ds) z ≡ f (get_stats64 ds z)
unfolding get_stats64
get_stats64-on_cpu f i [] z a lt = absurd (omega arith)
get_stats64-on_cpu f zero (s ∷ more) z a lt =
    ap (get_stats64 more) (a.right z s) ∙ get_stats64-Additive f more (plus z s) a
get_stats64-on_cpu f (suc i) (s ∷ more) z a lt =
    get_stats64-on_cpu f i more (plus z s) a (omega arith)

length-on_cpu :
    (f : Dstats → Dstats) (i : ℕ) (ds : List Dstats) → length (on_cpu f i ds) ≡ length ds
length-on_cpu f i [] = refl
length-on_cpu f zero (s ∷ more) = refl
length-on_cpu f (suc i) (s ∷ more) = ap suc (length-on_cpu f i more)

All-on_cpu :
    (f : Dstats → Dstats) (i : ℕ) (ds : List Dstats) (es : List (ℕ × Traffic))
    → All (λ e. e.0 < length ds) es
    → All (λ e. e.0 < length (on_cpu f i ds)) es
All-on_cpu f i ds [] h = tt
All-on_cpu f i ds (e ∷ es) h = (omega (arith, h.0, length-on_cpu f i ds), All-on_cpu f i ds es h.1)

-- Whichever processors do what, in any order, `dummy_get_stats64` gives what one set of counters would
-- hold that had counted all of it: on top of the counters `z` that it is given, the sums over the
-- processors after some traffic are the sums before it with the traffic counted on them.
pub get_stats64-count_all :
    (k : Checksums) (es : List (ℕ × Traffic)) (ds : List Dstats) (z : Dstats)
    → All (λ e. e.0 < length ds) es
    → get_stats64 (count_all k es ds) z ≡ count_once k es (get_stats64 ds z)
unfolding count_all count_once
get_stats64-count_all k [] ds z h = refl
get_stats64-count_all k ((i, t) ∷ more) ds z h =
    get_stats64-count_all k more (on_cpu (count k t) i ds) z (All-on_cpu (count k t) i ds more h.1)
    ∙ ap (count_once k more) (get_stats64-on_cpu (count k t) i ds z (count-Additive k t) h.0)
