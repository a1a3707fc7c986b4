-- ===== src/Demo/Proc.antt =====
-- test-proc/proc_demo.c: a file whose text is a buffer of 1024 bytes.
use linux_learn_demo_code.Base.{
  ◌&&◌, ℕ_discrete, ℕ, zero, suc, ◌-◌, ◌≤◌, ◌<◌, Bool, true, false, not, Option, none, some, List,
  [], ◌∷◌, ◌++◌, if◌then◌else◌, ltb, ◌==◌, length, take, drop, set, get_or, replicate,
  length-append, length-set, get_or-set_self, get_or-set_ne, Bool-cases, inl, inr, ◌≡◌, refl, sym,
  ◌∙◌, ap, arith,
}
use linux_learn_demo_code.Text.{c_string}

abbrev pub buf_size : ℕ
buf_size = 1024

-- `copy_from_user` of the kernel, on the bytes that are asked for: what stands at the destination
-- afterwards, and whether all could be copied. It writes as many bytes as it is asked for at most, and
-- those bytes if it succeeds.
pub record UserMemory : Type 0 where
  pub copy_from_user : List ℕ → List ℕ × Bool
  pub within : (bytes : List ℕ) → length (copy_from_user bytes).0 ≤ length bytes
  pub exact : (bytes : List ℕ) → (copy_from_user bytes).1 ≡ true → (copy_from_user bytes).0 ≡ bytes

-- The bytes of a store at the start of the buffer.
abbrev pub put : List ℕ → List ℕ → List ℕ
put bytes buffer = bytes ++ drop (length bytes) buffer

-- `proc_write` on the bytes that the caller gives: the count returned, `none` for -EFAULT, and
-- `kernel_buffer`.
unfoldable pub proc_write : UserMemory → List ℕ → List ℕ → Option ℕ × List ℕ
proc_write u buf kernel_buffer =
    let len = if ltb (length buf) buf_size then length buf else buf_size - 1 in
    let (copied, good) = u.copy_from_user (take len buf) in
    let written = put copied kernel_buffer in
    if not good then (none, written) else (some len, set written len 0)

-- `proc_show`: the text behind "Message from kernel: ".
unfoldable pub proc_show : List ℕ → List ℕ
unfolding c_string
proc_show kernel_buffer = c_string kernel_buffer

-- "Hello from /proc/proc_demo/status!" and its byte 0.
abbrev pub greeting : List ℕ
greeting =
    b'H' ∷ b'e' ∷ b'l' ∷ b'l' ∷ b'o' ∷ b' ' ∷ b'f' ∷ b'r' ∷ b'o' ∷ b'm' ∷ b' ' ∷ b'/' ∷ b'p' ∷ b'r'
    ∷ b'o' ∷ b'c' ∷ b'/' ∷ b'p' ∷ b'r' ∷ b'o' ∷ b'c' ∷ b'_' ∷ b'd' ∷ b'e' ∷ b'm' ∷ b'o' ∷ b'/'
    ∷ b's' ∷ b't' ∷ b'a' ∷ b't' ∷ b'u' ∷ b's' ∷ b'!' ∷ 0 ∷ []

-- `proc_demo_init` with whether the directory and the file can be made, from the buffer that the loader
-- cleared: the error, 12 for ENOMEM, how many entries of /proc are left, and the buffer.
unfoldable pub proc_demo_init : Bool → Bool → ℕ × ℕ × List ℕ
proc_demo_init dir file =
    let cleared : List ℕ = replicate buf_size 0 in
    if not dir
    then (12, 0, cleared)
    else if not file
    then (12, 0, cleared)
    else (0, 2, put greeting cleared)

-- The buffer is whole, and its last byte is 0.
pub record IsEnded (buffer : List ℕ) : Type 0 where
  pub whole : length buffer ≡ buf_size
  pub last : get_or buffer (buf_size - 1) 0 ≡ 0

length-drop : (n : ℕ) (xs : List ℕ) → length (drop n xs) ≡ length xs - n
length-drop zero xs = omega arith
length-drop (suc n) [] = omega arith
length-drop (suc n) (x ∷ xs) = omega (arith, length-drop n xs)

length-take-le : (n : ℕ) (xs : List ℕ) → length (take n xs) ≤ n
length-take-le zero xs = omega arith
length-take-le (suc n) [] = omega arith
length-take-le (suc n) (x ∷ xs) = omega (arith, length-take-le n xs)

length-put :
    (bytes buffer : List ℕ)
    → length bytes ≤ length buffer
    → length (put bytes buffer) ≡ length buffer
length-put bytes buffer le =
    omega (
      arith,
      length-append {0} bytes (drop (length bytes) buffer),
      length-drop (length bytes) buffer,
    )

-- A byte behind those that are stored stays.
get_or-put :
    (bytes buffer : List ℕ) (i : ℕ)
    → length bytes ≤ i
    → length bytes ≤ length buffer
    → get_or (put bytes buffer) i 0 ≡ get_or buffer i 0
get_or-put [] buffer i le fits = refl
get_or-put (b ∷ bytes) [] i le fits = absurd (omega (arith, fits))
get_or-put (b ∷ bytes) (x ∷ buffer) zero le fits = absurd (omega (arith, le))
get_or-put (b ∷ bytes) (x ∷ buffer) (suc i) le fits =
    get_or-put bytes buffer i (omega (arith, le)) (omega (arith, fits))

put-IsEnded :
    (bytes buffer : List ℕ)
    → length bytes ≤ buf_size - 1
    → IsEnded buffer
    → IsEnded (put bytes buffer)
put-IsEnded bytes buffer le v = record {
  whole = length-put bytes buffer (omega (arith, le, v.whole)) ∙ v.whole;
  last = get_or-put bytes buffer (buf_size - 1) le (omega (arith, le, v.whole)) ∙ v.last;
}

set-IsEnded : (i : ℕ) (buffer : List ℕ) → IsEnded buffer → IsEnded (set buffer i 0)
set-IsEnded i buffer v = record {
  whole = length-set buffer i 0 ∙ v.whole;
  last = elim (ℕ_discrete i (buf_size - 1)) [
    | yes e ↦ rw e (get_or-set_self buffer (buf_size - 1) 0 0 (omega (arith, v.whole)))
    | no n ↦ get_or-set_ne buffer i (buf_size - 1) 0 0 n ∙ v.last
  ];
}

-- How many bytes `proc_write` takes of those that it is given.
abbrev pub accepted : List ℕ → ℕ
accepted buf = if ltb (length buf) buf_size then length buf else buf_size - 1

accepted-le : (buf : List ℕ) → (accepted buf ≤ buf_size - 1) × (accepted buf ≤ length buf)
accepted-le buf = ground arith

-- Whatever is written and however much of it can be copied, the buffer stays whole and ends in a 0, so
-- that reading the file never leaves it.
pub proc_write-IsEnded :
    (u : UserMemory) (buf buffer : List ℕ) → IsEnded buffer → IsEnded (proc_write u buf buffer).1
unfolding proc_write
proc_write-IsEnded u buf buffer v =
    elim (Bool-cases (u.copy_from_user (take (accepted buf) buf)).1) [
      | inl good ↦ rw (proc_write, good) (set-IsEnded (accepted buf) _ stored)
      | inr bad ↦ rw (proc_write, bad) stored
    ]
  where
    stored : IsEnded (put (u.copy_from_user (take (accepted buf) buf)).0 buffer)
    stored =
        put-IsEnded (u.copy_from_user (take (accepted buf) buf)).0 buffer
          (omega (
            arith,
            u.within (take (accepted buf) buf),
            length-take-le (accepted buf) buf,
            accepted-le buf,
          ))
          v

c_string-set :
    (xs ys : List ℕ)
    → length xs < length (xs ++ ys)
    → c_string (set (xs ++ ys) (length xs) 0) ≡ c_string xs
unfolding c_string
c_string-set [] [] lt = absurd (omega (arith, lt))
c_string-set [] (y ∷ ys) lt = refl
c_string-set (x ∷ xs) ys lt =
    ap (λ t. if x == 0 then [] else x ∷ t) (c_string-set xs ys (omega (arith, lt)))

length-take : (n : ℕ) (xs : List ℕ) → n ≤ length xs → length (take n xs) ≡ n
length-take zero xs le = refl
length-take (suc n) [] le = absurd (omega (arith, le))
length-take (suc n) (x ∷ xs) le = ap suc (length-take n xs (omega (arith, le)))

written :
    (u : UserMemory) (buf buffer : List ℕ)
    → (u.copy_from_user (take (accepted buf) buf)).1 ≡ true
    → IsEnded buffer
    → ((proc_write u buf buffer).0 ≡ some (accepted buf))
      × (proc_show (proc_write u buf buffer).1 ≡ c_string (take (accepted buf) buf))
unfolding proc_write proc_show
written u buf buffer good v =
    (rw (proc_write, good), rw (proc_write, good, u.exact (take (accepted buf) buf) good) shown)
  where
    chunk : List ℕ
    chunk = take (accepted buf) buf

    size : length chunk ≡ accepted buf
    size = length-take (accepted buf) buf (accepted-le buf).1

    shown : c_string (set (put chunk buffer) (accepted buf) 0) ≡ c_string chunk
    shown =
        ap (λ n. c_string (set (put chunk buffer) n 0)) (sym size)
        ∙ c_string-set chunk (drop (length chunk) buffer) (
            omega (
              arith,
              length-put chunk buffer (omega (arith, size, accepted-le buf, v.whole)),
              size,
              accepted-le buf,
              v.whole,
            ))

-- If all can be copied, a write takes its bytes up to 1023 of them and returns how many, and the file
-- then shows them up to the first 0. A caller that goes on with the rest, as write(2) wants it,
-- overwrites them: the file shows only the rest.
pub proc_write_lem :
    (u : UserMemory) (buf buffer : List ℕ)
    → ((bytes : List ℕ) → (u.copy_from_user bytes).1 ≡ true)
    → IsEnded buffer
    → let first = proc_write u buf buffer in
      let rest = drop (accepted buf) buf in
      (first.0 ≡ some (accepted buf))
      × (proc_show first.1 ≡ c_string (take (accepted buf) buf))
      × (proc_show (proc_write u rest first.1).1 ≡ c_string (take (accepted rest) rest))
proc_write_lem u buf buffer good v =
    let one = written u buf buffer (good _) v in
    (
      one.0,
      one.1,
      (written u (drop (accepted buf) buf) _ (good _) (proc_write-IsEnded u buf buffer v)).1,
    )

-- Loading that succeeds leaves such a buffer and the text of the greeting in it; loading that fails
-- leaves no entry.
pub proc_demo_init_lem :
    (dir file : Bool)
    → let (ret, entries, buffer) = proc_demo_init dir file in
      IsEnded buffer × ((ret == 0) ≡ (dir && file)) × (entries ≡ (if dir && file then 2 else 0))
unfolding proc_demo_init
proc_demo_init_lem false file = (record { whole = refl; last = refl }, refl, refl)
proc_demo_init_lem true false = (record { whole = refl; last = refl }, refl, refl)
proc_demo_init_lem true true = (record { whole = refl; last = refl }, refl, refl)
