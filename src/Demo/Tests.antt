-- ===== src/Demo/Tests.antt =====
-- The theorems on the two demos at concrete texts.
use linux_learn_demo_code.Base.{
  ℕ, true, some, List, [], ◌∷◌, replicate, length, ◌≤◌, ◌≡◌, refl, arith,
}
use linux_learn_demo_code.Text.{c_string}
use linux_learn_demo_code.Demo.Proc.{
  proc_demo_init, IsEnded, UserMemory, proc_write, proc_show, proc_write_lem,
}
use linux_learn_demo_code.Demo.Life.{accesses, writes, reads, Texts, loaded-accesses}

same_length : (bytes : List ℕ) → length bytes ≤ length bytes
same_length bytes = omega arith

-- Memory that can be copied.
abbrev readable : UserMemory
readable = record {
  copy_from_user = λ bytes. (bytes, true);
  within = same_length;
  exact = λ bytes e. refl;
}

abbrev hi : List ℕ
hi = b'h' ∷ b'i' ∷ []

proc_write_lem_example :
    let first = proc_write readable hi (replicate 1024 0) in
    (first.0 ≡ some 2)
    × (proc_show first.1 ≡ c_string hi)
    × (proc_show (proc_write readable [] first.1).1 ≡ c_string [])
proc_write_lem_example =
    proc_write_lem readable hi (replicate 1024 0) (λ bytes. refl)
      (record { whole = refl; last = refl })

-- Two reads around a write.
loaded-accesses_example :
    let r = accesses (reads ∷ writes readable hi ∷ reads ∷ []) (proc_demo_init true true).2 in
    Texts r.0 × IsEnded r.1
loaded-accesses_example = loaded-accesses true true (reads ∷ writes readable hi ∷ reads ∷ [])
