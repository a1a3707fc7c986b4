-- ===== src/Demo/Life.antt =====
-- test-proc/proc_demo.c and sysfs/sysfs_demo.c from loading to unloading.
use linux_learn_demo_code.Base.{
  zero, suc, ℕ, Bool, true, false, List, [], ◌∷◌, if◌then◌else◌, ◌==◌, length, get_or, ◌-◌, ◌<◌,
  ◌≡◌, refl, arith,
}
use linux_learn_demo_code.Text.{c_string}
use linux_learn_demo_code.Demo.Proc.{
  buf_size, UserMemory, IsEnded, proc_write, proc_show, proc_write-IsEnded, proc_demo_init,
  proc_demo_init_lem,
}
use linux_learn_demo_code.Demo.Sysfs.{Loaded, sysfs_demo_init}

-- What the kernel does with the file: it writes some bytes, which can be copied as the memory of the
-- writer says, or it reads the text.
pub data Access : Type 0 where
  writes : UserMemory → List ℕ → Access
  reads : Access

-- The texts that the reads show, in order, and the buffer at the end.
unfoldable pub accesses : List Access → List ℕ → List (List ℕ) × List ℕ
accesses [] buffer = ([], buffer)
accesses (writes u buf ∷ more) buffer = accesses more (proc_write u buf buffer).1
accesses (reads ∷ more) buffer =
    let (texts, last) = accesses more buffer in (proc_show buffer ∷ texts, last)

-- `proc_demo_exit`: `remove_proc_subtree` leaves none of the entries of the module.
unfoldable pub proc_demo_exit : ℕ → ℕ
proc_demo_exit entries = 0

-- `sysfs_demo_exit`: the last reference to the directory is given up.
unfoldable pub sysfs_demo_exit : Loaded → Loaded
sysfs_demo_exit l = record l { directory = false }

abbrev pub Texts : List (List ℕ) → Type 0
Texts [] = Unit
Texts (t ∷ ts) = (length t < buf_size) × Texts ts

short_string :
    (xs : List ℕ) (i : ℕ) → i < length xs → get_or xs i 0 ≡ 0 → length (c_string xs) < length xs
unfolding c_string
short_string [] i lt e = absurd (omega (arith, lt))
short_string (x ∷ xs) zero lt e = ground arith
short_string (x ∷ xs) (suc i) lt e = ground (arith, short_string xs i (omega (arith, lt)) e)

shown_short : (buffer : List ℕ) → IsEnded buffer → length (proc_show buffer) < buf_size
unfolding proc_show
shown_short buffer v =
    omega (arith, short_string buffer (buf_size - 1) (omega (arith, v.whole)) v.last, v.whole)

accesses-Texts :
    (more : List Access) (buffer : List ℕ)
    → IsEnded buffer
    → Texts (accesses more buffer).0 × IsEnded (accesses more buffer).1
unfolding accesses
accesses-Texts [] buffer v = (tt, v)
accesses-Texts (writes u buf ∷ more) buffer v =
    accesses-Texts more (proc_write u buf buffer).1 (proc_write-IsEnded u buf buffer v)
accesses-Texts (reads ∷ more) buffer v =
    let r = accesses-Texts more buffer v in ((shown_short buffer v, r.0), r.1)

-- From loading on, whatever is written and read, in any order, and however much of each write can be
-- copied: the buffer keeps its 1024 bytes and its last one is 0, and every text that is read has fewer than
-- 1024 bytes, so that reading never leaves the buffer.
pub loaded-accesses :
    (dir file : Bool) (more : List Access)
    → let r = accesses more (proc_demo_init dir file).2 in Texts r.0 × IsEnded r.1
loaded-accesses dir file more =
    accesses-Texts more (proc_demo_init dir file).2 (proc_demo_init_lem dir file).0

-- After unloading none of the two modules leaves an entry, and neither does one that fails to load.
pub exit-leaves_nothing :
    (dir file kobj : Bool) (ret : ℕ)
    → (proc_demo_exit (proc_demo_init dir file).1 ≡ 0)
      × ((sysfs_demo_exit (sysfs_demo_init kobj ret)).directory ≡ false)
      × ((if (sysfs_demo_init kobj ret).ret == 0
            then false
            else (sysfs_demo_init kobj ret).directory)
          ≡ false)
unfolding proc_demo_exit sysfs_demo_exit sysfs_demo_init
exit-leaves_nothing dir file false ret = (refl, refl, refl)
exit-leaves_nothing dir file true ret = (refl, refl, ground arith)
