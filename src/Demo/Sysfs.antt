-- ===== src/Demo/Sysfs.antt =====
-- sysfs/sysfs_demo.c: a file whose text is a number.
use linux_learn_demo_code.Base.{
  is_none, ℕ, Bool, true, false, not, Option, none, some, List, if◌then◌else◌, ◌==◌, length, ◌≡◌,
  refl, ap,
}
use linux_learn_demo_code.Base.Int.{ℤ}

-- `sprintf` with "%d\n" and `kstrtoint` with the base 10, of the kernel. `kstrtoint` gives the number of
-- a text, or an error, and reads back what `sprintf` writes.
pub record Numbers : Type 0 where
  pub sprintf : ℤ → List ℕ
  pub kstrtoint : List ℕ → Option ℤ
  pub reads_back : (n : ℤ) → kstrtoint (sprintf n) ≡ some n

-- `foo_show`: the text.
unfoldable pub foo_show : Numbers → ℤ → List ℕ
foo_show k foo = k.sprintf foo

-- `foo_store`: the count returned, `none` for an error, and `foo`.
unfoldable pub foo_store : Numbers → List ℕ → ℤ → Option ℕ × ℤ
foo_store k buf foo = elim (k.kstrtoint buf) [
  | none ↦ (none, foo)
  | some n ↦ (some (length buf), n)
]

-- What loading comes to: the error, whether the directory is there, and whether the log says that the
-- module is loaded.
pub record Loaded : Type 0 where
  pub ret : ℕ
  pub directory : Bool
  pub says_loaded : Bool

-- `sysfs_demo_init` with whether the directory can be made and with what `sysfs_create_group` returns, 0
-- for success; 12 is ENOMEM.
unfoldable pub sysfs_demo_init : Bool → ℕ → Loaded
sysfs_demo_init kobj ret =
    if not kobj
    then record { ret = 12; directory = false; says_loaded = false }
    else record { ret = ret; directory = ret == 0; says_loaded = true }

-- The file shows the number that was stored last: a text that is the number's own is taken whole and
-- shown again, and a text that is no number changes nothing and is an error.
pub foo_store_lem :
    (k : Numbers) (buf : List ℕ) (n foo : ℤ)
    → (foo_store k (foo_show k n) foo ≡ (some (length (foo_show k n)), n))
      × (foo_show k (foo_store k (foo_show k n) foo).1 ≡ foo_show k n)
      × (is_none (foo_store k buf foo).0 ≡ is_none (k.kstrtoint buf))
      × ((if is_none (foo_store k buf foo).0 then (foo_store k buf foo).1 else foo) ≡ foo)
unfolding foo_store foo_show
foo_store_lem k buf n foo =
    let e : foo_store k (k.sprintf n) foo ≡ (some (length (k.sprintf n)), n) =
      rw (foo_store, k.reads_back n) in
    let (a, b) = rejected (k.kstrtoint buf) refl in
    (e, ap (λ (r : Option ℕ × ℤ). k.sprintf r.1) e, a, b)
  where
    rejected :
        (o : Option ℤ)
        → k.kstrtoint buf ≡ o
        → (is_none (foo_store k buf foo).0 ≡ is_none (k.kstrtoint buf))
          × ((if is_none (foo_store k buf foo).0 then (foo_store k buf foo).1 else foo) ≡ foo)
    rejected none e = (rw (foo_store, e), rw (foo_store, e))
    rejected (some m) e = (rw (foo_store, e), rw (foo_store, e))
