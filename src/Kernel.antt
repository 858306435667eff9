-- ===== src/Kernel.antt =====
-- What super.c asks of the kernel, as a parameter, and the monad of its functions: they return 0
-- with their results written, or an error, and take and give back counted resources.
use chunkfs.Base.{ℕ, ◌+◌, ◌-◌, Bool, true, false, Option, none, some, List, if◌then◌else◌}

-- Error numbers, as the positive `e` of a returned `-e`.
abbrev pub enoent : ℕ
enoent = 2

abbrev pub eio : ℕ
eio = 5

abbrev pub enomem : ℕ
enomem = 12

abbrev pub einval : ℕ
einval = 22

-- A `struct path`: the mount that it lies in, and that mount's superblock.
pub record Mnt : Type 0 where
  pub mnt : ℕ
  pub mnt_sb : ℕ

pub data Lookup : Type 0 where
  found : Mnt → Lookup
  refused : ℕ → Lookup

-- The answers of the kernel: `sb_bread` on a block number, `kern_path` on a path, the `n`-th
-- `kzalloc`, and `sb_set_blocksize`.
pub record Env : Type 0 where
  pub bread : ℕ → Option (List ℕ)
  pub kern_path : List ℕ → Lookup
  pub kzalloc : ℕ → Bool
  pub set_blocksize : ℕ → Bool

-- What is held: live objects of `kzalloc`, buffer heads, and mount references; and how many calls of
-- `kzalloc` were made.
pub record Kern : Type 0 where
  pub objs : ℕ
  pub bufs : ℕ
  pub mnts : ℕ
  pub calls : ℕ

-- `bug` is a `BUG_ON` that fires, or undefined behaviour of C.
pub data Ret {ℓ} (A : Type ℓ) : Type ℓ where
  ok : A → Ret A
  err : ℕ → Ret A
  bug : Ret A
  out_of_fuel : Ret A

abbrev pub M : Type 0 → Type 0
M A = Kern → Ret A × Kern

module _ {A : Type 0} where
  abbrev pub pure : A → M A
  pure a k = (ok a, k)

  abbrev pub raise : ℕ → M A
  raise e k = (err e, k)

  abbrev pub bug_on : M A
  bug_on k = (bug, k)

module _ {A B : Type 0} where
  abbrev pub continue : Ret A → (A → M B) → M B
  continue (ok a) f k = f a k
  continue (err e) f k = (err e, k)
  continue bug f k = (bug, k)
  continue out_of_fuel f k = (out_of_fuel, k)

  infixl 5 ◌>>=◌ ◌>>◌
  abbrev pub ◌>>=◌ : M A → (A → M B) → M B
  ◌>>=◌ m f k = let (r, k') = m k in continue r f k'

  abbrev pub ◌>>◌ : M A → M B → M B
  m >> n = m >>= λ _. n

abbrev pub cleaned : {A : Type 0} → Ret A → (Kern → Kern) → Kern → Ret A × Kern
cleaned (ok a) cleanup k = (ok a, k)
cleaned (err e) cleanup k = (err e, cleanup k)
cleaned bug cleanup k = (bug, k)
cleaned out_of_fuel cleanup k = (out_of_fuel, k)

-- `if (err) goto label`: on an error the statements behind the label are run.
abbrev pub or_cleanup : {A : Type 0} → M A → (Kern → Kern) → M A
or_cleanup m cleanup k = let (r, k') = m k in cleaned r cleanup k'

abbrev pub check_that : Bool → ℕ → M (Unit {0})
check_that true e = pure tt
check_that false e = raise e

abbrev pub kfree : Kern → Kern
kfree k = record k { objs = k.objs - 1 }

abbrev pub brelse : Kern → Kern
brelse k = record k { bufs = k.bufs - 1 }

abbrev pub mntput : Kern → Kern
mntput k = record k { mnts = k.mnts - 1 }

abbrev pub mntget : M (Unit {0})
mntget k = (ok tt, record k { mnts = k.mnts + 1 })

-- `kzalloc`, with the `return -ENOMEM` that follows it.
abbrev pub kzalloc : Env → M (Unit {0})
kzalloc env k =
    if env.kzalloc k.calls
    then (ok tt, record k { objs = k.objs + 1; calls = k.calls + 1 })
    else (err enomem, record k { calls = k.calls + 1 })

-- `sb_bread`, with the error `-EIO` of a block that cannot be read.
abbrev pub held : Option (List ℕ) → M (List ℕ)
held none k = (err eio, k)
held (some bh) k = (ok bh, record k { bufs = k.bufs + 1 })

abbrev pub sb_bread : Env → ℕ → M (List ℕ)
sb_bread env block = held (env.bread block)
