-- ===== src/Names/Refusals.antt =====
-- namei.c: the errors of symlink, mkdir and mknod.
use chunkfs.Base.{ℕ, ◌≡◌, some, true}
use chunkfs.Kernel.{Ret, ok, err, bug, out_of_fuel}
use chunkfs.Client.{Client}
use chunkfs.Cont.{World}
use chunkfs.Names.{Dirs}

-- Whatever errors there are are as `P` says.
abbrev Errs : {A S : Type 0} → (ℕ → World S → Type 0) → Ret A × World S → Type 0
Errs P (ok a, w) = Unit
Errs P (err e, w) = P e w
Errs P (bug, w) = Unit
Errs P (out_of_fuel, w) = Unit

abbrev Never : {S : Type 0} → ℕ → World S → Type 0
Never e w = ⊥

module _ (c : Client) (dirs : Dirs c) where
  abbrev BadInode : World c.State → ℕ → World c.State → Type 0
  BadInode w e w' = (e ≡ 5) × (dirs.new_inode w.calls ≡ some true) × (w'.fs ≡ w.fs)
