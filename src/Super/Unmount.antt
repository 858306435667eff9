-- ===== src/Super/Unmount.antt =====
-- super.c: what `chunkfs_fill_super` holds when it returns, and what an unmount gives back.
use chunkfs.Base.{◌+◌, ◌≡◌, ◌⊎◌, none, some}
use chunkfs.Kernel.{Ret, ok, err, bug, out_of_fuel}
use chunkfs.Mount.{PoolInfo, free_pool}
use chunkfs.Mount.Held.{Holds}
use chunkfs.Client.{Client}
use chunkfs.Cont.{World}
use chunkfs.Names.{Dirs, Node}
use chunkfs.Dentries.{Pins, release_dentry}
use chunkfs.Dentries.Balance.{Pinned}
use chunkfs.Super.{RootOps, SuperBlock, put_super}

-- The release of the dentry gives back what is held.
abbrev pub Released : {S : Type 0} → Pins S → Pins S → Type 0
Released p q =
    ((release_dentry q).0 ≡ ok tt)
    × Pinned p 0 0 0 (release_dentry q).1
    × ((release_dentry q).1.d_fsdata ≡ none)

abbrev Rooted : {S : Type 0} → Pins S → Ret Node × Pins S → Type 0
Rooted p (ok node, q) = Pinned p 2 2 1 q × Released p q
Rooted p (err e, q) = Unit
Rooted p (bug, q) = Unit
Rooted p (out_of_fuel, q) = Unit

module _ (c : Client) (dirs : Dirs c) (vfs : RootOps c.State) (p : Pins c.State)
    (e : p.d_fsdata ≡ none) where
  -- With the references of the path and of `dget`.
  abbrev referenced : World c.State → Pins c.State
  referenced w = record p { world = w; drefs = p.drefs + 1 + 1; mnts = p.mnts + 1 }

-- After a success the release of the root dentry and `put_super` give everything back. After an error
-- either nothing of the kernel's is held, or the whole pool still is.
abbrev pub Mounts : {S : Type 0} → SuperBlock S → Ret Node × SuperBlock S → Type 0
Mounts sb (ok node, sb') =
    Released sb.pins sb'.pins
    × ((put_super sb').0 ≡ ok tt)
    × Holds sb.kern 0 0 0 (put_super sb').1.kern
    × ((put_super sb').1.s_fs_info ≡ none)
Mounts sb (err e, sb') =
    (Holds sb.kern 0 0 0 sb'.kern × (sb'.s_fs_info ≡ sb.s_fs_info))
    ⊎ ((pi : PoolInfo) × (sb'.s_fs_info ≡ some pi) × Holds sb.kern 0 0 0 (free_pool pi sb'.kern))
Mounts sb (bug, sb') = Unit
Mounts sb (out_of_fuel, sb') = Unit
