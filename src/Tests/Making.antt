-- ===== src/Tests/Making.antt =====
-- `mkfs.chunkfs` on a device of one chunk, and the mount of what it leaves.
use chunkfs.Base.{ℕ, ◌+◌, ◌*◌, ◌≡◌, ◌≢◌, ◌∙◌, refl, sym, ap, true, some, List, [], ◌∷◌, arith}
use mathlib.Core.Path.{subst}
use chunkfs.Device.{Disk, read_at}
use chunkfs.Format.{blk_size, chunk_size, check_chunk}
use chunkfs.Format.Bytes.{get_le}
use chunkfs.Kernel.{Env, Kern, Mnt, found, ok, err, eio}
use chunkfs.Mount.{PoolInfo, read_pool}
use chunkfs.Mkfs.{Io, Run, done, failed, undefined, out_of_fuel, mkfs, summaries_loop}
use chunkfs.Mkfs.Summaries.{Works, with_summaries, summaries_loop_done}
use chunkfs.NewFs.Device.{Holds, first_chunk, new_device, mkfs_done}
use chunkfs.NewFs.Chain.{Serves}
use chunkfs.NewFs.Mounts.{All, Finds, root_dev_ids}
use chunkfs.NewFs.Roots.{mkfs-read_pool}
use chunkfs.NewFs.Ghost.{ghost_unwritten, mkfs-read_pool_ghost}

abbrev pub io : ℕ → Io
io size = record {
  opens = λ name. true;
  st_size = some size;
  seeks = λ o. true;
  writes = λ o. true;
}

pub io-Works : (size : ℕ) → Works (io size)
io-Works size = record { seeks = λ o. refl; writes = λ o. refl }

abbrev pub zeros : Disk
zeros i = 0

abbrev pub name : List ℕ
name = b'd' ∷ []

abbrev pub argv : List (List ℕ)
argv = [] ∷ (name ∷ [])

-- One chunk, and some bytes more.
abbrev pub size : ℕ
size = 40960 + 10485760 + 5000

-- One byte more than one chunk needs, and the next chunk would.
abbrev ghost_size : ℕ
ghost_size = first_chunk + 1 + (0 + 2) * chunk_size

pub holds : Holds 1 size
holds = record { lower = omega arith; upper = omega arith; size = omega arith }

ghost-Holds : Holds 1 ghost_size
ghost-Holds = record { lower = omega arith; upper = omega arith; size = omega arith }

abbrev pub client : ℕ → Mnt
client id = record { mnt = 1; mnt_sb = 2 }

-- A kernel that reads the disk.
abbrev pub env : Disk → Env
env d = record {
  bread = λ b. some (read_at d (b * blk_size) blk_size);
  kern_path = λ path. found (record { mnt = 1; mnt_sb = 2 });
  kzalloc = λ n. true;
  set_blocksize = λ b. true;
}

env-Serves : (raw : ℕ) (d : Disk) → Serves (env d) client raw d
env-Serves raw d = record { blocks = λ b h. refl; mounts = λ id. refl }

abbrev pub written : Run Disk → Disk
written (done d) = d
written failed = zeros
written undefined = zeros
written out_of_fuel = zeros

pub Serves-all :
    (raw : ℕ) (d d' : Disk) (r : Run Disk) → r ≡ done d → r ≡ done d' → Serves (env d) client raw d'
Serves-all raw d d' r e e' =
    subst (λ x. Serves (env d) client raw x) (ap written (sym e ∙ e')) (env-Serves raw d)

abbrev pub idle : Kern
idle = record { objs = 0; bufs = 0; mnts = 0; calls = 0 }

mkfs_done_here : mkfs (io size) 2 argv zeros ≡ done (new_device 1 size zeros)
mkfs_done_here =
    mkfs_done (io size) 2 1 size [] name zeros (io-Works size) refl refl (omega arith) holds
      (omega arith)

pub made : mkfs (io size) 2 argv zeros ≡ done (new_device 1 size zeros)
made =
    mkfs_done (io size) 2 1 size [] name zeros (io-Works size) refl refl (omega arith) holds
      (omega arith)

made_ghost : mkfs (io ghost_size) 2 argv zeros ≡ done (new_device 1 ghost_size zeros)
made_ghost =
    mkfs_done (io ghost_size) 2 1 ghost_size [] name zeros (io-Works ghost_size) refl refl
      (omega arith) ghost-Holds (omega arith)

mkfs-read_pool_here :
    (pool : PoolInfo) × ((read_pool (env (new_device 1 size zeros)) 2 idle).0 ≡ ok pool)
    × (root_dev_ids pool ≡ some (1 ∷ []))
    × All (Finds pool client) (1 ∷ [])
mkfs-read_pool_here =
    mkfs-read_pool (io size) 2 0 size [] name zeros (env (new_device 1 size zeros)) client idle
      (io-Works size) refl refl (omega arith) holds (omega arith) (omega arith) (omega arith)
      (λ n. refl) (λ d' e. Serves-all size (new_device 1 size zeros) d' _ made e)

zeros_unchecked : check_chunk (read_at zeros (first_chunk + 1 * chunk_size) blk_size) ≢ 0
unfolding check_chunk read_at get_le
zeros_unchecked e = absurd (omega arith)

mkfs-read_pool_ghost_example :
    Holds 1 ghost_size × ((read_pool (env (new_device 1 ghost_size zeros)) 2 idle).0 ≡ err eio)
mkfs-read_pool_ghost_example =
    mkfs-read_pool_ghost (io ghost_size) 2 0 [] name zeros (env (new_device 1 ghost_size zeros))
      client idle (io-Works ghost_size) refl refl (omega arith) (omega arith) (omega arith)
      (λ n. refl) zeros_unchecked
      (λ d' e. Serves-all ghost_size (new_device 1 ghost_size zeros) d' _ made_ghost e)

ghost_unwritten_here :
    read_at (new_device 1 size zeros) (first_chunk + 1 * chunk_size) blk_size
    ≡ read_at zeros (first_chunk + 1 * chunk_size) blk_size
ghost_unwritten_here = ghost_unwritten 0 size zeros holds

summaries_loop_done_example :
    summaries_loop (io size) 3 30000000 40960 1 zeros
    ≡ done (with_summaries 2 30000000 40960 1 zeros)
summaries_loop_done_example =
    summaries_loop_done (io size) 3 2 30000000 40960 1 zeros (io-Works size)
      (record {
        enough = omega arith;
        last = omega arith;
        size = omega arith;
        begins = omega arith;
      })
      (omega arith) (omega arith)
