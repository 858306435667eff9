-- ===== src/File/Syncing.antt =====
-- file.c: `chunkfs_fsync_file` along a file's continuations.
use chunkfs.Base.{ℕ, zero, suc, ◌<◌, ◌≡◌, refl, ap, Option, none, List, [], ◌∷◌, arith, length}
use chunkfs.Kernel.{ok}
use chunkfs.Client.{Dentry, Client}
use chunkfs.Cont.{Continuation, Head, World}
use chunkfs.Walk.Path.{
  ContPath, last, step, HasMemory, stepped, get_next_cont-Follows, get_next_cont-Ends,
}
use chunkfs.Walk.Same.{Same, ContPath-Same}
use chunkfs.File.{fsync_from, chunkfs_fsync_file}

-- Documented behaviour of `fsync`: whatever it answers, names, inodes and attributes stay.
abbrev pub SyncKeeps : Client → Type 0
SyncKeeps c = (s : c.State) (d : Dentry) → Same c s (c.fsync s d).1

-- The clients' state after each continuation's file was synced, in order.
abbrev pub synced : (c : Client) → c.State → List Continuation → c.State
synced c fs [] = fs
synced c fs (n ∷ ns) = synced c (c.fsync fs n.co_dentry).1 ns

module _ (c : Client) (memory : HasMemory c) (keeps : SyncKeeps c) (head : Head) where
  fsync_from-ContPath :
      (fuel : ℕ) (w : World c.State) {prev : Option Continuation} {ns : List Continuation}
      → ContPath c w.fs head prev ns
      → length ns < fuel
      → ((fsync_from c head fuel prev w).0 ≡ ok tt)
        × ((fsync_from c head fuel prev w).1.fs ≡ synced c w.fs ns)
  unfolding fsync_from
  fsync_from-ContPath zero w path h = absurd (omega arith)
  fsync_from-ContPath (suc fuel) w (last {p} e) h =
      let stops = get_next_cont-Ends c memory head p w e in
      rw (ap (λ x. x.0) stops, fsync_from, ap (λ x. x.1) stops) (refl, refl)
  fsync_from-ContPath (suc fuel) w (step {prev} {n} {ns} f path) h =
      let w₁ = stepped prev w in
      let next = get_next_cont-Follows c memory head prev n w f in
      rw (ap (λ x. x.0) next, fsync_from, ap (λ x. x.1) next)
        (fsync_from-ContPath fuel (record w₁ { fs = (c.fsync w.fs n.co_dentry).1 })
          (ContPath-Same c w.fs _ (keeps w.fs n.co_dentry) head path) (omega arith))

-- `fsync` of a file calls the client's `fsync` on each continuation once, in order, and returns 0,
-- whatever the clients answer. The client's `fsync` changes no name, inode or attribute, there is
-- memory, and the fuel exceeds the number of continuations.
pub chunkfs_fsync_file-ContPath :
    (c : Client) (head : Head) (fuel : ℕ) (w : World c.State) (ns : List Continuation)
    → HasMemory c
    → SyncKeeps c
    → ContPath c w.fs head none ns
    → length ns < fuel
    → let (r, w') = chunkfs_fsync_file c fuel head w in (r ≡ ok tt) × (w'.fs ≡ synced c w.fs ns)
unfolding chunkfs_fsync_file
chunkfs_fsync_file-ContPath c head fuel w ns memory keeps path h =
    fsync_from-ContPath c memory keeps head fuel w path h
