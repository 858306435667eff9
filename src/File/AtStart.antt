-- ===== src/File/AtStart.antt =====
-- file.c: `chunkfs_open` on a file.
use chunkfs.Base.{ℕ, ◌-◌, ◌<◌, ◌≡◌, sym, ap, none, List, arith}
use mathlib.Core.Path.{subst}
use chunkfs.Kernel.{ok}
use chunkfs.Client.{Inode, Client}
use chunkfs.Cont.{Continuation, Head, World}
use chunkfs.Walk.Search.{end_from, Holder}
use chunkfs.File.{OpenFile, chunkfs_open}
use chunkfs.File.Sizes.{InodePath}
use chunkfs.File.Opening.{IsFile, at_offset, closed, opened_at, close_cont_file_lem}

-- Opening a file that is not empty changes no client, and shows it at its start.
pub chunkfs_open_lem :
    (c : Client) (head : Head) (fuel : ℕ) (file : OpenFile) (w : World c.State)
    (ns : List Continuation) (is : List Inode)
    → IsFile c head fuel w.fs ns is
    → 0 < end_from 0 ns
    → (n : Continuation) × Holder 0 ns n
      × (w' : World c.State) × (w'.fs ≡ w.fs)
      × (chunkfs_open c fuel head file w ≡ (ok (closed c w.fs is (at_offset n 0) n), w'))
      × ((closed c w.fs is (at_offset n 0) n).f_pos ≡ 0)
unfolding chunkfs_open
chunkfs_open_lem c head fuel file w ns is f inside =
    let (n, holds, w', same, e) = opened_at c head fuel file 0 w ns is f inside in
    let path = subst (λ s. InodePath c s head none is) (sym same) f.inodes in
    let closes = close_cont_file_lem c head fuel file (at_offset n 0) n w' is path f.inode_rounds in
    let w'' : World c.State = record w' { conts = w'.conts - 1 } in
    (
      n,
      holds,
      w'',
      same,
      rw (e, closes) (ap (λ s. (ok (closed c s is (at_offset n 0) n), w'')) same),
      omega (arith, holds.from),
    )
